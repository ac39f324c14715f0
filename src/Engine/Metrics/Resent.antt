-- ===== src/Engine/Metrics/Resent.antt =====
-- Of step 4 of `observe` in crates/tcpvisr-engine/src/metrics.rs: the pending sends of a direction,
-- and whether it sent a retransmission since.
use tcp_visr.Base.{
  ◌≡◌, refl, ap, sym, ◌∙◌, arith, Bool, true, false, ◌&&◌, ◌||◌, List, [], ◌∷◌, ◌++◌, append_assoc,
  append-nil, All, All-append, All-append_right, All-map, Bool-cases, inl, inr, if◌then◌else◌,
}
use tcp_visr.Core.Time.{Nanos}
use tcp_visr.Core.Seq.{TcpSeq}
use tcp_visr.Core.Segment.{Segment}
use tcp_visr.Engine.Conn.{Direction}
use tcp_visr.Engine.Config.{EngineConfig}
use tcp_visr.Engine.Metrics.{
  DirState, MetricState, seq_end, consumes_seq, observe, queue_rtt, classify, is_retransmit,
  sender_after,
}
use tcp_visr.Engine.Metrics.Frame.{sender_after-fields}
use tcp_visr.Engine.Metrics.History.{observe_all, same_dir}

abbrev pub Log : Type 0
Log = List (Segment × Direction)

-- Some segment of `dir` in the run is reported as a retransmission.
pub resent_in : EngineConfig → Direction → MetricState → Log → Bool
resent_in cfg dir m [] = false
resent_in cfg dir m ((seg, d) ∷ xs) =
    (same_dir dir d && (observe m seg d cfg).1.retransmit)
    || resent_in cfg dir (observe m seg d cfg).0 xs

-- The queue of the sender after one of its segments.
pub queued : Bool → Segment → List (TcpSeq × Nanos) → List (TcpSeq × Nanos)
queued true seg pend = []
queued false seg pend = pend ++ (if consumes_seq seg then (seq_end seg, seg.ts) ∷ [] else [])

pub sender_after-pending :
    (cfg : EngineConfig) (seg : Segment) (d : DirState)
    → (sender_after cfg seg d).pending_rtt
      ≡ queued (is_retransmit (classify cfg seg d)) seg d.pending_rtt
unfolding queued queue_rtt
sender_after-pending cfg seg d =
    let e = (sender_after-fields cfg seg d).pending in
    elim (Bool-cases (is_retransmit (classify cfg seg d))) [
      | inl again ↦ rw (e, again) refl
      | inr once ↦ elim (Bool-cases (consumes_seq seg)) [
        | inl counts ↦ rw (e, once, counts) refl
        | inr bare ↦ rw (e, once, bare) (sym (append-nil d.pending_rtt))
      ]
    ]

-- The entry is of a segment of `dir` in the run, from which on `dir` sent no retransmission.
abbrev pub IsClean : EngineConfig → Direction → MetricState → Log → TcpSeq × Nanos → Type 0
IsClean cfg dir m xs e =
    (before after : Log) × (seg : Segment) × (xs ≡ before ++ (seg, dir) ∷ after)
    × (consumes_seq seg ≡ true)
    × (e ≡ (seq_end seg, seg.ts))
    × (resent_in cfg dir (observe_all cfg m before) ((seg, dir) ∷ after) ≡ false)

pub observe_all-append :
    (cfg : EngineConfig) (m : MetricState) (xs ys : Log)
    → observe_all cfg m (xs ++ ys) ≡ observe_all cfg (observe_all cfg m xs) ys
unfolding observe_all
observe_all-append cfg m [] ys = refl
observe_all-append cfg m ((seg, d) ∷ xs) ys = observe_all-append cfg (observe m seg d cfg).0 xs ys

resent_in-append :
    (cfg : EngineConfig) (dir : Direction) (m : MetricState) (xs ys : Log)
    → resent_in cfg dir m xs ≡ false
    → resent_in cfg dir (observe_all cfg m xs) ys ≡ false
    → resent_in cfg dir m (xs ++ ys) ≡ false
unfolding resent_in observe_all
resent_in-append cfg dir m [] ys h k = k
resent_in-append cfg dir m ((seg, d) ∷ xs) ys h k =
    ground (arith, resent_in-append cfg dir (observe m seg d cfg).0 xs ys)

and_false : (b : Bool) → (b && false) ≡ false
and_false true = refl
and_false false = refl

module _ (cfg : EngineConfig) (dir : Direction) (m : MetricState) where
  IsClean-snoc :
      (xs : Log) (seg : Segment) (d : Direction) (e : TcpSeq × Nanos)
      → (same_dir dir d && (observe (observe_all cfg m xs) seg d cfg).1.retransmit) ≡ false
      → IsClean cfg dir m xs e
      → IsClean cfg dir m (xs ++ (seg, d) ∷ []) e
  unfolding resent_in
  IsClean-snoc xs seg d e h (before, after, sent, split, c, same, clean) =
      let last = (sent, dir) ∷ after in
      let there : observe_all cfg (observe_all cfg m before) last ≡ observe_all cfg m xs =
        sym (observe_all-append cfg m before last) ∙ ap (observe_all cfg m) (sym split) in
      (
        before,
        after ++ (seg, d) ∷ [],
        sent,
        ap (λ l. l ++ (seg, d) ∷ []) split ∙ append_assoc before last ((seg, d) ∷ []),
        c,
        same,
        resent_in-append cfg dir (observe_all cfg m before) last ((seg, d) ∷ []) clean
            (rw (there, h) refl),
      )

  -- The queue of `dir` after one more of its segments.
  pub queued-IsClean :
      (xs : Log) (seg : Segment) (k : Bool) (pend : List (TcpSeq × Nanos))
      → (observe (observe_all cfg m xs) seg dir cfg).1.retransmit ≡ k
      → All (IsClean cfg dir m xs) pend
      → All (IsClean cfg dir m (xs ++ (seg, dir) ∷ [])) (queued k seg pend)
  unfolding queued resent_in
  queued-IsClean xs seg true pend h a = tt
  queued-IsClean xs seg false pend h a =
      let clean : (same_dir dir dir && (observe (observe_all cfg m xs) seg dir cfg).1.retransmit)
          ≡ false =
        rw h (and_false (same_dir dir dir)) in
      All-append (IsClean cfg dir m (xs ++ (seg, dir) ∷ [])) pend _
        (All-map (IsClean cfg dir m xs) (IsClean cfg dir m (xs ++ (seg, dir) ∷ [])) pend
          (λ e. IsClean-snoc xs seg dir e clean) a)
        (elim (Bool-cases (consumes_seq seg)) [
          | inl counts ↦ rw counts (((xs, [], seg, refl, counts, refl, rw clean refl)), tt)
          | inr bare ↦ rw bare tt
        ])

  pub kept-IsClean :
      (xs : Log) (seg : Segment) (d : Direction) (pend gone left : List (TcpSeq × Nanos))
      → same_dir dir d ≡ false
      → pend ≡ gone ++ left
      → All (IsClean cfg dir m xs) pend
      → All (IsClean cfg dir m (xs ++ (seg, d) ∷ [])) left
  kept-IsClean xs seg d pend gone left other split a =
      All-map (IsClean cfg dir m xs) (IsClean cfg dir m (xs ++ (seg, d) ∷ [])) left
        (λ e. IsClean-snoc xs seg d e (rw other refl))
        (All-append_right (IsClean cfg dir m xs) gone left (rw split at a))
