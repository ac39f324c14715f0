-- ===== src/Engine/Metrics/Karn.antt =====
-- Of step 4 of `observe` in crates/tcpvisr-engine/src/metrics.rs, over the run of a connection:
-- Karn's rule, that a round trip is not measured across a retransmission.
use tcp_visr.Base.{
  ◌≡◌, refl, arith, true, false, some, List, [], ◌∷◌, ◌++◌, append_assoc, append-nil, All,
  All-append_left, Bool-cases, inl, inr, saturating_sub,
}
use tcp_visr.Core.Time.{Nanos}
use tcp_visr.Core.Seq.{TcpSeq}
use tcp_visr.Core.Segment.{Segment}
use tcp_visr.Engine.Conn.{Direction, o2r, r2o}
use tcp_visr.Engine.Config.{EngineConfig}
use tcp_visr.Engine.Metrics.{
  MetricState, serial_le, seq_end, consumes_seq, dir_state, opposite, put_dirs, observe,
  new_metrics, ack_advances, classify, is_retransmit, elapsed,
}
use tcp_visr.Engine.Metrics.History.{observe_all}
use tcp_visr.Engine.Metrics.Rtt.{first_sent, receiver_after-suffix, observe-rtt, observe-rtt_none}
use tcp_visr.Engine.Metrics.Resent.{
  Log, sender_after-pending, resent_in, IsClean, observe_all-append, queued-IsClean, kept-IsClean,
}

-- The queue of `dir` after one more segment.
observe-IsClean :
    (cfg : EngineConfig) (dir d : Direction) (m : MetricState) (xs : Log) (seg : Segment)
    → All (IsClean cfg dir m xs) (dir_state (observe_all cfg m xs) dir).pending_rtt
    → All
        (IsClean cfg dir m (xs ++ (seg, d) ∷ []))
        (dir_state (observe (observe_all cfg m xs) seg d cfg).0 dir).pending_rtt
unfolding observe dir_state put_dirs opposite
observe-IsClean cfg o2r o2r m xs seg a =
    let s = (observe_all cfg m xs).forward in
    rw (sender_after-pending cfg seg s)
      (queued-IsClean cfg o2r m xs seg (is_retransmit (classify cfg seg s)) s.pending_rtt refl a)
observe-IsClean cfg r2o r2o m xs seg a =
    let s = (observe_all cfg m xs).backward in
    rw (sender_after-pending cfg seg s)
      (queued-IsClean cfg r2o m xs seg (is_retransmit (classify cfg seg s)) s.pending_rtt refl a)
observe-IsClean cfg o2r r2o m xs seg a =
    let o = (observe_all cfg m xs).forward in
    let (gone, split) = receiver_after-suffix seg o in
    kept-IsClean cfg o2r m xs seg r2o o.pending_rtt gone _ refl split a
observe-IsClean cfg r2o o2r m xs seg a =
    let o = (observe_all cfg m xs).backward in
    let (gone, split) = receiver_after-suffix seg o in
    kept-IsClean cfg r2o m xs seg o2r o.pending_rtt gone _ refl split a

observe_all-IsClean :
    (cfg : EngineConfig) (dir : Direction) (m : MetricState) (xs ys : Log)
    → All (IsClean cfg dir m xs) (dir_state (observe_all cfg m xs) dir).pending_rtt
    → All (IsClean cfg dir m (xs ++ ys)) (dir_state (observe_all cfg m (xs ++ ys)) dir).pending_rtt
unfolding observe_all
observe_all-IsClean cfg dir m xs [] a = rw append-nil a
observe_all-IsClean cfg dir m xs ((seg, d) ∷ ys) a =
    let step = observe-IsClean cfg dir d m xs seg a in
    let there = observe_all-append cfg m xs ((seg, d) ∷ []) in
    rw (← append_assoc xs ((seg, d) ∷ []) ys)
      (observe_all-IsClean cfg dir m (xs ++ (seg, d) ∷ []) ys (rw there step))

new-IsClean :
    (cfg : EngineConfig) (dir : Direction)
    → All
        (IsClean cfg dir new_metrics [])
        (dir_state (observe_all cfg new_metrics []) dir).pending_rtt
unfolding dir_state new_metrics observe_all
new-IsClean cfg o2r = tt
new-IsClean cfg r2o = tt

opposite-opposite : (dir : Direction) → opposite (opposite dir) ≡ dir
unfolding opposite
opposite-opposite o2r = refl
opposite-opposite r2o = refl

-- The run splits at a segment of `dir` that counts in sequence space and that the ack covers; the
-- round trip is the time since it, and from it on `dir` sent no retransmission.
abbrev pub Measures : EngineConfig → Direction → Log → Segment → Nanos → Type 0
Measures cfg dir xs ack rtt =
    (before after : Log) × (seg : Segment) × (xs ≡ before ++ (seg, dir) ∷ after)
    × (consumes_seq seg ≡ true)
    × (serial_le (seq_end seg) ack.ack ≡ true)
    × (rtt ≡ saturating_sub ack.ts seg.ts)
    × (resent_in cfg dir (observe_all cfg new_metrics before) ((seg, dir) ∷ after) ≡ false)

first-Measures :
    (cfg : EngineConfig) (dir : Direction) (xs : Log) (ack : Segment) (rtt : Nanos)
    (gone : List (TcpSeq × Nanos))
    → All (λ e. serial_le e.0 ack.ack ≡ true) gone
    → All (IsClean cfg dir new_metrics xs) gone
    → elapsed ack.ts (first_sent gone) ≡ some rtt
    → Measures cfg dir xs ack rtt
first-Measures cfg dir xs ack rtt [] covered a e = cc
first-Measures cfg dir xs ack rtt (entry ∷ gone) covered a e =
    let (before, after, seg, split, c, same, clean) = a.0 in
    let covers = covered.0 in (before, after, seg, split, c, rw same at covers, ground arith, clean)

-- After any segments, the round trip that a segment measures is the time since some segment of the
-- other direction that consumes sequence numbers and that its ack covers, and neither that segment
-- nor any later one of its direction was a retransmission.
pub observe-rtt_karn :
    (cfg : EngineConfig) (dir : Direction) (xs : List (Segment × Direction)) (ack : Segment)
    (rtt : Nanos)
    → (observe (observe_all cfg new_metrics xs) ack (opposite dir) cfg).1.rtt ≡ some rtt
    → Measures cfg dir xs ack rtt
observe-rtt_karn cfg dir xs ack rtt h =
    let m = observe_all cfg new_metrics xs in
    let back = opposite-opposite dir in
    let a = observe_all-IsClean cfg dir new_metrics [] xs (new-IsClean cfg dir) in
    elim (Bool-cases (ack_advances ack (dir_state m (opposite (opposite dir))))) [
      | inl advances ↦
          let (oldest, (gone, split, covered, _, first), measured) =
            observe-rtt m ack (opposite dir) cfg advances in
          let split' = rw back at split in
          first-Measures cfg dir xs ack rtt gone covered
            (All-append_left (IsClean cfg dir new_metrics xs) gone _ (rw split' at a)) (cc)
      | inr stays ↦ let unmeasured = (observe-rtt_none m ack (opposite dir) cfg stays).0 in cc
    ]
