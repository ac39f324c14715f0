-- ===== src/Engine/Metrics/Rtt.antt =====
-- Round trips: which send time an ack measures, and what it leaves of the queue.
use tcp_visr.Base.{
  ◌≡◌, refl, Option, none, some, List, [], ◌∷◌, ◌++◌, true, false, All, inl, inr, Bool-cases, ap,
}
use tcp_visr.Core.Time.{Nanos}
use tcp_visr.Core.Seq.{TcpSeq}
use tcp_visr.Core.Segment.{Segment}
use tcp_visr.Engine.Conn.{Direction}
use tcp_visr.Engine.Config.{EngineConfig}
use tcp_visr.Engine.Metrics.{
  DirState, MetricState, serial_le, dir_state, opposite, observe, ack_advances, acknowledge,
  pop_acked, or_first, elapsed, take_rtt, receiver_after, sender_after,
}
use tcp_visr.Engine.Metrics.Frame.{dir_state-put_dirs}

-- The send time of the first entry.
abbrev pub first_sent : List (TcpSeq × Nanos) → Option Nanos
first_sent [] = none
first_sent (e ∷ es) = some e.1

abbrev keep_first : Option Nanos → Option Nanos → Option Nanos
keep_first none o = o
keep_first (some t) o = some t

-- The front of the queue is not covered by the ack.
abbrev pub Stops : TcpSeq → List (TcpSeq × Nanos) → Type 0
Stops ack [] = Unit
Stops ack (e ∷ es) = serial_le e.0 ack ≡ false

-- The queue splits in what the ack covers, which goes, and the rest, which stays.
abbrev pub Split : TcpSeq → List (TcpSeq × Nanos) → List (TcpSeq × Nanos) → Option Nanos → Type 0
Split ack pend rest oldest =
    (gone : List (TcpSeq × Nanos)) × (pend ≡ gone ++ rest)
    × All (λ e. serial_le e.0 ack ≡ true) gone
    × Stops ack rest
    × (oldest ≡ first_sent gone)

SplitFrom :
    TcpSeq → List (TcpSeq × Nanos) → Option Nanos → List (TcpSeq × Nanos) → Option Nanos → Type 0
SplitFrom ack pend start rest oldest =
    (gone : List (TcpSeq × Nanos)) × (pend ≡ gone ++ rest)
    × All (λ e. serial_le e.0 ack ≡ true) gone
    × Stops ack rest
    × (oldest ≡ keep_first start (first_sent gone))

pop_acked-SplitFrom :
    (ack : TcpSeq) (pend : List (TcpSeq × Nanos)) (start : Option Nanos)
    → SplitFrom ack pend start (pop_acked ack pend start).0 (pop_acked ack pend start).1
unfolding pop_acked SplitFrom
pop_acked-SplitFrom ack [] none = ([], refl, tt, tt, refl)
pop_acked-SplitFrom ack [] (some t) = ([], refl, tt, tt, refl)
pop_acked-SplitFrom ack ((es, ts) ∷ pend) start = elim (Bool-cases (serial_le es ack)) [
  | inl covered ↦
      let (gone, e, c, s, o) = pop_acked-SplitFrom ack pend (or_first start ts) in
      rw covered ((es, ts) ∷ gone, ap (◌∷◌ (es, ts)) e, (covered, c), s, keep start gone o)
  | inr stop ↦ rw stop ([], refl, tt, stop, unchanged start)
]
  where
    unchanged : (start : Option Nanos) → start ≡ keep_first start none
    unchanged none = refl
    unchanged (some t) = refl

    keep :
        (start : Option Nanos) (gone : List (TcpSeq × Nanos)) {r : Option Nanos}
        → r ≡ keep_first (or_first start ts) (first_sent gone)
        → r ≡ keep_first start (some ts)
    keep none gone h = h
    keep (some t) gone h = h

receiver_after-advance :
    (seg : Segment) (o : DirState)
    → ack_advances seg o ≡ true
    → ((receiver_after seg o).0.pending_rtt ≡ (pop_acked seg.ack o.pending_rtt none).0)
      × ((receiver_after seg o).1 ≡ elapsed seg.ts (pop_acked seg.ack o.pending_rtt none).1)
unfolding receiver_after take_rtt acknowledge
receiver_after-advance seg o h = rw h (refl, refl)

receiver_after-keep :
    (seg : Segment) (o : DirState)
    → ack_advances seg o ≡ false
    → ((receiver_after seg o).0.pending_rtt ≡ o.pending_rtt) × ((receiver_after seg o).1 ≡ none)
unfolding receiver_after take_rtt acknowledge
receiver_after-keep seg o h = rw h (refl, refl)

-- An ack that advances removes from the queue of the other direction exactly the leading entries
-- that it covers, and its round trip is the time since the oldest of those, or none where it
-- covers none.
pub observe-rtt :
    (m : MetricState) (seg : Segment) (dir : Direction) (cfg : EngineConfig)
    → ack_advances seg (dir_state m (opposite dir)) ≡ true
    → (oldest : Option Nanos) × Split seg.ack
        (dir_state m (opposite dir)).pending_rtt
        (dir_state (observe m seg dir cfg).0 (opposite dir)).pending_rtt
        oldest
      × ((observe m seg dir cfg).1.rtt ≡ elapsed seg.ts oldest)
unfolding observe SplitFrom
observe-rtt m seg dir cfg advances =
    let o = dir_state m (opposite dir) in
    let back =
      (dir_state-put_dirs dir (sender_after cfg seg (dir_state m dir))
        (receiver_after seg o).0).1 in
    let (pend, time) = receiver_after-advance seg o advances in
    let (gone, e, c, s, f) = pop_acked-SplitFrom seg.ack o.pending_rtt none in
    rw (back, pend, time) ((pop_acked seg.ack o.pending_rtt none).1, (gone, e, c, s, f), refl)

-- A segment whose ack does not advance measures no round trip and leaves the queue of the other
-- direction as it was.
pub observe-rtt_none :
    (m : MetricState) (seg : Segment) (dir : Direction) (cfg : EngineConfig)
    → ack_advances seg (dir_state m (opposite dir)) ≡ false
    → ((observe m seg dir cfg).1.rtt ≡ none)
      × ((dir_state (observe m seg dir cfg).0 (opposite dir)).pending_rtt
          ≡ (dir_state m (opposite dir)).pending_rtt)
unfolding observe
observe-rtt_none m seg dir cfg stays =
    let o = dir_state m (opposite dir) in
    let back =
      (dir_state-put_dirs dir (sender_after cfg seg (dir_state m dir))
        (receiver_after seg o).0).1 in
    let (pend, time) = receiver_after-keep seg o stays in rw (back, pend, time) (refl, refl)

-- What a segment leaves of the queue of the other direction is a final part of it.
pub receiver_after-suffix :
    (seg : Segment) (o : DirState)
    → (gone : List (TcpSeq × Nanos)) × (o.pending_rtt
        ≡ gone ++ (receiver_after seg o).0.pending_rtt)
unfolding SplitFrom
receiver_after-suffix seg o = elim (Bool-cases (ack_advances seg o)) [
  | inl advances ↦
      let (gone, e, _, _, _) = pop_acked-SplitFrom seg.ack o.pending_rtt none in
      rw (receiver_after-advance seg o advances).0 (gone, e)
  | inr stays ↦ rw (receiver_after-keep seg o stays).0 ([], refl)
]
