-- ===== src/Engine/Metrics/Frame.antt =====
-- Which fields each step of `observe` leaves alone, and what the sender's state is in the end.
use tcp_visr.Base.{ℕ, ◌≡◌, refl, arith, Bool, Option, none, some}
use tcp_visr.Core.Segment.{Segment}
use tcp_visr.Engine.Conn.{Direction, o2r, r2o}
use tcp_visr.Engine.Config.{EngineConfig}
use tcp_visr.Engine.Metrics.{
  DirState, Kind, dir_state, put_dirs, opposite, sender_after, receiver_after, send, classify,
  advance_frontier, queue_rtt, window_push_and_evict, push_window, evict_to, is_retransmit,
  acknowledge, take_rtt,
}

pub dir_state-put_dirs :
    (dir : Direction) (d o : DirState)
    → (dir_state (put_dirs dir d o) dir ≡ d) × (dir_state (put_dirs dir d o) (opposite dir) ≡ o)
unfolding dir_state put_dirs opposite
dir_state-put_dirs o2r d o = (refl, refl)
dir_state-put_dirs r2o d o = (refl, refl)

pub record SameFlight (d e : DirState) : Type 0 where
  pub snd_nxt : d.snd_nxt ≡ e.snd_nxt
  pub acked : d.acked ≡ e.acked

pub record SameFrontier (d e : DirState) : Type 0 where
  pub frontier : d.frontier ≡ e.frontier
  pub last_data_ts : d.last_data_ts ≡ e.last_data_ts

pub record SameWindow (d e : DirState) : Type 0 where
  pub tput : d.tput ≡ e.tput
  pub tput_max_ts : d.tput_max_ts ≡ e.tput_max_ts

pub record SameSteps (d e : DirState) : Type 0 where
  pub flight : SameFlight d e
  pub frontier : SameFrontier d e
  pub pending : d.pending_rtt ≡ e.pending_rtt

evict_to-SameSteps : (w : ℕ) (d : DirState) (o : Option ℕ) → SameSteps (evict_to w d o) d
unfolding evict_to
evict_to-SameSteps w d none = ground arith
evict_to-SameSteps w d (some m) = ground arith

push_window-SameSteps :
    (again : Bool) (seg : Segment) (d : DirState) → SameSteps (push_window again seg d) d
unfolding push_window
push_window-SameSteps again seg d = ground arith

push_window-SameWindow :
    (again : Bool) (seg : Segment) (d e : DirState)
    → SameWindow d e
    → SameWindow (push_window again seg d) (push_window again seg e)
unfolding push_window
push_window-SameWindow again seg d e h = ground arith

evict_to-SameWindow :
    (w : ℕ) (d e : DirState) (o : Option ℕ)
    → SameWindow d e
    → SameWindow (evict_to w d o) (evict_to w e o)
unfolding evict_to
evict_to-SameWindow w d e none h = ground arith
evict_to-SameWindow w d e (some m) h = ground arith

window-SameSteps :
    (again : Bool) (seg : Segment) (cfg : EngineConfig) (d : DirState)
    → SameSteps (window_push_and_evict again seg cfg d) d
unfolding window_push_and_evict
window-SameSteps again seg cfg d = ground (
  arith,
  push_window-SameSteps again seg d,
  evict_to-SameSteps cfg.throughput_window (push_window again seg d)
      (push_window again seg d).tput_max_ts,
)

-- The window reads and writes its own fields only.
window-SameWindow :
    (again : Bool) (seg : Segment) (cfg : EngineConfig) (d e : DirState)
    → SameWindow d e
    → SameWindow (window_push_and_evict again seg cfg d) (window_push_and_evict again seg cfg e)
unfolding window_push_and_evict
window-SameWindow again seg cfg d e s = ground (
  arith,
  push_window-SameWindow again seg d e s,
  evict_to-SameWindow cfg.throughput_window (push_window again seg d) (push_window again seg e)
      (push_window again seg d).tput_max_ts,
)

queue_rtt-frame :
    (k : Kind) (seg : Segment) (d : DirState)
    → SameFlight (queue_rtt k seg d) d
      × SameFrontier (queue_rtt k seg d) d
      × SameWindow (queue_rtt k seg d) d
unfolding queue_rtt
queue_rtt-frame k seg d = (ground arith, ground arith, ground arith)

queue_rtt-pending :
    (k : Kind) (seg : Segment) (d e : DirState)
    → d.pending_rtt ≡ e.pending_rtt
    → (queue_rtt k seg d).pending_rtt ≡ (queue_rtt k seg e).pending_rtt
unfolding queue_rtt
queue_rtt-pending k seg d e h = ground arith

advance_frontier-frame :
    (seg : Segment) (d : DirState)
    → SameFlight (advance_frontier seg d) d
      × SameWindow (advance_frontier seg d) d
      × ((advance_frontier seg d).pending_rtt ≡ d.pending_rtt)
unfolding advance_frontier
advance_frontier-frame seg d = (ground arith, ground arith, ground arith)

advance_frontier-SameFrontier :
    (seg : Segment) (d e : DirState)
    → SameFrontier d e
    → SameFrontier (advance_frontier seg d) (advance_frontier seg e)
unfolding advance_frontier
advance_frontier-SameFrontier seg d e h = ground arith

send-frame :
    (seg : Segment) (d : DirState)
    → SameFrontier (send seg d) d
      × SameWindow (send seg d) d
      × ((send seg d).pending_rtt ≡ d.pending_rtt)
unfolding send
send-frame seg d = (ground arith, ground arith, refl)

-- Each field of the sender's state after a segment is what the step that writes it gives.
pub record SenderFields (cfg : EngineConfig) (seg : Segment) (d : DirState) (x : DirState)
    : Type 0 where
  pub flight : SameFlight x (send seg d)
  pub frontier : SameFrontier x (advance_frontier seg d)
  pub pending : x.pending_rtt ≡ (queue_rtt (classify cfg seg d) seg d).pending_rtt
  pub window : SameWindow x (window_push_and_evict (is_retransmit (classify cfg seg d)) seg cfg d)

pub sender_after-fields :
    (cfg : EngineConfig) (seg : Segment) (d : DirState)
    → SenderFields cfg seg d (sender_after cfg seg d)
unfolding sender_after
sender_after-fields cfg seg d =
    let k = classify cfg seg d in
    let s = send seg d in
    let a = advance_frontier seg s in
    let q = queue_rtt k seg a in
    ground (
      arith,
      window-SameSteps (is_retransmit k) seg cfg q,
      window-SameWindow (is_retransmit k) seg cfg q d,
      queue_rtt-frame k seg a,
      queue_rtt-pending k seg a d,
      advance_frontier-frame seg s,
      advance_frontier-SameFrontier seg s d,
      send-frame seg d,
    )

-- A segment of the other direction leaves the window, the frontier and the sender's end alone.
pub receiver_after-frame :
    (seg : Segment) (o : DirState)
    → SameWindow (receiver_after seg o).0 o
      × SameFrontier (receiver_after seg o).0 o
      × ((receiver_after seg o).0.snd_nxt ≡ o.snd_nxt)
unfolding receiver_after take_rtt acknowledge
receiver_after-frame seg o = (ground arith, ground arith, ground arith)
