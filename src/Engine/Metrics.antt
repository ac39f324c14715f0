-- ===== src/Engine/Metrics.antt =====
-- crates/tcpvisr-engine/src/metrics.rs: what one segment adds to the metrics of its connection.
-- The array of two `DirState`s is a record with a field for each direction; `observe` is cut into
-- one function for each numbered step of its body.
pub mod Frame
pub mod Flight
pub mod Window
pub mod History
pub mod Goodput
pub mod Stream
pub mod Rtt
pub mod Resent
pub mod Karn
mod Tests
use tcp_visr.Base.{
  ℕ, ◌+◌, ◌*◌, ◌/◌, Bool, true, false, not, ◌&&◌, ◌||◌, ltb, leb, ◌==◌, if◌then◌else◌, Option, none,
  some, List, [], ◌∷◌, ◌++◌, snoc, is_some, min, max, wrapping_add, saturating_sub, saturate_u64,
  u64_max,
}
use tcp_visr.Core.Time.{Nanos}
use tcp_visr.Core.Seq.{TcpSeq, serial_lt, serial_gt, serial_diff}
use tcp_visr.Core.Segment.{Segment, fin, syn, ack_flag}
use tcp_visr.Core.Metric.{SampleDir, origin_to_responder, responder_to_origin, MetricSample}
use tcp_visr.Engine.Conn.{Direction, o2r, r2o}
use tcp_visr.Engine.Config.{EngineConfig}

abbrev pub of_bool : Bool → ℕ
of_bool true = 1
of_bool false = 0

unfoldable pub seq_end : Segment → TcpSeq
seq_end seg =
    let phantom = of_bool (syn seg.flags) + of_bool (fin seg.flags) in
    wrapping_add (wrapping_add seg.seq seg.payload_len) phantom

unfoldable pub serial_max : Option TcpSeq → TcpSeq → TcpSeq
serial_max none candidate = candidate
serial_max (some c) candidate = if serial_gt c candidate then c else candidate

unfoldable pub serial_le : TcpSeq → TcpSeq → Bool
serial_le earlier later = earlier == later || serial_lt earlier later

-- An entry of the trailing throughput window.
pub record Sent : Type 0 where
  pub ts : Nanos
  pub len : ℕ
  pub again : Bool

pub record DirState : Type 0 where
  pub snd_nxt : Option TcpSeq
  pub acked : Option TcpSeq
  pub frontier : Option TcpSeq
  pub last_data_ts : Option Nanos
  pub pending_rtt : List (TcpSeq × Nanos)
  pub tput : List Sent
  pub tput_max_ts : Option Nanos

pub record MetricState : Type 0 where
  pub forward : DirState
  pub backward : DirState

abbrev pub default_dir : DirState
default_dir = record {
  snd_nxt = none;
  acked = none;
  frontier = none;
  last_data_ts = none;
  pending_rtt = [];
  tput = [];
  tput_max_ts = none;
}

-- `MetricState::new`
unfoldable pub new_metrics : MetricState
new_metrics = record { forward = default_dir; backward = default_dir }

-- `self.dir[idx(d)]`
unfoldable pub dir_state : MetricState → Direction → DirState
dir_state m o2r = m.forward
dir_state m r2o = m.backward

unfoldable pub sample_dir : Direction → SampleDir
sample_dir o2r = origin_to_responder
sample_dir r2o = responder_to_origin

-- `1 - d` on indices.
unfoldable pub opposite : Direction → Direction
opposite o2r = r2o
opposite r2o = o2r

-- The state with `d` and `o` at the indices of `dir` and of the other direction.
unfoldable pub put_dirs : Direction → DirState → DirState → MetricState
put_dirs o2r d o = record { forward = d; backward = o }
put_dirs r2o d o = record { forward = o; backward = d }

unfoldable pub is_data : Segment → Bool
is_data seg = ltb 0 seg.payload_len

unfoldable pub consumes_seq : Segment → Bool
consumes_seq seg = is_data seg || (syn seg.flags || fin seg.flags)

-- Step 0: the ack advances, against the state before the segment.
newer_ack : Option TcpSeq → TcpSeq → Bool
newer_ack none a = true
newer_ack (some b) a = serial_gt a b

unfoldable pub ack_advances : Segment → DirState → Bool
unfolding newer_ack
ack_advances seg o = ack_flag seg.flags && (is_some o.snd_nxt && newer_ack o.acked seg.ack)

-- Step 1: in flight.
unfoldable pub or_insert : Option TcpSeq → TcpSeq → TcpSeq
or_insert none s = s
or_insert (some a) s = a

unfoldable pub send : Segment → DirState → DirState
send seg d = record d {
  acked = some (or_insert d.acked seg.seq);
  snd_nxt = some (serial_max d.snd_nxt (seq_end seg));
}

unfoldable pub acknowledge : Segment → DirState → DirState
acknowledge seg o = if ack_advances seg o then record o { acked = some seg.ack } else o

unfoldable pub outstanding : TcpSeq → TcpSeq → ℕ
outstanding acked snd = if serial_le acked snd then serial_diff snd acked else 0

-- Step 2: a data segment behind the frontier is out of order if it comes soon, else a retransmit.
pub data Kind : Type 0 where
  fresh late resent : Kind

gap_since : Option Nanos → Nanos → ℕ
gap_since none ts = u64_max
gap_since (some prev) ts = saturating_sub ts prev

behind : EngineConfig → Segment → Option Nanos → TcpSeq → Kind
unfolding gap_since
behind cfg seg last fr =
    if serial_lt seg.seq fr
    then (if ltb (gap_since last seg.ts) cfg.reorder_window then late else resent)
    else fresh

unfoldable pub classify_from : EngineConfig → Segment → Option Nanos → Option TcpSeq → Kind
unfolding behind
classify_from cfg seg last none = fresh
classify_from cfg seg last (some fr) = behind cfg seg last fr

unfoldable pub classify : EngineConfig → Segment → DirState → Kind
unfolding classify_from
classify cfg seg d = if is_data seg then classify_from cfg seg d.last_data_ts d.frontier else fresh

abbrev pub is_retransmit : Kind → Bool
is_retransmit resent = true
is_retransmit _ = false

abbrev pub is_out_of_order : Kind → Bool
is_out_of_order late = true
is_out_of_order _ = false

unfoldable pub advance_frontier : Segment → DirState → DirState
advance_frontier seg d =
    if is_data seg
    then record d {
      frontier = some (serial_max d.frontier (seq_end seg));
      last_data_ts = some seg.ts;
    }
    else d

-- Step 4: round trips, after Karn.
unfoldable pub queue_rtt : Kind → Segment → DirState → DirState
queue_rtt k seg d =
    if is_retransmit k
    then record d { pending_rtt = [] }
    else if consumes_seq seg
    then record d { pending_rtt = snoc d.pending_rtt (seq_end seg, seg.ts) }
    else d

abbrev pub or_first : Option Nanos → Nanos → Option Nanos
or_first none ts = some ts
or_first (some t) ts = some t

-- The `while let` that pops what `ack` covers, with the oldest send time popped so far.
unfoldable pub pop_acked :
    TcpSeq → List (TcpSeq × Nanos) → Option Nanos → List (TcpSeq × Nanos) × Option Nanos
pop_acked ack [] oldest = ([], oldest)
pop_acked ack ((es, ts) ∷ pend) oldest =
    let rest = pop_acked ack pend (or_first oldest ts) in
    if serial_le es ack then rest else ((es, ts) ∷ pend, oldest)

abbrev pub elapsed : Nanos → Option Nanos → Option Nanos
elapsed ts none = none
elapsed ts (some send_ts) = some (saturating_sub ts send_ts)

unfoldable pub take_rtt : Bool → Segment → DirState → DirState × Option Nanos
take_rtt advances seg o =
    if advances
    then (
      record o { pending_rtt = (pop_acked seg.ack o.pending_rtt none).0 },
      elapsed seg.ts (pop_acked seg.ack o.pending_rtt none).1,
    )
    else (o, none)

-- Step 5: the trailing window. Sums of u64 are taken in u128 and do not wrap.
unfoldable pub evict_window : ℕ → ℕ → List Sent → List Sent
evict_window w max_ts [] = []
evict_window w max_ts (e ∷ es) =
    let rest = evict_window w max_ts es in if leb (e.ts + w) max_ts then rest else e ∷ es

abbrev pub max_seen : Option Nanos → Nanos → Nanos
max_seen none ts = ts
max_seen (some m) ts = max m ts

unfoldable pub push_window : Bool → Segment → DirState → DirState
push_window again seg d =
    if ltb 0 seg.payload_len
    then record d {
      tput = snoc d.tput (record { ts = seg.ts; len = seg.payload_len; again = again });
      tput_max_ts = some (max_seen d.tput_max_ts seg.ts);
    }
    else d

unfoldable pub evict_to : ℕ → DirState → Option Nanos → DirState
evict_to w d none = d
evict_to w d (some max_ts) = record d { tput = evict_window w max_ts d.tput }

unfoldable pub window_push_and_evict : Bool → Segment → EngineConfig → DirState → DirState
window_push_and_evict again seg cfg d =
    let pushed = push_window again seg d in
    if cfg.throughput_window == 0
    then pushed
    else evict_to cfg.throughput_window pushed pushed.tput_max_ts

unfoldable pub in_window : ℕ → Nanos → Sent → Bool
in_window w t e = ltb t (e.ts + w) && leb e.ts t

-- The two sums of the loop: all bytes, and those that are no retransmission.
unfoldable pub windowed : ℕ → Nanos → List Sent → ℕ
windowed w t [] = 0
windowed w t (e ∷ es) = (if in_window w t e then e.len else 0) + windowed w t es

unfoldable pub windowed_good : ℕ → Nanos → List Sent → ℕ
windowed_good w t [] = 0
windowed_good w t (e ∷ es) =
    (if in_window w t e && not e.again then e.len else 0) + windowed_good w t es

abbrev pub saturate_u128 : ℕ → ℕ
saturate_u128 n = min n 340282366920938463463374607431768211455

unfoldable pub scale_bps : ℕ → ℕ → ℕ
scale_bps bytes w = saturate_u64 (saturate_u128 (saturate_u128 (bytes * 8) * 1000000000) / w)

unfoldable pub rates : DirState → Nanos → EngineConfig → Option (ℕ × ℕ)
rates d t cfg =
    if not (is_some d.tput_max_ts)
    then none
    else if cfg.throughput_window == 0
    then some (0, 0)
    else some (
      scale_bps (windowed cfg.throughput_window t d.tput) cfg.throughput_window,
      scale_bps (windowed_good cfg.throughput_window t d.tput) cfg.throughput_window,
    )

unfoldable pub throughput_at : MetricState → Direction → Nanos → EngineConfig → Option (ℕ × ℕ)
throughput_at m dir t cfg = rates (dir_state m dir) t cfg

flight_of : Option TcpSeq → Option TcpSeq → Option ℕ
flight_of (some snd) (some acked) = some (outstanding acked snd)
flight_of _ _ = none

unfoldable pub in_flight : MetricState → Direction → Option ℕ
unfolding flight_of
in_flight m dir = flight_of (dir_state m dir).snd_nxt (dir_state m dir).acked

abbrev pub first_or_zero : Option (ℕ × ℕ) → ℕ
first_or_zero none = 0
first_or_zero (some p) = p.0

-- The two directional states after the segment: the sender's and the receiver's.
unfoldable pub sender_after : EngineConfig → Segment → DirState → DirState
sender_after cfg seg d =
    let kind = classify cfg seg d in
    window_push_and_evict (is_retransmit kind) seg cfg
      (queue_rtt kind seg (advance_frontier seg (send seg d)))

unfoldable pub receiver_after : Segment → DirState → DirState × Option Nanos
receiver_after seg o = take_rtt (ack_advances seg o) seg (acknowledge seg o)

unfoldable pub has_sack : Segment → Bool
has_sack seg = elim seg.options.sack_blocks [ [] ↦ false | _ ↦ true ]

unfoldable pub observe :
    MetricState → Segment → Direction → EngineConfig → MetricState × MetricSample
observe m seg dir cfg =
    let d = dir_state m dir in
    let o = dir_state m (opposite dir) in
    let kind = classify cfg seg d in
    let d' = sender_after cfg seg d in
    let received = receiver_after seg o in
    (
      put_dirs dir d' received.0,
      record {
        t = seg.ts;
        dir = sample_dir dir;
        in_flight_bytes =
            outstanding (or_insert d.acked seg.seq) (serial_max d.snd_nxt (seq_end seg));
        throughput_bps = first_or_zero (rates d' seg.ts cfg);
        rtt = received.1;
        retransmit = is_retransmit kind;
        out_of_order = is_out_of_order kind;
        sack = has_sack seg;
      },
    )
