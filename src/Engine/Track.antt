-- ===== src/Engine/Track.antt =====
-- crates/tcpvisr-engine/src/tracker.rs, lines 1 to 339: the state of one tracked connection and its
-- methods. Arrays of two are a field for each direction; a deque is a list with its front first.
pub mod Lifecycle
pub mod Held
pub mod Longest
pub mod Unwrap
mod Tests
use tcp_visr.Base.{
  ℕ, zero, suc, ◌+◌, ◌-◌, Bool, true, false, not, ◌&&◌, ◌||◌, ltb, leb, ◌==◌, if◌then◌else◌, Option,
  none, some, List, [], ◌∷◌, ◌++◌, length, snoc, tail, max, saturating_sub, add_u64, ℤ, pos, ◌+ℤ◌,
  ◌-ℤ◌, wrap_i64,
}
use tcp_visr.Core.Time.{Nanos}
use tcp_visr.Core.Seq.{TcpSeq, serial_lt, serial_gt, serial_diff}
use tcp_visr.Core.Flow.{Endpoint, eq_endpoint}
use tcp_visr.Core.Segment.{TcpFlags, Segment, fin, syn, rst, ack_flag}
use tcp_visr.Core.Metric.{SampleDir, origin_to_responder, responder_to_origin, MetricSample}
use tcp_visr.Engine.State.{
  ConnState, syn_sent, syn_received, established, fin_wait, closed, reset, advance_to, is_syn_sent,
  is_syn_received, is_reset,
}
use tcp_visr.Engine.Conn.{ConnId, Direction, o2r, r2o, Connection}
use tcp_visr.Engine.Metrics.{MetricState, sample_dir, opposite}
use tcp_visr.Engine.Timeline.{
  SeqSample, data_mark, sack_mark, InFlightSample, RttSample, ThroughputSample, StateSample,
}

unfoldable pub is_backward_reset : TcpSeq → TcpSeq → ℕ → Bool
is_backward_reset baseline seq threshold =
    serial_lt seq baseline && ltb threshold (serial_diff baseline seq)

unfoldable pub is_bare_syn : TcpFlags → Bool
is_bare_syn f = syn f && not (ack_flag f)

unfoldable pub is_syn_ack : TcpFlags → Bool
is_syn_ack f = syn f && ack_flag f

unfoldable pub advance_baseline : Option TcpSeq → TcpSeq → TcpSeq
advance_baseline none seq = seq
advance_baseline (some base) seq = if serial_gt base seq then base else seq

unfoldable pub sdir_opposite : SampleDir → SampleDir
sdir_opposite origin_to_responder = responder_to_origin
sdir_opposite responder_to_origin = origin_to_responder

-- `SeqUnwrap`: the frontier with its unwrapped position, an i64.
pub record SeqUnwrap : Type 0 where
  pub frontier : Option (TcpSeq × ℤ)

abbrev pub default_unwrap : SeqUnwrap
default_unwrap = record { frontier = none }

offset_from : TcpSeq → TcpSeq → ℤ → SeqUnwrap × ℤ
offset_from seq fseq frel =
    if seq == fseq
    then (record { frontier = some (fseq, frel) }, frel)
    else if serial_gt seq fseq
    then (
      record { frontier = some (seq, wrap_i64 (frel +ℤ pos (serial_diff seq fseq))) },
      wrap_i64 (frel +ℤ pos (serial_diff seq fseq)),
    )
    else (record { frontier = some (fseq, frel) }, wrap_i64 (frel -ℤ pos (serial_diff fseq seq)))

offset_at : Option (TcpSeq × ℤ) → TcpSeq → SeqUnwrap × ℤ
unfolding offset_from
offset_at none seq = (record { frontier = some (seq, pos 0) }, pos 0)
offset_at (some (fseq, frel)) seq = offset_from seq fseq frel

unfoldable pub offset : SeqUnwrap → TcpSeq → SeqUnwrap × ℤ
unfolding offset_at
offset u seq = offset_at u.frontier seq

pub record ConnTrack : Type 0 where
  pub id : ConnId
  pub state : ConnState
  pub origin : Endpoint
  pub responder : Endpoint
  pub origin_inferred : Bool
  pub opened_at : Nanos
  pub last_at : Nanos
  pub bytes_o2r : ℕ
  pub bytes_r2o : ℕ
  pub segments : ℕ
  pub fin_o2r : Bool
  pub fin_r2o : Bool
  pub base_o2r : Option TcpSeq
  pub base_r2o : Option TcpSeq
  pub metrics : MetricState
  pub series : List MetricSample
  pub states : List StateSample
  pub seq : List SeqSample
  pub inflight : List InFlightSample
  pub rtt : List RttSample
  pub throughput : List ThroughputSample
  pub srtt_o2r : Option Nanos
  pub srtt_r2o : Option Nanos
  pub unwrap_o2r : SeqUnwrap
  pub unwrap_r2o : SeqUnwrap

unfoldable pub direction_of : ConnTrack → Endpoint → Direction
direction_of c src = if eq_endpoint src c.origin then o2r else r2o

unfoldable pub baseline : ConnTrack → Direction → Option TcpSeq
baseline c o2r = c.base_o2r
baseline c r2o = c.base_r2o

unfoldable pub account : Segment → Direction → ConnTrack → ConnTrack
account seg o2r c = record c {
  last_at = max c.last_at seg.ts;
  segments = add_u64 c.segments 1;
  bytes_o2r = add_u64 c.bytes_o2r seg.payload_len;
  base_o2r = some (advance_baseline c.base_o2r seg.seq);
}
account seg r2o c = record c {
  last_at = max c.last_at seg.ts;
  segments = add_u64 c.segments 1;
  bytes_r2o = add_u64 c.bytes_r2o seg.payload_len;
  base_r2o = some (advance_baseline c.base_r2o seg.seq);
}

abbrev pub is_r2o : Direction → Bool
is_r2o o2r = false
is_r2o r2o = true

-- The part of a connection that its lifecycle reads and writes.
pub record Life : Type 0 where
  pub state : ConnState
  pub fin_o2r : Bool
  pub fin_r2o : Bool

-- A SYN-ACK, or the second SYN of a simultaneous open.
handshake : TcpFlags → Direction → Life → Life
handshake f dir l =
    if is_syn_ack f
    then (if is_syn_sent l.state then record l { state = advance_to l.state syn_received } else l)
    else if is_bare_syn f
    then (if is_syn_sent l.state && is_r2o dir
        then record l { state = advance_to l.state syn_received }
        else l)
    else l

establish : TcpFlags → ℕ → Life → Life
establish f payload_len l =
    if is_syn_received l.state && (ack_flag f || ltb 0 payload_len)
    then record l { state = advance_to l.state established }
    else l

mark_fin : Direction → Life → Life
mark_fin o2r l = record l { fin_o2r = true }
mark_fin r2o l = record l { fin_r2o = true }

finish : Life → Life
finish l = record l {
  state = advance_to l.state (if l.fin_o2r && l.fin_r2o then closed else fin_wait);
}

-- `apply_state` on those fields, and on the connection.
unfoldable pub live_on : TcpFlags → ℕ → Direction → Life → Life
unfolding handshake establish mark_fin finish
live_on f payload_len dir l =
    if rst f
    then record l { state = reset }
    else if is_reset l.state
    then l
    else (let m = establish f payload_len (handshake f dir l) in
        if fin f then finish (mark_fin dir m) else m)

abbrev pub life : ConnTrack → Life
life c = record { state = c.state; fin_o2r = c.fin_o2r; fin_r2o = c.fin_r2o }

unfoldable pub apply_state : Segment → Direction → ConnTrack → ConnTrack
apply_state seg dir c =
    let l = live_on seg.flags seg.payload_len dir (life c) in
    record c { state = l.state; fin_o2r = l.fin_o2r; fin_r2o = l.fin_r2o }

unfoldable pub snapshot : ConnTrack → Nanos → StateSample
snapshot c t = record { t = t; state = c.state; bytes_o2r = c.bytes_o2r; bytes_r2o = c.bytes_r2o }

-- `self.unwrap[i].offset(seq)`, with the offset handed out.
unfoldable pub unwrap_in : Direction → TcpSeq → ConnTrack → ConnTrack × ℤ
unwrap_in o2r s c = let r = offset c.unwrap_o2r s in (record c { unwrap_o2r = r.0 }, r.1)
unwrap_in r2o s c = let r = offset c.unwrap_r2o s in (record c { unwrap_r2o = r.0 }, r.1)

unfoldable pub push_data_point :
    Segment → Direction → MetricSample → ConnTrack → ConnTrack × List SeqSample
push_data_point seg dir sample c =
    if ltb 0 seg.payload_len
    then (
      (unwrap_in dir seg.seq c).0,
      record {
        t = seg.ts;
        dir = sample_dir dir;
        rel = (unwrap_in dir seg.seq c).1;
        len = seg.payload_len;
        kind = data_mark sample.retransmit sample.out_of_order;
      }
          ∷ [],
    )
    else (c, [])

-- The loop over the SACK blocks, in the sequence space of the acked direction.
unfoldable pub push_sack_points :
    Nanos → Direction → List (TcpSeq × TcpSeq) → ConnTrack → ConnTrack × List SeqSample
push_sack_points ts acked [] c = (c, [])
push_sack_points ts acked ((left, right) ∷ blocks) c =
    let r = unwrap_in acked left c in
    let rest = push_sack_points ts acked blocks r.0 in
    (
      rest.0,
      record { t = ts; dir = sample_dir acked; rel = r.1; len = 0; kind = sack_mark } ∷ rest.1,
    )

unfoldable pub push_seq_points :
    Segment → Direction → MetricSample → ConnTrack → ConnTrack × List SeqSample
push_seq_points seg dir sample c =
    let d = push_data_point seg dir sample c in
    let s = push_sack_points seg.ts (opposite dir) seg.options.sack_blocks d.0 in (s.0, d.1 ++ s.1)

unfoldable pub view : ConnTrack → Connection
view c = record {
  id = c.id;
  state = c.state;
  origin = c.origin;
  responder = c.responder;
  origin_inferred = c.origin_inferred;
  opened_at = c.opened_at;
  last_at = c.last_at;
  bytes_o2r = c.bytes_o2r;
  bytes_r2o = c.bytes_r2o;
  segments = c.segments;
}

-- `evict_front` on one series: the loop, and the number of samples that it removes.
unfoldable pub evict_front {ℓ} : {A : Type ℓ} → (A → Nanos) → ℕ → ℕ → List A → List A
evict_front t horizon keep_min [] = []
evict_front t horizon keep_min (x ∷ xs) =
    let rest = evict_front t horizon keep_min xs in
    if ltb keep_min (suc (length xs)) && ltb (t x) horizon then rest else x ∷ xs

-- The index that `max_by_key` picks of a list of lengths: the last of the greatest.
unfoldable pub max_index_from : ℕ → ℕ → ℕ → List ℕ → ℕ × ℕ
max_index_from best most i [] = (best, most)
max_index_from best most i (n ∷ ns) =
    if leb most n then max_index_from i n (suc i) ns else max_index_from best most (suc i) ns

unfoldable pub evictable : ConnTrack → List ℕ
evictable c =
    saturating_sub (length c.states) 1
    ∷ length c.series
    ∷ length c.seq
    ∷ length c.inflight
    ∷ length c.rtt
    ∷ length c.throughput
    ∷ []

-- `pop_front` on the series with that index.
unfoldable pub pop_series : ℕ → ConnTrack → ConnTrack
pop_series zero c = record c { states = tail c.states }
pop_series (suc zero) c = record c { series = tail c.series }
pop_series (suc (suc zero)) c = record c { seq = tail c.seq }
pop_series (suc (suc (suc zero))) c = record c { inflight = tail c.inflight }
pop_series (suc (suc (suc (suc zero)))) c = record c { rtt = tail c.rtt }
pop_series (suc (suc (suc (suc (suc _))))) c = record c { throughput = tail c.throughput }

unfoldable pub pop_longest_front : ConnTrack → ConnTrack × Bool
pop_longest_front c =
    let r = max_index_from 0 0 0 (evictable c) in
    if r.1 == 0 then (c, false) else (pop_series r.0 c, true)

-- The samples that a connection holds, in all six series.
unfoldable pub held : ConnTrack → ℕ
held c =
    length c.states
    + length c.series
    + length c.seq
    + length c.inflight
    + length c.rtt
    + length c.throughput
