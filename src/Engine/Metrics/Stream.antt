-- ===== src/Engine/Metrics/Stream.antt =====
-- The serial frontier against positions in the byte stream.
use tcp_visr.Base.{
  ℕ, ◌+◌, ◌%◌, ◌<◌, ◌≡◌, ◌↔◌, ◌⊎◌, refl, some, true, false, arith, max, u32_mod, ltb, ◌&&◌,
}
use tcp_visr.Core.Seq.{half}
use tcp_visr.Core.Seq.Laws.{serial_lt-position}
use tcp_visr.Core.Segment.{Segment, syn, fin}
use tcp_visr.Engine.Conn.{Direction}
use tcp_visr.Engine.Config.{EngineConfig}
use tcp_visr.Engine.Metrics.{
  MetricState, DirState, Kind, fresh, late, resent, dir_state, opposite, observe, sender_after,
  receiver_after, classify, is_data, is_retransmit, is_out_of_order, advance_frontier, serial_max,
  seq_end, of_bool,
}
use tcp_visr.Engine.Metrics.Frame.{dir_state-put_dirs, sender_after-fields}

-- The sequence space that a segment takes up.
abbrev pub size : Segment → ℕ
size seg = seg.payload_len + (of_bool (syn seg.flags) + of_bool (fin seg.flags))

seq_end-position :
    (seg : Segment) (p : ℕ) → seg.seq ≡ p % u32_mod → seq_end seg ≡ (p + size seg) % u32_mod
unfolding seq_end
seq_end-position seg p h = omega arith

serial_max-position :
    (f e : ℕ)
    → f < e + half
    → e < f + half
    → serial_max (some (f % u32_mod)) (e % u32_mod) ≡ max f e % u32_mod
unfolding serial_max
serial_max-position f e h k = ground (arith, serial_lt-position f e h k)

classify-position :
    (cfg : EngineConfig) (seg : Segment) (d : DirState) (f p : ℕ)
    → 0 < seg.payload_len
    → seg.seq ≡ p % u32_mod
    → d.frontier ≡ some (f % u32_mod)
    → p < f + half
    → f < p + half
    → ((is_retransmit (classify cfg seg d) ≡ true) ⊎ (is_out_of_order (classify cfg seg d) ≡ true))
      ↔ (p < f)
unfolding classify is_data
classify-position cfg seg d f p len s e h k = rw (e, s) (ground (arith, serial_lt-position p f h k))

exclusive : (k : Kind) → (is_retransmit k && is_out_of_order k) ≡ false
exclusive fresh = refl
exclusive late = refl
exclusive resent = refl

advance_frontier-position :
    (seg : Segment) (d : DirState) (f p : ℕ)
    → 0 < seg.payload_len
    → seg.seq ≡ p % u32_mod
    → d.frontier ≡ some (f % u32_mod)
    → f < p + size seg + half
    → p + size seg < f + half
    → (advance_frontier seg d).frontier ≡ some (max f (p + size seg) % u32_mod)
unfolding advance_frontier is_data
advance_frontier-position seg d f p len s e h k =
    let bytes : ltb 0 seg.payload_len ≡ true = ground arith in
    rw (bytes, e, seq_end-position seg p s, serial_max-position f (p + size seg) h k)

-- Let the frontier of a direction stand for stream position f, and let a data segment start at
-- position p, all within 2^31 of each other. The segment is called a retransmission or out of order
-- exactly when p lies before f, never both, and the frontier then stands for the later of f and
-- the segment's end.
pub observe-position :
    (m : MetricState) (seg : Segment) (dir : Direction) (cfg : EngineConfig) (f p : ℕ)
    → 0 < seg.payload_len
    → seg.seq ≡ p % u32_mod
    → (dir_state m dir).frontier ≡ some (f % u32_mod)
    → p < f + half
    → f < p + half
    → p + size seg < f + half
    → let sample = (observe m seg dir cfg).1 in
      ((sample.retransmit ≡ true) ⊎ (sample.out_of_order ≡ true) ↔ (p < f))
      × ((sample.retransmit && sample.out_of_order) ≡ false)
      × ((dir_state (observe m seg dir cfg).0 dir).frontier ≡ some (max f (p + size seg) % u32_mod))
unfolding observe
observe-position m seg dir cfg f p len s e h k end =
    let d = dir_state m dir in
    (
      classify-position cfg seg d f p len s e h k,
      exclusive (classify cfg seg d),
      (rw
          (
            (dir_state-put_dirs dir (sender_after cfg seg d)
                (receiver_after seg (dir_state m (opposite dir))).0).0,
            (sender_after-fields cfg seg d).frontier.frontier,
          )
          (advance_frontier-position seg d f p len s e (omega arith) end)),
    )
