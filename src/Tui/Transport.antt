-- ===== src/Tui/Transport.antt =====
-- crates/tcpvisr-tui/src/transport.rs: the playback cursor over the time domain of a capture.
-- `none` stands for a panic: an index into the speed ladder out of bounds, or `clamp` with its
-- bounds crossed.
pub mod Bounds
mod Tests
use tcp_visr.Base.{
  ℕ, suc, ◌+◌, ◌*◌, ◌/◌, ◌-◌, min, max, Bool, true, false, not, ltb, leb, if◌then◌else◌, Option,
  none, some, List, [], ◌∷◌, length, get_elem?, saturating_sub, saturating_add, saturate_u64,
}
use tcp_visr.Core.Time.{Nanos}

-- `RATIOS`, as numerator and denominator. `SPEEDS`, for display, has as many rungs.
abbrev pub ratios : List (ℕ × ℕ)
ratios = (1, 10) ∷ (1, 2) ∷ (1, 1) ∷ (2, 1) ∷ (5, 1) ∷ (10, 1) ∷ []

abbrev pub default_speed_idx : ℕ
default_speed_idx = 2

pub record Transport : Type 0 where
  pub start : Nanos
  pub end : Nanos
  pub cursor : Nanos
  pub speed_idx : ℕ
  pub playing : Bool

pub new_transport : Nanos → Nanos → Transport
new_transport start end = record {
  start = start;
  end = end;
  cursor = start;
  speed_idx = default_speed_idx;
  playing = false;
}

pub toggle_play : Transport → Transport
toggle_play t =
    if t.playing
    then record t { playing = false }
    else if leb t.end t.cursor
    then record t { cursor = t.start; playing = true }
    else record t { playing = true }

unfoldable pub faster : Transport → Transport
faster t = record t { speed_idx = min (t.speed_idx + 1) (length ratios - 1) }

unfoldable pub slower : Transport → Transport
slower t = record t { speed_idx = saturating_sub t.speed_idx 1 }

-- `u64::clamp`, which panics when the bounds are crossed.
unfoldable pub clamp : ℕ → ℕ → ℕ → Option ℕ
clamp n low high = if leb low high then some (min (max n low) high) else none

pub place_cursor : Transport → Option Nanos → Option Transport
place_cursor t none = none
place_cursor t (some c) = some (record t { cursor = c })

pub set_cursor : Transport → Nanos → Option Transport
set_cursor t at = place_cursor t (clamp at t.start t.end)

unfoldable pub seek_target : Transport → Bool → Nanos
seek_target t forward =
    let step = max (saturating_sub t.end t.start / 50) 1 in
    if forward then saturating_add t.cursor step else saturating_sub t.cursor step

unfoldable pub seek : Transport → Bool → Option Transport
seek t forward = set_cursor t (seek_target t forward)

pub set_domain : Transport → Nanos → Nanos → Option Transport
set_domain t start end =
    place_cursor (record t { start = start; end = end }) (clamp t.cursor start end)

-- The cursor moves on by `dt` at the given ratio; at the end the playback stops.
pub advance : Transport → Nanos → ℕ × ℕ → Transport
advance t dt ratio =
    let cursor = min (saturating_add t.cursor (saturate_u64 (dt * ratio.0 / ratio.1))) t.end in
    record t { cursor = cursor; playing = if leb t.end cursor then false else t.playing }

pub advance_at : Transport → Nanos → Option (ℕ × ℕ) → Option Transport
advance_at t dt none = none
advance_at t dt (some ratio) = some (advance t dt ratio)

pub tick : Transport → Nanos → Option Transport
tick t dt = if not t.playing then some t else advance_at t dt (get_elem? ratios t.speed_idx)
