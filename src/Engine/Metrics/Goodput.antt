-- ===== src/Engine/Metrics/Goodput.antt =====
-- Goodput never exceeds throughput.
use tcp_visr.Base.{ℕ, ◌*◌, ◌≤◌, ◌≡◌, some, List, [], ◌∷◌, arith, div_mono}
use tcp_visr.Core.Time.{Nanos}
use tcp_visr.Engine.Conn.{Direction}
use tcp_visr.Engine.Config.{EngineConfig}
use tcp_visr.Engine.Metrics.{
  Sent, MetricState, dir_state, windowed, windowed_good, scale_bps, rates, throughput_at,
  saturate_u128,
}

windowed_good-le : (w t : ℕ) (es : List Sent) → windowed_good w t es ≤ windowed w t es
unfolding windowed windowed_good
windowed_good-le w t [] = omega arith
windowed_good-le w t (e ∷ es) = ground (arith, windowed_good-le w t es)

scale_bps_mono : (a b w : ℕ) → a ≤ b → scale_bps a w ≤ scale_bps b w
unfolding scale_bps
scale_bps_mono a b w h =
    let x = saturate_u128 (saturate_u128 (a * 8) * 1000000000) in
    let y = saturate_u128 (saturate_u128 (b * 8) * 1000000000) in
    let le : x ≤ y = omega arith in let div_le = div_mono x y w le in omega arith

-- The goodput is never above the throughput.
pub goodput-le-throughput :
    (m : MetricState) (dir : Direction) (t : Nanos) (cfg : EngineConfig) (total good : ℕ)
    → throughput_at m dir t cfg ≡ some (total, good)
    → good ≤ total
unfolding throughput_at rates
goodput-le-throughput m dir t cfg total good h =
    let d = dir_state m dir in
    let w = cfg.throughput_window in
    let le =
      scale_bps_mono (windowed_good w t d.tput) (windowed w t d.tput) w
        (windowed_good-le w t d.tput) in
    ground arith
