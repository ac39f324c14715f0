-- ===== src/Tui/Throughput/Below.antt =====
-- Of throughput.rs: the goodput is drawn at or below the throughput.
use tcp_visr.Base.{
  ◌≡◌, arith, ℕ, ◌≤◌, ◌<◌, ◌&&◌, ◌==◌, Option, none, some, List, [], ◌∷◌, get_elem?, All,
  Bool-cases, inl, inr,
}
use tcp_visr.Engine.Timeline.{ThroughputSample}
use tcp_visr.Tui.Plot.{Geom, col, row, shown, peaks}
use tcp_visr.Tui.Plot.Tallest.{scale_to_mono, tallest, peaks-tallest, higher}
use tcp_visr.Tui.Throughput.{throughput_of, goodput_of}

abbrev pub IsGood : ThroughputSample → Type 0
IsGood s = s.goodput_bps ≤ s.throughput_bps

-- A peak, if there is one, is not above the other, which there is.
abbrev pub Below : Option ℕ → Option ℕ → Type 0
Below none q = Unit
Below (some a) none = ⊥
Below (some a) (some b) = a ≤ b

higher-Below :
    (a b : ℕ) (p q : Option ℕ) → a ≤ b → Below p q → Below (higher (some a) p) (higher (some b) q)
higher-Below a b none none h k = h
higher-Below a b none (some d) h k = omega (arith, h)
higher-Below a b (some c) none h k = absurd k
higher-Below a b (some c) (some d) h k = omega (arith, h, k)

tallest-Below :
    (g : Geom) (ss : List ThroughputSample) (c : ℕ)
    → All IsGood ss
    → Below (tallest goodput_of g ss c) (tallest throughput_of g ss c)
unfolding row
tallest-Below g [] c h = tt
tallest-Below g (s ∷ ss) c h = elim (Bool-cases (shown throughput_of g s && (col g s.t == c))) [
  | inl k ↦ rw k (
      higher-Below (row g s.goodput_bps) (row g s.throughput_bps) _ _
        (scale_to_mono s.goodput_bps s.throughput_bps g.top g.height h.0)
        (tallest-Below g ss c h.1))
  | inr k ↦ rw k (tallest-Below g ss c h.1)
]

-- Where no sample has more goodput than throughput, both series have their peaks, and in each column
-- the goodput's, if any, is at or below the throughput's.
pub peaks-Below :
    (g : Geom) (ss : List ThroughputSample)
    → 0 < g.width
    → All IsGood ss
    → (ps qs : List (Option ℕ)) × (peaks throughput_of g ss ≡ some ps)
      × (peaks goodput_of g ss ≡ some qs)
      × ((c : ℕ)
          → c < g.width
          → (p q : Option ℕ) × (get_elem? ps c ≡ some p) × (get_elem? qs c ≡ some q) × Below q p)
peaks-Below g ss w h =
    let (ps, e, k) = peaks-tallest throughput_of g ss w in
    let (qs, f, m) = peaks-tallest goodput_of g ss w in
    (
      ps,
      qs,
      e,
      f,
      λ c hc. (
        tallest throughput_of g ss c,
        tallest goodput_of g ss c,
        k.1 c hc,
        m.1 c hc,
        tallest-Below g ss c h,
      ),
    )
