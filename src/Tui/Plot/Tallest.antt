-- ===== src/Tui/Plot/Tallest.antt =====
-- What `place` of the charts draws: in each column the tallest of the samples shown there.
use tcp_visr.Base.{
  ◌≡◌, refl, ap, subst, ◌∙◌, arith, ℕ, zero, suc, ◌*◌, ◌-◌, ◌≤◌, ◌<◌, max, ◌&&◌, ◌==◌,
  if◌then◌else◌, Option, none, some, List, [], ◌∷◌, length, get_elem?, set, div_mono, mul_mono,
  get_elem?-set_same, get_elem?-set_other, Bool-cases, inl, inr,
}
use tcp_visr.Tui.Grid.{loop, blank, put}
use tcp_visr.Tui.Grid.Shows.{get_elem?-blank}
use tcp_visr.Tui.Plot.{scale_to, Geom, col, row, taller, Reader, shown, raise_peak, peaks}

pub scale_to-lt : (v top size : ℕ) → 0 < size → scale_to v top size < size
unfolding scale_to
scale_to-lt v top size h = ground arith

-- A greater value is not lower.
pub scale_to_mono : (v w top size : ℕ) → v ≤ w → scale_to v top size ≤ scale_to w top size
unfolding scale_to
scale_to_mono v w top size h =
    let m = mul_mono v w (size - 1) h in
    let d = div_mono (v * (size - 1)) (w * (size - 1)) top m in ground (arith, d)

-- The greater of two peaks.
abbrev pub higher : Option ℕ → Option ℕ → Option ℕ
higher none q = q
higher (some a) none = some a
higher (some a) (some b) = some (max a b)

higher-taller : (p q : Option ℕ) (r : ℕ) → higher (taller r p) q ≡ higher p (higher (some r) q)
higher-taller none q r = refl
higher-taller (some e) none r = ground arith
higher-taller (some e) (some b) r = ground arith

length-set {ℓ} : {A : Type ℓ} (xs : List A) (i : ℕ) (v : A) → length (set xs i v) ≡ length xs
length-set [] i v = refl
length-set (x ∷ xs) zero v = refl
length-set (x ∷ xs) (suc i) v = ap suc (length-set xs i v)

length-blank {ℓ} : (A : Type ℓ) (n : ℕ) → length (blank {A = A} n) ≡ n
length-blank A zero = refl
length-blank A (suc n) = ap suc (length-blank A n)

module _ {ℓ} {A : Type ℓ} (reader : Reader A) (g : Geom) where
  -- The greatest row of the samples shown in a column.
  abbrev pub tallest : List A → ℕ → Option ℕ
  tallest [] c = none
  tallest (s ∷ ss) c =
      let rest = tallest ss c in
      if shown reader g s && (col g (reader.time_of s) == c)
      then higher (some (row g (reader.value_of s))) rest
      else rest

  higher-lt :
      (h r : ℕ) (p : Option ℕ)
      → r < h
      → ((q : ℕ) → p ≡ some q → q < h)
      → (q : ℕ) → higher (some r) p ≡ some q
      → q < h
  higher-lt h r none hr hp q e = let k : r ≡ q = ground arith in omega (arith, k, hr)
  higher-lt h r (some b) hr hp q e =
      let k : max r b ≡ q = ground arith in let l = hp b refl in omega (arith, k, hr, l)

  pub tallest-lt : (ss : List A) (c q : ℕ) → 0 < g.height → tallest ss c ≡ some q → q < g.height
  unfolding row
  tallest-lt [] c q h e = cc
  tallest-lt (s ∷ ss) c q h e =
      elim (Bool-cases (shown reader g s && (col g (reader.time_of s) == c))) [
        | inl t ↦
            higher-lt g.height (row g (reader.value_of s)) (tallest ss c)
              (scale_to-lt (reader.value_of s) g.top g.height h) (λ q e. tallest-lt ss c q h e) q
              (rw t at e)
        | inr t ↦ tallest-lt ss c q h (rw t at e)
      ]

  -- The peaks hold `t` in each column.
  abbrev pub Holds : List (Option ℕ) → (ℕ → Option ℕ) → Type 0
  Holds ps t = (length ps ≡ g.width) × ((c : ℕ) → c < g.width → get_elem? ps c ≡ some (t c))

  abbrev raise : (ℕ → Option ℕ) → A → ℕ → Option ℕ
  raise t s c =
      if shown reader g s && (col g (reader.time_of s) == c)
      then taller (row g (reader.value_of s)) (t c)
      else t c

  raise_peak-Holds :
      (s : A) (ps : List (Option ℕ)) (t : ℕ → Option ℕ)
      → 0 < g.width
      → Holds ps t
      → (qs : List (Option ℕ)) × (raise_peak reader g s ps ≡ some qs) × Holds qs (raise t s)
  unfolding col put
  raise_peak-Holds s ps t w h =
      let at = col g (reader.time_of s) in
      let top = taller (row g (reader.value_of s)) in
      let l : at < g.width = scale_to-lt _ g.span_t g.width w in
      let e = h.1 at l in
      elim (Bool-cases (shown reader g s)) [
        | inr k ↦ (ps, rw k refl, (h.0, λ c hc. rw k (h.1 c hc)))
        | inl k ↦ (
          set ps at (top (t at)),
          rw k (rw e refl),
          (
            length-set ps at _ ∙ h.0,
            λ c hc. rw k (elim (Bool-cases (at == c)) [
              | inl m ↦
                  let n : at ≡ c = ground arith in
                  rw m (
                    subst (λ z. get_elem? (set ps at (top (t at))) z ≡ some (top (t z))) n
                      (get_elem?-set_same ps at _ e))
              | inr m ↦ rw m (get_elem?-set_other ps at c _ (λ n. ground arith) ∙ h.1 c hc)
            ]),
          ),
        )
      ]

  higher-none : (p : Option ℕ) → p ≡ higher p none
  higher-none none = refl
  higher-none (some a) = refl

  raise-higher :
      (t : ℕ → Option ℕ) (s : A) (ss : List A) (c : ℕ)
      → higher (raise t s c) (tallest ss c) ≡ higher (t c) (tallest (s ∷ ss) c)
  raise-higher t s ss c = elim (Bool-cases (shown reader g s && (col g (reader.time_of s) == c))) [
    | inl k ↦ rw k (higher-taller (t c) (tallest ss c) (row g (reader.value_of s)))
    | inr k ↦ rw k refl
  ]

  peaks_on-Holds :
      (ss : List A) (ps : List (Option ℕ)) (t : ℕ → Option ℕ)
      → 0 < g.width
      → Holds ps t
      → (qs : List (Option ℕ)) × (loop (raise_peak reader g) ss ps ≡ some qs)
        × Holds qs (λ c. higher (t c) (tallest ss c))
  unfolding loop
  peaks_on-Holds [] ps t w h = (ps, refl, (h.0, λ c hc. h.1 c hc ∙ ap some (higher-none (t c))))
  peaks_on-Holds (s ∷ ss) ps t w h =
      let (qs, e, k) = raise_peak-Holds s ps t w h in
      let (rs, f, m) = peaks_on-Holds ss qs (raise t s) w k in
      (rs, rw e f, (m.0, λ c hc. m.1 c hc ∙ ap some (raise-higher t s ss c)))

  pub peaks-tallest :
      (ss : List A)
      → 0 < g.width
      → (qs : List (Option ℕ)) × (peaks reader g ss ≡ some qs) × Holds qs (tallest ss)
  unfolding peaks
  peaks-tallest ss w =
      peaks_on-Holds ss (blank g.width) (λ c. none) w
        (length-blank ℕ g.width, λ c hc. get_elem?-blank g.width c hc)
