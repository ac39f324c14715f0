-- ===== src/Tui/Grid/Shows.antt =====
-- What a grid shows at each column and row, and how the operations on grids change that.
use tcp_visr.Base.{
  ◌≡◌, ◌≢◌, refl, ap, subst, ◌∙◌, arith, ℕ, zero, suc, ◌+◌, ◌-◌, ◌*◌, ◌≤◌, ◌<◌, ◌&&◌, ◌==◌, ltb,
  if◌then◌else◌, Option, none, some, List, get_elem?, set, get_elem?-set_same, get_elem?-set_other,
  Bool-cases, inl, inr,
}
use tcp_visr.Tui.Grid.{range_from, loop, idx, blank, put, or_cell, draw_cursor}

-- A loop over a range keeps what each turn carries on to the next.
pub loop-range {ℓ κ} :
    {S : Type ℓ} (P : ℕ → S → Type κ) (f : ℕ → S → Option S) (a n : ℕ) (s : S)
    → ((i : ℕ) (t : S) → a ≤ i → i < a + n → P i t → (u : S) × (f i t ≡ some u) × P (suc i) u)
    → P a s
    → (u : S) × (loop f (range_from a n) s ≡ some u) × P (a + n) u
unfolding loop
loop-range P f a zero s step p =
    let e : a ≡ a + 0 = omega arith in (s, refl, subst (λ i. P i s) e p)
loop-range P f a (suc n) s step p =
    let (t, e, q) = step a s (omega arith) (omega arith) p in
    let (u, rest, r) =
      loop-range P f (suc a) n t (λ i v l h. step i v (omega (arith, l)) (omega (arith, h))) q in
    let k : suc a + n ≡ a + suc n = omega arith in (u, rw e rest, subst (λ i. P i u) k r)

-- The same for a range from zero.
pub loop-range_zero {ℓ κ} :
    {S : Type ℓ} (P : ℕ → S → Type κ) (f : ℕ → S → Option S) (n : ℕ) (s : S)
    → ((i : ℕ) (t : S) → i < n → P i t → (u : S) × (f i t ≡ some u) × P (suc i) u)
    → P 0 s
    → (u : S) × (loop f (range_from 0 n) s ≡ some u) × P n u
loop-range_zero P f n s step p =
    let e : 0 + n ≡ n = omega arith in
    let (u, run, q) = loop-range P f 0 n s (λ i t l h. step i t (omega (arith, h))) p in
    (u, run, subst (λ i. P i u) e q)

idx-lt : (w c r d : ℕ) → c < w → idx w c r < r * w + w + d * w
idx-lt w c r d h = omega (arith, h)

-- A lower row comes first.
idx-row_lt : (w c e r s : ℕ) → c < w → r < s → idx w c r < idx w e s
idx-row_lt w c e r s h l =
    let d = s - suc r in
    let k : s ≡ r + suc d = omega (arith, l) in
    let m : (r + suc d) * w ≡ r * w + w + d * w = omega arith in rw k (rw m (omega (arith, h)))

pub idx-row : (w c e r s : ℕ) → c < w → e < w → idx w c r ≡ idx w e s → r ≡ s
idx-row w c e r s hc he h = elim (Bool-cases (ltb r s)) [
  | inl l ↦ let k = idx-row_lt w c e r s hc (ground arith) in omega (arith, k, h)
  | inr l ↦ elim (Bool-cases (ltb s r)) [
    | inl m ↦ let k = idx-row_lt w e c s r he (ground arith) in omega (arith, k, h)
    | inr m ↦ ground arith
  ]
]

module _ {ℓ} {A : Type ℓ} where
  -- The grid holds `f` at every column and row of the rectangle.
  abbrev pub Shows : ℕ → ℕ → (ℕ → ℕ → Option A) → List (Option A) → Type ℓ
  Shows w h f grid = (c r : ℕ) → c < w → r < h → get_elem? grid (idx w c r) ≡ some (f c r)

  -- `f` with one cell changed.
  abbrev pub update : (Option A → Option A) → ℕ → ℕ → (ℕ → ℕ → Option A) → ℕ → ℕ → Option A
  update k c r f x y = if (c == x) && (r == y) then k (f x y) else f x y

  pub get_elem?-blank : (n i : ℕ) → i < n → get_elem? (blank {A = A} n) i ≡ some none
  get_elem?-blank zero i h = elim h [ ]
  get_elem?-blank (suc n) zero h = refl
  get_elem?-blank (suc n) (suc i) h = get_elem?-blank n i (omega (arith, h))

  pub blank-Shows : (w h : ℕ) → Shows w h (λ c r. none) (blank (w * h))
  blank-Shows w h c r hc hr =
      let d = h - suc r in
      let k : h ≡ r + suc d = omega (arith, hr) in
      let m : w * (r + suc d) ≡ r * w + w + d * w = omega arith in
      get_elem?-blank (w * h) (idx w c r) (rw k (rw m (omega (arith, hc))))

  pub put-Shows :
      (w h : ℕ) (f : ℕ → ℕ → Option A) (grid : List (Option A)) (c r : ℕ) (k : Option A → Option A)
      → Shows w h f grid
      → c < w
      → r < h
      → (g : List (Option A)) × (put grid (idx w c r) k ≡ some g) × Shows w h (update k c r f) g
  unfolding put
  put-Shows w h f grid c r k shows hc hr =
      let e = shows c r hc hr in
      (
        set grid (idx w c r) (k (f c r)),
        rw e refl,
        λ x y hx hy. elim (Bool-cases ((c == x) && (r == y))) [
          | inl t ↦
              let p : c ≡ x = ground arith in
              let q : r ≡ y = ground arith in
              rw t (
                subst
                  (λ z. get_elem? (set grid (idx w c r) (k (f c r))) (idx w z y) ≡ some (k (f z y)))
                  p
                  (subst
                    (λ z.
                      get_elem? (set grid (idx w c r) (k (f c r))) (idx w c z) ≡ some (k (f c z)))
                    q (get_elem?-set_same grid (idx w c r) (k (f c r)) e)))
          | inr t ↦
              let apart : idx w c r ≢ idx w x y = λ i.
                let q : r ≡ y = idx-row w c x r y hc hx i in
                let j : idx w c y ≡ idx w x y = subst (λ z. idx w c z ≡ idx w x y) q i in
                let p : c ≡ x = omega (arith, j) in ground arith in
              rw t (
                get_elem?-set_other grid (idx w c r) (idx w x y) (k (f c r)) apart
                ∙ shows x y hx hy)
        ],
      )

  pub Shows-same :
      (w h : ℕ) (f g : ℕ → ℕ → Option A) (grid : List (Option A))
      → ((c r : ℕ) → c < w → r < h → f c r ≡ g c r)
      → Shows w h f grid
      → Shows w h g grid
  Shows-same w h f g grid e shows c r hc hr = shows c r hc hr ∙ ap some (e c r hc hr)

  -- The cursor's mark in the free cells of its column.
  abbrev pub with_cursor : (ℕ → A) → ℕ → (ℕ → ℕ → Option A) → ℕ → ℕ → Option A
  with_cursor mark col f c r = if col == c then or_cell (mark r) (f c r) else f c r

  abbrev cursor_below : (ℕ → A) → ℕ → (ℕ → ℕ → Option A) → ℕ → ℕ → ℕ → Option A
  cursor_below mark col f n c r = if ltb r n then with_cursor mark col f c r else f c r

  cursor_below-suc :
      (mark : ℕ → A) (col n : ℕ) (f : ℕ → ℕ → Option A) (c r : ℕ)
      → update (or_cell (mark n)) col n (cursor_below mark col f n) c r
        ≡ cursor_below mark col f (suc n) c r
  cursor_below-suc mark col n f c r = elim (Bool-cases (n == r)) [
    | inl e ↦
        let k : n ≡ r = ground arith in
        subst
          (λ z.
            update (or_cell (mark n)) col n (cursor_below mark col f n) c z
            ≡ cursor_below mark col f (suc n) c z)
          k (ground arith)
    | inr e ↦ ground arith
  ]

  pub draw_cursor-Shows :
      (w h : ℕ) (f : ℕ → ℕ → Option A) (grid : List (Option A)) (mark : ℕ → A) (col : ℕ)
      → Shows w h f grid
      → col < w
      → (g : List (Option A)) × (draw_cursor mark w h col grid ≡ some g)
        × Shows w h (with_cursor mark col f) g
  unfolding draw_cursor
  draw_cursor-Shows w h f grid mark col shows hc =
      let (g, e, s) =
        loop-range_zero (λ i g. Shows w h (cursor_below mark col f i) g)
          (λ row g. put g (idx w col row) (or_cell (mark row))) h grid
          (λ i g k p.
            let (g', e, s) =
              put-Shows w h (cursor_below mark col f i) g col i (or_cell (mark i)) p hc k in
            (g', e, Shows-same w h _ _ g' (λ c r _ _. cursor_below-suc mark col i f c r) s))
          (Shows-same w h _ _ grid (λ c r _ _. ground arith) shows) in
      (g, e, Shows-same w h _ _ g (λ c r _ hr. ground arith) s)
