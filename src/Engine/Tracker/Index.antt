-- ===== src/Engine/Tracker/Index.antt =====
-- The index of live instances points at connections of the pair, through every change of the list.
use tcp_visr.Base.{
  ℕ, zero, suc, ◌≡◌, refl, ap, some, List, [], ◌∷◌, ◌++◌, map, length, get_elem?, set, arith,
  lookup, insert, lookup-insert, inl, inr, Bool-cases, length-snoc, append_assoc, append-nil,
  get_elem?-snoc_last,
}
use tcp_visr.Engine.Conn.{EndpointPair, eq_pair, ConnId}
use tcp_visr.Engine.Conn.Order.{pair_eq, eq_pair_iff}
use tcp_visr.Engine.Track.{ConnTrack}
use tcp_visr.Engine.Tracker.{index_from}

abbrev pub ids : List ConnTrack → List ConnId
ids = map λ c. c.id

-- Each entry of the index gives the position of a connection of its pair.
abbrev pub Indexes : List ConnId → List (EndpointPair × ℕ) → Type 0
Indexes xs live =
    (pair : EndpointPair) (i : ℕ)
    → lookup pair live ≡ some i
    → (id : ConnId) × (get_elem? xs i ≡ some id) × (id.pair ≡ pair)

module _ {ℓ κ} {A : Type ℓ} {B : Type κ} (f : A → B) where
  pub get_elem?-map-some :
      (xs : List A) (i : ℕ) {b : B}
      → get_elem? (map f xs) i ≡ some b
      → (a : A) × (get_elem? xs i ≡ some a) × (f a ≡ b)
  get_elem?-map-some [] i h = cc
  get_elem?-map-some (x ∷ xs) zero h = (x, refl, ground arith)
  get_elem?-map-some (x ∷ xs) (suc i) h = get_elem?-map-some xs i h

  pub map-set :
      (xs : List A) (i : ℕ) (a b : A)
      → get_elem? xs i ≡ some a
      → f b ≡ f a
      → map f (set xs i b) ≡ map f xs
  map-set [] i a b h e = refl
  map-set (x ∷ xs) zero a b h e = let same : x ≡ a = ground arith in rw (e, same)
  map-set (x ∷ xs) (suc i) a b h e = ap (◌∷◌ (f x)) (map-set xs i a b h e)

  pub map-snoc : (xs : List A) (x : A) → map f (xs ++ x ∷ []) ≡ map f xs ++ f x ∷ []
  map-snoc [] x = refl
  map-snoc (y ∷ ys) x = ap (◌∷◌ (f y)) (map-snoc ys x)

  pub length-map : (xs : List A) → length (map f xs) ≡ length xs
  length-map [] = refl
  length-map (x ∷ xs) = ap suc (length-map xs)

get_elem?-append_left {ℓ} :
    {A : Type ℓ} (xs ys : List A) (i : ℕ) {a : A}
    → get_elem? xs i ≡ some a
    → get_elem? (xs ++ ys) i ≡ some a
get_elem?-append_left [] ys i h = cc
get_elem?-append_left (x ∷ xs) ys zero h = h
get_elem?-append_left (x ∷ xs) ys (suc i) h = get_elem?-append_left xs ys i h

pub Indexes-nil : (xs : List ConnId) → Indexes xs []
unfolding lookup
Indexes-nil xs pair i h = cc

-- A new connection at the end takes over the entry of its pair.
pub Indexes-insert :
    (xs : List ConnId) (live : List (EndpointPair × ℕ)) (id : ConnId)
    → Indexes xs live
    → Indexes (xs ++ id ∷ []) (insert id.pair (length xs) live)
Indexes-insert xs live id v pair i h = elim (Bool-cases (eq_pair id.pair pair)) [
  | inl hit ↦
      let e = (eq_pair_iff id.pair pair).0 hit in
      let at : length xs ≡ i = ground (arith, lookup-insert id.pair pair (length xs) live) in
      (id, rw (← at) (get_elem?-snoc_last xs id), e)
  | inr miss ↦
      let old : lookup pair live ≡ some i =
        ground (arith, lookup-insert id.pair pair (length xs) live) in
      let (found, at, e) = v pair i old in (found, get_elem?-append_left xs (id ∷ []) i at, e)
]

-- The index that `evict_dead_connections` rebuilds.
pub Indexes-index_from :
    (cs : List ConnTrack) (xs : List ConnId) (live : List (EndpointPair × ℕ))
    → Indexes xs live
    → Indexes (xs ++ ids cs) (index_from (length xs) cs live)
unfolding index_from
Indexes-index_from [] xs live v = rw append-nil v
Indexes-index_from (c ∷ cs) xs live v =
    rw (append_assoc xs (c.id ∷ []) (ids cs), length-snoc xs c.id) at
      (Indexes-index_from cs (xs ++ c.id ∷ []) (insert c.id.pair (length xs) live)
        (Indexes-insert xs live c.id v))
