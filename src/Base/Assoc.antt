-- ===== src/Base/Assoc.antt =====
-- `std::collections::HashMap` as an association list: a key stands in it at most once when it is
-- built by `insert` and `retain`.
use mathlib.Core.Path.{◌≡◌, refl}
use mathlib.Core.Bool.{Bool}
use mathlib.Core.List.{List, [], ◌∷◌}
use mathlib.Core.Option.{Option, none, some}
use native.Mathlib.Omega.{arith}
use tcp_visr.Base.Booleans.{Eq, if◌then◌else◌}

module _ {ℓ κ} {K : Type ℓ} {V : Type κ} ⦃e : Eq K⦄ where
  -- `HashMap::get`
  unfoldable pub lookup : K → List (K × V) → Option V
  lookup k [] = none
  lookup k ((j, v) ∷ m) = if e.beq j k then some v else lookup k m

  -- `HashMap::insert`
  unfoldable pub insert : K → V → List (K × V) → List (K × V)
  insert k v [] = (k, v) ∷ []
  insert k v ((j, w) ∷ m) = if e.beq j k then (k, v) ∷ m else (j, w) ∷ insert k v m

  -- `HashMap::retain` by a test on the key.
  unfoldable pub retain_keys : (K → Bool) → List (K × V) → List (K × V)
  retain_keys p [] = []
  retain_keys p ((j, w) ∷ m) = if p j then (j, w) ∷ retain_keys p m else retain_keys p m

  pub lookup-insert :
      (k j : K) (v : V) (m : List (K × V))
      → lookup j (insert k v m) ≡ (if e.beq k j then some v else lookup j m)
  unfolding lookup insert
  lookup-insert k j v [] = refl
  lookup-insert k j v ((i, w) ∷ m) =
      ground (arith, e.beq_iff k j, e.beq_iff i k, e.beq_iff i j, lookup-insert k j v m)

  pub lookup-retain_keys :
      (p : K → Bool) (k : K) (m : List (K × V))
      → lookup k (retain_keys p m) ≡ (if p k then lookup k m else none)
  unfolding lookup retain_keys
  lookup-retain_keys p k [] = ground arith
  lookup-retain_keys p k ((j, w) ∷ m) = ground (arith, e.beq_iff j k, lookup-retain_keys p k m)
