-- ===== src/Containers/OrdMap.antt =====
-- std::map with integer keys as the list of its entries in ascending order of the keys.
use flowmq.Base.{
  ℤ, ltb_ℤ, ◌==ℤ◌, eq_iff, ◌≡◌, refl, Bool, true, false, List, [], ◌∷◌, arith, if◌then◌else◌,
  Option, none, some,
}

abbrev pub OrdMap {ℓ} : Type ℓ → Type ℓ
OrdMap V = List (ℤ × V)

module _ {ℓ} {V : Type ℓ} where
  unfoldable pub lookup : OrdMap V → ℤ → Option V
  lookup [] k = none
  lookup ((i, v) ∷ m) k = if i ==ℤ k then some v else lookup m k

  -- m[k] = v
  unfoldable pub assign : ℤ → V → OrdMap V → OrdMap V
  assign k v [] = (k, v) ∷ []
  assign k v ((i, w) ∷ m) =
      if i ==ℤ k
      then (k, v) ∷ m
      else if ltb_ℤ k i
      then (k, v) ∷ (i, w) ∷ m
      else (i, w) ∷ assign k v m

  unfoldable pub remove : ℤ → OrdMap V → OrdMap V
  remove k [] = []
  remove k ((i, w) ∷ m) = if i ==ℤ k then remove k m else (i, w) ∷ remove k m

  -- m.count(k) > 0
  abbrev pub has : OrdMap V → ℤ → Bool
  has m k = elim (lookup m k) [ none ↦ false | some _ ↦ true ]

  -- m[k] on a read: a missing key reads as the default value (and is inserted by the caller).
  abbrev pub find_or : OrdMap V → ℤ → V → V
  find_or m k d = elim (lookup m k) [ none ↦ d | some v ↦ v ]

  pub lookup-assign :
      (m : OrdMap V) (k j : ℤ) (v : V)
      → lookup (assign k v m) j ≡ (if k ==ℤ j then some v else lookup m j)
  unfolding lookup assign
  lookup-assign [] k j v = refl
  lookup-assign ((i, w) ∷ m) k j v =
      ground (arith, eq_iff k j, eq_iff i k, eq_iff i j, lookup-assign m k j v)

  pub lookup-remove :
      (m : OrdMap V) (k j : ℤ) → lookup (remove k m) j ≡ (if k ==ℤ j then none else lookup m j)
  unfolding lookup remove
  lookup-remove [] k j = ground arith
  lookup-remove ((i, w) ∷ m) k j =
      ground (arith, eq_iff k j, eq_iff i k, eq_iff i j, lookup-remove m k j)
