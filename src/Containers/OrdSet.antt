-- ===== src/Containers/OrdSet.antt =====
-- std::set of integers as the list of its elements in ascending order.
use flowmq.Base.{
  ℤ, ltb_ℤ, ◌==ℤ◌, eq_iff, ◌≡◌, refl, Bool, true, false, List, [], ◌∷◌, arith, if◌then◌else◌, ◌<ℤ◌,
}

abbrev pub OrdSet : Type 0
OrdSet = List ℤ

unfoldable pub contains : OrdSet → ℤ → Bool
contains [] k = false
contains (x ∷ xs) k = if x ==ℤ k then true else contains xs k

unfoldable pub insert : ℤ → OrdSet → OrdSet
insert k [] = k ∷ []
insert k (x ∷ xs) = if x ==ℤ k then x ∷ xs else if ltb_ℤ k x then k ∷ x ∷ xs else x ∷ insert k xs

-- An element occurs once, so to drop every occurrence is what std::set::erase does.
unfoldable pub erase : ℤ → OrdSet → OrdSet
erase k [] = []
erase k (x ∷ xs) = if x ==ℤ k then erase k xs else x ∷ erase k xs

pub contains-nil : (k : ℤ) → contains [] k ≡ false
unfolding contains
contains-nil k = refl

pub contains-insert :
    (s : OrdSet) (k j : ℤ) → contains (insert k s) j ≡ (if k ==ℤ j then true else contains s j)
unfolding contains insert
contains-insert [] k j = refl
contains-insert (x ∷ xs) k j =
    ground (arith, eq_iff k j, eq_iff x k, eq_iff x j, contains-insert xs k j)

pub contains-erase :
    (s : OrdSet) (k j : ℤ) → contains (erase k s) j ≡ (if k ==ℤ j then false else contains s j)
unfolding contains erase
contains-erase [] k j = ground arith
contains-erase (x ∷ xs) k j =
    ground (arith, eq_iff k j, eq_iff x k, eq_iff x j, contains-erase xs k j)

-- Strictly ascending, from a bound on.
abbrev pub Above : ℤ → OrdSet → Type 0
Above b [] = Unit {0}
Above b (x ∷ xs) = (b <ℤ x) × Above x xs

abbrev pub IsAscending : OrdSet → Type 0
IsAscending [] = Unit {0}
IsAscending (x ∷ xs) = Above x xs

insert-Above : (s : OrdSet) (b k : ℤ) → b <ℤ k → Above b s → Above b (insert k s)
unfolding insert
insert-Above [] b k h a = (h, tt)
insert-Above (x ∷ xs) b k h a = ground (arith, eq_iff x k, insert-Above xs x k)

pub insert-IsAscending : (s : OrdSet) (k : ℤ) → IsAscending s → IsAscending (insert k s)
unfolding insert
insert-IsAscending [] k a = tt
insert-IsAscending (x ∷ xs) k a = ground (arith, eq_iff x k, insert-Above xs x k)

pub weaken-Above : (s : OrdSet) (b c : ℤ) → b <ℤ c → Above c s → Above b s
weaken-Above [] b c h a = tt
weaken-Above (x ∷ xs) b c h a = (omega arith, a.1)

erase-Above : (s : OrdSet) (b k : ℤ) → Above b s → Above b (erase k s)
unfolding erase
erase-Above [] b k a = tt
erase-Above (x ∷ xs) b k a =
    ground (arith, erase-Above xs x k, erase-Above xs b k, weaken-Above xs b x)

erase-head : (s : OrdSet) (k x : ℤ) → Above x s → IsAscending (erase k s)
unfolding erase
erase-head [] k x a = tt
erase-head (y ∷ ys) k x a = ground (arith, erase-Above ys y k, erase-head ys k y)

pub erase-IsAscending : (s : OrdSet) (k : ℤ) → IsAscending s → IsAscending (erase k s)
unfolding erase
erase-IsAscending [] k a = tt
erase-IsAscending (x ∷ xs) k a = ground (arith, erase-Above xs x k, erase-head xs k x)
