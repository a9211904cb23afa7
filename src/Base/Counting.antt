-- ===== src/Base/Counting.antt =====
-- Lists with one element replaced, and the number of elements that pass a test.
use Prim.Native.Nat.{ℕ, zero, suc, ◌+◌}
use mathlib.Core.Path.{◌≡◌, refl, sym, ap, ◌∙◌, subst}
use mathlib.Core.Bool.{Bool, true, false}
use mathlib.Core.List.{List, [], ◌∷◌, ◌++◌}
use mathlib.Core.Option.{some}
use native.Mathlib.Omega.{arith}
use flowmq.Base.Tests.{◌==◌, if◌then◌else◌}
use flowmq.Base.Lists.{get_elem?, All}

abbrev pub set_at {ℓ} : {A : Type ℓ} → ℕ → A → List A → List A
set_at n a [] = []
set_at zero a (x ∷ xs) = a ∷ xs
set_at (suc n) a (x ∷ xs) = x ∷ set_at n a xs

pub get_elem?-set_at {ℓ} :
    {A : Type ℓ} (n k : ℕ) (a old : A) (xs : List A)
    → get_elem? xs n ≡ some old
    → get_elem? (set_at n a xs) k ≡ (if n == k then some a else get_elem? xs k)
get_elem?-set_at n k a old [] e = cc
get_elem?-set_at zero zero a old (x ∷ xs) e = refl
get_elem?-set_at zero (suc k) a old (x ∷ xs) e = ground arith
get_elem?-set_at (suc n) zero a old (x ∷ xs) e = ground arith
get_elem?-set_at (suc n) (suc k) a old (x ∷ xs) e =
    let shift : (suc n == suc k) ≡ (n == k) = ground arith in
    get_elem?-set_at n k a old xs e ∙ sym (ap (λ b. if b then some a else get_elem? xs k) shift)

pub All-set_at {ℓ κ} :
    {A : Type ℓ} (P : A → Type κ) (n : ℕ) (a : A) (xs : List A)
    → P a
    → All P xs
    → All P (set_at n a xs)
All-set_at P n a [] h hs = hs
All-set_at P zero a (x ∷ xs) h (k, ks) = (h, ks)
All-set_at P (suc n) a (x ∷ xs) h (k, ks) = (k, All-set_at P n a xs h ks)

pub All-get {ℓ κ} :
    {A : Type ℓ} (P : A → Type κ) (n : ℕ) (a : A) (xs : List A)
    → get_elem? xs n ≡ some a
    → All P xs
    → P a
All-get P n a [] e h = cc
All-get P zero a (x ∷ xs) e (h, hs) = let same : x ≡ a = cc in subst P same h
All-get P (suc n) a (x ∷ xs) e (h, hs) = All-get P n a xs e hs

abbrev pub one_if : Bool → ℕ
one_if true = 1
one_if false = 0

module _ {ℓ} {A : Type ℓ} where
  unfoldable pub count_if : (A → Bool) → List A → ℕ
  count_if p [] = 0
  count_if p (x ∷ xs) = one_if (p x) + count_if p xs

  pub count_if-append :
      (p : A → Bool) (xs ys : List A) → count_if p (xs ++ ys) ≡ count_if p xs + count_if p ys
  unfolding count_if
  count_if-append p [] ys = omega arith
  count_if-append p (x ∷ xs) ys = omega (arith, count_if-append p xs ys)
