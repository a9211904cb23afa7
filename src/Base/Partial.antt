-- ===== src/Base/Partial.antt =====
-- Code with undefined behaviour: `fault` is any run that leaves the defined language (an index
-- out of range, a signed overflow, a null pointer) or that stops at an `assert`.
use mathlib.Core.Path.{◌≡◌, refl}
use mathlib.Core.Option.{Option, none, some}
use native.Mathlib.Omega.{arith}
use flowmq.Base.Tests.{if◌then◌else◌}
use flowmq.Base.Int.{ℤ, pos, int_max, ltb_ℤ, ◌+ℤ◌, ◌<ℤ◌}

pub data Outcome {ℓ} (A : Type ℓ) : Type ℓ where
  ok : A → Outcome A
  fault : Outcome A

infixl 5 ◌>>=◌
abbrev pub ◌>>=◌ {ℓ κ} : {A : Type ℓ} {B : Type κ} → Outcome A → (A → Outcome B) → Outcome B
ok a >>= f = f a
fault >>= f = fault

abbrev pub or_fault {ℓ} : {A : Type ℓ} → Option A → Outcome A
or_fault none = fault
or_fault (some a) = ok a

-- `++i` on an `int`, whose overflow is undefined.
unfoldable pub increment : ℤ → Outcome ℤ
increment i = if ltb_ℤ i int_max then ok (i +ℤ pos 1) else fault

pub >>=-eq-ok {ℓ κ} :
    {A : Type ℓ} {B : Type κ} (first : Outcome A) (next : A → Outcome B) {r : B}
    → (first >>= next) ≡ ok r
    → (mid : A) × (first ≡ ok mid) × (next mid ≡ ok r)
>>=-eq-ok fault next e = cc
>>=-eq-ok (ok mid) next e = (mid, refl, e)

pub increment_lem : (i : ℤ) {j : ℤ} → increment i ≡ ok j → (j ≡ i +ℤ pos 1) × (i <ℤ int_max)
unfolding increment
increment_lem i h = ground arith

pub ok-injective {ℓ} : {A : Type ℓ} {a b : A} → ok a ≡ ok b → a ≡ b
ok-injective e = cc
