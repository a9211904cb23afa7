-- ===== src/Text/Atoi.antt =====
-- `atoi`, `std::stoi` and `std::stoll`, which all go by `strtol`: blanks, a sign, digits, and whatever
-- follows is left.
use flowmq.Base.{
  ℤ, pos, negsuc, ℕ, suc, ◌-◌, ◌^◌, ◌<◌, Bytes, [], ◌∷◌, ◌++◌, Option, none, some, Bool, true,
  false, ◌≡◌, refl, arith, ltb, leb, ◌==◌, if◌then◌else◌, Outcome, ok, fault, or_fault,
}
use flowmq.Text.Decimal.{
  show_ℕ, show_ℤ, skip_spaces, span_digits, value_from, is_empty, IsNumeral, EndsDigits,
  numeral-All, span_digits-append, show_ℕ-IsNumeral, value_from-show_ℕ,
}

-- The value of the digits in a type that holds -limit up to limit - 1.
abbrev pub in_range : ℕ → Bool → Bytes → Option ℤ
in_range limit negative [] = none
in_range limit false (c ∷ s) =
    if ltb (value_from 0 (c ∷ s)) limit then some (pos (value_from 0 (c ∷ s))) else none
in_range limit true (c ∷ s) =
    if value_from 0 (c ∷ s) == 0
    then some (pos 0)
    else if leb (value_from 0 (c ∷ s)) limit
    then some (negsuc (value_from 0 (c ∷ s) - 1))
    else none

abbrev pub signed_number : ℕ → Bytes → Option ℤ
signed_number limit [] = none
signed_number limit (c ∷ s) =
    if c == 45
    then in_range limit true (span_digits s).0
    else if c == 43
    then in_range limit false (span_digits s).0
    else in_range limit false (span_digits (c ∷ s)).0

-- None where std::stoi throws: no digits, or out of range.
unfoldable pub to_number : ℕ → Bytes → Option ℤ
to_number limit s = signed_number limit (skip_spaces s)

abbrev pub stoi : Bytes → Option ℤ
stoi s = to_number (2 ^ 31) s

abbrev pub stoll : Bytes → Option ℤ
stoll s = to_number (2 ^ 63) s

-- `atoi` in a buffer: undefined out of the range of an `int`, and where it finds no end.
abbrev pub or_zero : Bool → Bytes → Outcome ℤ
or_zero negative [] = ok (pos 0)
or_zero negative (d ∷ ds) = or_fault (in_range (2 ^ 31) negative (d ∷ ds))

abbrev pub atoi_digits : Bool → Bytes → Outcome ℤ
atoi_digits negative s =
    if is_empty (span_digits s).1 then fault else or_zero negative (span_digits s).0

abbrev pub atoi_signed : Bytes → Outcome ℤ
atoi_signed [] = fault
atoi_signed (c ∷ s) =
    if c == 45
    then atoi_digits true s
    else if c == 43
    then atoi_digits false s
    else atoi_digits false (c ∷ s)

unfoldable pub atoi : Bytes → Outcome ℤ
atoi s = atoi_signed (skip_spaces s)

in_range-numeral :
    (limit n : ℕ) (ds : Bytes)
    → IsNumeral ds
    → value_from 0 ds ≡ n
    → (in_range limit false ds ≡ (if ltb n limit then some (pos n) else none))
      × (in_range limit true ds
          ≡ (if n == 0 then some (pos 0) else if leb n limit then some (negsuc (n - 1)) else none))
in_range-numeral limit n [] h e = absurd h
in_range-numeral limit n (d ∷ ds) h e = rw e (refl, refl)

abbrev pub Fits : ℕ → ℤ → Type 0
Fits limit (pos n) = n < limit
Fits limit (negsuc n) = n < limit

signed_number-numeral :
    (limit : ℕ) (ds rest : Bytes)
    → IsNumeral ds
    → EndsDigits rest
    → (to_number limit (ds ++ rest) ≡ in_range limit false ds)
      × (to_number limit (45 ∷ ds ++ rest) ≡ in_range limit true ds)
unfolding to_number skip_spaces
signed_number-numeral limit [] rest h e = absurd h
signed_number-numeral limit (d ∷ ds) rest h e =
    ground (arith, span_digits-append (d ∷ ds) rest (numeral-All (d ∷ ds) h) e)

-- A number that fits is read back, whatever follows that is no digit.
pub to_number-show_ℤ :
    (limit : ℕ) (i : ℤ) (rest : Bytes)
    → Fits limit i
    → EndsDigits rest
    → to_number limit (show_ℤ i ++ rest) ≡ some i
unfolding show_ℤ
to_number-show_ℤ limit (pos n) rest h e = ground (
  arith,
  signed_number-numeral limit (show_ℕ n) rest (show_ℕ-IsNumeral n) e,
  in_range-numeral limit n (show_ℕ n) (show_ℕ-IsNumeral n) (value_from-show_ℕ n),
)
to_number-show_ℤ limit (negsuc n) rest h e = ground (
  arith,
  signed_number-numeral limit (show_ℕ (suc n)) rest (show_ℕ-IsNumeral (suc n)) e,
  in_range-numeral limit (suc n) (show_ℕ (suc n)) (show_ℕ-IsNumeral (suc n))
      (value_from-show_ℕ (suc n)),
)

or_zero-numeral :
    (n : ℕ) (ds : Bytes)
    → IsNumeral ds
    → value_from 0 ds ≡ n
    → n < 2 ^ 31
    → or_zero false ds ≡ ok (pos n)
or_zero-numeral n [] h e k = absurd h
or_zero-numeral n (d ∷ ds) h e k = rw e (ground arith)

-- A numeral and a NUL byte behind it.
atoi-numeral :
    (n : ℕ) (ds rest : Bytes)
    → IsNumeral ds
    → value_from 0 ds ≡ n
    → n < 2 ^ 31
    → atoi (ds ++ 0 ∷ rest) ≡ ok (pos n)
unfolding atoi skip_spaces
atoi-numeral n [] rest h e k = absurd h
atoi-numeral n (d ∷ ds) rest h e k = ground (
  arith,
  span_digits-append (d ∷ ds) (0 ∷ rest) (numeral-All (d ∷ ds) h) refl,
  or_zero-numeral n (d ∷ ds) h e k,
)

pub atoi-show_ℕ : (n : ℕ) (rest : Bytes) → n < 2 ^ 31 → atoi (show_ℕ n ++ 0 ∷ rest) ≡ ok (pos n)
atoi-show_ℕ n rest h = atoi-numeral n (show_ℕ n) rest (show_ℕ-IsNumeral n) (value_from-show_ℕ n) h

in_range-Fits :
    (limit : ℕ) (negative : Bool) (s : Bytes) (i : ℤ)
    → in_range (suc limit) negative s ≡ some i
    → Fits (suc limit) i
in_range-Fits limit negative s i e = ground arith

-- Whatever is read is in the range.
pub to_number-Fits :
    (limit : ℕ) (s : Bytes) (i : ℤ) → to_number (suc limit) s ≡ some i → Fits (suc limit) i
unfolding to_number
to_number-Fits limit s i e = ground (arith, in_range-Fits limit)
