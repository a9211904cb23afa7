-- ===== src/Text/Decimal.antt =====
-- Numbers in decimal, as `std::to_string` and `<<` write them and as `>>` of an input stream reads
-- an `int`.
use flowmq.Base.{
  ℤ, pos, negsuc, ℕ, zero, suc, ◌+◌, ◌-◌, ◌*◌, ◌/◌, ◌%◌, ◌^◌, ◌<◌, Bytes, [], ◌∷◌, ◌++◌, Option,
  none, some, Bool, true, false, ◌≡◌, refl, arith, ltb, leb, ◌==◌, ◌&&◌, ◌||◌, if◌then◌else◌, All,
}

-- The digits of n in front of `acc`; `fuel` bounds their number.
unfoldable pub digits : ℕ → ℕ → Bytes → Bytes
digits zero n acc = acc
digits (suc fuel) n acc =
    let more = digits fuel (n / 10) ((48 + n % 10) ∷ acc) in
    if ltb n 10 then (48 + n) ∷ acc else more

-- More than n rounds are never needed.
unfoldable pub show_ℕ : ℕ → Bytes
show_ℕ n = digits (suc n) n []

unfoldable pub show_ℤ : ℤ → Bytes
show_ℤ (pos n) = show_ℕ n
show_ℤ (negsuc n) = 45 ∷ show_ℕ (suc n)

abbrev pub is_digit : ℕ → Bool
is_digit c = leb 48 c && leb c 57

-- std::isspace in the "C" locale.
abbrev pub is_space : ℕ → Bool
is_space c = (c == 32) || (leb 9 c && leb c 13)

unfoldable pub skip_spaces : Bytes → Bytes
skip_spaces [] = []
skip_spaces (c ∷ s) = if is_space c then skip_spaces s else c ∷ s

-- The digits at the front, and the rest.
unfoldable pub span_digits : Bytes → Bytes × Bytes
span_digits [] = ([], [])
span_digits (c ∷ s) = if is_digit c then (c ∷ (span_digits s).0, (span_digits s).1) else ([], c ∷ s)

unfoldable pub value_from : ℕ → Bytes → ℕ
value_from n [] = n
value_from n (c ∷ s) = value_from (10 * n + (c - 48)) s

-- What `f >> i` leaves: the value, if it did not fail, the rest of the stream, and whether the end
-- of the stream was reached.
pub record Extracted : Type 0 where
  pub value : Option ℤ
  pub rest : Bytes
  pub eof : Bool

abbrev pub is_empty : Bytes → Bool
is_empty [] = true
is_empty (c ∷ s) = false

-- The value of a number, if it has a digit and is one of an `int`.
abbrev pub number : Bool → Bytes → Option ℤ
number negative [] = none
number false (c ∷ s) =
    if leb (value_from 0 (c ∷ s)) (2 ^ 31 - 1) then some (pos (value_from 0 (c ∷ s))) else none
number true (c ∷ s) =
    if value_from 0 (c ∷ s) == 0
    then some (pos 0)
    else if leb (value_from 0 (c ∷ s)) (2 ^ 31)
    then some (negsuc (value_from 0 (c ∷ s) - 1))
    else none

abbrev pub extract_digits : Bool → Bytes → Extracted
extract_digits negative s = record {
  value = number negative (span_digits s).0;
  rest = (span_digits s).1;
  eof = is_empty (span_digits s).1;
}

abbrev pub extract_signed : Bytes → Extracted
extract_signed [] = record { value = none; rest = []; eof = true }
extract_signed (c ∷ s) =
    if c == 45
    then extract_digits true s
    else if c == 43
    then extract_digits false s
    else extract_digits false (c ∷ s)

unfoldable pub extract_int : Bytes → Extracted
extract_int s = extract_signed (skip_spaces s)

-- Digits all through, and at least one.
abbrev pub IsNumeral : Bytes → Type 0
IsNumeral [] = ⊥
IsNumeral (c ∷ s) = (is_digit c ≡ true) × All (λ d. is_digit d ≡ true) s

pub numeral-All : (s : Bytes) → IsNumeral s → All (λ d. is_digit d ≡ true) s
numeral-All [] h = absurd h
numeral-All (c ∷ s) h = h

digits-IsNumeral :
    (fuel n : ℕ) (acc : Bytes)
    → n < fuel
    → All (λ d. is_digit d ≡ true) acc
    → IsNumeral (digits fuel n acc)
unfolding digits
digits-IsNumeral zero n acc h a = absurd (omega arith)
digits-IsNumeral (suc fuel) n acc h a =
    ground (arith, digits-IsNumeral fuel (n / 10) ((48 + n % 10) ∷ acc))

value_from-digits :
    (fuel n : ℕ) (acc : Bytes) → n < fuel → value_from 0 (digits fuel n acc) ≡ value_from n acc
unfolding digits value_from
value_from-digits zero n acc h = absurd (omega arith)
value_from-digits (suc fuel) n acc h =
    ground (arith, value_from-digits fuel (n / 10) ((48 + n % 10) ∷ acc))

-- What comes behind the digits of a number: nothing, or something else.
abbrev pub EndsDigits : Bytes → Type 0
EndsDigits [] = Unit {0}
EndsDigits (c ∷ s) = is_digit c ≡ false

pub span_digits-append :
    (ds : Bytes) (rest : Bytes)
    → All (λ d. is_digit d ≡ true) ds
    → EndsDigits rest
    → span_digits (ds ++ rest) ≡ (ds, rest)
unfolding span_digits
span_digits-append [] [] h e = refl
span_digits-append [] (c ∷ rest) h e = rw e refl
span_digits-append (d ∷ ds) rest (h, hs) e = rw (h, span_digits-append ds rest hs e) refl

-- A number before a space, with or without a minus sign.
extract_digits-numeral :
    (negative : Bool) (ds rest : Bytes)
    → IsNumeral ds
    → extract_digits negative (ds ++ 32 ∷ rest)
      ≡ record { value = number negative ds; rest = 32 ∷ rest; eof = false }
extract_digits-numeral negative ds rest h =
    rw (span_digits-append ds (32 ∷ rest) (numeral-All ds h) refl) refl

extract_int-numeral :
    (ds rest : Bytes)
    → IsNumeral ds
    → extract_int (ds ++ 32 ∷ rest)
      ≡ record { value = number false ds; rest = 32 ∷ rest; eof = false }
unfolding extract_int skip_spaces
extract_int-numeral [] rest h = absurd h
extract_int-numeral (d ∷ ds) rest h = ground (arith, extract_digits-numeral false (d ∷ ds) rest h)

extract_int-minus :
    (ds rest : Bytes)
    → IsNumeral ds
    → extract_int (45 ∷ ds ++ 32 ∷ rest)
      ≡ record { value = number true ds; rest = 32 ∷ rest; eof = false }
unfolding extract_int skip_spaces
extract_int-minus ds rest h = extract_digits-numeral true ds rest h

pub show_ℕ-IsNumeral : (n : ℕ) → IsNumeral (show_ℕ n)
unfolding show_ℕ
show_ℕ-IsNumeral n = digits-IsNumeral (suc n) n [] (omega arith) tt

pub value_from-show_ℕ : (n : ℕ) → value_from 0 (show_ℕ n) ≡ n
unfolding show_ℕ value_from
value_from-show_ℕ n = value_from-digits (suc n) n [] (omega arith)

number_value :
    (negative : Bool) (ds : Bytes) (n : ℕ)
    → IsNumeral ds
    → value_from 0 ds ≡ n
    → number negative ds ≡ (
        if negative
        then (if n == 0
            then some (pos 0)
            else if leb n (2 ^ 31)
            then some (negsuc (n - 1))
            else none)
        else if leb n (2 ^ 31 - 1)
        then some (pos n)
        else none)
number_value negative [] n h e = absurd h
number_value true (d ∷ ds) n h e = rw e refl
number_value false (d ∷ ds) n h e = rw e refl

pub extract_int-show_ℕ :
    (n : ℕ) (rest : Bytes)
    → n < 2 ^ 31
    → extract_int (show_ℕ n ++ 32 ∷ rest)
      ≡ record { value = some (pos n); rest = 32 ∷ rest; eof = false }
extract_int-show_ℕ n rest h = ground (
  arith,
  extract_int-numeral (show_ℕ n) rest (show_ℕ-IsNumeral n),
  number_value false (show_ℕ n) n (show_ℕ-IsNumeral n) (value_from-show_ℕ n),
)

abbrev pub IsInt : ℤ → Type 0
IsInt (pos n) = n < 2 ^ 31
IsInt (negsuc n) = n < 2 ^ 31

-- An `int` written with a space behind it is read back.
pub extract_int-show_ℤ :
    (i : ℤ) (rest : Bytes)
    → IsInt i
    → extract_int (show_ℤ i ++ 32 ∷ rest) ≡ record { value = some i; rest = 32 ∷ rest; eof = false }
unfolding show_ℤ
extract_int-show_ℤ (pos n) rest h = extract_int-show_ℕ n rest h
extract_int-show_ℤ (negsuc n) rest h = ground (
  arith,
  extract_int-minus (show_ℕ (suc n)) rest (show_ℕ-IsNumeral (suc n)),
  number_value true (show_ℕ (suc n)) (suc n) (show_ℕ-IsNumeral (suc n)) (value_from-show_ℕ (suc n)),
)
