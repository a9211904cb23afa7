-- ===== src/Text/Strip.antt =====
-- The search of a std::string for a character, and the string without the blanks at both ends that
-- ServerConfigurationLoader::strip (src/flowmq/configuration.cpp) makes with it.
use flowmq.Base.{
  ℕ, zero, suc, ◌+◌, ◌-◌, Bytes, [], ◌∷◌, ◌++◌, Option, none, some, Bool, true, false, ◌≡◌, refl,
  sym, ◌∙◌, ap, arith, ◌==◌, if◌then◌else◌, length, take, drop, replicate, take-append_front,
  drop-append_front, length-replicate, append_assoc, ◌⊎◌, inl, inr, Bool-cases,
}

abbrev pub blank : ℕ
blank = 32

abbrev one_more : Option ℕ → Option ℕ
one_more none = none
one_more (some i) = some (suc i)

unfoldable pub find_first_not_of : ℕ → Bytes → Option ℕ
find_first_not_of c [] = none
find_first_not_of c (x ∷ s) = if x == c then one_more (find_first_not_of c s) else some 0

abbrev later_or : Option ℕ → Bool → Option ℕ
later_or (some i) here = some (suc i)
later_or none true = none
later_or none false = some 0

unfoldable pub find_last_not_of : ℕ → Bytes → Option ℕ
find_last_not_of c [] = none
find_last_not_of c (x ∷ s) = later_or (find_last_not_of c s) (x == c)

-- str.substr(start, end - start + 1). With npos for `start` it throws.
abbrev substr_between : Option ℕ → Option ℕ → Bytes → Option Bytes
substr_between none end s = none
substr_between (some start) none s = some (drop start s)
substr_between (some start) (some end) s = some (take (end - start + 1) (drop start s))

unfoldable pub strip : Bytes → Option Bytes
strip s = substr_between (find_first_not_of blank s) (find_last_not_of blank s) s

-- A string with a first and a last character that are no blanks.
abbrev pub LastInk : ℕ → Bytes → Type 0
LastInk x [] = (x == blank) ≡ false
LastInk x (y ∷ s) = LastInk y s

abbrev pub IsWord : Bytes → Type 0
IsWord [] = ⊥
IsWord (x ∷ s) = ((x == blank) ≡ false) × LastInk x s

abbrev pub padded : ℕ → Bytes → ℕ → Bytes
padded a w b = replicate a blank ++ (w ++ replicate b blank)

find_first-padded :
    (a x : ℕ) (s : Bytes)
    → (x == blank) ≡ false
    → find_first_not_of blank (replicate a blank ++ x ∷ s) ≡ some a
unfolding find_first_not_of
find_first-padded zero x s h = rw h refl
find_first-padded (suc a) x s h = rw (find_first-padded a x s h) refl

find_first-blank : (a : ℕ) → find_first_not_of blank (replicate a blank) ≡ none
unfolding find_first_not_of
find_first-blank zero = refl
find_first-blank (suc a) = rw (find_first-blank a) refl

find_last-blank : (b : ℕ) → find_last_not_of blank (replicate b blank) ≡ none
unfolding find_last_not_of
find_last-blank zero = refl
find_last-blank (suc b) = rw (find_last-blank b) refl

find_last-word :
    (x : ℕ) (s : Bytes) (b : ℕ)
    → LastInk x s
    → find_last_not_of blank ((x ∷ s) ++ replicate b blank) ≡ some (length s)
unfolding find_last_not_of
find_last-word x [] b h = rw (find_last-blank b, h) refl
find_last-word x (y ∷ s) b h = ap (λ l. later_or l (x == blank)) (find_last-word y s b h)

find_last-padded :
    (a i : ℕ) (s : Bytes)
    → find_last_not_of blank s ≡ some i
    → find_last_not_of blank (replicate a blank ++ s) ≡ some (a + i)
unfolding find_last_not_of
find_last-padded zero i s h = h ∙ ap some (omega arith)
find_last-padded (suc a) i s h =
    ap (λ l. later_or l true) (find_last-padded a i s h) ∙ ap some (omega arith)

pub strip-padded : (a : ℕ) (w : Bytes) (b : ℕ) → IsWord w → strip (padded a w b) ≡ some w
unfolding strip
strip-padded a [] b h = absurd h
strip-padded a (x ∷ w) b (h, k) =
    let back = (x ∷ w) ++ replicate b blank in
    let n : a + length w - a + 1 ≡ length (x ∷ w) = omega arith in
    rw
      (
        find_first-padded a x (w ++ replicate b blank) h,
        find_last-padded a (length w) back (find_last-word x w b k),
        n,
      )
      (rw (drop-append_front a (replicate a blank) back (length-replicate {A = ℕ} a blank))
        (ap some (take-append_front (suc (length w)) (x ∷ w) (replicate b blank) refl)))

strip-blank : (n : ℕ) → strip (replicate n blank) ≡ none
unfolding strip
strip-blank n = rw (find_first-blank n) refl

-- Blanks only, or a word between blanks.
abbrev pub IsPadded : Bytes → Type 0
IsPadded s = (a : ℕ) × (w : Bytes) × (b : ℕ) × IsWord w × (s ≡ padded a w b)

blank_or_IsPadded : (s : Bytes) → ((n : ℕ) × (s ≡ replicate n blank)) ⊎ IsPadded s
blank_or_IsPadded [] = inl (0, refl)
blank_or_IsPadded (x ∷ s) = elim (Bool-cases (x == blank)) [
  | inl is_blank ↦
      let e : x ≡ blank = ground arith in
      elim (blank_or_IsPadded s) [
        | inl (n, all) ↦ inl (suc n, rw (e, all) refl)
        | inr (a, w, b, ink, p) ↦ inr (suc a, w, b, ink, rw (e, p) refl)
      ]
  | inr ink ↦ elim (blank_or_IsPadded s) [
    | inl (n, all) ↦ inr (0, x ∷ [], n, (ink, ink), rw all refl)
    | inr (a, [], b, ink', p) ↦ absurd ink'
    | inr (a, y ∷ w, b, (ink', last), p) ↦ inr (
      0,
      x ∷ replicate a blank ++ y ∷ w,
      b,
      (ink, skip_blanks x a y w last),
      rw p (ap (◌∷◌ x) (sym (append_assoc (replicate a blank) (y ∷ w) (replicate b blank)))),
    )
  ]
]
  where
    skip_blanks : (x a y : ℕ) (w : Bytes) → LastInk y w → LastInk x (replicate a blank ++ y ∷ w)
    skip_blanks x zero y w h = h
    skip_blanks x (suc a) y w h = skip_blanks blank a y w h

-- Of every string: it is blanks only, and then `strip` throws; or it is a word with blanks before and
-- behind, and `strip` gives the word.
pub strip-cases :
    (s : Bytes)
    → ((n : ℕ) × (s ≡ replicate n blank) × (strip s ≡ none))
      ⊎ ((a : ℕ) × (w : Bytes) × (b : ℕ) × IsWord w × (s ≡ padded a w b) × (strip s ≡ some w))
strip-cases s = elim (blank_or_IsPadded s) [
  | inl (n, e) ↦ inl (n, e, ap strip e ∙ strip-blank n)
  | inr (a, w, b, ink, e) ↦ inr (a, w, b, ink, e, ap strip e ∙ strip-padded a w b ink)
]
