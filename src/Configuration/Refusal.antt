-- ===== src/Configuration/Refusal.antt =====
-- What the reader of src/flowmq/configuration.cpp does with the lines that it does not take.
use flowmq.Base.{
  All, ◌≢◌, ==_iff, arith, Bool-cases, subst, Bool, ℕ, Bytes, List, [], ◌∷◌, ◌++◌, Option, none,
  some, false, ◌≡◌, refl, ◌∙◌, ap, ◌⊎◌, inl, inr, replicate, ◌==◌, if◌then◌else◌,
}
use flowmq.Text.Decimal.{is_empty}
use flowmq.Text.Strip.{IsWord, blank, padded, strip-cases}
use flowmq.Text.Lines.{IsLine, newline}
use flowmq.Configuration.{
  behind, equals_sign, split_key, KeyValue, throws, no_key_value, key_value, get_key_value,
}

All-back {ℓ} :
    {A : Type 0} (P : A → Type ℓ) (xs ys : List A) → All P (xs ++ ys) → All P xs × All P ys
All-back P [] ys h = (tt, h)
All-back P (x ∷ xs) ys (h, hs) = let (a, b) = All-back P xs ys hs in ((h, a), b)

pub padded-IsLine : (a : ℕ) (w : Bytes) (b : ℕ) → IsLine (padded a w b) → IsLine w
padded-IsLine a w b h =
    let (blanks, rest) =
      All-back (λ c. (c == newline) ≡ false) (replicate a blank) (w ++ replicate b blank) h in
    (All-back (λ c. (c == newline) ≡ false) w (replicate b blank) rest).0

-- Text without a '='.
abbrev pub NoSign : Bytes → Type 0
NoSign s = All (λ c. c ≢ 61) s

abbrev cut : Bool → ℕ → Bytes → Option (Bytes × Bytes)
cut b c line = if b then some ([], line) else behind c (split_key line)

-- Where split_key cuts a line.
split_key-cases :
    (line : Bytes)
    → ((split_key line ≡ none) × NoSign line)
      ⊎ ((before : Bytes) × (after : Bytes) × (split_key line ≡ some (before, after))
          × (line ≡ before ++ 61 ∷ after)
          × NoSign before)
unfolding split_key
split_key-cases [] = inl (refl, tt)
split_key-cases (c ∷ line) = elim (Bool-cases (c == equals_sign)) [
  | inl is_sign ↦
      let sign : c ≡ 61 = (==_iff c 61).0 is_sign in
      inr ([], line, ap (λ b. cut b c line) is_sign, ap (λ d. d ∷ line) sign, tt)
  | inr other ↦
      let differs : c ≢ 61 = ground (arith, ==_iff c 61) in
      elim (split_key-cases line) [
        | inl (e, no_sign) ↦
            inl (ap (λ b. cut b c line) other ∙ ap (behind c) e, (differs, no_sign))
        | inr (before, after, e, parts, no_sign) ↦ inr (
          c ∷ before,
          after,
          ap (λ b. cut b c line) other ∙ ap (behind c) e,
          ap (λ l. c ∷ l) parts,
          (differs, no_sign),
        )
      ]
]

pub after_sign-IsLine :
    (line before after : Bytes) → line ≡ before ++ 61 ∷ after → IsLine line → IsLine after
after_sign-IsLine line before after e h =
    (All-back (λ c. (c == newline) ≡ false) before (61 ∷ after) (subst IsLine e h)).1.1

word_filled : (w : Bytes) → IsWord w → is_empty w ≡ false
word_filled [] h = absurd h
word_filled (c ∷ w) h = refl

-- The text between the start or the end of a line and its first '='.
abbrev pub IsBlank : Bytes → Type 0
IsBlank s = (n : ℕ) × (s ≡ replicate n blank)

abbrev pub Surrounds : Bytes → Bytes → Type 0
Surrounds s w = IsWord w × (a : ℕ) × (b : ℕ) × (s ≡ padded a w b)

-- What get_key_value makes of the two sides of the first '='.
abbrev pub Sides : KeyValue → Bytes → Bytes → Type 0
Sides throws before after = IsBlank before ⊎ IsBlank after
Sides no_key_value before after = ⊥
Sides (key_value key value) before after = Surrounds before key × Surrounds after value

sides :
    (line before after : Bytes)
    → split_key line ≡ some (before, after)
    → Sides (get_key_value line) before after
unfolding get_key_value
sides line before after e = elim (strip-cases before) [
  | inl (n, blanks, s) ↦ rw (e, s) (inl (n, blanks))
  | inr (a, key, b, word, p, s) ↦ elim (strip-cases after) [
    | inl (n, blanks, t) ↦ rw (e, s, t) (inr (n, blanks))
    | inr (c, value, d, word', q, t) ↦
        rw (e, s, t, word_filled key word, word_filled value word')
          ((word, a, b, p), (word', c, d, q))
  ]
]

-- Of every line: get_key_value returns false exactly if there is no '=' on it. Otherwise it throws
-- if one side of the first '=' is empty or blank, and else gives the two sides without the blanks
-- around them, neither of them empty.
pub get_key_value-Sides :
    (line : Bytes)
    → (NoSign line × (get_key_value line ≡ no_key_value))
      ⊎ ((before : Bytes) × (after : Bytes) × (line ≡ before ++ 61 ∷ after)
          × NoSign before
          × Sides (get_key_value line) before after)
get_key_value-Sides line = elim (split_key-cases line) [
  | inl (e, no_sign) ↦ inl (no_sign, unfold get_key_value in (rw e refl))
  | inr (before, after, e, parts, no_sign) ↦
      inr (before, after, parts, no_sign, sides line before after e)
]
