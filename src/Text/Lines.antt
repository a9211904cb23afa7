-- ===== src/Text/Lines.antt =====
-- std::getline on an input stream, and the comparison of strings.
use flowmq.Base.{
  ℕ, Bytes, List, [], ◌∷◌, ◌++◌, Bool, true, false, ◌≡◌, refl, ◌==◌, ◌&&◌, if◌then◌else◌, All,
  Bool-cases, inl, inr,
}

abbrev pub newline : ℕ
newline = 10

abbrev begin_line : ℕ → List Bytes → List Bytes
begin_line c [] = (c ∷ []) ∷ []
begin_line c (l ∷ ls) = (c ∷ l) ∷ ls

-- What one std::getline after the other gives until it fails: a last line needs no newline.
unfoldable pub lines : Bytes → List Bytes
lines [] = []
lines (c ∷ s) = if c == newline then [] ∷ lines s else begin_line c (lines s)

abbrev pub same_string : Bytes → Bytes → Bool
same_string [] [] = true
same_string [] (d ∷ t) = false
same_string (c ∷ s) [] = false
same_string (c ∷ s) (d ∷ t) = (c == d) && same_string s t

abbrev pub IsLine : Bytes → Type 0
IsLine l = All (λ c. (c == newline) ≡ false) l

pub lines-append : (l rest : Bytes) → IsLine l → lines (l ++ newline ∷ rest) ≡ l ∷ lines rest
unfolding lines
lines-append [] rest h = refl
lines-append (c ∷ l) rest (h, hs) = rw (h, lines-append l rest hs) refl

begin_line-IsLine :
    (c : ℕ) (ls : List Bytes)
    → (c == newline) ≡ false
    → All IsLine ls
    → All IsLine (begin_line c ls)
begin_line-IsLine c [] h hs = ((h, tt), tt)
begin_line-IsLine c (l ∷ ls) h (k, ks) = ((h, k), ks)

pub lines-IsLine : (s : Bytes) → All IsLine (lines s)
unfolding lines
lines-IsLine [] = tt
lines-IsLine (c ∷ s) = elim (Bool-cases (c == newline)) [
  | inl e ↦ rw e (tt, lines-IsLine s)
  | inr e ↦ rw e (begin_line-IsLine c (lines s) e (lines-IsLine s))
]
