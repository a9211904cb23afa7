-- ===== src/ClusterManager/Tokens.antt =====
-- How often an endpoint is waited for or connected in a manager of src/flowmq/cluster_manager.cpp:
-- sessions that are connected, connections that are being made, and timers.
use flowmq.Base.{
  count_if, one_if, set_at, ℤ, ℕ, zero, suc, ◌+◌, ◌≤◌, List, [], ◌∷◌, ◌++◌, Option, none, some,
  Bool, true, Bool-cases, get_elem?, ◌==ℤ◌, if◌then◌else◌, ◌≡◌, refl, sym, ◌∙◌, ap, arith, inl, inr,
}
use flowmq.Session.{Status, connected}
use flowmq.ClusterManager.{ClusterManager, Role, Connection, take_first, more_before}

abbrev live : Status → ℕ
live connected = 1
live other = 0

-- 1 for a session to the endpoint that is connected.
abbrev pub up_of : ℤ → Role → Status → ℕ
up_of id (Role.outgoing j) st = if j ==ℤ id then live st else 0
up_of id (Role.incoming j) st = 0

unfoldable pub ups : ℤ → List Connection → ℕ
ups id [] = 0
ups id (c ∷ cs) = up_of id c.role c.session.status + ups id cs

module _ {ℓ} {A : Type ℓ} where
  split_more :
      (x : A) (o : Option (List A)) (rest : List A)
      → more_before x o ≡ some rest
      → (ys : List A) × (o ≡ some ys) × (rest ≡ x ∷ ys)
  split_more x none rest e = cc
  split_more x (some ys) rest e = (ys, refl, cc)

  -- The element that is taken is the only one that the rest lacks.
  pub take_first_lem :
      (p : A → Bool) (xs rest : List A)
      → take_first p xs ≡ some rest
      → (a : A) × (p a ≡ true) × ((q : A → Bool) → count_if q xs ≡ one_if (q a) + count_if q rest)
  unfolding take_first count_if
  take_first_lem p [] rest e = cc
  take_first_lem p (x ∷ xs) rest e = elim (Bool-cases (p x)) [
    | inl hit ↦
        let same : xs ≡ rest = some_same (sym (rw hit refl) ∙ e) in
        (x, hit, λ q. ap (λ l. one_if (q x) + count_if q l) same)
    | inr miss ↦
        let (ys, taken, same) = split_more x (take_first p xs) rest (sym (rw miss refl) ∙ e) in
        let (a, hit, counts) = take_first_lem p xs ys taken in
        (a, hit, λ q. omega (arith, counts q, ap (count_if q) same))
  ]
    where
      some_same : {u v : List A} → some u ≡ some v → u ≡ v
      some_same h = cc

  pub take_first_there :
      (p : A → Bool) (xs : List A)
      → 1 ≤ count_if p xs
      → (rest : List A) × (take_first p xs ≡ some rest)
  unfolding take_first count_if
  take_first_there p [] h = absurd (omega arith)
  take_first_there p (x ∷ xs) h = elim (Bool-cases (p x)) [
    | inl hit ↦ (xs, rw hit refl)
    | inr miss ↦
        let (rest, e) = take_first_there p xs (omega (arith, ap one_if miss)) in
        (x ∷ rest, rw (miss, e) refl)
  ]

abbrev pub alarms : ℤ → List ℤ → ℕ
alarms id js = count_if (λ j. j ==ℤ id) js

module _ {Results : Type 0} where
  abbrev pub waits : ℤ → List (ℤ × Results) → ℕ
  waits id xs = count_if (λ x. x.0 ==ℤ id) xs

  abbrev pub tokens : ℤ → ClusterManager Results → ℕ
  tokens id m = ups id m.sessions + waits id m.connecting + alarms id m.timers

pub ups-append : (id : ℤ) (xs ys : List Connection) → ups id (xs ++ ys) ≡ ups id xs + ups id ys
unfolding ups
ups-append id [] ys = omega arith
ups-append id (x ∷ xs) ys = omega (arith, ups-append id xs ys)

pub ups-set_at :
    (id : ℤ) (n : ℕ) (cs : List Connection) (c c' : Connection)
    → get_elem? cs n ≡ some c
    → ups id (set_at n c' cs) + up_of id c.role c.session.status
      ≡ ups id cs + up_of id c'.role c'.session.status
unfolding ups
ups-set_at id n [] c c' e = cc
ups-set_at id zero (x ∷ cs) c c' e =
    let same : x ≡ c = cc in
    omega (arith, ap (λ (d : Connection). up_of id d.role d.session.status) same)
ups-set_at id (suc n) (x ∷ cs) c c' e = omega (arith, ups-set_at id n cs c c' e)

pub ups-there :
    (id : ℤ) (n : ℕ) (cs : List Connection) (c : Connection)
    → get_elem? cs n ≡ some c
    → up_of id c.role c.session.status ≤ ups id cs
unfolding ups
ups-there id n [] c e = cc
ups-there id zero (x ∷ cs) c e =
    let same : x ≡ c = cc in
    omega (arith, ap (λ (d : Connection). up_of id d.role d.session.status) same)
ups-there id (suc n) (x ∷ cs) c e = omega (arith, ups-there id n cs c e)
