-- ===== src/ClusterManager/Links.antt =====
-- The sessions of a manager of src/flowmq/cluster_manager.cpp and its map of outgoing sessions.
use flowmq.Base.{
  All-set_at, get_elem?-set_at, set_at, ℤ, ℕ, zero, suc, ◌≤◌, List, [], ◌∷◌, ◌++◌, some, Bool-cases,
  length, get_elem?, All, All-append, ◌==ℤ◌, eq_iff, eq_refl, ◌==◌, ==_iff, ◌≡◌, refl, sym, ◌∙◌, ap,
  arith, ◌⊎◌, inl, inr, get_elem?-append_left, get_elem?-append_length, get_elem?_lt,
}
use flowmq.Containers.OrdMap
use flowmq.Containers.OrdMap.{OrdMap, lookup-assign}
use flowmq.Session.{Session, connected}
use flowmq.ClusterManager.{Role, Connection}
use flowmq.ClusterManager.Steps.{IsOpen}
use flowmq.ClusterManager.Tokens.{ups, up_of, ups-there}

-- No session was closed, the map holds for an endpoint a session to that endpoint, and a session that
-- is connected to an endpoint is the one that the map holds.
pub record IsLinked (sessions : List Connection) (map : OrdMap ℕ) : Type 0 where
  pub open_all : All (λ c. IsOpen c.session.status) sessions
  pub linked :
      (id : ℤ) (n : ℕ)
      → OrdMap.lookup map id ≡ some n
      → (c : Connection) × (get_elem? sessions n ≡ some c) × (c.role ≡ Role.outgoing id)
  pub current :
      (id : ℤ) (n : ℕ) (c : Connection)
      → get_elem? sessions n ≡ some c
      → c.role ≡ Role.outgoing id
      → c.session.status ≡ connected
      → OrdMap.lookup map id ≡ some n

same_some {ℓ} : {A : Type ℓ} {a b : A} → some a ≡ some b → a ≡ b
same_some e = cc

-- One session is replaced by one of the same role that is connected only if it was.
pub set_at-IsLinked :
    (sessions : List Connection) (map : OrdMap ℕ) (n : ℕ) (c c' : Connection)
    → IsLinked sessions map
    → get_elem? sessions n ≡ some c
    → c'.role ≡ c.role
    → IsOpen c'.session.status
    → (c'.session.status ≡ connected → c.session.status ≡ connected)
    → IsLinked (set_at n c' sessions) map
set_at-IsLinked sessions map n c c' h e role opened back = record {
  open_all = All-set_at (λ d. IsOpen d.session.status) n c' sessions opened h.open_all;
  linked = λ id k l.
      let (d, there, for) = h.linked id k l in
      elim (Bool-cases (n == k)) [
        | inl same ↦
            let at : n ≡ k = (==_iff n k).0 same in
            let dc : c ≡ d = same_some (sym e ∙ ap (get_elem? sessions) at ∙ there) in
            (
              c',
              get_elem?-set_at n k c' c sessions e ∙ rw same refl,
              role ∙ ap (λ (x : Connection). x.role) dc ∙ for,
            )
        | inr other ↦ (d, get_elem?-set_at n k c' c sessions e ∙ rw other there, for)
      ];
  current = λ id k d there for up. elim (Bool-cases (n == k)) [
    | inl same ↦
        let at : n ≡ k = (==_iff n k).0 same in
        let dc : c' ≡ d =
          same_some (sym (get_elem?-set_at n k c' c sessions e ∙ rw same refl) ∙ there) in
        h.current id k c (sym (ap (get_elem? sessions) at) ∙ e)
          (sym role ∙ ap (λ (x : Connection). x.role) dc ∙ for)
          (back (ap (λ (x : Connection). x.session.status) dc ∙ up))
    | inr other ↦
        h.current id k d (sym (get_elem?-set_at n k c' c sessions e ∙ rw other refl) ∙ there) for up
  ];
}

last_or_before :
    (xs : List Connection) (x a : Connection) (n : ℕ)
    → get_elem? (xs ++ x ∷ []) n ≡ some a
    → (get_elem? xs n ≡ some a) ⊎ ((n ≡ length xs) × (x ≡ a))
last_or_before [] x a zero e = inr (refl, same_some e)
last_or_before [] x a (suc n) e = cc
last_or_before (y ∷ xs) x a zero e = inl e
last_or_before (y ∷ xs) x a (suc n) e = elim (last_or_before xs x a n e) [
  | inl before ↦ inl before
  | inr (at, same) ↦ inr (ap suc at, same)
]

before_last :
    (xs : List Connection) (x a : Connection) (n : ℕ)
    → get_elem? xs n ≡ some a
    → get_elem? (xs ++ x ∷ []) n ≡ some a
before_last xs x a n e = get_elem?-append_left xs (x ∷ []) n (get_elem?_lt xs n a e) ∙ e

-- A session that was accepted.
pub incoming-IsLinked :
    (sessions : List Connection) (map : OrdMap ℕ) (id : ℤ) (s : Session)
    → IsOpen s.status
    → IsLinked sessions map
    → IsLinked (sessions ++ record { role = Role.incoming id; session = s } ∷ []) map
incoming-IsLinked sessions map id s opened h =
    let c : Connection = record { role = Role.incoming id; session = s } in
    record {
      open_all =
          All-append (λ d. IsOpen d.session.status) sessions (c ∷ []) h.open_all (opened, tt);
      linked = λ j n l.
          let (d, there, for) = h.linked j n l in (d, before_last sessions c d n there, for);
      current = λ j n d there for up. elim (last_or_before sessions c d n there) [
        | inl before ↦ h.current j n d before for up
        | inr (at, same) ↦ absurd (not_outgoing j (ap (λ (x : Connection). x.role) same ∙ for))
      ];
    }
  where
    not_outgoing : (j : ℤ) → Role.incoming id ≡ Role.outgoing j → ⊥
    not_outgoing j e = cc

outgoing-injective : (i j : ℤ) → Role.outgoing i ≡ Role.outgoing j → i ≡ j
outgoing-injective i j e = cc

-- A session that is connected counts.
pub connected-ups :
    (sessions : List Connection) (id : ℤ) (n : ℕ) (c : Connection)
    → get_elem? sessions n ≡ some c
    → c.role ≡ Role.outgoing id
    → c.session.status ≡ connected
    → 1 ≤ ups id sessions
connected-ups sessions id n c e role up =
    let one : up_of id c.role c.session.status ≡ 1 = rw (role, up, eq_refl id) refl in
    omega (arith, one, ups-there id n sessions c e)

-- A session that was connected, when none to the endpoint was.
pub outgoing-IsLinked :
    (sessions : List Connection) (map : OrdMap ℕ) (id : ℤ) (s : Session)
    → IsOpen s.status
    → ups id sessions ≡ 0
    → IsLinked sessions map
    → IsLinked
        (sessions ++ record { role = Role.outgoing id; session = s } ∷ [])
        (OrdMap.assign id (length sessions) map)
outgoing-IsLinked sessions map id s opened none_up h =
    let c : Connection = record { role = Role.outgoing id; session = s } in
    let found = λ (j : ℤ). lookup-assign map id j (length sessions) in
    record {
      open_all =
          All-append (λ d. IsOpen d.session.status) sessions (c ∷ []) h.open_all (opened, tt);
      linked = λ j n l. elim (Bool-cases (id ==ℤ j)) [
        | inl same ↦
            let at : length sessions ≡ n = same_some (sym (found j ∙ rw same refl) ∙ l) in
            (
              c,
              ap (get_elem? (sessions ++ c ∷ [])) (sym at) ∙ get_elem?-append_length sessions [] c,
              ap Role.outgoing ((eq_iff id j).0 same),
            )
        | inr other ↦
            let (d, there, for) = h.linked j n (sym (found j ∙ rw other refl) ∙ l) in
            (d, before_last sessions c d n there, for)
      ];
      current = λ j n d there for up. elim (last_or_before sessions c d n there) [
        | inr (at, same) ↦
            let ids : id ≡ j =
              outgoing-injective id j (ap (λ (x : Connection). x.role) same ∙ for) in
            found j ∙ rw ((eq_iff id j).1 ids) (ap some (sym at))
        | inl before ↦ elim (Bool-cases (id ==ℤ j)) [
          | inl same ↦
              let ids : ups id sessions ≡ ups j sessions =
                ap (λ i. ups i sessions) ((eq_iff id j).0 same) in
              absurd (omega (arith, ids, none_up, connected-ups sessions j n d before for up))
          | inr other ↦ found j ∙ rw other (h.current j n d before for up)
        ]
      ];
    }
