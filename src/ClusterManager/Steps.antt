-- ===== src/ClusterManager/Steps.antt =====
-- What an event does to a session that a manager of src/flowmq/cluster_manager.cpp holds.
use flowmq.Base.{ℕ, zero, suc, Bool, true, false, ok, ok-injective, ◌≡◌, refl, subst, ◌⊎◌, inl, inr}
use flowmq.Session
use flowmq.Session.{
  Session, Status, connected, disconnected, closed, Reading, disconneted, call_disconnected,
  read_fails, write_ends, new_session, start_read,
}
use flowmq.Session.Disconnect.{read_completes-same}
use flowmq.ClusterManager.{IoEvent, arrives, reads, fails_to_read, write_done, io}

abbrev pub IsOpen : Status → Type 0
IsOpen closed = ⊥
IsOpen other = Unit {0}

-- What an event does to the status of a session and to the calls of its disconnect handler.
abbrev pub Stays : Session → Session → Type 0
Stays s s' = (s'.status ≡ s.status) × (s'.disconnects ≡ s.disconnects)

abbrev pub Drops : Session → Session → Type 0
Drops s s' =
    (s.status ≡ connected) × (s'.status ≡ disconnected) × (s'.disconnects ≡ suc s.disconnects)

disconneted-step :
    (s : Session) → IsOpen s.status → Stays s (disconneted s) ⊎ Drops s (disconneted s)
unfolding disconneted
disconneted-step s h = go s.status h refl
  where
    go :
        (t : Status)
        → IsOpen t
        → s.status ≡ t
        → Stays s (call_disconnected t s) ⊎ Drops s (call_disconnected t s)
    go connected h e = inr (e, refl, refl)
    go disconnected h e = inl (refl, refl)
    go closed h e = absurd h

read_fails-step :
    (r : Reading) (s : Session)
    → IsOpen s.status
    → Stays s (read_fails r s) ⊎ Drops s (read_fails r s)
read_fails-step Reading.nothing s h = inl (refl, refl)
read_fails-step Reading.header s h = disconneted-step (record s { reading = Reading.nothing }) h
read_fails-step Reading.body s h = disconneted-step (record s { reading = Reading.nothing }) h

write_ends-step :
    (failed : Bool) (n : ℕ) (s : Session)
    → IsOpen s.status
    → Stays s (write_ends failed n s) ⊎ Drops s (write_ends failed n s)
write_ends-step failed zero s h = inl (refl, refl)
write_ends-step true (suc n) s h = disconneted-step (record s { writing = n }) h
write_ends-step false (suc n) s h = inl (refl, refl)

pub io-step :
    (e : IoEvent) (s s' : Session)
    → IsOpen s.status
    → Session.handle (io e) s ≡ ok s'
    → Stays s s' ⊎ Drops s s'
unfolding Session.handle
io-step (arrives bytes) s s' h e =
    subst (λ t. Stays s t ⊎ Drops s t) (ok-injective e) (inl (refl, refl))
io-step reads s s' h e = inl (read_completes-same s.reading s s' e)
io-step fails_to_read s s' h e =
    subst (λ t. Stays s t ⊎ Drops s t) (ok-injective e) (read_fails-step s.reading s h)
io-step (write_done failed) s s' h e =
    subst (λ t. Stays s t ⊎ Drops s t) (ok-injective e) (write_ends-step failed s.writing s h)
