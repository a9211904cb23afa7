-- ===== src/MessageQueue/Spec.antt =====
-- What the queue of src/flowmq/message_queue.hpp promises: each stored message is in one of three
-- states, and each method changes the state of the messages that it is about.
use flowmq.Base.{ℤ, ◌==ℤ◌, Bytes, Option, none, some, Bool, true, false, if◌then◌else◌}
use flowmq.Containers.OrdSet
use flowmq.Containers.OrdMap
use flowmq.MessageQueue.{MessageQueue}

pub data Status : Type 0 where
  undelivered committed : Status
  delivered : ℤ → Status

-- The abstract queue: what is known of each message id.
abbrev pub View : Type 0
View = ℤ → Option (Bytes × Status)

abbrev pub status : Bool → Option ℤ → Status
status true _ = committed
status false none = undelivered
status false (some client_id) = delivered client_id

abbrev pub entry : Option Bytes → Status → Option (Bytes × Status)
entry none s = none
entry (some message) s = some (message, s)

abbrev pub view : MessageQueue → View
view q m =
    entry (OrdMap.lookup q.message_store m)
      (status (OrdSet.contains q.committed_messages m) (OrdMap.lookup q.message_id_to_consumer m))

abbrev pub or_else : Option (Bytes × Status) → Bytes × Status → Option (Bytes × Status)
or_else none e = some e
or_else (some e) _ = some e

abbrev pub with_status : Status → Option (Bytes × Status) → Option (Bytes × Status)
with_status s none = none
with_status s (some (message, _)) = some (message, s)

abbrev pub back_from : ℤ → Option (Bytes × Status) → Option (Bytes × Status)
back_from client_id (some (message, delivered d)) =
    if d ==ℤ client_id then some (message, undelivered) else some (message, delivered d)
back_from client_id e = e

abbrev pub inserted : ℤ → Bytes → View → View
inserted k message v m = if k ==ℤ m then or_else (v m) (message, undelivered) else v m

abbrev pub moved : Status → ℤ → View → View
moved s k v m = if k ==ℤ m then with_status s (v m) else v m

abbrev pub disconnected : ℤ → View → View
disconnected client_id v m = back_from client_id (v m)

abbrev pub is_undelivered : Option (Bytes × Status) → Bool
is_undelivered (some (message, undelivered)) = true
is_undelivered e = false

-- What survives a crash: the text, and whether the message is committed.
abbrev pub is_committed : Status → Bool
is_committed committed = true
is_committed s = false

abbrev pub persisted : Option (Bytes × Status) → Option (Bytes × Bool)
persisted none = none
persisted (some (message, s)) = some (message, is_committed s)
