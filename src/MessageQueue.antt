-- ===== src/MessageQueue.antt =====
-- src/flowmq/message_queue.hpp and message_queue.cpp: the in-memory queue of one partition.
-- Each method returns the code that the source returns, and the new state.
pub mod Spec
pub mod Invariant
pub mod Refinement
pub mod History
mod Runs
use flowmq.Base.{
  ℤ, pos, Bytes, List, [], ◌∷◌, ◌++◌, Option, none, some, Bool, true, false, if◌then◌else◌,
}
use flowmq.Containers.{containers}
use flowmq.Containers.OrdSet
use flowmq.Containers.OrdSet.{OrdSet}
use flowmq.Containers.OrdMap
use flowmq.Containers.OrdMap.{OrdMap}

pub record MessageQueue : Type 0 where
  pub message_store : OrdMap Bytes
  pub undelivered_messages : OrdSet
  pub committed_messages : OrdSet
  pub consumer_id_delivered_messages : OrdMap OrdSet
  pub message_id_to_consumer : OrdMap ℤ

abbrev pub empty : MessageQueue
empty = record {
  message_store = [];
  undelivered_messages = [];
  committed_messages = [];
  consumer_id_delivered_messages = [];
  message_id_to_consumer = [];
}

unfoldable pub insert_message : ℤ → Bytes → MessageQueue → ℤ × MessageQueue
insert_message message_id message q =
    if OrdMap.has q.message_store message_id then (pos 1, q) else (
      pos 0,
      record q {
        message_store = OrdMap.assign message_id message q.message_store;
        undelivered_messages = OrdSet.insert message_id q.undelivered_messages;
      },
    )

-- The message leaves the set of the consumer that it was delivered to.
unfoldable pub release_from_consumer : ℤ → MessageQueue → MessageQueue
release_from_consumer message_id q = elim (OrdMap.lookup q.message_id_to_consumer message_id) [
  | none ↦ q
  | some consumer_id ↦ record q {
    consumer_id_delivered_messages =
        OrdMap.assign consumer_id
          (OrdSet.erase message_id (OrdMap.find_or q.consumer_id_delivered_messages consumer_id []))
          q.consumer_id_delivered_messages;
    message_id_to_consumer = OrdMap.remove message_id q.message_id_to_consumer;
  }
]

unfoldable pub commit_message : ℤ → MessageQueue → ℤ × MessageQueue
commit_message message_id q =
    if OrdMap.has q.message_store message_id
    then (let r = release_from_consumer message_id q in
        (
          pos 0,
          record r {
            committed_messages = OrdSet.insert message_id r.committed_messages;
            undelivered_messages = OrdSet.erase message_id r.undelivered_messages;
          },
        ))
    else (pos 1, q)

-- `message_store_[message_id]` makes an empty entry for a missing key.
unfoldable pub get_message : ℤ → MessageQueue → Bytes × MessageQueue
get_message message_id q = elim (OrdMap.lookup q.message_store message_id) [
  | none ↦ ([], record q { message_store = OrdMap.assign message_id [] q.message_store })
  | some message ↦ (message, q)
]

unfoldable pub get_all_undelivered_messages : List ℤ → MessageQueue → List ℤ
get_all_undelivered_messages message_ids q = message_ids ++ q.undelivered_messages

unfoldable pub deliver_message_to_client_id : ℤ → ℤ → MessageQueue → ℤ × MessageQueue
deliver_message_to_client_id message_id client_id q = (
  pos 0,
  record q {
    undelivered_messages = OrdSet.erase message_id q.undelivered_messages;
    consumer_id_delivered_messages =
        OrdMap.assign client_id
          (OrdSet.insert message_id (OrdMap.find_or q.consumer_id_delivered_messages client_id []))
          q.consumer_id_delivered_messages;
    message_id_to_consumer = OrdMap.assign message_id client_id q.message_id_to_consumer;
  },
)

-- The loop of `handle_client_disconnected` over the messages of the client.
unfoldable pub put_back : OrdSet → MessageQueue → MessageQueue
put_back [] q = q
put_back (msg_id ∷ rest) q = put_back rest (record q {
  undelivered_messages = OrdSet.insert msg_id q.undelivered_messages;
  message_id_to_consumer = OrdMap.remove msg_id q.message_id_to_consumer;
})

unfoldable pub handle_client_disconnected : ℤ → MessageQueue → ℤ × MessageQueue
handle_client_disconnected client_id q =
    elim (OrdMap.lookup q.consumer_id_delivered_messages client_id) [
      | none ↦ (pos 1, q)
      | some msg_ids ↦
          let r = put_back msg_ids q in
          (
            pos 0,
            record r {
              consumer_id_delivered_messages =
                  OrdMap.remove client_id r.consumer_id_delivered_messages;
            },
          )
    ]

-- A run names this to compute with the methods.
unfoldable pub methods : Unit {0}
unfolding insert_message release_from_consumer commit_message get_message
    get_all_undelivered_messages deliver_message_to_client_id put_back handle_client_disconnected
    containers
methods = tt
