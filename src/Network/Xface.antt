-- ===== src/Network/Xface.antt =====
-- src/network/async_xface.h and .cc, and connection_manager.h and .cc: the interface between
-- the network task and the others, with its two queues and the sessions by their number.
pub mod Laws
use flexran_rtc.Base.{
  ℕ, suc, ◌+◌, ◌-◌, ◌<◌, ◌≡◌, Bool, true, false, Option, none, some, List, [], ◌∷◌, ◌++◌,
  if◌then◌else◌, length,
}
use flexran_rtc.Base.Maps
use flexran_rtc.Messages.{FlexranMessage}
use flexran_rtc.Network.Tagged.{TaggedMessage, from_bytes, sized}
use flexran_rtc.Network.Session.{Session, start, deliver, write_done}

-- What is relied on of boost::lockfree::queue with a fixed size: it is first in, first out; a
-- push says whether there was room, and there is room below the size that it was made with.
pub record Lockfree (Q : Type 0) : Type 0 where
  pub capacity : ℕ
  pub push : TaggedMessage → Q → Q × Bool
  pub pop : Q → Q × Option TaggedMessage
  pub contents : Q → List TaggedMessage
  pub push_contents :
      (m : TaggedMessage) (q : Q)
      → contents (push m q).0 ≡ (if (push m q).1 then contents q ++ m ∷ [] else contents q)
  pub push_room : (m : TaggedMessage) (q : Q) → length (contents q) < capacity → (push m q).1 ≡ true
  pub pop_nil : (q : Q) → contents q ≡ [] → ((pop q).1 ≡ none) × (contents (pop q).0 ≡ [])
  pub pop_cons :
      (q : Q) (m : TaggedMessage) (rest : List TaggedMessage)
      → contents q ≡ m ∷ rest
      → ((pop q).1 ≡ some m) × (contents (pop q).0 ≡ rest)

-- The classes that protobuf generates. Nothing is relied on of how they encode a message.
pub record Codec : Type 0 where
  pub serialize : FlexranMessage → List ℕ
  pub parse : List ℕ → FlexranMessage

-- The number of queue nodes that the class asks for.
abbrev pub queue_size : ℕ
queue_size = 10000

-- `posted` counts the forward_msg_to_agent handlers that io_service has not run.
pub record Xface (Q : Type 0) : Type 0 where
  pub in_queue : Q
  pub out_queue : Q
  pub posted : ℕ

-- The sessions of the connection manager and the number of the next one.
pub record Manager : Type 0 where
  pub sessions : List (ℕ × Session)
  pub next_id : ℕ

module _ {Q : Type 0} (queue : Lockfree Q) where
  -- A message that finds no room is dropped.
  unfoldable pub forward_message : Xface Q → TaggedMessage → Xface Q
  forward_message x msg = record x { in_queue = (queue.push msg x.in_queue).0 }

  unfoldable pub get_msg_from_network : Xface Q → Xface Q × Option TaggedMessage
  get_msg_from_network x =
      let (q, taken) = queue.pop x.in_queue in (record x { in_queue = q }, taken)

  unfoldable pub initialize_connection : Xface Q → ℕ → Xface Q
  initialize_connection x session_id = record x {
    in_queue = (queue.push (sized 0 0 session_id).0 x.in_queue).0;
  }

  unfoldable pub send_msg : Codec → Xface Q → FlexranMessage → ℕ → Xface Q × Bool
  send_msg codec x msg agent_tag =
      let bytes = codec.serialize msg in
      let tm = (from_bytes 0 bytes (length bytes) agent_tag).0 in
      let (q, room) = queue.push tm x.out_queue in
      if room
      then (record x { out_queue = q; posted = x.posted + 1 }, true)
      else (record x { out_queue = q }, false)

  -- `none` is a fault of the program: an access through a null pointer.
  unfoldable pub send_msg_to_agent : Manager → TaggedMessage → Option Manager
  send_msg_to_agent m msg = elim (Maps.find msg.tag m.sessions) [
    | none ↦ none
    | some s ↦ some (record m { sessions = Maps.modify msg.tag (λ t. deliver t msg) m.sessions })
  ]

  -- One posted handler. With an empty queue the source goes on with a pointer that was not
  -- set, a fault too.
  unfoldable pub forward_msg_to_agent : Xface Q → Manager → Option (Xface Q × Manager)
  unfolding send_msg_to_agent
  forward_msg_to_agent x m =
      let (q, taken) = queue.pop x.out_queue in
      let x' = record x { out_queue = q; posted = x.posted - 1 } in
      elim taken [
        | none ↦ none
        | some msg ↦ elim (send_msg_to_agent m msg) [ none ↦ none | some m' ↦ some (x', m') ]
      ]

  -- The handler of do_accept when a connection came in.
  unfoldable pub accept : Xface Q → Manager → Xface Q × Manager
  unfolding initialize_connection
  accept x m = (
    initialize_connection x m.next_id,
    record m {
      sessions = (m.next_id, start m.next_id) ∷ Maps.erase m.next_id m.sessions;
      next_id = suc m.next_id;
    },
  )

unfoldable pub close_connection : Manager → ℕ → Manager
close_connection m session_id = record m { sessions = Maps.erase session_id m.sessions }
