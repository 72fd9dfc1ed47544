-- ===== src/Network/Session.antt =====
-- src/network/agent_session.h and .cc: the session of one agent. The completion handlers of
-- the asynchronous reads and writes are functions of the result that boost hands them: an
-- error code (here `true` for an error) and the bytes that were read.
pub mod Writing
pub mod Reading
use flexran_rtc.Base.{
  ℕ, suc, ◌≡◌, Bool, true, false, List, [], ◌∷◌, ◌++◌, not, ◌&&◌, if◌then◌else◌, get_or,
}
use flexran_rtc.Network.Header.{ProtocolMessage, header_length, wire, set_message, decode_header}
use flexran_rtc.Network.Tagged.{TaggedMessage, from_bytes}

-- protocol_message(): the body length is 0, the bytes are not set; zeros stand for them.
abbrev pub fresh : ProtocolMessage
fresh = record { data0 = 0; data1 = 0; data2 = 0; data3 = 0; body = []; body_length = 0 }

-- The read that is outstanding, or that the socket was closed.
pub data Reader : Type 0 where
  reading_header reading_body closed : Reader

pub record Session : Type 0 where
  pub session_id : ℕ
  pub write_queue : List ProtocolMessage
  pub read_msg : ProtocolMessage
  pub reader : Reader
  -- The frames given to async_write whose handler has not run, and those whose write ended.
  pub in_flight : List (List ℕ)
  pub sent : List (List ℕ)

-- The constructor and `start()`: the first read is of a header.
unfoldable pub start : ℕ → Session
start session_id = record {
  session_id = session_id;
  write_queue = [];
  read_msg = fresh;
  reader = reading_header;
  in_flight = [];
  sent = [];
}

-- async_write of the front of the queue. The front of an empty queue is undefined behaviour
-- in the source; nothing is written for it here.
pub do_write : Session → Session
do_write s = elim s.write_queue [
  | [] ↦ s
  | m ∷ rest ↦ record s { in_flight = s.in_flight ++ wire m ∷ [] }
]

abbrev pub is_empty {ℓ} : {A : Type ℓ} → List A → Bool
is_empty [] = true
is_empty (x ∷ xs) = false

pub deliver : Session → TaggedMessage → Session
unfolding do_write
deliver s msg =
    let write_in_progress = not (is_empty s.write_queue) in
    let data' = set_message fresh msg.msg_contents msg.size in
    let queued = record s { write_queue = s.write_queue ++ data' ∷ [] } in
    if not write_in_progress then do_write queued else queued

-- The outstanding writes without the oldest.
abbrev pub landed : List (List ℕ) → List (List ℕ)
landed [] = []
landed (x ∷ xs) = xs

-- The handler of async_write, with whether the manager is asked to close the connection.
pub write_done : Session → Bool → Session × Bool
unfolding do_write
write_done s true = (s, true)
write_done s false = elim s.write_queue [
  | [] ↦ (s, false)
  | m ∷ rest ↦
      let popped = record s {
        write_queue = rest;
        in_flight = landed s.in_flight;
        sent = s.sent ++ wire m ∷ [];
      } in
      (if not (is_empty rest) then do_write popped else popped, false)
]

-- The bytes of a header, put into `data_`.
abbrev with_header : ProtocolMessage → List ℕ → ProtocolMessage
with_header m bytes = record m {
  data0 = get_or bytes 0 0;
  data1 = get_or bytes 1 0;
  data2 = get_or bytes 2 0;
  data3 = get_or bytes 3 0;
}

-- The handler of the read of a header.
pub header_read : Session → Bool → List ℕ → Session
header_read s ec bytes =
    let filled = with_header s.read_msg bytes in
    let (decoded, good) = decode_header filled in
    if ec
    then record s { read_msg = filled; reader = closed }
    else if good
    then record s { read_msg = decoded; reader = reading_body }
    else record s { read_msg = decoded; reader = closed }

-- The handler of the read of a body, with the message that is forwarded to the interface.
pub body_read : Session → Bool → List ℕ → Session × List TaggedMessage
body_read s true bytes = (record s { reader = closed }, [])
body_read s false bytes =
    let filled = record (s.read_msg) { body = bytes } in
    let th = (from_bytes 0 filled.body filled.body_length s.session_id).0 in
    (record s { read_msg = filled; reader = reading_header }, th ∷ [])
