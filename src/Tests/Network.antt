-- ===== src/Tests/Network.antt =====
-- The laws of src/network at concrete inputs: frames of a few bytes.
use flexran_rtc.Base.{
  ℕ, ◌+◌, ◌*◌, ◌<◌, ◌≡◌, ◌↔◌, refl, true, false, none, List, [], ◌∷◌, map, arith, length, take, min,
}
use flexran_rtc.Base.Maps.{find}
use flexran_rtc.Messages.{FlexranMessage, not_set}
use flexran_rtc.Network.Header.{ProtocolMessage, max_body_length, set_message, decode_header}
use flexran_rtc.Network.Header.Laws.{big_endian, set_message_lem, decode_header_lem}
use flexran_rtc.Network.Tagged.{TaggedMessage, copy, move, move_assign}
use flexran_rtc.Network.Tagged.Ownership.{IsOwner, copy_lem, move_assign_lem}
use flexran_rtc.Network.Session.{fresh, start, deliver, write_done, reading_header}
use flexran_rtc.Network.Session.Writing.{OneWrite, pipeline, deliver_lem, write_done_lem}
use flexran_rtc.Network.Session.Reading.{read_all, stream, message_of, read_all-stream}
use flexran_rtc.Tests.Queue.{push, list_queue, byte_codec}
use flexran_rtc.Network.Xface.{Xface, Manager, send_msg, forward_msg_to_agent}
use flexran_rtc.Network.Xface.Laws.{sends, here, next, forward_msg_to_agent_faults}

abbrev bodies : List (List ℕ)
bodies = (10 ∷ 20 ∷ []) ∷ (30 ∷ []) ∷ []

two_frames :
    let (s', forwarded, left) = read_all (2 * length bodies + 1) (start 7) (stream bodies) in
    (forwarded ≡ map (message_of 7) bodies) × (left ≡ []) × (s'.reader ≡ reading_header)
unfolding start
two_frames = read_all-stream 1 (start 7) bodies refl (omega arith, (omega arith, tt))

abbrev hello_frame : TaggedMessage
hello_frame = record { tag = 7; size = 2; msg_contents = 10 ∷ 20 ∷ []; dynamic_alloc = false }

written :
    let s = deliver (start 7) hello_frame in
    OneWrite (write_done s false).0
    × (pipeline (write_done s false).0 ≡ pipeline s)
    × ((write_done s false).1 ≡ false)
unfolding start
written =
    write_done_lem (deliver (start 7) hello_frame) false (deliver_lem (start 7) hello_frame refl).0

message_set :
    (decode_header (set_message fresh (10 ∷ 20 ∷ []) 2)
      ≡ (set_message fresh (10 ∷ 20 ∷ []) 2, true))
    × (big_endian (set_message fresh (10 ∷ 20 ∷ []) 2) ≡ min 2 max_body_length)
    × ((set_message fresh (10 ∷ 20 ∷ []) 2).body_length ≡ min 2 max_body_length)
    × ((set_message fresh (10 ∷ 20 ∷ []) 2).body ≡ take (min 2 max_body_length) (10 ∷ 20 ∷ []))
message_set = set_message_lem fresh (10 ∷ 20 ∷ []) 2 (omega arith)

abbrev long_header : ProtocolMessage
long_header = record fresh { data1 = 4 }

header_refused : decode_header long_header ≡ (record long_header { body_length = 0 }, false)
header_refused =
    decode_header_lem long_header (record {
      byte0 = omega arith;
      byte1 = omega arith;
      byte2 = omega arith;
      byte3 = omega arith;
    })

abbrev owner : IsOwner hello_frame
owner = record { flagged = refl; filled = refl }

copied : (copy 3 hello_frame ≡ (hello_frame, 3 + 0)) × (move 3 hello_frame ≡ (hello_frame, 3 + 0))
copied = copy_lem 3 hello_frame (omega arith) owner

abbrev large : TaggedMessage
large = record { tag = 8; size = 3000; msg_contents = []; dynamic_alloc = true }

buffer_assigned : move_assign (5 + 1 + 0) large hello_frame ≡ (hello_frame, 5 + 0 + 0)
buffer_assigned = move_assign_lem 5 large hello_frame (omega arith) owner

abbrev empty_xface : Xface (List TaggedMessage)
empty_xface = record { in_queue = []; out_queue = []; posted = 0 }

abbrev no_sessions : Manager
no_sessions = record { sessions = []; next_id = 0 }

abbrev request : FlexranMessage
request = record { msg_dir = not_set; msg = none }

abbrev sent : Xface (List TaggedMessage)
sent = (send_msg list_queue byte_codec empty_xface request 7).0

posted_sent : 0 < sent.posted
unfolding send_msg list_queue byte_codec push
posted_sent = omega arith

missing_session :
    (msg : TaggedMessage) × (rest : List TaggedMessage) × (list_queue.contents sent.out_queue
      ≡ msg ∷ rest)
    × ((forward_msg_to_agent list_queue sent no_sessions ≡ none)
        ↔ (find msg.tag no_sessions.sessions ≡ none))
unfolding list_queue
missing_session =
    forward_msg_to_agent_faults list_queue byte_codec {s = (empty_xface, no_sessions)}
      {t = (sent, no_sessions)} (refl, refl, refl)
      (next here (sends empty_xface no_sessions request 7)) posted_sent
