-- ===== src/Network/Session/Writing.antt =====
-- The write queue of src/network/agent_session.cc: one write at a time, in order.
use flexran_rtc.Base.{ℕ, ◌≡◌, refl, Bool, true, false, List, [], ◌∷◌, ◌++◌, map, arith, take}
use mathlib.Core.List.{append_assoc, append-nil, map-append}
use flexran_rtc.Network.Header.{ProtocolMessage, wire, set_message}
use flexran_rtc.Network.Tagged.{TaggedMessage}
use flexran_rtc.Network.Session.{Session, fresh, deliver, write_done}

-- A write is outstanding exactly when the queue is not empty; it is that of the front.
abbrev pub OneWrite : Session → Type 0
OneWrite s = s.in_flight ≡ map wire (take 1 s.write_queue)

-- The frames sent, and after them those that wait, in the order of the queue.
abbrev pub pipeline : Session → List (List ℕ)
pipeline s = s.sent ++ map wire s.write_queue

deliver_at :
    (s : Session) (msg : TaggedMessage) (q : List ProtocolMessage)
    → s.write_queue ≡ q
    → OneWrite s
    → OneWrite (deliver s msg)
      × (pipeline (deliver s msg)
          ≡ pipeline s ++ wire (set_message fresh msg.msg_contents msg.size) ∷ [])
unfolding deliver
deliver_at s msg [] e h = ground (arith, append-nil s.sent)
deliver_at s msg (m ∷ q) e h = ground (
  arith,
  map-append wire (m ∷ q) (set_message fresh msg.msg_contents msg.size ∷ []),
  append_assoc s.sent (map wire (m ∷ q)) (wire (set_message fresh msg.msg_contents msg.size) ∷ []),
)

write_done_at :
    (s : Session) (q : List ProtocolMessage)
    → s.write_queue ≡ q
    → OneWrite s
    → OneWrite (write_done s false).0
      × (pipeline (write_done s false).0 ≡ pipeline s)
      × ((write_done s false).1 ≡ false)
unfolding write_done
write_done_at s [] e h = ground arith
write_done_at s (m ∷ []) e h = ground (arith, append-nil (s.sent ++ wire m ∷ []))
write_done_at s (m ∷ n ∷ q) e h =
    ground (arith, append_assoc s.sent (wire m ∷ []) (map wire (n ∷ q)))

-- While at most one write is outstanding, delivering a message puts its frame at the end of the pipeline, and keeps at most one
-- write outstanding.
pub deliver_lem :
    (s : Session) (msg : TaggedMessage)
    → OneWrite s
    → OneWrite (deliver s msg)
      × (pipeline (deliver s msg)
          ≡ pipeline s ++ wire (set_message fresh msg.msg_contents msg.size) ∷ [])
deliver_lem s msg h = deliver_at s msg s.write_queue refl h

-- While at most one write is outstanding, the end of a write neither loses, repeats nor reorders a frame, starts the next write when
-- one waits, and closes the connection exactly on an error.
pub write_done_lem :
    (s : Session) (ec : Bool)
    → OneWrite s
    → OneWrite (write_done s ec).0
      × (pipeline (write_done s ec).0 ≡ pipeline s)
      × ((write_done s ec).1 ≡ ec)
unfolding write_done
write_done_lem s true h = (h, refl, refl)
write_done_lem s false h = write_done_at s s.write_queue refl h
