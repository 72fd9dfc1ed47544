-- ===== src/Network/Session/Reading.antt =====
-- The reader of src/network/agent_session.cc over the bytes that arrive on the socket.
-- async_read of boost completes with exactly the bytes asked for, or waits for more.
use flexran_rtc.Base.{
  ℕ, zero, suc, ◌+◌, ◌*◌, ◌≤◌, ◌≡◌, refl, ap, ◌∙◌, false, List, [], ◌∷◌, ◌++◌, map, arith, ltb,
  if◌then◌else◌, take, drop, length, All, take-append, drop-append, length-append,
}
use flexran_rtc.Network.Header.{ProtocolMessage, header_length, max_body_length, wire, set_message}
use flexran_rtc.Network.Header.Laws.{
  HeaderBytes, big_endian, set_message_lem, decode_header_lem, set_message-HeaderBytes,
  wire-set_message,
}
use flexran_rtc.Network.Tagged.{TaggedMessage, from_bytes}
use flexran_rtc.Network.Session.{
  Session, reading_header, reading_body, closed, fresh, header_read, body_read,
}

-- At most `fuel` completions: the session, the messages forwarded and the bytes that wait.
pub read_all : ℕ → Session → List ℕ → Session × List TaggedMessage × List ℕ
read_all zero s input = (s, [], input)
read_all (suc fuel) s input = elim s.reader [
  | reading_header ↦
      if ltb (length input) header_length
      then (s, [], input)
      else read_all fuel (header_read s false (take header_length input)) (drop header_length input)
  | reading_body ↦
      let n = s.read_msg.body_length in
      let (s', out) = body_read s false (take n input) in
      let (last, more, left) = read_all fuel s' (drop n input) in
      if ltb (length input) n then (s, [], input) else (last, out ++ more, left)
  | closed ↦ (s, [], input)
]

-- The frame that a session sends for a body.
abbrev pub frame_of : List ℕ → List ℕ
frame_of b = wire (set_message fresh b (length b))

abbrev pub stream : List (List ℕ) → List ℕ
stream [] = []
stream (b ∷ bs) = frame_of b ++ stream bs

abbrev pub message_of : ℕ → List ℕ → TaggedMessage
message_of session_id b = (from_bytes 0 b (length b) session_id).0

-- The session after the header of `m`, and then after a body.
abbrev after_header : Session → ProtocolMessage → ℕ → Session
after_header s m n = record s {
  read_msg = record (s.read_msg) {
    data0 = m.data0;
    data1 = m.data1;
    data2 = m.data2;
    data3 = m.data3;
    body_length = n;
  };
  reader = reading_body;
}

abbrev after_body : Session → List ℕ → Session
after_body s b = record s { read_msg = record (s.read_msg) { body = b }; reader = reading_header }

header_read_lem :
    (s : Session) (m : ProtocolMessage)
    → HeaderBytes m
    → big_endian m ≤ max_body_length
    → header_read s false (m.data0 ∷ m.data1 ∷ m.data2 ∷ m.data3 ∷ [])
      ≡ after_header s m (big_endian m)
unfolding header_read
header_read_lem s m h fits = ground (
  arith,
  decode_header_lem (after_header s m s.read_msg.body_length).read_msg
      (record { byte0 = h.byte0; byte1 = h.byte1; byte2 = h.byte2; byte3 = h.byte3 }),
)

read_header_at :
    (fuel : ℕ) (s : Session) (d0 d1 d2 d3 : ℕ) (t : List ℕ)
    → s.reader ≡ reading_header
    → read_all (suc fuel) s (d0 ∷ d1 ∷ d2 ∷ d3 ∷ t)
      ≡ read_all fuel (header_read s false (d0 ∷ d1 ∷ d2 ∷ d3 ∷ [])) t
unfolding read_all
read_header_at fuel s d0 d1 d2 d3 t r = ground arith

read_body_at :
    (fuel : ℕ) (s : Session) (b rest : List ℕ)
    → s.reader ≡ reading_body
    → s.read_msg.body_length ≡ length b
    → read_all (suc fuel) s (b ++ rest) ≡ (
      (read_all fuel (after_body s b) rest).0,
      message_of s.session_id b ∷ (read_all fuel (after_body s b) rest).1,
      (read_all fuel (after_body s b) rest).2,
    )
unfolding read_all body_read
read_body_at fuel s b rest r e =
    ground (arith, take-append b rest, drop-append b rest, length-append b rest)

-- Two completions read one frame, and forward its body under the number of the session.
read_frame :
    (fuel : ℕ) (s : Session) (b rest : List ℕ)
    → s.reader ≡ reading_header
    → length b ≤ max_body_length
    → (s' : Session) × (s'.reader ≡ reading_header)
      × (s'.session_id ≡ s.session_id)
      × (read_all (suc (suc fuel)) s (frame_of b ++ rest) ≡ (
        (read_all fuel s' rest).0,
        message_of s.session_id b ∷ (read_all fuel s' rest).1,
        (read_all fuel s' rest).2,
      ))
read_frame fuel s b rest r h =
    let m = set_message fresh b (length b) in
    let lem = set_message_lem fresh b (length b) (omega arith) in
    let s1 = after_header s m (big_endian m) in
    (
      after_body s1 b,
      refl,
      refl,
      rw (wire-set_message fresh b h) (
          read_header_at (suc fuel) s m.data0 m.data1 m.data2 m.data3 (b ++ rest) r
          ∙ ap (λ t. read_all (suc fuel) t (b ++ rest))
              (header_read_lem s m (set_message-HeaderBytes fresh b (length b))
                (omega (arith, lem.1)))
          ∙ read_body_at fuel s1 b rest refl (omega (arith, lem.1))),
    )

read_nothing :
    (fuel : ℕ) (s : Session)
    → s.reader ≡ reading_header
    → ((read_all fuel s []).1 ≡ [])
      × ((read_all fuel s []).2 ≡ [])
      × ((read_all fuel s []).0.reader ≡ reading_header)
unfolding read_all
read_nothing zero s r = (refl, refl, r)
read_nothing (suc fuel) s r = ground arith

-- Whatever bodies one side sends, each no longer than the longest body, the other side
-- forwards them whole and in order, under the number of its session, and waits for the
-- next header with no byte left over. Two completions for each frame are enough.
pub read_all-stream :
    (extra : ℕ) (s : Session) (bodies : List (List ℕ))
    → s.reader ≡ reading_header
    → All (λ b. length b ≤ max_body_length) bodies
    → let (s', forwarded, left) = read_all (2 * length bodies + extra) s (stream bodies) in
      (forwarded ≡ map (message_of s.session_id) bodies)
      × (left ≡ [])
      × (s'.reader ≡ reading_header)
read_all-stream extra s [] r h = rw (two_mul_zero extra) (read_nothing extra s r)
  where
    two_mul_zero : (x : ℕ) → 2 * 0 + x ≡ x
    two_mul_zero x = omega arith
read_all-stream extra s (b ∷ bs) r h =
    let (s', r', same, step) = read_frame (2 * length bs + extra) s b (stream bs) r h.0 in
    let (e, left, last) = read_all-stream extra s' bs r' h.1 in
    let rounds : 2 * suc (length bs) + extra ≡ suc (suc (2 * length bs + extra)) = omega arith in
    rw (rounds, step) (rw same at (ap (◌∷◌ (message_of s.session_id b)) e), left, last)
