-- ===== src/Network/Header/Laws.antt =====
-- What encode_header and decode_header of src/network/protocol_message.cc do to a length.
use Prim.Native.Nat.{bit_or}
use flexran_rtc.Base.{
  ℕ, ◌+◌, ◌*◌, ◌/◌, ◌%◌, ◌^◌, ◌≤◌, ◌<◌, ◌≡◌, ap, ◌∙◌, true, false, List, arith, ltb, if◌then◌else◌,
  take, take-length, length, ◌∷◌, min,
}
use flexran_rtc.Base.Bits.{bit_and_255, bit_or-high_low}
use flexran_rtc.Network.Header.{
  ProtocolMessage, max_body_length, set_body_length, wire, encode_header, set_message,
  decode_header,
}

pub record HeaderBytes (m : ProtocolMessage) : Type 0 where
  pub byte0 : m.data0 < 256
  pub byte1 : m.data1 < 256
  pub byte2 : m.data2 < 256
  pub byte3 : m.data3 < 256

-- The four bytes read as a big-endian number.
abbrev pub big_endian : ProtocolMessage → ℕ
big_endian m = m.data0 * 2 ^ 24 + m.data1 * 2 ^ 16 + m.data2 * 2 ^ 8 + m.data3

joined :
    (a b c d : ℕ)
    → a < 256
    → b < 256
    → c < 256
    → d < 256
    → bit_or (bit_or (bit_or (a * 2 ^ 24 % 2 ^ 32) (b * 2 ^ 16)) (c * 2 ^ 8)) d
      ≡ a * 2 ^ 24 + b * 2 ^ 16 + c * 2 ^ 8 + d
joined a b c d ha hb hc hd = rw (two, three) four
  where
    two : bit_or (a * 2 ^ 24 % 2 ^ 32) (b * 2 ^ 16) ≡ (a * 256 + b) * 2 ^ 16
    two =
        ap (λ x. bit_or x (b * 2 ^ 16)) (omega arith)
        ∙ bit_or-high_low 24 a (b * 2 ^ 16) (omega arith)
        ∙ omega arith

    three : bit_or ((a * 256 + b) * 2 ^ 16) (c * 2 ^ 8) ≡ ((a * 256 + b) * 256 + c) * 2 ^ 8
    three = bit_or-high_low 16 (a * 256 + b) (c * 2 ^ 8) (omega arith) ∙ omega arith

    four : bit_or (((a * 256 + b) * 256 + c) * 2 ^ 8) d ≡ a * 2 ^ 24 + b * 2 ^ 16 + c * 2 ^ 8 + d
    four = bit_or-high_low 8 ((a * 256 + b) * 256 + c) d (omega arith) ∙ omega arith

-- A header of bytes below 256 decodes to the big-endian number in them, and is accepted exactly when that
-- is at most the longest body; a refused header leaves the length zero. The bytes stay.
pub decode_header_lem :
    (m : ProtocolMessage)
    → HeaderBytes m
    → decode_header m ≡ (
        if ltb max_body_length (big_endian m)
        then (record m { body_length = 0 }, false)
        else (record m { body_length = big_endian m }, true))
unfolding decode_header
decode_header_lem m h = rw (joined m.data0 m.data1 m.data2 m.data3 h.byte0 h.byte1 h.byte2 h.byte3)

pub encode_header-HeaderBytes : (m : ProtocolMessage) → HeaderBytes (encode_header m)
unfolding encode_header
encode_header-HeaderBytes m = record {
  byte0 = omega (arith, bit_and_255 (m.body_length / 2 ^ 24));
  byte1 = omega (arith, bit_and_255 (m.body_length / 2 ^ 16));
  byte2 = omega (arith, bit_and_255 (m.body_length / 2 ^ 8));
  byte3 = omega (arith, bit_and_255 m.body_length);
}

big_endian-encode_header :
    (m : ProtocolMessage) → m.body_length < 2 ^ 32 → big_endian (encode_header m) ≡ m.body_length
unfolding encode_header
big_endian-encode_header m h = omega (
  arith,
  bit_and_255 (m.body_length / 2 ^ 24),
  bit_and_255 (m.body_length / 2 ^ 16),
  bit_and_255 (m.body_length / 2 ^ 8),
  bit_and_255 m.body_length,
)

-- Decoding undoes encoding: a length up to the longest body is accepted and kept.
pub decode_header-encode_header :
    (m : ProtocolMessage)
    → m.body_length ≤ max_body_length
    → decode_header (encode_header m) ≡ (encode_header m, true)
decode_header-encode_header m h =
    rw
      (
        decode_header_lem (encode_header m) (encode_header-HeaderBytes m),
        big_endian-encode_header m (omega arith),
      )
      (unfold encode_header in ground arith)

set_body_length_lem :
    (m : ProtocolMessage) (size : ℕ)
    → size < 2 ^ 32
    → (set_body_length m size).body_length ≡ min size max_body_length
unfolding set_body_length
set_body_length_lem m size h = let e : size % 2 ^ 32 ≡ size = omega arith in rw e (ground arith)

module _ (m : ProtocolMessage) (buf : List ℕ) (size : ℕ) where
  pub set_message-HeaderBytes : HeaderBytes (set_message m buf size)
  unfolding set_message
  set_message-HeaderBytes =
      let h = encode_header-HeaderBytes (set_body_length m size) in
      record { byte0 = h.byte0; byte1 = h.byte1; byte2 = h.byte2; byte3 = h.byte3 }

  pub set_message-body_length :
      size < 2 ^ 32 → (set_message m buf size).body_length ≡ min size max_body_length
  unfolding set_message
  set_message-body_length h = set_body_length_lem m size h

  big_endian-set_message :
      size < 2 ^ 32 → big_endian (set_message m buf size) ≡ min size max_body_length
  unfolding set_message
  big_endian-set_message h =
      big_endian-encode_header (set_body_length m size)
        (omega (arith, set_body_length_lem m size h))
      ∙ set_body_length_lem m size h

  -- For a size below 2 ^ 32, what is sent is the length of the body in four bytes and then the body, a body longer
  -- than the longest cut to it; and the receiver's decoding accepts every header sent.
  pub set_message_lem :
      size < 2 ^ 32
      → (decode_header (set_message m buf size) ≡ (set_message m buf size, true))
        × (big_endian (set_message m buf size) ≡ min size max_body_length)
        × ((set_message m buf size).body_length ≡ min size max_body_length)
        × ((set_message m buf size).body ≡ take (min size max_body_length) buf)
  set_message_lem h = (
    decoded,
    big_endian-set_message h,
    set_message-body_length h,
    unfold set_message in ap (λ n. take n buf) (set_body_length_lem m size h),
  )
    where
      decoded : decode_header (set_message m buf size) ≡ (set_message m buf size, true)
      decoded =
          decode_header_lem _ set_message-HeaderBytes
          ∙ ground (arith, big_endian-set_message h, set_message-body_length h)

-- The bytes on the wire for a body that fits are the four header bytes and the body.
pub wire-set_message :
    (m : ProtocolMessage) (b : List ℕ)
    → length b ≤ max_body_length
    → let sent = set_message m b (length b) in
      wire sent ≡ sent.data0 ∷ sent.data1 ∷ sent.data2 ∷ sent.data3 ∷ b
unfolding wire
wire-set_message m b h = ap (λ t. sent.data0 ∷ sent.data1 ∷ sent.data2 ∷ sent.data3 ∷ t) whole
  where
    sent : ProtocolMessage
    sent = set_message m b (length b)

    fits : min (length b) max_body_length ≡ length b
    fits = omega arith

    whole : take sent.body_length sent.body ≡ b
    whole =
        let (_, _, n, t) = set_message_lem m b (length b) (omega arith) in
        rw (n, t, fits, take-length b) (take-length b)
