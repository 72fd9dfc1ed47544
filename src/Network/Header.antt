-- ===== src/Network/Header.antt =====
-- src/network/protocol_message.h and .cc: a frame of four header bytes and a body.
pub mod Laws
use Prim.Native.Nat.{bit_and, bit_or}
use flexran_rtc.Base.{
  ℕ, ◌+◌, ◌*◌, ◌/◌, ◌%◌, ◌^◌, Bool, true, false, List, ◌∷◌, ltb, if◌then◌else◌, take,
}

abbrev pub header_length : ℕ
header_length = 4

abbrev pub max_body_length : ℕ
max_body_length = 240000

-- `data_` is cut into its four header bytes and the bytes of the body.
pub record ProtocolMessage : Type 0 where
  pub data0 : ℕ
  pub data1 : ℕ
  pub data2 : ℕ
  pub data3 : ℕ
  pub body : List ℕ
  pub body_length : ℕ

-- `length()`, the bytes that go out.
abbrev pub frame_length : ProtocolMessage → ℕ
frame_length m = header_length + m.body_length

-- The first `length()` bytes of `data_`.
pub wire : ProtocolMessage → List ℕ
wire m = m.data0 ∷ m.data1 ∷ m.data2 ∷ m.data3 ∷ take m.body_length m.body

-- The setter `body_length(new_length)`.
pub set_body_length : ProtocolMessage → ℕ → ProtocolMessage
set_body_length m new_length =
    let stored = new_length % 2 ^ 32 in
    record m { body_length = if ltb max_body_length stored then max_body_length else stored }

pub encode_header : ProtocolMessage → ProtocolMessage
encode_header m = record m {
  data0 = bit_and (m.body_length / 2 ^ 24) 255;
  data1 = bit_and (m.body_length / 2 ^ 16) 255;
  data2 = bit_and (m.body_length / 2 ^ 8) 255;
  data3 = bit_and m.body_length 255;
}

pub set_message : ProtocolMessage → List ℕ → ℕ → ProtocolMessage
unfolding set_body_length encode_header
set_message m buf size =
    let sized = encode_header (set_body_length m size) in
    record sized { body = take sized.body_length buf }

pub decode_header : ProtocolMessage → ProtocolMessage × Bool
decode_header m =
    let stored =
      bit_or (bit_or (bit_or (m.data0 * 2 ^ 24 % 2 ^ 32) (m.data1 * 2 ^ 16)) (m.data2 * 2 ^ 8))
        m.data3 in
    if ltb max_body_length stored
    then (record m { body_length = 0 }, false)
    else (record m { body_length = stored }, true)
