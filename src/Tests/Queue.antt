-- ===== src/Tests/Queue.antt =====
-- The parameters of the network at concrete functions: a queue of ten thousand places as a
-- list, and a codec that tells messages by their first byte.
use flexran_rtc.Base.{
  ℕ, ◌<◌, ◌≡◌, refl, Bool, true, false, Option, none, some, List, [], ◌∷◌, ◌++◌, arith, ltb, ◌==◌,
  if◌then◌else◌, length,
}
use flexran_rtc.Messages.{
  Header, enb_config_reply_type, CellConfig, one, normal_prefix, fdd, Body, enb_config_reply, hello,
  successful_outcome,
}
use flexran_rtc.Network.Tagged.{TaggedMessage}
use flexran_rtc.Network.Xface.{Lockfree, Codec}

unfoldable pub push : TaggedMessage → List TaggedMessage → List TaggedMessage × Bool
push m q = if ltb (length q) 10000 then (q ++ m ∷ [], true) else (q, false)

unfoldable pub pop : List TaggedMessage → List TaggedMessage × Option TaggedMessage
pop [] = ([], none)
pop (m ∷ q) = (q, some m)

pub push_contents :
    (m : TaggedMessage) (q : List TaggedMessage)
    → (push m q).0 ≡ (if (push m q).1 then q ++ m ∷ [] else q)
unfolding push
push_contents m q = ground arith

pub push_room :
    (m : TaggedMessage) (q : List TaggedMessage) → length q < 10000 → (push m q).1 ≡ true
unfolding push
push_room m q h = ground arith

pub pop_nil : (q : List TaggedMessage) → q ≡ [] → ((pop q).1 ≡ none) × ((pop q).0 ≡ [])
unfolding pop
pop_nil q h = rw h (refl, refl)

pub pop_cons :
    (q : List TaggedMessage) (m : TaggedMessage) (rest : List TaggedMessage)
    → q ≡ m ∷ rest
    → ((pop q).1 ≡ some m) × ((pop q).0 ≡ rest)
unfolding pop
pop_cons q m rest h = rw h (refl, refl)

unfoldable pub list_queue : Lockfree (List TaggedMessage)
unfolding push
list_queue = record {
  capacity = 10000;
  push = push;
  pop = pop;
  contents = λ q. q;
  push_contents = push_contents;
  push_room = push_room;
  pop_nil = pop_nil;
  pop_cons = pop_cons;
}

abbrev pub header : Header
header = record { type = enb_config_reply_type; version = some 0; xid = 0 }

abbrev pub cell : CellConfig
cell = record {
  cell_id = 0;
  dl_bandwidth = 25;
  phich_resource = one;
  dl_cyclic_prefix_length = normal_prefix;
  duplex_mode = fdd;
}

-- The first byte tells an eNB configuration reply, a hello or neither.
unfoldable pub parse_body : List ℕ → Option Body
parse_body [] = none
parse_body (b ∷ bytes) =
    if b == 1
    then some (enb_config_reply header (cell ∷ []))
    else if b == 2
    then some (hello header)
    else none

unfoldable pub byte_codec : Codec
byte_codec = record {
  serialize = λ m. 1 ∷ [];
  parse = λ bytes. record { msg_dir = successful_outcome; msg = parse_body bytes };
}
