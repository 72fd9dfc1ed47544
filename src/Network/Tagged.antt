-- ===== src/Network/Tagged.antt =====
-- src/network/tagged_message.h and .cc: a message with the session that it belongs to. Its
-- bytes stand in a buffer of the object or, when they do not fit, in one from the heap;
-- `live` counts the heap buffers that are allocated and not yet deleted.
pub mod Ownership
use flexran_rtc.Base.{
  ℕ, suc, ◌+◌, ◌-◌, ◌%◌, ◌^◌, Bool, true, false, List, ltb, if◌then◌else◌, take, replicate,
}

abbrev pub max_normal_msg_size : ℕ
max_normal_msg_size = 2048

pub record TaggedMessage : Type 0 where
  pub tag : ℕ
  pub size : ℕ
  pub msg_contents : List ℕ
  pub dynamic_alloc : Bool

-- Which buffer the contents go to; a heap buffer is one more.
allocate : ℕ → ℕ → Bool × ℕ
allocate live size = if ltb max_normal_msg_size size then (true, suc live) else (false, live)

-- tagged_message(char *msg, size_t size, int tag)
unfoldable pub from_bytes : ℕ → List ℕ → ℕ → ℕ → TaggedMessage × ℕ
unfolding allocate
from_bytes live msg size tag =
    let (dynamic, live') = allocate live size in
    (
      record { tag = tag; size = size; msg_contents = take size msg; dynamic_alloc = dynamic },
      live',
    )

-- tagged_message(size_t size, int tag). The bytes are left as they were: zeros stand for them.
unfoldable pub sized : ℕ → ℕ → ℕ → TaggedMessage × ℕ
unfolding allocate
sized live size tag =
    let (dynamic, live') = allocate live size in
    (
      record { tag = tag; size = size; msg_contents = replicate size 0; dynamic_alloc = dynamic },
      live',
    )

-- getSize() returns an int, which becomes a size of 64 bits again: from 2 ^ 31 on it is negative
-- in between.
unfoldable pub get_size : TaggedMessage → ℕ
get_size m = let low = m.size % 2 ^ 32 in if ltb low (2 ^ 31) then low else low + 2 ^ 64 - 2 ^ 32

-- tagged_message(const tagged_message& m)
unfoldable pub copy : ℕ → TaggedMessage → TaggedMessage × ℕ
unfolding allocate get_size
copy live m =
    let (dynamic, live') = allocate live (get_size m) in
    (
      record {
        tag = m.tag;
        size = get_size m;
        msg_contents = take (get_size m) m.msg_contents;
        dynamic_alloc = dynamic;
      },
      live',
    )

-- tagged_message(tagged_message&& other): it copies, and leaves `other` its buffer.
unfoldable pub move : ℕ → TaggedMessage → TaggedMessage × ℕ
unfolding allocate get_size
move live other =
    let (dynamic, live') = allocate live (get_size other) in
    (
      record {
        tag = other.tag;
        size = get_size other;
        msg_contents = take (get_size other) other.msg_contents;
        dynamic_alloc = dynamic;
      },
      live',
    )

-- ~tagged_message()
unfoldable pub destroy : ℕ → TaggedMessage → ℕ
destroy live m = if m.dynamic_alloc then live - 1 else live

-- operator=(tagged_message&& other), for an `other` that is another object.
unfoldable pub move_assign : ℕ → TaggedMessage → TaggedMessage → TaggedMessage × ℕ
unfolding destroy allocate get_size
move_assign live m other =
    let (dynamic, live') = allocate (destroy live m) (get_size other) in
    (
      record {
        tag = other.tag;
        size = get_size other;
        msg_contents = take (get_size other) other.msg_contents;
        dynamic_alloc = dynamic;
      },
      live',
    )
