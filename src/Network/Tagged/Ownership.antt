-- ===== src/Network/Tagged/Ownership.antt =====
-- Each tagged_message of src/network/tagged_message.cc owns one heap buffer or none.
use flexran_rtc.Base.{
  ℕ, ◌+◌, ◌^◌, ◌<◌, ◌≤◌, ◌≡◌, refl, List, arith, ltb, if◌then◌else◌, take, length, length-take,
  take-length,
}
use flexran_rtc.Network.Tagged.{
  TaggedMessage, max_normal_msg_size, get_size, from_bytes, copy, move, move_assign,
}

-- The flag says whether the contents are in a heap buffer, and the contents have the size.
pub record IsOwner (m : TaggedMessage) : Type 0 where
  pub flagged : m.dynamic_alloc ≡ ltb max_normal_msg_size m.size
  pub filled : length m.msg_contents ≡ m.size

-- The heap buffers that a message holds.
abbrev pub held : TaggedMessage → ℕ
held m = if m.dynamic_alloc then 1 else 0

-- A message built from a buffer that holds `size` bytes has those bytes, and the heap has
-- gained exactly the buffer that it holds.
from_bytes-IsOwner :
    (live : ℕ) (msg : List ℕ) (size tag : ℕ)
    → size ≤ length msg
    → let (m, live') = from_bytes live msg size tag in
      IsOwner m × (m.msg_contents ≡ take size msg) × (m.tag ≡ tag) × (live' ≡ live + held m)
unfolding from_bytes
from_bytes-IsOwner live msg size tag h =
    (record { flagged = ground arith; filled = length-take size msg h }, refl, refl, ground arith)

-- Below 2 ^ 31 the way through an int keeps the size.
get_size_small : (m : TaggedMessage) → m.size < 2 ^ 31 → get_size m ≡ m.size
unfolding get_size
get_size_small m h = ground (arith, h)

-- Copying and moving a message of less than 2 ^ 31 bytes, whose flag and contents fit its size,
-- give an equal message with a buffer of its own.
pub copy_lem :
    (live : ℕ) (m : TaggedMessage)
    → m.size < 2 ^ 31
    → IsOwner m
    → (copy live m ≡ (m, live + held m)) × (move live m ≡ (m, live + held m))
unfolding copy move
copy_lem live m h o =
    let same = get_size_small m h in
    let whole : take m.size m.msg_contents ≡ m.msg_contents =
      rw (← o.filled) (take-length m.msg_contents) in
    (rw same (ground arith), rw same (ground arith))

-- Assignment from a message of less than 2 ^ 31 bytes, whose flag and contents fit its size, gives
-- back the buffer that the target held and takes one for the new contents: after it the target
-- equals the source, and no buffer is lost or deleted twice.
pub move_assign_lem :
    (rest : ℕ) (m other : TaggedMessage)
    → other.size < 2 ^ 31
    → IsOwner other
    → move_assign (rest + held m + held other) m other ≡ (other, rest + held other + held other)
unfolding move_assign
move_assign_lem rest m other h o =
    let same = get_size_small other h in
    let whole : take other.size other.msg_contents ≡ other.msg_contents =
      rw (← o.filled) (take-length other.msg_contents) in
    rw same (ground arith)
