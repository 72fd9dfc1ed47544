-- ===== src/Rib/SfnSf.antt =====
-- src/rib/rib_common.cc: the packing of a frame and a subframe number into sixteen bits.
-- `<<` is a product and `>>` a quotient by the power of two; `%` is the conversion to the
-- width of the C++ type.
use Prim.Native.Nat.{bit_and, bit_or}
use flexran_rtc.Base.{ℕ, ◌+◌, ◌*◌, ◌/◌, ◌%◌, ◌-◌, ◌^◌, ◌<◌, ◌≡◌, refl, arith}
use flexran_rtc.Base.Bits.{bit_and_15, bit_and_4095, bit_and_65520, bit_or-high_low, bit_or_comm}

abbrev pub u16 : ℕ → ℕ
u16 x = x % 2 ^ 16

unfoldable pub get_frame : ℕ → ℕ
get_frame sfn_sf =
    let frame_mask = u16 (1 * 2 ^ 12 - 1) in u16 (bit_and sfn_sf (frame_mask * 2 ^ 4) / 2 ^ 4)

unfoldable pub get_subframe : ℕ → ℕ
get_subframe sfn_sf = let sf_mask = u16 (1 * 2 ^ 4 - 1) in u16 (bit_and sfn_sf sf_mask)

unfoldable pub get_frame_subframe : ℕ → ℕ × ℕ
get_frame_subframe sfn_sf =
    let frame_mask = 1 * 2 ^ 12 - 1 in
    let frame = u16 (bit_and sfn_sf (frame_mask * 2 ^ 4) / 2 ^ 4) in
    let sf_mask = 1 * 2 ^ 4 - 1 in let subframe = u16 (bit_and sfn_sf sf_mask) in (frame, subframe)

unfoldable pub get_sfn_sf : ℕ → ℕ → ℕ
get_sfn_sf frame subframe =
    let frame_mask = u16 (1 * 2 ^ 12 - 1) in
    let sf_mask = u16 (1 * 2 ^ 4 - 1) in
    u16 (bit_or (bit_and subframe sf_mask) (bit_and frame frame_mask * 2 ^ 4))

pub get_frame_lem : (s : ℕ) → get_frame s ≡ s / 16 % 4096
unfolding get_frame
get_frame_lem s = omega (arith, bit_and_65520 s)

pub get_subframe_lem : (s : ℕ) → get_subframe s ≡ s % 16
unfolding get_subframe
get_subframe_lem s = omega (arith, bit_and_15 s)

pub get_sfn_sf_lem : (f s : ℕ) → get_sfn_sf f s ≡ f % 4096 * 16 + s % 16
unfolding get_sfn_sf
get_sfn_sf_lem f s =
    rw (bit_and_15, bit_and_4095, bit_or_comm)
      (omega (arith, bit_or-high_low 4 (f % 4096) (s % 16) (omega arith)))

get_frame_subframe_lem : (s : ℕ) → get_frame_subframe s ≡ (get_frame s, get_subframe s)
unfolding get_frame_subframe get_frame get_subframe
get_frame_subframe_lem s = refl

-- A frame number of twelve bits and a subframe number of four come back from the packed
-- value unchanged, by either way of unpacking.
pub get_sfn_sf_roundtrip :
    (f s : ℕ)
    → f < 4096
    → s < 16
    → (get_frame (get_sfn_sf f s) ≡ f)
      × (get_subframe (get_sfn_sf f s) ≡ s)
      × (get_frame_subframe (get_sfn_sf f s) ≡ (f, s))
get_sfn_sf_roundtrip f s hf hs =
    rw (get_frame_subframe_lem, get_frame_lem, get_subframe_lem, get_sfn_sf_lem)
      (omega arith, omega arith, ground arith)

-- Packing what was unpacked keeps the low sixteen bits of a value, and drops the others.
get_sfn_sf_of_unpacked :
    (w : ℕ) → get_sfn_sf (get_frame_subframe w).0 (get_frame_subframe w).1 ≡ u16 w
get_sfn_sf_of_unpacked w =
    rw (get_frame_subframe_lem, get_sfn_sf_lem, get_frame_lem, get_subframe_lem) (omega arith)
