-- ===== src/Hbp/Data/Flags.antt =====
-- The flags byte: its four parts share no bit, so that each is read back.
use Prim.Native.Nat.{bit_and, bit_or}
use qsp.Prelude.{
  ℕ, ◌+◌, ◌*◌, ◌/◌, ◌%◌, ◌<◌, ◌≡◌, ◌⊎◌, refl, sym, ◌∙◌, true, ◌==◌, ==_iff, if◌then◌else◌, arith,
}
use qsp.Prelude.Bytes.{holds_below, holds_below_sound}
use qsp.Hbp.Data.{flags_of}

-- The parts of a byte in the order of its bits, one number for all four.
or_table :
    holds_below
      (λ x.
        bit_or (bit_or (bit_or (x / 128 * 128) (x / 64 % 2 * 64)) (x / 16 % 4 * 16)) (x % 16) == x)
      256
    ≡ true
unfolding holds_below
or_table = refl

slot_table : holds_below (λ x. bit_and x 0x80 == x / 128 * 128) 256 ≡ true
unfolding holds_below
slot_table = refl

private_table : holds_below (λ x. bit_and x 0x40 == x / 64 % 2 * 64) 256 ≡ true
unfolding holds_below
private_table = refl

or_parts :
    (x : ℕ)
    → x < 256
    → bit_or (bit_or (bit_or (x / 128 * 128) (x / 64 % 2 * 64)) (x / 16 % 4 * 16)) (x % 16) ≡ x
or_parts x h = (==_iff _ x).0 (holds_below_sound _ 256 or_table x h)

slot_bit : (x : ℕ) → x < 256 → bit_and x 0x80 ≡ x / 128 * 128
slot_bit x h = (==_iff _ _).0 (holds_below_sound _ 256 slot_table x h)

private_bit : (x : ℕ) → x < 256 → bit_and x 0x40 ≡ x / 64 % 2 * 64
private_bit x h = (==_iff _ _).0 (holds_below_sound _ 256 private_table x h)

-- The flags byte as a number.
abbrev packed : ℕ → ℕ → ℕ → ℕ → ℕ
packed timeslot call_type frame_type data_type =
    (if timeslot == 2 then 128 else 0)
    + (if call_type == 1 then 64 else 0)
    + frame_type % 4 * 16
    + data_type % 16

packed-lt : (s c f d : ℕ) → packed s c f d < 256
packed-lt s c f d = ground arith

packed_slot : (s c f d : ℕ) → packed s c f d / 128 * 128 ≡ (if s == 2 then 128 else 0)
packed_slot s c f d = ground arith

packed_call : (s c f d : ℕ) → packed s c f d / 64 % 2 * 64 ≡ (if c == 1 then 64 else 0)
packed_call s c f d = ground arith

packed_frame : (s c f d : ℕ) → packed s c f d / 16 % 4 ≡ f % 4
packed_frame s c f d = ground arith

packed_data : (s c f d : ℕ) → packed s c f d % 16 ≡ d % 16
packed_data s c f d = ground arith

-- The bitwise or of the four fields is their sum.
flags_of-packed : (s c f d : ℕ) → flags_of s c f d ≡ packed s c f d
unfolding flags_of
flags_of-packed s c f d =
    sym (λ i.
      bit_or
        (bit_or (bit_or (packed_slot s c f d i) (packed_call s c f d i))
          (packed_frame s c f d i * 16))
        (packed_data s c f d i))
    ∙ or_parts (packed s c f d) (packed-lt s c f d)

-- Each field is read back out of the byte.
pub record ReadsBack (s c f d x : ℕ) : Type 0 where
  pub slot_back : (if bit_and x 0x80 == 0 then 1 else 2) ≡ s
  pub call_back : (if bit_and x 0x40 == 0 then 0 else 1) ≡ c
  pub frame_back : x / 16 % 4 ≡ f
  pub data_back : x % 16 ≡ d

pub flags_of-ReadsBack :
    (s c f d : ℕ)
    → (s ≡ 1) ⊎ (s ≡ 2)
    → (c ≡ 0) ⊎ (c ≡ 1)
    → f < 4
    → d < 16
    → ReadsBack s c f d (flags_of s c f d)
flags_of-ReadsBack s c f d hs hc hf hd = rw (flags_of-packed s c f d) (record {
  slot_back = rw (slot_bit _ (packed-lt s c f d), packed_slot s c f d) (ground arith);
  call_back = rw (private_bit _ (packed-lt s c f d), packed_call s c f d) (ground arith);
  frame_back = packed_frame s c f d ∙ ground arith;
  data_back = packed_data s c f d ∙ ground arith;
})

-- Whatever the byte, packing the fields read from it gives it back.
pub flags_of_byte :
    (x : ℕ)
    → x < 256
    → flags_of
        (if bit_and x 0x80 == 0 then 1 else 2)
        (if bit_and x 0x40 == 0 then 0 else 1)
        (x / 16 % 4)
        (x % 16)
      ≡ x
flags_of_byte x h = flags_of-packed _ _ _ _ ∙ rw (slot_bit x h, private_bit x h) (ground arith)
