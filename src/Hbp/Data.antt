-- ===== src/Hbp/Data.antt =====
-- internal/protocol/hbp/data.go: the DMRD frame.
pub mod Flags
pub mod RoundTrip
use Prim.Native.Nat.{bit_and, bit_or}
use qsp.Prelude.{
  ℕ, ◌+◌, ◌-◌, ◌*◌, ◌/◌, ◌%◌, Bool, true, false, not, ◌&&◌, Option, none, some, List, [], ◌∷◌, ◌++◌,
  ltb, ◌==◌, if◌then◌else◌, length, take, drop,
}
use qsp.Prelude.Bytes.{Bytes, byte_at, u24, u32, put_u24, put_u32}
use qsp.Prelude.Text.{Text, codes}

abbrev pub data_header_size : ℕ
data_header_size = 20

abbrev pub data_payload_size : ℕ
data_payload_size = 33

abbrev pub data_min_size : ℕ
data_min_size = 53

abbrev pub data_max_trailing : ℕ
data_max_trailing = 8

abbrev pub frame_type_voice : ℕ
frame_type_voice = 0

abbrev pub frame_type_voice_sync : ℕ
frame_type_voice_sync = 1

abbrev pub frame_type_sync : ℕ
frame_type_sync = 2

abbrev pub data_type_voice_lc_header : ℕ
data_type_voice_lc_header = 1

abbrev data_type_terminator : ℕ
data_type_terminator = 2

-- A payload is an array of 33 bytes in the source; its length is part of `IsWire`.
pub record Data : Type 0 where
  pub sequence : ℕ
  pub source_id : ℕ
  pub target_id : ℕ
  pub repeater_id : ℕ
  pub timeslot : ℕ
  pub call_type : ℕ
  pub frame_type : ℕ
  pub data_type : ℕ
  pub stream_id : ℕ
  pub payload : Bytes
  pub trailing : Bytes

-- The method flags: `(b & 0x03) << 4` is a remainder times 16, `b & 0x0F` a remainder.
unfoldable pub flags_of : ℕ → ℕ → ℕ → ℕ → ℕ
flags_of timeslot call_type frame_type data_type =
    let slot = if timeslot == 2 then 0x80 else 0 in
    let private = if call_type == 1 then 0x40 else 0 in
    bit_or (bit_or (bit_or slot private) (frame_type % 4 * 16)) (data_type % 16)

abbrev pub flags : Data → ℕ
flags m = flags_of m.timeslot m.call_type m.frame_type m.data_type

-- The method AppendTo, for an empty buffer.
unfoldable pub marshal : Data → Bytes
unfolding flags_of
marshal m =
    codes "DMRD"
    ++ m.sequence
      ∷ put_u24 m.source_id (
          put_u24 m.target_id
            (put_u32 m.repeater_id (flags m ∷ put_u32 m.stream_id (m.payload ++ m.trailing))))

-- The package's errors, with what their texts name.
pub data MessageError : Type 0 where
  short : ℕ → MessageError
  trailing_bytes : ℕ → MessageError
  not_captured : Text → MessageError
  unknown_kind : Bytes → MessageError
  field_format : MessageError

pub data Result {ℓ} (A : Type ℓ) : Type ℓ where
  ok : A → Result A
  err : MessageError → Result A

abbrev pub fields_of : Bytes → ℕ → Data
fields_of b flags_byte = record {
  sequence = byte_at b 4;
  source_id = u24 (byte_at b 5) (byte_at b 6) (byte_at b 7);
  target_id = u24 (byte_at b 8) (byte_at b 9) (byte_at b 10);
  repeater_id = u32 (byte_at b 11) (byte_at b 12) (byte_at b 13) (byte_at b 14);
  timeslot = if bit_and flags_byte 0x80 == 0 then 1 else 2;
  call_type = if bit_and flags_byte 0x40 == 0 then 0 else 1;
  frame_type = flags_byte / 16 % 4;
  data_type = flags_byte % 16;
  stream_id = u32 (byte_at b 16) (byte_at b 17) (byte_at b 18) (byte_at b 19);
  payload = take data_payload_size (drop data_header_size b);
  trailing = drop data_min_size b;
}

unfoldable pub parse_data : Bytes → Result Data
parse_data b =
    if ltb (length b) data_min_size
    then err (short (length b))
    else if ltb data_max_trailing (length b - data_min_size)
    then err (trailing_bytes (length b - data_min_size))
    else ok (fields_of b (byte_at b 15))

-- The method IsUserData.
unfoldable pub is_user_data : Data → Bool
is_user_data m =
    if not (m.frame_type == frame_type_sync)
    then false
    else not (m.data_type == data_type_voice_lc_header) && not (m.data_type == data_type_terminator)

-- The method IsTerminator.
unfoldable pub is_terminator : Data → Bool
is_terminator m = m.frame_type == frame_type_sync && m.data_type == data_type_terminator
