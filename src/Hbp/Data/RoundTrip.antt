-- ===== src/Hbp/Data/RoundTrip.antt =====
-- A DMRD frame through the wire and back, both ways.
use qsp.Prelude.{
  ℕ, zero, suc, ◌+◌, ◌^◌, ◌≤◌, ◌<◌, ◌≡◌, ◌⊎◌, refl, sym, ◌∙◌, ap, [], ◌∷◌, ◌++◌, arith, length,
  length-append, take, drop, All,
}
use qsp.Prelude.Bytes.{
  Bytes, byte_at, IsByte, u24-put_u24, u32-put_u32, put_u24-u24, put_u32-u32, take-append,
  drop-append, take-append-drop,
}
use qsp.Prelude.Text.{codes}
use qsp.Hbp.Data.{
  Data, flags, marshal, ok, fields_of, parse_data, data_min_size, data_header_size,
  data_payload_size, data_max_trailing,
}
use qsp.Hbp.Data.Flags.{flags_of-ReadsBack, flags_of_byte}

-- A frame whose fields fit their places on the wire.
pub record IsWire (m : Data) : Type 0 where
  pub source_fits : m.source_id < 2 ^ 24
  pub target_fits : m.target_id < 2 ^ 24
  pub repeater_fits : m.repeater_id < 2 ^ 32
  pub stream_fits : m.stream_id < 2 ^ 32
  pub slot_is : (m.timeslot ≡ 1) ⊎ (m.timeslot ≡ 2)
  pub call_is : (m.call_type ≡ 0) ⊎ (m.call_type ≡ 1)
  pub frame_fits : m.frame_type < 4
  pub data_fits : m.data_type < 16
  pub payload_size : length m.payload ≡ data_payload_size
  pub trailing_size : length m.trailing ≤ data_max_trailing

take_payload : (p t : Bytes) → length p ≡ data_payload_size → take data_payload_size (p ++ t) ≡ p
take_payload p t h = rw (← h) (take-append p t)

drop_payload : (p t : Bytes) → length p ≡ data_payload_size → drop data_payload_size (p ++ t) ≡ t
drop_payload p t h = rw (← h) (drop-append p t)

pub marshal-length :
    (m : Data) → length (marshal m) ≡ data_header_size + length m.payload + length m.trailing
unfolding marshal
marshal-length m = omega (arith, length-append {0} m.payload m.trailing)

fields_of-marshal : (m : Data) → IsWire m → fields_of (marshal m) (flags m) ≡ m
unfolding marshal
fields_of-marshal m w =
    let back =
      flags_of-ReadsBack m.timeslot m.call_type m.frame_type m.data_type w.slot_is w.call_is
        w.frame_fits w.data_fits in
    λ i. record {
      sequence = m.sequence;
      source_id = u24-put_u24 m.source_id w.source_fits i;
      target_id = u24-put_u24 m.target_id w.target_fits i;
      repeater_id = u32-put_u32 m.repeater_id w.repeater_fits i;
      timeslot = back.slot_back i;
      call_type = back.call_back i;
      frame_type = back.frame_back i;
      data_type = back.data_back i;
      stream_id = u32-put_u32 m.stream_id w.stream_fits i;
      payload = take_payload m.payload m.trailing w.payload_size i;
      trailing = drop_payload m.payload m.trailing w.payload_size i;
    }

byte_at-marshal : (m : Data) → byte_at (marshal m) 15 ≡ flags m
unfolding marshal
byte_at-marshal m = refl

-- A frame whose fields fit the wire is parsed back from its encoding unchanged.
pub parse_data-marshal : (m : Data) → IsWire m → parse_data (marshal m) ≡ ok m
unfolding parse_data
parse_data-marshal m w =
    rw (byte_at-marshal m, fields_of-marshal m w)
      (ground (arith, marshal-length m, w.payload_size, w.trailing_size))

parse_data-ok :
    (b : Bytes) (m : Data)
    → parse_data b ≡ ok m
    → (data_min_size ≤ length b) × (fields_of b (byte_at b 15) ≡ m)
unfolding parse_data
parse_data-ok b m h = ground arith

-- The header of a frame, byte by byte, in front of the rest.
marshal-fields_of :
    (s a b c d e f g h j k fl n o p q : ℕ) (rest : Bytes)
    → All IsByte (a ∷ b ∷ c ∷ d ∷ e ∷ f ∷ g ∷ h ∷ j ∷ k ∷ fl ∷ n ∷ o ∷ p ∷ q ∷ [])
    → let frame =
        codes "DMRD" ++ s ∷ a ∷ b ∷ c ∷ d ∷ e ∷ f ∷ g ∷ h ∷ j ∷ k ∷ fl ∷ n ∷ o ∷ p ∷ q ∷ rest in
      marshal (fields_of frame fl) ≡ frame
unfolding marshal
marshal-fields_of s a b c d e f g h j k fl n o p q rest x = rw (
  flags_of_byte fl (x.1.1.1.1.1.1.1.1.1.1.0),
  take-append-drop data_payload_size rest,
  put_u32-u32 n o p (x.1.1.1.1.1.1.1.1.1.1.1.0) (x.1.1.1.1.1.1.1.1.1.1.1.1.0)
      (x.1.1.1.1.1.1.1.1.1.1.1.1.1.0) q rest (x.1.1.1.1.1.1.1.1.1.1.1.1.1.1.0),
  put_u32-u32 g h j (x.1.1.1.1.1.1.0) (x.1.1.1.1.1.1.1.0) (x.1.1.1.1.1.1.1.1.0) k
      (fl ∷ n ∷ o ∷ p ∷ q ∷ rest) (x.1.1.1.1.1.1.1.1.1.0),
  put_u24-u24 d e f (x.1.1.1.0) (x.1.1.1.1.0) (x.1.1.1.1.1.0)
      (g ∷ h ∷ j ∷ k ∷ fl ∷ n ∷ o ∷ p ∷ q ∷ rest),
  put_u24-u24 a b c (x.0) (x.1.0) (x.1.1.0) (d ∷ e ∷ f ∷ g ∷ h ∷ j ∷ k ∷ fl ∷ n ∷ o ∷ p ∷ q ∷ rest),
)

All-take : (n : ℕ) (xs : Bytes) → All IsByte xs → All IsByte (take n xs)
All-take zero xs h = tt
All-take (suc n) [] h = tt
All-take (suc n) (x ∷ xs) h = (h.0, All-take n xs h.1)

-- Whatever bytes are accepted as a frame and start with its tag, encoding the frame gives those
-- bytes again.
pub marshal-parse_data :
    (b : Bytes) (m : Data)
    → All IsByte b
    → take 4 b ≡ codes "DMRD"
    → parse_data b ≡ ok m
    → marshal m ≡ b
marshal-parse_data
      (t ∷ u ∷ v ∷ w ∷ s ∷ a ∷ b ∷ c ∷ d ∷ e ∷ f ∷ g ∷ h ∷ j ∷ k ∷ fl ∷ n ∷ o ∷ p ∷ q ∷ rest) m x
      tag parsed =
    let (size, fields) = parse_data-ok _ m parsed in
    let y = x.1.1.1.1.1 in
    let same : t ∷ u ∷ v ∷ w ∷ [] ≡ codes "DMRD" = tag in
    let tail = s ∷ a ∷ b ∷ c ∷ d ∷ e ∷ f ∷ g ∷ h ∷ j ∷ k ∷ fl ∷ n ∷ o ∷ p ∷ q ∷ rest in
    rw (← fields) (
      ap (λ (pre : Bytes). marshal (fields_of (pre ++ tail) fl)) same
      ∙ marshal-fields_of s a b c d e f g h j k fl n o p q rest
          (All-take 15 (a ∷ b ∷ c ∷ d ∷ e ∷ f ∷ g ∷ h ∷ j ∷ k ∷ fl ∷ n ∷ o ∷ p ∷ q ∷ rest) y)
      ∙ ap (λ (pre : Bytes). pre ++ tail) (sym same))
marshal-parse_data _ m x tag parsed = absurd (omega (arith, parse_data-ok _ m parsed))
