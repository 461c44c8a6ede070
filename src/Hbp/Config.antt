-- ===== src/Hbp/Config.antt =====
-- internal/protocol/hbp/config.go: the two configuration messages, of fields in text of fixed widths.
pub mod Fields
use qsp.Prelude.{
  ℕ, zero, suc, ◌+◌, ◌-◌, ◌≡◌, Bool, ◌&&◌, List, [], ◌∷◌, ◌++◌, ltb, ◌==◌, if◌then◌else◌, length,
  take, drop,
}
use qsp.Prelude.Bytes.{Bytes}
use qsp.Prelude.Text.{Text, codes, is_empty}
use qsp.Hbp.Data.{Result, ok, err, field_format}
use qsp.Hbp.Control.{◌>>=◌, exact_len, get_id, id_message}

abbrev config_size : ℕ
config_size = 302

abbrev gateway_config_size : ℕ
gateway_config_size = 119

-- wCallsign to wPackageID, in the order of `Config`.
abbrev pub config_widths : List ℕ
config_widths = 8 ∷ 9 ∷ 9 ∷ 2 ∷ 2 ∷ 8 ∷ 9 ∷ 3 ∷ 20 ∷ 19 ∷ 1 ∷ 124 ∷ 40 ∷ 40 ∷ []

abbrev pub gateway_widths : List ℕ
gateway_widths = 8 ∷ 9 ∷ 9 ∷ 2 ∷ 2 ∷ 1 ∷ 40 ∷ 40 ∷ []

pub record Config : Type 0 where
  pub repeater_id : ℕ
  pub callsign : Text
  pub rx_freq : Text
  pub tx_freq : Text
  pub tx_power : Text
  pub color_code : Text
  pub latitude : Text
  pub longitude : Text
  pub height : Text
  pub location : Text
  pub description : Text
  pub slots : Text
  pub url : Text
  pub software_id : Text
  pub package_id : Text

pub record GatewayConfig : Type 0 where
  pub repeater_id : ℕ
  pub callsign : Text
  pub rx_freq : Text
  pub tx_freq : Text
  pub tx_power : Text
  pub color_code : Text
  pub slots : Text
  pub software_id : Text
  pub package_id : Text

unfoldable pub spaces : ℕ → Bytes
spaces zero = []
spaces (suc n) = 0x20 ∷ spaces n

-- `padTo`, to an empty buffer.
unfoldable pub pad_to : Text → ℕ → Bytes
unfolding spaces
pad_to s n = if ltb n (length s) then take n s else s ++ spaces (n - length s)

-- `strings.TrimRight(s, " ")`.
unfoldable pub trim_spaces : Text → Text
trim_spaces [] = []
trim_spaces (c ∷ cs) =
    let rest = trim_spaces cs in if is_empty rest && c == 0x20 then [] else c ∷ rest

-- The calls of `fields.next`, one for each width.
unfoldable pub read_fields : List ℕ → Bytes → List Text
unfolding trim_spaces
read_fields [] b = []
read_fields (w ∷ ws) b = trim_spaces (take w b) ∷ read_fields ws (drop w b)

-- The calls of `padTo`, one for each field, in front of the rest.
unfoldable pub pad_fields : List Text → List ℕ → Bytes
unfolding pad_to
pad_fields (f ∷ fs) (w ∷ ws) = pad_to f w ++ pad_fields fs ws
pad_fields _ _ = []

abbrev pub sum_widths : List ℕ → ℕ
sum_widths [] = 0
sum_widths (w ∷ ws) = w + sum_widths ws

-- The field at a position of those read.
abbrev field_at : List Text → ℕ → Text
field_at [] i = []
field_at (f ∷ fs) zero = f
field_at (f ∷ fs) (suc i) = field_at fs i

abbrev pub config_fields : Config → List Text
config_fields m =
    m.callsign ∷ m.rx_freq ∷ m.tx_freq ∷ m.tx_power ∷ m.color_code ∷ m.latitude ∷ m.longitude
    ∷ m.height ∷ m.location ∷ m.description ∷ m.slots ∷ m.url ∷ m.software_id ∷ m.package_id ∷ []

abbrev pub config_of : ℕ → List Text → Config
config_of id fs = record {
  repeater_id = id;
  callsign = field_at fs 0;
  rx_freq = field_at fs 1;
  tx_freq = field_at fs 2;
  tx_power = field_at fs 3;
  color_code = field_at fs 4;
  latitude = field_at fs 5;
  longitude = field_at fs 6;
  height = field_at fs 7;
  location = field_at fs 8;
  description = field_at fs 9;
  slots = field_at fs 10;
  url = field_at fs 11;
  software_id = field_at fs 12;
  package_id = field_at fs 13;
}

abbrev pub gateway_fields : GatewayConfig → List Text
gateway_fields m =
    m.callsign ∷ m.rx_freq ∷ m.tx_freq ∷ m.tx_power ∷ m.color_code ∷ m.slots ∷ m.software_id
    ∷ m.package_id ∷ []

abbrev pub gateway_of : ℕ → List Text → GatewayConfig
gateway_of id fs = record {
  repeater_id = id;
  callsign = field_at fs 0;
  rx_freq = field_at fs 1;
  tx_freq = field_at fs 2;
  tx_power = field_at fs 3;
  color_code = field_at fs 4;
  slots = field_at fs 5;
  software_id = field_at fs 6;
  package_id = field_at fs 7;
}

-- The method AppendTo of Config, to an empty buffer.
unfoldable pub config_bytes : Config → Bytes
unfolding id_message pad_fields
config_bytes m =
    id_message (codes "RPTC") m.repeater_id (pad_fields (config_fields m) config_widths)

-- `parseConfig`.
unfoldable pub parse_config : Bytes → Result Config
unfolding exact_len get_id read_fields
parse_config b = do
  b' ← exact_len b config_size
  if 8 + sum_widths config_widths == config_size
      then ok (config_of (get_id (drop 4 b')) (read_fields config_widths (drop 8 b')))
      else err field_format

-- The method AppendTo of GatewayConfig, to an empty buffer.
unfoldable pub gateway_bytes : GatewayConfig → Bytes
unfolding id_message pad_fields
gateway_bytes m =
    id_message (codes "DMRC") m.repeater_id (pad_fields (gateway_fields m) gateway_widths)

-- `parseGatewayConfig`.
unfoldable pub parse_gateway_config : Bytes → Result GatewayConfig
unfolding exact_len get_id read_fields
parse_gateway_config b = do
  b' ← exact_len b gateway_config_size
  if 8 + sum_widths gateway_widths == gateway_config_size
      then ok (gateway_of (get_id (drop 4 b')) (read_fields gateway_widths (drop 8 b')))
      else err field_format
