-- ===== src/Hbp/Tests.antt =====
-- Runs of the frame codec, of the choice of a parser and of whole messages on concrete packets.
use qsp.Prelude.{some, ◌≤◌, ◌≡◌, ◌⊎◌, inr, refl, true, false, [], ◌∷◌, ◌++◌, arith, All, length}
use qsp.Prelude.Bytes.{Bytes, IsByte}
use qsp.Prelude.Text.{codes}
use qsp.Hbp.Data.{Data, marshal, parse_data, ok, err, short}
use qsp.Hbp.Data.RoundTrip.{IsWire}
use qsp.Hbp.Message.{
  dispatch, parsed_by, unknown_kind, not_captured, tag_of, has_tag, master_close, repeater_close,
  login, config, ping,
}
use qsp.Hbp.Message.Longest.{dispatch-longest}
use qsp.Hbp.Config.{Config}
use qsp.Hbp.Parse
use qsp.Hbp.Parse.{Json, append_to, parse}
use qsp.Hbp.Parse.Written.{IsWritten, parse-append_to}
use qsp.Hbp.Parse.Read.{IsIdentity, append_to-parse}

abbrev silence : Bytes
silence =
    0 ∷ 1 ∷ 2 ∷ 3 ∷ 4 ∷ 5 ∷ 6 ∷ 7 ∷ 8 ∷ 9 ∷ 10 ∷ 11 ∷ 12 ∷ 13 ∷ 14 ∷ 15 ∷ 16 ∷ 17 ∷ 18 ∷ 19 ∷ 20
    ∷ 21 ∷ 22 ∷ 23 ∷ 24 ∷ 25 ∷ 26 ∷ 27 ∷ 28 ∷ 29 ∷ 30 ∷ 31 ∷ 255 ∷ []

abbrev voice : Data
voice = record {
  sequence = 5;
  source_id = 3_120_001;
  target_id = 91;
  repeater_id = 312_000_101;
  timeslot = 2;
  call_type = 1;
  frame_type = 2;
  data_type = 1;
  stream_id = 0xdead_beef;
  payload = silence;
  trailing = 0 ∷ 17 ∷ [];
}

abbrev wire : Bytes
wire =
    codes "DMRD"
    ++ 5 ∷ 0x2f ∷ 0x9b ∷ 0x81 ∷ 0 ∷ 0 ∷ 91 ∷ 0x12 ∷ 0x98 ∷ 0xbe ∷ 0x65 ∷ 0xe1 ∷ 0xde ∷ 0xad ∷ 0xbe
      ∷ 0xef ∷ silence
    ++ 0 ∷ 17 ∷ []

marshals : marshal voice ≡ wire
unfolding marshal
marshals = refl

parses : parse_data wire ≡ ok voice
unfolding parse_data
parses = refl

refuses_short : parse_data (codes "DMRD") ≡ err (short 4)
unfolding parse_data
refuses_short = refl

voice-IsWire : IsWire voice
voice-IsWire = record {
  source_fits = omega arith;
  target_fits = omega arith;
  repeater_fits = omega arith;
  stream_fits = omega arith;
  slot_is = inr refl;
  call_is = inr refl;
  frame_fits = omega arith;
  data_fits = omega arith;
  payload_size = refl;
  trailing_size = omega arith;
}

wire-bytes : All IsByte wire
wire-bytes = ground arith

abbrev close : Bytes
close = codes "RPTCL" ++ 0 ∷ 4 ∷ 194 ∷ 88 ∷ []

closes : dispatch close ≡ parsed_by repeater_close
unfolding dispatch qsp.Hbp.Message.first_case qsp.Hbp.Message.cases qsp.Hbp.Message.uncaptured_tags
    tag_of qsp.Hbp.Message.first_uncaptured
closes = refl

dispatch-longest_example :
    (has_tag close (tag_of repeater_close) ≡ true)
    × ((has_tag close (tag_of config) ≡ false)
        ⊎ (length (tag_of config) ≤ length (tag_of repeater_close)))
dispatch-longest_example = dispatch-longest close repeater_close config closes

abbrev other_kind : Bytes
other_kind = codes "RPTSX"

is_unknown : dispatch other_kind ≡ unknown_kind (codes "RPTS")
unfolding dispatch qsp.Hbp.Message.first_case qsp.Hbp.Message.cases qsp.Hbp.Message.uncaptured_tags
    tag_of qsp.Hbp.Message.first_uncaptured
is_unknown = refl

-- An identity whose body is its own JSON.
abbrev plain : Json Bytes
plain = record { blank = []; unmarshal = λ b. some b; marshal_json = λ b. b }

abbrev named : Config
named = record {
  repeater_id = 312001;
  callsign = codes "KD8EYF";
  rx_freq = codes "439000000";
  tx_freq = codes "430000000";
  tx_power = codes "01";
  color_code = codes "01";
  latitude = codes "41.1";
  longitude = codes "-81.5";
  height = codes "10";
  location = codes "Ohio";
  description = [];
  slots = codes "3";
  url = [];
  software_id = [];
  package_id = [];
}

named-IsWritten : IsWritten plain (Parse.config named)
unfolding qsp.Hbp.Config.trim_spaces
named-IsWritten = ground arith

parse-append_to_example :
    parse plain (append_to plain (Parse.config named)) ≡ ok (Parse.config named)
parse-append_to_example = parse-append_to plain (Parse.config named) named-IsWritten

abbrev asks : Bytes
asks = codes "RPTL" ++ 0 ∷ 4 ∷ 194 ∷ 193 ∷ []

reads_login : parse plain asks ≡ ok (Parse.login 312001)
unfolding parse dispatch qsp.Hbp.Message.first_uncaptured qsp.Hbp.Message.uncaptured_tags
    qsp.Hbp.Message.first_case qsp.Hbp.Message.cases tag_of Parse.run_parser
reads_login = refl

asks-bytes : All IsByte asks
asks-bytes = ground arith

append_to-parse_example :
    IsIdentity plain (Parse.login 312001) ⊎ (append_to plain (Parse.login 312001) ≡ asks)
append_to-parse_example = append_to-parse plain asks (Parse.login 312001) asks-bytes reads_login
