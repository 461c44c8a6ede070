-- ===== src/Hbp/Parse/Written.antt =====
-- What is written is read back: Parse of the encoding of a message.
use qsp.Prelude.{ℕ, ◌/◌, ◌^◌, ◌≤◌, ◌<◌, ◌≡◌, ◌≢◌, refl, ap, false, none, some, [], arith, length}
use qsp.Prelude.Bytes.{Bytes}
use qsp.Prelude.Text.{codes, is_empty}
use qsp.Hbp.Data.{Result, ok}
use qsp.Hbp.Data.RoundTrip.{IsWire, parse_data-marshal, marshal-length}
use qsp.Hbp.Message.{
  Parser, dispatch, has_tag, tag_of, first_uncaptured, uncaptured_tags, first_case, cases,
}
use qsp.Hbp.Message
use qsp.Hbp.Control.{◌>>=◌, exact_len, id_message, parse_ack, parse_key, parse_talker_alias}
use qsp.Hbp.Control.Laws.{get_id-put_u32, take-eq, exact_len_eq}
use qsp.Hbp.Config.{
  config_fields, config_widths, gateway_fields, gateway_widths, parse_config, parse_gateway_config,
  config_bytes, gateway_bytes,
}
use qsp.Hbp.Config.Fields.{AllFit, read_fields-pad_fields, length-pad_fields}
use qsp.Hbp.Config.{pad_fields, config_of, gateway_of}
use qsp.Hbp.Parse
use qsp.Hbp.Parse.{
  Json, identity_max_payload, parse_identity, run_parser, parse, append_to, ping, pong,
  repeater_pong, master_ping, nak, master_ack, master_close, repeater_close, login, ack, key,
  config, identity, data_frame, talker_alias, gateway_config, gateway_pong,
}

abbrev IsId : ℕ → Type 0
IsId id = id < 2 ^ 32

module _ {F : Type 0} (json : Json F) where
  -- What a message has to be for its encoding to hold it. The first byte of a configuration's ID may
  -- not make its tag that of a close, and JSON has to read back what it wrote of an identity.
  abbrev pub IsWritten : Parse.Message F → Type 0
  IsWritten (ping id) = IsId id
  IsWritten (pong id) = IsId id
  IsWritten (repeater_pong id) = IsId id
  IsWritten (master_ping id) = IsId id
  IsWritten (nak id) = IsId id
  IsWritten (master_ack id) = IsId id
  IsWritten (master_close id) = IsId id
  IsWritten (repeater_close id) = IsId id
  IsWritten (login id) = IsId id
  IsWritten (ack payload) = length payload ≡ 4
  IsWritten (key m) = IsId m.repeater_id × (length m.digest ≡ 32)
  IsWritten (config m) =
      IsId m.repeater_id
      × (m.repeater_id / 0x100_0000 ≢ b'L')
      × AllFit (config_fields m) config_widths
  IsWritten (identity id f) =
      IsId id
      × (length (json.marshal_json f) ≤ identity_max_payload)
      × (is_empty (json.marshal_json f) ≡ false)
      × (json.unmarshal (json.marshal_json f) ≡ some f)
  IsWritten (data_frame m) = IsWire m
  IsWritten (talker_alias m) = IsId m.repeater_id × (length m.rest ≤ 56)
  IsWritten (gateway_config m) = IsId m.repeater_id × AllFit (gateway_fields m) gateway_widths
  IsWritten gateway_pong = Unit

  dispatch-eq :
      (b : Bytes) (p : Parser)
      → 4 ≤ length b
      → first_uncaptured uncaptured_tags b ≡ none
      → first_case cases b ≡ some p
      → dispatch b ≡ Message.parsed_by p
  unfolding dispatch
  dispatch-eq b p long seen chosen = ground arith

  parse-eq :
      (b : Bytes) (p : Parser) (r : Result (Parse.Message F))
      → 4 ≤ length b
      → first_uncaptured uncaptured_tags b ≡ none
      → first_case cases b ≡ some p
      → run_parser json p b ≡ r
      → parse json b ≡ r
  unfolding parse
  parse-eq b p r long seen chosen h = rw (dispatch-eq b p long seen chosen, parse) h

  config_first_case :
      (id : ℕ) (rest : Bytes)
      → id < 2 ^ 32
      → id / 0x100_0000 ≢ b'L'
      → first_case cases (id_message (codes "RPTC") id rest) ≡ some Parser.config
  unfolding first_case cases tag_of has_tag id_message
  config_first_case id rest h n = ground arith

  run_key :
      (m : Parse.Key)
      → IsWritten (key m)
      → run_parser json Parser.key (append_to json (key m)) ≡ ok (key m)
  unfolding run_parser append_to parse_key
  run_key m h = ground (arith, get_id-put_u32 m.repeater_id m.digest, take-eq 32 m.digest)

  run_ack :
      (p : Bytes) → length p ≡ 4 → run_parser json Parser.ack (append_to json (ack p)) ≡ ok (ack p)
  unfolding run_parser append_to parse_ack
  run_ack p h = ground (arith, take-eq 4 p)

  run_alias :
      (m : Parse.TalkerAlias)
      → IsWritten (talker_alias m)
      → run_parser json Parser.talker_alias (append_to json (talker_alias m)) ≡ ok (talker_alias m)
  unfolding run_parser append_to parse_talker_alias
  run_alias m h = ground (arith, get_id-put_u32 m.repeater_id m.rest)

  run_identity :
      (id : ℕ) (f : F)
      → IsWritten (identity id f)
      → run_parser json Parser.identity (append_to json (identity id f)) ≡ ok (identity id f)
  unfolding run_parser append_to parse_identity
  run_identity id f h = ground (arith, get_id-put_u32 id (json.marshal_json f))

  run_config :
      (m : Parse.Config)
      → IsWritten (config m)
      → run_parser json Parser.config (append_to json (config m)) ≡ ok (config m)
  unfolding run_parser append_to parse_config config_bytes
  run_config m h =
      rw
        (
          exact_len_eq (config_bytes m) 302
              (omega (arith, length-pad_fields (config_fields m) config_widths h.2)),
          get_id-put_u32 m.repeater_id (pad_fields (config_fields m) config_widths) h.0,
        )
        (ap (λ fs. ok (config (config_of m.repeater_id fs)))
          (read_fields-pad_fields (config_fields m) config_widths h.2))

  run_gateway_config :
      (m : Parse.GatewayConfig)
      → IsWritten (gateway_config m)
      → run_parser json Parser.gateway_config (append_to json (gateway_config m))
        ≡ ok (gateway_config m)
  unfolding run_parser append_to parse_gateway_config gateway_bytes
  run_gateway_config m h =
      rw
        (
          exact_len_eq (gateway_bytes m) 119
              (omega (arith, length-pad_fields (gateway_fields m) gateway_widths h.1)),
          get_id-put_u32 m.repeater_id (pad_fields (gateway_fields m) gateway_widths) h.0,
        )
        (ap (λ fs. ok (gateway_config (gateway_of m.repeater_id fs)))
          (read_fields-pad_fields (gateway_fields m) gateway_widths h.1))

  -- A message whose fields fit the wire is parsed back from its encoding unchanged, whatever its
  -- kind; a configuration also if the first byte of its ID is not the letter L.
  pub parse-append_to : (m : Parse.Message F) → IsWritten m → parse json (append_to json m) ≡ ok m
  unfolding append_to first_uncaptured uncaptured_tags first_case cases tag_of has_tag run_parser
      exact_len
  parse-append_to (ping id) h =
      parse-eq _ Parser.ping _ (omega arith) refl refl
        (ap (λ i. ok (ping i)) (get_id-put_u32 id [] h))
  parse-append_to (pong id) h =
      parse-eq _ Parser.pong _ (omega arith) refl refl
        (ap (λ i. ok (pong i)) (get_id-put_u32 id [] h))
  parse-append_to (repeater_pong id) h =
      parse-eq _ Parser.repeater_pong _ (omega arith) refl refl
        (ap (λ i. ok (repeater_pong i)) (get_id-put_u32 id [] h))
  parse-append_to (master_ping id) h =
      parse-eq _ Parser.master_ping _ (omega arith) refl refl
        (ap (λ i. ok (master_ping i)) (get_id-put_u32 id [] h))
  parse-append_to (nak id) h =
      parse-eq _ Parser.nak _ (omega arith) refl refl
        (ap (λ i. ok (nak i)) (get_id-put_u32 id [] h))
  parse-append_to (master_ack id) h =
      parse-eq _ Parser.master_ack _ (omega arith) refl refl
        (ap (λ i. ok (master_ack i)) (get_id-put_u32 id [] h))
  parse-append_to (master_close id) h =
      parse-eq _ Parser.master_close _ (omega arith) refl refl
        (ap (λ i. ok (master_close i)) (get_id-put_u32 id [] h))
  parse-append_to (repeater_close id) h =
      parse-eq _ Parser.repeater_close _ (omega arith) refl refl
        (ap (λ i. ok (repeater_close i)) (get_id-put_u32 id [] h))
  parse-append_to (login id) h =
      parse-eq _ Parser.login _ (omega arith) refl refl
        (ap (λ i. ok (login i)) (get_id-put_u32 id [] h))
  parse-append_to (ack p) h = parse-eq _ Parser.ack _ (omega arith) refl refl (run_ack p h)
  parse-append_to (key m) h = parse-eq _ Parser.key _ (omega arith) refl refl (run_key m h)
  parse-append_to (config m) h =
      parse-eq _ Parser.config _ (omega arith) refl
        (config_first_case m.repeater_id (pad_fields (config_fields m) config_widths) h.0 h.1)
        (run_config m h)
  parse-append_to (identity id f) h =
      parse-eq _ Parser.identity _ (omega arith) refl refl (run_identity id f h)
  parse-append_to (data_frame m) h =
      parse-eq _ Parser.data_frame _ (omega (arith, marshal-length m)) refl refl
        (ap (λ r. r >>= λ d. ok (data_frame d)) (parse_data-marshal m h))
  parse-append_to (talker_alias m) h =
      parse-eq _ Parser.talker_alias _ (omega arith) refl refl (run_alias m h)
  parse-append_to (gateway_config m) h =
      parse-eq _ Parser.gateway_config _ (omega arith) refl refl (run_gateway_config m h)
  parse-append_to gateway_pong h = parse-eq _ Parser.gateway_pong _ (omega arith) refl refl refl
