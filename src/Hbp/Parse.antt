-- ===== src/Hbp/Parse.antt =====
-- internal/protocol/hbp/message.go: Parse as a whole, with the encoding of every message. What
-- encoding/json makes of the body of an identity is an argument; so is its blank value.
pub mod Written
pub mod Read
use qsp.Prelude.{ℕ, ◌+◌, Bool, Option, none, some, [], ◌∷◌, ◌++◌, ltb, if◌then◌else◌, length, drop}
use qsp.Prelude.Bytes.{Bytes, put_u32}
use qsp.Prelude.Text.{Text, codes, is_empty}
use qsp.Hbp.Data
use qsp.Hbp.Data.{
  Data, Result, ok, err, short, not_captured, unknown_kind, field_format, parse_data,
}
use qsp.Hbp.Control.{
  ◌>>=◌, Key, TalkerAlias, exact_len, get_id, id_message, parse_id_message, parse_ack, parse_key,
  parse_talker_alias,
}
use qsp.Hbp.Config.{
  Config, GatewayConfig, config_bytes, gateway_bytes, parse_config, parse_gateway_config,
}
use qsp.Hbp.Message.{Parser, Dispatch, dispatch}

abbrev pub identity_max_payload : ℕ
identity_max_payload = 4096

-- The messages, each with what its type holds; `F` is what the body of an identity says.
pub data Message (F : Type 0) : Type 0 where
  ping pong repeater_pong master_ping nak : ℕ → Message F
  master_ack master_close repeater_close login : ℕ → Message F
  ack : Bytes → Message F
  key : Key → Message F
  config : Config → Message F
  identity : ℕ → F → Message F
  data_frame : Data → Message F
  talker_alias : TalkerAlias → Message F
  gateway_config : GatewayConfig → Message F
  gateway_pong : Message F

-- The JSON of an identity.
pub record Json (F : Type 0) : Type 0 where
  pub blank : F
  pub unmarshal : Bytes → Option F
  pub marshal_json : F → Bytes

module _ {F : Type 0} (json : Json F) where
  -- `parseIdentity`.
  unfoldable pub parse_identity : Bytes → Result (Message F)
  unfolding get_id
  parse_identity b =
      let body = drop 8 b in
      let id = get_id (drop 4 b) in
      if ltb (length b) 8
      then err (short (length b))
      else if ltb identity_max_payload (length body)
      then err field_format
      else if is_empty body
      then ok (identity id json.blank)
      else elim (json.unmarshal body) [ none ↦ err field_format | some f ↦ ok (identity id f) ]

  -- The parser of each case of the switch.
  unfoldable pub run_parser : Parser → Bytes → Result (Message F)
  unfolding parse_id_message parse_ack parse_key parse_config parse_identity parse_data
      parse_talker_alias parse_gateway_config exact_len
  run_parser Parser.ping b = do id ← parse_id_message b (codes "RPTPING") 11; ok (ping id)
  run_parser Parser.pong b = do id ← parse_id_message b (codes "MSTPONG") 11; ok (pong id)
  run_parser Parser.repeater_pong b = do
    id ← parse_id_message b (codes "RPTPONG") 11
    ok (repeater_pong id)
  run_parser Parser.master_ping b = do
    id ← parse_id_message b (codes "MSTPING") 11
    ok (master_ping id)
  run_parser Parser.nak b = do id ← parse_id_message b (codes "MSTNAK") 10; ok (nak id)
  run_parser Parser.master_ack b = do
    id ← parse_id_message b (codes "MSTACK") 10
    ok (master_ack id)
  run_parser Parser.master_close b = do
    id ← parse_id_message b (codes "MSTCL") 9
    ok (master_close id)
  run_parser Parser.repeater_close b = do
    id ← parse_id_message b (codes "RPTCL") 9
    ok (repeater_close id)
  run_parser Parser.ack b = do payload ← parse_ack b; ok (ack payload)
  run_parser Parser.login b = do id ← parse_id_message b (codes "RPTL") 8; ok (login id)
  run_parser Parser.key b = do m ← parse_key b; ok (key m)
  run_parser Parser.config b = do m ← parse_config b; ok (config m)
  run_parser Parser.identity b = parse_identity b
  run_parser Parser.data_frame b = do m ← parse_data b; ok (data_frame m)
  run_parser Parser.talker_alias b = do m ← parse_talker_alias b; ok (talker_alias m)
  run_parser Parser.gateway_config b = do m ← parse_gateway_config b; ok (gateway_config m)
  run_parser Parser.gateway_pong b = do b' ← exact_len b 4; ok gateway_pong

  -- `Parse`.
  unfoldable pub parse : Bytes → Result (Message F)
  parse b = elim (dispatch b) [
    | Dispatch.too_short n ↦ err (short n)
    | Dispatch.not_captured t ↦ err (not_captured t)
    | Dispatch.parsed_by p ↦ run_parser p b
    | Dispatch.unknown_kind seen ↦ err (unknown_kind seen)
  ]

  -- The method AppendTo of each message, to an empty buffer.
  unfoldable pub append_to : Message F → Bytes
  unfolding id_message config_bytes gateway_bytes Data.marshal
  append_to (ping id) = id_message (codes "RPTPING") id []
  append_to (pong id) = id_message (codes "MSTPONG") id []
  append_to (repeater_pong id) = id_message (codes "RPTPONG") id []
  append_to (master_ping id) = id_message (codes "MSTPING") id []
  append_to (nak id) = id_message (codes "MSTNAK") id []
  append_to (master_ack id) = id_message (codes "MSTACK") id []
  append_to (master_close id) = id_message (codes "MSTCL") id []
  append_to (repeater_close id) = id_message (codes "RPTCL") id []
  append_to (login id) = id_message (codes "RPTL") id []
  append_to (ack payload) = codes "RPTACK" ++ payload
  append_to (key m) = id_message (codes "RPTK") m.repeater_id m.digest
  append_to (config m) = config_bytes m
  append_to (identity id f) = id_message (codes "QSPI") id (json.marshal_json f)
  append_to (data_frame m) = Data.marshal m
  append_to (talker_alias m) = id_message (codes "DMRA") m.repeater_id m.rest
  append_to (gateway_config m) = gateway_bytes m
  append_to gateway_pong = codes "DMRP"
