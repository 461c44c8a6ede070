-- ===== src/Hbp/Parse/Read.antt =====
-- What is read is written back: the encoding of a message that Parse accepted.
pub mod Pieces
use qsp.Prelude.{
  length-drop, ℕ, zero, suc, ◌+◌, ◌≤◌, ◌≡◌, ◌⊎◌, inl, inr, refl, ap, ◌∙◌, sym, Bool, true, false,
  Option, none, some, if◌then◌else◌, List, [], ◌∷◌, ◌++◌, arith, All, All-drop, length, take, drop,
}
use qsp.Prelude.Bytes.{Bytes, IsByte, put_u32, take-append}
use qsp.Prelude.Text.{Text, codes}
use qsp.Hbp.Data.{Result, Data, ok, parse_data}
use qsp.Hbp.Data.RoundTrip.{marshal-parse_data}
use qsp.Hbp.Message.{
  Parser, dispatch, has_tag, tag_of, Dispatch, parsed_by, too_short, not_captured, unknown_kind,
}
use qsp.Hbp.Message.Longest.{dispatch-longest}
use qsp.Hbp.Control.{
  ◌>>=◌, Key, TalkerAlias, exact_len, get_id, id_message, parse_id_message, parse_ack, parse_key,
  parse_talker_alias,
}
use mathlib.Core.Path.{subst}
use qsp.Hbp.Control.Laws.{>>=-ok, exact_len-ok, has_tag-append, put_u32-get_id, tagged-eq, take-eq}
use qsp.Hbp.Config.{
  Config, GatewayConfig, config_fields, config_widths, gateway_fields, gateway_widths, parse_config,
  parse_gateway_config, config_of, gateway_of, config_bytes, gateway_bytes, pad_fields, read_fields,
}
use qsp.Hbp.Config.Fields.{pad_fields-read_fields}
use qsp.Hbp.Parse
use qsp.Hbp.Parse.{
  Json, parse_identity, run_parser, parse, append_to, ping, pong, repeater_pong, master_ping, nak,
  master_ack, master_close, repeater_close, login, ack, key, config, identity, data_frame,
  talker_alias, gateway_config, gateway_pong,
}
use qsp.Hbp.Parse.Read.Pieces.{
  nil_of_length, parse_id_message-ok, id_message-parse, parse_ack-ok, parse_key-ok,
  parse_talker_alias-ok, ok-injective, parse_config-ok, parse_gateway_config-ok, tagged-parse,
  config-parse, gateway_config-parse, take_tag, key-parse, ack-parse,
}

module _ {F : Type 0} (json : Json F) where
  abbrev pub IsIdentity : Parse.Message F → Type 0
  IsIdentity (identity id f) = Unit
  IsIdentity _ = ⊥

  OnlyIdentity : Result (Parse.Message F) → Type 0
  OnlyIdentity (ok m) = IsIdentity m
  OnlyIdentity (Parse.err e) = Unit

  if-OnlyIdentity :
      (t : Bool) (x y : Result (Parse.Message F))
      → OnlyIdentity x
      → OnlyIdentity y
      → OnlyIdentity (if t then x else y)
  if-OnlyIdentity true x y h k = h
  if-OnlyIdentity false x y h k = k

  unmarshal-OnlyIdentity :
      (id : ℕ) (o : Option F)
      → OnlyIdentity (elim o [ none ↦ Parse.err Parse.field_format | some f ↦ ok (identity id f) ])
  unfolding OnlyIdentity
  unmarshal-OnlyIdentity id none = tt
  unmarshal-OnlyIdentity id (some f) = tt

  parse_identity-OnlyIdentity : (b : Bytes) → OnlyIdentity (parse_identity json b)
  unfolding parse_identity OnlyIdentity
  parse_identity-OnlyIdentity b =
      search (
        if-OnlyIdentity,
        unmarshal-OnlyIdentity (get_id (drop 4 b)) (json.unmarshal (drop 8 b)),
        tt,
      )

  was_such : (b : Bytes) (m : Parse.Message F) → parse_identity json b ≡ ok m → IsIdentity m
  unfolding OnlyIdentity
  was_such b m h = subst OnlyIdentity h (parse_identity-OnlyIdentity b)

  -- What one kind of message gives when its parser accepts it.
  wrap-parse :
      {A : Type 0} (r : Result A) (make : A → Parse.Message F) (b : Bytes) (m : Parse.Message F)
      → ((a : A) → r ≡ ok a → append_to json (make a) ≡ b)
      → (r >>= λ a. ok (make a)) ≡ ok m
      → IsIdentity m ⊎ (append_to json m ≡ b)
  wrap-parse (ok a) make b m f h = let same : make a ≡ m = cc in inr (rw (← same) (f a refl))
  wrap-parse (Parse.err e) make b m f h = cc

  run_parser-append_to :
      (p : Parser) (b : Bytes) (m : Parse.Message F)
      → has_tag b (tag_of p) ≡ true
      → All IsByte b
      → run_parser json p b ≡ ok m
      → IsIdentity m ⊎ (append_to json m ≡ b)
  unfolding run_parser tag_of append_to
  run_parser-append_to Parser.ping b m h x =
      wrap-parse (parse_id_message b (codes "RPTPING") 11) ping b m
        (λ id. id_message-parse b (codes "RPTPING") 11 id refl h x)
  run_parser-append_to Parser.pong b m h x =
      wrap-parse (parse_id_message b (codes "MSTPONG") 11) pong b m
        (λ id. id_message-parse b (codes "MSTPONG") 11 id refl h x)
  run_parser-append_to Parser.repeater_pong b m h x =
      wrap-parse (parse_id_message b (codes "RPTPONG") 11) repeater_pong b m
        (λ id. id_message-parse b (codes "RPTPONG") 11 id refl h x)
  run_parser-append_to Parser.master_ping b m h x =
      wrap-parse (parse_id_message b (codes "MSTPING") 11) master_ping b m
        (λ id. id_message-parse b (codes "MSTPING") 11 id refl h x)
  run_parser-append_to Parser.nak b m h x =
      wrap-parse (parse_id_message b (codes "MSTNAK") 10) nak b m
        (λ id. id_message-parse b (codes "MSTNAK") 10 id refl h x)
  run_parser-append_to Parser.master_ack b m h x =
      wrap-parse (parse_id_message b (codes "MSTACK") 10) master_ack b m
        (λ id. id_message-parse b (codes "MSTACK") 10 id refl h x)
  run_parser-append_to Parser.master_close b m h x =
      wrap-parse (parse_id_message b (codes "MSTCL") 9) master_close b m
        (λ id. id_message-parse b (codes "MSTCL") 9 id refl h x)
  run_parser-append_to Parser.repeater_close b m h x =
      wrap-parse (parse_id_message b (codes "RPTCL") 9) repeater_close b m
        (λ id. id_message-parse b (codes "RPTCL") 9 id refl h x)
  run_parser-append_to Parser.login b m h x =
      wrap-parse (parse_id_message b (codes "RPTL") 8) login b m
        (λ id. id_message-parse b (codes "RPTL") 8 id refl h x)
  run_parser-append_to Parser.ack b m h x = wrap-parse (parse_ack b) ack b m (λ p. ack-parse b p h)
  run_parser-append_to Parser.key b m h x =
      wrap-parse (parse_key b) key b m (λ k. key-parse b k h x)
  run_parser-append_to Parser.config b m h x =
      wrap-parse (parse_config b) config b m (λ c. config-parse b c h x)
  run_parser-append_to Parser.identity b m h x = λ p. inl (was_such b m p)
  run_parser-append_to Parser.data_frame b m h x =
      wrap-parse (parse_data b) data_frame b m
        (λ d. marshal-parse_data b d x (take_tag b (codes "DMRD") h))
  run_parser-append_to Parser.talker_alias b m h x =
      wrap-parse (parse_talker_alias b) talker_alias b m (λ a e.
        let (size, id, rest) = parse_talker_alias-ok b a e in
        tagged-parse b (codes "DMRA") a.repeater_id a.rest refl h x size id rest)
  run_parser-append_to Parser.gateway_config b m h x =
      wrap-parse (parse_gateway_config b) gateway_config b m (λ c. gateway_config-parse b c h x)
  run_parser-append_to Parser.gateway_pong b m h x =
      wrap-parse (exact_len b 4) (λ b'. gateway_pong) b m
        (λ c e.
          let (size, same) = exact_len-ok b c 4 e in
          ap (λ r. codes "DMRP" ++ r)
            (sym (nil_of_length (drop 4 b) (omega (arith, length-drop {0} 4 b))))
          ∙ has_tag-append b (codes "DMRP") h)

  parse-parsed_by :
      (d : Dispatch) (b : Bytes) (m : Parse.Message F)
      → dispatch b ≡ d
      → parse json b ≡ ok m
      → (p : Parser) × (dispatch b ≡ parsed_by p) × (run_parser json p b ≡ ok m)
  unfolding parse
  parse-parsed_by (parsed_by p) b m e h = (p, e, rw (e, parse) at h)
  parse-parsed_by (too_short n) b m e h = cc (rw (e, parse) at h)
  parse-parsed_by (not_captured t) b m e h = cc (rw (e, parse) at h)
  parse-parsed_by (unknown_kind t) b m e h = cc (rw (e, parse) at h)

  -- Encoding a message that was parsed gives the bytes it was parsed from, whatever its kind, an
  -- identity apart.
  pub append_to-parse :
      (b : Bytes) (m : Parse.Message F)
      → All IsByte b
      → parse json b ≡ ok m
      → IsIdentity m ⊎ (append_to json m ≡ b)
  append_to-parse b m x h =
      let (p, chosen, ran) = parse-parsed_by (dispatch b) b m refl h in
      run_parser-append_to p b m (dispatch-longest b p p chosen).0 x ran
