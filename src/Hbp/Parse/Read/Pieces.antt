-- ===== src/Hbp/Parse/Read/Pieces.antt =====
-- What each parser of a message has read, written back.
use qsp.Prelude.{
  length-drop, ℕ, ◌+◌, ◌≤◌, ◌≡◌, refl, ap, ◌∙◌, sym, true, [], ◌∷◌, ◌++◌, arith, All, All-drop,
  length, take, drop,
}
use qsp.Prelude.Bytes.{Bytes, IsByte, put_u32, take-append}
use qsp.Prelude.Text.{Text, codes}
use qsp.Hbp.Data.{ok}
use qsp.Hbp.Message.{has_tag}
use qsp.Hbp.Control.{
  Key, TalkerAlias, exact_len, get_id, id_message, parse_id_message, parse_ack, parse_key,
  parse_talker_alias,
}
use qsp.Hbp.Control.Laws.{>>=-ok, exact_len-ok, has_tag-append, put_u32-get_id, tagged-eq, take-eq}
use qsp.Hbp.Config.{
  Config, GatewayConfig, config_fields, config_widths, gateway_fields, gateway_widths, parse_config,
  parse_gateway_config, config_of, gateway_of, config_bytes, gateway_bytes, pad_fields, read_fields,
}
use qsp.Hbp.Config.Fields.{pad_fields-read_fields}

pub nil_of_length : (b : Bytes) → length b ≡ 0 → b ≡ []
nil_of_length [] h = refl
nil_of_length (x ∷ b) h = absurd (omega arith)

pub parse_id_message-ok :
    (b : Bytes) (tag : Text) (size id : ℕ)
    → parse_id_message b tag size ≡ ok id
    → (length b ≡ size) × (get_id (drop (length tag) b) ≡ id)
unfolding parse_id_message
parse_id_message-ok b tag size id p = ground arith

-- The packet of a tag and an ID, of the length of both.
pub id_message-parse :
    (b : Bytes) (tag : Text) (size id : ℕ)
    → length tag + 4 ≡ size
    → has_tag b tag ≡ true
    → All IsByte b
    → parse_id_message b tag size ≡ ok id
    → id_message tag id [] ≡ b
unfolding id_message
id_message-parse b tag size id e h x p =
    let (sized, given) = parse_id_message-ok b tag size id p in
    let rest = drop (length tag) b in
    let four : length rest ≡ 4 = omega (arith, length-drop {0} (length tag) b) in
    let nothing = nil_of_length (drop 4 rest) (omega (arith, length-drop {0} 4 rest)) in
    rw (← given) (
      ap (λ r. tag ++ r)
        (ap (put_u32 (get_id rest)) (sym nothing)
          ∙ put_u32-get_id rest (All-drop IsByte (length tag) b x) (omega arith))
      ∙ has_tag-append b tag h)

pub parse_ack-ok : (b p : Bytes) → parse_ack b ≡ ok p → (length b ≡ 10) × (take 4 (drop 6 b) ≡ p)
unfolding parse_ack
parse_ack-ok b p h = ground arith

pub parse_key-ok :
    (b : Bytes) (m : Key)
    → parse_key b ≡ ok m
    → (length b ≡ 40) × (get_id (drop 4 b) ≡ m.repeater_id) × (take 32 (drop 8 b) ≡ m.digest)
unfolding parse_key
parse_key-ok b m h = ground arith

pub parse_talker_alias-ok :
    (b : Bytes) (m : TalkerAlias)
    → parse_talker_alias b ≡ ok m
    → (8 ≤ length b) × (get_id (drop 4 b) ≡ m.repeater_id) × (drop 8 b ≡ m.rest)
unfolding parse_talker_alias
parse_talker_alias-ok b m h = ground arith

pub ok-injective : {A : Type 0} {a b : A} → ok a ≡ ok b → a ≡ b
ok-injective h = cc

pub parse_config-ok :
    (b : Bytes) (m : Config)
    → parse_config b ≡ ok m
    → (length b ≡ 302) × (config_of (get_id (drop 4 b)) (read_fields config_widths (drop 8 b)) ≡ m)
unfolding parse_config
parse_config-ok b m h =
    let (c, sized, given) =
      >>=-ok (exact_len b 302)
        (λ c. ok (config_of (get_id (drop 4 c)) (read_fields config_widths (drop 8 c)))) h in
    let (size, same) = exact_len-ok b c 302 sized in (size, rw same (ok-injective given))

pub parse_gateway_config-ok :
    (b : Bytes) (m : GatewayConfig)
    → parse_gateway_config b ≡ ok m
    → (length b ≡ 119)
      × (gateway_of (get_id (drop 4 b)) (read_fields gateway_widths (drop 8 b)) ≡ m)
unfolding parse_gateway_config
parse_gateway_config-ok b m h =
    let (c, sized, given) =
      >>=-ok (exact_len b 119)
        (λ c. ok (gateway_of (get_id (drop 4 c)) (read_fields gateway_widths (drop 8 c)))) h in
    let (size, same) = exact_len-ok b c 119 sized in (size, rw same (ok-injective given))

pub tagged-parse :
    (b : Bytes) (t : Text) (id : ℕ) (rest : Bytes)
    → length t ≡ 4
    → has_tag b t ≡ true
    → All IsByte b
    → 8 ≤ length b
    → get_id (drop 4 b) ≡ id
    → drop 8 b ≡ rest
    → id_message t id rest ≡ b
unfolding id_message
tagged-parse b t id rest four h x long e f = rw (← e, ← f) (tagged-eq b t four h x long)

pub config-parse :
    (b : Bytes) (m : Config)
    → has_tag b (codes "RPTC") ≡ true
    → All IsByte b
    → parse_config b ≡ ok m
    → config_bytes m ≡ b
unfolding config_bytes read_fields
config-parse b m h x p =
    let (size, same) = parse_config-ok b m p in
    tagged-parse b (codes "RPTC") m.repeater_id (pad_fields (config_fields m) config_widths) refl h
      x (omega arith) (ap (λ (c : Config). c.repeater_id) same)
      (sym (pad_fields-read_fields config_widths (drop 8 b) (omega (arith, length-drop {0} 8 b)))
        ∙ ap (λ (c : Config). pad_fields (config_fields c) config_widths) same)

pub gateway_config-parse :
    (b : Bytes) (m : GatewayConfig)
    → has_tag b (codes "DMRC") ≡ true
    → All IsByte b
    → parse_gateway_config b ≡ ok m
    → gateway_bytes m ≡ b
unfolding gateway_bytes read_fields
gateway_config-parse b m h x p =
    let (size, same) = parse_gateway_config-ok b m p in
    tagged-parse b (codes "DMRC") m.repeater_id (pad_fields (gateway_fields m) gateway_widths) refl
      h x (omega arith) (ap (λ (c : GatewayConfig). c.repeater_id) same)
      (sym (pad_fields-read_fields gateway_widths (drop 8 b) (omega (arith, length-drop {0} 8 b)))
        ∙ ap (λ (c : GatewayConfig). pad_fields (gateway_fields c) gateway_widths) same)

pub take_tag : (b : Bytes) (t : Text) → has_tag b t ≡ true → take (length t) b ≡ t
take_tag b t h = rw (← has_tag-append b t h) (take-append t (drop (length t) b))

pub key-parse :
    (b : Bytes) (m : Key)
    → has_tag b (codes "RPTK") ≡ true
    → All IsByte b
    → parse_key b ≡ ok m
    → id_message (codes "RPTK") m.repeater_id m.digest ≡ b
key-parse b m h x p =
    let (size, id, digest) = parse_key-ok b m p in
    tagged-parse b (codes "RPTK") m.repeater_id m.digest refl h x (omega arith) id
      (sym (take-eq 32 (drop 8 b) (omega (arith, length-drop {0} 8 b))) ∙ digest)

pub ack-parse :
    (b p : Bytes) → has_tag b (codes "RPTACK") ≡ true → parse_ack b ≡ ok p → codes "RPTACK" ++ p ≡ b
ack-parse b p h e =
    let (size, same) = parse_ack-ok b p e in
    rw (← same, take-eq 4 (drop 6 b) (omega (arith, length-drop {0} 6 b)))
      (has_tag-append b (codes "RPTACK") h)
