-- ===== src/Hbp/Control.antt =====
-- internal/protocol/hbp/control.go, documented.go, auth.go and alias.go: the messages of a tag and a
-- repeater ID, the acknowledgement, the digest and the talker alias.
pub mod Laws
use qsp.Prelude.{
  ℕ, ◌+◌, ◌-◌, ◌≡◌, Bool, List, [], ◌∷◌, ◌++◌, ltb, ◌==◌, ◌&&◌, true, false, if◌then◌else◌, length,
  take, drop,
}
use qsp.Prelude.Bytes.{Bytes, byte_at, u32, put_u32}
use qsp.Prelude.Text.{Text, codes, text_eq}
use qsp.Hbp.Data.{Result, ok, err, short, trailing_bytes}

abbrev pub digest_size : ℕ
digest_size = 32

abbrev key_size : ℕ
key_size = 40

abbrev ack_size : ℕ
ack_size = 10

abbrev talker_alias_min : ℕ
talker_alias_min = 8

abbrev talker_alias_max : ℕ
talker_alias_max = 64

infixl 5 ◌>>=◌
-- `if err != nil { return nil, err }`.
abbrev pub ◌>>=◌ {ℓ} : {S T : Type ℓ} → Result S → (S → Result T) → Result T
err why >>= rest = err why
ok x >>= rest = rest x

-- `exactLen`; the bytes are handed on.
unfoldable pub exact_len : Bytes → ℕ → Result Bytes
exact_len b want =
    if ltb (length b) want
    then err (short (length b))
    else if ltb want (length b)
    then err (trailing_bytes (length b))
    else ok b

-- `getID`, of the bytes from the ID on.
unfoldable pub get_id : Bytes → ℕ
get_id b = u32 (byte_at b 0) (byte_at b 1) (byte_at b 2) (byte_at b 3)

-- The method marshal of idMessage: a tag and the ID's four bytes, in front of the rest.
unfoldable pub id_message : Text → ℕ → Bytes → Bytes
id_message tag id rest = tag ++ put_u32 id rest

-- `parseIDMessage`.
unfoldable pub parse_id_message : Bytes → Text → ℕ → Result ℕ
unfolding exact_len get_id
parse_id_message b tag size = do b' ← exact_len b size; ok (get_id (drop (length tag) b'))

-- `parseAck`: the four bytes behind the tag, as they are.
unfoldable pub parse_ack : Bytes → Result Bytes
unfolding exact_len
parse_ack b = do b' ← exact_len b ack_size; ok (take 4 (drop 6 b'))

pub record Key : Type 0 where
  pub repeater_id : ℕ
  pub digest : Bytes

-- `parseKey`.
unfoldable pub parse_key : Bytes → Result Key
unfolding exact_len get_id
parse_key b = do
  b' ← exact_len b key_size
  ok (record { repeater_id = get_id (drop 4 b'); digest = take digest_size (drop 8 b') })

pub record TalkerAlias : Type 0 where
  pub repeater_id : ℕ
  pub rest : Bytes

-- `parseTalkerAlias`.
unfoldable pub parse_talker_alias : Bytes → Result TalkerAlias
unfolding get_id
parse_talker_alias b =
    if ltb (length b) talker_alias_min
    then err (short (length b))
    else if ltb talker_alias_max (length b)
    then err (trailing_bytes (length b))
    else ok (record { repeater_id = get_id (drop 4 b); rest = drop 8 b })

-- `Digest`, with the hash function of crypto/sha256 as an argument.
abbrev pub digest : (Bytes → Bytes) → Bytes → Bytes → Bytes
digest sha256 salt password = sha256 (salt ++ password)

-- `VerifyDigest`.
unfoldable pub verify_digest : (Bytes → Bytes) → Bytes → Bytes → Bytes → Bool
verify_digest sha256 salt password got = text_eq (digest sha256 salt password) got
