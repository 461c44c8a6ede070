-- ===== src/Hbp/Message.antt =====
-- internal/protocol/hbp/message.go: which parser a packet goes to. The parsers of the other files
-- are named and not modelled here; the frame's is Data.
pub mod Longest
use qsp.Prelude.{
  ℕ, Bool, true, false, ◌&&◌, Option, none, some, List, [], ◌∷◌, ltb, ◌==◌, if◌then◌else◌, length,
  take,
}
use qsp.Prelude.Bytes.{Bytes}
use qsp.Prelude.Text.{Text, codes}

pub data Parser : Type 0 where
  ping pong repeater_pong master_ping nak master_ack : Parser
  master_close repeater_close ack login key config : Parser
  identity data_frame talker_alias gateway_config gateway_pong : Parser

unfoldable pub tag_of : Parser → Text
tag_of ping = codes "RPTPING"
tag_of pong = codes "MSTPONG"
tag_of repeater_pong = codes "RPTPONG"
tag_of master_ping = codes "MSTPING"
tag_of nak = codes "MSTNAK"
tag_of master_ack = codes "MSTACK"
tag_of master_close = codes "MSTCL"
tag_of repeater_close = codes "RPTCL"
tag_of ack = codes "RPTACK"
tag_of login = codes "RPTL"
tag_of key = codes "RPTK"
tag_of config = codes "RPTC"
tag_of identity = codes "QSPI"
tag_of data_frame = codes "DMRD"
tag_of talker_alias = codes "DMRA"
tag_of gateway_config = codes "DMRC"
tag_of gateway_pong = codes "DMRP"

unfoldable pub has_tag : Bytes → Text → Bool
has_tag b [] = true
has_tag [] (t ∷ ts) = false
has_tag (x ∷ b) (t ∷ ts) = x == t && has_tag b ts

unfoldable pub uncaptured_tags : List Text
uncaptured_tags = codes "RPTO" ∷ codes "RPTSBKN" ∷ []

-- The cases of the switch, in its order.
unfoldable pub cases : List Parser
cases =
    ping ∷ pong ∷ repeater_pong ∷ master_ping ∷ nak ∷ master_ack ∷ master_close ∷ repeater_close
    ∷ ack ∷ login ∷ key ∷ config ∷ identity ∷ data_frame ∷ talker_alias ∷ gateway_config
    ∷ gateway_pong ∷ []

pub data Dispatch : Type 0 where
  too_short : ℕ → Dispatch
  not_captured : Text → Dispatch
  parsed_by : Parser → Dispatch
  unknown_kind : Bytes → Dispatch

unfoldable pub first_uncaptured : List Text → Bytes → Option Text
unfolding has_tag
first_uncaptured [] b = none
first_uncaptured (t ∷ ts) b =
    let rest = first_uncaptured ts b in if has_tag b t then some t else rest

unfoldable pub first_case : List Parser → Bytes → Option Parser
first_case [] b = none
first_case (p ∷ ps) b = let rest = first_case ps b in if has_tag b (tag_of p) then some p else rest

-- The source's Parse, up to the call of the parser that it selects.
unfoldable pub dispatch : Bytes → Dispatch
dispatch b =
    if ltb (length b) 4 then too_short (length b) else elim (first_uncaptured uncaptured_tags b) [
      | some t ↦ not_captured t
      | none ↦ elim (first_case cases b) [ some p ↦ parsed_by p | none ↦ unknown_kind (take 4 b) ]
    ]
