-- ===== src/Peers/Peer.antt =====
-- internal/peers/peer.go: a station that is logged in or logging in, and the challenges that are
-- kept for it while it is. Times are in nanoseconds.
pub mod Relogins
use qsp.Prelude.{
  ℕ, ◌-◌, ◌+◌, Bool, true, false, not, ◌&&◌, Option, none, some, List, [], ◌∷◌, ltb, leb, ◌==◌,
  if◌then◌else◌, length, drop, concat,
}
use qsp.Prelude.Bytes.{Bytes}
use qsp.Prelude.Text.{Text}
use qsp.Hbp.Config.{Config}

-- `netip.AddrPort`.
pub record AddrPort : Type 0 where
  pub ip : ℕ
  pub port : ℕ

abbrev pub addr_port_eq : AddrPort → AddrPort → Bool
addr_port_eq a b = a.ip == b.ip && a.port == b.port

pub data State : Type 0 where
  challenged authenticated configured : State

unfoldable pub can_pass_traffic : State → Bool
can_pass_traffic configured = true
can_pass_traffic _ = false

unfoldable pub is_challenged : State → Bool
is_challenged challenged = true
is_challenged _ = false

-- openCall of continuation.go; `is_open` is its field `open`.
pub record OpenCall : Type 0 where
  pub stream : ℕ
  pub source : ℕ
  pub target : ℕ
  pub call_type : ℕ
  pub last_seen : ℕ
  pub is_open : Bool
  pub adopted : ℕ
  pub adopting : Bool

pub record Relogin : Type 0 where
  pub addr : AddrPort
  pub salt : Bytes
  pub at : ℕ

pub record RefusedStreamId : Type 0 where
  pub source : ℕ
  pub stream : ℕ
  pub slot : ℕ

pub record RefusedStream : Type 0 where
  pub id : RefusedStreamId
  pub frames : ℕ

abbrev pub no_refused : RefusedStream
no_refused = record { id = record { source = 0; stream = 0; slot = 0 }; frames = 0 }

pub record Peer : Type 0 where
  pub id : ℕ
  pub addr : AddrPort
  pub state : State
  pub config : Option Config
  pub salt : Bytes
  pub first_seen : ℕ
  pub last_heard : ℕ
  pub configured_at : Option ℕ
  pub calls_1 : List OpenCall
  pub calls_2 : List OpenCall
  pub relogins : List Relogin
  pub received : ℕ
  pub sent : ℕ
  pub refused_count : ℕ
  pub last_traffic : Option ℕ
  pub refused : RefusedStream

-- The method Callsign.
unfoldable pub callsign : Peer → Text
callsign p = elim p.config [ none ↦ [] | some c ↦ c.callsign ]

-- The method Idle; a clock that went back gives 0, which exceeds no timeout either.
abbrev pub idle : Peer → ℕ → ℕ
idle p now = now - p.last_heard

-- The method clone.
unfoldable pub clone : Peer → Peer
clone p = record p { relogins = []; calls_1 = []; calls_2 = [] }

abbrev pub max_relogins : ℕ
max_relogins = 4

unfoldable pub kept_relogins : List Relogin → AddrPort → ℕ → ℕ → List Relogin
kept_relogins [] from now timeout = []
kept_relogins (r ∷ rs) from now timeout =
    let rest = kept_relogins rs from now timeout in
    if not (addr_port_eq r.addr from) && leb (now - r.at) timeout then r ∷ rest else rest

-- The method offerRelogin.
unfoldable pub offer_relogin : Peer → AddrPort → Bytes → ℕ → ℕ → Peer
offer_relogin p from salt now timeout =
    let kept = kept_relogins p.relogins from now timeout in
    let room = if leb max_relogins (length kept) then drop 1 kept else kept in
    record p { relogins = concat room (record { addr = from; salt = salt; at = now }) }

unfoldable pub find_relogin : List Relogin → AddrPort → Option Relogin
find_relogin [] from = none
find_relogin (r ∷ rs) from =
    let rest = find_relogin rs from in if addr_port_eq r.addr from then some r else rest

-- The method hasRelogin.
unfoldable pub has_relogin : Peer → AddrPort → Bool
has_relogin p from = elim (find_relogin p.relogins from) [ none ↦ false | some r ↦ true ]

-- The list without its first challenge to the address.
unfoldable pub without_relogin : List Relogin → AddrPort → List Relogin
without_relogin [] from = []
without_relogin (r ∷ rs) from =
    let rest = without_relogin rs from in if addr_port_eq r.addr from then rs else r ∷ rest

-- The method takeRelogin: the peer without the challenge, and the challenge if it is still current.
unfoldable pub take_relogin : Peer → AddrPort → ℕ → ℕ → Peer × Option Relogin
take_relogin p from now timeout = elim (find_relogin p.relogins from) [
  | none ↦ (p, none)
  | some r ↦ (
    record p { relogins = without_relogin p.relogins from },
    if leb (now - r.at) timeout then some r else none,
  )
]
