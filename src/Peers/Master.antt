-- ===== src/Peers/Master.antt =====
-- internal/peers/master.go: the state of the master, and the steps that its handlers share. `F` is
-- what a server says about itself; a response is given as the message whose encoding is sent. Text
-- for the log is left out, and a discarded datagram's explanation is a case of `Dropped`.
pub mod Login
pub mod Session
pub mod Sweep
pub mod Handle
pub mod Steps
pub mod Refines
pub mod Counts
pub mod Settings
pub mod Runs
pub mod Proven
pub mod Station
pub mod Frames
pub mod Joins
pub mod Answers
pub mod Newcomer
pub mod Datagrams
mod Tests
use qsp.Prelude.{
  ℕ, ◌+◌, ◌-◌, ◌*◌, Bool, true, false, not, ◌&&◌, ◌||◌, Option, none, some, List, [], ◌∷◌, ltb, leb,
  ◌==◌, if◌then◌else◌, length, drop,
}
use qsp.Prelude.Bytes.{Bytes}
use qsp.Prelude.Map.{lookup, put, delete}
use qsp.Access.{AccessList}
use qsp.Hbp.Config.{Config}
use qsp.Hbp.Data.{Data}
use qsp.Hbp.Parse.{Message, nak}
use qsp.Peers.Attempts.{Throttle, FailureReason, new_throttle}
use qsp.Peers.Throttle.{fail}
use qsp.Peers.Peer.{AddrPort, Peer, State, is_challenged, clone}
use qsp.Peers.Subscribers.{Locations, id_eq}
use qsp.Peers.Attachments.{Attachments, Subscription}

abbrev pub max_half_open : ℕ
max_half_open = 4096

abbrev pub unregistered_frame_interval : ℕ
unregistered_frame_interval = 5 * 1_000_000_000

abbrev pub max_unregistered_tracked : ℕ
max_unregistered_tracked = 256

-- MasterConfig, its defaults filled in. The clock and the generator of salts are arguments of the
-- handlers, and a function that is nil is `none`.
pub record MasterConfig (F : Type 0) : Type 0 where
  pub password : ℕ → Option Bytes
  pub peer_timeout : ℕ
  pub login_timeout : ℕ
  pub max_peers : ℕ
  pub subscriber_timeout : ℕ
  pub subscription : Subscription
  pub registration : AccessList
  pub subscriber : AccessList
  pub identity : Option F
  pub is_qsp_link : Option (Config → Bool)
  pub own_password : Option (ℕ → Bool)

pub data EventKind : Type 0 where
  connected disconnected rebound : EventKind

pub data Reason : Type 0 where
  no_reason not_permitted closed : Reason
  silent login_not_completed : Reason

pub record Event : Type 0 where
  pub kind : EventKind
  pub peer : Peer
  pub reason : Reason

pub record HalfOpenLogin : Type 0 where
  pub id : ℕ
  pub began : ℕ

abbrev pub Registry : Type 0
Registry = List (ℕ × Peer)

-- `waiting` is an int in the source; that it never falls below 0 is part of the invariant.
pub record Master (F : Type 0) : Type 0 where
  pub cfg : MasterConfig F
  pub peers : Registry
  pub waiting : ℕ
  pub half_open : List HalfOpenLogin
  pub subscribers : Locations
  pub attachments : Attachments
  pub logins : Throttle
  pub claimed_ids : List (ℕ × ℕ)
  pub evicted : List Event
  pub answered_unregistered : List (ℕ × ℕ)

pub data Dropped : Type 0 where
  unparseable not_for_a_master too_many_failures id_zero id_reserved : Dropped
  not_registrable no_password peer_limit no_challenge not_logged_in : Dropped
  wrong_source bad_password no_login_here wrong_state unregistered : Dropped
  closed_early : Dropped
  subscriber_refused : ℕ → Dropped

pub record Response (F : Type 0) : Type 0 where
  pub to : AddrPort
  pub payload : Message F

pub record Outcome (F : Type 0) : Type 0 where
  pub responses : List (Response F)
  pub events : List Event
  pub frame : Option Data
  pub from : ℕ
  pub why : Option Dropped

-- `p, ok := m.peers[h.id]; ok && p.State == StateChallenged && p.FirstSeen.Equal(h.began)`.
unfoldable pub still_waiting : Registry → HalfOpenLogin → Bool
still_waiting peers h = elim (lookup id_eq peers h.id) [
  | none ↦ false
  | some p ↦ is_challenged p.state && p.first_seen == h.began
]

unfoldable tidied : Registry → List HalfOpenLogin → List HalfOpenLogin
tidied peers [] = []
tidied peers (h ∷ hs) =
    let rest = tidied peers hs in if still_waiting peers h then h ∷ rest else rest

module _ {F : Type 0} where
  abbrev pub nothing : Outcome F
  nothing = record { responses = []; events = []; frame = none; from = 0; why = none }

  -- `dropped`.
  abbrev pub dropped : Dropped → Outcome F
  dropped why = record { responses = []; events = []; frame = none; from = 0; why = some why }

  abbrev pub respond : AddrPort → Message F → Outcome F
  respond to m = record {
    responses = record { to = to; payload = m } ∷ [];
    events = [];
    frame = none;
    from = 0;
    why = none;
  }

  -- The method reject.
  abbrev pub reject : ℕ → AddrPort → Dropped → Outcome F
  reject id to why = record {
    responses = record { to = to; payload = nak id } ∷ [];
    events = [];
    frame = none;
    from = 0;
    why = some why;
  }

  abbrev pub find : Master F → ℕ → Option Peer
  find m id = lookup id_eq m.peers id

  -- `m.peers[id] = p`, or a change of the peer that the entry points to.
  abbrev pub store : Master F → ℕ → Peer → Master F
  store m id p = record m { peers = put id_eq m.peers id p }

  -- The method stations.
  abbrev pub stations : Master F → ℕ
  stations m = length m.peers - m.waiting

  -- The method forget.
  unfoldable pub forget : Master F → ℕ → Master F
  forget m id = elim (find m id) [
    | none ↦ m
    | some p ↦ record m {
      waiting = if is_challenged p.state then m.waiting - 1 else m.waiting;
      peers = delete id_eq m.peers id;
    }
  ]

  -- The method tidyHalfOpen.
  unfoldable pub tidy_half_open : Master F → Master F
  unfolding tidied
  tidy_half_open m = record m { half_open = tidied m.peers m.half_open }

  -- The method abandon, of the peer that is registered under the ID.
  unfoldable pub abandon : Master F → ℕ → Peer → Master F
  abandon m id p = elim p.relogins [
    | [] ↦ forget m id
    | r ∷ rest ↦
        store m id (record p { relogins = rest; addr = r.addr; salt = r.salt; last_heard = r.at })
  ]

  -- The loop of evictHalfOpen, over the list of the logins.
  unfoldable pub evict_from : List HalfOpenLogin → Master F → Master F × Bool
  evict_from [] m = (record m { half_open = [] }, false)
  evict_from (h ∷ hs) m =
      let rest = evict_from hs m in
      if still_waiting m.peers h then (record (forget m h.id) { half_open = hs }, true) else rest

  -- The method evictHalfOpen.
  unfoldable pub evict_half_open : Master F → Master F × Bool
  unfolding evict_from
  evict_half_open m = evict_from m.half_open m

  -- The method noteFailure of throttle.go.
  unfoldable pub note_failure : Master F → ℕ → AddrPort → FailureReason → ℕ → Master F
  note_failure m id from reason now = record m {
    claimed_ids = put id_eq m.claimed_ids from.ip id;
    logins = (fail m.logins from.ip reason now).throttle;
  }
