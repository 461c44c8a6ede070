-- ===== src/Routing/Core.antt =====
-- internal/routing/core.go, its second part: the state of the core, what it asks of others, the sweep
-- and the setters. The lock makes each method one step. Strings that only word a reason are values.
pub mod Outgoing
pub mod Deliver
pub mod Find
pub mod Scoped
pub mod Holds
pub mod Claiming
pub mod Loop
pub mod ByClaims
pub mod Spares
pub mod Sweep
pub mod Ran
pub mod Permitted
pub mod Once
pub mod Voice
pub mod FirstPath
pub mod Delivers
pub mod Repeats
pub mod Copies
pub mod Aims
pub mod Served
pub mod Tests
use qsp.Prelude.{
  ℕ, zero, suc, ◌+◌, Bool, true, false, not, ◌&&◌, ◌||◌, Option, none, some, List, [], ◌∷◌, leb,
  ltb, ◌==◌, if◌then◌else◌, length, map, concat,
}
use qsp.Prelude.Map.{lookup, put}
use qsp.Prelude.Sort.{sort}
use qsp.Prelude.Text.{Text, text_eq, text_less, is_empty, trim_space}
use qsp.Access.{Lists, talkgroups, allows}
use qsp.Hbp.Data.{Data, frame_type_voice, frame_type_voice_sync}
use qsp.Prelude.Int.{ℤ, pos, negsuc}
use qsp.Routing.Endpoint.{Endpoint, endpoint_eq, endpoint_before, Permission}
use qsp.Routing.Table.{Table, permission_for}
use qsp.Routing.Reservation.{
  Busy, Carrier, Carrying, Claim, Freed, Reservation, SourceKey, StreamKey, alongside, claim,
  contend, contends_for_slot, continued, duplicate, expire_carried, holds_any, lapsed_busy,
  live_busy, refresh, refused, release, reserve, same_origin, settle, source_eq, started, stream_eq,
  timed_out,
}

pub record Core : Type 0 where
  pub repeat : Bool
  pub access : Lists
  pub table : Table
  pub timeout : ℕ
  pub qsp_links : List (Text × Text)
  pub carrying : Carrying
  pub busy : Busy

-- What the core asks of others at a call: the peers that are logged in, where a radio was heard,
-- who is attached to a talkgroup, and which peers are linked servers. An absent one is `none`.
pub record Network : Type 0 where
  pub ready : ℕ → Bool
  pub ready_peers : List ℕ
  pub locate : Option (ℕ → Option (ℕ × ℕ))
  pub attached : Option (ℕ → ℕ → ℕ → Bool)
  pub linked_servers : Option (List ℕ)

unfoldable pub talkgroup_allowed : Lists → Data → ℕ → ℕ → Bool
talkgroup_allowed access frame slot talkgroup =
    if frame.call_type == 1 then true else allows (talkgroups access slot) talkgroup

-- The loop of linkSet and the list of the names; `lower` is `strings.ToLower`.
unfoldable link_set : (Text → Text) → List Text → List (Text × Text)
link_set lower names = go [] names
  where
    go : List (Text × Text) → List Text → List (Text × Text)
    go m [] = m
    go m (n ∷ ns) =
        let name = trim_space n in
        go (if is_empty (lower name) then m else put text_eq m (lower name) name) ns

unfoldable pub sorted_qsp_links : Core → List Text
sorted_qsp_links c = sort text_less (map (λ (l : Text × Text). l.1) c.qsp_links)

-- The method Expire.
unfoldable pub expire : Core → ℕ → Core × List Freed
unfolding lapsed_busy live_busy
expire c now = (
  record c { busy = live_busy c.timeout c.busy now },
  sort (λ a b. endpoint_before a.endpoint b.endpoint) (lapsed_busy c.timeout c.busy now),
)

-- The methods BusyCount and Busy.
abbrev busy_count : Core → ℕ
busy_count c = length c.busy

unfoldable busy_endpoints : Core → List Endpoint
busy_endpoints c = sort endpoint_before (map (λ (b : Endpoint × Reservation). b.1.endpoint) c.busy)

abbrev pub stream_timeout : ℕ
stream_timeout = 2_000_000_000

-- A timeout at or below zero is the default.
unfoldable timeout_or_default : ℤ → ℕ
timeout_or_default (negsuc n) = stream_timeout
timeout_or_default (pos zero) = stream_timeout
timeout_or_default (pos (suc n)) = suc n

-- NewCore, where a lookup of peers is given.
unfoldable new_core : (Text → Text) → Bool → Lists → Table → ℤ → List Text → Core
unfolding link_set timeout_or_default
new_core lower no_repeat access table timeout names = record {
  repeat = not no_repeat;
  access = access;
  table = table;
  timeout = timeout_or_default timeout;
  qsp_links = link_set lower names;
  carrying = [];
  busy = [];
}

-- The methods SetTable and SetAccess: what is carried and held goes on.
unfoldable set_table : Core → Table → Core
set_table c table = record c { table = table }

unfoldable set_access : Core → Lists → Core
set_access c access = record c { access = access }

-- The method TranscoderPermission.
unfoldable transcoder_permission : Core → Text → Permission
transcoder_permission c name = permission_for c.table.permissions name
