-- ===== src/Routing/Trigger.antt =====
-- internal/routing/trigger.go: bridges that a transmission opens for a hang time. Times and
-- durations are nanoseconds; the lock makes each method one step. A nil set is one with no
-- triggers.
pub mod Active
pub mod Observe
pub mod Expire
use qsp.Prelude.{
  ℕ, zero, suc, ◌+◌, ◌-◌, ◌*◌, Bool, true, false, not, ◌&&◌, ◌||◌, Option, none, some, List, [],
  ◌∷◌, ltb, leb, if◌then◌else◌, concat,
}
use qsp.Prelude.Int.{ℤ, pos, negsuc}
use qsp.Prelude.Map.{lookup, put}
use qsp.Prelude.Sort.{sort}
use qsp.Prelude.Text.{Text, text_eq, text_less, is_empty}
use qsp.Routing.Endpoint.{Endpoint, validate, EndpointError}
use qsp.Routing.Table.{any_matches, contains_text}
use qsp.Hbp.Data.{Data}

abbrev pub minute : ℕ
minute = 60_000_000_000

abbrev default_hang_time : ℕ
default_hang_time = 3 * minute

abbrev max_hang_time : ℕ
max_hang_time = 30 * minute

pub record Trigger : Type 0 where
  pub bridge : Text
  pub on : List Endpoint
  pub hang_time : ℤ
  pub enabled : Bool

pub data TriggerError : Type 0 where
  no_bridge : TriggerError
  no_endpoints : Text → TriggerError
  bad_endpoint : Text → ℕ → EndpointError → TriggerError
  negative_hang : Text → TriggerError
  hang_too_long : Text → ℕ → TriggerError

unfoldable validate_on : Text → ℕ → List Endpoint → Option TriggerError
validate_on bridge i [] = none
validate_on bridge i (e ∷ es) =
    let rest = validate_on bridge (suc i) es in
    elim (validate e) [ some err ↦ some (bad_endpoint bridge i err) | none ↦ rest ]

unfoldable validate_hang : Text → ℤ → Option TriggerError
validate_hang bridge (negsuc n) = some (negative_hang bridge)
validate_hang bridge (pos n) = if ltb max_hang_time n then some (hang_too_long bridge n) else none

-- The method Validate of a trigger.
unfoldable validate_trigger : Trigger → Option TriggerError
unfolding validate_on validate_hang
validate_trigger t = if is_empty t.bridge then some no_bridge else elim t.on [
  | [] ↦ some (no_endpoints t.bridge)
  | e ∷ es ↦ elim (validate_on t.bridge 0 (e ∷ es)) [
    | some err ↦ some err
    | none ↦ validate_hang t.bridge t.hang_time
  ]
]

-- The method hangTime.
unfoldable pub hang_of : ℤ → ℕ
hang_of (negsuc n) = default_hang_time
hang_of (pos zero) = default_hang_time
hang_of (pos (suc n)) = suc n

abbrev pub hang : Trigger → ℕ
hang t = hang_of t.hang_time

abbrev pub LastUsed : Type 0
LastUsed = List (Text × ℕ)

pub record Triggers : Type 0 where
  pub triggers : List Trigger
  pub last_used : LastUsed

-- NewTriggers stops at the first trigger that is invalid.
unfoldable first_invalid : List Trigger → Option TriggerError
first_invalid [] = none
first_invalid (t ∷ ts) =
    let rest = first_invalid ts in elim (validate_trigger t) [ some err ↦ some err | none ↦ rest ]

pub data Built : Type 0 where
  built : Triggers → Built
  refused : TriggerError → Built

unfoldable new_triggers : List Trigger → Built
unfolding first_invalid
new_triggers ts = elim (first_invalid ts) [
  | some err ↦ refused err
  | none ↦ built (record { triggers = ts; last_used = [] })
]

-- `now.Sub(last) > hang`.
abbrev pub lapsed : ℕ → ℕ → ℕ → Bool
lapsed last hang now = ltb (last + hang) now

pub record Observed : Type 0 where
  pub used : LastUsed
  pub opened : List Text

-- One turn of the loop of Observe.
unfoldable pub observe_one : Endpoint → ℕ → Observed → Trigger → Observed
observe_one from now s t =
    let closed : Bool = elim (lookup text_eq s.used t.bridge) [
      | none ↦ true
      | some last ↦ lapsed last (hang t) now
    ] in
    if not t.enabled || not (any_matches t.on from) then s else record {
      used = put text_eq s.used t.bridge now;
      opened = if closed then concat s.opened t.bridge else s.opened;
    }

unfoldable pub observe_all : Endpoint → ℕ → Observed → List Trigger → Observed
unfolding observe_one
observe_all from now s [] = s
observe_all from now s (t ∷ ts) = observe_all from now (observe_one from now s t) ts

-- The method Observe: the new state and the bridges that were opened.
unfoldable pub observe : Triggers → Endpoint → ℕ → Triggers × List Text
unfolding observe_all
observe t from now =
    let s = observe_all from now (record { used = t.last_used; opened = [] }) t.triggers in
    (record t { last_used = s.used }, sort text_less s.opened)

-- The trigger holds its bridge open.
unfoldable pub holds_open : LastUsed → ℕ → Trigger → Bool
holds_open used now t = t.enabled && elim (lookup text_eq used t.bridge) [
  | none ↦ false
  | some last ↦ not (lapsed last (hang t) now)
]

unfoldable pub active_bridges : LastUsed → ℕ → List Trigger → List Text
unfolding holds_open
active_bridges used now [] = []
active_bridges used now (t ∷ ts) =
    let rest = active_bridges used now ts in if holds_open used now t then t.bridge ∷ rest else rest

-- The method ActiveAt: the keys of the map that it returns.
unfoldable pub active_at : Triggers → ℕ → List Text
unfolding active_bridges
active_at t now = active_bridges t.last_used now t.triggers

-- The map of hang times that Expire builds.
unfoldable pub hang_times : LastUsed → List Trigger → LastUsed
hang_times m [] = m
hang_times m (t ∷ ts) = hang_times (put text_eq m t.bridge (hang t)) ts

-- `!known || now.Sub(last) > limit`.
unfoldable pub is_over : LastUsed → ℕ → Text → ℕ → Bool
is_over limits now bridge last = elim (lookup text_eq limits bridge) [
  | none ↦ true
  | some limit ↦ lapsed last limit now
]

unfoldable pub closed_bridges : LastUsed → ℕ → LastUsed → List Text
unfolding is_over
closed_bridges limits now [] = []
closed_bridges limits now ((bridge, last) ∷ m) =
    let rest = closed_bridges limits now m in
    if is_over limits now bridge last then bridge ∷ rest else rest

unfoldable pub still_used : LastUsed → ℕ → LastUsed → LastUsed
unfolding is_over
still_used limits now [] = []
still_used limits now ((bridge, last) ∷ m) =
    let rest = still_used limits now m in
    if is_over limits now bridge last then rest else (bridge, last) ∷ rest

-- The method Expire: the new state and the bridges that were closed.
unfoldable pub expire : Triggers → ℕ → Triggers × List Text
unfolding hang_times closed_bridges still_used
expire t now =
    let limits = hang_times [] t.triggers in
    (
      record t { last_used = still_used limits now t.last_used },
      sort text_less (closed_bridges limits now t.last_used),
    )

-- The loop of OpenFor; a remainder at or below zero lets it go on.
unfoldable open_for_any : LastUsed → Text → ℕ → List Trigger → ℕ
open_for_any used bridge now [] = 0
open_for_any used bridge now (t ∷ ts) =
    let rest = open_for_any used bridge now ts in
    if not (text_eq t.bridge bridge) || not t.enabled
    then rest
    else elim (lookup text_eq used bridge) [
      | none ↦ rest
      | some last ↦ if ltb now (last + hang t) then last + hang t - now else rest
    ]

-- The method OpenFor.
unfoldable open_for : Triggers → Text → ℕ → ℕ
unfolding open_for_any
open_for t bridge now = open_for_any t.last_used bridge now t.triggers

unfoldable distinct_bridges : List Text → List Trigger → List Text
distinct_bridges seen [] = []
distinct_bridges seen (t ∷ ts) =
    let again = distinct_bridges seen ts in
    let first = distinct_bridges (t.bridge ∷ seen) ts in
    if contains_text seen t.bridge then again else t.bridge ∷ first

-- The method Bridges.
unfoldable bridges_of : Triggers → List Text
unfolding distinct_bridges
bridges_of t = sort text_less (distinct_bridges [] t.triggers)

-- The source's EndpointOf.
unfoldable endpoint_of : ℕ → Data → Endpoint
endpoint_of peer frame = record {
  peer = peer;
  upstream = [];
  transcoder = [];
  talkgroup = frame.target_id;
  timeslot = frame.timeslot;
}
