-- ===== src/Routing/Table.antt =====
-- internal/routing/routing.go, its second part: bridges, the table built from them, and the routing
-- decision. A nil table is the table with no bridges, which the source treats alike; a reason and a
-- problem are values, and the message built from one is left out.
pub mod Collect
pub mod Route
pub mod Used
pub mod Explain
pub mod Build
use qsp.Prelude.{
  ℕ, suc, ◌+◌, Bool, true, false, not, ◌&&◌, ◌||◌, Option, none, some, List, [], ◌∷◌, ◌++◌, ltb,
  ◌==◌, if◌then◌else◌, length, concat, map,
}
use qsp.Prelude.Sort.{sort}
use qsp.Prelude.Text.{Text, text_eq, text_less, is_empty, trim_space}
use qsp.Routing.Endpoint.{
  Endpoint, endpoint_eq, matches, validate, EndpointError, Permission, permits, endpoint_before,
}

pub record Bridge : Type 0 where
  pub name : Text
  pub enabled : Bool
  pub endpoints : List Endpoint

pub data BridgeError : Type 0 where
  no_name : BridgeError
  too_few : Text → ℕ → BridgeError
  bad_endpoint : Text → ℕ → EndpointError → BridgeError
  listed_twice : Text → Endpoint → BridgeError

-- `seen[e]`, for a map whose keys are the endpoints of a list.
unfoldable pub contains : List Endpoint → Endpoint → Bool
contains [] e = false
contains (x ∷ xs) e = endpoint_eq e x || contains xs e

-- The loop of Validate on a bridge: `i` is the index of the next endpoint.
unfoldable pub validate_endpoints : Text → ℕ → List Endpoint → List Endpoint → Option BridgeError
validate_endpoints name i seen [] = none
validate_endpoints name i seen (e ∷ es) =
    let rest = validate_endpoints name (i + 1) (e ∷ seen) es in
    elim (validate e) [
      | some err ↦ some (bad_endpoint name i err)
      | none ↦ if contains seen e then some (listed_twice name e) else rest
    ]

-- The method Validate of a bridge.
unfoldable pub validate_bridge : Bridge → Option BridgeError
unfolding validate_endpoints
validate_bridge b =
    if is_empty (trim_space b.name)
    then some no_name
    else if ltb (length b.endpoints) 2
    then some (too_few b.name (length b.endpoints))
    else validate_endpoints b.name 0 [] b.endpoints

-- The map of permissions, keyed by transcoder.
abbrev pub Permissions : Type 0
Permissions = List (Text × Permission)

abbrev no_permission : Permission
no_permission = record { peers = []; all = false }

-- A name that is absent permits nothing.
unfoldable pub permission_for : Permissions → Text → Permission
permission_for [] name = no_permission
permission_for ((key, p) ∷ rest) name = if text_eq key name then p else permission_for rest name

pub record Table : Type 0 where
  pub bridges : List Bridge
  pub permissions : Permissions

pub data Problem : Type 0 where
  invalid_bridge : BridgeError → Problem
  same_name : Text → Problem

unfoldable pub contains_text : List Text → Text → Bool
contains_text [] t = false
contains_text (x ∷ xs) t = text_eq t x || contains_text xs t

-- The loop of NewTable. `strings.ToLower` maps `lower`, the case table of `unicode`, over a text.
unfoldable pub find_problems : (ℕ → ℕ) → List Text → List Bridge → List Problem
find_problems lower names [] = []
find_problems lower names (b ∷ bs) =
    let key = map lower (trim_space b.name) in
    let skipped = find_problems lower names bs in
    let kept = find_problems lower (key ∷ names) bs in
    elim (validate_bridge b) [
      | some err ↦ invalid_bridge err ∷ skipped
      | none ↦ if contains_text names key then same_name b.name ∷ skipped else kept
    ]

pub data Built : Type 0 where
  built : Table → Built
  refused : List Problem → Built

-- NewTable; the permissions are those of the option, and none without it.
unfoldable pub new_table : (ℕ → ℕ) → List Bridge → Permissions → Built
unfolding find_problems
new_table lower bridges permissions = elim (find_problems lower [] bridges) [
  | [] ↦ built (record { bridges = bridges; permissions = permissions })
  | p ∷ ps ↦ refused (p ∷ ps)
]

-- The method matches of a bridge.
unfoldable pub any_matches : List Endpoint → Endpoint → Bool
any_matches [] from = false
any_matches (e ∷ es) from = matches e from || any_matches es from

abbrev pub bridge_matches : Bridge → Endpoint → Bool
bridge_matches b from = any_matches b.endpoints from

-- What the loops of Route carry. The keys of `seen` are the targets, so one list stands for both.
pub record Scan : Type 0 where
  pub targets : List Endpoint
  pub used : List Text
  pub matched_any : Bool
  pub disabled : List Text

pub record Collected : Type 0 where
  pub carries : Bool
  pub found : List Endpoint

-- One turn of the loop over the endpoints of a bridge, and the loop.
unfoldable pub collect_one : Endpoint → Collected → Endpoint → Collected
collect_one from c e =
    if matches e from
    then c
    else record { carries = true; found = if contains c.found e then c.found else concat c.found e }

unfoldable pub collect : Endpoint → Collected → List Endpoint → Collected
unfolding collect_one
collect from c [] = c
collect from c (e ∷ es) = collect from (collect_one from c e) es

unfoldable pub visit : Endpoint → Scan → Bridge → Scan
visit from s b =
    let c = collect from (record { carries = false; found = s.targets }) b.endpoints in
    if not (bridge_matches b from)
    then s
    else if not b.enabled
    then record s { matched_any = true; disabled = concat s.disabled b.name }
    else record s {
      matched_any = true;
      targets = c.found;
      used = if c.carries then concat s.used b.name else s.used;
    }

unfoldable pub scan : Endpoint → Scan → List Bridge → Scan
scan from s [] = s
scan from s (b ∷ bs) = scan from (visit from s b) bs

-- A peer's endpoint that has not opted in to the transcoder's audio.
unfoldable pub is_withheld : Permission → Endpoint → Bool
is_withheld permitted e =
    is_empty e.transcoder && is_empty e.upstream && not (permits permitted e.peer)

-- The loop over the targets of a transcoded call.
unfoldable pub kept : Permission → List Endpoint → List Endpoint
kept permitted [] = []
kept permitted (e ∷ es) =
    let rest = kept permitted es in if is_withheld permitted e then rest else e ∷ rest

unfoldable pub withheld_of : Permission → List Endpoint → List Endpoint
withheld_of permitted [] = []
withheld_of permitted (e ∷ es) =
    let rest = withheld_of permitted es in if is_withheld permitted e then e ∷ rest else rest

pub data Reason : Type 0 where
  no_bridges : Reason
  not_permitted : Text → List Endpoint → Reason
  no_bridge_includes : Endpoint → Reason
  only_disabled : Endpoint → List Text → Reason
  only_source : Endpoint → Reason

pub record Decision : Type 0 where
  pub targets : List Endpoint
  pub bridges : List Text
  pub reason : Option Reason
  pub withheld : List Endpoint

-- The switch at the end of Route, reached with no target.
unfoldable pub explain : Endpoint → List Endpoint → Scan → Reason
explain from (e ∷ es) s = not_permitted from.transcoder (e ∷ es)
explain from [] s = if not s.matched_any then no_bridge_includes from else elim s.disabled [
  | [] ↦ only_source from
  | name ∷ names ↦ only_disabled from (sort text_less (name ∷ names))
]

unfoldable pub decide : Endpoint → Scan → List Endpoint → List Endpoint → Decision
unfolding explain
decide from s targets withheld = record {
  targets = sort endpoint_before targets;
  bridges = sort text_less s.used;
  reason = elim targets [
    | [] ↦ some (explain from (sort endpoint_before withheld) s)
    | e ∷ es ↦ none
  ];
  withheld = sort endpoint_before withheld;
}

abbrev pub start : Scan
start = record { targets = []; used = []; matched_any = false; disabled = [] }

-- The call came from a transcoder, so permissions apply.
abbrev pub is_transcoded : Endpoint → Bool
is_transcoded from = not (is_empty from.transcoder)

unfoldable pub route_bridges : Table → Endpoint → Decision
unfolding scan visit collect kept withheld_of decide permission_for
route_bridges t from =
    let s = scan from start t.bridges in
    let permitted = permission_for t.permissions from.transcoder in
    if is_transcoded from
    then decide from s (kept permitted s.targets) (withheld_of permitted s.targets)
    else decide from s s.targets []

-- The method Route.
unfoldable pub route : Table → Endpoint → Decision
unfolding route_bridges
route t from = elim t.bridges [
  | [] ↦ record { targets = []; bridges = []; reason = some no_bridges; withheld = [] }
  | b ∷ bs ↦ route_bridges t from
]

unfoldable count_enabled : List Bridge → ℕ
count_enabled [] = 0
count_enabled (b ∷ bs) = (if b.enabled then 1 else 0) + count_enabled bs

-- The method EnabledCount.
unfoldable enabled_count : Table → ℕ
unfolding count_enabled
enabled_count t = count_enabled t.bridges
