-- ===== src/Routing/Core/Scoped.antt =====
-- internal/routing/core.go, its last part: routeScoped, from the targets to the result.
use qsp.Prelude.{ℕ, Bool, true, false, not, ◌&&◌, ◌||◌, none, some, List, [], ◌∷◌, if◌then◌else◌}
use qsp.Prelude.Map.{lookup, put}
use qsp.Prelude.Text.{Text}
use qsp.Hbp.Data.{Data, is_terminator}
use qsp.Routing.Endpoint.{Endpoint, endpoint_eq, server_origin}
use qsp.Routing.Table.{Decision, route}
use qsp.Routing.Reservation.{
  SourceKey, source_eq, Busy, contend, timed_out, reserve, refresh, holds_any, release, duplicate,
}
use qsp.Routing.Core.{Core, Network, talkgroup_allowed}
use qsp.Routing.Core.Outgoing.{RouteTarget, not_opted_in, Drop, plain_drop, Call, Run}
use qsp.Routing.Core.Deliver.{deliver_all}
use qsp.Routing.Core.Find.{
  Result, all_refused, already_carried, by_table, find_targets, linked, nothing_configured,
  nothing_to_deliver_to, only_peers, silent, stop, talkgroup_not_permitted, targets,
  unlocated_result,
}

unfoldable pub source_of : Endpoint → Data → SourceKey
source_of origin frame = record {
  peer = origin.peer;
  stream = frame.stream_id;
  slot = frame.timeslot;
  upstream = origin.upstream;
  transcoder = origin.transcoder;
}

-- The reservation of the timeslot that the transmission itself arrives on.
unfoldable pub reserve_origin : ℕ → Busy → SourceKey → Data → Text → Endpoint → ℕ → Busy
unfolding reserve refresh contend timed_out
reserve_origin timeout busy src frame bridge origin now =
    let taken = put endpoint_eq busy (contend origin) (reserve src frame bridge origin now) in
    elim (lookup endpoint_eq busy (contend origin)) [
      | none ↦ if not (holds_any busy src) then taken else busy
      | some held ↦
          if not (holds_any busy src)
          then (if timed_out timeout held.last_seen now then taken else busy)
          else if source_eq held.source src
          then put endpoint_eq busy (contend origin) (refresh held frame now)
          else busy
    ]

unfoldable pub withheld_drops : Text → List Endpoint → List Drop
withheld_drops transcoder [] = []
withheld_drops transcoder (e ∷ es) =
    record (plain_drop e (not_opted_in e.peer transcoder)) { not_a_collision = true }
    ∷ withheld_drops transcoder es

unfoldable any_judged : List Drop → Bool
any_judged [] = false
any_judged (d ∷ ds) = not d.not_a_judgement || any_judged ds

unfoldable nothing_sent : Run → Bool
nothing_sent r = elim r.deliveries [
  | d ∷ ds ↦ false
  | [] ↦ elim r.upstreams [
    | u ∷ us ↦ false
    | [] ↦ elim r.transcoders [ t ∷ ts ↦ false | [] ↦ true ]
  ]
]

-- The end of routeScoped: the result, with a reason where nothing was sent.
unfoldable pub finish : Data → Bool → Run → Result
unfolding unlocated_result any_judged nothing_sent
finish frame unlocated r =
    let res : Result = record {
      deliveries = r.deliveries;
      upstreams = r.upstreams;
      transcoders = r.transcoders;
      drops = r.drops;
      started_streams = r.started_streams;
      reason = none;
      no_homebrew_destination = false;
    } in
    if not (nothing_sent r)
    then res
    else if unlocated
    then unlocated_result frame res
    else if any_judged r.drops
    then record res { reason = some all_refused }
    else record res { reason = some nothing_to_deliver_to; no_homebrew_destination = true }

abbrev pub first_bridge : List Text → Text
first_bridge [] = []
first_bridge (b ∷ bs) = b

abbrev pub begin : Busy → List Drop → Run
begin busy drops = record {
  busy = busy;
  deliveries = [];
  upstreams = [];
  transcoders = [];
  drops = drops;
  started_streams = [];
  delivered = [];
}

abbrev pub call_of : Network → Endpoint → Data → Decision → Bool → ℕ → Call
call_of net origin frame decision local now = record {
  origin = origin;
  frame = frame;
  source = source_of origin frame;
  bridge = first_bridge decision.bridges;
  now = now;
  linked_peers = if local then linked net else [];
}

module _ (lower : Text → Text) (equal_fold : Text → Text → Bool) where
  -- The part of routeScoped behind the check for duplicates.
  unfoldable pub carry :
      Core
      → Network
      → Endpoint
      → Data
      → Decision
      → List RouteTarget
      → Bool
      → Bool
      → ℕ
      → Core × Result
  unfolding reserve_origin withheld_drops finish release
  carry c net origin frame decision found unlocated local now =
      let src = source_of origin frame in
      let call = call_of net origin frame decision local now in
      let r =
        deliver_all c net call lower equal_fold
          (begin (reserve_origin c.timeout c.busy src frame call.bridge origin now)
            (withheld_drops origin.transcoder decision.withheld))
          found in
      let ended = is_terminator frame && holds_any c.busy src in
      (record c { busy = if ended then release r.busy src else r.busy }, finish frame unlocated r)

  unfoldable pub carry_new :
      Core
      → Network
      → Endpoint
      → Data
      → Decision
      → List RouteTarget
      → Bool
      → Bool
      → ℕ
      → Core × Result
  unfolding carry duplicate
  carry_new c net origin frame decision found unlocated local now =
      let seen = duplicate c.timeout c.carrying frame (source_of origin frame) now in
      elim seen.1 [
        | some holder ↦ (record c { carrying = seen.0 }, silent (already_carried holder))
        | none ↦
            carry (record c { carrying = seen.0 }) net origin frame decision found unlocated local
              now
      ]

  -- No target is left.
  unfoldable pub no_target : Decision → Result
  no_target decision = elim decision.reason [
    | some reason ↦ silent (by_table reason)
    | none ↦ silent nothing_configured
  ]

  unfoldable pub route_scoped : Core → Network → Endpoint → Data → ℕ → Bool → Core × Result
  unfolding find_targets only_peers source_of carry_new no_target
  route_scoped c net origin frame now local =
      let decision = route c.table origin in
      if not (talkgroup_allowed c.access frame origin.timeslot origin.talkgroup)
      then (c, silent (talkgroup_not_permitted origin.talkgroup origin.timeslot))
      else elim (find_targets c net origin frame decision) [
        | stop result ↦ (c, result)
        | targets found unlocated ↦ elim (if local then only_peers found else found) [
          | [] ↦ (c, no_target decision)
          | t ∷ ts ↦ carry_new c net origin frame decision (t ∷ ts) unlocated local now
        ]
      ]

  -- The methods Route, RouteFromUpstream, RouteFromTranscoder, RouteFromServer and
  -- RouteLocalFromServer.
  abbrev pub arrival : ℕ → Text → Text → Data → Endpoint
  arrival peer upstream transcoder frame = record {
    peer = peer;
    upstream = upstream;
    transcoder = transcoder;
    talkgroup = frame.target_id;
    timeslot = frame.timeslot;
  }

  unfoldable pub route_frame : Core → Network → ℕ → Data → ℕ → Core × Result
  route_frame c net from frame now = route_scoped c net (arrival from [] [] frame) frame now false

  unfoldable pub route_from_upstream : Core → Network → Text → Data → ℕ → Core × Result
  route_from_upstream c net name frame now =
      route_scoped c net (arrival 0 name [] frame) frame now false

  unfoldable pub route_from_transcoder : Core → Network → Text → Data → ℕ → Core × Result
  route_from_transcoder c net name frame now =
      route_scoped c net (arrival 0 [] name frame) frame now false

  unfoldable pub route_from_server : Core → Network → Data → ℕ → Core × Result
  route_from_server c net frame now =
      route_scoped c net (arrival server_origin [] [] frame) frame now false

  unfoldable pub route_local_from_server : Core → Network → Data → ℕ → Core × Result
  route_local_from_server c net frame now =
      route_scoped c net (arrival server_origin [] [] frame) frame now true
