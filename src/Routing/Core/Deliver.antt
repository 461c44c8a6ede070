-- ===== src/Routing/Core/Deliver.antt =====
-- internal/routing/core.go, its fourth part: the loop over the targets of a frame.
use qsp.Prelude.{
  ℕ, Bool, true, false, not, ◌&&◌, ◌||◌, none, some, List, [], ◌∷◌, ◌==◌, if◌then◌else◌, concat,
}
use qsp.Prelude.Map.{lookup}
use qsp.Prelude.Text.{Text, text_eq, is_empty}
use qsp.Hbp.Data.{Data}
use qsp.Routing.Endpoint.{Endpoint, any_peer}
use qsp.Routing.Reservation.{Busy, Claim, started, refused, claim}
use qsp.Routing.Core.{Core, Network, talkgroup_allowed}
use qsp.Routing.Core.Outgoing.{
  Call, RouteTarget, Run, came_from_there, drop_frame, key_over, link_to_other_network,
  not_attached, plain_drop, slot_taken, talkgroup_refused, transcoder_taken, upstream_taken,
}

unfoldable is_started : Claim → Bool
is_started started = true
is_started _ = false

unfoldable pub contains_peer : List ℕ → ℕ → Bool
contains_peer [] peer = false
contains_peer (x ∷ xs) peer = x == peer || contains_peer xs peer

-- `out`, the copy that leaves, with the target's talkgroup and timeslot.
unfoldable pub retarget : Data → Endpoint → Data
retarget frame target = record frame { target_id = target.talkgroup; timeslot = target.timeslot }

module _ (c : Core) (net : Network) (call : Call) where
  unfoldable pub claim_for : Run → Endpoint → Busy × Claim
  claim_for r dest = claim c.timeout r.busy call.source call.frame call.bridge dest call.now

  unfoldable pub allowed_at : Endpoint → Bool
  allowed_at dest = talkgroup_allowed c.access call.frame dest.timeslot dest.talkgroup

  -- The tail of deliverUpstream, by the outcome of the claim.
  unfoldable pub send_upstream : Run → Endpoint → Busy × Claim → Run
  unfolding drop_frame key_over retarget
  send_upstream r target (busy, refused held) =
      drop_frame r (key_over target held call.source (upstream_taken held.source))
  send_upstream r target (busy, outcome) = record r {
    busy = busy;
    upstreams = concat r.upstreams (record {
      upstream = target.upstream;
      frame = retarget call.frame target;
      bridge = call.bridge;
    });
  }

  unfoldable pub deliver_upstream : Run → Endpoint → Run
  unfolding claim_for allowed_at send_upstream
  deliver_upstream r target =
      if not (allowed_at target)
      then drop_frame r (plain_drop target (talkgroup_refused target.talkgroup target.timeslot))
      else send_upstream r target (claim_for r target)

  unfoldable pub send_transcoder : Run → Endpoint → Busy × Claim → Run
  unfolding drop_frame key_over retarget is_started
  send_transcoder r target (busy, refused held) = drop_frame r (
      key_over target held call.source
        (transcoder_taken target.transcoder held.endpoint.talkgroup held.source))
  send_transcoder r target (busy, outcome) = record r {
    busy = busy;
    started_streams =
        if is_started outcome then concat r.started_streams target else r.started_streams;
    transcoders = concat r.transcoders (record {
      transcoder = target.transcoder;
      frame = retarget call.frame target;
      bridge = call.bridge;
    });
  }

  unfoldable pub deliver_transcoder : Run → Endpoint → Run
  unfolding claim_for allowed_at send_transcoder
  deliver_transcoder r target =
      if not (allowed_at target)
      then drop_frame r (plain_drop target (talkgroup_refused target.talkgroup target.timeslot))
      else send_transcoder r target (claim_for r target)

  -- The end of the loop over peers, by the outcome of the claim. A peer served before gets no
  -- second copy, although the claim stands.
  unfoldable pub send_peer : Run → Endpoint → Busy × Claim → Run
  unfolding drop_frame key_over retarget is_started contains_peer
  send_peer r dest (busy, refused held) =
      drop_frame r (key_over dest held call.source (slot_taken held.endpoint.talkgroup held.source))
  send_peer r dest (busy, outcome) =
      let claimed : Run = record r {
        busy = busy;
        started_streams =
            if is_started outcome then concat r.started_streams dest else r.started_streams;
      } in
      if contains_peer r.delivered dest.peer then claimed else record claimed {
        delivered = dest.peer ∷ r.delivered;
        deliveries = concat r.deliveries (record {
          peer = dest.peer;
          frame = record (retarget call.frame dest) { repeater_id = dest.peer };
          bridge = call.bridge;
        });
      }

  -- `target.repeat && frame.CallType != hbp.CallPrivate && c.attached != nil && !Attached(...)`.
  unfoldable pub is_detached : RouteTarget → Endpoint → Bool
  is_detached target dest = target.repeat && not (call.frame.call_type == 1) && elim net.attached [
    | none ↦ false
    | some attached ↦ not (attached dest.peer dest.talkgroup dest.timeslot)
  ]

  unfoldable pub deliver_peer : RouteTarget → Run → ℕ → Run
  unfolding claim_for allowed_at send_peer is_detached
  deliver_peer target r peer =
      let dest : Endpoint = record {
        peer = peer;
        upstream = [];
        transcoder = [];
        talkgroup = target.endpoint.talkgroup;
        timeslot = target.endpoint.timeslot;
      } in
      if target.repeat && peer == call.origin.peer
      then r
      else if contains_peer call.linked_peers peer
      then r
      else if not (allowed_at dest)
      then drop_frame r (plain_drop dest (talkgroup_refused dest.talkgroup dest.timeslot))
      else if is_detached target dest
      then drop_frame r (plain_drop dest (not_attached peer dest.talkgroup dest.timeslot))
      else send_peer r dest (claim_for r dest)

  unfoldable pub deliver_peers : RouteTarget → Run → List ℕ → Run
  deliver_peers target r [] = r
  deliver_peers target r (peer ∷ peers) = deliver_peers target (deliver_peer target r peer) peers

  unfoldable pub resolve : Endpoint → List ℕ
  resolve target =
      if not (target.peer == any_peer)
      then (if net.ready target.peer then target.peer ∷ [] else [])
      else net.ready_peers

  module _ (lower : Text → Text) (equal_fold : Text → Text → Bool) where
    -- The name is a link that speaks QSP.
    unfoldable pub is_qsp_link : Text → Bool
    is_qsp_link name = elim (lookup text_eq c.qsp_links (lower name)) [
      | none ↦ false
      | some link ↦ true
    ]

    -- A target on an upstream: never back to where the frame came from, and from one link only on
    -- to links that speak QSP.
    unfoldable pub forward_upstream : Run → Endpoint → Run
    unfolding is_qsp_link
    forward_upstream r target =
        let from_upstream = not (is_empty call.origin.upstream) in
        if from_upstream && equal_fold target.upstream call.origin.upstream
        then drop_frame r (record (plain_drop target (came_from_there call.origin.upstream)) {
          not_a_judgement = true;
        })
        else if from_upstream && not (is_qsp_link target.upstream)
        then drop_frame r (record (plain_drop target (link_to_other_network call.origin.upstream)) {
          not_a_judgement = true;
        })
        else deliver_upstream r target

    unfoldable pub deliver : Run → RouteTarget → Run
    unfolding deliver_peers resolve
    deliver r target =
        if not (is_empty target.endpoint.transcoder)
        then deliver_transcoder r target.endpoint
        else if not (is_empty target.endpoint.upstream)
        then forward_upstream r target.endpoint
        else deliver_peers target r (resolve target.endpoint)

    unfoldable pub deliver_all : Run → List RouteTarget → Run
    deliver_all r [] = r
    deliver_all r (target ∷ targets) = deliver_all (deliver r target) targets
