-- ===== src/Routing/Core/Served.antt =====
-- routeScoped repeats a group call to a peer where nothing stands in the way.
use qsp.Prelude.{◌⊎◌, if◌then◌else◌, ℕ, ◌≡◌, ◌≢◌, Bool, true, false, List, [], ◌++◌, map, In}
use qsp.Prelude.Map.{lookup}
use qsp.Prelude.Text.{Text}
use qsp.Hbp.Data.{Data}
use qsp.Routing.Endpoint.{Endpoint, endpoint_eq, any_peer}
use qsp.Routing.Table.{Decision}
use qsp.Routing.Reservation.{contend}
use qsp.Routing.Core.{Core, Network, talkgroup_allowed}
use qsp.Routing.Core.Outgoing.{Delivery, RouteTarget}
use qsp.Routing.Core.Deliver.{retarget, contains_peer}
use qsp.Routing.Core.Find.{linked, only_peers, target_of, on_peer, group_targets, targets}
use qsp.Routing.Core.Scoped.{source_of}
use qsp.Routing.Core.Holds.{IsFree}
use qsp.Routing.Core.Loop.{peer_place}
use qsp.Routing.Core.Repeats.{hears}

-- A copy of the frame for the peer: on the frame's own talkgroup and timeslot, or on those of a
-- target that the table has for its source.
pub record IsServed (frame : Data) (decision : Decision) (peer : ℕ) (d : Delivery) : Type 0 where
  pub for_peer : d.peer ≡ peer
  pub aim : Endpoint
  pub copied : d.frame ≡ record (retarget frame aim) { repeater_id = peer }
  pub aimed :
      ((aim.talkgroup ≡ frame.target_id) × (aim.timeslot ≡ frame.timeslot))
      ⊎ In aim decision.targets

-- The peers that a frame is kept from because it is local.
abbrev kept_from : Network → Bool → List ℕ
kept_from net local = if local then linked net else []

module _ (lower : Text → Text) (equal_fold : Text → Text → Bool) (c : Core) (net : Network)
    (origin : Endpoint) (frame : Data) (now : ℕ) (local : Bool) (peer : ℕ) where
  abbrev here : Endpoint
  here = peer_place peer frame.target_id frame.timeslot

  abbrev repeat_target : RouteTarget
  repeat_target = target_of true (on_peer frame any_peer frame.timeslot)

  abbrev all_found : Decision → List RouteTarget
  all_found decision = map (target_of false) decision.targets ++ group_targets c frame

  -- Nothing stands in the way of the peer: it is logged in, is not the sender, hears the
  -- talkgroup, which is permitted, and is no linked server where the frame is local, and its
  -- timeslot is free, the transmission's own, or timed out.
  pub record IsClear : Type 0 where
    pub logged_in : In peer net.ready_peers
    pub not_sender : peer ≢ origin.peer
    pub not_server : contains_peer (kept_from net local) peer ≡ false
    pub attached : hears net peer frame.target_id frame.timeslot ≡ true
    pub permitted : talkgroup_allowed c.access frame frame.timeslot frame.target_id ≡ true
    pub free :
        IsFree c.timeout now (source_of origin frame) (lookup endpoint_eq c.busy (contend here))

  abbrev scoped : List RouteTarget → List RouteTarget
  scoped found = if local then only_peers found else found
