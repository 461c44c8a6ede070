-- ===== src/Routing/Core/Find.antt =====
-- internal/routing/core.go, its fifth part: the result of a call, and the targets that it has besides
-- those of the table.
use qsp.Prelude.{
  ℕ, Bool, true, false, ◌&&◌, Option, none, some, List, [], ◌∷◌, ◌++◌, ◌==◌, if◌then◌else◌, map,
  concat,
}
use qsp.Prelude.Text.{Text, is_empty}
use qsp.Hbp.Data.{Data}
use qsp.Routing.Endpoint.{Endpoint, any_peer}
use qsp.Routing.Table.{Decision, Reason}
use qsp.Routing.Reservation.{SourceKey}
use qsp.Routing.Core.{Core, Network, sorted_qsp_links}
use qsp.Routing.Core.Outgoing.{Delivery, UpstreamDelivery, TranscoderDelivery, RouteTarget, Drop}

pub data ResultReason : Type 0 where
  talkgroup_not_permitted : ℕ → ℕ → ResultReason
  private_not_routed : ResultReason
  not_heard : ℕ → ResultReason
  by_table : Reason → ResultReason
  nothing_configured : ResultReason
  already_carried : SourceKey → ResultReason
  all_refused : ResultReason
  nothing_to_deliver_to : ResultReason

pub record Result : Type 0 where
  pub deliveries : List Delivery
  pub upstreams : List UpstreamDelivery
  pub transcoders : List TranscoderDelivery
  pub drops : List Drop
  pub started_streams : List Endpoint
  pub reason : Option ResultReason
  pub no_homebrew_destination : Bool

abbrev pub silent : ResultReason → Result
silent reason = record {
  deliveries = [];
  upstreams = [];
  transcoders = [];
  drops = [];
  started_streams = [];
  reason = some reason;
  no_homebrew_destination = false;
}

-- The source's unlocatedResult.
unfoldable pub unlocated_result : Data → Result → Result
unlocated_result frame partial = record partial {
  reason = some (not_heard frame.target_id);
  no_homebrew_destination = true;
}

-- The endpoint of the frame's talkgroup and timeslot on a peer, or on an upstream.
abbrev pub on_peer : Data → ℕ → ℕ → Endpoint
on_peer frame peer slot = record {
  peer = peer;
  upstream = [];
  transcoder = [];
  talkgroup = frame.target_id;
  timeslot = slot;
}

abbrev pub on_upstream : Data → Text → Endpoint
on_upstream frame name = record {
  peer = 0;
  upstream = name;
  transcoder = [];
  talkgroup = frame.target_id;
  timeslot = frame.timeslot;
}

abbrev pub target_of : Bool → Endpoint → RouteTarget
target_of repeat e = record { endpoint = e; repeat = repeat }

unfoldable pub group_targets : Core → Data → List RouteTarget
group_targets c frame =
    target_of true (on_peer frame any_peer frame.timeslot)
    ∷ map (λ name. target_of true (on_upstream frame name)) (sorted_qsp_links c)

unfoldable other_peers : ℕ → List ℕ → List ℕ
other_peers from [] = []
other_peers from (p ∷ ps) = let rest = other_peers from ps in if p == from then rest else p ∷ rest

unfoldable pub linked : Network → List ℕ
linked net = elim net.linked_servers [ none ↦ [] | some peers ↦ peers ]

-- Where a radio that nobody has heard may be: every link, and every linked server but the sender.
unfoldable unlocated_targets : Core → Network → ℕ → Data → List RouteTarget
unfolding other_peers linked
unlocated_targets c net from frame =
    map (λ name. target_of false (on_upstream frame name)) (sorted_qsp_links c)
    ++ map (λ p. target_of false (on_peer frame p frame.timeslot)) (other_peers from (linked net))

pub data Targets : Type 0 where
  stop : Result → Targets
  targets : List RouteTarget → Bool → Targets

-- The branch of a private call: `bridged` are the targets of the table.
unfoldable pub private_targets : Core → Network → ℕ → Data → List RouteTarget → Targets
unfolding unlocated_targets unlocated_result
private_targets c net from frame bridged = elim net.locate [
  | none ↦ stop (silent private_not_routed)
  | some locate ↦ elim (locate frame.target_id) [
    | some (peer, slot) ↦ targets (concat bridged (target_of true (on_peer frame peer slot))) false
    | none ↦ elim (bridged ++ unlocated_targets c net from frame) [
      | [] ↦ stop (unlocated_result frame (silent (not_heard frame.target_id)))
      | t ∷ ts ↦ targets (t ∷ ts) true
    ]
  ]
]

unfoldable pub find_targets : Core → Network → Endpoint → Data → Decision → Targets
unfolding group_targets private_targets
find_targets c net origin frame decision =
    let bridged = map (target_of false) decision.targets in
    if c.repeat && frame.call_type == 0
    then targets (bridged ++ group_targets c frame) false
    else if c.repeat && frame.call_type == 1
    then private_targets c net origin.peer frame bridged
    else targets bridged false

-- Local means only to peers that are no linked servers.
unfoldable pub only_peers : List RouteTarget → List RouteTarget
only_peers [] = []
only_peers (t ∷ ts) =
    let rest = only_peers ts in
    if is_empty t.endpoint.upstream && is_empty t.endpoint.transcoder then t ∷ rest else rest
