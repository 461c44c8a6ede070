-- ===== src/Routing/Core/Tests.antt =====
-- Runs of the core: two repeaters and a hotspot on one talkgroup, and a link to another server.
use qsp.Prelude.{
  ℕ, ◌+◌, ◌≡◌, ◌≢◌, ◌↔◌, ◌≤◌, refl, ap, Bool, true, false, Option, none, some, List, [], ◌∷◌, arith,
  All, Distinct, map,
}
use qsp.Prelude.Map.{lookup}
use qsp.Prelude.Text.{Text, text_eq}
use qsp.Routing.Table.{Bridge}
use qsp.Access.{Lists, AccessList, deny, permit}
use qsp.Hbp.Data.{Data}
use qsp.Routing.Endpoint.{Endpoint, endpoint_eq}
use qsp.Routing.Table.{route}
use qsp.Routing.Reservation.{
  SourceKey, Reservation, Freed, contend, contends_for_slot, timed_out, holds_any, claim, refused,
}
use qsp.Routing.Core.{Core, Network, expire}
use qsp.Routing.Core.Outgoing.{UpstreamDelivery}
use qsp.Routing.Core.Find.{target_of}
use qsp.Routing.Core.Scoped.{route_scoped, route_frame, source_of}
use qsp.Routing.Core.Holds.{HeldBy}
use qsp.Routing.Core.Loop.{peer_place}
use qsp.Routing.Core.Spares.{IsSilent, route_scoped-spares}
use qsp.Routing.Core.Permitted.{IsPermitted, IsLinkable, route_scoped-IsPermitted}
use qsp.Routing.Core.Once.{peers_of, route_scoped-once}
use qsp.Routing.Core.Voice.{place_of, route_scoped-held}
use qsp.Routing.Core.FirstPath.{route_scoped-first_path}
use qsp.Routing.Core.Sweep.{expire-refused}

-- A talkgroup on an upstream.
abbrev link : Text → Endpoint
link name = record { peer = 0; upstream = name; transcoder = []; talkgroup = 91; timeslot = 2 }

abbrev open_list : AccessList
open_list = record { mode = deny; spans = [] }

abbrev core : Core
core = record {
  repeat = true;
  access = record {
    registration_list = open_list;
    subscriber_list = open_list;
    talkgroup1 = open_list;
    talkgroup2 = record { mode = permit; spans = record { lo = 91; hi = 91 } ∷ [] };
  };
  table = record { bridges = []; permissions = [] };
  timeout = 2_000;
  qsp_links = [];
  carrying = [];
  busy = [];
}

abbrev network : Network
network = record {
  ready = λ id. true;
  ready_peers = 3100 ∷ 3200 ∷ 3300 ∷ [];
  locate = none;
  attached = none;
  linked_servers = none;
}

abbrev as_written : Text → Text
as_written t = t

abbrev voice_frame : ℕ → ℕ → Data
voice_frame stream source = record {
  sequence = 0;
  source_id = source;
  target_id = 91;
  repeater_id = 0;
  timeslot = 2;
  call_type = 0;
  frame_type = 0;
  data_type = 0;
  stream_id = stream;
  payload = [];
  trailing = [];
}

abbrev speech : Data
speech = voice_frame 7 3120001

abbrev start_of : Core
start_of = (route_frame as_written text_eq core network 3100 speech 10).0

abbrev from_3100 : Endpoint
from_3100 = peer_place 3100 91 2

-- The frame goes to the two others, and not back.
delivers :
    peers_of (route_scoped as_written text_eq core network from_3100 speech 10 false).1.deliveries
    ≡ 3200 ∷ 3300 ∷ []
unfolding route_scoped qsp.Routing.Core.talkgroup_allowed qsp.Access.allows qsp.Access.talkgroups
    route lookup qsp.Routing.Core.Deliver.deliver_all qsp.Routing.Core.sorted_qsp_links
    qsp.Prelude.Sort.sort qsp.Routing.Core.Deliver.deliver qsp.Routing.Core.Deliver.deliver_peer
    qsp.Routing.Reservation.claim holds_any qsp.Prelude.Map.put endpoint_eq
delivers = refl

abbrev other_call : Reservation
other_call = record {
  source = record { peer = 3300; stream = 9; slot = 2; upstream = []; transcoder = [] };
  last_seen = 5;
  bridge = [];
  voice = true;
  endpoint = peer_place 3200 91 2;
}

abbrev in_use : Core
in_use = record core { busy = (peer_place 3200 0 2, other_call) ∷ [] }

-- A timeslot that another transmission uses is left out.
spares_busy :
    peers_of (route_scoped as_written text_eq in_use network from_3100 speech 10 false).1.deliveries
    ≡ 3300 ∷ []
unfolding route_scoped qsp.Routing.Core.talkgroup_allowed qsp.Access.allows qsp.Access.talkgroups
    route lookup qsp.Routing.Core.Deliver.deliver_all qsp.Routing.Core.sorted_qsp_links
    qsp.Prelude.Sort.sort qsp.Routing.Core.Deliver.deliver qsp.Routing.Core.Deliver.deliver_peer
    qsp.Routing.Reservation.claim endpoint_eq holds_any qsp.Routing.Reservation.source_eq
    qsp.Prelude.Map.put text_eq qsp.Routing.Reservation.same_origin
spares_busy = refl

other-differs : other_call.source ≢ source_of from_3100 speech
unfolding source_of
other-differs e = absurd (ground (arith, ap SourceKey.peer e))

route_scoped-spares_example :
    lookup endpoint_eq
      (route_scoped as_written text_eq in_use network from_3100 speech 10 false).0.busy
      (peer_place 3200 0 2)
    ≡ some other_call
unfolding lookup endpoint_eq text_eq timed_out
route_scoped-spares_example =
    route_scoped-spares as_written text_eq in_use network from_3100 speech 10 false
      (peer_place 3200 0 2) other_call refl other-differs refl

-- Two links that speak QSP and one that does not, in a bridge.
abbrev meshed : Core
meshed = record core {
  table = record {
    bridges =
        record {
          name = b'n' ∷ [];
          enabled = true;
          endpoints =
              link (b'a' ∷ []) ∷ link (b'b' ∷ []) ∷ link (b'c' ∷ []) ∷ peer_place 3200 91 2 ∷ [];
        }
        ∷ [];
    permissions = [];
  };
  qsp_links = (b'a' ∷ [], b'a' ∷ []) ∷ (b'b' ∷ [], b'b' ∷ []) ∷ [];
}

-- The frame from the first link goes on to the second and not to the third. It goes there twice, by
-- the bridge and by the repeat.
forwards :
    map
      (λ (u : UpstreamDelivery). u.upstream)
      (route_scoped as_written text_eq meshed network
        (link (b'a' ∷ []))
        speech
        10
        false).1.upstreams
    ≡ (b'b' ∷ []) ∷ (b'b' ∷ []) ∷ []
unfolding route_scoped qsp.Routing.Core.talkgroup_allowed qsp.Access.allows qsp.Access.talkgroups
    route qsp.Prelude.Sort.sort qsp.Routing.Table.any_matches qsp.Routing.Endpoint.matches text_eq
    qsp.Routing.Table.contains endpoint_eq qsp.Routing.Endpoint.endpoint_before lookup
    qsp.Routing.Core.Deliver.deliver_all qsp.Routing.Core.sorted_qsp_links
    qsp.Prelude.Text.text_less qsp.Routing.Core.Deliver.deliver
    qsp.Routing.Core.Deliver.forward_upstream qsp.Routing.Core.Deliver.deliver_upstream
    qsp.Routing.Reservation.claim qsp.Routing.Core.Deliver.deliver_peer holds_any
    qsp.Prelude.Map.put qsp.Routing.Reservation.source_eq
forwards = refl

route_scoped-IsPermitted_example :
    let res =
      (route_scoped as_written text_eq meshed network (link (b'a' ∷ [])) speech 10 false).1 in
    All (λ d. IsPermitted core.access d.frame) res.deliveries
    × All
        (λ u.
          IsPermitted core.access u.frame
          × IsLinkable as_written text_eq meshed (link (b'a' ∷ [])) u.upstream)
        res.upstreams
    × All (λ t. IsPermitted core.access t.frame) res.transcoders
route_scoped-IsPermitted_example =
    route_scoped-IsPermitted as_written text_eq meshed network (link (b'a' ∷ [])) speech 10 false

route_scoped-once_example :
    Distinct (
      peers_of
        (route_scoped as_written text_eq core network from_3100 speech 10 false).1.deliveries)
route_scoped-once_example =
    route_scoped-once as_written text_eq core network from_3100 speech 10 false

route_scoped-held_example :
    let out = route_scoped as_written text_eq core network from_3100 speech 10 false in
    All
      (λ d. HeldBy (source_of from_3100 speech) (contend (place_of d)) out.0.busy)
      out.1.deliveries
unfolding contends_for_slot
route_scoped-held_example =
    route_scoped-held as_written text_eq core network from_3100 speech 10 false refl

some_delivered :
    (route_scoped as_written text_eq core network from_3100 speech 10 false).1.deliveries ≢ []
some_delivered e = absurd (ground (arith, delivers, ap peers_of e))

sources-differ : source_of from_3100 speech ≢ source_of (peer_place 3300 91 2) speech
unfolding source_of
sources-differ e = absurd (ground (arith, ap SourceKey.peer e))

route_scoped-first_path_example :
    let first = route_scoped as_written text_eq core network from_3100 speech 10 false in
    let second =
      route_scoped as_written text_eq first.0 network (peer_place 3300 91 2) speech 20 false in
    IsSilent speech second.1 × (second.0.busy ≡ first.0.busy)
route_scoped-first_path_example =
    route_scoped-first_path as_written text_eq core network network from_3100 (peer_place 3300 91 2)
      speech speech 10 20 false false refl sources-differ (omega arith) some_delivered

-- The same with a linked server logged in as a peer.
abbrev with_server : Network
with_server = record network { linked_servers = some (3300 ∷ []) }

-- A local frame passes the linked server by.
stays_local :
    peers_of
      (route_scoped as_written text_eq core with_server from_3100 speech 10 true).1.deliveries
    ≡ 3200 ∷ []
unfolding route_scoped qsp.Routing.Core.talkgroup_allowed qsp.Access.allows qsp.Access.talkgroups
    route lookup qsp.Routing.Core.Deliver.deliver_all qsp.Routing.Core.sorted_qsp_links
    qsp.Prelude.Sort.sort qsp.Routing.Core.Deliver.deliver qsp.Routing.Core.Deliver.deliver_peer
    qsp.Routing.Reservation.claim holds_any qsp.Prelude.Map.put endpoint_eq
stays_local = refl

-- After a sweep that frees the place.
expire-refused_example :
    ((claim 2_000
        (expire in_use 2_010).0.busy
        (source_of from_3100 speech)
        speech
        []
        (peer_place 3200 91 2)
        3_000).1
      ≡ refused other_call)
    ↔ ((claim 2_000 in_use.busy
          (source_of from_3100 speech)
          speech
          []
          (peer_place 3200 91 2)
          3_000).1
        ≡ refused other_call)
unfolding lookup
expire-refused_example =
    expire-refused in_use 2_010 3_000 (source_of from_3100 speech) speech [] (peer_place 3200 91 2)
      other_call (refl, tt) (omega arith)
