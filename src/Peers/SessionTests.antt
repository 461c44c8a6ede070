-- ===== src/Peers/SessionTests.antt =====
-- Runs of the parts of a station's session: where radios are, what a station hears, and the calls
-- that it carries on.
use qsp.Prelude.{
  ℕ, ◌≤◌, ◌<◌, ◌-◌, ◌≡◌, refl, Bool, true, false, Option, none, some, List, [], ◌∷◌, arith, length,
}
use qsp.Hbp.Data.{Data}
use qsp.Peers.Peer.{OpenCall, Peer, configured, no_refused}
use qsp.Peers.Subscribers.{Location, Locations, left_subscribers, locate, locate_for, observe}
use qsp.Peers.Subscribers.Located.{locate-left_subscribers, locate_for-observe}
use qsp.Peers.Attachments.{
  AttachmentKey, Attachments, Subscription, attach, attached, expire_attachments,
}
use qsp.Peers.Attachments.Held.{attached-attach, attached-expire_attachments}

-- A peer that is ready, to whom a private call can go.
abbrev ready : Peer
ready = record {
  id = 312001;
  addr = record { ip = 10; port = 62031 };
  state = configured;
  config = none;
  salt = [];
  first_seen = 1;
  last_heard = 3;
  configured_at = some 3;
  calls_1 = [];
  calls_2 = [];
  relogins = [];
  received = 0;
  sent = 0;
  refused_count = 0;
  last_traffic = none;
  refused = no_refused;
}

abbrev peers : List (ℕ × Peer)
peers = (312001, ready) ∷ []

locate_for-observe_example :
    locate_for (observe [] 3_120_001 312001 2 10) peers 100 50 3_120_001 ≡ some (312001, 2)
unfolding qsp.Peers.Subscribers.is_ready qsp.Prelude.Map.lookup qsp.Peers.Peer.can_pass_traffic
locate_for-observe_example =
    locate_for-observe [] peers 100 3_120_001 312001 2 10 50 3_120_001 (omega arith) refl
      (omega arith)

abbrev sightings : Locations
sightings =
    (7, record { subscriber = 7; peer = 312001; timeslot = 1; first_seen = 0; last_heard = 0 })
    ∷ (8, record { subscriber = 8; peer = 312001; timeslot = 2; first_seen = 0; last_heard = 90 })
    ∷ []

locate-left_subscribers_example :
    locate (left_subscribers sightings 50 100) peers 50 110 8 ≡ locate sightings peers 50 110 8
unfolding qsp.Prelude.Map.lookup
locate-left_subscribers_example =
    locate-left_subscribers sightings peers 50 100 110 8 (refl, (refl, tt)) (omega arith)

abbrev wanted : AttachmentKey
wanted = record { peer = 312001; talkgroup = 91; slot = 2 }

abbrev quarter : Subscription
quarter = record { enabled = true; timeout = 900; static = [] }

attached-attach_example : attached (attach [] true 312001 91 2 10) quarter 312001 91 2 500 ≡ true
attached-attach_example = attached-attach [] quarter wanted wanted 10 500 refl (omega arith)

abbrev used : Attachments
used =
    (
      wanted,
      record { peer = 312001; talkgroup = 91; timeslot = 2; static = false; last_used = some 10 },
    )
    ∷ []

attached-expire_attachments_example :
    attached (expire_attachments used 900 1000).0 quarter 312001 91 2 1100
    ≡ attached used quarter 312001 91 2 1100
unfolding qsp.Prelude.Map.lookup
attached-expire_attachments_example =
    attached-expire_attachments used quarter wanted 1000 1100 refl (refl, tt) (omega arith)

abbrev call : OpenCall
call = record {
  stream = 1;
  source = 3_120_001;
  target = 91;
  call_type = 0;
  last_seen = 100;
  is_open = true;
  adopted = 0;
  adopting = false;
}

-- Voice in the middle of a call, of a stream that nobody sends.
abbrev middle : Data
middle = record {
  sequence = 5;
  source_id = 0;
  target_id = 0;
  repeater_id = 312001;
  timeslot = 2;
  call_type = 0;
  frame_type = 0;
  data_type = 1;
  stream_id = 9;
  payload = [];
  trailing = [];
}

abbrev talking : Peer
talking = record ready { calls_2 = call ∷ [] }
