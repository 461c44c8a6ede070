-- ===== src/Peers/Master/Sweep.antt =====
-- internal/peers/master.go: the changes that no datagram asks for: the sweep of what has gone silent,
-- new access lists, the constructor, and the counter of frames sent.
use qsp.Prelude.{
  ℕ, ◌+◌, ◌*◌, ◌%◌, ◌^◌, Bool, none, some, List, [], ◌∷◌, ◌++◌, ltb, if◌then◌else◌, concat,
}
use qsp.Prelude.Int.{ℤ}
use qsp.Prelude.Sort.{sort}
use qsp.Access.{AccessList, allows}
use qsp.Peers.Attempts.{Throttle, expire, new_throttle}
use qsp.Peers.Throttle.{tracked}
use qsp.Peers.Peer.{Peer, can_pass_traffic, clone, idle}
use qsp.Peers.Subscribers.{left_subscribers}
use qsp.Peers.Attachments.{left_attachments, seed_static}
use qsp.Peers.Master.{
  Event, Master, MasterConfig, Registry, disconnected, find, forget, not_permitted, silent, store,
}

abbrev default_peer_timeout : ℕ
default_peer_timeout = 60 * 1_000_000_000

abbrev default_login_timeout : ℕ
default_login_timeout = 30 * 1_000_000_000

abbrev default_max_peers : ℕ
default_max_peers = 200

-- `m.logins.tracked` of each address that an ID is remembered of.
unfoldable still_claimed : List (ℕ × ℕ) → Throttle → List (ℕ × ℕ)
still_claimed [] t = []
still_claimed ((addr, id) ∷ m) t =
    let rest = still_claimed m t in if tracked t addr then (addr, id) ∷ rest else rest

-- The method ConfiguredCount.
unfoldable configured_count : Registry → ℕ
configured_count [] = 0
configured_count ((id, p) ∷ peers) =
    (if can_pass_traffic p.state then 1 else 0) + configured_count peers

module _ {F : Type 0} where
  -- The silence that is tolerated from a peer.
  unfoldable pub limit_of : MasterConfig F → Peer → ℕ
  limit_of cfg p = if can_pass_traffic p.state then cfg.peer_timeout else cfg.login_timeout

  unfoldable pub is_stale : MasterConfig F → ℕ → Peer → Bool
  unfolding limit_of
  is_stale cfg now p = ltb (limit_of cfg p) (idle p now)

  unfoldable pub stale : MasterConfig F → ℕ → Registry → List ℕ
  stale cfg now [] = []
  stale cfg now ((id, p) ∷ peers) =
      let rest = stale cfg now peers in if is_stale cfg now p then id ∷ rest else rest

  -- One round of the loop over the stale peers.
  unfoldable pub remove_stale : Master F → ℕ → Master F × List Event
  remove_stale m id = elim (find m id) [
    | none ↦ (m, [])
    | some p ↦ (
      forget m id,
      if can_pass_traffic p.state
          then record { kind = disconnected; peer = clone p; reason = silent } ∷ []
          else [],
    )
  ]

  unfoldable pub remove_all : Master F → List ℕ → Master F × List Event
  remove_all m [] = (m, [])
  remove_all m (id ∷ ids) =
      let (m', e) = remove_stale m id in let (m'', es) = remove_all m' ids in (m'', e ++ es)

  -- What Expire forgets besides peers.
  unfoldable pub sweep_rest : Master F → ℕ → Master F
  unfolding still_claimed
  sweep_rest m now =
      let logins = expire m.logins now in
      record m {
        logins = logins;
        claimed_ids = still_claimed m.claimed_ids logins;
        attachments = left_attachments m.attachments m.cfg.subscription.timeout now;
        subscribers = left_subscribers m.subscribers m.cfg.subscriber_timeout now;
        evicted = [];
      }

  -- The method Expire: the master, and the events that are to be published.
  unfoldable pub expire_peers : Master F → ℕ → Master F × List Event
  expire_peers m now =
      let ids = sort ltb (stale m.cfg now m.peers) in
      let (m', es) = remove_all (sweep_rest m now) ids in (m', m.evicted ++ es)

  -- One round of the loop of SetAccess.
  unfoldable pub evict_refused : Master F → ℕ × Peer → Master F
  evict_refused m (id, p) =
      let gone = forget m id in
      if allows m.cfg.registration id
      then m
      else if can_pass_traffic p.state
      then record gone {
        evicted =
            concat gone.evicted
              (record { kind = disconnected; peer = clone p; reason = not_permitted });
      }
      else gone

  unfoldable pub evict_all : Master F → List (ℕ × Peer) → Master F
  evict_all m [] = m
  evict_all m (e ∷ es) = evict_all (evict_refused m e) es

  -- The method SetAccess.
  unfoldable pub set_access : Master F → AccessList → AccessList → Master F
  set_access m registration subscriber =
      let cfg = record m.cfg { registration = registration; subscriber = subscriber } in
      evict_all (record m { cfg = cfg }) m.peers

  -- `NewMaster`, of settings with their defaults filled in.
  unfoldable pub new_master : MasterConfig F → ℤ → ℤ → Master F
  new_master cfg max_failures lockout = record {
    cfg = cfg;
    peers = [];
    waiting = 0;
    half_open = [];
    subscribers = [];
    attachments = seed_static cfg.subscription.static [];
    logins = new_throttle max_failures lockout;
    claimed_ids = [];
    evicted = [];
    answered_unregistered = [];
  }

  -- The method CountSent.
  unfoldable pub count_sent : Master F → ℕ → Master F
  count_sent m id = elim (find m id) [
    | none ↦ m
    | some p ↦ store m id (record p { sent = (p.sent + 1) % 2 ^ 64 })
  ]
