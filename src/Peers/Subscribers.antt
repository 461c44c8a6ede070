-- ===== src/Peers/Subscribers.antt =====
-- internal/peers/subscribers.go: where each radio was last heard.
pub mod Located
use qsp.Prelude.{
  ℕ, ◌-◌, ◌*◌, Bool, true, false, not, ◌&&◌, Option, none, some, List, [], ◌∷◌, ltb, ◌==◌,
  if◌then◌else◌,
}
use qsp.Prelude.Sort.{sort}
use qsp.Prelude.Map.{lookup, put}
use qsp.Peers.Peer.{Peer, can_pass_traffic}

abbrev default_subscriber_timeout : ℕ
default_subscriber_timeout = 7200 * 1_000_000_000

pub record Location : Type 0 where
  pub subscriber : ℕ
  pub peer : ℕ
  pub timeslot : ℕ
  pub first_seen : ℕ
  pub last_heard : ℕ

abbrev pub Locations : Type 0
Locations = List (ℕ × Location)

abbrev pub id_eq : ℕ → ℕ → Bool
id_eq a b = a == b

abbrev new_location : ℕ → ℕ → ℕ → ℕ → Location
new_location subscriber peer slot now = record {
  subscriber = subscriber;
  peer = peer;
  timeslot = slot;
  first_seen = now;
  last_heard = now;
}

-- The method observe.
unfoldable pub observe : Locations → ℕ → ℕ → ℕ → ℕ → Locations
observe m subscriber peer slot now =
    if subscriber == 0 then m else elim (lookup id_eq m subscriber) [
      | some l ↦
          put id_eq m subscriber (record l { peer = peer; timeslot = slot; last_heard = now })
      | none ↦ put id_eq m subscriber (new_location subscriber peer slot now)
    ]

-- `p, ok := m.peers[id]; ok && p.State.CanPassTraffic()`.
unfoldable pub is_ready : List (ℕ × Peer) → ℕ → Bool
is_ready peers id = elim (lookup id_eq peers id) [
  | none ↦ false
  | some p ↦ can_pass_traffic p.state
]

-- The method locate, with the timeout of the settings.
unfoldable pub locate : Locations → List (ℕ × Peer) → ℕ → ℕ → ℕ → Option Location
unfolding is_ready
locate m peers timeout now subscriber = elim (lookup id_eq m subscriber) [
  | none ↦ none
  | some l ↦
      if ltb timeout (now - l.last_heard)
      then none
      else if is_ready peers l.peer
      then some l
      else none
]

-- The method LocateFor.
unfoldable pub locate_for : Locations → List (ℕ × Peer) → ℕ → ℕ → ℕ → Option (ℕ × ℕ)
unfolding locate
locate_for m peers timeout now subscriber = elim (locate m peers timeout now subscriber) [
  | none ↦ none
  | some l ↦ some (l.peer, l.timeslot)
]

-- The method expireSubscribers: what is left, and what went, by radio ID.
unfoldable pub left_subscribers : Locations → ℕ → ℕ → Locations
left_subscribers [] timeout now = []
left_subscribers ((id, l) ∷ m) timeout now =
    let rest = left_subscribers m timeout now in
    if ltb timeout (now - l.last_heard) then rest else (id, l) ∷ rest

unfoldable stale_subscribers : Locations → ℕ → ℕ → List Location
stale_subscribers [] timeout now = []
stale_subscribers ((id, l) ∷ m) timeout now =
    let rest = stale_subscribers m timeout now in
    if ltb timeout (now - l.last_heard) then l ∷ rest else rest

unfoldable expire_subscribers : Locations → ℕ → ℕ → Locations × List Location
expire_subscribers m timeout now = (
  left_subscribers m timeout now,
  sort (λ a b. ltb a.subscriber b.subscriber) (stale_subscribers m timeout now),
)
