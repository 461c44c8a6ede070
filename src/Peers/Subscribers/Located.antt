-- ===== src/Peers/Subscribers/Located.antt =====
-- Where a private call goes, after a sighting of a radio and after a sweep.
use qsp.Prelude.{
  ℕ, ◌-◌, ◌≤◌, ◌≡◌, ◌≢◌, refl, ◌∙◌, true, false, Option, none, some, List, [], ◌∷◌, arith,
  Bool-cases, Option-cases, inl, inr, if◌then◌else◌, ==_iff, ◌==◌,
}
use qsp.Prelude.Map.{lookup, put, lookup-put}
use qsp.Prelude.Map.Keys.{IsKeyed}
use qsp.Peers.Peer.{Peer}
use qsp.Peers.Subscribers.{
  Location, Locations, id_eq, is_ready, left_subscribers, locate, locate_for, observe,
}

record IsSighting (peer slot t : ℕ) (o : Option Location) : Type 0 where
  seen : Location
  is_seen : o ≡ some seen
  peer_is : seen.peer ≡ peer
  slot_is : seen.timeslot ≡ slot
  heard_at : seen.last_heard ≡ t

lookup-put_self :
    (m : Locations) (id : ℕ) (l : Location) → lookup id_eq (put id_eq m id l) id ≡ some l
lookup-put_self m id l = lookup-put id_eq ==_iff m id id l ∙ rw ((==_iff id id).1 refl) refl

observe-IsSighting :
    (m : Locations) (subscriber peer slot t : ℕ)
    → subscriber ≢ 0
    → IsSighting peer slot t (lookup id_eq (observe m subscriber peer slot t) subscriber)
unfolding observe
observe-IsSighting m subscriber peer slot t nz =
    let radio : (subscriber == 0) ≡ false = ground arith in
    elim (Option-cases (lookup id_eq m subscriber)) [
      | inl e ↦
          rw (radio, e, observe)
            (record {
              seen = _;
              is_seen = lookup-put_self m subscriber _;
              peer_is = refl;
              slot_is = refl;
              heard_at = refl;
            })
      | inr (l, e) ↦
          rw (radio, e, observe)
            (record {
              seen = _;
              is_seen = lookup-put_self m subscriber _;
              peer_is = refl;
              slot_is = refl;
              heard_at = refl;
            })
    ]

lookup-observe :
    (m : Locations) (subscriber peer slot t other : ℕ)
    → other ≢ subscriber
    → lookup id_eq (observe m subscriber peer slot t) other ≡ lookup id_eq m other
unfolding observe
lookup-observe m subscriber peer slot t other ne =
    let away : (subscriber == other) ≡ false = ground (arith, λ (e : other ≡ subscriber). ne e) in
    let put_away : (l : Location)
        → lookup id_eq (put id_eq m subscriber l) other ≡ lookup id_eq m other =
      λ l. lookup-put id_eq ==_iff m subscriber other l ∙ rw away refl in
    elim (Bool-cases (subscriber == 0)) [
      | inl z ↦ rw (z, observe) refl
      | inr n ↦ elim (Option-cases (lookup id_eq m subscriber)) [
        | inl e ↦ rw (n, e, observe) (put_away _)
        | inr (l, e) ↦ rw (n, e, observe) (put_away _)
      ]
    ]

-- The newest sighting of a radio wins, whatever was known of it, while it is fresh and its peer is
-- ready; no other radio is affected.
pub locate_for-observe :
    (m : Locations) (peers : List (ℕ × Peer)) (timeout subscriber peer slot t now other : ℕ)
    → subscriber ≢ 0
    → is_ready peers peer ≡ true
    → now - t ≤ timeout
    → locate_for (observe m subscriber peer slot t) peers timeout now other
      ≡ (if other == subscriber then some (peer, slot) else locate_for m peers timeout now other)
unfolding locate_for locate
locate_for-observe m peers timeout subscriber peer slot t now other nz ready fresh =
    let s = observe-IsSighting m subscriber peer slot t nz in
    elim (Bool-cases (other == subscriber)) [
      | inl y ↦
          rw (y, (==_iff other subscriber).0 y, s.is_seen, locate, locate_for)
            (ground (arith, s.peer_is, s.slot_is, s.heard_at, ready))
      | inr n ↦
          let ne : other ≢ subscriber = ground arith in
          rw (n, lookup-observe m subscriber peer slot t other ne, locate, locate_for) refl
    ]

lookup-left_subscribers :
    (m : Locations) (timeout now id : ℕ)
    → lookup id_eq m id ≡ none
    → lookup id_eq (left_subscribers m timeout now) id ≡ none
unfolding lookup left_subscribers
lookup-left_subscribers [] timeout now id h = refl
lookup-left_subscribers ((j, l) ∷ m) timeout now id h =
    ground (arith, lookup-left_subscribers m timeout now id)

-- A sweep that forgets radios leaves every later answer as it was.
pub locate-left_subscribers :
    (m : Locations) (peers : List (ℕ × Peer)) (timeout now n id : ℕ)
    → IsKeyed id_eq m
    → now ≤ n
    → locate (left_subscribers m timeout now) peers timeout n id ≡ locate m peers timeout n id
unfolding locate lookup left_subscribers
locate-left_subscribers [] peers timeout now n id h le = refl
locate-left_subscribers ((j, l) ∷ m) peers timeout now n id h le = ground (
  arith,
  locate-left_subscribers m peers timeout now n id h.1 le,
  lookup-left_subscribers m timeout now j h.0,
  h.0,
)
