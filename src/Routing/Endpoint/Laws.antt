-- ===== src/Routing/Endpoint/Laws.antt =====
-- What it takes for one endpoint to cover another, and who is permitted.
use qsp.Prelude.{
  ℕ, ◌≡◌, ◌≢◌, ◌↔◌, ◌⊎◌, inl, inr, refl, true, false, List, [], ◌∷◌, arith, In, Bool-cases,
}
use qsp.Prelude.Text.{text_eq_iff}
use qsp.Routing.Endpoint.{
  any_peer, Endpoint, endpoint_eq, kind, EndpointKind, kind_peer, kind_upstream, kind_transcoder,
  matches, Permission, lists_peer, permits, endpoint_before,
}

endpoint_eq_sound : (a b : Endpoint) → endpoint_eq a b ≡ true → a ≡ b
unfolding endpoint_eq
endpoint_eq_sound a b h =
    ground (arith, text_eq_iff a.upstream b.upstream, text_eq_iff a.transcoder b.transcoder)

endpoint_eq_refl : (a : Endpoint) → endpoint_eq a a ≡ true
unfolding endpoint_eq
endpoint_eq_refl a =
    ground (arith, text_eq_iff a.upstream a.upstream, text_eq_iff a.transcoder a.transcoder)

pub endpoint_eq_iff : (a b : Endpoint) → (endpoint_eq a b ≡ true) ↔ (a ≡ b)
endpoint_eq_iff a b = (endpoint_eq_sound a b, λ e. rw e (endpoint_eq_refl b))

abbrev SamePlace : EndpointKind → Endpoint → Endpoint → Type 0
SamePlace kind_transcoder e actual = e.transcoder ≡ actual.transcoder
SamePlace kind_upstream e actual = e.upstream ≡ actual.upstream
SamePlace kind_peer e actual = (e.peer ≡ any_peer) ⊎ (e.peer ≡ actual.peer)

abbrev Covers : Endpoint → Endpoint → Type 0
Covers e actual =
    (e.talkgroup ≡ actual.talkgroup)
    × (e.timeslot ≡ actual.timeslot)
    × (kind e ≡ kind actual)
    × SamePlace (kind e) e actual

matches-Covers : (e actual : Endpoint) → matches e actual ≡ true → Covers e actual
unfolding matches
matches-Covers e actual h =
    ground
      (arith, text_eq_iff e.transcoder actual.transcoder, text_eq_iff e.upstream actual.upstream)

Covers-matches : (e actual : Endpoint) → Covers e actual → matches e actual ≡ true
unfolding matches
Covers-matches e actual h =
    ground
      (arith, text_eq_iff e.transcoder actual.transcoder, text_eq_iff e.upstream actual.upstream)

-- An endpoint covers an arrival exactly when they share talkgroup, timeslot and kind of place, and
-- the transcoder's or the upstream's name agrees, or for a peer its ID agrees or the endpoint
-- names any peer.
matches_iff : (e actual : Endpoint) → (matches e actual ≡ true) ↔ Covers e actual
matches_iff e actual = (matches-Covers e actual, Covers-matches e actual)

lists_peer-In : (ids : List ℕ) (peer : ℕ) → lists_peer ids peer ≡ true → (peer ≢ 0) × In peer ids
unfolding lists_peer
lists_peer-In [] peer h = cc
lists_peer-In (id ∷ ids) peer h = ground (arith, lists_peer-In ids peer)

In-lists_peer : (ids : List ℕ) (peer : ℕ) → peer ≢ 0 → In peer ids → lists_peer ids peer ≡ true
unfolding lists_peer
In-lists_peer [] peer n h = absurd h
In-lists_peer (id ∷ ids) peer n (inl e) = ground arith
In-lists_peer (id ∷ ids) peer n (inr h) = ground (arith, In-lists_peer ids peer n h)

-- Transcoded audio is permitted exactly for everybody, or for a listed peer that is not zero: a
-- zero in the list and the zero value of the type permit nobody, and any-peer needs everybody.
permits_iff :
    (p : Permission) (peer : ℕ)
    → (permits p peer ≡ true) ↔ ((p.all ≡ true) ⊎ ((peer ≢ any_peer) × In peer p.peers))
unfolding permits
permits_iff p peer = (
  λ h. elim (Bool-cases p.all) [
    | inl e ↦ inl e
    | inr e ↦ inr (lists_peer-In p.peers peer (rw e at h))
  ],
  λ h. elim (Bool-cases p.all) [
    | inl e ↦ rw e refl
    | inr e ↦ rw e (elim h [ inl e' ↦ cc | inr (n, i) ↦ In-lists_peer p.peers peer n i ])
  ],
)

pub endpoint_before-asym :
    (a b : Endpoint) → endpoint_before a b ≡ true → endpoint_before b a ≡ false
unfolding endpoint_before
endpoint_before-asym a b h = ground arith

pub endpoint_before_trans :
    (a b c : Endpoint)
    → endpoint_before b a ≡ false
    → endpoint_before c b ≡ false
    → endpoint_before c a ≡ false
unfolding endpoint_before
endpoint_before_trans a b c h k = ground arith
