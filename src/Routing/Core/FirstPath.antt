-- ===== src/Routing/Core/FirstPath.antt =====
-- A transmission is carried by the first path that it arrives by.
use qsp.Prelude.{
  ℕ, ◌+◌, ◌≤◌, ◌≡◌, ◌≢◌, ◌↔◌, inl, inr, refl, sym, ◌∙◌, ap, Bool, true, false, Option, none, some,
  [], ◌∷◌, arith, Bool-cases, Option-cases,
}
use qsp.Prelude.Map.{lookup, put, lookup-put}
use qsp.Prelude.Text.{Text}
use qsp.Hbp.Data.{Data}
use qsp.Routing.Endpoint.{Endpoint}
use qsp.Routing.Reservation.{
  SourceKey, source_eq, StreamKey, stream_eq, Carrier, Carrying, timed_out, expire_carried,
  duplicate,
}
use qsp.Routing.Core.{Core, Network}
use qsp.Routing.Core.Find.{Result}
use qsp.Routing.Core.Scoped.{source_of, carry, route_scoped}
use qsp.Routing.Core.Holds.{source_eq_iff}
use qsp.Routing.Core.Spares.{IsSilent, route_scoped-cases}

stream_eq_sound : (a b : StreamKey) → stream_eq a b ≡ true → a ≡ b
unfolding stream_eq
stream_eq_sound a b h = ground arith

stream_eq_refl : (a : StreamKey) → stream_eq a a ≡ true
unfolding stream_eq
stream_eq_refl a = ground arith

stream_eq_iff : (a b : StreamKey) → (stream_eq a b ≡ true) ↔ (a ≡ b)
stream_eq_iff a b = (stream_eq_sound a b, λ e. rw e (stream_eq_refl b))

abbrev stream_of : Data → StreamKey
stream_of frame = record { source = frame.source_id; stream = frame.stream_id }

-- The transmission is carried from `origin`, last heard at `last`.
abbrev IsCarried : Core → StreamKey → SourceKey → ℕ → Type 0
IsCarried c key origin last =
    lookup stream_eq c.carrying key ≡ some (record { origin = origin; last_seen = last })

lookup-expire_carried :
    (timeout : ℕ) (m : Carrying) (now : ℕ) (key : StreamKey) (held : Carrier)
    → timed_out timeout held.last_seen now ≡ false
    → lookup stream_eq m key ≡ some held
    → lookup stream_eq (expire_carried timeout m now) key ≡ some held
unfolding lookup expire_carried
lookup-expire_carried timeout [] now key held live e = e
lookup-expire_carried timeout ((j, r) ∷ m) now key held live e =
    ground (arith, lookup-expire_carried timeout m now key held live)

not_yet : (timeout now : ℕ) → timed_out timeout now now ≡ false
unfolding timed_out
not_yet timeout now = ground arith

lookup-put_same :
    (m : Carrying) (key : StreamKey) (r : Carrier)
    → lookup stream_eq (put stream_eq m key r) key ≡ some r
lookup-put_same m key r =
    lookup-put stream_eq stream_eq_iff m key key r ∙ rw (stream_eq_refl key) refl

module _ (timeout : ℕ) (m : Carrying) (frame : Data) (src : SourceKey) (now : ℕ) where
  abbrev mine : Carrier
  mine = record { origin = src; last_seen = now }

  first_carried :
      (after : Carrying)
      → expire_carried timeout (put stream_eq m (stream_of frame) mine) now ≡ after
      → lookup stream_eq after (stream_of frame) ≡ some mine
  first_carried after e = rw (← e) (
      lookup-expire_carried timeout (put stream_eq m (stream_of frame) mine) now (stream_of frame)
        mine (not_yet timeout now) (lookup-put_same m (stream_of frame) mine))

  -- A frame that is no duplicate leaves its transmission carried from where it came.
  duplicate-carried :
      (after : Carrying)
      → duplicate timeout m frame src now ≡ (after, none)
      → lookup stream_eq after (stream_of frame) ≡ some mine
  unfolding duplicate
  duplicate-carried after h = elim (Option-cases (lookup stream_eq m (stream_of frame))) [
    | inl e ↦
        first_carried after (ap (λ (p : Carrying × Option SourceKey). p.0) (rw (duplicate, e) at h))
    | inr (held, e) ↦ elim (Bool-cases (source_eq held.origin src)) [
      | inl own ↦
          let same = ap (λ (p : Carrying × Option SourceKey). p.0) (rw (duplicate, e, own) at h) in
          rw (← same) (
            lookup-put_same m (stream_of frame) (record held { last_seen = now })
            ∙ ap (λ (o : SourceKey). some (record { origin = o; last_seen = now }))
                ((source_eq_iff held.origin src).0 own))
      | inr other ↦ elim (Bool-cases (timed_out timeout held.last_seen now)) [
        | inl old ↦
            first_carried after
              (ap (λ (p : Carrying × Option SourceKey). p.0) (rw (duplicate, e, other, old) at h))
        | inr live ↦
            cc (ap (λ (p : Carrying × Option SourceKey). p.1) (rw (duplicate, e, other, live) at h))
      ]
    ]
  ]

  duplicate-refused :
      (held : Carrier)
      → lookup stream_eq m (stream_of frame) ≡ some held
      → source_eq held.origin src ≡ false
      → timed_out timeout held.last_seen now ≡ false
      → duplicate timeout m frame src now ≡ (m, some held.origin)
  unfolding duplicate
  duplicate-refused held e other live = rw (duplicate, e, other, live) refl

module _ (lower : Text → Text) (equal_fold : Text → Text → Bool) (c : Core) (net : Network)
    (origin : Endpoint) (frame : Data) (now : ℕ) (local : Bool) where
  -- A frame that is sent to a peer leaves its transmission carried from where it came.
  IsCarried-after :
      let out = route_scoped lower equal_fold c net origin frame now local in
      out.1.deliveries ≢ [] → IsCarried out.0 (stream_of frame) (source_of origin frame) now
  unfolding carry
  IsCarried-after =
      route_scoped-cases lower equal_fold c net origin frame now local
        (λ (p : Core × Result).
          p.1.deliveries ≢ [] → IsCarried p.0 (stream_of frame) (source_of origin frame) now)
        (λ m res s some_sent. absurd (some_sent s.no_deliveries))
        (λ m found unlocated d some_sent.
          duplicate-carried c.timeout c.carrying frame (source_of origin frame) now m d)

  same_timeout : (route_scoped lower equal_fold c net origin frame now local).0.timeout ≡ c.timeout
  unfolding carry
  same_timeout =
      route_scoped-cases lower equal_fold c net origin frame now local
        (λ (p : Core × Result). p.0.timeout ≡ c.timeout) (λ m res s. refl)
        (λ m found unlocated d. refl)

  -- Nothing is sent, and no reservation changes, for a frame whose transmission is carried from
  -- somewhere else and has not timed out.
  route_scoped-duplicate :
      (holder : SourceKey) (last : ℕ)
      → IsCarried c (stream_of frame) holder last
      → holder ≢ source_of origin frame
      → now ≤ last + c.timeout
      → let out = route_scoped lower equal_fold c net origin frame now local in
        IsSilent frame out.1 × (out.0.busy ≡ c.busy)
  route_scoped-duplicate holder last carried differs live =
      let other : source_eq holder (source_of origin frame) ≡ false =
        elim (Bool-cases (source_eq holder (source_of origin frame))) [
          | inl e ↦ absurd (differs ((source_eq_iff holder (source_of origin frame)).0 e))
          | inr n ↦ n
        ] in
      route_scoped-cases lower equal_fold c net origin frame now local
        (λ (p : Core × Result). IsSilent frame p.1 × (p.0.busy ≡ c.busy)) (λ m res s. (s, refl))
        (λ m found unlocated d. cc (
          ap (λ (p : Carrying × Option SourceKey). p.1)
            (sym d
              ∙ duplicate-refused c.timeout c.carrying frame (source_of origin frame) now
                  (record { origin = holder; last_seen = last }) carried other
                  (unfold timed_out in ground arith))))

-- Once a frame of a transmission has been sent to a peer, a frame of the same transmission that
-- comes from elsewhere within the timeout is sent to no peer, upstream and transcoder and takes no
-- reservation, whatever its talkgroup, its timeslot and the network by then. Nor is it marked as one
-- that nothing judged, which the other repeaters would get, unless it is a private call to a radio
-- that was not heard.
pub route_scoped-first_path :
    (lower : Text → Text) (equal_fold : Text → Text → Bool) (c : Core) (net net' : Network)
    (origin origin' : Endpoint) (frame frame' : Data) (now later : ℕ) (local local' : Bool)
    → stream_of frame ≡ stream_of frame'
    → source_of origin frame ≢ source_of origin' frame'
    → later ≤ now + c.timeout
    → let first = route_scoped lower equal_fold c net origin frame now local in
      first.1.deliveries ≢ []
      → let second = route_scoped lower equal_fold first.0 net' origin' frame' later local' in
        IsSilent frame' second.1 × (second.0.busy ≡ first.0.busy)
route_scoped-first_path lower equal_fold c net net' origin origin' frame frame' now later local
      local' same differs soon sent =
    let first = (route_scoped lower equal_fold c net origin frame now local).0 in
    route_scoped-duplicate lower equal_fold first net' origin' frame' later local'
      (source_of origin frame) now
      (ap (λ k. lookup stream_eq first.carrying k) (sym same)
        ∙ IsCarried-after lower equal_fold c net origin frame now local sent)
      differs (rw (same_timeout lower equal_fold c net origin frame now local) soon)
