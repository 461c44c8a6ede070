-- ===== src/Routing/Core/Voice.antt =====
-- A voice frame reaches a peer only on a timeslot that its transmission holds.
use qsp.Prelude.{ℕ, ◌≡◌, inl, inr, Bool, true, false, arith, Bool-cases, All, All-concat, All-map}
use qsp.Prelude.Text.{Text}
use qsp.Hbp.Data.{Data, is_terminator}
use qsp.Routing.Endpoint.{Endpoint}
use qsp.Routing.Table.{route}
use qsp.Routing.Reservation.{Busy, contend, contends_for_slot, Claim, alongside, refused}
use qsp.Routing.Core.{Core, Network}
use qsp.Routing.Core.Outgoing.{Delivery, Call, Run, drop_frame}
use qsp.Routing.Core.Deliver.{
  contains_peer, retarget, claim_for, send_upstream, send_transcoder, send_peer,
}
use qsp.Routing.Core.Scoped.{source_of, route_scoped, call_of}
use qsp.Routing.Core.Holds.{HeldBy, Takes-HeldBy}
use qsp.Routing.Core.Claiming.{claim-Takes, Outcome, claim-Outcome}
use qsp.Routing.Core.Loop.{Steps, peer_place}
use qsp.Routing.Core.Ran.{route_scoped-Ran}

-- Where a delivery arrives.
abbrev pub place_of : Delivery → Endpoint
place_of d = peer_place d.peer d.frame.target_id d.frame.timeslot

module _ (c : Core) (net : Network) (call : Call)
    (voice : contends_for_slot call.frame ≡ true) where
  abbrev IsHeld : Busy → Delivery → Type 0
  IsHeld busy d = HeldBy call.source (contend (place_of d)) busy

  abbrev Held : Run → Type 0
  Held r = All (IsHeld r.busy) r.deliveries

  -- A claim keeps what is held, and where it is not refused the destination is held after it.
  after_claim :
      (r : Run) (dest : Endpoint)
      → Held r
      → All (IsHeld (claim_for c net call r dest).0) r.deliveries
  unfolding claim_for
  after_claim r dest h =
      All-map _ _
        (λ d k.
          Takes-HeldBy c.timeout call.now call.source r.busy (contend dest) _ (contend (place_of d))
            (claim-Takes c.timeout r.busy call.source call.frame call.bridge dest call.now) k)
        r.deliveries h

  abbrev Said : Run → Endpoint → Busy × Claim → Type 0
  Said r dest p = Outcome c.timeout r.busy call.source call.frame call.bridge dest call.now p

  said : (r : Run) (dest : Endpoint) → Said r dest (claim_for c net call r dest)
  unfolding claim_for
  said r dest = claim-Outcome c.timeout r.busy call.source call.frame call.bridge dest call.now

  send_peer-Held :
      (r : Run) (peer talkgroup timeslot : ℕ) (b : Busy) (outcome : Claim)
      → Said r (peer_place peer talkgroup timeslot) (b, outcome)
      → All (IsHeld b) r.deliveries
      → Held r
      → Held (send_peer c net call r (peer_place peer talkgroup timeslot) (b, outcome))
  unfolding send_peer drop_frame retarget
  send_peer-Held r peer talkgroup timeslot b (refused held) out keep h = h
  send_peer-Held r peer talkgroup timeslot b alongside out keep h = absurd cc
  send_peer-Held r peer talkgroup timeslot b _ out keep h =
      elim (Bool-cases (contains_peer r.delivered peer)) [
        | inl again ↦ rw again keep
        | inr first ↦ rw first (All-concat (IsHeld b) r.deliveries _ keep out)
      ]

  send_upstream-Held :
      (r : Run) (dest : Endpoint) (b : Busy) (outcome : Claim)
      → All (IsHeld b) r.deliveries
      → Held r
      → Held (send_upstream c net call r dest (b, outcome))
  unfolding send_upstream drop_frame
  send_upstream-Held r dest b (refused held) keep h = h
  send_upstream-Held r dest b _ keep h = keep

  send_transcoder-Held :
      (r : Run) (dest : Endpoint) (b : Busy) (outcome : Claim)
      → All (IsHeld b) r.deliveries
      → Held r
      → Held (send_transcoder c net call r dest (b, outcome))
  unfolding send_transcoder drop_frame
  send_transcoder-Held r dest b (refused held) keep h = h
  send_transcoder-Held r dest b _ keep h = keep

  Held-Steps :
      (lower : Text → Text) (equal_fold : Text → Text → Bool)
      → Steps c net call lower equal_fold Held
  unfolding drop_frame
  Held-Steps lower equal_fold = record {
    on_drop = λ r d h. h;
    on_upstream = λ r dest on may h.
        let p = claim_for c net call r dest in
        send_upstream-Held r dest p.0 p.1 (after_claim r dest h) h;
    on_transcoder = λ r dest on h.
        let p = claim_for c net call r dest in
        send_transcoder-Held r dest p.0 p.1 (after_claim r dest h) h;
    on_peer = λ r peer talkgroup timeslot on h.
        let dest = peer_place peer talkgroup timeslot in
        let p = claim_for c net call r dest in
        send_peer-Held r peer talkgroup timeslot p.0 p.1 (said r dest) (after_claim r dest h) h;
  }

voice_goes_on : (frame : Data) → contends_for_slot frame ≡ true → is_terminator frame ≡ false
unfolding contends_for_slot is_terminator
voice_goes_on frame h = ground arith

-- A voice frame is delivered to a peer only if, once it is routed, its transmission holds that
-- peer's timeslot.
pub route_scoped-held :
    (lower : Text → Text) (equal_fold : Text → Text → Bool) (c : Core) (net : Network)
    (origin : Endpoint) (frame : Data) (now : ℕ) (local : Bool)
    → contends_for_slot frame ≡ true
    → let out = route_scoped lower equal_fold c net origin frame now local in
      All (λ d. HeldBy (source_of origin frame) (contend (place_of d)) out.0.busy) out.1.deliveries
route_scoped-held lower equal_fold c net origin frame now local voice =
    let call = call_of net origin frame (route c.table origin) local now in
    let ran =
      route_scoped-Ran lower equal_fold c net origin frame now local (Held c net call voice)
        (λ busy drops. tt)
        (λ m. Held-Steps (record c { carrying = m }) net call voice lower equal_fold) in
    rw (ran.deliveries_are, ran.busy_is (voice_goes_on frame voice)) ran.holds
