-- ===== src/Routing/Core/Delivers.antt =====
-- Where nothing stands in the way, a group call is repeated to every peer that is logged in.
use qsp.Prelude.{
  ℕ, ◌≡◌, inl, inr, sym, Bool, true, not, ◌&&◌, Option, none, some, List, ◌∷◌, ◌==◌, ==_iff, concat,
  arith, Bool-cases, In, In-append_left, In-append_right,
}
use qsp.Prelude.Map.{lookup}
use qsp.Prelude.Text.{Text}
use qsp.Hbp.Data.{Data}
use qsp.Routing.Endpoint.{Endpoint, endpoint_eq}
use qsp.Routing.Reservation.{
  SourceKey, source_eq, same_origin, Reservation, Busy, contend, contends_for_slot, Claim, refused,
  settle, claim,
}
use qsp.Routing.Core.{Core, Network}
use qsp.Routing.Core.Outgoing.{Delivery, Call, Run, drop_frame}
use qsp.Routing.Core.Deliver.{contains_peer, claim_for, send_upstream, send_transcoder, send_peer}
use qsp.Routing.Core.Holds.{IsFree, Takes-IsFree}
use qsp.Routing.Core.Claiming.{claim-Takes}
use qsp.Routing.Core.Loop.{Steps, peer_place}
use qsp.Routing.Core.Once.{peers_of, peers_of-concat}

abbrev pub IsAccepted : Claim → Type 0
IsAccepted (refused held) = ⊥
IsAccepted _ = Unit

module _ (timeout : ℕ) (busy : Busy) (src : SourceKey) (frame : Data) (bridge : Text)
    (dest : Endpoint) (now : ℕ) where
  settle-IsAccepted :
      (o : Option Reservation)
      → IsFree timeout now src o
      → IsAccepted (settle timeout busy src frame bridge dest now o).1
  unfolding settle
  settle-IsAccepted none free = tt
  settle-IsAccepted (some held) free = elim (Bool-cases (source_eq held.source src)) [
    | inl own ↦ rw own tt
    | inr other ↦ elim (Bool-cases (same_origin held.source src && not (contends_for_slot frame))) [
      | inl beside ↦ rw (other, beside) tt
      | inr apart ↦ elim free [ inl own ↦ cc | inr old ↦ rw (other, apart, old) tt ]
    ]
  ]

  pub claim-IsAccepted :
      IsFree timeout now src (lookup endpoint_eq busy (contend dest))
      → IsAccepted (claim timeout busy src frame bridge dest now).1
  unfolding claim
  claim-IsAccepted free = settle-IsAccepted (lookup endpoint_eq busy (contend dest)) free

module _ (c : Core) (net : Network) (call : Call) (lower : Text → Text)
    (equal_fold : Text → Text → Bool) (key : Endpoint) (peer : ℕ) where
  abbrev pub Sent : Run → Type 0
  Sent r = In peer (peers_of r.deliveries)

  -- The key is free, and the peer is marked as served only if it was.
  abbrev pub Open : Run → Type 0
  Open r =
      IsFree c.timeout call.now call.source (lookup endpoint_eq r.busy key)
      × (contains_peer r.delivered peer ≡ true → Sent r)

  In-concat :
      (ds : List Delivery) (d : Delivery) → In peer (peers_of ds) → In peer (peers_of (concat ds d))
  In-concat ds d i = rw (peers_of-concat ds d) (In-append_left peer (peers_of ds) _ i)

  pub In-last :
      (ds : List Delivery) (d : Delivery) → peer ≡ d.peer → In peer (peers_of (concat ds d))
  In-last ds d e = rw (peers_of-concat ds d) (In-append_right peer (peers_of ds) _ (inl e))

  send_upstream-Sent :
      (r : Run) (dest : Endpoint) (b : Busy) (outcome : Claim)
      → Sent r
      → Sent (send_upstream c net call r dest (b, outcome))
  unfolding send_upstream drop_frame
  send_upstream-Sent r dest b (refused held) h = h
  send_upstream-Sent r dest b _ h = h

  send_transcoder-Sent :
      (r : Run) (dest : Endpoint) (b : Busy) (outcome : Claim)
      → Sent r
      → Sent (send_transcoder c net call r dest (b, outcome))
  unfolding send_transcoder drop_frame
  send_transcoder-Sent r dest b (refused held) h = h
  send_transcoder-Sent r dest b _ h = h

  send_peer-Sent :
      (r : Run) (dest : Endpoint) (b : Busy) (outcome : Claim)
      → Sent r
      → Sent (send_peer c net call r dest (b, outcome))
  unfolding send_peer drop_frame
  send_peer-Sent r dest b (refused held) h = h
  send_peer-Sent r dest b _ h = elim (Bool-cases (contains_peer r.delivered dest.peer)) [
    | inl again ↦ rw again h
    | inr first ↦ rw first (In-concat r.deliveries _ h)
  ]

  pub Sent-Steps : Steps c net call lower equal_fold Sent
  unfolding drop_frame
  Sent-Steps = record {
    on_drop = λ r d h. h;
    on_upstream = λ r dest on may h.
        let p = claim_for c net call r dest in send_upstream-Sent r dest p.0 p.1 h;
    on_transcoder =
        λ r dest on h. let p = claim_for c net call r dest in send_transcoder-Sent r dest p.0 p.1 h;
    on_peer = λ r to talkgroup timeslot on h.
        let dest = peer_place to talkgroup timeslot in
        let p = claim_for c net call r dest in send_peer-Sent r dest p.0 p.1 h;
  }

  abbrev FreeIn : Busy → Type 0
  FreeIn busy = IsFree c.timeout call.now call.source (lookup endpoint_eq busy key)

  claim_for-FreeIn :
      (r : Run) (dest : Endpoint) → FreeIn r.busy → FreeIn (claim_for c net call r dest).0
  unfolding claim_for
  claim_for-FreeIn r dest h =
      Takes-IsFree c.timeout call.now call.source r.busy (contend dest) _ key
        (claim-Takes c.timeout r.busy call.source call.frame call.bridge dest call.now) h

  send_upstream-Open :
      (r : Run) (dest : Endpoint) (b : Busy) (outcome : Claim)
      → FreeIn b
      → Open r
      → Open (send_upstream c net call r dest (b, outcome))
  unfolding send_upstream drop_frame
  send_upstream-Open r dest b (refused held) f h = h
  send_upstream-Open r dest b _ f h = (f, h.1)

  send_transcoder-Open :
      (r : Run) (dest : Endpoint) (b : Busy) (outcome : Claim)
      → FreeIn b
      → Open r
      → Open (send_transcoder c net call r dest (b, outcome))
  unfolding send_transcoder drop_frame
  send_transcoder-Open r dest b (refused held) f h = h
  send_transcoder-Open r dest b _ f h = (f, h.1)

  served_now :
      (r : Run) (d : Delivery)
      → (contains_peer r.delivered peer ≡ true → Sent r)
      → contains_peer (d.peer ∷ r.delivered) peer ≡ true
      → In peer (peers_of (concat r.deliveries d))
  unfolding contains_peer
  served_now r d truthful m = elim (Bool-cases (d.peer == peer)) [
    | inl e ↦ In-last r.deliveries d (sym ((==_iff d.peer peer).0 e))
    | inr n ↦ In-concat r.deliveries d (truthful (ground arith))
  ]

  send_peer-Open :
      (r : Run) (dest : Endpoint) (b : Busy) (outcome : Claim)
      → FreeIn b
      → Open r
      → Open (send_peer c net call r dest (b, outcome))
  unfolding send_peer drop_frame
  send_peer-Open r dest b (refused held) f h = h
  send_peer-Open r dest b _ f h = elim (Bool-cases (contains_peer r.delivered dest.peer)) [
    | inl again ↦ rw again (f, h.1)
    | inr first ↦ rw first (f, λ m. served_now r _ h.1 m)
  ]

  pub Open-Steps : Steps c net call lower equal_fold Open
  unfolding drop_frame
  Open-Steps = record {
    on_drop = λ r d h. h;
    on_upstream = λ r dest on may h.
        let p = claim_for c net call r dest in
        send_upstream-Open r dest p.0 p.1 (claim_for-FreeIn r dest h.0) h;
    on_transcoder = λ r dest on h.
        let p = claim_for c net call r dest in
        send_transcoder-Open r dest p.0 p.1 (claim_for-FreeIn r dest h.0) h;
    on_peer = λ r to talkgroup timeslot on h.
        let dest = peer_place to talkgroup timeslot in
        let p = claim_for c net call r dest in
        send_peer-Open r dest p.0 p.1 (claim_for-FreeIn r dest h.0) h;
  }
