-- ===== src/Routing/Core/ByClaims.antt =====
-- A property of the reservations that each claim keeps is kept by each step of the loop.
use qsp.Prelude.{◌≡◌, ◌⊎◌, inl, inr, refl, Bool, arith}
use qsp.Prelude.Text.{Text}
use qsp.Routing.Endpoint.{Endpoint}
use qsp.Routing.Reservation.{Busy, Claim, started, continued, alongside, refused, claim}
use qsp.Routing.Core.{Core, Network}
use qsp.Routing.Core.Outgoing.{Call, Run, drop_frame}
use qsp.Routing.Core.Deliver.{claim_for, send_upstream, send_transcoder, send_peer}
use qsp.Routing.Core.Loop.{Steps, peer_place}

module _ (c : Core) (net : Network) (call : Call) (Q : Busy → Type 0)
    (step : (busy : Busy) (dest : Endpoint)
      → Q busy
      → Q (claim c.timeout busy call.source call.frame call.bridge dest call.now).0) where
  send_upstream-keeps :
      (r : Run) (dest : Endpoint) (p : Busy × Claim)
      → Q r.busy
      → Q p.0
      → Q (send_upstream c net call r dest p).busy
  unfolding send_upstream
  send_upstream-keeps r dest (b, refused held) q q' = q
  send_upstream-keeps r dest (b, started) q q' = q'
  send_upstream-keeps r dest (b, continued) q q' = q'
  send_upstream-keeps r dest (b, alongside) q q' = q'

  send_transcoder-keeps :
      (r : Run) (dest : Endpoint) (p : Busy × Claim)
      → Q r.busy
      → Q p.0
      → Q (send_transcoder c net call r dest p).busy
  unfolding send_transcoder
  send_transcoder-keeps r dest (b, refused held) q q' = q
  send_transcoder-keeps r dest (b, started) q q' = q'
  send_transcoder-keeps r dest (b, continued) q q' = q'
  send_transcoder-keeps r dest (b, alongside) q q' = q'

  send_peer-busy :
      (r : Run) (dest : Endpoint) (b : Busy) (outcome : Claim)
      → ((send_peer c net call r dest (b, outcome)).busy ≡ b)
        ⊎ ((send_peer c net call r dest (b, outcome)).busy ≡ r.busy)
  unfolding send_peer
  send_peer-busy r dest b (refused held) = inr refl
  send_peer-busy r dest b started = ground arith
  send_peer-busy r dest b continued = ground arith
  send_peer-busy r dest b alongside = ground arith

  send_peer-keeps :
      (r : Run) (dest : Endpoint) (p : Busy × Claim)
      → Q r.busy
      → Q p.0
      → Q (send_peer c net call r dest p).busy
  send_peer-keeps r dest (b, outcome) q q' = elim (send_peer-busy r dest b outcome) [
    | inl e ↦ rw e q'
    | inr e ↦ rw e q
  ]

  pub busy-Steps :
      (lower : Text → Text) (equal_fold : Text → Text → Bool)
      → Steps c net call lower equal_fold (λ r. Q r.busy)
  unfolding drop_frame claim_for
  busy-Steps lower equal_fold = record {
    on_drop = λ r d q. q;
    on_upstream = λ r dest on may q. send_upstream-keeps r dest _ q (step r.busy dest q);
    on_transcoder = λ r dest on q. send_transcoder-keeps r dest _ q (step r.busy dest q);
    on_peer = λ r peer talkgroup timeslot on q.
        let dest = peer_place peer talkgroup timeslot in
        send_peer-keeps r dest _ q (step r.busy dest q);
  }
