-- ===== src/Routing/Core/Copies.antt =====
-- What the loop over the targets sends to a peer: the frame as one of the targets has it.
use qsp.Prelude.{
  ℕ, ◌≡◌, inl, inr, refl, Bool, ◌&&◌, List, [], ◌∷◌, ◌==◌, arith, All, All-concat, In, Bool-cases,
}
use qsp.Prelude.Text.{Text, is_empty}
use qsp.Routing.Endpoint.{Endpoint}
use qsp.Routing.Reservation.{Busy, Claim, refused}
use qsp.Routing.Core.{Core, Network}
use qsp.Routing.Core.Outgoing.{Delivery, RouteTarget, Call, Run, drop_frame}
use qsp.Routing.Core.Deliver.{
  contains_peer, claim_for, allowed_at, retarget, send_upstream, deliver_upstream, send_transcoder,
  deliver_transcoder, send_peer, is_detached, deliver_peer, deliver_peers, resolve,
  forward_upstream, deliver, deliver_all,
}
use qsp.Routing.Core.Loop.{peer_place}

module _ (c : Core) (net : Network) (call : Call) (lower : Text → Text)
    (equal_fold : Text → Text → Bool) (found : List RouteTarget) where
  -- The delivery holds the frame with the talkgroup and timeslot of a target, for its peer.
  pub record IsCopy (d : Delivery) : Type 0 where
    pub target : RouteTarget
    pub among : In target found
    pub copied : d.frame ≡ record (retarget call.frame target.endpoint) { repeater_id = d.peer }

  pub record Copies (r : Run) : Type 0 where
    pub every : All IsCopy r.deliveries

  same_deliveries : (r s : Run) → s.deliveries ≡ r.deliveries → Copies r → Copies s
  same_deliveries r s e h = record { every = rw e h.every }

  deliveries-send_upstream :
      (r : Run) (dest : Endpoint) (b : Busy) (outcome : Claim)
      → (send_upstream c net call r dest (b, outcome)).deliveries ≡ r.deliveries
  unfolding send_upstream drop_frame
  deliveries-send_upstream r dest b (refused held) = refl
  deliveries-send_upstream r dest b _ = refl

  deliveries-send_transcoder :
      (r : Run) (dest : Endpoint) (b : Busy) (outcome : Claim)
      → (send_transcoder c net call r dest (b, outcome)).deliveries ≡ r.deliveries
  unfolding send_transcoder drop_frame
  deliveries-send_transcoder r dest b (refused held) = refl
  deliveries-send_transcoder r dest b _ = refl

  deliveries-deliver_transcoder :
      (r : Run) (dest : Endpoint) → (deliver_transcoder c net call r dest).deliveries ≡ r.deliveries
  unfolding deliver_transcoder drop_frame
  deliveries-deliver_transcoder r dest = elim (Bool-cases (allowed_at c net call dest)) [
    | inl on ↦
        let p = claim_for c net call r dest in rw on (deliveries-send_transcoder r dest p.0 p.1)
    | inr off ↦ rw off refl
  ]

  deliveries-deliver_upstream :
      (r : Run) (dest : Endpoint) → (deliver_upstream c net call r dest).deliveries ≡ r.deliveries
  unfolding deliver_upstream drop_frame
  deliveries-deliver_upstream r dest = elim (Bool-cases (allowed_at c net call dest)) [
    | inl on ↦
        let p = claim_for c net call r dest in rw on (deliveries-send_upstream r dest p.0 p.1)
    | inr off ↦ rw off refl
  ]

  deliveries-forward_upstream :
      (r : Run) (dest : Endpoint)
      → (forward_upstream c net call lower equal_fold r dest).deliveries ≡ r.deliveries
  unfolding forward_upstream drop_frame
  deliveries-forward_upstream r dest = ground (arith, deliveries-deliver_upstream r dest)

  send_peer-Copies :
      (t : RouteTarget) (r : Run) (peer : ℕ) (b : Busy) (outcome : Claim)
      → In t found
      → Copies r
      → Copies (
          send_peer c net call r
            (peer_place peer t.endpoint.talkgroup t.endpoint.timeslot)
            (b, outcome))
  unfolding send_peer drop_frame retarget
  send_peer-Copies t r peer b (refused held) i h = record { every = h.every }
  send_peer-Copies t r peer b _ i h = elim (Bool-cases (contains_peer r.delivered peer)) [
    | inl again ↦ rw again (record { every = h.every })
    | inr first ↦ rw first (record {
      every =
          All-concat IsCopy r.deliveries _ h.every
            (record { target = t; among = i; copied = refl });
    })
  ]

  deliver_peer-Copies :
      (t : RouteTarget) (r : Run) (peer : ℕ)
      → In t found
      → Copies r
      → Copies (deliver_peer c net call t r peer)
  unfolding deliver_peer drop_frame
  deliver_peer-Copies t r peer i h =
      let dest = peer_place peer t.endpoint.talkgroup t.endpoint.timeslot in
      let p = claim_for c net call r dest in
      elim (Bool-cases (t.repeat && peer == call.origin.peer)) [
        | inl echo ↦ rw echo h
        | inr new ↦ elim (Bool-cases (contains_peer call.linked_peers peer)) [
          | inl server ↦ rw (new, server) h
          | inr plain ↦ elim (Bool-cases (allowed_at c net call dest)) [
            | inr off ↦ rw (new, plain, off) (record { every = h.every })
            | inl on ↦ elim (Bool-cases (is_detached c net call t dest)) [
              | inl away ↦ rw (new, plain, on, away) (record { every = h.every })
              | inr here ↦ rw (new, plain, on, here) (send_peer-Copies t r peer p.0 p.1 i h)
            ]
          ]
        ]
      ]

  deliver_peers-Copies :
      (t : RouteTarget) (r : Run) (peers : List ℕ)
      → In t found
      → Copies r
      → Copies (deliver_peers c net call t r peers)
  unfolding deliver_peers
  deliver_peers-Copies t r [] i h = h
  deliver_peers-Copies t r (peer ∷ peers) i h =
      deliver_peers-Copies t (deliver_peer c net call t r peer) peers i
        (deliver_peer-Copies t r peer i h)

  deliver-Copies :
      (r : Run) (t : RouteTarget)
      → In t found
      → Copies r
      → Copies (deliver c net call lower equal_fold r t)
  unfolding deliver
  deliver-Copies r t i h = elim (Bool-cases (is_empty t.endpoint.transcoder)) [
    | inr coded ↦ rw coded (same_deliveries r _ (deliveries-deliver_transcoder r t.endpoint) h)
    | inl plain ↦ elim (Bool-cases (is_empty t.endpoint.upstream)) [
      | inr up ↦ rw (plain, up) (same_deliveries r _ (deliveries-forward_upstream r t.endpoint) h)
      | inl peer ↦ rw (plain, peer) (deliver_peers-Copies t r (resolve c net call t.endpoint) i h)
    ]
  ]

  -- The loop over targets that are all among those found.
  pub deliver_all-Copies :
      (r : Run) (ts : List RouteTarget)
      → ((t : RouteTarget) → In t ts → In t found)
      → Copies r
      → Copies (deliver_all c net call lower equal_fold r ts)
  unfolding deliver_all
  deliver_all-Copies r [] i h = h
  deliver_all-Copies r (t ∷ ts) i h =
      deliver_all-Copies (deliver c net call lower equal_fold r t) ts (λ u j. i u (inr j))
        (deliver-Copies r t (i t (inl refl)) h)
