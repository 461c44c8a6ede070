-- ===== src/Routing/Core/Loop.antt =====
-- The loop over the targets keeps whatever its claims keep, and routeScoped is either silent or
-- that loop.
use qsp.Prelude.{
  ℕ, ◌≡◌, ◌⊎◌, inl, inr, Bool, true, false, not, ◌&&◌, List, [], ◌∷◌, ◌==◌, arith, Bool-cases,
}
use qsp.Prelude.Text.{Text, is_empty}
use qsp.Routing.Endpoint.{Endpoint}
use qsp.Routing.Core.{Core, Network}
use qsp.Routing.Core.Outgoing.{RouteTarget, Call, Run, Drop, drop_frame}
use qsp.Routing.Core.Deliver.{
  contains_peer, claim_for, allowed_at, send_upstream, deliver_upstream, send_transcoder,
  deliver_transcoder, send_peer, is_detached, deliver_peer, deliver_peers, resolve, is_qsp_link,
  forward_upstream, deliver, deliver_all,
}

-- What a frame may go to upstream: a frame from a link goes only to other links that speak QSP.
abbrev pub MayForward : Core → Network → Call → (Text → Text) → (Text → Text → Bool) → Text → Type 0
MayForward c net call lower equal_fold name =
    (is_empty call.origin.upstream ≡ true)
    ⊎ ((equal_fold name call.origin.upstream ≡ false)
        × (is_qsp_link c net call lower equal_fold name ≡ true))

-- The endpoint of a talkgroup and timeslot on a peer.
abbrev pub peer_place : ℕ → ℕ → ℕ → Endpoint
peer_place peer talkgroup timeslot = record {
  peer = peer;
  upstream = [];
  transcoder = [];
  talkgroup = talkgroup;
  timeslot = timeslot;
}

-- What the loop needs to know of a property of its state: each of its steps keeps it.
pub record Steps (c : Core) (net : Network) (call : Call) (lower : Text → Text)
    (equal_fold : Text → Text → Bool) (P : Run → Type 0) : Type 0 where
  pub on_drop : (r : Run) (d : Drop) → P r → P (drop_frame r d)
  pub on_upstream :
      (r : Run) (dest : Endpoint)
      → allowed_at c net call dest ≡ true
      → MayForward c net call lower equal_fold dest.upstream
      → P r
      → P (send_upstream c net call r dest (claim_for c net call r dest))
  pub on_transcoder :
      (r : Run) (dest : Endpoint)
      → allowed_at c net call dest ≡ true
      → P r
      → P (send_transcoder c net call r dest (claim_for c net call r dest))
  pub on_peer :
      (r : Run) (peer talkgroup timeslot : ℕ)
      → allowed_at c net call (peer_place peer talkgroup timeslot) ≡ true
      → P r
      → P (
          send_peer c net call r
            (peer_place peer talkgroup timeslot)
            (claim_for c net call r (peer_place peer talkgroup timeslot)))

module _ (c : Core) (net : Network) (call : Call) (lower : Text → Text)
    (equal_fold : Text → Text → Bool) (P : Run → Type 0)
    (steps : Steps c net call lower equal_fold P) where
  deliver_upstream-keeps :
      (r : Run) (dest : Endpoint)
      → MayForward c net call lower equal_fold dest.upstream
      → P r
      → P (deliver_upstream c net call r dest)
  unfolding deliver_upstream
  deliver_upstream-keeps r dest may p = elim (Bool-cases (allowed_at c net call dest)) [
    | inl on ↦ rw on (steps.on_upstream r dest on may p)
    | inr off ↦ rw off (steps.on_drop r _ p)
  ]

  deliver_transcoder-keeps :
      (r : Run) (dest : Endpoint) → P r → P (deliver_transcoder c net call r dest)
  unfolding deliver_transcoder
  deliver_transcoder-keeps r dest p = elim (Bool-cases (allowed_at c net call dest)) [
    | inl on ↦ rw on (steps.on_transcoder r dest on p)
    | inr off ↦ rw off (steps.on_drop r _ p)
  ]

  pub deliver_peer-keeps :
      (target : RouteTarget) (r : Run) (peer : ℕ) → P r → P (deliver_peer c net call target r peer)
  unfolding deliver_peer
  deliver_peer-keeps target r peer p =
      let dest = peer_place peer target.endpoint.talkgroup target.endpoint.timeslot in
      elim (Bool-cases (target.repeat && peer == call.origin.peer)) [
        | inl echo ↦ rw echo p
        | inr new ↦ elim (Bool-cases (contains_peer call.linked_peers peer)) [
          | inl server ↦ rw (new, server) p
          | inr plain ↦ elim (Bool-cases (allowed_at c net call dest)) [
            | inr off ↦ rw (new, plain, off) (steps.on_drop r _ p)
            | inl on ↦ elim (Bool-cases (is_detached c net call target dest)) [
              | inl away ↦ rw (new, plain, on, away) (steps.on_drop r _ p)
              | inr here ↦ rw (new, plain, on, here) (steps.on_peer r peer _ _ on p)
            ]
          ]
        ]
      ]

  pub deliver_peers-keeps :
      (target : RouteTarget) (r : Run) (peers : List ℕ)
      → P r
      → P (deliver_peers c net call target r peers)
  unfolding deliver_peers
  deliver_peers-keeps target r [] p = p
  deliver_peers-keeps target r (peer ∷ peers) p =
      deliver_peers-keeps target (deliver_peer c net call target r peer) peers
        (deliver_peer-keeps target r peer p)

  forward_upstream-keeps :
      (r : Run) (dest : Endpoint) → P r → P (forward_upstream c net call lower equal_fold r dest)
  unfolding forward_upstream
  forward_upstream-keeps r dest p =
      elim (Bool-cases
        (not (is_empty call.origin.upstream) && equal_fold dest.upstream call.origin.upstream)) [
          | inl back ↦ rw back (steps.on_drop r _ p)
          | inr on ↦
              elim (Bool-cases (
                not (is_empty call.origin.upstream)
                && not (is_qsp_link c net call lower equal_fold dest.upstream))) [
                  | inl foreign ↦ rw (on, foreign) (steps.on_drop r _ p)
                  | inr ours ↦ rw (on, ours) (deliver_upstream-keeps r dest (ground arith) p)
                ]
        ]

  pub deliver-keeps :
      (r : Run) (target : RouteTarget) → P r → P (deliver c net call lower equal_fold r target)
  unfolding deliver
  deliver-keeps r target p = elim (Bool-cases (is_empty target.endpoint.transcoder)) [
    | inr t ↦ rw t (deliver_transcoder-keeps r target.endpoint p)
    | inl t ↦ elim (Bool-cases (is_empty target.endpoint.upstream)) [
      | inr u ↦ rw (t, u) (forward_upstream-keeps r target.endpoint p)
      | inl u ↦ rw (t, u) (deliver_peers-keeps target r (resolve c net call target.endpoint) p)
    ]
  ]

  pub deliver_all-keeps :
      (r : Run) (found : List RouteTarget)
      → P r
      → P (deliver_all c net call lower equal_fold r found)
  unfolding deliver_all
  deliver_all-keeps r [] p = p
  deliver_all-keeps r (target ∷ found) p =
      deliver_all-keeps (deliver c net call lower equal_fold r target) found
        (deliver-keeps r target p)
