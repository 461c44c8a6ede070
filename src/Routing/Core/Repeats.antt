-- ===== src/Routing/Core/Repeats.antt =====
-- The repeat of a group call, from one peer's place in the loop to the result.
use qsp.Prelude.{
  ℕ, ◌≡◌, inl, inr, refl, Bool, true, false, none, some, List, [], ◌∷◌, ◌==◌, arith, Bool-cases,
  Option-cases, In,
}
use qsp.Prelude.Text.{Text}
use qsp.Routing.Endpoint.{Endpoint, any_peer}
use qsp.Routing.Reservation.{Busy, contend, Claim, refused}
use qsp.Routing.Core.{Core, Network}
use qsp.Routing.Core.Outgoing.{RouteTarget, Call, Run}
use qsp.Routing.Core.Deliver.{
  contains_peer, claim_for, allowed_at, send_peer, is_detached, deliver_peer, deliver_peers,
  resolve, deliver, deliver_all,
}
use qsp.Routing.Core.Find.{target_of, on_peer}
use qsp.Routing.Core.Loop.{
  peer_place, deliver_peer-keeps, deliver_peers-keeps, deliver-keeps, deliver_all-keeps,
}
use qsp.Routing.Core.Delivers.{
  IsAccepted, claim-IsAccepted, Sent, Open, Sent-Steps, Open-Steps, In-last,
}

-- The peer is attached to the talkgroup, or attachment is not asked for.
abbrev pub hears : Network → ℕ → ℕ → ℕ → Bool
hears net peer talkgroup timeslot = elim net.attached [
  | none ↦ true
  | some attached ↦ attached peer talkgroup timeslot
]

module _ (c : Core) (net : Network) (call : Call) (lower : Text → Text)
    (equal_fold : Text → Text → Bool) (peer : ℕ) where
  abbrev place : Endpoint
  place = peer_place peer call.frame.target_id call.frame.timeslot

  abbrev repeated : RouteTarget
  repeated = target_of true (on_peer call.frame any_peer call.frame.timeslot)

  abbrev IsOpen : Run → Type 0
  IsOpen r = Open c net call lower equal_fold (contend place) peer r

  abbrev IsSent : Run → Type 0
  IsSent r = Sent c net call lower equal_fold (contend place) peer r

  accepted-IsSent :
      (r : Run) (b : Busy) (outcome : Claim)
      → IsAccepted outcome
      → (contains_peer r.delivered peer ≡ true → IsSent r)
      → IsSent (send_peer c net call r place (b, outcome))
  unfolding send_peer
  accepted-IsSent r b (refused held) a truthful = absurd a
  accepted-IsSent r b _ a truthful = elim (Bool-cases (contains_peer r.delivered peer)) [
    | inl again ↦ rw again (truthful again)
    | inr first ↦
        rw first (In-last c net call lower equal_fold (contend place) peer r.deliveries _ refl)
  ]

  claimed-IsAccepted : (r : Run) → IsOpen r → IsAccepted (claim_for c net call r place).1
  unfolding claim_for
  claimed-IsAccepted r h =
      claim-IsAccepted c.timeout r.busy call.source call.frame call.bridge place call.now h.0

  module _ (not_sender : peer == call.origin.peer ≡ false)
      (not_server : contains_peer call.linked_peers peer ≡ false)
      (permitted : allowed_at c net call place ≡ true)
      (attached : hears net peer call.frame.target_id call.frame.timeslot ≡ true) where
    not_detached : is_detached c net call repeated place ≡ false
    unfolding is_detached
    not_detached = elim (Option-cases net.attached) [
      | inl e ↦ rw e (ground arith)
      | inr (f, e) ↦ rw e (ground (arith, rw e at attached))
    ]

    deliver_peer-IsSent : (r : Run) → IsOpen r → IsSent (deliver_peer c net call repeated r peer)
    unfolding deliver_peer
    deliver_peer-IsSent r h =
        rw (not_sender, not_server, permitted, not_detached)
          (accepted-IsSent r _ _ (claimed-IsAccepted r h) h.1)

    deliver_peers-IsSent :
        (r : Run) (peers : List ℕ)
        → In peer peers
        → IsOpen r
        → IsSent (deliver_peers c net call repeated r peers)
    unfolding deliver_peers
    deliver_peers-IsSent r [] i h = absurd i
    deliver_peers-IsSent r (p ∷ peers) (inl e) h =
        deliver_peers-keeps c net call lower equal_fold IsSent
          (Sent-Steps c net call lower equal_fold (contend place) peer) repeated _ peers
          (rw (← e) (deliver_peer-IsSent r h))
    deliver_peers-IsSent r (p ∷ peers) (inr i) h =
        deliver_peers-IsSent (deliver_peer c net call repeated r p) peers i (
          deliver_peer-keeps c net call lower equal_fold IsOpen
            (Open-Steps c net call lower equal_fold (contend place) peer) repeated r p h)

    deliver-IsSent :
        (r : Run)
        → In peer net.ready_peers
        → IsOpen r
        → IsSent (deliver c net call lower equal_fold r repeated)
    unfolding deliver resolve
    deliver-IsSent r i h = deliver_peers-IsSent r net.ready_peers i h

    pub deliver_all-IsSent :
        (r : Run) (found : List RouteTarget)
        → In peer net.ready_peers
        → In repeated found
        → IsOpen r
        → IsSent (deliver_all c net call lower equal_fold r found)
    unfolding deliver_all
    deliver_all-IsSent r [] i j h = absurd j
    deliver_all-IsSent r (t ∷ found) i (inl e) h =
        deliver_all-keeps c net call lower equal_fold IsSent
          (Sent-Steps c net call lower equal_fold (contend place) peer) _ found
          (rw (← e) (deliver-IsSent r i h))
    deliver_all-IsSent r (t ∷ found) i (inr j) h =
        deliver_all-IsSent (deliver c net call lower equal_fold r t) found i j (
          deliver-keeps c net call lower equal_fold IsOpen
            (Open-Steps c net call lower equal_fold (contend place) peer) r t h)
