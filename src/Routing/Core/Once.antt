-- ===== src/Routing/Core/Once.antt =====
-- No peer is sent two copies of a frame.
use qsp.Prelude.{
  ℕ, ◌≡◌, inl, inr, refl, ap, Bool, true, false, List, [], ◌∷◌, concat, map, arith, Bool-cases, All,
  All-concat, All-map, In, Distinct, Distinct-concat,
}
use qsp.Prelude.Text.{Text}
use qsp.Hbp.Data.{Data}
use qsp.Routing.Endpoint.{Endpoint}
use qsp.Routing.Table.{route}
use qsp.Routing.Reservation.{Busy, Claim, refused}
use qsp.Routing.Core.{Core, Network}
use qsp.Routing.Core.Outgoing.{Delivery, Call, Run, drop_frame}
use qsp.Routing.Core.Deliver.{contains_peer, claim_for, send_upstream, send_transcoder, send_peer}
use qsp.Routing.Core.Scoped.{route_scoped, call_of}
use qsp.Routing.Core.Loop.{Steps, peer_place}
use qsp.Routing.Core.Ran.{route_scoped-Ran}

abbrev pub peers_of : List Delivery → List ℕ
peers_of ds = map (λ (d : Delivery). d.peer) ds

-- Each peer once, and each marked as served.
abbrev Once : Run → Type 0
Once r =
    Distinct (peers_of r.deliveries)
    × All (λ d. contains_peer r.delivered d.peer ≡ true) r.deliveries

pub peers_of-concat :
    (ds : List Delivery) (d : Delivery) → peers_of (concat ds d) ≡ concat (peers_of ds) d.peer
peers_of-concat [] d = refl
peers_of-concat (x ∷ ds) d = ap (◌∷◌ x.peer) (peers_of-concat ds d)

marked :
    (served : List ℕ) (ds : List Delivery) (peer : ℕ)
    → All (λ d. contains_peer served d.peer ≡ true) ds
    → In peer (peers_of ds)
    → contains_peer served peer ≡ true
marked served [] peer h i = absurd i
marked served (d ∷ ds) peer h (inl e) = rw e h.0
marked served (d ∷ ds) peer h (inr i) = marked served ds peer h.1 i

still_marked :
    (served : List ℕ) (peer : ℕ) (d : Delivery)
    → contains_peer served d.peer ≡ true
    → contains_peer (peer ∷ served) d.peer ≡ true
unfolding contains_peer
still_marked served peer d h = ground arith

now_marked : (served : List ℕ) (peer : ℕ) → contains_peer (peer ∷ served) peer ≡ true
unfolding contains_peer
now_marked served peer = ground arith

module _ (c : Core) (net : Network) (call : Call) where
  add-Once :
      (ds : List Delivery) (served : List ℕ) (d : Delivery)
      → contains_peer served d.peer ≡ false
      → Distinct (peers_of ds)
      → All (λ x. contains_peer served x.peer ≡ true) ds
      → Distinct (peers_of (concat ds d))
        × All (λ x. contains_peer (d.peer ∷ served) x.peer ≡ true) (concat ds d)
  add-Once ds served d new h m = (
    rw (peers_of-concat ds d)
        (Distinct-concat (peers_of ds) d.peer h (λ i. cc (marked served ds d.peer m i))),
    All-concat _ ds d (All-map _ _ (λ x k. still_marked served d.peer x k) ds m)
        (now_marked served d.peer),
  )

  send_peer-Once :
      (r : Run) (dest : Endpoint) (b : Busy) (outcome : Claim)
      → Once r
      → Once (send_peer c net call r dest (b, outcome))
  unfolding send_peer drop_frame
  send_peer-Once r dest b (refused held) h = h
  send_peer-Once r dest b _ h = elim (Bool-cases (contains_peer r.delivered dest.peer)) [
    | inl again ↦ rw again h
    | inr first ↦ rw first (add-Once r.deliveries r.delivered _ first h.0 h.1)
  ]

  send_upstream-Once :
      (r : Run) (dest : Endpoint) (b : Busy) (outcome : Claim)
      → Once r
      → Once (send_upstream c net call r dest (b, outcome))
  unfolding send_upstream drop_frame
  send_upstream-Once r dest b (refused held) h = h
  send_upstream-Once r dest b _ h = h

  send_transcoder-Once :
      (r : Run) (dest : Endpoint) (b : Busy) (outcome : Claim)
      → Once r
      → Once (send_transcoder c net call r dest (b, outcome))
  unfolding send_transcoder drop_frame
  send_transcoder-Once r dest b (refused held) h = h
  send_transcoder-Once r dest b _ h = h

  Once-Steps :
      (lower : Text → Text) (equal_fold : Text → Text → Bool)
      → Steps c net call lower equal_fold Once
  unfolding drop_frame
  Once-Steps lower equal_fold = record {
    on_drop = λ r d h. h;
    on_upstream = λ r dest on may h.
        let p = claim_for c net call r dest in send_upstream-Once r dest p.0 p.1 h;
    on_transcoder =
        λ r dest on h. let p = claim_for c net call r dest in send_transcoder-Once r dest p.0 p.1 h;
    on_peer = λ r peer talkgroup timeslot on h.
        let dest = peer_place peer talkgroup timeslot in
        let p = claim_for c net call r dest in send_peer-Once r dest p.0 p.1 h;
  }

-- A frame is delivered to each peer at most once, however many bridges and repeats lead there.
pub route_scoped-once :
    (lower : Text → Text) (equal_fold : Text → Text → Bool) (c : Core) (net : Network)
    (origin : Endpoint) (frame : Data) (now : ℕ) (local : Bool)
    → Distinct (peers_of (route_scoped lower equal_fold c net origin frame now local).1.deliveries)
route_scoped-once lower equal_fold c net origin frame now local =
    let call = call_of net origin frame (route c.table origin) local now in
    let ran =
      route_scoped-Ran lower equal_fold c net origin frame now local Once (λ busy drops. (tt, tt))
        (λ m. Once-Steps (record c { carrying = m }) net call lower equal_fold) in
    rw ran.deliveries_are ran.holds.0
