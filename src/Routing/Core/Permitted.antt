-- ===== src/Routing/Core/Permitted.antt =====
-- What is sent: the talkgroups of the copies, and the links that a frame from a link goes to.
use qsp.Prelude.{
  ℕ, ◌≡◌, ◌≢◌, ◌⊎◌, inl, inr, refl, Bool, true, false, none, [], ◌∷◌, concat, Bool-cases, All,
  All-concat, ◌==◌, ==_iff,
}
use qsp.Prelude.Map.{lookup}
use qsp.Prelude.Text.{Text, text_eq, is_empty}
use qsp.Access.{Lists, allows, talkgroups}
use qsp.Hbp.Data.{Data}
use qsp.Routing.Endpoint.{Endpoint}
use qsp.Routing.Table.{route}
use qsp.Routing.Reservation.{Busy, Claim, refused}
use qsp.Routing.Core.{Core, Network, talkgroup_allowed}
use qsp.Routing.Core.Outgoing.{
  Delivery, UpstreamDelivery, TranscoderDelivery, Call, Run, drop_frame,
}
use qsp.Routing.Core.Deliver.{
  contains_peer, retarget, allowed_at, send_upstream, send_transcoder, send_peer, is_qsp_link,
}
use qsp.Routing.Core.Scoped.{route_scoped, call_of}
use qsp.Routing.Core.Loop.{MayForward, Steps, peer_place}
use qsp.Routing.Core.Ran.{route_scoped-Ran}

-- The frame's talkgroup is on the list of its timeslot, or it is a private call, which has none.
abbrev pub IsPermitted : Lists → Data → Type 0
IsPermitted access frame =
    (frame.call_type ≡ 1) ⊎ (allows (talkgroups access frame.timeslot) frame.target_id ≡ true)

-- The upstream may have a frame from this origin: the origin is no link, or this is another link,
-- and one that speaks QSP.
abbrev pub IsLinkable : (Text → Text) → (Text → Text → Bool) → Core → Endpoint → Text → Type 0
IsLinkable lower equal_fold c origin name =
    (origin.upstream ≡ [])
    ⊎ ((equal_fold name origin.upstream ≡ false) × (lookup text_eq c.qsp_links (lower name) ≢ none))

is_empty_nil : (t : Text) → is_empty t ≡ true → t ≡ []
is_empty_nil [] h = refl
is_empty_nil (x ∷ t) h = cc

module _ (lower : Text → Text) (equal_fold : Text → Text → Bool) (c : Core) (net : Network)
    (call : Call) where
  abbrev AboutDelivery : Delivery → Type 0
  AboutDelivery d = IsPermitted c.access d.frame

  abbrev AboutUpstream : UpstreamDelivery → Type 0
  AboutUpstream u =
      IsPermitted c.access u.frame × IsLinkable lower equal_fold c call.origin u.upstream

  abbrev AboutTranscoder : TranscoderDelivery → Type 0
  AboutTranscoder t = IsPermitted c.access t.frame

  abbrev Permitted : Run → Type 0
  Permitted r =
      All AboutDelivery r.deliveries
      × All AboutUpstream r.upstreams
      × All AboutTranscoder r.transcoders

  IsPermitted-at :
      (dest : Endpoint)
      → allowed_at c net call dest ≡ true
      → IsPermitted c.access (retarget call.frame dest)
  unfolding allowed_at talkgroup_allowed retarget
  IsPermitted-at dest on = elim (Bool-cases (call.frame.call_type == 1)) [
    | inl private' ↦ inl ((==_iff call.frame.call_type 1).0 private')
    | inr group ↦ inr (rw group at on)
  ]

  MayForward-IsLinkable :
      (name : Text)
      → MayForward c net call lower equal_fold name
      → IsLinkable lower equal_fold c call.origin name
  unfolding is_qsp_link
  MayForward-IsLinkable name (inl e) = inl (is_empty_nil call.origin.upstream e)
  MayForward-IsLinkable name (inr (other, link)) =
      inr (other, λ absent. cc (rw (is_qsp_link, absent) at link))

  send_upstream-Permitted :
      (r : Run) (dest : Endpoint) (p : Busy × Claim)
      → allowed_at c net call dest ≡ true
      → MayForward c net call lower equal_fold dest.upstream
      → Permitted r
      → Permitted (send_upstream c net call r dest p)
  unfolding send_upstream drop_frame
  send_upstream-Permitted r dest (b, refused held) on may h = (h.0, h.1, h.2)
  send_upstream-Permitted r dest (b, _) on may h = (
    h.0,
    All-concat AboutUpstream r.upstreams _ h.1
        (IsPermitted-at dest on, MayForward-IsLinkable dest.upstream may),
    h.2,
  )

  send_transcoder-Permitted :
      (r : Run) (dest : Endpoint) (p : Busy × Claim)
      → allowed_at c net call dest ≡ true
      → Permitted r
      → Permitted (send_transcoder c net call r dest p)
  unfolding send_transcoder drop_frame
  send_transcoder-Permitted r dest (b, refused held) on h = (h.0, h.1, h.2)
  send_transcoder-Permitted r dest (b, _) on h =
      (h.0, h.1, All-concat AboutTranscoder r.transcoders _ h.2 (IsPermitted-at dest on))

  -- What a claim that is not refused does to the lists of the loop.
  send_peer-lists :
      (r : Run) (dest : Endpoint) (b : Busy) (outcome : Claim)
      → let after = send_peer c net call r dest (b, outcome) in
        (after.upstreams ≡ r.upstreams)
        × (after.transcoders ≡ r.transcoders)
        × ((after.deliveries ≡ r.deliveries)
            ⊎ (after.deliveries
                ≡ concat r.deliveries (record {
                  peer = dest.peer;
                  frame = record (retarget call.frame dest) { repeater_id = dest.peer };
                  bridge = call.bridge;
                })))
  unfolding send_peer drop_frame
  send_peer-lists r dest b (refused held) = (refl, refl, inl refl)
  send_peer-lists r dest b _ = elim (Bool-cases (contains_peer r.delivered dest.peer)) [
    | inl again ↦ rw again (refl, refl, inl refl)
    | inr first ↦ rw first (refl, refl, inr refl)
  ]

  send_peer-Permitted :
      (r : Run) (dest : Endpoint) (p : Busy × Claim)
      → allowed_at c net call dest ≡ true
      → Permitted r
      → Permitted (send_peer c net call r dest p)
  unfolding talkgroup_allowed retarget
  send_peer-Permitted r dest (b, outcome) on h =
      let (up, across, to_peer) = send_peer-lists r dest b outcome in
      (
        elim to_peer [
          | inl same ↦ rw same h.0
          | inr one ↦ rw one (All-concat AboutDelivery r.deliveries _ h.0 (IsPermitted-at dest on))
        ],
        rw up h.1,
        rw across h.2,
      )

  Permitted-Steps : Steps c net call lower equal_fold Permitted
  unfolding drop_frame
  Permitted-Steps = record {
    on_drop = λ r d h. (h.0, h.1, h.2);
    on_upstream = λ r dest on may h. send_upstream-Permitted r dest _ on may h;
    on_transcoder = λ r dest on h. send_transcoder-Permitted r dest _ on h;
    on_peer = λ r peer talkgroup timeslot on h.
        send_peer-Permitted r (peer_place peer talkgroup timeslot) _ on h;
  }

-- Every copy of a frame that leaves, to a peer, an upstream or a transcoder, is a private call or on
-- a talkgroup that the access lists permit on its timeslot, and goes to an upstream only if the
-- frame did not come from a link, or this is another link that speaks QSP.
pub route_scoped-IsPermitted :
    (lower : Text → Text) (equal_fold : Text → Text → Bool) (c : Core) (net : Network)
    (origin : Endpoint) (frame : Data) (now : ℕ) (local : Bool)
    → let res = (route_scoped lower equal_fold c net origin frame now local).1 in
      All (λ d. IsPermitted c.access d.frame) res.deliveries
      × All
          (λ u. IsPermitted c.access u.frame × IsLinkable lower equal_fold c origin u.upstream)
          res.upstreams
      × All (λ t. IsPermitted c.access t.frame) res.transcoders
route_scoped-IsPermitted lower equal_fold c net origin frame now local =
    let call = call_of net origin frame (route c.table origin) local now in
    let ran =
      route_scoped-Ran lower equal_fold c net origin frame now local
        (Permitted lower equal_fold c net call) (λ busy drops. (tt, tt, tt))
        (λ m. Permitted-Steps lower equal_fold (record c { carrying = m }) net call) in
    (
      rw ran.deliveries_are ran.holds.0,
      rw ran.upstreams_are ran.holds.1,
      rw ran.transcoders_are ran.holds.2,
    )
