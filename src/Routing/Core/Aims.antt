-- ===== src/Routing/Core/Aims.antt =====
-- Where the targets of a frame come from, and which are left of them where it is local.
use qsp.Prelude.{
  sym, ap, ◌&&◌, ℕ, ◌≡◌, inl, inr, refl, true, false, List, [], ◌∷◌, map, Bool-cases, In,
}
use qsp.Prelude.Text.{Text, is_empty}
use qsp.Hbp.Data.{Data}
use qsp.Routing.Endpoint.{Endpoint}
use qsp.Routing.Core.{Core, sorted_qsp_links}
use qsp.Routing.Core.Outgoing.{Delivery, RouteTarget}
use qsp.Routing.Core.Find.{only_peers, on_upstream, target_of, group_targets}
use qsp.Routing.Core.Once.{peers_of}

pub In-peers_of :
    (ds : List Delivery) (peer : ℕ)
    → In peer (peers_of ds)
    → (d : Delivery) × In d ds × (d.peer ≡ peer)
In-peers_of [] peer i = absurd i
In-peers_of (d ∷ ds) peer (inl e) = (d, inl refl, sym e)
In-peers_of (d ∷ ds) peer (inr i) = let (x, j, e) = In-peers_of ds peer i in (x, inr j, e)

pub In-only_peers : (t : RouteTarget) (ts : List RouteTarget) → In t (only_peers ts) → In t ts
unfolding only_peers
In-only_peers t [] i = i
In-only_peers t (u ∷ ts) i =
    elim (Bool-cases (is_empty u.endpoint.upstream && is_empty u.endpoint.transcoder)) [
      | inl y ↦ elim (rw y at i) [ inl e ↦ inl e | inr j ↦ inr (In-only_peers t ts j) ]
      | inr n ↦ inr (In-only_peers t ts (rw n at i))
    ]

pub only_peers-In :
    (t : RouteTarget) (ts : List RouteTarget)
    → (is_empty t.endpoint.upstream && is_empty t.endpoint.transcoder) ≡ true
    → In t ts
    → In t (only_peers ts)
unfolding only_peers
only_peers-In t [] y i = i
only_peers-In t (u ∷ ts) y (inl e) = rw (← e, y) (inl refl)
only_peers-In t (u ∷ ts) y (inr i) =
    let rest = only_peers-In t ts y i in
    elim (Bool-cases (is_empty u.endpoint.upstream && is_empty u.endpoint.transcoder)) [
      | inl m ↦ rw m (inr rest)
      | inr n ↦ rw n rest
    ]

-- Each target that is found is one of the table or has the frame's own talkgroup and timeslot.
module _ (frame : Data) where
  abbrev pub IsOwn : RouteTarget → Type 0
  IsOwn t = (t.endpoint.talkgroup ≡ frame.target_id) × (t.endpoint.timeslot ≡ frame.timeslot)

  pub bridged_aim :
      (es : List Endpoint) (t : RouteTarget) → In t (map (target_of false) es) → In t.endpoint es
  bridged_aim [] t i = i
  bridged_aim (e ∷ es) t (inl same) = inl (ap (λ (u : RouteTarget). u.endpoint) same)
  bridged_aim (e ∷ es) t (inr i) = inr (bridged_aim es t i)

  linked_aim :
      (names : List Text) (t : RouteTarget)
      → In t (map (λ name. target_of true (on_upstream frame name)) names)
      → IsOwn t
  linked_aim [] t i = absurd i
  linked_aim (name ∷ names) t (inl same) = rw same (refl, refl)
  linked_aim (name ∷ names) t (inr i) = linked_aim names t i

  pub group_aim : (c : Core) (t : RouteTarget) → In t (group_targets c frame) → IsOwn t
  unfolding group_targets
  group_aim c t (inl same) = rw same (refl, refl)
  group_aim c t (inr i) = linked_aim (sorted_qsp_links c) t i
