-- ===== src/Routing/Table/Explain.antt =====
-- The reason that a decision with no target gives.
use qsp.Prelude.{
  ◌≡◌, ◌≢◌, ◌↔◌, ◌⊎◌, inl, inr, refl, sym, ◌∙◌, Bool, true, false, ◌||◌, Option, none, some, List,
  [], ◌∷◌, arith, In, All, All-of_In, In-append_left, In-append_right, In-append_cases, Bool-cases,
}
use qsp.Prelude.Sort.{sort, In-sort, In-of_sort}
use qsp.Prelude.Text.{Text, is_empty, text_less}
use mathlib.Core.Path.{subst}
use qsp.Routing.Endpoint.{
  Endpoint, EndpointKind, kind, kind_peer, kind_upstream, kind_transcoder, permits, endpoint_before,
}
use qsp.Routing.Table.{
  Bridge, Table, bridge_matches, Scan, visit, scan, start, Decision, decide, is_transcoded,
  route_bridges, route, Reason, no_bridges, not_permitted, no_bridge_includes, only_disabled,
  only_source, explain, permission_for,
}
use qsp.Routing.Table.Collect.{Carried}
use qsp.Routing.Table.Route.{
  Withheld, route_cases, route-targets, targets_bridges, bridges_withheld, withheld_bridges,
}

-- A disabled bridge of that name includes the source.
abbrev pub DisabledFor : List Bridge → Endpoint → Text → Type 0
DisabledFor [] from name = ⊥
DisabledFor (b ∷ bs) from name =
    ((name ≡ b.name) × (bridge_matches b from ≡ true) × (b.enabled ≡ false))
    ⊎ DisabledFor bs from name

-- Some bridge includes the source.
abbrev pub includes : List Bridge → Endpoint → Bool
includes [] from = false
includes (b ∷ bs) from = bridge_matches b from || includes bs from

-- What each reason says of the table and the source.
abbrev pub Explains : Table → Endpoint → Reason → Type 0
Explains t from no_bridges = t.bridges ≡ []
Explains t from (not_permitted name es) =
    (name ≡ from.transcoder)
    × (es ≢ [])
    × ((e : Endpoint) → In e es ↔ Carried t.bridges from e)
    × All (Withheld t from) es
Explains t from (no_bridge_includes e) = (e ≡ from) × (includes t.bridges from ≡ false)
Explains t from (only_disabled e names) =
    (e ≡ from)
    × (names ≢ [])
    × ((n : Text) → In n names ↔ DisabledFor t.bridges from n)
    × ((a : Endpoint) → ¬ Carried t.bridges from a)
Explains t from (only_source e) =
    (e ≡ from)
    × (includes t.bridges from ≡ true)
    × ((n : Text) → ¬ DisabledFor t.bridges from n)
    × ((a : Endpoint) → ¬ Carried t.bridges from a)

visit_matched :
    (from : Endpoint) (s : Scan) (b : Bridge)
    → (visit from s b).matched_any ≡ (bridge_matches b from || s.matched_any)
unfolding visit
visit_matched from s b = ground arith

scan_matched :
    (from : Endpoint) (s : Scan) (bs : List Bridge)
    → (scan from s bs).matched_any ≡ (s.matched_any || includes bs from)
unfolding scan
scan_matched from s [] = ground arith
scan_matched from s (b ∷ bs) =
    ground (arith, scan_matched from (visit from s b) bs, visit_matched from s b)

visit_disabled :
    (from : Endpoint) (s : Scan) (b : Bridge) (n : Text)
    → In n (visit from s b).disabled
      ↔ (In n s.disabled ⊎ ((n ≡ b.name) × (bridge_matches b from ≡ true) × (b.enabled ≡ false)))
unfolding visit
visit_disabled from s b n = elim (Bool-cases (bridge_matches b from)) [
  | inr m ↦ rw m (inl, λ h. elim h [ inl i ↦ i | inr p ↦ cc (p.1) ])
  | inl m ↦ elim (Bool-cases b.enabled) [
    | inl on ↦ rw (m, on) (inl, λ h. elim h [ inl i ↦ i | inr p ↦ cc (p.2) ])
    | inr off ↦
        rw (m, off)
          (
            λ h. elim (In-append_cases n s.disabled (b.name ∷ []) h) [
              | inl i ↦ inl i
              | inr (inl p) ↦ inr (p, refl, refl)
              | inr (inr f) ↦ absurd f
            ],
            λ h. elim h [
              | inl i ↦ In-append_left n s.disabled (b.name ∷ []) i
              | inr p ↦ In-append_right n s.disabled (b.name ∷ []) (inl p.0)
            ],
          )
  ]
]

scan_disabled :
    (from : Endpoint) (s : Scan) (bs : List Bridge) (n : Text)
    → In n (scan from s bs).disabled ↔ (In n s.disabled ⊎ DisabledFor bs from n)
unfolding scan
scan_disabled from s [] n = (inl, λ h. elim h [ inl i ↦ i | inr f ↦ absurd f ])
scan_disabled from s (b ∷ bs) n =
    let ih = scan_disabled from (visit from s b) bs n in
    let step = visit_disabled from s b n in
    (
      λ h. elim (ih.0 h) [
        | inr c ↦ inr (inr c)
        | inl i ↦ elim (step.0 i) [ inl j ↦ inl j | inr c ↦ inr (inl c) ]
      ],
      λ h. ih.1 (elim h [
        | inl i ↦ inl (step.1 (inl i))
        | inr (inl c) ↦ inl (step.1 (inr c))
        | inr (inr c) ↦ inr c
      ]),
    )

sort-ne-nil : {A : Type 0} (less : A → A → Bool) (x : A) (xs : List A) → sort less (x ∷ xs) ≢ []
sort-ne-nil less x xs e = rw e at (In-sort less x (x ∷ xs) (inl refl))

no_In-nil : {A : Type 0} (xs : List A) → ((a : A) → ¬ In a xs) → xs ≡ []
no_In-nil [] h = refl
no_In-nil (x ∷ xs) h = absurd (h x (inl refl))

decide_reason :
    (from : Endpoint) (s : Scan) (ts ws : List Endpoint) (r : Reason)
    → (decide from s ts ws).reason ≡ some r
    → ((decide from s ts ws).targets ≡ []) × (r ≡ explain from (decide from s ts ws).withheld s)
unfolding decide sort
decide_reason from s [] ws r e = ground arith
decide_reason from s (t ∷ ts) ws r e = cc

route_bridges_reason :
    (t : Table) (from : Endpoint) (r : Reason)
    → (route_bridges t from).reason ≡ some r
    → ((route_bridges t from).targets ≡ [])
      × (r ≡ explain from (route_bridges t from).withheld (scan from start t.bridges))
unfolding route_bridges
route_bridges_reason t from r e = elim (Bool-cases (is_empty from.transcoder)) [
  | inl plain ↦ rw plain (decide_reason from _ _ [] r (rw plain at e))
  | inr coded ↦ rw coded (decide_reason from _ _ _ r (rw coded at e))
]

Withheld-cases : (t : Table) (from e : Endpoint) → Withheld t from e ⊎ (¬ Withheld t from e)
Withheld-cases t from e = elim (Bool-cases (is_transcoded from)) [
  | inr plain ↦ inr (λ w. cc (w.0))
  | inl coded ↦ elim (Bool-cases (permits (permission_for t.permissions from.transcoder) e.peer)) [
    | inl p ↦ inr (λ w. cc (w.2))
    | inr p ↦ elim (kind-cases (kind e)) [ inl k ↦ inl (coded, k, p) | inr k ↦ inr (λ w. k w.1) ]
  ]
]
  where
    kind-cases : (k : EndpointKind) → (k ≡ kind_peer) ⊎ (k ≢ kind_peer)
    kind-cases kind_peer = inl refl
    kind-cases kind_upstream = inr (λ e. cc)
    kind-cases kind_transcoder = inr (λ e. cc)

-- The facts that the reason rests on, for a list of withheld endpoints.
module _ (t : Table) (from : Endpoint)
    (none_left : (e : Endpoint) → Carried t.bridges from e → Withheld t from e) where
  explain-Explains :
      (w : List Endpoint)
      → ((e : Endpoint) → In e w ↔ (Carried t.bridges from e × Withheld t from e))
      → Explains t from (explain from w (scan from start t.bridges))
  unfolding explain
  explain-Explains (x ∷ w) h = (
    refl,
    λ e. cc,
    λ e. (λ i. ((h e).0 i).0, λ c. (h e).1 (c, none_left e c)),
    All-of_In (x ∷ w) (λ e i. ((h e).0 i).1),
  )
  explain-Explains [] h =
      let no_carried : (a : Endpoint) → ¬ Carried t.bridges from a =
        λ a c. (h a).1 (c, none_left a c) in
      elim (Bool-cases (scan from start t.bridges).matched_any) [
        | inr m ↦ rw m (refl, sym (scan_matched from start t.bridges) ∙ m)
        | inl m ↦ rw m (
            disabled_part (scan from start t.bridges).disabled
              (λ n. scan_disabled from start t.bridges n)
              (sym (scan_matched from start t.bridges) ∙ m) no_carried)
      ]
    where
      disabled_part :
          (ds : List Text)
          → ((n : Text) → In n ds ↔ (⊥ ⊎ DisabledFor t.bridges from n))
          → includes t.bridges from ≡ true
          → ((a : Endpoint) → ¬ Carried t.bridges from a)
          → Explains t from (elim ds [
            | [] ↦ only_source from
            | name ∷ names ↦ only_disabled from (sort text_less (name ∷ names))
          ])
      disabled_part [] d m c = (refl, m, λ n x. (d n).1 (inr x), c)
      disabled_part (n ∷ ns) d m c = (
        refl,
        sort-ne-nil text_less n ns,
        λ a. (
          λ i. elim ((d a).0 (In-of_sort text_less a (n ∷ ns) i)) [ inl f ↦ absurd f | inr x ↦ x ],
          λ x. In-sort text_less a (n ∷ ns) ((d a).1 (inr x)),
        ),
        c,
      )

-- What each reason that a decision gives says of the table and the source: no_bridges, the table has
-- none; not_permitted, the endpoints it lists are exactly those that an enabled bridge carries the
-- source to, and each is a peer that does not permit the transcoder; no_bridge_includes, no bridge
-- includes the source; only_disabled, the names it lists are exactly those of the disabled bridges
-- that include the source, there is at least one, and no enabled bridge carries the source to an
-- endpoint that does not cover it; only_source, some bridge includes the source, no disabled one
-- does, and again none carries it.
pub route-Explains :
    (t : Table) (from : Endpoint) (r : Reason) → (route t from).reason ≡ some r → Explains t from r
unfolding route
route-Explains t from r e = go t.bridges refl e
  where
    go :
        (bs : List Bridge)
        → t.bridges ≡ bs
        → (elim bs as (λ _. Decision) [
          | [] ↦ record { targets = []; bridges = []; reason = some no_bridges; withheld = [] }
          | b ∷ rest ↦ route_bridges t from
        ]).reason
          ≡ some r
        → Explains t from r
    go [] p q = let same : no_bridges ≡ r = ground arith in subst (Explains t from) same p
    go (b ∷ bs) p q =
        let (empty, same) = route_bridges_reason t from r q in
        rw same (
          explain-Explains t from
            (λ x c. elim (Withheld-cases t from x) [
              | inl w ↦ w
              | inr n ↦ absurd (rw empty at (targets_bridges t from x c n))
            ])
            (route_bridges t from).withheld
            (λ x. (bridges_withheld t from x, λ y. withheld_bridges t from x y.0 y.1)))

decide_silent :
    (from : Endpoint) (s : Scan) (ts ws : List Endpoint)
    → ((decide from s ts ws).reason ≡ none) ↔ ((decide from s ts ws).targets ≢ [])
unfolding decide
decide_silent from s [] ws = ((λ e. cc), λ h. absurd (h (unfold sort in refl)))
decide_silent from s (t ∷ ts) ws = ((λ e. sort-ne-nil endpoint_before t ts), λ h. refl)

bridges_reason :
    (t : Table) (from : Endpoint)
    → ((route_bridges t from).reason ≡ none) ↔ ((route_bridges t from).targets ≢ [])
unfolding route_bridges
bridges_reason t from = elim (Bool-cases (is_empty from.transcoder)) [
  | inl plain ↦ rw plain (decide_silent from _ _ [])
  | inr coded ↦ rw coded (decide_silent from _ _ _)
]

-- A decision gives a reason exactly when it has no target.
route-reason :
    (t : Table) (from : Endpoint) → ((route t from).reason ≡ none) ↔ ((route t from).targets ≢ [])
route-reason t from =
    route_cases (λ bs d. (d.reason ≡ none) ↔ (d.targets ≢ [])) t from
      ((λ e. cc), λ h. absurd (h refl)) (bridges_reason t from)

targets-silent :
    (t : Table) (from : Endpoint)
    → ((a : Endpoint) → ¬ Carried t.bridges from a)
    → (route t from).targets ≡ []
targets-silent t from silent =
    no_In-nil (route t from).targets (λ a i. silent a ((route-targets t from a).0 i).0)

In-includes :
    (bs : List Bridge) (b : Bridge) (from : Endpoint)
    → In b bs
    → bridge_matches b from ≡ true
    → includes bs from ≡ true
In-includes [] b from i m = absurd i
In-includes (c ∷ bs) b from (inl e) m =
    let first = subst (λ x. bridge_matches x from ≡ true) e m in rw first refl
In-includes (c ∷ bs) b from (inr i) m = ground (arith, In-includes bs b from i m)

-- When a bridge that is enabled and includes the source carries it to no endpoint, nor does another,
-- and a disabled bridge includes it too, the reason is that its only bridges are disabled.
pub route-blames_disabled :
    (t : Table) (from : Endpoint) (b : Bridge) (n : Text)
    → In b t.bridges
    → b.enabled ≡ true
    → bridge_matches b from ≡ true
    → DisabledFor t.bridges from n
    → ((a : Endpoint) → ¬ Carried t.bridges from a)
    → (names : List Text) × ((route t from).reason ≡ some (only_disabled from names))
      × ((m : Text) → In m names ↔ DisabledFor t.bridges from m)
route-blames_disabled t from b n i on m off silent = blamed (route t from).reason refl
  where
    blamed :
        (r : Option Reason)
        → (route t from).reason ≡ r
        → (names : List Text) × ((route t from).reason ≡ some (only_disabled from names))
          × ((m : Text) → In m names ↔ DisabledFor t.bridges from m)
    blamed none e = absurd ((route-reason t from).0 e (targets-silent t from silent))
    blamed (some no_bridges) e =
        absurd (subst (λ bs. In b bs) (route-Explains t from no_bridges e) i)
    blamed (some (not_permitted name es)) e =
        let x = route-Explains t from (not_permitted name es) e in
        absurd (x.1 (no_In-nil es (λ a j. silent a ((x.2 a).0 j))))
    blamed (some (no_bridge_includes a)) e =
        let x = route-Explains t from (no_bridge_includes a) e in
        let yes = In-includes t.bridges b from i m in cc
    blamed (some (only_disabled a names)) e =
        let x = route-Explains t from (only_disabled a names) e in
        (names, subst (λ y. (route t from).reason ≡ some (only_disabled y names)) x.0 e, x.2)
    blamed (some (only_source a)) e = absurd ((route-Explains t from (only_source a) e).2 n off)
