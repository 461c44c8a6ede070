-- ===== src/Routing/Table/Used.antt =====
-- The bridges that a decision names.
use qsp.Prelude.{
  ◌≡◌, ◌↔◌, ◌⊎◌, inl, inr, refl, true, false, List, [], ◌∷◌, arith, In, In-append_left,
  In-append_right, In-append_cases, Bool-cases,
}
use qsp.Prelude.Sort.{In-sort, In-of_sort}
use qsp.Prelude.Text.{Text, is_empty, text_less}
use qsp.Routing.Endpoint.{Endpoint, matches}
use qsp.Routing.Table.{
  Bridge, Table, bridge_matches, Scan, Collected, collect_one, collect, visit, scan, start,
  route_bridges, route,
}
use qsp.Routing.Table.Collect.{Carries}
use qsp.Routing.Table.Route.{route_cases}

carries_old :
    (from : Endpoint) (c : Collected) (es : List Endpoint)
    → c.carries ≡ true
    → (collect from c es).carries ≡ true
unfolding collect
carries_old from c [] h = h
carries_old from c (e ∷ es) h =
    carries_old from (collect_one from c e) es (unfold collect_one in ground arith)

carries_new :
    (from : Endpoint) (c : Collected) (es : List Endpoint) (a : Endpoint)
    → In a es
    → matches a from ≡ false
    → (collect from c es).carries ≡ true
unfolding collect
carries_new from c [] a h m = absurd h
carries_new from c (e ∷ es) a (inl p) m =
    carries_old from (collect_one from c e) es (unfold collect_one in rw (rw p at m) refl)
carries_new from c (e ∷ es) a (inr h) m = carries_new from (collect_one from c e) es a h m

carries_only :
    (from : Endpoint) (c : Collected) (es : List Endpoint)
    → (collect from c es).carries ≡ true
    → (c.carries ≡ true) ⊎ ((e : Endpoint) × In e es × (matches e from ≡ false))
unfolding collect
carries_only from c [] h = inl h
carries_only from c (e ∷ es) h = elim (carries_only from (collect_one from c e) es h) [
  | inr (a, i, m) ↦ inr (a, inr i, m)
  | inl p ↦ elim (Bool-cases (matches e from)) [
    | inl t ↦ inl (unfold collect_one in rw t at p)
    | inr t ↦ inr (e, inl refl, t)
  ]
]

-- A bridge of that name carries the call to some endpoint.
abbrev CarriedBy : List Bridge → Endpoint → Text → Type 0
CarriedBy [] from name = ⊥
CarriedBy (b ∷ bs) from name =
    ((name ≡ b.name) × ((e : Endpoint) × Carries b from e)) ⊎ CarriedBy bs from name

visit_used :
    (from : Endpoint) (s : Scan) (b : Bridge) (n : Text)
    → In n (visit from s b).used
    → In n s.used ⊎ ((n ≡ b.name) × ((e : Endpoint) × Carries b from e))
unfolding visit
visit_used from s b n h = elim (Bool-cases (bridge_matches b from)) [
  | inr m ↦ inl (rw m at h)
  | inl m ↦ elim (Bool-cases b.enabled) [
    | inr off ↦ inl (rw (m, off) at h)
    | inl on ↦
        let c = collect from (record { carries = false; found = s.targets }) b.endpoints in
        elim (Bool-cases c.carries) [
          | inr k ↦ inl (rw (m, on, k) at h)
          | inl k ↦ elim (In-append_cases n s.used (b.name ∷ []) (rw (m, on, k) at h)) [
            | inl i ↦ inl i
            | inr (inr f) ↦ absurd f
            | inr (inl p) ↦ elim (carries_only from _ b.endpoints k) [
              | inl f ↦ absurd (cc f)
              | inr (e, i, x) ↦ inr (p, (e, (on, m, i, x)))
            ]
          ]
        ]
  ]
]

used_visit :
    (from : Endpoint) (s : Scan) (b : Bridge) (n : Text)
    → In n s.used ⊎ ((n ≡ b.name) × ((e : Endpoint) × Carries b from e))
    → In n (visit from s b).used
unfolding visit
used_visit from s b n (inl i) = elim (Bool-cases (bridge_matches b from)) [
  | inr m ↦ rw m i
  | inl m ↦ elim (Bool-cases b.enabled) [
    | inr off ↦ rw (m, off) i
    | inl on ↦
        let c = collect from (record { carries = false; found = s.targets }) b.endpoints in
        elim (Bool-cases c.carries) [
          | inr k ↦ rw (m, on, k) i
          | inl k ↦ rw (m, on, k) (In-append_left n s.used (b.name ∷ []) i)
        ]
  ]
]
used_visit from s b n (inr (p, (e, (on, m, i, x)))) =
    rw (m, on, carries_new from (record { carries = false; found = s.targets }) b.endpoints e i x)
      (In-append_right n s.used (b.name ∷ []) (inl p))

scan_used :
    (from : Endpoint) (s : Scan) (bs : List Bridge) (n : Text)
    → In n (scan from s bs).used ↔ (In n s.used ⊎ CarriedBy bs from n)
unfolding scan
scan_used from s [] n = (inl, λ h. elim h [ inl i ↦ i | inr f ↦ absurd f ])
scan_used from s (b ∷ bs) n =
    let ih = scan_used from (visit from s b) bs n in
    (
      λ h. elim (ih.0 h) [
        | inr c ↦ inr (inr c)
        | inl i ↦ elim (visit_used from s b n i) [ inl j ↦ inl j | inr c ↦ inr (inl c) ]
      ],
      λ h. ih.1 (elim h [
        | inl i ↦ inl (used_visit from s b n (inl i))
        | inr (inl c) ↦ inl (used_visit from s b n (inr c))
        | inr (inr c) ↦ inr c
      ]),
    )

bridges_used :
    (t : Table) (from : Endpoint) (n : Text)
    → In n (route_bridges t from).bridges ↔ CarriedBy t.bridges from n
unfolding route_bridges
bridges_used t from n =
    let used = scan_used from start t.bridges n in
    elim (Bool-cases (is_empty from.transcoder)) [
      | inl plain ↦ rw plain (
        λ h. elim (used.0 (In-of_sort text_less n _ h)) [ inl i ↦ absurd i | inr c ↦ c ],
        λ c. In-sort text_less n _ (used.1 (inr c)),
      )
      | inr coded ↦ rw coded (
        λ h. elim (used.0 (In-of_sort text_less n _ h)) [ inl i ↦ absurd i | inr c ↦ c ],
        λ c. In-sort text_less n _ (used.1 (inr c)),
      )
    ]

-- A decision names exactly the enabled bridges that would deliver the call somewhere, also those
-- whose every target another bridge had added before.
route-bridges :
    (t : Table) (from : Endpoint) (n : Text)
    → In n (route t from).bridges ↔ CarriedBy t.bridges from n
route-bridges t from n =
    route_cases (λ bs d. In n d.bridges ↔ CarriedBy bs from n) t from
      ((λ i. absurd i), λ c. absurd c) (bridges_used t from n)
