-- ===== src/Routing/Table/Collect.antt =====
-- The loops of Route: which endpoints they gather, with no endpoint twice.
use qsp.Prelude.{
  ◌≡◌, ◌↔◌, ◌⊎◌, inl, inr, refl, true, false, List, [], ◌∷◌, arith, In, Distinct, Distinct-concat,
  In-append_left, In-append_right, In-append_cases, Bool-cases,
}
use qsp.Routing.Endpoint.{Endpoint, endpoint_eq, matches}
use qsp.Routing.Endpoint.Laws.{endpoint_eq_iff}
use qsp.Routing.Table.{
  Bridge, contains, bridge_matches, Scan, Collected, collect_one, collect, visit, scan,
}

contains-In : (xs : List Endpoint) (e : Endpoint) → contains xs e ≡ true → In e xs
unfolding contains
contains-In [] e h = cc
contains-In (x ∷ xs) e h = elim (Bool-cases (endpoint_eq e x)) [
  | inl t ↦ inl ((endpoint_eq_iff e x).0 t)
  | inr t ↦ inr (contains-In xs e (rw t at h))
]

In-contains : (xs : List Endpoint) (e : Endpoint) → In e xs → contains xs e ≡ true
unfolding contains
In-contains [] e h = absurd h
In-contains (x ∷ xs) e (inl p) = rw ((endpoint_eq_iff e x).1 p) refl
In-contains (x ∷ xs) e (inr h) = ground (arith, In-contains xs e h)

pub contains_iff : (xs : List Endpoint) (e : Endpoint) → (contains xs e ≡ true) ↔ In e xs
contains_iff xs e = (contains-In xs e, In-contains xs e)

collect_one-Distinct :
    (from : Endpoint) (c : Collected) (e : Endpoint)
    → Distinct c.found
    → Distinct (collect_one from c e).found
unfolding collect_one
collect_one-Distinct from c e d = elim (Bool-cases (matches e from)) [
  | inl t ↦ rw t d
  | inr t ↦ elim (Bool-cases (contains c.found e)) [
    | inl u ↦ rw (t, u) d
    | inr u ↦ rw (t, u) (Distinct-concat c.found e d (λ i. cc (In-contains c.found e i)))
  ]
]

collect_one_old :
    (from : Endpoint) (c : Collected) (e a : Endpoint)
    → In a c.found
    → In a (collect_one from c e).found
unfolding collect_one
collect_one_old from c e a h = elim (Bool-cases (matches e from)) [
  | inl t ↦ rw t h
  | inr t ↦ elim (Bool-cases (contains c.found e)) [
    | inl u ↦ rw (t, u) h
    | inr u ↦ rw (t, u) (In-append_left a c.found (e ∷ []) h)
  ]
]

collect_one_new :
    (from : Endpoint) (c : Collected) (e : Endpoint)
    → matches e from ≡ false
    → In e (collect_one from c e).found
unfolding collect_one
collect_one_new from c e t = elim (Bool-cases (contains c.found e)) [
  | inl u ↦ rw (t, u) (contains-In c.found e u)
  | inr u ↦ rw (t, u) (In-append_right e c.found (e ∷ []) (inl refl))
]

collect_one_only :
    (from : Endpoint) (c : Collected) (e a : Endpoint)
    → In a (collect_one from c e).found
    → In a c.found ⊎ ((a ≡ e) × (matches a from ≡ false))
unfolding collect_one
collect_one_only from c e a h = elim (Bool-cases (matches e from)) [
  | inl t ↦ inl (rw t at h)
  | inr t ↦ elim (Bool-cases (contains c.found e)) [
    | inl u ↦ inl (rw (t, u) at h)
    | inr u ↦ elim (In-append_cases a c.found (e ∷ []) (rw (t, u) at h)) [
      | inl i ↦ inl i
      | inr (inl p) ↦ inr (p, rw p t)
      | inr (inr f) ↦ absurd f
    ]
  ]
]

collect-Distinct :
    (from : Endpoint) (c : Collected) (es : List Endpoint)
    → Distinct c.found
    → Distinct (collect from c es).found
unfolding collect
collect-Distinct from c [] d = d
collect-Distinct from c (e ∷ es) d =
    collect-Distinct from (collect_one from c e) es (collect_one-Distinct from c e d)

collect_old :
    (from : Endpoint) (c : Collected) (es : List Endpoint) (a : Endpoint)
    → In a c.found
    → In a (collect from c es).found
unfolding collect
collect_old from c [] a h = h
collect_old from c (e ∷ es) a h =
    collect_old from (collect_one from c e) es a (collect_one_old from c e a h)

collect_new :
    (from : Endpoint) (c : Collected) (es : List Endpoint) (a : Endpoint)
    → In a es
    → matches a from ≡ false
    → In a (collect from c es).found
unfolding collect
collect_new from c [] a h m = absurd h
collect_new from c (e ∷ es) a (inl p) m =
    rw p (collect_old from (collect_one from c e) es e (collect_one_new from c e (rw p at m)))
collect_new from c (e ∷ es) a (inr h) m = collect_new from (collect_one from c e) es a h m

collect_only :
    (from : Endpoint) (c : Collected) (es : List Endpoint) (a : Endpoint)
    → In a (collect from c es).found
    → In a c.found ⊎ (In a es × (matches a from ≡ false))
unfolding collect
collect_only from c [] a h = inl h
collect_only from c (e ∷ es) a h = elim (collect_only from (collect_one from c e) es a h) [
  | inr (i, m) ↦ inr (inr i, m)
  | inl i ↦ elim (collect_one_only from c e a i) [ inl i' ↦ inl i' | inr (p, m) ↦ inr (inl p, m) ]
]

-- The bridge carries a call from `from` to the endpoint: it is enabled, one of its endpoints covers
-- the source, and the endpoint is one of its own that does not.
abbrev pub Carries : Bridge → Endpoint → Endpoint → Type 0
Carries b from e =
    (b.enabled ≡ true)
    × (bridge_matches b from ≡ true)
    × In e b.endpoints
    × (matches e from ≡ false)

-- Some bridge of the list does.
abbrev pub Carried : List Bridge → Endpoint → Endpoint → Type 0
Carried [] from e = ⊥
Carried (b ∷ bs) from e = Carries b from e ⊎ Carried bs from e

visit-Distinct :
    (from : Endpoint) (s : Scan) (b : Bridge)
    → Distinct s.targets
    → Distinct (visit from s b).targets
unfolding visit
visit-Distinct from s b d =
    ground
      (arith, collect-Distinct from (record { carries = false; found = s.targets }) b.endpoints d)

visit_old :
    (from : Endpoint) (s : Scan) (b : Bridge) (e : Endpoint)
    → In e s.targets
    → In e (visit from s b).targets
unfolding visit
visit_old from s b e h =
    ground (arith, collect_old from (record { carries = false; found = s.targets }) b.endpoints e h)

visit_new :
    (from : Endpoint) (s : Scan) (b : Bridge) (e : Endpoint)
    → Carries b from e
    → In e (visit from s b).targets
unfolding visit
visit_new from s b e (on, m, i, n) =
    rw (on, m) (collect_new from (record { carries = false; found = s.targets }) b.endpoints e i n)

visit_only :
    (from : Endpoint) (s : Scan) (b : Bridge) (e : Endpoint)
    → In e (visit from s b).targets
    → In e s.targets ⊎ Carries b from e
unfolding visit
visit_only from s b e h = elim (Bool-cases (bridge_matches b from)) [
  | inr m ↦ inl (rw m at h)
  | inl m ↦ elim (Bool-cases b.enabled) [
    | inr off ↦ inl (rw (m, off) at h)
    | inl on ↦ elim (collect_only from _ b.endpoints e (rw (m, on) at h)) [
      | inl i ↦ inl i
      | inr (i, n) ↦ inr (on, m, i, n)
    ]
  ]
]

pub scan-Distinct :
    (from : Endpoint) (s : Scan) (bs : List Bridge)
    → Distinct s.targets
    → Distinct (scan from s bs).targets
unfolding scan
scan-Distinct from s [] d = d
scan-Distinct from s (b ∷ bs) d = scan-Distinct from (visit from s b) bs (visit-Distinct from s b d)

scan_old :
    (from : Endpoint) (s : Scan) (bs : List Bridge) (e : Endpoint)
    → In e s.targets
    → In e (scan from s bs).targets
unfolding scan
scan_old from s [] e h = h
scan_old from s (b ∷ bs) e h = scan_old from (visit from s b) bs e (visit_old from s b e h)

pub Carried-scan :
    (from : Endpoint) (s : Scan) (bs : List Bridge) (e : Endpoint)
    → Carried bs from e
    → In e (scan from s bs).targets
unfolding scan
Carried-scan from s [] e h = absurd h
Carried-scan from s (b ∷ bs) e (inl c) =
    scan_old from (visit from s b) bs e (visit_new from s b e c)
Carried-scan from s (b ∷ bs) e (inr c) = Carried-scan from (visit from s b) bs e c

pub scan-Carried :
    (from : Endpoint) (s : Scan) (bs : List Bridge) (e : Endpoint)
    → In e (scan from s bs).targets
    → In e s.targets ⊎ Carried bs from e
unfolding scan
scan-Carried from s [] e h = inl h
scan-Carried from s (b ∷ bs) e h = elim (scan-Carried from (visit from s b) bs e h) [
  | inr c ↦ inr (inr c)
  | inl i ↦ elim (visit_only from s b e i) [ inl i' ↦ inl i' | inr c ↦ inr (inl c) ]
]
