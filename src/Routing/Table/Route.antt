-- ===== src/Routing/Table/Route.antt =====
-- The decision of Route, against the bridges and the permissions of the table.
use qsp.Prelude.{
  ◌≡◌, ◌↔◌, inl, inr, refl, true, false, some, List, [], ◌∷◌, arith, In, Distinct, Bool-cases,
}
use qsp.Prelude.Sort.{IsSorted, IsSorted-sort, In-sort, In-of_sort, Distinct-sort}
use qsp.Prelude.Text.{is_empty}
use qsp.Routing.Endpoint.{Endpoint, kind, kind_peer, Permission, permits, endpoint_before}
use qsp.Routing.Endpoint.Laws.{endpoint_before-asym, endpoint_before_trans}
use qsp.Routing.Table.{
  Bridge, Table, permission_for, scan, start, is_withheld, kept, withheld_of, Decision,
  is_transcoded, route_bridges, route, no_bridges,
}
use qsp.Routing.Table.Collect.{Carried, scan-Distinct, scan-Carried, Carried-scan}

-- The call came from a transcoder that the endpoint, a peer's, has not opted in to.
abbrev pub Withheld : Table → Endpoint → Endpoint → Type 0
Withheld t from e =
    (is_transcoded from ≡ true)
    × (kind e ≡ kind_peer)
    × (permits (permission_for t.permissions from.transcoder) e.peer ≡ false)

is_withheld-kind :
    (p : Permission) (e : Endpoint)
    → is_withheld p e ≡ true
    → (kind e ≡ kind_peer) × (permits p e.peer ≡ false)
unfolding is_withheld kind
is_withheld-kind p e h = ground arith

kind-is_withheld :
    (p : Permission) (e : Endpoint)
    → kind e ≡ kind_peer
    → permits p e.peer ≡ false
    → is_withheld p e ≡ true
unfolding is_withheld kind
kind-is_withheld p e h k = ground arith

In-kept :
    (p : Permission) (es : List Endpoint) (e : Endpoint)
    → In e (kept p es)
    → In e es × (is_withheld p e ≡ false)
unfolding kept
In-kept p [] e h = absurd h
In-kept p (x ∷ es) e h = elim (Bool-cases (is_withheld p x)) [
  | inl t ↦ let (i, w) = In-kept p es e (rw t at h) in (inr i, w)
  | inr t ↦ elim (rw t at h) [
    | inl q ↦ (inl q, rw q t)
    | inr i ↦ let (i', w) = In-kept p es e i in (inr i', w)
  ]
]

kept-In :
    (p : Permission) (es : List Endpoint) (e : Endpoint)
    → In e es
    → is_withheld p e ≡ false
    → In e (kept p es)
unfolding kept
kept-In p [] e h w = absurd h
kept-In p (x ∷ es) e (inl q) w = rw (rw q at w) (inl q)
kept-In p (x ∷ es) e (inr h) w = elim (Bool-cases (is_withheld p x)) [
  | inl t ↦ rw t (kept-In p es e h w)
  | inr t ↦ rw t (inr (kept-In p es e h w))
]

In-withheld_of :
    (p : Permission) (es : List Endpoint) (e : Endpoint)
    → In e (withheld_of p es)
    → In e es × (is_withheld p e ≡ true)
unfolding withheld_of
In-withheld_of p [] e h = absurd h
In-withheld_of p (x ∷ es) e h = elim (Bool-cases (is_withheld p x)) [
  | inr t ↦ let (i, w) = In-withheld_of p es e (rw t at h) in (inr i, w)
  | inl t ↦ elim (rw t at h) [
    | inl q ↦ (inl q, rw q t)
    | inr i ↦ let (i', w) = In-withheld_of p es e i in (inr i', w)
  ]
]

withheld_of-In :
    (p : Permission) (es : List Endpoint) (e : Endpoint)
    → In e es
    → is_withheld p e ≡ true
    → In e (withheld_of p es)
unfolding withheld_of
withheld_of-In p [] e h w = absurd h
withheld_of-In p (x ∷ es) e (inl q) w = rw (rw q at w) (inl q)
withheld_of-In p (x ∷ es) e (inr h) w = elim (Bool-cases (is_withheld p x)) [
  | inl t ↦ rw t (inr (withheld_of-In p es e h w))
  | inr t ↦ rw t (withheld_of-In p es e h w)
]

kept-Distinct : (p : Permission) (es : List Endpoint) → Distinct es → Distinct (kept p es)
unfolding kept
kept-Distinct p [] d = tt
kept-Distinct p (x ∷ es) d = elim (Bool-cases (is_withheld p x)) [
  | inl t ↦ rw t (kept-Distinct p es d.1)
  | inr t ↦ rw t ((λ i. d.0 (In-kept p es x i).0), kept-Distinct p es d.1)
]

-- The endpoints that the scan gathers are those that some bridge carries the call to.
scanned :
    (from : Endpoint) (bs : List Bridge) (e : Endpoint)
    → In e (scan from start bs).targets ↔ Carried bs from e
scanned from bs e = (
  λ h. elim (scan-Carried from start bs e h) [ inl i ↦ absurd i | inr c ↦ c ],
  Carried-scan from start bs e,
)

module _ (t : Table) (from : Endpoint) where
  permitted : Permission
  permitted = permission_for t.permissions from.transcoder

  not-Withheld :
      (e : Endpoint)
      → is_transcoded from ≡ true
      → ¬ Withheld t from e
      → is_withheld permitted e ≡ false
  unfolding permitted
  not-Withheld e coded n = elim (Bool-cases (is_withheld permitted e)) [
    | inr w ↦ w
    | inl w ↦ let (k, p) = is_withheld-kind permitted e w in absurd (n (coded, k, p))
  ]

  bridges_targets :
      (e : Endpoint)
      → In e (route_bridges t from).targets
      → Carried t.bridges from e × (¬ Withheld t from e)
  unfolding route_bridges
  bridges_targets e h = elim (Bool-cases (is_empty from.transcoder)) [
    | inl plain ↦ (
      (scanned from t.bridges e).0 (In-of_sort endpoint_before e _ (rw plain at h)),
      λ w. cc (w.0),
    )
    | inr coded ↦
        let (i, w) = In-kept _ _ e (In-of_sort endpoint_before e _ (rw coded at h)) in
        ((scanned from t.bridges e).0 i, λ w'. cc (kind-is_withheld _ e w'.1 w'.2))
  ]

  pub targets_bridges :
      (e : Endpoint)
      → Carried t.bridges from e
      → ¬ Withheld t from e
      → In e (route_bridges t from).targets
  unfolding route_bridges permitted
  targets_bridges e c n = elim (Bool-cases (is_empty from.transcoder)) [
    | inl plain ↦ rw plain (In-sort endpoint_before e _ ((scanned from t.bridges e).1 c))
    | inr coded ↦ rw coded (
        In-sort endpoint_before e _
          (kept-In _ _ e ((scanned from t.bridges e).1 c) (not-Withheld e (rw coded refl) n)))
  ]

  pub bridges_withheld :
      (e : Endpoint)
      → In e (route_bridges t from).withheld
      → Carried t.bridges from e × Withheld t from e
  unfolding route_bridges
  bridges_withheld e h = elim (Bool-cases (is_empty from.transcoder)) [
    | inl plain ↦ absurd (In-of_sort endpoint_before e _ (rw plain at h))
    | inr coded ↦
        let (i, w) = In-withheld_of _ _ e (In-of_sort endpoint_before e _ (rw coded at h)) in
        let (k, p) = is_withheld-kind _ e w in
        ((scanned from t.bridges e).0 i, (rw coded refl, k, p))
  ]

  pub withheld_bridges :
      (e : Endpoint)
      → Carried t.bridges from e
      → Withheld t from e
      → In e (route_bridges t from).withheld
  unfolding route_bridges
  withheld_bridges e c w = elim (Bool-cases (is_empty from.transcoder)) [
    | inl plain ↦ absurd (cc (w.0))
    | inr coded ↦ rw coded (
        In-sort endpoint_before e _
          (withheld_of-In _ _ e ((scanned from t.bridges e).1 c) (kind-is_withheld _ e w.1 w.2)))
  ]

  bridges-Distinct : Distinct (route_bridges t from).targets
  unfolding route_bridges
  bridges-Distinct = elim (Bool-cases (is_empty from.transcoder)) [
    | inl plain ↦ rw plain (Distinct-sort endpoint_before _ (scan-Distinct from start t.bridges tt))
    | inr coded ↦ rw coded (
        Distinct-sort endpoint_before _ (kept-Distinct _ _ (scan-Distinct from start t.bridges tt)))
  ]

  bridges-IsSorted : IsSorted endpoint_before (route_bridges t from).targets
  unfolding route_bridges
  bridges-IsSorted = elim (Bool-cases (is_empty from.transcoder)) [
    | inl plain ↦
        rw plain (IsSorted-sort endpoint_before endpoint_before-asym endpoint_before_trans _)
    | inr coded ↦
        rw coded (IsSorted-sort endpoint_before endpoint_before-asym endpoint_before_trans _)
  ]

-- Route and the part of it behind the test for an empty table.
pub route_cases {ℓ} :
    (P : List Bridge → Decision → Type ℓ) (t : Table) (from : Endpoint)
    → P [] (record { targets = []; bridges = []; reason = some no_bridges; withheld = [] })
    → P t.bridges (route_bridges t from)
    → P t.bridges (route t from)
unfolding route
route_cases P t from none_case case = go t.bridges case
  where
    go :
        (bs : List Bridge)
        → P bs (route_bridges t from)
        → P bs (elim bs [
          | [] ↦ record { targets = []; bridges = []; reason = some no_bridges; withheld = [] }
          | b ∷ rest ↦ route_bridges t from
        ])
    go [] c = none_case
    go (b ∷ bs) c = c

-- A call is delivered to an endpoint exactly when some enabled bridge joins the call's source to it
-- and it is not a peer that has withheld itself from the transcoder that the call came from. In
-- particular no target covers the source: a call is never sent back where it came from.
pub route-targets :
    (t : Table) (from e : Endpoint)
    → In e (route t from).targets ↔ (Carried t.bridges from e × (¬ Withheld t from e))
route-targets t from e =
    route_cases (λ bs d. In e d.targets ↔ (Carried bs from e × (¬ Withheld t from e))) t from
      ((λ i. absurd i), λ p. absurd p.0)
      (bridges_targets t from e, λ p. targets_bridges t from e p.0 p.1)

-- What a decision withholds is exactly what some bridge would carry to a peer that has not opted in
-- to the transcoder that the call came from.
pub route-withheld :
    (t : Table) (from e : Endpoint)
    → In e (route t from).withheld ↔ (Carried t.bridges from e × Withheld t from e)
route-withheld t from e =
    route_cases (λ bs d. In e d.withheld ↔ (Carried bs from e × Withheld t from e)) t from
      ((λ i. absurd i), λ p. absurd p.0)
      (bridges_withheld t from e, λ p. withheld_bridges t from e p.0 p.1)

-- The targets of a decision are free of duplicates and in the order of peer, talkgroup and
-- timeslot, however the bridges overlap.
pub route-IsSorted :
    (t : Table) (from : Endpoint)
    → Distinct (route t from).targets × IsSorted endpoint_before (route t from).targets
route-IsSorted t from =
    route_cases (λ bs d. Distinct d.targets × IsSorted endpoint_before d.targets) t from (tt, tt)
      (bridges-Distinct t from, bridges-IsSorted t from)
