-- ===== src/Routing/Table/Build.antt =====
-- NewTable: the tables it builds, and what it refuses.
use qsp.Prelude.{
  ℕ, ◌+◌, ◌≤◌, ◌≡◌, ◌≢◌, ◌↔◌, ◌⊎◌, inl, inr, refl, sym, true, none, List, [], ◌∷◌, map, arith, In,
  All, Distinct, length, Bool-cases, Option-cases, ltb,
}
use qsp.Prelude.Text.{Text, is_empty, text_eq, text_eq_iff, trim_space}
use qsp.Routing.Endpoint.{Endpoint, any_peer, validate}
use qsp.Routing.Table.{
  Bridge, Table, Permissions, contains, validate_endpoints, validate_bridge, Problem, contains_text,
  find_problems, built, new_table,
}
use qsp.Routing.Table.Collect.{contains_iff}

-- An endpoint of exactly one kind, with a talkgroup, on one of the two timeslots.
pub record IsUsable (e : Endpoint) : Type 0 where
  pub one_name : (e.upstream ≡ []) ⊎ (e.transcoder ≡ [])
  pub named_or_peer : (e.peer ≡ any_peer) ⊎ ((e.upstream ≡ []) × (e.transcoder ≡ []))
  pub has_talkgroup : e.talkgroup ≢ 0
  pub has_timeslot : (e.timeslot ≡ 1) ⊎ (e.timeslot ≡ 2)

is_empty_nil : (t : Text) → is_empty t ≡ true → t ≡ []
is_empty_nil [] h = refl
is_empty_nil (c ∷ t) h = cc

nil_is_empty : (t : Text) → t ≡ [] → is_empty t ≡ true
nil_is_empty [] h = refl
nil_is_empty (c ∷ t) h = cc

validate-IsUsable : (e : Endpoint) → validate e ≡ none → IsUsable e
unfolding validate
validate-IsUsable e h = ground (arith, is_empty_nil e.upstream, is_empty_nil e.transcoder)

IsUsable-validate : (e : Endpoint) → IsUsable e → validate e ≡ none
unfolding validate
IsUsable-validate e h = ground (arith, nil_is_empty e.upstream, nil_is_empty e.transcoder)

-- Validate finds no fault with an endpoint exactly when it names at most one of upstream and
-- transcoder, a peer only beside neither, a talkgroup other than zero, and timeslot 1 or 2.
validate_iff : (e : Endpoint) → (validate e ≡ none) ↔ IsUsable e
validate_iff e = (validate-IsUsable e, IsUsable-validate e)

validate_endpoints_sound :
    (name : Text) (i : ℕ) (seen es : List Endpoint)
    → validate_endpoints name i seen es ≡ none
    → All IsUsable es × Distinct es × ((e : Endpoint) → In e es → ¬ In e seen)
unfolding validate_endpoints
validate_endpoints_sound name i seen [] h = (tt, tt, λ e f. absurd f)
validate_endpoints_sound name i seen (e ∷ es) h = elim (Option-cases (validate e)) [
  | inr (err, v) ↦ cc (rw (v, validate_endpoints) at h)
  | inl v ↦ elim (Bool-cases (contains seen e)) [
    | inl c ↦ cc (rw (v, validate_endpoints, c) at h)
    | inr c ↦
        let (us, d, n) =
          validate_endpoints_sound name (i + 1) (e ∷ seen) es
            (rw (v, validate_endpoints, c) at h) in
        (
          (validate-IsUsable e v, us),
          ((λ j. n e j (inl refl)), d),
          λ a j s. elim j [
            | inl p ↦ cc ((contains_iff seen e).1 (rw p at s))
            | inr j' ↦ n a j' (inr s)
          ],
        )
  ]
]

validate_endpoints_complete :
    (name : Text) (i : ℕ) (seen es : List Endpoint)
    → All IsUsable es
    → Distinct es
    → ((e : Endpoint) → In e es → ¬ In e seen)
    → validate_endpoints name i seen es ≡ none
unfolding validate_endpoints
validate_endpoints_complete name i seen [] us d n = refl
validate_endpoints_complete name i seen (e ∷ es) us d n = elim (Bool-cases (contains seen e)) [
  | inl c ↦ absurd (n e (inl refl) ((contains_iff seen e).0 c))
  | inr c ↦
      rw (IsUsable-validate e us.0, validate_endpoints, c)
        (validate_endpoints_complete name (i + 1) (e ∷ seen) es us.1 d.1
          (λ a j s. elim s [ inl p ↦ d.0 (rw p at j) | inr s' ↦ n a (inr j) s' ]))
]

-- A bridge with a name, two or more endpoints, all of them usable and no two the same.
pub record IsUsableBridge (b : Bridge) : Type 0 where
  pub named : trim_space b.name ≢ []
  pub joins : 2 ≤ length b.endpoints
  pub usable : All IsUsable b.endpoints
  pub distinct : Distinct b.endpoints

-- Validate finds no fault with a bridge exactly when it has a name that is not blank and joins two
-- or more usable endpoints, no two the same.
validate_bridge_iff : (b : Bridge) → (validate_bridge b ≡ none) ↔ IsUsableBridge b
unfolding validate_bridge
validate_bridge_iff b = (
  λ h. elim (Bool-cases (is_empty (trim_space b.name))) [
    | inl e ↦ cc (rw e at h)
    | inr e ↦ elim (Bool-cases (ltb (length b.endpoints) 2)) [
      | inl l ↦ cc (rw (e, l) at h)
      | inr l ↦
          let (us, d, _) = validate_endpoints_sound b.name 0 [] b.endpoints (rw (e, l) at h) in
          record {
            named = λ p. cc (nil_is_empty (trim_space b.name) p);
            joins = ground arith;
            usable = us;
            distinct = d;
          }
    ]
  ],
  λ u. elim (Bool-cases (is_empty (trim_space b.name))) [
    | inl e ↦ absurd (u.named (is_empty_nil _ e))
    | inr e ↦ elim (Bool-cases (ltb (length b.endpoints) 2)) [
      | inl l ↦ absurd (ground (arith, u.joins))
      | inr l ↦
          rw (e, l)
            (validate_endpoints_complete b.name 0 [] b.endpoints u.usable u.distinct (λ a j s. s))
    ]
  ],
)

pub contains_text-In : (xs : List Text) (t : Text) → contains_text xs t ≡ true → In t xs
unfolding contains_text
contains_text-In [] t h = cc
contains_text-In (x ∷ xs) t h = elim (Bool-cases (text_eq t x)) [
  | inl e ↦ inl ((text_eq_iff t x).0 e)
  | inr e ↦ inr (contains_text-In xs t (rw e at h))
]

pub In-contains_text : (xs : List Text) (t : Text) → In t xs → contains_text xs t ≡ true
unfolding contains_text
In-contains_text [] t h = absurd h
In-contains_text (x ∷ xs) t (inl p) = rw ((text_eq_iff t x).1 p) refl
In-contains_text (x ∷ xs) t (inr h) = ground (arith, In-contains_text xs t h)

-- What NewTable compares the names of bridges by.
abbrev name_key : (ℕ → ℕ) → Bridge → Text
name_key lower b = map lower (trim_space b.name)

module _ (lower : ℕ → ℕ) where
  find_problems_sound :
      (names : List Text) (bs : List Bridge)
      → find_problems lower names bs ≡ []
      → All IsUsableBridge bs
        × Distinct (map (name_key lower) bs)
        × ((k : Text) → In k (map (name_key lower) bs) → ¬ In k names)
  unfolding find_problems
  find_problems_sound names [] h = (tt, tt, λ k f. absurd f)
  find_problems_sound names (b ∷ bs) h = elim (Option-cases (validate_bridge b)) [
    | inr (err, v) ↦ cc (rw (v, find_problems) at h)
    | inl v ↦ elim (Bool-cases (contains_text names (name_key lower b))) [
      | inl c ↦ cc (rw (v, find_problems, c) at h)
      | inr c ↦
          let (us, d, n) =
            find_problems_sound (name_key lower b ∷ names) bs (rw (v, find_problems, c) at h) in
          (
            ((validate_bridge_iff b).0 v, us),
            ((λ j. n (name_key lower b) j (inl refl)), d),
            λ k j s. elim j [
              | inl p ↦ cc (In-contains_text names (name_key lower b) (rw p at s))
              | inr j' ↦ n k j' (inr s)
            ],
          )
    ]
  ]

  find_problems_complete :
      (names : List Text) (bs : List Bridge)
      → All IsUsableBridge bs
      → Distinct (map (name_key lower) bs)
      → ((k : Text) → In k (map (name_key lower) bs) → ¬ In k names)
      → find_problems lower names bs ≡ []
  unfolding find_problems
  find_problems_complete names [] us d n = refl
  find_problems_complete names (b ∷ bs) us d n =
      elim (Bool-cases (contains_text names (name_key lower b))) [
        | inl c ↦ absurd (n (name_key lower b) (inl refl) (contains_text-In names _ c))
        | inr c ↦
            rw ((validate_bridge_iff b).1 us.0, find_problems, c)
              (find_problems_complete (name_key lower b ∷ names) bs us.1 d.1
                (λ k j s. elim s [ inl p ↦ d.0 (rw p at j) | inr s' ↦ n k (inr j) s' ]))
      ]

-- NewTable builds a table exactly from usable bridges whose names differ after trimming and
-- lowering, and the table then holds them unchanged, with the permissions given.
new_table-built :
    (lower : ℕ → ℕ) (bs : List Bridge) (ps : Permissions) (t : Table)
    → (new_table lower bs ps ≡ built t) ↔ (
        (t ≡ record { bridges = bs; permissions = ps })
        × All IsUsableBridge bs
        × Distinct (map (name_key lower) bs))
unfolding new_table
new_table-built lower bs ps t = (
  λ h. elim (problem_cases (find_problems lower [] bs)) [
    | inl none_found ↦
        let (us, d, _) = find_problems_sound lower [] bs none_found in (sym (ground arith), us, d)
    | inr (p, rest, e) ↦ cc (rw (e, new_table) at h)
  ],
  λ (e, us, d). rw (find_problems_complete lower [] bs us d (λ k j s. s), new_table) (ground arith),
)
  where
    problem_cases :
        (l : List Problem) → (l ≡ []) ⊎ ((p : Problem) × (rest : List Problem) × (l ≡ p ∷ rest))
    problem_cases [] = inl refl
    problem_cases (p ∷ rest) = inr (p, rest, refl)
