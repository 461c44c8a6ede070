-- ===== src/Routing/Trigger/Observe.antt =====
-- Observe: what a transmission opens, and until when.
use qsp.Prelude.{
  ℕ, ◌+◌, ◌≤◌, ◌≡◌, ◌↔◌, ◌⊎◌, inl, inr, refl, Bool, true, false, not, ◌&&◌, ◌||◌, some, List, [],
  ◌∷◌, leb, if◌then◌else◌, arith, In, concat, Bool-cases,
}
use qsp.Prelude.Map.{lookup, lookup-put}
use qsp.Prelude.Sort.{In-sort, In-of_sort}
use qsp.Prelude.Text.{Text, text_eq, text_eq_iff, text_eq_comm, text_less}
use qsp.Routing.Endpoint.{Endpoint}
use qsp.Routing.Table.{any_matches, contains_text}
use qsp.Routing.Table.Build.{contains_text-In, In-contains_text}
use qsp.Routing.Trigger.{
  Trigger, Triggers, hang, Observed, observe_one, observe_all, observe, active_at,
}
use qsp.Routing.Trigger.Active.{
  is_active, active_at_iff, SharesHang, has_enabled, is_held, is_active-is_held,
}

-- The arrival sets this trigger off.
abbrev sets_off : Endpoint → Trigger → Bool
sets_off from t = t.enabled && any_matches t.on from

-- Some trigger of the bridge is set off.
abbrev pub triggered : Endpoint → List Trigger → Text → Bool
triggered from [] name = false
triggered from (t ∷ ts) name = (text_eq t.bridge name && sets_off from t) || triggered from ts name

lookup-observe_one :
    (from : Endpoint) (now : ℕ) (s : Observed) (t : Trigger) (name : Text)
    → lookup text_eq (observe_one from now s t).used name
      ≡ (if text_eq t.bridge name && sets_off from t then some now else lookup text_eq s.used name)
unfolding observe_one
lookup-observe_one from now s t name =
    ground (arith, lookup-put text_eq text_eq_iff s.used t.bridge name now)

lookup-observe_all :
    (from : Endpoint) (now : ℕ) (s : Observed) (ts : List Trigger) (name : Text)
    → lookup text_eq (observe_all from now s ts).used name
      ≡ (if triggered from ts name then some now else lookup text_eq s.used name)
unfolding observe_all
lookup-observe_all from now s [] name = refl
lookup-observe_all from now s (t ∷ ts) name = ground (
  arith,
  lookup-observe_all from now (observe_one from now s t) ts name,
  lookup-observe_one from now s t name,
)

triggered-has_enabled :
    (from : Endpoint) (ts : List Trigger) (name : Text)
    → triggered from ts name ≡ true
    → has_enabled ts name ≡ true
triggered-has_enabled from [] name h = cc
triggered-has_enabled from (t ∷ ts) name h = ground (arith, triggered-has_enabled from ts name)

is_active-observe :
    (t : Triggers) (from : Endpoint) (now later h : ℕ) (name : Text)
    → SharesHang h name t.triggers
    → is_active (observe t from now).0.last_used later t.triggers name ≡ (
        if triggered from t.triggers name
        then leb later (now + h)
        else is_active t.last_used later t.triggers name)
unfolding observe
is_active-observe t from now later h name s =
    let start : Observed = record { used = t.last_used; opened = [] } in
    ground (
      arith,
      is_active-is_held (observe_all from now start t.triggers).used h later t.triggers name s,
      is_active-is_held t.last_used h later t.triggers name s,
      lookup-observe_all from now start t.triggers name,
      triggered-has_enabled from t.triggers name,
    )

-- After a transmission is observed, a bridge whose triggers share a hang time is open at a time
-- exactly if it was triggered and the time is within the hang time of the transmission, or if it
-- was not and it would have been open then anyway.
pub observe-active :
    (t : Triggers) (from : Endpoint) (now later h : ℕ) (name : Text)
    → SharesHang h name t.triggers
    → In name (active_at (observe t from now).0 later) ↔ (
        ((triggered from t.triggers name ≡ true) × (later ≤ now + h))
        ⊎ ((triggered from t.triggers name ≡ false) × In name (active_at t later)))
observe-active t from now later h name s =
    let e = is_active-observe t from now later h name s in
    let after = active_at_iff (observe t from now).0 later name in
    let before = active_at_iff t later name in
    let same : (observe t from now).0.triggers ≡ t.triggers = unfold observe in refl in
    (
      λ i.
          let a : is_active (observe t from now).0.last_used later t.triggers name ≡ true =
            rw same at (after.0 i) in
          elim (Bool-cases (triggered from t.triggers name)) [
            | inl y ↦ inl (y, ground arith)
            | inr n ↦ inr (n, before.1 (ground arith))
          ],
      λ i. after.1 (
          rw same (elim i [
            | inl (y, le) ↦ ground arith
            | inr (n, b) ↦ let b' = before.0 b in ground arith
          ])),
    )

contains_text-concat :
    (xs : List Text) (x name : Text)
    → contains_text (concat xs x) name ≡ (contains_text xs name || text_eq x name)
unfolding contains_text
contains_text-concat [] x name = ground (arith, text_eq_comm name x)
contains_text-concat (y ∷ xs) x name = ground (arith, contains_text-concat xs x name)

opened_one :
    (from : Endpoint) (now h : ℕ) (s : Observed) (t : Trigger) (name : Text)
    → (text_eq t.bridge name ≡ true → hang t ≡ h)
    → contains_text (observe_one from now s t).opened name ≡ (
        contains_text s.opened name
        || ((text_eq t.bridge name && sets_off from t) && not (is_held s.used h now name)))
unfolding observe_one
opened_one from now h s t name k = ground (
  arith,
  contains_text-concat s.opened t.bridge name,
  (text_eq_iff t.bridge name).0,
  lookup text_eq s.used name,
)

opened_all :
    (from : Endpoint) (now h : ℕ) (s : Observed) (ts : List Trigger) (name : Text)
    → SharesHang h name ts
    → contains_text (observe_all from now s ts).opened name
      ≡ (contains_text s.opened name || (triggered from ts name && not (is_held s.used h now name)))
unfolding observe_all
opened_all from now h s [] name k = ground arith
opened_all from now h s (t ∷ ts) name k = ground (
  arith,
  opened_all from now h (observe_one from now s t) ts name k.1,
  opened_one from now h s t name k.0,
  lookup-observe_one from now s t name,
)

-- Observe reports exactly the bridges that the transmission triggered and that were closed when it
-- came, where the triggers of a bridge share a hang time.
observe-opened :
    (t : Triggers) (from : Endpoint) (now h : ℕ) (name : Text)
    → SharesHang h name t.triggers
    → In name (observe t from now).1
      ↔ ((triggered from t.triggers name ≡ true) × (¬ In name (active_at t now)))
unfolding contains_text
observe-opened t from now h name s =
    let start : Observed = record { used = t.last_used; opened = [] } in
    let found = (observe_all from now start t.triggers).opened in
    let all : contains_text found name
        ≡ (triggered from t.triggers name && not (is_held t.last_used h now name)) =
      opened_all from now h start t.triggers name s in
    let held = is_active-is_held t.last_used h now t.triggers name s in
    let some_on = triggered-has_enabled from t.triggers name in
    let active = active_at_iff t now name in
    let listed : In name (observe t from now).1 ↔ (contains_text found name ≡ true) =
      unfold observe in
      (
        λ i. In-contains_text found name (In-of_sort text_less name found i),
        λ c. In-sort text_less name found (contains_text-In found name c),
      ) in
    (
      λ i.
          let c = listed.0 i in (ground arith, λ a. let a' = active.0 a in ground (arith, some_on)),
      λ (y, n). listed.1 (elim (Bool-cases (is_held t.last_used h now name)) [
        | inr out ↦ ground arith
        | inl on ↦ absurd (n (active.1 (ground (arith, some_on y))))
      ]),
    )
