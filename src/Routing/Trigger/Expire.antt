-- ===== src/Routing/Trigger/Expire.antt =====
-- Expire: what it forgets, and that it forgets too early where two triggers of one bridge differ.
use qsp.Prelude.{
  ℕ, ◌+◌, ◌≤◌, ◌<◌, ◌≡◌, ◌↔◌, inl, inr, refl, sym, ◌∙◌, Bool, true, false, ◌&&◌, ◌||◌, none, some,
  List, [], ◌∷◌, if◌then◌else◌, arith, In, Bool-cases,
}
use qsp.Prelude.Map.{lookup, put, lookup-put}
use qsp.Prelude.Text.{Text, text_eq, text_eq_iff}
use qsp.Routing.Endpoint.{Endpoint}
use qsp.Routing.Trigger.{
  Trigger, LastUsed, Triggers, hang, hang_of, lapsed, observe_one, observe_all, Observed, observe,
  active_at, hang_times, is_over, still_used, closed_bridges, expire,
}
use qsp.Routing.Trigger.Active.{
  is_active, active_at_iff, SharesHang, has_enabled, is_held, is_active-is_held,
}

-- Some trigger opens the bridge.
abbrev has_trigger : List Trigger → Text → Bool
has_trigger [] name = false
has_trigger (t ∷ ts) name = text_eq t.bridge name || has_trigger ts name

lookup-hang_times :
    (m : LastUsed) (h : ℕ) (ts : List Trigger) (name : Text)
    → SharesHang h name ts
    → lookup text_eq (hang_times m ts) name
      ≡ (if has_trigger ts name then some h else lookup text_eq m name)
unfolding hang_times
lookup-hang_times m h [] name s = refl
lookup-hang_times m h (t ∷ ts) name s = ground (
  arith,
  lookup-hang_times (put text_eq m t.bridge (hang t)) h ts name s.1,
  lookup-put text_eq text_eq_iff m t.bridge name (hang t),
  s.0,
)

-- Each bridge is on record once.
abbrev HasKeys : LastUsed → Type 0
HasKeys [] = Unit
HasKeys ((bridge, last) ∷ m) = (lookup text_eq m bridge ≡ none) × HasKeys m

lookup-still_used :
    (limits : LastUsed) (now : ℕ) (m : LastUsed) (name : Text)
    → HasKeys m
    → lookup text_eq (still_used limits now m) name ≡ elim (lookup text_eq m name) [
      | none ↦ none
      | some last ↦ if is_over limits now name last then none else some last
    ]
unfolding still_used lookup
lookup-still_used limits now [] name k = refl
lookup-still_used limits now ((b, last) ∷ m) name k = elim (Bool-cases (text_eq b name)) [
  | inr e ↦ ground (arith, lookup-still_used limits now m name k.1)
  | inl e ↦
      let same = (text_eq_iff b name).0 e in
      ground (arith, lookup-still_used limits now m name k.1, rw same at k.0)
]

has_enabled-has_trigger :
    (ts : List Trigger) (name : Text) → has_enabled ts name ≡ true → has_trigger ts name ≡ true
has_enabled-has_trigger [] name h = cc
has_enabled-has_trigger (t ∷ ts) name h = ground (arith, has_enabled-has_trigger ts name)

still_held :
    (t : Triggers) (now later h : ℕ) (name : Text)
    → now ≤ later
    → HasKeys t.last_used
    → SharesHang h name t.triggers
    → (has_enabled t.triggers name && is_held (expire t now).0.last_used h later name)
      ≡ (has_enabled t.triggers name && is_held t.last_used h later name)
unfolding expire is_over
still_held t now later h name le k s = ground (
  arith,
  lookup-still_used (hang_times [] t.triggers) now t.last_used name k,
  lookup-hang_times [] h t.triggers name s,
  has_enabled-has_trigger t.triggers name,
)

-- Forgetting what has lapsed changes no answer: at any time from then on, a bridge whose triggers
-- share a hang time is open exactly if it would have been with nothing forgotten.
pub expire-active :
    (t : Triggers) (now later h : ℕ) (name : Text)
    → now ≤ later
    → HasKeys t.last_used
    → SharesHang h name t.triggers
    → In name (active_at (expire t now).0 later) ↔ In name (active_at t later)
expire-active t now later h name le k s =
    let after = active_at_iff (expire t now).0 later name in
    let before = active_at_iff t later name in
    let same : (expire t now).0.triggers ≡ t.triggers = unfold expire in refl in
    let held = still_held t now later h name le k s in
    let e : is_active (expire t now).0.last_used later t.triggers name
        ≡ is_active t.last_used later t.triggers name =
      is_active-is_held (expire t now).0.last_used h later t.triggers name s
      ∙ held
      ∙ sym (is_active-is_held t.last_used h later t.triggers name s) in
    (λ i. before.1 (sym e ∙ (rw same at (after.0 i))), λ i. after.1 (rw same (e ∙ before.0 i)))

HasKeys-put :
    (m : LastUsed) (bridge : Text) (now : ℕ) → HasKeys m → HasKeys (put text_eq m bridge now)
unfolding put lookup
HasKeys-put [] bridge now k = (refl, tt)
HasKeys-put ((b, last) ∷ m) bridge now k = elim (Bool-cases (text_eq b bridge)) [
  | inl e ↦ rw e k
  | inr e ↦ rw e (
    (lookup-put text_eq text_eq_iff m bridge b now)
        ∙ ground (arith, text_eq_iff bridge b, text_eq_iff b bridge, k.0),
    HasKeys-put m bridge now k.1,
  )
]

observe_all-HasKeys :
    (from : Endpoint) (now : ℕ) (s : Observed) (ts : List Trigger)
    → HasKeys s.used
    → HasKeys (observe_all from now s ts).used
unfolding observe_all
observe_all-HasKeys from now s [] k = k
observe_all-HasKeys from now s (t ∷ ts) k =
    observe_all-HasKeys from now (observe_one from now s t) ts
      (unfold observe_one in ground (arith, HasKeys-put s.used t.bridge now k))

lookup-still_used-none :
    (limits : LastUsed) (now : ℕ) (m : LastUsed) (name : Text)
    → lookup text_eq m name ≡ none
    → lookup text_eq (still_used limits now m) name ≡ none
unfolding still_used lookup
lookup-still_used-none limits now [] name h = refl
lookup-still_used-none limits now ((b, last) ∷ m) name h =
    ground (arith, lookup-still_used-none limits now m name)

still_used-HasKeys :
    (limits : LastUsed) (now : ℕ) (m : LastUsed) → HasKeys m → HasKeys (still_used limits now m)
unfolding still_used
still_used-HasKeys limits now [] k = tt
still_used-HasKeys limits now ((b, last) ∷ m) k =
    ground (arith, still_used-HasKeys limits now m k.1, lookup-still_used-none limits now m b k.0)

-- What can be done to the triggers: observe a transmission, or expire.
pub data Event : Type 0 where
  transmission : Endpoint → ℕ → Event
  sweep : ℕ → Event

abbrev pub run : Triggers → List Event → Triggers
run t [] = t
run t (transmission from now ∷ es) = run (observe t from now).0 es
run t (sweep now ∷ es) = run (expire t now).0 es

-- Whatever is observed and expired in whatever order, each bridge stays on record at most once.
run-HasKeys : (t : Triggers) (es : List Event) → HasKeys t.last_used → HasKeys (run t es).last_used
run-HasKeys t [] k = k
run-HasKeys t (transmission from now ∷ es) k =
    run-HasKeys (observe t from now).0 es
      (unfold observe in observe_all-HasKeys from now _ t.triggers k)
run-HasKeys t (sweep now ∷ es) k =
    run-HasKeys (expire t now).0 es (unfold expire in still_used-HasKeys _ now t.last_used k)

-- Where two enabled triggers of one bridge have different hang times and the shorter one stands
-- last, a sweep between the two ends closes the bridge although the longer one still holds it
-- open: it is active before the sweep and not after it.
pub expire_forgets_early :
    (a b : Trigger) (last now : ℕ)
    → a.bridge ≡ b.bridge
    → a.enabled ≡ true
    → b.enabled ≡ true
    → last + hang b < now
    → now ≤ last + hang a
    → let t : Triggers = record { triggers = a ∷ b ∷ []; last_used = (a.bridge, last) ∷ [] } in
      In a.bridge (active_at t now) × (¬ In a.bridge (active_at (expire t now).0 now))
unfolding active_at qsp.Routing.Trigger.active_bridges expire lookup put
expire_forgets_early a b last now same on_a on_b short long =
    let refl_a = (text_eq_iff a.bridge a.bridge).1 refl in
    let eq_ab = (text_eq_iff a.bridge b.bridge).1 same in
    let eq_ba = (text_eq_iff b.bridge a.bridge).1 (sym same) in (ground arith, λ i. ground arith)
