-- ===== src/Routing/Trigger/Active.antt =====
-- Which bridges are open, where the triggers of one bridge share a hang time.
use qsp.Prelude.{
  ℕ, ◌≡◌, ◌↔◌, inl, inr, refl, sym, Bool, true, false, not, ◌&&◌, ◌||◌, none, some, List, [], ◌∷◌,
  arith, In, All, Bool-cases,
}
use qsp.Prelude.Map.{lookup}
use qsp.Prelude.Text.{Text, text_eq, text_eq_iff}
use qsp.Routing.Trigger.{
  Trigger, LastUsed, Triggers, hang, lapsed, holds_open, active_bridges, active_at,
}

-- Some trigger of the list opens the bridge and holds it open.
abbrev pub is_active : LastUsed → ℕ → List Trigger → Text → Bool
is_active used now [] name = false
is_active used now (t ∷ ts) name =
    (text_eq t.bridge name && holds_open used now t) || is_active used now ts name

active_bridges-is_active :
    (used : LastUsed) (now : ℕ) (ts : List Trigger) (name : Text)
    → In name (active_bridges used now ts)
    → is_active used now ts name ≡ true
unfolding active_bridges
active_bridges-is_active used now [] name h = absurd h
active_bridges-is_active used now (t ∷ ts) name h = elim (Bool-cases (holds_open used now t)) [
  | inr o ↦ ground (arith, active_bridges-is_active used now ts name (rw o at h))
  | inl o ↦ elim (rw o at h) [
    | inl e ↦ rw ((text_eq_iff t.bridge name).1 (sym e), o) refl
    | inr i ↦ ground (arith, active_bridges-is_active used now ts name i)
  ]
]

is_active-active_bridges :
    (used : LastUsed) (now : ℕ) (ts : List Trigger) (name : Text)
    → is_active used now ts name ≡ true
    → In name (active_bridges used now ts)
unfolding active_bridges
is_active-active_bridges used now [] name h = cc
is_active-active_bridges used now (t ∷ ts) name h = elim (Bool-cases (holds_open used now t)) [
  | inr o ↦ rw o (is_active-active_bridges used now ts name (ground arith))
  | inl o ↦ rw o (elim (Bool-cases (text_eq t.bridge name)) [
    | inl e ↦ inl (sym ((text_eq_iff t.bridge name).0 e))
    | inr e ↦ inr (is_active-active_bridges used now ts name (rw e at h))
  ])
]

pub active_at_iff :
    (t : Triggers) (now : ℕ) (name : Text)
    → In name (active_at t now) ↔ (is_active t.last_used now t.triggers name ≡ true)
unfolding active_at
active_at_iff t now name = (
  active_bridges-is_active t.last_used now t.triggers name,
  is_active-active_bridges t.last_used now t.triggers name,
)

-- The triggers that open the bridge all have this hang time.
abbrev pub SharesHang : ℕ → Text → List Trigger → Type 0
SharesHang h name = All (λ t. text_eq t.bridge name ≡ true → hang t ≡ h)

-- Some enabled trigger opens the bridge.
abbrev pub has_enabled : List Trigger → Text → Bool
has_enabled [] name = false
has_enabled (t ∷ ts) name = (text_eq t.bridge name && t.enabled) || has_enabled ts name

-- The bridge was used within the hang time.
abbrev pub is_held : LastUsed → ℕ → ℕ → Text → Bool
is_held used h now name = elim (lookup text_eq used name) [
  | none ↦ false
  | some last ↦ not (lapsed last h now)
]

holds_open-is_held :
    (used : LastUsed) (h now : ℕ) (t : Trigger) (name : Text)
    → text_eq t.bridge name ≡ true
    → hang t ≡ h
    → holds_open used now t ≡ (t.enabled && is_held used h now name)
unfolding holds_open
holds_open-is_held used h now t name e k = ground (arith, (text_eq_iff t.bridge name).0 e)

pub is_active-is_held :
    (used : LastUsed) (h now : ℕ) (ts : List Trigger) (name : Text)
    → SharesHang h name ts
    → is_active used now ts name ≡ (has_enabled ts name && is_held used h now name)
is_active-is_held used h now [] name s = refl
is_active-is_held used h now (t ∷ ts) name s = elim (Bool-cases (text_eq t.bridge name)) [
  | inr e ↦ rw e (is_active-is_held used h now ts name s.1)
  | inl e ↦
      rw
        (
          e,
          holds_open-is_held used h now t name e (s.0 e),
          is_active-is_held used h now ts name s.1,
        )
        (factor t.enabled (has_enabled ts name) (is_held used h now name))
]
  where
    factor : (a b c : Bool) → ((a && c) || (b && c)) ≡ ((a || b) && c)
    factor a b c = ground arith
