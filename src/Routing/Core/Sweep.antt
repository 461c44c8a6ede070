-- ===== src/Routing/Core/Sweep.antt =====
-- The sweep of the core's reservations, as a transmission that claims a place afterwards sees it.
use qsp.Prelude.{
  ℕ, ◌≡◌, ◌≤◌, ◌↔◌, ◌⊎◌, inl, inr, refl, true, Option, none, some, [], ◌∷◌, arith, Bool-cases,
}
use mathlib.Core.Path.{subst}
use qsp.Prelude.Map.{lookup}
use qsp.Prelude.Map.Keys.{IsKeyed}
use qsp.Prelude.Text.{Text}
use qsp.Hbp.Data.{Data}
use qsp.Routing.Endpoint.{Endpoint, endpoint_eq}
use qsp.Routing.Endpoint.Laws.{endpoint_eq_iff}
use qsp.Routing.Reservation.{
  SourceKey, Reservation, Busy, contend, timed_out, live_busy, refused, settle, claim,
}
use qsp.Routing.Core.{Core, expire}

-- The place has no reservation left, but had one that has timed out by then.
abbrev Lapsed : ℕ → ℕ → Option Reservation → Option Reservation → Type 0
Lapsed timeout later left was =
    (left ≡ none)
    × ((held : Reservation) × (was ≡ some held) × (timed_out timeout held.last_seen later ≡ true))

timed_out_mono :
    (timeout last now later : ℕ)
    → now ≤ later
    → timed_out timeout last now ≡ true
    → timed_out timeout last later ≡ true
unfolding timed_out
timed_out_mono timeout last now later le old = ground arith

lookup-live_busy_absent :
    (timeout now : ℕ) (busy : Busy) (k : Endpoint)
    → lookup endpoint_eq busy k ≡ none
    → lookup endpoint_eq (live_busy timeout busy now) k ≡ none
unfolding lookup live_busy
lookup-live_busy_absent timeout now [] k h = refl
lookup-live_busy_absent timeout now ((j, held) ∷ busy) k h =
    ground (arith, lookup-live_busy_absent timeout now busy k)

lookup-live_busy :
    (timeout now later : ℕ) (busy : Busy) (k : Endpoint)
    → IsKeyed endpoint_eq busy
    → now ≤ later
    → (lookup endpoint_eq (live_busy timeout busy now) k ≡ lookup endpoint_eq busy k)
      ⊎ Lapsed timeout later
          (lookup endpoint_eq (live_busy timeout busy now) k)
          (lookup endpoint_eq busy k)
unfolding lookup live_busy
lookup-live_busy timeout now later [] k h le = inl refl
lookup-live_busy timeout now later ((j, held) ∷ busy) k h le = elim (Bool-cases (endpoint_eq j k)) [
  | inl y ↦
      let gone : lookup endpoint_eq (live_busy timeout busy now) k ≡ none =
        lookup-live_busy_absent timeout now busy k
          (subst (λ x. lookup endpoint_eq busy x ≡ none) ((endpoint_eq_iff j k).0 y) h.0) in
      elim (Bool-cases (timed_out timeout held.last_seen now)) [
        | inl old ↦
            rw (old, y)
              (inr (gone, (held, refl, timed_out_mono timeout held.last_seen now later le old)))
        | inr live ↦ rw (live, y, lookup) (inl refl)
      ]
  | inr o ↦ elim (Bool-cases (timed_out timeout held.last_seen now)) [
    | inl old ↦ rw (old, o) (lookup-live_busy timeout now later busy k h.1 le)
    | inr live ↦ rw (live, o, lookup) (lookup-live_busy timeout now later busy k h.1 le)
  ]
]

module _ (timeout : ℕ) (busy swept : Busy) (src : SourceKey) (frame : Data) (bridge : Text)
    (dest : Endpoint) (now : ℕ) where
  -- What a claim answers does not hang on the table but at the place itself.
  settle-answer :
      (o : Option Reservation)
      → (settle timeout swept src frame bridge dest now o).1
        ≡ (settle timeout busy src frame bridge dest now o).1
  unfolding settle
  settle-answer none = refl
  settle-answer (some held) = ground arith

  none-accepts :
      (r : Reservation) → ¬ ((settle timeout swept src frame bridge dest now none).1 ≡ refused r)
  unfolding settle
  none-accepts r e = cc

  lapsed-accepts :
      (held r : Reservation)
      → timed_out timeout held.last_seen now ≡ true
      → ¬ ((settle timeout busy src frame bridge dest now (some held)).1 ≡ refused r)
  unfolding settle
  lapsed-accepts held r old e = ground arith

-- Where no place has two reservations, who is refused a place, and for which reservation, is the
-- same after a sweep as without it, from then on.
pub expire-refused :
    (c : Core) (now later : ℕ) (src : SourceKey) (frame : Data) (bridge : Text) (dest : Endpoint)
    (held : Reservation)
    → IsKeyed endpoint_eq c.busy
    → now ≤ later
    → ((claim c.timeout (expire c now).0.busy src frame bridge dest later).1 ≡ refused held)
      ↔ ((claim c.timeout c.busy src frame bridge dest later).1 ≡ refused held)
unfolding expire claim
expire-refused c now later src frame bridge dest held keyed le =
    let swept = live_busy c.timeout c.busy now in
    elim (lookup-live_busy c.timeout now later c.busy (contend dest) keyed le) [
      | inl same ↦
          rw (same, settle-answer c.timeout c.busy swept src frame bridge dest later _)
            ((λ e. e), λ e. e)
      | inr (gone, (r, was, old)) ↦
          rw (gone, was)
            (
              λ e. absurd (none-accepts c.timeout c.busy swept src frame bridge dest later held e),
              λ e.
                  absurd (
                    lapsed-accepts c.timeout c.busy swept src frame bridge dest later r held old e),
            )
    ]
