-- ===== src/Routing/Core/Claiming.antt =====
-- The switch on a reservation, the reservation of the origin and the release, by what they do to
-- the holds of the claimant and of others.
use qsp.Prelude.{
  ℕ, ◌≡◌, inl, inr, refl, true, false, not, ◌&&◌, Option, none, some, [], ◌∷◌, arith, Bool-cases,
  Option-cases,
}
use qsp.Prelude.Map.{lookup}
use qsp.Prelude.Text.{Text}
use qsp.Hbp.Data.{Data}
use qsp.Routing.Endpoint.{Endpoint, endpoint_eq}
use qsp.Routing.Reservation.{
  SourceKey, source_eq, same_origin, Reservation, Busy, contend, contends_for_slot, timed_out,
  reserve, refresh, Claim, started, continued, alongside, refused, settle, claim, holds_any,
  release,
}
use qsp.Routing.Core.Scoped.{reserve_origin}
use qsp.Routing.Core.Holds.{source_eq_iff, HeldByOther, HeldBy, Takes, unchanged, takes, put-HeldBy}

reserve-own :
    (src : SourceKey) (frame : Data) (bridge : Text) (dest : Endpoint) (now : ℕ)
    → source_eq (reserve src frame bridge dest now).source src ≡ true
unfolding reserve
reserve-own src frame bridge dest now = (source_eq_iff src src).1 refl

refresh-own :
    (src : SourceKey) (held : Reservation) (frame : Data) (now : ℕ)
    → source_eq held.source src ≡ true
    → source_eq (refresh held frame now).source src ≡ true
unfolding refresh
refresh-own src held frame now h = h

module _ (timeout : ℕ) (busy : Busy) (src : SourceKey) (frame : Data) (bridge : Text)
    (dest : Endpoint) (now : ℕ) where
  settle-Takes :
      (o : Option Reservation)
      → lookup endpoint_eq busy (contend dest) ≡ o
      → Takes timeout now src busy
          (contend dest)
          (settle timeout busy src frame bridge dest now o).0
  unfolding settle
  settle-Takes none e = takes _ (reserve-own src frame bridge dest now) (rw e tt)
  settle-Takes (some held) e = elim (Bool-cases (source_eq held.source src)) [
    | inl own ↦ rw own (takes _ (refresh-own src held frame now own) (rw e (inl own)))
    | inr other ↦ elim (Bool-cases (same_origin held.source src && not (contends_for_slot frame))) [
      | inl beside ↦ rw (other, beside) unchanged
      | inr apart ↦ elim (Bool-cases (timed_out timeout held.last_seen now)) [
        | inl old ↦
            rw (other, apart, old)
              (takes _ (reserve-own src frame bridge dest now) (rw e (inr old)))
        | inr live ↦ rw (other, apart, live) unchanged
      ]
    ]
  ]

  pub claim-Takes :
      Takes timeout now src busy (contend dest) (claim timeout busy src frame bridge dest now).0
  unfolding claim
  claim-Takes = settle-Takes (lookup endpoint_eq busy (contend dest)) refl

  -- What the outcome of a claim says of the hold afterwards.
  abbrev pub Outcome : Busy × Claim → Type 0
  Outcome (after, refused held) = after ≡ busy
  Outcome (after, alongside) = contends_for_slot frame ≡ false
  Outcome (after, started) = HeldBy src (contend dest) after
  Outcome (after, continued) = HeldBy src (contend dest) after

  settle-Outcome :
      (o : Option Reservation) → Outcome (settle timeout busy src frame bridge dest now o)
  unfolding settle
  settle-Outcome none =
      put-HeldBy timeout now src busy (contend dest) _ (reserve-own src frame bridge dest now)
  settle-Outcome (some held) = elim (Bool-cases (source_eq held.source src)) [
    | inl own ↦
        rw own
          (put-HeldBy timeout now src busy (contend dest) _ (refresh-own src held frame now own))
    | inr other ↦ elim (Bool-cases (same_origin held.source src && not (contends_for_slot frame))) [
      | inl beside ↦ rw (other, beside) (ground arith)
      | inr apart ↦ elim (Bool-cases (timed_out timeout held.last_seen now)) [
        | inl old ↦
            rw (other, apart, old)
              (put-HeldBy timeout now src busy (contend dest) _
                (reserve-own src frame bridge dest now))
        | inr live ↦ rw (other, apart, live) refl
      ]
    ]
  ]

  pub claim-Outcome : Outcome (claim timeout busy src frame bridge dest now)
  unfolding claim
  claim-Outcome = settle-Outcome (lookup endpoint_eq busy (contend dest))

  pub reserve_origin-Takes :
      Takes timeout now src busy
        (contend dest)
        (reserve_origin timeout busy src frame bridge dest now)
  unfolding reserve_origin
  reserve_origin-Takes = elim (Option-cases (lookup endpoint_eq busy (contend dest))) [
    | inl e ↦ elim (Bool-cases (holds_any busy src)) [
      | inl held_some ↦ rw (e, reserve_origin, held_some) unchanged
      | inr opening ↦
          rw (e, reserve_origin, opening)
            (takes _ (reserve-own src frame bridge dest now) (rw e tt))
    ]
    | inr (held, e) ↦ elim (Bool-cases (holds_any busy src)) [
      | inr opening ↦ elim (Bool-cases (timed_out timeout held.last_seen now)) [
        | inl old ↦
            rw (e, reserve_origin, opening, old)
              (takes _ (reserve-own src frame bridge dest now) (rw e (inr old)))
        | inr live ↦ rw (e, reserve_origin, opening, live) unchanged
      ]
      | inl held_some ↦ elim (Bool-cases (source_eq held.source src)) [
        | inl own ↦
            rw (e, reserve_origin, held_some, own)
              (takes _ (refresh-own src held frame now own) (rw e (inl own)))
        | inr other ↦ rw (e, reserve_origin, held_some, other) unchanged
      ]
    ]
  ]

lookup-release :
    (src : SourceKey) (busy : Busy) (k : Endpoint) (held : Reservation)
    → source_eq held.source src ≡ false
    → lookup endpoint_eq busy k ≡ some held
    → lookup endpoint_eq (release busy src) k ≡ some held
unfolding release lookup
lookup-release src [] k held n e = e
lookup-release src ((j, r) ∷ busy) k held n e = ground (arith, lookup-release src busy k held n)

pub release-HeldByOther :
    (timeout now : ℕ) (src : SourceKey) (busy : Busy) (k : Endpoint) (held : Reservation)
    → HeldByOther timeout now src k held busy
    → HeldByOther timeout now src k held (release busy src)
release-HeldByOther timeout now src busy k held h = record {
  at_key = lookup-release src busy k held h.is_other h.at_key;
  is_other = h.is_other;
  is_live = h.is_live;
}

-- After a release the source holds nothing.
release-holds_any : (busy : Busy) (src : SourceKey) → holds_any (release busy src) src ≡ false
unfolding release holds_any
release-holds_any [] src = refl
release-holds_any ((key, held) ∷ busy) src = ground (arith, release-holds_any busy src)
