-- ===== src/Routing/Core/Holds.antt =====
-- What a claim does to the reservations: it spares those of others that are in use, and keeps
-- the claimant's own.
use qsp.Prelude.{
  ℕ, ◌≡◌, ◌↔◌, ◌⊎◌, inl, inr, refl, ◌∙◌, true, false, Option, none, some, if◌then◌else◌, arith,
  Bool-cases,
}
use qsp.Prelude.Map.{lookup, put, lookup-put}
use qsp.Prelude.Text.{text_eq_iff}
use qsp.Routing.Endpoint.{Endpoint, endpoint_eq}
use qsp.Routing.Endpoint.Laws.{endpoint_eq_iff}
use qsp.Routing.Reservation.{SourceKey, source_eq, Reservation, Busy, timed_out}

source_eq_sound : (a b : SourceKey) → source_eq a b ≡ true → a ≡ b
unfolding source_eq
source_eq_sound a b h =
    ground (arith, text_eq_iff a.upstream b.upstream, text_eq_iff a.transcoder b.transcoder)

source_eq_refl : (a : SourceKey) → source_eq a a ≡ true
unfolding source_eq
source_eq_refl a =
    ground (arith, text_eq_iff a.upstream a.upstream, text_eq_iff a.transcoder a.transcoder)

pub source_eq_iff : (a b : SourceKey) → (source_eq a b ≡ true) ↔ (a ≡ b)
source_eq_iff a b = (source_eq_sound a b, λ e. rw e (source_eq_refl b))

-- The key is held by another source than `src`, whose hold has not timed out at `now`.
pub record HeldByOther (timeout now : ℕ) (src : SourceKey) (k : Endpoint) (held : Reservation)
    (busy : Busy) : Type 0 where
  pub at_key : lookup endpoint_eq busy k ≡ some held
  pub is_other : source_eq held.source src ≡ false
  pub is_live : timed_out timeout held.last_seen now ≡ false

-- The key is held by `src`.
pub record HeldBy (src : SourceKey) (k : Endpoint) (busy : Busy) : Type 0 where
  pub held : Reservation
  pub at_key : lookup endpoint_eq busy k ≡ some held
  pub is_own : source_eq held.source src ≡ true

-- Nobody else uses the key: it is free, or the claimant's own, or its hold has timed out.
abbrev pub IsFree : ℕ → ℕ → SourceKey → Option Reservation → Type 0
IsFree timeout now src none = Unit
IsFree timeout now src (some held) =
    (source_eq held.source src ≡ true) ⊎ (timed_out timeout held.last_seen now ≡ true)

-- The reservations become `after`: unchanged, or one key that nobody else uses goes to `src`.
pub data Takes (timeout now : ℕ) (src : SourceKey) (busy : Busy) (key : Endpoint)
    : Busy → Type 0 where
  unchanged : Takes timeout now src busy key busy
  takes :
      (r : Reservation)
      → source_eq r.source src ≡ true
      → IsFree timeout now src (lookup endpoint_eq busy key)
      → Takes timeout now src busy key (put endpoint_eq busy key r)

module _ (timeout now : ℕ) (src : SourceKey) (busy : Busy) (key : Endpoint) where
  lookup_after :
      (k : Endpoint) (r : Reservation)
      → lookup endpoint_eq (put endpoint_eq busy key r) k
        ≡ (if endpoint_eq key k then some r else lookup endpoint_eq busy k)
  lookup_after k r = lookup-put endpoint_eq endpoint_eq_iff busy key k r

  not_free :
      (k : Endpoint) (held : Reservation)
      → HeldByOther timeout now src k held busy
      → IsFree timeout now src (lookup endpoint_eq busy key)
      → endpoint_eq key k ≡ false
  not_free k held h free = elim (Bool-cases (endpoint_eq key k)) [
    | inr e ↦ e
    | inl e ↦
        let there : lookup endpoint_eq busy key ≡ some held =
          rw ((endpoint_eq_iff key k).0 e) h.at_key in
        absurd (elim (rw there at free) [ inl own ↦ cc (h.is_other) | inr old ↦ cc (h.is_live) ])
  ]

  pub Takes-HeldByOther :
      (after : Busy) (k : Endpoint) (held : Reservation)
      → Takes timeout now src busy key after
      → HeldByOther timeout now src k held busy
      → HeldByOther timeout now src k held after
  Takes-HeldByOther _ k held unchanged h = h
  Takes-HeldByOther _ k held (takes r own free) h = record {
    at_key = lookup_after k r ∙ rw (not_free k held h free) h.at_key;
    is_other = h.is_other;
    is_live = h.is_live;
  }

  pub Takes-HeldBy :
      (after : Busy) (k : Endpoint)
      → Takes timeout now src busy key after
      → HeldBy src k busy
      → HeldBy src k after
  Takes-HeldBy _ k unchanged h = h
  Takes-HeldBy _ k (takes r own free) h = elim (Bool-cases (endpoint_eq key k)) [
    | inl e ↦ record { held = r; at_key = lookup_after k r ∙ rw e refl; is_own = own }
    | inr e ↦ record { held = h.held; at_key = lookup_after k r ∙ rw e h.at_key; is_own = h.is_own }
  ]

  pub Takes-IsFree :
      (after : Busy) (k : Endpoint)
      → Takes timeout now src busy key after
      → IsFree timeout now src (lookup endpoint_eq busy k)
      → IsFree timeout now src (lookup endpoint_eq after k)
  Takes-IsFree _ k unchanged h = h
  Takes-IsFree _ k (takes r own free) h = elim (Bool-cases (endpoint_eq key k)) [
    | inl e ↦ rw (lookup_after k r, e) (inl own)
    | inr e ↦ rw (lookup_after k r, e) h
  ]

  pub put-HeldBy :
      (r : Reservation)
      → source_eq r.source src ≡ true
      → HeldBy src key (put endpoint_eq busy key r)
  put-HeldBy r own = record {
    held = r;
    at_key = lookup_after key r ∙ rw ((endpoint_eq_iff key key).1 refl) refl;
    is_own = own;
  }
