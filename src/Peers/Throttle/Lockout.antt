-- ===== src/Peers/Throttle/Lockout.antt =====
-- Who is locked out: a run of proven failures, and never a failure that can be forged.
use qsp.Prelude.{
  ℕ, ◌+◌, ◌≤◌, ◌≡◌, inl, inr, refl, ◌∙◌, true, false, not, ◌&&◌, some, ltb, leb, ◌==◌, ==_iff,
  if◌then◌else◌, arith, length, Bool-cases, Option-cases,
}
use qsp.Prelude.Map.{lookup, put, lookup-put}
use qsp.Peers.Throttle.Room.{make_room_unproven}
use qsp.Peers.Attempts.{
  FailureReason, proves_address, LoginAttempts, Throttle, max_tracked_sources, addr_eq, is_locked,
  is_quiet, locked,
}
use qsp.Peers.Throttle.{fresh, count_reason, record_failure, fail_new, fail}

-- The entry that a failure leaves at its address.
unfoldable pub entry_after : Throttle → LoginAttempts → FailureReason → ℕ → LoginAttempts
entry_after t a reason now =
    let noted = record a { last = now; reasons = count_reason a.reasons reason } in
    if not (proves_address reason)
    then noted
    else if ltb (a.failures + 1) t.max
    then record noted { failures = a.failures + 1 }
    else record noted { failures = a.failures + 1; until = some (now + t.lockout); warned = true }

-- The source leaves `warned` as it is where it is set.
pub record_failure-entry_after :
    (t : Throttle) (addr : ℕ) (a : LoginAttempts) (reason : FailureReason) (now : ℕ)
    → (record_failure t addr a reason now).throttle
      ≡ record t { attempts = put addr_eq t.attempts addr (entry_after t a reason now) }
unfolding record_failure entry_after
record_failure-entry_after t addr a reason now = ground arith

pub lookup-record_failure :
    (t : Throttle) (addr : ℕ) (a : LoginAttempts) (reason : FailureReason) (now other : ℕ)
    → lookup addr_eq (record_failure t addr a reason now).throttle.attempts other ≡ (
        if addr == other
        then some (entry_after t a reason now)
        else lookup addr_eq t.attempts other)
lookup-record_failure t addr a reason now other =
    rw (record_failure-entry_after t addr a reason now)
      (lookup-put addr_eq ==_iff t.attempts addr other (entry_after t a reason now))

record_failure-locked_now :
    (t : Throttle) (addr : ℕ) (a : LoginAttempts) (reason : FailureReason) (now : ℕ)
    → (record_failure t addr a reason now).locked_now
      ≡ (proves_address reason && leb t.max (a.failures + 1))
unfolding record_failure
record_failure-locked_now t addr a reason now = ground arith

record_unproven :
    (t : Throttle) (addr : ℕ) (a : LoginAttempts) (reason : FailureReason) (now other later : ℕ)
    → proves_address reason ≡ false
    → is_locked a later ≡ locked t addr later
    → locked (record_failure t addr a reason now).throttle other later ≡ locked t other later
unfolding locked is_locked entry_after
record_unproven t addr a reason now other later n same =
    ground (arith, lookup-record_failure t addr a reason now other)

is_locked_mono :
    (a : LoginAttempts) (now later : ℕ)
    → now ≤ later
    → is_locked a now ≡ false
    → is_locked a later ≡ false
unfolding is_locked
is_locked_mono a now later le h = ground arith

-- A failure that can be forged locks nobody out and lets nobody out, where it comes from an address
-- that is not locked at the time, as the master makes sure: from then on every address is
-- locked exactly when it would have been without it.
pub fail-unproven :
    (t : Throttle) (addr : ℕ) (reason : FailureReason) (now other later : ℕ)
    → proves_address reason ≡ false
    → locked t addr now ≡ false
    → now ≤ later
    → ((fail t addr reason now).locked_now ≡ false)
      × (locked (fail t addr reason now).throttle other later ≡ locked t other later)
unfolding fail fail_new
fail-unproven t addr reason now other later n open_now le =
    elim (Option-cases (lookup addr_eq t.attempts addr)) [
      | inl absent ↦
          let same : is_locked (fresh now) later ≡ locked t addr later =
            unfold is_locked locked in ground arith in
          rw (absent, fail)
            (elim (Bool-cases (ltb (length t.attempts) max_tracked_sources)) [
              | inl below ↦ rw below (
                record_failure-locked_now t addr (fresh now) reason now ∙ rw n refl,
                record_unproven t addr (fresh now) reason now other later n same,
              )
              | inr full ↦ rw (full, make_room_unproven t reason now n) (refl, refl)
            ])
      | inr (a, there) ↦
          let shut : is_locked a now ≡ false = unfold locked in ground arith in
          let still : locked t addr later ≡ false =
            unfold locked in ground (arith, is_locked_mono a now later le shut) in
          let old = if is_quiet a now then fresh now else a in
          let same : is_locked old later ≡ locked t addr later =
            unfold is_locked in ground (arith, is_locked_mono a now later le shut) in
          rw (there, fail)
            (
              record_failure-locked_now t addr old reason now ∙ rw n refl,
              record_unproven t addr old reason now other later n same,
            )
    ]
