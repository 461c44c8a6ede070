-- ===== src/Peers/Throttle/Limit.antt =====
-- The limit on failed logins: a run of proven failures locks its address out.
use qsp.Prelude.{
  ℕ, ◌+◌, ◌≤◌, ◌<◌, ◌≡◌, refl, ◌∙◌, true, false, none, some, List, [], ◌∷◌, ltb, ==_iff, arith,
  length,
}
use qsp.Prelude.Map.{lookup}
use qsp.Peers.Attempts.{
  FailureReason, proves_address, LoginAttempts, Throttle, login_failure_window, max_tracked_sources,
  addr_eq, is_locked, is_quiet, locked,
}
use qsp.Peers.Throttle.{fresh, record_failure, fail_new, fail}
use qsp.Peers.Throttle.Lockout.{entry_after, record_failure-entry_after, lookup-record_failure}

-- Failures from one address, each a reason and a time.
abbrev pub fail_run : Throttle → ℕ → List (FailureReason × ℕ) → Throttle
fail_run t addr [] = t
fail_run t addr ((reason, now) ∷ rest) = fail_run (fail t addr reason now).throttle addr rest

-- Each failure proves its address, and none comes later than the window after the one before.
abbrev IsRun : ℕ → List (FailureReason × ℕ) → Type 0
IsRun last [] = Unit
IsRun last ((reason, now) ∷ rest) =
    (proves_address reason ≡ true) × (now ≤ last + login_failure_window) × IsRun now rest

abbrev ends_at : ℕ → List (FailureReason × ℕ) → ℕ
ends_at last [] = last
ends_at last ((reason, now) ∷ rest) = ends_at now rest

entry_there :
    (t : Throttle) (addr : ℕ) (a : LoginAttempts) (reason : FailureReason) (now : ℕ)
    → lookup addr_eq (record_failure t addr a reason now).throttle.attempts addr
      ≡ some (entry_after t a reason now)
entry_there t addr a reason now =
    lookup-record_failure t addr a reason now addr ∙ rw ((==_iff addr addr).1 refl) refl

-- A proven failure counts one more, at its time, and locks the address where that is the limit.
record Counts (t : Throttle) (a e : LoginAttempts) (now : ℕ) : Type 0 where
  one_more : e.failures ≡ a.failures + 1
  at_now : e.last ≡ now
  shut : t.max ≤ a.failures + 1 → e.until ≡ some (now + t.lockout)

entry_after-Counts :
    (t : Throttle) (a : LoginAttempts) (reason : FailureReason) (now : ℕ)
    → proves_address reason ≡ true
    → Counts t a (entry_after t a reason now) now
unfolding entry_after
entry_after-Counts t a reason now p = record {
  one_more = ground arith;
  at_now = ground arith;
  shut = λ h. ground arith;
}

fail-on_record :
    (t : Throttle) (addr : ℕ) (a : LoginAttempts) (reason : FailureReason) (now : ℕ)
    → lookup addr_eq t.attempts addr ≡ some a
    → now ≤ a.last + login_failure_window
    → fail t addr reason now ≡ record_failure t addr a reason now
unfolding fail is_quiet
fail-on_record t addr a reason now e h =
    let recent : is_quiet a now ≡ false = ground arith in rw (e, fail, recent) refl

record_failure-settings :
    (t : Throttle) (addr : ℕ) (a : LoginAttempts) (reason : FailureReason) (now : ℕ)
    → ((record_failure t addr a reason now).throttle.max ≡ t.max)
      × ((record_failure t addr a reason now).throttle.lockout ≡ t.lockout)
record_failure-settings t addr a reason now =
    rw (record_failure-entry_after t addr a reason now) (refl, refl)

locked_by_entry :
    (t : Throttle) (addr : ℕ) (e : LoginAttempts) (until later : ℕ)
    → lookup addr_eq t.attempts addr ≡ some e
    → e.until ≡ some until
    → later < until
    → locked t addr later ≡ true
unfolding locked is_locked
locked_by_entry t addr e until later there shut before = ground arith

run-locked :
    (rest : List (FailureReason × ℕ)) (t : Throttle) (addr : ℕ) (a : LoginAttempts)
    (reason : FailureReason) (now later : ℕ)
    → proves_address reason ≡ true
    → IsRun now rest
    → t.max ≤ a.failures + 1 + length rest
    → later < ends_at now rest + t.lockout
    → locked (fail_run (record_failure t addr a reason now).throttle addr rest) addr later ≡ true
run-locked [] t addr a reason now later p run enough before =
    let counts = entry_after-Counts t a reason now p in
    locked_by_entry (record_failure t addr a reason now).throttle addr (entry_after t a reason now)
      (now + t.lockout) later (entry_there t addr a reason now)
      (counts.shut (omega (arith, enough))) (omega (arith, before))
run-locked ((reason', now') ∷ rest) t addr a reason now later p (p', soon, run) enough before =
    let after = (record_failure t addr a reason now).throttle in
    let counts = entry_after-Counts t a reason now p in
    let (same_max, same_lockout) = record_failure-settings t addr a reason now in
    rw
      (fail-on_record after addr (entry_after t a reason now) reason' now'
        (entry_there t addr a reason now) (rw counts.at_now soon))
      (run-locked rest after addr (entry_after t a reason now) reason' now' later p' run
        (omega (arith, same_max, counts.one_more)) (omega (arith, same_lockout)))

-- From an address that is not on record, in a table with room, as many proven failures as the
-- limit says, none later than the window after the one before, lock the address until the lockout
-- has passed since the last of them.
pub fail_run-locked :
    (t : Throttle) (addr : ℕ) (reason : FailureReason) (now later : ℕ)
    (rest : List (FailureReason × ℕ))
    → lookup addr_eq t.attempts addr ≡ none
    → length t.attempts < max_tracked_sources
    → proves_address reason ≡ true
    → IsRun now rest
    → t.max ≤ 1 + length rest
    → later < ends_at now rest + t.lockout
    → locked (fail_run t addr ((reason, now) ∷ rest)) addr later ≡ true
unfolding fail fail_new
fail_run-locked t addr reason now later rest absent room p run enough before =
    let below : ltb (length t.attempts) max_tracked_sources ≡ true = ground arith in
    rw (absent, fail, below)
      (run-locked rest t addr (fresh now) reason now later p run (omega arith) before)
