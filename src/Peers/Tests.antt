-- ===== src/Peers/Tests.antt =====
-- Runs of the login throttle.
use qsp.Prelude.{
  ℕ, suc, ◌*◌, ◌≤◌, ◌≡◌, refl, Bool, true, false, List, [], ◌∷◌, arith, length, some, none,
}
use qsp.Prelude.Int.{pos, negsuc}
use qsp.Peers.Attempts.{
  Throttle, new_throttle, locked, wrong_password, unknown_id, unsolicited, max_tracked_sources,
  minute,
}
use qsp.Peers.Throttle.{fail, tracked, blocked}
use qsp.Peers.Throttle.Bound.{run, failure, success, sweep, fail-length, run-length, fail-tracked}
use qsp.Peers.Throttle.Lockout.{fail-unproven}
use qsp.Peers.Throttle.Limit.{fail_run, fail_run-locked}

abbrev empty : Throttle
empty = record { max = 3; lockout = 100; attempts = [] }

defaults : new_throttle (pos 0) (negsuc 4) ≡ record { max = 6; lockout = 5 * minute; attempts = [] }
unfolding new_throttle
defaults = refl

abbrev twice : Throttle
twice = run empty (failure 7 wrong_password 10 ∷ failure 7 unknown_id 20 ∷ [])

locks_at_third : (fail twice 7 wrong_password 30).locked_now ≡ true
unfolding run fail qsp.Prelude.Map.lookup qsp.Peers.Throttle.Bound.step qsp.Peers.Throttle.fail_new
    qsp.Peers.Throttle.record_failure qsp.Peers.Attempts.proves_address qsp.Prelude.Map.put
    qsp.Peers.Attempts.is_quiet
locks_at_third = refl

run-length_example :
    length (run empty (failure 7 wrong_password 10 ∷ success 7 ∷ sweep 20 ∷ [])).attempts
    ≤ max_tracked_sources
run-length_example =
    run-length empty (failure 7 wrong_password 10 ∷ success 7 ∷ sweep 20 ∷ []) (omega arith)

abbrev listed : Throttle
listed = record {
  max = 3;
  lockout = 100;
  attempts =
      (
        7,
        record {
          failures = 2;
          first = 10;
          last = 20;
          until = none;
          reasons = (wrong_password, 2) ∷ [];
          warned = false;
        },
      )
      ∷ [];
}

fail-unproven_example :
    ((fail listed 7 unsolicited 30).locked_now ≡ false)
    × (locked (fail listed 7 unsolicited 30).throttle 7 40 ≡ locked listed 7 40)
unfolding locked qsp.Peers.Attempts.proves_address qsp.Prelude.Map.lookup
    qsp.Peers.Attempts.is_locked
fail-unproven_example = fail-unproven listed 7 unsolicited 30 7 40 refl refl (omega arith)

fail_run-locked_example :
    locked
      (fail_run empty 7 ((wrong_password, 10) ∷ (unknown_id, 20) ∷ (wrong_password, 30) ∷ []))
      7
      120
    ≡ true
unfolding qsp.Prelude.Map.lookup qsp.Peers.Attempts.proves_address
fail_run-locked_example =
    fail_run-locked empty 7 wrong_password 10 120 ((unknown_id, 20) ∷ (wrong_password, 30) ∷ [])
      refl (omega arith) refl (refl, omega arith, (refl, omega arith, tt)) (omega arith)
      (omega arith)
