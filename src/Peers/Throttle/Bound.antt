-- ===== src/Peers/Throttle/Bound.antt =====
-- The table of failing addresses: it stays within its limit, and a failure that proves its address
-- always has a place in it.
use qsp.Prelude.{
  ℕ, ◌+◌, ◌≤◌, ◌≡◌, inl, inr, refl, Bool, true, false, none, some, List, [], ◌∷◌, ltb, ==_iff,
  if◌then◌else◌, arith, length, Bool-cases, Option-cases,
}
use qsp.Prelude.Map.{lookup, put, lookup-put}
use qsp.Prelude.Map.Keys.{length-put}
use qsp.Peers.Throttle.Room.{
  length-put_old, length-delete, length-expire_attempts, make_room-proven, make_room_unproven,
}
use qsp.Peers.Attempts.{
  FailureReason, proves_address, LoginAttempts, Throttle, max_tracked_sources, addr_eq, is_quiet,
  expire,
}
use qsp.Peers.Throttle.{make_room, fresh, record_failure, fail_new, fail, succeed, tracked}

record_failure-length :
    (t : Throttle) (addr : ℕ) (a : LoginAttempts) (reason : FailureReason) (now : ℕ)
    → length (record_failure t addr a reason now).throttle.attempts ≤ length t.attempts + 1
unfolding record_failure
record_failure-length t addr a reason now = elim (Bool-cases (proves_address reason)) [
  | inr n ↦ rw n (length-put addr_eq t.attempts addr _)
  | inl y ↦ elim (Bool-cases (ltb (a.failures + 1) t.max)) [
    | inl l ↦ rw (y, l) (length-put addr_eq t.attempts addr _)
    | inr l ↦ elim (Bool-cases a.warned) [
      | inl w ↦ rw (y, l, w) (length-put addr_eq t.attempts addr _)
      | inr w ↦ rw (y, l, w) (length-put addr_eq t.attempts addr _)
    ]
  ]
]

record_failure-length_old :
    (t : Throttle) (addr : ℕ) (a old : LoginAttempts) (reason : FailureReason) (now : ℕ)
    → lookup addr_eq t.attempts addr ≡ some old
    → length (record_failure t addr a reason now).throttle.attempts ≡ length t.attempts
unfolding record_failure
record_failure-length_old t addr a old reason now there =
    elim (Bool-cases (proves_address reason)) [
      | inr n ↦ rw n (length-put_old t.attempts addr _ old there)
      | inl y ↦ elim (Bool-cases (ltb (a.failures + 1) t.max)) [
        | inl l ↦ rw (y, l) (length-put_old t.attempts addr _ old there)
        | inr l ↦ elim (Bool-cases a.warned) [
          | inl w ↦ rw (y, l, w) (length-put_old t.attempts addr _ old there)
          | inr w ↦ rw (y, l, w) (length-put_old t.attempts addr _ old there)
        ]
      ]
    ]

fail_new-length :
    (t : Throttle) (addr : ℕ) (reason : FailureReason) (now : ℕ)
    → length t.attempts ≤ max_tracked_sources
    → length (fail_new t addr reason now).throttle.attempts ≤ max_tracked_sources
unfolding fail_new
fail_new-length t addr reason now size =
    elim (Bool-cases (ltb (length t.attempts) max_tracked_sources)) [
      | inl below ↦ rw below (ground (arith, record_failure-length t addr (fresh now) reason now))
      | inr full ↦ elim (Bool-cases (proves_address reason)) [
        | inr n ↦ rw (full, make_room_unproven t reason now n) size
        | inl y ↦
            let (room, less) = make_room-proven t reason now y size in
            rw (full, room)
              (ground (
                arith,
                record_failure-length (make_room t reason now).0 addr (fresh now) reason now,
              ))
      ]
    ]

-- A failure keeps the table within its limit of addresses.
pub fail-length :
    (t : Throttle) (addr : ℕ) (reason : FailureReason) (now : ℕ)
    → length t.attempts ≤ max_tracked_sources
    → length (fail t addr reason now).throttle.attempts ≤ max_tracked_sources
unfolding fail
fail-length t addr reason now size = elim (Option-cases (lookup addr_eq t.attempts addr)) [
  | inl n ↦ rw (n, fail) (fail_new-length t addr reason now size)
  | inr (a, y) ↦
      rw (y, fail)
        (omega (
          arith,
          record_failure-length_old t addr (if is_quiet a now then fresh now else a) a reason now y,
        ))
]

-- What the master does with its throttle.
pub data Event : Type 0 where
  failure : ℕ → FailureReason → ℕ → Event
  success : ℕ → Event
  sweep : ℕ → Event

unfoldable pub step : Throttle → Event → Throttle
step t (failure addr reason now) = (fail t addr reason now).throttle
step t (success addr) = succeed t addr
step t (sweep now) = expire t now

unfoldable pub run : Throttle → List Event → Throttle
run t [] = t
run t (e ∷ es) = run (step t e) es

step-length :
    (t : Throttle) (e : Event)
    → length t.attempts ≤ max_tracked_sources
    → length (step t e).attempts ≤ max_tracked_sources
unfolding step succeed expire
step-length t (failure addr reason now) size = fail-length t addr reason now size
step-length t (success addr) size = omega (arith, length-delete t.attempts addr)
step-length t (sweep now) size = omega (arith, length-expire_attempts t.attempts now)

-- However many failures, successes and sweeps come in whatever order, at most 4,096 addresses are
-- remembered.
pub run-length :
    (t : Throttle) (es : List Event)
    → length t.attempts ≤ max_tracked_sources
    → length (run t es).attempts ≤ max_tracked_sources
unfolding run
run-length t [] size = size
run-length t (e ∷ es) size = run-length (step t e) es (step-length t e size)

record_failure-tracked :
    (t : Throttle) (addr : ℕ) (a : LoginAttempts) (reason : FailureReason) (now : ℕ)
    → tracked (record_failure t addr a reason now).throttle addr ≡ true
unfolding record_failure tracked
record_failure-tracked t addr a reason now = elim (Bool-cases (proves_address reason)) [
  | inr n ↦ rw n (put_tracked _)
  | inl y ↦ elim (Bool-cases (ltb (a.failures + 1) t.max)) [
    | inl l ↦ rw (y, l) (put_tracked _)
    | inr l ↦ elim (Bool-cases a.warned) [
      | inl w ↦ rw (y, l, w) (put_tracked _)
      | inr w ↦ rw (y, l, w) (put_tracked _)
    ]
  ]
]
  where
    put_tracked :
        (b : LoginAttempts)
        → (elim (lookup addr_eq (put addr_eq t.attempts addr b) addr) as (λ _. Bool) [
          | none ↦ false
          | some a ↦ true
        ])
          ≡ true
    put_tracked b =
        rw (lookup-put addr_eq ==_iff t.attempts addr addr b, (==_iff addr addr).1 refl) refl

-- A failure that proves its address is remembered also when the table is full, whatever fills it:
-- no flood of forged failures keeps a real guesser from being counted.
pub fail-tracked :
    (t : Throttle) (addr : ℕ) (reason : FailureReason) (now : ℕ)
    → length t.attempts ≤ max_tracked_sources
    → proves_address reason ≡ true
    → tracked (fail t addr reason now).throttle addr ≡ true
unfolding fail fail_new
fail-tracked t addr reason now size proven = elim (Option-cases (lookup addr_eq t.attempts addr)) [
  | inr (a, y) ↦ rw (y, fail) (record_failure-tracked t addr _ reason now)
  | inl n ↦
      rw (n, fail)
        (elim (Bool-cases (ltb (length t.attempts) max_tracked_sources)) [
          | inl below ↦ rw below (record_failure-tracked t addr (fresh now) reason now)
          | inr full ↦
              rw (full, (make_room-proven t reason now proven size).0)
                (record_failure-tracked (make_room t reason now).0 addr (fresh now) reason now)
        ])
]
