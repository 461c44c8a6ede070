-- ===== src/Peers/Throttle.antt =====
-- internal/peers/throttle.go, its second part: a failed login, and the place that is made for it in a
-- full table.
pub mod Room
pub mod Bound
pub mod Lockout
pub mod Limit
use qsp.Prelude.{
  ℕ, zero, suc, ◌+◌, ◌*◌, ◌-◌, Bool, true, false, not, ◌&&◌, ◌||◌, Option, none, some, List, [],
  ◌∷◌, ltb, leb, ◌==◌, if◌then◌else◌, length,
}
use qsp.Prelude.Int.{ℤ, pos, negsuc}
use qsp.Prelude.Map.{lookup, put, delete}
use qsp.Peers.Attempts.{
  Attempts, FailureReason, LoginAttempts, Reasons, Throttle, addr_eq, default_login_lockout,
  default_max_login_failures, expire, expire_attempts, is_locked, is_quiet, locked,
  login_failure_window, max_tracked_sources, minute, new_throttle, or_default, proves_address,
  reason_eq, unknown_id, unsolicited, wrong_address, wrong_password,
}

-- The candidates of makeRoom, each with its entry.
pub record Candidates : Type 0 where
  pub unproven : Option (ℕ × LoginAttempts)
  pub unlocked : Option (ℕ × LoginAttempts)
  pub locked_out : Option (ℕ × LoginAttempts)

-- The candidate whose run has been quiet longest.
unfoldable pub quieter : Option (ℕ × LoginAttempts) → ℕ × LoginAttempts → Option (ℕ × LoginAttempts)
quieter none new = some new
quieter (some old) new = if ltb new.1.last old.1.last then some new else some old

-- `a.until.Before(b.until)`, where the zero time is before every other.
unfoldable until_before : Option ℕ → Option ℕ → Bool
until_before none none = false
until_before none (some b) = true
until_before (some a) none = false
until_before (some a) (some b) = ltb a b

unfoldable pub ends_sooner :
    Option (ℕ × LoginAttempts) → ℕ × LoginAttempts → Option (ℕ × LoginAttempts)
unfolding until_before
ends_sooner none new = some new
ends_sooner (some old) new = if until_before new.1.until old.1.until then some new else some old

unfoldable pub consider : ℕ → Candidates → ℕ × LoginAttempts → Candidates
consider now c entry =
    if entry.1.failures == 0
    then record c { unproven = quieter c.unproven entry }
    else if not (is_locked entry.1 now)
    then record c { unlocked = quieter c.unlocked entry }
    else record c { locked_out = ends_sooner c.locked_out entry }

unfoldable pub candidates : ℕ → Candidates → Attempts → Candidates
candidates now c [] = c
candidates now c (entry ∷ m) = candidates now (consider now c entry) m

-- The switch that takes the place of the one that proves least.
unfoldable pub choose : Candidates → Option ℕ
choose c = elim c.unproven [
  | some (addr, _) ↦ some addr
  | none ↦ elim c.unlocked [
    | some (addr, _) ↦ some addr
    | none ↦ elim c.locked_out [ some (addr, _) ↦ some addr | none ↦ none ]
  ]
]

abbrev pub nobody : Candidates
nobody = record { unproven = none; unlocked = none; locked_out = none }

-- The method makeRoom: the new table, and whether there is a place in it.
unfoldable pub make_room : Throttle → FailureReason → ℕ → Throttle × Bool
make_room t reason now =
    let swept = expire t now in
    if not (proves_address reason)
    then (t, false)
    else if ltb (length swept.attempts) max_tracked_sources
    then (swept, true)
    else elim (choose (candidates now nobody swept.attempts)) [
      | some addr ↦ (record swept { attempts = delete addr_eq swept.attempts addr }, true)
      | none ↦ (swept, false)
    ]

abbrev pub fresh : ℕ → LoginAttempts
fresh now = record {
  failures = 0;
  first = now;
  last = now;
  until = none;
  reasons = [];
  warned = false;
}

-- `a.reasons[reason]++`.
unfoldable pub count_reason : Reasons → FailureReason → Reasons
unfolding reason_eq
count_reason m reason = elim (lookup reason_eq m reason) [
  | none ↦ put reason_eq m reason 1
  | some n ↦ put reason_eq m reason (n + 1)
]

-- What the log line says: the failures, the run's length, and the reasons counted.
pub record Summary : Type 0 where
  pub failed : ℕ
  pub address : ℕ
  pub elapsed : ℕ
  pub counted : Reasons

pub record Failed : Type 0 where
  pub throttle : Throttle
  pub locked_now : Bool
  pub summary : Option Summary

-- The part of fail behind the choice of an entry: `a` is the entry at the address.
unfoldable pub record_failure : Throttle → ℕ → LoginAttempts → FailureReason → ℕ → Failed
record_failure t addr a reason now =
    let noted = record a { last = now; reasons = count_reason a.reasons reason } in
    let counted = record noted { failures = a.failures + 1 } in
    let shut = record counted { until = some (now + t.lockout) } in
    let store = λ (b : LoginAttempts). record t { attempts = put addr_eq t.attempts addr b } in
    if not (proves_address reason)
    then record { throttle = store noted; locked_now = false; summary = none }
    else if ltb (a.failures + 1) t.max
    then record { throttle = store counted; locked_now = false; summary = none }
    else if a.warned
    then record { throttle = store shut; locked_now = true; summary = none }
    else record {
      throttle = store (record shut { warned = true });
      locked_now = true;
      summary = some (record {
        failed = a.failures + 1;
        address = addr;
        elapsed = now - a.first;
        counted = noted.reasons;
      });
    }

-- With no entry at the address: a place is made in a full table, or the failure is turned away.
unfoldable pub fail_new : Throttle → ℕ → FailureReason → ℕ → Failed
fail_new t addr reason now =
    let room = make_room t reason now in
    if ltb (length t.attempts) max_tracked_sources
    then record_failure t addr (fresh now) reason now
    else if room.1
    then record_failure room.0 addr (fresh now) reason now
    else record { throttle = room.0; locked_now = false; summary = none }

-- The method fail.
unfoldable pub fail : Throttle → ℕ → FailureReason → ℕ → Failed
fail t addr reason now = elim (lookup addr_eq t.attempts addr) [
  | none ↦ fail_new t addr reason now
  | some a ↦ record_failure t addr (if is_quiet a now then fresh now else a) reason now
]

-- The method succeed.
unfoldable pub succeed : Throttle → ℕ → Throttle
succeed t addr = record t { attempts = delete addr_eq t.attempts addr }

-- The method tracked.
unfoldable pub tracked : Throttle → ℕ → Bool
tracked t addr = elim (lookup addr_eq t.attempts addr) [ none ↦ false | some a ↦ true ]

unfoldable count_blocked : Attempts → ℕ → ℕ
count_blocked [] now = 0
count_blocked ((addr, a) ∷ m) now = (if is_locked a now then 1 else 0) + count_blocked m now

-- The method blocked.
unfoldable pub blocked : Throttle → ℕ → ℕ
unfolding count_blocked
blocked t now = count_blocked t.attempts now
