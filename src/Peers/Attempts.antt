-- ===== src/Peers/Attempts.antt =====
-- internal/peers/throttle.go, its first part: what is kept of the failed logins of an address. An
-- address is a number, a time is in nanoseconds, and a table is listed in the order that its map is
-- gone through.
use qsp.Prelude.{
  ℕ, zero, suc, ◌+◌, ◌*◌, Bool, true, false, not, ◌&&◌, Option, none, some, List, [], ◌∷◌, ltb,
  ◌==◌, if◌then◌else◌,
}
use qsp.Prelude.Int.{ℤ, pos, negsuc}
use qsp.Prelude.Map.{lookup}

abbrev pub default_max_login_failures : ℕ
default_max_login_failures = 6

abbrev pub minute : ℕ
minute = 60_000_000_000

abbrev pub default_login_lockout : ℕ
default_login_lockout = 5 * minute

abbrev pub login_failure_window : ℕ
login_failure_window = 15 * minute

abbrev pub max_tracked_sources : ℕ
max_tracked_sources = 4096

pub data FailureReason : Type 0 where
  wrong_password unknown_id wrong_address unsolicited : FailureReason

unfoldable pub reason_eq : FailureReason → FailureReason → Bool
reason_eq wrong_password wrong_password = true
reason_eq unknown_id unknown_id = true
reason_eq wrong_address wrong_address = true
reason_eq unsolicited unsolicited = true
reason_eq _ _ = false

unfoldable pub proves_address : FailureReason → Bool
proves_address unsolicited = false
proves_address wrong_address = false
proves_address _ = true

abbrev pub Reasons : Type 0
Reasons = List (FailureReason × ℕ)

pub record LoginAttempts : Type 0 where
  pub failures : ℕ
  pub first : ℕ
  pub last : ℕ
  pub until : Option ℕ
  pub reasons : Reasons
  pub warned : Bool

abbrev pub Attempts : Type 0
Attempts = List (ℕ × LoginAttempts)

pub record Throttle : Type 0 where
  pub max : ℕ
  pub lockout : ℕ
  pub attempts : Attempts

-- A limit at or below zero is the default.
unfoldable pub or_default : ℤ → ℕ → ℕ
or_default (negsuc n) d = d
or_default (pos zero) d = d
or_default (pos (suc n)) d = suc n

unfoldable pub new_throttle : ℤ → ℤ → Throttle
unfolding or_default
new_throttle max lockout = record {
  max = or_default max default_max_login_failures;
  lockout = or_default lockout default_login_lockout;
  attempts = [];
}

abbrev pub addr_eq : ℕ → ℕ → Bool
addr_eq a b = a == b

-- `!a.until.IsZero() && now.Before(a.until)`.
unfoldable pub is_locked : LoginAttempts → ℕ → Bool
is_locked a now = elim a.until [ none ↦ false | some until ↦ ltb now until ]

-- `now.Sub(a.last) > loginFailureWindow`.
unfoldable pub is_quiet : LoginAttempts → ℕ → Bool
is_quiet a now = ltb (a.last + login_failure_window) now

-- The method locked.
unfoldable pub locked : Throttle → ℕ → ℕ → Bool
locked t addr now = elim (lookup addr_eq t.attempts addr) [
  | none ↦ false
  | some a ↦ is_locked a now
]

-- The method expire: an entry goes when it is neither locked nor recent.
unfoldable pub expire_attempts : Attempts → ℕ → Attempts
expire_attempts [] now = []
expire_attempts ((addr, a) ∷ m) now =
    let rest = expire_attempts m now in
    if not (is_locked a now) && is_quiet a now then rest else (addr, a) ∷ rest

unfoldable pub expire : Throttle → ℕ → Throttle
unfolding expire_attempts
expire t now = record t { attempts = expire_attempts t.attempts now }
