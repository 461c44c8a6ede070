-- ===== src/Peers/Throttle/Room.antt =====
-- makeRoom: in a full table somebody is chosen to give way, but only to a proven failure.
use qsp.Prelude.{
  ℕ, ◌≤◌, ◌<◌, ◌≡◌, ◌⊎◌, inl, inr, refl, Bool, true, false, ◌||◌, Option, none, some, [], ◌∷◌, ltb,
  ◌==◌, arith, length, Bool-cases, Option-cases,
}
use qsp.Prelude.Map.{lookup, put, delete}
use qsp.Peers.Attempts.{
  FailureReason, proves_address, LoginAttempts, Attempts, Throttle, max_tracked_sources, addr_eq,
  is_locked, expire_attempts, expire,
}
use qsp.Peers.Throttle.{
  Candidates, quieter, ends_sooner, consider, candidates, choose, nobody, make_room,
}

pub length-put_old :
    (m : Attempts) (k : ℕ) (v w : LoginAttempts)
    → lookup addr_eq m k ≡ some w
    → length (put addr_eq m k v) ≡ length m
unfolding put lookup
length-put_old [] k v w h = cc
length-put_old ((j, x) ∷ m) k v w h = ground (arith, length-put_old m k v w)

pub length-delete : (m : Attempts) (k : ℕ) → length (delete addr_eq m k) ≤ length m
unfolding delete
length-delete [] k = omega arith
length-delete ((j, x) ∷ m) k = ground (arith, length-delete m k)

pub length-expire_attempts : (m : Attempts) (now : ℕ) → length (expire_attempts m now) ≤ length m
unfolding expire_attempts
length-expire_attempts [] now = omega arith
length-expire_attempts ((j, a) ∷ m) now = ground (arith, length-expire_attempts m now)

-- The address stands in the table.
abbrev has : Attempts → ℕ → Bool
has [] addr = false
has ((j, a) ∷ m) addr = addr_eq j addr || has m addr

length-delete-has :
    (m : Attempts) (addr : ℕ) → has m addr ≡ true → length (delete addr_eq m addr) < length m
unfolding delete
length-delete-has [] addr h = cc
length-delete-has ((j, a) ∷ m) addr h =
    ground (arith, length-delete m addr, length-delete-has m addr)

-- Every candidate stands in the table.
record FromTable (m : Attempts) (c : Candidates) : Type 0 where
  unproven_in : (e : ℕ × LoginAttempts) → c.unproven ≡ some e → has m e.0 ≡ true
  unlocked_in : (e : ℕ × LoginAttempts) → c.unlocked ≡ some e → has m e.0 ≡ true
  locked_in : (e : ℕ × LoginAttempts) → c.locked_out ≡ some e → has m e.0 ≡ true

abbrev some_candidate : Candidates → Bool
some_candidate c = is_some c.unproven || is_some c.unlocked || is_some c.locked_out
  where
    is_some : Option (ℕ × LoginAttempts) → Bool
    is_some none = false
    is_some (some e) = true

one_of :
    (m : Attempts) (o : Option (ℕ × LoginAttempts)) (new e : ℕ × LoginAttempts)
    → ((e : ℕ × LoginAttempts) → o ≡ some e → has m e.0 ≡ true)
    → has m new.0 ≡ true
    → ((quieter o new ≡ some e) ⊎ (ends_sooner o new ≡ some e))
    → has m e.0 ≡ true
unfolding quieter ends_sooner
one_of m none new e h k (inl p) = ground arith
one_of m none new e h k (inr p) = ground arith
one_of m (some old) new e h k (inl p) = ground (arith, h old refl)
one_of m (some old) new e h k (inr p) = ground (arith, h old refl)

consider-FromTable :
    (m : Attempts) (now : ℕ) (c : Candidates) (e : ℕ × LoginAttempts)
    → has m e.0 ≡ true
    → FromTable m c
    → FromTable m (consider now c e)
unfolding consider
consider-FromTable m now c e h f = elim (Bool-cases (e.1.failures == 0)) [
  | inl z ↦ rw z (record {
    unproven_in = λ x p. one_of m c.unproven e x f.unproven_in h (inl p);
    unlocked_in = f.unlocked_in;
    locked_in = f.locked_in;
  })
  | inr z ↦ elim (Bool-cases (is_locked e.1 now)) [
    | inr l ↦
        rw (z, l)
          (record {
            unproven_in = f.unproven_in;
            unlocked_in = λ x p. one_of m c.unlocked e x f.unlocked_in h (inl p);
            locked_in = f.locked_in;
          })
    | inl l ↦
        rw (z, l)
          (record {
            unproven_in = f.unproven_in;
            unlocked_in = f.unlocked_in;
            locked_in = λ x p. one_of m c.locked_out e x f.locked_in h (inr p);
          })
  ]
]

consider-some :
    (now : ℕ) (c : Candidates) (e : ℕ × LoginAttempts) → some_candidate (consider now c e) ≡ true
unfolding consider quieter ends_sooner
consider-some now c e = ground arith

candidates-some :
    (now : ℕ) (c : Candidates) (m : Attempts)
    → some_candidate c ≡ true
    → some_candidate (candidates now c m) ≡ true
unfolding candidates
candidates-some now c [] h = h
candidates-some now c (e ∷ m) h = candidates-some now (consider now c e) m (consider-some now c e)

-- The entries of `m` stand in `whole`.
abbrev Within : Attempts → Attempts → Type 0
Within whole [] = Unit
Within whole (e ∷ m) = (has whole e.0 ≡ true) × Within whole m

candidates-FromTable :
    (whole : Attempts) (now : ℕ) (c : Candidates) (m : Attempts)
    → Within whole m
    → FromTable whole c
    → FromTable whole (candidates now c m)
unfolding candidates
candidates-FromTable whole now c [] w f = f
candidates-FromTable whole now c (e ∷ m) w f =
    candidates-FromTable whole now (consider now c e) m w.1 (consider-FromTable whole now c e w.0 f)

Within-cons : (e : ℕ × LoginAttempts) (whole m : Attempts) → Within whole m → Within (e ∷ whole) m
Within-cons e whole [] w = tt
Within-cons e whole (x ∷ m) w = (ground (arith, w.0), Within-cons e whole m w.1)

Within-refl : (m : Attempts) → Within m m
Within-refl [] = tt
Within-refl (e ∷ m) = (ground arith, Within-cons e m m (Within-refl m))

-- From a table that is not empty somebody is chosen, and stands in it.
choose-has :
    (m : Attempts) (c : Candidates)
    → FromTable m c
    → some_candidate c ≡ true
    → (addr : ℕ) × (choose c ≡ some addr) × (has m addr ≡ true)
unfolding choose
choose-has m c f h = elim (Option-cases c.unproven) [
  | inr (e, p) ↦ (e.0, ground arith, f.unproven_in e p)
  | inl n ↦ elim (Option-cases c.unlocked) [
    | inr (e, p) ↦ (e.0, ground arith, f.unlocked_in e p)
    | inl n' ↦ elim (Option-cases c.locked_out) [
      | inr (e, p) ↦ (e.0, ground arith, f.locked_in e p)
      | inl n'' ↦ cc (rw (n, n', n'') at h)
    ]
  ]
]

choose_entry :
    (m : Attempts) (now : ℕ)
    → 0 < length m
    → (addr : ℕ) × (choose (candidates now nobody m) ≡ some addr) × (has m addr ≡ true)
unfolding candidates
choose_entry [] now h = absurd (omega arith)
choose_entry (e ∷ m) now h =
    choose-has (e ∷ m) (candidates now nobody (e ∷ m))
      (candidates-FromTable (e ∷ m) now nobody (e ∷ m) (Within-refl (e ∷ m))
        (record { unproven_in = λ x p. cc; unlocked_in = λ x p. cc; locked_in = λ x p. cc }))
      (candidates-some now (consider now nobody e) m (consider-some now nobody e))

-- A proven failure is given a place in a table within its limit, and the table is then below it.
pub make_room-proven :
    (t : Throttle) (reason : FailureReason) (now : ℕ)
    → proves_address reason ≡ true
    → length t.attempts ≤ max_tracked_sources
    → ((make_room t reason now).1 ≡ true)
      × (length (make_room t reason now).0.attempts < max_tracked_sources)
unfolding make_room expire
make_room-proven t reason now proven size =
    let swept = expire_attempts t.attempts now in
    let le = length-expire_attempts t.attempts now in
    elim (Bool-cases (ltb (length swept) max_tracked_sources)) [
      | inl below ↦ rw (proven, below) (refl, ground arith)
      | inr full ↦
          let (addr, chosen, there) = choose_entry swept now (ground arith) in
          rw (proven, full, chosen, make_room)
            (refl, omega (arith, length-delete-has swept addr there, le))
    ]

pub make_room_unproven :
    (t : Throttle) (reason : FailureReason) (now : ℕ)
    → proves_address reason ≡ false
    → make_room t reason now ≡ (t, false)
unfolding make_room
make_room_unproven t reason now h = rw h refl
