-- ===== src/Peers/Master/Answers/Interval.antt =====
-- How soon a station that is not registered is answered again.
use qsp.Prelude.{
  ℕ, ◌-◌, ◌≤◌, ◌<◌, ◌≡◌, refl, sym, ap, ◌∙◌, true, false, some, List, [], ◌∷◌, arith, Bool-cases,
  inl, inr, ==_iff, ◌==◌, leb, length,
}
use qsp.Prelude.Map.{lookup, lookup-put}
use qsp.Peers.Subscribers.{id_eq}
use qsp.Peers.Master.{max_unregistered_tracked, unregistered_frame_interval}
use qsp.Peers.Master.Session.{is_suppressed, recent_answers, should_answer}
use qsp.Peers.Master.Answers.{Query, Answered, pruned}

-- The queries that follow, and the map they leave.
unfoldable pub after : Answered → List Query → Answered
after m [] = m
after m ((id, now) ∷ qs) = after (should_answer m id now).0 qs

-- None of the queries is later.
abbrev IsBy : ℕ → List Query → Type 0
IsBy u [] = Unit
IsBy u ((id, now) ∷ qs) = (now ≤ u) × IsBy u qs

false-ne-true : ¬ (false ≡ true)
false-ne-true h = cc

-- An answer is on record since the time given.
record IsOnRecord (t : ℕ) (id : ℕ) (m : Answered) : Type 0 where
  last : ℕ
  recorded : lookup id_eq m id ≡ some last
  since : t ≤ last

lookup-recent_answers_kept :
    (m : Answered) (now id last : ℕ)
    → lookup id_eq m id ≡ some last
    → now - last < unregistered_frame_interval
    → lookup id_eq (recent_answers m now) id ≡ some last
unfolding lookup recent_answers
lookup-recent_answers_kept [] now id last h k = cc
lookup-recent_answers_kept ((j, at) ∷ m) now id last h k =
    ground (arith, lookup-recent_answers_kept m now id last)

lookup-pruned :
    (m : Answered) (now id last : ℕ)
    → lookup id_eq m id ≡ some last
    → now - last < unregistered_frame_interval
    → lookup id_eq (pruned m now) id ≡ some last
lookup-pruned m now id last h k = elim (Bool-cases (leb max_unregistered_tracked (length m))) [
  | inl y ↦ rw y (lookup-recent_answers_kept m now id last h k)
  | inr n ↦ rw n h
]

IsOnRecord-suppresses :
    (m : Answered) (t id now : ℕ)
    → now - t < unregistered_frame_interval
    → IsOnRecord t id m
    → is_suppressed m id now ≡ true
unfolding is_suppressed
IsOnRecord-suppresses m t id now k r = rw (r.recorded, is_suppressed) (ground (arith, r.since))

should_answer-IsOnRecord :
    (m : Answered) (t id j now : ℕ)
    → now - t < unregistered_frame_interval
    → IsOnRecord t id m
    → IsOnRecord t id (should_answer m j now).0
unfolding should_answer
should_answer-IsOnRecord m t id j now k r = elim (Bool-cases (is_suppressed m j now)) [
  | inl y ↦ rw (y, should_answer) r
  | inr n ↦
      rw (n, should_answer)
        (record {
          last = r.last;
          recorded =
              let other : (j == id) ≡ false = elim (Bool-cases (j == id)) [
                | inl y ↦ cc (
                    sym n
                    ∙ ap (λ (x : ℕ). is_suppressed m x now) ((==_iff j id).0 y)
                    ∙ IsOnRecord-suppresses m t id now k r)
                | inr o ↦ o
              ] in
              lookup-put id_eq ==_iff (pruned m now) j id now
              ∙ rw other (lookup-pruned m now id r.last r.recorded (omega (arith, r.since)));
          since = r.since;
        })
]

after-IsOnRecord :
    (qs : List Query) (m : Answered) (t u id : ℕ)
    → u - t < unregistered_frame_interval
    → IsBy u qs
    → IsOnRecord t id m
    → IsOnRecord t id (after m qs)
unfolding after
after-IsOnRecord [] m t u id k b r = r
after-IsOnRecord ((j, now) ∷ qs) m t u id k b r =
    after-IsOnRecord qs (should_answer m j now).0 t u id k b.1
      (should_answer-IsOnRecord m t id j now (omega arith) r)

answered-IsOnRecord :
    (m : Answered) (id t : ℕ)
    → (should_answer m id t).1 ≡ true
    → IsOnRecord t id (should_answer m id t).0
unfolding should_answer
answered-IsOnRecord m id t h = elim (Bool-cases (is_suppressed m id t)) [
  | inl y ↦ absurd (false-ne-true (rw (y, should_answer) at h))
  | inr n ↦
      rw (n, should_answer)
        (record {
          last = t;
          recorded = lookup-put id_eq ==_iff (pruned m t) id id t ∙ rw ((==_iff id id).1 refl) refl;
          since = omega arith;
        })
]

-- After an answer to an ID, none is given to it until the interval has passed, whatever frames of
-- unregistered stations arrive in between.
pub answer-once :
    (m : Answered) (qs : List Query) (id t u : ℕ)
    → (should_answer m id t).1 ≡ true
    → IsBy u qs
    → u - t < unregistered_frame_interval
    → (should_answer (after (should_answer m id t).0 qs) id u).1 ≡ false
answer-once m qs id t u h b k =
    let later = after-IsOnRecord qs _ t u id k b (answered-IsOnRecord m id t h) in
    let held = IsOnRecord-suppresses (after (should_answer m id t).0 qs) t id u k later in
    unfold should_answer in rw held refl
