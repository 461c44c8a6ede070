-- ===== src/Peers/Master/Answers.antt =====
-- The answers to frames of stations that are not registered, and what is remembered of them.
pub mod Interval
use qsp.Prelude.{
  ℕ, ◌+◌, ◌-◌, ◌≤◌, ◌<◌, ◌≡◌, refl, sym, ap, ◌∙◌, Bool, true, false, Option, none, some, List, [],
  ◌∷◌, arith, Bool-cases, Option-cases, inl, inr, if◌then◌else◌, ==_iff, ◌==◌, leb, ltb, length,
}
use mathlib.Core.Path.{ap₂}
use qsp.Prelude.Map.{lookup, put, lookup-put}
use qsp.Prelude.Map.Keys.{IsKeyed, put-IsKeyed}
use qsp.Peers.Subscribers.{id_eq}
use qsp.Peers.Master.{max_unregistered_tracked, unregistered_frame_interval}
use qsp.Peers.Master.Session.{is_suppressed, recent_answers, should_answer}

-- A frame of an ID that is not registered, with the time.
abbrev pub Query : Type 0
Query = ℕ × ℕ

abbrev pub Answered : Type 0
Answered = List (ℕ × ℕ)

-- The same without a bound on the map: nothing is ever forgotten.
unfoldable pub should_answer_unbounded : Answered → ℕ → ℕ → Answered × Bool
should_answer_unbounded m id now =
    if is_suppressed m id now then (m, false) else (put id_eq m id now, true)

unfoldable pub answers : (Answered → ℕ → ℕ → Answered × Bool) → Answered → List Query → List Bool
answers f m [] = []
answers f m ((id, now) ∷ qs) = let (m', answer) = f m id now in answer ∷ answers f m' qs

-- Time does not run backwards.
abbrev IsRising : ℕ → List Query → Type 0
IsRising t [] = Unit
IsRising t ((id, now) ∷ qs) = (t ≤ now) × IsRising now qs

lookup-recent_answers :
    (m : Answered) (now id : ℕ)
    → lookup id_eq m id ≡ none
    → lookup id_eq (recent_answers m now) id ≡ none
unfolding lookup recent_answers
lookup-recent_answers [] now id h = refl
lookup-recent_answers ((j, at) ∷ m) now id h = ground (arith, lookup-recent_answers m now id)

recent_answers-IsKeyed :
    (m : Answered) (now : ℕ) → IsKeyed id_eq m → IsKeyed id_eq (recent_answers m now)
unfolding recent_answers
recent_answers-IsKeyed [] now h = tt
recent_answers-IsKeyed ((j, at) ∷ m) now h =
    elim (Bool-cases (leb unregistered_frame_interval (now - at))) [
      | inl y ↦ rw (y, recent_answers) (recent_answers-IsKeyed m now h.1)
      | inr n ↦
          rw (n, recent_answers)
            (lookup-recent_answers m now j h.0, recent_answers-IsKeyed m now h.1)
    ]

-- What is forgotten suppresses nothing any more.
recent_answers-suppresses :
    (m : Answered) (now id n : ℕ)
    → IsKeyed id_eq m
    → now ≤ n
    → is_suppressed (recent_answers m now) id n ≡ is_suppressed m id n
unfolding is_suppressed recent_answers lookup
recent_answers-suppresses [] now id n h le = refl
recent_answers-suppresses ((j, at) ∷ m) now id n h le =
    ground
      (arith, recent_answers-suppresses m now id n h.1 le, lookup-recent_answers m now j h.0, h.0)

-- Two maps that suppress the same answers from a time on.
Agree : ℕ → Answered → Answered → Type 0
Agree t a b = (id n : ℕ) → t ≤ n → is_suppressed a id n ≡ is_suppressed b id n

is_suppressed-put :
    (m : Answered) (id j t n : ℕ)
    → is_suppressed (put id_eq m id t) j n
      ≡ (if id == j then ltb (n - t) unregistered_frame_interval else is_suppressed m j n)
unfolding is_suppressed
is_suppressed-put m id j t n = ground (arith, lookup-put id_eq ==_iff m id j t)

abbrev pub pruned : Answered → ℕ → Answered
pruned m now = if leb max_unregistered_tracked (length m) then recent_answers m now else m

pruned-IsKeyed : (m : Answered) (now : ℕ) → IsKeyed id_eq m → IsKeyed id_eq (pruned m now)
pruned-IsKeyed m now h = elim (Bool-cases (leb max_unregistered_tracked (length m))) [
  | inl y ↦ rw y (recent_answers-IsKeyed m now h)
  | inr n ↦ rw n h
]

pruned-suppresses :
    (m : Answered) (now id n : ℕ)
    → IsKeyed id_eq m
    → now ≤ n
    → is_suppressed (pruned m now) id n ≡ is_suppressed m id n
pruned-suppresses m now id n h le = elim (Bool-cases (leb max_unregistered_tracked (length m))) [
  | inl y ↦ rw y (recent_answers-suppresses m now id n h le)
  | inr k ↦ rw k refl
]

record StaysEqual (t : ℕ) (r s : Answered × Bool) : Type 0 where
  keyed : IsKeyed id_eq r.0
  agrees : Agree t r.0 s.0
  same_answer : r.1 ≡ s.1

should_answer-StaysEqual :
    (a b : Answered) (id now : ℕ)
    → IsKeyed id_eq a
    → Agree now a b
    → StaysEqual now (should_answer a id now) (should_answer_unbounded b id now)
unfolding should_answer should_answer_unbounded Agree
should_answer-StaysEqual a b id now k e = elim (Bool-cases (is_suppressed a id now)) [
  | inl y ↦
      rw (y, sym (e id now (omega arith)) ∙ y, should_answer, should_answer_unbounded)
        (record { keyed = k; agrees = e; same_answer = refl })
  | inr n ↦
      rw (n, sym (e id now (omega arith)) ∙ n, should_answer, should_answer_unbounded)
        (record {
          keyed = put-IsKeyed id_eq ==_iff (pruned a now) id now (pruned-IsKeyed a now k);
          agrees = λ j t le. ground (
            arith,
            is_suppressed-put (pruned a now) id j now t,
            is_suppressed-put b id j now t,
            pruned-suppresses a now j t k le,
            e j t le,
          );
          same_answer = refl;
        })
]

same_answers_given :
    (qs : List Query) (a b : Answered) (t : ℕ)
    → IsKeyed id_eq a
    → Agree t a b
    → IsRising t qs
    → answers should_answer a qs ≡ answers should_answer_unbounded b qs
unfolding answers Agree
same_answers_given [] a b t k e r = refl
same_answers_given ((id, now) ∷ qs) a b t k e r =
    let s = should_answer-StaysEqual a b id now k (unfold Agree in λ j n le. e j n (omega arith)) in
    ap₂ ◌∷◌ s.same_answer (same_answers_given qs _ _ now s.keyed s.agrees r.1)

-- While time does not run backwards, the frames of unregistered stations are answered exactly as they
-- would be if the master remembered every answer that it ever gave.
pub answers-unbounded :
    (qs : List Query) (t : ℕ)
    → IsRising t qs
    → answers should_answer [] qs ≡ answers should_answer_unbounded [] qs
answers-unbounded qs t r = same_answers_given qs [] [] t tt (unfold Agree in λ id n le. refl) r
