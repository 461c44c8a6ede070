-- ===== src/Peers/Continuation/Calls.antt =====
-- On calls that restart under a new stream, and on how many calls are kept of a timeslot.
use qsp.Prelude.{
  ◌⊎◌, ℕ, ◌≤◌, ◌≡◌, refl, Bool, true, false, List, [], ◌∷◌, arith, Option-cases, inl, inr,
  if◌then◌else◌, length, length-append, ◌==◌,
}
use qsp.Hbp.Data.{Data, is_user_data}
use qsp.Peers.Peer.{OpenCall, Peer}
use qsp.Peers.Continuation.{
  adopt, continue_on, find_call, max_open_calls, new_call, start_call, still_open, touch,
  touch_call,
}

length-still_open : (cs : List OpenCall) (now : ℕ) → length (still_open cs now) ≤ length cs
unfolding still_open
length-still_open [] now = omega arith
length-still_open (c ∷ cs) now = ground (arith, length-still_open cs now)

length-touch :
    (cs : List OpenCall) (stream : ℕ) (f : Data) (now : ℕ)
    → length (touch cs stream f now) ≡ length cs
unfolding touch
length-touch [] stream f now = refl
length-touch (c ∷ cs) stream f now = ground (arith, length-touch cs stream f now)

length-start_call :
    (cs : List OpenCall) (f : Data) (now : ℕ)
    → length cs ≤ max_open_calls
    → length (start_call cs f now).calls ≤ max_open_calls
unfolding start_call
length-start_call cs f now h =
    ground (arith, length-append cs (touch_call f now (new_call f now) ∷ []))

length-adopt :
    (cs : List OpenCall) (f : Data) (now : ℕ) (join : Bool)
    → length cs ≤ max_open_calls
    → length (adopt cs f now join).calls ≤ max_open_calls
unfolding adopt
length-adopt [] f now join h = length-start_call [] f now h
length-adopt (c ∷ []) f now join h = ground (arith, length-start_call (c ∷ []) f now)
length-adopt (c ∷ d ∷ cs) f now join h = length-start_call (c ∷ d ∷ cs) f now h

-- However many streams a peer begins, no more calls are kept for a timeslot than the limit.
length-continue_on :
    (cs : List OpenCall) (f : Data) (now : ℕ) (join : Bool)
    → length cs ≤ max_open_calls
    → length (continue_on cs f now join).calls ≤ max_open_calls
unfolding continue_on
length-continue_on cs f now join h =
    let going = still_open cs now in
    let fewer : length going ≤ max_open_calls = omega (arith, length-still_open cs now) in
    elim (Option-cases (find_call going f.stream_id)) [
      | inl e ↦ rw (e, continue_on) (length-adopt going f now join fewer)
      | inr (c, e) ↦ rw (e, continue_on) (omega (arith, length-touch going f.stream_id f now))
    ]

module _ (c : OpenCall) (f : Data) (t : ℕ) where
  -- The call as it is once it has adopted the frame's stream.
  abbrev adopter : OpenCall
  adopter = touch_call f t (record c { adopted = f.stream_id; adopting = true })

-- The calls of the timeslot that a frame is on.
abbrev calls_of : Peer → Data → List OpenCall
calls_of p f = if f.timeslot == 1 then p.calls_1 else p.calls_2

-- The frame is voice or signalling of a call, on one of the two timeslots.
pub record IsOfCall (f : Data) : Type 0 where
  pub no_data : is_user_data f ≡ false
  pub on_slot : (f.timeslot ≡ 1) ⊎ (f.timeslot ≡ 2)
