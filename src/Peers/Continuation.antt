-- ===== src/Peers/Continuation.antt =====
-- internal/peers/continuation.go: a transmission that a hotspot restarts without a header is carried
-- as the call that it belongs to.
pub mod Calls
use qsp.Prelude.{
  ℕ, ◌-◌, Bool, true, false, not, ◌&&◌, ◌||◌, Option, none, some, List, [], ◌∷◌, leb, ◌==◌,
  if◌then◌else◌, length, concat,
}
use qsp.Hbp.Data.{Data, is_user_data, is_terminator, frame_type_sync, data_type_voice_lc_header}
use qsp.Routing.Core.{stream_timeout}
use qsp.Peers.Peer.{OpenCall, Peer}

abbrev pub max_open_calls : ℕ
max_open_calls = 16

-- The method relabel.
unfoldable pub relabel : OpenCall → Data → Data
relabel c f = record f {
  stream_id = c.stream;
  source_id = c.source;
  target_id = c.target;
  call_type = c.call_type;
}

-- The calls that have neither ended nor gone quiet.
unfoldable pub still_open : List OpenCall → ℕ → List OpenCall
still_open [] now = []
still_open (c ∷ cs) now =
    let rest = still_open cs now in
    if c.is_open && leb (now - c.last_seen) stream_timeout then c ∷ rest else rest

-- Whether a stream is this call's own or the one that it adopted.
unfoldable pub carries : OpenCall → ℕ → Bool
carries c stream = c.stream == stream || (c.adopting && c.adopted == stream)

unfoldable pub find_call : List OpenCall → ℕ → Option OpenCall
find_call [] stream = none
find_call (c ∷ cs) stream =
    let rest = find_call cs stream in if carries c stream then some c else rest

-- `c.lastSeen = now`, and the end of the call where the frame is a terminator.
unfoldable pub touch_call : Data → ℕ → OpenCall → OpenCall
touch_call f now c = record c {
  last_seen = now;
  is_open = if is_terminator f then false else c.is_open;
}

-- The same at the first call that carries the stream.
unfoldable pub touch : List OpenCall → ℕ → Data → ℕ → List OpenCall
unfolding touch_call
touch [] stream f now = []
touch (c ∷ cs) stream f now =
    let rest = touch cs stream f now in
    if carries c stream then touch_call f now c ∷ cs else c ∷ rest

unfoldable pub is_header : Data → Bool
is_header f = f.frame_type == frame_type_sync && f.data_type == data_type_voice_lc_header

abbrev pub new_call : Data → ℕ → OpenCall
new_call f now = record {
  stream = f.stream_id;
  source = f.source_id;
  target = f.target_id;
  call_type = f.call_type;
  last_seen = now;
  is_open = true;
  adopted = 0;
  adopting = false;
}

pub record Continued : Type 0 where
  pub calls : List OpenCall
  pub frame : Data
  pub began : Bool

-- The default of the switch: one more call, up to the bound.
unfoldable pub start_call : List OpenCall → Data → ℕ → Continued
start_call calls f now =
    if leb max_open_calls (length calls)
    then record { calls = calls; frame = f; began = false }
    else record {
      calls = concat calls (touch_call f now (new_call f now));
      frame = f;
      began = false;
    }

-- The newcomer's case: adopted by the one call that is open, or a call of its own.
unfoldable pub adopt : List OpenCall → Data → ℕ → Bool → Continued
unfolding start_call
adopt (c ∷ []) f now join =
    if join && not (is_header f)
    then record {
      calls = touch_call f now (record c { adopted = f.stream_id; adopting = true }) ∷ [];
      frame = relabel c f;
      began = true;
    }
    else start_call (c ∷ []) f now
adopt calls f now join = start_call calls f now

-- The part of `continuing` on the calls of one timeslot.
unfoldable pub continue_on : List OpenCall → Data → ℕ → Bool → Continued
unfolding still_open find_call touch adopt
continue_on calls f now join =
    let going = still_open calls now in
    elim (find_call going f.stream_id) [
      | some c ↦ record {
        calls = touch going f.stream_id f now;
        frame = if c.stream == f.stream_id then f else relabel c f;
        began = false;
      }
      | none ↦ adopt going f now join
    ]

-- The method continuing: the peer, the frame, and whether it was put back into a call.
unfoldable pub continuing : Peer → Data → ℕ → Bool → Peer × Data × Bool
continuing p f now join =
    let on_1 = continue_on p.calls_1 f now join in
    let on_2 = continue_on p.calls_2 f now join in
    if is_user_data f
    then (p, f, false)
    else if f.timeslot == 1
    then (record p { calls_1 = on_1.calls }, on_1.frame, on_1.began)
    else if f.timeslot == 2
    then (record p { calls_2 = on_2.calls }, on_2.frame, on_2.began)
    else (p, f, false)
