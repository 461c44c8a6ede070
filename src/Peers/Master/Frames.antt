-- ===== src/Peers/Master/Frames.antt =====
-- Which frames go on to routing.
use qsp.Prelude.{
  ℕ, ◌≡◌, refl, sym, ◌∙◌, some-injective, Bool, true, not, Option, none, some, List, [], ◌∷◌, arith,
  Bool-cases, Option-cases, inl, inr,
}
use mathlib.Core.Path.{subst}
use qsp.Prelude.Bytes.{Bytes}
use qsp.Access.{allows}
use qsp.Hbp.Control.{Key}
use qsp.Hbp.Data.{Data}
use qsp.Hbp.Parse
use qsp.Hbp.Parse.{Message, data_frame, key, login}
use qsp.Peers.Attempts.{locked}
use qsp.Peers.Peer.{AddrPort, OpenCall, Peer, addr_port_eq, can_pass_traffic}
use qsp.Peers.Continuation.{adopt, continue_on, continuing, find_call, relabel, still_open}
use qsp.Peers.Master.{Master, find}
use qsp.Peers.Master.Login.{
  answer, challenge, challenge_known, challenge_new, handle_key, handle_login,
}
use qsp.Peers.Master.Session.{
  accept_frame, handle_close, handle_config, handle_data, handle_ping, handle_talker_alias,
  is_linked, unregistered_frame,
}
use qsp.Peers.Master.Handle.{act}
use qsp.Peers.Master.Steps.{Input}

some-ne-none : {A : Type 0} {a : A} → ¬ (some a ≡ none)
some-ne-none h = cc

-- What a frame keeps when it is carried as part of another call.
pub record SameVoice (f g : Data) : Type 0 where
  pub same_payload : g.payload ≡ f.payload
  pub same_slot : g.timeslot ≡ f.timeslot
  pub same_sequence : g.sequence ≡ f.sequence
  pub same_type : g.frame_type ≡ f.frame_type
  pub same_data_type : g.data_type ≡ f.data_type

adopt-SameVoice :
    (calls : List OpenCall) (f : Data) (now : ℕ) (join : Bool)
    → SameVoice f (adopt calls f now join).frame
unfolding adopt relabel
adopt-SameVoice [] f now join = ground arith
adopt-SameVoice (c ∷ []) f now join = ground arith
adopt-SameVoice (c ∷ d ∷ cs) f now join = ground arith

continue_on-SameVoice :
    (calls : List OpenCall) (f : Data) (now : ℕ) (join : Bool)
    → SameVoice f (continue_on calls f now join).frame
unfolding continue_on relabel
continue_on-SameVoice calls f now join =
    elim (Option-cases (find_call (still_open calls now) f.stream_id)) [
      | inl e ↦ rw (e, continue_on) (adopt-SameVoice (still_open calls now) f now join)
      | inr (c, e) ↦ rw (e, continue_on) (ground arith)
    ]

continuing-SameVoice :
    (p : Peer) (f : Data) (now : ℕ) (join : Bool) → SameVoice f (continuing p f now join).1
unfolding continuing
continuing-SameVoice p f now join =
    ground (
      arith,
      continue_on-SameVoice p.calls_1 f now join,
      continue_on-SameVoice p.calls_2 f now join,
    )

module _ {F : Type 0} (sha256 : Bytes → Bytes) (m : Master F) where
  frame-handle_login :
      (id : ℕ) (from : AddrPort) (salt : Option Bytes) (now : ℕ)
      → (handle_login m id from salt now).1.frame ≡ none
  unfolding handle_login challenge challenge_known challenge_new
  frame-handle_login id from salt now = ground arith

  frame-answer :
      (p : Peer) (k : Key) (from : AddrPort) (now : ℕ)
      → (answer sha256 m p k from now).1.frame ≡ none
  unfolding answer
  frame-answer p k from now = ground arith

  frame-handle_key :
      (k : Key) (from : AddrPort) (now : ℕ) → (handle_key sha256 m k from now).1.frame ≡ none
  unfolding handle_key
  frame-handle_key k from now = elim (Bool-cases (locked m.logins from.ip now)) [
    | inl y ↦ rw (y, handle_key) refl
    | inr n ↦ elim (Option-cases (find m k.repeater_id)) [
      | inl e ↦ rw (n, e, handle_key) refl
      | inr (p, e) ↦ rw (n, e, handle_key) (frame-answer p k from now)
    ]
  ]

  -- What lets a frame through.
  pub record IsWelcome (f : Data) (from : AddrPort) : Type 0 where
    pub station : Peer
    pub registered : find m f.repeater_id ≡ some station
    pub ready : can_pass_traffic station.state ≡ true
    pub at_home : addr_port_eq station.addr from ≡ true
    pub permitted : allows m.cfg.subscriber f.source_id ≡ true

  -- A frame has been let through, as itself or as part of another call.
  pub record IsCarried (i : Input F) (g : Data) : Type 0 where
    pub arrived : Data
    pub sent : i.message ≡ data_frame arrived
    pub welcome : IsWelcome arrived i.from
    pub same : SameVoice arrived g

  accept_frame-frame :
      (p : Peer) (f : Data) (now : ℕ)
      → allows m.cfg.subscriber f.source_id ≡ true
      → (accept_frame m p f now).1.frame
        ≡ some (continuing (record p { last_heard = now }) f now (not (is_linked m p))).1
  unfolding accept_frame
  accept_frame-frame p f now ok' = rw (ok', accept_frame) refl

  accept_frame-allows :
      (p : Peer) (f g : Data) (now : ℕ)
      → (accept_frame m p f now).1.frame ≡ some g
      → allows m.cfg.subscriber f.source_id ≡ true
  unfolding accept_frame
  accept_frame-allows p f g now h = elim (Bool-cases (allows m.cfg.subscriber f.source_id)) [
    | inl y ↦ y
    | inr n ↦ cc (rw (n, accept_frame) at h)
  ]

  frame-unregistered :
      (f : Data) (from : AddrPort) (now : ℕ) → (unregistered_frame m f from now).1.frame ≡ none
  unfolding unregistered_frame
  frame-unregistered f from now = ground arith

  handle_data-IsCarried :
      (i : Input F) (f g : Data)
      → i.message ≡ data_frame f
      → (handle_data m f i.from i.now).1.frame ≡ some g
      → IsCarried i g
  unfolding handle_data
  handle_data-IsCarried i f g sent h = elim (Option-cases (find m f.repeater_id)) [
    | inl e ↦ cc (rw (e, handle_data) at h, frame-unregistered f i.from i.now)
    | inr (p, e) ↦ elim (Bool-cases (can_pass_traffic p.state)) [
      | inr n ↦ cc (rw (e, n, handle_data) at h)
      | inl y ↦ elim (Bool-cases (addr_port_eq p.addr i.from)) [
        | inr n ↦ cc (rw (e, y, n, handle_data) at h)
        | inl z ↦
            let taken = rw (e, y, z, handle_data) at h in
            let may = accept_frame-allows p f g i.now taken in
            let carried = some-injective (sym taken ∙ accept_frame-frame p f i.now may) in
            record {
              arrived = f;
              sent = sent;
              welcome = record {
                station = p;
                registered = e;
                ready = y;
                at_home = z;
                permitted = may;
              };
              same = rw carried (
                  continuing-SameVoice (record p { last_heard = i.now }) f i.now
                    (not (is_linked m p)));
            }
      ]
    ]
  ]

  handle_data-welcome :
      (f : Data) (from : AddrPort) (now : ℕ)
      → IsWelcome f from
      → (g : Data) × ((handle_data m f from now).1.frame ≡ some g) × SameVoice f g
  unfolding handle_data
  handle_data-welcome f from now w = (
    (continuing (record w.station { last_heard = now }) f now (not (is_linked m w.station))).1,
    rw (w.registered, w.ready, w.at_home, handle_data)
        (accept_frame-frame w.station f now w.permitted),
    continuing-SameVoice (record w.station { last_heard = now }) f now
        (not (is_linked m w.station)),
  )

  act-IsCarried :
      (i : Input F) (message : Message F) (g : Data)
      → i.message ≡ message
      → (act sha256 m message i.from i.salt i.now).1.frame ≡ some g
      → IsCarried i g
  unfolding act handle_config handle_ping handle_close handle_talker_alias
  act-IsCarried i (data_frame f) g sent h = handle_data-IsCarried i f g sent h
  act-IsCarried i (login id) g sent h =
      absurd (some-ne-none (sym h ∙ frame-handle_login id i.from i.salt i.now))
  act-IsCarried i (key k) g sent h = absurd (some-ne-none (sym h ∙ frame-handle_key k i.from i.now))
  act-IsCarried i (Parse.config c) g sent h = absurd (ground arith)
  act-IsCarried i (Parse.ping id) g sent h = absurd (ground arith)
  act-IsCarried i (Parse.repeater_close id) g sent h = absurd (ground arith)
  act-IsCarried i (Parse.talker_alias a) g sent h = absurd (ground arith)
  act-IsCarried i _ g sent h = absurd (some-ne-none (sym h))

  -- A message gives a frame for routing only if it is a frame of a registered and configured
  -- station, from the station's address, of a subscriber that may transmit; the frame given has its
  -- audio, timeslot, sequence number and types.
  pub act-frame :
      (i : Input F) (g : Data)
      → (act sha256 m i.message i.from i.salt i.now).1.frame ≡ some g
      → IsCarried i g
  act-frame i g h = act-IsCarried i i.message g refl h

  -- Each frame of a registered and configured station that comes from its address, of a subscriber
  -- that may transmit, is given for routing, with its audio, timeslot, sequence number and types.
  pub act-welcome :
      (i : Input F) (f : Data)
      → i.message ≡ data_frame f
      → IsWelcome f i.from
      → (g : Data) × ((act sha256 m i.message i.from i.salt i.now).1.frame ≡ some g) × SameVoice f g
  unfolding act
  act-welcome i f sent w =
      subst
        (λ (message : Message F).
          (g : Data) × ((act sha256 m message i.from i.salt i.now).1.frame ≡ some g)
          × SameVoice f g)
        (sym sent) (handle_data-welcome f i.from i.now w)
