-- ===== src/Peers/Master/Refines.antt =====
-- What the handlers of the master do, as steps of the login protocol of Steps: the answers to a
-- challenge, and all messages.
pub mod Logins
pub mod Changes
pub mod Sessions
use qsp.Prelude.{
  ℕ, ◌+◌, ◌-◌, ◌≤◌, ◌<◌, ◌≡◌, ◌⊎◌, refl, sym, ap, ◌∙◌, Bool, true, false, not, ◌&&◌, ◌||◌, Option,
  none, some, List, [], ◌∷◌, arith, leb, if◌then◌else◌, length, ==_iff, inl, inr, Option-cases,
  Bool-cases, some-injective, ◌==◌, ltb,
}
use mathlib.Core.Path.{subst}
use qsp.Prelude.Bytes.{Bytes}
use qsp.Access.{allows}
use qsp.Prelude.Map.{lookup, put, delete, lookup-delete}
use qsp.Routing.Endpoint.{server_origin}
use qsp.Peers.Attempts.{locked}
use qsp.Hbp.Parse
use qsp.Hbp.Parse.{Message, key, login, repeater_close}
use qsp.Hbp.Control.{Key, TalkerAlias, verify_digest}
use qsp.Hbp.Config.{Config}
use qsp.Hbp.Data.{Data}
use qsp.Peers.Peer.{
  AddrPort, Peer, State, Relogin, addr_port_eq, challenged, authenticated, configured, find_relogin,
  has_relogin, is_challenged, offer_relogin, take_relogin, without_relogin, can_pass_traffic,
}
use qsp.Peers.Peer.Relogins.{take_relogin_absent, take_relogin_found}
use qsp.Peers.Continuation.{continuing}
use qsp.Peers.Subscribers.{id_eq}
use qsp.Peers.Master.{
  Master, MasterConfig, Outcome, Registry, HalfOpenLogin, abandon, evict_from, evict_half_open,
  find, forget, note_failure, max_half_open, still_waiting, stations, store, tidy_half_open,
}
use qsp.Peers.Master.Login.{
  accept_relogin, answer, challenge, challenge_known, challenge_new, check_key, check_relogin,
  enter, handle_key, handle_login, handle_relogin_key, with_challenge, make_place, new_peer, proven,
}
use qsp.Peers.Master.Session.{
  accept_frame, is_linked, handle_close, handle_config, handle_data, handle_ping,
  handle_talker_alias, refuse_subscriber, register, take_frame, unregistered_frame,
}
use qsp.Peers.Master.Handle.{act}
use qsp.Peers.Master.Steps.{
  Input, Leaves, IsChallenge, IsProof, SameLogin, Step, Steps, authenticates, done, entered,
  forgotten, moved, next, offered, promoted, rechallenged, taken, touched,
}
use qsp.Peers.Master.Refines.Changes.{
  Moves, stays, keeps, if-Moves, option-Moves, one, forget-Steps, touch-Moves, heard-Moves,
}
use qsp.Peers.Master.Refines.Logins.{handle_login-Moves}
use qsp.Peers.Master.Refines.Sessions.{
  handle_ping-Moves, handle_talker_alias-Moves, handle_config-Moves, handle_close-Moves,
  handle_data-Moves,
}

List-cases : {A : Type 0} (xs : List A) → (xs ≡ []) ⊎ ((x : A) × (rest : List A) × (xs ≡ x ∷ rest))
List-cases [] = inl refl
List-cases (x ∷ xs) = inr (x, xs, refl)

module _ {F : Type 0} (sha256 : Bytes → Bytes) (cfg : MasterConfig F) (i : Input F) where
  abandon-Steps :
      (m : Master F) (id : ℕ) (p : Peer)
      → find m id ≡ some p
      → is_challenged p.state ≡ true
      → Steps sha256 cfg i m.peers m.waiting (abandon m id p).peers (abandon m id p).waiting
  unfolding abandon
  abandon-Steps m id p e waits = elim (List-cases p.relogins) [
    | inl none' ↦
        rw (none', abandon) (forget-Steps m id (λ q f. inl (rw (some-injective (sym f ∙ e)) waits)))
    | inr (r, rest, some') ↦
        rw (some', abandon) (next done (promoted id p r rest e waits some' refl refl))
  ]

  check_key-Moves :
      (m : Master F) (p : Peer) (k : Key)
      → i.message ≡ key k
      → m.cfg ≡ cfg
      → find m k.repeater_id ≡ some p
      → is_challenged p.state ≡ true
      → addr_port_eq p.addr i.from ≡ true
      → Moves sha256 cfg i m.peers m.waiting (check_key sha256 m p k i.from i.now)
  unfolding check_key note_failure is_challenged
  check_key-Moves m p k sent same e waits here =
      let gone = abandon-Steps m k.repeater_id p e waits in
      option-Moves _ _ (m.cfg.password k.repeater_id) (λ n. record { steps = gone })
        (λ secret known.
          if-Moves _ _ (not (verify_digest sha256 p.salt secret k.digest))
            (λ h. record { steps = gone })
            (λ right.
              if-Moves _ _ (leb m.cfg.max_peers (stations m)) (λ h. record { steps = gone })
                (λ room. one _ _ _ _ (
                  authenticates k.repeater_id p _ e waits here
                    (record {
                      answer = k;
                      secret = secret;
                      sent = sent;
                      of_id = refl;
                      known = rw (← same) known;
                      verified = ground arith;
                    })
                    refl refl refl (rw (← same) (ground arith)) refl refl))))

  accept_relogin-Moves :
      (m : Master F) (id : ℕ) (p : Peer) (c : Relogin)
      → m.cfg ≡ cfg
      → find m id ≡ some p
      → find_relogin p.relogins i.from ≡ some c
      → IsProof sha256 cfg i id c.salt
      → Moves sha256 cfg i m.peers m.waiting (
          accept_relogin m id
            (record p { relogins = without_relogin p.relogins i.from })
            i.from
            i.now)
  unfolding accept_relogin is_challenged
  accept_relogin-Moves m id p c same e found proof =
      if-Moves _ _ (not (is_challenged p.state))
        (λ in'.
          one _ _ _ _
            (moved id p _ c e found proof refl refl refl (ground arith) refl (ground arith)))
        (λ waits.
          if-Moves _ _ (leb m.cfg.max_peers (stations m))
            (λ full. one _ _ _ _ (taken id p e refl refl))
            (λ room. one _ _ _ _ (
              moved id p _ c e found proof refl refl refl (λ w. rw (← same) (ground arith)) refl
                (ground arith))))

  check_relogin-Moves :
      (m : Master F) (p : Peer) (k : Key) (c : Relogin)
      → m.cfg ≡ cfg
      → i.message ≡ key k
      → find m k.repeater_id ≡ some p
      → find_relogin p.relogins i.from ≡ some c
      → Moves sha256 cfg i m.peers m.waiting (
          check_relogin sha256 m k
            (record p { relogins = without_relogin p.relogins i.from })
            c
            i.from
            i.now)
  unfolding check_relogin note_failure
  check_relogin-Moves m p k c same sent e found =
      let used = taken k.repeater_id p e refl refl in
      option-Moves _ _ (m.cfg.password k.repeater_id) (λ n. one _ _ _ _ used)
        (λ secret known.
          if-Moves _ _ (not (verify_digest sha256 c.salt secret k.digest)) (λ h. one _ _ _ _ used)
            (λ right. accept_relogin-Moves m k.repeater_id p c same e found (record {
              answer = k;
              secret = secret;
              sent = sent;
              of_id = refl;
              known = rw (← same) known;
              verified = ground arith;
            })))

  handle_relogin_key-Moves :
      (m : Master F) (p : Peer) (k : Key)
      → m.cfg ≡ cfg
      → i.message ≡ key k
      → find m k.repeater_id ≡ some p
      → Moves sha256 cfg i m.peers m.waiting (handle_relogin_key sha256 m p k i.from i.now)
  unfolding handle_relogin_key
  handle_relogin_key-Moves m p k same sent e =
      let Goal = λ (t : Peer × Option Relogin).
        Moves sha256 cfg i m.peers m.waiting (with_challenge sha256 m k i.from i.now t) in
      elim (Option-cases (find_relogin p.relogins i.from)) [
        | inl n ↦
            subst Goal (sym (take_relogin_absent p i.from i.now m.cfg.login_timeout n))
              (touch-Moves m _ _ k.repeater_id p p e (ground arith) refl refl)
        | inr (c, found) ↦
            subst Goal (sym (take_relogin_found p i.from i.now m.cfg.login_timeout c found))
              (elim (Bool-cases (leb (i.now - c.at) m.cfg.login_timeout)) [
                | inl current ↦ rw current (check_relogin-Moves m p k c same sent e found)
                | inr late ↦ rw late (one _ _ _ _ (taken k.repeater_id p e refl refl))
              ])
      ]

  answer-Moves :
      (m : Master F) (p : Peer) (k : Key)
      → m.cfg ≡ cfg
      → i.message ≡ key k
      → find m k.repeater_id ≡ some p
      → Moves sha256 cfg i m.peers m.waiting (answer sha256 m p k i.from i.now)
  unfolding answer note_failure
  answer-Moves m p k same sent e =
      if-Moves _ _ (not (is_challenged p.state)) (λ h. handle_relogin_key-Moves m p k same sent e)
        (λ waits.
          if-Moves _ _ (addr_port_eq p.addr i.from)
            (λ here. check_key-Moves m p k sent same e (ground arith) here)
            (λ away.
              if-Moves _ _ (has_relogin p i.from) (λ h. handle_relogin_key-Moves m p k same sent e)
                (λ h. keeps m _ _ refl refl)))

  handle_key-Moves :
      (m : Master F) (k : Key)
      → m.cfg ≡ cfg
      → i.message ≡ key k
      → Moves sha256 cfg i m.peers m.waiting (handle_key sha256 m k i.from i.now)
  unfolding handle_key note_failure
  handle_key-Moves m k same sent =
      if-Moves _ _ (locked m.logins i.from.ip i.now) (λ h. stays m _)
        (λ h.
          option-Moves _ _ (find m k.repeater_id) (λ n. keeps m _ _ refl refl)
            (λ p e. answer-Moves m p k same sent e))

  act-Moves :
      (m : Master F) (message : Message F)
      → m.cfg ≡ cfg
      → i.message ≡ message
      → Moves sha256 cfg i m.peers m.waiting (act sha256 m message i.from i.salt i.now)
  unfolding act
  act-Moves m (login id) same sent = handle_login-Moves sha256 cfg i m id sent same
  act-Moves m (key k) same sent = handle_key-Moves m k same sent
  act-Moves m (Parse.config c) same sent = handle_config-Moves sha256 cfg i m c i.from i.now
  act-Moves m (Parse.ping id) same sent = handle_ping-Moves sha256 cfg i m id i.from i.now
  act-Moves m (Parse.data_frame f) same sent = handle_data-Moves sha256 cfg i m f i.from i.now
  act-Moves m (Parse.repeater_close id) same sent = handle_close-Moves sha256 cfg i m id sent
  act-Moves m (Parse.talker_alias a) same sent =
      handle_talker_alias-Moves sha256 cfg i m a i.from i.now
  act-Moves m _ same sent = stays m _

-- Whatever message the master handles, it takes its registry and its count of waiting logins through
-- steps of the login protocol, with the settings that it has.
pub act-Steps :
    {F : Type 0} (sha256 : Bytes → Bytes) (m : Master F) (i : Input F)
    → let m' = (act sha256 m i.message i.from i.salt i.now).0 in
      Steps sha256 m.cfg i m.peers m.waiting m'.peers m'.waiting
act-Steps sha256 m i = (act-Moves sha256 m.cfg i m i.message refl refl).steps
