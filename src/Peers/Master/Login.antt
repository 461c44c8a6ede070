-- ===== src/Peers/Master/Login.antt =====
-- internal/peers/master.go: a login request, and the answers to its challenge.
use qsp.Prelude.{
  ℕ, ◌+◌, ◌-◌, ◌*◌, not, ◌||◌, Option, none, some, [], ◌∷◌, ltb, leb, ◌==◌, if◌then◌else◌, length,
  concat,
}
use qsp.Prelude.Bytes.{Bytes, put_u32}
use qsp.Access.{allows}
use qsp.Hbp.Control.{Key, verify_digest}
use qsp.Hbp.Parse.{Message, ack}
use qsp.Routing.Endpoint.{server_origin}
use qsp.Peers.Attempts.{locked, unknown_id, unsolicited, wrong_address, wrong_password}
use qsp.Peers.Peer.{
  AddrPort, Peer, Relogin, challenged, authenticated, addr_port_eq, is_challenged, no_refused,
  offer_relogin, take_relogin, has_relogin,
}
use qsp.Peers.Master.{
  Master, Outcome, abandon, bad_password, dropped, evict_half_open, find, id_reserved, id_zero,
  max_half_open, no_challenge, no_login_here, no_password, not_logged_in, not_registrable,
  note_failure, peer_limit, reject, respond, stations, store, tidy_half_open, too_many_failures,
  wrong_source,
}

-- The entry of a login that has just been challenged.
abbrev pub new_peer : ℕ → AddrPort → Bytes → ℕ → Peer
new_peer id from salt now = record {
  id = id;
  addr = from;
  state = challenged;
  config = none;
  salt = salt;
  first_seen = now;
  last_heard = now;
  configured_at = none;
  calls_1 = [];
  calls_2 = [];
  relogins = [];
  received = 0;
  sent = 0;
  refused_count = 0;
  last_traffic = none;
  refused = no_refused;
}

-- `hbp.Ack` with the repeater ID.
abbrev pub id_ack : {F : Type 0} → ℕ → Message F
id_ack id = ack (put_u32 id [])

-- The registration of a peer whose digest was right, at the address that sent it.
abbrev pub proven : Peer → AddrPort → ℕ → Peer
proven p from now = record p {
  addr = from;
  state = authenticated;
  last_heard = now;
  salt = 0 ∷ 0 ∷ 0 ∷ 0 ∷ [];
  relogins = [];
}

module _ {F : Type 0} where
  -- The two limits on a login of an ID that is not registered: `none` where the server is full.
  unfoldable pub make_place : Master F → Option (Master F)
  unfolding evict_half_open
  make_place m =
      if leb m.cfg.max_peers (stations m)
      then none
      else if leb max_half_open m.waiting
      then some (evict_half_open m).0
      else some m

  -- The new entry of an ID that was not registered.
  unfoldable pub enter : Master F → ℕ → AddrPort → Bytes → ℕ → Master F
  enter m id from salt now =
      let listed = record m {
        waiting = m.waiting + 1;
        half_open = concat m.half_open (record { id = id; began = now });
      } in
      let tidy =
        if ltb (4 * max_half_open) (length listed.half_open)
        then tidy_half_open listed
        else listed in
      store tidy id (new_peer id from salt now)

  -- The challenge, once a salt was generated.
  unfoldable pub challenge_known : Master F → ℕ → Peer → AddrPort → Bytes → ℕ → Master F × Outcome F
  challenge_known m id old from salt now =
      if not (is_challenged old.state) || not (addr_port_eq old.addr from)
      then (
        store m id (offer_relogin old from salt now m.cfg.login_timeout),
        respond from (ack salt),
      )
      else (
        store m id (record (new_peer id from salt now) {
          first_seen = old.first_seen;
          config = old.config;
          configured_at = old.configured_at;
          relogins = old.relogins;
        }),
        respond from (ack salt),
      )

  unfoldable pub challenge_new : Master F → ℕ → AddrPort → Option Bytes → ℕ → Master F × Outcome F
  unfolding make_place enter
  challenge_new m id from salt now = elim (make_place m) [
    | none ↦ (m, reject id from peer_limit)
    | some m' ↦ elim salt [
      | none ↦ (m', dropped no_challenge)
      | some s ↦ (enter m' id from s now, respond from (ack s))
    ]
  ]

  unfoldable pub challenge : Master F → ℕ → AddrPort → Option Bytes → ℕ → Master F × Outcome F
  unfolding challenge_known challenge_new
  challenge m id from salt now = elim (find m id) [
    | none ↦ challenge_new m id from salt now
    | some old ↦ elim salt [
      | none ↦ (m, dropped no_challenge)
      | some s ↦ challenge_known m id old from s now
    ]
  ]

  -- The method handleLogin; `salt` is what the generator gives, `none` for its error.
  unfoldable pub handle_login : Master F → ℕ → AddrPort → Option Bytes → ℕ → Master F × Outcome F
  handle_login m id from salt now =
      if locked m.logins from.ip now
      then (m, dropped too_many_failures)
      else if id == 0
      then (m, dropped id_zero)
      else if id == server_origin
      then (m, dropped id_reserved)
      else if not (allows m.cfg.registration id)
      then (m, reject id from not_registrable)
      else elim (m.cfg.password id) [
        | none ↦ (m, reject id from no_password)
        | some secret ↦ challenge m id from salt now
      ]

  -- A right digest beside a registration. A login in progress makes one more station.
  unfoldable pub accept_relogin : Master F → ℕ → Peer → AddrPort → ℕ → Master F × Outcome F
  accept_relogin m id p from now =
      let moved = store m id (proven p from now) in
      if not (is_challenged p.state)
      then (moved, respond from (id_ack id))
      else if leb m.cfg.max_peers (stations m)
      then (store m id p, reject id from peer_limit)
      else (record moved { waiting = m.waiting - 1 }, respond from (id_ack id))

  -- The part of handleReloginKey behind the challenge that was taken; `p` is the peer without it.
  unfoldable pub check_relogin :
      (Bytes → Bytes) → Master F → Key → Peer → Relogin → AddrPort → ℕ → Master F × Outcome F
  unfolding accept_relogin
  check_relogin sha256 m msg p r from now =
      let id = msg.repeater_id in
      let taken = store m id p in
      elim (m.cfg.password id) [
        | none ↦ (note_failure taken id from unknown_id now, dropped no_password)
        | some secret ↦
            if not (verify_digest sha256 r.salt secret msg.digest)
            then (note_failure taken id from wrong_password now, reject id from bad_password)
            else accept_relogin m id p from now
      ]

  -- handleReloginKey, of what takeRelogin gives.
  unfoldable pub with_challenge :
      (Bytes → Bytes) → Master F → Key → AddrPort → ℕ → Peer × Option Relogin → Master F × Outcome F
  unfolding check_relogin
  with_challenge sha256 m msg from now (taken, none) =
      (store m msg.repeater_id taken, dropped no_login_here)
  with_challenge sha256 m msg from now (taken, some r) = check_relogin sha256 m msg taken r from now

  -- The method handleReloginKey.
  unfoldable pub handle_relogin_key :
      (Bytes → Bytes) → Master F → Peer → Key → AddrPort → ℕ → Master F × Outcome F
  unfolding with_challenge
  handle_relogin_key sha256 m p msg from now =
      with_challenge sha256 m msg from now (take_relogin p from now m.cfg.login_timeout)

  -- The part of handleKey on the login that the entry itself is: right address, own challenge.
  unfoldable pub check_key :
      (Bytes → Bytes) → Master F → Peer → Key → AddrPort → ℕ → Master F × Outcome F
  check_key sha256 m p msg from now =
      let id = msg.repeater_id in
      let gone = abandon m id p in
      elim (m.cfg.password id) [
        | none ↦ (note_failure gone id from unknown_id now, dropped no_password)
        | some secret ↦
            if not (verify_digest sha256 p.salt secret msg.digest)
            then (note_failure gone id from wrong_password now, reject id from bad_password)
            else if leb m.cfg.max_peers (stations m)
            then (gone, reject id from peer_limit)
            else (
              store (record m { waiting = m.waiting - 1 }) id
                  (record p { state = authenticated; last_heard = now; salt = 0 ∷ 0 ∷ 0 ∷ 0 ∷ [] }),
              respond from (id_ack id),
            )
      ]

  -- handleKey, of the peer that is registered.
  unfoldable pub answer :
      (Bytes → Bytes) → Master F → Peer → Key → AddrPort → ℕ → Master F × Outcome F
  unfolding handle_relogin_key check_key
  answer sha256 m p msg from now =
      if not (is_challenged p.state)
      then handle_relogin_key sha256 m p msg from now
      else if addr_port_eq p.addr from
      then check_key sha256 m p msg from now
      else if has_relogin p from
      then handle_relogin_key sha256 m p msg from now
      else (note_failure m msg.repeater_id from wrong_address now, dropped wrong_source)

  -- The method handleKey.
  unfoldable pub handle_key : (Bytes → Bytes) → Master F → Key → AddrPort → ℕ → Master F × Outcome F
  unfolding answer
  handle_key sha256 m msg from now =
      if locked m.logins from.ip now
      then (m, dropped too_many_failures)
      else elim (find m msg.repeater_id) [
        | none ↦ (note_failure m msg.repeater_id from unsolicited now, dropped not_logged_in)
        | some p ↦ answer sha256 m p msg from now
      ]
