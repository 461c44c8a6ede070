-- ===== src/Peers/Master/Newcomer.antt =====
-- The three messages of a login, from a station that is not registered.
use qsp.Prelude.{
  ℕ, ◌+◌, ◌-◌, ◌≤◌, ◌<◌, ◌≡◌, refl, ap, ◌∙◌, true, false, none, some, [], ◌∷◌, arith, length, leb,
}
use qsp.Prelude.Bytes.{Bytes}
use qsp.Prelude.Map.{put}
use qsp.Prelude.Map.Keys.{length-put}
use qsp.Hbp.Control.{Key, digest, verify_digest}
use qsp.Hbp.Config.{Config}
use qsp.Peers.Attempts.{locked}
use qsp.Peers.Peer.{AddrPort, Peer, addr_port_eq, authenticated, is_challenged}
use qsp.Peers.Subscribers.{id_eq}
use qsp.Peers.Master.{Master, Outcome, find, max_half_open, stations, store, tidy_half_open}
use qsp.Peers.Master.Login.{
  answer, challenge, challenge_new, check_key, enter, handle_key, handle_login, make_place,
  new_peer,
}
use qsp.Peers.Master.Session.{handle_config}
use qsp.Peers.Master.Joins.{
  IsRegistered, MayJoin, config-IsRegistered, handle_key-answer, handle_login-challenge,
}
use qsp.Peers.Master.Joins.Offered.{lookup-put_self, addr_port_eq_refl, verify_digest-digest}

-- What entering a login does to a master.
record HasEntered {F : Type 0} (m m' : Master F) (id : ℕ) (p : Peer) : Type 0 where
  entry_put : m'.peers ≡ put id_eq m.peers id p
  one_more : m'.waiting ≡ m.waiting + 1
  same_cfg : m'.cfg ≡ m.cfg
  same_logins : m'.logins ≡ m.logins

module _ {F : Type 0} where
  enter-HasEntered :
      (m : Master F) (id : ℕ) (from : AddrPort) (salt : Bytes) (now : ℕ)
      → HasEntered m (enter m id from salt now) id (new_peer id from salt now)
  unfolding enter tidy_half_open
  enter-HasEntered m id from salt now = ground arith

  challenge-enters :
      (m : Master F) (id : ℕ) (from : AddrPort) (salt : Bytes) (now : ℕ)
      → find m id ≡ none
      → stations m < m.cfg.max_peers
      → m.waiting < max_half_open
      → (challenge m id from (some salt) now).0 ≡ enter m id from salt now
  unfolding challenge challenge_new make_place
  challenge-enters m id from salt now n room few =
      let roomy : leb m.cfg.max_peers (stations m) ≡ false = ground arith in
      let fewer : leb max_half_open m.waiting ≡ false = ground arith in
      rw (n, roomy, fewer, challenge, challenge_new, make_place) refl

  module _ (sha256 : Bytes → Bytes) where
    answer-check_key :
        (m : Master F) (k : Key) (p : Peer) (from : AddrPort) (now : ℕ)
        → is_challenged p.state ≡ true
        → addr_port_eq p.addr from ≡ true
        → answer sha256 m p k from now ≡ check_key sha256 m p k from now
    unfolding answer
    answer-check_key m k p from now waits here = rw (waits, here, answer) refl

    check_key-right :
        (m : Master F) (k : Key) (p : Peer) (secret : Bytes) (from : AddrPort) (now : ℕ)
        → m.cfg.password k.repeater_id ≡ some secret
        → verify_digest sha256 p.salt secret k.digest ≡ true
        → leb m.cfg.max_peers (stations m) ≡ false
        → (check_key sha256 m p k from now).0
          ≡ store
              (record m { waiting = m.waiting - 1 })
              k.repeater_id
              (record p { state = authenticated; last_heard = now; salt = 0 ∷ 0 ∷ 0 ∷ 0 ∷ [] })
    unfolding check_key
    check_key-right m k p secret from now known right room = rw (known, right, room, check_key) refl

    -- The three messages of a station whose login has been entered.
    entered-IsRegistered :
        (m m' : Master F) (c : Config) (from : AddrPort) (salt secret : Bytes) (t u v : ℕ)
        → HasEntered m m' c.repeater_id (new_peer c.repeater_id from salt t)
        → locked m.logins from.ip u ≡ false
        → find m c.repeater_id ≡ none
        → stations m < m.cfg.max_peers
        → m.cfg.password c.repeater_id ≡ some secret
        → let reply : Key = record {
          repeater_id = c.repeater_id;
          digest = digest sha256 salt secret;
        } in
          IsRegistered
            (handle_config (handle_key sha256 m' reply from u).0 c from v).0
            c.repeater_id
            from
    unfolding is_challenged
    entered-IsRegistered m m' c from salt secret t u v h unlocked n room known =
        let id = c.repeater_id in
        let p = new_peer id from salt t in
        let reply : Key = record { repeater_id = id; digest = digest sha256 salt secret } in
        let found : find m' id ≡ some p = rw h.entry_put (lookup-put_self m.peers id p) in
        let free : leb m'.cfg.max_peers (stations m') ≡ false =
          let fewer : length m'.peers ≤ length m.peers + 1 =
            rw h.entry_put (length-put id_eq m.peers id p) in
          rw h.same_cfg (ground (arith, fewer, h.one_more, room)) in
        let q = record p { state = authenticated; last_heard = u; salt = 0 ∷ 0 ∷ 0 ∷ 0 ∷ [] } in
        let after : (handle_key sha256 m' reply from u).0
            ≡ store (record m' { waiting = m'.waiting - 1 }) id q =
          ap (λ (r : Master F × Outcome F). r.0)
            (handle_key-answer sha256 m' reply p from u (rw h.same_logins unlocked) found
              ∙ answer-check_key m' reply p from u refl (addr_port_eq_refl from))
          ∙ check_key-right m' reply p secret from u (rw h.same_cfg known)
              (verify_digest-digest sha256 salt secret) free in
        rw after (
          config-IsRegistered (store (record m' { waiting = m'.waiting - 1 }) id q) c q from v
            (lookup-put_self m'.peers id q) refl refl)

    -- An ID that is not registered, and may log in, is registered at the address that it logs in
    -- from, where there is room for a station and too many logins do not wait, once the digest of
    -- its password and its configuration have been handled.
    pub login-joins :
        (m : Master F) (c : Config) (from : AddrPort) (salt secret : Bytes) (t u v : ℕ)
        → MayJoin m c.repeater_id from secret t
        → locked m.logins from.ip u ≡ false
        → find m c.repeater_id ≡ none
        → stations m < m.cfg.max_peers
        → m.waiting < max_half_open
        → let asked = (handle_login m c.repeater_id from (some salt) t).0 in
          let reply : Key = record {
            repeater_id = c.repeater_id;
            digest = digest sha256 salt secret;
          } in
          let answered = (handle_key sha256 asked reply from u).0 in
          IsRegistered (handle_config answered c from v).0 c.repeater_id from
    login-joins m c from salt secret t u v j unlocked n room few =
        let id = c.repeater_id in
        let first : (handle_login m id from (some salt) t).0 ≡ enter m id from salt t =
          ap (λ (r : Master F × Outcome F). r.0) (handle_login-challenge m id from secret salt t j)
          ∙ challenge-enters m id from salt t n room few in
        rw first (
          entered-IsRegistered m (enter m id from salt t) c from salt secret t u v
            (enter-HasEntered m id from salt t) unlocked n room j.has_secret)
