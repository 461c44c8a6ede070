-- ===== src/Peers/Master/Joins.antt =====
-- The three messages of a login, from a station whose registration stands elsewhere.
pub mod Offered
use qsp.Prelude.{
  ℕ, suc, ◌+◌, ◌-◌, ◌≤◌, ◌<◌, ◌≡◌, ◌≢◌, refl, sym, ap, ◌∙◌, Bool, true, false, not, ◌&&◌, ◌||◌,
  Option, none, some, List, [], ◌∷◌, ◌++◌, arith, All, le→leb, All-concat, All-drop, Bool-cases,
  Option-cases, inl, inr, if◌then◌else◌, ==_iff, ◌==◌, leb, length, concat, drop,
}
use mathlib.Core.Path.{subst}
use qsp.Prelude.Bytes.{Bytes}
use qsp.Prelude.Text.{text_eq_iff}
use qsp.Prelude.Map.{lookup, put, lookup-put}
use qsp.Access.{allows}
use qsp.Hbp.Config.{Config}
use qsp.Hbp.Control.{Key, digest, verify_digest}
use qsp.Routing.Endpoint.{server_origin}
use qsp.Peers.Attempts.{locked}
use qsp.Peers.Peer.{
  AddrPort, Peer, Relogin, addr_port_eq, can_pass_traffic, challenged, authenticated, configured,
  find_relogin, is_challenged, kept_relogins, max_relogins, offer_relogin, take_relogin,
  without_relogin,
}
use qsp.Peers.Peer.Relogins.{addr_port_eq_iff, take_relogin_found}
use qsp.Peers.Subscribers.{id_eq}
use qsp.Peers.Master.{Master, find, Outcome, max_half_open, stations, store}
use qsp.Peers.Master.Login.{
  accept_relogin, answer, challenge, challenge_known, challenge_new, check_key, check_relogin,
  enter, handle_key, handle_login, handle_relogin_key, make_place, new_peer, proven, with_challenge,
}
use qsp.Peers.Master.Session.{handle_config, register}
use qsp.Peers.Master.Joins.Offered.{
  addr_port_eq_refl, verify_digest-digest, find_relogin-concat, kept_relogins-others,
  find_relogin-offer_relogin, lookup-put_self,
}

-- The station is registered at the address, and may pass traffic.
pub record IsRegistered {F : Type 0} (m : Master F) (id : ℕ) (from : AddrPort) : Type 0 where
  pub entry : Peer
  pub under_id : find m id ≡ some entry
  pub is_configured : entry.state ≡ configured
  pub is_at : entry.addr ≡ from

-- The ID may log in from the address, and its password is the secret.
pub record MayJoin {F : Type 0} (m : Master F) (id : ℕ) (from : AddrPort) (secret : Bytes) (now : ℕ)
    : Type 0 where
  pub unlocked : locked m.logins from.ip now ≡ false
  pub nonzero : id ≢ 0
  pub unreserved : id ≢ server_origin
  pub permitted : allows m.cfg.registration id ≡ true
  pub has_secret : m.cfg.password id ≡ some secret

module _ {F : Type 0} where
  register-IsRegistered :
      (m : Master F) (c : Config) (p : Peer) (from : AddrPort) (now : ℕ)
      → p.addr ≡ from
      → IsRegistered (register m p c from now).0 c.repeater_id from
  unfolding register
  register-IsRegistered m c p from now home = record {
    entry = _;
    under_id = lookup-put_self m.peers c.repeater_id _;
    is_configured = refl;
    is_at = home;
  }

  -- A configuration from where the station has authenticated completes its registration.
  pub config-IsRegistered :
      (m : Master F) (c : Config) (p : Peer) (from : AddrPort) (now : ℕ)
      → find m c.repeater_id ≡ some p
      → p.addr ≡ from
      → is_challenged p.state ≡ false
      → IsRegistered (handle_config m c from now).0 c.repeater_id from
  unfolding handle_config
  config-IsRegistered m c p from now e home in' =
      let here : addr_port_eq p.addr from ≡ true = (addr_port_eq_iff p.addr from).1 home in
      rw (e, here, in', handle_config) (register-IsRegistered m c p from now home)

  -- A login that is let in reaches its challenge.
  pub handle_login-challenge :
      (m : Master F) (id : ℕ) (from : AddrPort) (secret salt : Bytes) (now : ℕ)
      → MayJoin m id from secret now
      → handle_login m id from (some salt) now ≡ challenge m id from (some salt) now
  unfolding handle_login
  handle_login-challenge m id from secret salt now j =
      let zero' : (id == 0) ≡ false = ground (arith, j.nonzero) in
      let reserved : (id == server_origin) ≡ false = ground (arith, j.unreserved) in
      rw (j.unlocked, zero', reserved, j.permitted, j.has_secret, handle_login) refl

  challenge-offers :
      (m : Master F) (id : ℕ) (old : Peer) (from : AddrPort) (salt : Bytes) (now : ℕ)
      → find m id ≡ some old
      → is_challenged old.state ≡ false
      → (challenge m id from (some salt) now).0
        ≡ store m id (offer_relogin old from salt now m.cfg.login_timeout)
  unfolding challenge challenge_known
  challenge-offers m id old from salt now e in' = rw (e, in', challenge) refl

module _ {F : Type 0} (sha256 : Bytes → Bytes) where
  accept_relogin_in :
      (m : Master F) (id : ℕ) (p : Peer) (from : AddrPort) (now : ℕ)
      → is_challenged p.state ≡ false
      → (accept_relogin m id p from now).0 ≡ store m id (proven p from now)
  unfolding accept_relogin
  accept_relogin_in m id p from now in' = rw (in', accept_relogin) refl

  check_relogin_right :
      (m : Master F) (k : Key) (p : Peer) (c : Relogin) (secret : Bytes) (from : AddrPort) (now : ℕ)
      → m.cfg.password k.repeater_id ≡ some secret
      → verify_digest sha256 c.salt secret k.digest ≡ true
      → check_relogin sha256 m k p c from now ≡ accept_relogin m k.repeater_id p from now
  unfolding check_relogin
  check_relogin_right m k p c secret from now known right = rw (known, right, check_relogin) refl

  with_challenge_fresh :
      (m : Master F) (k : Key) (p : Peer) (c : Relogin) (from : AddrPort) (now : ℕ)
      → find_relogin p.relogins from ≡ some c
      → now - c.at ≤ m.cfg.login_timeout
      → handle_relogin_key sha256 m p k from now
        ≡ check_relogin sha256 m k
            (record p { relogins = without_relogin p.relogins from })
            c
            from
            now
  unfolding handle_relogin_key
  with_challenge_fresh m k p c from now found fresh =
      let rest = record p { relogins = without_relogin p.relogins from } in
      let got : Peer × Option Relogin = (rest, some c) in
      let took : take_relogin p from now m.cfg.login_timeout ≡ got =
        take_relogin_found p from now m.cfg.login_timeout c found
        ∙ rw (le→leb (now - c.at) m.cfg.login_timeout fresh) refl in
      ap (with_challenge sha256 m k from now) took

  pub handle_key-answer :
      (m : Master F) (k : Key) (p : Peer) (from : AddrPort) (now : ℕ)
      → locked m.logins from.ip now ≡ false
      → find m k.repeater_id ≡ some p
      → handle_key sha256 m k from now ≡ answer sha256 m p k from now
  unfolding handle_key
  handle_key-answer m k p from now unlocked e = rw (unlocked, e, handle_key) refl

  answer_in :
      (m : Master F) (k : Key) (p : Peer) (from : AddrPort) (now : ℕ)
      → is_challenged p.state ≡ false
      → answer sha256 m p k from now ≡ handle_relogin_key sha256 m p k from now
  unfolding answer
  answer_in m k p from now in' = rw (in', answer) refl

  -- The right digest for a challenge that is kept beside the registration of a station that is in.
  key-moves :
      (m : Master F) (k : Key) (p : Peer) (c : Relogin) (secret : Bytes) (from : AddrPort) (now : ℕ)
      → locked m.logins from.ip now ≡ false
      → find m k.repeater_id ≡ some p
      → is_challenged p.state ≡ false
      → find_relogin p.relogins from ≡ some c
      → now - c.at ≤ m.cfg.login_timeout
      → m.cfg.password k.repeater_id ≡ some secret
      → verify_digest sha256 c.salt secret k.digest ≡ true
      → (handle_key sha256 m k from now).0
        ≡ store m k.repeater_id
            (proven (record p { relogins = without_relogin p.relogins from }) from now)
  key-moves m k p c secret from now unlocked e in' found fresh known right =
      let taken = record p { relogins = without_relogin p.relogins from } in
      ap (λ (r : Master F × Outcome F). r.0)
        (handle_key-answer m k p from now unlocked e
          ∙ answer_in m k p from now in'
          ∙ with_challenge_fresh m k p c from now found fresh
          ∙ check_relogin_right m k taken c secret from now known right)
      ∙ accept_relogin_in m k.repeater_id taken from now in'

  -- A station that is logged in at some address, whatever address, and logs in again from any
  -- address with the right password before the challenge times out, is registered there when its
  -- configuration has been handled.
  pub login-rejoins :
      (m : Master F) (c : Config) (old : Peer) (from : AddrPort) (salt secret : Bytes) (t u v : ℕ)
      → let id = c.repeater_id in
        MayJoin m id from secret t
        → locked m.logins from.ip u ≡ false
        → find m id ≡ some old
        → is_challenged old.state ≡ false
        → u - t ≤ m.cfg.login_timeout
        → let asked = (handle_login m id from (some salt) t).0 in
          let reply : Key = record { repeater_id = id; digest = digest sha256 salt secret } in
          let answered = (handle_key sha256 asked reply from u).0 in
          IsRegistered (handle_config answered c from v).0 id from
  login-rejoins m c old from salt secret t u v j unlocked e in' fresh =
      let id = c.repeater_id in
      let asked = store m id (offer_relogin old from salt t m.cfg.login_timeout) in
      let new : Relogin = record { addr = from; salt = salt; at = t } in
      let reply : Key = record { repeater_id = id; digest = digest sha256 salt secret } in
      let offered = offer_relogin old from salt t m.cfg.login_timeout in
      let first : (handle_login m id from (some salt) t).0 ≡ asked =
        ap (λ (r : Master F × Outcome F). r.0) (handle_login-challenge m id from secret salt t j)
        ∙ challenge-offers m id old from salt t e in' in
      let second =
        key-moves asked reply offered new secret from u unlocked
          (lookup-put_self m.peers id offered) (unfold offer_relogin in in')
          (find_relogin-offer_relogin old from salt t m.cfg.login_timeout) fresh j.has_secret
          (verify_digest-digest sha256 salt secret) in
      let q = proven (record offered { relogins = without_relogin offered.relogins from }) from u in
      rw (first, second)
        (config-IsRegistered (store asked id q) c q from v (lookup-put_self asked.peers id q) refl
          (unfold is_challenged in refl))
