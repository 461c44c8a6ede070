-- ===== src/Peers/Master/Settings.antt =====
-- On what changes the settings of a master.
use qsp.Prelude.{
  ap, ℕ, ◌≡◌, refl, Option, arith, List, [], ◌∷◌, inl, inr, Bool-cases, Option-cases, ◌∙◌,
}
use qsp.Prelude.Bytes.{Bytes}
use qsp.Hbp.Parse
use qsp.Hbp.Parse.{Message, key, login}
use qsp.Hbp.Control.{Key}
use qsp.Peers.Attempts.{locked}
use qsp.Peers.Peer.{AddrPort, Peer}
use qsp.Access.{AccessList}
use qsp.Peers.Master.{
  Master, MasterConfig, HalfOpenLogin, abandon, evict_from, evict_half_open, find, forget,
  note_failure, tidy_half_open,
}
use qsp.Peers.Master.Login.{
  accept_relogin, answer, challenge, challenge_known, challenge_new, check_key, check_relogin,
  enter, handle_key, handle_login, handle_relogin_key, make_place,
}
use qsp.Peers.Master.Session.{
  handle_close, handle_config, handle_data, handle_ping, handle_talker_alias,
}
use qsp.Prelude.Sort.{sort}
use qsp.Prelude.{ltb}
use qsp.Peers.Master.Handle.{act}
use qsp.Peers.Master.Sweep.{
  count_sent, evict_all, evict_refused, expire_peers, remove_all, remove_stale, set_access, stale,
  sweep_rest,
}

cfg-forget : {F : Type 0} (m : Master F) (id : ℕ) → (forget m id).cfg ≡ m.cfg
unfolding forget
cfg-forget m id = ground arith

module _ {F : Type 0} (sha256 : Bytes → Bytes) where
  cfg-evict_from : (hs : List HalfOpenLogin) (m : Master F) → (evict_from hs m).0.cfg ≡ m.cfg
  unfolding evict_from
  cfg-evict_from [] m = refl
  cfg-evict_from (h ∷ hs) m = ground (arith, cfg-forget m h.id, cfg-evict_from hs m)

  cfg-abandon : (m : Master F) (id : ℕ) (p : Peer) → (abandon m id p).cfg ≡ m.cfg
  unfolding abandon
  cfg-abandon m id p = ground (arith, cfg-forget m id)

  cfg-challenge_new :
      (m : Master F) (id : ℕ) (from : AddrPort) (salt : Option Bytes) (now : ℕ)
      → (challenge_new m id from salt now).0.cfg ≡ m.cfg
  unfolding challenge_new make_place enter tidy_half_open evict_half_open
  cfg-challenge_new m id from salt now = ground (arith, cfg-evict_from m.half_open m)

  cfg-handle_login :
      (m : Master F) (id : ℕ) (from : AddrPort) (salt : Option Bytes) (now : ℕ)
      → (handle_login m id from salt now).0.cfg ≡ m.cfg
  unfolding handle_login challenge challenge_known
  cfg-handle_login m id from salt now = ground (arith, cfg-challenge_new m id from salt now)

  cfg-check_key :
      (m : Master F) (p : Peer) (k : Key) (from : AddrPort) (now : ℕ)
      → (check_key sha256 m p k from now).0.cfg ≡ m.cfg
  unfolding check_key note_failure
  cfg-check_key m p k from now = ground (arith, cfg-abandon m k.repeater_id p)

  cfg-handle_relogin_key :
      (m : Master F) (p : Peer) (k : Key) (from : AddrPort) (now : ℕ)
      → (handle_relogin_key sha256 m p k from now).0.cfg ≡ m.cfg
  unfolding handle_relogin_key check_relogin accept_relogin note_failure
  cfg-handle_relogin_key m p k from now = ground arith

  cfg-answer :
      (m : Master F) (p : Peer) (k : Key) (from : AddrPort) (now : ℕ)
      → (answer sha256 m p k from now).0.cfg ≡ m.cfg
  unfolding answer note_failure
  cfg-answer m p k from now =
      ground (arith, cfg-check_key m p k from now, cfg-handle_relogin_key m p k from now)

  cfg-handle_key :
      (m : Master F) (k : Key) (from : AddrPort) (now : ℕ)
      → (handle_key sha256 m k from now).0.cfg ≡ m.cfg
  unfolding handle_key note_failure
  cfg-handle_key m k from now = elim (Bool-cases (locked m.logins from.ip now)) [
    | inl y ↦ rw (y, handle_key) refl
    | inr n ↦ elim (Option-cases (find m k.repeater_id)) [
      | inl e ↦ rw (n, e, handle_key) refl
      | inr (p, e) ↦ rw (n, e, handle_key) (cfg-answer m p k from now)
    ]
  ]

  pub cfg-act :
      (m : Master F) (message : Message F) (from : AddrPort) (salt : Option Bytes) (now : ℕ)
      → (act sha256 m message from salt now).0.cfg ≡ m.cfg
  unfolding act handle_config handle_ping handle_data handle_close handle_talker_alias
  cfg-act m (login id) from salt now = cfg-handle_login m id from salt now
  cfg-act m (key k) from salt now = cfg-handle_key m k from now
  cfg-act m (Parse.config c) from salt now = ground arith
  cfg-act m (Parse.ping id) from salt now = ground arith
  cfg-act m (Parse.data_frame f) from salt now = ground arith
  cfg-act m (Parse.repeater_close id) from salt now = ground (arith, cfg-forget m id)
  cfg-act m (Parse.talker_alias a) from salt now = ground arith
  cfg-act m _ from salt now = refl

module _ {F : Type 0} where
  cfg-remove_stale : (m : Master F) (id : ℕ) → (remove_stale m id).0.cfg ≡ m.cfg
  unfolding remove_stale
  cfg-remove_stale m id = ground (arith, cfg-forget m id)

  cfg-remove_all : (ids : List ℕ) (m : Master F) → (remove_all m ids).0.cfg ≡ m.cfg
  unfolding remove_all
  cfg-remove_all [] m = refl
  cfg-remove_all (id ∷ ids) m = cfg-remove_all ids (remove_stale m id).0 ∙ cfg-remove_stale m id

  pub cfg-expire_peers : (m : Master F) (now : ℕ) → (expire_peers m now).0.cfg ≡ m.cfg
  unfolding expire_peers sweep_rest
  cfg-expire_peers m now = cfg-remove_all (sort ltb (stale m.cfg now m.peers)) (sweep_rest m now)

  cfg-evict_refused : (m : Master F) (e : ℕ × Peer) → (evict_refused m e).cfg ≡ m.cfg
  unfolding evict_refused
  cfg-evict_refused m (id, p) = ground (arith, cfg-forget m id)

  cfg-evict_all : (es : List (ℕ × Peer)) (m : Master F) → (evict_all m es).cfg ≡ m.cfg
  unfolding evict_all
  cfg-evict_all [] m = refl
  cfg-evict_all (e ∷ es) m = cfg-evict_all es (evict_refused m e) ∙ cfg-evict_refused m e

  pub cfg-count_sent : (m : Master F) (id : ℕ) → (count_sent m id).cfg ≡ m.cfg
  unfolding count_sent
  cfg-count_sent m id = ground arith

  pub password-set_access :
      (m : Master F) (registration subscriber : AccessList)
      → (set_access m registration subscriber).cfg.password ≡ m.cfg.password
  unfolding set_access
  password-set_access m a b = ap (λ (c : MasterConfig F). c.password) (cfg-evict_all m.peers _)
