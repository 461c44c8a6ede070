-- ===== src/Peers/Master/Proven.antt =====
-- What has been received where a station is logged in.
pub mod Entries
use mathlib.Core.Path.{subst}
use qsp.Prelude.{
  ℕ, ◌≡◌, refl, sym, ap, ◌∙◌, Bool, true, false, Option, none, some, List, [], ◌∷◌, arith, All,
  All-map, In, ==_iff, Option-cases, Bool-cases, inl, inr, not, ◌&&◌, if◌then◌else◌, concat,
  All-concat, drop, leb, length, ltb,
}
use qsp.Prelude.Bytes.{Bytes}
use qsp.Prelude.Sort.{sort}
use qsp.Prelude.Map.{lookup, put, delete}
use qsp.Prelude.Map.Keys.{AllEntries, AllEntries-delete, AllEntries-lookup, AllEntries-put}
use qsp.Access.{allows}
use qsp.Hbp.Control.{Key, verify_digest}
use qsp.Hbp.Parse.{Message, key, login}
use qsp.Peers.Peer.{
  AddrPort, Peer, Relogin, addr_port_eq, find_relogin, is_challenged, kept_relogins, offer_relogin,
  without_relogin, can_pass_traffic,
}
use qsp.Peers.Peer.Relogins.{
  All-offer_relogin, All-without_relogin, addr_port_eq_iff, find_relogin-All,
}
use qsp.Peers.Subscribers.{id_eq}
use qsp.Peers.Master.{Master, MasterConfig, Registry, find, forget}
use qsp.Peers.Master.Handle.{act}
use qsp.Peers.Master.Login.{new_peer}
use qsp.Peers.Master.Sweep.{
  count_sent, evict_all, evict_refused, expire_peers, remove_all, remove_stale, set_access, stale,
  sweep_rest,
}
use qsp.Peers.Master.Steps.{
  Input, IsChallenge, IsProof, SameLogin, Step, Steps, authenticates, done, entered, forgotten,
  moved, next, offered, promoted, rechallenged, taken, touched,
}
use qsp.Peers.Master.Refines.{act-Steps}
use qsp.Peers.Master.Runs.{Happening, happen, run, received, swept, lists, sent_to}
use qsp.Peers.Master.Settings.{cfg-act, cfg-count_sent, cfg-expire_peers, password-set_access}
use qsp.Peers.Master.Proven.Entries.{Earned, IsEarned, Proved, Steps-Earned}

module _ {F : Type 0} (sha256 : Bytes → Bytes) (password : ℕ → Option Bytes)
    (Seen : Input F → Type 0) where
  -- The other happenings take entries away, or leave them at the same point.
  forget-Earned :
      (m : Master F) (id : ℕ)
      → Earned sha256 password Seen m.peers
      → Earned sha256 password Seen (forget m id).peers
  unfolding forget
  forget-Earned m id h = elim (Option-cases (find m id)) [
    | inl e ↦ rw (e, forget) h
    | inr (p, e) ↦
        rw (e, forget)
          (record {
            every = AllEntries-delete id_eq (IsEarned sha256 password Seen) m.peers id h.every;
          })
  ]

  remove_stale-Earned :
      (m : Master F) (id : ℕ)
      → Earned sha256 password Seen m.peers
      → Earned sha256 password Seen (remove_stale m id).0.peers
  unfolding remove_stale
  remove_stale-Earned m id h = elim (Option-cases (find m id)) [
    | inl e ↦ rw (e, remove_stale) h
    | inr (p, e) ↦ rw (e, remove_stale) (forget-Earned m id h)
  ]

  remove_all-Earned :
      (ids : List ℕ) (m : Master F)
      → Earned sha256 password Seen m.peers
      → Earned sha256 password Seen (remove_all m ids).0.peers
  unfolding remove_all
  remove_all-Earned [] m h = h
  remove_all-Earned (id ∷ ids) m h =
      remove_all-Earned ids (remove_stale m id).0 (remove_stale-Earned m id h)

  evict_refused-Earned :
      (m : Master F) (e : ℕ × Peer)
      → Earned sha256 password Seen m.peers
      → Earned sha256 password Seen (evict_refused m e).peers
  unfolding evict_refused
  evict_refused-Earned m (id, p) h =
      let gone = forget-Earned m id h in
      elim (Bool-cases (allows m.cfg.registration id)) [
        | inl y ↦ rw (y, evict_refused) h
        | inr n ↦ elim (Bool-cases (can_pass_traffic p.state)) [
          | inl y ↦ rw (n, y, evict_refused) gone
          | inr k ↦ rw (n, k, evict_refused) gone
        ]
      ]

  evict_all-Earned :
      (es : List (ℕ × Peer)) (m : Master F)
      → Earned sha256 password Seen m.peers
      → Earned sha256 password Seen (evict_all m es).peers
  unfolding evict_all
  evict_all-Earned [] m h = h
  evict_all-Earned (e ∷ es) m h =
      evict_all-Earned es (evict_refused m e) (evict_refused-Earned m e h)

  count_sent-Earned :
      (m : Master F) (id : ℕ)
      → Earned sha256 password Seen m.peers
      → Earned sha256 password Seen (count_sent m id).peers
  unfolding count_sent
  count_sent-Earned m id h = elim (Option-cases (find m id)) [
    | inl e ↦ rw (e, count_sent) h
    | inr (p, e) ↦
        let old =
          AllEntries-lookup id_eq ==_iff (IsEarned sha256 password Seen) m.peers id p h.every e in
        rw (e, count_sent)
          (record {
            every =
                AllEntries-put id_eq ==_iff (IsEarned sha256 password Seen) m.peers id _ h.every
                  (record {
                    waiting_asked = old.waiting_asked;
                    in_proved = old.in_proved;
                    beside_asked = old.beside_asked;
                  });
          })
  ]

  -- The password is asked of the same function all along.
  password-happen :
      (m : Master F) (h : Happening F) → (happen sha256 m h).cfg.password ≡ m.cfg.password
  unfolding happen
  password-happen m (received i) =
      ap (λ (c : MasterConfig F). c.password) (cfg-act sha256 m i.message i.from i.salt i.now)
  password-happen m (swept now) = ap (λ (c : MasterConfig F). c.password) (cfg-expire_peers m now)
  password-happen m (lists a b) = password-set_access m a b
  password-happen m (sent_to id) = ap (λ (c : MasterConfig F). c.password) (cfg-count_sent m id)

  happen-Earned :
      (m : Master F) (h : Happening F)
      → m.cfg.password ≡ password
      → ((i : Input F) → received i ≡ h → Seen i)
      → Earned sha256 password Seen m.peers
      → Earned sha256 password Seen (happen sha256 m h).peers
  unfolding happen
  happen-Earned m (received i) same seen e =
      Steps-Earned sha256 password Seen m.cfg i same (seen i refl) e (act-Steps sha256 m i)
  happen-Earned m (swept now) same seen e =
      unfold expire_peers sweep_rest in
      remove_all-Earned (sort ltb (stale m.cfg now m.peers)) (sweep_rest m now) e
  happen-Earned m (lists a b) same seen e = unfold set_access in evict_all-Earned m.peers _ e
  happen-Earned m (sent_to id) same seen e = count_sent-Earned m id e

  run-Earned :
      (hs : List (Happening F)) (m : Master F)
      → m.cfg.password ≡ password
      → ((i : Input F) → In (received i) hs → Seen i)
      → Earned sha256 password Seen m.peers
      → Earned sha256 password Seen (run sha256 m hs).peers
  unfolding run
  run-Earned [] m same seen e = e
  run-Earned (h ∷ hs) m same seen e =
      run-Earned hs (happen sha256 m h) (password-happen m h ∙ same) (λ i k. seen i (inr k))
        (happen-Earned m h same (λ i k. seen i (inl k)) e)

-- Whatever a master that begins with nobody has gone through, a station that is logged in has sent
-- the digest of its ID's password with a salt, from the address at which it is registered, and that
-- salt was generated for a login request of the ID from that address.
pub run-Proved :
    {F : Type 0} (sha256 : Bytes → Bytes) (m : Master F) (hs : List (Happening F)) (id : ℕ)
    (p : Peer)
    → m.peers ≡ []
    → find (run sha256 m hs) id ≡ some p
    → is_challenged p.state ≡ false
    → Proved sha256 m.cfg.password (λ i. In (received i) hs) id p.addr
run-Proved sha256 m hs id p empty found is_in =
    let seen = λ (i : Input _). In (received i) hs in
    let start : Earned sha256 m.cfg.password seen m.peers = record { every = rw empty tt } in
    let earned = run-Earned sha256 m.cfg.password seen hs m refl (λ i k. k) start in
    (AllEntries-lookup id_eq ==_iff (IsEarned sha256 m.cfg.password seen) (run sha256 m hs).peers id
        p earned.every found).in_proved
      is_in
