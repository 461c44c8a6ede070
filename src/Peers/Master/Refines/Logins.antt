-- ===== src/Peers/Master/Refines/Logins.antt =====
-- A login request as steps of the login protocol, with the logins that it evicts.
use qsp.Prelude.{
  ℕ, ◌≡◌, refl, true, not, ◌||◌, none, some, List, [], ◌∷◌, arith, leb, ==_iff, inl, inr,
  Bool-cases, ◌==◌,
}
use qsp.Prelude.Bytes.{Bytes}
use qsp.Access.{allows}
use qsp.Prelude.Map.{lookup, lookup-delete}
use qsp.Routing.Endpoint.{server_origin}
use qsp.Peers.Attempts.{locked}
use qsp.Hbp.Parse.{login}
use qsp.Peers.Peer.{Peer, addr_port_eq, is_challenged}
use qsp.Peers.Subscribers.{id_eq}
use qsp.Peers.Master.{
  Master, MasterConfig, Outcome, Registry, HalfOpenLogin, evict_from, evict_half_open, find, forget,
  max_half_open, still_waiting, stations, tidy_half_open,
}
use qsp.Peers.Master.Login.{
  challenge, challenge_known, challenge_new, enter, handle_login, make_place,
}
use qsp.Peers.Master.Steps.{
  Input, Leaves, IsChallenge, Steps, done, entered, next, offered, rechallenged,
}
use qsp.Peers.Master.Refines.Changes.{Moves, stays, if-Moves, option-Moves, one, forget-Steps}

module _ {F : Type 0} (sha256 : Bytes → Bytes) (cfg : MasterConfig F) (i : Input F) where
  still_waiting-Leaves :
      (r : Registry) (h : HalfOpenLogin) (p : Peer)
      → still_waiting r h ≡ true
      → lookup id_eq r h.id ≡ some p
      → Leaves sha256 cfg i h.id p
  unfolding still_waiting
  still_waiting-Leaves r h p w e = inl (ground arith)

  challenge_known-Moves :
      (m : Master F) (id : ℕ) (old : Peer) (salt : Bytes)
      → find m id ≡ some old
      → IsChallenge sha256 cfg i id salt
      → m.cfg ≡ cfg
      → Moves sha256 cfg i m.peers m.waiting (challenge_known m id old i.from salt i.now)
  unfolding challenge_known is_challenged
  challenge_known-Moves m id old salt e c same =
      if-Moves _ _ (not (is_challenged old.state) || not (addr_port_eq old.addr i.from))
        (λ h. one _ _ _ _ (offered id salt old e c (rw same refl) refl))
        (λ h.
          let waits : is_challenged old.state ≡ true = ground arith in
          one _ _ _ _ (rechallenged id salt old _ e c waits (ground arith) refl refl))

  evict_from-Steps :
      (hs : List HalfOpenLogin) (m : Master F)
      → Steps sha256 cfg i m.peers m.waiting (evict_from hs m).0.peers (evict_from hs m).0.waiting
  unfolding evict_from
  evict_from-Steps [] m = done
  evict_from-Steps (h ∷ hs) m = elim (Bool-cases (still_waiting m.peers h)) [
    | inl e ↦ rw (e, evict_from) (forget-Steps m h.id (λ p f. still_waiting-Leaves m.peers h p e f))
    | inr e ↦ rw (e, evict_from) (evict_from-Steps hs m)
  ]

  append-Steps :
      {r r' : Registry} {w w' : ℕ} {r'' : Registry} {w'' : ℕ}
      → Steps sha256 cfg i r w r' w'
      → Steps sha256 cfg i r' w' r'' w''
      → Steps sha256 cfg i r w r'' w''
  append-Steps s done = s
  append-Steps s (next t u) = next (append-Steps s t) u

  -- What stays true when logins that wait are forgotten: an ID is not registered.
  forget-absent :
      (m : Master F) (id j : ℕ)
      → find m j ≡ none
      → (find (forget m id) j ≡ none) × ((forget m id).cfg ≡ m.cfg)
  unfolding forget
  forget-absent m id j e = ground (arith, lookup-delete id_eq ==_iff m.peers id j)

  evict_from-absent :
      (hs : List HalfOpenLogin) (m : Master F) (j : ℕ)
      → find m j ≡ none
      → (find (evict_from hs m).0 j ≡ none) × ((evict_from hs m).0.cfg ≡ m.cfg)
  unfolding evict_from
  evict_from-absent [] m j e = (e, refl)
  evict_from-absent (h ∷ hs) m j e = elim (Bool-cases (still_waiting m.peers h)) [
    | inl y ↦ rw (y, evict_from) (forget-absent m h.id j e)
    | inr n ↦ rw (n, evict_from) (evict_from-absent hs m j e)
  ]

  record IsPlace (m m' : Master F) (id : ℕ) : Type 0 where
    reached : Steps sha256 cfg i m.peers m.waiting m'.peers m'.waiting
    absent : find m' id ≡ none
    same_cfg : m'.cfg ≡ m.cfg

  make_place-IsPlace :
      (m m' : Master F) (id : ℕ) → find m id ≡ none → make_place m ≡ some m' → IsPlace m m' id
  unfolding make_place
  make_place-IsPlace m m' id n e = elim (Bool-cases (leb m.cfg.max_peers (stations m))) [
    | inl full ↦ cc (rw (full, make_place) at e)
    | inr room ↦ elim (Bool-cases (leb max_half_open m.waiting)) [
      | inl many ↦
          let same : (evict_half_open m).0 ≡ m' = ground arith in
          let absent = evict_from-absent m.half_open m id n in
          rw (← same) (record {
            reached = evict_from-Steps m.half_open m;
            absent = absent.0;
            same_cfg = absent.1;
          })
      | inr few ↦
          let same : m ≡ m' = ground arith in
          rw (← same) (record { reached = done; absent = n; same_cfg = refl })
    ]
  ]

  enter-Moves :
      (m m' : Master F) (id : ℕ) (salt : Bytes) (out : Outcome F)
      → IsPlace m m' id
      → IsChallenge sha256 cfg i id salt
      → Moves sha256 cfg i m.peers m.waiting (enter m' id i.from salt i.now, out)
  unfolding enter tidy_half_open
  enter-Moves m m' id salt out p c = record {
    steps = next p.reached (entered id salt p.absent c (ground arith) (ground arith));
  }

  challenge_new-Moves :
      (m : Master F) (id : ℕ)
      → find m id ≡ none
      → i.message ≡ login id
      → Moves sha256 cfg i m.peers m.waiting (challenge_new m id i.from i.salt i.now)
  unfolding challenge_new
  challenge_new-Moves m id n asked =
      option-Moves _ _ (make_place m) (λ e. stays m _)
        (λ m' e.
          let p = make_place-IsPlace m m' id n e in
          option-Moves _ _ i.salt (λ k. record { steps = p.reached })
            (λ s k. enter-Moves m m' id s _ p (record { asked = asked; generated = k })))

  challenge-Moves :
      (m : Master F) (id : ℕ)
      → i.message ≡ login id
      → m.cfg ≡ cfg
      → Moves sha256 cfg i m.peers m.waiting (challenge m id i.from i.salt i.now)
  unfolding challenge
  challenge-Moves m id asked same =
      option-Moves _ _ (find m id) (λ n. challenge_new-Moves m id n asked)
        (λ old e.
          option-Moves _ _ i.salt (λ k. stays m _)
            (λ s k.
              challenge_known-Moves m id old s e (record { asked = asked; generated = k }) same))

  pub handle_login-Moves :
      (m : Master F) (id : ℕ)
      → i.message ≡ login id
      → m.cfg ≡ cfg
      → Moves sha256 cfg i m.peers m.waiting (handle_login m id i.from i.salt i.now)
  unfolding handle_login
  handle_login-Moves m id asked same =
      if-Moves _ _ (locked m.logins i.from.ip i.now) (λ h. stays m _)
        (λ h.
          if-Moves _ _ (id == 0) (λ h. stays m _)
            (λ h.
              if-Moves _ _ (id == server_origin) (λ h. stays m _)
                (λ h.
                  if-Moves _ _ (not (allows m.cfg.registration id)) (λ h. stays m _)
                    (λ h.
                      option-Moves _ _ (m.cfg.password id) (λ n. stays m _)
                        (λ secret e. challenge-Moves m id asked same)))))
