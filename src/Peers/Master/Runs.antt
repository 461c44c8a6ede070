-- ===== src/Peers/Master/Runs.antt =====
-- Runs of the master: what it receives, its sweeps, the changes of its lists, and the frames that it
-- sends, in any order.
use qsp.Prelude.{
  ℕ, ◌≤◌, ◌≡◌, refl, sym, ◌∙◌, ap, List, [], ◌∷◌, arith, ltb, Option-cases, Bool-cases, inl, inr,
}
use mathlib.Core.Path.{subst}
use qsp.Prelude.Bytes.{Bytes}
use qsp.Prelude.Sort.{sort}
use qsp.Access.{AccessList, allows}
use qsp.Peers.Peer.{Peer, can_pass_traffic}
use qsp.Peers.Master.{Master, MasterConfig, find, forget, stations}
use qsp.Peers.Master.Handle.{act}
use qsp.Peers.Master.Sweep.{
  count_sent, evict_all, evict_refused, expire_peers, remove_all, remove_stale, set_access, stale,
  sweep_rest,
}
use qsp.Peers.Master.Steps.{Input}
use qsp.Peers.Master.Refines.{act-Steps}
use qsp.Peers.Master.Settings.{cfg-act}
use qsp.Peers.Master.Counts.{IsCounted, Steps-IsCounted, forget_entry, put_same, length-count}

pub data Happening (F : Type 0) : Type 0 where
  received : Input F → Happening F
  swept : ℕ → Happening F
  lists : AccessList → AccessList → Happening F
  sent_to : ℕ → Happening F

module _ {F : Type 0} (sha256 : Bytes → Bytes) where
  unfoldable pub happen : Master F → Happening F → Master F
  happen m (received i) = (act sha256 m i.message i.from i.salt i.now).0
  happen m (swept now) = (expire_peers m now).0
  happen m (lists registration subscriber) = set_access m registration subscriber
  happen m (sent_to id) = count_sent m id

  unfoldable pub run : Master F → List (Happening F) → Master F
  unfolding happen
  run m [] = m
  run m (h ∷ hs) = run (happen m h) hs

-- The invariant of a master, and that its limit is the one given.
pub record IsSound {F : Type 0} (limit : ℕ) (m : Master F) : Type 0 where
  pub limited : m.cfg.max_peers ≡ limit
  pub is_counted : IsCounted limit m.peers m.waiting

module _ {F : Type 0} (limit : ℕ) where
  forget-IsSound : (m : Master F) (id : ℕ) → IsSound limit m → IsSound limit (forget m id)
  unfolding forget
  forget-IsSound m id h = elim (Option-cases (find m id)) [
    | inl e ↦ rw (e, forget) h
    | inr (p, e) ↦
        rw (e, forget)
          (record {
            limited = h.limited;
            is_counted = forget_entry limit m.peers m.waiting h.is_counted id p e;
          })
  ]

  remove_stale-IsSound :
      (m : Master F) (id : ℕ) → IsSound limit m → IsSound limit (remove_stale m id).0
  unfolding remove_stale
  remove_stale-IsSound m id h = elim (Option-cases (find m id)) [
    | inl e ↦ rw (e, remove_stale) h
    | inr (p, e) ↦ rw (e, remove_stale) (forget-IsSound m id h)
  ]

  remove_all-IsSound :
      (ids : List ℕ) (m : Master F) → IsSound limit m → IsSound limit (remove_all m ids).0
  unfolding remove_all
  remove_all-IsSound [] m h = h
  remove_all-IsSound (id ∷ ids) m h =
      remove_all-IsSound ids (remove_stale m id).0 (remove_stale-IsSound m id h)

  expire_peers-IsSound :
      (m : Master F) (now : ℕ) → IsSound limit m → IsSound limit (expire_peers m now).0
  unfolding expire_peers sweep_rest
  expire_peers-IsSound m now h =
      remove_all-IsSound (sort ltb (stale m.cfg now m.peers)) (sweep_rest m now)
        (record { limited = h.limited; is_counted = h.is_counted })

  evict_refused-IsSound :
      (m : Master F) (e : ℕ × Peer) → IsSound limit m → IsSound limit (evict_refused m e)
  unfolding evict_refused
  evict_refused-IsSound m (id, p) h =
      let gone = forget-IsSound m id h in
      elim (Bool-cases (allows m.cfg.registration id)) [
        | inl y ↦ rw (y, evict_refused) h
        | inr n ↦ elim (Bool-cases (can_pass_traffic p.state)) [
          | inl y ↦
              rw (n, y, evict_refused)
                (record { limited = gone.limited; is_counted = gone.is_counted })
          | inr k ↦ rw (n, k, evict_refused) gone
        ]
      ]

  evict_all-IsSound :
      (es : List (ℕ × Peer)) (m : Master F) → IsSound limit m → IsSound limit (evict_all m es)
  unfolding evict_all
  evict_all-IsSound [] m h = h
  evict_all-IsSound (e ∷ es) m h =
      evict_all-IsSound es (evict_refused m e) (evict_refused-IsSound m e h)

  count_sent-IsSound : (m : Master F) (id : ℕ) → IsSound limit m → IsSound limit (count_sent m id)
  unfolding count_sent
  count_sent-IsSound m id h = elim (Option-cases (find m id)) [
    | inl e ↦ rw (e, count_sent) h
    | inr (p, e) ↦
        rw (e, count_sent)
          (record {
            limited = h.limited;
            is_counted = put_same limit m.peers m.waiting h.is_counted id p _ e refl;
          })
  ]

  act-IsSound :
      (sha256 : Bytes → Bytes) (m : Master F) (i : Input F)
      → IsSound limit m
      → IsSound limit (act sha256 m i.message i.from i.salt i.now).0
  act-IsSound sha256 m i h = record {
    limited =
        ap (λ (c : MasterConfig F). c.max_peers) (cfg-act sha256 m i.message i.from i.salt i.now)
        ∙ h.limited;
    is_counted =
        let m' = (act sha256 m i.message i.from i.salt i.now).0 in
        subst (λ (l : ℕ). IsCounted l m'.peers m'.waiting) h.limited
          (Steps-IsCounted sha256 m.cfg i
            (subst (λ (l : ℕ). IsCounted l m.peers m.waiting) (sym h.limited) h.is_counted)
            (act-Steps sha256 m i));
  }

  happen-IsSound :
      (sha256 : Bytes → Bytes) (m : Master F) (h : Happening F)
      → IsSound limit m
      → IsSound limit (happen sha256 m h)
  unfolding happen set_access
  happen-IsSound sha256 m (received i) s = act-IsSound sha256 m i s
  happen-IsSound sha256 m (swept now) s = expire_peers-IsSound m now s
  happen-IsSound sha256 m (lists a b) s =
      evict_all-IsSound m.peers _ (record { limited = s.limited; is_counted = s.is_counted })
  happen-IsSound sha256 m (sent_to id) s = count_sent-IsSound m id s

  pub run-IsSound :
      (sha256 : Bytes → Bytes) (hs : List (Happening F)) (m : Master F)
      → IsSound limit m
      → IsSound limit (run sha256 m hs)
  unfolding run
  run-IsSound sha256 [] m s = s
  run-IsSound sha256 (h ∷ hs) m s =
      run-IsSound sha256 hs (happen sha256 m h) (happen-IsSound sha256 m h s)

  -- However messages, sweeps, new lists and sent frames follow one another, the count of waiting
  -- logins is exactly the number of entries still challenged, each ID is registered once, and the
  -- stations that are logged in keep to the limit that was set.
  pub run-stations :
      (sha256 : Bytes → Bytes) (hs : List (Happening F)) (m : Master F)
      → IsSound limit m
      → IsSound limit (run sha256 m hs) × (stations (run sha256 m hs) ≤ limit)
  run-stations sha256 hs m s =
      let t = run-IsSound sha256 hs m s in
      let c = t.is_counted in
      (t, omega (arith, length-count (run sha256 m hs).peers, c.counted, c.roomy))
