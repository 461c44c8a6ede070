-- ===== src/Peers/Master/Counts.antt =====
-- On the count of waiting logins and the number of stations that are logged in, step by step.
use qsp.Prelude.{
  ℕ, ◌+◌, ◌-◌, ◌≤◌, ◌<◌, ◌≡◌, refl, Bool, true, false, not, none, some, [], ◌∷◌, arith,
  if◌then◌else◌, length, ==_iff, Bool-cases, inl, inr,
}
use qsp.Prelude.Bytes.{Bytes}
use qsp.Prelude.Map.{lookup, put, delete}
use qsp.Prelude.Map.Keys.{IsKeyed, count, count-delete, count-put, delete-IsKeyed, put-IsKeyed}
use qsp.Peers.Peer.{Peer, is_challenged, offer_relogin}
use qsp.Peers.Subscribers.{id_eq}
use qsp.Peers.Master.{MasterConfig, Registry}
use qsp.Peers.Master.Steps.{
  Input, Step, Steps, authenticates, done, entered, forgotten, moved, next, offered, promoted,
  rechallenged, taken, touched,
}

abbrev pub waits : Peer → Bool
waits p = is_challenged p.state

abbrev pub is_in : Peer → Bool
is_in p = not (is_challenged p.state)

-- The registry has each ID once, the count is that of the logins which wait, and no more stations
-- are logged in than the limit allows.
pub record IsCounted (limit : ℕ) (r : Registry) (w : ℕ) : Type 0 where
  pub keyed : IsKeyed id_eq r
  pub counted : w ≡ count waits r
  pub roomy : count is_in r ≤ limit

pub length-count : (r : Registry) → length r ≡ count waits r + count is_in r
unfolding count
length-count [] = refl
length-count ((k, p) ∷ r) = ground (arith, length-count r)

module _ (limit : ℕ) (r : Registry) (w : ℕ) (h : IsCounted limit r w) (id : ℕ) where
  -- An entry replaced by one at the same point.
  pub put_same :
      (p q : Peer)
      → lookup id_eq r id ≡ some p
      → is_challenged q.state ≡ is_challenged p.state
      → IsCounted limit (put id_eq r id q) w
  put_same p q e s = record {
    keyed = put-IsKeyed id_eq ==_iff r id q h.keyed;
    counted = ground (arith, count-put id_eq waits r id q, h.counted);
    roomy = ground (arith, count-put id_eq is_in r id q, h.roomy);
  }

  -- A login that begins.
  put_new :
      (q : Peer)
      → lookup id_eq r id ≡ none
      → is_challenged q.state ≡ true
      → IsCounted limit (put id_eq r id q) (w + 1)
  put_new q e s = record {
    keyed = put-IsKeyed id_eq ==_iff r id q h.keyed;
    counted = ground (arith, count-put id_eq waits r id q, h.counted);
    roomy = ground (arith, count-put id_eq is_in r id q, h.roomy);
  }

  -- A station that has got in, in the place of its login or of its earlier self.
  put_in :
      (p q : Peer)
      → lookup id_eq r id ≡ some p
      → is_challenged q.state ≡ false
      → (is_challenged p.state ≡ true → length r - w < limit)
      → IsCounted limit (put id_eq r id q) (if is_challenged p.state then w - 1 else w)
  put_in p q e s room = elim (Bool-cases (is_challenged p.state)) [
    | inl y ↦ record {
      keyed = put-IsKeyed id_eq ==_iff r id q h.keyed;
      counted = ground (arith, count-put id_eq waits r id q, h.counted);
      roomy =
          ground (arith, count-put id_eq is_in r id q, h.roomy, h.counted, length-count r, room y);
    }
    | inr n ↦ rw n (put_same p q e (rw (n, s) refl))
  ]

  pub forget_entry :
      (p : Peer)
      → lookup id_eq r id ≡ some p
      → IsCounted limit (delete id_eq r id) (if is_challenged p.state then w - 1 else w)
  forget_entry p e = record {
    keyed = delete-IsKeyed id_eq ==_iff r id h.keyed;
    counted = ground (arith, count-delete id_eq ==_iff waits r id h.keyed, h.counted);
    roomy = ground (arith, count-delete id_eq ==_iff is_in r id h.keyed, h.roomy);
  }

module _ {F : Type 0} (sha256 : Bytes → Bytes) (cfg : MasterConfig F) (i : Input F) where
  Step-IsCounted :
      {r r' : Registry} {w w' : ℕ}
      → Step sha256 cfg i r w r' w'
      → IsCounted cfg.max_peers r w
      → IsCounted cfg.max_peers r' w'
  unfolding is_challenged offer_relogin
  Step-IsCounted {r} {w = w} (forgotten id p e why f g) h =
      rw (f, g) (forget_entry cfg.max_peers r w h id p e)
  Step-IsCounted {r} {w = w} (touched id p q e s f g) h =
      rw (f, g) (put_same cfg.max_peers r w h id p q e s.same_progress)
  Step-IsCounted {r} {w = w} (entered id salt e c f g) h =
      rw (f, g) (put_new cfg.max_peers r w h id _ e refl)
  Step-IsCounted {r} {w = w} (rechallenged id salt p q e c y s f g) h =
      rw (f, g) (put_same cfg.max_peers r w h id p q e s.same_progress)
  Step-IsCounted {r} {w = w} (offered id salt p e c f g) h =
      rw (f, g) (put_same cfg.max_peers r w h id p _ e refl)
  Step-IsCounted {r} {w = w} (taken id p e f g) h =
      rw (f, g) (put_same cfg.max_peers r w h id p _ e refl)
  Step-IsCounted {r} {w = w} (promoted id p n rest e y k f g) h =
      rw (f, g) (put_same cfg.max_peers r w h id p _ e refl)
  Step-IsCounted {r} {w = w} (authenticates id p q e y here proof s a l room f g) h =
      rw (f, g) (rw y at (put_in cfg.max_peers r w h id p q e s (λ _. room)))
  Step-IsCounted {r} {w = w} (moved id p q c e found proof s a l room f g) h =
      rw (f, g) (put_in cfg.max_peers r w h id p q e s room)

  pub Steps-IsCounted :
      {r : Registry} {w : ℕ} {r' : Registry} {w' : ℕ}
      → IsCounted cfg.max_peers r w
      → Steps sha256 cfg i r w r' w'
      → IsCounted cfg.max_peers r' w'
  Steps-IsCounted h done = h
  Steps-IsCounted h (next t u) = Step-IsCounted u (Steps-IsCounted h t)
