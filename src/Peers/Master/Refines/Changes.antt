-- ===== src/Peers/Master/Refines/Changes.antt =====
-- What a handler does to the registry and the count of those waiting, as steps of the login protocol.
use qsp.Prelude.{
  ℕ, ◌≡◌, refl, Bool, true, false, Option, none, some, arith, if◌then◌else◌, inl, inr, Option-cases,
}
use qsp.Prelude.Bytes.{Bytes}
use qsp.Prelude.Map.{put}
use qsp.Peers.Peer.{Peer}
use qsp.Peers.Subscribers.{id_eq}
use qsp.Peers.Master.{Master, MasterConfig, Outcome, Registry, find, forget, store}
use qsp.Peers.Master.Steps.{Input, Leaves, SameLogin, Step, Steps, done, forgotten, next, touched}

module _ {F : Type 0} (sha256 : Bytes → Bytes) (cfg : MasterConfig F) (i : Input F) where
  -- What a handler returns, begun at a registry and a count.
  pub record Moves (r : Registry) (w : ℕ) (res : Master F × Outcome F) : Type 0 where
    pub steps : Steps sha256 cfg i r w res.0.peers res.0.waiting

module _ {F : Type 0} {sha256 : Bytes → Bytes} {cfg : MasterConfig F} {i : Input F} where
  pub stays : (m : Master F) (out : Outcome F) → Moves sha256 cfg i m.peers m.waiting (m, out)
  stays m out = record { steps = done }

  -- A change that leaves the registry and the count alone.
  pub keeps :
      (m m' : Master F) (out : Outcome F)
      → m.peers ≡ m'.peers
      → m.waiting ≡ m'.waiting
      → Moves sha256 cfg i m.peers m.waiting (m', out)
  keeps m m' out e f = rw (e, f) (stays m' out)

  pub if-Moves :
      (r : Registry) (w : ℕ) (t : Bool) {x y : Master F × Outcome F}
      → (t ≡ true → Moves sha256 cfg i r w x)
      → (t ≡ false → Moves sha256 cfg i r w y)
      → Moves sha256 cfg i r w (if t then x else y)
  if-Moves r w true f g = f refl
  if-Moves r w false f g = g refl

  pub option-Moves :
      {A : Type 0} (r : Registry) (w : ℕ) (o : Option A) {x : Master F × Outcome F}
      {f : A → Master F × Outcome F}
      → (o ≡ none → Moves sha256 cfg i r w x)
      → ((a : A) → o ≡ some a → Moves sha256 cfg i r w (f a))
      → Moves sha256 cfg i r w (elim o [ none ↦ x | some a ↦ f a ])
  option-Moves r w none g h = g refl
  option-Moves r w (some a) g h = h a refl

  -- One step, of a master that differs from another in the registry and the count.
  pub one :
      (r : Registry) (w : ℕ) (m : Master F) (out : Outcome F)
      → Step sha256 cfg i r w m.peers m.waiting
      → Moves sha256 cfg i r w (m, out)
  one r w m out s = record { steps = next done s }

  pub forget-Steps :
      (m : Master F) (id : ℕ)
      → ((p : Peer) → find m id ≡ some p → Leaves sha256 cfg i id p)
      → Steps sha256 cfg i m.peers m.waiting (forget m id).peers (forget m id).waiting
  unfolding forget
  forget-Steps m id why = elim (Option-cases (find m id)) [
    | inl e ↦ rw (e, forget) done
    | inr (p, e) ↦ rw (e, forget) (next done (forgotten id p e (why p e) refl refl))
  ]

  -- The peer that the entry points to is changed where no login is concerned.
  pub touch-Moves :
      (m : Master F) (out : Outcome F) (m' : Master F) (id : ℕ) (p q : Peer)
      → find m id ≡ some p
      → SameLogin p q
      → m'.peers ≡ put id_eq m.peers id q
      → m'.waiting ≡ m.waiting
      → Moves sha256 cfg i m.peers m.waiting (m', out)
  touch-Moves m out m' id p q e s f g = one _ _ m' out (touched id p q e s f g)

  pub heard-Moves :
      (m : Master F) (out : Outcome F) (id now : ℕ) (p : Peer)
      → find m id ≡ some p
      → Moves sha256 cfg i m.peers m.waiting (store m id (record p { last_heard = now }), out)
  heard-Moves m out id now p e = touch-Moves m out _ id p _ e (ground arith) refl refl
