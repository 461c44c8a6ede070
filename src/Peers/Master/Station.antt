-- ===== src/Peers/Master/Station.antt =====
-- What a message may do to a station that is logged in.
use qsp.Prelude.{
  ℕ, ◌≡◌, ◌⊎◌, refl, sym, ap, ◌∙◌, true, false, some, ==_iff, some-injective, Bool-cases, inl, inr,
  ◌==◌,
}
use mathlib.Core.Path.{subst}
use qsp.Prelude.Bytes.{Bytes}
use qsp.Prelude.Map.{lookup, put, lookup-put, lookup-delete}
use qsp.Hbp.Parse.{repeater_close}
use qsp.Peers.Peer.{Peer, addr_port_eq, is_challenged, offer_relogin}
use qsp.Peers.Subscribers.{id_eq}
use qsp.Peers.Master.{Master, MasterConfig, Registry, find}
use qsp.Peers.Master.Handle.{act}
use qsp.Peers.Master.Steps.{
  Input, IsProof, Step, Steps, authenticates, done, entered, forgotten, moved, next, offered,
  promoted, rechallenged, taken, touched,
}
use qsp.Peers.Master.Refines.{act-Steps}

-- The station is still logged in, at the same address.
pub record Holds (id : ℕ) (p : Peer) (r : Registry) : Type 0 where
  pub now_as : Peer
  pub held : lookup id_eq r id ≡ some now_as
  pub held_in : is_challenged now_as.state ≡ false
  pub held_at : now_as.addr ≡ p.addr

module _ {F : Type 0} (sha256 : Bytes → Bytes) (cfg : MasterConfig F) (i : Input F) (id : ℕ)
    (p : Peer) where
  -- What may end that: the station's own close, or a right digest for the ID.
  abbrev pub Ends : Type 0
  Ends =
      ((i.message ≡ repeater_close id) × (addr_port_eq p.addr i.from ≡ true))
      ⊎ ((salt : Bytes) × IsProof sha256 cfg i id salt)

  put-Holds :
      (r : Registry) (j : ℕ) (q : Peer)
      → (h : Holds id p r) → (j ≡ id → (is_challenged q.state ≡ false) × (q.addr ≡ p.addr))
      → Holds id p (put id_eq r j q)
  put-Holds r j q h k = elim (Bool-cases (j == id)) [
    | inl y ↦
        let same = (==_iff j id).0 y in
        record {
          now_as = q;
          held = lookup-put id_eq ==_iff r j id q ∙ rw y refl;
          held_in = (k same).0;
          held_at = (k same).1;
        }
    | inr n ↦ record {
      now_as = h.now_as;
      held = lookup-put id_eq ==_iff r j id q ∙ rw n h.held;
      held_in = h.held_in;
      held_at = h.held_at;
    }
  ]

  -- The entry that a step is about, if it is the station's.
  same_entry :
      {r : Registry} {j : ℕ} {q : Peer} (h : Holds id p r)
      → lookup id_eq r j ≡ some q
      → j ≡ id
      → h.now_as ≡ q
  same_entry {r} {j} h e same = some-injective (sym h.held ∙ ap (lookup id_eq r) (sym same) ∙ e)

  Step-Holds :
      {r r' : Registry} {w w' : ℕ}
      → Step sha256 cfg i r w r' w'
      → Holds id p r
      → Holds id p r' ⊎ Ends
  unfolding offer_relogin
  Step-Holds {r} (forgotten j q e why f g) h = elim (Bool-cases (j == id)) [
    | inl y ↦
        let same = (==_iff j id).0 y in
        let old = same_entry h e same in
        elim why [
          | inl w ↦ cc (sym w ∙ ap (λ (x : Peer). is_challenged x.state) (sym old) ∙ h.held_in)
          | inr (sent, home) ↦ inr (inl (rw (← same) sent, rw (← h.held_at, old) home))
        ]
    | inr n ↦ inl (record {
      now_as = h.now_as;
      held =
          ap (λ (x : Registry). lookup id_eq x id) f
          ∙ lookup-delete id_eq ==_iff r j id
          ∙ rw n h.held;
      held_in = h.held_in;
      held_at = h.held_at;
    })
  ]
  Step-Holds {r} (touched j q q' e s f g) h = inl (
      rw f (
        put-Holds r j q' h (λ same.
          let old = same_entry h e same in
          (rw s.same_progress (rw (← old) h.held_in), rw s.same_addr (rw (← old) h.held_at)))))
  Step-Holds {r} (entered j salt e c f g) h =
      inl (rw f (put-Holds r j _ h (λ same. cc (sym e ∙ ap (lookup id_eq r) same ∙ h.held))))
  Step-Holds {r} (rechallenged j salt q q' e c y s f g) h = inl (
      rw f (
        put-Holds r j q' h (λ same.
          let old = same_entry h e same in
          cc (sym y ∙ ap (λ (x : Peer). is_challenged x.state) (sym old) ∙ h.held_in))))
  Step-Holds {r} (offered j salt q e c f g) h = inl (
      rw f (
        put-Holds r j _ h
          (λ same. let old = same_entry h e same in (rw (← old) h.held_in, rw (← old) h.held_at))))
  Step-Holds {r} (taken j q e f g) h = inl (
      rw f (
        put-Holds r j _ h
          (λ same. let old = same_entry h e same in (rw (← old) h.held_in, rw (← old) h.held_at))))
  Step-Holds {r} (promoted j q n rest e y k f g) h = inl (
      rw f (
        put-Holds r j _ h (λ same.
          let old = same_entry h e same in
          cc (sym y ∙ ap (λ (x : Peer). is_challenged x.state) (sym old) ∙ h.held_in))))
  Step-Holds {r} (authenticates j q q' e y here proof s a l room f g) h = inl (
      rw f (
        put-Holds r j q' h (λ same.
          let old = same_entry h e same in
          cc (sym y ∙ ap (λ (x : Peer). is_challenged x.state) (sym old) ∙ h.held_in))))
  Step-Holds {r} (moved j q q' c e found proof s a l room f g) h = elim (Bool-cases (j == id)) [
    | inl y ↦
        inr
          (inr (c.salt, subst (λ (k : ℕ). IsProof sha256 cfg i k c.salt) ((==_iff j id).0 y) proof))
    | inr n ↦ inl (rw f (put-Holds r j q' h (λ same. cc (sym n ∙ (==_iff j id).1 same))))
  ]

  Steps-Holds :
      {r : Registry} {w : ℕ} {r' : Registry} {w' : ℕ}
      → Holds id p r
      → Steps sha256 cfg i r w r' w'
      → Holds id p r' ⊎ Ends
  Steps-Holds h done = inl h
  Steps-Holds h (next t u) = elim (Steps-Holds h t) [ inl k ↦ Step-Holds u k | inr e ↦ inr e ]

-- A station that is logged in stays so, at its address, whatever message arrives and from wherever,
-- unless the message is the close of that ID from that address, or holds a digest of the ID's
-- password with some salt.
pub act-Holds :
    {F : Type 0} (sha256 : Bytes → Bytes) (m : Master F) (i : Input F) (id : ℕ) (p : Peer)
    → find m id ≡ some p
    → is_challenged p.state ≡ false
    → Holds id p (act sha256 m i.message i.from i.salt i.now).0.peers ⊎ Ends sha256 m.cfg i id p
act-Holds sha256 m i id p e s =
    Steps-Holds sha256 m.cfg i id p (record { now_as = p; held = e; held_in = s; held_at = refl })
      (act-Steps sha256 m i)
