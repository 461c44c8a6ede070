-- ===== src/Peers/Master/Refines/Sessions.antt =====
-- The handlers of a session as steps of the login protocol.
use qsp.Prelude.{ℕ, ◌≡◌, refl, sym, ◌∙◌, Bool, not, some, arith, inr, some-injective}
use qsp.Prelude.Bytes.{Bytes}
use qsp.Access.{allows}
use qsp.Hbp.Parse.{repeater_close}
use qsp.Hbp.Control.{TalkerAlias}
use qsp.Hbp.Config.{Config}
use qsp.Hbp.Data.{Data}
use qsp.Peers.Peer.{AddrPort, Peer, addr_port_eq, is_challenged, can_pass_traffic}
use qsp.Peers.Continuation.{continuing}
use qsp.Peers.Master.{Master, MasterConfig, find}
use qsp.Peers.Master.Session.{
  accept_frame, is_linked, handle_close, handle_config, handle_data, handle_ping,
  handle_talker_alias,
}
use qsp.Peers.Master.Steps.{Input, SameLogin}
use qsp.Peers.Master.Refines.Changes.{
  Moves, stays, keeps, if-Moves, option-Moves, forget-Steps, touch-Moves, heard-Moves,
}

module _ {F : Type 0} (sha256 : Bytes → Bytes) (cfg : MasterConfig F) (i : Input F) where
  pub handle_ping-Moves :
      (m : Master F) (id : ℕ) (from : AddrPort) (now : ℕ)
      → Moves sha256 cfg i m.peers m.waiting (handle_ping m id from now)
  unfolding handle_ping
  handle_ping-Moves m id from now =
      option-Moves _ _ (find m id) (λ n. stays m _)
        (λ p e.
          if-Moves _ _ (not (can_pass_traffic p.state)) (λ h. stays m _)
            (λ h.
              if-Moves _ _ (not (addr_port_eq p.addr from)) (λ k. stays m _)
                (λ k. heard-Moves m _ id now p e)))

  pub handle_talker_alias-Moves :
      (m : Master F) (a : TalkerAlias) (from : AddrPort) (now : ℕ)
      → Moves sha256 cfg i m.peers m.waiting (handle_talker_alias m a from now)
  unfolding handle_talker_alias
  handle_talker_alias-Moves m a from now =
      option-Moves _ _ (find m a.repeater_id) (λ n. stays m _)
        (λ p e.
          if-Moves _ _ (not (can_pass_traffic p.state)) (λ h. stays m _)
            (λ h.
              if-Moves _ _ (not (addr_port_eq p.addr from)) (λ k. stays m _)
                (λ k. heard-Moves m _ a.repeater_id now p e)))

  pub handle_config-Moves :
      (m : Master F) (c : Config) (from : AddrPort) (now : ℕ)
      → Moves sha256 cfg i m.peers m.waiting (handle_config m c from now)
  unfolding handle_config is_challenged
  handle_config-Moves m c from now =
      option-Moves _ _ (find m c.repeater_id) (λ n. stays m _)
        (λ p e.
          if-Moves _ _ (not (addr_port_eq p.addr from)) (λ h. stays m _)
            (λ h.
              if-Moves _ _ (is_challenged p.state) (λ k. stays m _)
                (λ k. touch-Moves m _ _ c.repeater_id p _ e (ground arith) refl refl)))

  pub handle_close-Moves :
      (m : Master F) (id : ℕ)
      → i.message ≡ repeater_close id
      → Moves sha256 cfg i m.peers m.waiting (handle_close m id i.from)
  unfolding handle_close
  handle_close-Moves m id sent =
      option-Moves _ _ (find m id) (λ n. stays m _)
        (λ p e.
          if-Moves _ _ (not (addr_port_eq p.addr i.from)) (λ h. stays m _)
            (λ h. record {
              steps =
                  forget-Steps m id
                    (λ q k. inr (sent, rw (some-injective (sym k ∙ e)) (ground arith)));
            }))

  continuing-SameLogin :
      (p : Peer) (f : Data) (now : ℕ) (join : Bool) → SameLogin p (continuing p f now join).0
  unfolding continuing
  continuing-SameLogin p f now join = ground arith

  accept_frame-Moves :
      (m : Master F) (p : Peer) (f : Data) (now : ℕ)
      → find m f.repeater_id ≡ some p
      → Moves sha256 cfg i m.peers m.waiting (accept_frame m p f now)
  unfolding accept_frame
  accept_frame-Moves m p f now e =
      let joined =
        continuing-SameLogin (record p { last_heard = now }) f now (not (is_linked m p)) in
      if-Moves _ _ (not (allows m.cfg.subscriber f.source_id))
        (λ h. touch-Moves m _ _ f.repeater_id p _ e (ground arith) refl refl)
        (λ h. touch-Moves m _ _ f.repeater_id p _ e (ground (arith, joined)) refl refl)

  pub handle_data-Moves :
      (m : Master F) (f : Data) (from : AddrPort) (now : ℕ)
      → Moves sha256 cfg i m.peers m.waiting (handle_data m f from now)
  unfolding handle_data
  handle_data-Moves m f from now =
      option-Moves _ _ (find m f.repeater_id) (λ n. keeps m _ _ refl refl)
        (λ p e.
          if-Moves _ _ (not (can_pass_traffic p.state)) (λ h. stays m _)
            (λ h.
              if-Moves _ _ (not (addr_port_eq p.addr from)) (λ k. stays m _)
                (λ k. accept_frame-Moves m p f now e)))
