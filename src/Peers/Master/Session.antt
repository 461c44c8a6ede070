-- ===== src/Peers/Master/Session.antt =====
-- internal/peers/master.go: what a station that has logged in sends: its configuration, keepalives,
-- frames, talker aliases and its close.
use qsp.Prelude.{
  ℕ, ◌+◌, ◌-◌, ◌%◌, ◌^◌, Bool, true, false, not, ◌&&◌, none, some, List, [], ◌∷◌, ltb, leb, ◌==◌,
  if◌then◌else◌, length,
}
use qsp.Prelude.Map.{lookup, put}
use qsp.Access.{allows}
use qsp.Hbp.Config.{Config}
use qsp.Hbp.Control.{TalkerAlias}
use qsp.Hbp.Data.{Data}
use qsp.Hbp.Parse.{identity, pong}
use qsp.Peers.Throttle.{succeed}
use qsp.Peers.Peer.{
  AddrPort, Peer, State, RefusedStreamId, configured, addr_port_eq, is_challenged, can_pass_traffic,
  clone, no_refused,
}
use qsp.Peers.Continuation.{continuing}
use qsp.Peers.Subscribers.{id_eq, observe}
use qsp.Peers.Attachments.{attach}
use qsp.Peers.Master.{
  Master, MasterConfig, Outcome, Response, closed, closed_early, connected, disconnected, dropped,
  find, forget, no_reason, not_logged_in, nothing, reject, respond, store, subscriber_refused,
  unregistered, wrong_source, max_unregistered_tracked, unregistered_frame_interval, wrong_state,
}
use qsp.Peers.Master.Login.{id_ack}

-- `p.State != StateConfigured` is the negation of this.
abbrev is_configured : State → Bool
is_configured s = can_pass_traffic s

-- The entries that can still suppress an answer.
unfoldable pub recent_answers : List (ℕ × ℕ) → ℕ → List (ℕ × ℕ)
recent_answers [] now = []
recent_answers ((id, at) ∷ m) now =
    let rest = recent_answers m now in
    if leb unregistered_frame_interval (now - at) then rest else (id, at) ∷ rest

-- Whether the last answer to an ID is so recent that the next is suppressed.
unfoldable pub is_suppressed : List (ℕ × ℕ) → ℕ → ℕ → Bool
is_suppressed m id now = elim (lookup id_eq m id) [
  | none ↦ false
  | some last ↦ ltb (now - last) unregistered_frame_interval
]

-- The method shouldAnswerUnregistered, on its map.
unfoldable pub should_answer : List (ℕ × ℕ) → ℕ → ℕ → List (ℕ × ℕ) × Bool
should_answer m id now =
    let pruned = if leb max_unregistered_tracked (length m) then recent_answers m now else m in
    if is_suppressed m id now then (m, false) else (put id_eq pruned id now, true)

module _ {F : Type 0} where
  -- Whether a configuration marks a QSP link; with no such function none does.
  unfoldable pub is_link : MasterConfig F → Config → Bool
  is_link cfg c = elim cfg.is_qsp_link [ none ↦ false | some f ↦ f c ]

  -- The identity that follows the acknowledgement, of a link with a password of its own.
  unfoldable pub identity_reply : MasterConfig F → Config → AddrPort → List (Response F)
  unfolding is_link
  identity_reply cfg c from = elim cfg.identity [
    | none ↦ []
    | some says ↦ elim cfg.own_password [
      | none ↦ []
      | some own ↦
          if is_link cfg c && own c.repeater_id
          then record { to = from; payload = identity c.repeater_id says } ∷ []
          else []
    ]
  ]

  -- handleConfig's last part, of a peer that may send its configuration.
  unfoldable pub register : Master F → Peer → Config → AddrPort → ℕ → Master F × Outcome F
  unfolding identity_reply
  register m p c from now =
      let first = not (is_configured p.state) in
      let p' = record p {
        config = some c;
        state = configured;
        last_heard = now;
        configured_at = if first then some now else p.configured_at;
      } in
      (
        store (record m { logins = succeed m.logins from.ip }) c.repeater_id p',
        record {
          responses =
              record { to = from; payload = id_ack c.repeater_id } ∷ identity_reply m.cfg c from;
          events =
              if first
              then record { kind = connected; peer = clone p'; reason = no_reason } ∷ []
              else [];
          frame = none;
          from = 0;
          why = none;
        },
      )

  -- The method handleConfig.
  unfoldable pub handle_config : Master F → Config → AddrPort → ℕ → Master F × Outcome F
  unfolding register
  handle_config m c from now = elim (find m c.repeater_id) [
    | none ↦ (m, dropped not_logged_in)
    | some p ↦
        if not (addr_port_eq p.addr from)
        then (m, dropped wrong_source)
        else if is_challenged p.state
        then (m, dropped wrong_state)
        else register m p c from now
  ]

  -- The method handlePing.
  unfoldable pub handle_ping : Master F → ℕ → AddrPort → ℕ → Master F × Outcome F
  handle_ping m id from now = elim (find m id) [
    | none ↦ (m, reject id from unregistered)
    | some p ↦
        if not (can_pass_traffic p.state)
        then (m, dropped wrong_state)
        else if not (addr_port_eq p.addr from)
        then (m, reject id from wrong_source)
        else (store m id (record p { last_heard = now }), respond from (pong id))
  ]

  -- The method refuseSubscriber, of the peer that has just been heard.
  unfoldable pub refuse_subscriber : Master F → Peer → Data → Master F × Outcome F
  refuse_subscriber m p f =
      let current : RefusedStreamId = record {
        source = f.source_id;
        stream = f.stream_id;
        slot = f.timeslot;
      } in
      let old = p.refused.id in
      let counted = record p { refused_count = (p.refused_count + 1) % 2 ^ 64 } in
      let frames =
        if old.source == current.source && old.stream == current.stream && old.slot == current.slot
        then p.refused.frames + 1
        else 1 in
      (
        store m f.repeater_id
            (record counted { refused = record { id = current; frames = frames } }),
        dropped (subscriber_refused frames),
      )

  -- The end of handleData: `f` is the frame as it is carried, `p` the peer with its calls.
  unfoldable pub take_frame : Master F → Peer → Data → ℕ → ℕ → Master F × Outcome F
  take_frame m p f id now =
      let p' = record p {
        refused = no_refused;
        received = (p.received + 1) % 2 ^ 64;
        last_traffic = some now;
      } in
      let seen = observe m.subscribers f.source_id p.id f.timeslot now in
      let used = attach m.attachments m.cfg.subscription.enabled p.id f.target_id f.timeslot now in
      (
        store
            (record m {
              subscribers = seen;
              attachments = if f.call_type == 0 then used else m.attachments;
            })
            id p',
        record { responses = []; events = []; frame = some f; from = p.id; why = none },
      )

  unfoldable pub is_linked : Master F → Peer → Bool
  unfolding is_link
  is_linked m p = elim p.config [ none ↦ false | some c ↦ is_link m.cfg c ]

  -- handleData, of a registered peer at its own address.
  unfoldable pub accept_frame : Master F → Peer → Data → ℕ → Master F × Outcome F
  unfolding refuse_subscriber take_frame is_linked
  accept_frame m p f now =
      let heard = record p { last_heard = now } in
      if not (allows m.cfg.subscriber f.source_id)
      then refuse_subscriber m heard f
      else let (p', f', rejoined) = continuing heard f now (not (is_linked m p)) in
        take_frame m p' f' f.repeater_id now

  unfoldable pub unregistered_frame : Master F → Data → AddrPort → ℕ → Master F × Outcome F
  unfolding should_answer
  unregistered_frame m f from now =
      let (answered, answer) = should_answer m.answered_unregistered f.repeater_id now in
      (
        record m { answered_unregistered = answered },
        if answer then reject f.repeater_id from unregistered else dropped unregistered,
      )

  -- The method handleData.
  unfoldable pub handle_data : Master F → Data → AddrPort → ℕ → Master F × Outcome F
  unfolding accept_frame unregistered_frame
  handle_data m f from now = elim (find m f.repeater_id) [
    | none ↦ unregistered_frame m f from now
    | some p ↦
        if not (can_pass_traffic p.state)
        then (m, dropped wrong_state)
        else if not (addr_port_eq p.addr from)
        then (m, dropped wrong_source)
        else accept_frame m p f now
  ]

  -- The method handleTalkerAlias.
  unfoldable pub handle_talker_alias : Master F → TalkerAlias → AddrPort → ℕ → Master F × Outcome F
  handle_talker_alias m a from now = elim (find m a.repeater_id) [
    | none ↦ (m, dropped unregistered)
    | some p ↦
        if not (can_pass_traffic p.state)
        then (m, dropped wrong_state)
        else if not (addr_port_eq p.addr from)
        then (m, dropped wrong_source)
        else (store m a.repeater_id (record p { last_heard = now }), nothing)
  ]

  -- The method handleClose.
  unfoldable pub handle_close : Master F → ℕ → AddrPort → Master F × Outcome F
  handle_close m id from = elim (find m id) [
    | none ↦ (m, dropped unregistered)
    | some p ↦ if not (addr_port_eq p.addr from) then (m, dropped wrong_source) else (
      forget m id,
      if not (is_configured p.state) then dropped closed_early else record nothing {
        events = record { kind = disconnected; peer = clone p; reason = closed } ∷ [];
      },
    )
  ]
