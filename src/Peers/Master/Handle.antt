-- ===== src/Peers/Master/Handle.antt =====
-- internal/peers/master.go: Handle, from a datagram to the handler of its message.
use qsp.Prelude.{ℕ, Option}
use qsp.Prelude.Bytes.{Bytes}
use qsp.Hbp.Data.{ok, err}
use qsp.Hbp.Parse.{
  Message, Json, parse, config, data_frame, key, login, ping, repeater_close, talker_alias,
}
use qsp.Peers.Peer.{AddrPort}
use qsp.Peers.Master.{Master, Outcome, dropped, not_for_a_master, unparseable}
use qsp.Peers.Master.Login.{handle_key, handle_login}
use qsp.Peers.Master.Session.{
  handle_close, handle_config, handle_data, handle_ping, handle_talker_alias,
}

module _ {F : Type 0} (sha256 : Bytes → Bytes) where
  -- The switch of Handle; `salt` is what the generator gives if it is asked.
  unfoldable pub act : Master F → Message F → AddrPort → Option Bytes → ℕ → Master F × Outcome F
  act m (login id) from salt now = handle_login m id from salt now
  act m (key k) from salt now = handle_key sha256 m k from now
  act m (config c) from salt now = handle_config m c from now
  act m (ping id) from salt now = handle_ping m id from now
  act m (data_frame f) from salt now = handle_data m f from now
  act m (repeater_close id) from salt now = handle_close m id from
  act m (talker_alias a) from salt now = handle_talker_alias m a from now
  act m _ from salt now = (m, dropped not_for_a_master)

  -- The method Handle.
  unfoldable pub handle :
      Json F → Master F → Bytes → AddrPort → Option Bytes → ℕ → Master F × Outcome F
  handle json m datagram from salt now = elim (parse json datagram) [
    | err e ↦ (m, dropped unparseable)
    | ok message ↦ act m message from salt now
  ]
