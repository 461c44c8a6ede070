-- ===== src/Peers/Master/Datagrams.antt =====
-- A login as the datagrams that a station sends: Handle after the AppendTo of its messages.
use qsp.Prelude.{ℕ, ◌≡◌, refl, sym, ap, ◌∙◌, false, Option, none, some, length, ◌++◌}
use mathlib.Core.Path.{subst}
use qsp.Prelude.Bytes.{Bytes}
use qsp.Hbp.Parse.{Json, Message, append_to}
use qsp.Hbp.Parse.Written.{IsWritten, parse-append_to}
use qsp.Peers.Peer.{AddrPort}
use qsp.Peers.Master.{Master, Outcome}
use qsp.Peers.Master.Handle.{act, handle}
use qsp.Prelude.{◌<◌}
use qsp.Hbp.Parse.{config, key, login}
use qsp.Hbp.Config.{Config}
use qsp.Hbp.Control.{Key, digest, digest_size}
use qsp.Peers.Attempts.{locked}
use qsp.Peers.Master.{find, max_half_open, stations}
use qsp.Peers.Master.Joins.{IsRegistered, MayJoin}
use qsp.Peers.Master.Newcomer.{login-joins}

-- A datagram that holds an encoded message is handed to the switch of Handle as that message.
handle-append_to :
    {F : Type 0} (json : Json F) (sha256 : Bytes → Bytes) (m : Master F) (message : Message F)
    (from : AddrPort) (salt : Option Bytes) (now : ℕ)
    → IsWritten json message
    → handle sha256 json m (append_to json message) from salt now
      ≡ act sha256 m message from salt now
unfolding handle
handle-append_to json sha256 m message from salt now fits =
    rw (parse-append_to json message fits, handle) refl

module _ {F : Type 0} (json : Json F) (sha256 : Bytes → Bytes) where
  -- The state after a datagram that holds the message, encoded.
  abbrev pub sent : Master F → Message F → AddrPort → Option Bytes → ℕ → Master F
  sent m message from salt now = (handle sha256 json m (append_to json message) from salt now).0

  sent-act :
      (m : Master F) (message : Message F) (from : AddrPort) (salt : Option Bytes) (now : ℕ)
      → IsWritten json message
      → sent m message from salt now ≡ (act sha256 m message from salt now).0
  sent-act m message from salt now fits =
      ap (λ (r : Master F × Outcome F). r.0)
        (handle-append_to json sha256 m message from salt now fits)

  -- An ID that is not registered, and may log in, is registered at the address that it logs in from
  -- by three datagrams: its login, the digest of its password with the salt that it was sent, and
  -- its configuration, where there is room for a station and too many logins do not wait.
  pub handle-joins :
      (m : Master F) (c : Config) (from : AddrPort) (salt secret : Bytes) (t u v : ℕ)
      → ((b : Bytes) → length (sha256 b) ≡ digest_size)
      → IsWritten json (config c)
      → MayJoin m c.repeater_id from secret t
      → locked m.logins from.ip u ≡ false
      → find m c.repeater_id ≡ none
      → stations m < m.cfg.max_peers
      → m.waiting < max_half_open
      → let reply : Key = record {
        repeater_id = c.repeater_id;
        digest = digest sha256 salt secret;
      } in
        let asked = sent m (login c.repeater_id) from (some salt) t in
        let answered = sent asked (key reply) from none u in
        IsRegistered (sent answered (config c) from none v) c.repeater_id from
  unfolding act
  handle-joins m c from salt secret t u v sized fits j unlocked new room few =
      let reply : Key = record {
        repeater_id = c.repeater_id;
        digest = digest sha256 salt secret;
      } in
      let asked = (act sha256 m (login c.repeater_id) from (some salt) t).0 in
      let answered = (act sha256 asked (key reply) from none u).0 in
      let first : sent m (login c.repeater_id) from (some salt) t ≡ asked =
        sent-act m (login c.repeater_id) from (some salt) t fits.0 in
      let second : sent (sent m (login c.repeater_id) from (some salt) t) (key reply) from none u
          ≡ answered =
        ap (λ (x : Master F). sent x (key reply) from none u) first
        ∙ sent-act asked (key reply) from none u (fits.0, sized (salt ++ secret)) in
      let third =
        ap (λ (x : Master F). sent x (config c) from none v) second
        ∙ sent-act answered (config c) from none v fits in
      subst (λ (x : Master F). IsRegistered x c.repeater_id from) (sym third)
        (login-joins sha256 m c from salt secret t u v j unlocked new room few)
