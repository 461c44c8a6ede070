-- ===== src/Peers/Master/Tests.antt =====
-- Runs of the master on concrete messages.
use qsp.Prelude.{
  zero, suc, length, ℕ, ◌+◌, ◌-◌, ◌*◌, ◌^◌, ◌≤◌, ◌<◌, ◌≡◌, ◌⊎◌, refl, Bool, true, false, Option,
  none, some, List, [], ◌∷◌, ◌++◌, arith, In, inl, inr,
}
use qsp.Prelude.Int.{pos}
use qsp.Prelude.Bytes.{Bytes}
use qsp.Prelude.Text.{codes}
use qsp.Access.{AccessList, permit}
use qsp.Hbp.Data.{Data}
use qsp.Hbp.Config.{Config}
use qsp.Hbp.Control.{Key, digest}
use qsp.Hbp.Parse
use qsp.Hbp.Parse.{Json, append_to, Message, login, key, data_frame}
use qsp.Peers.Attempts.{locked, Throttle}
use qsp.Peers.Peer.{AddrPort, Peer, challenged, configured, is_challenged, no_refused}
use qsp.Peers.Master.{Master, MasterConfig, find, stations}
use qsp.Peers.Master.Login.{handle_login, handle_key}
use qsp.Peers.Master.Session.{handle_config, should_answer}
use qsp.Peers.Master.Handle.{act}
use qsp.Peers.Master.Datagrams.{handle-joins, sent}
use qsp.Hbp.Parse.Written.{IsWritten}
use qsp.Peers.Master.Newcomer.{login-joins}
use qsp.Peers.Master.Sweep.{new_master}
use qsp.Peers.Master.Steps.{Input, Steps}
use qsp.Peers.Master.Refines.{act-Steps}
use qsp.Peers.Master.Runs.{Happening, IsSound, received, swept, sent_to, run, run-stations}
use qsp.Peers.Master.Proven.{run-Proved}
use qsp.Peers.Master.Proven.Entries.{Proved}
use qsp.Peers.Master.Station.{Ends, Holds, act-Holds}
use qsp.Peers.Master.Frames.{IsCarried, IsWelcome, SameVoice, act-frame, act-welcome}
use qsp.Peers.Master.Joins.{IsRegistered, MayJoin, login-rejoins}
use qsp.Peers.Master.Answers.{Query, answers, answers-unbounded, should_answer_unbounded}
use qsp.Peers.Master.Answers.Interval.{after, answer-once}

abbrev anyone : AccessList
anyone = record { mode = permit; spans = record { lo = 0; hi = 2 ^ 32 - 1 } ∷ [] }

-- A digest that can be computed here.
abbrev hash : Bytes → Bytes
hash b = b

abbrev settings : MasterConfig ℕ
settings = record {
  password = λ id. some (codes "pw");
  peer_timeout = 15;
  login_timeout = 30;
  max_peers = 2;
  subscriber_timeout = 7200;
  subscription = record { enabled = false; timeout = 900; static = [] };
  registration = anyone;
  subscriber = anyone;
  identity = none;
  is_qsp_link = none;
  own_password = none;
}

abbrev fresh : Master ℕ
fresh = record {
  cfg = settings;
  peers = [];
  waiting = 0;
  half_open = [];
  subscribers = [];
  attachments = [];
  logins = record { max = 3; lockout = 100; attempts = [] };
  claimed_ids = [];
  evicted = [];
  answered_unregistered = [];
}

begins : new_master settings (pos 3) (pos 100) ≡ fresh
unfolding new_master qsp.Peers.Attachments.seed_static qsp.Peers.Attempts.new_throttle
begins = refl

abbrev home : AddrPort
home = record { ip = 10; port = 62031 }

abbrev away : AddrPort
away = record { ip = 11; port = 62031 }

abbrev nonce : Bytes
nonce = 1 ∷ 2 ∷ 3 ∷ 4 ∷ []

abbrev reply : Key
reply = record { repeater_id = 312001; digest = nonce ++ codes "pw" }

abbrev setup : Config
setup = record {
  repeater_id = 312001;
  callsign = codes "KD8EYF";
  rx_freq = codes "439000000";
  tx_freq = codes "430000000";
  tx_power = codes "01";
  color_code = codes "01";
  latitude = codes "41.1";
  longitude = codes "-81.5";
  height = codes "10";
  location = codes "Ohio";
  description = [];
  slots = codes "3";
  url = [];
  software_id = [];
  package_id = [];
}

abbrev input : Message ℕ → AddrPort → ℕ → Input ℕ
input m from now = record { message = m; from = from; salt = some nonce; now = now }

-- A login from its first message on.
abbrev whole : List (Happening ℕ)
whole =
    received (input (login 312001) home 1)
    ∷ received (input (key reply) home 2)
    ∷ received (input (Parse.config setup) home 3)
    ∷ sent_to 312001
    ∷ swept 10
    ∷ []

abbrev station : Peer
station = record {
  id = 312001;
  addr = home;
  state = configured;
  config = some setup;
  salt = 0 ∷ 0 ∷ 0 ∷ 0 ∷ [];
  first_seen = 1;
  last_heard = 3;
  configured_at = some 3;
  calls_1 = [];
  calls_2 = [];
  relogins = [];
  received = 0;
  sent = 1;
  refused_count = 0;
  last_traffic = none;
  refused = no_refused;
}

logs_in : find (run hash fresh whole) 312001 ≡ some station
unfolding qsp.Prelude.Map.lookup run qsp.Peers.Master.Sweep.expire_peers
    qsp.Peers.Master.Sweep.remove_all qsp.Prelude.Sort.sort qsp.Peers.Master.Sweep.stale
    qsp.Peers.Master.Sweep.count_sent act handle_config handle_key locked handle_login
    qsp.Access.allows qsp.Peers.Master.Login.challenge qsp.Prelude.Map.put is_challenged
    qsp.Hbp.Control.verify_digest qsp.Prelude.Text.text_eq qsp.Peers.Master.Sweep.is_stale
    qsp.Peers.Peer.can_pass_traffic qsp.Peers.Master.Sweep.sweep_rest
logs_in = refl

fresh-IsSound : IsSound 2 fresh
unfolding qsp.Prelude.Map.Keys.count
fresh-IsSound = record {
  limited = refl;
  is_counted = record { keyed = tt; counted = refl; roomy = omega arith };
}

act-Steps_example :
    Steps hash settings
      (input (login 312001) home 1)
      []
      0
      (act hash fresh (login 312001) home (some nonce) 1).0.peers
      (act hash fresh (login 312001) home (some nonce) 1).0.waiting
act-Steps_example = act-Steps hash fresh (input (login 312001) home 1)

run-stations_example : IsSound 2 (run hash fresh whole) × (stations (run hash fresh whole) ≤ 2)
run-stations_example = run-stations 2 hash whole fresh fresh-IsSound

run-Proved_example : Proved hash settings.password (λ i. In (received i) whole) 312001 home
unfolding is_challenged
run-Proved_example = run-Proved hash fresh whole 312001 station refl logs_in refl

abbrev serving : Master ℕ
serving = record fresh { peers = (312001, station) ∷ [] }

abbrev forged : Input ℕ
forged = input (key (record { repeater_id = 312001; digest = codes "guess" })) away 20

act-Holds_example :
    Holds 312001 station (act hash serving forged.message away (some nonce) 20).0.peers
    ⊎ Ends hash settings forged 312001 station
unfolding qsp.Prelude.Map.lookup is_challenged
act-Holds_example = act-Holds hash serving forged 312001 station refl refl

abbrev voice : Data
voice = record {
  sequence = 5;
  source_id = 3_120_001;
  target_id = 91;
  repeater_id = 312001;
  timeslot = 2;
  call_type = 0;
  frame_type = 0;
  data_type = 1;
  stream_id = 77;
  payload = [];
  trailing = [];
}

abbrev spoken : Input ℕ
spoken = input (data_frame voice) home 20

voice-IsWelcome : IsWelcome hash serving voice home
unfolding qsp.Prelude.Map.lookup qsp.Peers.Peer.can_pass_traffic qsp.Access.allows
voice-IsWelcome = record {
  station = station;
  registered = refl;
  ready = refl;
  at_home = refl;
  permitted = refl;
}

routes : (act hash serving (data_frame voice) home (some nonce) 20).1.frame ≡ some voice
unfolding act qsp.Peers.Master.Session.handle_data qsp.Prelude.Map.lookup
    qsp.Peers.Peer.can_pass_traffic qsp.Access.allows qsp.Peers.Continuation.continuing
    qsp.Hbp.Data.is_user_data qsp.Peers.Continuation.continue_on
routes = refl

act-frame_example : IsCarried hash serving spoken voice
act-frame_example = act-frame hash serving spoken voice routes

act-welcome_example :
    (g : Data) × ((act hash serving (data_frame voice) home (some nonce) 20).1.frame ≡ some g)
    × SameVoice voice g
act-welcome_example = act-welcome hash serving spoken voice refl voice-IsWelcome

away-MayJoin : MayJoin serving 312001 away (codes "pw") 20
unfolding locked qsp.Prelude.Map.lookup qsp.Access.allows
away-MayJoin = record {
  unlocked = refl;
  nonzero = omega arith;
  unreserved = omega arith;
  permitted = refl;
  has_secret = refl;
}

login-rejoins_example :
    IsRegistered
      (handle_config
        (handle_key hash
          (handle_login serving 312001 away (some nonce) 20).0
          (record { repeater_id = 312001; digest = digest hash nonce (codes "pw") })
          away
          25).0
        setup
        away
        26).0
      312001
      away
unfolding locked qsp.Prelude.Map.lookup is_challenged
login-rejoins_example =
    login-rejoins hash serving setup station away nonce (codes "pw") 20 25 26 away-MayJoin refl refl
      refl (omega arith)

home-MayJoin : MayJoin fresh 312001 home (codes "pw") 1
unfolding locked qsp.Prelude.Map.lookup qsp.Access.allows
home-MayJoin = record {
  unlocked = refl;
  nonzero = omega arith;
  unreserved = omega arith;
  permitted = refl;
  has_secret = refl;
}

login-joins_example :
    IsRegistered
      (handle_config
        (handle_key hash
          (handle_login fresh 312001 home (some nonce) 1).0
          (record { repeater_id = 312001; digest = digest hash nonce (codes "pw") })
          home
          2).0
        setup
        home
        3).0
      312001
      home
unfolding locked qsp.Prelude.Map.lookup
login-joins_example =
    login-joins hash fresh setup home nonce (codes "pw") 1 2 3 home-MayJoin refl refl (omega arith)
      (omega arith)

-- JSON that is not asked for here, and a digest of 32 bytes that can be computed.
abbrev numbers : Json ℕ
numbers = record { blank = 0; unmarshal = λ b. none; marshal_json = λ n. [] }

abbrev fitted : ℕ → Bytes → Bytes
fitted zero b = []
fitted (suc n) [] = 0 ∷ fitted n []
fitted (suc n) (x ∷ b) = x ∷ fitted n b

length-fitted : (n : ℕ) (b : Bytes) → length (fitted n b) ≡ n
length-fitted zero b = refl
length-fitted (suc n) [] = omega (arith, length-fitted n [])
length-fitted (suc n) (x ∷ b) = omega (arith, length-fitted n b)

abbrev hash32 : Bytes → Bytes
hash32 b = fitted 32 b

setup-IsWritten : IsWritten numbers (Parse.config setup)
unfolding qsp.Hbp.Config.trim_spaces
setup-IsWritten = ground arith

handle-joins_example :
    IsRegistered
      (sent numbers hash32
        (sent numbers hash32
          (sent numbers hash32 fresh (login 312001) home (some nonce) 1)
          (key (record { repeater_id = 312001; digest = digest hash32 nonce (codes "pw") }))
          home
          none
          2)
        (Parse.config setup)
        home
        none
        3)
      312001
      home
unfolding locked qsp.Prelude.Map.lookup
handle-joins_example =
    handle-joins numbers hash32 fresh setup home nonce (codes "pw") 1 2 3 (length-fitted 32)
      setup-IsWritten home-MayJoin refl refl (omega arith) (omega arith)

abbrev queries : List Query
queries = (7, 1) ∷ (8, 2) ∷ (7, 3) ∷ (7, 6_000_000_000) ∷ []

answers_these : answers should_answer [] queries ≡ true ∷ true ∷ false ∷ true ∷ []
unfolding answers should_answer qsp.Peers.Master.Session.is_suppressed qsp.Prelude.Map.lookup
    qsp.Prelude.Map.put
answers_these = refl

answers-unbounded_example :
    answers should_answer [] queries ≡ answers should_answer_unbounded [] queries
answers-unbounded_example =
    answers-unbounded queries 0 (omega arith, (omega arith, (omega arith, (omega arith, tt))))

answer-once_example : (should_answer (after (should_answer [] 7 1).0 ((8, 2) ∷ [])) 7 9).1 ≡ false
unfolding should_answer qsp.Peers.Master.Session.is_suppressed qsp.Prelude.Map.lookup
answer-once_example = answer-once [] ((8, 2) ∷ []) 7 1 9 refl (omega arith, tt) (omega arith)
