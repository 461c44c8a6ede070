-- ===== src/Peers/Master/Steps.antt =====
-- The login protocol as a step relation on the registry alone: what may happen to an entry, and what
-- has to have been received for it. `waiting` goes along as the count that the master keeps.
use qsp.Prelude.{
  ℕ, ◌+◌, ◌-◌, ◌<◌, ◌≡◌, ◌⊎◌, true, false, Option, none, some, List, [], ◌∷◌, if◌then◌else◌, length,
}
use qsp.Prelude.Bytes.{Bytes}
use qsp.Prelude.Map.{lookup, put, delete}
use qsp.Hbp.Control.{Key, verify_digest}
use qsp.Hbp.Parse.{Message, key, login, repeater_close}
use qsp.Peers.Peer.{
  AddrPort, Peer, Relogin, addr_port_eq, find_relogin, is_challenged, offer_relogin,
  without_relogin,
}
use qsp.Peers.Subscribers.{id_eq}
use qsp.Peers.Master.{MasterConfig, Registry}
use qsp.Peers.Master.Login.{new_peer}

-- Whether two entries are at the same point of the login protocol.
pub record SameLogin (p q : Peer) : Type 0 where
  pub same_progress : is_challenged q.state ≡ is_challenged p.state
  pub same_addr : q.addr ≡ p.addr
  pub same_salt : q.salt ≡ p.salt
  pub same_relogins : q.relogins ≡ p.relogins
  pub same_first : q.first_seen ≡ p.first_seen

-- What is received: a message, where it came from, the salt for a challenge, and the time.
pub record Input (F : Type 0) : Type 0 where
  pub message : Message F
  pub from : AddrPort
  pub salt : Option Bytes
  pub now : ℕ

module _ {F : Type 0} (sha256 : Bytes → Bytes) (cfg : MasterConfig F) (i : Input F) where
  -- The input is a login for the ID, and the salt was generated for it.
  pub record IsChallenge (id : ℕ) (salt : Bytes) : Type 0 where
    pub asked : i.message ≡ login id
    pub generated : i.salt ≡ some salt

  -- The input holds the digest of the salt with the password of the ID.
  pub record IsProof (id : ℕ) (salt : Bytes) : Type 0 where
    pub answer : Key
    pub secret : Bytes
    pub sent : i.message ≡ key answer
    pub of_id : answer.repeater_id ≡ id
    pub known : cfg.password id ≡ some secret
    pub verified : verify_digest sha256 salt secret answer.digest ≡ true

  -- Why a message may make an entry go: the login has not got through, or the station takes leave
  -- from its own address.
  abbrev pub Leaves : ℕ → Peer → Type 0
  Leaves id p =
      (is_challenged p.state ≡ true)
      ⊎ ((i.message ≡ repeater_close id) × (addr_port_eq p.addr i.from ≡ true))

  pub data Step (r : Registry) (w : ℕ) : Registry → ℕ → Type 0 where
    -- An entry goes.
    forgotten :
        {r' : Registry} {w' : ℕ} (id : ℕ) (p : Peer)
        → lookup id_eq r id ≡ some p
        → Leaves id p
        → r' ≡ delete id_eq r id
        → w' ≡ (if is_challenged p.state then w - 1 else w)
        → Step r w r' w'
    -- An entry changes in what has no part in logging in.
    touched :
        {r' : Registry} {w' : ℕ} (id : ℕ) (p q : Peer)
        → lookup id_eq r id ≡ some p
        → SameLogin p q
        → r' ≡ put id_eq r id q
        → w' ≡ w
        → Step r w r' w'
    -- A login of an ID that is not registered.
    entered :
        {r' : Registry} {w' : ℕ} (id : ℕ) (salt : Bytes)
        → lookup id_eq r id ≡ none
        → IsChallenge id salt
        → r' ≡ put id_eq r id (new_peer id i.from salt i.now)
        → w' ≡ w + 1
        → Step r w r' w'
    -- A login that is in progress is challenged anew.
    rechallenged :
        {r' : Registry} {w' : ℕ} (id : ℕ) (salt : Bytes) (p q : Peer)
        → lookup id_eq r id ≡ some p
        → IsChallenge id salt
        → is_challenged p.state ≡ true
        → SameLogin (record p { addr = i.from; salt = salt }) q
        → r' ≡ put id_eq r id q
        → w' ≡ w
        → Step r w r' w'
    -- A challenge is kept beside the registration.
    offered :
        {r' : Registry} {w' : ℕ} (id : ℕ) (salt : Bytes) (p : Peer)
        → lookup id_eq r id ≡ some p
        → IsChallenge id salt
        → r' ≡ put id_eq r id (offer_relogin p i.from salt i.now cfg.login_timeout)
        → w' ≡ w
        → Step r w r' w'
    -- A challenge beside the registration is used up.
    taken :
        {r' : Registry} {w' : ℕ} (id : ℕ) (p : Peer)
        → lookup id_eq r id ≡ some p
        → r' ≡ put id_eq r id (record p { relogins = without_relogin p.relogins i.from })
        → w' ≡ w
        → Step r w r' w'
    -- A login in progress is given up for one that goes on beside it.
    promoted :
        {r' : Registry} {w' : ℕ} (id : ℕ) (p : Peer) (next : Relogin) (rest : List Relogin)
        → lookup id_eq r id ≡ some p
        → is_challenged p.state ≡ true
        → p.relogins ≡ next ∷ rest
        → r'
          ≡ put id_eq r id (record p {
            relogins = rest;
            addr = next.addr;
            salt = next.salt;
            last_heard = next.at;
          })
        → w' ≡ w
        → Step r w r' w'
    -- The digest is right for the challenge of the entry.
    authenticates :
        {r' : Registry} {w' : ℕ} (id : ℕ) (p q : Peer)
        → lookup id_eq r id ≡ some p
        → is_challenged p.state ≡ true
        → addr_port_eq p.addr i.from ≡ true
        → IsProof id p.salt
        → is_challenged q.state ≡ false
        → q.addr ≡ p.addr
        → q.relogins ≡ p.relogins
        → length r - w < cfg.max_peers
        → r' ≡ put id_eq r id q
        → w' ≡ w - 1
        → Step r w r' w'
    -- The digest is right for a challenge beside the registration, which moves there.
    moved :
        {r' : Registry} {w' : ℕ} (id : ℕ) (p q : Peer) (c : Relogin)
        → lookup id_eq r id ≡ some p
        → find_relogin p.relogins i.from ≡ some c
        → IsProof id c.salt
        → is_challenged q.state ≡ false
        → q.addr ≡ i.from
        → q.relogins ≡ []
        → (is_challenged p.state ≡ true → length r - w < cfg.max_peers)
        → r' ≡ put id_eq r id q
        → w' ≡ (if is_challenged p.state then w - 1 else w)
        → Step r w r' w'

  pub data Steps (r : Registry) (w : ℕ) : Registry → ℕ → Type 0 where
    done : Steps r w r w
    next :
        {r' r'' : Registry} {w' w'' : ℕ} → Steps r w r' w' → Step r' w' r'' w'' → Steps r w r'' w''
