-- ===== src/Peers/Master/Proven/Entries.antt =====
-- What an entry of the registry stands for, and the steps of the protocol.
use mathlib.Core.Path.{subst}
use qsp.Prelude.{ℕ, ◌≡◌, refl, sym, ap, ◌∙◌, true, false, Option, some, All, ==_iff}
use qsp.Prelude.Bytes.{Bytes}
use qsp.Prelude.Map.{lookup, put}
use qsp.Prelude.Map.Keys.{AllEntries, AllEntries-delete, AllEntries-lookup, AllEntries-put}
use qsp.Hbp.Control.{Key, verify_digest}
use qsp.Hbp.Parse.{key, login}
use qsp.Peers.Peer.{AddrPort, Peer, Relogin, is_challenged, offer_relogin}
use qsp.Peers.Peer.Relogins.{
  All-offer_relogin, All-without_relogin, addr_port_eq_iff, find_relogin-All,
}
use qsp.Peers.Subscribers.{id_eq}
use qsp.Peers.Master.{MasterConfig, Registry}
use qsp.Peers.Master.Steps.{
  Input, IsChallenge, IsProof, SameLogin, Step, Steps, authenticates, done, entered, forgotten,
  moved, next, offered, promoted, rechallenged, taken, touched,
}

module _ {F : Type 0} (sha256 : Bytes → Bytes) (password : ℕ → Option Bytes)
    (Seen : Input F → Type 0) where
  -- A login for the ID has come from the address, and the salt was generated for it.
  pub record Challenged (id : ℕ) (addr : AddrPort) (salt : Bytes) : Type 0 where
    pub request : Input F
    pub seen : Seen request
    pub asked : request.message ≡ login id
    pub generated : request.salt ≡ some salt
    pub asked_from : request.from ≡ addr

  -- The digest of the ID's password with a salt generated for that address has come from it.
  pub record Proved (id : ℕ) (addr : AddrPort) : Type 0 where
    pub reply : Input F
    pub seen_reply : Seen reply
    pub answer : Key
    pub secret : Bytes
    pub salt : Bytes
    pub answered : reply.message ≡ key answer
    pub of_id : answer.repeater_id ≡ id
    pub answered_from : reply.from ≡ addr
    pub known : password id ≡ some secret
    pub verified : verify_digest sha256 salt secret answer.digest ≡ true
    pub of_challenge : Challenged id addr salt

  -- What an entry stands for.
  pub record IsEarned (id : ℕ) (p : Peer) : Type 0 where
    pub waiting_asked : is_challenged p.state ≡ true → Challenged id p.addr p.salt
    pub in_proved : is_challenged p.state ≡ false → Proved id p.addr
    pub beside_asked : All (λ (c : Relogin). Challenged id c.addr c.salt) p.relogins

  pub record Earned (r : Registry) : Type 0 where
    pub every : AllEntries IsEarned r

  module _ (cfg : MasterConfig F) (i : Input F) (known : cfg.password ≡ password)
      (seen : Seen i) where
    was_asked :
        {id : ℕ} {salt : Bytes} → IsChallenge sha256 cfg i id salt → Challenged id i.from salt
    was_asked c = record {
      request = i;
      seen = seen;
      asked = c.asked;
      generated = c.generated;
      asked_from = refl;
    }

    was_answered :
        {id : ℕ} {salt : Bytes} (addr : AddrPort)
        → IsProof sha256 cfg i id salt
        → i.from ≡ addr
        → Challenged id addr salt
        → Proved id addr
    was_answered {id} {salt} addr p from c = record {
      reply = i;
      seen_reply = seen;
      answer = p.answer;
      secret = p.secret;
      salt = salt;
      answered = p.sent;
      of_id = p.of_id;
      answered_from = from;
      known = ap (λ (f : ℕ → Option Bytes). f id) (sym known) ∙ p.known;
      verified = p.verified;
      of_challenge = c;
    }

    IsEarned-alike : {id : ℕ} (p q : Peer) → SameLogin p q → IsEarned id p → IsEarned id q
    IsEarned-alike p q s h = record {
      waiting_asked =
          λ w. rw (s.same_addr, s.same_salt) (h.waiting_asked (rw (← s.same_progress) w));
      in_proved = λ n. rw s.same_addr (h.in_proved (rw (← s.same_progress) n));
      beside_asked = rw s.same_relogins h.beside_asked;
    }

    entry_stands :
        {r : Registry} {id : ℕ} {p : Peer} → Earned r → lookup id_eq r id ≡ some p → IsEarned id p
    entry_stands {r} {id} {p} h e = AllEntries-lookup id_eq ==_iff IsEarned r id p h.every e

    put-Earned :
        {r : Registry} {id : ℕ} (q : Peer) → Earned r → IsEarned id q → Earned (put id_eq r id q)
    put-Earned {r} {id} q h k = record {
      every = AllEntries-put id_eq ==_iff IsEarned r id q h.every k;
    }

    Step-Earned : {r r' : Registry} {w w' : ℕ} → Step sha256 cfg i r w r' w' → Earned r → Earned r'
    unfolding is_challenged
    Step-Earned {r} (forgotten id p e why f g) h =
        rw f (record { every = AllEntries-delete id_eq IsEarned r id h.every })
    Step-Earned (touched id p q e s f g) h =
        rw f (put-Earned q h (IsEarned-alike p q s (entry_stands h e)))
    Step-Earned (entered id salt e c f g) h = rw f (
        put-Earned _ h
          (record { waiting_asked = λ w. was_asked c; in_proved = λ n. cc; beside_asked = tt }))
    Step-Earned (rechallenged id salt p q e c y s f g) h =
        let old = entry_stands h e in
        let again = record p { addr = i.from; salt = salt } in
        rw f (
          put-Earned q h (
            IsEarned-alike again q s (record {
              waiting_asked = λ w. was_asked c;
              in_proved = λ n. cc;
              beside_asked = old.beside_asked;
            })))
    Step-Earned (offered id salt p e c f g) h =
        let old = entry_stands h e in
        rw f (
          put-Earned _ h (
            unfold offer_relogin in
            record {
              waiting_asked = old.waiting_asked;
              in_proved = old.in_proved;
              beside_asked =
                  All-offer_relogin (λ b. Challenged id b.addr b.salt) p i.from salt i.now
                    cfg.login_timeout old.beside_asked (was_asked c);
            }))
    Step-Earned (taken id p e f g) h =
        let old = entry_stands h e in
        rw f (
          put-Earned _ h (record {
            waiting_asked = old.waiting_asked;
            in_proved = old.in_proved;
            beside_asked =
                All-without_relogin (λ b. Challenged id b.addr b.salt) p.relogins i.from
                  old.beside_asked;
          }))
    Step-Earned (promoted id p n rest e y k f g) h =
        let beside =
          subst (All (λ (b : Relogin). Challenged id b.addr b.salt)) k
            (entry_stands h e).beside_asked in
        rw f (
          put-Earned _ h (record {
            waiting_asked = λ w. beside.0;
            in_proved = λ n. cc;
            beside_asked = beside.1;
          }))
    Step-Earned (authenticates id p q e y here proof s a l room f g) h =
        let old = entry_stands h e in
        let at_home = (addr_port_eq_iff p.addr i.from).0 here in
        rw f (
          put-Earned q h (record {
            waiting_asked = λ w. cc;
            in_proved = λ n. rw a (was_answered p.addr proof (sym at_home) (old.waiting_asked y));
            beside_asked = rw l old.beside_asked;
          }))
    Step-Earned (moved id p q c e found proof s a l room f g) h =
        let old = entry_stands h e in
        let (asked, there) =
          find_relogin-All (λ b. Challenged id b.addr b.salt) p.relogins i.from c old.beside_asked
            found in
        rw f (
          put-Earned q h (record {
            waiting_asked = λ w. cc;
            in_proved = λ n. rw a (was_answered i.from proof refl (rw (← there) asked));
            beside_asked = rw l tt;
          }))

    pub Steps-Earned :
        {r : Registry} {w : ℕ} {r' : Registry} {w' : ℕ}
        → Earned r
        → Steps sha256 cfg i r w r' w'
        → Earned r'
    Steps-Earned h done = h
    Steps-Earned h (next t u) = Step-Earned u (Steps-Earned h t)
