-- ===== src/Peers/Master/Joins/Offered.antt =====
-- On a challenge that is kept beside a registration, and the answer to it.
use qsp.Prelude.{
  ℕ, ◌-◌, ◌≡◌, refl, ◌∙◌, true, false, not, ◌&&◌, some, List, [], ◌∷◌, arith, All, All-drop,
  Bool-cases, inl, inr, ==_iff, leb, length, concat,
}
use qsp.Prelude.Bytes.{Bytes}
use qsp.Prelude.Text.{text_eq_iff}
use qsp.Prelude.Map.{lookup, put, lookup-put}
use qsp.Hbp.Control.{digest, verify_digest}
use qsp.Peers.Peer.{
  AddrPort, Peer, Relogin, addr_port_eq, find_relogin, kept_relogins, max_relogins, offer_relogin,
}
use qsp.Peers.Peer.Relogins.{addr_port_eq_iff}
use qsp.Peers.Subscribers.{id_eq}

pub addr_port_eq_refl : (a : AddrPort) → addr_port_eq a a ≡ true
addr_port_eq_refl a = (addr_port_eq_iff a a).1 refl

pub verify_digest-digest :
    (sha256 : Bytes → Bytes) (salt secret : Bytes)
    → verify_digest sha256 salt secret (digest sha256 salt secret) ≡ true
unfolding verify_digest
verify_digest-digest sha256 salt secret = (text_eq_iff _ _).1 refl

-- The newest challenge to an address is the one that is found.
pub find_relogin-concat :
    (rs : List Relogin) (new : Relogin)
    → All (λ (r : Relogin). addr_port_eq r.addr new.addr ≡ false) rs
    → find_relogin (concat rs new) new.addr ≡ some new
unfolding find_relogin
find_relogin-concat [] new h = rw (addr_port_eq_refl new.addr) refl
find_relogin-concat (r ∷ rs) new h = rw (h.0, find_relogin) (find_relogin-concat rs new h.1)

pub kept_relogins-others :
    (rs : List Relogin) (from : AddrPort) (now timeout : ℕ)
    → All (λ (r : Relogin). addr_port_eq r.addr from ≡ false) (kept_relogins rs from now timeout)
unfolding kept_relogins
kept_relogins-others [] from now timeout = tt
kept_relogins-others (r ∷ rs) from now timeout =
    elim (Bool-cases (not (addr_port_eq r.addr from) && leb (now - r.at) timeout)) [
      | inl y ↦ rw (y, kept_relogins) (ground arith, kept_relogins-others rs from now timeout)
      | inr n ↦ rw (n, kept_relogins) (kept_relogins-others rs from now timeout)
    ]

pub find_relogin-offer_relogin :
    (p : Peer) (from : AddrPort) (salt : Bytes) (now timeout : ℕ)
    → find_relogin (offer_relogin p from salt now timeout).relogins from
      ≡ some (record { addr = from; salt = salt; at = now })
unfolding offer_relogin
find_relogin-offer_relogin p from salt now timeout =
    let kept = kept_relogins p.relogins from now timeout in
    let others = kept_relogins-others p.relogins from now timeout in
    elim (Bool-cases (leb max_relogins (length kept))) [
      | inl y ↦ rw y (find_relogin-concat _ _ (All-drop _ 1 kept others))
      | inr n ↦ rw n (find_relogin-concat _ _ others)
    ]

pub lookup-put_self :
    (r : List (ℕ × Peer)) (id : ℕ) (q : Peer) → lookup id_eq (put id_eq r id q) id ≡ some q
lookup-put_self r id q = lookup-put id_eq ==_iff r id id q ∙ rw ((==_iff id id).1 refl) refl
