-- ===== src/Peers/Peer/Relogins.antt =====
-- What holds of every challenge that is kept beside a registration.
use qsp.Prelude.{
  ℕ, ◌-◌, ◌≤◌, ◌≡◌, true, not, ◌&&◌, none, some, List, [], ◌∷◌, arith, All, All-concat, All-drop,
  ==_iff, if◌then◌else◌, Bool-cases, inl, inr, ◌↔◌, leb, length, drop, length-append, length-drop,
}
use qsp.Prelude.Bytes.{Bytes}
use qsp.Peers.Peer.{
  AddrPort, Peer, Relogin, addr_port_eq, find_relogin, kept_relogins, max_relogins, offer_relogin,
  take_relogin, without_relogin,
}

pub addr_port_eq_iff : (a b : AddrPort) → (addr_port_eq a b ≡ true) ↔ (a ≡ b)
addr_port_eq_iff a b = ground (arith, ==_iff a.ip b.ip, ==_iff a.port b.port)

module _ (P : Relogin → Type 0) where
  All-kept_relogins :
      (rs : List Relogin) (from : AddrPort) (now timeout : ℕ)
      → All P rs
      → All P (kept_relogins rs from now timeout)
  unfolding kept_relogins
  All-kept_relogins [] from now timeout h = tt
  All-kept_relogins (r ∷ rs) from now timeout h =
      elim (Bool-cases (not (addr_port_eq r.addr from) && leb (now - r.at) timeout)) [
        | inl y ↦ rw (y, kept_relogins) (h.0, All-kept_relogins rs from now timeout h.1)
        | inr n ↦ rw (n, kept_relogins) (All-kept_relogins rs from now timeout h.1)
      ]

  All-room :
      (kept : List Relogin)
      → All P kept
      → All P (if leb max_relogins (length kept) then drop 1 kept else kept)
  All-room kept h = elim (Bool-cases (leb max_relogins (length kept))) [
    | inl y ↦ rw y (All-drop P 1 kept h)
    | inr n ↦ rw n h
  ]

  pub All-offer_relogin :
      (p : Peer) (from : AddrPort) (salt : Bytes) (now timeout : ℕ)
      → All P p.relogins
      → P (record { addr = from; salt = salt; at = now })
      → All P (offer_relogin p from salt now timeout).relogins
  unfolding offer_relogin
  All-offer_relogin p from salt now timeout h new =
      All-concat P _ _ (All-room _ (All-kept_relogins p.relogins from now timeout h)) new

  pub All-without_relogin :
      (rs : List Relogin) (from : AddrPort) → All P rs → All P (without_relogin rs from)
  unfolding without_relogin
  All-without_relogin [] from h = tt
  All-without_relogin (r ∷ rs) from h = elim (Bool-cases (addr_port_eq r.addr from)) [
    | inl y ↦ rw (y, without_relogin) h.1
    | inr n ↦ rw (n, without_relogin) (h.0, All-without_relogin rs from h.1)
  ]

  pub find_relogin-All :
      (rs : List Relogin) (from : AddrPort) (c : Relogin)
      → All P rs
      → find_relogin rs from ≡ some c
      → P c × (c.addr ≡ from)
  unfolding find_relogin
  find_relogin-All [] from c h e = cc
  find_relogin-All (r ∷ rs) from c h e = elim (Bool-cases (addr_port_eq r.addr from)) [
    | inl y ↦
        let same : r ≡ c = ground (arith, y) in
        rw (← same) (h.0, (addr_port_eq_iff r.addr from).0 y)
    | inr n ↦ find_relogin-All rs from c h.1 (ground (arith, n))
  ]

length-kept_relogins :
    (rs : List Relogin) (from : AddrPort) (now timeout : ℕ)
    → length (kept_relogins rs from now timeout) ≤ length rs
unfolding kept_relogins
length-kept_relogins [] from now timeout = omega arith
length-kept_relogins (r ∷ rs) from now timeout =
    ground (arith, length-kept_relogins rs from now timeout)

-- No more challenges are kept beside a registration than the limit.
length-offer_relogin :
    (p : Peer) (from : AddrPort) (salt : Bytes) (now timeout : ℕ)
    → length p.relogins ≤ max_relogins
    → length (offer_relogin p from salt now timeout).relogins ≤ max_relogins
unfolding offer_relogin
length-offer_relogin p from salt now timeout h =
    let kept = kept_relogins p.relogins from now timeout in
    let new : Relogin = record { addr = from; salt = salt; at = now } in
    ground (
      arith,
      length-kept_relogins p.relogins from now timeout,
      length-drop {0} 1 kept,
      length-append kept (new ∷ []),
      length-append (drop 1 kept) (new ∷ []),
    )

-- What takeRelogin gives.
pub take_relogin_absent :
    (p : Peer) (from : AddrPort) (now timeout : ℕ)
    → find_relogin p.relogins from ≡ none
    → take_relogin p from now timeout ≡ (p, none)
unfolding take_relogin
take_relogin_absent p from now timeout n = ground arith

pub take_relogin_found :
    (p : Peer) (from : AddrPort) (now timeout : ℕ) (c : Relogin)
    → find_relogin p.relogins from ≡ some c
    → take_relogin p from now timeout ≡ (
      record p { relogins = without_relogin p.relogins from },
      if leb (now - c.at) timeout then some c else none,
    )
unfolding take_relogin
take_relogin_found p from now timeout c found = ground arith
