-- ===== src/Routing/Core/Spares.antt =====
-- routeScoped leaves a destination that another transmission uses to that transmission.
use qsp.Prelude.{
  ℕ, ◌≡◌, ◌≢◌, ◌⊎◌, inl, inr, refl, Bool, false, ◌&&◌, none, some, List, [], ◌∷◌, if◌then◌else◌,
  arith, Bool-cases, Option-cases,
}
use qsp.Prelude.Map.{lookup}
use qsp.Prelude.Text.{Text}
use qsp.Hbp.Data.{Data, is_terminator}
use qsp.Routing.Endpoint.{Endpoint, endpoint_eq}
use qsp.Routing.Table.{Decision, route}
use qsp.Routing.Reservation.{
  source_eq, Reservation, Busy, Carrying, contend, timed_out, duplicate, holds_any,
}
use qsp.Routing.Core.{Core, Network, talkgroup_allowed}
use qsp.Routing.Core.Outgoing.{RouteTarget}
use qsp.Routing.Core.Find.{
  not_heard, Result, Targets, stop, targets, find_targets, private_targets, unlocated_result,
  only_peers, silent, ResultReason, nothing_configured, by_table, already_carried,
  talkgroup_not_permitted,
}
use qsp.Routing.Core.Scoped.{
  source_of, carry, carry_new, no_target, route_scoped, begin, withheld_drops, first_bridge,
}
use qsp.Routing.Core.Holds.{HeldByOther, Takes-HeldByOther, source_eq_iff}
use qsp.Routing.Core.Claiming.{claim-Takes, reserve_origin-Takes, release-HeldByOther}
use qsp.Routing.Core.Loop.{deliver_all-keeps}
use qsp.Routing.Core.ByClaims.{busy-Steps}

-- The result of a frame sends nothing, and says that nothing judged the frame only of a private call
-- to a radio that was not heard.
pub record IsSilent (frame : Data) (res : Result) : Type 0 where
  pub no_deliveries : res.deliveries ≡ []
  pub no_upstreams : res.upstreams ≡ []
  pub no_transcoders : res.transcoders ≡ []
  pub judged :
      (res.no_homebrew_destination ≡ false)
      ⊎ ((frame.call_type ≡ 1) × (res.reason ≡ some (not_heard frame.target_id)))

Targets-cases :
    (t : Targets)
    → ((res : Result) × (t ≡ stop res))
      ⊎ ((found : List RouteTarget) × (unlocated : Bool) × (t ≡ targets found unlocated))
Targets-cases (stop res) = inl (res, refl)
Targets-cases (targets found unlocated) = inr (found, unlocated, refl)

pub List-cases :
    (xs : List RouteTarget)
    → (xs ≡ []) ⊎ ((t : RouteTarget) × (ts : List RouteTarget) × (xs ≡ t ∷ ts))
List-cases [] = inl refl
List-cases (t ∷ ts) = inr (t, ts, refl)

find_targets-IsSilent :
    (c : Core) (net : Network) (origin : Endpoint) (frame : Data) (d : Decision) (res : Result)
    → find_targets c net origin frame d ≡ stop res
    → IsSilent frame res
unfolding find_targets private_targets unlocated_result
find_targets-IsSilent c net origin frame d res h = ground arith

silent-IsSilent : (frame : Data) (why : ResultReason) → IsSilent frame (silent why)
silent-IsSilent frame why = record {
  no_deliveries = refl;
  no_upstreams = refl;
  no_transcoders = refl;
  judged = inl refl;
}

no_target-IsSilent :
    (lower : Text → Text) (equal_fold : Text → Text → Bool) (frame : Data) (d : Decision)
    → IsSilent frame (no_target lower equal_fold d)
unfolding no_target
no_target-IsSilent lower equal_fold frame d = elim (Option-cases d.reason) [
  | inl e ↦ rw e (silent-IsSilent frame nothing_configured)
  | inr (why, e) ↦ rw e (silent-IsSilent frame (by_table why))
]

module _ (lower : Text → Text) (equal_fold : Text → Text → Bool) (c : Core) (net : Network)
    (origin : Endpoint) (frame : Data) (now : ℕ) (local : Bool) where
  -- routeScoped sends nothing and changes at most who carries what, or goes through the loop.
  pub route_scoped-cases :
      (Q : Core × Result → Type 0)
      → ((m : Carrying) (res : Result) → IsSilent frame res → Q (record c { carrying = m }, res))
      → ((m : Carrying) (found : List RouteTarget) (unlocated : Bool)
          → duplicate c.timeout c.carrying frame (source_of origin frame) now ≡ (m, none)
          → Q (
              carry lower equal_fold
                (record c { carrying = m })
                net
                origin
                frame
                (route c.table origin)
                found
                unlocated
                local
                now))
      → Q (route_scoped lower equal_fold c net origin frame now local)
  unfolding route_scoped carry_new
  route_scoped-cases Q quiet loop =
      elim (Bool-cases (talkgroup_allowed c.access frame origin.timeslot origin.talkgroup)) [
        | inr off ↦ rw off (
            quiet c.carrying _
              (silent-IsSilent frame (talkgroup_not_permitted origin.talkgroup origin.timeslot)))
        | inl on ↦ elim (Targets-cases (find_targets c net origin frame (route c.table origin))) [
          | inl (res, e) ↦
              rw (on, e)
                (quiet c.carrying res
                  (find_targets-IsSilent c net origin frame (route c.table origin) res e))
          | inr (found, unlocated, e) ↦
              elim (List-cases (if local then only_peers found else found)) [
                | inl n ↦
                    rw (on, e, n)
                      (quiet c.carrying _
                        (no_target-IsSilent lower equal_fold frame (route c.table origin)))
                | inr (t, ts, n) ↦
                    let seen = duplicate c.timeout c.carrying frame (source_of origin frame) now in
                    rw (on, e, n)
                      (elim (Option-cases seen.1) [
                        | inl d ↦
                            rw (carry_new, d) (loop seen.0 (t ∷ ts) unlocated (λ i. (seen.0, d i)))
                        | inr (holder, d) ↦
                            rw (carry_new, d)
                              (quiet seen.0 _ (silent-IsSilent frame (already_carried holder)))
                      ])
              ]
        ]
      ]

  module _ (k : Endpoint) (held : Reservation) where
    abbrev Spared : Busy → Type 0
    Spared busy = HeldByOther c.timeout now (source_of origin frame) k held busy

    carry-HeldByOther :
        (m : Carrying) (found : List RouteTarget) (unlocated : Bool)
        → Spared c.busy
        → Spared
            (carry lower equal_fold
              (record c { carrying = m })
              net
              origin
              frame
              (route c.table origin)
              found
              unlocated
              local
              now).0.busy
    unfolding carry
    carry-HeldByOther m found unlocated h =
        let src = source_of origin frame in
        let start =
          Takes-HeldByOther c.timeout now src c.busy (contend origin) _ k held
            (reserve_origin-Takes c.timeout c.busy src frame
              (first_bridge (route c.table origin).bridges) origin now)
            h in
        let after =
          deliver_all-keeps (record c { carrying = m }) net _ lower equal_fold (λ r. Spared r.busy)
            (busy-Steps (record c { carrying = m }) net _ Spared
              (λ busy dest q.
                Takes-HeldByOther c.timeout now src busy (contend dest) _ k held
                  (claim-Takes c.timeout busy src frame _ dest now) q)
              lower equal_fold)
            (begin _ (withheld_drops origin.transcoder (route c.table origin).withheld)) found
            start in
        elim (Bool-cases (is_terminator frame && holds_any c.busy src)) [
          | inl ended ↦ rw ended (release-HeldByOther c.timeout now src _ k held after)
          | inr on ↦ rw on after
        ]

    -- A reservation of another transmission that has not timed out is the same after a frame is
    -- routed, whatever the frame, its origin and its targets.
    pub route_scoped-spares :
        lookup endpoint_eq c.busy k ≡ some held
        → held.source ≢ source_of origin frame
        → timed_out c.timeout held.last_seen now ≡ false
        → lookup endpoint_eq (route_scoped lower equal_fold c net origin frame now local).0.busy k
          ≡ some held
    route_scoped-spares there other live =
        (route_scoped-cases (λ (p : Core × Result). Spared p.0.busy) (λ m res s. start)
          (λ m found unlocated d. carry-HeldByOther m found unlocated start)).at_key
      where
        start : Spared c.busy
        start = record {
          at_key = there;
          is_other = elim (Bool-cases (source_eq held.source (source_of origin frame))) [
            | inl same ↦
                absurd (other ((source_eq_iff held.source (source_of origin frame)).0 same))
            | inr n ↦ n
          ];
          is_live = live;
        }
