-- ===== src/Routing/Core/Ran.antt =====
-- A property that the loop keeps, carried over to the result of routeScoped.
use qsp.Prelude.{ℕ, ◌≡◌, refl, Bool, false, List, [], arith}
use qsp.Prelude.Text.{Text}
use qsp.Hbp.Data.{Data, is_terminator}
use qsp.Routing.Endpoint.{Endpoint}
use qsp.Routing.Table.{route}
use qsp.Routing.Reservation.{Busy, Carrying}
use qsp.Routing.Core.{Core, Network}
use qsp.Routing.Core.Outgoing.{RouteTarget, Drop, Run}
use qsp.Routing.Core.Deliver.{deliver_all}
use qsp.Routing.Core.Find.{Result}
use qsp.Routing.Core.Scoped.{
  source_of, reserve_origin, carry, route_scoped, begin, withheld_drops, call_of, finish,
}
use qsp.Routing.Core.Loop.{Steps, deliver_all-keeps}
use qsp.Routing.Core.Spares.{route_scoped-cases}

-- A state of the loop with the property, whose lists are those of the result, and whose
-- reservations are those left unless the frame ends its transmission.
pub record Ran (frame : Data) (P : Run → Type 0) (p : Core × Result) : Type 0 where
  pub last : Run
  pub holds : P last
  pub deliveries_are : p.1.deliveries ≡ last.deliveries
  pub upstreams_are : p.1.upstreams ≡ last.upstreams
  pub transcoders_are : p.1.transcoders ≡ last.transcoders
  pub busy_is : is_terminator frame ≡ false → p.0.busy ≡ last.busy

pub finish-deliveries :
    (frame : Data) (unlocated : Bool) (r : Run)
    → ((finish frame unlocated r).deliveries ≡ r.deliveries)
      × ((finish frame unlocated r).upstreams ≡ r.upstreams)
      × ((finish frame unlocated r).transcoders ≡ r.transcoders)
unfolding finish
finish-deliveries frame unlocated r = ground arith

module _ (lower : Text → Text) (equal_fold : Text → Text → Bool) (c : Core) (net : Network)
    (origin : Endpoint) (frame : Data) (now : ℕ) (local : Bool) (P : Run → Type 0)
    (start : (busy : Busy) (drops : List Drop) → P (begin busy drops))
    (steps : (m : Carrying)
      → Steps
          (record c { carrying = m })
          net
          (call_of net origin frame (route c.table origin) local now)
          lower
          equal_fold
          P) where
  carry-Ran :
      (m : Carrying) (found : List RouteTarget) (unlocated : Bool)
      → Ran frame P (
          carry lower equal_fold
            (record c { carrying = m })
            net
            origin
            frame
            (route c.table origin)
            found
            unlocated
            local
            now)
  unfolding carry
  carry-Ran m found unlocated =
      let call = call_of net origin frame (route c.table origin) local now in
      let first =
        begin
          (reserve_origin c.timeout c.busy (source_of origin frame) frame call.bridge origin now)
          (withheld_drops origin.transcoder (route c.table origin).withheld) in
      let r = deliver_all (record c { carrying = m }) net call lower equal_fold first found in
      let (same, up, across) = finish-deliveries frame unlocated r in
      record {
        last = r;
        holds =
            deliver_all-keeps (record c { carrying = m }) net call lower equal_fold P (steps m)
              first found (start _ _);
        deliveries_are = same;
        upstreams_are = up;
        transcoders_are = across;
        busy_is = λ going. rw going refl;
      }

  pub route_scoped-Ran : Ran frame P (route_scoped lower equal_fold c net origin frame now local)
  route_scoped-Ran =
      route_scoped-cases lower equal_fold c net origin frame now local (Ran frame P)
        (λ m res s. record {
          last = begin c.busy [];
          holds = start c.busy [];
          deliveries_are = s.no_deliveries;
          upstreams_are = s.no_upstreams;
          transcoders_are = s.no_transcoders;
          busy_is = λ going. refl;
        })
        (λ m found unlocated d. carry-Ran m found unlocated)
