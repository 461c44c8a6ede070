-- ===== src/Routing/Core/Outgoing.antt =====
-- internal/routing/core.go, its third part: what a frame is sent as, what is dropped, and what the
-- loop over the targets carries.
use qsp.Prelude.{ℕ, Bool, false, Option, none, some, List, concat}
use qsp.Prelude.Text.{Text}
use qsp.Hbp.Data.{Data}
use qsp.Routing.Endpoint.{Endpoint}
use qsp.Routing.Reservation.{SourceKey, Reservation, Busy}

pub record Delivery : Type 0 where
  pub peer : ℕ
  pub frame : Data
  pub bridge : Text

pub record UpstreamDelivery : Type 0 where
  pub upstream : Text
  pub frame : Data
  pub bridge : Text

pub record TranscoderDelivery : Type 0 where
  pub transcoder : Text
  pub frame : Data
  pub bridge : Text

pub record RouteTarget : Type 0 where
  pub endpoint : Endpoint
  pub repeat : Bool

pub record Contention : Type 0 where
  pub holder : SourceKey
  pub refused_source : SourceKey
  pub talkgroup : ℕ

pub data DropReason : Type 0 where
  not_opted_in : ℕ → Text → DropReason
  came_from_there : Text → DropReason
  link_to_other_network : Text → DropReason
  talkgroup_refused : ℕ → ℕ → DropReason
  not_attached : ℕ → ℕ → ℕ → DropReason
  slot_taken : ℕ → SourceKey → DropReason
  upstream_taken : SourceKey → DropReason
  transcoder_taken : Text → ℕ → SourceKey → DropReason

pub record Drop : Type 0 where
  pub to : Endpoint
  pub reason : DropReason
  pub not_a_judgement : Bool
  pub not_a_collision : Bool
  pub contention : Option Contention

unfoldable pub plain_drop : Endpoint → DropReason → Drop
plain_drop to reason = record {
  to = to;
  reason = reason;
  not_a_judgement = false;
  not_a_collision = false;
  contention = none;
}

-- The source's keyOver.
unfoldable pub key_over : Endpoint → Reservation → SourceKey → DropReason → Drop
unfolding plain_drop
key_over to held src reason = record (plain_drop to reason) {
  contention =
      some (record {
        holder = held.source;
        refused_source = src;
        talkgroup = held.endpoint.talkgroup;
      });
}

-- What one call of routeScoped does not change in its loop.
pub record Call : Type 0 where
  pub origin : Endpoint
  pub frame : Data
  pub source : SourceKey
  pub bridge : Text
  pub now : ℕ
  pub linked_peers : List ℕ

-- What the loop carries: the reservations, the lists of the result, and the peers served.
pub record Run : Type 0 where
  pub busy : Busy
  pub deliveries : List Delivery
  pub upstreams : List UpstreamDelivery
  pub transcoders : List TranscoderDelivery
  pub drops : List Drop
  pub started_streams : List Endpoint
  pub delivered : List ℕ

unfoldable pub drop_frame : Run → Drop → Run
drop_frame r d = record r { drops = concat r.drops d }
