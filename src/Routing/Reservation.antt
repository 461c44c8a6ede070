-- ===== src/Routing/Reservation.antt =====
-- internal/routing/core.go, its first part: who a transmission comes from, the reservations that it
-- holds and the claim of one, and the transmissions carried.
use qsp.Prelude.{
  ℕ, ◌+◌, Bool, false, not, ◌&&◌, ◌||◌, Option, none, some, List, [], ◌∷◌, ltb, ◌==◌, if◌then◌else◌,
}
use qsp.Prelude.Map.{lookup, put}
use qsp.Prelude.Text.{Text, text_eq, is_empty}
use qsp.Hbp.Data.{Data, frame_type_voice, frame_type_voice_sync}
use qsp.Routing.Endpoint.{Endpoint, endpoint_eq}

pub record SourceKey : Type 0 where
  pub peer : ℕ
  pub stream : ℕ
  pub slot : ℕ
  pub upstream : Text
  pub transcoder : Text

-- `==` on source keys.
unfoldable pub source_eq : SourceKey → SourceKey → Bool
source_eq a b =
    a.peer == b.peer
    && a.stream == b.stream
    && a.slot == b.slot
    && text_eq a.upstream b.upstream
    && text_eq a.transcoder b.transcoder

unfoldable pub same_origin : SourceKey → SourceKey → Bool
same_origin a b =
    a.peer == b.peer
    && a.slot == b.slot
    && text_eq a.upstream b.upstream
    && text_eq a.transcoder b.transcoder

pub record Reservation : Type 0 where
  pub source : SourceKey
  pub last_seen : ℕ
  pub bridge : Text
  pub voice : Bool
  pub endpoint : Endpoint

pub record StreamKey : Type 0 where
  pub source : ℕ
  pub stream : ℕ

unfoldable pub stream_eq : StreamKey → StreamKey → Bool
stream_eq a b = a.source == b.source && a.stream == b.stream

pub record Carrier : Type 0 where
  pub origin : SourceKey
  pub last_seen : ℕ

abbrev pub Carrying : Type 0
Carrying = List (StreamKey × Carrier)

abbrev pub Busy : Type 0
Busy = List (Endpoint × Reservation)

-- What is contended for at an endpoint.
unfoldable pub contend : Endpoint → Endpoint
contend e =
    if not (is_empty e.transcoder)
    then record e { talkgroup = 0; timeslot = 0 }
    else if not (is_empty e.upstream)
    then e
    else record e { talkgroup = 0 }

unfoldable pub contends_for_slot : Data → Bool
contends_for_slot frame =
    frame.frame_type == frame_type_voice || frame.frame_type == frame_type_voice_sync

-- `now.Sub(last) > c.timeout`.
unfoldable pub timed_out : ℕ → ℕ → ℕ → Bool
timed_out timeout last now = ltb (last + timeout) now

pub data Claim : Type 0 where
  started continued alongside : Claim
  refused : Reservation → Claim

unfoldable pub reserve : SourceKey → Data → Text → Endpoint → ℕ → Reservation
reserve src frame bridge dest now = record {
  source = src;
  last_seen = now;
  bridge = bridge;
  voice = contends_for_slot frame;
  endpoint = dest;
}

unfoldable pub refresh : Reservation → Data → ℕ → Reservation
refresh held frame now = record held {
  last_seen = now;
  voice = held.voice || contends_for_slot frame;
}

module _ (timeout : ℕ) (busy : Busy) (src : SourceKey) (frame : Data) (bridge : Text)
    (dest : Endpoint) (now : ℕ) where
  -- The switch on a destination's reservation, which stands in the source once for peers, once
  -- for upstreams and once for transcoders.
  unfoldable pub settle : Option Reservation → Busy × Claim
  unfolding contend contends_for_slot reserve refresh timed_out
  settle none = (put endpoint_eq busy (contend dest) (reserve src frame bridge dest now), started)
  settle (some held) =
      if not (source_eq held.source src)
        && same_origin held.source src
        && not (contends_for_slot frame)
      then (busy, alongside)
      else if not (source_eq held.source src)
      then (if not (timed_out timeout held.last_seen now)
          then (busy, refused held)
          else (put endpoint_eq busy (contend dest) (reserve src frame bridge dest now), started))
      else (put endpoint_eq busy (contend dest) (refresh held frame now), continued)

  unfoldable pub claim : Busy × Claim
  unfolding settle
  claim = settle (lookup endpoint_eq busy (contend dest))

unfoldable pub holds_any : Busy → SourceKey → Bool
holds_any [] src = false
holds_any ((key, held) ∷ busy) src = source_eq held.source src || holds_any busy src

-- The method release.
unfoldable pub release : Busy → SourceKey → Busy
release [] src = []
release ((key, held) ∷ busy) src =
    let rest = release busy src in if source_eq held.source src then rest else (key, held) ∷ rest

unfoldable pub expire_carried : ℕ → Carrying → ℕ → Carrying
expire_carried timeout [] now = []
expire_carried timeout ((key, held) ∷ m) now =
    let rest = expire_carried timeout m now in
    if timed_out timeout held.last_seen now then rest else (key, held) ∷ rest

-- The method duplicate: who already carries the transmission, if another does.
unfoldable pub duplicate : ℕ → Carrying → Data → SourceKey → ℕ → Carrying × Option SourceKey
unfolding timed_out expire_carried
duplicate timeout m frame src now =
    let key : StreamKey = record { source = frame.source_id; stream = frame.stream_id } in
    let mine : Carrier = record { origin = src; last_seen = now } in
    let first : Carrying × Option SourceKey =
      (expire_carried timeout (put stream_eq m key mine) now, none) in
    elim (lookup stream_eq m key) [
      | none ↦ first
      | some held ↦
          if source_eq held.origin src
          then (put stream_eq m key (record held { last_seen = now }), none)
          else if not (timed_out timeout held.last_seen now)
          then (m, some held.origin)
          else first
    ]

pub record Freed : Type 0 where
  pub endpoint : Endpoint
  pub voice : Bool

unfoldable pub lapsed_busy : ℕ → Busy → ℕ → List Freed
lapsed_busy timeout [] now = []
lapsed_busy timeout ((key, held) ∷ busy) now =
    let rest = lapsed_busy timeout busy now in
    if timed_out timeout held.last_seen now
    then record { endpoint = held.endpoint; voice = held.voice } ∷ rest
    else rest

unfoldable pub live_busy : ℕ → Busy → ℕ → Busy
live_busy timeout [] now = []
live_busy timeout ((key, held) ∷ busy) now =
    let rest = live_busy timeout busy now in
    if timed_out timeout held.last_seen now then rest else (key, held) ∷ rest
