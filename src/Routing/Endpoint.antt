-- ===== src/Routing/Endpoint.antt =====
-- internal/routing/routing.go, its first part: endpoints, which endpoint covers which, and the
-- permission that transcoded audio needs.
pub mod Laws
use qsp.Prelude.{
  ℕ, Bool, true, false, not, ◌&&◌, ◌||◌, Option, none, some, List, [], ◌∷◌, ltb, ◌==◌,
  if◌then◌else◌,
}
use qsp.Prelude.Text.{Text, text_eq, is_empty}

abbrev pub any_peer : ℕ
any_peer = 0

abbrev pub server_origin : ℕ
server_origin = 0xffff_ffff

pub record Endpoint : Type 0 where
  pub peer : ℕ
  pub upstream : Text
  pub transcoder : Text
  pub talkgroup : ℕ
  pub timeslot : ℕ

-- `==` on endpoints, as the keys of a map.
unfoldable pub endpoint_eq : Endpoint → Endpoint → Bool
endpoint_eq a b =
    a.peer == b.peer
    && text_eq a.upstream b.upstream
    && text_eq a.transcoder b.transcoder
    && a.talkgroup == b.talkgroup
    && a.timeslot == b.timeslot

pub data EndpointKind : Type 0 where
  kind_peer kind_upstream kind_transcoder : EndpointKind

unfoldable pub kind : Endpoint → EndpointKind
kind e =
    if not (is_empty e.transcoder)
    then kind_transcoder
    else if not (is_empty e.upstream)
    then kind_upstream
    else kind_peer

unfoldable kind_eq : EndpointKind → EndpointKind → Bool
kind_eq kind_peer kind_peer = true
kind_eq kind_upstream kind_upstream = true
kind_eq kind_transcoder kind_transcoder = true
kind_eq _ _ = false

-- The method Matches of an endpoint.
unfoldable pub matches : Endpoint → Endpoint → Bool
unfolding kind kind_eq
matches e actual =
    if not (e.talkgroup == actual.talkgroup) || not (e.timeslot == actual.timeslot)
    then false
    else if not (kind_eq (kind e) (kind actual))
    then false
    else if not (is_empty e.transcoder)
    then text_eq e.transcoder actual.transcoder
    else if not (is_empty e.upstream)
    then text_eq e.upstream actual.upstream
    else e.peer == any_peer || e.peer == actual.peer

pub data EndpointError : Type 0 where
  upstream_and_transcoder : Text → Text → EndpointError
  transcoder_and_peer : Text → ℕ → EndpointError
  upstream_and_peer : Text → ℕ → EndpointError
  talkgroup_zero : EndpointError
  bad_timeslot : ℕ → EndpointError

-- The method Validate of an endpoint; `none` is no error.
unfoldable pub validate : Endpoint → Option EndpointError
validate e =
    if not (is_empty e.upstream) && not (is_empty e.transcoder)
    then some (upstream_and_transcoder e.upstream e.transcoder)
    else if not (is_empty e.transcoder) && not (e.peer == any_peer)
    then some (transcoder_and_peer e.transcoder e.peer)
    else if not (is_empty e.upstream) && not (e.peer == any_peer)
    then some (upstream_and_peer e.upstream e.peer)
    else if e.talkgroup == 0
    then some talkgroup_zero
    else if not (e.timeslot == 1) && not (e.timeslot == 2)
    then some (bad_timeslot e.timeslot)
    else none

pub record Permission : Type 0 where
  pub peers : List ℕ
  pub all : Bool

-- The loop of Permits.
unfoldable pub lists_peer : List ℕ → ℕ → Bool
lists_peer [] peer = false
lists_peer (id ∷ ids) peer = (not (id == 0) && id == peer) || lists_peer ids peer

unfoldable pub permits : Permission → ℕ → Bool
unfolding lists_peer
permits p peer = if p.all then true else lists_peer p.peers peer

-- The order that sortEndpoints applies.
unfoldable pub endpoint_before : Endpoint → Endpoint → Bool
endpoint_before a b =
    if not (a.peer == b.peer)
    then ltb a.peer b.peer
    else if not (a.talkgroup == b.talkgroup)
    then ltb a.talkgroup b.talkgroup
    else ltb a.timeslot b.timeslot
