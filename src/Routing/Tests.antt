-- ===== src/Routing/Tests.antt =====
-- Runs of the routing table and the triggers on one small network.
use qsp.Prelude.{
  ℕ, ◌+◌, ◌≤◌, ◌<◌, ◌≡◌, ◌≢◌, ◌↔◌, ◌⊎◌, inl, inr, refl, Bool, true, false, Option, none, some, List,
  [], ◌∷◌, arith, leb, ◌&&◌, if◌then◌else◌, In, Distinct, All, map,
}
use qsp.Prelude.Int.{pos}
use qsp.Prelude.Sort.{IsSorted}
use qsp.Prelude.Text.{codes, Text}
use qsp.Routing.Endpoint.{
  Endpoint, matches, validate, Permission, permits, any_peer, endpoint_before,
}
use qsp.Routing.Table.{
  Bridge, Table, Permissions, validate_bridge, new_table, built, refused, route, Reason,
  only_disabled, Decision,
}
use qsp.Routing.Table.Collect.{Carried}
use qsp.Routing.Table.Route.{Withheld, route-targets, route-withheld, route-IsSorted}
use qsp.Routing.Table.Explain.{Explains, route-Explains, DisabledFor, route-blames_disabled}
use qsp.Routing.Trigger.{Trigger, Triggers, LastUsed, observe, expire, active_at, minute}
use qsp.Routing.Trigger.Active.{SharesHang}
use qsp.Routing.Trigger.Observe.{triggered, observe-active}
use qsp.Routing.Trigger.Expire.{expire-active, expire_forgets_early}

abbrev peer_end : ℕ → ℕ → ℕ → Endpoint
peer_end peer talkgroup timeslot = record {
  peer = peer;
  upstream = [];
  transcoder = [];
  talkgroup = talkgroup;
  timeslot = timeslot;
}

abbrev brandmeister : Endpoint
brandmeister = record {
  peer = 0;
  upstream = codes "bm";
  transcoder = [];
  talkgroup = 91;
  timeslot = 2;
}

abbrev zello : Endpoint
zello = record { peer = 0; upstream = []; transcoder = codes "zello"; talkgroup = 9; timeslot = 1 }

abbrev repeater : Endpoint
repeater = peer_end 3100 91 2

abbrev hotspot : Endpoint
hotspot = peer_end 3200 9 1

abbrev wide : Bridge
wide = record {
  name = codes "Wide";
  enabled = true;
  endpoints = repeater ∷ hotspot ∷ zello ∷ brandmeister ∷ [];
}

abbrev spare : Bridge
spare = record {
  name = codes "Spare";
  enabled = false;
  endpoints = peer_end 4000 5 1 ∷ peer_end 4001 5 1 ∷ [];
}

abbrev permissions : Permissions
permissions = (codes "zello", record { peers = 3200 ∷ []; all = false }) ∷ []

abbrev table : Table
table = record { bridges = wide ∷ spare ∷ []; permissions = permissions }

-- Audio from the transcoder reaches the hotspot that opted in and the upstream, not the repeater.
routes_transcoded : route table zello ≡ record {
  targets = brandmeister ∷ hotspot ∷ [];
  bridges = codes "Wide" ∷ [];
  reason = none;
  withheld = repeater ∷ [];
}
unfolding route qsp.Prelude.Sort.sort qsp.Routing.Table.any_matches matches qsp.Prelude.Text.text_eq
    qsp.Routing.Table.contains qsp.Routing.Endpoint.endpoint_eq qsp.Routing.Table.is_withheld
    permits endpoint_before
routes_transcoded = refl

explains_disabled :
    (route table (peer_end 4000 5 1)).reason
    ≡ some (only_disabled (peer_end 4000 5 1) (codes "Spare" ∷ []))
unfolding route qsp.Routing.Table.any_matches matches qsp.Prelude.Sort.sort
explains_disabled = refl

abbrev opted_in : Permission
opted_in = record { peers = 0 ∷ 3200 ∷ []; all = false }

route-targets_example :
    In hotspot (route table zello).targets
    ↔ (Carried table.bridges zello hotspot × (¬ Withheld table zello hotspot))
route-targets_example = route-targets table zello hotspot

route-withheld_example :
    In repeater (route table zello).withheld
    ↔ (Carried table.bridges zello repeater × Withheld table zello repeater)
route-withheld_example = route-withheld table zello repeater

route-IsSorted_example :
    Distinct (route table zello).targets × IsSorted endpoint_before (route table zello).targets
route-IsSorted_example = route-IsSorted table zello

route-Explains_example :
    Explains table (peer_end 4000 5 1) (only_disabled (peer_end 4000 5 1) (codes "Spare" ∷ []))
route-Explains_example =
    route-Explains table (peer_end 4000 5 1)
      (only_disabled (peer_end 4000 5 1) (codes "Spare" ∷ [])) explains_disabled

-- The case table of the language, on its Latin letters.
abbrev lower_latin : ℕ → ℕ
lower_latin c = if leb 65 c && leb c 90 then c + 32 else c

abbrev wakes : Trigger
wakes = record { bridge = codes "Wide"; on = repeater ∷ []; hang_time = pos 100; enabled = true }

abbrev triggers : Triggers
triggers = record { triggers = wakes ∷ []; last_used = [] }

wakes-SharesHang : SharesHang 100 (codes "Wide") triggers.triggers
unfolding qsp.Routing.Trigger.hang_of
wakes-SharesHang = (λ e. refl, tt)

observe-active_example : In (codes "Wide") (active_at (observe triggers repeater 7).0 50) ↔ (
    ((triggered repeater triggers.triggers (codes "Wide") ≡ true) × (50 ≤ 7 + 100))
    ⊎ ((triggered repeater triggers.triggers (codes "Wide") ≡ false)
        × In (codes "Wide") (active_at triggers 50)))
observe-active_example = observe-active triggers repeater 7 50 100 (codes "Wide") wakes-SharesHang

abbrev in_use : Triggers
in_use = record { triggers = wakes ∷ []; last_used = (codes "Wide", 7) ∷ [] }

expire-active_example :
    In (codes "Wide") (active_at (expire in_use 40).0 60) ↔ In (codes "Wide") (active_at in_use 60)
unfolding qsp.Prelude.Map.lookup
expire-active_example =
    expire-active in_use 40 60 100 (codes "Wide") (omega arith) (refl, tt) wakes-SharesHang

abbrev naps : Trigger
naps = record wakes { hang_time = pos 10 }

abbrev uneven : Triggers
uneven = record { triggers = wakes ∷ naps ∷ []; last_used = (codes "Wide", 7) ∷ [] }

expire_forgets_early_example :
    In (codes "Wide") (active_at uneven 50)
    × (¬ In (codes "Wide") (active_at (expire uneven 50).0 50))
unfolding qsp.Routing.Trigger.hang_of
expire_forgets_early_example =
    expire_forgets_early wakes naps 7 50 refl refl refl (omega arith) (omega arith)

-- An enabled bridge all of whose endpoints cover the source, beside a disabled one.
abbrev around : Bridge
around = record {
  name = codes "Around";
  enabled = true;
  endpoints = peer_end 0 5 1 ∷ peer_end 4000 5 1 ∷ [];
}

abbrev circular : Table
circular = record { bridges = around ∷ spare ∷ []; permissions = [] }

around-silent : (a : Endpoint) → ¬ Carried circular.bridges (peer_end 4000 5 1) a
unfolding matches
around-silent a (inl (on, m, inl e, off)) = cc
around-silent a (inl (on, m, inr (inl e), off)) = cc
around-silent a (inl (on, m, inr (inr f), off)) = absurd f
around-silent a (inr (inl (on, m, i, off))) = cc
around-silent a (inr (inr f)) = absurd f

route-blames_disabled_example :
    (names : List Text) × ((route circular (peer_end 4000 5 1)).reason
      ≡ some (only_disabled (peer_end 4000 5 1) names))
    × ((m : Text) → In m names ↔ DisabledFor circular.bridges (peer_end 4000 5 1) m)
unfolding qsp.Routing.Table.any_matches matches
route-blames_disabled_example =
    route-blames_disabled circular (peer_end 4000 5 1) around (codes "Spare") (inl refl) refl refl
      (inr (inl (refl, refl, refl))) around-silent
