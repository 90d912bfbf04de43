-- ===== src/K8s/Examples.antt =====
-- Endpoints from two slices.
use kube_loxilb.Api.LbModel.{ep_select_eq}
use kube_loxilb.Base.{
  List, String, [], any_of, bool_eq, elem, false, nat_eq, none, refl, some, string_eq, true, ◌∷◌,
  ◌≡◌, ◌≤◌,
}
use kube_loxilb.Base.Int.{int_eq, pos}
use kube_loxilb.Base.Outcome.{ok}
use kube_loxilb.Fixture.{demo_net, demo_parse_ip}
use kube_loxilb.K8s.{EndpointSlice, get_service_endpoints}
use kube_loxilb.K8s.Endpoints.{get_service_endpoints_collects, slice_has, times}

abbrev slices : List EndpointSlice
slices =
    record {
      ports = some (pos 8080) ∷ [];
      endpoints =
          record { ready = some true; addresses = "10.1.0.1" ∷ "10.1.0.2" ∷ [] }
          ∷ record { ready = some false; addresses = "10.1.0.3" ∷ [] }
          ∷ [];
    }
    ∷ record {
      ports = some (pos 8080) ∷ none ∷ [];
      endpoints = record { ready = none; addresses = "10.1.0.2" ∷ "10.1.0.4" ∷ [] } ∷ [];
    }
    ∷ []

endpoints_met :
    get_service_endpoints demo_net (ok slices) "ipv4"
    ≡ ok ("10.1.0.1" ∷ "10.1.0.2" ∷ "10.1.0.4" ∷ [])
unfolding get_service_endpoints demo_parse_ip
endpoints_met = refl

get_service_endpoints_collects_example :
    (elem {A = String} "10.1.0.3" ("10.1.0.1" ∷ "10.1.0.2" ∷ "10.1.0.4" ∷ [])
      ≡ any_of (slice_has demo_net "ipv4" "10.1.0.3") slices)
    × (times "10.1.0.3" ("10.1.0.1" ∷ "10.1.0.2" ∷ "10.1.0.4" ∷ []) ≤ 1)
get_service_endpoints_collects_example =
    get_service_endpoints_collects demo_net "ipv4" "10.1.0.3" slices
      ("10.1.0.1" ∷ "10.1.0.2" ∷ "10.1.0.4" ∷ []) endpoints_met
