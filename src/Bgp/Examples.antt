-- ===== src/Bgp/Examples.antt =====
-- Runs of the BGP managers.
use kube_loxilb.Api.Bgp.{
  BgpNeigh, BgpPolicyApply, BgpPolicyDefinedSets, BgpPolicyDefinition, BgpRest, BgpSent,
  delete_neigh,
}
use kube_loxilb.Api.Client.{LoxiClient}
use kube_loxilb.Api.LbModel.{ep_select_eq}
use kube_loxilb.Base.{
  List, String, [], bool_eq, false, if◌then◌else◌, map, nat_eq, none, refl, some, string_eq, true,
  ◌==◌, ◌∷◌, ◌≡◌,
}
use kube_loxilb.Base.Int.{int_eq, pos}
use kube_loxilb.Base.Outcome.{err, ok}
use kube_loxilb.Bgp.{
  sync_bgp_peer_service, sync_bgp_policy_apply_service, sync_bgp_policy_defined_sets_service,
  sync_bgp_policy_definition_service,
}
use kube_loxilb.Bgp.Laws.{IsBroadcast, sync-IsBroadcast}
use kube_loxilb.Lb.Fixture.{client}
use kube_loxilb.Text.{contains_text}

abbrev peer : BgpNeigh
peer = record { ip_address = "192.168.0.1"; remote_as = pos 64512; remote_port = pos 179 }

abbrev applied : BgpPolicyApply
applied = record {
  neigh_ip_address = "192.168.0.1";
  policy_type = "export";
  policies = "out" ∷ [];
  route_action = "accept";
}

abbrev prefixes : BgpPolicyDefinedSets
prefixes = record { name = "ps"; defined_type = "prefix"; list = []; prefix_list = [] }

abbrev policy : BgpPolicyDefinition
policy = record { name = "out"; statement = [] }

abbrev instances : List LoxiClient
instances = client "a" ∷ client "b" ∷ []

-- All instances answer that the resource does not exist.
abbrev knows_nothing : BgpRest
knows_nothing = record { answer = λ log s. some "does not exist" }

-- The deletion of an applied policy takes that answer for a success, and that of a peer does not: it is
-- tried again.
not_there :
    ((sync_bgp_policy_apply_service knows_nothing instances false applied []).0 ≡ ok tt)
    × ((sync_bgp_peer_service knows_nothing instances false peer []).0
        ≡ err "failed to delete loxiLB LoadBalancer. Error: does not exist")
unfolding sync_bgp_policy_apply_service contains_text sync_bgp_peer_service
not_there = (refl, refl)

-- Without an instance nothing can be added or deleted.
no_instance :
    ((sync_bgp_policy_definition_service knows_nothing [] true policy []).0
      ≡ err "failed to add loxiLB BGPPolicyDefinition")
    × ((sync_bgp_policy_definition_service knows_nothing [] false policy []).0
        ≡ err "failed to delete loxiLB LoadBalancer. Error: ")
unfolding sync_bgp_policy_definition_service
no_instance = (refl, refl)

-- The second instance takes requests.
abbrev b_takes : BgpRest
b_takes = record { answer = λ log s. if s.host == "b" then none else some "refused" }

paths :
    map {B = String × String}
      (λ (s : BgpSent). (s.host, s.request.path))
      (sync_bgp_policy_defined_sets_service b_takes instances false prefixes []).1
    ≡ ("b", "config/bgp/policy/definedsets/prefix/ps")
      ∷ ("a", "config/bgp/policy/definedsets/prefix/ps")
      ∷ []
unfolding sync_bgp_policy_defined_sets_service
paths = refl

sync-IsBroadcast_example :
    IsBroadcast b_takes
      (λ t. t)
      (delete_neigh "192.168.0.1" (pos 64512))
      instances
      []
      (sync_bgp_peer_service b_takes instances false peer [])
sync-IsBroadcast_example =
    (sync-IsBroadcast b_takes instances false [] peer applied prefixes policy).0
