-- ===== src/Gateway/Manager/Examples.antt =====
-- Runs of the gateway manager.
use kube_loxilb.Api.LbModel.{ep_select_eq}
use kube_loxilb.Base.{
  Bool, List, Option, String, [], bool_eq, false, if◌then◌else◌, nat_eq, none, refl, some,
  string_eq, true, ◌==◌, ◌∷◌, ◌≡◌,
}
use kube_loxilb.Base.Int.{int_eq}
use kube_loxilb.Base.Outcome.{err, ok}
use kube_loxilb.Fixture.{
  Taken, demo_allocate, demo_allocator, demo_laws, demo_net, demo_net_contains, demo_parse_ip,
  untake, v4,
}
use kube_loxilb.Gateway.Fixture.{front}
use kube_loxilb.Gateway.Manager.{
  GatewayApi, create_gateway, reconcile_gateway, with_new_address, with_status,
}
use kube_loxilb.Gateway.Manager.Laws.{LeavesPool, create_gateway_pool, reconcile_gateway_deleted}
use kube_loxilb.Gateway.Types.{Gateway, found, missing}
use kube_loxilb.IpPool.{IpPool, contains, get_new_ip_addr, return_ip_addr}
use kube_loxilb.Lb.Fixture.{pool}

-- A cluster without services, whose state says whether it takes updates of gateways.
abbrev plain_api : GatewayApi
plain_api = record {
  State = Bool;
  has_class = λ st c. c == "loxilb";
  gateway_update = λ st g. if st then (ok g, st) else (err "conflict", st);
  gateway_update_status = λ st g. (g, st);
  service_get = λ st ns n. missing;
  service_create = λ st v. (none, st);
  service_list = λ st ns. found [];
  service_delete = λ st ns n. (some "not found", st);
}

abbrev bare : Gateway
bare = record front { spec_addresses = []; status_addresses = [] }

abbrev taken_pool : IpPool Taken
taken_pool = record (pool false) { ip_alloc = ("10.0.0.0/24", "", "10.0.0.1") ∷ [] }

abbrev map_addresses : Option Gateway → List String
map_addresses none = []
map_addresses (some g) = g.spec_addresses

create_gateway_pool_example :
    LeavesPool plain_api "loxilb" "loxilb.io/loxilb" demo_allocator demo_net demo_laws bare
      "10.0.0.1" ""
      (pool false)
      taken_pool
      (err "conflict")
      (create_gateway plain_api "loxilb" "loxilb.io/loxilb" demo_allocator demo_net bare false
        (pool false))
unfolding get_new_ip_addr demo_allocate demo_parse_ip contains demo_net_contains
create_gateway_pool_example =
    create_gateway_pool plain_api "loxilb" "loxilb.io/loxilb" demo_allocator demo_net demo_laws bare
      false (pool false) taken_pool (v4 10 0 0 1) "" refl refl refl refl refl

-- After a refused update the gateway is published with an address that is free in the pool.
publishes_free_address :
    let (_, _, p, left) =
      create_gateway plain_api "loxilb" "loxilb.io/loxilb" demo_allocator demo_net bare false
        (pool false) in
    (p.ip_alloc ≡ [])
    × ((map_addresses left ≡ "10.0.0.1" ∷ [])
        × ((create_gateway plain_api "loxilb" "loxilb.io/loxilb" demo_allocator demo_net
              (with_new_address "10.0.0.1" "" bare)
              true
              p).2.ip_alloc
            ≡ []))
unfolding create_gateway get_new_ip_addr demo_allocate return_ip_addr demo_parse_ip
    demo_net_contains untake
publishes_free_address = (refl, (refl, refl))

reconcile_gateway_deleted_example :
    demo_laws.in_use
      (reconcile_gateway plain_api "loxilb" "loxilb.io/loxilb" demo_allocator demo_net
        (with_status (with_new_address "10.0.0.1" "" bare))
        missing
        true
        taken_pool).2.ip_alloc
      "10.0.0.0/24"
      ""
      "10.0.0.1"
    ≡ demo_laws.in_use [] "10.0.0.0/24" "" "10.0.0.1"
unfolding get_new_ip_addr demo_allocate demo_parse_ip contains demo_net_contains
reconcile_gateway_deleted_example =
    reconcile_gateway_deleted plain_api "loxilb" "loxilb.io/loxilb" demo_allocator demo_net
      demo_laws bare true (pool false) taken_pool (v4 10 0 0 1) "" refl refl refl refl refl
      "10.0.0.0/24" "" "10.0.0.1"

-- A gateway with an address of its own, which it did not get from the pool: its deletion frees the address
-- in the pool, where a service has it.
frees_foreign_address :
    (reconcile_gateway plain_api "loxilb" "loxilb.io/loxilb" demo_allocator demo_net front missing
      true taken_pool).2.ip_alloc
    ≡ []
unfolding reconcile_gateway return_ip_addr demo_parse_ip demo_net_contains untake
frees_foreign_address = refl
