-- ===== src/Lb/Secondary/Examples.antt =====
-- One secondary address for a service with two ports.
use kube_loxilb.Base.{List, [], false, length, refl, true, ◌∷◌, ◌≤◌}
use kube_loxilb.Base.Int.{to_u32}
use kube_loxilb.Fixture.{Taken, demo_allocate, demo_allocator, demo_net, v4}
use kube_loxilb.IpPool.{IpPool, get_new_ip_addr}
use kube_loxilb.Lb.Fixture.{manager, entry, pool, tls_port, web, web_port}
use kube_loxilb.Lb.Pairs.{new_pair}
use kube_loxilb.Lb.Secondary.{get_ingress_sec_svc_pairs}
use kube_loxilb.Lb.Secondary.Count.{Allocates, Gives, get_ingress_sec_svc_pairs-Gives}
use kube_loxilb.Lb.Types.{LbCacheEntry, Manager, SvcPair}
use kube_loxilb.Text.{to_lower}

abbrev with_pool : LbCacheEntry
unfolding entry
with_pool = record entry { sip_pools = 0 ∷ [] }

abbrev fresh : IpPool Taken
unfolding get_new_ip_addr
fresh = (get_new_ip_addr demo_allocator demo_net (pool false) 80 "tcp").1

abbrev given : List SvcPair × Manager Taken
unfolding manager
given = (
  new_pair demo_allocator demo_net web_port (v4 10 0 0 1) "" true ∷ [],
  record manager { pools = fresh ∷ [] },
)

get_ingress_sec_svc_pairs-Gives_example :
    (1 ≤ length with_pool.sip_pools)
    × Gives demo_allocator demo_net web_port (tls_port ∷ []) 1 manager given
    × Allocates demo_allocator demo_net web_port
        (tls_port ∷ [])
        with_pool.sip_pools
        1
        manager
        given.0
        given.1
unfolding get_ingress_sec_svc_pairs get_new_ip_addr demo_allocate manager entry to_lower to_u32
get_ingress_sec_svc_pairs-Gives_example =
    get_ingress_sec_svc_pairs-Gives demo_allocator demo_net web_port (tls_port ∷ []) web 1 with_pool
      manager given refl refl
