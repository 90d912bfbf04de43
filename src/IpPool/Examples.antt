-- ===== src/IpPool/Examples.antt =====
-- Runs of the pool operations, and the theorems about them at concrete pools.
use kube_loxilb.IpPool.IpSet
use kube_loxilb.Base.{Bool, [], arith, false, none, refl, some, true, ℕ, ◌<◌, ◌∷◌, ◌≡◌}
use kube_loxilb.Base.Outcome.{err, ok, panic}
use kube_loxilb.Fixture.{
  Taken, demo_allocate, demo_allocator, demo_ip_string, demo_laws, demo_net, demo_net_contains,
  demo_parse_cidr, demo_parse_ip, v4,
}
use kube_loxilb.IpPool.{
  IpPool, check_and_reserve_ip, contains, get_new_ip_addr, new_ip_pool, return_ip_addr,
}
use kube_loxilb.IpPool.IpSet.{IpSet, add, contains-add-remove, is_equal, is_equal_panics, new_set}
use kube_loxilb.IpPool.Range.{
  HasOctets, contains-octets, contains_beyond_last, contains_block, value,
}
use kube_loxilb.IpPool.Reserve.{check_and_reserve_ip_unshared, return_ip_addr-get_new_ip_addr}
use kube_loxilb.Text.{concat}

abbrev range_pool : IpPool Taken
range_pool = record {
  cidr = "10.0.0.2-10.0.0.5";
  is_range = true;
  start_ip = v4 10 0 0 2;
  last_ip = v4 10 0 0 5;
  net_cidr = none;
  ip_alloc = [];
  shared = false;
}

abbrev block_pool : Bool → IpPool Taken
block_pool shared = record {
  cidr = "10.0.0.0/24";
  is_range = false;
  start_ip = [];
  last_ip = [];
  net_cidr = some (record { ip = v4 10 0 0 0; ones = 24 });
  ip_alloc = [];
  shared = shared;
}

new_range : new_ip_pool demo_allocator demo_net [] "10.0.0.2-10.0.0.5" false ≡ ok range_pool
unfolding new_ip_pool demo_parse_cidr demo_parse_ip demo_ip_string
new_range = refl

new_block : new_ip_pool demo_allocator demo_net [] "10.0.0.0/24" true ≡ ok (block_pool true)
unfolding new_ip_pool demo_parse_cidr demo_parse_ip
new_block = refl

new_errors :
    (new_ip_pool demo_allocator demo_net [] "10.0.0.2-x" false ≡ err "invalid ip-range ips")
    × (new_ip_pool demo_allocator demo_net [] "nonsense" false ≡ err "CIDR parse failed")
unfolding new_ip_pool demo_parse_cidr demo_parse_ip
new_errors = (refl, refl)

start_is_v4 : demo_net.is_ipv4 (demo_net.ip_string (v4 10 0 0 2)) ≡ true
unfolding demo_ip_string demo_parse_ip
start_is_v4 = refl

octets_of : (a b c d : ℕ) → HasOctets (v4 a b c d) a b c d
octets_of a b c d = record { size = refl; octets = refl }

contains-octets_example : contains demo_net range_pool (v4 192 168 9 3) ≡ true
contains-octets_example =
    contains-octets demo_net range_pool (v4 192 168 9 3) 10 0 0 2 10 0 0 5 192 168 9 3 refl
      start_is_v4 (octets_of 10 0 0 2) (octets_of 10 0 0 5) (octets_of 192 168 9 3) (omega arith)
      (omega arith)

contains_block_example : contains demo_net range_pool (v4 10 0 0 4) ≡ true
contains_block_example =
    contains_block demo_net range_pool (v4 10 0 0 4) 10 0 0 2 5 10 0 0 4 refl start_is_v4
      (octets_of 10 0 0 2) (octets_of 10 0 0 5) (octets_of 10 0 0 4) (omega arith) (omega arith)
      (omega arith) (omega arith) (omega arith)

contains_beyond_last_example :
    (contains demo_net range_pool (v4 192 168 9 3) ≡ true) × (value 10 0 0 5 < value 192 168 9 3)
contains_beyond_last_example =
    contains_beyond_last demo_net range_pool (v4 192 168 9 3) 10 0 0 2 10 0 0 5 192 168 9 3 refl
      start_is_v4 (octets_of 10 0 0 2) (octets_of 10 0 0 5) (octets_of 192 168 9 3) (omega arith)
      (omega arith) (omega arith)

one_set : IpSet.IpSet
one_set = record { ipaddress = some ("10.0.0.1" ∷ []) }

is_equal_panics_example : IpSet.is_equal one_set IpSet.new_set ≡ panic
unfolding one_set IpSet.new_set IpSet.contains
is_equal_panics_example = IpSet.is_equal_panics one_set IpSet.new_set

contains-add-remove_example :
    ((t : IpSet.IpSet) × (IpSet.add one_set "b" ≡ ok t) × (IpSet.contains t "b" ≡ true))
    × (IpSet.contains (IpSet.remove one_set "b") "b" ≡ false)
unfolding one_set
contains-add-remove_example = IpSet.contains-add-remove ("10.0.0.1" ∷ []) "b" "b"

-- The second service on a shared pool gets the address of the first, for another port.
get_new_shared :
    (get_new_ip_addr demo_allocator demo_net (block_pool true) 80 "tcp").0
    ≡ (some (v4 10 0 0 1), "80/tcp")
unfolding get_new_ip_addr demo_allocate concat
get_new_shared = refl

return_ip_addr-get_new_ip_addr_example :
    demo_laws.in_use
      (return_ip_addr demo_allocator demo_net
        (record (block_pool true) { ip_alloc = ("10.0.0.0/24", "80/tcp", "10.0.0.1") ∷ [] })
        (demo_ip_string (v4 10 0 0 1))
        "80/tcp").ip_alloc
      "10.0.0.0/24"
      "80/tcp"
      "10.0.0.1"
    ≡ demo_laws.in_use [] "10.0.0.0/24" "80/tcp" "10.0.0.1"
unfolding get_new_ip_addr demo_allocate demo_parse_ip contains demo_net_contains concat
return_ip_addr-get_new_ip_addr_example =
    return_ip_addr-get_new_ip_addr demo_allocator demo_net demo_laws (block_pool true)
      (record (block_pool true) { ip_alloc = ("10.0.0.0/24", "80/tcp", "10.0.0.1") ∷ [] }) 80 "tcp"
      (v4 10 0 0 1) "80/tcp" refl refl refl "10.0.0.0/24" "80/tcp" "10.0.0.1"

-- 10.0.0.1 is held already, and the pool still reports it as reserved.
abbrev held_pool : IpPool Taken
held_pool = record (block_pool false) { ip_alloc = ("10.0.0.0/24", "", "10.0.0.1") ∷ [] }

check_and_reserve_ip_unshared_example :
    (check_and_reserve_ip demo_allocator demo_net held_pool "10.0.0.1" 80 "tcp").0
    ≡ (true, true, "")
unfolding contains demo_net_contains demo_parse_ip
check_and_reserve_ip_unshared_example =
    check_and_reserve_ip_unshared demo_allocator demo_net held_pool "10.0.0.1" (v4 10 0 0 1) 80
      "tcp" refl refl
