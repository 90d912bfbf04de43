-- ===== src/Lb/Pools.antt =====
-- AddLoxiCIDRPool and DeleteLoxiCIDRPool of loadbalancer.go.
pub mod Laws
pub mod Clients
use kube_loxilb.Api.LbModel.{ep_select_eq}
use kube_loxilb.Base.{
  Bool, Option, String, [], bool_eq, false, get_elem?, if◌then◌else◌, length, nat_eq, none, not,
  some, string_eq, true, ℕ, ◌++◌, ◌==◌, ◌∷◌,
}
use kube_loxilb.Base.Assoc.{Assoc, insert, lookup, remove}
use kube_loxilb.Base.Int.{int_eq}
use kube_loxilb.Base.Outcome.{Outcome, err, ok, panic, ◌>>=◌, ◌>>◌}
use kube_loxilb.Config.{NetworkConfig}
use kube_loxilb.IpPool.{IpPool, new_ip_pool, range_ends}
use kube_loxilb.Lb.Types.{Manager}
use kube_loxilb.Net.{Allocator, IpAddr, Net}
use kube_loxilb.Text.{contains_text, split}

-- The address of a CIDR; for a range of addresses it is nil.
unfoldable pub cidr_addr : Net → String → Outcome (Option IpAddr)
unfolding range_ends split contains_text
cidr_addr net cidr = elim (net.parse_cidr cidr) [
  | some (ip, _) ↦ ok (some ip)
  | none ↦
      if contains_text cidr "-"
      then (do ends ← range_ends net (split 45 cidr); ok none)
      else err "invalid CIDR address"
]

-- tk.IsNetIPv6(addr.String()), where a nil address is shown as "<nil>".
unfoldable pub is_v6_addr : Net → Option IpAddr → Bool
is_v6_addr net none = net.is_ipv6 "<nil>"
is_v6_addr net (some ip) = net.is_ipv6 (net.ip_string ip)

module _ {S : Type 0} where
  abbrev pub table : Bool → Manager S → Assoc ℕ
  table v6 m = if v6 then m.ip6_pool_tbl else m.ip_pool_tbl

  abbrev pub with_table : Bool → Assoc ℕ → Manager S → Manager S
  with_table true tbl m = record m { ip6_pool_tbl = tbl }
  with_table false tbl m = record m { ip_pool_tbl = tbl }

module _ (A : Allocator) (net : Net) where
  -- A step of AddLoxiCIDRPool: its result, its local copy of the table, and the manager. A pool that is made
  -- stands behind a new pointer, whether a table leads to it or not.
  abbrev pub Copied : Type 0
  Copied = Outcome (Unit {0}) × Assoc ℕ × Manager A.State

  -- A pool that NewIPPool makes is entered in the local copy.
  unfoldable pub enter_pool : String → Assoc ℕ → Manager A.State → Outcome (IpPool A.State) → Copied
  enter_pool name copy m (ok p) =
      (ok tt, insert name (length m.pools) copy, record m { pools = m.pools ++ p ∷ [] })
  enter_pool name copy m (err e) = (err e, copy, m)
  enter_pool name copy m panic = (panic, copy, m)

  -- A pool of this name is there: a new one takes its place in the copy, for another CIDR.
  unfoldable pub update_pool :
      NetworkConfig → String → String → Assoc ℕ → Manager A.State → Option (IpPool A.State) → Copied
  unfolding enter_pool
  update_pool config name cidr copy m none = (panic, copy, m)
  update_pool config name cidr copy m (some p) =
      if p.cidr == cidr
      then (ok tt, copy, m)
      else enter_pool name copy m (new_ip_pool A net A.new cidr (not config.excl_ipam))

  -- The return without an assignment of the copy, and the assignment to the table of the family.
  abbrev pub drop_copy : Copied → Outcome (Unit {0}) × Manager A.State
  drop_copy (r, copy, m) = (r, m)

  unfoldable pub assign_copy : Bool → Copied → Outcome (Unit {0}) × Manager A.State
  assign_copy v6 (ok _, copy, m) = (ok tt, with_table v6 copy m)
  assign_copy v6 (err e, copy, m) = (err e, m)
  assign_copy v6 (panic, copy, m) = (panic, m)

  -- The part under the lock, by what the copy of the table holds for the name.
  unfoldable pub add_to_table :
      NetworkConfig
      → String
      → String
      → Bool
      → Manager A.State
      → Option ℕ
      → Outcome (Unit {0}) × Manager A.State
  unfolding update_pool enter_pool assign_copy
  add_to_table config name cidr v6 m (some i) =
      drop_copy (update_pool config name cidr (table v6 m) m (get_elem? m.pools i))
  add_to_table config name cidr v6 m none =
      assign_copy v6
        (enter_pool name (table v6 m) m (new_ip_pool A net A.new cidr (not config.excl_ipam)))

  add_cidr_pool :
      NetworkConfig
      → String
      → String
      → Manager A.State
      → Outcome (Option IpAddr)
      → Outcome (Unit {0}) × Manager A.State
  unfolding add_to_table is_v6_addr
  add_cidr_pool config name cidr m (ok addr) =
      let v6 = is_v6_addr net addr in add_to_table config name cidr v6 m (lookup name (table v6 m))
  add_cidr_pool config name cidr m (err e) = (err e, m)
  add_cidr_pool config name cidr m panic = (panic, m)

  -- AddLoxiCIDRPool
  unfoldable pub add_loxi_cidr_pool :
      NetworkConfig → String → String → Manager A.State → Outcome (Unit {0}) × Manager A.State
  unfolding add_cidr_pool cidr_addr
  add_loxi_cidr_pool config name cidr m = add_cidr_pool config name cidr m (cidr_addr net cidr)

  delete_cidr_pool :
      String → Manager A.State → Outcome (Option IpAddr) → Outcome (Unit {0}) × Manager A.State
  unfolding is_v6_addr
  delete_cidr_pool name m (ok addr) =
      let v6 = is_v6_addr net addr in (ok tt, with_table v6 (remove name (table v6 m)) m)
  delete_cidr_pool name m (err e) = (err e, m)
  delete_cidr_pool name m panic = (panic, m)

  -- DeleteLoxiCIDRPool: for a name that is not in the table the removal changes nothing.
  unfoldable pub delete_loxi_cidr_pool :
      String → String → Manager A.State → Outcome (Unit {0}) × Manager A.State
  unfolding delete_cidr_pool cidr_addr
  delete_loxi_cidr_pool name cidr m = delete_cidr_pool name m (cidr_addr net cidr)
