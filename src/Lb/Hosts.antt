-- ===== src/Lb/Hosts.antt =====
-- AddLoxiInstAddr and DeleteLoxiInstAddr of loadbalancer.go as functions: the table of instance addresses,
-- and whether a signal is sent. Their lock and channel are the subject of Lb.Signals.
use kube_loxilb.Base.{Bool, String, false, is_none, none, some, true}
use kube_loxilb.Base.Assoc.{Assoc, insert, lookup, remove}
use kube_loxilb.Lb.Types.{Manager}
use kube_loxilb.Net.{IpAddr}

module _ {S : Type 0} where
  abbrev with_insts : Manager S → Assoc IpAddr → Manager S
  with_insts m insts = record m { loxi_inst_addr_map = insts }

  -- An address that is replaced by an equal one leaves the same table, and sends no signal either.
  unfoldable pub add_loxi_inst_addr : String → IpAddr → Manager S → Bool × Manager S
  add_loxi_inst_addr name ip m = (
    is_none (lookup name m.loxi_inst_addr_map),
    with_insts m (insert name ip m.loxi_inst_addr_map),
  )

  unfoldable pub delete_loxi_inst_addr : String → Manager S → Bool × Manager S
  delete_loxi_inst_addr name m = elim (lookup name m.loxi_inst_addr_map) [
    | none ↦ (false, m)
    | some _ ↦ (true, with_insts m (remove name m.loxi_inst_addr_map))
  ]
