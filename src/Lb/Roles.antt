-- ===== src/Lb/Roles.antt =====
-- The election of a master for each zone instance, in loadbalancer.go.
pub mod Pass
pub mod Election
pub mod Examples
use kube_loxilb.Api.Client.{LoxiClient, role, set_role}
use kube_loxilb.Base.{
  Bool, List, Option, String, [], bool_eq, false, get_elem?, if◌then◌else◌, leb, length, ltb, map,
  nat_eq, none, not, set, some, string_eq, suc, true, zero, ℕ, ◌&&◌, ◌+◌, ◌==◌, ◌||◌, ◌∷◌,
}
use kube_loxilb.Base.Assoc.{Assoc}
use kube_loxilb.Base.Int.{int_eq}

-- What the first loop of SelectInstLoxiLBRoles leaves: the clients, with dead masters demoted,
-- whether every client had the instance, and the two flags.
pub record Scan : Type 0 where
  pub clients : List LoxiClient
  pub all_found : Bool
  pub re_elect : Bool
  pub has_master : Bool

abbrev pub cons_client : LoxiClient → Scan → Scan
cons_client c s = record s { clients = c ∷ s.clients }

-- A dead client loses the role.
abbrev pub demote : String → Bool → LoxiClient → LoxiClient
demote inst m c = if m && not c.is_alive then set_role inst false c else c

unfoldable pub scan : String → List LoxiClient → Bool → Bool → Scan
scan inst [] re has = record { clients = []; all_found = true; re_elect = re; has_master = has }
scan inst (c ∷ cs) re has = elim (role inst c) [
  | none ↦ record { clients = c ∷ cs; all_found = false; re_elect = re; has_master = has }
  | some m ↦
      cons_client (demote inst m c)
        (scan inst cs (re || (m && not c.is_alive)) (has || (m && c.is_alive)))
]

-- A round of the second loop at client `j`: the client, the flag selMaster, and sel, where -1 is `none`.
abbrev pub visit : String → ℕ → Bool → Option ℕ → LoxiClient → LoxiClient × Bool × Option ℕ
visit inst j selected sel c =
    if c.no_role
    then (c, selected, sel)
    else if selected
    then (set_role inst false c, true, sel)
    else if c.is_alive
    then (set_role inst true c, true, some j)
    else (c, false, sel)

abbrev pub Elected : Type 0
Elected = List LoxiClient × Bool × Option ℕ

-- The second loop, with the rounds left (len - nproc) and the index, which wraps to 0 at the end of
-- the list. The index is in range in every round, so the missing client is never met.
unfoldable pub elect : String → ℕ → ℕ → Bool → Option ℕ → List LoxiClient → Elected
elect inst zero i selected sel cs = (cs, selected, sel)
elect inst (suc n) i selected sel cs =
    let j = if leb (length cs) i then 0 else i in
    elim (get_elem? cs j) [
      | none ↦ (cs, selected, sel)
      | some c ↦
          (let (c', selected', sel') = visit inst j selected sel c in
            elect inst n (j + 1) selected' sel' (set cs j c'))
    ]

-- SelectInstLoxiLBRoles: the clients, whether a master was selected now, and which.
unfoldable pub select_inst_loxi_lb_roles : String → ℕ → List LoxiClient → Elected
unfolding scan elect
select_inst_loxi_lb_roles inst selhint cs =
    let s = scan inst cs false false in
    if not s.all_found
    then (s.clients, false, some 0)
    else if s.re_elect || not s.has_master
    then elect inst (length s.clients) selhint false none s.clients
    else (s.clients, false, none)

abbrev count_masters : Assoc Bool → ℕ
count_masters [] = 0
count_masters ((_, m) ∷ rs) = (if m then 1 else 0) + count_masters rs

-- activeClients and maxMasterPerClient
count_active : List LoxiClient → ℕ
count_active [] = 0
count_active (c ∷ cs) = (if c.is_alive then 1 else 0) + count_active cs

max_masters : List LoxiClient → ℕ → ℕ
max_masters [] n = n
max_masters (c ∷ cs) n =
    max_masters cs (if ltb n (count_masters c.inst_roles) then count_masters c.inst_roles else n)

abbrev reset_roles : LoxiClient → LoxiClient
reset_roles c = record c { inst_roles = map (λ (r : String × Bool). (r.0, false)) c.inst_roles }

-- ResetRolesOnNeedRebalanceInstLoxiLBRoles
unfoldable pub reset_roles_on_rebalance : ℕ → Bool → List LoxiClient → List LoxiClient × Bool
unfolding count_active max_masters
reset_roles_on_rebalance num_inst_roles excl_ipam cs =
    if leb num_inst_roles (count_active cs) && (leb num_inst_roles (max_masters cs 0) && excl_ipam)
    then (map reset_roles cs, true)
    else (cs, false)

-- pselhint after the step before an instance; -1 is `none`, which the increment takes to 0.
abbrev next_hint : Option ℕ → ℕ → ℕ
next_hint none inst_id = 0
next_hint (some zero) inst_id = inst_id
next_hint (some (suc n)) inst_id = n + 2

-- The loop of SelectLoxiLBRoles over zoneInstRoleMap.
select_loop : List (String × ℕ) → Option ℕ → Bool → List LoxiClient → List LoxiClient × Bool
unfolding select_inst_loxi_lb_roles
select_loop [] hint selected cs = (cs, selected)
select_loop ((inst, inst_id) ∷ insts) hint selected cs =
    let (cs', sel, hint') = select_inst_loxi_lb_roles inst (next_hint hint inst_id) cs in
    select_loop insts hint' (selected || sel) cs'

-- SelectLoxiLBRoles: the clients and whether any master was selected, which sets ElectionRunOnce and
-- is signalled.
unfoldable pub select_loxi_lb_roles :
    String → Bool → List (String × ℕ) → List LoxiClient → List LoxiClient × Bool
unfolding reset_roles_on_rebalance select_loop
select_loxi_lb_roles set_roles excl_ipam zone_inst_role_map cs =
    if set_roles == ""
    then (cs, false)
    else select_loop zone_inst_role_map (some 0) false
        (reset_roles_on_rebalance (length zone_inst_role_map) excl_ipam cs).0
