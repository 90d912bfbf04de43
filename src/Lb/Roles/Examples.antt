-- ===== src/Lb/Roles/Examples.antt =====
-- An election among three clients, and the theorem at it.
use kube_loxilb.Api.Client.{LoxiClient}
use kube_loxilb.Base.{Bool, List, String, [], arith, false, refl, some, true, ◌∷◌, ◌≡◌}
use kube_loxilb.Base.Assoc.{insert, lookup}
use kube_loxilb.Lb.Roles.{select_inst_loxi_lb_roles}
use kube_loxilb.Lb.Roles.Election.{masters, select_inst-masters}

abbrev client : String → Bool → Bool → Bool → LoxiClient
client host alive excluded master = record {
  url = "";
  host = host;
  port = "11111";
  name = host;
  is_alive = alive;
  peering_only = false;
  no_role = excluded;
  do_bgp_cfg = false;
  purge = false;
  dead_sig_ts = 0;
  inst_roles = ("llb-inst0", master) ∷ [];
}

-- The master has died, the next client is excluded from roles.
abbrev clients : List LoxiClient
clients =
    client "a" false false true ∷ client "b" true true false ∷ client "c" true false false ∷ []

elected_third : select_inst_loxi_lb_roles "llb-inst0" 0 clients ≡ (
  client "a" false false false ∷ client "b" true true false ∷ client "c" true false true ∷ [],
  true,
  some 2,
)
unfolding select_inst_loxi_lb_roles lookup insert
elected_third = refl

select_inst-masters_example :
    masters "llb-inst0" (select_inst_loxi_lb_roles "llb-inst0" 5 clients).0 ≡ 1
unfolding lookup
select_inst-masters_example = select_inst-masters "llb-inst0" 5 clients (ground arith) (omega arith)
