-- ===== src/Gateway/GatewayClass.antt =====
-- gatewayclass.go: a class of this controller is accepted. The status update is the one effect; its error
-- is logged only.
use kube_loxilb.Api.LbModel.{ep_select_eq}
use kube_loxilb.Base.{
  List, Option, String, bool_eq, if◌then◌else◌, map, nat_eq, none, some, string_eq, ◌==◌,
}
use kube_loxilb.Base.Int.{int_eq}
use kube_loxilb.Base.Outcome.{Outcome, err, ok}
use kube_loxilb.Gateway.Types.{Condition, Found, failed, found, missing}

pub record GatewayClass : Type 0 where
  pub name : String
  pub controller_name : String
  pub conditions : List Condition

abbrev pub accept_class : Condition → Condition
accept_class c = if c.type == "Accepted" then record c { status = "True" } else c

-- updateGatewayClass: the status that it writes, if it writes one.
unfoldable pub update_gateway_class : String → GatewayClass → Option GatewayClass
update_gateway_class gateway_class gc =
    if gc.controller_name == gateway_class
    then some (record gc { conditions = map accept_class gc.conditions })
    else none

-- reconcile, by what the lister finds under the name.
unfoldable pub reconcile_gateway_class : String → Found GatewayClass → Outcome (Option GatewayClass)
unfolding update_gateway_class
reconcile_gateway_class gateway_class (found gc) = ok (update_gateway_class gateway_class gc)
reconcile_gateway_class gateway_class missing = ok none
reconcile_gateway_class gateway_class (failed t) = err t
