-- ===== src/Gateway/Manager.antt =====
-- gateway.go: a gateway gets an address of the pool, its status, and a service for its HTTP and HTTPS
-- listeners.
pub mod Laws
pub mod Examples
use kube_loxilb.Api.LbModel.{ep_select_eq}
use kube_loxilb.Base.{
  Bool, List, Option, String, [], bool_eq, elem, if◌then◌else◌, is_empty, map, nat_eq, none, not,
  some, string_eq, ◌&&◌, ◌++◌, ◌==◌, ◌∷◌,
}
use kube_loxilb.Base.Assoc.{insert}
use kube_loxilb.Base.Int.{int_eq, pos, ℤ}
use kube_loxilb.Base.Outcome.{Outcome, err, ok, panic}
use kube_loxilb.Gateway.Types.{
  Condition, Found, Gateway, GwService, GwServicePort, Listener, failed, found, mark_of, mark_text,
  missing, or_empty,
}
use kube_loxilb.IpPool.{IpPool, get_new_ip_addr, return_ip_addr}
use kube_loxilb.Net.{Allocator, IpAddr, Net}
use kube_loxilb.Text.{concat}

-- The calls of the cluster about gateways and services; a failed UpdateStatus still gives an object.
pub record GatewayApi : Type 1 where
  pub State : Type 0
  pub has_class : State → String → Bool
  pub gateway_update : State → Gateway → Outcome Gateway × State
  pub gateway_update_status : State → Gateway → Gateway × State
  pub service_get : State → String → String → Found GwService
  pub service_create : State → GwService → Option String × State
  pub service_list : State → String → Found (List GwService)
  pub service_delete : State → String → String → Option String × State

-- The status addresses with those of the specification that are missing.
unfoldable pub merge_addresses : List String → List String → List String
merge_addresses status [] = status
merge_addresses status (a ∷ as') =
    merge_addresses (if elem a status then status else status ++ a ∷ []) as'

abbrev pub accept : Condition → Condition
accept c =
    if c.type == "Accepted"
    then record c { status = "True"; message = "managed by kube-loxilb"; reason = "Accepted" }
    else if c.type == "Programmed"
    then record c { status = "True"; message = "managed by kube-loxilb"; reason = "Programmed" }
    else c

-- The status that createGateway writes; the time of the transition is left out.
unfoldable pub with_status : Gateway → Gateway
unfolding merge_addresses
with_status g = record g {
  status_addresses = merge_addresses g.status_addresses g.spec_addresses;
  conditions = map accept g.conditions;
}

-- The gateway with the address that it was given.
unfoldable pub with_new_address : String → String → Gateway → Gateway
with_new_address ip ident g = record g {
  spec_addresses = g.spec_addresses ++ ip ∷ [];
  labels = some (insert "implementation" "kube-loxilb" (or_empty g.labels));
  annotations =
      some (insert "ident-ipam" ident (insert "ipam-address" ip (or_empty g.annotations)));
}

-- The ports for the HTTP and HTTPS listeners; 0 stands for the standard port.
abbrev pub port_or : ℤ → ℤ → ℤ
port_or standard p = if p == pos 0 then standard else p

abbrev pub listener_port : Listener → ℤ → GwServicePort
listener_port l standard = record {
  name = l.name;
  port = port_or standard l.port;
  target_port = standard;
  protocol = "TCP";
}

unfoldable pub service_ports : List Listener → List GwServicePort
service_ports [] = []
service_ports (l ∷ ls) =
    let rest = service_ports ls in
    if l.protocol == "HTTP"
    then listener_port l (pos 80) ∷ rest
    else if l.protocol == "HTTPS"
    then listener_port l (pos 443) ∷ rest
    else rest

unfoldable pub ingress_service_name : String → String
unfolding concat
ingress_service_name gateway = concat (gateway ∷ "-ingress-service" ∷ [])

-- The service of createIngressLbService, from the first address of the specification and that of the
-- status.
unfoldable pub ingress_service :
    String → String → Gateway → String → String → List GwServicePort → GwService
unfolding ingress_service_name
ingress_service gateway_class lb_class g address lb_ip ports = record {
  namespace = g.namespace;
  name = ingress_service_name g.name;
  annotations = some (
      insert "ipam-address" address (
        insert "parent-gateway" g.name
          (insert "gateway-api-controller" gateway_class (or_empty g.annotations))));
  labels = some (("implementation", "kube-loxilb") ∷ []);
  service_type = "LoadBalancer";
  load_balancer_class = some lb_class;
  load_balancer_ip = lb_ip;
  ports = ports;
  selector = some (("app", "loxilb-ingress") ∷ []);
  cluster_ip = "";
  cluster_ips = [];
  resource_version = "";
}

module _ (G : GatewayApi) (gateway_class lb_class : String) where
  abbrev create_answer : Option String × G.State → Outcome (Unit {0}) × G.State
  create_answer (none, st) = (ok tt, st)
  create_answer (some t, st) = (err t, st)

  -- A service that is missing: it needs an address of the gateway, and a listener that asks for it. The
  -- status is read at its first address.
  unfoldable pub new_ingress_service : Gateway → G.State → Outcome (Unit {0}) × G.State
  unfolding service_ports ingress_service
  new_ingress_service g st = elim g.spec_addresses [
    | [] ↦ (err "gateway has no external IP address", st)
    | address ∷ _ ↦ elim (service_ports g.listeners) [
      | [] ↦ (ok tt, st)
      | p ∷ ps ↦ elim g.status_addresses [
        | [] ↦ (panic, st)
        | lb_ip ∷ _ ↦
            create_answer (
              G.service_create st (ingress_service gateway_class lb_class g address lb_ip (p ∷ ps)))
      ]
    ]
  ]

  -- createIngressLbService: any error of the read counts as a missing service.
  unfoldable pub create_ingress_lb_service : Gateway → G.State → Outcome (Unit {0}) × G.State
  unfolding new_ingress_service ingress_service_name
  create_ingress_lb_service g st =
      elim (G.service_get st g.namespace (ingress_service_name g.name)) [
        | found _ ↦ (ok tt, st)
        | missing ↦ new_ingress_service g st
        | failed _ ↦ new_ingress_service g st
      ]

  -- The status and the service of a gateway that has its address.
  unfoldable pub publish_gateway : Gateway → G.State → Outcome (Unit {0}) × G.State
  unfolding with_status create_ingress_lb_service
  publish_gateway g st =
      let (g', st') = G.gateway_update_status st (with_status g) in create_ingress_lb_service g' st'

  unfoldable pub ingress_delete_loop :
      String → List GwService → G.State → Outcome (Unit {0}) × G.State
  unfolding mark_of
  ingress_delete_loop name [] st = (ok tt, st)
  ingress_delete_loop name (v ∷ vs) st =
      if mark_text "gateway-api-controller" v.annotations == gateway_class
        && mark_text "parent-gateway" v.annotations == name
      then (let (e, st') = G.service_delete st v.namespace v.name in
          elim e [ none ↦ ingress_delete_loop name vs st' | some t ↦ (err t, st') ])
      else ingress_delete_loop name vs st

  -- deleteIngressLbService
  unfoldable pub delete_ingress_lb_service :
      String → String → G.State → Outcome (Unit {0}) × G.State
  unfolding ingress_delete_loop
  delete_ingress_lb_service ns name st = elim (G.service_list st ns) [
    | found vs ↦ ingress_delete_loop name vs st
    | missing ↦ (ok tt, st)
    | failed t ↦ (err t, st)
  ]

  module _ (A : Allocator) (net : Net) where
    -- The manager at work: the cluster, the pool, and the object of the informer's cache, into which
    -- createGateway writes; `none` for a gateway that is not there.
    abbrev pub Worked : Type 0
    Worked = Outcome (Unit {0}) × G.State × IpPool A.State × Option Gateway

    abbrev pub with_pool : Outcome (Unit {0}) × G.State → IpPool A.State → Option Gateway → Worked
    with_pool (r, st) p left = (r, st, p, left)

    -- The update of the gateway with a new address: the address goes back if the update fails, and the
    -- object of the cache keeps what was written into it. The answer to an update is an object of its own.
    unfoldable pub assigned :
        Gateway → String → String → IpPool A.State → Outcome Gateway × G.State → Worked
    unfolding publish_gateway
    assigned left ip ident p (ok g, st) = with_pool (publish_gateway g st) p (some left)
    assigned left ip ident p (err t, st) = (
      err "unable to update gateway configuration",
      st,
      return_ip_addr A net p ip ident,
      some left,
    )
    assigned left ip ident p (panic, st) = (panic, st, p, some left)

    -- The address of a gateway without one is written into the object of the cache, which is then sent.
    -- Without a free address the process exits, which is a panic.
    unfoldable pub assign_address :
        Gateway → G.State → (Option IpAddr × String) × IpPool A.State → Worked
    unfolding assigned with_new_address
    assign_address g st ((none, ident), p) = (panic, st, p, some g)
    assign_address g st ((some ip, ident), p) =
        let left = with_new_address (net.ip_string ip) ident g in
        assigned left (net.ip_string ip) ident p (G.gateway_update st left)

    -- createGateway: a gateway with an address gets its status in the object of the cache itself.
    unfoldable pub create_gateway : Gateway → G.State → IpPool A.State → Worked
    unfolding assign_address publish_gateway with_status
    create_gateway g st p =
        if not (G.has_class st g.class_name)
        then (ok tt, st, p, some g)
        else if is_empty g.spec_addresses
        then assign_address g st (get_new_ip_addr A net p 0 "")
        else with_pool (publish_gateway g st) p (some (with_status g))

    unfoldable pub return_addresses : List String → String → IpPool A.State → IpPool A.State
    return_addresses [] ident p = p
    return_addresses (a ∷ as') ident p = return_addresses as' ident (return_ip_addr A net p a ident)

    -- deleteGateway
    unfoldable pub delete_gateway :
        String → String → List String → String → G.State → IpPool A.State → Worked
    unfolding return_addresses delete_ingress_lb_service
    delete_gateway ns name addresses ident st p =
        with_pool (delete_ingress_lb_service ns name st) (return_addresses addresses ident p) none

    -- reconcile, by what the lister finds for the queued gateway.
    unfoldable pub reconcile_gateway : Gateway → Found Gateway → G.State → IpPool A.State → Worked
    unfolding create_gateway delete_gateway mark_of
    reconcile_gateway entry (found g) st p = create_gateway g st p
    reconcile_gateway entry missing st p =
        delete_gateway entry.namespace entry.name entry.status_addresses
          (mark_text "ident-ipam" entry.annotations) st p
    reconcile_gateway entry (failed t) st p = (err t, st, p, none)
