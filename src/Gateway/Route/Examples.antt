-- ===== src/Gateway/Route/Examples.antt =====
-- Runs of the managers of routes.
use kube_loxilb.Base.{[], none, refl, some, ◌∷◌, ◌≡◌}
use kube_loxilb.Base.Assoc.{insert, lookup}
use kube_loxilb.Base.Int.{pos}
use kube_loxilb.Base.Outcome.{ok, panic}
use kube_loxilb.Gateway.Fixture.{
  Slot, slot_create, slot_delete, slot_get, slot_kube, slot_laws, slot_list, slot_stored,
}
use kube_loxilb.Gateway.Route.{RouteState, created_service, owned_by, tcp_route}
use kube_loxilb.Gateway.Route.Deletion.{delete_route_exact}
use kube_loxilb.Gateway.Route.Laws.{create_route_foreign}
use kube_loxilb.Gateway.Route.Reconcile.{Done, behaviour_of, create_route, delete_route, reconcile}
use kube_loxilb.Gateway.Types.{BackendRef, GwService, Route, found, missing}

abbrev backend : BackendRef
backend = record { namespace = none; name = "web"; port = some (pos 8080) }

abbrev route : Route
route = record {
  namespace = "default";
  name = "tcp1";
  annotations = some (("team", "a") ∷ []);
  labels = none;
  parent_refs = record { namespace = some "infra"; name = "front"; section_name = some "tcp" } ∷ [];
  rules = (backend ∷ []) ∷ [];
}

-- Somebody else's service of the name that the route asks for.
abbrev foreign : GwService
foreign = record {
  namespace = "default";
  name = "web";
  annotations = none;
  labels = none;
  service_type = "ClusterIP";
  load_balancer_class = none;
  load_balancer_ip = "";
  ports = [];
  selector = none;
  cluster_ip = "172.16.0.9";
  cluster_ips = [];
  resource_version = "7";
}

abbrev state : Slot → RouteState Slot
state st = record { kube = st; marks = route.annotations }

abbrev run : Route → Slot → Done slot_kube tcp_route "loxilb"
run r st = reconcile slot_kube tcp_route "loxilb" r.namespace r.name (found r) st

-- A missing service is created with the marks of the route, which the route has then too.
created : run route none ≡ (
  ok tt,
  record {
    kube = some (
        created_service tcp_route "loxilb" route "default" backend "10.0.0.1"
          (record { name = "tcp"; protocol = "TCP"; port = pos 21000; hostname = none; tls = none })
          (pos 8080)
          (some (("team", "a") ∷ [])));
    marks =
        some (
          ("team", "a") ∷ ("gateway-api-controller", "loxilb") ∷ ("parent-tcp-route", "tcp1") ∷ []);
  },
)
unfolding reconcile slot_get slot_create insert
created = refl

-- A backend in another namespace gets its service there, and the deletion of the route leaves it.
abbrev elsewhere : Route
elsewhere = record route { rules = (record backend { namespace = some "apps" } ∷ []) ∷ [] }

not_deleted :
    (reconcile slot_kube tcp_route "loxilb" "default" "tcp1" missing
      (run elsewhere none).1.kube).1.kube
    ≡ (run elsewhere none).1.kube
unfolding reconcile slot_get slot_list slot_create
not_deleted = refl

-- A route that updates a service without annotations panics.
updates_bare_service :
    (run (record route { labels = some (("serviceBehaviour", "update") ∷ []) }) (some foreign)).0
    ≡ panic
unfolding reconcile lookup slot_get
updates_bare_service = refl

-- A reference without a namespace to a gateway that is not found panics in the message.
gateway_not_found :
    (run
      (record route {
        parent_refs = record { namespace = none; name = "front"; section_name = none } ∷ [];
      })
      none).0
    ≡ panic
unfolding reconcile
gateway_not_found = refl

create_route_foreign_example :
    slot_stored
      (create_route slot_kube tcp_route "loxilb" route route.parent_refs
        (state (some foreign))).1.kube
      "default"
      "web"
    ≡ some foreign
unfolding owned_by behaviour_of slot_stored
create_route_foreign_example =
    create_route_foreign slot_kube tcp_route "loxilb" slot_laws route "default" "web" foreign refl
      refl (state (some foreign)) refl

abbrev own : GwService
own = record foreign {
  annotations = some (("gateway-api-controller", "loxilb") ∷ ("parent-tcp-route", "tcp1") ∷ []);
}

delete_route_exact_example :
    slot_stored
      (delete_route slot_kube tcp_route "loxilb" "default" "tcp1" (some own)).1
      "default"
      "web"
    ≡ none
unfolding delete_route slot_list lookup slot_delete slot_stored
delete_route_exact_example =
    delete_route_exact slot_kube tcp_route "loxilb" "tcp1" "default" slot_laws (some own) refl
      "default" "web" own refl
