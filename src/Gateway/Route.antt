-- ===== src/Gateway/Route.antt =====
-- tcproute.go and udproute.go: a route becomes services of type LoadBalancer, one for each backend of a
-- listener. The two files differ in the key that names the parent and in the protocol of the port. The
-- annotations of a new service are the map of the route itself, so the marks are written to the route too.
pub mod Reconcile
pub mod Laws
pub mod Deletion
pub mod Udp
pub mod Examples
use kube_loxilb.Api.LbModel.{ep_select_eq}
use kube_loxilb.Base.{
  Bool, List, Option, String, [], bool_eq, false, if◌then◌else◌, is_some, nat_eq, none, not, some,
  string_eq, ◌&&◌, ◌==◌, ◌∷◌,
}
use kube_loxilb.Base.Assoc.{Assoc, insert}
use kube_loxilb.Base.Int.{int_eq, ℤ}
use kube_loxilb.Base.Outcome.{Outcome, err, ok, panic}
use kube_loxilb.Gateway.Types.{
  BackendRef, GwService, GwServicePort, Listener, Marks, Route, mark_of, or_empty,
}
use kube_loxilb.IpPool.Range.{value}
use kube_loxilb.Text.{concat, contains_text}

-- The differences of the two managers: the annotation that names the route, and the protocol of the port,
-- which the TCP manager leaves open.
pub record RouteKind : Type 0 where
  pub parent_key : String
  pub protocol : String

abbrev pub tcp_route : RouteKind
tcp_route = record { parent_key = "parent-tcp-route"; protocol = "" }

abbrev pub udp_route : RouteKind
udp_route = record { parent_key = "parent-udp-route"; protocol = "UDP" }

-- The marks of a route on its services.
unfoldable pub with_marks : RouteKind → String → String → Marks → Assoc String
with_marks kind provider name marks =
    insert kind.parent_key name (insert "gateway-api-controller" provider (or_empty marks))

-- A map that is written through its alias: nil stays nil.
abbrev pub aliased : Marks → Assoc String → Marks
aliased none m = none
aliased (some _) m = some m

abbrev says : Option String → String → Bool
says none v = false
says (some x) v = x == v

-- The annotations say that this route has made the service.
unfoldable pub owned_by : RouteKind → String → String → GwService → Bool
unfolding mark_of
owned_by kind provider name svc =
    says (mark_of "gateway-api-controller" svc.annotations) provider
    && says (mark_of kind.parent_key svc.annotations) name

-- The state of a manager at work on a route: the cluster, and the annotations of the route.
pub record RouteState (S : Type 0) : Type 0 where
  pub kube : S
  pub marks : Marks

abbrev pub ports_of : RouteKind → Listener → ℤ → List GwServicePort
ports_of kind l target =
    record { name = ""; port = l.port; target_port = target; protocol = kind.protocol } ∷ []

-- The selector of a new service, from two labels of the route.
abbrev selector_from : Option String → Option String → Assoc String
selector_from (some key) (some value) = (key, value) ∷ []
selector_from _ _ = []

unfoldable pub selector_of : Marks → Marks
unfolding mark_of
selector_of none = none
selector_of (some ls) =
    some (selector_from (mark_of "selectorkey" (some ls)) (mark_of "selectorvalue" (some ls)))

-- The service that createService makes.
unfoldable pub created_service :
    RouteKind → String → Route → String → BackendRef → String → Listener → ℤ → Marks → GwService
unfolding with_marks selector_of
created_service kind provider r ns b address l target marks = record {
  namespace = ns;
  name = b.name;
  annotations = some (with_marks kind provider r.name marks);
  labels = some (("ipam-address", address) ∷ ("implementation", "kube-loxilb") ∷ []);
  service_type = "LoadBalancer";
  load_balancer_class = some provider;
  load_balancer_ip = address;
  ports = ports_of kind l target;
  selector = selector_of r.labels;
  cluster_ip = "";
  cluster_ips = [];
  resource_version = "";
}

unfoldable pub duplicate_name : String → String
unfolding concat
duplicate_name name = concat (name ∷ "-gw-api" ∷ [])

abbrev with_address : String → Marks → Marks
with_address address labels =
    some (insert "implementation" "kube-loxilb" (insert "ipam-address" address (or_empty labels)))

-- The copy that duplicateService makes.
unfoldable pub duplicated_service :
    RouteKind → String → Route → GwService → BackendRef → String → Listener → ℤ → Marks → GwService
unfolding with_marks duplicate_name
duplicated_service kind provider r svc b address l target marks = record svc {
  name = duplicate_name b.name;
  resource_version = "";
  cluster_ip = "";
  cluster_ips = [];
  annotations = some (with_marks kind provider r.name marks);
  labels = with_address address svc.labels;
  service_type = "LoadBalancer";
  load_balancer_class = some provider;
  load_balancer_ip = address;
  ports = ports_of kind l target;
}

-- The annotations that the route does not have go, where they are of loxilb.
drop_stale : Marks → Assoc String → Assoc String
unfolding contains_text mark_of
drop_stale marks [] = []
drop_stale marks ((k, v) ∷ rest) =
    let kept = drop_stale marks rest in
    if contains_text k "loxilb.io" && not (is_some (mark_of k marks)) then kept else (k, v) ∷ kept

copy_marks : Assoc String → Assoc String → Assoc String
copy_marks [] m = m
copy_marks ((k, v) ∷ rest) m = copy_marks rest (insert k v m)

-- The service that updateService writes, by its annotations, its class and the port of the backend: it
-- panics where one of them is nil.
unfoldable pub update_by :
    RouteKind
    → String
    → Route
    → GwService
    → String
    → Listener
    → Marks
    → Marks
    → Option String
    → Option ℤ
    → Outcome GwService
unfolding drop_stale copy_marks with_marks
update_by kind provider r svc address l marks none class target = panic
update_by kind provider r svc address l marks (some old) none target = panic
update_by kind provider r svc address l marks (some old) (some _) none = panic
update_by kind provider r svc address l marks (some old) (some _) (some t) =
    let kept = copy_marks (or_empty marks) (drop_stale marks old) in
    ok (record svc {
      annotations = some (with_marks kind provider r.name (some kept));
      load_balancer_class = some provider;
      service_type = "LoadBalancer";
      load_balancer_ip = address;
      ports = ports_of kind l t;
      labels = with_address address svc.labels;
    })

unfoldable pub updated_service :
    RouteKind
    → String
    → Route
    → GwService
    → String
    → Listener
    → Option ℤ
    → Marks
    → Outcome GwService
unfolding update_by
updated_service kind provider r svc address l target marks =
    update_by kind provider r svc address l marks svc.annotations svc.load_balancer_class target

abbrev pub written : {S : Type 0} → Option String × S → Outcome (Unit {0}) × S
written (none, st) = (ok tt, st)
written (some t, st) = (err t, st)
