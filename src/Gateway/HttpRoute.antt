-- ===== src/Gateway/HttpRoute.antt =====
-- httproute.go: an HTTP route becomes an ingress for each listener that it names. The annotations of the
-- ingress are the map of the route itself, so they are written to the route too.
use kube_loxilb.Api.LbModel.{ep_select_eq}
use kube_loxilb.Base.{
  Bool, List, Option, String, [], bool_eq, false, if◌then◌else◌, keep_if, map, nat_eq, none, some,
  string_eq, ◌&&◌, ◌++◌, ◌==◌, ◌∷◌,
}
use kube_loxilb.Base.Assoc.{Assoc, insert}
use kube_loxilb.Base.Int.{int_eq, pos, ℤ}
use kube_loxilb.Base.Outcome.{Outcome, err, ok, panic}
use kube_loxilb.Gateway.Route.{aliased}
use kube_loxilb.Gateway.Types.{
  BackendRef, CertRef, Found, Gateway, Listener, Marks, ParentRef, failed, find_listener, found,
  mark_text, missing, namespace_or, or_empty,
}
use kube_loxilb.Lb.Discovery.Marks.{hosts}
use kube_loxilb.Text.{concat}

pub record HttpPathMatch : Type 0 where
  pub value : Option String
  pub type : Option String

pub record HttpRule : Type 0 where
  pub matches : List (Option HttpPathMatch)
  pub backends : List BackendRef

pub record HttpRoute : Type 0 where
  pub namespace : String
  pub name : String
  pub annotations : Marks
  pub hostnames : List String
  pub parent_refs : List ParentRef
  pub rules : List HttpRule

-- netv1.HTTPIngressPath: the path, its type, and the service with its port, 0 for none.
pub record IngressPath : Type 0 where
  pub path : String
  pub path_type : Option String
  pub service : String
  pub port : ℤ

pub record IngressRule : Type 0 where
  pub host : String
  pub paths : List IngressPath

pub record IngressTls : Type 0 where
  pub secret_name : String
  pub hosts : List String

pub record HttpIngress : Type 0 where
  pub namespace : String
  pub name : String
  pub annotations : Assoc String
  pub class_name : String
  pub tls : List IngressTls
  pub rules : List IngressRule

-- The client of the cluster, as far as the manager calls it.
pub record IngressApi : Type 1 where
  pub State : Type 0
  pub gateway_get : State → String → String → Outcome Gateway
  pub ingress_create : State → HttpIngress → Option String × State
  pub ingress_list : State → String → Outcome (List HttpIngress)
  pub ingress_delete : State → String → String → Option String × State

-- A backend in another namespace is noted in the annotations.
unfoldable pub note_backend : String → BackendRef → Assoc String → Assoc String
unfolding concat
note_backend own b m = elim b.namespace [
  | none ↦ m
  | some ns ↦
      if own == ns
      then m
      else insert (concat ("service-" ∷ b.name ∷ "-namespace" ∷ [])) ns
          (insert "external-backend-service" "true" m)
]

abbrev pub note_backends : String → List BackendRef → Assoc String → Assoc String
unfolding note_backend
note_backends own [] m = m
note_backends own (b ∷ bs) m = note_backends own bs (note_backend own b m)

abbrev pub note_matches :
    String → List BackendRef → List (Option HttpPathMatch) → Assoc String → Assoc String
note_matches own bs [] m = m
note_matches own bs (p ∷ ps) m = note_matches own bs ps (note_backends own bs m)

unfoldable pub note_rules : String → List HttpRule → Assoc String → Assoc String
note_rules own [] m = m
note_rules own (r ∷ rs) m = note_rules own rs (note_matches own r.backends r.matches m)

-- The type of a path: exact, or a prefix for any other type that is given.
abbrev pub path_type_of : Option String → Option String
path_type_of none = none
path_type_of (some t) = some (if t == "Exact" then "Exact" else "Prefix")

unfoldable pub ingress_path : Option HttpPathMatch → BackendRef → IngressPath
ingress_path m b = record {
  path = elim m [ none ↦ "" | some p ↦ elim p.value [ none ↦ "" | some v ↦ v ] ];
  path_type = elim m [ none ↦ none | some p ↦ path_type_of p.type ];
  service = b.name;
  port = elim b.port [ none ↦ pos 0 | some n ↦ n ];
}

unfoldable pub rule_paths : List (Option HttpPathMatch) → List BackendRef → List IngressPath
unfolding ingress_path
rule_paths [] bs = []
rule_paths (m ∷ ms) bs = map (ingress_path m) bs ++ rule_paths ms bs

unfoldable pub ingress_rules : List String → List HttpRule → List IngressRule
unfolding rule_paths
ingress_rules hosts [] = []
ingress_rules hosts (r ∷ rs) =
    map (λ h. record { host = h; paths = rule_paths r.matches r.backends }) hosts
    ++ ingress_rules hosts rs

-- The host of the listener goes before those of the route.
unfoldable pub route_hosts : Listener → HttpRoute → List String
route_hosts l r = elim l.hostname [ none ↦ r.hostnames | some h ↦ h ∷ [] ]

abbrev pub names_secret : CertRef → Bool
names_secret c = elim c.kind [ none ↦ false | some k ↦ k == "Secret" ]

unfoldable pub ingress_tls : Listener → List String → List IngressTls
ingress_tls l hosts = elim l.tls [
  | none ↦ []
  | some refs ↦
      map (λ c. record { secret_name = c.name; hosts = hosts }) (keep_if names_secret refs)
]

-- The annotations of the ingress.
unfoldable pub ingress_marks : String → HttpRoute → Gateway → Marks → Assoc String
unfolding note_rules
ingress_marks provider r g marks = note_rules r.namespace r.rules (
    insert "parent-http-route" r.name (
      insert "parent-gateway-namespace" g.namespace (
        insert "parent-gateway" g.name
          (insert "gateway-api-controller" provider (or_empty marks)))))

-- The ingress of createIngress.
unfoldable pub http_ingress : String → HttpRoute → Gateway → Listener → Marks → HttpIngress
unfolding ingress_marks ingress_rules ingress_tls route_hosts
http_ingress provider r g l marks = record {
  namespace = r.namespace;
  name = r.name;
  annotations = ingress_marks provider r g marks;
  class_name = "loxilb";
  tls = ingress_tls l (route_hosts l r);
  rules = ingress_rules (route_hosts l r) r.rules;
}

module _ (I : IngressApi) (provider : String) where
  -- The result, the cluster, and the annotations of the route.
  abbrev pub HttpDone : Type 0
  HttpDone = Outcome (Unit {0}) × I.State × Marks

  -- reconcileIngress: an error of the creation is not passed on.
  unfoldable pub reconcile_ingress : HttpRoute → Gateway → Listener → I.State → Marks → HttpDone
  unfolding http_ingress ingress_marks
  reconcile_ingress r g l st marks =
      let (e, st') = I.ingress_create st (http_ingress provider r g l marks) in
      (ok tt, st', aliased marks (ingress_marks provider r g marks))

  unfoldable pub http_at_gateway : HttpRoute → ParentRef → Gateway → I.State → Marks → HttpDone
  unfolding reconcile_ingress find_listener concat
  http_at_gateway r p g st marks = elim g.status_addresses [
    | [] ↦ (
      err (concat ("gateway " ∷ g.namespace ∷ "/" ∷ g.name ∷ " has no addresses assigned" ∷ [])),
      st,
      marks,
    )
    | _ ∷ _ ↦ elim (find_listener g p) [
      | none ↦ (ok tt, st, marks)
      | some l ↦ reconcile_ingress r g l st marks
    ]
  ]

  -- createHTTPRoute
  unfoldable pub create_http_route : HttpRoute → List ParentRef → I.State → Marks → HttpDone
  unfolding http_at_gateway
  create_http_route r [] st marks = (ok tt, st, marks)
  create_http_route r (p ∷ ps) st marks =
      elim (I.gateway_get st (namespace_or r.namespace p.namespace) p.name) [
        | err t ↦ (err t, st, marks)
        | panic ↦ (panic, st, marks)
        | ok g ↦
            let (e, st', marks') = http_at_gateway r p g st marks in
            elim e [
              | ok _ ↦ create_http_route r ps st' marks'
              | err t ↦ (err t, st', marks')
              | panic ↦ (panic, st', marks')
            ]
      ]

  http_delete_loop : String → String → List HttpIngress → I.State → Outcome (Unit {0}) × I.State
  http_delete_loop ns name [] st = (ok tt, st)
  http_delete_loop ns name (i ∷ is) st =
      if mark_text "gateway-api-controller" (some i.annotations) == provider
        && mark_text "parent-http-route" (some i.annotations) == name
      then (let (e, st') = I.ingress_delete st ns i.name in
          elim e [ none ↦ http_delete_loop ns name is st' | some t ↦ (err t, st') ])
      else http_delete_loop ns name is st

  -- deleteHTTPRoute
  unfoldable pub delete_http_route : String → String → I.State → Outcome (Unit {0}) × I.State
  unfolding http_delete_loop
  delete_http_route ns name st = elim (I.ingress_list st ns) [
    | ok is ↦ http_delete_loop ns name is st
    | err t ↦ (err t, st)
    | panic ↦ (panic, st)
  ]

  -- reconcile, by what the lister finds under the key.
  unfoldable pub reconcile_http_route : String → String → Found HttpRoute → I.State → HttpDone
  unfolding create_http_route delete_http_route
  reconcile_http_route ns name (found r) st = create_http_route r r.parent_refs st r.annotations
  reconcile_http_route ns name missing st =
      let (e, st') = delete_http_route ns name st in (e, st', none)
  reconcile_http_route ns name (failed t) st = (err t, st, none)
