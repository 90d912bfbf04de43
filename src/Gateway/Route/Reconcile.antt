-- ===== src/Gateway/Route/Reconcile.antt =====
-- reconcile, createTCPRoute, reconcileService and deleteTCPRoute, and their like for UDP.
use kube_loxilb.Api.LbModel.{ep_select_eq}
use kube_loxilb.Base.{
  Bool, List, Option, String, [], bool_eq, if◌then◌else◌, nat_eq, none, some, string_eq, ◌&&◌, ◌==◌,
  ◌∷◌,
}
use kube_loxilb.Base.Int.{int_eq}
use kube_loxilb.Base.Outcome.{Outcome, err, ok, panic}
use kube_loxilb.Gateway.Route.{
  RouteKind, RouteState, aliased, created_service, duplicate_name, duplicated_service, owned_by,
  updated_service, with_marks, written,
}
use kube_loxilb.Gateway.Types.{
  BackendRef, Found, Gateway, GwService, Kube, Listener, Marks, ParentRef, Route, failed,
  find_listener, found, mark_of, mark_text, missing, namespace_or,
}
use kube_loxilb.Text.{concat}

module _ (K : Kube) (kind : RouteKind) (provider : String) where
  abbrev pub Done : Type 0
  Done = Outcome (Unit {0}) × RouteState K.State

  -- A write of the cluster, with the annotations of the route.
  abbrev pub on_kube : Option String × K.State → Marks → Done
  on_kube (none, st) marks = (ok tt, record { kube = st; marks = marks })
  on_kube (some t, st) marks = (err t, record { kube = st; marks = marks })

  -- createService
  unfoldable pub create_service :
      Route → String → BackendRef → String → Listener → RouteState K.State → Done
  unfolding created_service with_marks
  create_service r ns b address l s = elim b.port [
    | none ↦ (panic, s)
    | some t ↦
        on_kube (K.service_create s.kube (created_service kind provider r ns b address l t s.marks))
          (aliased s.marks (with_marks kind provider r.name s.marks))
  ]

  -- duplicateService
  unfoldable pub duplicate_service :
      Route → GwService → BackendRef → String → Listener → RouteState K.State → Done
  unfolding duplicated_service duplicate_name with_marks concat
  duplicate_service r svc b address l s =
      elim (K.get_service s.kube svc.namespace (duplicate_name b.name)) [
        | found _ ↦ (
          err (
              concat (
                "unable to duplicate service "
                ∷ svc.namespace
                ∷ "/"
                ∷ duplicate_name b.name
                ∷ ". it already exists"
                ∷ [])),
          s,
        )
        | failed t ↦ (err t, s)
        | missing ↦ elim b.port [
          | none ↦ (panic, s)
          | some t ↦
              on_kube
                (K.service_create s.kube
                  (duplicated_service kind provider r svc b address l t s.marks))
                (aliased s.marks (with_marks kind provider r.name s.marks))
        ]
      ]

  -- updateService: the annotations are those of the service as it was read.
  unfoldable pub update_service :
      Route → GwService → BackendRef → String → Listener → RouteState K.State → Done
  unfolding updated_service
  update_service r svc b address l s =
      elim (updated_service kind provider r svc address l b.port s.marks) [
        | ok new ↦ on_kube (K.service_update s.kube new) s.marks
        | err t ↦ (err t, s)
        | panic ↦ (panic, s)
      ]

  -- serviceBehaviour, by the label of the route.
  unfoldable pub behaviour_of : Marks → String
  unfolding mark_of
  behaviour_of labels =
      let b = mark_text "serviceBehaviour" labels in if b == "" then "create" else b

  abbrev pub FoundService : Type 0
  FoundService = Found GwService

  -- The case "create": a service of the route is updated, a foreign one is an error, and a missing one is
  -- created.
  unfoldable pub create_case :
      Route → String → BackendRef → String → Listener → RouteState K.State → FoundService → Done
  unfolding create_service update_service owned_by concat
  create_case r ns b address l s (found svc) =
      if owned_by kind provider r.name svc then update_service r svc b address l s else (
        err (concat ("unable to create service " ∷ ns ∷ "/" ∷ b.name ∷ ". it already exists" ∷ [])),
        s,
      )
  create_case r ns b address l s missing = create_service r ns b address l s
  create_case r ns b address l s (failed t) = (err t, s)

  -- The cases "duplicate" and "update" on the service that they need.
  unfoldable pub with_service :
      (GwService → Done) → RouteState K.State → String → FoundService → Done
  with_service act s name (found svc) = act svc
  with_service act s name missing = (err (concat (name ∷ " not found" ∷ [])), s)
  with_service act s name (failed t) = (err t, s)

  -- reconcileService
  unfoldable pub reconcile_service :
      Route → Gateway → Listener → String → BackendRef → RouteState K.State → Done
  unfolding behaviour_of create_case with_service duplicate_service update_service concat
  reconcile_service r g l address b s =
      let ns = namespace_or r.namespace b.namespace in
      let svc = K.get_service s.kube ns b.name in
      let behaviour = behaviour_of r.labels in
      if behaviour == "create"
      then create_case r ns b address l s svc
      else if behaviour == "duplicate"
      then with_service (λ v. duplicate_service r v b address l s) s b.name svc
      else if behaviour == "update"
      then with_service (λ v. update_service r v b address l s) s b.name svc
      else (err (concat ("unknown service action " ∷ behaviour ∷ [])), s)

  -- The rest of a loop, after a step that did not fail.
  abbrev pub go_on : Done → (RouteState K.State → Done) → Done
  go_on (ok _, s) rest = rest s
  go_on (err t, s) rest = (err t, s)
  go_on (panic, s) rest = (panic, s)

  unfoldable pub backends_loop :
      Route → Gateway → Listener → String → List BackendRef → RouteState K.State → Done
  unfolding reconcile_service
  backends_loop r g l address [] s = (ok tt, s)
  backends_loop r g l address (b ∷ bs) s =
      go_on (reconcile_service r g l address b s) (backends_loop r g l address bs)

  unfoldable pub rules_loop :
      Route → Gateway → Listener → String → List (List BackendRef) → RouteState K.State → Done
  unfolding backends_loop
  rules_loop r g l address [] s = (ok tt, s)
  rules_loop r g l address (bs ∷ rules) s =
      go_on (backends_loop r g l address bs s) (rules_loop r g l address rules)

  -- The gateway of one parent: its first address, and the listener of the reference, if there is one.
  unfoldable pub at_gateway : Route → ParentRef → Gateway → RouteState K.State → Done
  unfolding rules_loop find_listener concat
  at_gateway r p g s = elim g.status_addresses [
    | [] ↦ (
      err (concat ("gateway " ∷ g.namespace ∷ "/" ∷ g.name ∷ " has no addresses assigned" ∷ [])),
      s,
    )
    | address ∷ _ ↦ elim (find_listener g p) [
      | none ↦ (ok tt, s)
      | some l ↦ rules_loop r g l address r.rules s
    ]
  ]

  -- The message about a gateway that is not found reads the namespace of the reference, which may be nil.
  unfoldable pub without_gateway : ParentRef → String → RouteState K.State → Done
  without_gateway p t s = elim p.namespace [ none ↦ (panic, s) | some _ ↦ (err t, s) ]

  unfoldable pub parent_step : Route → ParentRef → RouteState K.State → Done
  unfolding at_gateway without_gateway
  parent_step r p s = elim (K.get_gateway s.kube (namespace_or r.namespace p.namespace) p.name) [
    | found g ↦ at_gateway r p g s
    | missing ↦ without_gateway p "gateway not found" s
    | failed t ↦ without_gateway p t s
  ]

  -- createTCPRoute, createUDPRoute
  unfoldable pub create_route : Route → List ParentRef → RouteState K.State → Done
  unfolding parent_step
  create_route r [] s = (ok tt, s)
  create_route r (p ∷ ps) s = go_on (parent_step r p s) (create_route r ps)

  -- The services of a route in its own namespace, by the test of the deletion, where a missing annotation
  -- reads as the empty text.
  unfoldable pub made_by : String → GwService → Bool
  unfolding mark_of
  made_by name svc =
      mark_text "gateway-api-controller" svc.annotations == provider
      && mark_text kind.parent_key svc.annotations == name

  unfoldable pub delete_loop : String → String → List GwService → K.State → Option String × K.State
  unfolding made_by
  delete_loop ns name [] st = (none, st)
  delete_loop ns name (svc ∷ svcs) st =
      if made_by name svc
      then (let (e, st') = K.service_delete st ns svc.name in
          elim e [ none ↦ delete_loop ns name svcs st' | some t ↦ (some t, st') ])
      else delete_loop ns name svcs st

  -- deleteTCPRoute, deleteUDPRoute
  unfoldable pub delete_route : String → String → K.State → Outcome (Unit {0}) × K.State
  unfolding delete_loop
  delete_route ns name st = elim (K.list_services st ns) [
    | found svcs ↦ written (delete_loop ns name svcs st)
    | missing ↦ (err "not found", st)
    | failed t ↦ (err t, st)
  ]

  -- reconcile, by what the lister finds under the key.
  unfoldable pub reconcile : String → String → Found Route → K.State → Done
  unfolding create_route delete_route
  reconcile ns name (found r) st =
      create_route r r.parent_refs (record { kube = st; marks = r.annotations })
  reconcile ns name missing st =
      let (e, st') = delete_route ns name st in (e, record { kube = st'; marks = none })
  reconcile ns name (failed t) st = (err t, record { kube = st; marks = none })
