-- ===== src/Gateway/Route/Laws.antt =====
-- What the loops of a route keep of the services of the cluster.
use kube_loxilb.Base.{
  Bool-cases, List, Option, Option-cases, String, [], ap, arith, false, inl, inr, none, refl, some,
  subst, sym, true, ◌∙◌, ◌∷◌, ◌≡◌,
}
use kube_loxilb.Base.Int.{ℤ}
use kube_loxilb.Base.Outcome.{Outcome, err, ok, panic}
use kube_loxilb.Gateway.KubeLaws.{KubeLaws, place_eq, same_place}
use kube_loxilb.Gateway.Route.{RouteKind, RouteState, owned_by, update_by, updated_service}
use kube_loxilb.Gateway.Route.Reconcile.{
  Done, at_gateway, backends_loop, behaviour_of, create_case, create_route, create_service, go_on,
  on_kube, parent_step, reconcile_service, rules_loop, update_service, without_gateway,
}
use kube_loxilb.Gateway.Types.{
  BackendRef, Found, Gateway, GwService, Kube, Listener, Marks, ParentRef, Route, failed,
  find_listener, found, missing, namespace_or,
}
use kube_loxilb.Text.{concat}

module _ (K : Kube) (kind : RouteKind) (provider : String) (laws : KubeLaws K) (r : Route)
    (ns n : String) (svc : GwService) (foreign : owned_by kind provider r.name svc ≡ false)
    (create : behaviour_of K kind provider r.labels ≡ "create") where
  open laws use {stored, names, get_found, create_new, create_other, update_other}

  at_place :
      (st : K.State) (ns' n' : String)
      → same_place ns n ns' n' ≡ true
      → stored st ns n ≡ stored st ns' n'
  at_place st ns' n' h =
      let (e, e') = place_eq ns n ns' n' h in
      ap (λ a. stored st a n) e ∙ ap (λ b. stored st ns' b) e'

  -- The service is there.
  abbrev There : RouteState K.State → Type 0
  There s = stored s.kube ns n ≡ some svc

  abbrev Keeps : (RouteState K.State → Done K kind provider) → Type 0
  Keeps f = (s : RouteState K.State) → There s → There (f s).1

  go_on-There :
      (d : Done K kind provider) (rest : RouteState K.State → Done K kind provider)
      → There d.1
      → Keeps rest
      → There (go_on K kind provider d rest).1
  go_on-There (ok _, s) rest here keeps = keeps s here
  go_on-There (err t, s) rest here keeps = here
  go_on-There (panic, s) rest here keeps = here

  on_kube-There :
      (w : Option String × K.State) (marks : Marks)
      → stored w.1 ns n ≡ some svc
      → There (on_kube K kind provider w marks).1
  on_kube-There (none, st) marks h = h
  on_kube-There (some t, st) marks h = h

  create_keeps :
      (st : K.State) (new : GwService)
      → stored st ns n ≡ some svc
      → stored (K.service_create st new).1 ns n ≡ some svc
  create_keeps st new h = elim (Option-cases (K.service_create st new).0) [
    | inr (t, e) ↦ create_other st new ns n (inl (λ e'. absurd (ground (arith, e, e')))) ∙ h
    | inl e ↦ elim (Bool-cases (same_place ns n new.namespace new.name)) [
      | inr other ↦ create_other st new ns n (inr other) ∙ h
      | inl same ↦
          let clash : some svc ≡ none =
            sym h ∙ at_place st new.namespace new.name same ∙ create_new st new e in
          absurd (ground (arith, clash))
    ]
  ]

  service_eq : {a b : GwService} → some a ≡ some b → a ≡ b
  service_eq {a} k = ap (λ o. elim o [ none ↦ a | some v ↦ v ]) k

  update_keeps :
      (st : K.State) (old new : GwService)
      → stored st ns n ≡ some svc
      → stored st old.namespace old.name ≡ some old
      → owned_by kind provider r.name old ≡ true
      → new.namespace ≡ old.namespace
      → new.name ≡ old.name
      → stored (K.service_update st new).1 ns n ≡ some svc
  update_keeps st old new h was owned e e' =
      elim (Bool-cases (same_place ns n new.namespace new.name)) [
        | inr other ↦ update_other st new ns n other ∙ h
        | inl same ↦
            let there : some svc ≡ some old =
              sym h
              ∙ at_place st new.namespace new.name same
              ∙ ap (λ a. stored st a new.name) e
              ∙ ap (λ b. stored st old.namespace b) e'
              ∙ was in
            let own : owned_by kind provider r.name svc ≡ true =
              subst (λ v. owned_by kind provider r.name v ≡ true) (sym (service_eq there)) owned in
            absurd (ground (arith, own, foreign))
      ]

  updated_places :
      (old new : GwService) (address : String) (l : Listener) (target : Option ℤ) (marks : Marks)
      → updated_service kind provider r old address l target marks ≡ ok new
      → (new.namespace ≡ old.namespace) × (new.name ≡ old.name)
  unfolding updated_service update_by
  updated_places old new address l target marks h =
      split old.annotations old.load_balancer_class target h
    where
      places : Outcome GwService → String × String
      places (ok v) = (v.namespace, v.name)
      places _ = (old.namespace, old.name)

      split :
          (as' : Marks) (class : Option String) (target : Option ℤ)
          → update_by kind provider r old address l marks as' class target ≡ ok new
          → (new.namespace ≡ old.namespace) × (new.name ≡ old.name)
      split none class target k = absurd (ground (arith, k))
      split (some m) none target k = absurd (ground (arith, k))
      split (some m) (some c) none k = absurd (ground (arith, k))
      split (some m) (some c) (some t) k =
          let same = ap places (sym k) in (ap (λ p. p.0) same, ap (λ p. p.1) same)

  update_service-Keeps :
      (old : GwService) (b : BackendRef) (address : String) (l : Listener) (s : RouteState K.State)
      → There s
      → stored s.kube old.namespace old.name ≡ some old
      → owned_by kind provider r.name old ≡ true
      → There (update_service K kind provider r old b address l s).1
  unfolding update_service
  update_service-Keeps old b address l s here was owned =
      by_result (updated_service kind provider r old address l b.port s.marks) refl
    where
      by_result :
          (o : Outcome GwService)
          → updated_service kind provider r old address l b.port s.marks ≡ o
          → There
              (elim o as (λ _. Done K kind provider) [
                | ok new ↦ on_kube K kind provider (K.service_update s.kube new) s.marks
                | err t ↦ (err t, s)
                | panic ↦ (panic, s)
              ]).1
      by_result (ok new) h =
          let (e, e') = updated_places old new address l b.port s.marks h in
          on_kube-There (K.service_update s.kube new) s.marks
            (update_keeps s.kube old new here was owned e e')
      by_result (err t) h = here
      by_result panic h = here

  create_case-Keeps :
      (ns' : String) (b : BackendRef) (address : String) (l : Listener) (s : RouteState K.State)
      (o : Found GwService)
      → There s
      → ((v : GwService) → o ≡ found v → stored s.kube v.namespace v.name ≡ some v)
      → There (create_case K kind provider r ns' b address l s o).1
  unfolding create_case create_service
  create_case-Keeps ns' b address l s (found v) here was =
      elim (Bool-cases (owned_by kind provider r.name v)) [
        | inl owned ↦ rw owned (update_service-Keeps v b address l s here (was v refl) owned)
        | inr other ↦ rw other here
      ]
  create_case-Keeps ns' b address l s missing here was = elim (Option-cases b.port) [
    | inl e ↦ rw e here
    | inr (t, e) ↦ rw e (on_kube-There _ _ (create_keeps s.kube _ here))
  ]
  create_case-Keeps ns' b address l s (failed t) here was = here

  reconcile_service-Keeps :
      (g : Gateway) (l : Listener) (address : String) (b : BackendRef)
      → Keeps (reconcile_service K kind provider r g l address b)
  unfolding reconcile_service
  reconcile_service-Keeps g l address b s here =
      let ns' = namespace_or r.namespace b.namespace in
      rw create (
        create_case-Keeps ns' b address l s (K.get_service s.kube ns' b.name) here (λ v h.
          let there = get_found s.kube ns' b.name v h in
          let (e, e') = names s.kube ns' b.name v there in
          ap (λ a. stored s.kube a v.name) e ∙ ap (λ x. stored s.kube ns' x) e' ∙ there))

  backends_loop-Keeps :
      (g : Gateway) (l : Listener) (address : String) (bs : List BackendRef)
      → Keeps (backends_loop K kind provider r g l address bs)
  unfolding backends_loop
  backends_loop-Keeps g l address [] s here = here
  backends_loop-Keeps g l address (b ∷ bs) s here =
      go_on-There (reconcile_service K kind provider r g l address b s)
        (backends_loop K kind provider r g l address bs)
        (reconcile_service-Keeps g l address b s here) (backends_loop-Keeps g l address bs)

  rules_loop-Keeps :
      (g : Gateway) (l : Listener) (address : String) (rules : List (List BackendRef))
      → Keeps (rules_loop K kind provider r g l address rules)
  unfolding rules_loop
  rules_loop-Keeps g l address [] s here = here
  rules_loop-Keeps g l address (bs ∷ rules) s here =
      go_on-There (backends_loop K kind provider r g l address bs s)
        (rules_loop K kind provider r g l address rules) (backends_loop-Keeps g l address bs s here)
        (rules_loop-Keeps g l address rules)

  at_gateway-Keeps : (p : ParentRef) (g : Gateway) → Keeps (at_gateway K kind provider r p g)
  unfolding at_gateway
  at_gateway-Keeps p g s here = at_addresses g.status_addresses
    where
      at_addresses :
          (as' : List String)
          → There
              (elim as' as (λ _. Done K kind provider) [
                | [] ↦ (
                  err (
                      concat (
                        "gateway " ∷ g.namespace ∷ "/" ∷ g.name ∷ " has no addresses assigned"
                        ∷ [])),
                  s,
                )
                | address ∷ _ ↦ elim (find_listener g p) as (λ _. Done K kind provider) [
                  | none ↦ (ok tt, s)
                  | some l ↦ rules_loop K kind provider r g l address r.rules s
                ]
              ]).1
      at_addresses [] = here
      at_addresses (address ∷ more) = elim (Option-cases (find_listener g p)) [
        | inl e ↦ rw e here
        | inr (l, e) ↦ rw e (rules_loop-Keeps g l address r.rules s here)
      ]

  without_gateway-Keeps : (p : ParentRef) (t : String) → Keeps (without_gateway K kind provider p t)
  unfolding without_gateway
  without_gateway-Keeps p t s here = elim (Option-cases p.namespace) [
    | inl e ↦ rw e here
    | inr (x, e) ↦ rw e here
  ]

  parent_step-Keeps : (p : ParentRef) → Keeps (parent_step K kind provider r p)
  unfolding parent_step
  parent_step-Keeps p s here =
      by_answer (K.get_gateway s.kube (namespace_or r.namespace p.namespace) p.name)
    where
      by_answer :
          (o : Found Gateway)
          → There
              (elim o as (λ _. Done K kind provider) [
                | found g ↦ at_gateway K kind provider r p g s
                | missing ↦ without_gateway K kind provider p "gateway not found" s
                | failed t ↦ without_gateway K kind provider p t s
              ]).1
      by_answer (found g) = at_gateway-Keeps p g s here
      by_answer missing = without_gateway-Keeps p "gateway not found" s here
      by_answer (failed t) = without_gateway-Keeps p t s here

  create_route-Keeps : (ps : List ParentRef) → Keeps (create_route K kind provider r ps)
  unfolding create_route
  create_route-Keeps [] s here = here
  create_route-Keeps (p ∷ ps) s here =
      go_on-There (parent_step K kind provider r p s) (create_route K kind provider r ps)
        (parent_step-Keeps p s here) (create_route-Keeps ps)

  -- A route that creates its services never changes a service that its annotations do not name as its own:
  -- whatever createTCPRoute or createUDPRoute comes to, and at whichever reads and writes the API server
  -- fails, the service is stored afterwards as it was before.
  pub create_route_foreign :
      (s : RouteState K.State)
      → stored s.kube ns n ≡ some svc
      → stored (create_route K kind provider r r.parent_refs s).1.kube ns n ≡ some svc
  create_route_foreign s here = create_route-Keeps r.parent_refs s here
