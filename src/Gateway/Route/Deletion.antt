-- ===== src/Gateway/Route/Deletion.antt =====
-- What deleteTCPRoute and deleteUDPRoute delete.
use kube_loxilb.Api.LbModel.{ep_select_eq}
use kube_loxilb.Base.{
  All, Bool, Bool-cases, List, Option, Option-cases, String, [], ap, arith, bool_eq, eq_iff,
  eq_refl, false, if◌then◌else◌, inl, inr, nat_eq, none, refl, some, string_eq, subst, sym, true,
  ◌&&◌, ◌==◌, ◌∙◌, ◌∷◌, ◌≡◌, ◌⊎◌,
}
use kube_loxilb.Base.Int.{int_eq}
use kube_loxilb.Base.Outcome.{Outcome, err, ok}
use kube_loxilb.Gateway.KubeLaws.{KubeLaws, Mem, place_eq, same_place}
use kube_loxilb.Gateway.Route.{RouteKind, written}
use kube_loxilb.Gateway.Route.Reconcile.{delete_loop, delete_route, made_by}
use kube_loxilb.Gateway.Types.{Found, GwService, Kube, failed, found, missing}

module _ (K : Kube) (kind : RouteKind) (provider name ns : String) (laws : KubeLaws K) where
  open laws use {stored, names, list_sound, list_complete, delete_stored}

  abbrev is_own : GwService → Bool
  is_own svc = made_by K kind provider name svc

  some_eq : {a b : GwService} → some a ≡ some b → a ≡ b
  some_eq {a} k = ap (λ o. elim o [ none ↦ a | some v ↦ v ]) k

  abbrev loop : List GwService → K.State → Option String × K.State
  loop svcs st = delete_loop K kind provider ns name svcs st

  -- One round of a loop that ends without an error: the service is skipped or deleted.
  delete_loop_round :
      (st : K.State) (v : GwService) (svcs : List GwService)
      → (loop (v ∷ svcs) st).0 ≡ none
      → ((is_own v ≡ false) × (loop (v ∷ svcs) st ≡ loop svcs st))
        ⊎ ((is_own v ≡ true)
            × (((K.service_delete st ns v.name).0 ≡ none)
                × (loop (v ∷ svcs) st ≡ loop svcs (K.service_delete st ns v.name).1)))
  unfolding delete_loop
  delete_loop_round st v svcs done = elim (Bool-cases (is_own v)) [
    | inr e ↦ inl (e, rw e refl)
    | inl e ↦ elim (Option-cases (K.service_delete st ns v.name).0) [
      | inl e' ↦ inr (e, (e', rw (e, e') refl))
      | inr (t, e') ↦ absurd (ground (arith, done, e, e'))
    ]
  ]

  -- An empty place stays empty.
  delete_loop_empties :
      (svcs : List GwService) (st : K.State) (ns' n : String)
      → stored st ns' n ≡ none
      → (loop svcs st).0 ≡ none
      → stored (loop svcs st).1 ns' n ≡ none
  delete_loop_empties [] st ns' n gone done = unfold delete_loop in gone
  delete_loop_empties (v ∷ svcs) st ns' n gone done = elim (delete_loop_round st v svcs done) [
    | inl (e, same) ↦
        ap (λ x. stored x.1 ns' n) same
        ∙ delete_loop_empties svcs st ns' n gone (ap (λ x. x.0) (sym same) ∙ done)
    | inr (e, (ok_delete, same)) ↦
        let st' = (K.service_delete st ns v.name).1 in
        let gone' : stored st' ns' n ≡ none =
          delete_stored st ns v.name ns' n ok_delete ∙ ground (arith, gone) in
        ap (λ x. stored x.1 ns' n) same
        ∙ delete_loop_empties svcs st' ns' n gone' (ap (λ x. x.0) (sym same) ∙ done)
  ]

  -- A place whose service is not the route's, or in another namespace, keeps it. The listed services are
  -- those of a state before the loop.
  delete_loop_spares :
      (svcs : List GwService) (st₀ st : K.State) (ns' n : String) (svc : GwService)
      → All (λ v. stored st₀ ns v.name ≡ some v) svcs
      → stored st₀ ns' n ≡ some svc
      → (ns' == ns && is_own svc) ≡ false
      → stored st ns' n ≡ some svc
      → (loop svcs st).0 ≡ none
      → stored (loop svcs st).1 ns' n ≡ some svc
  delete_loop_spares [] st₀ st ns' n svc sound here other now done = unfold delete_loop in now
  delete_loop_spares (v ∷ svcs) st₀ st ns' n svc sound here other now done =
      elim (delete_loop_round st v svcs done) [
        | inl (e, same) ↦
            ap (λ x. stored x.1 ns' n) same
            ∙ delete_loop_spares svcs st₀ st ns' n svc sound.1 here other now
                (ap (λ x. x.0) (sym same) ∙ done)
        | inr (e, (ok_delete, same)) ↦
            let st' = (K.service_delete st ns v.name).1 in
            let now' : stored st' ns' n ≡ some svc =
              delete_stored st ns v.name ns' n ok_delete ∙ elsewhere e in
            ap (λ x. stored x.1 ns' n) same
            ∙ delete_loop_spares svcs st₀ st' ns' n svc sound.1 here other now'
                (ap (λ x. x.0) (sym same) ∙ done)
      ]
    where
      elsewhere :
          is_own v ≡ true
          → (if same_place ns' n ns v.name then none else stored st ns' n) ≡ some svc
      elsewhere own = elim (Bool-cases (same_place ns' n ns v.name)) [
        | inr e ↦ rw e now
        | inl e ↦
            let (p, q) = place_eq ns' n ns v.name e in
            let same : some svc ≡ some v =
              sym here ∙ ap (λ a. stored st₀ a n) p ∙ ap (λ b. stored st₀ ns b) q ∙ sound.0 in
            let own' : is_own svc ≡ true = subst (λ w. is_own w ≡ true) (sym (some_eq same)) own in
            absurd (ground (arith, own', other, eq_iff ns' ns, p))
      ]

  -- A listed service of the route is gone after the loop.
  delete_loop_deletes :
      (svcs : List GwService) (st : K.State) (svc : GwService)
      → Mem svc svcs
      → is_own svc ≡ true
      → (loop svcs st).0 ≡ none
      → stored (loop svcs st).1 ns svc.name ≡ none
  delete_loop_deletes [] st svc listed own done = absurd listed
  delete_loop_deletes (v ∷ svcs) st svc listed own done = elim (delete_loop_round st v svcs done) [
    | inl (e, same) ↦
        ap (λ x. stored x.1 ns svc.name) same
        ∙ delete_loop_deletes svcs st svc (later e listed) own (ap (λ x. x.0) (sym same) ∙ done)
    | inr (e, (ok_delete, same)) ↦
        let st' = (K.service_delete st ns v.name).1 in
        let rest_done = ap (λ x. x.0) (sym same) ∙ done in
        ap (λ x. stored x.1 ns svc.name) same ∙ elim listed [
          | inr q ↦ delete_loop_deletes svcs st' svc q own rest_done
          | inl p ↦
              delete_loop_empties svcs st' ns svc.name
                (delete_stored st ns v.name ns svc.name ok_delete
                  ∙ ground
                      (arith, eq_refl ns, ap (λ (w : GwService). w.name) p, eq_iff svc.name v.name))
                rest_done
        ]
  ]
    where
      later : is_own v ≡ false → (svc ≡ v) ⊎ Mem svc svcs → Mem svc svcs
      later e (inl p) = absurd (ground (arith, subst (λ w. is_own w ≡ true) p own, e))
      later e (inr q) = q

  written_lem :
      (x : Option String × K.State) → (written x).0 ≡ ok tt → (x.0 ≡ none) × ((written x).1 ≡ x.1)
  written_lem (none, st) h = (refl, refl)
  written_lem (some t, st) h = absurd (ground (arith, h))

  -- A deletion that succeeds takes out exactly the services of the route's namespace that its annotations
  -- name as the route's; every other service is stored as before.
  pub delete_route_exact :
      (st : K.State)
      → let (r, st') = delete_route K kind provider ns name st in
        r ≡ ok tt
        → (ns' n : String) (svc : GwService) → stored st ns' n ≡ some svc
        → stored st' ns' n
          ≡ (if ns' == ns && made_by K kind provider name svc then none else some svc)
  unfolding delete_route
  delete_route_exact st done ns' n svc here = by_list (K.list_services st ns) refl done
    where
      deleted :
          (svcs : List GwService)
          → K.list_services st ns ≡ found svcs
          → (loop svcs st).0 ≡ none
          → (ns' == ns && is_own svc) ≡ true
          → stored (loop svcs st).1 ns' n ≡ none
      deleted svcs h no_error e =
          let p : ns' ≡ ns = ground (arith, e, eq_iff ns' ns) in
          let here' : stored st ns n ≡ some svc = ap (λ a. stored st a n) (sym p) ∙ here in
          let q : svc.name ≡ n = (names st ns n svc here').1 in
          ap (λ a. stored (loop svcs st).1 a n) p
          ∙ ap (λ b. stored (loop svcs st).1 ns b) (sym q)
          ∙ delete_loop_deletes svcs st svc (list_complete st ns n svcs svc h here')
              (ground (arith, e)) no_error

      by_list :
          (o : Found (List GwService))
          → K.list_services st ns ≡ o
          → (let (r, st') = elim o as (λ _. Outcome (Unit {0}) × K.State) [
            | found svcs ↦ written (loop svcs st)
            | missing ↦ (err "not found", st)
            | failed t ↦ (err t, st)
          ] in
              r ≡ ok tt
              → stored st' ns' n
                ≡ (if ns' == ns && made_by K kind provider name svc then none else some svc))
      by_list missing h k = absurd (ground (arith, k))
      by_list (failed t) h k = absurd (ground (arith, k))
      by_list (found svcs) h k =
          let (no_error, same) = written_lem (loop svcs st) k in
          ap (λ x. stored x ns' n) same ∙ elim (Bool-cases (ns' == ns && is_own svc)) [
            | inr e ↦ rw e (
                delete_loop_spares svcs st st ns' n svc (list_sound st ns svcs h) here e here
                  no_error)
            | inl e ↦ rw e (deleted svcs h no_error e)
          ]
