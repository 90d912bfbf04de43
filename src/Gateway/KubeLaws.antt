-- ===== src/Gateway/KubeLaws.antt =====
-- What the Kubernetes API documents of services, as hypotheses about the client.
use kube_loxilb.Api.LbModel.{ep_select_eq}
use kube_loxilb.Base.{
  All, Bool, List, Option, String, [], arith, bool_eq, eq_iff, false, if◌then◌else◌, nat_eq, none,
  some, string_eq, true, ◌&&◌, ◌==◌, ◌∷◌, ◌≡◌, ◌≢◌, ◌⊎◌,
}
use kube_loxilb.Base.Int.{int_eq}
use kube_loxilb.Gateway.Types.{GwService, Kube, found}

-- The name and the namespace are those of the service.
abbrev pub same_place : String → String → String → String → Bool
same_place ns n ns' n' = ns == ns' && n == n'

abbrev pub Mem : {A : Type 0} → A → List A → Type 0
Mem x [] = ⊥
Mem x (y ∷ ys) = (x ≡ y) ⊎ Mem x ys

pub place_eq : (ns n ns' n' : String) → same_place ns n ns' n' ≡ true → (ns ≡ ns') × (n ≡ n')
place_eq ns n ns' n' h = (ground (arith, h, eq_iff ns ns'), ground (arith, h, eq_iff n n'))

-- The services that the cluster stores: what the reads tell of them, and what the writes change. A read may
-- fail at any time.
pub record KubeLaws (K : Kube) : Type 1 where
  pub stored : K.State → String → String → Option GwService
  pub names :
      (st : K.State) (ns n : String) (svc : GwService)
      → stored st ns n ≡ some svc
      → (svc.namespace ≡ ns) × (svc.name ≡ n)
  pub get_found :
      (st : K.State) (ns n : String) (svc : GwService)
      → K.get_service st ns n ≡ found svc
      → stored st ns n ≡ some svc
  pub list_sound :
      (st : K.State) (ns : String) (svcs : List GwService)
      → K.list_services st ns ≡ found svcs
      → All (λ svc. stored st ns svc.name ≡ some svc) svcs
  pub list_complete :
      (st : K.State) (ns n : String) (svcs : List GwService) (svc : GwService)
      → K.list_services st ns ≡ found svcs
      → stored st ns n ≡ some svc
      → Mem svc svcs
  pub create_new :
      (st : K.State) (svc : GwService)
      → (K.service_create st svc).0 ≡ none
      → stored st svc.namespace svc.name ≡ none
  pub create_other :
      (st : K.State) (svc : GwService) (ns n : String)
      → ((K.service_create st svc).0 ≢ none) ⊎ (same_place ns n svc.namespace svc.name ≡ false)
      → stored (K.service_create st svc).1 ns n ≡ stored st ns n
  pub update_other :
      (st : K.State) (svc : GwService) (ns n : String)
      → same_place ns n svc.namespace svc.name ≡ false
      → stored (K.service_update st svc).1 ns n ≡ stored st ns n
  pub delete_stored :
      (st : K.State) (ns n ns' n' : String)
      → (K.service_delete st ns n).0 ≡ none
      → stored (K.service_delete st ns n).1 ns' n'
        ≡ (if same_place ns' n' ns n then none else stored st ns' n')
