-- ===== src/Gateway/Fixture.antt =====
-- A small cluster with room for one service: a client with the laws of KubeLaws, to evaluate the model on.
use kube_loxilb.Api.LbModel.{ep_select_eq}
use kube_loxilb.Base.{
  All, Bool, Bool-cases, List, Option, String, [], ap, arith, bool_eq, eq_iff, eq_refl, false,
  if◌then◌else◌, inl, inr, nat_eq, none, refl, some, string_eq, subst, sym, true, ◌&&◌, ◌==◌, ◌∙◌,
  ◌∷◌, ◌≡◌, ◌≢◌, ◌⊎◌,
}
use kube_loxilb.Base.Int.{int_eq, pos}
use kube_loxilb.Gateway.KubeLaws.{KubeLaws, Mem, place_eq, same_place}
use kube_loxilb.Gateway.Types.{Found, Gateway, GwService, Kube, found, missing}
use kube_loxilb.Lb.Model.{refused}

abbrev pub is_at : String → String → GwService → Bool
is_at ns n svc = same_place ns n svc.namespace svc.name

abbrev pub Slot : Type 0
Slot = Option GwService

unfoldable pub slot_get : Slot → String → String → Found GwService
slot_get none ns n = missing
slot_get (some v) ns n = if is_at ns n v then found v else missing

unfoldable pub slot_list : Slot → String → Found (List GwService)
slot_list none ns = found []
slot_list (some v) ns = found (if v.namespace == ns then v ∷ [] else [])

unfoldable pub slot_create : Slot → GwService → Option String × Slot
slot_create none new = (none, some new)
slot_create (some v) new = (some "exceeded quota", some v)

unfoldable pub slot_update : Slot → GwService → Option String × Slot
slot_update none new = (some "not found", none)
slot_update (some v) new =
    if is_at new.namespace new.name v then (none, some new) else (some "not found", some v)

unfoldable pub slot_delete : Slot → String → String → Option String × Slot
slot_delete none ns n = (some "not found", none)
slot_delete (some v) ns n = if is_at ns n v then (none, none) else (some "not found", some v)

abbrev pub front : Gateway
front = record {
  namespace = "infra";
  name = "front";
  class_name = "loxilb";
  annotations = none;
  labels = none;
  spec_addresses = "10.0.0.1" ∷ [];
  status_addresses = "10.0.0.1" ∷ [];
  listeners =
      record { name = "tcp"; protocol = "TCP"; port = pos 21000; hostname = none; tls = none } ∷ [];
  conditions = [];
}

abbrev pub slot_kube : Kube
slot_kube = record {
  State = Slot;
  get_service = slot_get;
  list_services = slot_list;
  service_create = slot_create;
  service_update = slot_update;
  service_delete = slot_delete;
  get_gateway = λ st ns n. if ns == "infra" && n == "front" then found front else missing;
}

unfoldable pub slot_stored : Slot → String → String → Option GwService
slot_stored none ns n = none
slot_stored (some v) ns n = if is_at ns n v then some v else none

some_of : {a b : GwService} → some a ≡ some b → a ≡ b
some_of {a} k = ap (λ o. elim o [ none ↦ a | some v ↦ v ]) k

pub slot_names :
    (st : Slot) (ns n : String) (svc : GwService)
    → slot_stored st ns n ≡ some svc
    → (svc.namespace ≡ ns) × (svc.name ≡ n)
unfolding slot_stored
slot_names none ns n svc h = absurd (ground (arith, h))
slot_names (some v) ns n svc h = elim (Bool-cases (is_at ns n v)) [
  | inr e ↦ absurd (ground (arith, h, e))
  | inl e ↦
      let (p, q) = place_eq ns n v.namespace v.name e in
      subst (λ w. (w.namespace ≡ ns) × (w.name ≡ n)) (some_of (rw e at h)) (sym p, sym q)
]

pub slot_get_found :
    (st : Slot) (ns n : String) (svc : GwService)
    → slot_get st ns n ≡ found svc
    → slot_stored st ns n ≡ some svc
unfolding slot_stored slot_get
slot_get_found none ns n svc h = absurd (ground (arith, h))
slot_get_found (some v) ns n svc h = ground (arith, h)

at_home : (v : GwService) → is_at v.namespace v.name v ≡ true
at_home v = ground (arith, eq_refl v.namespace, eq_refl v.name)

abbrev services_of : Found (List GwService) → List GwService
services_of (found svcs) = svcs
services_of _ = []

pub slot_list_sound :
    (st : Slot) (ns : String) (svcs : List GwService)
    → slot_list st ns ≡ found svcs
    → All (λ svc. slot_stored st ns svc.name ≡ some svc) svcs
unfolding slot_stored slot_list
slot_list_sound none ns svcs h = subst (All _) (ap services_of h) tt
slot_list_sound (some v) ns svcs h = elim (Bool-cases (v.namespace == ns)) [
  | inr e ↦ subst (All _) (ap services_of (rw e at h)) tt
  | inl e ↦
      subst (All _) (ap services_of (rw e at h))
        (ground (arith, e, eq_iff v.namespace ns, eq_iff ns v.namespace, eq_refl v.name), tt)
]

pub slot_list_complete :
    (st : Slot) (ns n : String) (svcs : List GwService) (svc : GwService)
    → slot_list st ns ≡ found svcs
    → slot_stored st ns n ≡ some svc
    → Mem svc svcs
unfolding slot_stored slot_list
slot_list_complete none ns n svcs svc h k = absurd (ground (arith, k))
slot_list_complete (some v) ns n svcs svc h k = elim (Bool-cases (is_at ns n v)) [
  | inr e ↦ absurd (ground (arith, k, e))
  | inl e ↦
      let (p, q) = place_eq ns n v.namespace v.name e in
      let own : (v.namespace == ns) ≡ true = (eq_iff v.namespace ns).1 (sym p) in
      subst (Mem svc) (ap services_of (rw own at h)) (inl (sym (some_of (rw e at k))))
]

pub slot_create_new :
    (st : Slot) (svc : GwService)
    → (slot_create st svc).0 ≡ none
    → slot_stored st svc.namespace svc.name ≡ none
unfolding slot_stored slot_create
slot_create_new none svc h = refl
slot_create_new (some v) svc h = absurd (ground (arith, h))

pub slot_create_other :
    (st : Slot) (svc : GwService) (ns n : String)
    → ((slot_create st svc).0 ≢ none) ⊎ (same_place ns n svc.namespace svc.name ≡ false)
    → slot_stored (slot_create st svc).1 ns n ≡ slot_stored st ns n
unfolding slot_stored slot_create
slot_create_other none svc ns n (inl refused) = absurd (refused refl)
slot_create_other none svc ns n (inr other) = ground (arith, other)
slot_create_other (some v) svc ns n h = refl

pub slot_update_other :
    (st : Slot) (svc : GwService) (ns n : String)
    → same_place ns n svc.namespace svc.name ≡ false
    → slot_stored (slot_update st svc).1 ns n ≡ slot_stored st ns n
unfolding slot_stored slot_update
slot_update_other none svc ns n other = refl
slot_update_other (some v) svc ns n other = elim (Bool-cases (is_at svc.namespace svc.name v)) [
  | inr e ↦ rw e refl
  | inl e ↦
      let (p, q) = place_eq svc.namespace svc.name v.namespace v.name e in
      let away : same_place ns n v.namespace v.name ≡ false =
        ap (λ a. same_place ns n a v.name) (sym p)
        ∙ ap (λ b. same_place ns n svc.namespace b) (sym q)
        ∙ other in
      rw e (rw (other, away) refl)
]

pub slot_delete_stored :
    (st : Slot) (ns n ns' n' : String)
    → (slot_delete st ns n).0 ≡ none
    → slot_stored (slot_delete st ns n).1 ns' n'
      ≡ (if same_place ns' n' ns n then none else slot_stored st ns' n')
unfolding slot_stored slot_delete
slot_delete_stored none ns n ns' n' h = absurd (ground (arith, h))
slot_delete_stored (some v) ns n ns' n' h = elim (Bool-cases (is_at ns n v)) [
  | inr e ↦ absurd (ground (arith, h, e))
  | inl e ↦
      let (p, q) = place_eq ns n v.namespace v.name e in
      let same : same_place ns' n' v.namespace v.name ≡ same_place ns' n' ns n =
        ap (λ a. same_place ns' n' a v.name) (sym p) ∙ ap (λ b. same_place ns' n' ns b) (sym q) in
      rw (e, same) (ground arith)
]

abbrev pub slot_laws : KubeLaws slot_kube
slot_laws = record {
  stored = slot_stored;
  names = slot_names;
  get_found = slot_get_found;
  list_sound = slot_list_sound;
  list_complete = slot_list_complete;
  create_new = slot_create_new;
  create_other = slot_create_other;
  update_other = slot_update_other;
  delete_stored = slot_delete_stored;
}
