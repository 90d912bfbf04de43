-- ===== src/Lb/Add/Wellformed.antt =====
-- The cache of loadbalancer.go: its pairs stand under their keys, and each has its one rule.
use kube_loxilb.Api.LbModel.{LbModel, ep_select_eq}
use kube_loxilb.Base.{
  Bool-cases, Option, String, [], ap, arith, bool_eq, eq_iff, if◌then◌else◌, inl, inr, map, nat_eq,
  none, refl, some, string_eq, subst, sym, ◌==◌, ◌∙◌, ◌∷◌, ◌≡◌,
}
use kube_loxilb.Base.Assoc.{Assoc, insert, lookup, lookup-insert}
use kube_loxilb.Base.Int.{int_eq}
use kube_loxilb.Base.Outcome.{Outcome, Outcome-cases, ok}
use kube_loxilb.Config.{NetworkConfig}
use kube_loxilb.K8s.{Cluster}
use kube_loxilb.Lb.Add.{add_pair, pair_key, put, remove_endpoints, without_endpoints}
use kube_loxilb.Lb.Model.{LbArgs, make_endpoints, make_loxi_lb_model, target_ports}
use kube_loxilb.Lb.Model.Laws.{no_model}
use kube_loxilb.Lb.Types.{LbCacheEntry, LbServicePairEntry, Manager, Service, ServicePort}
use kube_loxilb.Net.{Net}

-- A property of every entry of a map.
abbrev pub Every : {V : Type 0} → (String → V → Type 0) → Assoc V → Type 0
Every P entries = (k : String) (v : _) → lookup k entries ≡ some v → P k v

ok_some : {V : Type 0} → {a b : V} → some a ≡ some b → a ≡ b
ok_some {V} {a} h = ap (λ o. elim o [ none ↦ a | some v ↦ v ]) h

pub Every-insert :
    {V : Type 0} (P : String → V → Type 0) (key : String) (new : V) (entries : Assoc V)
    → P key new
    → Every P entries
    → Every P (insert key new entries)
Every-insert P key new entries p every k v h =
    let found : (if key == k then some new else lookup k entries) ≡ some v =
      sym (lookup-insert key k new entries) ∙ h in
    elim (Bool-cases (key == k)) [
      | inl e ↦
          subst (λ w. P k w) (ok_some (rw e at found)) (subst (λ j. P j new) ((eq_iff key k).0 e) p)
      | inr e ↦ every k v (rw e at found)
    ]

-- The pair has one rule, for its own address.
abbrev pub HasOneRule : LbServicePairEntry → Type 0
HasOneRule sp =
    (lb : LbModel) × ((sp.lb_model_list ≡ lb ∷ []) × (lb.service.external_ip ≡ sp.external_ip))

abbrev pub PairFits : String → LbServicePairEntry → Type 0
PairFits k sp = (k ≡ pair_key sp) × HasOneRule sp

abbrev pub EntryFits : String → LbCacheEntry → Type 0
EntryFits k e = Every PairFits e.lb_service_pairs

abbrev pub CacheFits : {S : Type 0} → Manager S → Type 0
CacheFits m = Every EntryFits m.lb_cache

pub EntryFits-add_pair :
    (k : String) (sp : LbServicePairEntry) (e : LbCacheEntry)
    → HasOneRule sp
    → EntryFits k e
    → EntryFits k (add_pair sp e)
unfolding add_pair
EntryFits-add_pair k sp e one fits =
    Every-insert PairFits (pair_key sp) sp e.lb_service_pairs (refl, one) fits

pub CacheFits-put :
    {S : Type 0} (k : String) (e : LbCacheEntry) (m : Manager S)
    → EntryFits k e
    → CacheFits m
    → CacheFits (put k e m)
CacheFits-put k e m fits all = Every-insert EntryFits k e m.lb_cache fits all

pub lookup-remove_endpoints :
    (k : String) (sps : Assoc LbServicePairEntry)
    → lookup k (remove_endpoints sps) ≡ elim (lookup k sps) [
      | none ↦ none
      | some sp ↦ some (record sp { lb_model_list = map without_endpoints sp.lb_model_list })
    ]
unfolding remove_endpoints lookup
lookup-remove_endpoints k [] = refl
lookup-remove_endpoints k ((j, sp) ∷ sps) = elim (Bool-cases (j == k)) [
  | inl e ↦ rw e
  | inr e ↦ rw e (lookup-remove_endpoints k sps)
]

pub make_model-external_ip :
    (net : Net) (config : NetworkConfig) (cluster : Cluster) (args : LbArgs) (svc : Service)
    (port : ServicePort) (lb : LbModel)
    → make_loxi_lb_model net config cluster args svc port ≡ ok lb
    → lb.service.external_ip ≡ args.external_ip
unfolding make_loxi_lb_model
make_model-external_ip net config cluster args svc port lb h =
    elim (Outcome-cases (make_endpoints (target_ports cluster args svc port) args.endpoint_ips)) [
      | inl (es, q) ↦ ap ip_of (sym (rw q at h))
      | inr no_value ↦ absurd (
          no_model _ lb (make_endpoints (target_ports cluster args svc port) args.endpoint_ips)
            no_value h)
    ]
  where
    ip_of : Outcome LbModel → String
    ip_of (ok m) = m.service.external_ip
    ip_of _ = args.external_ip

pub EntryFits-remove_endpoints :
    (k : String) (e : LbCacheEntry)
    → EntryFits k e
    → EntryFits k (record e { lb_service_pairs = remove_endpoints e.lb_service_pairs })
unfolding pair_key
EntryFits-remove_endpoints k e fits j sp h =
    split (lookup j e.lb_service_pairs) refl
      (sym (lookup-remove_endpoints j e.lb_service_pairs) ∙ h)
  where
    split :
        (o : Option LbServicePairEntry)
        → lookup j e.lb_service_pairs ≡ o
        → elim o [
          | none ↦ none
          | some sp ↦ some (record sp { lb_model_list = map without_endpoints sp.lb_model_list })
        ]
          ≡ some sp
        → PairFits j sp
    split none q r = absurd (ground arith)
    split (some old) q r =
        let (key, (lb, (one, ip))) = fits j old q in
        subst (PairFits j) (ok_some r)
          (key, (without_endpoints lb, (ap (map without_endpoints) one, ip)))

pub EntryFits-empty :
    (k : String) (e : LbCacheEntry) → EntryFits k (record e { lb_service_pairs = [] })
unfolding lookup
EntryFits-empty k e j sp h = absurd (ground arith)
