-- ===== src/Egress/Examples.antt =====
-- Runs of the egress manager.
use kube_loxilb.Api.Client.{LoxiClient}
use kube_loxilb.Api.Firewall.{FwRest, FwRuleMod}
use kube_loxilb.Api.LbModel.{ep_select_eq}
use kube_loxilb.Base.{
  Bool-cases, List, [], ap, arith, bool_eq, eq_iff, false, if◌then◌else◌, inl, inr, is_some, map,
  nat_eq, none, refl, some, string_eq, subst, sym, true, ◌==◌, ◌∷◌, ◌≡◌,
}
use kube_loxilb.Base.Assoc.{lookup}
use kube_loxilb.Base.Int.{int_eq}
use kube_loxilb.Base.Outcome.{ok, panic}
use kube_loxilb.Egress.{
  EgressCluster, EgressCrd, add_egress, egress_addresses, enqueue_egress, is_to4,
  make_loxi_firewall_model, other_final_state, process_next, rate_limited,
}
use kube_loxilb.Egress.Laws.{
  SourcesFit, TakesFullLength, add_egress-all_accepted, all_accepted,
  make_loxi_firewall_model-sources, some_accepts,
}
use kube_loxilb.Fixture.{demo_net, demo_parse_cidr, v4}
use kube_loxilb.Lb.Fixture.{client}
use kube_loxilb.Net.{IpAddr, Net}
use kube_loxilb.Text.{concat, contains_text}

abbrev pod_egress : EgressCrd
pod_egress = record {
  namespace = "default";
  name = "out";
  annotations = [];
  addresses = "10.9.0.0/16" ∷ "10.1.2.3" ∷ "no address" ∷ [];
  selector = ("app", "web") ∷ [];
  vip = "20.0.0.1";
}

abbrev one_pod : EgressCluster
one_pod = record {
  pod_ips = λ ns sel. ok (("10.1.0.7" ∷ "" ∷ []) ∷ []);
  multus_endpoints = λ ns sel nets family. ok [];
}

-- The first instance refuses, and the second one knows the rules.
abbrev answers : FwRest
answers = record { answer = λ log s. if s.host == "a" then some "refused" else some "rule exists" }

abbrev hosts : List LoxiClient
hosts = client "a" ∷ client "b" ∷ []

made :
    map (λ (fw : FwRuleMod). fw.rule.src_ip) (make_loxi_firewall_model demo_net one_pod pod_egress)
    ≡ "10.9.0.0/16" ∷ "10.1.2.3/32" ∷ "10.1.0.7/32" ∷ []
unfolding make_loxi_firewall_model lookup demo_parse_cidr
made = refl

-- Without an instance a deleted resource goes back into the queue, whenever it has a rule.
never_deleted :
    (process_next demo_net answers [] one_pod false (some pod_egress) []).0 ≡ ok rate_limited
unfolding process_next lookup demo_parse_cidr
never_deleted = refl

-- A last known state of another type is queued as a nil pointer, which the worker reads.
nil_item :
    (enqueue_egress other_final_state ≡ some none)
    × ((process_next demo_net answers hosts one_pod false none []).0 ≡ panic)
unfolding enqueue_egress process_next
nil_item = (refl, refl)

-- A network library that knows one address.
abbrev small_net : Net
small_net = record demo_net { parse_ip = λ s. if s == "10.1.2.3" then some (v4 10 1 2 3) else none }

small_net-TakesFullLength : TakesFullLength small_net
unfolding demo_parse_cidr concat is_to4
small_net-TakesFullLength a ip h = elim (Bool-cases (a == "10.1.2.3")) [
  | inl e ↦
      let found : some (v4 10 1 2 3) ≡ some ip = rw e at h in
      subst
        (λ b.
          is_some (small_net.parse_cidr (concat (b ∷ (if is_to4 ip then "/32" else "/128") ∷ [])))
          ≡ true)
        (sym ((eq_iff a "10.1.2.3").0 e))
        (subst
          (λ i.
            is_some (
              small_net.parse_cidr
                (concat ("10.1.2.3" ∷ (if is_to4 i then "/32" else "/128") ∷ [])))
            ≡ true)
          (some_value found) refl)
  | inr e ↦ absurd (ground (arith, h, e))
]
  where
    some_value : {x y : IpAddr} → some x ≡ some y → x ≡ y
    some_value {x} k = ap (λ o. elim o [ none ↦ x | some v ↦ v ]) k

make_loxi_firewall_model-sources_example :
    SourcesFit small_net small_net-TakesFullLength "20.0.0.1"
      ("10.9.0.0/16" ∷ "10.1.2.3" ∷ [])
      (make_loxi_firewall_model small_net one_pod pod_egress)
unfolding egress_addresses lookup demo_parse_cidr
make_loxi_firewall_model-sources_example =
    make_loxi_firewall_model-sources small_net small_net-TakesFullLength one_pod pod_egress
      ("10.9.0.0/16" ∷ "10.1.2.3" ∷ "no address" ∷ "10.1.0.7" ∷ []) refl

add_egress-all_accepted_example :
    (add_egress demo_net answers hosts one_pod pod_egress []).0 ≡ ok tt
unfolding all_accepted make_loxi_firewall_model lookup demo_parse_cidr some_accepts contains_text
add_egress-all_accepted_example =
    (add_egress-all_accepted demo_net answers hosts one_pod pod_egress []).0.1 refl
