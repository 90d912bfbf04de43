-- ===== src/Egress.antt =====
-- pkg/agent/manager/egress/egress.go: an Egress resource becomes one firewall rule for each address,
-- on every loxilb instance.
pub mod Laws
pub mod Examples
use kube_loxilb.Api.Client.{LoxiClient}
use kube_loxilb.Api.Firewall.{FwRequest, FwRest, FwRuleMod, FwSent, create_rule, delete_rule}
use kube_loxilb.Api.LbModel.{ep_select_eq}
use kube_loxilb.Base.{
  Bool, List, Option, String, [], all_of, any_of, bool_eq, false, if◌then◌else◌, is_empty, keep_if,
  length, nat_eq, none, not, some, string_eq, take, true, ◌&&◌, ◌++◌, ◌==◌, ◌||◌, ◌∷◌,
}
use kube_loxilb.Base.Assoc.{Assoc, lookup}
use kube_loxilb.Base.Int.{int_eq}
use kube_loxilb.Base.Outcome.{Outcome, err, ok, panic}
use kube_loxilb.IpPool.{bytes_from}
use kube_loxilb.Net.{IpAddr, IpNet, Net}
use kube_loxilb.Text.{concat, contains_text, split}

-- crds/egress/v1: the resource, by the fields that the manager reads.
pub record EgressCrd : Type 0 where
  pub namespace : String
  pub name : String
  pub annotations : Assoc String
  pub addresses : List String
  pub selector : Assoc String
  pub vip : String

-- What the API server answers about the pods of a namespace that a selector picks: their addresses, and
-- those in the given Multus networks.
pub record EgressCluster : Type 0 where
  pub pod_ips : String → Assoc String → Outcome (List (List String))
  pub multus_endpoints : String → Assoc String → List String → String → Outcome (List String)

-- IP.To4() != nil: four bytes, or sixteen that hold a mapped IPv4 address.
unfoldable pub is_to4 : IpAddr → Bool
is_to4 ip =
    length ip == 4
    || (length ip == 16
        && (all_of (λ b. b == 0) (take 10 ip)
            && all_of (λ b. b == 255) (take 2 (bytes_from 10 ip))))

-- The source of a rule, by what the parsers find: the address if it is a CIDR, and a full-length CIDR if
-- it is an address.
unfoldable pub cidr_by : String → Option (IpAddr × IpNet) → Option IpAddr → Option String
unfolding is_to4 concat
cidr_by address (some _) ip = some address
cidr_by address none none = none
cidr_by address none (some ip) =
    some (concat (address ∷ (if is_to4 ip then "/32" else "/128") ∷ []))

unfoldable pub cidr_addr_of : Net → String → Option String
unfolding cidr_by
cidr_addr_of net address = cidr_by address (net.parse_cidr address) (net.parse_ip address)

abbrev pub snat_rule : String → String → FwRuleMod
snat_rule vip cidr = record {
  rule = record {
    src_ip = cidr;
    dst_ip = "";
    src_port_min = 0;
    src_port_max = 0;
    dst_port_min = 0;
    dst_port_max = 0;
    proto = 0;
    in_port = "";
    pref = 0;
  };
  opts = record {
    drop = false;
    trap = false;
    rdr = false;
    rdr_port = "";
    allow = false;
    mark = 0;
    record_packets = false;
    do_snat = true;
    to_ip = vip;
    to_port = 0;
    on_default = true;
    counter = "";
  };
}

abbrev pub add_rule : String → Option String → List FwRuleMod → List FwRuleMod
add_rule vip none rules = rules
add_rule vip (some cidr) rules = snat_rule vip cidr ∷ rules

-- The loop over the addresses: one that is neither a CIDR nor an address is skipped.
unfoldable pub rules_of : Net → String → List String → List FwRuleMod
unfolding cidr_addr_of
rules_of net vip [] = []
rules_of net vip (a ∷ addrs) = add_rule vip (cidr_addr_of net a) (rules_of net vip addrs)

non_empty_ips : List (List String) → List String
non_empty_ips [] = []
non_empty_ips (ips ∷ pods) = keep_if (λ ip. not (ip == "")) ips ++ non_empty_ips pods

-- The addresses of the resource and of the pods that it selects; none where they cannot be listed.
unfoldable pub egress_addresses : EgressCluster → EgressCrd → Option (List String)
unfolding non_empty_ips split
egress_addresses cluster e =
    if is_empty e.selector
    then some e.addresses
    else elim (lookup "loxilb.io/multus-nets" e.annotations) [
      | some nets ↦ elim (cluster.multus_endpoints e.namespace e.selector (split 44 nets) "ipv4") [
        | ok ips ↦ some (e.addresses ++ ips)
        | _ ↦ none
      ]
      | none ↦ elim (cluster.pod_ips e.namespace e.selector) [
        | ok pods ↦ some (e.addresses ++ non_empty_ips pods)
        | _ ↦ none
      ]
    ]

abbrev pub rules_at : Net → String → Option (List String) → List FwRuleMod
unfolding rules_of
rules_at net vip none = []
rules_at net vip (some addrs) = rules_of net vip addrs

-- makeLoxiFirewallModel
unfoldable pub make_loxi_firewall_model : Net → EgressCluster → EgressCrd → List FwRuleMod
unfolding egress_addresses rules_of
make_loxi_firewall_model net cluster e = rules_at net e.vip (egress_addresses cluster e)

-- Firewall().Create on one instance: an answer that says that the rule exists is no error.
abbrev pub known_rule : Option String → Option String
known_rule none = none
known_rule (some t) = if contains_text t "exist" then none else some t

-- The requests to all instances, which are all sent, and their errors in the order of the instances.
unfoldable pub fw_ask :
    FwRest
    → (Option String → Option String)
    → FwRequest
    → List LoxiClient
    → List FwSent
    → List (Option String) × List FwSent
fw_ask rest keep request [] log = ([], log)
fw_ask rest keep request (c ∷ cs) log =
    let s : FwSent = record { host = c.host; request = request } in
    let (later, log') = fw_ask rest keep request cs (s ∷ log) in
    (keep (rest.answer log s) ∷ later, log')

abbrev pub is_success : Option String → Bool
is_success none = true
is_success (some _) = false

-- callLoxiFirewallCreateAPI: one instance that takes the rule is enough.
unfoldable pub call_create_api :
    FwRest → List LoxiClient → FwRuleMod → List FwSent → Outcome (Unit {0}) × List FwSent
unfolding fw_ask
call_create_api rest clients fw log =
    let (answers, log') = fw_ask rest known_rule (create_rule fw) clients log in
    (
      if any_of is_success answers then ok tt else err "failed to add loxiLB Egress firewall rule",
      log',
    )

-- The text of the last error.
unfoldable pub last_error : String → List (Option String) → String
last_error text [] = text
last_error text (none ∷ as') = last_error text as'
last_error text (some t ∷ as') = last_error t as'

-- callLoxiFirewallDeleteAPI: it stops reading the answers at the first success.
unfoldable pub call_delete_api :
    FwRest → List LoxiClient → FwRuleMod → List FwSent → Outcome (Unit {0}) × List FwSent
unfolding fw_ask last_error concat
call_delete_api rest clients fw log =
    let (answers, log') = fw_ask rest (λ a. a) (delete_rule fw.rule) clients log in
    (
      if any_of is_success answers
          then ok tt
          else err (
              concat
                ("failed to delete loxiLB Firewall rule. Error: " ∷ last_error "" answers ∷ [])),
      log',
    )

abbrev pub and_then :
    Outcome (Unit {0})
    → List FwSent
    → Outcome (Unit {0}) × List FwSent
    → Outcome (Unit {0}) × List FwSent
and_then (ok _) log later = later
and_then (err t) log later = (err t, log)
and_then panic log later = (panic, log)

-- The loops over the rules of a resource end at the first that fails.
unfoldable pub for_rules :
    (FwRuleMod → List FwSent → Outcome (Unit {0}) × List FwSent)
    → List FwRuleMod
    → List FwSent
    → Outcome (Unit {0}) × List FwSent
for_rules call [] log = (ok tt, log)
for_rules call (fw ∷ fws) log =
    let (r, log') = call fw log in and_then r log' (for_rules call fws log')

-- An object of the informer, and what enqueueService adds to the queue: a typed nil pointer where the
-- last known state is of another type.
pub data Informed (A : Type 0) : Type 0 where
  live final_state : A → Informed A
  other_final_state other_object : Informed A

unfoldable pub enqueue_egress : Informed EgressCrd → Option (Option EgressCrd)
enqueue_egress (live e) = some (some e)
enqueue_egress (final_state e) = some (some e)
enqueue_egress other_final_state = some none
enqueue_egress other_object = none

-- What processNextWorkItem does with an item after its synchronisation.
pub data Requeue : Type 0 where
  forget rate_limited : Requeue

unfoldable pub after_sync : Outcome (Unit {0}) → Outcome Requeue
after_sync (ok _) = ok forget
after_sync (err t) = ok rate_limited
after_sync panic = panic

module _ (net : Net) (rest : FwRest) (clients : List LoxiClient) (cluster : EgressCluster) where
  unfoldable pub add_egress : EgressCrd → List FwSent → Outcome (Unit {0}) × List FwSent
  unfolding for_rules call_create_api make_loxi_firewall_model
  add_egress e log =
      if is_empty clients
      then (err "egress cannot be added because there are no loxilb instances", log)
      else for_rules (call_create_api rest clients) (make_loxi_firewall_model net cluster e) log

  unfoldable pub delete_egress : EgressCrd → List FwSent → Outcome (Unit {0}) × List FwSent
  unfolding for_rules call_delete_api make_loxi_firewall_model
  delete_egress e log =
      for_rules (call_delete_api rest clients) (make_loxi_firewall_model net cluster e) log

  -- syncEgress, by whether the lister finds the resource; it works on the queued object.
  unfoldable pub sync_egress : Bool → EgressCrd → List FwSent → Outcome (Unit {0}) × List FwSent
  unfolding add_egress delete_egress
  sync_egress listed e log = if listed then add_egress e log else delete_egress e log

  -- The case of a client that is alive again: all resources are added, whatever the errors.
  unfoldable pub resync : List EgressCrd → List FwSent → List FwSent
  unfolding add_egress
  resync [] log = log
  resync (e ∷ es) log = resync es (add_egress e log).1

  -- processNextWorkItem on an item of the queue; the nil pointer has no namespace to read.
  unfoldable pub process_next :
      Bool → Option EgressCrd → List FwSent → Outcome Requeue × List FwSent
  unfolding sync_egress after_sync
  process_next listed none log = (panic, log)
  process_next listed (some e) log =
      let (r, log') = sync_egress listed e log in (after_sync r, log')
