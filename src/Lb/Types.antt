-- ===== src/Lb/Types.antt =====
-- The data of loadbalancer.go: services as the agent reads them, the cache, and the manager.
use kube_loxilb.Api.Client.{LoxiClient}
use kube_loxilb.Api.LbModel.{EpSelect, LbModel}
use kube_loxilb.Base.{Bool, List, Option, String, [], get_elem?, none, set, some, ℕ, ◌∷◌}
use kube_loxilb.Base.Assoc.{Assoc, lookup}
use kube_loxilb.Base.Int.{ℤ}
use kube_loxilb.IpPool.{IpPool}
use kube_loxilb.Net.{IpAddr}
use kube_loxilb.Text.{concat, decimal, path_join}

-- corev1.ServicePort and corev1.Service, the fields that the agent reads. A port is an int32.
pub record ServicePort : Type 0 where
  pub port : ℤ
  pub protocol : String
  pub node_port : ℤ
  pub target_port : String

pub record Ingress : Type 0 where
  pub ip : String
  pub hostname : String

pub record Service : Type 0 where
  pub namespace : String
  pub name : String
  pub annotations : Assoc String
  pub load_balancer_class : Option String
  pub ports : List ServicePort
  pub external_ips : List String
  pub source_ranges : List String
  pub local_policy : Bool
  pub ingress : List Ingress

-- svc.Annotations[key]: the empty text for a missing key.
abbrev pub text_or_empty : Option String → String
text_or_empty none = ""
text_or_empty (some v) = v

unfoldable pub annotation : Service → String → String
annotation svc key = text_or_empty (lookup key svc.annotations)

pub record LbServicePairEntry : Type 0 where
  pub external_ip : String
  pub port : ℕ
  pub protocol : String
  pub static_ip : Bool
  pub in_range : Bool
  pub ident_ipam : String
  pub lb_model_list : List LbModel

-- A pool is an index into the manager's pools, as the source has a pointer.
pub record LbCacheEntry : Type 0 where
  pub lb_mode : ℤ
  pub timeout : ℤ
  pub act_check : Bool
  pub pref_local : Bool
  pub ppv2_en : Bool
  pub egress : Bool
  pub inst : String
  pub addr : String
  pub state : String
  pub node_label : String
  pub probe_type : String
  pub probe_port : ℕ
  pub probe_req : String
  pub probe_resp : String
  pub probe_timeo : ℕ
  pub probe_retries : ℤ
  pub ep_select : EpSelect
  pub ip_pool : ℕ
  pub sip_pools : List ℕ
  pub sec_ips : List String
  pub lb_service_pairs : Assoc LbServicePairEntry

pub record SvcPair : Type 0 where
  pub ip_string : String
  pub port : ℤ
  pub protocol : String
  pub in_range : Bool
  pub static_ip : Bool
  pub ident_ipam : String
  pub ip_allocd : Bool
  pub svc_port : ServicePort

-- A request to a loxilb instance about a rule: POST or DELETE.
pub data Verb : Type 0 where
  post delete : Verb

pub record Sent : Type 0 where
  pub verb : Verb
  pub host : String
  pub model : LbModel

-- What the instances answer, as a function of the requests so far, newest first: `none` is success.
pub record Rest : Type 0 where
  pub answer : List Sent → Sent → Option String

-- The manager, with the pools that its tables and its cache point to, and the requests that it sent.
pub record Manager (S : Type 0) : Type 0 where
  pub lb_cache : Assoc LbCacheEntry
  pub ip_pool_tbl : Assoc ℕ
  pub ip6_pool_tbl : Assoc ℕ
  pub pools : List (IpPool S)
  pub zone_inst_role_map : Assoc ℕ
  pub zone_inst_sel_hint : ℕ
  pub loxi_inst_addr_map : Assoc IpAddr
  pub clients : List LoxiClient
  pub sent : List Sent

unfoldable pub gen_key : String → String → String
unfolding path_join
gen_key ns name = path_join ns name

unfoldable pub gen_sp_key : String → ℕ → String → String
unfolding concat decimal
gen_sp_key ip port protocol = concat (ip ∷ ":" ∷ decimal port ∷ ":" ∷ protocol ∷ [])

-- An operation on the pool behind a pointer. Every pointer that the manager holds is to one of its
-- pools; an index without a pool stands for no pointer of the program.
module _ {S : Type 0} where
  abbrev pub on_pool : (IpPool S → IpPool S) → ℕ → Manager S → Manager S
  on_pool f i m = elim (get_elem? m.pools i) [
    | none ↦ m
    | some p ↦ record m { pools = set m.pools i (f p) }
  ]
