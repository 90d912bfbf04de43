-- ===== src/Api/Firewall.antt =====
-- pkg/api/firewall.go: the firewall rule that the egress manager sends.
use kube_loxilb.Base.{Bool, List, Option, String, ℕ}

pub record FwOptArg : Type 0 where
  pub drop : Bool
  pub trap : Bool
  pub rdr : Bool
  pub rdr_port : String
  pub allow : Bool
  pub mark : ℕ
  pub record_packets : Bool
  pub do_snat : Bool
  pub to_ip : String
  pub to_port : ℕ
  pub on_default : Bool
  pub counter : String

pub record FwRuleArg : Type 0 where
  pub src_ip : String
  pub dst_ip : String
  pub src_port_min : ℕ
  pub src_port_max : ℕ
  pub dst_port_min : ℕ
  pub dst_port_max : ℕ
  pub proto : ℕ
  pub in_port : String
  pub pref : ℕ

pub record FwRuleMod : Type 0 where
  pub rule : FwRuleArg
  pub opts : FwOptArg

-- Create posts the rule with its options; Delete names it by GetKeyStruct alone.
pub data FwRequest : Type 0 where
  create_rule : FwRuleMod → FwRequest
  delete_rule : FwRuleArg → FwRequest

-- A request to one instance.
pub record FwSent : Type 0 where
  pub host : String
  pub request : FwRequest

-- What the instances answer, as a function of the requests so far, newest first: `none` is success.
pub record FwRest : Type 0 where
  pub answer : List FwSent → FwSent → Option String
