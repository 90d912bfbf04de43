-- ===== src/Api/LbModel.antt =====
-- pkg/api/lb.go: the load-balancer rule that the agent sends to loxilb. Fields that the agent never
-- sets (Block, Security, Host, PathPrefix, the file paths of the TLS options) are left out.
use kube_loxilb.Base.{
  Bool, Eq, List, Option, String, arith, bool_eq, nat_eq, string_eq, true, ℕ, ◌==◌, ◌↔◌, ◌≡◌,
}
use kube_loxilb.Base.Int.{int_eq, negsuc, pos, ℤ}

-- EpSelect
pub data EpSelect : Type 0 where
  sel_rr sel_hash sel_prio sel_rr_persist sel_least_connections sel_n2 sel_n2_det sel_n3 : EpSelect

abbrev pub ep_select_code : EpSelect → ℕ
ep_select_code sel_rr = 0
ep_select_code sel_hash = 1
ep_select_code sel_prio = 2
ep_select_code sel_rr_persist = 3
ep_select_code sel_least_connections = 4
ep_select_code sel_n2 = 5
ep_select_code sel_n2_det = 6
ep_select_code sel_n3 = 7

pub ep_select_code_iff :
    (a b : EpSelect) → ((ep_select_code a == ep_select_code b) ≡ true) ↔ (a ≡ b)
ep_select_code_iff a b = ground arith

instance abbrev pub ep_select_eq : Eq EpSelect
ep_select_eq = record {
  equal = λ a b. ep_select_code a == ep_select_code b;
  equal_iff = ep_select_code_iff;
}

-- LBModeNotSupported to LBModeHostOneArm, as the int constants of the source.
abbrev pub mode_not_supported : ℤ
mode_not_supported = negsuc 0

abbrev pub mode_default : ℤ
mode_default = pos 0

abbrev pub mode_one_arm : ℤ
mode_one_arm = pos 1

abbrev pub mode_full_nat : ℤ
mode_full_nat = pos 2

abbrev pub mode_dsr : ℤ
mode_dsr = pos 3

abbrev pub mode_full_proxy : ℤ
mode_full_proxy = pos 4

abbrev pub mode_host_one_arm : ℤ
mode_host_one_arm = pos 5

-- LbOP
pub data LbOp : Type 0 where
  op_add op_attach op_detach : LbOp

pub record MtlsFrontend : Type 0 where
  pub client_cert_mode : String
  pub client_ca_cert_data : String
  pub require_client_cn : Bool
  pub client_cn_pattern : String

pub record MtlsBackend : Type 0 where
  pub verify_server_cert : Bool
  pub client_cert_data : String
  pub client_key_data : String

pub record LbService : Type 0 where
  pub external_ip : String
  pub private_ip : String
  pub port : ℕ
  pub protocol : String
  pub sel : EpSelect
  pub mode : ℤ
  pub bgp : Bool
  pub monitor : Bool
  pub timeout : ℕ
  pub managed : Bool
  pub probe_type : String
  pub probe_port : ℕ
  pub probe_req : String
  pub probe_resp : String
  pub probe_retries : ℤ
  pub probe_timeout : ℕ
  pub name : String
  pub oper : LbOp
  pub ppv2 : Bool
  pub egress : Bool
  pub mtls_frontend : Option MtlsFrontend
  pub mtls_backend : Option MtlsBackend

pub record LbEndpoint : Type 0 where
  pub endpoint_ip : String
  pub target_port : ℕ
  pub weight : ℕ

pub record LbModel : Type 0 where
  pub service : LbService
  pub secondary_ips : List String
  pub src_ips : List String
  pub endpoints : List LbEndpoint
