-- ===== src/Config.antt =====
-- pkg/agent/config/config.go
use kube_loxilb.Base.{Bool, List, String, ℕ}

pub record NetworkConfig : Type 0 where
  pub loxilb_urls : List String
  pub load_balancer_class : String
  pub external_cidr_pool_defs : List String
  pub set_bgp : ℕ
  pub listen_bgp_port : ℕ
  pub set_lb_mode : ℕ
  pub monitor : Bool
  pub append_eps : Bool
  pub set_roles : String
  pub zone : String
  pub private_cidr : String
  pub excl_ipam : Bool
  pub num_zone_inst : ℕ
  pub use_pod_network : Bool
  pub use_external_endpoint : Bool
