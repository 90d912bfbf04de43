-- ===== src/Options/Examples.antt =====
-- Runs of the validation of options.
use kube_loxilb.Base.{[], false, refl, ◌∷◌, ◌≡◌}
use kube_loxilb.Base.Outcome.{err, ok, panic}
use kube_loxilb.Fixture.{demo_net, demo_parse_ip}
use kube_loxilb.Options.{Options, check_peers}

abbrev plain : Options
plain = record {
  loxi_urls = [];
  external_cidr_pool_defs = "defaultPool=10.0.0.0/24" ∷ [];
  external_cidr6_pool_defs = [];
  ext_bgp_peers = "10.0.0.1:64512" ∷ [];
  set_bgp = 64511;
  load_balancer_class = "loxilb.io/loxilb";
  enable_gateway_api = false;
  gateway_class = "";
  set_roles = "";
  private_cidr = "";
  exclude_role_list = [];
}

-- A peer without a number of its system stops the agent by a panic, and not with the message about it.
peers :
    (check_peers demo_net 64511 ("10.0.0.1:64512" ∷ []) ≡ ok tt)
    × ((check_peers demo_net 64511 ("10.0.0.1" ∷ []) ≡ panic)
        × (check_peers demo_net 64511 ("10.0.0.1:0" ∷ []) ≡ err "bgpURL 0 is invalid. asid err"))
unfolding check_peers demo_parse_ip
peers = (refl, (refl, refl))
