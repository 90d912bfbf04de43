-- ===== src/Api/Client.antt =====
-- pkg/api/client.go: a loxilb instance as the agent knows it. The REST client and the channel that
-- stops the health check are not modelled; the pool of clients is a list.
use kube_loxilb.Base.{
  Bool, Option, String, [], any_of, bool_eq, eq_refl, false, if◌then◌else◌, nat_eq, none, some,
  string_eq, suc, zero, ℕ, ◌+◌, ◌==◌, ◌∷◌, ◌≡◌,
}
use kube_loxilb.Base.Assoc.{Assoc, insert, lookup, lookup-insert}
use kube_loxilb.Base.Int.{int_eq}
use kube_loxilb.Text.{concat, decimal}

pub record LoxiClient : Type 0 where
  pub url : String
  pub host : String
  pub port : String
  pub name : String
  pub is_alive : Bool
  pub peering_only : Bool
  pub no_role : Bool
  pub do_bgp_cfg : Bool
  pub purge : Bool
  -- time.Time in nanoseconds
  pub dead_sig_ts : ℕ
  -- InstRoles: the flag MasterLB of each zone instance
  pub inst_roles : Assoc Bool

abbrev pub ci_default_zone : String
ci_default_zone = "llb"

unfoldable pub gen_zone_inst_name : String → ℕ → String
unfolding concat decimal
gen_zone_inst_name zone id = concat (zone ∷ "-" ∷ "inst" ∷ decimal id ∷ [])

-- The loop of NewLoxiClient from instance i on, with the instances left: none is a master.
unfoldable pub fill_inst_roles : String → ℕ → ℕ → Assoc Bool → Assoc Bool
fill_inst_roles zone zero i roles = roles
fill_inst_roles zone (suc n) i roles =
    fill_inst_roles zone n (i + 1) (insert (gen_zone_inst_name zone i) false roles)

-- NewLoxiClient, from the host and port that url.Parse and net.SplitHostPort find in the server's URL
-- (`none` if they fail) and the time.
unfoldable pub new_loxi_client :
    Option (String × String) → ℕ → String → Bool → Bool → String → String → ℕ → Option LoxiClient
unfolding fill_inst_roles
new_loxi_client none now api_server peer_only no_role name zone num_zone_inst = none
new_loxi_client (some (host, port)) now api_server peer_only no_role name zone num_zone_inst =
    some (record {
      url = api_server;
      host = host;
      port = port;
      name = if name == "" then host else name;
      is_alive = false;
      peering_only = peer_only;
      no_role = no_role;
      do_bgp_cfg = false;
      purge = false;
      dead_sig_ts = now;
      inst_roles = fill_inst_roles zone num_zone_inst 0 [];
    })

abbrev pub any_master : Assoc Bool → Bool
any_master roles = any_of (λ (r : String × Bool). r.1) roles

-- LoxiClientHasMaterInst
unfoldable pub has_master_inst : LoxiClient → Bool
has_master_inst c = any_master c.inst_roles

-- The role of one zone instance on a client; a write goes through the pointer in the map.
abbrev pub role : String → LoxiClient → Option Bool
role inst c = lookup inst c.inst_roles

abbrev pub set_role : String → Bool → LoxiClient → LoxiClient
set_role inst b c = record c { inst_roles = insert inst b c.inst_roles }

pub role-set_role :
    (inst : String) (b : Bool) (c : LoxiClient) → role inst (set_role inst b c) ≡ some b
role-set_role inst b c = rw (lookup-insert, eq_refl)
