-- ===== src/Options.antt =====
-- cmd/loxilb-agent/options.go: the validation of the agent's options.
pub mod Examples
use kube_loxilb.Api.LbModel.{ep_select_eq}
use kube_loxilb.Base.{
  Bool, List, Option, String, [], bool_eq, false, if◌then◌else◌, is_empty, is_some, length, ltb,
  nat_eq, none, not, some, string_eq, ℕ, ◌&&◌, ◌==◌, ◌||◌, ◌∷◌,
}
use kube_loxilb.Base.Int.{int_eq, pos}
use kube_loxilb.Base.Outcome.{Outcome, err, ok, panic, ◌>>◌, ◌>>=◌}
use kube_loxilb.IpPool.Range.{value}
use kube_loxilb.Net.{IpAddr, Net}
use kube_loxilb.Text.{atoi, concat, contains_text, join, split}

-- The options that validate reads.
pub record Options : Type 0 where
  pub loxi_urls : List String
  pub external_cidr_pool_defs : List String
  pub external_cidr6_pool_defs : List String
  pub ext_bgp_peers : List String
  pub set_bgp : ℕ
  pub load_balancer_class : String
  pub enable_gateway_api : Bool
  pub gateway_class : String
  pub set_roles : String
  pub private_cidr : String
  pub exclude_role_list : List String

abbrev pub Checked : Type 0
Checked = Outcome (Unit {0})

-- A slice of texts in a message.
abbrev pub slice_text : List String → String
unfolding concat join
slice_text xs = concat ("[" ∷ join " " xs ∷ "]" ∷ [])

abbrev pub is_invalid : String → String → Checked
unfolding concat
is_invalid what value = err (concat (what ∷ " " ∷ value ∷ " config is invalid" ∷ []))

-- A loop that ends at the first error.
unfoldable pub check_each : (String → Checked) → List String → Checked
check_each check [] = ok tt
check_each check (x ∷ xs) = do check x; check_each check xs

-- The value of one part where the test holds, and an error with the name and the value else.
abbrev pub require : Bool → String → Checked
require b text = if b then ok tt else err text

-- `parse_error` is the error of url.Parse, if it fails.
unfoldable pub check_url : (String → Option String) → String → Checked
unfolding concat
check_url parse_error u = elim (parse_error u) [
  | none ↦ ok tt
  | some e ↦ err (concat ("loxiURL " ∷ u ∷ " is invalid. err: " ∷ e ∷ []))
]

module _ (net : Net) where
  open net use {parse_ip, parse_cidr, ip_string, is_ipv4, is_ipv6}

  mixed_families : IpAddr → IpAddr → Bool
  mixed_families first last =
      (is_ipv4 (ip_string first) && is_ipv6 (ip_string last))
      || (is_ipv6 (ip_string first) && is_ipv4 (ip_string last))

  check_ends : Option IpAddr → Option IpAddr → Checked
  unfolding mixed_families
  check_ends (some first) (some last) =
      require (not (mixed_families first last)) "invalid ip-types ips"
  check_ends _ _ = err "invalid ip-range ips"

  check_range : List String → Checked
  unfolding check_ends
  check_range (first ∷ last ∷ []) = check_ends (parse_ip first) (parse_ip last)
  check_range _ = err "invalid ip-range"

  -- The CIDR or the range of a pool, for one family.
  unfoldable pub check_pool_cidr : String → (String → Bool) → String → Checked
  unfolding check_range contains_text split
  check_pool_cidr what family cidr = elim (parse_cidr cidr) [
    | some _ ↦ if family cidr then ok tt else is_invalid what cidr
    | none ↦ if contains_text cidr "-" then check_range (split 45 cidr) else is_invalid what cidr
  ]

  check_pool_parts : String → (String → Bool) → List String → List String → Checked
  unfolding check_pool_cidr
  check_pool_parts what family all (name ∷ cidr ∷ []) = check_pool_cidr what family cidr
  check_pool_parts what family all _ = is_invalid what (slice_text all)

  unfoldable pub check_pools : String → (String → Bool) → List String → Checked
  unfolding check_each check_pool_parts split
  check_pools what family all =
      check_each (λ pool. check_pool_parts what family all (split 61 pool)) all

  is_as_number : String → Bool
  unfolding atoi
  is_as_number s = elim (atoi s) [ none ↦ false | some n ↦ not (n == pos 0) ]

  -- The parts of a peer: without a colon the second one is an index out of range.
  unfoldable pub check_peer_parts : String → List String → Checked
  unfolding is_as_number concat
  check_peer_parts url [] = panic
  check_peer_parts url (ip ∷ []) = elim (parse_ip ip) [
    | none ↦ err (concat ("bgpURL " ∷ ip ∷ " is invalid. address err" ∷ []))
    | some _ ↦ panic
  ]
  check_peer_parts url (ip ∷ asid ∷ []) = elim (parse_ip ip) [
    | none ↦ err (concat ("bgpURL " ∷ ip ∷ " is invalid. address err" ∷ []))
    | some _ ↦
        require (is_as_number asid) (concat ("bgpURL " ∷ asid ∷ " is invalid. asid err" ∷ []))
  ]
  check_peer_parts url (_ ∷ _ ∷ _ ∷ _) =
      err (concat ("bgpURL " ∷ url ∷ " is invalid. format err" ∷ []))

  unfoldable pub check_peers : ℕ → List String → Checked
  unfolding check_each check_peer_parts split
  check_peers set_bgp [] = ok tt
  check_peers set_bgp (p ∷ ps) =
      if set_bgp == 0
      then is_invalid "extBGPPeers" (slice_text (p ∷ ps))
      else check_each (λ url. check_peer_parts url (split 58 url)) (p ∷ ps)

  unfoldable pub check_private_cidr : String → Checked
  check_private_cidr cidr =
      if cidr == "" || (is_some (parse_cidr cidr) && is_ipv4 cidr)
      then ok tt
      else is_invalid "privateCIDR" cidr

  unfoldable pub check_excluded : List String → Checked
  unfolding check_each
  check_excluded nodes =
      if ltb 128 (length nodes)
      then is_invalid "excludeRoleList" (slice_text nodes)
      else check_each
          (λ ip.
            if is_some (parse_ip ip) && is_ipv4 ip then ok tt else is_invalid "excludeRoleList" ip)
          nodes

  -- validate
  unfoldable pub validate : (String → Option String) → List String → Options → Checked
  unfolding check_each check_url check_pools check_peers check_private_cidr check_excluded
      contains_text
  validate parse_error args o = do
    require (is_empty args) "no positional arguments are supported"
    check_each (check_url parse_error) o.loxi_urls
    check_pools "externalCIDR" is_ipv4 o.external_cidr_pool_defs
    check_pools "externalCIDR6" is_ipv6 o.external_cidr6_pool_defs
    check_peers o.set_bgp o.ext_bgp_peers
    require (o.load_balancer_class == "" || contains_text o.load_balancer_class "/")
        "loxilbLoadBalancerClass must be a label-style identifier"
    require
        (not o.enable_gateway_api || (o.gateway_class == "" || contains_text o.gateway_class "/"))
        "LoxilbGatewayClass must be a label-style identifier"
    if o.set_roles == "" || is_some (parse_ip o.set_roles)
        then ok tt
        else is_invalid "SetRoles" o.set_roles
    check_private_cidr o.private_cidr
    check_excluded o.exclude_role_list
