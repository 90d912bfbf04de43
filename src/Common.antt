-- ===== src/Common.antt =====
-- pkg/agent/manager/common/util_extip.go: the names under which external addresses are published.
pub mod Laws
use kube_loxilb.Api.LbModel.{ep_select_eq}
use kube_loxilb.Base.{
  Bool, List, String, [], bool_eq, false, if◌then◌else◌, is_empty, nat_eq, none, not, some,
  string_eq, true, ◌&&◌, ◌==◌, ◌∷◌,
}
use kube_loxilb.Base.Assoc.{Assoc}
use kube_loxilb.Base.Int.{int_eq}
use kube_loxilb.Net.{IpAddr, Net}
use kube_loxilb.Text.{concat, join, split}

abbrev host_addresses : Net → Assoc IpAddr → List String
host_addresses net [] = []
host_addresses net ((k, ip) ∷ m) = net.ip_string ip ∷ host_addresses net m

-- GenExtIPName, in the order of the map's list.
unfoldable pub gen_ext_ip_name : Net → String → Assoc IpAddr → String → List String
unfolding concat join split
gen_ext_ip_name net zone insts ip_str =
    let prefix = if zone == "" then "" else concat (zone ∷ "-" ∷ []) in
    let unspecified : Bool = elim (net.parse_ip ip_str) [
      | none ↦ false
      | some ip ↦ net.is_unspecified ip
    ] in
    if unspecified
    then if is_empty insts then "llbanyextip" ∷ [] else host_addresses net insts
    else concat (prefix ∷ (if net.is_ipv6 ip_str then join "-" (split 58 ip_str) else ip_str) ∷ [])
      ∷ []

abbrev pub parses : Net → String → Bool
parses net s = elim (net.parse_ip s) [ none ↦ false | some _ ↦ true ]

-- The end of ParseIngressHostname, after the zone was dropped.
unfoldable pub host_address : Net → List String → String
unfolding join
host_address net [] = ""
host_address net (h ∷ hs) =
    if parses net h
    then h
    else if not (is_empty hs) && parses net (join ":" (h ∷ hs))
    then join ":" (h ∷ hs)
    else ""

abbrev drop_zone : String → List String → List String
drop_zone zone [] = []
drop_zone zone (h ∷ hs) = if not (zone == "") && h == zone then hs else h ∷ hs

abbrev is_single : List String → Bool
is_single (h ∷ []) = true
is_single _ = false

-- ParseIngressHostname; a text is split into one part at least.
unfoldable pub parse_ingress_hostname : Net → String → String → String
unfolding host_address split
parse_ingress_hostname net hostname zone =
    if hostname == "llbanyextip"
    then "0.0.0.0"
    else if is_single (split 45 hostname)
    then host_address net (split 45 hostname)
    else host_address net (drop_zone zone (split 45 hostname))
