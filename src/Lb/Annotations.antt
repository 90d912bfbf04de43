-- ===== src/Lb/Annotations.antt =====
-- The first half of addLoadBalancer in loadbalancer.go: what the annotations of a service ask for.
use kube_loxilb.Api.LbModel.{
  EpSelect, ep_select_eq, mode_default, mode_dsr, mode_full_nat, mode_full_proxy, mode_host_one_arm,
  mode_not_supported, mode_one_arm, sel_hash, sel_least_connections, sel_n2, sel_n2_det, sel_n3,
  sel_rr, sel_rr_persist,
}
use kube_loxilb.Base.{
  Bool, List, Option, String, [], all_of, bool_eq, elem, false, get_elem?, if◌then◌else◌, leb,
  length, nat_eq, none, some, string_eq, true, ℕ, ◌==◌, ◌||◌, ◌∷◌,
}
use kube_loxilb.Base.Assoc.{Assoc, lookup}
use kube_loxilb.Base.Int.{int_eq, negsuc, pos, to_u32, ℤ}
use kube_loxilb.Base.Outcome.{Outcome, err, ok, panic, ◌>>=◌}
use kube_loxilb.Lb.Types.{Manager}
use kube_loxilb.Net.{Net}
use kube_loxilb.Text.{atoi, concat, split}

-- Addressing: addrType, and epAddrType, which is IPv6 only with IPv6 clients.
unfoldable pub addr_type_of : String → String
addr_type_of lba =
    if lba == "ipv6" || (lba == "ip6" || lba == "nat66")
    then "ipv6"
    else if lba == "ipv6to4" || lba == "nat64"
    then "ipv6to4"
    else "ipv4"

unfoldable pub ep_addr_type_of : String → String
ep_addr_type_of addr_type = if addr_type == "ipv6" then "ipv6" else "ipv4"

unfoldable pub is_v6_pool : String → Bool
is_v6_pool addr_type = addr_type == "ipv6" || addr_type == "ipv6to4"

-- An annotation that is "yes" or "no"; any other text leaves the default.
unfoldable pub yes_no : String → Bool → Bool
yes_no v default = if v == "yes" then true else if v == "no" then false else default

-- lbMode
unfoldable pub lb_mode_of : String → ℤ
lb_mode_of lbm =
    if lbm == ""
    then negsuc 0
    else if lbm == "hostonearm"
    then mode_host_one_arm
    else if lbm == "fullproxy"
    then mode_full_proxy
    else if lbm == "dsr"
    then mode_dsr
    else if lbm == "fullnat"
    then mode_full_nat
    else if lbm == "onearm"
    then mode_one_arm
    else if lbm == "default"
    then mode_default
    else mode_not_supported

unfoldable pub timeout_of : String → ℤ
timeout_of to = if to == "" then pos 1800 else elim (atoi to) [ none ↦ pos 1800 | some n ↦ n ]

abbrev pub probe_types : List String
probe_types = "none" ∷ "ping" ∷ "udp" ∷ "tcp" ∷ "http" ∷ "https" ∷ []

unfoldable pub probe_type_of : String → String
probe_type_of pt = if elem pt probe_types then pt else ""

-- Types that are probed without a port or a message.
unfoldable pub no_probe_data : String → Bool
no_probe_data probe_type = probe_type == "icmp" || (probe_type == "none" || probe_type == "")

unfoldable pub probe_port_of : String → String → ℤ
unfolding no_probe_data
probe_port_of pp probe_type = elim (atoi pp) [
  | none ↦ pos 0
  | some n ↦ if no_probe_data probe_type then pos 0 else n
]

-- The request and the response message of a probe.
unfoldable pub probe_text_of : String → String → String
unfolding no_probe_data
probe_text_of msg probe_type = if no_probe_data probe_type then "" else msg

unfoldable pub probe_timeout_of : String → ℕ
unfolding to_u32
probe_timeout_of pto = elim (atoi pto) [ none ↦ 0 | some n ↦ to_u32 n ]

unfoldable pub probe_retries_of : String → ℤ
probe_retries_of prt = elim (atoi prt) [ none ↦ pos 0 | some n ↦ n ]

unfoldable pub ep_select_of : String → EpSelect
ep_select_of eps =
    if eps == "hash"
    then sel_hash
    else if eps == "persist"
    then sel_rr_persist
    else if eps == "lc"
    then sel_least_connections
    else if eps == "n2"
    then sel_n2
    else if eps == "n2det"
    then sel_n2_det
    else if eps == "n3"
    then sel_n3
    else sel_rr

-- The secondary addresses of the user: at most three, all of them valid, or none at all.
unfoldable pub sec_ips_of : Net → String → List String
sec_ips_of net s =
    let ips = split 44 s in
    if s == ""
    then []
    else if leb 4 (length ips)
    then []
    else if all_of (λ ip. elim (net.parse_ip ip) [ none ↦ false | some _ ↦ true ]) ips
    then ips
    else []

module _ {S : Type 0} where
  -- ipPool.Shared, through a pointer that is nil where the table has no such pool.
  unfoldable pub pool_shared : Manager S → Option ℕ → Outcome Bool
  pool_shared m none = panic
  pool_shared m (some i) = elim (get_elem? m.pools i) [ none ↦ panic | some p ↦ ok p.shared ]

  abbrev pool_tbl : Manager S → String → Assoc ℕ
  pool_tbl m addr_type = if is_v6_pool addr_type then m.ip6_pool_tbl else m.ip_pool_tbl

  -- The pool of the service and whether it is shared: the named one, or the default one, which may be
  -- missing, and then its flag cannot be read.
  unfoldable pub select_pool : Manager S → String → String → Outcome (ℕ × Bool)
  unfolding pool_shared
  select_pool m addr_type pn =
      if pn == ""
      then (do
        shared ← pool_shared m (lookup "defaultPool" (pool_tbl m addr_type))
        elim (lookup "defaultPool" (pool_tbl m addr_type)) [
          | none ↦ panic
          | some i ↦ ok (i, shared)
        ])
      else elim (lookup pn (pool_tbl m addr_type)) [
        | none ↦ err (concat (pn ∷ " pool not found" ∷ []))
        | some i ↦ (do shared ← pool_shared m (some i); ok (i, shared))
      ]

  select_sec_loop : Manager S → Assoc ℕ → List String → Outcome (List ℕ × Bool)
  unfolding pool_shared
  select_sec_loop m tbl [] = ok ([], false)
  select_sec_loop m tbl (spool ∷ spools) = elim (lookup spool tbl) [
    | none ↦ err (concat (spool ∷ " secondary pool not found" ∷ []))
    | some i ↦ (do
      shared ← pool_shared m (some i)
      (is, shared') ← select_sec_loop m tbl spools
      ok (i ∷ is, shared || shared'))
  ]

  -- The pools of the secondary addresses and whether one of them is shared.
  unfoldable pub select_sec_pools : Manager S → String → String → Outcome (List ℕ × Bool)
  unfolding select_sec_loop
  select_sec_pools m addr_type spn =
      if spn == "" then ok ([], false) else select_sec_loop m (pool_tbl m addr_type) (split 44 spn)
