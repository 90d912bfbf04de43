-- ===== src/IpPool.antt =====
-- pkg/ippool/ippool.go: a pool of external addresses, a CIDR block or a range of addresses, over
-- an allocator of loxilib. The mutex is held for the whole of each operation that takes it, so the
-- operations are functions of the pool.
pub mod Range
pub mod IpSet
pub mod Reserve
pub mod Examples
use Prim.Native.Nat.{bit_or}
use kube_loxilb.Base.{
  Bool, List, Option, String, [], bool_eq, false, if◌then◌else◌, leb, length, ltb, nat_eq, none,
  some, string_eq, suc, true, zero, ℕ, ◌%◌, ◌&&◌, ◌*◌, ◌-◌, ◌==◌, ◌^◌, ◌||◌, ◌∷◌,
}
use kube_loxilb.Base.Int.{int_eq}
use kube_loxilb.Base.Outcome.{Outcome, err, ok, ◌>>=◌}
use kube_loxilb.Net.{Allocator, IpAddr, IpNet, Net}
use kube_loxilb.Text.{contains_text, split}

pub record IpPool (S : Type 0) : Type 0 where
  pub cidr : String
  pub is_range : Bool
  pub start_ip : IpAddr
  pub last_ip : IpAddr
  pub net_cidr : Option IpNet
  pub ip_alloc : S
  pub shared : Bool

-- ^uint64(0)
abbrev pub max_u64 : ℕ
max_u64 = 18446744073709551615

-- The bytes of a slice from an index on. An index below zero would panic: every address that
-- reaches diffIPIndex comes from net.ParseIP, which returns 16 bytes.
abbrev pub bytes_from : ℕ → IpAddr → IpAddr
bytes_from zero bs = bs
bytes_from (suc n) [] = []
bytes_from (suc n) (b ∷ bs) = bytes_from n bs

-- index = uint64(ipv - basev); index |= index << (8 * (iplen - i - 1))
unfoldable pub place_index : ℕ → ℕ → ℕ
place_index shift d = bit_or d ((d * 2 ^ shift) % 18446744073709551616)

-- The loop of diffIPIndex with the rounds left and 8 * (iplen - i - 1).
unfoldable pub diff_loop : ℕ → ℕ → IpAddr → IpAddr → ℕ → ℕ
diff_loop (suc r) shift (b ∷ base) (p ∷ ip) index =
    let rest = diff_loop r (shift - 8) base ip (place_index shift (p - b)) in
    if ltb p b then max_u64 else rest
diff_loop _ shift base ip index = index

module _ (net : Net) where
  open net use {parse_ip, ip_string, parse_cidr, net_contains, is_ipv4, is_ipv6}

  unfoldable pub diff_ip_index : IpAddr → IpAddr → ℕ
  unfolding diff_loop
  diff_ip_index base ip =
      let iplen = if is_ipv4 (ip_string base) then 4 else 16 in
      diff_loop 4 (8 * (iplen - 1)) (bytes_from (length base - iplen) base)
        (bytes_from (length ip - iplen) ip) 0

  -- A pool that is no range has a network (`new_ip_pool`); without one the Go code would panic.
  unfoldable pub contains : {S : Type 0} → IpPool S → IpAddr → Bool
  contains p ip =
      if p.is_range
      then leb (diff_ip_index p.start_ip ip) (diff_ip_index p.start_ip p.last_ip)
      else elim p.net_cidr [ none ↦ false | some n ↦ net_contains n ip ]

-- The two ends of "a-b", as NewIPPool and AddLoxiCIDRPool check them.
unfoldable pub range_ends : Net → List String → Outcome (IpAddr × IpAddr)
range_ends net (a ∷ b ∷ []) = elim (net.parse_ip a) [
  | none ↦ err "invalid ip-range ips"
  | some start ↦ elim (net.parse_ip b) [
    | none ↦ err "invalid ip-range ips"
    | some last ↦
        if (net.is_ipv4 (net.ip_string start) && net.is_ipv6 (net.ip_string last))
          || (net.is_ipv6 (net.ip_string start) && net.is_ipv4 (net.ip_string last))
        then err "invalid ip-types ips"
        else ok (start, last)
  ]
]
range_ends net _ = err "invalid ip-range"

module _ (A : Allocator) (net : Net) where
  -- NewIPPool: the range is added to the allocator before it is checked.
  unfoldable pub new_ip_pool : A.State → String → Bool → Outcome (IpPool A.State)
  unfolding range_ends split contains_text
  new_ip_pool ipa cidr shared =
      let ipa' = A.add_range ipa cidr in
      elim (net.parse_cidr cidr) [
        | some (_, ipn) ↦ ok (record {
          cidr = cidr;
          is_range = false;
          start_ip = [];
          last_ip = [];
          net_cidr = some ipn;
          ip_alloc = ipa';
          shared = shared;
        })
        | none ↦
            if contains_text cidr "-"
            then (do
              (start, last) ← range_ends net (split 45 cidr)
              ok (record {
                cidr = cidr;
                is_range = true;
                start_ip = start;
                last_ip = last;
                net_cidr = none;
                ip_alloc = ipa';
                shared = shared;
              }))
            else err "CIDR parse failed"
      ]

  -- The identifier under which a pool allocates for a port: pools that are not shared have one.
  unfoldable pub ipam_ident : IpPool A.State → ℕ → String → String
  ipam_ident p s_ident proto = if p.shared then A.make_ident "" s_ident proto else A.no_ident

  allocate_no_ident : IpPool A.State → A.State → (Option IpAddr × String) × IpPool A.State
  allocate_no_ident p ipa =
      let (ip, ipa') = A.allocate ipa p.cidr A.no_ident in
      ((ip, A.no_ident), record p { ip_alloc = ipa' })

  -- GetNewIPAddr: the address, or nil, and the identifier under which it was asked for last.
  unfoldable pub get_new_ip_addr :
      IpPool A.State → ℕ → String → (Option IpAddr × String) × IpPool A.State
  unfolding ipam_ident allocate_no_ident
  get_new_ip_addr p s_ident proto =
      let ident = ipam_ident p s_ident proto in
      let (ip, ipa') = A.allocate p.ip_alloc p.cidr ident in
      elim ip [
        | some a ↦ ((some a, ident), record p { ip_alloc = ipa' })
        | none ↦
            if ident == A.no_ident
            then ((none, ident), record p { ip_alloc = ipa' })
            else allocate_no_ident p ipa'
      ]

  -- ReturnIPAddr
  unfoldable pub return_ip_addr : IpPool A.State → String → String → IpPool A.State
  unfolding contains
  return_ip_addr p ip ident = elim (net.parse_ip ip) [
    | none ↦ p
    | some a ↦
        if contains net p a
        then record p { ip_alloc = A.deallocate p.ip_alloc p.cidr ident ip }
        else p
  ]

  reserve_no_ident : IpPool A.State → A.State → String → (Option String × String) × IpPool A.State
  reserve_no_ident p ipa ip =
      let (e, ipa') = A.reserve ipa p.cidr A.no_ident ip in
      ((e, A.no_ident), record p { ip_alloc = ipa' })

  -- ReserveIPAddr: the error, or nil, and the identifier of the last attempt.
  unfoldable pub reserve_ip_addr :
      IpPool A.State → String → ℕ → String → (Option String × String) × IpPool A.State
  unfolding ipam_ident reserve_no_ident
  reserve_ip_addr p ip s_ident proto =
      let ident = ipam_ident p s_ident proto in
      let (e, ipa') = A.reserve p.ip_alloc p.cidr ident ip in
      elim e [
        | none ↦ ((none, ident), record p { ip_alloc = ipa' })
        | some m ↦
            if ident == A.no_ident
            then ((none, ident), record p { ip_alloc = ipa' })
            else reserve_no_ident p ipa' ip
      ]

  -- CheckAndReserveIP: is the address of the pool, is it now reserved, and under what identifier.
  unfoldable pub check_and_reserve_ip :
      IpPool A.State → String → ℕ → String → (Bool × Bool × String) × IpPool A.State
  unfolding contains reserve_ip_addr
  check_and_reserve_ip p ip s_ident proto = elim (net.parse_ip ip) [
    | none ↦ ((false, false, ""), p)
    | some a ↦
        if contains net p a
        then (let (r, p') = reserve_ip_addr p ip s_ident proto in
            ((true, elim r.0 [ none ↦ true | some _ ↦ false ], r.1), p'))
        else ((false, false, ""), p)
  ]
