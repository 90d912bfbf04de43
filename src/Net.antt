-- ===== src/Net.antt =====
-- What the program calls of Go's package net and of loxilib: address parsing and the address
-- allocator. An address is the slice of bytes of a net.IP; nil is the empty slice.
use kube_loxilb.Base.{Bool, List, Option, String, ℕ}

abbrev pub IpAddr : Type 0
IpAddr = List ℕ

-- net.IPNet
pub record IpNet : Type 0 where
  pub ip : IpAddr
  pub ones : ℕ

-- net.ParseIP, IP.String, IP.IsUnspecified, net.ParseCIDR, IPNet.Contains, tk.IsNetIPv4, tk.IsNetIPv6
pub record Net : Type 0 where
  pub parse_ip : String → Option IpAddr
  pub ip_string : IpAddr → String
  pub is_unspecified : IpAddr → Bool
  pub parse_cidr : String → Option (IpAddr × IpNet)
  pub net_contains : IpNet → IpAddr → Bool
  pub is_ipv4 : String → Bool
  pub is_ipv6 : String → Bool

-- tk.IPAllocator in its default cluster. `allocate` gives no address where AllocateNewIP returns an
-- error, and `reserve` gives the error of ReserveIP; either may have changed the allocator.
pub record Allocator : Type 1 where
  pub State : Type 0
  pub new : State
  pub add_range : State → String → State
  pub allocate : State → String → String → Option IpAddr × State
  pub reserve : State → String → String → String → Option String × State
  pub deallocate : State → String → String → String → State
  pub no_ident : String
  pub make_ident : String → ℕ → String → String
