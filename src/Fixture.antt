-- ===== src/Fixture.antt =====
-- A small network library and allocator for IPv4, to evaluate the model on: concrete functions for
-- the parameters `Net` and `Allocator`.
use kube_loxilb.Api.LbModel.{ep_select_eq}
use kube_loxilb.Base.{
  Bool, Bool-cases, List, Option, Option-cases, String, [], arith, bool_eq, eq_iff, false,
  if◌then◌else◌, inl, inr, is_some, leb, map, nat_eq, none, refl, some, string_eq, subst, suc, zero,
  ℕ, ◌&&◌, ◌*◌, ◌+◌, ◌-◌, ◌/◌, ◌==◌, ◌^◌, ◌||◌, ◌∷◌, ◌≡◌,
}
use kube_loxilb.Base.Int.{int_eq, pos, ℤ}
use kube_loxilb.IpPool.{bytes_from}
use kube_loxilb.IpPool.Reserve.{AllocatorLaws}
use kube_loxilb.Net.{Allocator, IpAddr, IpNet, Net}
use kube_loxilb.Text.{atoi, concat, contains_text, decimal, join, split}

abbrev pub v4 : ℕ → ℕ → ℕ → ℕ → IpAddr
v4 a b c d = 0 ∷ 0 ∷ 0 ∷ 0 ∷ 0 ∷ 0 ∷ 0 ∷ 0 ∷ 0 ∷ 0 ∷ 255 ∷ 255 ∷ a ∷ b ∷ c ∷ d ∷ []

octet : Option ℤ → Option ℕ
octet (some (pos n)) = if leb n 255 then some n else none
octet _ = none

octets : List String → Option IpAddr
octets (a ∷ b ∷ c ∷ d ∷ []) = elim (octet (atoi a)) [
  | none ↦ none
  | some a' ↦ elim (octet (atoi b)) [
    | none ↦ none
    | some b' ↦ elim (octet (atoi c)) [
      | none ↦ none
      | some c' ↦ elim (octet (atoi d)) [ none ↦ none | some d' ↦ some (v4 a' b' c' d') ]
    ]
  ]
]
octets _ = none

unfoldable pub demo_parse_ip : String → Option IpAddr
unfolding octets octet split atoi
demo_parse_ip s = octets (split 46 s)

unfoldable pub demo_ip_string : IpAddr → String
unfolding join decimal
demo_ip_string ip = join "." (map decimal (bytes_from 12 ip))

number : IpAddr → ℕ
number [] = 0
number (b ∷ bs) = b + 256 * number bs

block : IpNet → IpAddr → ℕ
unfolding number
block n ip = number (mathlib.Core.List.reverse (bytes_from 12 ip)) / 2 ^ (32 - n.ones)

unfoldable pub demo_net_contains : IpNet → IpAddr → Bool
unfolding block
demo_net_contains n ip = block n ip == block n n.ip

cidr_parts : List String → Option (IpAddr × IpNet)
unfolding demo_parse_ip
cidr_parts (a ∷ n ∷ []) = elim (demo_parse_ip a) [
  | none ↦ none
  | some ip ↦ elim (octet (atoi n)) [
    | none ↦ none
    | some k ↦ some (ip, record { ip = ip; ones = k })
  ]
]
cidr_parts _ = none

unfoldable pub demo_parse_cidr : String → Option (IpAddr × IpNet)
unfolding cidr_parts
demo_parse_cidr s = cidr_parts (split 47 s)

unfoldable pub demo_is_unspecified : IpAddr → Bool
unfolding number
demo_is_unspecified ip = number (bytes_from 12 ip) == 0

abbrev pub demo_net : Net
demo_net = record {
  parse_ip = demo_parse_ip;
  ip_string = demo_ip_string;
  is_unspecified = demo_is_unspecified;
  parse_cidr = demo_parse_cidr;
  net_contains = demo_net_contains;
  is_ipv4 = λ s. is_some (demo_parse_ip s);
  is_ipv6 = λ s. contains_text s ":";
}

-- What is taken: range, identifier, address.
abbrev pub Taken : Type 0
Taken = List (String × String × String)

unfoldable pub taken : Taken → String → String → String → Bool
taken [] c i x = false
taken ((c', i', x') ∷ st) c i x = (c' == c && (i' == i && x' == x)) || taken st c i x

unfoldable pub untake : Taken → String → String → String → Taken
untake [] c i x = []
untake ((c', i', x') ∷ st) c i x =
    let rest = untake st c i x in
    if c == c' && (i == i' && x == x') then rest else (c', i', x') ∷ rest

-- It allocates from the ten addresses behind 10.0.0.0, the lowest free one first.
next_free : ℕ → ℕ → Taken → String → String → Option IpAddr
unfolding taken demo_ip_string
next_free zero k st c i = none
next_free (suc f) k st c i =
    let rest = next_free f (k + 1) st c i in
    if taken st c i (demo_ip_string (v4 10 0 0 k)) then rest else some (v4 10 0 0 k)

unfoldable pub demo_allocate : Taken → String → String → Option IpAddr × Taken
unfolding next_free
demo_allocate st c i = elim (next_free 10 1 st c i) [
  | none ↦ (none, st)
  | some a ↦ (some a, (c, i, demo_ip_string a) ∷ st)
]

unfoldable pub demo_reserve : Taken → String → String → String → Option String × Taken
unfolding taken
demo_reserve st c i x =
    if taken st c i x then (some "ip is already used", st) else (none, (c, i, x) ∷ st)

abbrev pub demo_allocator : Allocator
demo_allocator = record {
  State = Taken;
  new = [];
  add_range = λ st c. st;
  allocate = demo_allocate;
  reserve = demo_reserve;
  deallocate = untake;
  no_ident = "";
  make_ident = λ vrf port proto. concat (decimal port ∷ "/" ∷ proto ∷ []);
}

next_free-free :
    (f k : ℕ) (st : Taken) (c i : String) (a : IpAddr)
    → next_free f k st c i ≡ some a
    → taken st c i (demo_ip_string a) ≡ false
unfolding next_free
next_free-free zero k st c i a h = cc
next_free-free (suc f) k st c i a h =
    elim (Bool-cases (taken st c i (demo_ip_string (v4 10 0 0 k)))) [
      | inl e ↦ next_free-free f (k + 1) st c i a (rw e at h)
      | inr e ↦
          let same : v4 10 0 0 k ≡ a = ground arith in
          subst (λ b. taken st c i (demo_ip_string b) ≡ false) same e
    ]

demo_allocate-eq :
    (st st' : Taken) (c i : String) (a : IpAddr)
    → demo_allocate st c i ≡ (some a, st')
    → (next_free 10 1 st c i ≡ some a) × (st' ≡ (c, i, demo_ip_string a) ∷ st)
unfolding demo_allocate
demo_allocate-eq st st' c i a h = elim (Option-cases (next_free 10 1 st c i)) [
  | inl e ↦ absurd (ground arith)
  | inr (b, e) ↦ (ground arith, ground arith)
]

demo_allocate-none : (st st' : Taken) (c i : String) → demo_allocate st c i ≡ (none, st') → st' ≡ st
unfolding demo_allocate
demo_allocate-none st st' c i h = ground arith

taken-untake :
    (st : Taken) (c i x c' i' x' : String)
    → taken (untake st c i x) c' i' x'
      ≡ (if c == c' && (i == i' && x == x') then false else taken st c' i' x')
unfolding taken untake
taken-untake [] c i x c' i' x' = ground arith
taken-untake ((d, j, y) ∷ st) c i x c' i' x' = ground (
  arith,
  taken-untake st c i x c' i' x',
  eq_iff c c',
  eq_iff i i',
  eq_iff x x',
  eq_iff c d,
  eq_iff i j,
  eq_iff x y,
  eq_iff d c',
  eq_iff j i',
  eq_iff y x',
)

pub demo_laws : AllocatorLaws demo_allocator demo_net
demo_laws = record {
  in_use = taken;
  allocate_some = λ st st' c i a h.
      let e = demo_allocate-eq st st' c i a h in
      (next_free-free 10 1 st c i a e.0, λ c' i' x. rw e.1 (unfold taken in refl));
  allocate_none = λ st st' c i h c' i' x. rw (demo_allocate-none st st' c i h);
  deallocate_in_use = taken-untake;
}
