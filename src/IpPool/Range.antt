-- ===== src/IpPool/Range.antt =====
-- What `contains` answers for a range of IPv4 addresses: the comparison goes octet by octet, and only
-- the difference of the last octets is kept.
use kube_loxilb.Base.{
  Bool, [], arith, bool_eq, false, if◌then◌else◌, leb, length, nat_eq, refl, string_eq, true, ℕ,
  ◌&&◌, ◌*◌, ◌+◌, ◌-◌, ◌<◌, ◌==◌, ◌∷◌, ◌≡◌, ◌≤◌,
}
use kube_loxilb.Base.Bytes.{passes_below, passes_below_lem}
use kube_loxilb.Base.Int.{int_eq}
use kube_loxilb.IpPool.{
  IpPool, bytes_from, contains, diff_ip_index, diff_loop, max_u64, place_index,
}
use kube_loxilb.Net.{IpAddr, Net}

pub record HasOctets (ip : IpAddr) (a b c d : ℕ) : Type 0 where
  pub size : length ip ≡ 16
  pub octets : bytes_from 12 ip ≡ a ∷ b ∷ c ∷ d ∷ []

-- Every octet of the first address is at most that of the second.
abbrev pub octets_le : ℕ → ℕ → ℕ → ℕ → ℕ → ℕ → ℕ → ℕ → Bool
octets_le a b c d p q r s = leb a p && (leb b q && (leb c r && leb d s))

-- The address as a number.
abbrev pub value : ℕ → ℕ → ℕ → ℕ → ℕ
value a b c d = a * 16777216 + b * 65536 + c * 256 + d

place_table : passes_below (λ d. place_index 0 d == d) 256 ≡ true
unfolding place_index passes_below
place_table = refl

place_index-zero : (d : ℕ) → d < 256 → place_index 0 d ≡ d
place_index-zero d h = (nat_eq.equal_iff _ d).0 (passes_below_lem _ 256 d h place_table)

diff_loop-octets :
    (a b c d p q r s : ℕ)
    → s < 256
    → diff_loop 4 24 (a ∷ b ∷ c ∷ d ∷ []) (p ∷ q ∷ r ∷ s ∷ []) 0
      ≡ (if octets_le a b c d p q r s then s - d else max_u64)
unfolding diff_loop
diff_loop-octets a b c d p q r s h = ground (arith, place_index-zero (s - d))

octets_le_accepts :
    (a b c d p q r s l : ℕ)
    → (a ≤ p) × (b ≤ q) × (c ≤ r) × (d ≤ s) × (s ≤ l)
    → (octets_le a b c d p q r s && leb s l) ≡ true
octets_le_accepts a b c d p q r s l h = ground arith

if-same : (t : Bool) {u : Bool} → u ≡ true → (if t then u else true) ≡ true
if-same true h = h
if-same false h = refl

module _ (net : Net) where
  diff_ip_index-octets :
      (base ip : IpAddr) (a b c d p q r s : ℕ)
      → net.is_ipv4 (net.ip_string base) ≡ true
      → HasOctets base a b c d
      → HasOctets ip p q r s
      → s < 256
      → diff_ip_index net base ip ≡ (if octets_le a b c d p q r s then s - d else max_u64)
  unfolding diff_ip_index
  diff_ip_index-octets base ip a b c d p q r s v4 hb hi h =
      rw (v4, hb.size, hi.size, hb.octets, hi.octets) (diff_loop-octets a b c d p q r s h)

  -- For a range pool whose ends are IPv4 addresses: if the first end is octet by octet at most the
  -- last, the pool contains exactly the addresses that are octet by octet at least the first end and
  -- whose last octet is at most that of the last end; otherwise it contains every IPv4 address.
  pub contains-octets :
      {S : Type 0} (p : IpPool S) (ip : IpAddr) (a b c d l₀ l₁ l₂ l₃ i₀ i₁ i₂ i₃ : ℕ)
      → p.is_range ≡ true
      → net.is_ipv4 (net.ip_string p.start_ip) ≡ true
      → HasOctets p.start_ip a b c d
      → HasOctets p.last_ip l₀ l₁ l₂ l₃
      → HasOctets ip i₀ i₁ i₂ i₃
      → l₃ < 256
      → i₃ < 256
      → contains net p ip ≡ (
          if octets_le a b c d l₀ l₁ l₂ l₃
          then octets_le a b c d i₀ i₁ i₂ i₃ && leb i₃ l₃
          else true)
  unfolding contains
  contains-octets p ip a b c d l₀ l₁ l₂ l₃ i₀ i₁ i₂ i₃ range v4 hs hl hi h₁ h₂ =
      rw
        (
          range,
          diff_ip_index-octets p.start_ip ip a b c d i₀ i₁ i₂ i₃ v4 hs hi h₂,
          diff_ip_index-octets p.start_ip p.last_ip a b c d l₀ l₁ l₂ l₃ v4 hs hl h₁,
        )
        (ground arith)

  -- A range inside one block of 256 addresses contains each address from its first end to its last.
  pub contains_block :
      {S : Type 0} (p : IpPool S) (ip : IpAddr) (a b c d l₃ i₀ i₁ i₂ i₃ : ℕ)
      → p.is_range ≡ true
      → net.is_ipv4 (net.ip_string p.start_ip) ≡ true
      → HasOctets p.start_ip a b c d
      → HasOctets p.last_ip a b c l₃
      → HasOctets ip i₀ i₁ i₂ i₃
      → (d < 256) × (i₁ < 256) × (i₂ < 256) × (b < 256) × (c < 256)
      → l₃ < 256
      → i₃ < 256
      → value a b c d ≤ value i₀ i₁ i₂ i₃
      → value i₀ i₁ i₂ i₃ ≤ value a b c l₃
      → contains net p ip ≡ true
  contains_block p ip a b c d l₃ i₀ i₁ i₂ i₃ range v4 hs hl hi bytes h₁ h₂ lo hi' =
      rw (contains-octets p ip a b c d a b c l₃ i₀ i₁ i₂ i₃ range v4 hs hl hi h₁ h₂) (
        let e₀ : i₀ ≡ a = omega arith in
        let e₁ : i₁ ≡ b = omega arith in
        let e₂ : i₂ ≡ c = omega arith in
        let e₃ : (d ≤ i₃) × (i₃ ≤ l₃) = omega arith in ground arith)

  -- The comparison lets addresses beyond the range in: an address whose first octet is above that of
  -- the last end is contained as soon as its other octets are not below those of the first end and its
  -- last octet is not above that of the last end. Such an address is above the last end.
  pub contains_beyond_last :
      {S : Type 0} (p : IpPool S) (ip : IpAddr) (a b c d l₀ l₁ l₂ l₃ i₀ i₁ i₂ i₃ : ℕ)
      → p.is_range ≡ true
      → net.is_ipv4 (net.ip_string p.start_ip) ≡ true
      → HasOctets p.start_ip a b c d
      → HasOctets p.last_ip l₀ l₁ l₂ l₃
      → HasOctets ip i₀ i₁ i₂ i₃
      → (l₁ < 256) × (l₂ < 256) × (l₃ < 256)
      → (a ≤ i₀) × (b ≤ i₁) × (c ≤ i₂) × (d ≤ i₃) × (i₃ ≤ l₃)
      → l₀ < i₀
      → (contains net p ip ≡ true) × (value l₀ l₁ l₂ l₃ < value i₀ i₁ i₂ i₃)
  contains_beyond_last p ip a b c d l₀ l₁ l₂ l₃ i₀ i₁ i₂ i₃ range v4 hs hl hi bytes above beyond = (
    rw
        (contains-octets p ip a b c d l₀ l₁ l₂ l₃ i₀ i₁ i₂ i₃ range v4 hs hl hi bytes.2
          (omega arith))
        (let accepted = octets_le_accepts a b c d i₀ i₁ i₂ i₃ l₃ above in
          if-same (octets_le a b c d l₀ l₁ l₂ l₃) accepted),
    omega arith,
  )
