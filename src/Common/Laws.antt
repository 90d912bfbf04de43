-- ===== src/Common/Laws.antt =====
-- GenExtIPName and ParseIngressHostname against each other.
use Prim.Native.String.{◌++◌ as ◌<>◌}
use Prim.Native.Char.{Char, code}
use text.Mathlib.TextLemmas.{cons-append, nil-append, append-nil, append_assoc}
use kube_loxilb.Api.LbModel.{ep_select_eq}
use kube_loxilb.Base.{
  Bool, Bool-cases, List, String, [], ap, arith, bool_eq, eq_iff, eq_refl, false, inl, inr, map,
  nat_eq, none, not, refl, some, string_eq, sym, true, ℕ, ◌&&◌, ◌==◌, ◌∙◌, ◌∷◌, ◌≡◌, ◌≢◌, ◌⊎◌,
}
use kube_loxilb.Base.Assoc.{Assoc}
use kube_loxilb.Base.Int.{int_eq}
use kube_loxilb.Common.{gen_ext_ip_name, host_address, parse_ingress_hostname, parses}
use kube_loxilb.Net.{IpAddr, Net}
use kube_loxilb.Text.{concat, cons_head, split}

-- The character does not occur.
unfoldable pub lacks : ℕ → String → Bool
lacks sep String.[] = true
lacks sep (String.◌∷◌ c s) = not (code c == sep) && lacks sep s

split-lacks : (sep : ℕ) (s : String) → lacks sep s ≡ true → split sep s ≡ s ∷ []
unfolding lacks split
split-lacks sep String.[] h = refl
split-lacks sep (String.◌∷◌ c s) h = elim (Bool-cases (code c == sep)) [
  | inl e ↦ absurd (ground (arith, h, e))
  | inr e ↦ rw (e, split-lacks sep s (ground (arith, h))) refl
]

abbrev hyphen : String → String
hyphen b = String.◌∷◌ "-" b

split_cons :
    (c : Char) (s : String)
    → (code c == 45) ≡ false
    → split 45 (String.◌∷◌ c s) ≡ cons_head c (split 45 s)
unfolding split
split_cons c s e = rw e refl

split-hyphen : (b : String) → split 45 (hyphen b) ≡ "" ∷ split 45 b
unfolding split
split-hyphen b = refl

-- A text in front of a hyphen is the first part.
split_prefix : (a b : String) → lacks 45 a ≡ true → split 45 (◌<>◌ a (hyphen b)) ≡ a ∷ split 45 b
unfolding lacks
split_prefix String.[] b h = ap (split 45) (nil-append (hyphen b)) ∙ split-hyphen b
split_prefix (String.◌∷◌ c s) b h =
    ap (split 45) (cons-append c s (hyphen b))
    ∙ split_cons c (◌<>◌ s (hyphen b)) (ground (arith, h))
    ∙ ap (cons_head c) (split_prefix s b (ground (arith, h)))

split_zone :
    (zone ip : String)
    → lacks 45 zone ≡ true
    → lacks 45 ip ≡ true
    → split 45 (◌<>◌ zone (hyphen ip)) ≡ zone ∷ ip ∷ []
split_zone zone ip hz hi = split_prefix zone ip hz ∙ ap (◌∷◌ zone) (split-lacks 45 ip hi)

zone_prefix : (zone b : String) → concat (concat (zone ∷ "-" ∷ []) ∷ b ∷ []) ≡ ◌<>◌ zone (hyphen b)
unfolding concat
zone_prefix zone b =
    append_assoc zone "-" (◌<>◌ b "")
    ∙ ap (◌<>◌ zone)
        (cons-append "-" "" (◌<>◌ b "") ∙ ap hyphen (nil-append (◌<>◌ b "") ∙ append-nil b))

no_prefix : (b : String) → concat ("" ∷ b ∷ []) ≡ b
unfolding concat
no_prefix b = nil-append (◌<>◌ b "") ∙ append-nil b

module _ (net : Net) where
  host_address_one : (ip : String) → parses net ip ≡ true → host_address net (ip ∷ []) ≡ ip
  unfolding host_address
  host_address_one ip h = rw h refl

  parse_parts :
      (hostname zone ip : String) (parts : List String)
      → (hostname == "llbanyextip") ≡ false
      → split 45 hostname ≡ parts
      → (parts ≡ ip ∷ []) ⊎ ((zone == "") ≡ false × (parts ≡ zone ∷ ip ∷ []))
      → parses net ip ≡ true
      → parse_ingress_hostname net hostname zone ≡ ip
  unfolding parse_ingress_hostname
  parse_parts hostname zone ip parts h s (inl e) p = rw (h, s, e) (host_address_one ip p)
  parse_parts hostname zone ip parts h s (inr (z, e)) p =
      rw (h, s, e, z, eq_refl zone) (host_address_one ip p)

  parses-some : (ip : String) (a : IpAddr) → net.parse_ip ip ≡ some a → parses net ip ≡ true
  parses-some ip a h = rw (parses, h) refl

  special_split : split 45 "llbanyextip" ≡ "llbanyextip" ∷ []
  unfolding split
  special_split = refl

  special_unparsed :
      (ip : String) (a : IpAddr)
      → net.parse_ip ip ≡ some a
      → net.parse_ip "llbanyextip" ≡ none
      → ip ≢ "llbanyextip"
  special_unparsed ip a p q e = cc

  special_differs :
      (hostname : String) (parts : List String)
      → split 45 hostname ≡ parts
      → parts ≢ "llbanyextip" ∷ []
      → (hostname == "llbanyextip") ≡ false
  special_differs hostname parts s ne = elim (Bool-cases (hostname == "llbanyextip")) [
    | inl e ↦
        absurd (ne (sym s ∙ ap (split 45) ((eq_iff hostname "llbanyextip").0 e) ∙ special_split))
    | inr e ↦ e
  ]

  -- The name under which an address is published leads back to the address, for an address that
  -- parses, is not the unspecified one, is no IPv6 address and holds no hyphen, in a zone whose
  -- name holds no hyphen, where the special name llbanyextip is no address.
  pub parse_ingress_hostname-gen_ext_ip_name :
      (zone ip : String) (insts : Assoc IpAddr) (a : IpAddr)
      → lacks 45 zone ≡ true
      → lacks 45 ip ≡ true
      → net.is_ipv6 ip ≡ false
      → net.parse_ip ip ≡ some a
      → net.is_unspecified a ≡ false
      → net.parse_ip "llbanyextip" ≡ none
      → map (λ h. parse_ingress_hostname net h zone) (gen_ext_ip_name net zone insts ip) ≡ ip ∷ []
  unfolding gen_ext_ip_name
  parse_ingress_hostname-gen_ext_ip_name zone ip insts a hz hi no_colons parsed specified special =
      elim (Bool-cases (zone == "")) [
        | inl e ↦
            rw (parsed, specified, no_colons, e, no_prefix ip)
              (ap (λ (x : String). x ∷ [])
                (parse_parts ip zone ip (ip ∷ [])
                  (special_differs ip (ip ∷ []) (split-lacks 45 ip hi)
                    (λ q. special_unparsed ip a parsed special (ground (arith, q))))
                  (split-lacks 45 ip hi) (inl refl) (parses-some ip a parsed)))
        | inr e ↦
            rw (parsed, specified, no_colons, e, zone_prefix zone ip)
              (ap (λ (x : String). x ∷ [])
                (parse_parts (◌<>◌ zone (hyphen ip)) zone ip (zone ∷ ip ∷ [])
                  (special_differs _ (zone ∷ ip ∷ []) (split_zone zone ip hz hi) (λ q. cc))
                  (split_zone zone ip hz hi) (inr (e, refl)) (parses-some ip a parsed)))
      ]
