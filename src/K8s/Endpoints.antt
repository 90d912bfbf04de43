-- ===== src/K8s/Endpoints.antt =====
-- The addresses that GetServiceEndPointsWithLister collects.
use kube_loxilb.Api.LbModel.{ep_select_eq}
use kube_loxilb.Base.{
  Bool, Bool-cases, List, String, [], any_of, ap, arith, bool_eq, elem, eq_iff, false,
  if◌then◌else◌, inl, inr, nat_eq, refl, set, string_eq, subst, true, ℕ, ◌&&◌, ◌++◌, ◌+◌, ◌==◌,
  ◌||◌, ◌∷◌, ◌≡◌, ◌≤◌,
}
use kube_loxilb.Base.Int.{int_eq}
use kube_loxilb.Base.Outcome.{ok}
use kube_loxilb.K8s.{
  EndpointSlice, SliceEndpoint, add_new, addresses_loop, endpoints_loop, get_service_endpoints,
  in_slice_family, is_ready, slices_loop,
}
use kube_loxilb.Net.{Net}

-- How often an address is listed.
abbrev pub times : String → List String → ℕ
times x [] = 0
times x (y ∷ ys) = if y == x then times x ys + 1 else times x ys

elem-append_one :
    (x a : String) (set : List String) → elem x (set ++ a ∷ []) ≡ (elem x set || a == x)
elem-append_one x a [] = ground arith
elem-append_one x a (y ∷ set) = ground (arith, elem-append_one x a set)

times-append_one :
    (x a : String) (set : List String)
    → times x (set ++ a ∷ []) ≡ (if a == x then times x set + 1 else times x set)
times-append_one x a [] = ground arith
times-append_one x a (y ∷ set) = ground (arith, times-append_one x a set)

elem-times : (x : String) (set : List String) → elem x set ≡ false → times x set ≡ 0
elem-times x [] h = refl
elem-times x (y ∷ set) h = ground (arith, elem-times x set, h)

ok_value : (xs ys : List String) → ok xs ≡ ok ys → xs ≡ ys
ok_value xs ys h = cc

module _ (net : Net) (addr_type x : String) where
  -- One collection: what is in it afterwards, and that nothing is listed twice.
  abbrev Collected : Bool → List String → List String → Type 0
  Collected found set set' =
      (elem x set' ≡ (elem x set || found)) × (times x set ≤ 1 → times x set' ≤ 1)

  Collected-trans :
      (a b : Bool) (s₁ s₂ s₃ : List String)
      → Collected a s₁ s₂
      → Collected b s₂ s₃
      → Collected (a || b) s₁ s₃
  Collected-trans a b s₁ s₂ s₃ h k = (ground (arith, h.0, k.0), λ one. k.1 (h.1 one))

  add_new-Collected : (a : String) (set : List String) → Collected (a == x) set (add_new net a set)
  add_new-Collected a set = (
    ground (arith, elem-append_one x a set, eq_iff a x),
    λ one. ground (arith, times-append_one x a set, elem-times x set, eq_iff a x, one),
  )

  same_family :
      (a : String)
      → (a == x) ≡ true
      → in_slice_family net addr_type a ≡ in_slice_family net addr_type x
  same_family a h = ap (in_slice_family net addr_type) ((eq_iff a x).0 h)

  address-Collected :
      (a : String) (set : List String)
      → Collected
          (a == x && in_slice_family net addr_type x)
          set
          (if in_slice_family net addr_type a then add_new net a set else set)
  address-Collected a set =
      let added = add_new-Collected a set in
      let same = same_family a in
      elim (Bool-cases (in_slice_family net addr_type a)) [
        | inl e ↦ rw e (ground (arith, added.0, same, e), added.1)
        | inr e ↦ rw e (ground (arith, same, e), λ one. one)
      ]

  addresses_loop-Collected :
      (addrs set : List String)
      → Collected
          (elem x addrs && in_slice_family net addr_type x)
          set
          (addresses_loop net addr_type addrs set)
  unfolding addresses_loop
  addresses_loop-Collected [] set = (ground arith, λ one. one)
  addresses_loop-Collected (a ∷ addrs) set =
      subst (λ found. Collected found set (addresses_loop net addr_type (a ∷ addrs) set))
        (both (a == x) (elem x addrs) (in_slice_family net addr_type x))
        (Collected-trans _ _ set _ _ (address-Collected a set) (addresses_loop-Collected addrs _))
    where
      both : (p q f : Bool) → ((p && f) || (q && f)) ≡ ((p || q) && f)
      both p q f = ground arith

  -- The address is one of a ready endpoint, and of the family.
  abbrev pub endpoint_has : SliceEndpoint → Bool
  endpoint_has e = is_ready net e && (elem x e.addresses && in_slice_family net addr_type x)

  endpoint-Collected :
      (e : SliceEndpoint) (set : List String)
      → Collected
          (endpoint_has e)
          set
          (if is_ready net e then addresses_loop net addr_type e.addresses set else set)
  endpoint-Collected e set = elim (Bool-cases (is_ready net e)) [
    | inl h ↦ rw h (addresses_loop-Collected e.addresses set)
    | inr h ↦ rw h (ground arith, λ one. one)
  ]

  endpoints_loop-Collected :
      (es : List SliceEndpoint) (set : List String)
      → Collected (any_of endpoint_has es) set (endpoints_loop net addr_type es set)
  unfolding endpoints_loop
  endpoints_loop-Collected [] set = (ground arith, λ one. one)
  endpoints_loop-Collected (e ∷ es) set =
      Collected-trans _ _ set _ _ (endpoint-Collected e set) (endpoints_loop-Collected es _)

  -- The address is at one of the endpoints of a slice.
  abbrev pub slice_has : EndpointSlice → Bool
  slice_has s = any_of endpoint_has s.endpoints

  slices_loop-Collected :
      (ss : List EndpointSlice) (set : List String)
      → Collected (any_of slice_has ss) set (slices_loop net addr_type ss set)
  unfolding slices_loop
  slices_loop-Collected [] set = (ground arith, λ one. one)
  slices_loop-Collected (s ∷ ss) set =
      Collected-trans _ _ set _ _ (endpoints_loop-Collected s.endpoints set)
        (slices_loop-Collected ss _)

  -- An address is an endpoint of the service exactly if it stands at a ready endpoint of one of the
  -- slices and is of the address family, and no address is an endpoint twice.
  pub get_service_endpoints_collects :
      (ss : List EndpointSlice) (ips : List String)
      → get_service_endpoints net (ok ss) addr_type ≡ ok ips
      → (elem x ips ≡ any_of slice_has ss) × (times x ips ≤ 1)
  unfolding get_service_endpoints
  get_service_endpoints_collects ss ips h =
      let (found, once) = slices_loop-Collected ss [] in
      subst (λ l. (elem x l ≡ any_of slice_has ss) × (times x l ≤ 1)) (ok_value _ ips h)
        (found, once (omega arith))
