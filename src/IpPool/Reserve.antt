-- ===== src/IpPool/Reserve.antt =====
-- Allocation, return and reservation in pkg/ippool/ippool.go.
use kube_loxilb.Api.LbModel.{ep_select_eq}
use kube_loxilb.Base.{
  Bool, Option-cases, String, arith, bool_eq, eq_iff, false, if◌then◌else◌, inl, inr, nat_eq, none,
  refl, some, string_eq, subst, sym, true, ℕ, ◌&&◌, ◌==◌, ◌||◌, ◌∙◌, ◌≡◌, ◌≢◌, ◌⊎◌,
}
use kube_loxilb.Base.Int.{int_eq}
use kube_loxilb.IpPool.{
  IpPool, check_and_reserve_ip, contains, get_new_ip_addr, ipam_ident, reserve_ip_addr,
  return_ip_addr,
}
use kube_loxilb.Net.{Allocator, IpAddr, Net}

-- What loxilib documents of its allocator: which addresses are taken in which range under which
-- identifier, and how each call changes that.
pub record AllocatorLaws (A : Allocator) (net : Net) : Type 1 where
  pub in_use : A.State → String → String → String → Bool
  pub allocate_some :
      (st st' : A.State) (c i : String) (a : IpAddr)
      → A.allocate st c i ≡ (some a, st')
      → (in_use st c i (net.ip_string a) ≡ false)
        × ((c' i' x : String)
            → in_use st' c' i' x
              ≡ ((c == c' && (i == i' && net.ip_string a == x)) || in_use st c' i' x))
  pub allocate_none :
      (st st' : A.State) (c i : String)
      → A.allocate st c i ≡ (none, st')
      → (c' i' x : String) → in_use st' c' i' x ≡ in_use st c' i' x
  pub deallocate_in_use :
      (st : A.State) (c i ip c' i' x : String)
      → in_use (A.deallocate st c i ip) c' i' x
        ≡ (if c == c' && (i == i' && ip == x) then false else in_use st c' i' x)

module _ (A : Allocator) (net : Net) where
  -- What an allocation did, by the attempt that found the address.
  pub data Got (p : IpPool A.State) (a : IpAddr) (ident : String) (p' : IpPool A.State)
      : Type 0 where
    got :
        (st : A.State)
        → (st ≡ p.ip_alloc) ⊎ ((i : String) × (A.allocate p.ip_alloc p.cidr i ≡ (none, st)))
        → A.allocate st p.cidr ident ≡ (some a, p'.ip_alloc)
        → p' ≡ record p { ip_alloc = p'.ip_alloc }
        → Got p a ident p'

  pub get_new_ip_addr-Got :
      (p p' : IpPool A.State) (s_ident : ℕ) (proto : String) (a : IpAddr) (ident : String)
      → get_new_ip_addr A net p s_ident proto ≡ ((some a, ident), p')
      → Got p a ident p'
  unfolding get_new_ip_addr
  get_new_ip_addr-Got p p' s_ident proto a ident h =
      let i₀ = ipam_ident A net p s_ident proto in
      elim (Option-cases (A.allocate p.ip_alloc p.cidr i₀).0) [
        | inr (a₀, e) ↦ got p.ip_alloc (inl refl) (ground arith) (ground arith)
        | inl e ↦
            got (A.allocate p.ip_alloc p.cidr i₀).1 (inr (i₀, ground arith)) (ground arith)
              (ground arith)
      ]

  contains-ip_alloc :
      (p : IpPool A.State) (st : A.State) (a : IpAddr)
      → contains net (record p { ip_alloc = st }) a ≡ contains net p a
  unfolding contains
  contains-ip_alloc p st a = refl

  returned :
      (p : IpPool A.State) (st : A.State) (a : IpAddr) (ident : String)
      → net.parse_ip (net.ip_string a) ≡ some a
      → contains net p a ≡ true
      → (return_ip_addr A net (record p { ip_alloc = st }) (net.ip_string a) ident).ip_alloc
        ≡ A.deallocate st p.cidr ident (net.ip_string a)
  unfolding return_ip_addr contains-ip_alloc
  returned p st a ident parsed inside = ground (arith, contains-ip_alloc p st a)

  module _ (laws : AllocatorLaws A net) where
    open laws use {in_use, allocate_some, allocate_none, deallocate_in_use}

    freed :
        (p : IpPool A.State) (st st' : A.State) (ident : String) (a : IpAddr)
        → A.allocate st p.cidr ident ≡ (some a, st')
        → (c i x : String)
        → in_use (A.deallocate st' p.cidr ident (net.ip_string a)) c i x ≡ in_use st c i x
    freed p st st' ident a e c i x =
        let l = allocate_some st st' p.cidr ident a e in
        rw (deallocate_in_use, l.1)
          (ground (arith, l.0, eq_iff p.cidr c, eq_iff ident i, eq_iff (net.ip_string a) x))

    pub kept_before :
        (p : IpPool A.State) (st : A.State)
        → (st ≡ p.ip_alloc) ⊎ ((i : String) × (A.allocate p.ip_alloc p.cidr i ≡ (none, st)))
        → (c i x : String) → in_use st c i x ≡ in_use p.ip_alloc c i x
    kept_before p st (inl e) c i x = rw e
    kept_before p st (inr (j, e)) c i x = allocate_none p.ip_alloc st p.cidr j e c i x

    -- An address that GetNewIPAddr hands out and that lies in the pool goes back by ReturnIPAddr under
    -- the identifier that came with it, also if that is the fallback of a shared pool: afterwards the
    -- allocator holds exactly the addresses that it held before, under the same identifiers.
    pub return_ip_addr-get_new_ip_addr :
        (p p' : IpPool A.State) (s_ident : ℕ) (proto : String) (a : IpAddr) (ident : String)
        → get_new_ip_addr A net p s_ident proto ≡ ((some a, ident), p')
        → net.parse_ip (net.ip_string a) ≡ some a
        → contains net p a ≡ true
        → (c i x : String)
        → in_use (return_ip_addr A net p' (net.ip_string a) ident).ip_alloc c i x
          ≡ in_use p.ip_alloc c i x
    return_ip_addr-get_new_ip_addr p p' s_ident proto a ident h parsed inside c i x =
        go (get_new_ip_addr-Got p p' s_ident proto a ident h)
      where
        go :
            Got p a ident p'
            → in_use (return_ip_addr A net p' (net.ip_string a) ident).ip_alloc c i x
              ≡ in_use p.ip_alloc c i x
        go (got st before e same) =
            subst
              (λ q.
                in_use (return_ip_addr A net q (net.ip_string a) ident).ip_alloc c i x
                ≡ in_use p.ip_alloc c i x)
              (sym same)
              (rw (returned p p'.ip_alloc a ident parsed inside)
                (freed p st p'.ip_alloc ident a e c i x ∙ kept_before p st before c i x))

  -- ReserveIPAddr on a pool that is not shared reports no error, and the common identifier,
  -- whatever the allocator answers.
  reserve_ip_addr_unshared :
      (p : IpPool A.State) (ip : String) (s_ident : ℕ) (proto : String)
      → p.shared ≡ false
      → (reserve_ip_addr A net p ip s_ident proto).0 ≡ (none, A.no_ident)
  unfolding reserve_ip_addr
  reserve_ip_addr_unshared p ip s_ident proto h =
      ground (arith, string_eq.equal_iff A.no_ident A.no_ident)

  -- CheckAndReserveIP on a pool that is not shared reports each address that parses as reserved if
  -- it lies in the pool, whatever the allocator answers, and as outside the pool otherwise.
  pub check_and_reserve_ip_unshared :
      (p : IpPool A.State) (ip : String) (a : IpAddr) (s_ident : ℕ) (proto : String)
      → p.shared ≡ false
      → net.parse_ip ip ≡ some a
      → (check_and_reserve_ip A net p ip s_ident proto).0
        ≡ (if contains net p a then (true, true, A.no_ident) else (false, false, ""))
  unfolding check_and_reserve_ip
  check_and_reserve_ip_unshared p ip a s_ident proto h parsed =
      ground (arith, reserve_ip_addr_unshared p ip s_ident proto h)

  -- On a shared pool an error is reported exactly when the allocator refuses the address twice, under
  -- the identifier of the port and then under the common one.
  pub reserve_ip_addr_shared :
      (p : IpPool A.State) (ip : String) (s_ident : ℕ) (proto : String)
      → p.shared ≡ true
      → A.make_ident "" s_ident proto ≢ A.no_ident
      → let i = A.make_ident "" s_ident proto in
        let r = A.reserve p.ip_alloc p.cidr i ip in
        let r' = A.reserve r.1 p.cidr A.no_ident ip in
        (reserve_ip_addr A net p ip s_ident proto).0
        ≡ elim r.0 [ none ↦ (none, i) | some _ ↦ (r'.0, A.no_ident) ]
  unfolding reserve_ip_addr
  reserve_ip_addr_shared p ip s_ident proto h ne =
      ground (arith, string_eq.equal_iff (A.make_ident "" s_ident proto) A.no_ident)
