-- ===== src/Lb/Secondary/Count.antt =====
-- What getIngressSecSvcPairs gives when it succeeds.
use kube_loxilb.Api.LbModel.{ep_select_eq}
use kube_loxilb.Base.{
  Bool-cases, List, Option-cases, String, [], all_of, ap, arith, bool_eq, false, get_elem?, inl,
  inr, length, ltb, nat_eq, refl, set, some, string_eq, subst, suc, true, zero, ℕ, ◌&&◌, ◌==◌, ◌∙◌,
  ◌∷◌, ◌≡◌, ◌≤◌,
}
use kube_loxilb.Base.Int.{int_eq, to_u32}
use kube_loxilb.Base.Outcome.{Outcome, err, ok, panic, ◌>>=◌}
use kube_loxilb.IpPool.{IpPool, get_new_ip_addr}
use kube_loxilb.IpPool.Reserve.{Got, get_new_ip_addr-Got}
use kube_loxilb.Lb.Pairs.{new_pair}
use kube_loxilb.Lb.Secondary.{get_ingress_sec_svc_pairs, sec_pairs}
use kube_loxilb.Lb.Types.{LbCacheEntry, Manager, Service, ServicePort, SvcPair}
use kube_loxilb.Net.{Allocator, IpAddr, Net}
use kube_loxilb.Text.{to_lower}

length-set : {A : Type 0} (xs : List A) (i : ℕ) (v : A) → length (set xs i v) ≡ length xs
length-set [] i v = refl
length-set (x ∷ xs) zero v = refl
length-set (x ∷ xs) (suc i) v = ground (arith, length-set xs i v)

module _ (A : Allocator) (net : Net) (q : ServicePort) (qs : List ServicePort) where
  -- The pairs are fresh addresses of pools for the first port, and only the pools differ.
  abbrev pub Gives : ℕ → Manager A.State → List SvcPair × Manager A.State → Type 0
  Gives n m (ps, m') =
      (length ps ≡ n)
      × (all_of (λ (s : SvcPair). s.in_range && s.ip_allocd && (s.port == q.port)) ps ≡ true)
      × (m' ≡ record m { pools = m'.pools })
      × (length m'.pools ≡ length m.pools)

  -- The pairs, each with an address that the allocator gave from the pool of its own place in the list, on
  -- what the earlier allocations left: the manager before, the pairs, and the manager after.
  pub data Allocates : List ℕ → ℕ → Manager A.State → List SvcPair → Manager A.State → Type 0 where
    all_given : (is : List ℕ) (m : Manager A.State) → Allocates is zero m [] m
    one_given :
        (i : ℕ) (is : List ℕ) (n : ℕ) (m m' : Manager A.State) (p p' : IpPool A.State)
        → (ip : IpAddr) (s : SvcPair) (ss : List SvcPair) → get_elem? m.pools i ≡ some p
        → Got A net p ip s.ident_ipam p'
        → s ≡ record s {
          ip_string = net.ip_string ip;
          port = q.port;
          protocol = to_lower q.protocol;
          in_range = true;
          static_ip = false;
          ip_allocd = true;
        }
        → Allocates is n (record m { pools = set m.pools i p' }) ss m'
        → Allocates (i ∷ is) (suc n) m (s ∷ ss) m'

  value_of : (x y : List SvcPair × Manager A.State) → ok x ≡ ok y → x ≡ y
  value_of x y h = cc

  -- One pool: the pair that it gives in front of the later ones.
  one_more :
      (i n : ℕ) (m : Manager A.State) (p : IpPool A.State) (ip : IpAddr) (ident : String)
      (o : Outcome (List SvcPair × Manager A.State)) (r : List SvcPair × Manager A.State)
      → ((x : List SvcPair × Manager A.State)
          → o ≡ ok x
          → Gives n (record m { pools = set m.pools i p }) x)
      → (o >>= λ x. ok (new_pair A net q ip ident true ∷ x.0, x.1)) ≡ ok r
      → Gives (suc n) m r
  one_more i n m p ip ident (ok (ps, m')) r ih h =
      let (size, all, same, pools) = ih (ps, m') refl in
      subst (Gives (suc n) m) (value_of _ r h) (
        ap suc size,
        ground (arith, all, int_eq.equal_iff q.port q.port),
        same,
        pools ∙ length-set m.pools i p,
      )
  one_more i n m p ip ident (err e) r ih h = absurd (ground arith)
  one_more i n m p ip ident panic r ih h = absurd (ground arith)

  sec_pairs-Gives :
      (is : List ℕ) (n : ℕ) (m : Manager A.State) (r : List SvcPair × Manager A.State)
      → sec_pairs A net (q ∷ qs) is n m ≡ ok r
      → Gives n m r
  unfolding sec_pairs
  sec_pairs-Gives is zero m r h =
      subst (Gives zero m) (value_of ([], m) r h) (refl, refl, refl, refl)
  sec_pairs-Gives [] (suc n) m r h = absurd (ground arith)
  sec_pairs-Gives (i ∷ is) (suc n) m r h = elim (Option-cases (get_elem? m.pools i)) [
    | inl e ↦ absurd (ground (arith, h, e))
    | inr (p, e) ↦
        let got = get_new_ip_addr A net p (to_u32 q.port) (to_lower q.protocol) in
        elim (Option-cases got.0.0) [
          | inl e' ↦ absurd (ground (arith, h, e, e'))
          | inr (ip, e') ↦
              one_more i n m got.1 ip got.0.1
                (sec_pairs A net (q ∷ qs) is n (record m { pools = set m.pools i got.1 })) r
                (λ x k. sec_pairs-Gives is n (record m { pools = set m.pools i got.1 }) x k)
                (ground (arith, e, e', h))
        ]
  ]

  -- One pool: the address that it gives in front of the later ones.
  one_allocated :
      (i : ℕ) (is : List ℕ) (n : ℕ) (m : Manager A.State) (p p' : IpPool A.State) (ip : IpAddr)
      (ident : String) (o : Outcome (List SvcPair × Manager A.State))
      (r : List SvcPair × Manager A.State)
      → get_elem? m.pools i ≡ some p
      → Got A net p ip ident p'
      → ((x : List SvcPair × Manager A.State)
          → o ≡ ok x
          → Allocates is n (record m { pools = set m.pools i p' }) x.0 x.1)
      → (o >>= λ x. ok (new_pair A net q ip ident true ∷ x.0, x.1)) ≡ ok r
      → Allocates (i ∷ is) (suc n) m r.0 r.1
  one_allocated i is n m p p' ip ident (ok (ps, m')) r there given ih h =
      subst (λ x. Allocates (i ∷ is) (suc n) m x.0 x.1) (value_of _ r h)
        (one_given i is n m m' p p' ip (new_pair A net q ip ident true) ps there given refl
          (ih (ps, m') refl))
  one_allocated i is n m p p' ip ident (err e) r there given ih h = absurd (ground arith)
  one_allocated i is n m p p' ip ident panic r there given ih h = absurd (ground arith)

  sec_pairs-Allocates :
      (is : List ℕ) (n : ℕ) (m : Manager A.State) (r : List SvcPair × Manager A.State)
      → sec_pairs A net (q ∷ qs) is n m ≡ ok r
      → Allocates is n m r.0 r.1
  unfolding sec_pairs
  sec_pairs-Allocates is zero m r h =
      subst (λ x. Allocates is zero m x.0 x.1) (value_of ([], m) r h) (all_given is m)
  sec_pairs-Allocates [] (suc n) m r h = absurd (ground arith)
  sec_pairs-Allocates (i ∷ is) (suc n) m r h = elim (Option-cases (get_elem? m.pools i)) [
    | inl e ↦ absurd (ground (arith, h, e))
    | inr (p, e) ↦
        let got = get_new_ip_addr A net p (to_u32 q.port) (to_lower q.protocol) in
        elim (Option-cases got.0.0) [
          | inl e' ↦ absurd (ground (arith, h, e, e'))
          | inr (ip, e') ↦
              one_allocated i is n m p got.1 ip got.0.1
                (sec_pairs A net (q ∷ qs) is n (record m { pools = set m.pools i got.1 })) r e
                (get_new_ip_addr-Got A net p got.1 (to_u32 q.port) (to_lower q.protocol) ip got.0.1
                  (ap (λ o. ((o, got.0.1), got.1)) e'))
                (λ x k. sec_pairs-Allocates is n (record m { pools = set m.pools i got.1 }) x k)
                (ground (arith, e, e', h))
        ]
  ]

  -- For a service with a port, a success of getIngressSecSvcPairs means that there are as many pools as
  -- secondary addresses are asked for, and it gives that many pairs, each for the first port; the address
  -- and the identifier of a pair are those of an allocation by the allocator of the pool at its
  -- place in the list, on what the earlier allocations left, and the manager afterwards is the one
  -- that these allocations leave: nothing else differs, and no other address is taken.
  pub get_ingress_sec_svc_pairs-Gives :
      (svc : Service) (n : ℕ) (e : LbCacheEntry) (m : Manager A.State)
      (r : List SvcPair × Manager A.State)
      → svc.ports ≡ q ∷ qs
      → get_ingress_sec_svc_pairs A net svc n e m ≡ ok r
      → (n ≤ length e.sip_pools) × Gives n m r × Allocates e.sip_pools n m r.0 r.1
  unfolding get_ingress_sec_svc_pairs
  get_ingress_sec_svc_pairs-Gives svc n e m r ports h =
      elim (Bool-cases (ltb (length e.sip_pools) n)) [
        | inl few ↦ absurd (ground (arith, h, few))
        | inr enough ↦
            let given = rw (enough, ports) at h in
            (
              ground (arith, enough),
              sec_pairs-Gives e.sip_pools n m r given,
              sec_pairs-Allocates e.sip_pools n m r given,
            )
      ]
