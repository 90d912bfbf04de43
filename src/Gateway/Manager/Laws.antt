-- ===== src/Gateway/Manager/Laws.antt =====
-- The address of a gateway: where it goes when the update fails, and when the gateway is deleted.
use kube_loxilb.Base.{
  List, Option, String, [], ap, arith, is_empty, none, refl, some, subst, sym, true, ◌++◌, ◌∙◌, ◌∷◌,
  ◌≡◌,
}
use kube_loxilb.Base.Assoc.{insert, lookup-insert}
use kube_loxilb.Base.Outcome.{Outcome, err, ok, panic}
use kube_loxilb.Gateway.Manager.{
  GatewayApi, Worked, assign_address, assigned, create_gateway, delete_gateway, merge_addresses,
  publish_gateway, reconcile_gateway, return_addresses, with_new_address, with_pool, with_status,
}
use kube_loxilb.Gateway.Types.{Gateway, mark_of, mark_text, missing, or_empty}
use kube_loxilb.IpPool.{IpPool, contains, get_new_ip_addr}
use kube_loxilb.IpPool.Reserve.{AllocatorLaws, return_ip_addr-get_new_ip_addr}
use kube_loxilb.Net.{Allocator, IpAddr, Net}

module _ (G : GatewayApi) (gateway_class lb_class : String) (A : Allocator) (net : Net)
    (laws : AllocatorLaws A net) where
  open laws use {in_use}

  ident_mark :
      (ip ident : String) (g : Gateway)
      → mark_text "ident-ipam" (with_new_address ip ident g).annotations ≡ ident
  unfolding with_new_address mark_of
  ident_mark ip ident g =
      ap (λ (o : Option String). elim o as (λ _. String) [ none ↦ "" | some v ↦ v ])
        (lookup-insert "ident-ipam" "ident-ipam" ident
          (insert "ipam-address" ip (or_empty g.annotations)))

  merged :
      (g : Gateway) (ip : String)
      → g.spec_addresses ≡ []
      → g.status_addresses ≡ []
      → merge_addresses g.status_addresses (g.spec_addresses ++ ip ∷ []) ≡ ip ∷ []
  unfolding merge_addresses
  merged g ip bare no_status = rw (bare, no_status) refl

  new_address :
      (g : Gateway) (st : G.State) (p : IpPool A.State)
      → G.has_class st g.class_name ≡ true
      → is_empty g.spec_addresses ≡ true
      → create_gateway G gateway_class lb_class A net g st p
        ≡ assign_address G gateway_class lb_class A net g st (get_new_ip_addr A net p 0 "")
  unfolding create_gateway
  new_address g st p class bare = rw (class, bare) refl

  -- A gateway that has got an address keeps it: nothing is taken from the pool.
  retried :
      (g : Gateway) (ip ident : String) (st : G.State) (p : IpPool A.State)
      → G.has_class st g.class_name ≡ true
      → g.spec_addresses ≡ []
      → create_gateway G gateway_class lb_class A net (with_new_address ip ident g) st p
        ≡ with_pool G gateway_class lb_class A net
            (publish_gateway G gateway_class lb_class (with_new_address ip ident g) st)
            p
            (some (with_status (with_new_address ip ident g)))
  unfolding create_gateway with_new_address
  retried g ip ident st p class bare = rw (class, bare) refl

  -- What createGateway leaves, by how the API server answers the update of a gateway that was given an
  -- address from the pool: the pool, and the object of the informer's cache.
  abbrev pub LeavesPool :
      Gateway
      → String
      → String
      → IpPool A.State
      → IpPool A.State
      → Outcome Gateway
      → Worked G gateway_class lb_class A net
      → Type 0
  LeavesPool g ip ident p p' update (r, _, q, left) =
      (left ≡ some (with_new_address ip ident g))
      × ((g' : Gateway) → update ≡ ok g' → q ≡ p')
      × ((t : String)
          → update ≡ err t
          → (r ≡ err "unable to update gateway configuration")
            × ((c i x : String) → in_use q.ip_alloc c i x ≡ in_use p.ip_alloc c i x)
            × ((st' : G.State) (q' : IpPool A.State)
                → G.has_class st' g.class_name ≡ true
                → create_gateway G gateway_class lb_class A net (with_new_address ip ident g) st' q'
                  ≡ with_pool G gateway_class lb_class A net
                      (publish_gateway G gateway_class lb_class (with_new_address ip ident g) st')
                      q' (some (with_status (with_new_address ip ident g)))))

  by_answer :
      (g : Gateway) (p p' : IpPool A.State) (ip : IpAddr) (ident : String)
      → g.spec_addresses ≡ []
      → get_new_ip_addr A net p 0 "" ≡ ((some ip, ident), p')
      → net.parse_ip (net.ip_string ip) ≡ some ip
      → contains net p ip ≡ true
      → (u : Outcome Gateway × G.State)
      → LeavesPool g (net.ip_string ip) ident p p' u.0 (
          assigned G gateway_class lb_class A net
            (with_new_address (net.ip_string ip) ident g)
            (net.ip_string ip)
            ident
            p'
            u)
  unfolding assigned
  by_answer g p p' ip ident bare allocated parsed inside (ok g', st') =
      (refl, λ g'' h. refl, λ t h. absurd (ground (arith, h)))
  by_answer g p p' ip ident bare allocated parsed inside (panic, st') =
      (refl, λ g'' h. absurd (ground (arith, h)), λ t h. absurd (ground (arith, h)))
  by_answer g p p' ip ident bare allocated parsed inside (err u, st') = (
    refl,
    λ g'' h. absurd (ground (arith, h)),
    λ t h. (
      refl,
      return_ip_addr-get_new_ip_addr A net laws p p' 0 "" ip ident allocated parsed inside,
      λ st'' q' class. retried g (net.ip_string ip) ident st'' q' class bare,
    ),
  )

  -- For a gateway without an address, of a class that is there, whose address lies in the pool: the object
  -- of the informer's cache has the new address afterwards, however the API server answers the update.
  -- If it takes the update, the pool is the one of the allocation, however the later steps end. If it
  -- refuses, createGateway fails and the allocator holds what it held before, but the next
  -- reconciliation, which finds that object, publishes its address without taking it from the pool.
  pub create_gateway_pool :
      (g : Gateway) (st : G.State) (p p' : IpPool A.State) (ip : IpAddr) (ident : String)
      → G.has_class st g.class_name ≡ true
      → g.spec_addresses ≡ []
      → get_new_ip_addr A net p 0 "" ≡ ((some ip, ident), p')
      → net.parse_ip (net.ip_string ip) ≡ some ip
      → contains net p ip ≡ true
      → LeavesPool g
          (net.ip_string ip)
          ident
          p
          p'
          (G.gateway_update st (with_new_address (net.ip_string ip) ident g)).0
          (create_gateway G gateway_class lb_class A net g st p)
  unfolding assign_address
  create_gateway_pool g st p p' ip ident class bare allocated parsed inside =
      subst (LeavesPool g (net.ip_string ip) ident p p' update_of.0)
        (sym (new_address g st p class (ap is_empty bare) ∙ ap assign allocated))
        (by_update update_of)
    where
      update_of : Outcome Gateway × G.State
      update_of = G.gateway_update st (with_new_address (net.ip_string ip) ident g)

      assign : (Option IpAddr × String) × IpPool A.State → Worked G gateway_class lb_class A net
      assign = assign_address G gateway_class lb_class A net g st

      by_update :
          (u : Outcome Gateway × G.State)
          → LeavesPool g (net.ip_string ip) ident p p' u.0 (
              assigned G gateway_class lb_class A net
                (with_new_address (net.ip_string ip) ident g)
                (net.ip_string ip)
                ident
                p'
                u)
      by_update u = by_answer g p p' ip ident bare allocated parsed inside u

  -- A gateway that got its address from the pool and is deleted later, with the annotations and the status
  -- that the manager wrote for it, gives the address back under the identifier that it was taken under:
  -- the allocator then holds what it held before the gateway came.
  pub reconcile_gateway_deleted :
      (g : Gateway) (st : G.State) (p p' : IpPool A.State) (ip : IpAddr) (ident : String)
      → g.spec_addresses ≡ []
      → g.status_addresses ≡ []
      → get_new_ip_addr A net p 0 "" ≡ ((some ip, ident), p')
      → net.parse_ip (net.ip_string ip) ≡ some ip
      → contains net p ip ≡ true
      → let entry = with_status (with_new_address (net.ip_string ip) ident g) in
        let (_, _, q, _) = reconcile_gateway G gateway_class lb_class A net entry missing st p' in
        (c i x : String) → in_use q.ip_alloc c i x ≡ in_use p.ip_alloc c i x
  unfolding reconcile_gateway delete_gateway return_addresses with_status with_new_address
  reconcile_gateway_deleted g st p p' ip ident bare no_status allocated parsed inside c i x =
      ap (λ as'. in_use (returned as' ident').ip_alloc c i x)
        (merged g (net.ip_string ip) bare no_status)
      ∙ ap (λ j. in_use (returned (net.ip_string ip ∷ []) j).ip_alloc c i x)
          (ident_mark (net.ip_string ip) ident g)
      ∙ return_ip_addr-get_new_ip_addr A net laws p p' 0 "" ip ident allocated parsed inside c i x
    where
      ident' : String
      ident' = mark_text "ident-ipam" (with_new_address (net.ip_string ip) ident g).annotations

      returned : List String → String → IpPool A.State
      returned as' j = return_addresses G gateway_class lb_class A net as' j p'
