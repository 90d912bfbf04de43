-- ===== src/Lb/Pools/Laws.antt =====
-- What the updates of the pool tables do.
use kube_loxilb.Api.LbModel.{ep_select_eq}
use kube_loxilb.Base.{
  Bool, Bool-cases, List, Option, String, [], ap, arith, bool_eq, eq_iff, false, get_elem?,
  if◌then◌else◌, inl, inr, length, nat_eq, none, not, refl, some, string_eq, subst, suc, sym, true,
  zero, ℕ, ◌++◌, ◌==◌, ◌∙◌, ◌∷◌, ◌≡◌,
}
use kube_loxilb.Base.Assoc.{Assoc, insert, lookup, lookup-insert, lookup-remove, remove}
use kube_loxilb.Base.Int.{int_eq}
use kube_loxilb.Base.Outcome.{Outcome, err, ok, panic, ◌>>=◌}
use kube_loxilb.Config.{NetworkConfig}
use kube_loxilb.IpPool.{IpPool, new_ip_pool}
use kube_loxilb.Lb.Pools.{
  add_cidr_pool, add_loxi_cidr_pool, add_to_table, assign_copy, cidr_addr, delete_cidr_pool,
  delete_loxi_cidr_pool, drop_copy, enter_pool, is_v6_addr, table, update_pool, with_table,
}
use kube_loxilb.Lb.Types.{Manager}
use kube_loxilb.Net.{Allocator, IpAddr, Net}

removed_again :
    (name j : String) (n : ℕ) (tbl : Assoc ℕ)
    → lookup name tbl ≡ none
    → lookup j (remove name (insert name n tbl)) ≡ lookup j tbl
removed_again name j n tbl absent =
    lookup-remove name j (insert name n tbl)
    ∙ ground (arith, lookup-insert name j n tbl, eq_iff name j, absent)

removed_absent :
    (name j : String) (tbl : Assoc ℕ)
    → lookup name tbl ≡ none
    → lookup j (remove name tbl) ≡ lookup j tbl
removed_absent name j tbl absent = lookup-remove name j tbl ∙ ground (arith, eq_iff name j, absent)

get_elem?-append :
    {B : Type 0}
    → (xs ys : List B) (i : ℕ) (x : B) → get_elem? xs i ≡ some x
    → get_elem? (xs ++ ys) i ≡ some x
get_elem?-append [] ys i x h = absurd (ground (arith, h))
get_elem?-append (y ∷ xs) ys zero x h = h
get_elem?-append (y ∷ xs) ys (suc i) x h = get_elem?-append xs ys i x h

module _ {S : Type 0} where
  -- The pool behind a pointer, if there is one, and the pool that a name leads to in one of the tables.
  abbrev pub behind : List (IpPool S) → Option ℕ → Option (IpPool S)
  behind pools none = none
  behind pools (some i) = get_elem? pools i

  abbrev pub pool_at : Bool → String → Manager S → Option (IpPool S)
  pool_at w j m = behind m.pools (lookup j (table w m))

  table_pools :
      (w : Bool) (m : Manager S) (pools : List (IpPool S))
      → table w (record m { pools = pools }) ≡ table w m
  table_pools true m pools = refl
  table_pools false m pools = refl

  behind-append :
      (pools more : List (IpPool S)) (o : Option ℕ) (q : IpPool S)
      → behind pools o ≡ some q
      → behind (pools ++ more) o ≡ some q
  behind-append pools more none q h = absurd (ground (arith, h))
  behind-append pools more (some i) q h = get_elem?-append pools more i q h

module _ (A : Allocator) (net : Net) (config : NetworkConfig) (name cidr : String) where
  -- No entry of a table changes, and every pool that a name leads to is the one it led to.
  abbrev pub SamePools : Manager A.State → Manager A.State → Type 0
  SamePools m m' =
      ((w : Bool) (j : String) → lookup j (table w m') ≡ lookup j (table w m))
      × ((w : Bool) (j : String) (q : IpPool A.State)
          → pool_at w j m ≡ some q
          → pool_at w j m' ≡ some q)

  enter_pool-SamePools :
      (copy : Assoc ℕ) (m : Manager A.State) (o : Outcome (IpPool A.State))
      → ((drop_copy A net (enter_pool A net name copy m o)).0 ≡ (o >>= λ _. ok tt))
        × SamePools m (drop_copy A net (enter_pool A net name copy m o)).1
  unfolding enter_pool
  enter_pool-SamePools copy m (ok p) = (
    refl,
    (
      λ w j. ap (lookup j) (table_pools w m (m.pools ++ p ∷ [])),
      λ w j q h.
          subst (λ t. behind (m.pools ++ p ∷ []) (lookup j t) ≡ some q)
            (sym (table_pools w m (m.pools ++ p ∷ [])))
            (behind-append m.pools (p ∷ []) (lookup j (table w m)) q h),
    ),
  )
  enter_pool-SamePools copy m (err e) = (refl, (λ w j. refl, λ w j q h. h))
  enter_pool-SamePools copy m panic = (refl, (λ w j. refl, λ w j q h. h))

  known_keeps :
      (v6 : Bool) (m : Manager A.State) (i : ℕ) (p : IpPool A.State)
      → get_elem? m.pools i ≡ some p
      → let (r, m') = add_to_table A net config name cidr v6 m (some i) in
        (r ≡ (
          if p.cidr == cidr
          then ok tt
          else new_ip_pool A net A.new cidr (not config.excl_ipam) >>= λ _. ok tt))
        × SamePools m m'
  unfolding add_to_table update_pool
  known_keeps v6 m i p there = elim (Bool-cases (p.cidr == cidr)) [
    | inl e ↦ rw (there, e) (refl, (λ w j. refl, λ w j q h. h))
    | inr e ↦
        rw (there, e)
          (enter_pool-SamePools (table v6 m) m
            (new_ip_pool A net A.new cidr (not config.excl_ipam)))
  ]

  -- AddLoxiCIDRPool never replaces a pool: for a name that is in the table of the address family, with
  -- a pool, no entry of either table changes, and every pool that a name leads to is the one it led to, with
  -- its own CIDR and its addresses; the call succeeds all the same, if the CIDR is that of the
  -- pool or a pool can be made for the CIDR that is asked for.
  pub add_loxi_cidr_pool_existing :
      (m : Manager A.State) (addr : Option IpAddr) (i : ℕ) (p : IpPool A.State)
      → cidr_addr net cidr ≡ ok addr
      → lookup name (table (is_v6_addr net addr) m) ≡ some i
      → get_elem? m.pools i ≡ some p
      → let (r, m') = add_loxi_cidr_pool A net config name cidr m in
        (r ≡ (
          if p.cidr == cidr
          then ok tt
          else new_ip_pool A net A.new cidr (not config.excl_ipam) >>= λ _. ok tt))
        × SamePools m m'
  unfolding add_loxi_cidr_pool add_cidr_pool
  add_loxi_cidr_pool_existing m addr i p parsed named there =
      rw (parsed, named) (known_keeps (is_v6_addr net addr) m i p there)

  -- The manager after the deletion from one of the tables.
  abbrev without : Bool → Manager A.State → Manager A.State
  without v6 m = with_table v6 (remove name (table v6 m)) m

  added_pool :
      (w v6 : Bool) (j : String) (m : Manager A.State) (r : Outcome (IpPool A.State))
      → lookup name (table w m) ≡ none
      → lookup j
          (table v6 (without w (assign_copy A net w (enter_pool A net name (table w m) m r)).1))
        ≡ lookup j (table v6 m)
  unfolding enter_pool assign_copy
  added_pool true true j m (ok p) absent =
      removed_again name j (length m.pools) m.ip6_pool_tbl absent
  added_pool true false j m (ok p) absent = refl
  added_pool false true j m (ok p) absent = refl
  added_pool false false j m (ok p) absent =
      removed_again name j (length m.pools) m.ip_pool_tbl absent
  added_pool true true j m (err e) absent = removed_absent name j m.ip6_pool_tbl absent
  added_pool true false j m (err e) absent = refl
  added_pool false true j m (err e) absent = refl
  added_pool false false j m (err e) absent = removed_absent name j m.ip_pool_tbl absent
  added_pool true true j m panic absent = removed_absent name j m.ip6_pool_tbl absent
  added_pool true false j m panic absent = refl
  added_pool false true j m panic absent = refl
  added_pool false false j m panic absent = removed_absent name j m.ip_pool_tbl absent

  added_to_table :
      (w v6 : Bool) (j : String) (m : Manager A.State) (o : Option ℕ)
      → o ≡ lookup name (table w m)
      → o ≡ none
      → lookup j (table v6 (without w (add_to_table A net config name cidr w m o).1))
        ≡ lookup j (table v6 m)
  unfolding add_to_table
  added_to_table w v6 j m none e h = added_pool w v6 j m _ (sym e)
  added_to_table w v6 j m (some i) e h = absurd (ground arith)

  -- A pool that is added under a new name and deleted again, by a CIDR that is well formed, leaves both
  -- tables with the entries that they had.
  pub delete_loxi_cidr_pool-add_loxi_cidr_pool :
      (m : Manager A.State) (addr : Option IpAddr)
      → cidr_addr net cidr ≡ ok addr
      → lookup name (table (is_v6_addr net addr) m) ≡ none
      → (v6 : Bool) (j : String)
      → lookup j (
          table v6
            (delete_loxi_cidr_pool A net name cidr
              (add_loxi_cidr_pool A net config name cidr m).1).1)
        ≡ lookup j (table v6 m)
  unfolding add_loxi_cidr_pool delete_loxi_cidr_pool add_cidr_pool delete_cidr_pool
  delete_loxi_cidr_pool-add_loxi_cidr_pool m addr parsed absent v6 j =
      subst
        (λ r.
          lookup j (
            table v6 (delete_cidr_pool A net name (add_cidr_pool A net config name cidr m r).1 r).1)
          ≡ lookup j (table v6 m))
        (sym parsed) (added_to_table (is_v6_addr net addr) v6 j m _ refl absent)
