-- ===== src/Lb/Discovery/Laws.antt =====
-- The hosts of the clients after a discovery.
use kube_loxilb.Api.Client.{LoxiClient, new_loxi_client}
use kube_loxilb.Api.LbModel.{ep_select_eq}
use kube_loxilb.Base.{
  All, Bool, Bool-cases, List, Option, String, [], any_of, ap, arith, bool_eq, elem, elem-append,
  eq_iff, eq_refl, inl, inr, keep_if, keep_if-append, map, nat_eq, not, refl, string_eq, subst, sym,
  true, ℕ, ◌&&◌, ◌++◌, ◌==◌, ◌∙◌, ◌∷◌, ◌≡◌,
}
use kube_loxilb.Base.Int.{int_eq}
use kube_loxilb.Config.{NetworkConfig}
use kube_loxilb.Lb.Discovery.{Discovered, at_host, discover, mark_purge, missing_clients}
use kube_loxilb.Lb.Discovery.Marks.{
  All-join, LeadsBack, Settled, any_of-at_host, append_none, elem-hosts-stays, hosts, hosts-append,
  keep_stable, mark_stable, marked-Settled, purge_stable, stays,
}
use kube_loxilb.Lb.Signals.{known}

module _ (host_port : String → Option (String × String)) (config : NetworkConfig) (now : ℕ)
    (peer : Bool) (no_role : String → Bool) where
  -- Whether there is a client of the host, before and after the missing ones come.
  elem-hosts-missing_clients :
      (h : String) (cs : List LoxiClient) (ips : List String)
      → LeadsBack host_port ips
      → elem h (hosts (keep_if stays (missing_clients host_port config now peer no_role cs ips)))
        ≡ (elem h ips && not (elem h (hosts cs)))
  unfolding missing_clients new_loxi_client
  elem-hosts-missing_clients h cs [] back = ground arith
  elem-hosts-missing_clients h cs (ip ∷ ips) back = elim (Bool-cases (any_of (at_host ip) cs)) [
    | inl e ↦
        rw e ground
          (arith, elem-hosts-missing_clients h cs ips back.1, any_of-at_host ip cs, e, same)
    | inr e ↦
        rw (e, back.0) ground
          (arith, elem-hosts-missing_clients h cs ips back.1, any_of-at_host ip cs, e, same)
  ]
    where
      same : (ip == h) ≡ true → elem h (hosts cs) ≡ elem ip (hosts cs)
      same k = ap (λ v. elem v (hosts cs)) (sym ((eq_iff ip h).0 k))

  -- The clients of the missing addresses are to stay, at the addresses.
  missing_clients-Settled :
      (known : List String) (cs : List LoxiClient) (ips : List String)
      → LeadsBack host_port ips
      → ((h : String) → elem h ips ≡ true → elem h known ≡ true)
      → All
          (Settled known)
          (keep_if stays (missing_clients host_port config now peer no_role cs ips))
  unfolding missing_clients new_loxi_client
  missing_clients-Settled known cs [] back inside = tt
  missing_clients-Settled known cs (ip ∷ ips) back inside =
      let later : All (Settled known)
          (keep_if stays (missing_clients host_port config now peer no_role cs ips)) =
        missing_clients-Settled known cs ips back.1 (λ h k. inside h (ground (arith, k))) in
      elim (Bool-cases (any_of (at_host ip) cs)) [
        | inl e ↦ rw e later
        | inr e ↦ rw (e, back.0) ((refl, inside ip (ground (arith, eq_refl ip))), later)
      ]

  missing_clients_none :
      (cs : List LoxiClient) (ips : List String)
      → ((h : String) → elem h ips ≡ true → elem h (hosts cs) ≡ true)
      → missing_clients host_port config now peer no_role cs ips ≡ []
  unfolding missing_clients
  missing_clients_none cs [] there = refl
  missing_clients_none cs (ip ∷ ips) there =
      rw (any_of-at_host ip cs, there ip (ground (arith, eq_refl ip)))
        (missing_clients_none cs ips (λ h k. there h (ground (arith, k))))

  after : List String → List LoxiClient → Discovered
  unfolding discover
  after ips cs = discover host_port config now peer no_role ips cs

  discover_parts :
      (ips : List String) (cs : List LoxiClient)
      → (after ips cs).0
        ≡ keep_if stays (map (mark_purge ips) cs)
          ++ keep_if stays (missing_clients host_port config now peer no_role cs ips)
  unfolding after discover
  discover_parts ips cs =
      keep_if-append stays (map (mark_purge ips) cs)
        (missing_clients host_port config now peer no_role cs ips)

  elem-hosts-discover :
      (ips : List String) (cs : List LoxiClient)
      → LeadsBack host_port ips
      → (h : String) → elem h (hosts (after ips cs).0) ≡ elem h ips
  elem-hosts-discover ips cs back h =
      let old = keep_if stays (map (mark_purge ips) cs) in
      let new = keep_if stays (missing_clients host_port config now peer no_role cs ips) in
      ap (λ ds. elem h (hosts ds)) (discover_parts ips cs)
      ∙ ap (elem h) (hosts-append old new)
      ∙ elem-append h (hosts old) (hosts new)
      ∙ ground (arith, elem-hosts-stays h ips cs, elem-hosts-missing_clients h cs ips back)

  discover-Settled :
      (ips : List String) (cs : List LoxiClient)
      → LeadsBack host_port ips
      → All (Settled ips) (after ips cs).0
  discover-Settled ips cs back = subst (All (Settled ips)) (sym (discover_parts ips cs)) (
      All-join (Settled ips) (keep_if stays (map (mark_purge ips) cs))
        (keep_if stays (missing_clients host_port config now peer no_role cs ips))
        (marked-Settled ips cs) (missing_clients-Settled ips cs ips back (λ h k. k)))

  -- Settled clients at all addresses are left alone.
  discover_stable :
      (ips : List String) (cs : List LoxiClient)
      → All (Settled ips) cs
      → ((h : String) → elem h ips ≡ true → elem h (hosts cs) ≡ true)
      → after ips cs ≡ (cs, [])
  unfolding after discover
  discover_stable ips cs settled there =
      rw (missing_clients_none cs ips there, mark_stable ips cs settled, append_none cs)
        (ap (λ as'. (as', keep_if (λ (c : LoxiClient). c.purge) cs)) (keep_stable ips cs settled)
          ∙ ap (λ bs. (cs, bs)) (purge_stable ips cs settled))

  -- Where the URLs of the instances lead back to their addresses, a discovery, of the instances or of
  -- the peers, leaves clients at exactly the addresses that it is given, from any clients before; and
  -- a second discovery of the same addresses keeps those clients as they are and purges none.
  pub discover_refines :
      (ips : List String) (cs : List LoxiClient)
      → LeadsBack host_port ips
      → ((h : String)
          → elem h (hosts (discover host_port config now peer no_role ips cs).0) ≡ elem h ips)
        × (discover host_port config now peer no_role ips
              (discover host_port config now peer no_role ips cs).0
            ≡ ((discover host_port config now peer no_role ips cs).0, []))
  unfolding after
  discover_refines ips cs back = (
    elem-hosts-discover ips cs back,
    discover_stable ips (after ips cs).0 (discover-Settled ips cs back)
        (λ h k. elem-hosts-discover ips cs back h ∙ k),
  )
