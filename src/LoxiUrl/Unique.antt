-- ===== src/LoxiUrl/Unique.antt =====
-- syncLBURLs keeps the clients at different URLs.
use kube_loxilb.Api.Client.{LoxiClient}
use kube_loxilb.Api.LbModel.{ep_select_eq}
use kube_loxilb.Base.{
  Bool, Bool-cases, List, Option-cases, String, [], all_of, ap, arith, bool_eq, elem, false,
  if◌then◌else◌, inl, inr, is_empty, keep_if, map, nat_eq, not, refl, string_eq, subst, sym, true,
  ℕ, ◌&&◌, ◌++◌, ◌==◌, ◌∙◌, ◌∷◌, ◌≡◌,
}
use kube_loxilb.Base.Assoc.{lookup}
use kube_loxilb.Base.Int.{int_eq}
use kube_loxilb.Config.{NetworkConfig}
use kube_loxilb.Lb.Hosts.{add_loxi_inst_addr, delete_loxi_inst_addr}
use kube_loxilb.Lb.Pools.Clients.{add_loxi_cidr_pool-clients, delete_loxi_cidr_pool-clients}
use kube_loxilb.Lb.Types.{Manager}
use kube_loxilb.LoxiUrl.{
  LoxiUrl, UrlDone, UrlLib, UrlManager, add_clients, add_loxi_lb_url, add_urls, by_type,
  delete_all_loxi_clients, delete_clients, delete_loxi_lb_url, delete_single_loxi_clients_with_name,
  delete_urls, first_invalid, is_of, is_there, make_clients, named, new_urls, sync_lb_urls, urls,
}
use kube_loxilb.LoxiUrl.Laws.{
  Distinct, Distinct-append, Distinct-keep_if, Distinct-make_clients, Distinct-urls-keep_if,
  elem-make_clients, elem-new_urls, elem-urls-keep_if, firsts-clients, firsts-named,
}
use kube_loxilb.Net.{Allocator, IpAddr, Net}
use kube_loxilb.Text.{split}

module _ (A : Allocator) (net : Net) (lib : UrlLib) (config : NetworkConfig) (now : ℕ) where
  -- No two clients have the same URL.
  abbrev pub Unique : UrlManager A.State → Type 0
  Unique m = Distinct (urls m.lb.clients)

  urls-append : (xs ys : List LoxiClient) → urls (xs ++ ys) ≡ urls xs ++ urls ys
  urls-append [] ys = refl
  urls-append (x ∷ xs) ys = ap (λ us. x.url ∷ us) (urls-append xs ys)

  -- The clients that stay are at none of the fresh URLs.
  fresh_apart :
      (name : String) (cs : List LoxiClient) (p : LoxiClient → Bool) (news : List String)
      (x : String)
      → elem x (urls (keep_if p cs)) ≡ true
      → elem x (urls (make_clients lib config now (named name (new_urls (urls cs) news)))) ≡ false
  fresh_apart name cs p news x here = elim (Bool-cases (elem x (urls cs))) [
    | inr away ↦ absurd (ground (arith, here, elem-urls-keep_if x p cs away))
    | inl current ↦ elem-make_clients lib config now x (named name (new_urls (urls cs) news)) (
        ap (elem x) (firsts-named name (new_urls (urls cs) news))
        ∙ elem-new_urls x (urls cs) news current)
  ]

  add_clients-Unique :
      (u : LoxiUrl) (news : List String) (m : UrlManager A.State)
      → Distinct news
      → Unique m
      → Unique (add_clients A net lib config now u news m)
  unfolding add_clients delete_single_loxi_clients_with_name
  add_clients-Unique u news m different unique =
      elim (Bool-cases (is_empty (new_urls (urls m.lb.clients) news))) [
        | inl e ↦ rw e unique
        | inr e ↦ rw e (subst Distinct (sym (urls-append kept made)) all_different)
      ]
    where
      others : LoxiClient → Bool
      others c = not (c.name == u.name)

      kept : List LoxiClient
      kept = keep_if others m.lb.clients

      fresh : List String
      fresh = new_urls (urls m.lb.clients) news

      made : List LoxiClient
      made = make_clients lib config now (named u.name fresh)

      fresh_different : Distinct fresh
      fresh_different =
          unfold new_urls in Distinct-keep_if (λ v. not (elem v (urls m.lb.clients))) news different

      all_different : Distinct (urls kept ++ urls made)
      all_different =
          Distinct-append (urls kept) (urls made) (Distinct-urls-keep_if others m.lb.clients unique)
            (Distinct-make_clients lib config now (named u.name fresh)
              (subst Distinct (sym (firsts-named u.name fresh)) fresh_different))
            (λ x h. fresh_apart u.name m.lb.clients others news x h)

  delete_clients-Unique :
      (u : LoxiUrl) (deleted : List String) (m : UrlManager A.State)
      → Unique m
      → Unique (delete_clients A net lib config now u deleted m)
  unfolding delete_clients delete_all_loxi_clients
  delete_clients-Unique u deleted m unique =
      elim (Bool-cases (all_of (is_there A net lib config now u m.lb.clients) deleted)) [
        | inr e ↦ rw e unique
        | inl e ↦
            let others : LoxiClient → Bool = λ c. not (is_of A net lib config now u deleted c) in
            let kept = keep_if others m.lb.clients in
            rw e (
              Distinct-make_clients lib config now (map (λ (c : LoxiClient). (c.url, c.name)) kept)
                (subst Distinct (sym (firsts-clients kept))
                  (Distinct-urls-keep_if others m.lb.clients unique)))
      ]

  -- What each type of resource keeps is kept.
  by_type-Unique :
      (u : LoxiUrl) (m : UrlManager A.State) (pool : UrlDone A net lib config now)
      → (host : IpAddr → UrlDone A net lib config now) → (clients : UrlDone A net lib config now)
      → Unique m
      → Unique pool.1
      → ((ip : IpAddr) → Unique (host ip).1)
      → Unique clients.1
      → Unique (by_type A net lib config now u m pool host clients).1
  unfolding by_type
  by_type-Unique u m pool host clients here p h c =
      elim (Bool-cases (not (u.zone == "") && not (u.zone == config.zone))) [
        | inl e ↦ rw e here
        | inr e ↦ elim (Bool-cases (u.url_type == "cidrpool")) [
          | inl e1 ↦ rw (e, e1) p
          | inr e1 ↦ elim (Bool-cases (u.url_type == "hostcidr")) [
            | inl e2 ↦ elim (Option-cases (net.parse_ip u.url)) [
              | inl e3 ↦ rw (e, e1, e2, e3) here
              | inr (ip, e3) ↦ rw (e, e1, e2, e3) (h ip)
            ]
            | inr e2 ↦ elim (Bool-cases (not (u.url_type == "") && not (u.url_type == "default"))) [
              | inl e3 ↦ rw (e, e1, e2, e3) here
              | inr e3 ↦ elim (Bool-cases (is_empty config.loxilb_urls)) [
                | inl e4 ↦ rw (e, e1, e2, e3, e4) here
                | inr e4 ↦ rw (e, e1, e2, e3, e4) c
              ]
            ]
          ]
        ]
      ]

  add_urls-Unique :
      (u : LoxiUrl) (m : UrlManager A.State)
      → Distinct (split 44 u.url)
      → Unique m
      → Unique (add_urls A net lib config now u m).1
  unfolding add_urls delete_all_loxi_clients
  add_urls-Unique u m different unique =
      let m' : UrlManager A.State =
        if m.crd_control_on
        then m
        else record (delete_all_loxi_clients m) { crd_control_on = true } in
      let unique' : Unique m' = elim (Bool-cases m.crd_control_on) [
        | inl e ↦ rw e unique
        | inr e ↦ rw e tt
      ] in
      elim (Option-cases (first_invalid lib (split 44 u.url))) [
        | inl e ↦ rw (add_urls, e) (add_clients-Unique u (split 44 u.url) m' different unique')
        | inr (bad, e) ↦ rw (add_urls, e) unique'
      ]

  delete_urls-Unique :
      (u : LoxiUrl) (m : UrlManager A.State)
      → Unique m
      → Unique (delete_urls A net lib config now u m).1
  unfolding delete_urls
  delete_urls-Unique u m unique = elim (Option-cases (first_invalid lib (split 44 u.url))) [
    | inl e ↦ rw (delete_urls, e) (delete_clients-Unique u (split 44 u.url) m unique)
    | inr (bad, e) ↦ rw (delete_urls, e) unique
  ]

  add_loxi_lb_url-Unique :
      (u : LoxiUrl) (m : UrlManager A.State)
      → Distinct (split 44 u.url)
      → Unique m
      → Unique (add_loxi_lb_url A net lib config now u m).1
  unfolding add_loxi_lb_url add_loxi_inst_addr
  add_loxi_lb_url-Unique u m different unique =
      by_type-Unique u m _ _ _ unique
        (subst (λ cs. Distinct (urls cs))
          (sym (add_loxi_cidr_pool-clients A net config u.name u.url m.lb)) unique)
        (λ ip. unique) (add_urls-Unique u m different unique)

  delete_loxi_inst_addr-clients :
      (name : String) (k : Manager A.State) → (delete_loxi_inst_addr name k).1.clients ≡ k.clients
  unfolding delete_loxi_inst_addr
  delete_loxi_inst_addr-clients name k = elim (Option-cases (lookup name k.loxi_inst_addr_map)) [
    | inl e ↦ rw (delete_loxi_inst_addr, e) refl
    | inr (_, e) ↦ rw (delete_loxi_inst_addr, e) refl
  ]

  delete_loxi_lb_url-Unique :
      (u : LoxiUrl) (m : UrlManager A.State)
      → Unique m
      → Unique (delete_loxi_lb_url A net lib config now u m).1
  unfolding delete_loxi_lb_url delete_loxi_inst_addr
  delete_loxi_lb_url-Unique u m unique =
      by_type-Unique u m _ _ _ unique
        (subst (λ cs. Distinct (urls cs))
          (sym (delete_loxi_cidr_pool-clients A net u.name u.url m.lb)) unique)
        (λ ip.
          subst (λ cs. Distinct (urls cs)) (sym (delete_loxi_inst_addr-clients u.name m.lb)) unique)
        (delete_urls-Unique u m unique)

  -- For a resource that lists no URL twice, and clients at different URLs, a synchronisation leaves the
  -- clients at different URLs: with a resource that is added or gone, of every type and zone, with a
  -- URL that cannot be parsed, and with clients that cannot be made.
  pub sync_lb_urls-Unique :
      (listed : Bool) (u : LoxiUrl) (m : UrlManager A.State)
      → Distinct (split 44 u.url)
      → Unique m
      → Unique (sync_lb_urls A net lib config now listed u m).1
  unfolding sync_lb_urls
  sync_lb_urls-Unique true u m different unique = add_loxi_lb_url-Unique u m different unique
  sync_lb_urls-Unique false u m different unique = delete_loxi_lb_url-Unique u m unique
