-- ===== src/LoxiUrl/Laws.antt =====
-- The clients that LoxiURL resources leave: no two for one URL.
use kube_loxilb.Api.Client.{LoxiClient, new_loxi_client}
use kube_loxilb.Api.LbModel.{ep_select_eq}
use kube_loxilb.Base.{
  Bool, Bool-cases, List, Option, Option-cases, String, [], ap, arith, bool_eq, elem, elem-append,
  eq_iff, eq_refl, false, inl, inr, keep_if, map, nat_eq, none, refl, some, string_eq, subst, sym,
  true, ℕ, ◌++◌, ◌==◌, ◌||◌, ◌∙◌, ◌∷◌, ◌≡◌, ◌⊎◌,
}
use kube_loxilb.Base.Int.{int_eq}
use kube_loxilb.Config.{NetworkConfig}
use kube_loxilb.LoxiUrl.{UrlLib, make_clients, named, new_urls, urls}

-- No text is listed twice.
abbrev pub Distinct : List String → Type 0
Distinct [] = Unit
Distinct (x ∷ xs) = (elem x xs ≡ false) × Distinct xs

pub Distinct-append :
    (xs ys : List String)
    → Distinct xs
    → Distinct ys
    → ((y : String) → elem y xs ≡ true → elem y ys ≡ false)
    → Distinct (xs ++ ys)
Distinct-append [] ys d e apart = e
Distinct-append (x ∷ xs) ys d e apart = (
  ground (arith, elem-append x xs ys, d.0, apart x (ground (arith, eq_refl x))),
  Distinct-append xs ys d.1 e (λ y h. apart y (ground (arith, h))),
)

-- What is not in a list is not in what passes a test.
pub elem-keep_if :
    (x : String) (p : String → Bool) (xs : List String)
    → elem x xs ≡ false
    → elem x (keep_if p xs) ≡ false
elem-keep_if x p [] h = refl
elem-keep_if x p (y ∷ xs) h = ground (arith, h, elem-keep_if x p xs)

pub Distinct-keep_if :
    (p : String → Bool) (xs : List String) → Distinct xs → Distinct (keep_if p xs)
Distinct-keep_if p [] d = tt
Distinct-keep_if p (x ∷ xs) d = elim (Bool-cases (p x)) [
  | inl e ↦ rw e (elem-keep_if x p xs d.0, Distinct-keep_if p xs d.1)
  | inr e ↦ rw e (Distinct-keep_if p xs d.1)
]

-- The URLs of clients that pass a test.
pub elem-urls-keep_if :
    (x : String) (p : LoxiClient → Bool) (cs : List LoxiClient)
    → elem x (urls cs) ≡ false
    → elem x (urls (keep_if p cs)) ≡ false
elem-urls-keep_if x p [] h = refl
elem-urls-keep_if x p (c ∷ cs) h = ground (arith, h, elem-urls-keep_if x p cs)

pub Distinct-urls-keep_if :
    (p : LoxiClient → Bool) (cs : List LoxiClient)
    → Distinct (urls cs)
    → Distinct (urls (keep_if p cs))
Distinct-urls-keep_if p [] d = tt
Distinct-urls-keep_if p (c ∷ cs) d = elim (Bool-cases (p c)) [
  | inl e ↦ rw e (elem-urls-keep_if c.url p cs d.0, Distinct-urls-keep_if p cs d.1)
  | inr e ↦ rw e (Distinct-urls-keep_if p cs d.1)
]

abbrev pub firsts : List (String × String) → List String
firsts us = map (λ (p : String × String). p.0) us

module _ (lib : UrlLib) (config : NetworkConfig) (now : ℕ) where
  new_client-url :
      (o : Option (String × String)) (u name : String) (c : LoxiClient)
      → new_loxi_client o now u false false name config.zone config.num_zone_inst ≡ some c
      → c.url ≡ u
  unfolding new_loxi_client
  new_client-url none u name c h = absurd (ground (arith, h))
  new_client-url (some (host, port)) u name c h = ap url_or (sym h)
    where
      url_or : Option LoxiClient → String
      url_or none = u
      url_or (some d) = d.url

  -- One URL more: its client cannot be made, or stands in front.
  make_clients_step :
      (u name : String) (us : List (String × String))
      → (make_clients lib config now ((u, name) ∷ us) ≡ make_clients lib config now us)
        ⊎ ((c : LoxiClient) × ((c.url ≡ u)
              × (make_clients lib config now ((u, name) ∷ us)
                  ≡ c ∷ make_clients lib config now us)))
  unfolding make_clients
  make_clients_step u name us =
      elim (Option-cases (
        new_loxi_client (lib.host_port u) now u false false name config.zone
          config.num_zone_inst)) [
            | inl e ↦ inl (rw (make_clients, e) refl)
            | inr (c, e) ↦
                inr (c, (new_client-url (lib.host_port u) u name c e, rw (make_clients, e) refl))
          ]

  pub elem-make_clients :
      (x : String) (us : List (String × String))
      → elem x (firsts us) ≡ false
      → elem x (urls (make_clients lib config now us)) ≡ false
  unfolding make_clients
  elem-make_clients x [] h = refl
  elem-make_clients x ((u, name) ∷ us) h = elim (make_clients_step u name us) [
    | inl same ↦ ap (λ cs. elem x (urls cs)) same ∙ elem-make_clients x us (ground (arith, h))
    | inr (c, (own, same)) ↦
        ap (λ cs. elem x (urls cs)) same
        ∙ ap (λ v. v == x || elem x (urls (make_clients lib config now us))) own
        ∙ ground (arith, h, elem-make_clients x us (ground (arith, h)))
  ]

  pub Distinct-make_clients :
      (us : List (String × String))
      → Distinct (firsts us)
      → Distinct (urls (make_clients lib config now us))
  unfolding make_clients
  Distinct-make_clients [] d = tt
  Distinct-make_clients ((u, name) ∷ us) d = elim (make_clients_step u name us) [
    | inl same ↦ subst (λ cs. Distinct (urls cs)) (sym same) (Distinct-make_clients us d.1)
    | inr (c, (own, same)) ↦
        subst (λ cs. Distinct (urls cs)) (sym same)
          (
            subst (λ v. elem v (urls (make_clients lib config now us)) ≡ false) (sym own)
                (elem-make_clients u us d.0),
            Distinct-make_clients us d.1,
          )
  ]

pub firsts-named : (name : String) (us : List String) → firsts (named name us) ≡ us
firsts-named name [] = refl
firsts-named name (u ∷ us) = ap (λ vs. u ∷ vs) (firsts-named name us)

pub firsts-clients :
    (cs : List LoxiClient) → firsts (map (λ (c : LoxiClient). (c.url, c.name)) cs) ≡ urls cs
firsts-clients [] = refl
firsts-clients (c ∷ cs) = ap (λ vs. c.url ∷ vs) (firsts-clients cs)

-- A fresh URL is none of the current ones.
pub elem-new_urls :
    (x : String) (current news : List String)
    → elem x current ≡ true
    → elem x (new_urls current news) ≡ false
unfolding new_urls
elem-new_urls x current [] h = refl
elem-new_urls x current (u ∷ news) h = elim (Bool-cases (elem u current)) [
  | inl e ↦ rw e (elem-new_urls x current news h)
  | inr e ↦ rw e (ground (arith, elem-new_urls x current news h, eq_iff u x, other e))
]
  where
    other : elem u current ≡ false → (u == x) ≡ false
    other e = elim (Bool-cases (u == x)) [
      | inr e' ↦ e'
      | inl same ↦
          let found : elem u current ≡ true =
            subst (λ v. elem v current ≡ true) (sym ((eq_iff u x).0 same)) h in
          absurd (ground (arith, found, e))
    ]
