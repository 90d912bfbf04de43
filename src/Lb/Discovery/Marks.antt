-- ===== src/Lb/Discovery/Marks.antt =====
-- The clients that a discovery keeps, and those that a second one would.
use kube_loxilb.Api.Client.{LoxiClient}
use kube_loxilb.Api.LbModel.{ep_select_eq}
use kube_loxilb.Base.{
  All, Bool, Bool-cases, List, Option, String, [], any_of, ap, arith, bool_eq, elem, eq_iff, false,
  if◌then◌else◌, inl, inr, keep_if, map, nat_eq, not, refl, some, string_eq, subst, sym, true, ◌&&◌,
  ◌++◌, ◌==◌, ◌∙◌, ◌∷◌, ◌≡◌,
}
use kube_loxilb.Base.Int.{int_eq}
use kube_loxilb.Lb.Discovery.{at_host, instance_url, mark_purge}

abbrev pub hosts : List LoxiClient → List String
hosts cs = map (λ (c : LoxiClient). c.host) cs

-- The URL of an instance leads back to its address.
abbrev pub LeadsBack : (String → Option (String × String)) → List String → Type 0
LeadsBack host_port [] = Unit
LeadsBack host_port (ip ∷ ips) =
    (host_port (instance_url ip) ≡ some (ip, "11111")) × LeadsBack host_port ips

abbrev pub stays : LoxiClient → Bool
stays c = not c.purge

pub hosts-append : (xs ys : List LoxiClient) → hosts (xs ++ ys) ≡ hosts xs ++ hosts ys
hosts-append [] ys = refl
hosts-append (x ∷ xs) ys = ap (λ hs. x.host ∷ hs) (hosts-append xs ys)

-- A marked client stays if its host is one of the addresses.
pub elem-hosts-stays :
    (h : String) (ips : List String) (cs : List LoxiClient)
    → elem h (hosts (keep_if stays (map (mark_purge ips) cs))) ≡ (elem h ips && elem h (hosts cs))
unfolding mark_purge
elem-hosts-stays h ips [] = ground arith
elem-hosts-stays h ips (c ∷ cs) = elim (Bool-cases (elem c.host ips)) [
  | inl e ↦ rw e ground (arith, elem-hosts-stays h ips cs, same e)
  | inr e ↦ rw e ground (arith, elem-hosts-stays h ips cs, other e)
]
  where
    same : elem c.host ips ≡ true → (c.host == h) ≡ true → elem h ips ≡ true
    same e k = subst (λ v. elem v ips ≡ true) ((eq_iff c.host h).0 k) e

    other : elem c.host ips ≡ false → (c.host == h) ≡ true → elem h ips ≡ false
    other e k = subst (λ v. elem v ips ≡ false) ((eq_iff c.host h).0 k) e

pub any_of-at_host :
    (ip : String) (cs : List LoxiClient) → any_of (at_host ip) cs ≡ elem ip (hosts cs)
any_of-at_host ip [] = refl
any_of-at_host ip (c ∷ cs) = ground (arith, any_of-at_host ip cs)

-- A client that is not to go, at one of the addresses.
abbrev pub Settled : List String → LoxiClient → Type 0
Settled ips c = (c.purge ≡ false) × (elem c.host ips ≡ true)

pub marked-Settled :
    (ips : List String) (cs : List LoxiClient)
    → All (Settled ips) (keep_if stays (map (mark_purge ips) cs))
unfolding mark_purge
marked-Settled ips [] = tt
marked-Settled ips (c ∷ cs) = elim (Bool-cases (elem c.host ips)) [
  | inl e ↦ rw e ((refl, e), marked-Settled ips cs)
  | inr e ↦ rw e (marked-Settled ips cs)
]

pub All-join :
    (P : LoxiClient → Type 0) (xs ys : List LoxiClient) → All P xs → All P ys → All P (xs ++ ys)
All-join P [] ys h k = k
All-join P (x ∷ xs) ys h k = (h.0, All-join P xs ys h.1 k)

pub mark_stable :
    (ips : List String) (cs : List LoxiClient) → All (Settled ips) cs → map (mark_purge ips) cs ≡ cs
unfolding mark_purge
mark_stable ips [] h = refl
mark_stable ips (c ∷ cs) h =
    ap (λ ds. record c { purge = not (elem c.host ips) } ∷ ds) (mark_stable ips cs h.1)
    ∙ ap (λ (b : Bool). record c { purge = b } ∷ cs) (ap not h.0.1 ∙ sym h.0.0)

keep_if-first :
    (c : LoxiClient) (cs : List LoxiClient)
    → stays c ≡ true
    → keep_if stays (c ∷ cs) ≡ c ∷ keep_if stays cs
keep_if-first c cs e = ap (λ (b : Bool). if b then c ∷ keep_if stays cs else keep_if stays cs) e

pub keep_stable :
    (ips : List String) (cs : List LoxiClient) → All (Settled ips) cs → keep_if stays cs ≡ cs
keep_stable ips [] h = refl
keep_stable ips (c ∷ cs) h =
    keep_if-first c cs (ap not h.0.0) ∙ ap (λ ds. c ∷ ds) (keep_stable ips cs h.1)

pub purge_stable :
    (ips : List String) (cs : List LoxiClient)
    → All (Settled ips) cs
    → keep_if (λ (c : LoxiClient). c.purge) cs ≡ []
purge_stable ips [] h = refl
purge_stable ips (c ∷ cs) h = rw h.0.0 (purge_stable ips cs h.1)

pub append_none : (cs : List LoxiClient) → cs ++ [] ≡ cs
append_none [] = refl
append_none (c ∷ cs) = ap (λ ds. c ∷ ds) (append_none cs)
