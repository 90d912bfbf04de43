-- ===== src/Lb/Roles/Pass.antt =====
-- The second loop of the election visits every client once, from the hint on and then from the start.
use mathlib.Core.List.{append_assoc, append-nil}
use kube_loxilb.Api.Client.{LoxiClient}
use kube_loxilb.Base.{
  Bool, Bool-cases, List, Option, String, [], ap, arith, false, get_elem?, if◌then◌else◌, inl, inr,
  leb, length, length-append, none, refl, set, some, subst, suc, sym, zero, ℕ, ◌++◌, ◌+◌, ◌∙◌, ◌∷◌,
  ◌≡◌, ◌≤◌,
}
use kube_loxilb.Lb.Roles.{Elected, elect, visit}

-- The rounds over a list that is visited in order.
abbrev pub pass : String → ℕ → Bool → Option ℕ → List LoxiClient → Elected
pass inst j selected sel [] = ([], selected, sel)
pass inst j selected sel (c ∷ cs) =
    let (c', selected', sel') = visit inst j selected sel c in
    let (cs', selected'', sel'') = pass inst (j + 1) selected' sel' cs in
    (c' ∷ cs', selected'', sel'')

get_elem?-middle :
    (pre : List LoxiClient) (c : LoxiClient) (suf : List LoxiClient)
    → get_elem? (pre ++ c ∷ suf) (length pre) ≡ some c
get_elem?-middle [] c suf = refl
get_elem?-middle (x ∷ pre) c suf = get_elem?-middle pre c suf

set-middle :
    (pre : List LoxiClient) (c d : LoxiClient) (suf : List LoxiClient)
    → set (pre ++ c ∷ suf) (length pre) d ≡ pre ++ d ∷ suf
set-middle [] c d suf = refl
set-middle (x ∷ pre) c d suf = ap (◌∷◌ x) (set-middle pre c d suf)

elect-visit :
    (inst : String) (n : ℕ) (selected : Bool) (sel : Option ℕ) (pre : List LoxiClient)
    (c : LoxiClient) (suf : List LoxiClient)
    → elect inst (suc n) (length pre) selected sel (pre ++ c ∷ suf) ≡ (
        let v = visit inst (length pre) selected sel c in
        elect inst n (length pre + 1) v.1 v.2 (pre ++ v.0 ∷ suf))
unfolding elect
elect-visit inst n selected sel pre c suf =
    let inside : leb (length (pre ++ c ∷ suf)) (length pre) ≡ false =
      ground (arith, length-append pre (c ∷ suf)) in
    simp (inside, get_elem?-middle, set-middle, elect)

module _ (inst : String) where
  elect-visit_at :
      (n i : ℕ) (selected : Bool) (sel : Option ℕ) (pre : List LoxiClient) (c : LoxiClient)
      (suf : List LoxiClient)
      → i ≡ length pre
      → elect inst (suc n) i selected sel (pre ++ c ∷ suf)
        ≡ (let v = visit inst i selected sel c in elect inst n (i + 1) v.1 v.2 (pre ++ v.0 ∷ suf))
  elect-visit_at n i selected sel pre c suf e =
      subst
        (λ j. elect inst (suc n) j selected sel (pre ++ c ∷ suf) ≡ (
          let v = visit inst j selected sel c in elect inst n (j + 1) v.1 v.2 (pre ++ v.0 ∷ suf)))
        (sym e) (elect-visit inst n selected sel pre c suf)

  elect-pass :
      (pre mid suf : List LoxiClient) (i r : ℕ) (selected : Bool) (sel : Option ℕ)
      → i ≡ length pre
      → elect inst (length mid + r) i selected sel (pre ++ (mid ++ suf)) ≡ (
          let p = pass inst i selected sel mid in
          elect inst r (i + length mid) p.1 p.2 (pre ++ (p.0 ++ suf)))
  elect-pass pre [] suf i r selected sel e =
      let e₁ : 0 + r ≡ r = omega arith in let e₂ : i + 0 ≡ i = omega arith in rw (e₁, e₂)
  elect-pass pre (c ∷ mid) suf i r selected sel e =
      let v = visit inst i selected sel c in
      let p = pass inst (i + 1) v.1 v.2 mid in
      let e₁ : suc (length mid) + r ≡ suc (length mid + r) = omega arith in
      let e₂ : i + suc (length mid) ≡ i + 1 + length mid = omega arith in
      let next : i + 1 ≡ length (pre ++ v.0 ∷ []) =
        omega (arith, length-append pre (v.0 ∷ []), e) in
      rw (e₁, e₂)
        (elect-visit_at (length mid + r) i selected sel pre c (mid ++ suf) e
          ∙ (ap (elect inst (length mid + r) (i + 1) v.1 v.2)
                (sym (append_assoc pre (v.0 ∷ []) (mid ++ suf)))
              ∙ (elect-pass (pre ++ v.0 ∷ []) mid suf (i + 1) r v.1 v.2 next
                  ∙ ap (elect inst r (i + 1 + length mid) p.1 p.2)
                      (append_assoc pre (v.0 ∷ []) (p.0 ++ suf)))))

  -- Past the end of the list a round starts at the first client.
  elect_wraps :
      (n i : ℕ) (selected : Bool) (sel : Option ℕ) (cs : List LoxiClient)
      → length cs ≤ i
      → elect inst n i selected sel cs ≡ elect inst n 0 selected sel cs
  unfolding elect
  elect_wraps zero i selected sel cs h = refl
  elect_wraps (suc n) i selected sel cs h =
      let e : (if leb (length cs) i then 0 else i) ≡ (if leb (length cs) 0 then 0 else 0) =
        ground arith in
      λ k. elim (get_elem? cs (e k)) [
        | none ↦ (cs, selected, sel)
        | some c ↦
            (let (c', selected', sel') = visit inst (e k) selected sel c in
              elect inst n (e k + 1) selected' sel' (set cs (e k) c'))
      ]

  -- The clients behind the hint first, then those before it.
  abbrev pub rotated : List LoxiClient → List LoxiClient → Elected
  rotated pre suf =
      let (suf', s, k) = pass inst (length pre) false none suf in
      let (pre', s', k') = pass inst 0 s k pre in (pre' ++ suf', s', k')

  length-pass :
      (j : ℕ) (selected : Bool) (sel : Option ℕ) (cs : List LoxiClient)
      → length (pass inst j selected sel cs).0 ≡ length cs
  length-pass j selected sel [] = refl
  length-pass j selected sel (c ∷ cs) = ap suc (length-pass (j + 1) _ _ cs)

  elect-rotated :
      (pre suf : List LoxiClient)
      → elect inst (length (pre ++ suf)) (length pre) false none (pre ++ suf) ≡ rotated pre suf
  unfolding elect
  elect-rotated pre suf =
      let p = pass inst (length pre) false none suf in
      let e : length (pre ++ suf) ≡ length suf + length pre =
        omega (arith, length-append pre suf) in
      let past : length (pre ++ p.0) ≤ length pre + length suf =
        omega (arith, length-append pre p.0, length-pass (length pre) false none suf) in
      rw e (
        ap (λ l. elect inst (length suf + length pre) (length pre) false none (pre ++ l))
          (sym (append-nil suf))
        ∙ (elect-pass pre suf [] (length pre) (length pre) false none refl
            ∙ (rw (append-nil p.0)
                  (elect_wraps (length pre) (length pre + length suf) p.1 p.2 (pre ++ p.0) past)
                ∙ from_start p.0 p.1 p.2)))
    where
      from_start :
          (suf' : List LoxiClient) (s : Bool) (k : Option ℕ)
          → elect inst (length pre) 0 s k (pre ++ suf')
            ≡ (let q = pass inst 0 s k pre in (q.0 ++ suf', q.1, q.2))
      from_start suf' s k =
          let zero_more : length pre + 0 ≡ length pre = omega arith in
          rw zero_more at (elect-pass [] pre suf' 0 0 s k refl)

  split_at :
      (cs : List LoxiClient) (i : ℕ)
      → i ≤ length cs
      → (pre : List LoxiClient) × (suf : List LoxiClient) × (cs ≡ pre ++ suf) × (i ≡ length pre)
  split_at cs zero h = ([], cs, refl, refl)
  split_at [] (suc i) h = absurd (omega arith)
  split_at (c ∷ cs) (suc i) h =
      let (pre, suf, e, l) = split_at cs i (omega arith) in (c ∷ pre, suf, ap (◌∷◌ c) e, ap suc l)

  elect_split :
      (cs pre suf : List LoxiClient) (hint : ℕ)
      → cs ≡ pre ++ suf
      → hint ≡ length pre
      → elect inst (length cs) hint false none cs ≡ rotated pre suf
  elect_split cs pre suf hint e l = rw (e, l) (elect-rotated pre suf)

  -- Whatever the hint is, the loop is a visit of the clients behind some place of the list and then of
  -- those before it.
  pub elect_rotates :
      (cs : List LoxiClient) (hint : ℕ)
      → (pre : List LoxiClient) × (suf : List LoxiClient) × (cs ≡ pre ++ suf)
        × (elect inst (length cs) hint false none cs ≡ rotated pre suf)
  elect_rotates cs hint = elim (Bool-cases (leb (length cs) hint)) [
    | inl past ↦ (
      [],
      cs,
      refl,
      elect_wraps (length cs) hint false none cs (ground arith) ∙ elect-rotated [] cs,
    )
    | inr before ↦
        (let (pre, suf, e, l) = split_at cs hint (ground arith) in
          (pre, suf, e, elect_split cs pre suf hint e l))
  ]
