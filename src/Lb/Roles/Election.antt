-- ===== src/Lb/Roles/Election.antt =====
-- The outcome of an election of SelectInstLoxiLBRoles.
use kube_loxilb.Api.Client.{LoxiClient, role, role-set_role}
use kube_loxilb.Base.{
  All, All-append, Bool, Bool-cases, List, Option, Option-cases, String, [], any_of, any_of-append,
  ap, arith, false, inl, inr, length, none, not, refl, some, subst, sym, true, ℕ, ◌&&◌, ◌++◌, ◌+◌,
  ◌||◌, ◌∙◌, ◌∷◌, ◌≡◌, ◌≤◌, ◌⊎◌,
}
use kube_loxilb.Lb.Roles.{
  Elected, Scan, cons_client, demote, elect, scan, select_inst_loxi_lb_roles, visit,
}
use kube_loxilb.Lb.Roles.Pass.{elect_rotates, pass, rotated}

-- How many clients hold the role of a zone instance.
abbrev pub is_master : String → LoxiClient → Bool
is_master inst c = elim (role inst c) [ none ↦ false | some m ↦ m ]

abbrev pub one_if : Bool → ℕ
one_if true = 1
one_if false = 0

abbrev pub masters : String → List LoxiClient → ℕ
masters inst [] = 0
masters inst (c ∷ cs) = one_if (is_master inst c) + masters inst cs

abbrev pub eligible : LoxiClient → Bool
eligible c = c.is_alive && not c.no_role

-- The client knows the zone instance, and does not hold its role while it is excluded from roles.
pub record IsReady (inst : String) (c : LoxiClient) : Type 0 where
  pub found : (role inst c ≡ some true) ⊎ (role inst c ≡ some false)
  pub excluded : c.no_role ≡ true → is_master inst c ≡ false

-- Moreover no dead client holds it.
pub record IsScanned (inst : String) (c : LoxiClient) : Type 0 where
  pub not_excluded : c.no_role ≡ true → is_master inst c ≡ false
  pub not_dead : c.is_alive ≡ false → is_master inst c ≡ false

masters-append :
    (inst : String) (xs ys : List LoxiClient)
    → masters inst (xs ++ ys) ≡ masters inst xs + masters inst ys
masters-append inst [] ys = omega arith
masters-append inst (x ∷ xs) ys = omega (arith, masters-append inst xs ys)

module _ (inst : String) where
  visit-masters :
      (j : ℕ) (selected : Bool) (sel : Option ℕ) (c : LoxiClient)
      → IsScanned inst c
      → let v = visit inst j selected sel c in
        (v.1 ≡ (selected || eligible c))
        × (one_if (is_master inst v.0) ≡ one_if (not selected && eligible c))
  visit-masters j selected sel c s =
      ground
        (arith, role-set_role inst true c, role-set_role inst false c, s.not_excluded, s.not_dead)

  masters-pass :
      (j : ℕ) (selected : Bool) (sel : Option ℕ) (cs : List LoxiClient)
      → All (IsScanned inst) cs
      → let p = pass inst j selected sel cs in
        (p.1 ≡ (selected || any_of eligible cs))
        × (masters inst p.0 ≡ one_if (not selected && any_of eligible cs))
  masters-pass j selected sel [] s = (ground arith, ground arith)
  masters-pass j selected sel (c ∷ cs) s =
      let v = visit inst j selected sel c in
      let here = visit-masters j selected sel c s.0 in
      let rest = masters-pass (j + 1) v.1 v.2 cs s.1 in
      (rest.0 ∙ ground (arith, here.0), ground (arith, here.0, here.1, rest.1))

  abbrev live_master : LoxiClient → Bool
  live_master c = is_master inst c && c.is_alive

  -- What the first loop guarantees to the second.
  record Scanned (cs : List LoxiClient) (has : Bool) (s : Scan) : Type 0 where
    found : s.all_found ≡ true
    scanned : All (IsScanned inst) s.clients
    same : any_of eligible s.clients ≡ any_of eligible cs
    fewer : masters inst s.clients ≤ masters inst cs
    flag : s.has_master ≡ (has || any_of live_master cs)
    kept : any_of live_master cs ≡ true → (1 ≤ masters inst s.clients) × (any_of eligible cs ≡ true)

  demote-IsScanned :
      (m : Bool) (c : LoxiClient)
      → role inst c ≡ some m
      → IsReady inst c
      → (IsScanned inst (demote inst m c))
        × (eligible (demote inst m c) ≡ eligible c)
        × (one_if (is_master inst (demote inst m c)) ≡ one_if (live_master c))
        × (one_if (live_master c) ≤ one_if (is_master inst c))
        × (live_master c ≡ true → eligible c ≡ true)
  demote-IsScanned m c e r = ground (arith, role-set_role inst false c, r.excluded)

  Scanned-cons :
      (d c : LoxiClient) (cs : List LoxiClient) (has : Bool) (s : Scan)
      → (IsScanned inst d)
        × (eligible d ≡ eligible c)
        × (one_if (is_master inst d) ≡ one_if (live_master c))
        × (one_if (live_master c) ≤ one_if (is_master inst c))
        × (live_master c ≡ true → eligible c ≡ true)
      → Scanned cs (has || live_master c) s
      → Scanned (c ∷ cs) has (cons_client d s)
  Scanned-cons d c cs has s (h₀, h₁, h₂, h₃, h₄) r = record {
    found = r.found;
    scanned = (h₀, r.scanned);
    same = cc (h₁, r.same);
    fewer = omega (arith, h₂, h₃, r.fewer);
    flag = or_flag (live_master c) (any_of live_master cs) r.flag;
    kept = kept_cons (live_master c) (eligible c) h₂ h₄ r.kept;
  }
    where
      or_flag : (a b : Bool) → s.has_master ≡ ((has || a) || b) → s.has_master ≡ (has || (a || b))
      or_flag a b e = ground arith

      kept_cons :
          (a b : Bool)
          → one_if (is_master inst d) ≡ one_if a
          → (a ≡ true → b ≡ true)
          → (any_of live_master cs ≡ true
              → (1 ≤ masters inst s.clients) × (any_of eligible cs ≡ true))
          → (a || any_of live_master cs) ≡ true
          → (1 ≤ one_if (is_master inst d) + masters inst s.clients)
            × ((b || any_of eligible cs) ≡ true)
      kept_cons true b p q k h = (omega (arith, p), rw (q refl))
      kept_cons false b p q k h =
          let (some_left, still) = k h in (omega (arith, some_left), ground (arith, still))

  scan-Scanned :
      (cs : List LoxiClient) (re has : Bool)
      → All (IsReady inst) cs
      → Scanned cs has (scan inst cs re has)
  unfolding scan
  scan-Scanned [] re has r = ground arith
  scan-Scanned (c ∷ cs) re has r = elim (Option-cases (role inst c)) [
    | inl e ↦ absurd (ground (arith, r.0.found))
    | inr (m, e) ↦
        (let rest = scan-Scanned cs (re || (m && not c.is_alive)) (has || (m && c.is_alive)) r.1 in
          let here = demote-IsScanned m c e r.0 in
          let flag : live_master c ≡ (m && c.is_alive) = ground arith in
          rw (e, scan)
            (Scanned-cons (demote inst m c) c cs has _ here (
              subst
                (λ b.
                  Scanned cs (has || b)
                    (scan inst cs (re || (m && not c.is_alive)) (has || (m && c.is_alive))))
                (sym flag) rest)))
  ]

  rotated-masters :
      (pre suf : List LoxiClient)
      → All (IsScanned inst) (pre ++ suf)
      → masters inst (rotated inst pre suf).0 ≡ one_if (any_of eligible (pre ++ suf))
  rotated-masters pre suf all =
      let p = pass inst (length pre) false none suf in
      let q = pass inst 0 p.1 p.2 pre in
      let (all_pre, all_suf) = All-append (IsScanned inst) pre suf all in
      let first = masters-pass (length pre) false none suf all_suf in
      let then_pre = masters-pass 0 p.1 p.2 pre all_pre in
      masters-append inst q.0 p.0
      ∙ ground (arith, first.0, first.1, then_pre.1, any_of-append eligible pre suf)

  elect-masters :
      (hint : ℕ) (cs : List LoxiClient)
      → All (IsScanned inst) cs
      → masters inst (elect inst (length cs) hint false none cs).0 ≡ one_if (any_of eligible cs)
  elect-masters hint cs all =
      let (pre, suf, e, run) = elect_rotates inst cs hint in
      ap (λ (r : Elected). masters inst r.0) run
      ∙ (rotated-masters pre suf (subst (All (IsScanned inst)) e all)
          ∙ sym (ap (λ l. one_if (any_of eligible l)) e))

  settled_count :
      (s : Scan) (cs : List LoxiClient)
      → Scanned cs false s
      → (s.re_elect || not s.has_master) ≡ false
      → masters inst cs ≤ 1
      → masters inst s.clients ≡ one_if (any_of eligible cs)
  settled_count s cs f settled one =
      let live : any_of live_master cs ≡ true = ground (arith, f.flag) in
      let (some_left, eligible_too) = f.kept live in
      rw eligible_too (omega (arith, some_left, f.fewer))

  -- For clients that know the zone instance, of which at most one holds its role and none that is
  -- excluded from roles does: after SelectInstLoxiLBRoles, from any hint, exactly one client holds the
  -- role if some client is alive and not excluded, and no client holds it otherwise.
  pub select_inst-masters :
      (hint : ℕ) (cs : List LoxiClient)
      → All (IsReady inst) cs
      → masters inst cs ≤ 1
      → masters inst (select_inst_loxi_lb_roles inst hint cs).0 ≡ one_if (any_of eligible cs)
  unfolding select_inst_loxi_lb_roles
  select_inst-masters hint cs ready one =
      let s = scan inst cs false false in
      let f = scan-Scanned cs false false ready in
      let elected = elect-masters hint s.clients f.scanned ∙ ap one_if f.same in
      rw f.found (elim (Bool-cases (s.re_elect || not s.has_master)) [
        | inl again ↦ rw again elected
        | inr settled ↦ rw settled (settled_count s cs f settled one)
      ])
