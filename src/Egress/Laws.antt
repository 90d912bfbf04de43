-- ===== src/Egress/Laws.antt =====
-- The rules of an egress resource and the requests about them.
use kube_loxilb.Api.Client.{LoxiClient}
use kube_loxilb.Api.Firewall.{FwRequest, FwRest, FwRuleMod, FwSent, create_rule, delete_rule}
use kube_loxilb.Base.{
  All, Bool, Bool-cases, List, Option, String, [], any_of, ap, arith, false, if◌then◌else◌, inl,
  inr, is_empty, is_some, keep_if, map, none, not, refl, some, subst, sym, true, ◌&&◌, ◌||◌, ◌↔◌,
  ◌∙◌, ◌∷◌, ◌≡◌, ◌⊎◌,
}
use kube_loxilb.Base.Outcome.{Outcome, err, ok, panic}
use kube_loxilb.Egress.{
  EgressCluster, EgressCrd, add_egress, add_rule, and_then, call_create_api, call_delete_api,
  cidr_addr_of, cidr_by, delete_egress, egress_addresses, for_rules, fw_ask, is_success, is_to4,
  known_rule, make_loxi_firewall_model, rules_at, rules_of, snat_rule,
}
use kube_loxilb.Net.{IpAddr, IpNet, Net}
use kube_loxilb.Text.{concat}

abbrev pub has_cidr : Net → FwRuleMod → Bool
has_cidr net fw = is_some (net.parse_cidr fw.rule.src_ip)

-- The text is a CIDR or an address.
abbrev pub is_source : Net → String → Bool
is_source net a = is_some (net.parse_cidr a) || is_some (net.parse_ip a)

abbrev pub family_is_v4 : Option IpAddr → Bool
family_is_v4 none = false
family_is_v4 (some ip) = is_to4 ip

-- The CIDR of a source: a CIDR is its own, and an address has that of the one address.
abbrev pub source_cidr : Net → String → String
source_cidr net a =
    if is_some (net.parse_cidr a)
    then a
    else concat (a ∷ (if family_is_v4 (net.parse_ip a) then "/32" else "/128") ∷ [])

-- net.ParseCIDR takes an address with its full prefix length.
abbrev pub TakesFullLength : Net → Type 0
TakesFullLength net =
    (a : String) (ip : IpAddr)
    → net.parse_ip a ≡ some ip
    → is_some (net.parse_cidr (concat (a ∷ (if is_to4 ip then "/32" else "/128") ∷ []))) ≡ true

module _ (net : Net) (full : TakesFullLength net) where
  cidr_by-cases :
      (a : String) (o : Option (IpAddr × IpNet)) (o' : Option IpAddr)
      → net.parse_cidr a ≡ o
      → net.parse_ip a ≡ o'
      → ((cidr_by a o o' ≡ none) × ((is_some o || is_some o') ≡ false))
        ⊎ ((cidr_by a o o' ≡ some (source_cidr net a))
            × (((is_some o || is_some o') ≡ true)
                × (is_some (net.parse_cidr (source_cidr net a)) ≡ true)))
  unfolding cidr_by
  cidr_by-cases a (some x) o' h h' =
      let own : source_cidr net a ≡ a = rw h refl in
      inr (ap some (sym own), (refl, ap (λ c. is_some (net.parse_cidr c)) own ∙ ap is_some h))
  cidr_by-cases a none none h h' = inl (refl, refl)
  cidr_by-cases a none (some ip) h h' =
      let own : source_cidr net a ≡ concat (a ∷ (if is_to4 ip then "/32" else "/128") ∷ []) =
        rw (h, h') refl in
      inr (ap some (sym own), (refl, ap (λ c. is_some (net.parse_cidr c)) own ∙ full a ip h'))

  -- One address: it is skipped, or gives the source of a rule.
  cidr_addr_of-cases :
      (a : String)
      → ((cidr_addr_of net a ≡ none) × (is_source net a ≡ false))
        ⊎ ((cidr_addr_of net a ≡ some (source_cidr net a))
            × ((is_source net a ≡ true) × (is_some (net.parse_cidr (source_cidr net a)) ≡ true)))
  unfolding cidr_addr_of
  cidr_addr_of-cases a = cidr_by-cases a (net.parse_cidr a) (net.parse_ip a) refl refl

  -- The rules are one for each source, in order: each has the CIDR of its own address as its source, which
  -- the parser takes, and the VIP as its target.
  abbrev pub SourcesFit : String → List String → List FwRuleMod → Type 0
  SourcesFit vip sources rules =
      (rules ≡ map (λ a. snat_rule vip (source_cidr net a)) sources)
      × All (λ fw. has_cidr net fw ≡ true) rules

  rules_of-sources :
      (vip : String) (addrs : List String)
      → SourcesFit vip (keep_if (is_source net) addrs) (rules_of net vip addrs)
  unfolding rules_of
  rules_of-sources vip [] = (refl, tt)
  rules_of-sources vip (a ∷ addrs) =
      one_rule (cidr_addr_of net a) (is_source net a) (rules_of net vip addrs) _
        (cidr_addr_of-cases a) (rules_of-sources vip addrs)
    where
      one_rule :
          (o : Option String) (source : Bool) (rules : List FwRuleMod) (kept : List String)
          → ((o ≡ none) × (source ≡ false))
            ⊎ ((o ≡ some (source_cidr net a))
                × ((source ≡ true) × (is_some (net.parse_cidr (source_cidr net a)) ≡ true)))
          → SourcesFit vip kept rules
          → SourcesFit vip (if source then a ∷ kept else kept) (add_rule vip o rules)
      one_rule o source rules kept (inl (e, skipped)) (same, all) = rw (e, skipped) (same, all)
      one_rule o source rules kept (inr (e, (taken, valid))) (same, all) =
          rw (e, taken) (ap (λ fws. snat_rule vip (source_cidr net a) ∷ fws) same, (valid, all))

  -- Where the addresses of a resource can be listed, its rules are exactly one for each address that is a
  -- CIDR or an address, in the order of the addresses: the source of a rule is its own address, as it
  -- stands if it is a CIDR and with the full prefix length of its family if not, which is a
  -- CIDR, and it translates to the VIP of the resource and does nothing else.
  pub make_loxi_firewall_model-sources :
      (cluster : EgressCluster) (e : EgressCrd) (addrs : List String)
      → egress_addresses cluster e ≡ some addrs
      → SourcesFit e.vip (keep_if (is_source net) addrs) (make_loxi_firewall_model net cluster e)
  unfolding make_loxi_firewall_model
  make_loxi_firewall_model-sources cluster e addrs h =
      subst (λ o. SourcesFit e.vip (keep_if (is_source net) addrs) (rules_at net e.vip o)) (sym h)
        (rules_of-sources e.vip addrs)

-- The log after one request to each instance, and after all requests of some rules.
unfoldable pub requested : FwRequest → List LoxiClient → List FwSent → List FwSent
requested request [] log = log
requested request (c ∷ cs) log =
    requested request cs (record { host = c.host; request = request } ∷ log)

unfoldable pub all_requested :
    (FwRuleMod → FwRequest) → List FwRuleMod → List LoxiClient → List FwSent → List FwSent
all_requested make [] cs log = log
all_requested make (fw ∷ fws) cs log = all_requested make fws cs (requested (make fw) cs log)

module _ (rest : FwRest) (accepts : Option String → Bool) where
  -- Some instance accepts the request.
  unfoldable pub some_accepts : FwRequest → List LoxiClient → List FwSent → Bool
  some_accepts request [] log = false
  some_accepts request (c ∷ cs) log =
      let s : FwSent = record { host = c.host; request = request } in
      accepts (rest.answer log s) || some_accepts request cs (s ∷ log)

  -- Each rule is accepted by some instance, when the requests of the earlier ones have been sent.
  unfoldable pub all_accepted :
      (FwRuleMod → FwRequest) → List FwRuleMod → List LoxiClient → List FwSent → Bool
  all_accepted make [] cs log = true
  all_accepted make (fw ∷ fws) cs log =
      some_accepts (make fw) cs log && all_accepted make fws cs (requested (make fw) cs log)

module _ (rest : FwRest) (keep : Option String → Option String) where
  abbrev accepts : Option String → Bool
  accepts o = is_success (keep o)

  fw_ask_lem :
      (request : FwRequest) (cs : List LoxiClient) (log : List FwSent)
      → let (answers, log') = fw_ask rest keep request cs log in
        (any_of is_success answers ≡ some_accepts rest accepts request cs log)
        × (log' ≡ requested request cs log)
  unfolding fw_ask some_accepts requested
  fw_ask_lem request [] log = (refl, refl)
  fw_ask_lem request (c ∷ cs) log =
      let (found, same) = fw_ask_lem request cs _ in (rw found refl, same)

  -- A call that succeeds exactly if some instance accepts.
  abbrev Calls :
      (FwRuleMod → FwRequest)
      → List LoxiClient
      → (FwRuleMod → List FwSent → Outcome (Unit {0}) × List FwSent)
      → Type 0
  Calls make cs call =
      (fw : FwRuleMod) (log : List FwSent)
      → (((call fw log).0 ≡ ok tt) ↔ (some_accepts rest accepts (make fw) cs log ≡ true))
        × ((call fw log).1 ≡ requested (make fw) cs log)

  for_rules_lem :
      (make : FwRuleMod → FwRequest) (cs : List LoxiClient)
      (call : FwRuleMod → List FwSent → Outcome (Unit {0}) × List FwSent)
      → Calls make cs call
      → (fws : List FwRuleMod) (log : List FwSent)
      → let (r, log') = for_rules call fws log in
        ((r ≡ ok tt) ↔ (all_accepted rest accepts make fws cs log ≡ true))
        × (r ≡ ok tt → log' ≡ all_requested make fws cs log)
  unfolding for_rules all_accepted all_requested
  for_rules_lem make cs call calls [] log = ((λ _. refl, λ _. refl), λ _. refl)
  for_rules_lem make cs call calls (fw ∷ fws) log =
      let (first, same) = calls fw log in
      by_result (call fw log).0 (call fw log).1 first same
        (for_rules_lem make cs call calls fws (call fw log).1)
    where
      by_result :
          (r : Outcome (Unit {0})) (log₁ : List FwSent)
          → (r ≡ ok tt) ↔ (some_accepts rest accepts (make fw) cs log ≡ true)
          → log₁ ≡ requested (make fw) cs log
          → (let (r', log') = for_rules call fws log₁ in
              ((r' ≡ ok tt) ↔ (all_accepted rest accepts make fws cs log₁ ≡ true))
              × (r' ≡ ok tt → log' ≡ all_requested make fws cs log₁))
          → let (r', log') = and_then r log₁ (for_rules call fws log₁) in
            ((r' ≡ ok tt) ↔ (
              (some_accepts rest accepts (make fw) cs log
                && all_accepted rest accepts make fws cs (requested (make fw) cs log))
              ≡ true))
            × (r' ≡ ok tt → log' ≡ all_requested make fws cs (requested (make fw) cs log))
      by_result (ok done) log₁ first same later =
          let ok_iff = later.0 in
          let at_log = ap (λ l. all_accepted rest accepts make fws cs l) same in
          let now : some_accepts rest accepts (make fw) cs log ≡ true = first.0 refl in
          (
            ground (arith, ok_iff, at_log, now),
            λ h. later.1 h ∙ ap (all_requested make fws cs) same,
          )
      by_result (err t) log₁ first same later = (ground (arith, first), λ h. absurd (ground arith))
      by_result panic log₁ first same later = (ground (arith, first), λ h. absurd (ground arith))

module _ (net : Net) (rest : FwRest) (clients : List LoxiClient) (cluster : EgressCluster) where
  create-Calls : Calls rest known_rule create_rule clients (call_create_api rest clients)
  unfolding call_create_api
  create-Calls fw log =
      let (found, same) = fw_ask_lem rest known_rule (create_rule fw) clients log in
      (ground (arith, found), same)

  delete-Calls :
      Calls rest (λ a. a) (λ fw. delete_rule fw.rule) clients (call_delete_api rest clients)
  unfolding call_delete_api
  delete-Calls fw log =
      let (found, same) = fw_ask_lem rest (λ a. a) (delete_rule fw.rule) clients log in
      (ground (arith, found), same)

  -- addEgress succeeds exactly if there is an instance and each rule of the resource is taken by some
  -- instance, where the answer that it exists counts as taken; then each rule has been sent to each
  -- instance, once and in order, and nothing else.
  pub add_egress-all_accepted :
      (e : EgressCrd) (log : List FwSent)
      → let rules = make_loxi_firewall_model net cluster e in
        let (r, log') = add_egress net rest clients cluster e log in
        ((r ≡ ok tt) ↔ (
          (not (is_empty clients)
            && all_accepted rest (λ a. is_success (known_rule a)) create_rule rules clients log)
          ≡ true))
        × (r ≡ ok tt → log' ≡ all_requested create_rule rules clients log)
  unfolding add_egress
  add_egress-all_accepted e log =
      let rules = make_loxi_firewall_model net cluster e in
      let (ok_iff, same) =
        for_rules_lem rest known_rule create_rule clients (call_create_api rest clients)
          create-Calls rules log in
      elim (Bool-cases (is_empty clients)) [
        | inl nobody ↦ rw nobody (ground arith, λ h. absurd (ground arith))
        | inr some_client ↦ rw some_client (ground (arith, ok_iff), same)
      ]

  -- deleteEgress succeeds exactly if each rule of the resource, as its addresses are now, is deleted by
  -- some instance; then each rule has been named to each instance, once and in order.
  delete_egress-all_accepted :
      (e : EgressCrd) (log : List FwSent)
      → let rules = make_loxi_firewall_model net cluster e in
        let (r, log') = delete_egress net rest clients cluster e log in
        ((r ≡ ok tt)
          ↔ (all_accepted rest is_success (λ fw. delete_rule fw.rule) rules clients log ≡ true))
        × (r ≡ ok tt → log' ≡ all_requested (λ fw. delete_rule fw.rule) rules clients log)
  unfolding delete_egress
  delete_egress-all_accepted e log =
      for_rules_lem rest (λ a. a) (λ fw. delete_rule fw.rule) clients (call_delete_api rest clients)
        delete-Calls (make_loxi_firewall_model net cluster e) log
