-- ===== src/Bgp/Laws.antt =====
-- The requests of the BGP managers.
use kube_loxilb.Api.Bgp.{
  BgpNeigh, BgpPolicyApply, BgpPolicyDefinedSets, BgpPolicyDefinition, BgpRequest, BgpRest, BgpSent,
  create_bgp_policy_apply, create_bgp_policy_defined_sets, create_bgp_policy_definition,
  create_neigh, delete_bgp_policy_apply, delete_bgp_policy_defined_sets,
  delete_bgp_policy_definition, delete_neigh,
}
use kube_loxilb.Api.Client.{LoxiClient}
use kube_loxilb.Base.{
  Bool, List, Option, String, [], any_of, ap, false, if◌then◌else◌, refl, true, ◌||◌, ◌∙◌, ◌∷◌, ◌≡◌,
}
use kube_loxilb.Base.Outcome.{Outcome, err, ok}
use kube_loxilb.Bgp.{
  BgpDone, bgp_add, bgp_ask, bgp_created, bgp_deleted, sync_bgp_peer_service,
  sync_bgp_policy_apply_service, sync_bgp_policy_defined_sets_service,
  sync_bgp_policy_definition_service,
}
use kube_loxilb.Egress.{is_success, known_rule}

-- One request to each instance, in order, newest first in the log.
abbrev pub sent_to_all : BgpRequest → List LoxiClient → List BgpSent → List BgpSent
sent_to_all r [] log = log
sent_to_all r (c ∷ cs) log = sent_to_all r cs (record { host = c.host; request = r } ∷ log)

bgp_ask-sent :
    (rest : BgpRest) (keep : Option String → Option String) (r : BgpRequest) (cs : List LoxiClient)
    (log : List BgpSent)
    → (bgp_ask rest keep r cs log).1 ≡ sent_to_all r cs log
unfolding bgp_ask
bgp_ask-sent rest keep r [] log = refl
bgp_ask-sent rest keep r (c ∷ cs) log =
    bgp_ask-sent rest keep r cs (record { host = c.host; request = r } ∷ log)

-- Whether an instance takes the request, where `keep` is what the manager makes of an answer.
abbrev pub some_takes :
    BgpRest → (Option String → Option String) → BgpRequest → List LoxiClient → List BgpSent → Bool
some_takes rest keep r [] log = false
some_takes rest keep r (c ∷ cs) log =
    is_success (keep (rest.answer log (record { host = c.host; request = r })))
    || some_takes rest keep r cs (record { host = c.host; request = r } ∷ log)

bgp_ask-success :
    (rest : BgpRest) (keep : Option String → Option String) (r : BgpRequest) (cs : List LoxiClient)
    (log : List BgpSent)
    → any_of is_success (bgp_ask rest keep r cs log).0 ≡ some_takes rest keep r cs log
unfolding bgp_ask
bgp_ask-success rest keep r [] log = refl
bgp_ask-success rest keep r (c ∷ cs) log =
    ap (λ b. is_success (keep (rest.answer log (record { host = c.host; request = r }))) || b)
      (bgp_ask-success rest keep r cs (record { host = c.host; request = r } ∷ log))

abbrev pub is_ok : Outcome (Unit {0}) → Bool
is_ok (ok _) = true
is_ok _ = false

ok_if : (b : Bool) (t : String) → is_ok (if b then ok tt else err t) ≡ b
ok_if true t = refl
ok_if false t = refl

-- What a manager does for one request: every instance gets it once, and the work is done if one takes it.
abbrev pub IsBroadcast :
    BgpRest
    → (Option String → Option String)
    → BgpRequest
    → List LoxiClient
    → List BgpSent
    → BgpDone
    → Type 0
IsBroadcast rest keep r cs log done =
    (done.1 ≡ sent_to_all r cs log) × (is_ok done.0 ≡ some_takes rest keep r cs log)

created-IsBroadcast :
    (rest : BgpRest) (r : BgpRequest) (what : String) (cs : List LoxiClient) (log : List BgpSent)
    → IsBroadcast rest known_rule r cs log (bgp_add rest cs what r log)
unfolding bgp_add bgp_created
created-IsBroadcast rest r what cs log = (
  bgp_ask-sent rest known_rule r cs log,
  ok_if (any_of is_success (bgp_ask rest known_rule r cs log).0) _
      ∙ bgp_ask-success rest known_rule r cs log,
)

deleted-IsBroadcast :
    (rest : BgpRest) (keep : Option String → Option String) (r : BgpRequest) (cs : List LoxiClient)
    (log : List BgpSent)
    → IsBroadcast rest keep r cs log (bgp_deleted (bgp_ask rest keep r cs log))
unfolding bgp_deleted
deleted-IsBroadcast rest keep r cs log = (
  bgp_ask-sent rest keep r cs log,
  ok_if (any_of is_success (bgp_ask rest keep r cs log).0) _ ∙ bgp_ask-success rest keep r cs log,
)

-- A resource of each of the four kinds that is added or gone: every instance gets, in order and whatever
-- the others answer, the one request that adds or deletes it, and the work is done if and only if an
-- instance takes the request; the answer that it exists counts as taking it in each addition, and
-- in the deletion of an applied policy.
pub sync-IsBroadcast :
    (rest : BgpRest) (cs : List LoxiClient) (listed : Bool) (log : List BgpSent)
    → (n : BgpNeigh) (a : BgpPolicyApply) (s : BgpPolicyDefinedSets) (d : BgpPolicyDefinition)
    → IsBroadcast rest
        (if listed then known_rule else (λ t. t))
        (if listed then create_neigh n else delete_neigh n.ip_address n.remote_as)
        cs
        log
        (sync_bgp_peer_service rest cs listed n log)
      × (IsBroadcast rest known_rule
            (if listed then create_bgp_policy_apply a else delete_bgp_policy_apply a)
            cs
            log
            (sync_bgp_policy_apply_service rest cs listed a log)
          × (IsBroadcast rest
                (if listed then known_rule else (λ t. t))
                (if listed
                  then create_bgp_policy_defined_sets s.defined_type s
                  else delete_bgp_policy_defined_sets s.defined_type s.name)
                cs
                log
                (sync_bgp_policy_defined_sets_service rest cs listed s log)
              × IsBroadcast rest
                  (if listed then known_rule else (λ t. t))
                  (if listed
                    then create_bgp_policy_definition d
                    else delete_bgp_policy_definition d.name)
                  cs
                  log
                  (sync_bgp_policy_definition_service rest cs listed d log)))
unfolding sync_bgp_peer_service sync_bgp_policy_apply_service sync_bgp_policy_defined_sets_service
    sync_bgp_policy_definition_service
sync-IsBroadcast rest cs true log n a s d = (
  created-IsBroadcast rest (create_neigh n) "loadBalancer" cs log,
  (
    created-IsBroadcast rest (create_bgp_policy_apply a) "BGPPolicyApply" cs log,
    (
      created-IsBroadcast rest (create_bgp_policy_defined_sets s.defined_type s)
          "BGPPolicyDefinedSets" cs log,
      created-IsBroadcast rest (create_bgp_policy_definition d) "BGPPolicyDefinition" cs log,
    ),
  ),
)
sync-IsBroadcast rest cs false log n a s d = (
  deleted-IsBroadcast rest (λ t. t) (delete_neigh n.ip_address n.remote_as) cs log,
  (
    deleted-IsBroadcast rest known_rule (delete_bgp_policy_apply a) cs log,
    (
      deleted-IsBroadcast rest (λ t. t) (delete_bgp_policy_defined_sets s.defined_type s.name) cs
          log,
      deleted-IsBroadcast rest (λ t. t) (delete_bgp_policy_definition d.name) cs log,
    ),
  ),
)
