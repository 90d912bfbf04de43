-- ===== src/Bgp.antt =====
-- pkg/agent/manager/bgppeer, bgppolicyapply, bgppolicydefinedsets and bgppolicydefinition: each manager
-- sends its resources to all instances.
pub mod Laws
pub mod Examples
use kube_loxilb.Api.Bgp.{
  BgpNeigh, BgpPolicyApply, BgpPolicyDefinedSets, BgpPolicyDefinition, BgpRequest, BgpRest, BgpSent,
  create_bgp_policy_apply, create_bgp_policy_defined_sets, create_bgp_policy_definition,
  create_neigh, delete_bgp_policy_apply, delete_bgp_policy_defined_sets,
  delete_bgp_policy_definition, delete_neigh,
}
use kube_loxilb.Api.Client.{LoxiClient}
use kube_loxilb.Base.{Bool, List, Option, String, [], any_of, if◌then◌else◌, ◌∷◌}
use kube_loxilb.Base.Outcome.{Outcome, err, ok}
use kube_loxilb.Egress.{is_success, known_rule, last_error}
use kube_loxilb.Text.{concat}

-- The requests to all instances, which are all sent, and their errors in the order of the instances.
unfoldable pub bgp_ask :
    BgpRest
    → (Option String → Option String)
    → BgpRequest
    → List LoxiClient
    → List BgpSent
    → List (Option String) × List BgpSent
bgp_ask rest keep request [] log = ([], log)
bgp_ask rest keep request (c ∷ cs) log =
    let s : BgpSent = record { host = c.host; request = request } in
    let (later, log') = bgp_ask rest keep request cs (s ∷ log) in
    (keep (rest.answer log s) ∷ later, log')

abbrev pub BgpDone : Type 0
BgpDone = Outcome (Unit {0}) × List BgpSent

-- The answers to an addition: one success is enough.
unfoldable pub bgp_created : String → List (Option String) × List BgpSent → BgpDone
bgp_created what (answers, log) = (
  if any_of is_success answers then ok tt else err (concat ("failed to add loxiLB " ∷ what ∷ [])),
  log,
)

-- The answers to a deletion, which are read up to the first success.
unfoldable pub bgp_deleted : List (Option String) × List BgpSent → BgpDone
unfolding last_error concat
bgp_deleted (answers, log) = (
  if any_of is_success answers
      then ok tt
      else err
          (concat ("failed to delete loxiLB LoadBalancer. Error: " ∷ last_error "" answers ∷ [])),
  log,
)

module _ (rest : BgpRest) (clients : List LoxiClient) where
  -- An addition, where an answer that says that the resource exists is a success.
  bgp_add : String → BgpRequest → List BgpSent → BgpDone
  unfolding bgp_ask bgp_created
  bgp_add what request log = bgp_created what (bgp_ask rest known_rule request clients log)

  unfoldable pub add_bgp_peer_service : BgpNeigh → List BgpSent → BgpDone
  unfolding bgp_add create_neigh
  add_bgp_peer_service n log = bgp_add "loadBalancer" (create_neigh n) log

  unfoldable pub delete_bgp_peer_service : BgpNeigh → List BgpSent → BgpDone
  unfolding bgp_ask bgp_deleted delete_neigh
  delete_bgp_peer_service n log =
      bgp_deleted (bgp_ask rest (λ a. a) (delete_neigh n.ip_address n.remote_as) clients log)

  unfoldable pub add_bgp_policy_apply_service : BgpPolicyApply → List BgpSent → BgpDone
  unfolding bgp_add create_bgp_policy_apply
  add_bgp_policy_apply_service a log = bgp_add "BGPPolicyApply" (create_bgp_policy_apply a) log

  -- An answer that contains "exist" is a success for this deletion too.
  unfoldable pub delete_bgp_policy_apply_service : BgpPolicyApply → List BgpSent → BgpDone
  unfolding bgp_ask bgp_deleted delete_bgp_policy_apply
  delete_bgp_policy_apply_service a log =
      bgp_deleted (bgp_ask rest known_rule (delete_bgp_policy_apply a) clients log)

  unfoldable pub add_bgp_policy_defined_sets_service : BgpPolicyDefinedSets → List BgpSent → BgpDone
  unfolding bgp_add create_bgp_policy_defined_sets
  add_bgp_policy_defined_sets_service s log =
      bgp_add "BGPPolicyDefinedSets" (create_bgp_policy_defined_sets s.defined_type s) log

  unfoldable pub delete_bgp_policy_defined_sets_service :
      BgpPolicyDefinedSets → List BgpSent → BgpDone
  unfolding bgp_ask bgp_deleted delete_bgp_policy_defined_sets
  delete_bgp_policy_defined_sets_service s log =
      bgp_deleted
        (bgp_ask rest (λ a. a) (delete_bgp_policy_defined_sets s.defined_type s.name) clients log)

  unfoldable pub add_bgp_policy_definition_service : BgpPolicyDefinition → List BgpSent → BgpDone
  unfolding bgp_add create_bgp_policy_definition
  add_bgp_policy_definition_service d log =
      bgp_add "BGPPolicyDefinition" (create_bgp_policy_definition d) log

  unfoldable pub delete_bgp_policy_definition_service : BgpPolicyDefinition → List BgpSent → BgpDone
  unfolding bgp_ask bgp_deleted delete_bgp_policy_definition
  delete_bgp_policy_definition_service d log =
      bgp_deleted (bgp_ask rest (λ a. a) (delete_bgp_policy_definition d.name) clients log)

  -- The synchronisations, by whether the lister finds the resource.
  unfoldable pub sync_bgp_peer_service : Bool → BgpNeigh → List BgpSent → BgpDone
  unfolding add_bgp_peer_service delete_bgp_peer_service
  sync_bgp_peer_service listed n log =
      if listed then add_bgp_peer_service n log else delete_bgp_peer_service n log

  unfoldable pub sync_bgp_policy_apply_service : Bool → BgpPolicyApply → List BgpSent → BgpDone
  unfolding add_bgp_policy_apply_service delete_bgp_policy_apply_service
  sync_bgp_policy_apply_service listed a log =
      if listed then add_bgp_policy_apply_service a log else delete_bgp_policy_apply_service a log

  unfoldable pub sync_bgp_policy_defined_sets_service :
      Bool → BgpPolicyDefinedSets → List BgpSent → BgpDone
  unfolding add_bgp_policy_defined_sets_service delete_bgp_policy_defined_sets_service
  sync_bgp_policy_defined_sets_service listed s log =
      if listed
      then add_bgp_policy_defined_sets_service s log
      else delete_bgp_policy_defined_sets_service s log

  unfoldable pub sync_bgp_policy_definition_service :
      Bool → BgpPolicyDefinition → List BgpSent → BgpDone
  unfolding add_bgp_policy_definition_service delete_bgp_policy_definition_service
  sync_bgp_policy_definition_service listed d log =
      if listed
      then add_bgp_policy_definition_service d log
      else delete_bgp_policy_definition_service d log
