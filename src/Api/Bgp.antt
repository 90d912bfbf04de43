-- ===== src/Api/Bgp.antt =====
-- pkg/api/bgp.go, bgppolicyapply.go, bgppolicydefinedsets.go and bgppolicydefinition.go, and the
-- specifications of pkg/crds: the requests about BGP neighbours and policies.
use kube_loxilb.Base.{List, Option, String, [], ◌∷◌}
use kube_loxilb.Base.Int.{ℤ}
use kube_loxilb.Text.{concat, show_int}

pub record BgpNeigh : Type 0 where
  pub ip_address : String
  pub remote_as : ℤ
  pub remote_port : ℤ

pub record BgpPolicyApply : Type 0 where
  pub neigh_ip_address : String
  pub policy_type : String
  pub policies : List String
  pub route_action : String

pub record BgpPrefix : Type 0 where
  pub ip_prefix : String
  pub masklength_range : String

pub record BgpPolicyDefinedSets : Type 0 where
  pub name : String
  pub defined_type : String
  pub list : List String
  pub prefix_list : List BgpPrefix

pub record SetCommunity : Type 0 where
  pub options : String
  pub set_community_method : List String

pub record SetAsPathPrepend : Type 0 where
  pub asn : String
  pub repeat_n : ℤ

pub record BgpActions : Type 0 where
  pub set_med : String
  pub set_community : SetCommunity
  pub set_ext_community : SetCommunity
  pub set_large_community : SetCommunity
  pub set_next_hop : String
  pub set_local_perf : ℤ
  pub set_as_path_prepend : SetAsPathPrepend

-- A named set and how it is matched, as in MatchPrefixSet, MatchNeighborSet, BGPAsPathSet and
-- BGPCommunitySet.
pub record MatchSet : Type 0 where
  pub match_set_option : String
  pub set_name : String

pub record BgpAsPathLength : Type 0 where
  pub operator : String
  pub value : ℤ

pub record BgpConditions : Type 0 where
  pub afi_safi_in : List String
  pub as_path_set : MatchSet
  pub as_path_length : BgpAsPathLength
  pub community_set : MatchSet
  pub ext_community_set : MatchSet
  pub large_community_set : MatchSet
  pub route_type : String
  pub next_hop_in_list : List String
  pub rpki : String

pub record PolicyConditions : Type 0 where
  pub prefix_set : MatchSet
  pub neighbor_set : MatchSet
  pub bgp_conditions : BgpConditions

pub record PolicyActions : Type 0 where
  pub route_disposition : String
  pub bgp_actions : BgpActions

pub record PolicyStatement : Type 0 where
  pub name : String
  pub conditions : PolicyConditions
  pub actions : PolicyActions

pub record BgpPolicyDefinition : Type 0 where
  pub name : String
  pub statement : List PolicyStatement

pub data BgpBody : Type 0 where
  neigh_body : BgpNeigh → BgpBody
  apply_body : BgpPolicyApply → BgpBody
  sets_body : BgpPolicyDefinedSets → BgpBody
  definition_body : BgpPolicyDefinition → BgpBody
  no_body : BgpBody

pub record BgpRequest : Type 0 where
  pub method : String
  pub path : String
  pub query : List (String × String)
  pub body : BgpBody

abbrev pub post : String → BgpBody → BgpRequest
post path body = record { method = "POST"; path = path; query = []; body = body }

abbrev pub delete_at : String → List (String × String) → BgpBody → BgpRequest
delete_at path query body = record { method = "DELETE"; path = path; query = query; body = body }

unfoldable pub create_neigh : BgpNeigh → BgpRequest
create_neigh n = post "config/bgp/neigh" (neigh_body n)

unfoldable pub delete_neigh : String → ℤ → BgpRequest
unfolding concat show_int
delete_neigh ip remote_as =
    delete_at (concat ("config/bgp/neigh/" ∷ ip ∷ [])) (("remoteAs", show_int remote_as) ∷ [])
      no_body

unfoldable pub create_bgp_policy_apply : BgpPolicyApply → BgpRequest
create_bgp_policy_apply a = post "config/bgp/policy/apply" (apply_body a)

unfoldable pub delete_bgp_policy_apply : BgpPolicyApply → BgpRequest
delete_bgp_policy_apply a = delete_at "config/bgp/policy/apply" [] (apply_body a)

unfoldable pub create_bgp_policy_defined_sets : String → BgpPolicyDefinedSets → BgpRequest
unfolding concat
create_bgp_policy_defined_sets type s =
    post (concat ("config/bgp/policy/definedsets/" ∷ type ∷ [])) (sets_body s)

unfoldable pub delete_bgp_policy_defined_sets : String → String → BgpRequest
unfolding concat
delete_bgp_policy_defined_sets type name =
    delete_at (concat ("config/bgp/policy/definedsets/" ∷ type ∷ "/" ∷ name ∷ [])) [] no_body

unfoldable pub create_bgp_policy_definition : BgpPolicyDefinition → BgpRequest
create_bgp_policy_definition d = post "config/bgp/policy/definitions" (definition_body d)

unfoldable pub delete_bgp_policy_definition : String → BgpRequest
unfolding concat
delete_bgp_policy_definition name =
    delete_at (concat ("config/bgp/policy/definitions/" ∷ name ∷ [])) [] no_body

-- A request to one instance, and what the instances answer, as a function of the requests so far, newest
-- first: `none` is success.
pub record BgpSent : Type 0 where
  pub host : String
  pub request : BgpRequest

pub record BgpRest : Type 0 where
  pub answer : List BgpSent → BgpSent → Option String
