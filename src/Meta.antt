-- ===== src/Meta.antt =====
-- pkg/agent/manager/meta/meta.go and pkg/api/meta.go: the metadata of services, pods and nodes that goes to
-- the live instances.
pub mod Examples
use kube_loxilb.Api.Client.{LoxiClient}
use kube_loxilb.Api.LbModel.{ep_select_eq}
use kube_loxilb.Base.{
  Bool, List, Option, String, [], bool_eq, false, if◌then◌else◌, keep_if, map, nat_eq, none, some,
  string_eq, ◌&&◌, ◌++◌, ◌==◌, ◌∷◌,
}
use kube_loxilb.Base.Assoc.{Assoc}
use kube_loxilb.Base.Int.{int_eq, ℤ}
use kube_loxilb.Base.Outcome.{Outcome, ok, panic, ◌>>=◌, ◌>>◌}
use kube_loxilb.Lb.Types.{Ingress}

pub record PodMetadata : Type 0 where
  pub name : String
  pub namespace : String
  pub ip : String
  pub node_name : String
  pub labels : Assoc String

pub record MetaPort : Type 0 where
  pub port : ℤ
  pub protocol : String
  pub node_port : ℤ
  pub target_port : ℤ

pub record ServiceMetadata : Type 0 where
  pub name : String
  pub namespace : String
  pub cluster_ip : String
  pub external_ip : String
  pub ports : List MetaPort

pub record NodeMetadata : Type 0 where
  pub name : String
  pub internal_ip : String
  pub labels : Assoc String
  pub status : String

pub record K8sMetaModel : Type 0 where
  pub pods : List PodMetadata
  pub services : List ServiceMetadata
  pub nodes : List NodeMetadata

-- A service as the manager reads it, with what the lister of pods gives for its selector. The integer
-- value of a target port that is a name is 0.
pub record MetaService : Type 0 where
  pub namespace : String
  pub name : String
  pub service_type : String
  pub load_balancer_class : Option String
  pub cluster_ip : String
  pub ingress : List Ingress
  pub ports : List MetaPort
  pub selected : Outcome (List PodMetadata)

-- A node: its addresses, and the status of its conditions.
pub record MetaNode : Type 0 where
  pub name : String
  pub addresses : List String
  pub labels : Assoc String
  pub conditions : List String

-- The host name of the first ingress entry, or its address.
unfoldable pub external_ip_of : List Ingress → String
external_ip_of [] = ""
external_ip_of (i ∷ is) = if i.hostname == "" then i.ip else i.hostname

-- createServiceMetaData
unfoldable pub create_service_metadata : MetaService → ServiceMetadata
unfolding external_ip_of
create_service_metadata svc = record {
  name = svc.name;
  namespace = svc.namespace;
  cluster_ip = svc.cluster_ip;
  external_ip = external_ip_of svc.ingress;
  ports = svc.ports;
}

abbrev pub is_selected : String → MetaService → Bool
is_selected class svc =
    svc.service_type == "LoadBalancer"
    && elim svc.load_balancer_class [ none ↦ false | some c ↦ c == class ]

-- The services of the class with their pods; a pod of two services is listed twice.
unfoldable pub service_part :
    String → List MetaService → Outcome (List ServiceMetadata × List PodMetadata)
unfolding create_service_metadata
service_part class [] = ok ([], [])
service_part class (svc ∷ svcs) =
    let later = service_part class svcs in
    if is_selected class svc
    then (do pods ← svc.selected; p ← later; ok (create_service_metadata svc ∷ p.0, pods ++ p.1))
    else later

last_condition : String → List String → String
last_condition status [] = status
last_condition status (s ∷ ss) = last_condition s ss

-- A node without an address or without a condition is an index out of range.
unfoldable pub node_metadata : MetaNode → Outcome NodeMetadata
unfolding last_condition
node_metadata n = elim n.addresses [
  | [] ↦ panic
  | a ∷ _ ↦ elim n.conditions [
    | [] ↦ panic
    | s ∷ ss ↦
        ok (record {
          name = n.name;
          internal_ip = a;
          labels = n.labels;
          status = last_condition s ss;
        })
  ]
]

unfoldable pub node_part : List MetaNode → Outcome (List NodeMetadata)
unfolding node_metadata
node_part [] = ok []
node_part (n ∷ ns) = do m ← node_metadata n; rest ← node_part ns; ok (m ∷ rest)

abbrev pub live_hosts : List LoxiClient → List String
live_hosts cs = map (λ (c : LoxiClient). c.host) (keep_if (λ (c : LoxiClient). c.is_alive) cs)

-- worker: the hosts that get the metadata, and the metadata. An error of a lister ends the round.
unfoldable pub meta_worker :
    String
    → List LoxiClient
    → Outcome (List MetaService)
    → Outcome (List MetaNode)
    → Outcome (List String × K8sMetaModel)
unfolding service_part node_part
meta_worker class clients services nodes = do
  svcs ← services
  part ← service_part class svcs
  ns ← nodes
  ms ← node_part ns
  ok (live_hosts clients, record { pods = part.1; services = part.0; nodes = ms })
