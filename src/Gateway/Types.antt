-- ===== src/Gateway/Types.antt =====
-- The objects of the Kubernetes and gateway APIs that pkg/agent/manager/gatewayapi reads and writes, by
-- the fields that it uses. A nil map or pointer is `none`.
use kube_loxilb.Api.LbModel.{ep_select_eq}
use kube_loxilb.Base.{
  List, Option, String, [], bool_eq, if◌then◌else◌, nat_eq, none, some, string_eq, ◌==◌, ◌∷◌,
}
use kube_loxilb.Base.Assoc.{Assoc, lookup}
use kube_loxilb.Base.Int.{int_eq, ℤ}

-- metav1: a map of annotations or labels.
abbrev pub Marks : Type 0
Marks = Option (Assoc String)

unfoldable pub mark_of : String → Marks → Option String
mark_of key none = none
mark_of key (some m) = lookup key m

-- m[key]: the empty text for a missing key.
abbrev pub mark_text : String → Marks → String
unfolding mark_of
mark_text key ms = elim (mark_of key ms) [ none ↦ "" | some v ↦ v ]

abbrev pub or_empty : Marks → Assoc String
or_empty none = []
or_empty (some m) = m

pub record GwServicePort : Type 0 where
  pub name : String
  pub port : ℤ
  pub target_port : ℤ
  pub protocol : String

-- corev1.Service
pub record GwService : Type 0 where
  pub namespace : String
  pub name : String
  pub annotations : Marks
  pub labels : Marks
  pub service_type : String
  pub load_balancer_class : Option String
  pub load_balancer_ip : String
  pub ports : List GwServicePort
  pub selector : Marks
  pub cluster_ip : String
  pub cluster_ips : List String
  pub resource_version : String

pub record CertRef : Type 0 where
  pub kind : Option String
  pub name : String

pub record Listener : Type 0 where
  pub name : String
  pub protocol : String
  pub port : ℤ
  pub hostname : Option String
  pub tls : Option (List CertRef)

pub record Condition : Type 0 where
  pub type : String
  pub status : String
  pub message : String
  pub reason : String

pub record Gateway : Type 0 where
  pub namespace : String
  pub name : String
  pub class_name : String
  pub annotations : Marks
  pub labels : Marks
  pub spec_addresses : List String
  pub status_addresses : List String
  pub listeners : List Listener
  pub conditions : List Condition

pub record ParentRef : Type 0 where
  pub namespace : Option String
  pub name : String
  pub section_name : Option String

pub record BackendRef : Type 0 where
  pub namespace : Option String
  pub name : String
  pub port : Option ℤ

-- TCPRoute and UDPRoute of v1alpha2: the rules are lists of backends.
pub record Route : Type 0 where
  pub namespace : String
  pub name : String
  pub annotations : Marks
  pub labels : Marks
  pub parent_refs : List ParentRef
  pub rules : List (List BackendRef)

-- What a read of an object gives: the object, the error that there is none, or another error.
pub data Found {ℓ} (A : Type ℓ) : Type ℓ where
  found : A → Found A
  missing : Found A
  failed : String → Found A

-- The client of the cluster: services and gateways, over a state of its own. A write gives its error or
-- none.
pub record Kube : Type 1 where
  pub State : Type 0
  pub get_service : State → String → String → Found GwService
  pub list_services : State → String → Found (List GwService)
  pub service_create : State → GwService → Option String × State
  pub service_update : State → GwService → Option String × State
  pub service_delete : State → String → String → Option String × State
  pub get_gateway : State → String → String → Found Gateway

-- *p of a namespace, or the namespace of the object that refers to it.
abbrev pub namespace_or : String → Option String → String
namespace_or own none = own
namespace_or own (some ns) = ns

-- findListener: the listener of a section name; a reference without one finds none.
listener_named : String → List Listener → Option Listener
listener_named name [] = none
listener_named name (l ∷ ls) = if l.name == name then some l else listener_named name ls

unfoldable pub find_listener : Gateway → ParentRef → Option Listener
unfolding listener_named
find_listener g p = elim p.section_name [ none ↦ none | some s ↦ listener_named s g.listeners ]
