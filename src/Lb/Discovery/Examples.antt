-- ===== src/Lb/Discovery/Examples.antt =====
-- Runs of the discovery of instances.
use kube_loxilb.Api.Client.{LoxiClient}
use kube_loxilb.Api.LbModel.{ep_select_eq}
use kube_loxilb.Base.{
  List, Option, String, [], bool_eq, elem, false, if◌then◌else◌, nat_eq, none, refl, some,
  string_eq, ◌==◌, ◌∷◌, ◌≡◌,
}
use kube_loxilb.Base.Int.{int_eq}
use kube_loxilb.Base.Outcome.{Outcome, ok}
use kube_loxilb.Fixture.{demo_ip_string, demo_net, demo_parse_ip}
use kube_loxilb.K8s.{EndpointSlice}
use kube_loxilb.Lb.Discovery.{discover, discover_loxilb_services, instance_url}
use kube_loxilb.Lb.Discovery.Laws.{discover_refines}
use kube_loxilb.Lb.Discovery.Marks.{hosts}
use kube_loxilb.Lb.Fixture.{client, config}

-- The URLs of two instances, as net/url and package net read them: the host of the third has no port
-- that can be told apart.
abbrev read_url : String → Option (String × String)
read_url u =
    if u == "http://10.0.0.1:11111"
    then some ("10.0.0.1", "11111")
    else if u == "http://10.0.0.2:11111"
    then some ("10.0.0.2", "11111")
    else none

abbrev found_hosts : List String → List LoxiClient → List String × List String
found_hosts ips cs =
    let (stay, gone) = discover read_url config 0 false (λ ip. elem ip []) ips cs in
    (hosts stay, hosts gone)

-- One instance is new, one stays, and one is gone.
moved :
    found_hosts ("10.0.0.1" ∷ "10.0.0.2" ∷ []) (client "10.0.0.9" ∷ client "10.0.0.2" ∷ [])
    ≡ ("10.0.0.2" ∷ "10.0.0.1" ∷ [], "10.0.0.9" ∷ [])
unfolding discover instance_url
moved = refl

-- An instance at an IPv6 address never gets a client, since its URL has no brackets.
v6_left_out : found_hosts ("fd00::1" ∷ []) [] ≡ ([], [])
unfolding discover instance_url
v6_left_out = refl

abbrev slices : Outcome (List EndpointSlice)
slices = ok (
    record { ports = []; endpoints = record { ready = none; addresses = "10.0.0.1" ∷ [] } ∷ [] }
    ∷ [])

-- In a zone without nodes the instances of the others are taken: the nodes of the zone are not used.
zone_without_effect :
    hosts
      (discover_loxilb_services read_url
        (record config { zone = "east" })
        0
        demo_net
        (ok [])
        slices
        []
        []).0
    ≡ "10.0.0.1" ∷ []
unfolding discover_loxilb_services demo_parse_ip instance_url demo_ip_string
zone_without_effect = refl

discover_refines_example :
    ((h : String)
      → elem h (
          hosts
            (discover read_url config 0 false
              (λ ip. false)
              ("10.0.0.1" ∷ [])
              (client "10.0.0.9" ∷ [])).0)
        ≡ elem h ("10.0.0.1" ∷ []))
    × (discover read_url config 0 false
          (λ ip. false)
          ("10.0.0.1" ∷ [])
          (discover read_url config 0 false
            (λ ip. false)
            ("10.0.0.1" ∷ [])
            (client "10.0.0.9" ∷ [])).0
        ≡ (
          (discover read_url config 0 false
              (λ ip. false)
              ("10.0.0.1" ∷ [])
              (client "10.0.0.9" ∷ [])).0,
          [],
        ))
unfolding instance_url
discover_refines_example =
    discover_refines read_url config 0 false (λ ip. false) ("10.0.0.1" ∷ [])
      (client "10.0.0.9" ∷ []) (refl, tt)
