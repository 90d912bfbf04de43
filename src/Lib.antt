-- ===== src/Lib.antt =====
-- kube-loxilb watches the services of type LoadBalancer of a Kubernetes cluster, gives each an
-- external address from a pool, and keeps a rule for it on every loxilb instance. This library models
-- the code that decides: the address pools, the settings of a service, its addresses and endpoints,
-- the rules, their installation and removal, the election of the instances' masters, and the managers
-- of BGP, egress, gateway, instance URL and metadata resources.
--
-- The parts:
--   IpPool           pkg/ippool/ippool.go: IPPool and its operations; the allocator of loxilib is the
--                    parameter Allocator. IpPool.IpSet is pkg/ippool/set.go. A nil map and a nil
--                    address are written out.
--   Api              pkg/api/client.go (LoxiClient, NewLoxiClient), its health check in Api.Health, and
--                    pkg/api/lb.go (the rule).
--   Config           pkg/agent/config/config.go.
--   K8s              pkg/k8s/env.go, node.go, servicePort.go, and getEndpoints with the node functions
--                    of pkg/agent/manager/loadbalancer/loadbalancer.go. What the API server answers is
--                    the record Cluster.
--   Common           pkg/agent/manager/common/util_extip.go: GenExtIPName, ParseIngressHostname.
--   Lb               pkg/agent/manager/loadbalancer/loadbalancer.go, in these modules:
--     Types          Manager, LbCacheEntry, SvcPair, GenKey, GenSPKey. A pool is an index into the
--                    manager's pools, as the program has pointers; a request to an instance and its
--                    answer go through Rest, and each request is logged in the manager.
--     Annotations    the annotations that addLoadBalancer reads, one function each.
--     Desired        addLoadBalancer up to the cache: whether it handles the service, and the settings
--                    or the first error (read_desired, admit_service).
--     Mtls           getMtlsFrontendConfig, getMtlsBackendConfig; secrets are a parameter.
--     Cache          the new cache entry, and the comparison and update of an old one; Cache.Update has
--                    the update block by block.
--     Pairs          getServiceIngressIPs to getIngressSvcPairs; Secondary: getIngressSecSvcPairs.
--     Model          makeLoxiLoadBalancerModel, installLB, and the loop that installs a rule.
--     Updates        checkUpdateExternalIP, checkUpdateEndpoints, and the status of updateService.
--     Pools          AddLoxiCIDRPool, DeleteLoxiCIDRPool, with the local copy of the pool table.
--     Signals        AddLoxiInstAddr against the loop of manageLoxiLbLifeCycle: the lock and the
--                    channel as a step relation.
--     Delete         deleteLoadBalancer, DeleteAllLoadBalancer.
--     Add            syncLoadBalancer and addLoadBalancer as a whole: the cache entry, the addresses, the
--                    loop over the pairs, the deferred return of addresses, and the status.
--     Hosts          AddLoxiInstAddr and DeleteLoxiInstAddr as functions.
--     Discovery      DiscoverLoxiLBServices and DiscoverLoxiLBPeerServices; the addresses come from
--                    K8s.Discover.
--     LifeCycle      updateAllLoxiLBServiceStatus, checkHandleBGPCfgErrors, and the models for an instance
--                    that comes up.
--     Roles          SelectInstLoxiLBRoles, SelectLoxiLBRoles and the rebalancing.
--   LoxiUrl          pkg/agent/manager/loxiurl/loxiurl.go: resources for pools, host addresses and
--                    clients, which change the load-balancer manager.
--   Egress           pkg/agent/manager/egress/egress.go; the requests are Api.Firewall, of
--                    pkg/api/firewall.go, and their answers FwRest.
--   Bgp              pkg/agent/manager/bgppeer, bgppolicyapply, bgppolicydefinedsets and
--                    bgppolicydefinition; the requests are Api.Bgp, and their answers BgpRest.
--   Meta             pkg/agent/manager/meta/meta.go, with pkg/api/meta.go.
--   Gateway          pkg/agent/manager/gatewayapi: Route is tcproute.go, with udproute.go in Route.Udp;
--                    Manager is gateway.go, with what it writes into the informer's object;
--                    HttpRoute and GatewayClass are the files of these names.
--                    The load-balancer manager meets these parts in the services that they write.
--   Options          validate of cmd/loxilb-agent/options.go.
--   Base, Net, Text  shared types and lemmas; package net as a parameter; the functions of strings,
--                    strconv and fmt that the program uses.
--   Fixture          a small network library and allocator, to run the model on; Lb.Fixture is a small
--                    service. The modules called Examples hold runs and instances of the theorems.
--
-- Conventions. A function that can fail gives an Outcome: a value, an error with its text, or a panic,
-- which also stands for the exit of the process. Functions that change the manager or a pool take it
-- and return the new one. Ports and other int32 and int values are integers; conversions to uint16 and
-- uint32 keep the low bits. A Go map is an association list, in the order in which a range loop meets
-- its keys; the requests to several instances, which goroutines send, are taken in the order of the
-- instances. The API server is a record of calls on a state that the code does not see (StatusApi,
-- Kube, GatewayApi, IngressApi); KubeLaws states what the theorems on routes ask of Kube. Where the
-- code gives a new object the annotation map of an old one, the state holds that map, and a write is
-- seen through both.
--
-- Fuel. The digits of a number n are computed with fuel n + 1, and a number has fewer digits than that.
-- The second loop of the election counts down its rounds, one for each client, as the source does, and
-- the loop that writes the status of a service its five attempts. No other definition that models code
-- takes fuel: the loops go down their lists.
--
-- Not modelled: HTTP and JSON, the informers and work queues, logging and flags, the event loop of the
-- life cycle of instances with its channels, but for the signal of Lb.Signals,
-- compareLoxiLBToK8sService, which nothing calls, and all generated clients. These are input and
-- output, glue, or generated, but for the event loop, which calls the modelled parts and not the other
-- way round. addLoadBalancer also clears the status in the informer's copy of the service before it
-- installs the rules; nothing later in the same call reads it, and updateService starts from a fresh
-- copy, so the write is left out.
pub mod Base
pub mod Net
pub mod Text
pub mod IpPool
pub mod Fixture
pub mod Api
pub mod K8s
pub mod Lb
pub mod Config
pub mod Common
pub mod Egress
pub mod Gateway
pub mod LoxiUrl
pub mod Bgp
pub mod Meta
pub mod Options
