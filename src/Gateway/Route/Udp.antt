-- ===== src/Gateway/Route/Udp.antt =====
-- udproute.go: the functions of the UDP manager, which are those of the TCP manager with their own parent
-- key and protocol.
use kube_loxilb.Base.{List, String}
use kube_loxilb.Base.Outcome.{Outcome}
use kube_loxilb.Gateway.Route.{RouteState, udp_route}
use kube_loxilb.Gateway.Route.Reconcile.{
  Done, create_route, create_service, delete_route, duplicate_service, reconcile, reconcile_service,
  update_service,
}
use kube_loxilb.Gateway.Types.{
  BackendRef, Found, Gateway, GwService, Kube, Listener, ParentRef, Route,
}

module _ (K : Kube) (provider : String) where
  abbrev pub UdpDone : Type 0
  UdpDone = Done K udp_route provider

  unfoldable pub create_udp_service :
      Route → String → BackendRef → String → Listener → RouteState K.State → UdpDone
  unfolding create_service
  create_udp_service = create_service K udp_route provider

  unfoldable pub duplicate_udp_service :
      Route → GwService → BackendRef → String → Listener → RouteState K.State → UdpDone
  unfolding duplicate_service
  duplicate_udp_service = duplicate_service K udp_route provider

  unfoldable pub update_udp_service :
      Route → GwService → BackendRef → String → Listener → RouteState K.State → UdpDone
  unfolding update_service
  update_udp_service = update_service K udp_route provider

  unfoldable pub reconcile_udp_service :
      Route → Gateway → Listener → String → BackendRef → RouteState K.State → UdpDone
  unfolding reconcile_service
  reconcile_udp_service = reconcile_service K udp_route provider

  unfoldable pub create_udp_route : Route → List ParentRef → RouteState K.State → UdpDone
  unfolding create_route
  create_udp_route = create_route K udp_route provider

  unfoldable pub delete_udp_route : String → String → K.State → Outcome (Unit {0}) × K.State
  unfolding delete_route
  delete_udp_route = delete_route K udp_route provider

  unfoldable pub reconcile_udp_route : String → String → Found Route → K.State → UdpDone
  unfolding reconcile
  reconcile_udp_route = reconcile K udp_route provider
