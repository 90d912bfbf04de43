-- ===== src/LoxiUrl.antt =====
-- pkg/agent/manager/loxiurl/loxiurl.go: LoxiURL resources add and remove address pools, addresses of
-- instances, and clients of instances.
pub mod Laws
pub mod Unique
pub mod Examples
use kube_loxilb.Api.Client.{LoxiClient, new_loxi_client}
use kube_loxilb.Api.LbModel.{ep_select_eq}
use kube_loxilb.Base.{
  Bool, List, Option, String, [], all_of, any_of, bool_eq, elem, false, if◌then◌else◌, is_empty,
  keep_if, map, nat_eq, none, not, some, string_eq, true, ℕ, ◌&&◌, ◌++◌, ◌==◌, ◌∷◌,
}
use kube_loxilb.Base.Int.{int_eq}
use kube_loxilb.Base.Outcome.{Outcome, err, ok}
use kube_loxilb.Config.{NetworkConfig}
use kube_loxilb.Lb.Hosts.{add_loxi_inst_addr, delete_loxi_inst_addr}
use kube_loxilb.Lb.Pools.{add_loxi_cidr_pool, delete_loxi_cidr_pool}
use kube_loxilb.Lb.Types.{Manager}
use kube_loxilb.Net.{Allocator, IpAddr, Net}
use kube_loxilb.Text.{concat, split}

-- crds/loxiurl/v1: the specification of a resource, with its name.
pub record LoxiUrl : Type 0 where
  pub name : String
  pub url : String
  pub url_type : String
  pub zone : String

-- net/url: whether Parse takes a text, and the host and port of a server's URL, as NewLoxiClient finds them.
pub record UrlLib : Type 0 where
  pub is_url : String → Bool
  pub host_port : String → Option (String × String)

-- The manager: the load-balancer manager that it works on, whether resources control the clients, and the
-- clients whose health check was stopped and that went to the purge channel, oldest first.
pub record UrlManager (S : Type 0) : Type 0 where
  pub lb : Manager S
  pub crd_control_on : Bool
  pub purged : List LoxiClient

module _ {S : Type 0} where
  abbrev pub clients_of : UrlManager S → List LoxiClient
  clients_of m = m.lb.clients

  abbrev pub with_clients : UrlManager S → List LoxiClient → UrlManager S
  with_clients m cs = record m { lb = record m.lb { clients = cs } }

  -- deleteAllLoxiClients
  unfoldable pub delete_all_loxi_clients : UrlManager S → UrlManager S
  delete_all_loxi_clients m = record (with_clients m []) { purged = m.purged ++ m.lb.clients }

  -- deleteSingleLoxiClientsWithName: without a match the list stays, which holds no client of the name.
  unfoldable pub delete_single_loxi_clients_with_name : String → UrlManager S → UrlManager S
  delete_single_loxi_clients_with_name name m =
      record (with_clients m (keep_if (λ (c : LoxiClient). not (c.name == name)) m.lb.clients)) {
        purged = m.purged ++ keep_if (λ (c : LoxiClient). c.name == name) m.lb.clients;
      }

abbrev pub urls : List LoxiClient → List String
urls cs = map (λ (c : LoxiClient). c.url) cs

-- The new URLs, compared with those that the clients had.
unfoldable pub new_urls : List String → List String → List String
new_urls current news = keep_if (λ u. not (elem u current)) news

-- The clients that can be made, for URLs with the names of their resources.
unfoldable pub make_clients : UrlLib → NetworkConfig → ℕ → List (String × String) → List LoxiClient
unfolding new_loxi_client
make_clients lib config now [] = []
make_clients lib config now ((u, name) ∷ us) =
    let rest = make_clients lib config now us in
    elim (new_loxi_client (lib.host_port u) now u false false name config.zone
      config.num_zone_inst) [ none ↦ rest | some c ↦ c ∷ rest ]

abbrev pub named : String → List String → List (String × String)
named name us = map (λ u. (u, name)) us

abbrev pub url_error : String → String
unfolding concat
url_error u = concat ("loxiURL " ∷ u ∷ " is invalid" ∷ [])

-- The first URL that Parse refuses.
unfoldable pub first_invalid : UrlLib → List String → Option String
first_invalid lib [] = none
first_invalid lib (u ∷ us) = if lib.is_url u then first_invalid lib us else some u

module _ (A : Allocator) (net : Net) (lib : UrlLib) (config : NetworkConfig) (now : ℕ) where
  abbrev pub UrlDone : Type 0
  UrlDone = Outcome (Unit {0}) × UrlManager A.State

  abbrev pub on_lb : UrlManager A.State → Outcome (Unit {0}) × Manager A.State → UrlDone
  on_lb m (r, lb) = (r, record m { lb = lb })

  -- The clients of a resource: where one of its URLs is new, the clients of the resource's name go, and
  -- clients for the new URLs come.
  unfoldable pub add_clients : LoxiUrl → List String → UrlManager A.State → UrlManager A.State
  unfolding new_urls make_clients delete_single_loxi_clients_with_name
  add_clients u news m =
      let fresh = new_urls (urls m.lb.clients) news in
      if is_empty fresh
      then m
      else (let m' = delete_single_loxi_clients_with_name u.name m in
          with_clients m' (m'.lb.clients ++ make_clients lib config now (named u.name fresh)))

  unfoldable pub add_urls : LoxiUrl → UrlManager A.State → UrlDone
  unfolding first_invalid add_clients delete_all_loxi_clients split
  add_urls u m =
      let news = split 44 u.url in
      let m' =
        if m.crd_control_on
        then m
        else record (delete_all_loxi_clients m) { crd_control_on = true } in
      elim (first_invalid lib news) [
        | some bad ↦ (err (url_error bad), m')
        | none ↦ (ok tt, add_clients u news m')
      ]

  -- A client is named by the resource, with its URL.
  abbrev pub is_of : LoxiUrl → List String → LoxiClient → Bool
  is_of u deleted c = c.name == u.name && elem c.url deleted

  abbrev pub is_there : LoxiUrl → List LoxiClient → String → Bool
  is_there u cs d = any_of (λ (c : LoxiClient). c.url == d && c.name == u.name) cs

  -- The clients after a deletion: where all URLs of the resource have their clients, all clients go and
  -- the others are made anew.
  unfoldable pub delete_clients : LoxiUrl → List String → UrlManager A.State → UrlManager A.State
  unfolding make_clients delete_all_loxi_clients
  delete_clients u deleted m =
      if all_of (is_there u m.lb.clients) deleted
      then with_clients (delete_all_loxi_clients m) (
          make_clients lib config now (
            map (λ (c : LoxiClient). (c.url, c.name))
              (keep_if (λ c. not (is_of u deleted c)) m.lb.clients)))
      else m

  unfoldable pub delete_urls : LoxiUrl → UrlManager A.State → UrlDone
  unfolding first_invalid delete_clients split
  delete_urls u m =
      let deleted = split 44 u.url in
      elim (first_invalid lib deleted) [
        | some bad ↦ (err (url_error bad), m)
        | none ↦ (ok tt, delete_clients u deleted m)
      ]

  -- What the type of a resource asks for.
  unfoldable pub by_type :
      LoxiUrl → UrlManager A.State → UrlDone → (IpAddr → UrlDone) → UrlDone → UrlDone
  unfolding concat
  by_type u m pool host clients =
      if not (u.zone == "") && not (u.zone == config.zone)
      then (ok tt, m)
      else if u.url_type == "cidrpool"
      then pool
      else if u.url_type == "hostcidr"
      then elim (net.parse_ip u.url) [
        | none ↦
            (err (concat ("loxilb-url crd add (" ∷ u.url ∷ ") host cidr parse failed" ∷ [])), m)
        | some ip ↦ host ip
      ]
      else if not (u.url_type == "") && not (u.url_type == "default")
      then (ok tt, m)
      else if is_empty config.loxilb_urls
      then (ok tt, m)
      else clients

  -- addLoxiLBURL
  unfoldable pub add_loxi_lb_url : LoxiUrl → UrlManager A.State → UrlDone
  unfolding by_type add_loxi_cidr_pool add_loxi_inst_addr add_urls
  add_loxi_lb_url u m =
      by_type u m (on_lb m (add_loxi_cidr_pool A net config u.name u.url m.lb))
        (λ ip. on_lb m (ok tt, (add_loxi_inst_addr u.name ip m.lb).1)) (add_urls u m)

  -- deleteLoxiLBURL
  unfoldable pub delete_loxi_lb_url : LoxiUrl → UrlManager A.State → UrlDone
  unfolding by_type delete_loxi_cidr_pool delete_loxi_inst_addr delete_urls
  delete_loxi_lb_url u m =
      by_type u m (on_lb m (delete_loxi_cidr_pool A net u.name u.url m.lb))
        (λ ip. on_lb m (ok tt, (delete_loxi_inst_addr u.name m.lb).1)) (delete_urls u m)

  -- syncLBURLs, by whether the lister finds the resource.
  unfoldable pub sync_lb_urls : Bool → LoxiUrl → UrlManager A.State → UrlDone
  unfolding add_loxi_lb_url delete_loxi_lb_url
  sync_lb_urls listed u m = if listed then add_loxi_lb_url u m else delete_loxi_lb_url u m
