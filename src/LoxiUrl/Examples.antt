-- ===== src/LoxiUrl/Examples.antt =====
-- Runs of the instance URL manager.
use kube_loxilb.Api.Client.{LoxiClient}
use kube_loxilb.Api.LbModel.{ep_select_eq}
use kube_loxilb.Base.{
  Bool, List, String, [], bool_eq, false, if◌then◌else◌, nat_eq, none, not, refl, some, string_eq,
  true, ◌==◌, ◌∷◌, ◌≡◌,
}
use kube_loxilb.Base.Int.{int_eq}
use kube_loxilb.Config.{NetworkConfig}
use kube_loxilb.Fixture.{Taken, demo_allocator, demo_net}
use kube_loxilb.Lb.Fixture.{config, manager}
use kube_loxilb.LoxiUrl.{LoxiUrl, UrlLib, UrlManager, sync_lb_urls, urls}
use kube_loxilb.LoxiUrl.Unique.{Unique, sync_lb_urls-Unique}
use kube_loxilb.Text.{split}

-- A server's URL is its host, at one port.
abbrev urls_parse : UrlLib
urls_parse = record {
  is_url = λ s. not (s == "bad%");
  host_port = λ s. if s == "" then none else some (s, "11111");
}

abbrev resource : String → LoxiUrl
resource us = record { name = "r"; url = us; url_type = "default"; zone = "" }

abbrev external : NetworkConfig
external = record config { loxilb_urls = "a" ∷ [] }

abbrev begin : List LoxiClient → UrlManager Taken
unfolding manager
begin cs = record { lb = record manager { clients = cs }; crd_control_on = true; purged = [] }

abbrev sync : Bool → LoxiUrl → UrlManager Taken → UrlManager Taken
sync listed u m = (sync_lb_urls demo_allocator demo_net urls_parse external 0 listed u m).1

abbrev after : Bool → String → UrlManager Taken → List String
after listed us m = urls (sync listed (resource us) m).lb.clients

abbrev started : String → UrlManager Taken
started us = sync true (resource us) (begin [])

-- Two URLs have their clients, and those go with the resource.
both : (after true "a,b" (begin []) ≡ "a" ∷ "b" ∷ []) × (after false "a,b" (started "a,b") ≡ [])
unfolding sync_lb_urls begin
both = (refl, refl)

-- A resource that gets a second URL loses the client of its first.
first_lost : after true "a,b" (started "a") ≡ "b" ∷ []
unfolding sync_lb_urls begin
first_lost = refl

-- A resource that names a URL twice gets two clients for it.
twice : after true "a,a" (begin []) ≡ "a" ∷ "a" ∷ []
unfolding sync_lb_urls begin
twice = refl

-- The first resource takes away all clients, also where its own URL is refused.
refused_url : after true "bad%" (record (started "a") { crd_control_on = false }) ≡ []
unfolding sync_lb_urls
refused_url = refl

sync_lb_urls-Unique_example :
    Unique demo_allocator demo_net urls_parse external 0 (sync true (resource "a,b") (started "a"))
unfolding split sync_lb_urls begin
sync_lb_urls-Unique_example =
    sync_lb_urls-Unique demo_allocator demo_net urls_parse external 0 true (resource "a,b")
      (started "a") (refl, (refl, tt)) (refl, tt)
