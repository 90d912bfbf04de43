-- ===== src/Lb/LifeCycle/Examples.antt =====
-- Runs of the status update of all services.
use kube_loxilb.Base.{List, [], map, refl, ◌∷◌, ◌≡◌}
use kube_loxilb.Base.Assoc.{Assoc, lookup}
use kube_loxilb.Base.Outcome.{Outcome, ok, ◌>>=◌}
use kube_loxilb.Config.{NetworkConfig}
use kube_loxilb.Fixture.{demo_ip_string, demo_is_unspecified, demo_net, demo_parse_cidr, v4}
use kube_loxilb.Lb.Fixture.{config, web}
use kube_loxilb.Lb.LifeCycle.{StatusWrite, update_all_loxilb_service_status}
use kube_loxilb.Lb.Types.{Ingress, annotation}
use kube_loxilb.Net.{IpAddr}

abbrev zero_pool : NetworkConfig
zero_pool = record config { external_cidr_pool_defs = "defaultPool=0.0.0.0/32" ∷ [] }

abbrev statuses : Assoc IpAddr → Outcome (List (List Ingress))
statuses insts = do
  ws ←
      update_all_loxilb_service_status demo_net zero_pool insts (ok ("default" ∷ []))
        (λ ns. ok (web ∷ []))
  ok (map (λ (w : StatusWrite). w.ingress) ws)

-- With instance addresses the status holds them; without one it holds a name in the place of an address.
published :
    (statuses (("x", v4 20 0 0 1) ∷ [])
      ≡ ok ((record { ip = "20.0.0.1"; hostname = "" } ∷ []) ∷ []))
    × (statuses [] ≡ ok ((record { ip = "llbanyextip"; hostname = "" } ∷ []) ∷ []))
unfolding update_all_loxilb_service_status annotation lookup demo_parse_cidr demo_ip_string
    demo_is_unspecified
published = (refl, refl)
