-- ===== src/Meta/Examples.antt =====
-- Runs of the metadata manager.
use kube_loxilb.Api.Client.{LoxiClient}
use kube_loxilb.Base.{[], false, refl, true, ◌∷◌, ◌≡◌}
use kube_loxilb.Base.Outcome.{ok, panic}
use kube_loxilb.Lb.Fixture.{client}
use kube_loxilb.Meta.{MetaNode, meta_worker}

abbrev bare_node : MetaNode
bare_node = record { name = "n1"; addresses = []; labels = []; conditions = "True" ∷ [] }

-- A node that has no address yet stops the agent.
bare_node_panics : meta_worker "loxilb.io/loxilb" [] (ok []) (ok (bare_node ∷ [])) ≡ panic
unfolding meta_worker
bare_node_panics = refl

abbrev alive : LoxiClient
alive = record (client "a") { is_alive = true }

abbrev dead : LoxiClient
dead = record (client "b") { is_alive = false }

-- A node has the status of its last condition, and only live instances get the metadata.
reported :
    meta_worker "loxilb.io/loxilb" (alive ∷ dead ∷ []) (ok []) (
      ok
        (record bare_node { addresses = "10.1.0.1" ∷ []; conditions = "False" ∷ "True" ∷ [] } ∷ []))
    ≡ ok (
      "a" ∷ [],
      record {
        pods = [];
        services = [];
        nodes = record { name = "n1"; internal_ip = "10.1.0.1"; labels = []; status = "True" } ∷ [];
      },
    )
unfolding meta_worker
reported = refl
