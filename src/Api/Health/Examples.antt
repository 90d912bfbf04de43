-- ===== src/Api/Health/Examples.antt =====
-- Runs of the health check of a master.
use kube_loxilb.Api.Client.{LoxiClient}
use kube_loxilb.Api.Health.{alive_signal, dead_signal, health_run}
use kube_loxilb.Api.Health.Spacing.{Spaced, deaths, health_run-Spaced, health_run-is_alive}
use kube_loxilb.Base.{Bool, List, [], arith, false, refl, true, ℕ, ◌*◌, ◌∷◌, ◌≡◌}

abbrev second : ℕ
second = 1000000000

abbrev master : LoxiClient
master = record {
  url = "";
  host = "10.0.0.9";
  port = "11111";
  name = "a";
  is_alive = true;
  peering_only = false;
  no_role = false;
  do_bgp_cfg = false;
  purge = false;
  dead_sig_ts = 0;
  inst_roles = ("llb-inst0", true) ∷ [];
}

-- Down at ten seconds with a signal, up again, and down at twelve seconds without one.
abbrev flapping : List (Bool × ℕ)
flapping = (false, 10 * second) ∷ (true, 11 * second) ∷ (false, 12 * second) ∷ []

flapping_signals :
    (health_run flapping master).1 ≡ (10 * second, dead_signal) ∷ (11 * second, alive_signal) ∷ []
unfolding health_run
flapping_signals = refl

health_run-Spaced_example : Spaced 0 (deaths (health_run flapping master).1)
health_run-Spaced_example =
    health_run-Spaced flapping master (omega arith, (omega arith, (omega arith, tt)))

health_run-is_alive_example : (health_run flapping master).0.is_alive ≡ false
health_run-is_alive_example = health_run-is_alive flapping master
