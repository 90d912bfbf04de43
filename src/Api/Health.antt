-- ===== src/Api/Health.antt =====
-- StartLoxiHealthCheckChan of pkg/api/client.go: the function that runs every two seconds, and its runs.
pub mod Spacing
pub mod Examples
use kube_loxilb.Api.Client.{LoxiClient, has_master_inst}
use kube_loxilb.Base.{
  Bool, List, Option, [], false, if◌then◌else◌, leb, none, some, true, ℕ, ◌&&◌, ◌-◌, ◌∷◌,
}

pub data HealthSignal : Type 0 where
  alive_signal dead_signal : HealthSignal

-- One run: whether the instance answers, the time in nanoseconds, and the signal that is sent. The two
-- readings of the clock in one run are taken to be one time.
unfoldable pub health_tick : Bool → ℕ → LoxiClient → LoxiClient × Option HealthSignal
unfolding has_master_inst
health_tick answers now l =
    if answers
    then if l.is_alive then (l, none) else (record l { is_alive = true }, some alive_signal)
    else if l.is_alive
    then (
      record l { is_alive = false; dead_sig_ts = now },
      if leb 3000000000 (now - l.dead_sig_ts) && has_master_inst l then some dead_signal else none,
    )
    else (l, none)

abbrev pub with_time : ℕ → Option HealthSignal → List (ℕ × HealthSignal) → List (ℕ × HealthSignal)
with_time now none later = later
with_time now (some s) later = (now, s) ∷ later

-- Runs in order, between which the roles, that the election may change, stay; with the signals and the times at which they are sent.
unfoldable pub health_run : List (Bool × ℕ) → LoxiClient → LoxiClient × List (ℕ × HealthSignal)
unfolding health_tick
health_run [] l = (l, [])
health_run ((answers, now) ∷ ticks) l =
    let (l₁, s) = health_tick answers now l in
    let (l₂, later) = health_run ticks l₁ in (l₂, with_time now s later)
