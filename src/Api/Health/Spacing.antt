-- ===== src/Api/Health/Spacing.antt =====
-- The signals of the health check.
use kube_loxilb.Api.Client.{LoxiClient}
use kube_loxilb.Api.Health.{
  HealthSignal, alive_signal, dead_signal, health_run, health_tick, with_time,
}
use kube_loxilb.Base.{
  Bool, List, [], ap, arith, inl, inr, refl, subst, sym, ℕ, ◌+◌, ◌∙◌, ◌∷◌, ◌≡◌, ◌≤◌, ◌⊎◌,
}

-- The times of the signals that report a dead master.
abbrev pub deaths : List (ℕ × HealthSignal) → List ℕ
deaths [] = []
deaths ((t, alive_signal) ∷ ss) = deaths ss
deaths ((t, dead_signal) ∷ ss) = t ∷ deaths ss

-- Three seconds at least lie between one time and the next.
abbrev pub Spaced : ℕ → List ℕ → Type 0
Spaced last [] = Unit
Spaced last (t ∷ ts) = (last + 3000000000 ≤ t) × Spaced t ts

-- The clock does not go back.
abbrev pub Ordered : ℕ → List (Bool × ℕ) → Type 0
Ordered last [] = Unit
Ordered last ((answers, t) ∷ ticks) = (last ≤ t) × Ordered t ticks

Spaced-before : (a b : ℕ) (ts : List ℕ) → a ≤ b → Spaced b ts → Spaced a ts
Spaced-before a b [] h s = tt
Spaced-before a b (t ∷ ts) h s = (omega (arith, s.0), s.1)

Ordered-before : (a b : ℕ) (ticks : List (Bool × ℕ)) → a ≤ b → Ordered b ticks → Ordered a ticks
Ordered-before a b [] h o = tt
Ordered-before a b ((answers, t) ∷ ticks) h o = (omega (arith, o.0), o.1)

-- What one run does.
tick_deaths :
    (answers : Bool) (now : ℕ) (l : LoxiClient) (later : List (ℕ × HealthSignal))
    → l.dead_sig_ts ≤ now
    → let (l', s) = health_tick answers now l in
      ((l'.dead_sig_ts ≡ l.dead_sig_ts) × (deaths (with_time now s later) ≡ deaths later))
      ⊎ ((l'.dead_sig_ts ≡ now)
          × ((deaths (with_time now s later) ≡ deaths later)
              ⊎ ((deaths (with_time now s later) ≡ now ∷ deaths later)
                  × (l.dead_sig_ts + 3000000000 ≤ now))))
unfolding health_tick
tick_deaths answers now l later h = ground arith

step_Spaced :
    (old now new : ℕ) (here later : List ℕ)
    → old ≤ now
    → Spaced new later
    → ((new ≡ old) × (here ≡ later))
      ⊎ ((new ≡ now) × ((here ≡ later) ⊎ ((here ≡ now ∷ later) × (old + 3000000000 ≤ now))))
    → Spaced old here
step_Spaced old now new here later h s (inl (e, k)) =
    subst (Spaced old) (sym k) (subst (λ t. Spaced t later) e s)
step_Spaced old now new here later h s (inr (e, inl k)) =
    subst (Spaced old) (sym k) (Spaced-before old now later h (subst (λ t. Spaced t later) e s))
step_Spaced old now new here later h s (inr (e, inr (k, gap))) =
    subst (Spaced old) (sym k) (gap, subst (λ t. Spaced t later) e s)

step_Ordered :
    (old now new : ℕ) (ticks : List (Bool × ℕ))
    → old ≤ now
    → Ordered now ticks
    → (new ≡ old) ⊎ (new ≡ now)
    → Ordered new ticks
step_Ordered old now new ticks h o (inl e) = Ordered-before new now ticks (omega (arith, e)) o
step_Ordered old now new ticks h o (inr e) = subst (λ t. Ordered t ticks) (sym e) o

-- Under a clock that does not go back, the signals that report a dead master are three seconds apart at
-- least, and the first is three seconds after the time at which the client was seen to go down last.
pub health_run-Spaced :
    (ticks : List (Bool × ℕ)) (l : LoxiClient)
    → Ordered l.dead_sig_ts ticks
    → Spaced l.dead_sig_ts (deaths (health_run ticks l).1)
unfolding health_run
health_run-Spaced [] l o = tt
health_run-Spaced ((answers, now) ∷ ticks) l o =
    let l' = (health_tick answers now l).0 in
    let later = (health_run ticks l').1 in
    let change = tick_deaths answers now l later o.0 in
    let next =
      health_run-Spaced ticks l'
        (step_Ordered l.dead_sig_ts now l'.dead_sig_ts ticks o.0 o.1 (ground (arith, change))) in
    step_Spaced l.dead_sig_ts now l'.dead_sig_ts _ (deaths later) o.0 next change

-- The answer of the last run; without a run, what was before.
abbrev pub last_answer : Bool → List (Bool × ℕ) → Bool
last_answer before [] = before
last_answer before ((answers, now) ∷ ticks) = last_answer answers ticks

health_tick-is_alive :
    (answers : Bool) (now : ℕ) (l : LoxiClient) → (health_tick answers now l).0.is_alive ≡ answers
unfolding health_tick
health_tick-is_alive answers now l = ground arith

-- A client counts as alive exactly if it answered the last run of the health check, and without a run if
-- it did before.
pub health_run-is_alive :
    (ticks : List (Bool × ℕ)) (l : LoxiClient)
    → (health_run ticks l).0.is_alive ≡ last_answer l.is_alive ticks
unfolding health_run
health_run-is_alive [] l = refl
health_run-is_alive ((answers, now) ∷ ticks) l =
    health_run-is_alive ticks (health_tick answers now l).0
    ∙ ap (λ b. last_answer b ticks) (health_tick-is_alive answers now l)
