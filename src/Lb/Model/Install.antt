-- ===== src/Lb/Model/Install.antt =====
-- The requests of one rule to all instances.
use kube_loxilb.Api.Client.{LoxiClient}
use kube_loxilb.Api.LbModel.{LbModel, ep_select_eq}
use kube_loxilb.Base.{
  Bool, List, Option, String, [], ap, arith, bool_eq, false, if◌then◌else◌, is_empty, leb, length,
  nat_eq, none, not, refl, some, string_eq, suc, true, ℕ, ◌&&◌, ◌+◌, ◌==◌, ◌∙◌, ◌∷◌, ◌≡◌,
}
use kube_loxilb.Base.Int.{int_eq}
use kube_loxilb.Lb.Model.{install_all, install_lb, prefer_local, refused, send, tally}
use kube_loxilb.Lb.Types.{Manager, Rest, Sent, post}
use kube_loxilb.Text.{contains_text}

abbrev pub is_refusal : Option String → Bool
is_refusal none = false
is_refusal (some t) = not (contains_text t "exist")

-- The number of requests that were refused, read off the requests sent.
unfoldable pub refusals : Rest → List Sent → ℕ
refusals rest [] = 0
refusals rest (s ∷ older) =
    if is_refusal (rest.answer older s) then refusals rest older + 1 else refusals rest older

-- The rule as it is posted to each instance, in order and newest first in the log.
abbrev pub posted : LbModel → Bool → List LoxiClient → List Sent → List Sent
posted lb pl [] log = log
posted lb pl (c ∷ cs) log =
    posted lb pl cs (record { verb = post; host = c.host; model = prefer_local c.host pl lb } ∷ log)

abbrev pub has_value : Option String → Bool
has_value none = false
has_value (some t) = true

tally_counts :
    (e : Option String) (later : Option String × ℕ) (r₀ r₁ r₂ : ℕ)
    → r₁ ≡ (if has_value e then r₀ + 1 else r₀)
    → r₂ ≡ r₁ + later.1
    → has_value later.0 ≡ not (later.1 == 0)
    → (r₂ ≡ r₀ + (tally e later).1) × (has_value (tally e later).0 ≡ not ((tally e later).1 == 0))
tally_counts none later r₀ r₁ r₂ h k l = (ground arith, l)
tally_counts (some t) (none, n) r₀ r₁ r₂ h k l = ground arith
tally_counts (some t) (some u, n) r₀ r₁ r₂ h k l = ground arith

refused-has_value :
    (k : ℕ) (r : Option String × ℕ)
    → has_value r.0 ≡ not (r.1 == 0)
    → has_value (refused (suc k) r) ≡ leb (suc k) r.1
unfolding refused
refused-has_value k (none, n) h = ground arith
refused-has_value k (some t, n) h = ground arith

module _ (rest : Rest) {S : Type 0} where
  install_lb_request :
      (c : LoxiClient) (lb : LbModel) (pl : Bool) (m : Manager S)
      → let (e, m') = install_lb rest c lb pl m in
        (refusals rest m'.sent
          ≡ (if has_value e then refusals rest m.sent + 1 else refusals rest m.sent))
        × (m'.sent ≡ posted lb pl (c ∷ []) m.sent)
  unfolding install_lb send refusals
  install_lb_request c lb pl m = (ground arith, refl)

  install_all_counts :
      (cs : List LoxiClient) (lb : LbModel) (pl : Bool) (m : Manager S)
      → let ((last, n), m') = install_all rest cs lb pl m in
        (refusals rest m'.sent ≡ refusals rest m.sent + n)
        × ((has_value last ≡ not (n == 0)) × (m'.sent ≡ posted lb pl cs m.sent))
  unfolding install_all
  install_all_counts [] lb pl m = (omega arith, (refl, refl))
  install_all_counts (c ∷ cs) lb pl m =
      let (here, log) = install_lb_request c lb pl m in
      let (later, (some_error, logs)) = install_all_counts cs lb pl (install_lb rest c lb pl m).1 in
      let (counts, error_iff) = tally_counts _ _ _ _ _ here later some_error in
      (counts, (error_iff, logs ∙ ap (posted lb pl cs) log))

  -- The rule is posted to each instance once, in order and whatever they answer, with the endpoints that
  -- the instance prefers where the service asks for that; no other request is sent; the count of the
  -- errors is the number of these requests that were answered with a text that does not say that
  -- the rule exists; and the rule counts as refused exactly if there is an instance and this count
  -- reaches the number of the instances.
  pub install_all-refused :
      (cs : List LoxiClient) (lb : LbModel) (pl : Bool) (m : Manager S)
      → let (result, m') = install_all rest cs lb pl m in
        (m'.sent ≡ posted lb pl cs m.sent)
        × ((refusals rest m'.sent ≡ refusals rest m.sent + result.1)
            × (has_value (refused (length cs) result)
                ≡ (not (is_empty cs) && leb (length cs) result.1)))
  unfolding refused install_all
  install_all-refused [] lb pl m = (refl, (omega arith, refl))
  install_all-refused (c ∷ cs) lb pl m =
      let (counts, (some_error, log)) = install_all_counts (c ∷ cs) lb pl m in
      (
        log,
        (counts, refused-has_value (length cs) (install_all rest (c ∷ cs) lb pl m).0 some_error),
      )
