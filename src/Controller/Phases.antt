-- ===== src/Controller/Phases.antt =====
-- The phase loop at the end of `reconcileNormal`.
pub mod Laws
use cluster_api_provider_hos.Prelude.{
  String, List, [], ◌∷◌, ◌*◌, ◌==◌, if◌then◌else◌, ◌<>◌, string_eq,
}
use cluster_api_provider_hos.Prelude.Exec.{Exec, Error, Result, ok, err, error_text}
use cluster_api_provider_hos.Api.{
  Cluster, Condition, condition_true, condition_false, second, minute,
}
use cluster_api_provider_hos.Controller.State.{
  State, CtrlResult, ConditionStore, conditions, set_conditions,
}

-- A phase: its reconciler answers an error, or why it is not ready, "" if it is.
pub record Phase (Q W : Type 0) : Type 0 where
  pub name : String
  pub reconcile : Cluster → Exec (State Q W) String
  pub condition : String
  pub failed_reason : String

abbrev pub requeue : CtrlResult
requeue = record { requeue_after = 1 * minute }

abbrev pub requeue_soon : CtrlResult
requeue_soon = record { requeue_after = 10 * second }

module _ {Q W : Type 0} (store : ConditionStore) where
  -- `conditions.Set(hostedControlPlane, …)`.
  unfoldable pub set_condition : Condition → State Q W → State Q W
  set_condition c s = set_conditions s (store.set c (conditions s))

  unfoldable pub phase_failed : Phase Q W → Error → Condition
  phase_failed p e = record {
    type = p.condition;
    status = condition_false;
    reason = p.failed_reason;
    message = "Reconciling phase " <> p.name <> " failed: " <> error_text e;
  }

  unfoldable pub phase_not_ready : Phase Q W → String → Condition
  phase_not_ready p reason = record {
    type = p.condition;
    status = condition_false;
    reason = reason;
    message = "phase " <> p.name <> " not ready";
  }

  unfoldable pub phase_succeeded : Phase Q W → Condition
  phase_succeeded p = record {
    type = p.condition;
    status = condition_true;
    reason = "ReconcileSucceeded";
    message = "Management phase " <> p.name <> " reconciled successfully";
  }

  -- The `switch` on the answer of a phase; `rest` is the loop over the phases after it.
  unfoldable pub after_phase :
      Phase Q W → Result String → Exec (State Q W) CtrlResult → Exec (State Q W) CtrlResult
  after_phase p (err e) rest s = (err e, set_condition (phase_failed p e) s)
  after_phase p (ok reason) rest s =
      if reason == ""
      then rest (set_condition (phase_succeeded p) s)
      else (ok requeue_soon, set_condition (phase_not_ready p reason) s)

  -- `for _, phase := range phases`.
  unfoldable pub run_phases : List (Phase Q W) → Cluster → Exec (State Q W) CtrlResult
  run_phases [] cluster s = (ok requeue, s)
  run_phases (p ∷ ps) cluster s =
      let (r, s') = p.reconcile cluster s in after_phase p r (run_phases ps cluster) s'
