-- ===== src/Reconcilers/Workload.antt =====
-- `reconcileWorkload` of pkg/reconcilers/reconciler.go.
pub mod Laws
use cluster_api_provider_hos.Prelude.{
  ℕ, ◌+◌, ◌*◌, ◌/◌, ◌<◌, String, Bool, true, false, ◌&&◌, Option, none, some, List, [], ◌∷◌, ◌++◌,
  arith, ◌==◌, string_eq, nat_eq, Eq, option_eq, if◌then◌else◌, ◌<>◌, ltb,
}
use cluster_api_provider_hos.Prelude.Exec.{
  Error, wrap, Result, ok, err, Exec, pure, fail, wrapping, ◌>>=◌, ◌>>◌,
}
use cluster_api_provider_hos.Prelude.Exec.{attempt}
use cluster_api_provider_hos.Prelude.Sorting.{assign}
use cluster_api_provider_hos.Objects.{
  Labels, OwnerReference, PodTemplateSpec, create_pod_topology_spread_constraints,
}
use cluster_api_provider_hos.NetworkPolicy.{IngressTarget, EgressTarget}
use cluster_api_provider_hos.Checksum.{Data, set_checksum_annotations}
use cluster_api_provider_hos.Reconcilers.{ApiErrors, Cause, all_causes, delete_if_found}
use cluster_api_provider_hos.Reconcilers.Rules.{PortTargets}
use cluster_api_provider_hos.Reconcilers.Policies.{PolicyClients, slashed, reconcile_network_policy}
use cluster_api_provider_hos.Reconcilers.Pod.{validate_mounts}
use cluster_api_provider_hos.Reconcilers.Resources.{
  BudgetClient, PodDisruptionBudgetMode, BudgetType,
}

-- The clients of one namespace, and the hash of the checksums.
pub record Kubernetes (S : Type 0) : Type 0 where
  pub errors : ApiErrors
  pub md5_hex : String → String
  pub get_secret : String → Exec S Data
  pub get_config_map : String → Exec S (Data × Data)
  pub policies : PolicyClients S
  pub budgets : BudgetClient S

-- The parameters of `reconcileWorkload` that depend on the kind of the resource: `RA` is its apply
-- configuration, `RSA` that of its specification, `R` what the API server answers.
pub record WorkloadKind (S RA RSA R T : Type 0) : Type 0 where
  pub apply : RA → Exec S R
  pub delete : String → String → Exec S (Unit {0})  -- with the propagation policy
  pub api_version : String
  pub kind : String
  pub propagation_policy : String
  pub create_resource : String → String → RA
  pub create_spec : RSA
  pub set_owner_reference : RA → OwnerReference → RA
  pub set_spec : RA → RSA → RA
  pub set_labels : RA → Labels → RA
  pub set_spec_selector : RSA → Labels → RSA
  pub set_spec_template : RSA → PodTemplateSpec T → RSA
  pub get_uid : R → String
  pub readiness_check : R → Bool

-- What the caller says of the workload.
pub record Workload (T : Type 0) : Type 0 where
  pub namespace : String
  pub name : String
  pub owner_reference : Option OwnerReference
  pub labels : Labels
  pub ingress_targets : Option (PortTargets IngressTarget)
  pub egress_targets : Option (PortTargets EgressTarget)
  pub template : PodTemplateSpec T

abbrev pub workload_spec_forbidden : String
workload_spec_forbidden = "Forbidden: updates to \\S+ spec for fields other than .* are forbidden"

unfoldable pub refused_spec : ApiErrors → Error → Bool
unfolding all_causes
refused_spec errors = all_causes errors (λ (cause : Cause).
    cause.type == "FieldValueForbidden"
    && cause.field == "spec"
    && errors.match_string workload_spec_forbidden cause.message)

-- `for _, mutateFunc := range mutateFuncs`.
unfoldable pub mutated : {RA : Type 0} → List (RA → RA) → RA → RA
mutated [] resource = resource
mutated (f ∷ fs) resource = mutated fs (f resource)

abbrev pub with_labels : {T : Type 0} → PodTemplateSpec T → Labels → PodTemplateSpec T
with_labels template labels = record template { labels = assign template.labels labels }

-- `WithTopologySpreadConstraints` on the specification of a template.
unfoldable pub with_spread : {T : Type 0} → PodTemplateSpec T → Labels → PodTemplateSpec T
with_spread template labels = record template {
  spec = record template.spec {
    topology_spread_constraints =
        template.spec.topology_spread_constraints
        ++ (create_pod_topology_spread_constraints labels ∷ []);
  };
}

abbrev pub budget_mode : BudgetType → ℕ → PodDisruptionBudgetMode
budget_mode type replicas = record { type = type; value = if ltb 1 replicas then 1 else 0 }

abbrev pub owned_by : String → String → String → OwnerReference
owned_by kind name uid = record {
  api_version = "apps/v1";
  kind = kind;
  name = name;
  uid = uid;
  controller = true;
  block_owner_deletion = true;
}

module _ {S RA RSA R T : Type 0} (k : Kubernetes S) (kind : WorkloadKind S RA RSA R T) where
  abbrev pub described : Workload T → String
  described w = kind.kind <> " " <> w.name

  -- The apply configuration behind the mutations.
  unfoldable pub workload_configuration : Workload T → PodTemplateSpec T → List (RA → RA) → RA
  unfolding mutated
  workload_configuration w template mutate_funcs =
      let resource = kind.create_resource w.name w.namespace in
      let owned : RA = elim w.owner_reference [
        | none ↦ resource
        | some owner ↦ kind.set_owner_reference resource owner
      ] in
      let labelled = kind.set_labels owned w.labels in
      let spec =
        kind.set_spec_template (kind.set_spec_selector kind.create_spec w.labels) template in
      mutated mutate_funcs (kind.set_spec labelled spec)

  unfoldable pub after_applied : Workload T → R → Exec S (Option R × Bool)
  after_applied w applied = do
    wrapping
        ("failed to reconcile network policy for "
          <> kind.kind
          <> " "
          <> slashed w.namespace w.name)
        (reconcile_network_policy k.errors k.policies w.namespace w.name
          (some (record {
            api_version = kind.api_version;
            kind = kind.kind;
            name = w.name;
            uid = kind.get_uid applied;
            controller = true;
            block_owner_deletion = true;
          }))
          w.labels w.ingress_targets w.egress_targets)
    pure (some applied, kind.readiness_check applied)

  -- What follows `Apply`. A resource whose specification cannot be changed is deleted, and is
  -- created by a later reconciliation.
  unfoldable pub after_apply : Workload T → Result R → Exec S (Option R × Bool)
  unfolding after_applied refused_spec
  after_apply w (ok applied) = after_applied w applied
  after_apply w (err e) =
      if refused_spec k.errors e
      then wrapping ("failed to delete existing " <> described w)
          (kind.delete w.name kind.propagation_policy)
        >> pure (none, false)
      else fail (wrap ("failed to apply " <> described w) e)

  -- What follows `ValidateMounts`.
  unfoldable pub apply_valid :
      Workload T → List (RA → RA) → PodTemplateSpec T → Result (Unit {0}) → Exec S (Option R × Bool)
  unfolding workload_configuration after_apply
  apply_valid w mutate_funcs template (err e) =
      fail (wrap (described w <> " has mounts without corresponding volume") e)
  apply_valid w mutate_funcs template (ok _) = do
    applied ← attempt (kind.apply (workload_configuration w template mutate_funcs))
    after_apply w applied

  unfoldable pub apply_workload :
      Workload T → List (RA → RA) → PodTemplateSpec T → Exec S (Option R × Bool)
  unfolding apply_valid
  apply_workload w mutate_funcs template =
      apply_valid w mutate_funcs template (validate_mounts template.spec)

  -- The resource, and whether it is ready; a nil resource is `none`.
  unfoldable pub reconcile_workload : Workload T → Bool → List (RA → RA) → Exec S (Option R × Bool)
  unfolding apply_workload
  reconcile_workload w delete_resource mutate_funcs =
      if delete_resource
      then delete_if_found k.errors ("failed to delete " <> described w)
          (kind.delete w.name kind.propagation_policy)
        >> pure (none, true)
      else do
        template ← wrapping ("failed to set checksum annotations on " <> described w) (
            set_checksum_annotations k.md5_hex k.get_secret k.get_config_map
              (with_labels w.template w.labels))
        apply_workload w mutate_funcs template
