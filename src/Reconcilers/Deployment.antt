-- ===== src/Reconcilers/Deployment.antt =====
-- `reconcileDeployment` of pkg/reconcilers/reconciler.go, with `isDeploymentReady` and
-- `createDeploymentMutator`.
pub mod Laws
use cluster_api_provider_hos.Prelude.{
  ℕ, ◌+◌, ◌/◌, ◌<◌, String, Bool, true, false, Option, none, some, List, [], ◌∷◌, ◌++◌, arith, ◌==◌,
  string_eq, nat_eq, Eq, option_eq, if◌then◌else◌, ◌<>◌, leb,
}
use cluster_api_provider_hos.Prelude.Exec.{Exec, pure, fail, wrapping, ◌>>=◌, ◌>>◌}
use cluster_api_provider_hos.Prelude.Sorting.{assign}
use cluster_api_provider_hos.Objects.{Labels, OwnerReference, PodTemplateSpec}
use cluster_api_provider_hos.Reconcilers.{nil_pointer}
use cluster_api_provider_hos.Reconcilers.Policies.{slashed}
use cluster_api_provider_hos.Reconcilers.Resources.{
  min_available_type, reconcile_pod_disruption_budget,
}
use cluster_api_provider_hos.Reconcilers.Workload.{
  Kubernetes, WorkloadKind, Workload, with_spread, reconcile_workload, budget_mode, owned_by,
}

pub record DeploymentSpec (T : Type 0) : Type 0 where
  pub selector : Labels
  pub template : Option (PodTemplateSpec T)
  pub strategy : Option (String × ℕ)  -- its type, and `MaxSurge`
  pub replicas : Option ℕ

pub record DeploymentApply (T : Type 0) : Type 0 where
  pub name : String
  pub namespace : String
  pub labels : Labels
  pub owner_references : List OwnerReference
  pub spec : Option (DeploymentSpec T)

-- A stored deployment, as far as it is read.
pub record Deployment : Type 0 where
  pub name : String
  pub uid : String
  pub selector : Labels
  pub ready_replicas : ℕ
  pub available_replicas : ℕ
  pub updated_replicas : ℕ

unfoldable pub is_deployment_ready : Deployment → Bool
is_deployment_ready deployment = leb 1 deployment.available_replicas

unfoldable pub create_deployment_mutator : {T : Type 0} → ℕ → DeploymentApply T → DeploymentApply T
create_deployment_mutator replicas deployment = record deployment {
  spec = elim deployment.spec [
    | none ↦ none
    | some spec ↦
        some (record spec { strategy = some ("RollingUpdate", replicas); replicas = some replicas })
  ];
}

pub record DeploymentClient (S T : Type 0) : Type 0 where
  pub apply : DeploymentApply T → Exec S Deployment
  pub delete : String → String → Exec S (Unit {0})

unfoldable pub deployment_kind :
    {S T : Type 0}
    → DeploymentClient S T
    → WorkloadKind S (DeploymentApply T) (DeploymentSpec T) Deployment T
unfolding is_deployment_ready
deployment_kind client = record {
  apply = client.apply;
  delete = client.delete;
  api_version = "apps/v1";
  kind = "Deployment";
  propagation_policy = "Background";
  create_resource = λ name namespace. record {
    name = name;
    namespace = namespace;
    labels = [];
    owner_references = [];
    spec = none;
  };
  create_spec = record { selector = []; template = none; strategy = none; replicas = none };
  set_owner_reference = λ resource owner. record resource {
    owner_references = resource.owner_references ++ (owner ∷ []);
  };
  set_spec = λ resource spec. record resource { spec = some spec };
  set_labels = λ resource labels. record resource { labels = assign resource.labels labels };
  set_spec_selector = λ spec labels. record spec { selector = labels };
  set_spec_template = λ spec template. record spec { template = some template };
  get_uid = λ deployment. deployment.uid;
  readiness_check = is_deployment_ready;
}

module _ {S T : Type 0} (k : Kubernetes S) (client : DeploymentClient S T) (w : Workload T)
    (replicas : ℕ) where
  unfoldable pub deployment_budget : Deployment → Exec S (Option Deployment × Bool)
  deployment_budget deployment = do
    wrapping
        ("failed to reconcile pod disruption budget for deployment " <> slashed w.namespace w.name)
        (reconcile_pod_disruption_budget k.errors k.budgets w.namespace w.name
          (some (owned_by "Deployment" deployment.name deployment.uid)) w.labels
          (budget_mode min_available_type replicas))
    pure (some deployment, true)

  -- Behind the workload: a nil one, which is left by a deletion, has no name to read.
  unfoldable pub deployment_ready : Option Deployment × Bool → Exec S (Option Deployment × Bool)
  unfolding deployment_budget
  deployment_ready (deployment, false) = pure (none, false)
  deployment_ready (none, true) = fail nil_pointer
  deployment_ready (some deployment, true) = deployment_budget deployment

  unfoldable pub reconcile_deployment : Bool → Exec S (Option Deployment × Bool)
  unfolding reconcile_workload deployment_kind create_deployment_mutator deployment_ready
      with_spread
  reconcile_deployment delete_resource = do
    result ← wrapping ("failed to reconcile deployment " <> slashed w.namespace w.name) (
        reconcile_workload k (deployment_kind client)
          (record w { template = with_spread w.template w.labels }) delete_resource
          (create_deployment_mutator replicas ∷ []))
    deployment_ready result
