-- ===== src/Reconcilers/StatefulSet.antt =====
-- `reconcileStatefulset`, `isStatefulsetReady` and `createStatefulsetMutator` of
-- pkg/reconcilers/reconciler.go. `V` stands for the template of a volume claim.
pub mod Laws
use cluster_api_provider_hos.Prelude.{
  ℕ, ◌+◌, ◌/◌, ◌<◌, String, Bool, true, false, Option, none, some, List, [], ◌∷◌, ◌++◌, arith, ◌==◌,
  string_eq, nat_eq, Eq, option_eq, if◌then◌else◌, ◌<>◌, leb,
}
use cluster_api_provider_hos.Prelude.Exec.{
  Error, new, wrap, Result, ok, err, Exec, pure, fail, wrapping, ◌>>=◌, ◌>>◌,
}
use cluster_api_provider_hos.Prelude.Exec.{attempt}
use cluster_api_provider_hos.Prelude.Sorting.{assign}
use cluster_api_provider_hos.Objects.{Labels, OwnerReference, PodTemplateSpec}
use cluster_api_provider_hos.Reconcilers.{nil_pointer}
use cluster_api_provider_hos.Reconcilers.Policies.{slashed}
use cluster_api_provider_hos.Reconcilers.Resources.{
  max_unavailable_type, reconcile_pod_disruption_budget,
}
use cluster_api_provider_hos.Reconcilers.Selectors.{Chosen, choose_labels, waits}
use cluster_api_provider_hos.Reconcilers.Workload.{
  Kubernetes, WorkloadKind, Workload, with_labels, with_spread, reconcile_workload, budget_mode,
  owned_by,
}

-- What the caller says of a stateful set beside its pods.
pub record StatefulSetOptions (V : Type 0) : Type 0 where
  pub service_name : String
  pub pod_management_policy : String
  pub max_unavailable : ℕ  -- of the rolling update
  pub replicas : ℕ
  pub volume_claim_templates : List V
  pub when_deleted : String  -- of `VolumeClaimRetentionPolicy`
  pub when_scaled : String

pub record StatefulSetSpec (T V : Type 0) : Type 0 where
  pub selector : Labels
  pub template : Option (PodTemplateSpec T)
  pub options : Option (StatefulSetOptions V)

pub record StatefulSetApply (T V : Type 0) : Type 0 where
  pub name : String
  pub namespace : String
  pub labels : Labels
  pub owner_references : List OwnerReference
  pub spec : Option (StatefulSetSpec T V)

-- A stored stateful set, as far as it is read.
pub record StatefulSet : Type 0 where
  pub name : String
  pub uid : String
  pub selector : Labels
  pub pod_labels : Labels  -- of its template
  pub available_replicas : ℕ

pub record StatefulSetClient (S T V : Type 0) : Type 0 where
  pub get : String → Exec S StatefulSet
  pub apply : StatefulSetApply T V → Exec S StatefulSet
  pub delete : String → String → Exec S (Unit {0})

abbrev pub label_change : Error
label_change = new "statefulset: cannot change pod template label values"

unfoldable pub is_statefulset_ready : StatefulSet → Bool
is_statefulset_ready statefulset = leb 1 statefulset.available_replicas

module _ {T V : Type 0} where
  abbrev pub on_spec :
      (StatefulSetSpec T V → StatefulSetSpec T V) → StatefulSetApply T V → StatefulSetApply T V
  on_spec f statefulset = record statefulset {
    spec = elim statefulset.spec [ none ↦ none | some spec ↦ some (f spec) ];
  }

  unfoldable pub create_statefulset_mutator :
      StatefulSetOptions V → StatefulSetApply T V → StatefulSetApply T V
  create_statefulset_mutator options = on_spec (λ spec. record spec { options = some options })

  -- The second mutation: the labels of the pods are put over those of the selector.
  unfoldable pub label_mutator : Labels → StatefulSetApply T V → StatefulSetApply T V
  label_mutator labels = on_spec (λ spec. record spec {
    template = elim spec.template [
      | none ↦ none
      | some template ↦ some (with_labels template labels)
    ];
  })

unfoldable pub statefulset_kind :
    {S T V : Type 0}
    → StatefulSetClient S T V
    → WorkloadKind S (StatefulSetApply T V) (StatefulSetSpec T V) StatefulSet T
unfolding is_statefulset_ready
statefulset_kind client = record {
  apply = client.apply;
  delete = client.delete;
  api_version = "apps/v1";
  kind = "StatefulSet";
  propagation_policy = "Orphan";
  create_resource = λ name namespace. record {
    name = name;
    namespace = namespace;
    labels = [];
    owner_references = [];
    spec = none;
  };
  create_spec = record { selector = []; template = none; options = none };
  set_owner_reference = λ resource owner. record resource {
    owner_references = resource.owner_references ++ (owner ∷ []);
  };
  set_spec = λ resource spec. record resource { spec = some spec };
  set_labels = λ resource labels. record resource { labels = assign resource.labels labels };
  set_spec_selector = λ spec labels. record spec { selector = labels };
  set_spec_template = λ spec template. record spec { template = some template };
  get_uid = λ statefulset. statefulset.uid;
  readiness_check = is_statefulset_ready;
}

module _ {S T V : Type 0} (k : Kubernetes S) (client : StatefulSetClient S T V) (w : Workload T)
    (options : StatefulSetOptions V) where
  unfoldable pub statefulset_budget : Labels → StatefulSet → Exec S (Option StatefulSet × Bool)
  statefulset_budget labels statefulset = do
    wrapping
        ("failed to reconcile pod disruption budget for statefulset " <> slashed w.namespace w.name)
        (reconcile_pod_disruption_budget k.errors k.budgets w.namespace w.name
          (some (owned_by "StatefulSet" statefulset.name statefulset.uid)) labels
          (budget_mode max_unavailable_type options.replicas))
    pure (some statefulset, true)

  unfoldable pub statefulset_ready :
      Labels → Option StatefulSet × Bool → Exec S (Option StatefulSet × Bool)
  unfolding statefulset_budget
  statefulset_ready labels (statefulset, false) = pure (none, false)
  statefulset_ready labels (none, true) = fail nil_pointer
  statefulset_ready labels (some statefulset, true) = statefulset_budget labels statefulset

  unfoldable pub chosen_mutators : Chosen → List (StatefulSetApply T V → StatefulSetApply T V)
  unfolding create_statefulset_mutator label_mutator
  chosen_mutators chosen = create_statefulset_mutator options ∷ label_mutator chosen.pods ∷ []

  -- The workload with the chosen labels.
  unfoldable pub reconcile_chosen : Bool → Chosen → Exec S (Option StatefulSet × Bool)
  unfolding reconcile_workload statefulset_kind chosen_mutators with_spread statefulset_ready
  reconcile_chosen delete_resource chosen = do
    result ← wrapping ("failed to reconcile statefulset " <> slashed w.namespace w.name) (
        reconcile_workload k (statefulset_kind client)
          (record w { labels = chosen.selector; template = with_spread w.template chosen.pods })
          delete_resource (chosen_mutators chosen))
    statefulset_ready chosen.pods result

  unfoldable pub reconcile_existing :
      Bool → StatefulSet → Option Chosen → Exec S (Option StatefulSet × Bool)
  unfolding reconcile_chosen waits
  reconcile_existing delete_resource existing none =
      fail (wrap ("statefulset " <> slashed w.namespace w.name) label_change)
  reconcile_existing delete_resource existing (some chosen) =
      if waits existing.selector chosen (is_statefulset_ready existing)
      then pure (none, false)
      else reconcile_chosen delete_resource chosen

  unfoldable pub after_get : Bool → Result StatefulSet → Exec S (Option StatefulSet × Bool)
  unfolding reconcile_existing choose_labels
  after_get delete_resource (ok existing) =
      reconcile_existing delete_resource existing
        (choose_labels w.labels existing.pod_labels existing.selector)
  after_get delete_resource (err e) =
      if k.errors.is_not_found e
      then reconcile_chosen delete_resource (record { selector = w.labels; pods = w.labels })
      else fail (wrap ("failed to get existing statefulset " <> slashed w.namespace w.name) e)

  unfoldable pub reconcile_statefulset : Bool → Exec S (Option StatefulSet × Bool)
  unfolding after_get
  reconcile_statefulset delete_resource = do
    existing ← attempt (client.get w.name)
    after_get delete_resource existing
