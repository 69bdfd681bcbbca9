-- ===== src/Scenarios/Workloads.antt =====
-- A stateful set, a deployment and their policies, pods and Secrets, at concrete answers.
use cluster_api_provider_hos.Prelude.{
  ℕ, suc, ◌≤◌, String, ◌≡◌, refl, sym, ◌∙◌, ◌⊎◌, inl, inr, Bool, true, false, Option, none, some,
  [], ◌∷◌, ◌==◌, string_eq, nat_eq, some_inj, option_eq, Bool-cases, filter, some_by, flat_map,
}
use cluster_api_provider_hos.Prelude.Exec.{Result, ok, err, ◌>>=◌}
use cluster_api_provider_hos.Prelude.Sorting.Laws.{IsMap}
use cluster_api_provider_hos.Prelude.Sorting.{lookup, assign}
use cluster_api_provider_hos.Objects.{Labels, PodTemplateSpec}
use cluster_api_provider_hos.Reconcilers.{ApiErrors, nil_pointer, delete_if_found}
use cluster_api_provider_hos.Reconcilers.Policies.{
  PolicyClients, CiliumClient, StoredPolicy, reconcile_network_policy,
  reconcile_cilium_network_policy, check_conditions, create_or_update, is_invalid,
}
use cluster_api_provider_hos.Reconcilers.Workload.{Kubernetes, Workload}
use cluster_api_provider_hos.Reconcilers.Deployment.{
  reconcile_deployment, Deployment, DeploymentClient, DeploymentApply,
}
use cluster_api_provider_hos.Reconcilers.Selectors.{Chosen, choose_labels, waits, elements_match}
use cluster_api_provider_hos.Reconcilers.Selectors.Laws.{
  Selects, all_wanted, choose_labels-reaches, choose_labels-keeps_value,
}
use cluster_api_provider_hos.Reconcilers.StatefulSet.Laws.{Configured, reconcile_statefulset-ok}
use cluster_api_provider_hos.Reconcilers.Deployment.Laws.{
  reconcile_deployment-ok, reconcile_deployment-nil_deployment,
}
use cluster_api_provider_hos.Reconcilers.StatefulSet.{
  StatefulSet, StatefulSetClient, StatefulSetOptions, reconcile_statefulset,
}
use cluster_api_provider_hos.Reconcilers.Pod.{validate_mounts}
use cluster_api_provider_hos.Reconcilers.Resources.{reconcile_pod_disruption_budget}
use cluster_api_provider_hos.Checksum.{
  set_checksum_annotations, extract_secret_names, extract_config_map_names,
}
use cluster_api_provider_hos.Reconcilers.Policies.Laws.{Stored, reconcile_cilium_network_policy-ok}

abbrev nothing_wrong : ApiErrors
nothing_wrong = record {
  is_not_found = λ e. true;
  invalid_causes = λ e. none;
  match_string = λ pattern text. false;
}

abbrev done : ℕ → Result (Unit {0}) × ℕ
done calls = (ok tt, suc calls)

abbrev stored : StoredPolicy
stored = record { resource_version = "7"; conditions = [] }

abbrev cilium_client : CiliumClient ℕ
cilium_client = record {
  delete = λ name. done;
  get = λ name calls. (ok stored, suc calls);
  create = λ policy calls. (ok stored, suc calls);
  update = λ policy calls. (ok stored, suc calls);
}

abbrev policies : Option (CiliumClient ℕ) → PolicyClients ℕ
policies cilium = record { delete = λ name. done; apply = λ policy. done; cilium = cilium }

abbrev kubernetes : Kubernetes ℕ
kubernetes = record {
  errors = nothing_wrong;
  md5_hex = λ text. text;
  get_secret = λ name calls. (ok [], suc calls);
  get_config_map = λ name calls. (ok ([], []), suc calls);
  policies = policies (some cilium_client);
  budgets = record { apply = λ budget. done; delete = λ name. done };
}

abbrev etcd_labels : Labels
etcd_labels = ("app", "etcd") ∷ ("tier", "store") ∷ []

abbrev old_labels : Labels
old_labels = ("app", "etcd") ∷ []

abbrev template : PodTemplateSpec ℕ
template = record {
  labels = [];
  annotations = [];
  spec = record {
    automount_service_account_token = false;
    service_account_name = "";
    priority_class_name = "";
    enable_service_links = false;
    tolerations = [];
    affinity = none;
    dns_policy = "";
    host_network = false;
    init_containers = [];
    containers = [];
    run_as_user = 1000;
    run_as_group = 1000;
    run_as_non_root = true;
    fs_group = 1000;
    volumes = [];
    topology_spread_constraints = [];
  };
}

abbrev etcd : Workload ℕ
etcd = record {
  namespace = "team";
  name = "demo-etcd";
  owner_reference = none;
  labels = etcd_labels;
  ingress_targets = none;
  egress_targets = none;
  template = template;
}

abbrev options : StatefulSetOptions ℕ
options = record {
  service_name = "demo-etcd";
  pod_management_policy = "Parallel";
  max_unavailable = 1;
  replicas = 3;
  volume_claim_templates = [];
  when_deleted = "Delete";
  when_scaled = "Delete";
}

abbrev existing : StatefulSet
existing = record {
  name = "demo-etcd";
  uid = "u";
  selector = old_labels;
  pod_labels = old_labels;
  available_replicas = 3;
}

abbrev sets : StatefulSetClient ℕ ℕ ℕ
sets = record {
  get = λ name calls. (ok existing, suc calls);
  apply = λ configuration calls. (ok existing, suc calls);
  delete = λ name propagation. done;
}

old_labels-IsMap : IsMap old_labels
unfolding lookup
old_labels-IsMap = (refl, tt)

etcd_labels-IsMap : IsMap etcd_labels
unfolding lookup
etcd_labels-IsMap = (refl, (refl, tt))

itself : Selects old_labels old_labels
itself key value found = found

agree :
    (key v w : String) → lookup key etcd_labels ≡ some v → lookup key old_labels ≡ some w → v ≡ w
unfolding lookup
agree key v w wanted running = elim (Bool-cases ("app" == key)) [
  | inl hit ↦ some_inj v w (sym (rw hit at wanted) ∙ rw hit at running)
  | inr miss ↦ cc (rw miss at running)
]

choose_labels-reaches_example :
    (chosen : Chosen) × (choose_labels etcd_labels old_labels old_labels ≡ some chosen)
    × (choose_labels etcd_labels chosen.pods chosen.selector ≡ some (all_wanted etcd_labels))
    × (choose_labels etcd_labels etcd_labels etcd_labels ≡ some (all_wanted etcd_labels))
    × ((ready : Bool) → waits etcd_labels (all_wanted etcd_labels) ready ≡ false)
choose_labels-reaches_example =
    choose_labels-reaches etcd_labels old_labels old_labels etcd_labels-IsMap old_labels-IsMap
      old_labels-IsMap itself agree

abbrev renamed : Labels
renamed = ("app", "store") ∷ []

renamed-IsMap : IsMap renamed
unfolding lookup
renamed-IsMap = (refl, tt)

looked_up : (lookup "app" renamed ≡ some "store") × (lookup "app" old_labels ≡ some "etcd")
unfolding lookup
looked_up = (refl, refl)

choose_labels-keeps_value_example :
    (choose_labels renamed old_labels old_labels
      ≡ some (record { selector = old_labels; pods = assign renamed old_labels }))
    × (lookup "app" (assign renamed old_labels) ≡ some "etcd")
choose_labels-keeps_value_example =
    choose_labels-keeps_value renamed old_labels old_labels renamed-IsMap old_labels-IsMap
      old_labels-IsMap itself "app" "store" "etcd" looked_up.0 looked_up.1 (λ p. cc p)

set_reconciled :
    reconcile_statefulset kubernetes sets etcd options false 0 ≡ (ok (some existing, true), 5)
unfolding ◌>>=◌ assign lookup filter some_by reconcile_statefulset set_checksum_annotations
    extract_secret_names flat_map extract_config_map_names validate_mounts reconcile_network_policy
    delete_if_found reconcile_pod_disruption_budget
set_reconciled = refl

reconcile_statefulset-ok_example :
    (chosen : Chosen) × Configured kubernetes sets etcd options chosen existing
    × Selects chosen.selector existing.pod_labels
    × Selects chosen.selector chosen.pods
    × ((elements_match existing.selector chosen.selector ≡ true)
        ⊎ (1 ≤ existing.available_replicas))
reconcile_statefulset-ok_example =
    reconcile_statefulset-ok kubernetes sets etcd options existing 0 1 5 existing true refl
      etcd_labels-IsMap old_labels-IsMap old_labels-IsMap itself set_reconciled

abbrev running : Deployment
running = record {
  name = "demo-etcd";
  uid = "u";
  selector = old_labels;
  ready_replicas = 2;
  available_replicas = 2;
  updated_replicas = 2;
}

abbrev deployments : DeploymentClient ℕ ℕ
deployments = record {
  apply = λ configuration calls. (ok running, suc calls);
  delete = λ name propagation. done;
}

deployed : reconcile_deployment kubernetes deployments etcd 2 false 0 ≡ (ok (some running, true), 4)
unfolding ◌>>=◌ assign lookup filter some_by reconcile_deployment set_checksum_annotations
    extract_secret_names flat_map extract_config_map_names validate_mounts reconcile_network_policy
    delete_if_found reconcile_pod_disruption_budget
deployed = refl

reconcile_deployment-ok_example :
    (u v : ℕ) × (configuration : DeploymentApply ℕ) × (used : PodTemplateSpec ℕ)
    × (deployments.apply configuration u ≡ (ok running, v))
    × (configuration.spec
        ≡ some (record {
          selector = etcd_labels;
          template = some used;
          strategy = some ("RollingUpdate", 2);
          replicas = some 2;
        }))
    × (validate_mounts used.spec ≡ ok tt)
    × ((key value : String)
        → lookup key etcd_labels ≡ some value
        → lookup key used.labels ≡ some value)
    × (true ≡ true)
    × (1 ≤ running.available_replicas)
reconcile_deployment-ok_example =
    reconcile_deployment-ok kubernetes deployments etcd 2 0 4 running true deployed

reconcile_deployment-nil_deployment_example :
    reconcile_deployment kubernetes deployments etcd 2 true 0 ≡ (err nil_pointer, 1)
reconcile_deployment-nil_deployment_example =
    reconcile_deployment-nil_deployment kubernetes deployments etcd 2 0 (inl refl)

stored_policy :
    reconcile_cilium_network_policy nothing_wrong "demo-etcd" "team" none old_labels none none
      cilium_client 0
    ≡ (ok tt, 2)
unfolding reconcile_cilium_network_policy create_or_update check_conditions ◌>>=◌ filter
stored_policy = refl

reconcile_cilium_network_policy-ok_example :
    (policy : StoredPolicy) × Stored nothing_wrong "demo-etcd" "team" none old_labels none none
      cilium_client 0 2 policy
    × (filter is_invalid policy.conditions ≡ [])
reconcile_cilium_network_policy-ok_example =
    reconcile_cilium_network_policy-ok nothing_wrong "demo-etcd" "team" none old_labels none none
      cilium_client 0 2 stored_policy
