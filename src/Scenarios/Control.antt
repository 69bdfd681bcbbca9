-- ===== src/Scenarios/Control.antt =====
-- The controller's theorems at concrete reconcilers, and at phases that wait or fail.
use cluster_api_provider_hos.Api.{Cluster, HostedControlPlane, Mount, Condition, condition_true}
use cluster_api_provider_hos.Prelude.{
  ℕ, String, ◌≡◌, refl, sym, subst, ◌⊎◌, inl, inr, Bool, true, false, none, some, List, [], ◌∷◌,
  ◌++◌, ◌==◌, string_eq, nat_eq, some_inj, option_eq, if◌then◌else◌, Bool-cases, filter, some_by,
  All,
}
use cluster_api_provider_hos.Prelude.Exec.{new, Result, ok, err, ◌>>=◌}
use cluster_api_provider_hos.Prelude.Int.{ℤ}
use cluster_api_provider_hos.Scenarios.{resource, owner, start}
use cluster_api_provider_hos.Controller.State.{State, listed_conditions, conditions, get_condition}
use cluster_api_provider_hos.Controller.Phases.{
  Phase, requeue, requeue_soon, set_condition, phase_failed, phase_not_ready, phase_succeeded,
  after_phase, run_phases,
}
use cluster_api_provider_hos.Controller.Phases.Laws.{
  Ran, get-set_condition_ne, run_phases-ready, run_phases-failed, run_phases-not_ready,
}
use cluster_api_provider_hos.Controller.Normal.{Reconcilers, Environment, reconcile_normal}
use cluster_api_provider_hos.Controller.Normal.Flags.{flags, KeepFlags, ReadyNeedsInit}
use cluster_api_provider_hos.Controller.Normal.Ready.{EnvironmentKeepsFlags, reconcile_normal-ready}
use cluster_api_provider_hos.Controller.Patch.{
  Patching, patch, summarize, applicable_conditions, normalized,
}
use cluster_api_provider_hos.Controller.Reconcile.{
  HostedControlPlaneReconciler, found, is_deleted, work, done, reconcile_patched,
  managed_externally, observed, deferred_patch, reconcile_delete, joined, remove_finalizer,
  reconcile_found, reconcile_owned, passes_filter, unless_paused, reconcile_active, add_finalizer,
  wait_for_owner,
}
use cluster_api_provider_hos.Controller.Reconcile.Deletion.{Answered, reconcile_found-Deleted}
use cluster_api_provider_hos.Controller.Reconcile.Laws.{reconcile_patched-ok}
use cluster_api_provider_hos.Controller.Mapping.{Reader, config_map_to_hosted_control_plane}
use cluster_api_provider_hos.Controller.Mapping.Laws.{config_map_to_hosted_control_plane-cases}

abbrev W : Type 0
W = Unit

abbrev fixed_phase : String → Result String → Phase ℤ W
fixed_phase condition answer = record {
  name = condition;
  reconcile = λ c s. (answer, s);
  condition = condition;
  failed_reason = "Failed";
}

abbrev good : List (Phase ℤ W)
good = fixed_phase "A" (ok "") ∷ fixed_phase "B" (ok "") ∷ []

abbrev after_good : State ℤ W
after_good =
    set_condition listed_conditions (phase_succeeded listed_conditions (fixed_phase "B" (ok ""))) (
      set_condition listed_conditions (phase_succeeded listed_conditions (fixed_phase "A" (ok "")))
        start)

good_runs : run_phases listed_conditions good owner start ≡ (ok requeue, after_good)
unfolding run_phases after_phase
good_runs = refl

-- The conditions of the workload phases, which the last phase sets beside its own.
abbrev rbac_ready : Condition
rbac_ready = record {
  type = "WorkloadRBACReady";
  status = condition_true;
  reason = "ReconcileSucceeded";
  message = "Workload phase RBAC reconciled successfully";
}

abbrev setup : List (Phase ℤ W)
setup =
    fixed_phase "CARotationAnnotationReady" (ok "")
    ∷ record {
      name = "workload cluster resources";
      reconcile = λ c s. (ok "", set_condition listed_conditions rbac_ready s);
      condition = "WorkloadSetupReady";
      failed_reason = "WorkloadSetupFailed";
    }
    ∷ []

setup_runs :
    run_phases listed_conditions setup owner start
    ≡ (ok requeue, (run_phases listed_conditions setup owner start).1)
unfolding run_phases after_phase
setup_runs = refl

run_phases-ready_example :
    Ran listed_conditions setup owner start (run_phases listed_conditions setup owner start).1
    × All
        (λ p.
          get_condition p.condition (conditions (run_phases listed_conditions setup owner start).1)
          ≡ some (phase_succeeded listed_conditions p))
        setup
run_phases-ready_example =
    run_phases-ready listed_conditions setup owner start
      (run_phases listed_conditions setup owner start).1 setup_runs
      (
        (
          (λ c s.
              get-set_condition_ne listed_conditions "CARotationAnnotationReady" rbac_ready s refl),
          tt,
        ),
        (tt, tt),
      )
      ((refl, tt), (tt, tt))

abbrev broken : Phase ℤ W
broken = fixed_phase "C" (err (new "boom"))

run_phases-failed_example : run_phases listed_conditions (good ++ broken ∷ good) owner start ≡ (
  err (new "boom"),
  set_condition listed_conditions (phase_failed listed_conditions broken (new "boom")) after_good,
)
run_phases-failed_example =
    run_phases-failed listed_conditions good good broken owner start after_good after_good
      (new "boom") good_runs refl

abbrev waiting : Phase ℤ W
waiting = fixed_phase "C" (ok "not yet")

run_phases-not_ready_example : run_phases listed_conditions (good ++ waiting ∷ good) owner start ≡ (
  ok requeue_soon,
  set_condition listed_conditions (phase_not_ready listed_conditions waiting "not yet") after_good,
)
run_phases-not_ready_example =
    run_phases-not_ready listed_conditions good good waiting owner start after_good after_good
      "not yet" good_runs refl (λ p. cc p)

abbrev ready_reconcilers : Reconcilers ℤ W
ready_reconcilers = record {
  ca_certificates = λ c s. (ok "", s);
  ca_bundles = λ c s. (ok "", s);
  api_server_service = λ c s. (ok "", s);
  sync_control_plane_endpoint = λ c s. (ok "", s);
  tls_routes = λ c s. (ok "", s);
  certificates = λ c s. (ok "", s);
  etcd_cluster = λ c s. (ok "", s);
  internal_kubeconfigs = λ c s. (ok tt, s);
  api_server_deployments = λ c s. (ok "", s);
  kubernetes_service = λ c s. (ok "", s);
  admin_kubeconfig = λ c s. (ok tt, s);
  ca_rotation = λ c s. (ok tt, s);
  workload_cluster_resources = λ c s. (ok "workload", s);
}

abbrev environment : Environment ℤ W
environment = record {
  Net = String;
  Ip = ℕ;
  Cilium = Unit;
  ipv4_net = λ a b c d bits. "10.96.0.0/12";
  net_text = λ n. n;
  parse_cidr = λ t. ok t;
  get_indexed_ip = λ n i. ok i;
  server_groups = λ s. (ok ("apps" ∷ []), s);
  cilium_client = λ s. (ok none, s);
  new_reconcilers = λ a. ready_reconcilers;
}

ready_keep : KeepFlags ready_reconcilers
ready_keep = record {
  ca_certificates = λ c s. refl;
  ca_bundles = λ c s. refl;
  api_server_service = λ c s. refl;
  sync_control_plane_endpoint = λ c s. refl;
  tls_routes = λ c s. refl;
  certificates = λ c s. refl;
  etcd_cluster = λ c s. refl;
  internal_kubeconfigs = λ c s. refl;
  api_server_deployments = λ c s. refl;
  kubernetes_service = λ c s. refl;
  admin_kubeconfig = λ c s. refl;
  ca_rotation = λ c s. refl;
  workload_cluster_resources = λ c s. refl;
}

environment_keeps : EnvironmentKeepsFlags environment
environment_keeps = record {
  server_groups = λ s. refl;
  cilium_client = λ s. refl;
  reconcilers = λ a. ready_keep;
}

start_ready : ReadyNeedsInit (flags start)
start_ready h = cc

reconcile_normal-ready_example :
    ReadyNeedsInit (flags (reconcile_normal listed_conditions environment owner start).1)
reconcile_normal-ready_example =
    reconcile_normal-ready listed_conditions environment owner environment_keeps start start_ready

abbrev patching : Patching ℤ W
patching = record {
  Helper = Unit;
  pascal_case = λ t. t;
  set_summary = λ types s. (ok tt, s);
  new_helper = λ s. (ok tt, s);
  send = λ h types s. (ok tt, s);
}

patch_runs : patch patching tt after_good ≡ (ok tt, (patch patching tt after_good).1)
unfolding patch ◌>>=◌ summarize applicable_conditions filter set_condition normalized
    phase_succeeded
patch_runs = refl

abbrev reconciler : HostedControlPlaneReconciler ℤ W
reconciler = record {
  store = listed_conditions;
  environment = environment;
  patching = patching;
  client = record {
    get = λ ns name w. found resource;
    get_owner_cluster = λ s. (ok (some owner), s);
    ensure_paused_condition = λ c s. (ok (false, false), s);
    ensure_finalizer = λ f s. (ok false, s);
  };
  reconcile_filter = "";
  finalizer = "hcp";
}

abbrev deleting : State ℤ W
deleting = record start { hcp = record resource { deletion_timestamp = 5 } }

deleted_runs :
    reconcile_patched reconciler owner deleting
    ≡ (ok done, (reconcile_patched reconciler owner deleting).1)
unfolding reconcile_patched deferred_patch work reconcile_delete is_deleted ◌>>=◌ patch joined
    summarize applicable_conditions filter remove_finalizer
deleted_runs = refl

reconcile_patched-ok_example :
    (helper : Unit) × (u v : State ℤ W) × (patching.new_helper deleting ≡ (ok helper, u))
    × (work reconciler owner (managed_externally u) ≡ (ok done, v))
    × (patch patching helper (observed v)
        ≡ (ok tt, (reconcile_patched reconciler owner deleting).1))
reconcile_patched-ok_example =
    reconcile_patched-ok reconciler owner deleting (reconcile_patched reconciler owner deleting).1
      done deleted_runs

is_deleting : is_deleted deleting ≡ true
unfolding is_deleted
is_deleting = refl

found_runs :
    reconcile_found reconciler deleting ≡ (ok done, (reconcile_found reconciler deleting).1)
unfolding reconcile_found reconcile_owned passes_filter unless_paused reconcile_active add_finalizer
    reconcile_patched deferred_patch work reconcile_delete is_deleted ◌>>=◌ patch joined summarize
    applicable_conditions filter remove_finalizer
found_runs = refl

reconcile_found-Deleted_example :
    ((reconciler.client.get_owner_cluster deleting
        ≡ (ok none, (reconcile_found reconciler deleting).1))
      × (done ≡ wait_for_owner))
    ⊎ ((c : Cluster) × (u : State ℤ W) × (reconciler.client.get_owner_cluster deleting
          ≡ (ok (some c), u))
        × Answered reconciler c u done (reconcile_found reconciler deleting).1)
reconcile_found-Deleted_example =
    reconcile_found-Deleted reconciler deleting (reconcile_found reconciler deleting).1 done
      (λ s. refl) (λ c s. refl) (λ s. refl) is_deleting found_runs

abbrev reader : Reader ℤ
reader = record {
  certificate_owners = λ ns name. none;
  list = λ ns. if ns == "team" then some (resource ∷ []) else none;
}

lists_team :
    (ns : String) (hs : List (HostedControlPlane ℤ))
    → reader.list ns ≡ some hs
    → All (λ h. h.namespace ≡ ns) hs
lists_team ns hs h = elim (Bool-cases (ns == "team")) [
  | inl e ↦
      subst (All (λ (r : HostedControlPlane ℤ). r.namespace ≡ ns))
        (some_inj (resource ∷ []) hs (rw e at h)) (sym ((string_eq.beq_iff ns "team").0 e), tt)
  | inr e ↦ absurd (cc (rw e at h))
]

abbrev uses_settings : HostedControlPlane ℤ → Bool
uses_settings h = some_by (λ (m : String × Mount). m.1.config_map == some "settings") h.spec.mounts

config_map_to_hosted_control_plane-cases_example :
    (All (λ h. uses_settings h ≡ false) (resource ∷ [])
      × (config_map_to_hosted_control_plane reader "team" "settings" ≡ []))
    ⊎ ((before after : List (HostedControlPlane ℤ)) × (h : HostedControlPlane ℤ) × (resource ∷ []
          ≡ before ++ h ∷ after)
        × All (λ h. uses_settings h ≡ false) before
        × (uses_settings h ≡ true)
        × (config_map_to_hosted_control_plane reader "team" "settings"
            ≡ record { namespace = h.namespace; name = h.name } ∷ []))
config_map_to_hosted_control_plane-cases_example =
    config_map_to_hosted_control_plane-cases reader "team" "settings" (resource ∷ []) refl
