-- ===== src/Scenarios/EtcdRuns.antt =====
-- The theorems on etcd at concrete answers.
use cluster_api_provider_hos.Prelude.{
  ◌≤◌, All, ◌↔◌, ◌∷◌, [], List, String, none, some, ◌≡◌, ℕ, ◌+◌, ◌*◌, refl, ◌⊎◌, true, arith,
  string_eq, nat_eq, option_eq, ltb, filter, some_by,
}
use cluster_api_provider_hos.Prelude.Exec.{Result, ok, ◌>>=◌}
use cluster_api_provider_hos.VolumeStats.{
  EtcdPod, Summary, max_int64, extract_pod_volume_usage, get_max_etcd_volume_usage,
}
use cluster_api_provider_hos.VolumeStats.Laws.{Answered, get_max_etcd_volume_usage-bounds}
use cluster_api_provider_hos.Prelude.Int.{ℤ, pos, ◌+ℤ◌, ◌-ℤ◌, ◌≤ℤ◌}
use cluster_api_provider_hos.Quantity.{whole_quantities}
use cluster_api_provider_hos.Api.{auto_grow_enabled}
use cluster_api_provider_hos.Controller.Normal.Flags.{KeepsFlags}
use cluster_api_provider_hos.Etcd.Calls.{
  Alarm, EtcdState, MemberStatus, Schedule, VolumeClaim, call, log, status, list_alarms, now,
}
use cluster_api_provider_hos.Etcd.Space.{
  record_usage, grown, reconcile_space_usage, reconcile_volume_size, get_etcd_volume_size,
  set_volume_size,
}
use cluster_api_provider_hos.Etcd.Space.Laws.{free, times, reconcile_volume_size-enough}
use cluster_api_provider_hos.Etcd.Volumes.{resize_claims, list_etcd_pods, reconcile_pvc_sizes}
use cluster_api_provider_hos.Etcd.Defragmentation.{
  reconcile_defragmentation, is_fragmented, reconcile_maintenance, defragment_loop,
  defragment_members,
}
use cluster_api_provider_hos.Etcd.Defragmentation.Laws.{
  defragments, ClockRuns, Rested, Spaced, reconcile_defragmentation-cases,
}
use cluster_api_provider_hos.Etcd.Schedule.{resolve_backup_schedule}
use cluster_api_provider_hos.Etcd.Health.{
  etcd_is_healthy, check_alarms, ignored_alarms, has_headroom, disarm_all, report_alarms,
  difference,
}
use cluster_api_provider_hos.Etcd.Health.Laws.{Checked, etcd_is_healthy-ok}
use cluster_api_provider_hos.Etcd.Backup.{
  backup_if_due, reconcile_backup, backup_if_before, closing, upload_snapshot,
}
use cluster_api_provider_hos.Etcd.Backup.Laws.{Due, Attempted, Skipped, backup_if_due-cases}
use cluster_api_provider_hos.Etcd.Container.{Semver, Ports}
use cluster_api_provider_hos.Etcd.Cluster.{
  reconcile_etcd_cluster, reconcile_service, when_ready, reconcile_client_service,
  reconcile_storage, reconcile_stateful_set, reconcile_members, backup_if_set,
}
use cluster_api_provider_hos.Etcd.Cluster.Laws.{
  reconcile_etcd_cluster-grows, reconcile_etcd_cluster-KeepsFlags,
}
use cluster_api_provider_hos.Etcd.Cluster.Success.{SeenHealthy, reconcile_etcd_cluster-SeenHealthy}
use cluster_api_provider_hos.Scenarios.{resource, owner, storage, fine, etcd_start}

enough_free : pos 2 ≤ℤ free whole_quantities (status etcd_start) +ℤ pos (3 * 4)
unfolding ◌+ℤ◌ ◌-ℤ◌
enough_free = omega arith

automatic : auto_grow_enabled etcd_start.hcp.spec.etcd ≡ true
unfolding auto_grow_enabled
automatic = refl

reconcile_volume_size-enough_example :
    (t : EtcdState ℤ) × (times whole_quantities 3
        (reconcile_volume_size whole_quantities storage)
        etcd_start
      ≡ (ok tt, t))
    × (pos 2 ≤ℤ free whole_quantities (status t))
    × ((status t).etcd_volume_usage ≡ (status etcd_start).etcd_volume_usage)
reconcile_volume_size-enough_example =
    reconcile_volume_size-enough whole_quantities storage 4 3 etcd_start automatic refl enough_free

abbrev claims : List (VolumeClaim ℤ)
claims =
    record { name = "small"; storage = pos 4 } ∷ record { name = "large"; storage = pos 9 } ∷ []

claims_run :
    resize_claims whole_quantities fine claims etcd_start
    ≡ (ok tt, (resize_claims whole_quantities fine claims etcd_start).1)
unfolding resize_claims call ◌>>=◌
claims_run = refl

abbrev members : List MemberStatus
members = record { db_size = 100; db_size_in_use = 10 } ∷ []

clock_runs : ClockRuns fine
clock_runs c calls = omega arith

reconcile_defragmentation-cases_example :
    let (r, t) = reconcile_defragmentation fine members etcd_start in
    Rested fine etcd_start r t
    ⊎ ((some_by is_fragmented members ≡ true)
        × (defragments (log t) ≡ 1)
        × Spaced fine etcd_start t)
reconcile_defragmentation-cases_example =
    reconcile_defragmentation-cases fine clock_runs members etcd_start

healthy_runs :
    etcd_is_healthy whole_quantities storage fine etcd_start
    ≡ (ok tt, (etcd_is_healthy whole_quantities storage fine etcd_start).1)
unfolding etcd_is_healthy check_alarms ignored_alarms has_headroom disarm_all report_alarms
    difference filter some_by call ◌>>=◌ ◌-ℤ◌ auto_grow_enabled
healthy_runs = refl

etcd_is_healthy-ok_example :
    (alarms : List Alarm) × (fine.list_alarms (list_alarms ∷ []) ≡ ok alarms)
    × Checked whole_quantities storage fine alarms
        (record etcd_start { world = list_alarms ∷ [] })
        (etcd_is_healthy whole_quantities storage fine etcd_start).1
etcd_is_healthy-ok_example =
    etcd_is_healthy-ok whole_quantities storage fine etcd_start
      (etcd_is_healthy whole_quantities storage fine etcd_start).1 healthy_runs

abbrev hourly : Schedule
hourly = record { next = λ time. time + 3600000000000 }

backup_if_due-cases_example :
    let (r, t) = backup_if_due fine hourly etcd_start in
    (Due fine hourly etcd_start × Attempted fine hourly etcd_start r t)
    ⊎ (¬ Due fine hourly etcd_start × (r ≡ ok tt) × Skipped fine hourly etcd_start t)
backup_if_due-cases_example = backup_if_due-cases fine hourly etcd_start

abbrev plain_versions : Semver
plain_versions = record {
  Version = ℕ;
  parse_tolerant = λ t. some 37;
  must_parse = λ t. 37;
  less = ltb;
  etcd_client_version_37 = 37;
}

abbrev ports : Ports
ports = record { server = 2379; peer = 2380; metrics = 2381 }

abbrev cluster_run : Result String × EtcdState ℤ
cluster_run =
    reconcile_etcd_cluster whole_quantities plain_versions storage fine ports owner etcd_start

reconcile_etcd_cluster-grows_example :
    (cluster_run.1.hcp.spec ≡ resource.spec)
    × (auto_grow_enabled resource.spec.etcd ≡ true
        → pos 8 ≤ℤ (status cluster_run.1).etcd_volume_size)
reconcile_etcd_cluster-grows_example =
    reconcile_etcd_cluster-grows whole_quantities storage 4 refl plain_versions fine ports owner
      etcd_start

reconcile_etcd_cluster-KeepsFlags_example :
    KeepsFlags (reconcile_etcd_cluster whole_quantities plain_versions storage fine ports owner)
reconcile_etcd_cluster-KeepsFlags_example =
    reconcile_etcd_cluster-KeepsFlags whole_quantities storage 4 refl plain_versions fine ports
      owner

cluster_succeeds : cluster_run ≡ (ok "", cluster_run.1)
unfolding reconcile_etcd_cluster ◌>>=◌ reconcile_service call when_ready reconcile_client_service
    reconcile_storage list_etcd_pods reconcile_space_usage record_usage reconcile_volume_size
    get_etcd_volume_size set_volume_size grown auto_grow_enabled reconcile_pvc_sizes resize_claims
    ◌-ℤ◌ ◌+ℤ◌ reconcile_stateful_set reconcile_members reconcile_maintenance
    reconcile_defragmentation defragment_loop is_fragmented defragment_members now etcd_is_healthy
    check_alarms ignored_alarms has_headroom disarm_all report_alarms difference filter some_by
    backup_if_set reconcile_backup resolve_backup_schedule backup_if_due backup_if_before closing
    upload_snapshot
cluster_succeeds = refl

reconcile_etcd_cluster-SeenHealthy_example :
    SeenHealthy whole_quantities plain_versions storage fine ports owner etcd_start cluster_run.1
reconcile_etcd_cluster-SeenHealthy_example =
    reconcile_etcd_cluster-SeenHealthy whole_quantities plain_versions storage fine ports owner
      etcd_start cluster_run.1 cluster_succeeds

abbrev node_stats : String → Result Summary
node_stats node = ok (
    record {
      namespace = "team";
      name = "demo-etcd-0";
      volume_stats = record { name = "etcd-data"; pvc_name = none; used_bytes = some 7 } ∷ [];
    }
    ∷ [])

abbrev etcd_pods : List EtcdPod
etcd_pods = record { name = "demo-etcd-0"; namespace = "team"; node_name = "node" } ∷ []

get_max_etcd_volume_usage-bounds_example :
    ((get_max_etcd_volume_usage node_stats etcd_pods).0 ≤ max_int64)
    × All
        (λ (p : EtcdPod).
          (summary : Summary)
          → node_stats p.node_name ≡ ok summary
          → extract_pod_volume_usage p.namespace p.name summary
            ≤ (get_max_etcd_volume_usage node_stats etcd_pods).0)
        etcd_pods
    × (((get_max_etcd_volume_usage node_stats etcd_pods).1 ≡ none)
        ↔ All (Answered node_stats) etcd_pods)
get_max_etcd_volume_usage-bounds_example = get_max_etcd_volume_usage-bounds node_stats etcd_pods
