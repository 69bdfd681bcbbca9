-- ===== src/Scenarios.antt =====
-- Concrete resources, reconcilers and answers, and the theorems applied to them.
mod Control
mod EtcdRuns
mod Admission
mod Workloads
mod Pods
mod Certs
use cluster_api_provider_hos.Prelude.{
  ℕ, ◌+◌, ◌-◌, ◌/◌, true, false, none, some, [], ◌∷◌, arith, ◌==◌, string_eq, nat_eq, Eq, option_eq,
  if◌then◌else◌,
}
use cluster_api_provider_hos.Prelude.Exec.{ok, ◌>>=◌, ◌>>◌}
use cluster_api_provider_hos.Prelude.Int.{ℤ, pos}
use cluster_api_provider_hos.Api.{HostedControlPlane, Cluster, EtcdComponent}
use cluster_api_provider_hos.Controller.State.{State}
use cluster_api_provider_hos.Etcd.Calls.{Answers, EtcdState}
use cluster_api_provider_hos.Etcd.Space.{Storage}

abbrev pub growing_etcd : EtcdComponent ℤ
growing_etcd = record {
  image = none;
  args = ("client-cert-auth", "false") ∷ ("snapshot-count", "5") ∷ [];
  volume_size = none;
  auto_grow = none;
  backup = some (record { schedule = "@daily" });
}

abbrev pub fixed_etcd : EtcdComponent ℤ
fixed_etcd = record growing_etcd { auto_grow = some false; volume_size = some (pos 20) }

abbrev pub resource : HostedControlPlane ℤ
resource = record {
  name = "demo";
  namespace = "team";
  generation = 3;
  deletion_timestamp = 0;
  finalizers = "hcp" ∷ "other" ∷ [];
  spec = record {
    version = "1.34.0";
    replicas = none;
    etcd = growing_etcd;
    mounts =
        (
          "config",
          record {
            path = "/c";
            config_map = some "settings";
            secret = none;
            config_map_items = [];
            secret_items = [];
          },
        )
        ∷ [];
    oidc_providers = "https://issuer.example" ∷ [];
    certificates = record { root_ca_certificate_duration = none; ca_certificate_duration = none };
  };
  status = record {
    conditions = [];
    legacy_ip = "";
    etcd_volume_size = pos 8;
    etcd_volume_usage = pos 7;
    etcd_last_backup_time = 10;
    etcd_next_backup_time = 0;
    etcd_last_defrag_time = 0;
    etcd_last_attempted_defrag_time = 0;
    control_plane_initialized = none;
    ready = false;
    external_managed_control_plane = none;
    observed_generation = 2;
  };
}

abbrev pub owner : Cluster
owner = record {
  name = "demo";
  namespace = "team";
  endpoint_host = "demo.team.example";
  endpoint_port = 443;
  service_domain = "";
  services = "";
  pods = "10.1.0.0/16";
}

abbrev pub storage : Storage ℤ
storage = record { buffer = pos 2; increment = pos 4 }

-- Every call succeeds; a NOSPACE alarm is active, and one member is fragmented.
abbrev pub fine : Answers ℤ
fine = record {
  apply_service = λ l. ok "10.96.0.3";
  list_pods = λ l. ok (record { name = "demo-etcd-0"; node_name = "n1" } ∷ []);
  get_max_volume_usage = λ l. (pos 7, none);
  list_volume_claims = λ l. ok (record { name = "etcd-data-demo-etcd-0"; storage = pos 8 } ∷ []);
  apply_volume_claim = λ l. ok tt;
  new_etcd_client = λ l. ok tt;
  apply_stateful_set = λ l. ok true;
  get_statuses = λ l. ok (record { db_size = 100; db_size_in_use = 10 } ∷ []);
  read_clock = λ l. 4000000000000;
  defragment = λ l. ok tt;
  list_alarms = λ l. ok (record { member_id = 1; alarm = 1 } ∷ []);
  disarm_alarm = λ l. ok tt;
  new_s3_client = λ l. ok tt;
  open_snapshot_stream = λ l. ok tt;
  upload = λ l. ok tt;
  close_client = λ l. ok tt;
  stalled = λ l. none;
  alarm_text = λ n. "NOSPACE";
  parse_standard = λ t. ok (record { next = λ time. time + 86400 });
}

abbrev pub etcd_start : EtcdState ℤ
etcd_start = record { hcp = resource; world = [] }

abbrev pub start : State ℤ Unit
start = record { hcp = resource; world = tt }
