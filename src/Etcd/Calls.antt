-- ===== src/Etcd/Calls.antt =====
-- The state of pkg/reconcilers/etcd_cluster/reconciler.go: the resource in memory, and the calls
-- that went out to the API servers, to etcd, to S3 and to the clock, the last one first. What a
-- call answers is a function of the calls so far, given by the environment.
use cluster_api_provider_hos.Prelude.{
  ℕ, String, Bool, Option, List, ◌∷◌, string_eq, nat_eq, option_eq,
}
use cluster_api_provider_hos.Prelude.Exec.{Error, Result, ok, Exec}
use cluster_api_provider_hos.Prelude.Int.{ℤ}
use cluster_api_provider_hos.Api.{HostedControlPlaneStatus}
use cluster_api_provider_hos.Controller.State.{State}

pub record Pod : Type 0 where
  pub name : String
  pub node_name : String

-- A persistent volume claim, with the storage that it requests.
pub record VolumeClaim (Q : Type 0) : Type 0 where
  pub name : String
  pub storage : Q

-- `etcdserverpb.AlarmMember`; the code of NOSPACE is 1.
pub record Alarm : Type 0 where
  pub member_id : ℕ
  pub alarm : ℕ

-- The sizes of `clientv3.StatusResponse`, which are never negative.
pub record MemberStatus : Type 0 where
  pub db_size : ℕ
  pub db_size_in_use : ℕ

-- The stateful set of etcd: its name, the image and the arguments of its container, and the size
-- that its volume claim template requests.
pub record EtcdSet (Q : Type 0) : Type 0 where
  pub name : String
  pub image : String
  pub args : List String
  pub storage : Q

pub data Call (Q : Type 0) : Type 0 where
  apply_service : String → Bool → Call Q
  list_pods : Call Q
  get_max_volume_usage : List Pod → Call Q
  list_volume_claims : Call Q
  apply_volume_claim : String → Q → Call Q
  new_etcd_client : Call Q
  apply_stateful_set : EtcdSet Q → Call Q
  get_statuses : List String → Call Q
  read_clock : Call Q
  defragment : Call Q
  list_alarms : Call Q
  disarm_alarm : Alarm → Call Q
  new_s3_client : Call Q
  open_snapshot_stream : Call Q
  upload : Call Q
  close_client : Call Q

-- A cron schedule, `cron.Schedule`: the next time behind a time.
pub record Schedule : Type 0 where
  pub next : ℕ → ℕ

-- What the calls answer. `Log` is the list of the calls, this one included.
pub record Answers (Q : Type 0) : Type 0 where
  pub apply_service : List (Call Q) → Result String  -- the service's cluster IP
  pub list_pods : List (Call Q) → Result (List Pod)
  pub get_max_volume_usage : List (Call Q) → ℤ × Option Error
  pub list_volume_claims : List (Call Q) → Result (List (VolumeClaim Q))
  pub apply_volume_claim : List (Call Q) → Result (Unit {0})
  pub new_etcd_client : List (Call Q) → Result (Unit {0})
  pub apply_stateful_set : List (Call Q) → Result Bool
  pub get_statuses : List (Call Q) → Result (List MemberStatus)
  pub read_clock : List (Call Q) → ℕ
  pub defragment : List (Call Q) → Result (Unit {0})
  pub list_alarms : List (Call Q) → Result (List Alarm)
  pub disarm_alarm : List (Call Q) → Result (Unit {0})
  pub new_s3_client : List (Call Q) → Result (Unit {0})
  pub open_snapshot_stream : List (Call Q) → Result (Unit {0})
  pub upload : List (Call Q) → Result (Unit {0})
  pub close_client : List (Call Q) → Result (Unit {0})
  pub stalled : List (Call Q) → Option Error  -- `context.Cause`, set by the watchdog
  pub alarm_text : ℕ → String  -- `AlarmType.String`
  pub parse_standard : String → Result Schedule  -- `cron.ParseStandard`

abbrev pub EtcdState : Type 0 → Type 0
EtcdState Q = State Q (List (Call Q))

module _ {Q : Type 0} where
  abbrev pub log : EtcdState Q → List (Call Q)
  log s = s.world

  abbrev pub status : EtcdState Q → HostedControlPlaneStatus Q
  status s = s.hcp.status

  abbrev pub set_status : HostedControlPlaneStatus Q → EtcdState Q → EtcdState Q
  set_status st s = record s { hcp = record s.hcp { status = st } }

  -- One call: it is logged, and answered.
  unfoldable pub call : {A : Type 0} → Call Q → (List (Call Q) → Result A) → Exec (EtcdState Q) A
  call c answer s = let l = c ∷ s.world in (answer l, record s { world = l })

  -- `time.Now()`.
  unfoldable pub now : (List (Call Q) → ℕ) → Exec (EtcdState Q) ℕ
  unfolding call
  now clock = call read_clock (λ l. ok (clock l))
