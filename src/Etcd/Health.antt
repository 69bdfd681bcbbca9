-- ===== src/Etcd/Health.antt =====
-- `etcdIsHealthy` of pkg/reconcilers/etcd_cluster/reconciler.go: the alarms of the members.
pub mod Laws
use cluster_api_provider_hos.Prelude.{
  ℕ, ◌<◌, String, Bool, not, ◌&&◌, List, [], ◌∷◌, arith, ◌==◌, string_eq, nat_eq, Eq, option_eq,
  if◌then◌else◌, ◌<>◌, filter, some_by, decimal,
}
use cluster_api_provider_hos.Prelude.Exec.{
  Error, new, wrap, join, ok, Exec, pure, fail, wrapping, ◌>>=◌, ◌>>◌,
}
use cluster_api_provider_hos.Quantity.{Quantities}
use cluster_api_provider_hos.Api.{auto_grow_enabled, HostedControlPlaneStatus}
use cluster_api_provider_hos.Etcd.Calls.{
  Alarm, list_alarms, disarm_alarm, Answers, EtcdState, status, call,
}
use cluster_api_provider_hos.Etcd.Space.{Storage}

-- `etcdserverpb.AlarmType_NOSPACE`.
abbrev pub nospace : ℕ
nospace = 1

abbrev pub is_nospace : Alarm → Bool
is_nospace a = a.alarm == nospace

abbrev pub same_alarm : Alarm → Alarm → Bool
same_alarm a b = a.member_id == b.member_id && a.alarm == b.alarm

-- The left part of `lo.Difference`. The source compares pointers; the ignored alarms are pointers
-- of the same list, and an alarm that equals a NOSPACE alarm is one.
unfoldable pub difference : List Alarm → List Alarm → List Alarm
difference alarms ignored = filter (λ a. not (some_by (λ b. same_alarm a b) ignored)) alarms

module _ (alarm_text : ℕ → String) where
  unfoldable pub alarm_error : Alarm → Error
  alarm_error a =
      wrap ("etcd member " <> decimal a.member_id <> " has alarm") (new (alarm_text a.alarm))

  unfoldable pub join_alarms : Alarm → List Alarm → Error
  join_alarms a [] = alarm_error a
  join_alarms a (b ∷ bs) = join (alarm_error a) (join_alarms b bs)

  unfoldable pub report_alarms : {S : Type 0} → List Alarm → Exec S (Unit {0})
  report_alarms [] = pure tt
  report_alarms (a ∷ as') = fail (wrap "etcd cluster has active alarms" (join_alarms a as'))

module _ (q : Quantities) (storage : Storage q.Quantity) (answers : Answers q.Quantity) where
  open q use {Quantity, sub, less}

  -- `for _, outdatedAlarm := range nospaceAlarms`.
  unfoldable pub disarm_all : List Alarm → Exec (EtcdState Quantity) Unit
  disarm_all [] s = (ok tt, s)
  disarm_all (a ∷ as') s =
      let rest = disarm_all as' in
      (do
        wrapping
            ("failed to disarm etcd alarm "
              <> answers.alarm_text a.alarm
              <> " for member "
              <> decimal a.member_id)
            (call (disarm_alarm a) answers.disarm_alarm)
        rest)
        s

  -- `headroom.Cmp(er.etcdServerStorageBuffer) >= 0`.
  unfoldable pub has_headroom : HostedControlPlaneStatus Quantity → Bool
  has_headroom st = not (less (sub st.etcd_volume_size st.etcd_volume_usage) storage.buffer)

  -- The alarms that are ignored: those for space, if there is space or the volume grows.
  unfoldable pub ignored_alarms : List Alarm → Exec (EtcdState Quantity) (List Alarm)
  ignored_alarms nospace_alarms s =
      if has_headroom (status s)
      then (do disarm_all nospace_alarms; pure nospace_alarms) s
      else if auto_grow_enabled s.hcp.spec.etcd
      then (ok nospace_alarms, s)
      else (ok [], s)

  unfoldable pub check_alarms : List Alarm → Exec (EtcdState Quantity) Unit
  check_alarms [] = pure tt
  check_alarms (a ∷ as') = do
    ignored ← ignored_alarms (filter is_nospace (a ∷ as'))
    report_alarms answers.alarm_text (difference (a ∷ as') ignored)

  unfoldable pub etcd_is_healthy : Exec (EtcdState Quantity) Unit
  etcd_is_healthy = do
    alarms ← wrapping "failed to list etcd alarms" (call list_alarms answers.list_alarms)
    check_alarms alarms
