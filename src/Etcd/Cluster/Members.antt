-- ===== src/Etcd/Cluster/Members.antt =====
-- The health check and the backup of etcd keep what `Evolved` says.
use cluster_api_provider_hos.Prelude.{
  ℕ, String, refl, inl, inr, List, [], ◌∷◌, string_eq, nat_eq, option_eq, ltb, Bool-cases,
}
use cluster_api_provider_hos.Prelude.Exec.{Exec, pure, wrapping}
use cluster_api_provider_hos.Quantity.{Quantities}
use cluster_api_provider_hos.Api.{EtcdBackup, auto_grow_enabled, is_zero_time}
use cluster_api_provider_hos.Etcd.Calls.{
  Alarm, Schedule, Answers, EtcdState, status, call, disarm_alarm, new_s3_client,
  open_snapshot_stream, upload, close_client,
}
use cluster_api_provider_hos.Etcd.Space.{Storage}
use cluster_api_provider_hos.Etcd.Schedule.{resolve_backup_schedule}
use cluster_api_provider_hos.Etcd.Health.{
  disarm_all, has_headroom, ignored_alarms, check_alarms, report_alarms, etcd_is_healthy,
}
use cluster_api_provider_hos.Etcd.Backup.{
  caused, closing, upload_snapshot, backup_if_before, backup_if_due, reconcile_backup,
}
use cluster_api_provider_hos.Etcd.Cluster.Frame.{
  Evolves, Evolved-refl, Evolved-trans, same-Evolved, bind-Evolves, wrapping-Evolves, pure-Evolves,
  call-Evolves, now-Evolves, modify-Evolves,
}

module _ (q : Quantities) (storage : Storage q.Quantity) (answers : Answers q.Quantity) where
  open q use {Quantity, amount, less, sub}

  disarm_all-Evolves : (zs : List Alarm) → Evolves q (disarm_all q storage answers zs)
  unfolding disarm_all Evolves
  disarm_all-Evolves [] s = Evolved-refl q s
  disarm_all-Evolves (a ∷ zs) s =
      bind-Evolves q _ (λ u. disarm_all q storage answers zs)
        (call-Evolves q (disarm_alarm a) answers.disarm_alarm) (λ u. disarm_all-Evolves zs) s

  ignored_alarms-Evolves : (zs : List Alarm) → Evolves q (ignored_alarms q storage answers zs)
  unfolding ignored_alarms Evolves
  ignored_alarms-Evolves zs s = elim (Bool-cases (has_headroom q storage answers (status s))) [
    | inl room ↦ rw room (
        bind-Evolves q (disarm_all q storage answers zs) (λ u. pure zs) (disarm_all-Evolves zs)
          (λ u. pure-Evolves q zs) s)
    | inr full ↦ elim (Bool-cases (auto_grow_enabled s.hcp.spec.etcd)) [
      | inl grows ↦ rw full (rw grows (Evolved-refl q s))
      | inr fixed ↦ rw full (rw fixed (Evolved-refl q s))
    ]
  ]

  report_alarms-Evolves : (text : ℕ → String) (zs : List Alarm) → Evolves q (report_alarms text zs)
  unfolding report_alarms Evolves
  report_alarms-Evolves text [] s = Evolved-refl q s
  report_alarms-Evolves text (a ∷ zs) s = Evolved-refl q s

  pub check_alarms-Evolves : (zs : List Alarm) → Evolves q (check_alarms q storage answers zs)
  unfolding check_alarms
  check_alarms-Evolves [] = pure-Evolves q tt
  check_alarms-Evolves (a ∷ zs) =
      bind-Evolves q _ _ (ignored_alarms-Evolves _)
        (λ i. report_alarms-Evolves answers.alarm_text _)

  pub etcd_is_healthy-Evolves : Evolves q (etcd_is_healthy q storage answers)
  unfolding etcd_is_healthy
  etcd_is_healthy-Evolves =
      bind-Evolves q _ _ (wrapping-Evolves q _ _ (call-Evolves q _ _)) check_alarms-Evolves

  caused-Evolves :
      {A : Type 0} (m : String) (x : Exec (EtcdState Quantity) A)
      → Evolves q x
      → Evolves q (caused answers m x)
  unfolding Evolves
  caused-Evolves m x h s = h s

  closing-Evolves :
      {A : Type 0} (x : Exec (EtcdState Quantity) A) → Evolves q x → Evolves q (closing answers x)
  unfolding closing Evolves
  closing-Evolves x h s =
      Evolved-trans q s (x s).1 _ (h s)
        (same-Evolved q (x s).1 _ refl refl refl refl (close_client ∷ [], refl))

  upload_snapshot-Evolves : (c : Schedule) → Evolves q (upload_snapshot answers c)
  unfolding upload_snapshot
  upload_snapshot-Evolves c =
      bind-Evolves q _ _
        (caused-Evolves _ _ (call-Evolves q open_snapshot_stream answers.open_snapshot_stream))
        (λ _. bind-Evolves q _ _ (caused-Evolves _ _ (call-Evolves q upload answers.upload)) (λ _.
          bind-Evolves q _ _ (now-Evolves q answers) (λ last.
            modify-Evolves q answers _ (λ s. same-Evolved q s _ refl refl refl refl ([], refl)))))

  backup_if_before-Evolves : (c : Schedule) (time : ℕ) → Evolves q (backup_if_before answers c time)
  unfolding backup_if_before Evolves
  backup_if_before-Evolves c time s =
      elim (Bool-cases (ltb (c.next (status s).etcd_last_backup_time) time)) [
        | inl e ↦ rw e (closing-Evolves (upload_snapshot answers c) (upload_snapshot-Evolves c) s)
        | inr e ↦ rw e (Evolved-refl q s)
      ]

  backup_if_due-Evolves : (c : Schedule) → Evolves q (backup_if_due answers c)
  unfolding backup_if_due Evolves
  backup_if_due-Evolves c s = elim (Bool-cases (is_zero_time (status s).etcd_last_backup_time)) [
    | inl e ↦ rw e (closing-Evolves (upload_snapshot answers c) (upload_snapshot-Evolves c) s)
    | inr e ↦ rw e (bind-Evolves q _ _ (now-Evolves q answers) (backup_if_before-Evolves c) s)
  ]

  pub reconcile_backup-Evolves : (b : EtcdBackup) → Evolves q (reconcile_backup answers b)
  unfolding reconcile_backup Evolves
  reconcile_backup-Evolves b s =
      bind-Evolves q
        (wrapping "failed to create S3 client" (call new_s3_client answers.new_s3_client)) _
        (call-Evolves q new_s3_client answers.new_s3_client)
        (λ _.
          bind-Evolves q
            (λ u. (
              resolve_backup_schedule answers.parse_standard b.schedule s.hcp.namespace s.hcp.name,
              u,
            ))
            (backup_if_due answers) (λ u. Evolved-refl q u) backup_if_due-Evolves)
        s
