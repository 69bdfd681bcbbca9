-- ===== src/Etcd/Backup.antt =====
-- `reconcileETCDBackup` of pkg/reconcilers/etcd_cluster/reconciler.go: a snapshot of etcd that is
-- streamed to S3. The watchdog shows in what `context.Cause` answers behind a failed call.
pub mod Laws
use cluster_api_provider_hos.Prelude.{
  ℕ, String, Option, none, some, arith, ◌==◌, string_eq, nat_eq, Eq, option_eq, if◌then◌else◌, ltb,
}
use cluster_api_provider_hos.Prelude.Exec.{
  Error, wrap, join, Result, ok, err, Exec, wrapping, modify, ◌>>=◌, ◌>>◌,
}
use cluster_api_provider_hos.Api.{is_zero_time, EtcdBackup}
use cluster_api_provider_hos.Etcd.Calls.{
  new_s3_client, open_snapshot_stream, upload, close_client, Schedule, Answers, EtcdState, status,
  set_status, log, call, now,
}
use cluster_api_provider_hos.Etcd.Schedule.{resolve_backup_schedule}

-- `errors.Join(err, context.Cause(ctx))`; a nil cause is left out.
unfoldable pub with_cause : Error → Option Error → Error
with_cause e none = e
with_cause e (some cause) = join e cause

abbrev pub caused_result {ℓ} : {A : Type ℓ} → String → Option Error → Result A → Result A
caused_result m cause (ok a) = ok a
caused_result m cause (err e) = err (wrap m (with_cause e cause))

module _ {Q : Type 0} (answers : Answers Q) where
  abbrev pub caused : {A : Type 0} → String → Exec (EtcdState Q) A → Exec (EtcdState Q) A
  caused m x s = let (r, s') = x s in (caused_result m (answers.stalled (log s')) r, s')

  -- `defer func() { err = errors.Join(err, closeClientFunc()) }()`. The `err` that it sets is the
  -- one that `:=` declares inside the block, not the named result, so what closing answers is lost.
  unfoldable pub closing : {A : Type 0} → Exec (EtcdState Q) A → Exec (EtcdState Q) A
  unfolding call
  closing x s =
      let (r, s') = x s in let (closed, s'') = call close_client answers.close_client s' in (r, s'')

  abbrev pub set_backup_times : ℕ → ℕ → EtcdState Q → EtcdState Q
  set_backup_times last next s =
      set_status (record (status s) { etcd_last_backup_time = last; etcd_next_backup_time = next })
        s

  -- The snapshot and its upload; the times are set behind both.
  unfoldable pub upload_snapshot : Schedule → Exec (EtcdState Q) Unit
  upload_snapshot schedule = do
    caused "failed to create etcd snapshot" (call open_snapshot_stream answers.open_snapshot_stream)
    caused "failed to upload etcd snapshot to S3" (call upload answers.upload)
    last ← now answers.read_clock
    modify (set_backup_times last (schedule.next last))

  -- `resolvedSchedule.Next(lastBackupTime).Before(time.Now())`.
  unfoldable pub backup_if_before : Schedule → ℕ → Exec (EtcdState Q) Unit
  backup_if_before schedule time s =
      if ltb (schedule.next (status s).etcd_last_backup_time) time
      then closing (upload_snapshot schedule) s
      else (ok tt, s)

  unfoldable pub backup_if_due : Schedule → Exec (EtcdState Q) Unit
  backup_if_due schedule s =
      if is_zero_time (status s).etcd_last_backup_time
      then closing (upload_snapshot schedule) s
      else (do time ← now answers.read_clock; backup_if_before schedule time) s

  unfoldable pub reconcile_backup : EtcdBackup → Exec (EtcdState Q) Unit
  reconcile_backup backup s =
      (do
        wrapping "failed to create S3 client" (call new_s3_client answers.new_s3_client)
        schedule ← (λ u. (
          resolve_backup_schedule answers.parse_standard backup.schedule s.hcp.namespace s.hcp.name,
          u,
        ))
        backup_if_due schedule)
        s
