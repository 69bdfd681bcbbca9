-- ===== src/Etcd/Backup/Laws.antt =====
-- When a backup is made, how often the client is opened and closed for it, and what it records.
use cluster_api_provider_hos.Prelude.{
  ℕ, suc, ◌<◌, ◌≡◌, refl, ◌≢◌, ◌⊎◌, inl, inr, true, false, List, [], ◌∷◌, arith, string_eq, nat_eq,
  option_eq, ltb, Bool-cases,
}
use cluster_api_provider_hos.Prelude.Exec.{Result, ok, ◌>>=◌}
use cluster_api_provider_hos.Api.{is_zero_time}
use cluster_api_provider_hos.Etcd.Calls.{
  Call, open_snapshot_stream, close_client, read_clock, Schedule, Answers, EtcdState, status, log,
  call, now,
}
use cluster_api_provider_hos.Etcd.Backup.{closing, upload_snapshot, backup_if_before, backup_if_due}

-- How often a snapshot was opened, and how often the client was closed.
abbrev pub opened : {Q : Type 0} → List (Call Q) → ℕ
opened [] = 0
opened (open_snapshot_stream ∷ calls) = suc (opened calls)
opened (c ∷ calls) = opened calls

abbrev pub closed : {Q : Type 0} → List (Call Q) → ℕ
closed [] = 0
closed (close_client ∷ calls) = suc (closed calls)
closed (c ∷ calls) = closed calls

module _ {Q : Type 0} (answers : Answers Q) (schedule : Schedule) where
  -- No snapshot was opened and no client closed.
  pub record Skipped (s t : EtcdState Q) : Type 0 where
    pub not_opened : opened (log t) ≡ opened (log s)
    pub not_closed : closed (log t) ≡ closed (log s)
    pub unchanged : t.hcp ≡ s.hcp

  -- One snapshot was opened, and its client closed, also where the snapshot or its upload failed.
  -- A success records a time of the clock and the next time of the schedule behind it; a failure
  -- records nothing, so that the backup is due again.
  pub record Attempted (s : EtcdState Q) (r : Result (Unit {0})) (t : EtcdState Q) : Type 0 where
    pub one_opened : opened (log t) ≡ suc (opened (log s))
    pub one_closed : closed (log t) ≡ suc (closed (log s))
    pub next :
        r ≡ ok tt
        → (status t).etcd_next_backup_time ≡ schedule.next (status t).etcd_last_backup_time
    pub last :
        r ≡ ok tt
        → (calls : List (Call Q)) × (log t ≡ close_client ∷ calls)
          × ((status t).etcd_last_backup_time ≡ answers.read_clock calls)
    pub failed_keeps : r ≢ ok tt → t.hcp ≡ s.hcp

  attempt-Attempted :
      (s : EtcdState Q)
      → let (r, t) = closing answers (upload_snapshot answers schedule) s in Attempted s r t
  unfolding upload_snapshot closing call now ◌>>=◌
  attempt-Attempted s = record {
    one_opened = ground arith;
    one_closed = ground arith;
    next = ground arith;
    last = ground arith;
    failed_keeps = ground arith;
  }

  -- There was no backup, or its successor's time is in the past.
  unfoldable pub Due : EtcdState Q → Type 0
  Due s =
      (is_zero_time (status s).etcd_last_backup_time ≡ true)
      ⊎ (schedule.next (status s).etcd_last_backup_time < answers.read_clock (read_clock ∷ log s))

  Due-never : (s : EtcdState Q) → is_zero_time (status s).etcd_last_backup_time ≡ true → Due s
  unfolding Due
  Due-never s never = inl never

  Due-before :
      (s : EtcdState Q)
      → ltb
          (schedule.next (status s).etcd_last_backup_time)
          (answers.read_clock (read_clock ∷ log s))
        ≡ true
      → Due s
  unfolding Due
  Due-before s before = inr (ground (arith, before))

  not-Due :
      (s : EtcdState Q)
      → is_zero_time (status s).etcd_last_backup_time ≡ false
      → ltb
          (schedule.next (status s).etcd_last_backup_time)
          (answers.read_clock (read_clock ∷ log s))
        ≡ false
      → ¬ Due s
  unfolding Due
  not-Due s again after (inl never) = cc
  not-Due s again after (inr before) = ground (arith, after, before)

  -- A backup is attempted exactly when it is due: when there was none, or when the time that the
  -- schedule gives behind the last one has passed. Otherwise the run succeeds and nothing changes.
  -- An attempt opens one snapshot and closes its client; if it succeeds, the next time is the one
  -- that the schedule gives behind the new last time; if it fails, the resource is unchanged.
  pub backup_if_due-cases :
      (s : EtcdState Q)
      → let (r, t) = backup_if_due answers schedule s in
        (Due s × Attempted s r t) ⊎ (¬ Due s × (r ≡ ok tt) × Skipped s t)
  unfolding backup_if_due backup_if_before now call ◌>>=◌
  backup_if_due-cases s = elim (Bool-cases (is_zero_time (status s).etcd_last_backup_time)) [
    | inl never ↦ rw never (inl (Due-never s never, attempt-Attempted s))
    | inr again ↦
        let u : EtcdState Q = record s { world = read_clock ∷ log s } in
        let time = answers.read_clock (log u) in
        let a = attempt-Attempted u in
        let kept = not-Due s again in
        let due = Due-before s in
        rw again (elim (Bool-cases (ltb (schedule.next (status s).etcd_last_backup_time) time)) [
          | inl before ↦ rw before (
              inl (
                due before,
                record {
                  one_opened = a.one_opened;
                  one_closed = a.one_closed;
                  next = a.next;
                  last = a.last;
                  failed_keeps = a.failed_keeps;
                },
              ))
          | inr after ↦ rw after (
              inr (
                kept after,
                refl,
                record { not_opened = refl; not_closed = refl; unchanged = refl },
              ))
        ])
  ]
