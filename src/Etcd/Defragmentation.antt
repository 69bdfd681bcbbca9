-- ===== src/Etcd/Defragmentation.antt =====
-- `reconcileETCDMaintenance` and `reconcileETCDDefragmentation` of
-- pkg/reconcilers/etcd_cluster/reconciler.go. The source compares a quotient of floats with 0.20;
-- here the comparison is exact, which agrees with the floats for sizes below 2 ^ 52 bytes.
pub mod Laws
use cluster_api_provider_hos.Prelude.{
  ℕ, ◌-◌, ◌*◌, Bool, not, ◌||◌, List, [], ◌∷◌, map, arith, ◌==◌, string_eq, nat_eq, Eq, option_eq,
  if◌then◌else◌, ltb, leb, filter,
}
use cluster_api_provider_hos.Prelude.Exec.{ok, Exec, pure, wrapping, modify, ◌>>=◌, ◌>>◌}
use cluster_api_provider_hos.Api.{hour, is_zero_time}
use cluster_api_provider_hos.Etcd.Calls.{
  Pod, MemberStatus, get_statuses, defragment, Answers, EtcdState, status, set_status, call, now,
}
use cluster_api_provider_hos.Etcd.Space.{is_scheduled}

-- `etcdDefragmentationCooldown`.
abbrev pub cooldown : ℕ
cooldown = 1 * hour

-- More than a fifth of the database is free: the `continue` of the loop is the other case.
unfoldable pub is_fragmented : MemberStatus → Bool
is_fragmented m = not (
    m.db_size == 0
    || ltb m.db_size m.db_size_in_use
    || leb (5 * (m.db_size - m.db_size_in_use)) m.db_size)

module _ {Q : Type 0} (answers : Answers Q) where
  abbrev pub set_attempted : ℕ → EtcdState Q → EtcdState Q
  set_attempted t s = set_status (record (status s) { etcd_last_attempted_defrag_time = t }) s

  abbrev pub set_defragmented : ℕ → EtcdState Q → EtcdState Q
  set_defragmented t s = set_status (record (status s) { etcd_last_defrag_time = t }) s

  -- The body behind the `continue`: the attempt is recorded before the call.
  unfoldable pub defragment_members : Exec (EtcdState Q) Unit
  defragment_members = do
    attempted ← now answers.read_clock
    modify (set_attempted attempted)
    wrapping "failed to defragment etcd" (call defragment answers.defragment)
    finished ← now answers.read_clock
    modify (set_defragmented finished)

  -- `for _, status := range statuses`, in the order in which the map is walked.
  unfoldable pub defragment_loop : List MemberStatus → Exec (EtcdState Q) Unit
  defragment_loop [] = pure tt
  defragment_loop (m ∷ ms) =
      let rest = defragment_loop ms in if is_fragmented m then defragment_members else rest

  -- `!IsZero() && time.Since(…) < cooldown`. `-` stops at 0, as the test does not mind.
  unfoldable pub is_cooling : ℕ → ℕ → Bool
  is_cooling attempted time = ltb (time - attempted) cooldown

  unfoldable pub unless_cooling : List MemberStatus → ℕ → Exec (EtcdState Q) Unit
  unfolding is_cooling
  unless_cooling members time s =
      if is_cooling (status s).etcd_last_attempted_defrag_time time
      then (ok tt, s)
      else defragment_loop members s

  unfoldable pub reconcile_defragmentation : List MemberStatus → Exec (EtcdState Q) Unit
  reconcile_defragmentation members s =
      if is_zero_time (status s).etcd_last_attempted_defrag_time
      then defragment_loop members s
      else (do time ← now answers.read_clock; unless_cooling members time) s

  unfoldable pub reconcile_maintenance : List Pod → Exec (EtcdState Q) Unit
  reconcile_maintenance pods = do
    let ready_pod_names = map (λ (pod : Pod). pod.name) (filter is_scheduled pods)
    members ←
        wrapping "failed to get etcd statuses"
          (call (get_statuses ready_pod_names) answers.get_statuses)
    wrapping "failed to reconcile etcd defragmentation" (reconcile_defragmentation members)
