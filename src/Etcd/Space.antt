-- ===== src/Etcd/Space.antt =====
-- `reconcileETCDSpaceUsage` and `getETCDVolumeSize` of
-- pkg/reconcilers/etcd_cluster/reconciler.go: how full the volumes are, and how large they must be.
pub mod Laws
use cluster_api_provider_hos.Prelude.{
  ℕ, zero, suc, Bool, true, false, not, Option, none, some, List, arith, ◌==◌, string_eq, nat_eq,
  Eq, option_eq, if◌then◌else◌, filter,
}
use cluster_api_provider_hos.Prelude.Exec.{Error, new, wrap, ok, err, Exec, ◌>>=◌, ◌>>◌}
use cluster_api_provider_hos.Prelude.Int.{ℤ, pos, negsuc, ltb_ℤ}
use cluster_api_provider_hos.Quantity.{Quantities}
use cluster_api_provider_hos.Api.{HostedControlPlaneStatus, EtcdComponent, auto_grow_enabled}
use cluster_api_provider_hos.Etcd.Calls.{
  Pod, get_max_volume_usage, Answers, EtcdState, status, set_status, call,
}

-- The two sizes of `etcdClusterReconciler` that steer the growth of the volumes.
pub record Storage (Q : Type 0) : Type 0 where
  pub buffer : Q
  pub increment : Q

abbrev pub max_ℤ : ℤ → ℤ → ℤ
max_ℤ a b = if ltb_ℤ a b then b else a

abbrev pub is_zero_ℤ : ℤ → Bool
is_zero_ℤ (pos zero) = true
is_zero_ℤ (pos (suc n)) = false
is_zero_ℤ (negsuc n) = false

-- Pods that have been given a node.
unfoldable pub is_scheduled : Pod → Bool
is_scheduled pod = not (pod.node_name == "")

-- A dereferenced nil pointer.
abbrev pub nil_dereference : Error
nil_dereference = new "invalid memory address or nil pointer dereference"

module _ (q : Quantities) where
  open q use {Quantity, add, sub, less, new_quantity, value}

  abbrev pub set_usage : ℤ → EtcdState Quantity → EtcdState Quantity
  set_usage n s = set_status (record (status s) { etcd_volume_usage = new_quantity n }) s

  abbrev pub set_size : Quantity → EtcdState Quantity → EtcdState Quantity
  set_size size s = set_status (record (status s) { etcd_volume_size = size }) s

  -- With an error the usage of some pods is missing: the last known usage is a lower bound.
  unfoldable pub record_usage : ℤ × Option Error → Exec (EtcdState Quantity) Unit
  record_usage (usage, none) s = (ok tt, set_usage usage s)
  record_usage (usage, some e) s =
      if is_zero_ℤ usage
      then (err (wrap "failed to get etcd volume usage for all pods" e), s)
      else (ok tt, set_usage (max_ℤ usage (value (status s).etcd_volume_usage)) s)

  unfoldable pub reconcile_space_usage :
      Answers Quantity → List Pod → Exec (EtcdState Quantity) Unit
  unfolding is_scheduled
  reconcile_space_usage answers pods = do
    usage ←
        call (get_max_volume_usage (filter is_scheduled pods))
          (λ l. ok (answers.get_max_volume_usage l))
    record_usage usage

  -- One increment more if less than the buffer is free.
  unfoldable pub grown : Storage Quantity → HostedControlPlaneStatus Quantity → Quantity
  grown storage st =
      if less (sub st.etcd_volume_size st.etcd_volume_usage) storage.buffer
      then add st.etcd_volume_size storage.increment
      else st.etcd_volume_size

  -- `none` where the code dereferences a nil volume size.
  unfoldable pub get_etcd_volume_size :
      Storage Quantity
      → EtcdComponent Quantity
      → HostedControlPlaneStatus Quantity
      → Option Quantity
  unfolding grown
  get_etcd_volume_size storage etcd st =
      if auto_grow_enabled etcd then some (grown storage st) else etcd.volume_size

  unfoldable pub set_volume_size : Option Quantity → Exec (EtcdState Quantity) Unit
  set_volume_size none s = (err nil_dereference, s)
  set_volume_size (some size) s = (ok tt, set_size size s)

  -- `hostedControlPlane.Status.ETCDVolumeSize = er.getETCDVolumeSize(ctx, hostedControlPlane)`.
  unfoldable pub reconcile_volume_size : Storage Quantity → Exec (EtcdState Quantity) Unit
  unfolding set_volume_size
  reconcile_volume_size storage s =
      set_volume_size (get_etcd_volume_size storage s.hcp.spec.etcd (status s)) s
