-- ===== src/Etcd/Volumes.antt =====
-- `listEtcdPods` and `reconcilePVCSizes` of pkg/reconcilers/etcd_cluster/reconciler.go.
pub mod Laws
use cluster_api_provider_hos.Prelude.{
  ℕ, ◌/◌, ◌<◌, List, [], ◌∷◌, arith, ◌==◌, string_eq, nat_eq, Eq, option_eq, if◌then◌else◌, ◌<>◌,
}
use cluster_api_provider_hos.Prelude.Exec.{ok, Exec, wrapping, ◌>>=◌, ◌>>◌}
use cluster_api_provider_hos.Quantity.{Quantities}
use cluster_api_provider_hos.Etcd.Calls.{
  Pod, VolumeClaim, list_pods, list_volume_claims, apply_volume_claim, Answers, EtcdState, status,
  call,
}

unfoldable pub list_etcd_pods : {Q : Type 0} → Answers Q → Exec (EtcdState Q) (List Pod)
list_etcd_pods answers = wrapping "failed to list etcd pods" (call list_pods answers.list_pods)

module _ (q : Quantities) where
  open q use {Quantity, less}

  -- `for _, pvc := range pvcList.Items`: a claim that requests less than the volume size gets it.
  unfoldable pub resize_claims :
      Answers Quantity → List (VolumeClaim Quantity) → Exec (EtcdState Quantity) Unit
  resize_claims answers [] s = (ok tt, s)
  resize_claims answers (c ∷ cs) s =
      let rest = resize_claims answers cs in
      let size = (status s).etcd_volume_size in
      if less c.storage size
      then (do
        wrapping ("failed to apply size change to etcd PVC " <> s.hcp.namespace <> "/" <> c.name)
            (call (apply_volume_claim c.name size) answers.apply_volume_claim)
        rest)
          s
      else rest s

  unfoldable pub reconcile_pvc_sizes : Answers Quantity → Exec (EtcdState Quantity) Unit
  reconcile_pvc_sizes answers = do
    claims ←
        wrapping "failed to list etcd PVCs" (call list_volume_claims answers.list_volume_claims)
    resize_claims answers claims
