-- ===== src/Etcd/Cluster/Laws.antt =====
-- What one reconciliation of etcd keeps, whatever the calls answer and wherever it ends.
use cluster_api_provider_hos.Prelude.{
  ℕ, String, ◌≡◌, refl, inl, inr, Bool, true, false, Option, none, some, List, [], arith, string_eq,
  nat_eq, option_eq, Bool-cases,
}
use cluster_api_provider_hos.Prelude.Exec.{Exec}
use cluster_api_provider_hos.Prelude.Int.{pos, ◌≤ℤ◌, int_laws}
use cluster_api_provider_hos.Quantity.{Quantities}
use cluster_api_provider_hos.Api.{Cluster, HostedControlPlaneStatus, auto_grow_enabled}
use cluster_api_provider_hos.Controller.Normal.Flags.{KeepsFlags}
use cluster_api_provider_hos.Etcd.Calls.{Pod, Answers, EtcdState, status}
use cluster_api_provider_hos.Etcd.Space.{
  Storage, grown, get_etcd_volume_size, set_volume_size, reconcile_volume_size,
}
use cluster_api_provider_hos.Etcd.Defragmentation.{reconcile_maintenance}
use cluster_api_provider_hos.Etcd.Health.{etcd_is_healthy}
use cluster_api_provider_hos.Etcd.Container.{Semver, Ports}
use cluster_api_provider_hos.Etcd.Cluster.{
  when_ready, backup_if_set, reconcile_members, reconcile_storage, reconcile_client_service,
  reconcile_etcd_cluster,
}
use cluster_api_provider_hos.Etcd.Cluster.Frame.{
  Evolved, Evolves, Evolved-refl, bind-Evolves, wrapping-Evolves, pure-Evolves, call-Evolves,
  list_etcd_pods-Evolves, reconcile_space_usage-Evolves, reconcile_pvc_sizes-Evolves,
  reconcile_maintenance-Evolves,
}
use cluster_api_provider_hos.Etcd.Cluster.Members.{etcd_is_healthy-Evolves}
use cluster_api_provider_hos.Etcd.Cluster.Steps.{
  stateful_set-Evolves, service-Evolves, backup_if_set-Evolves,
}

module _ (q : Quantities) (storage : Storage q.Quantity) (k : ℕ)
    (whole_increment : q.amount storage.increment ≡ pos k) where
  open q use {Quantity, amount, less, sub, add}

  grown_larger :
      (st : HostedControlPlaneStatus Quantity)
      → amount st.etcd_volume_size ≤ℤ amount (grown q storage st)
  unfolding grown
  grown_larger st =
      elim (Bool-cases (less (sub st.etcd_volume_size st.etcd_volume_usage) storage.buffer)) [
        | inl low ↦ rw low (
            rw (q.amount-add st.etcd_volume_size storage.increment)
              (rw whole_increment (omega int_laws)))
        | inr enough ↦ rw enough (omega arith)
      ]

  set_fixed-Evolved :
      (o : Option Quantity) (s : EtcdState Quantity)
      → auto_grow_enabled s.hcp.spec.etcd ≡ false
      → Evolved q s (set_volume_size q o s).1
  unfolding set_volume_size
  set_fixed-Evolved none s fixed = Evolved-refl q s
  set_fixed-Evolved (some size) s fixed = record {
    spec = refl;
    initialized = refl;
    ready = refl;
    extends = ([], refl);
    grows = λ h. absurd (cc (h, fixed));
  }

  reconcile_volume_size-Evolves : Evolves q (reconcile_volume_size q storage)
  unfolding reconcile_volume_size set_volume_size get_etcd_volume_size Evolves
  reconcile_volume_size-Evolves s = elim (Bool-cases (auto_grow_enabled s.hcp.spec.etcd)) [
    | inl grows ↦ rw grows (record {
      spec = refl;
      initialized = refl;
      ready = refl;
      extends = ([], refl);
      grows = λ h. grown_larger (status s);
    })
    | inr fixed ↦ rw fixed (set_fixed-Evolved s.hcp.spec.etcd.volume_size s fixed)
  ]

  module _ (v : Semver) (answers : Answers q.Quantity) (ports : Ports) (cluster : Cluster) where
    when_ready-Evolves :
        (reason : String) (b : Bool) (x : Exec (EtcdState Quantity) String)
        → Evolves q x
        → Evolves q (when_ready reason b x)
    unfolding when_ready
    when_ready-Evolves reason true x h = h
    when_ready-Evolves reason false x h = pure-Evolves q reason

    reconcile_members-Evolves :
        (pods : List Pod) → Evolves q (reconcile_members q v storage answers ports cluster pods)
    unfolding reconcile_members Evolves
    reconcile_members-Evolves pods s =
        bind-Evolves q (reconcile_maintenance answers pods) _
          (reconcile_maintenance-Evolves q answers pods)
          (λ _.
            bind-Evolves q (etcd_is_healthy q storage answers) _
              (etcd_is_healthy-Evolves q storage answers)
              (λ _.
                bind-Evolves q
                  (backup_if_set q v storage answers ports cluster s.hcp.spec.etcd.backup) _
                  (backup_if_set-Evolves q v storage answers ports cluster s.hcp.spec.etcd.backup)
                  (λ _. pure-Evolves q {A = String} "")))
          s

    reconcile_storage-Evolves : Evolves q (reconcile_storage q v storage answers ports cluster)
    unfolding reconcile_storage
    reconcile_storage-Evolves = bind-Evolves q _ _ (list_etcd_pods-Evolves q answers) (λ pods.
        bind-Evolves q _ _ (wrapping-Evolves q _ _ (reconcile_space_usage-Evolves q answers pods))
          (λ _. bind-Evolves q _ _ reconcile_volume_size-Evolves (λ _.
            bind-Evolves q _ _ (wrapping-Evolves q _ _ (reconcile_pvc_sizes-Evolves q answers))
              (λ _. bind-Evolves q _ _ (wrapping-Evolves q _ _ (call-Evolves q _ _)) (λ _.
                bind-Evolves q _ _
                  (wrapping-Evolves q _ _ (stateful_set-Evolves q v storage answers ports cluster))
                  (λ ready. when_ready-Evolves _ ready _ (reconcile_members-Evolves pods)))))))

    reconcile_client_service-Evolves :
        Evolves q (reconcile_client_service q v storage answers ports cluster)
    unfolding reconcile_client_service
    reconcile_client_service-Evolves =
        bind-Evolves q _ _
          (wrapping-Evolves q _ _ (service-Evolves q v storage answers ports cluster _ _))
          (λ ready. when_ready-Evolves _ ready _ reconcile_storage-Evolves)

    reconcile_etcd_cluster-Evolves :
        Evolves q (reconcile_etcd_cluster q v storage answers ports cluster)
    unfolding reconcile_etcd_cluster
    reconcile_etcd_cluster-Evolves =
        bind-Evolves q _ _
          (wrapping-Evolves q _ _ (service-Evolves q v storage answers ports cluster _ _))
          (λ ready. when_ready-Evolves _ ready _ reconcile_client_service-Evolves)

    -- With a whole increment that is not negative, whatever the calls answer and whether or not
    -- the reconciliation succeeds: the specification is as it was, and automatic growth, where it
    -- is on, does not make the volume size of the status smaller.
    pub reconcile_etcd_cluster-grows :
        (s : EtcdState Quantity)
        → let t = (reconcile_etcd_cluster q v storage answers ports cluster s).1 in
          (t.hcp.spec ≡ s.hcp.spec)
          × (auto_grow_enabled s.hcp.spec.etcd ≡ true
              → amount (status s).etcd_volume_size ≤ℤ amount (status t).etcd_volume_size)
    unfolding Evolves
    reconcile_etcd_cluster-grows s = let e = reconcile_etcd_cluster-Evolves s in (e.spec, e.grows)

    -- With a whole increment that is not negative, the reconciler of etcd keeps the two flags of the
    -- status, whatever the calls answer and wherever it ends: it is one of the reconcilers that the
    -- invariant of the phases asks for.
    pub reconcile_etcd_cluster-KeepsFlags :
        KeepsFlags (reconcile_etcd_cluster q v storage answers ports cluster)
    unfolding Evolves
    reconcile_etcd_cluster-KeepsFlags s =
        let e = reconcile_etcd_cluster-Evolves s in
        λ i. record { initialized = e.initialized i; ready = e.ready i }
