-- ===== src/Etcd/Cluster/Success.antt =====
-- What a reconciliation of etcd that succeeds has seen.
use cluster_api_provider_hos.Prelude.{
  String, ◌≡◌, refl, sym, ap, ◌∙◌, ◌≢◌, Bool, true, false, Option, none, some, List, [], ◌∷◌, ◌++◌,
  string_eq, nat_eq, option_eq, if◌then◌else◌, filter, All,
}
use cluster_api_provider_hos.Prelude.Exec.{Result, ok, Exec, ◌>>=◌}
use cluster_api_provider_hos.Prelude.Succeeds.{bind-ok}
use cluster_api_provider_hos.Quantity.{Quantities}
use cluster_api_provider_hos.Api.{Cluster}
use cluster_api_provider_hos.Etcd.Calls.{
  Pod, Alarm, Call, Answers, EtcdState, list_alarms, log, disarm_alarm,
}
use cluster_api_provider_hos.Etcd.Space.{Storage}
use cluster_api_provider_hos.Etcd.Health.{is_nospace, has_headroom, etcd_is_healthy}
use cluster_api_provider_hos.Etcd.Health.Laws.{disarms, etcd_is_healthy-ok}
use cluster_api_provider_hos.Etcd.Container.{Semver, Ports}
use cluster_api_provider_hos.Etcd.Cluster.{
  when_ready, reconcile_members, reconcile_storage, reconcile_client_service,
  reconcile_etcd_cluster, backup_if_set,
}
use cluster_api_provider_hos.Etcd.Space.{set_volume_size, reconcile_volume_size}
use cluster_api_provider_hos.Etcd.Defragmentation.{reconcile_maintenance}
use cluster_api_provider_hos.Etcd.Cluster.Frame.{
  Evolves, extends_trans, call-Evolves, wrapping-Evolves, list_etcd_pods-Evolves,
  reconcile_space_usage-Evolves, reconcile_pvc_sizes-Evolves, reconcile_maintenance-Evolves,
}
use cluster_api_provider_hos.Etcd.Cluster.Steps.{
  stateful_set-Evolves, service-Evolves, backup_if_set-Evolves,
}

when_ready-ok :
    {S : Type 0} (reason : String) (b : Bool) (x : Exec S String) (s t : S)
    → reason ≢ ""
    → when_ready reason b x s ≡ (ok "", t)
    → x s ≡ (ok "", t)
unfolding when_ready
when_ready-ok reason true x s t differ h = h
when_ready-ok reason false x s t differ h =
    absurd (differ (cc (ap (λ (r : Result String × _). r.0) h)))

disarms-extends :
    {Q : Type 0} (zs : List Alarm) (calls : List (Call Q))
    → (later : List (Call Q)) × (disarms zs calls ≡ later ++ calls)
disarms-extends [] calls = ([], refl)
disarms-extends (a ∷ zs) calls =
    extends_trans calls (disarm_alarm a ∷ calls) _ (disarm_alarm a ∷ [], refl)
      (disarms-extends zs (disarm_alarm a ∷ calls))

if-extends :
    {Q : Type 0} (b : Bool) (zs : List Alarm) (calls : List (Call Q))
    → (later : List (Call Q)) × ((if b then disarms zs calls else calls) ≡ later ++ calls)
if-extends true zs calls = disarms-extends zs calls
if-extends false zs calls = ([], refl)

module _ (q : Quantities) (v : Semver) (storage : Storage q.Quantity) (answers : Answers q.Quantity)
    (ports : Ports) (cluster : Cluster) where
  open q use {Quantity}

  -- Between `s` and `t` etcd was asked for its alarms, and all of them were NOSPACE alarms.
  pub record SeenHealthy (s t : EtcdState Quantity) : Type 0 where
    pub calls : List (Call Quantity)
    pub alarms : List Alarm
    pub earlier : (before : List (Call Quantity)) × (calls ≡ before ++ log s)
    pub asked : (later : List (Call Quantity)) × (log t ≡ later ++ (list_alarms ∷ calls))
    pub listed : answers.list_alarms (list_alarms ∷ calls) ≡ ok alarms
    pub only_space : All (λ a. is_nospace a ≡ true) alarms

  abbrev Extends : EtcdState Quantity → EtcdState Quantity → Type 0
  Extends s t = (later : List (Call Quantity)) × (log t ≡ later ++ log s)

  -- What happens before does not matter.
  earlier-SeenHealthy :
      (s u t : EtcdState Quantity) → Extends s u → SeenHealthy u t → SeenHealthy s t
  earlier-SeenHealthy s u t e h = record {
    calls = h.calls;
    alarms = h.alarms;
    earlier = extends_trans (log s) (log u) h.calls e h.earlier;
    asked = h.asked;
    listed = h.listed;
    only_space = h.only_space;
  }

  -- A check that succeeds, and what stands behind it.
  healthy-SeenHealthy :
      (u w t : EtcdState Quantity)
      → etcd_is_healthy q storage answers u ≡ (ok tt, w)
      → Extends w t
      → SeenHealthy u t
  healthy-SeenHealthy u w t healthy later =
      let (alarms, listed, checked) = etcd_is_healthy-ok q storage answers u w healthy in
      let first =
        if-extends (has_headroom q storage answers u.hcp.status) (filter is_nospace alarms)
          (list_alarms ∷ log u) in
      record {
        calls = log u;
        alarms = alarms;
        earlier = ([], refl);
        asked =
            extends_trans (list_alarms ∷ log u) (log w) (log t)
              (first.0, checked.disarmed ∙ first.1) later;
        listed = listed;
        only_space = checked.only_space;
      }

  members-SeenHealthy :
      (pods : List Pod) (s t : EtcdState Quantity)
      → reconcile_members q v storage answers ports cluster pods s ≡ (ok "", t)
      → SeenHealthy s t
  unfolding reconcile_members Evolves
  members-SeenHealthy pods s t h =
      let maintenance = reconcile_maintenance answers pods in
      let backup = backup_if_set q v storage answers ports cluster s.hcp.spec.etcd.backup in
      let (_, _, h1) = bind-ok maintenance _ s t "" h in
      let u = (maintenance s).1 in
      let (_, healthy, h2) = bind-ok (etcd_is_healthy q storage answers) _ u t "" h1 in
      let w = (etcd_is_healthy q storage answers u).1 in
      let (_, _, h3) = bind-ok backup _ w t "" h2 in
      let last = ap (λ (r : Result String × EtcdState Quantity). log r.1) h3 in
      let (later, e) =
        (backup_if_set-Evolves q v storage answers ports cluster s.hcp.spec.etcd.backup
          w).extends in
      earlier-SeenHealthy s u t (reconcile_maintenance-Evolves q answers pods s).extends
        (healthy-SeenHealthy u w t healthy (later, sym last ∙ e))

  unfoldable Appends : {A : Type 0} → Exec (EtcdState Quantity) A → Type 0
  Appends x = (s : EtcdState Quantity) → Extends s (x s).1

  Evolves-Appends : {A : Type 0} (x : Exec (EtcdState Quantity) A) → Evolves q x → Appends x
  unfolding Appends Evolves
  Evolves-Appends x e s = (e s).extends

  -- An action that has seen a healthy etcd wherever it succeeds and is ready.
  unfoldable Shows : Exec (EtcdState Quantity) String → Type 0
  Shows x = (s t : EtcdState Quantity) → x s ≡ (ok "", t) → SeenHealthy s t

  bind-Shows :
      {A : Type 0} (x : Exec (EtcdState Quantity) A) (f : A → Exec (EtcdState Quantity) String)
      → Appends x
      → ((a : A) → Shows (f a))
      → Shows (x >>= f)
  unfolding Appends Shows
  bind-Shows x f e h s t p =
      let (a, _, rest) = bind-ok x f s t "" p in
      earlier-SeenHealthy s (x s).1 t (e s) (h a (x s).1 t rest)

  when_ready-Shows :
      (reason : String) (b : Bool) (x : Exec (EtcdState Quantity) String)
      → reason ≢ ""
      → Shows x
      → Shows (when_ready reason b x)
  unfolding Shows
  when_ready-Shows reason b x differ h s t p = h s t (when_ready-ok reason b x s t differ p)

  members-Shows :
      (pods : List Pod) → Shows (reconcile_members q v storage answers ports cluster pods)
  unfolding Shows
  members-Shows pods = members-SeenHealthy pods

  set_size-Extends :
      (o : Option Quantity) (s : EtcdState Quantity) → Extends s (set_volume_size q o s).1
  unfolding set_volume_size
  set_size-Extends none s = ([], refl)
  set_size-Extends (some size) s = ([], refl)

  volume_size-Appends : Appends (reconcile_volume_size q storage)
  unfolding reconcile_volume_size Appends
  volume_size-Appends s = set_size-Extends _ s

  storage-Shows : Shows (reconcile_storage q v storage answers ports cluster)
  unfolding reconcile_storage
  storage-Shows = bind-Shows _ _ (Evolves-Appends _ (list_etcd_pods-Evolves q answers)) (λ pods.
      bind-Shows _ _
        (Evolves-Appends _ (wrapping-Evolves q _ _ (reconcile_space_usage-Evolves q answers pods)))
        (λ _. bind-Shows _ _ volume_size-Appends (λ _.
          bind-Shows _ _
            (Evolves-Appends _ (wrapping-Evolves q _ _ (reconcile_pvc_sizes-Evolves q answers)))
            (λ _.
              bind-Shows _ _ (Evolves-Appends _ (wrapping-Evolves q _ _ (call-Evolves q _ _))) (λ _.
                bind-Shows _ _
                  (Evolves-Appends _ (
                    wrapping-Evolves q _ _
                      (stateful_set-Evolves q v storage answers ports cluster)))
                  (λ ready. when_ready-Shows _ ready _ (λ p. cc) (members-Shows pods)))))))

  client-Shows : Shows (reconcile_client_service q v storage answers ports cluster)
  unfolding reconcile_client_service
  client-Shows =
      bind-Shows _ _
        (Evolves-Appends _
          (wrapping-Evolves q _ _ (service-Evolves q v storage answers ports cluster _ _)))
        (λ ready. when_ready-Shows _ ready _ (λ p. cc) storage-Shows)

  cluster-Shows : Shows (reconcile_etcd_cluster q v storage answers ports cluster)
  unfolding reconcile_etcd_cluster
  cluster-Shows =
      bind-Shows _ _
        (Evolves-Appends _
          (wrapping-Evolves q _ _ (service-Evolves q v storage answers ports cluster _ _)))
        (λ ready. when_ready-Shows _ ready _ (λ p. cc) client-Shows)

  -- If the reconciliation of etcd succeeds and is ready, then between its beginning and its end
  -- etcd was asked for its alarms, and answered with NOSPACE alarms at most: no other alarm is
  -- passed over.
  pub reconcile_etcd_cluster-SeenHealthy :
      (s t : EtcdState Quantity)
      → reconcile_etcd_cluster q v storage answers ports cluster s ≡ (ok "", t)
      → SeenHealthy s t
  unfolding Shows
  reconcile_etcd_cluster-SeenHealthy s t h = cluster-Shows s t h
