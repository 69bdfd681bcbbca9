-- ===== src/Etcd/Cluster/Frame.antt =====
-- What no reconciliation of etcd does: it leaves the specification and the flags of the status
-- alone, and it never makes a volume that grows automatically smaller. One lemma for each action.
use cluster_api_provider_hos.Prelude.{
  ℕ, String, ◌≡◌, refl, sym, ap, ◌∙◌, inl, inr, Bool, true, false, Option, none, some, List, [],
  ◌∷◌, ◌++◌, arith, string_eq, nat_eq, option_eq, if◌then◌else◌, ◌<>◌, Bool-cases,
}
use cluster_api_provider_hos.Prelude.Exec.{
  Error, wrap, Result, ok, err, Exec, pure, wrapping, modify, continue, ◌>>=◌,
}
use mathlib.Core.List.{append_assoc}
use cluster_api_provider_hos.Prelude.Int.{ℤ, ◌≤ℤ◌}
use cluster_api_provider_hos.Quantity.{Quantities}
use cluster_api_provider_hos.Api.{HostedControlPlaneSpec, auto_grow_enabled, is_zero_time}
use cluster_api_provider_hos.Etcd.Calls.{
  Pod, VolumeClaim, MemberStatus, Call, Answers, EtcdState, status, log, call, now, read_clock,
  apply_volume_claim,
}
use cluster_api_provider_hos.Etcd.Space.{
  record_usage, reconcile_space_usage, is_zero_ℤ, set_usage, max_ℤ,
}
use cluster_api_provider_hos.Etcd.Volumes.{list_etcd_pods, resize_claims, reconcile_pvc_sizes}
use cluster_api_provider_hos.Etcd.Defragmentation.{
  defragment_members, defragment_loop, is_fragmented, is_cooling, unless_cooling,
  reconcile_defragmentation, reconcile_maintenance,
}

pub extends_trans :
    {A : Type 0} (xs ys zs : List A)
    → ((later : List A) × (ys ≡ later ++ xs))
    → ((later : List A) × (zs ≡ later ++ ys))
    → (later : List A) × (zs ≡ later ++ xs)
extends_trans xs ys zs (l, p) (m, r) = (m ++ l, r ∙ ap (λ v. m ++ v) p ∙ sym (append_assoc m l xs))

module _ (q : Quantities) where
  open q use {Quantity, amount, add, sub, less}

  pub record Evolved (s t : EtcdState Quantity) : Type 0 where
    pub spec : t.hcp.spec ≡ s.hcp.spec
    pub initialized : (status t).control_plane_initialized ≡ (status s).control_plane_initialized
    pub ready : (status t).ready ≡ (status s).ready
    pub extends : (later : List (Call Quantity)) × (log t ≡ later ++ log s)
    pub grows :
        auto_grow_enabled s.hcp.spec.etcd ≡ true
        → amount (status s).etcd_volume_size ≤ℤ amount (status t).etcd_volume_size

  pub Evolved-refl : (s : EtcdState Quantity) → Evolved s s
  Evolved-refl s = record {
    spec = refl;
    initialized = refl;
    ready = refl;
    extends = ([], refl);
    grows = λ h. omega arith;
  }

  -- A step that leaves the size alone.
  pub same-Evolved :
      (s t : EtcdState Quantity)
      → t.hcp.spec ≡ s.hcp.spec
      → (status t).control_plane_initialized ≡ (status s).control_plane_initialized
      → (status t).ready ≡ (status s).ready
      → (status t).etcd_volume_size ≡ (status s).etcd_volume_size
      → (later : List (Call Quantity)) × (log t ≡ later ++ log s)
      → Evolved s t
  same-Evolved s t spec initialized ready size extends = record {
    spec = spec;
    initialized = initialized;
    ready = ready;
    extends = extends;
    grows = λ h. rw size (omega arith);
  }

  pub Evolved-trans : (s t u : EtcdState Quantity) → Evolved s t → Evolved t u → Evolved s u
  Evolved-trans s t u e f = record {
    spec = f.spec ∙ e.spec;
    initialized = f.initialized ∙ e.initialized;
    ready = f.ready ∙ e.ready;
    extends = extends_trans (log s) (log t) (log u) e.extends f.extends;
    grows = λ h.
        let first = e.grows h in
        let second =
          f.grows
            (ap (λ (p : HostedControlPlaneSpec Quantity). auto_grow_enabled p.etcd) e.spec ∙ h) in
        omega (arith, first, second);
  }

  unfoldable pub Evolves : {A : Type 0} → Exec (EtcdState Quantity) A → Type 0
  Evolves x = (s : EtcdState Quantity) → Evolved s (x s).1

  continue-Evolved :
      {A B : Type 0} (r : Result A) (f : A → Exec (EtcdState Quantity) B)
      → ((a : A) → Evolves (f a))
      → (s : EtcdState Quantity) → Evolved s (continue r f s).1
  unfolding Evolves
  continue-Evolved (ok a) f h s = h a s
  continue-Evolved (err e) f h s = Evolved-refl s

  pub bind-Evolves :
      {A B : Type 0} (x : Exec (EtcdState Quantity) A) (f : A → Exec (EtcdState Quantity) B)
      → Evolves x
      → ((a : A) → Evolves (f a))
      → Evolves (x >>= f)
  unfolding Evolves ◌>>=◌
  bind-Evolves x f h k s = Evolved-trans s (x s).1 _ (h s) (continue-Evolved (x s).0 f k (x s).1)

  pub wrapping-Evolves :
      {A : Type 0} (m : String) (x : Exec (EtcdState Quantity) A)
      → Evolves x
      → Evolves (wrapping m x)
  unfolding Evolves
  wrapping-Evolves m x h s = h s

  pub pure-Evolves : {A : Type 0} (a : A) → Evolves (pure a)
  unfolding Evolves
  pure-Evolves a s = Evolved-refl s

  pub call-Evolves :
      {A : Type 0} (c : Call Quantity) (answer : List (Call Quantity) → Result A)
      → Evolves (call c answer)
  unfolding Evolves call
  call-Evolves c answer s = same-Evolved s _ refl refl refl refl (c ∷ [], refl)

  pub if-Evolves :
      {A : Type 0} (b : Bool) (x y : Exec (EtcdState Quantity) A)
      → Evolves x
      → Evolves y
      → Evolves (λ s. if b then x s else y s)
  unfolding Evolves
  if-Evolves true x y h k s = h s
  if-Evolves false x y h k s = k s

module _ (q : Quantities) (answers : Answers q.Quantity) where
  open q use {Quantity, amount, value}

  pub now-Evolves : Evolves q (now {Q = Quantity} answers.read_clock)
  unfolding now
  now-Evolves = call-Evolves q read_clock (λ l. ok (answers.read_clock l))

  pub list_etcd_pods-Evolves : Evolves q (list_etcd_pods answers)
  unfolding list_etcd_pods
  list_etcd_pods-Evolves = wrapping-Evolves q _ _ (call-Evolves q _ _)

  record_usage-Evolves : (u : ℤ × Option Error) → Evolves q (record_usage q u)
  unfolding record_usage Evolves
  record_usage-Evolves (usage, none) s = same-Evolved q s _ refl refl refl refl ([], refl)
  record_usage-Evolves (usage, some e) s =
      if-Evolves q (is_zero_ℤ usage)
        (λ t. (err (wrap "failed to get etcd volume usage for all pods" e), t))
        (λ t. (ok tt, set_usage q (max_ℤ usage (value (status t).etcd_volume_usage)) t))
        (λ t. Evolved-refl q t) (λ t. same-Evolved q t _ refl refl refl refl ([], refl)) s

  pub reconcile_space_usage-Evolves :
      (pods : List Pod) → Evolves q (reconcile_space_usage q answers pods)
  unfolding reconcile_space_usage
  reconcile_space_usage-Evolves pods =
      bind-Evolves q _ _ (call-Evolves q _ (λ l. ok (answers.get_max_volume_usage l)))
        record_usage-Evolves

  resize_claims-Evolves :
      (cs : List (VolumeClaim Quantity)) → Evolves q (resize_claims q answers cs)
  unfolding resize_claims Evolves
  resize_claims-Evolves [] s = Evolved-refl q s
  resize_claims-Evolves (c ∷ cs) s =
      let size = (status s).etcd_volume_size in
      elim (Bool-cases (q.less c.storage size)) [
        | inl e ↦ rw e (
            bind-Evolves q
              (wrapping
                ("failed to apply size change to etcd PVC " <> s.hcp.namespace <> "/" <> c.name)
                (call (apply_volume_claim c.name size) answers.apply_volume_claim))
              (λ u. resize_claims q answers cs)
              (call-Evolves q (apply_volume_claim c.name size) answers.apply_volume_claim)
              (λ u. resize_claims-Evolves cs) s)
        | inr e ↦ rw e (resize_claims-Evolves cs s)
      ]

  pub reconcile_pvc_sizes-Evolves : Evolves q (reconcile_pvc_sizes q answers)
  unfolding reconcile_pvc_sizes
  reconcile_pvc_sizes-Evolves =
      bind-Evolves q _ _ (wrapping-Evolves q _ _ (call-Evolves q _ _)) resize_claims-Evolves

  pub modify-Evolves :
      (f : EtcdState Quantity → EtcdState Quantity)
      → ((s : EtcdState Quantity) → Evolved q s (f s))
      → Evolves q (modify f)
  unfolding Evolves
  modify-Evolves f h s = h s

  defragment_members-Evolves : Evolves q (defragment_members answers)
  unfolding defragment_members
  defragment_members-Evolves = bind-Evolves q _ _ now-Evolves (λ attempted.
      bind-Evolves q _ _ (modify-Evolves _ (λ s. same-Evolved q s _ refl refl refl refl ([], refl)))
        (λ _. bind-Evolves q _ _ (wrapping-Evolves q _ _ (call-Evolves q _ _)) (λ _.
          bind-Evolves q _ _ now-Evolves (λ finished.
            modify-Evolves _ (λ s. same-Evolved q s _ refl refl refl refl ([], refl))))))

  defragment_loop-Evolves : (ms : List MemberStatus) → Evolves q (defragment_loop answers ms)
  unfolding defragment_loop
  defragment_loop-Evolves [] = pure-Evolves q tt
  defragment_loop-Evolves (m ∷ ms) = elim (Bool-cases (is_fragmented m)) [
    | inl e ↦ rw e defragment_members-Evolves
    | inr e ↦ rw e (defragment_loop-Evolves ms)
  ]

  unless_cooling-Evolves :
      (ms : List MemberStatus) (time : ℕ) → Evolves q (unless_cooling answers ms time)
  unfolding unless_cooling Evolves
  unless_cooling-Evolves ms time s =
      elim (Bool-cases (is_cooling answers (status s).etcd_last_attempted_defrag_time time)) [
        | inl e ↦ rw e (Evolved-refl q s)
        | inr e ↦ rw e (defragment_loop-Evolves ms s)
      ]

  reconcile_defragmentation-Evolves :
      (ms : List MemberStatus) → Evolves q (reconcile_defragmentation answers ms)
  unfolding reconcile_defragmentation Evolves
  reconcile_defragmentation-Evolves ms s =
      elim (Bool-cases (is_zero_time (status s).etcd_last_attempted_defrag_time)) [
        | inl e ↦ rw e (defragment_loop-Evolves ms s)
        | inr e ↦ rw e (bind-Evolves q _ _ now-Evolves (unless_cooling-Evolves ms) s)
      ]

  pub reconcile_maintenance-Evolves :
      (pods : List Pod) → Evolves q (reconcile_maintenance answers pods)
  unfolding reconcile_maintenance
  reconcile_maintenance-Evolves pods =
      bind-Evolves q _ _ (wrapping-Evolves q _ _ (call-Evolves q _ _))
        (λ ms. wrapping-Evolves q _ _ (reconcile_defragmentation-Evolves ms))
