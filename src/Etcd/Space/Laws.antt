-- ===== src/Etcd/Space/Laws.antt =====
-- The recorded usage of the etcd volumes, and their size.
use cluster_api_provider_hos.Prelude.{
  ℕ, zero, suc, ◌+◌, ◌*◌, ◌≡◌, refl, ap, ◌∙◌, subst, ◌↔◌, ◌⊎◌, inl, inr, true, false, Option, none,
  some, arith, string_eq, nat_eq, option_eq, Bool-cases, is_some,
}
use cluster_api_provider_hos.Prelude.Exec.{Error, ok, Exec, pure, ◌>>=◌, ◌>>◌}
use cluster_api_provider_hos.Prelude.Int.{ℤ, pos, ◌+ℤ◌, ◌-ℤ◌, ◌≤ℤ◌, ◌<ℤ◌, int_laws}
use cluster_api_provider_hos.Quantity.{Quantities}
use cluster_api_provider_hos.Api.{HostedControlPlaneStatus, auto_grow_enabled}
use cluster_api_provider_hos.Etcd.Calls.{EtcdState, status}
use cluster_api_provider_hos.Etcd.Space.{
  Storage, max_ℤ, record_usage, grown, set_size, set_volume_size, get_etcd_volume_size,
  reconcile_volume_size,
}

max_ℤ_left : (a b : ℤ) → a ≤ℤ max_ℤ a b
max_ℤ_left a b = ground arith

max_ℤ_right : (a b : ℤ) → b ≤ℤ max_ℤ a b
max_ℤ_right a b = ground arith

module _ (q : Quantities) where
  open q use {Quantity, amount, add, sub, less, new_quantity, value}

  -- What the usage becomes: with an error it is the larger of the measured and the known usage.
  abbrev pub recorded : ℤ × Option Error → HostedControlPlaneStatus Quantity → ℤ
  recorded (usage, none) st = usage
  recorded (usage, some e) st = max_ℤ usage (value st.etcd_volume_usage)

  -- Whatever the kubelets answer: if the usage is recorded, then as it was measured when all pods
  -- answered, and as the larger of the measured and the previous usage when some did not, so that
  -- it is never below either; if it is not recorded, then the usage stays as it was.
  pub record_usage-cases :
      (usage : ℤ) (e : Option Error) (s : EtcdState Quantity)
      → let (r, t) = record_usage q (usage, e) s in
        ((r ≡ ok tt)
          × (amount (status t).etcd_volume_usage ≡ recorded (usage, e) (status s))
          × (usage ≤ℤ amount (status t).etcd_volume_usage)
          × (is_some e ≡ true
              → value (status s).etcd_volume_usage ≤ℤ amount (status t).etcd_volume_usage))
        ⊎ ((is_some e ≡ true) × (usage ≡ pos 0) × (t ≡ s))
  unfolding record_usage
  record_usage-cases usage none s =
      inl
        (refl, q.amount-new_quantity usage, rw (q.amount-new_quantity usage) (omega arith), λ h. cc)
  record_usage-cases (pos zero) (some e) s = inr (refl, refl, refl)
  record_usage-cases usage (some e) s =
      let known = value (status s).etcd_volume_usage in
      inl (
        refl,
        q.amount-new_quantity _,
        rw (q.amount-new_quantity (max_ℤ usage known)) (max_ℤ_left usage known),
        λ h. rw (q.amount-new_quantity (max_ℤ usage known)) (max_ℤ_right usage known),
      )

  abbrev pub free : HostedControlPlaneStatus Quantity → ℤ
  free st = amount st.etcd_volume_size -ℤ amount st.etcd_volume_usage

  low_iff :
      (storage : Storage Quantity) (st : HostedControlPlaneStatus Quantity)
      → (less (sub st.etcd_volume_size st.etcd_volume_usage) storage.buffer ≡ true)
        ↔ (free st <ℤ amount storage.buffer)
  low_iff storage st =
      subst
        (λ (n : ℤ).
          (less (sub st.etcd_volume_size st.etcd_volume_usage) storage.buffer ≡ true)
          ↔ (n <ℤ amount storage.buffer))
        (q.amount-sub _ _) (q.less_iff _ _)

  not_low :
      (storage : Storage Quantity) (st : HostedControlPlaneStatus Quantity)
      → amount storage.buffer ≤ℤ free st
      → less (sub st.etcd_volume_size st.etcd_volume_usage) storage.buffer ≡ false
  not_low storage st h =
      elim (Bool-cases (less (sub st.etcd_volume_size st.etcd_volume_usage) storage.buffer)) [
        | inl e ↦ absurd (omega (arith, (low_iff storage st).0 e))
        | inr e ↦ e
      ]

  -- Automatic growth adds exactly one increment when less than the buffer is free, and changes
  -- nothing when at least the buffer is free.
  pub grown-amount :
      (storage : Storage Quantity) (st : HostedControlPlaneStatus Quantity)
      → (free st <ℤ amount storage.buffer
          → amount (grown q storage st) ≡ amount st.etcd_volume_size +ℤ amount storage.increment)
        × (amount storage.buffer ≤ℤ free st → grown q storage st ≡ st.etcd_volume_size)
  unfolding grown
  grown-amount storage st =
      ((λ h. rw ((low_iff storage st).1 h) (q.amount-add _ _)), (λ h. rw (not_low storage st h)))

  growth_covers :
      (storage : Storage Quantity) (k m : ℕ) (st : HostedControlPlaneStatus Quantity)
      → amount storage.increment ≡ pos k
      → amount storage.buffer ≤ℤ free st +ℤ pos (k + m)
      → amount storage.buffer ≤ℤ amount (grown q storage st) -ℤ amount st.etcd_volume_usage +ℤ pos m
  growth_covers storage k m st inc h =
      elim (Bool-cases (less (sub st.etcd_volume_size st.etcd_volume_usage) storage.buffer)) [
        | inl e ↦
            let size : amount (grown q storage st) ≡ amount st.etcd_volume_size +ℤ pos k =
              (grown-amount storage st).0 ((low_iff storage st).0 e)
              ∙ ap (λ (n : ℤ). amount st.etcd_volume_size +ℤ n) inc in
            rw size (omega (int_laws, h))
        | inr e ↦
            let low : ¬ (free st <ℤ amount storage.buffer) =
              λ l. cc ((low_iff storage st).1 l, e) in
            let enough : amount storage.buffer ≤ℤ free st = omega arith in
            rw ((grown-amount storage st).1 enough) (omega (int_laws, enough))
      ]

  -- `n` runs of an action, each of which succeeds.
  abbrev pub times : ℕ → Exec (EtcdState Quantity) Unit → Exec (EtcdState Quantity) Unit
  times zero x = pure tt
  times (suc n) x = x >> times n x

  -- One run of the size step of a cluster with automatic growth.
  step-grown :
      (storage : Storage Quantity) (s : EtcdState Quantity)
      → auto_grow_enabled s.hcp.spec.etcd ≡ true
      → reconcile_volume_size q storage s ≡ (ok tt, set_size q (grown q storage (status s)) s)
  unfolding reconcile_volume_size set_volume_size get_etcd_volume_size
  step-grown storage s automatic = rw automatic refl

  -- With automatic growth and an increment of `k` bytes, `n` runs of the step of the reconciliation
  -- that sets the volume size, with nothing between them that changes the usage, succeed and leave at
  -- least the buffer free, as soon as `n * k` covers what is missing at the start; the usage is as it
  -- was.
  pub reconcile_volume_size-enough :
      (storage : Storage Quantity) (k n : ℕ) (s : EtcdState Quantity)
      → auto_grow_enabled s.hcp.spec.etcd ≡ true
      → amount storage.increment ≡ pos k
      → amount storage.buffer ≤ℤ free (status s) +ℤ pos (n * k)
      → (t : EtcdState Quantity) × (times n (reconcile_volume_size q storage) s ≡ (ok tt, t))
        × (amount storage.buffer ≤ℤ free (status t))
        × ((status t).etcd_volume_usage ≡ (status s).etcd_volume_usage)
  unfolding ◌>>=◌
  reconcile_volume_size-enough storage k zero s automatic inc h =
      (s, refl, omega (int_laws, h), refl)
  reconcile_volume_size-enough storage k (suc n) s automatic inc h =
      let u : EtcdState Quantity = set_size q (grown q storage (status s)) s in
      let (t, runs, enough, same) = reconcile_volume_size-enough storage k n u automatic inc (
        growth_covers storage k (n * k) (status s) inc
          (subst (λ (m : ℕ). amount storage.buffer ≤ℤ free (status s) +ℤ pos m) (omega arith) h)) in
      (t, rw (step-grown storage s automatic) runs, enough, same)
