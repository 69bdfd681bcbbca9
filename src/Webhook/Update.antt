-- ===== src/Webhook/Update.antt =====
-- What an admitted change of a resource promises.
use cluster_api_provider_hos.Prelude.{
  ◌≡◌, refl, sym, ap, ◌∙◌, inl, inr, false, Option, none, some, List, [], ◌∷◌, arith, string_eq,
  nat_eq, some_inj, option_eq, if◌then◌else◌, Bool-cases, deref,
}
use cluster_api_provider_hos.Prelude.Int.{◌<ℤ◌, ◌≤ℤ◌}
use cluster_api_provider_hos.Quantity.{Quantities}
use cluster_api_provider_hos.Api.{HostedControlPlane, EtcdComponent, auto_grow_enabled}
use cluster_api_provider_hos.Webhook.{
  FieldError, Versions, version_errors, is_less_than, shrink_errors, downgrade_errors, first_errors,
  shrunk, validate_changes, validate_update,
}
use cluster_api_provider_hos.Webhook.Laws.{
  Admissible, Sized, validate_create-Admissible, when-empty,
}

first-empty : (xs ys : List FieldError) → first_errors xs ys ≡ [] → (xs ≡ []) × (ys ≡ [])
unfolding first_errors
first-empty [] ys h = (refl, h)
first-empty (x ∷ xs) ys h = cc

module _ (q : Quantities) (v : Versions) where
  open q use {Quantity, amount, less, is_zero}
  open v use {Version, parse_tolerant, compare_less}

  downgrade-less :
      (old_version : Version) (o : Option Version)
      → downgrade_errors q v old_version o ≡ []
      → (w : Version) → o ≡ some w
      → compare_less w old_version ≡ false
  unfolding downgrade_errors
  downgrade-less old_version none h w p = cc
  downgrade-less old_version (some new_version) h w p =
      rw (sym (some_inj new_version w p)) (when-empty _ _ _ h)

  -- The size that the volumes of an admitted resource have: the fixed one, or the grown one.
  abbrev pub effective_size : HostedControlPlane Quantity → Quantity
  effective_size hcp =
      if auto_grow_enabled hcp.spec.etcd
      then hcp.status.etcd_volume_size
      else deref hcp.spec.etcd.volume_size hcp.status.etcd_volume_size

  not_less-le : (a b : Quantity) → less a b ≡ false → amount b ≤ℤ amount a
  not_less-le a b h =
      let not_below : ¬ (amount a <ℤ amount b) = λ l. cc ((q.less_iff a b).1 l, h) in omega arith

  fixed_size :
      (old : HostedControlPlane Quantity) (n : Quantity)
      → Admissible q v old
      → auto_grow_enabled old.spec.etcd ≡ false
      → (if is_less_than q v n old.spec.etcd.volume_size then shrunk q v else []) ≡ []
      → amount (deref old.spec.etcd.volume_size old.status.etcd_volume_size) ≤ℤ amount n
  unfolding is_less_than
  fixed_size old n a fixed h = go old.spec.etcd.volume_size (a.size.0 fixed) h
    where
      go :
          (o : Option Quantity)
          → Sized q v o
          → (if is_less_than q v n o then shrunk q v else []) ≡ []
          → amount (deref o old.status.etcd_volume_size) ≤ℤ amount n
      go none sized k = absurd sized
      go (some m) sized k = elim (Bool-cases (less n m)) [
        | inl shrinks ↦ absurd (cc (rw shrinks at k))
        | inr keeps ↦ not_less-le n m keeps
      ]

  shrink-size :
      (old : HostedControlPlane Quantity) (etcd : EtcdComponent Quantity) (o : Option Quantity)
      → Admissible q v old
      → shrink_errors q v old etcd o ≡ []
      → auto_grow_enabled etcd ≡ false
      → (size : Quantity) → o ≡ some size
      → amount (effective_size old) ≤ℤ amount size
  unfolding shrink_errors is_less_than
  shrink-size old etcd none a h fixed size p = cc
  shrink-size old etcd (some n) a h fixed size p =
      let same = ap amount (some_inj n size p) in
      let checks = rw fixed at h in
      elim (Bool-cases (auto_grow_enabled old.spec.etcd)) [
        | inl grew ↦ elim (Bool-cases (less n old.status.etcd_volume_size)) [
          | inl shrinks ↦ absurd (cc (rw shrinks at (rw grew at checks)))
          | inr keeps ↦ rw grew (rw (sym same) (not_less-le _ _ keeps))
        ]
        | inr was_fixed ↦
            rw was_fixed (rw (sym same) (fixed_size old n a was_fixed (rw was_fixed at checks)))
      ]

  -- The version is not lowered, and the volumes are not shrunk.
  pub record Kept (old new : HostedControlPlane Quantity) : Type 0 where
    pub admissible : Admissible q v new
    pub version :
        (w w' : Version)
        → parse_tolerant old.spec.version ≡ some w
        → parse_tolerant new.spec.version ≡ some w'
        → compare_less w' w ≡ false
    pub size :
        auto_grow_enabled new.spec.etcd ≡ false
        → (size : Quantity) → new.spec.etcd.volume_size ≡ some size
        → amount (effective_size old) ≤ℤ amount size

  changes-Kept :
      (old new : HostedControlPlane Quantity) (o : Option Version)
      → parse_tolerant old.spec.version ≡ o
      → Admissible q v old
      → validate_changes q v old new o ≡ []
      → Kept old new
  unfolding validate_changes version_errors
  changes-Kept old new none p a h = cc
  changes-Kept old new (some old_version) p a h =
      let (created, rest) = first-empty _ _ h in
      let (same_or_up, large) = first-empty _ _ rest in
      record {
        admissible = (validate_create-Admissible q v new).0 created;
        version = λ w w' e e'.
            rw (some_inj w old_version (sym e ∙ p))
              (downgrade-less old_version (parse_tolerant new.spec.version) same_or_up w' e');
        size = shrink-size old new.spec.etcd new.spec.etcd.volume_size a large;
      }

  -- If the old resource is admissible and `ValidateUpdate` admits the new one, then the new one is
  -- admissible, its version is not lower, and a fixed size that it has is at least the size of the
  -- old one's volumes: the old fixed size, or the size to which they have grown automatically.
  pub validate_update-Kept :
      (old new : HostedControlPlane Quantity)
      → Admissible q v old
      → validate_update q v old new ≡ []
      → Kept old new
  unfolding validate_update
  validate_update-Kept old new a h = changes-Kept old new (parse_tolerant old.spec.version) refl a h
