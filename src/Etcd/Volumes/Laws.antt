-- ===== src/Etcd/Volumes/Laws.antt =====
-- Volume claims only grow, and all that are too small do.
use cluster_api_provider_hos.Prelude.{
  ◌≡◌, sym, ap, inl, inr, List, [], ◌∷◌, string_eq, nat_eq, option_eq, if◌then◌else◌, Bool-cases,
}
use cluster_api_provider_hos.Prelude.Exec.{Result, ok, ◌>>=◌}
use cluster_api_provider_hos.Prelude.Exec.{continue_wrapped-ok}
use cluster_api_provider_hos.Quantity.{Quantities}
use cluster_api_provider_hos.Etcd.Calls.{
  VolumeClaim, Call, apply_volume_claim, Answers, EtcdState, status, log, call,
}
use cluster_api_provider_hos.Etcd.Volumes.{resize_claims}

module _ (q : Quantities) where
  open q use {Quantity, less}

  -- The calls that bring the claims to the size, the last one first.
  abbrev pub resizes :
      Quantity → List (VolumeClaim Quantity) → List (Call Quantity) → List (Call Quantity)
  resizes size [] calls = calls
  resizes size (c ∷ cs) calls =
      resizes size cs
        (if less c.storage size then apply_volume_claim c.name size ∷ calls else calls)

  -- If the claims are resized without an error, then exactly the claims that request less than the
  -- volume size of the status were applied, each once, in order and with that size, and the
  -- resource is as it was. So no claim is ever made smaller.
  pub resize_claims-ok :
      (answers : Answers Quantity) (cs : List (VolumeClaim Quantity)) (s t : EtcdState Quantity)
      → resize_claims q answers cs s ≡ (ok tt, t)
      → (log t ≡ resizes (status s).etcd_volume_size cs (log s)) × (t.hcp ≡ s.hcp)
  unfolding resize_claims call ◌>>=◌
  resize_claims-ok answers [] s t h = (
    ap (λ (x : Result Unit × EtcdState Quantity). log x.1) (sym h),
    ap (λ (x : Result Unit × EtcdState Quantity). x.1.hcp) (sym h),
  )
  resize_claims-ok answers (c ∷ cs) s t h =
      elim (Bool-cases (less c.storage (status s).etcd_volume_size)) [
        | inl e ↦
            let resized = apply_volume_claim c.name (status s).etcd_volume_size ∷ log s in
            let done =
              continue_wrapped-ok _ (answers.apply_volume_claim resized)
                (λ _. resize_claims q answers cs) (record s { world = resized }) t tt (rw e at h) in
            rw e (resize_claims-ok answers cs (record s { world = resized }) t done.2)
        | inr e ↦ rw e (resize_claims-ok answers cs s t (rw e at h))
      ]
