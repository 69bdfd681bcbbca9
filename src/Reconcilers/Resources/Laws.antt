-- ===== src/Reconcilers/Resources/Laws.antt =====
-- How the calls of `reconcileSecret` by itself end.
use cluster_api_provider_hos.Prelude.{
  ℕ, zero, suc, ◌<◌, ◌<>◌, String, ◌≡◌, refl, ap, sym, ◌∙◌, ◌⊎◌, inl, inr, ◌↔◌, true, false, Option,
  some, List, arith, string_eq, nat_eq, option_eq, Bool-cases,
}
use cluster_api_provider_hos.Prelude.Exec.{Error, wrap, Result, ok, err}
use cluster_api_provider_hos.Objects.{Labels, OwnerReference}
use cluster_api_provider_hos.Reconcilers.{ApiErrors}
use cluster_api_provider_hos.Reconcilers.Policies.{slashed}
use cluster_api_provider_hos.Reconcilers.Resources.{
  ResourceClient, SecretApply, secret_configuration, after_deletion, after_apply, refused_type,
  secret_rounds, reconcile_secret,
}

module _ (errors : ApiErrors) {S : Type 0} (client : ResourceClient S SecretApply) where
  module _ (secret : SecretApply) where
    -- The type of the Secret is refused, and its deletion leads to `t`.
    abbrev pub Refused : S → S → Type 0
    Refused s t =
        (e : Error) × (u : S) × (client.apply secret s ≡ (err e, u))
        × (refused_type errors e ≡ true)
        × (client.delete secret.name u ≡ (ok tt, t))

    -- So many refusals with a deletion behind each, one after the other.
    unfoldable pub Refusals : ℕ → S → S → Type 0
    Refusals zero s t = s ≡ t
    Refusals (suc n) s t = (u : S) × Refused s u × Refusals n u t

    -- The call that comes to a result: the Secret is applied, or fails for another reason than its
    -- type, or cannot be deleted.
    abbrev pub Last : S → Result (Unit {0}) → S → Type 0
    Last s r t =
        ((client.apply secret s ≡ (ok tt, t)) × (r ≡ ok tt))
        ⊎ ((e : Error) × (client.apply secret s ≡ (err e, t))
            × (refused_type errors e ≡ false)
            × (r
                ≡ err (wrap ("failed to apply secret " <> slashed secret.namespace secret.name) e)))
        ⊎ ((e : Error) × (d : Error) × (u : S) × (client.apply secret s ≡ (err e, u))
            × (refused_type errors e ≡ true)
            × (client.delete secret.name u ≡ (err d, t))
            × (r ≡ err (wrap ("failed to delete existing secret " <> secret.name) d)))

    abbrev pub Ended : ℕ → S → Result (Unit {0}) → S → Type 0
    Ended rounds s r t = (n : ℕ) × (w : S) × (n < rounds) × Refusals n s w × Last w r t

    abbrev Outcome : Type 0
    Outcome = Option (Result (Unit {0}) × S)

    Last-after_apply :
        (again : S → Outcome) (s t : S) (r : Result (Unit {0}))
        → Last s r t
        → after_apply errors client secret again (client.apply secret s) ≡ some (r, t)
    unfolding after_apply after_deletion
    Last-after_apply again s t r (inl (applied, h)) = rw applied (rw h refl)
    Last-after_apply again s t r (inr (inl (e, failed, kept, h))) = rw failed (rw kept (rw h refl))
    Last-after_apply again s t r (inr (inr (e, d, u, failed, refused, deleted, h))) =
        rw failed (rw refused (rw deleted (rw h refl)))

    Refused-after_apply :
        (again : S → Outcome) (s t : S)
        → Refused s t
        → after_apply errors client secret again (client.apply secret s) ≡ again t
    unfolding after_apply after_deletion
    Refused-after_apply again s t (e, u, failed, refused, deleted) =
        rw failed (rw refused (rw deleted refl))

    Ended-secret_rounds :
        (rounds n : ℕ) (s w t : S) (r : Result (Unit {0}))
        → n < rounds
        → Refusals n s w
        → Last w r t
        → secret_rounds errors rounds client secret s ≡ some (r, t)
    unfolding secret_rounds Refusals
    Ended-secret_rounds zero n s w t r le h last = absurd (omega (arith, le))
    Ended-secret_rounds (suc rounds) zero s w t r le h last =
        Last-after_apply (secret_rounds errors rounds client secret) s t r (rw h last)
    Ended-secret_rounds (suc rounds) (suc n) s w t r le (u, refused, rest) last =
        Refused-after_apply (secret_rounds errors rounds client secret) s u refused
        ∙ Ended-secret_rounds rounds n u w t r (omega (arith, le)) rest last

    -- What the result of the later calls says of them.
    abbrev Later : ℕ → (S → Outcome) → Result (Unit {0}) → S → Type 0
    Later n again r t = (v : S) → again v ≡ some (r, t) → Ended n v r t

    returned :
        (r r' : Result (Unit {0})) (t t' : S)
        → ◌≡◌ {A = Outcome} (some (r', t')) (some (r, t))
        → (r ≡ r') × (t' ≡ t)
    returned r r' t t' h =
        let same : ◌≡◌ {A = Result (Unit {0}) × S} (r', t') (r, t) = cc h in
        (sym (ap (λ p. p.0) same), ap (λ p. p.1) same)

    after_deletion-Ended :
        (n : ℕ) (again : S → Outcome) (s u t : S) (e : Error) (r : Result (Unit {0}))
        (p : Result (Unit {0}) × S)
        → client.apply secret s ≡ (err e, u)
        → refused_type errors e ≡ true
        → client.delete secret.name u ≡ p
        → Later n again r t
        → after_deletion errors secret again p ≡ some (r, t)
        → Ended (suc n) s r t
    unfolding after_deletion Refusals
    after_deletion-Ended n again s u t e r (ok _, v) applied refused deleted later h =
        let (m, w, le, rest, last) = later v h in
        (suc m, w, omega (arith, le), (v, (e, u, applied, refused, deleted), rest), last)
    after_deletion-Ended n again s u t e r (err d, v) applied refused deleted later h =
        let (same, there) = returned r _ t v h in
        (
          0,
          s,
          omega arith,
          refl,
          inr (inr (e, d, u, applied, refused, rw deleted (rw there refl), same)),
        )

    after_apply-Ended :
        (n : ℕ) (again : S → Outcome) (s t : S) (r : Result (Unit {0})) (p : Result (Unit {0}) × S)
        → client.apply secret s ≡ p
        → Later n again r t
        → after_apply errors client secret again p ≡ some (r, t)
        → Ended (suc n) s r t
    unfolding after_apply Refusals
    after_apply-Ended n again s t r (ok _, u) applied later h =
        let (same, there) = returned r _ t u h in
        (0, s, omega arith, refl, inl (rw applied (rw there refl), same))
    after_apply-Ended n again s t r (err e, u) applied later h =
        elim (Bool-cases (refused_type errors e)) [
          | inl refused ↦
              after_deletion-Ended n again s u t e r (client.delete secret.name u) applied refused
                refl later (rw refused at h)
          | inr kept ↦
              let (same, there) = returned r _ t u (rw kept at h) in
              (0, s, omega arith, refl, inr (inl (e, rw applied (rw there refl), kept, same)))
        ]

    secret_rounds-Ended :
        (rounds : ℕ) (s t : S) (r : Result (Unit {0}))
        → secret_rounds errors rounds client secret s ≡ some (r, t)
        → Ended rounds s r t
    unfolding secret_rounds
    secret_rounds-Ended zero s t r h = cc h
    secret_rounds-Ended (suc n) s t r h =
        after_apply-Ended n (secret_rounds errors n client secret) s t r (client.apply secret s)
          refl (λ v. secret_rounds-Ended n v t r) h

  -- Of a Secret that is not to be deleted, so many calls of `reconcileSecret` come to a result
  -- exactly if some number of refusals of its type, below that number of calls and each with a
  -- deletion behind it, leads to a call that ends: the very Secret is applied, with success; or
  -- `Apply` fails for another reason, or the deletion does, and the result is that error, wrapped.
  pub reconcile_secret-Ended :
      (rounds : ℕ) (namespace name : String) (owner : Option OwnerReference) (labels : Labels)
      (values : List (String × String)) (type : String) (s t : S) (r : Result (Unit {0}))
      → (reconcile_secret errors rounds client namespace name false owner labels values type s
          ≡ some (r, t))
        ↔ Ended (secret_configuration namespace name owner labels values type) rounds s r t
  unfolding reconcile_secret
  reconcile_secret-Ended rounds namespace name owner labels values type s t r =
      let secret = secret_configuration namespace name owner labels values type in
      (
        secret_rounds-Ended secret rounds s t r,
        λ (n, w, le, refusals, last). Ended-secret_rounds secret rounds n s w t r le refusals last,
      )
