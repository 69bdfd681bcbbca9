-- ===== src/Prelude/Succeeds.antt =====
-- What an action that succeeds has passed through.
use Prim.Native.String.{String}
use mathlib.Core.Path.{◌≡◌, refl, ap}
use mathlib.Core.Logic.{◌⊎◌, inl, inr}
use cluster_api_provider_hos.Prelude.Exec.{
  Error, Result, ok, err, Exec, wrapping, wrap_result, attempt, ◌>>=◌, continue-ok,
}

pub bind-ok {ℓ} :
    {S A B : Type ℓ} (x : Exec S A) (f : A → Exec S B) (s t : S) (b : B)
    → (x >>= f) s ≡ (ok b, t)
    → (a : A) × (x s ≡ (ok a, (x s).1)) × (f a (x s).1 ≡ (ok b, t))
unfolding ◌>>=◌
bind-ok x f s t b h =
    let (a, done, rest) = continue-ok (x s).0 f (x s).1 t b h in
    (a, ap (λ r. (r, (x s).1)) done, rest)

unwrap {ℓ} :
    {S A : Type ℓ} (m : String) (r : Result A) (s t : S) (a : A)
    → ◌≡◌ {A = Result A × S} (wrap_result m r, s) (ok a, t)
    → ◌≡◌ {A = Result A × S} (r, s) (ok a, t)
unwrap m (ok b) s t a h = h
unwrap {S = S} {A} m (err e) s t a h = cc (ap (λ (x : Result A × S). x.0) h)

pub wrapping-ok {ℓ} :
    {S A : Type ℓ} (m : String) (x : Exec S A) (s t : S) (a : A)
    → wrapping m x s ≡ (ok a, t)
    → x s ≡ (ok a, t)
wrapping-ok m x s t a h = unwrap m (x s).0 (x s).1 t a h

-- `fail` does not succeed.
pub fail-ok {ℓ κ} :
    {S A : Type ℓ} (e : Error) (s t : S) (a : A) {B : Type κ}
    → ◌≡◌ {A = Result A × S} (err e, s) (ok a, t)
    → B
fail-ok {S = S} {A} e s t a h = cc (ap (λ (x : Result A × S). x.0) h)

pub pure-ok {ℓ} :
    {S A : Type ℓ} (b : A) (s t : S) (a : A)
    → ◌≡◌ {A = Result A × S} (ok b, s) (ok a, t)
    → (b ≡ a) × (s ≡ t)
pure-ok b s t a h = (value (ap (λ (x : Result _ × _). x.0) h), ap (λ (x : Result _ × _). x.1) h)
  where
    value : ◌≡◌ {A = Result _} (ok b) (ok a) → b ≡ a
    value p = cc

pub attempt-ok {ℓ} :
    {S A : Type ℓ} (x : Exec S A) (s t : S) (r : Result A) → attempt x s ≡ (ok r, t) → x s ≡ (r, t)
attempt-ok x s t r h = let (value, state) = pure-ok (x s).0 (x s).1 t r h in λ i. (value i, state i)

pub Result-cases {ℓ} :
    {A : Type ℓ} (r : Result A) → ((e : Error) × (r ≡ err e)) ⊎ ((a : A) × (r ≡ ok a))
Result-cases (ok a) = inr (a, refl)
Result-cases (err e) = inl (e, refl)
