-- ===== src/Prelude/Exec.antt =====
-- Go errors as values, and actions that change a state and may fail. What was written before a
-- failure stays written, so the state comes back beside the error too.
use Prim.Native.String.{String, ◌++◌}
use mathlib.Core.Path.{◌≡◌, refl, ap}
use mathlib.Core.Bool.{Bool, ◌||◌}
use cluster_api_provider_hos.Prelude.Equality.{◌==◌, string_eq}

-- A value of Go's `error`: `errors.New`, `fmt.Errorf` with `%w`, and `errors.Join` of two.
pub data Error : Type 0 where
  new : String → Error
  wrap : String → Error → Error
  join : Error → Error → Error

pub data Result {ℓ} (A : Type ℓ) : Type ℓ where
  ok : A → Result A
  err : Error → Result A

abbrev pub Exec {ℓ} : Type ℓ → Type ℓ → Type ℓ
Exec S A = S → Result A × S

-- `if err != nil { return …, fmt.Errorf("…: %w", err) }`
abbrev pub wrap_result {ℓ} : {A : Type ℓ} → String → Result A → Result A
wrap_result m (ok a) = ok a
wrap_result m (err e) = err (wrap m e)

module _ {ℓ} {S A : Type ℓ} where
  abbrev pub pure : A → Exec S A
  pure a s = (ok a, s)

  abbrev pub fail : Error → Exec S A
  fail e s = (err e, s)

  abbrev pub gets : (S → A) → Exec S A
  gets f s = (ok (f s), s)

  abbrev pub wrapping : String → Exec S A → Exec S A
  wrapping m x s = let (r, s') = x s in (wrap_result m r, s')

abbrev pub modify {ℓ} : {S : Type ℓ} → (S → S) → Exec S (Unit {ℓ})
modify f s = (ok tt, f s)

module _ {ℓ} {S A B : Type ℓ} where
  abbrev pub continue : Result A → (A → Exec S B) → Exec S B
  continue (ok a) f s = f a s
  continue (err e) f s = (err e, s)

  infixl 10 ◌>>=◌ ◌>>◌
  -- Shut, so that a proof about a `do` block can go bind by bind.
  unfoldable pub ◌>>=◌ : Exec S A → (A → Exec S B) → Exec S B
  ◌>>=◌ m f s = let (r, s') = m s in continue r f s'

  abbrev pub ◌>>◌ : Exec S A → Exec S B → Exec S B
  m >> n = m >>= λ _. n

-- A block that ends in success has passed through each of its actions.
module _ {ℓ} {S A B : Type ℓ} where
  pub continue-ok :
      (r : Result A) (f : A → Exec S B) (s t : S) (b : B)
      → continue r f s ≡ (ok b, t)
      → (a : A) × (r ≡ ok a) × (f a s ≡ (ok b, t))
  continue-ok (ok a) f s t b h = (a, refl, h)
  continue-ok (err e) f s t b h = cc (ap (λ (x : Result B × S). x.0) h)

  pub continue_wrapped-ok :
      (m : String) (r : Result A) (f : A → Exec S B) (s t : S) (b : B)
      → continue (wrap_result m r) f s ≡ (ok b, t)
      → (a : A) × (r ≡ ok a) × (f a s ≡ (ok b, t))
  continue_wrapped-ok m (ok a) f s t b h = (a, refl, h)
  continue_wrapped-ok m (err e) f s t b h = cc (ap (λ (x : Result B × S). x.0) h)

-- The text of an error.
unfoldable pub error_text : Error → String
error_text (new m) = m
error_text (wrap m e) = m ++ ": " ++ error_text e
error_text (join a b) = error_text a ++ "\n" ++ error_text b

-- `errors.Is(err, target)` for a `target` made by `errors.New` with a text of its own.
unfoldable pub error_is : Error → String → Bool
error_is (new m) target = m == target
error_is (wrap m e) target = error_is e target
error_is (join a b) target = error_is a target || error_is b target

-- An action that another library carries out, in the terms of the state that it may change: the
-- error is handed over with the state, as Go does.
abbrev pub attempt {ℓ} : {S A : Type ℓ} → Exec S A → Exec S (Result A)
attempt x s = let (r, s') = x s in (ok r, s')
