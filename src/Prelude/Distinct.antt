-- ===== src/Prelude/Distinct.antt =====
-- Lists without duplicates, and their decision.
use mathlib.Core.Path.{◌≡◌}
use mathlib.Core.Logic.{◌≢◌, inl, inr}
use mathlib.Core.Bool.{Bool, true, false, not, ◌&&◌}
use mathlib.Core.List.{List, [], ◌∷◌, map}
use cluster_api_provider_hos.Prelude.Tests.{Bool-cases}
use cluster_api_provider_hos.Prelude.Lists.{All, some_by}
use cluster_api_provider_hos.Prelude.Equality.{Eq, ◌==◌}

module _ {ℓ} {A : Type ℓ} where
  abbrev pub NoDuplicates : List A → Type ℓ
  NoDuplicates [] = Unit
  NoDuplicates (x ∷ xs) = All (λ y. x ≢ y) xs × NoDuplicates xs

  unfoldable pub no_duplicates : ⦃e : Eq A⦄ → List A → Bool
  no_duplicates [] = true
  no_duplicates ⦃e⦄ (x ∷ xs) = not (some_by (λ y. x == y) xs) && no_duplicates xs

  not-some_by :
      ⦃e : Eq A⦄ (x : A) (xs : List A) → some_by (λ y. x == y) xs ≡ false → All (λ y. x ≢ y) xs
  unfolding some_by
  not-some_by x [] h = tt
  not-some_by ⦃e⦄ x (y ∷ ys) h = elim (Bool-cases (x == y)) [
    | inl t ↦ absurd (cc (rw t at h))
    | inr f ↦ ((λ p. cc ((e.beq_iff x y).1 p, f)), not-some_by x ys (rw f at h))
  ]

  pub no_duplicates_sound : ⦃e : Eq A⦄ (xs : List A) → no_duplicates xs ≡ true → NoDuplicates xs
  unfolding no_duplicates
  no_duplicates_sound [] h = tt
  no_duplicates_sound ⦃e⦄ (x ∷ xs) h = elim (Bool-cases (some_by (λ y. x == y) xs)) [
    | inl t ↦ absurd (cc (rw t at h))
    | inr f ↦ (not-some_by x xs f, no_duplicates_sound xs (rw f at h))
  ]

module _ {ℓ κ} {A : Type ℓ} {B : Type κ} (f : A → B) (f_inj : (x y : A) → f x ≡ f y → x ≡ y) where
  All-map : (x : A) (ys : List A) → All (λ y. x ≢ y) ys → All (λ y. f x ≢ y) (map f ys)
  All-map x [] h = tt
  All-map x (y ∷ ys) h = ((λ p. h.0 (f_inj x y p)), All-map x ys h.1)

  pub NoDuplicates-map : (xs : List A) → NoDuplicates xs → NoDuplicates (map f xs)
  NoDuplicates-map [] h = tt
  NoDuplicates-map (x ∷ xs) h = (All-map x xs h.0, NoDuplicates-map xs h.1)
