-- ===== src/Prelude/Every.antt =====
-- What holds of every element: of a list that is built from others, and of what a filter keeps.
use mathlib.Core.Path.{◌≡◌, refl}
use mathlib.Core.Logic.{◌↔◌, inl, inr}
use mathlib.Core.Bool.{Bool, false}
use mathlib.Core.List.{List, [], ◌∷◌, ◌++◌, map}
use native.Mathlib.Omega.{arith}
use cluster_api_provider_hos.Prelude.Tests.{Bool-cases}
use cluster_api_provider_hos.Prelude.Lists.{length, filter, All, flat_map}

module _ {κ} {A : Type 0} (P : A → Type κ) where
  pub All-append : (xs ys : List A) → All P (xs ++ ys) ↔ (All P xs × All P ys)
  All-append [] ys = ((λ h. (tt, h)), (λ h. h.1))
  All-append (x ∷ xs) ys =
      let rest = All-append xs ys in
      ((λ h. ((h.0, (rest.0 h.1).0), (rest.0 h.1).1)), (λ h. (h.0.0, rest.1 (h.0.1, h.1))))

module _ {κ} {A B : Type 0} (P : B → Type κ) where
  pub All-map : (f : A → B) (xs : List A) → All P (map f xs) ↔ All (λ x. P (f x)) xs
  All-map f [] = ((λ h. tt), (λ h. tt))
  All-map f (x ∷ xs) =
      let rest = All-map f xs in ((λ h. (h.0, rest.0 h.1)), (λ h. (h.0, rest.1 h.1)))

  pub All-flat_map :
      (f : A → List B) (xs : List A) → All P (flat_map f xs) ↔ All (λ x. All P (f x)) xs
  unfolding flat_map
  All-flat_map f [] = ((λ h. tt), (λ h. tt))
  All-flat_map f (x ∷ xs) =
      let rest = All-flat_map f xs in
      let both = All-append P (f x) (flat_map f xs) in
      ((λ h. ((both.0 h).0, rest.0 (both.0 h).1)), (λ h. both.1 (h.0, rest.1 h.1)))

pub All-iff {κ} :
    {A : Type 0} (P Q : A → Type κ) → ((x : A) → P x ↔ Q x) → (xs : List A) → All P xs ↔ All Q xs
All-iff P Q same [] = ((λ h. h), (λ h. h))
All-iff P Q same (x ∷ xs) =
    let rest = All-iff P Q same xs in
    ((λ h. ((same x).0 h.0, rest.0 h.1)), (λ h. ((same x).1 h.0, rest.1 h.1)))

pub length-map : {A B : Type 0} (f : A → B) (xs : List A) → length (map f xs) ≡ length xs
length-map f [] = refl
length-map f (x ∷ xs) = omega (arith, length-map f xs)

pub filter-none :
    {A : Type 0} (p : A → Bool) (xs : List A) → (filter p xs ≡ []) ↔ All (λ x. p x ≡ false) xs
unfolding filter
filter-none p [] = ((λ _. tt), (λ _. refl))
filter-none p (x ∷ xs) = elim (Bool-cases (p x)) [
  | inl kept ↦ ((λ h. cc (rw kept at h)), (λ h. cc (kept, h.0)))
  | inr dropped ↦
      let rest = filter-none p xs in
      ((λ h. (dropped, rest.0 (rw dropped at h))), (λ h. rw dropped (rest.1 h.1)))
]

pub All-imp {κ} :
    {A : Type 0} (P Q : A → Type κ) → ((x : A) → P x → Q x) → (xs : List A) → All P xs → All Q xs
All-imp P Q f [] h = tt
All-imp P Q f (x ∷ xs) h = (f x h.0, All-imp P Q f xs h.1)
