-- ===== src/Quantity.antt =====
-- What the code relies on in `resource.Quantity` of k8s.io/apimachinery, which it does not
-- implement: an interface of operations, with the arithmetic that their documentation promises.
-- `amount` is the exact value of a quantity; the interface is used only where amounts are whole.
use cluster_api_provider_hos.Prelude.{◌≡◌, ◌↔◌, Bool, true, nat_beq, refl, arith, ◌+◌}
use cluster_api_provider_hos.Prelude.Int.{ℤ, pos, ◌+ℤ◌, ◌-ℤ◌, ◌<ℤ◌, ltb_ℤ, pos_part, neg_part}

pub record Quantities : Type 1 where
  pub Quantity : Type 0
  pub amount : Quantity → ℤ
  pub add : Quantity → Quantity → Quantity
  pub sub : Quantity → Quantity → Quantity
  -- `a.Cmp(b) == -1`
  pub less : Quantity → Quantity → Bool
  pub is_zero : Quantity → Bool
  -- `resource.NewQuantity` of an `int64`
  pub new_quantity : ℤ → Quantity
  -- `q.Value()`
  pub value : Quantity → ℤ
  pub amount-add : (a b : Quantity) → amount (add a b) ≡ amount a +ℤ amount b
  pub amount-sub : (a b : Quantity) → amount (sub a b) ≡ amount a -ℤ amount b
  pub less_iff : (a b : Quantity) → (less a b ≡ true) ↔ (amount a <ℤ amount b)
  pub is_zero_iff : (a : Quantity) → (is_zero a ≡ true) ↔ (amount a ≡ pos 0)
  pub amount-new_quantity : (n : ℤ) → amount (new_quantity n) ≡ n
  pub value-new_quantity : (n : ℤ) → value (new_quantity n) ≡ n

abbrev pub is_zero_ℤ : ℤ → Bool
is_zero_ℤ n = nat_beq (pos_part n + neg_part n) 0

pub less_iff_ℤ : (a b : ℤ) → (ltb_ℤ a b ≡ true) ↔ (a <ℤ b)
less_iff_ℤ a b = ground arith

pub is_zero_iff_ℤ : (a : ℤ) → (is_zero_ℤ a ≡ true) ↔ (a ≡ pos 0)
is_zero_iff_ℤ a = ground arith

-- Whole quantities: the integers themselves.
abbrev pub whole_quantities : Quantities
whole_quantities = record {
  Quantity = ℤ;
  amount = λ a. a;
  add = ◌+ℤ◌;
  sub = ◌-ℤ◌;
  less = ltb_ℤ;
  is_zero = is_zero_ℤ;
  new_quantity = λ n. n;
  value = λ a. a;
  amount-add = λ a b. refl;
  amount-sub = λ a b. refl;
  less_iff = less_iff_ℤ;
  is_zero_iff = is_zero_iff_ℤ;
  amount-new_quantity = λ n. refl;
  value-new_quantity = λ n. refl;
}
