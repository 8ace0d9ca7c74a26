-- ===== src/Float/Laws.antt =====
-- The operations of `float64` that the code uses, and the facts of IEEE 754 that it relies on.
use federloom.Prelude.{ℕ, ◌≤◌, ◌<◌, ◌^◌, ◌≡◌, Bool, true, false}

pub record Float (F : Type 0) : Type 0 where
  pub of_ℕ : ℕ → F
  pub neg : F → F
  pub add : F → F → F
  pub sub : F → F → F
  pub mul : F → F → F
  pub div : F → F → F
  pub lt : F → F → Bool
  pub le : F → F → Bool
  pub eq : F → F → Bool
  -- math.MaxFloat64
  pub largest : F
  -- math.Exp(-math.Log(2)*elapsed.Seconds()/halfLife.Seconds()), both in nanoseconds
  pub half_decay : ℕ → ℕ → F

module _ {F : Type 0} ⦃f : Float F⦄ where
  abbrev pub num : ℕ → F
  num = f.of_ℕ

  infixl 65 ◌⊕◌ ◌⊖◌
  infixl 70 ◌⊗◌ ◌⊘◌
  abbrev pub ◌⊕◌ : F → F → F
  a ⊕ b = f.add a b

  abbrev pub ◌⊖◌ : F → F → F
  a ⊖ b = f.sub a b

  abbrev pub ◌⊗◌ : F → F → F
  a ⊗ b = f.mul a b

  abbrev pub ◌⊘◌ : F → F → F
  a ⊘ b = f.div a b

  infix 50 ◌<?◌ ◌≤?◌
  abbrev pub ◌<?◌ : F → F → Bool
  a <? b = f.lt a b

  abbrev pub ◌≤?◌ : F → F → Bool
  a ≤? b = f.le a b

  infix 4 ◌≼◌
  abbrev pub ◌≼◌ : F → F → Type 0
  a ≼ b = f.le a b ≡ true

-- `x ≼ x` says that `x` is not NaN, of which there is one: a payload is not told apart.
pub record IsFloat (F : Type 0) ⦃f : Float F⦄ : Type 0 where
  pub number_left : (x y : F) → x ≼ y → x ≼ x
  pub number_right : (x y : F) → x ≼ y → y ≼ y
  pub le_trans : (x y z : F) → x ≼ y → y ≼ z → x ≼ z
  pub le_of_lt : (x y : F) → (x <? y) ≡ true → x ≼ y
  pub le_of_not_lt : (x y : F) → x ≼ x → y ≼ y → (y <? x) ≡ false → x ≼ y
  pub not_lt_of_le : (x y : F) → x ≼ y → (y <? x) ≡ false
  pub lt_of_lt_of_le : (x y z : F) → (x <? y) ≡ true → y ≼ z → (x <? z) ≡ true
  pub lt_of_le_of_lt : (x y z : F) → x ≼ y → (y <? z) ≡ true → (x <? z) ≡ true
  -- `x == x` fails for NaN alone
  pub number_of_eq : (x : F) → f.eq x x ≡ true → x ≼ x
  pub eq_of_number : (x : F) → x ≼ x → f.eq x x ≡ true
  pub num_mono : (a b : ℕ) → a ≤ b → f.of_ℕ a ≼ f.of_ℕ b
  pub num_lt : (a b : ℕ) → a < b → b ≤ 2 ^ 53 → (f.of_ℕ a <? f.of_ℕ b) ≡ true
  pub num_finite : (a : ℕ) → a ≤ 2 ^ 53 → num a ≼ f.largest
  pub neg_one_lt : (a : ℕ) → (f.neg (f.of_ℕ 1) <? f.of_ℕ a) ≡ true
  pub add_nonneg : (x y : F) → num 0 ≼ x → num 0 ≼ y → num 0 ≼ x ⊕ y
  pub add_mono : (x y z w : F) → num 0 ≼ x → x ≼ y → num 0 ≼ z → z ≼ w → x ⊕ z ≼ y ⊕ w
  -- math.Nextafter(x, math.Inf(1))
  pub next_up : F → F
  pub le_next_up : (x : F) → x ≼ x → x ≼ next_up x
  -- a rounded difference that is added back comes out at the minuend's successor at most
  pub add-sub-le_next_up : (x y : F) → num 0 ≼ x → x ≼ y → y ≼ f.largest → x ⊕ (y ⊖ x) ≼ next_up y
  pub add_zero_le : (x z : F) → x ≼ x → num 0 ≼ z → z ≼ num 0 → x ⊕ z ≼ x
  pub sub_nonpos : (x y : F) → num 0 ≼ y → y ≼ f.largest → y ≼ x → y ⊖ x ≼ num 0
  pub sub_nonneg : (x y : F) → num 0 ≼ x → x ≼ y → y ≼ f.largest → num 0 ≼ y ⊖ x
  pub sub_le : (x y : F) → num 0 ≼ x → x ≼ f.largest → num 0 ≼ y → y ≼ f.largest → y ⊖ x ≼ y
  pub mul_comm : (x y : F) → x ⊗ y ≡ y ⊗ x
  pub mul_unit_nonneg :
      (x y : F) → num 0 ≼ x → x ≼ f.largest → num 0 ≼ y → y ≼ num 1 → num 0 ≼ x ⊗ y
  pub mul_unit_le : (x y : F) → num 0 ≼ x → x ≼ f.largest → num 0 ≼ y → y ≼ num 1 → x ⊗ y ≼ x
  pub div_unit_nonneg : (x : F) → num 0 ≼ x → x ≼ num 100 → num 0 ≼ x ⊘ num 100
  pub div_unit_le : (x : F) → num 0 ≼ x → x ≼ num 100 → x ⊘ num 100 ≼ num 1
  pub decay_nonneg : (e h : ℕ) → 0 < h → num 0 ≼ f.half_decay e h
  pub decay_le_one : (e h : ℕ) → 0 < h → f.half_decay e h ≼ num 1

-- A value in [0, top]: the range that the code keeps a number in.
abbrev pub InRange : {F : Type 0} ⦃f : Float F⦄ → F → F → Type 0
InRange top x = (num 0 ≼ x) × (x ≼ top)
