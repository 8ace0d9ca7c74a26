-- ===== src/Float/FixedPoint.antt =====
-- Numbers that meet the facts of `IsFloat`, for concrete inputs: thousandths, with a sign. The
-- decay factor halves at each whole half-life.
use federloom.Prelude.{
  ℕ, suc, ◌+◌, ◌-◌, ◌*◌, ◌/◌, ◌^◌, ◌≤◌, ◌≡◌, refl, Bool, true, false, if◌then◌else◌, ltb, leb, ◌==◌,
  arith,
}
use native.Mathlib.Nat.{mul_comm as nat_mul_comm}
use federloom.Float.Laws.{Float, IsFloat}

pub data Fixed : Type 0 where
  pos : ℕ → Fixed
  negsuc : ℕ → Fixed

abbrev scale : ℕ
scale = 1000

abbrev neg_fixed : Fixed → Fixed
neg_fixed (pos n) = if n == 0 then pos 0 else negsuc (n - 1)
neg_fixed (negsuc n) = pos (suc n)

abbrev sub_ℕ : ℕ → ℕ → Fixed
sub_ℕ a b = if leb b a then pos (a - b) else negsuc (b - a - 1)

abbrev add_fixed : Fixed → Fixed → Fixed
add_fixed (pos a) (pos b) = pos (a + b)
add_fixed (pos a) (negsuc b) = sub_ℕ a (b + 1)
add_fixed (negsuc a) (pos b) = sub_ℕ b (a + 1)
add_fixed (negsuc a) (negsuc b) = negsuc (a + b + 1)

abbrev sub_fixed : Fixed → Fixed → Fixed
sub_fixed a b = add_fixed a (neg_fixed b)

abbrev mul_fixed : Fixed → Fixed → Fixed
mul_fixed (pos a) (pos b) = pos (a * b / scale)
mul_fixed (pos a) (negsuc b) = neg_fixed (pos (a * suc b / scale))
mul_fixed (negsuc a) (pos b) = neg_fixed (pos (b * suc a / scale))
mul_fixed (negsuc a) (negsuc b) = pos (suc a * suc b / scale)

abbrev div_fixed : Fixed → Fixed → Fixed
div_fixed (pos a) (pos b) = pos (a * scale / b)
div_fixed (pos a) (negsuc b) = neg_fixed (pos (a * scale / suc b))
div_fixed (negsuc a) (pos b) = neg_fixed (pos (suc a * scale / b))
div_fixed (negsuc a) (negsuc b) = pos (suc a * scale / suc b)

abbrev lt_fixed : Fixed → Fixed → Bool
lt_fixed (pos a) (pos b) = ltb a b
lt_fixed (pos a) (negsuc b) = false
lt_fixed (negsuc a) (pos b) = true
lt_fixed (negsuc a) (negsuc b) = ltb b a

abbrev le_fixed : Fixed → Fixed → Bool
le_fixed (pos a) (pos b) = leb a b
le_fixed (pos a) (negsuc b) = false
le_fixed (negsuc a) (pos b) = true
le_fixed (negsuc a) (negsuc b) = leb b a

abbrev eq_fixed : Fixed → Fixed → Bool
eq_fixed (pos a) (pos b) = a == b
eq_fixed (pos a) (negsuc b) = false
eq_fixed (negsuc a) (pos b) = false
eq_fixed (negsuc a) (negsuc b) = a == b

instance abbrev pub fixed_float : Float Fixed
fixed_float = record {
  of_ℕ = λ n. pos (n * scale);
  neg = neg_fixed;
  add = add_fixed;
  sub = sub_fixed;
  mul = mul_fixed;
  div = div_fixed;
  lt = lt_fixed;
  le = le_fixed;
  eq = eq_fixed;
  largest = pos (2 ^ 80);
  half_decay = λ e h. pos (scale / 2 ^ (e / h));
}

mul_comm : (x y : Fixed) → mul_fixed x y ≡ mul_fixed y x
mul_comm (pos a) (pos b) = rw (nat_mul_comm a b)
mul_comm (pos a) (negsuc b) = refl
mul_comm (negsuc a) (pos b) = refl
mul_comm (negsuc a) (negsuc b) = rw (nat_mul_comm (suc a) (suc b))

mul_le : (a b : ℕ) → b ≤ scale → a * b / scale ≤ a
mul_le a b h = grind arith

mul_fixed_le :
    (x y : Fixed)
    → le_fixed (pos 0) x ≡ true
    → le_fixed (pos 0) y ≡ true
    → le_fixed y (pos scale) ≡ true
    → le_fixed (mul_fixed x y) x ≡ true
mul_fixed_le (pos a) (pos b) h k m = ground (arith, mul_le a b)
mul_fixed_le (pos a) (negsuc b) h k m = cc
mul_fixed_le (negsuc a) y h k m = cc

half_le : (e h : ℕ) → scale / 2 ^ (e / h) ≤ scale
half_le e h = grind arith

abbrev next_fixed : Fixed → Fixed
next_fixed (pos n) = pos (n + 1)
next_fixed (negsuc n) = if n == 0 then pos 0 else negsuc (n - 1)

le_next_fixed : (x : Fixed) → le_fixed x (next_fixed x) ≡ true
le_next_fixed x = ground arith

add_back_le :
    (x y : Fixed)
    → le_fixed (pos 0) x ≡ true
    → le_fixed x y ≡ true
    → le_fixed (add_fixed x (sub_fixed y x)) (next_fixed y) ≡ true
add_back_le x y h k = ground arith

pub Fixed-IsFloat : IsFloat Fixed
Fixed-IsFloat = record {
  number_left = λ x y h. ground arith;
  number_right = λ x y h. ground arith;
  le_trans = λ x y z h k. ground arith;
  le_of_lt = λ x y h. ground arith;
  le_of_not_lt = λ x y h k l. ground arith;
  not_lt_of_le = λ x y h. ground arith;
  lt_of_lt_of_le = λ x y z h k. ground arith;
  lt_of_le_of_lt = λ x y z h k. ground arith;
  number_of_eq = λ x h. ground arith;
  eq_of_number = λ x h. ground arith;
  num_mono = λ a b h. ground arith;
  num_lt = λ a b h k. ground arith;
  num_finite = λ a h. ground arith;
  neg_one_lt = λ a. ground arith;
  add_nonneg = λ x y h k. ground arith;
  add_mono = λ x y z w h k l m. ground arith;
  next_up = next_fixed;
  le_next_up = λ x h. le_next_fixed x;
  add-sub-le_next_up = λ x y h k l. add_back_le x y h k;
  add_zero_le = λ x z h k l. ground arith;
  sub_nonpos = λ x y h k l. ground arith;
  sub_nonneg = λ x y h k l. ground arith;
  sub_le = λ x y h k l m. ground arith;
  mul_comm = mul_comm;
  mul_unit_nonneg = λ x y h k l m. ground arith;
  mul_unit_le = λ x y h k l m. mul_fixed_le x y h l m;
  div_unit_nonneg = λ x h k. ground arith;
  div_unit_le = λ x h k. ground arith;
  decay_nonneg = λ e h k. ground arith;
  decay_le_one = λ e h k. ground (arith, half_le e h);
}
