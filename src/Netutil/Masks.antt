-- ===== src/Netutil/Masks.antt =====
-- Masking a number twice, and masks of IPv4-mapped addresses.
use native.Mathlib.Nat.{
  div-div-eq-div-mul, div-mul-le_self, mul-div_cancel, mul_assoc, one-le-pow, pow-suc,
}
use federloom.Prelude.{
  ℕ, zero, suc, ◌+◌, ◌-◌, ◌*◌, ◌/◌, ◌^◌, ◌≤◌, ◌<◌, ◌≡◌, sym, ap, ◌∙◌, false, ◌==◌, arith, ltb,
  tests, Bool-cases, inl, inr,
}
use federloom.Netutil.{mask, is_mapped}

pow_add : (a b : ℕ) → 2 ^ (a + b) ≡ 2 ^ a * 2 ^ b
pow_add a zero = let e : a + 0 ≡ a = omega arith in rw e (omega arith)
pow_add a (suc b) =
    let e : a + suc b ≡ suc (a + b) = omega arith in
    rw (e, pow-suc 2 (a + b), pow-suc 2 b, pow_add a b) (mul_assoc (2 ^ a) (2 ^ b) 2)

pow_pos : (k : ℕ) → 0 < 2 ^ k
pow_pos k = let h : 1 ≤ 2 ^ k = one-le-pow k 2 (omega arith) in omega arith

-- What a division leaves when lower bits were cleared before it.
cleared : (n k l : ℕ) → 0 < k → n / k * k / (k * l) ≡ n / (k * l)
cleared n k l h =
    sym (div-div-eq-div-mul (n / k * k) k l)
    ∙ ap (λ x. x / l) (mul-div_cancel (n / k) h)
    ∙ div-div-eq-div-mul n k l

cleared_pow : (n j k : ℕ) → j ≤ k → n / 2 ^ j * 2 ^ j / 2 ^ k ≡ n / 2 ^ k
cleared_pow n j k h =
    let e : k ≡ j + (k - j) = omega arith in
    rw (e, pow_add j (k - j)) (cleared n (2 ^ j) (2 ^ (k - j)) (pow_pos j))

pub mask-mask : (w b c n : ℕ) → b ≤ c → mask w b (mask w c n) ≡ mask w b n
unfolding mask
mask-mask w b c n h = ap (λ x. x * 2 ^ (w - b)) (cleared_pow n (w - c) (w - b) (omega arith))

even_ne : (x y : ℕ) → x ≡ 2 * y → (x == 65535) ≡ false
even_ne x y h = ground arith

-- No mask makes an address one that is IPv4-mapped.
pub mask-mapped : (c n : ℕ) → is_mapped n ≡ false → is_mapped (mask 128 c n) ≡ false
unfolding mask
mask-mapped c n h = elim (Bool-cases (ltb 32 (128 - c))) [
  | inr few ↦ ap (λ x. x == 65535) (cleared_pow n (128 - c) 32 (omega tests)) ∙ h
  | inl many ↦
      let r = 128 - c - 33 in
      let e : 128 - c ≡ r + 33 = omega tests in
      let y = n / 2 ^ (128 - c) * 2 ^ r in
      let split : n / 2 ^ (128 - c) * 2 ^ (128 - c) ≡ 2 * y * 4294967296 =
        ap (λ x. n / 2 ^ (128 - c) * x) (ap (λ x. 2 ^ x) e ∙ pow_add r 33)
        ∙ sym (mul_assoc (n / 2 ^ (128 - c)) (2 ^ r) 8589934592)
        ∙ omega arith in
      even_ne (mask 128 c n / 4294967296) y
        (ap (λ x. x / 4294967296) split ∙ mul-div_cancel (2 * y) (omega arith))
]

pub mask-le : (w c n : ℕ) → mask w c n ≤ n
unfolding mask
mask-le w c n = div-mul-le_self n (2 ^ (w - c))
