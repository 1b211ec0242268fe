-- ===== src/Base/Bits.antt =====
-- Exclusive or with no digit, and with a word of ones.
use Prim.Native.Nat.{digits, differ, bit_xor-bitwise}
use native.Mathlib.Nat.{pow-suc}
use daze.Base.{ℕ, zero, suc, ◌-◌, ◌*◌, ◌/◌, ◌%◌, ◌^◌, ◌≤◌, ◌<◌, ◌≡◌, ◌∙◌, refl, arith, bit_xor}

abbrev xor_digits : ℕ → ℕ → ℕ → ℕ
xor_digits = digits (λ b. b) differ

differ_zero : (x : ℕ) → differ x 0 ≡ x
differ_zero zero = refl
differ_zero (suc x) = refl

differ_one : (x : ℕ) → x < 2 → differ x 1 ≡ 1 - x
differ_one zero h = refl
differ_one (suc zero) h = refl
differ_one (suc (suc x)) h = absurd (omega arith)

xor_digits-zero : (n a : ℕ) → a ≤ n → xor_digits n a 0 ≡ a
xor_digits-zero zero zero h = refl
xor_digits-zero zero (suc a) h = absurd (omega arith)
xor_digits-zero (suc n) zero h = refl
xor_digits-zero (suc n) (suc a) h =
    omega (arith, xor_digits-zero n (suc a / 2) (omega arith), differ_zero (suc a % 2))

xor_digits_ones : (n k a : ℕ) → a ≤ n → a < 2 ^ k → xor_digits n a (2 ^ k - 1) ≡ 2 ^ k - 1 - a
xor_digits_ones zero k zero h lt = omega arith
xor_digits_ones zero k (suc a) h lt = absurd (omega arith)
xor_digits_ones (suc n) k zero h lt = omega arith
xor_digits_ones (suc n) zero (suc a) h lt = absurd (omega arith)
xor_digits_ones (suc n) (suc k) (suc a) h lt =
    let p : 2 ^ suc k ≡ 2 ^ k * 2 = pow-suc 2 k in
    let half : (2 ^ suc k - 1) / 2 ≡ 2 ^ k - 1 = omega arith in
    let low : (2 ^ suc k - 1) % 2 ≡ 1 = omega arith in
    rw (half, low)
      (omega (
        arith,
        xor_digits_ones n k (suc a / 2) (omega arith) (omega arith),
        differ_one (suc a % 2) (omega arith),
      ))

pub bit_xor-zero : (a : ℕ) → bit_xor a 0 ≡ a
bit_xor-zero a = bit_xor-bitwise a 0 ∙ xor_digits-zero a a (omega arith)

pub bit_xor_ones : (k a : ℕ) → a < 2 ^ k → bit_xor a (2 ^ k - 1) ≡ 2 ^ k - 1 - a
bit_xor_ones k a h = bit_xor-bitwise a (2 ^ k - 1) ∙ xor_digits_ones a k a (omega arith) h
