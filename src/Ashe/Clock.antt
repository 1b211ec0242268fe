-- ===== src/Ashe/Clock.antt =====
-- The age check of Server.Hello, which takes an absolute value in 64-bit words.
use daze.Base.{
  ℕ, ◌+◌, ◌-◌, ◌%◌, ◌^◌, ◌≤◌, ◌<◌, ◌≡◌, ◌↔◌, ◌⊎◌, inl, inr, false, arith, bit_xor, ltb,
  if◌then◌else◌, Bool-cases,
}
use daze.Base.Bits.{bit_xor-zero, bit_xor_ones}
use daze.Ashe.{life_expired, sub64, sign64, gt64, is_expired}

sub64-lt : (a b : ℕ) → sub64 a b < 2 ^ 64
unfolding sub64
sub64-lt a b = omega arith

-- The word that `gap ^ gapSign - gapSign` comes to: the gap, or its negation.
abs64 :
    (g : ℕ)
    → g < 2 ^ 64
    → sub64 (bit_xor g (sign64 g)) (sign64 g)
      ≡ (if ltb g (2 ^ 63) then g else (2 ^ 64 - g) % 2 ^ 64)
unfolding sub64 sign64
abs64 g h = ground (arith, bit_xor-zero g, bit_xor_ones 64 g h)

gap_iff :
    (g : ℕ)
    → g < 2 ^ 64
    → (gt64 (sub64 (bit_xor g (sign64 g)) (sign64 g)) life_expired ≡ false)
      ↔ ((g ≤ 120) ⊎ (2 ^ 64 ≤ g + 120) ⊎ (g ≡ 2 ^ 63))
unfolding gt64
gap_iff g h = rw (abs64 g h) (λ e. ground arith, λ e. ground arith)

-- A timestamp is accepted exactly if, in 64-bit words, it lies at most 120 seconds before or after
-- the server's clock, or 2^63 seconds away from it.
pub is_expired-eq-false_iff :
    (now time : ℕ)
    → (is_expired now time ≡ false)
      ↔ ((sub64 now time ≤ 120) ⊎ (2 ^ 64 ≤ sub64 now time + 120) ⊎ (sub64 now time ≡ 2 ^ 63))
unfolding is_expired
is_expired-eq-false_iff now time = gap_iff (sub64 now time) (sub64-lt now time)

-- Between two times after 1970 that an int64 holds, the check is the absolute difference.
pub is_expired-eq-false_of_times :
    (now time : ℕ)
    → now < 2 ^ 63
    → time < 2 ^ 63
    → (is_expired now time ≡ false) ↔ ((now ≤ time + 120) × (time ≤ now + 120))
unfolding sub64
is_expired-eq-false_of_times now time h k = (
  λ e. let w = (is_expired-eq-false_iff now time).0 e in ground arith,
  λ w.
      (is_expired-eq-false_iff now time).1
        (elim (Bool-cases (ltb now time)) [ inl lt ↦ ground arith | inr ge ↦ ground arith ]),
)

-- A client whose clock word is 2^63 away from the server's, so about 292 billion years, is let in:
-- the negation of the least int64 is itself, and negative.
pub is_expired_opposite : (now : ℕ) → now < 2 ^ 63 → is_expired now (now + 2 ^ 63) ≡ false
unfolding sub64
is_expired_opposite now h = (is_expired-eq-false_iff now (now + 2 ^ 63)).1 (inr (inr (omega arith)))
