-- ===== src/Router/Reserved/Ranges.antt =====
-- A net whose mask is a prefix contains the addresses between its first and its last.
use Prim.Native.Nat.{bit_and}
use daze.Base.{
  ℕ, zero, suc, ◌+◌, ◌-◌, ◌*◌, ◌/◌, ◌<◌, ◌≡◌, ◌⊎◌, inl, inr, refl, Bool, true, false, ◌&&◌, ◌||◌,
  List, [], ◌∷◌, arith, length, leb, ltb, ◌==◌, if◌then◌else◌, Bool-cases, ==_iff,
}
use daze.Base.Bytes.{AreBytes}
use daze.Router.Reserved.{same_masked}

-- A test that holds for all the numbers below a bound.
all_below : ℕ → (ℕ → Bool) → Bool
all_below zero p = true
all_below (suc n) p = let rest = all_below n p in if p n then rest else false

all_below-lt : (n : ℕ) (p : ℕ → Bool) → all_below n p ≡ true → (b : ℕ) → b < n → p b ≡ true
unfolding all_below
all_below-lt zero p h b lt = absurd (omega arith)
all_below-lt (suc n) p h b lt = elim (Bool-cases (p n)) [
  | inr miss ↦ let never : false ≡ true = rw miss at h in cc
  | inl hit ↦ elim (Bool-cases (b == n)) [
    | inl same ↦ let at_n : b ≡ n = (==_iff b n).0 same in rw (at_n, hit)
    | inr other ↦ all_below-lt n p (rw hit at h) b (ground (arith, other))
  ]
]

-- The order of addresses, first byte first.
unfoldable pub up_to : List ℕ → List ℕ → Bool
up_to (a ∷ as_) (b ∷ bs) = let rest = up_to as_ bs in if a == b then rest else ltb a b
up_to [] bs = true
up_to (a ∷ as_) [] = false

unfoldable pub first_of : List ℕ → List ℕ → List ℕ
first_of (n ∷ ns) (m ∷ ms) = bit_and n m ∷ first_of ns ms
first_of [] ms = []
first_of (n ∷ ns) [] = []

unfoldable pub last_of : List ℕ → List ℕ → List ℕ
last_of (n ∷ ns) (m ∷ ms) = (bit_and n m + (255 - m)) ∷ last_of ns ms
last_of [] ms = []
last_of (n ∷ ns) [] = []

unfoldable pub is_zeros : List ℕ → Bool
is_zeros [] = true
is_zeros (m ∷ ms) = let rest = is_zeros ms in if m == 0 then rest else false

is_step : ℕ → Bool
is_step m = (m == 192) || (m == 240) || (m == 248) || (m == 254)

-- Ones before zeros.
unfoldable pub is_prefix : List ℕ → Bool
unfolding is_step is_zeros
is_prefix [] = true
is_prefix (m ∷ ms) =
    let rest = is_prefix ms in
    if m == 255 then rest else if is_step m then is_zeros ms else is_zeros (m ∷ ms)

abbrev matches : ℕ → ℕ → ℕ → Bool
matches m n b = bit_and n m == bit_and b m

abbrev inside : ℕ → ℕ → ℕ → Bool
inside m n b = leb (bit_and n m) b && leb b (bit_and n m + (255 - m))

and_0 : (b : ℕ) → b < 256 → bit_and b 0 ≡ 0
unfolding all_below
and_0 b h = (==_iff (bit_and b 0) 0).0 (all_below-lt 256 (λ c. bit_and c 0 == 0) refl b h)

and_255 : (b : ℕ) → b < 256 → bit_and b 255 ≡ b
unfolding all_below
and_255 b h = (==_iff (bit_and b 255) b).0 (all_below-lt 256 (λ c. bit_and c 255 == c) refl b h)

and_192 : (b : ℕ) → b < 256 → bit_and b 192 ≡ b / 64 * 64
unfolding all_below
and_192 b h =
    (==_iff (bit_and b 192) (b / 64 * 64)).0
      (all_below-lt 256 (λ c. bit_and c 192 == c / 64 * 64) refl b h)

and_240 : (b : ℕ) → b < 256 → bit_and b 240 ≡ b / 16 * 16
unfolding all_below
and_240 b h =
    (==_iff (bit_and b 240) (b / 16 * 16)).0
      (all_below-lt 256 (λ c. bit_and c 240 == c / 16 * 16) refl b h)

and_248 : (b : ℕ) → b < 256 → bit_and b 248 ≡ b / 8 * 8
unfolding all_below
and_248 b h =
    (==_iff (bit_and b 248) (b / 8 * 8)).0
      (all_below-lt 256 (λ c. bit_and c 248 == c / 8 * 8) refl b h)

and_254 : (b : ℕ) → b < 256 → bit_and b 254 ≡ b / 2 * 2
unfolding all_below
and_254 b h =
    (==_iff (bit_and b 254) (b / 2 * 2)).0
      (all_below-lt 256 (λ c. bit_and c 254 == c / 2 * 2) refl b h)

inside_192 : (n b : ℕ) → n < 256 → b < 256 → matches 192 n b ≡ inside 192 n b
inside_192 n b hn hb = rw (and_192 n hn, and_192 b hb) (ground arith)

inside_240 : (n b : ℕ) → n < 256 → b < 256 → matches 240 n b ≡ inside 240 n b
inside_240 n b hn hb = rw (and_240 n hn, and_240 b hb) (ground arith)

inside_248 : (n b : ℕ) → n < 256 → b < 256 → matches 248 n b ≡ inside 248 n b
inside_248 n b hn hb = rw (and_248 n hn, and_248 b hb) (ground arith)

inside_254 : (n b : ℕ) → n < 256 → b < 256 → matches 254 n b ≡ inside 254 n b
inside_254 n b hn hb = rw (and_254 n hn, and_254 b hb) (ground arith)

is_step-cases : (m : ℕ) → is_step m ≡ true → (m ≡ 192) ⊎ (m ≡ 240) ⊎ (m ≡ 248) ⊎ (m ≡ 254)
unfolding is_step
is_step-cases m h = ground arith

-- A byte of a mask that has its bits in front.
abbrev IsStep : ℕ → Type 0
IsStep m = (n b : ℕ) → n < 256 → b < 256 → matches m n b ≡ inside m n b

is_step-IsStep : (m : ℕ) → is_step m ≡ true → IsStep m
is_step-IsStep m h n b hn hb = elim (is_step-cases m h) [
  | inl e ↦ rw e (inside_192 n b hn hb)
  | inr (inl e) ↦ rw e (inside_240 n b hn hb)
  | inr (inr (inl e)) ↦ rw e (inside_248 n b hn hb)
  | inr (inr (inr e)) ↦ rw e (inside_254 n b hn hb)
]

-- An address that is in reach of the mask's zeros.
record Everywhere (ns ms bs : List ℕ) : Type 0 where
  same : same_masked ns ms bs ≡ true
  low : up_to (first_of ns ms) bs ≡ true
  high : up_to bs (last_of ns ms) ≡ true

zeros-Everywhere :
    (ns ms bs : List ℕ)
    → is_zeros ms ≡ true
    → length ns ≡ length ms
    → length bs ≡ length ms
    → AreBytes ns
    → AreBytes bs
    → Everywhere ns ms bs
unfolding same_masked up_to first_of last_of is_zeros
zeros-Everywhere [] [] [] z p q hn hb = record { same = refl; low = refl; high = refl }
zeros-Everywhere [] [] (b ∷ bs) z p q hn hb = absurd (omega (arith, q))
zeros-Everywhere [] (m ∷ ms) bs z p q hn hb = absurd (omega (arith, p))
zeros-Everywhere (n ∷ ns) [] bs z p q hn hb = absurd (omega (arith, p))
zeros-Everywhere (n ∷ ns) (m ∷ ms) [] z p q hn hb = absurd (omega (arith, q))
zeros-Everywhere (n ∷ ns) (m ∷ ms) (b ∷ bs) z p q hn hb = elim (Bool-cases (m == 0)) [
  | inr miss ↦ let never : false ≡ true = rw miss at z in cc
  | inl hit ↦
      let zero_mask : m ≡ 0 = (==_iff m 0).0 hit in
      let rest =
        zeros-Everywhere ns ms bs (rw hit at z) (omega (arith, p)) (omega (arith, q)) hn.1 hb.1 in
      rw (zero_mask) (record {
        same = rw (and_0 n hn.0, and_0 b hb.0, rest.same);
        low = rw (and_0 n hn.0, rest.low) (ground arith);
        high = rw (and_0 n hn.0, rest.high) (ground arith);
      })
]

pub same_masked-up_to :
    (ns ms bs : List ℕ)
    → is_prefix ms ≡ true
    → length ns ≡ length ms
    → length bs ≡ length ms
    → AreBytes ns
    → AreBytes bs
    → same_masked ns ms bs ≡ (up_to (first_of ns ms) bs && up_to bs (last_of ns ms))
unfolding same_masked up_to first_of last_of is_prefix
same_masked-up_to [] [] [] z p q hn hb = refl
same_masked-up_to [] [] (b ∷ bs) z p q hn hb = absurd (omega (arith, q))
same_masked-up_to [] (m ∷ ms) bs z p q hn hb = absurd (omega (arith, p))
same_masked-up_to (n ∷ ns) [] bs z p q hn hb = absurd (omega (arith, p))
same_masked-up_to (n ∷ ns) (m ∷ ms) [] z p q hn hb = absurd (omega (arith, q))
same_masked-up_to (n ∷ ns) (m ∷ ms) (b ∷ bs) z p q hn hb = elim (Bool-cases (m == 255)) [
  | inl hit ↦
      let full : m ≡ 255 = (==_iff m 255).0 hit in
      let rest =
        same_masked-up_to ns ms bs (rw hit at z) (omega (arith, p)) (omega (arith, q)) hn.1 hb.1 in
      rw (full, and_255 n hn.0, and_255 b hb.0, rest) (ground arith)
  | inr miss ↦ elim (Bool-cases (is_step m)) [
    | inl step ↦
        let rest =
          zeros-Everywhere ns ms bs (rw (miss, step) at z) (omega (arith, p)) (omega (arith, q))
            hn.1 hb.1 in
        rw (is_step-IsStep m step n b hn.0 hb.0, rest.same, rest.low, rest.high) (ground arith)
    | inr other ↦
        let all = zeros-Everywhere (n ∷ ns) (m ∷ ms) (b ∷ bs) (rw (miss, other) at z) p q hn hb in
        rw (all.same, all.low, all.high)
  ]
]
