-- ===== src/Czar/Sip.antt =====
-- protocol/czar/sip.go: the pool of stream ids. The big.Int is its binary digits, lowest first.
use daze.Base.{
  ℕ, zero, suc, ◌%◌, ◌≤◌, ◌<◌, ◌≡◌, refl, inl, inr, Bool, true, false, List, [], ◌∷◌, arith,
  Outcome, ok, fail, panic, out_of_stream, length, ◌==◌, if◌then◌else◌, Bool-cases,
}

abbrev pub Sip : Type 0
Sip = List Bool

-- `NewSip`
abbrev pub new_sip : Sip
new_sip = []

-- big.Int's Bit and SetBit
unfoldable pub bit : Sip → ℕ → Bool
bit [] i = false
bit (b ∷ s) zero = b
bit (b ∷ s) (suc i) = bit s i

unfoldable pub set_bit : Sip → ℕ → Bool → Sip
set_bit [] zero v = v ∷ []
set_bit [] (suc i) v = false ∷ set_bit [] i v
set_bit (b ∷ s) zero v = v ∷ s
set_bit (b ∷ s) (suc i) v = b ∷ set_bit s i v

-- TrailingZeroBits of the complement: how many ones stand at the low end.
unfoldable pub trailing_ones : Sip → ℕ
trailing_ones [] = 0
trailing_ones (false ∷ s) = 0
trailing_ones (true ∷ s) = suc (trailing_ones s)

-- `Sip.Get`
unfoldable pub get : Sip → Outcome (ℕ × Sip)
get s =
    let m = trailing_ones s in
    if m == 256 then fail out_of_stream else ok (m % 256, set_bit s m true)

-- `Sip.Put`; doa.Doa panics on an id that is in the pool.
unfoldable pub put : Sip → ℕ → Outcome Sip
put s x = if bit s x then ok (set_bit s x false) else panic

-- `Sip.Set`
unfoldable pub set_used : Sip → ℕ → Sip
set_used s x = set_bit s x true

pub bit-set_bit :
    (s : Sip) (x y : ℕ) (v : Bool) → bit (set_bit s x v) y ≡ (if x == y then v else bit s y)
unfolding bit set_bit
bit-set_bit [] zero zero v = refl
bit-set_bit [] zero (suc y) v = ground arith
bit-set_bit [] (suc x) zero v = ground arith
bit-set_bit [] (suc x) (suc y) v = ground (arith, bit-set_bit [] x y v)
bit-set_bit (b ∷ s) zero zero v = refl
bit-set_bit (b ∷ s) zero (suc y) v = ground arith
bit-set_bit (b ∷ s) (suc x) zero v = ground arith
bit-set_bit (b ∷ s) (suc x) (suc y) v = ground (arith, bit-set_bit s x y v)

length-set_bit-le :
    (s : Sip) (x n : ℕ) (v : Bool) → length s ≤ n → x < n → length (set_bit s x v) ≤ n
unfolding set_bit
length-set_bit-le [] zero n v h p = omega arith
length-set_bit-le [] (suc x) zero v h p = absurd (omega arith)
length-set_bit-le [] (suc x) (suc n) v h p =
    omega (arith, length-set_bit-le [] x n v (omega arith) (omega arith))
length-set_bit-le (b ∷ s) zero n v h p = h
length-set_bit-le (b ∷ s) (suc x) zero v h p = absurd (omega arith)
length-set_bit-le (b ∷ s) (suc x) (suc n) v h p =
    omega (arith, length-set_bit-le s x n v (omega arith) (omega arith))

trailing_ones-le : (s : Sip) → trailing_ones s ≤ length s
unfolding trailing_ones
trailing_ones-le [] = omega arith
trailing_ones-le (false ∷ s) = omega arith
trailing_ones-le (true ∷ s) = omega (arith, trailing_ones-le s)

bit-trailing_ones : (s : Sip) → bit s (trailing_ones s) ≡ false
unfolding bit trailing_ones
bit-trailing_ones [] = refl
bit-trailing_ones (false ∷ s) = refl
bit-trailing_ones (true ∷ s) = bit-trailing_ones s

bit_below : (s : Sip) (m : ℕ) → m < trailing_ones s → bit s m ≡ true
unfolding bit trailing_ones
bit_below [] m h = absurd (omega arith)
bit_below (false ∷ s) m h = absurd (omega arith)
bit_below (true ∷ s) zero h = refl
bit_below (true ∷ s) (suc m) h = bit_below s m (omega arith)

-- No digit stands behind that of the last id.
abbrev pub IsPool : Sip → Type 0
IsPool s = length s ≤ 256

-- What Get may come to: an id, with the pool that is left, or the error.
pub record IsLeast (s : Sip) (n : ℕ) (s' : Sip) : Type 0 where
  pub below : n < 256
  pub free : bit s n ≡ false
  pub least : (m : ℕ) → m < n → bit s m ≡ true
  pub taken : (m : ℕ) → bit s' m ≡ (if n == m then true else bit s m)
  pub pool : IsPool s'

abbrev pub Got : Sip → Outcome (ℕ × Sip) → Type 0
Got s (ok (n, s')) = IsLeast s n s'
Got s (fail e) = (e ≡ out_of_stream) × ((m : ℕ) → m < 256 → bit s m ≡ true)
Got s panic = ⊥

-- Get hands out the least id that is not in use and marks it, and nothing else; it fails only when
-- all 256 ids are in use, and never panics.
pub get-Got : (s : Sip) → IsPool s → Got s (get s)
unfolding get
get-Got s h = elim (Bool-cases (trailing_ones s == 256)) [
  | inl full ↦ rw full (refl, λ m p. bit_below s m (ground arith))
  | inr room ↦
      let lt : trailing_ones s < 256 = ground (arith, trailing_ones-le s) in
      let small : trailing_ones s % 256 ≡ trailing_ones s = omega arith in
      rw (room, small)
        (record {
          below = lt;
          free = bit-trailing_ones s;
          least = bit_below s;
          taken = λ m. bit-set_bit s (trailing_ones s) m true;
          pool = length-set_bit-le s _ 256 true h lt;
        })
]

pub put-IsPool : (s : Sip) (x : ℕ) {s' : Sip} → IsPool s → x < 256 → put s x ≡ ok s' → IsPool s'
unfolding put
put-IsPool s x h p e = ground (arith, length-set_bit-le s x 256 false h p)

pub set_used-IsPool : (s : Sip) (x : ℕ) → IsPool s → x < 256 → IsPool (set_used s x)
unfolding set_used
set_used-IsPool s x h p = length-set_bit-le s x 256 true h p

pub put-ok : (s : Sip) (x : ℕ) → bit s x ≡ true → put s x ≡ ok (set_bit s x false)
unfolding put
put-ok s x h = rw h
