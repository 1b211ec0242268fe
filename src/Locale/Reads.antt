-- ===== src/Locale/Reads.antt =====
-- What the reads of Locale give on a stream that begins with the bytes asked for.
use daze.Base.{
  ℕ, ◌-◌, ◌<◌, ◌≡◌, refl, false, some, List, [], ◌∷◌, ◌++◌, arith, ok, length, le→leb, take-append,
  drop-append, length-append, append-nil, ◌==◌,
}
use daze.Locale.{Client, read_lax, read_strict, read_bytes, split_zero}

abbrev pub client : List ℕ → List ℕ → ℕ → List (List ℕ) → Client
client inp out q d = record { inp = inp; out = out; quota = q; dialled = d }

abbrev pub NoZeros : List ℕ → Type 0
NoZeros [] = Unit
NoZeros (b ∷ bs) = (0 < b) × NoZeros bs

module _ (out : List ℕ) (q : ℕ) (d : List (List ℕ)) where
  pub read_lax-append :
      (n : ℕ) (xs ys : List ℕ)
      → length xs ≡ n
      → read_lax n (client (xs ++ ys) out q d) ≡ (ok xs, client ys out q d)
  unfolding read_lax
  read_lax-append n xs ys h =
      let none_missing : n - length (xs ++ ys) ≡ 0 = omega (arith, length-append xs ys) in
      rw (take-append n xs ys h, drop-append n xs ys h, none_missing, append-nil xs)

  pub read_strict-append :
      (n : ℕ) (xs ys : List ℕ)
      → length xs ≡ n
      → read_strict n (client (xs ++ ys) out q d) ≡ (ok xs, client ys out q d)
  unfolding read_strict
  read_strict-append n xs ys h = rw (
    le→leb n (length (xs ++ ys)) (omega (arith, length-append xs ys)),
    take-append n xs ys h,
    drop-append n xs ys h,
  )

  split_zero-append : (u v : List ℕ) → NoZeros u → split_zero (u ++ 0 ∷ v) ≡ some (u, v)
  unfolding split_zero
  split_zero-append [] v h = refl
  split_zero-append (b ∷ u) v h =
      let nonzero : (b == 0) ≡ false = ground (arith, h.0) in
      rw (nonzero, split_zero-append u v h.1)

  pub read_bytes-append :
      (u v : List ℕ)
      → NoZeros u
      → read_bytes (client (u ++ 0 ∷ v) out q d) ≡ (ok u, client v out q d)
  unfolding read_bytes
  read_bytes-append u v h = rw (read_bytes, split_zero-append u v h) refl
