-- ===== src/Baboon/Signature.antt =====
-- Whom Server.Route of protocol/baboon lets in.
use daze.Base.{
  ℕ, ◌≡◌, ◌≢◌, ◌↔◌, refl, sym, ap, ◌∙◌, true, false, Option, some, List, [], ◌∷◌, ◌++◌, arith,
  length, take, drop, ◌==◌, ==_iff, Bool-cases, inl, inr, take-append, drop-append, length-append,
  take-append-drop, length-take_of_le, Option-cases,
}
use daze.Baboon.{same_bytes, check_auth, decoded, route, authorization}

same_bytes_refl : (xs : List ℕ) → same_bytes xs xs ≡ true
unfolding same_bytes
same_bytes_refl [] = refl
same_bytes_refl (b ∷ bs) = let e : (b == b) ≡ true = ground arith in rw (e, same_bytes_refl bs)

pub eq_of_same_bytes : (xs ys : List ℕ) → same_bytes xs ys ≡ true → xs ≡ ys
unfolding same_bytes
eq_of_same_bytes [] [] h = refl
eq_of_same_bytes [] (c ∷ cs) h = cc
eq_of_same_bytes (b ∷ bs) [] h = cc
eq_of_same_bytes (b ∷ bs) (c ∷ cs) h = elim (Bool-cases (b == c)) [
  | inl e ↦ let head : b ≡ c = (==_iff b c).0 e in rw (head, eq_of_same_bytes bs cs (rw e at h))
  | inr e ↦ let no_way : false ≡ true = rw e at h in cc
]

module _ (md5 hex_encode : List ℕ → List ℕ) (hex_decode : List ℕ → Option (List ℕ)) where
  -- The header's bytes are 16 bytes and their signature.
  pub record Signed (cipher bytes : List ℕ) : Type 0 where
    pub rand : List ℕ
    pub sixteen : length rand ≡ 16
    pub signature : bytes ≡ rand ++ md5 (rand ++ take 16 cipher)

  abbrev pub HasDigest : Type 0
  HasDigest = (xs : List ℕ) → length (md5 xs) ≡ 16

  check_auth-eq-one :
      (cipher bytes : List ℕ)
      → check_auth md5 hex_encode hex_decode cipher bytes ≡ 1
      → Signed cipher bytes
  unfolding check_auth
  check_auth-eq-one cipher bytes h = elim (Bool-cases (length bytes == 32)) [
    | inl full ↦
        elim (Bool-cases (same_bytes (drop 16 bytes) (md5 (take 16 bytes ++ take 16 cipher)))) [
          | inl same ↦ record {
            rand = take 16 bytes;
            sixteen = length-take_of_le 16 bytes (omega (arith, (==_iff (length bytes) 32).0 full));
            signature =
                sym (take-append-drop 16 bytes)
                ∙ ap (λ x. take 16 bytes ++ x)
                    (eq_of_same_bytes (drop 16 bytes) (md5 (take 16 bytes ++ take 16 cipher)) same);
          }
          | inr other ↦ let no_way : 0 ≡ 1 = rw (full, other) at h in absurd (omega (arith, no_way))
        ]
    | inr other ↦ let no_way : 0 ≡ 1 = rw other at h in absurd (omega (arith, no_way))
  ]

  check_auth-Signed :
      HasDigest
      → (cipher bytes : List ℕ) → Signed cipher bytes
      → check_auth md5 hex_encode hex_decode cipher bytes ≡ 1
  unfolding check_auth
  check_auth-Signed digest cipher bytes s =
      let sign = md5 (s.rand ++ take 16 cipher) in
      let full : (length (s.rand ++ sign) == 32) ≡ true =
        ground (arith, length-append s.rand sign, s.sixteen, digest (s.rand ++ take 16 cipher)) in
      rw (
        s.signature,
        full,
        take-append 16 s.rand sign s.sixteen,
        drop-append 16 s.rand sign s.sixteen,
        same_bytes_refl sign,
      )

  -- Route lets in exactly the requests whose header decodes to 16 bytes and the MD5 of these and
  -- of the first 16 of the cipher; where MD5 gives 16 bytes, and for a header that is there.
  pub route-eq-one_iff :
      HasDigest
      → (cipher auth : List ℕ) → auth ≢ []
      → (route md5 hex_encode hex_decode cipher auth ≡ 1)
        ↔ ((bytes : List ℕ) × (hex_decode auth ≡ some bytes) × Signed cipher bytes)
  unfolding route decoded
  route-eq-one_iff digest cipher [] given = absurd (given refl)
  route-eq-one_iff digest cipher (b ∷ bs) given = (there, back)
    where
      there :
          decoded md5 hex_encode hex_decode cipher (hex_decode (b ∷ bs)) ≡ 1
          → (bytes : List ℕ) × (hex_decode (b ∷ bs) ≡ some bytes) × Signed cipher bytes
      there h = elim (Option-cases (hex_decode (b ∷ bs))) [
        | inl e ↦ let no_way : 0 ≡ 1 = rw e at h in absurd (omega (arith, no_way))
        | inr (bytes, e) ↦ (bytes, e, check_auth-eq-one cipher bytes (rw e at h))
      ]

      back :
          (bytes : List ℕ) × (hex_decode (b ∷ bs) ≡ some bytes) × Signed cipher bytes
          → decoded md5 hex_encode hex_decode cipher (hex_decode (b ∷ bs)) ≡ 1
      back p = rw p.1 (check_auth-Signed digest cipher p.0 p.2)

  -- Route of a server lets in what Client.Dial of the same cipher signs, whichever 16 random bytes
  -- it takes; for a hexadecimal coding that decodes what it has encoded, and not to nothing.
  pub route-authorization :
      HasDigest
      → ((xs : List ℕ) → hex_decode (hex_encode xs) ≡ some xs)
      → (cipher rand : List ℕ) → length rand ≡ 16
      → authorization md5 hex_encode hex_decode cipher rand ≢ []
      → route md5 hex_encode hex_decode cipher (authorization md5 hex_encode hex_decode cipher rand)
        ≡ 1
  unfolding authorization
  route-authorization digest decodes cipher rand h given =
      (route-eq-one_iff digest cipher (authorization md5 hex_encode hex_decode cipher rand) given).1
        (
          rand ++ md5 (rand ++ take 16 cipher),
          decodes (rand ++ md5 (rand ++ take 16 cipher)),
          record { rand = rand; sixteen = h; signature = refl },
        )
