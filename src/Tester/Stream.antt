-- ===== src/Tester/Stream.antt =====
-- What TCPServe answers to a stream of whole requests.
use daze.Base.{
  drop_all, ℕ, zero, suc, ◌+◌, ◌-◌, ◌*◌, ◌≤◌, ◌<◌, ◌≡◌, refl, sym, ap, ◌∙◌, inl, inr, true, false,
  List, [], ◌∷◌, ◌++◌, arith, ok, length, take, drop, replicate, leb, ◌==◌, ==_refl, le→leb,
  append_assoc, append-nil, take-append, drop-append, length-append, length-drop, length-replicate,
  Bool-cases,
}
use daze.Tester.{Peer, over, fill, write, all_are, send_full, check_full, send, check}

replicate_add : (m n v : ℕ) → replicate m v ++ replicate n v ≡ replicate (m + n) v
replicate_add zero n v = let e : zero + n ≡ n = omega arith in rw e
replicate_add (suc m) n v =
    let e : suc m + n ≡ suc (m + n) = omega arith in rw e (ap (◌∷◌ v) (replicate_add m n v))

no_more : (cnt v : ℕ) (out : List ℕ) → out ++ replicate (cnt - cnt) v ≡ out
no_more cnt v out = let e : cnt - cnt ≡ 0 = omega arith in rw e (append-nil out)

take-replicate : (m n v : ℕ) → m ≤ n → take m (replicate n v) ≡ replicate m v
take-replicate zero n v h = refl
take-replicate (suc m) zero v h = absurd (omega (arith, h))
take-replicate (suc m) (suc n) v h = ap (◌∷◌ v) (take-replicate m n v (omega (arith, h)))

suc_not_zero : (r : ℕ) → (suc r == 0) ≡ false
suc_not_zero r = ground arith

pub all_are-replicate : (n v : ℕ) → all_are v (replicate n v) ≡ true
unfolding all_are
all_are-replicate zero v = refl
all_are-replicate (suc n) v = rw (all_are-replicate n v, ==_refl v)

-- A peer that has not closed.
abbrev pub peer : List ℕ → List ℕ → ℕ → List ℕ → Peer
peer inp out q buf = record { inp = inp; out = out; quota = q; closed = false; buf = buf }

module _ (size : ℕ) where
  abbrev Sent : ℕ → ℕ → ℕ → List ℕ → List ℕ → ℕ → Type 0
  Sent fuel v cnt inp out q =
      (r : ℕ) × (q' : ℕ) × (r < size)
      × (r ≤ cnt)
      × (q ≤ q' + fuel)
      × (send_full size fuel cnt (peer inp out q (replicate size v))
          ≡ (ok r, peer inp (out ++ replicate (cnt - r) v) q' (replicate size v)))

  send_full-Sent :
      (fuel v cnt : ℕ) (inp out : List ℕ) (q : ℕ)
      → cnt < suc fuel * size
      → fuel ≤ q
      → Sent fuel v cnt inp out q
  unfolding send_full write
  send_full-Sent zero v cnt inp out q h quota = (
    cnt,
    q,
    omega (arith, h),
    omega arith,
    omega arith,
    ap (λ o. (ok cnt, peer inp o q (replicate size v))) (sym (no_more cnt v out)),
  )
  send_full-Sent (suc fuel) v cnt inp out zero h quota = absurd (omega (arith, quota))
  send_full-Sent (suc fuel) v cnt inp out (suc q) h quota = elim (Bool-cases (leb size cnt)) [
    | inr short ↦ (
      cnt,
      suc q,
      ground (arith, short),
      omega arith,
      omega arith,
      rw (short, no_more cnt v out) refl,
    )
    | inl long ↦
        let le : size ≤ cnt = ground (arith, long) in
        let (r, q', small, less, used, e) =
          send_full-Sent fuel v (cnt - size) inp (out ++ replicate size v) q (omega (arith, h, le))
            (omega (arith, quota)) in
        let sum : size + (cnt - size - r) ≡ cnt - r = omega (arith, less, le) in
        (
          r,
          q',
          small,
          omega (arith, less),
          omega (arith, used),
          rw long (
              e
              ∙ ap (λ o. (ok r, peer inp o q' (replicate size v)))
                  (append_assoc out (replicate size v) (replicate (cnt - size - r) v)
                    ∙ ap (◌++◌ out)
                        (replicate_add size (cnt - size - r) v ∙ ap (λ n. replicate n v) sum))),
        )
  ]

  -- Command 0: as many copies as it asks for.
  pub send_lem :
      (v cnt : ℕ) (inp out buf : List ℕ) (q : ℕ)
      → cnt < 33 * size
      → 33 ≤ q
      → (q' : ℕ) × (q ≤ q' + 33)
        × (send size v cnt (peer inp out q buf)
            ≡ (ok tt, peer inp (out ++ replicate cnt v) q' (replicate size v)))
  unfolding send write
  send_lem v cnt inp out buf q h quota =
      go (send_full-Sent 32 v cnt inp out q (omega (arith, h)) (omega (arith, quota)))
    where
      go :
          Sent 32 v cnt inp out q
          → (q' : ℕ) × (q ≤ q' + 33)
            × (send size v cnt (peer inp out q buf)
                ≡ (ok tt, peer inp (out ++ replicate cnt v) q' (replicate size v)))
      go (zero, q', small, less, used, e) =
          let all : cnt - 0 ≡ cnt = omega arith in (q', omega (arith, used), rw (e, all) refl)
      go (suc r, zero, small, less, used, e) = absurd (omega (arith, quota, used))
      go (suc r, suc q', small, less, used, e) =
          let sum : cnt - suc r + suc r ≡ cnt = omega (arith, less) in
          (
            q',
            omega (arith, used),
            rw (e, suc_not_zero r, take-replicate (suc r) size v (omega (arith, small)))
                (ap (λ o. (ok tt, peer inp o q' (replicate size v)))
                  (append_assoc out (replicate (cnt - suc r) v) (replicate (suc r) v)
                    ∙ ap (◌++◌ out)
                        (replicate_add (cnt - suc r) (suc r) v ∙ ap (λ n. replicate n v) sum))),
          )

  abbrev Checked : ℕ → ℕ → ℕ → List ℕ → List ℕ → ℕ → List ℕ → Type 0
  Checked fuel v cnt rest out q buf =
      (r : ℕ) × (buf' : List ℕ) × (r < size)
      × (length buf' ≡ size)
      × (check_full size fuel v cnt (peer (replicate cnt v ++ rest) out q buf)
          ≡ (ok r, peer (replicate r v ++ rest) out q buf'))

  -- A buffer's worth of copies, read.
  fill_copies :
      (n v : ℕ) (rest out buf : List ℕ) (q : ℕ)
      → fill n (peer (replicate n v ++ rest) out q buf)
        ≡ (ok true, peer rest out q (over (replicate n v) buf))
  unfolding fill
  fill_copies n v rest out buf q =
      let l = length-replicate n v in
      let enough_there : n ≤ length (replicate n v ++ rest) =
        omega (arith, length-append (replicate n v) rest, l) in
      rw
        (
          le→leb n _ enough_there,
          take-append n (replicate n v) rest l,
          drop-append n (replicate n v) rest l,
        )
        refl

  pub length-over :
      (n v : ℕ) (buf : List ℕ) → n ≤ length buf → length (over (replicate n v) buf) ≡ length buf
  length-over n v buf h = omega (
    arith,
    h,
    length-append (replicate n v) (drop (length (replicate n v)) buf),
    length-drop (length (replicate n v)) buf,
    length-replicate n v,
  )

  over_whole : (n v : ℕ) (buf : List ℕ) → length buf ≡ n → over (replicate n v) buf ≡ replicate n v
  over_whole n v buf l =
      let d : drop (length (replicate n v)) buf ≡ [] =
        drop_all (length (replicate n v)) buf (omega (arith, l, length-replicate n v)) in
      ap (◌++◌ (replicate n v)) d ∙ append-nil (replicate n v)

  cut_copies :
      (n cnt v : ℕ) (rest : List ℕ)
      → n ≤ cnt
      → replicate cnt v ++ rest ≡ replicate n v ++ (replicate (cnt - n) v ++ rest)
  cut_copies n cnt v rest le =
      let sum : n + (cnt - n) ≡ cnt = omega (arith, le) in
      ap (λ m. replicate m v ++ rest) (sym sum)
      ∙ ap (λ xs. xs ++ rest) (sym (replicate_add n (cnt - n) v))
      ∙ append_assoc (replicate n v) (replicate (cnt - n) v) rest

  check_full-Checked :
      (fuel v cnt : ℕ) (rest out buf : List ℕ) (q : ℕ)
      → cnt < suc fuel * size
      → length buf ≡ size
      → Checked fuel v cnt rest out q buf
  unfolding check_full
  check_full-Checked zero v cnt rest out buf q h l = (cnt, buf, omega (arith, h), l, refl)
  check_full-Checked (suc fuel) v cnt rest out buf q h l = elim (Bool-cases (leb size cnt)) [
    | inr short ↦ (cnt, buf, ground (arith, short), l, rw short refl)
    | inl long ↦
        let le : size ≤ cnt = ground (arith, long) in
        let next = over (replicate size v) buf in
        let (r, buf', small, l', e) =
          check_full-Checked fuel v (cnt - size) rest out next q (omega (arith, h, le))
            (length-over size v buf (omega (arith, l)) ∙ l) in
        let same : all_are v next ≡ true =
          rw (over_whole size v buf l) (all_are-replicate size v) in
        (
          r,
          buf',
          small,
          l',
          rw
              (
                long,
                cut_copies size cnt v rest le,
                fill_copies size v (replicate (cnt - size) v ++ rest) out buf q,
                same,
              )
              e,
        )
  ]

  -- Command 1: as many copies as it promises are taken, and found to be right.
  pub check_lem :
      (v cnt : ℕ) (rest out buf : List ℕ) (q : ℕ)
      → cnt < 33 * size
      → length buf ≡ size
      → (buf' : List ℕ) × (length buf' ≡ size)
        × (check size v cnt (peer (replicate cnt v ++ rest) out q buf)
            ≡ (ok tt, peer rest out q buf'))
  unfolding check
  check_lem v cnt rest out buf q h l =
      go (check_full-Checked 32 v cnt rest out buf q (omega (arith, h)) l)
    where
      go :
          Checked 32 v cnt rest out q buf
          → (buf' : List ℕ) × (length buf' ≡ size)
            × (check size v cnt (peer (replicate cnt v ++ rest) out q buf)
                ≡ (ok tt, peer rest out q buf'))
      go (zero, buf', small, l', e) = (buf', l', rw e refl)
      go (suc r, buf', small, l', e) =
          let next = over (replicate (suc r) v) buf' in
          let front : take (suc r) next ≡ replicate (suc r) v =
            take-append (suc r) (replicate (suc r) v) _ (length-replicate (suc r) v) in
          (
            next,
            length-over (suc r) v buf' (omega (arith, small, l')) ∙ l',
            rw
                (
                  e,
                  suc_not_zero r,
                  fill_copies (suc r) v rest out buf' q,
                  front,
                  all_are-replicate (suc r) v,
                )
                refl,
          )
