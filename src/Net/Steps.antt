-- ===== src/Net/Steps.antt =====
-- What a read and a write of a connection come to, where the bytes are known.
use daze.Base.{
  ℕ, suc, ◌+◌, ◌≤◌, ◌<◌, ◌≡◌, refl, Bool, Option, some, List, [], ◌∷◌, ◌++◌, arith, ok, fail,
  length, le→leb, take-append, drop-append, length-append, append-nil,
}
use daze.Net.{Conn, translate, read_full, write, end_error, stream, IsInvolutive}

module _ (crypt : List ℕ → ℕ → ℕ → ℕ) where
  -- A connection in the middle of a run, its fields written out.
  abbrev pub conn : List ℕ → List ℕ → ℕ → Option (List ℕ) → ℕ → ℕ → Bool → Conn
  conn inp out quota key rpos wpos closed = record {
    inp = inp;
    out = out;
    quota = quota;
    key = key;
    rpos = rpos;
    wpos = wpos;
    closed = closed;
  }

  pub read_full-append :
      (n : ℕ) (xs ys out : List ℕ) (q : ℕ) (k : Option (List ℕ)) (r w : ℕ) (b : Bool)
      → length xs ≡ n
      → read_full crypt n (conn (xs ++ ys) out q k r w b)
        ≡ (ok (translate crypt k r xs), conn ys out q k (r + n) w b)
  unfolding read_full
  read_full-append n xs ys out q k r w b e =
      let le : n ≤ length (xs ++ ys) = omega (arith, length-append xs ys) in
      rw (le→leb n _ le, take-append n xs ys e, drop-append n xs ys e)

  pub read_full_all :
      (n : ℕ) (xs out : List ℕ) (q : ℕ) (k : Option (List ℕ)) (r w : ℕ) (b : Bool)
      → length xs ≡ n
      → read_full crypt n (conn xs out q k r w b)
        ≡ (ok (translate crypt k r xs), conn [] out q k (r + n) w b)
  read_full_all n xs out q k r w b e =
      let h = read_full-append n xs [] out q k r w b e in rw (append-nil xs) at h

  -- Two bytes that were written under the same key, read back.
  pub read_full_two :
      IsInvolutive crypt
      → (key : List ℕ) (i x y : ℕ) (zs out : List ℕ) (q w : ℕ) (b : Bool) → x < 256
      → y < 256
      → read_full crypt 2 (conn (stream crypt key i (x ∷ y ∷ zs)) out q (some key) i w b)
        ≡ (ok (x ∷ y ∷ []), conn (stream crypt key (suc (suc i)) zs) out q (some key) (i + 2) w b)
  unfolding read_full stream
  read_full_two inv key i x y zs out q w b p r = rw (
    le→leb 2 (length (x ∷ y ∷ stream crypt key (suc (suc i)) zs)) (omega arith),
    inv key i x p,
    inv key (suc i) y r,
  )

  pub read_full_short :
      (n : ℕ) (xs out : List ℕ) (q : ℕ) (k : Option (List ℕ)) (r w : ℕ) (b : Bool)
      → length xs < n
      → read_full crypt n (conn xs out q k r w b)
        ≡ (fail (end_error xs), conn [] out q k (r + length xs) w b)
  unfolding read_full
  read_full_short n xs out q k r w b h = ground arith

  pub write_ok :
      (bs inp out : List ℕ) (q : ℕ) (k : Option (List ℕ)) (r w : ℕ) (b : Bool)
      → write crypt bs (conn inp out (suc q) k r w b)
        ≡ (ok tt, conn inp (out ++ translate crypt k w bs) q k r (w + length bs) b)
  unfolding write
  write_ok bs inp out q k r w b = refl
