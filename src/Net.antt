-- ===== src/Net.antt =====
-- A connection as the handlers see it (io.ReadWriteCloser of daze.go), and daze.Gravity, which puts
-- RC4 over both its directions. `crypt key i b` stands for the standard library's cipher: what
-- XORKeyStream makes of the byte `b` at place `i` of the stream under `key`.
pub mod Steps
use daze.Base.{
  ℕ, zero, suc, ◌+◌, ◌-◌, ◌≤◌, ◌<◌, ◌≡◌, refl, ap, ◌∙◌, Bool, true, false, Option, none, some, List,
  [], ◌∷◌, ◌++◌, arith, Error, Outcome, ok, fail, panic, eof, unexpected_eof, broken_pipe, length,
  take, drop, leb, if◌then◌else◌, le→leb, take-append, drop-append, length-append,
}
use daze.Base.Bytes.{AreBytes}
use daze.Base.State.{St}

pub record Conn : Type 0 where
  pub inp : List ℕ  -- what the peer has sent and nobody has read
  pub out : List ℕ  -- what has been written, on the wire
  pub quota : ℕ  -- how many more writes succeed before the connection breaks
  pub key : Option (List ℕ)  -- the RC4 key, once Gravity is in place
  pub rpos : ℕ  -- bytes read under the key
  pub wpos : ℕ  -- bytes written under the key
  pub closed : Bool

-- A connection that has just been made, with what the peer will send.
abbrev pub fresh : ℕ → List ℕ → Conn
fresh quota inp = record {
  inp = inp;
  out = [];
  quota = quota;
  key = none;
  rpos = 0;
  wpos = 0;
  closed = false;
}

-- A step of a handler: it may read, write and close the connection.
abbrev pub M : Type 0 → Type 0
M A = St Conn A

-- `Gravity(conn, k)`.
unfoldable pub gravity : List ℕ → M (Unit {0})
gravity k c = (ok tt, record c { key = some k; rpos = 0; wpos = 0 })

pub close : M (Unit {0})
close c = (ok tt, record c { closed = true })

-- What io.ReadFull says when the stream has ended: EOF if it has read nothing.
abbrev pub end_error : List ℕ → Error
end_error [] = eof
end_error (_ ∷ _) = unexpected_eof

module _ (crypt : List ℕ → ℕ → ℕ → ℕ) where
  -- A stretch of the stream that begins at place `i`.
  unfoldable pub stream : List ℕ → ℕ → List ℕ → List ℕ
  stream k i [] = []
  stream k i (b ∷ bs) = crypt k i b ∷ stream k (suc i) bs

  abbrev pub translate : Option (List ℕ) → ℕ → List ℕ → List ℕ
  translate none i bs = bs
  translate (some k) i bs = stream k i bs

  -- `io.ReadFull` of `n` bytes.
  unfoldable pub read_full : ℕ → M (List ℕ)
  read_full n c =
      if leb n (length c.inp)
      then (
        ok (translate c.key c.rpos (take n c.inp)),
        record c { inp = drop n c.inp; rpos = c.rpos + n },
      )
      else (fail (end_error c.inp), record c { inp = []; rpos = c.rpos + length c.inp })

  unfoldable pub write_within : ℕ → List ℕ → M (Unit {0})
  write_within zero bs c = (fail broken_pipe, c)
  write_within (suc q) bs c = (
    ok tt,
    record c { out = c.out ++ translate c.key c.wpos bs; quota = q; wpos = c.wpos + length bs },
  )

  -- `Write`: all of the bytes, or an error with none of them.
  unfoldable pub write : List ℕ → M (Unit {0})
  unfolding write_within
  write bs c = write_within c.quota bs c

  pub length-stream : (k : List ℕ) (i : ℕ) (bs : List ℕ) → length (stream k i bs) ≡ length bs
  unfolding stream
  length-stream k i [] = refl
  length-stream k i (b ∷ bs) = ap suc (length-stream k (suc i) bs)

  pub stream-append :
      (k : List ℕ) (i : ℕ) (xs ys : List ℕ)
      → stream k i (xs ++ ys) ≡ stream k i xs ++ stream k (i + length xs) ys
  unfolding stream
  stream-append k i [] ys = let e : i + 0 ≡ i = omega arith in rw e
  stream-append k i (x ∷ xs) ys =
      let e : suc i + length xs ≡ i + suc (length xs) = omega arith in
      ap (◌∷◌ (crypt k i x)) (stream-append k (suc i) xs ys ∙ rw e)

  -- Applied twice the cipher gives the bytes back.
  abbrev pub IsInvolutive : Type 0
  IsInvolutive = (k : List ℕ) (i b : ℕ) → b < 256 → crypt k i (crypt k i b) ≡ b

  pub stream-stream :
      IsInvolutive
      → (k : List ℕ) (i : ℕ) (bs : List ℕ) → AreBytes bs
      → stream k i (stream k i bs) ≡ bs
  unfolding stream
  stream-stream inv k i [] h = refl
  stream-stream inv k i (b ∷ bs) h = rw (inv k i b h.0, stream-stream inv k (suc i) bs h.1)
