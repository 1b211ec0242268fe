-- ===== src/Resolver.antt =====
-- Cdoh of daze.go: a connection to a name server that sends each message by HTTP. `post` is
-- http.Post with the reading of the answer: `none` where the request fails, `some none` where the
-- body cannot be read to its end.
pub mod Doh
use daze.Base.{
  ℕ, zero, suc, ◌-◌, Bool, true, false, Option, none, some, List, [], ◌∷◌, ◌++◌, Outcome, ok, fail,
  panic, eof, unexpected_eof, length, take, drop, leb, ◌==◌, if◌then◌else◌,
}
use daze.Base.Bytes.{uint_be, put_uint16}
use daze.Base.State.{St, pure, doa, ◌>>=◌, ◌>>◌}

pub record Cdoh : Type 0 where
  pub buffer : List ℕ
  pub posted : List (List ℕ)  -- the messages sent, in order

module _ (post : List ℕ → Option (Option (List ℕ))) where
  -- `c.Buffer.Write(data)`, of an answer
  unfoldable pub keep : Option (Option (List ℕ)) → St Cdoh (Unit {0})
  keep none d = (ok tt, d)
  keep (some none) d = (ok tt, d)
  keep (some (some body)) d =
      (ok tt, record d { buffer = d.buffer ++ (put_uint16 (length body) ++ body) })

  unfoldable pub exchange : List ℕ → St Cdoh (Unit {0})
  unfolding keep
  exchange msg d = keep (post msg) (record d { posted = d.posted ++ msg ∷ [] })

  -- `Cdoh.Write`; a slice of two bytes out of fewer is a panic, too.
  unfoldable pub write : List ℕ → St Cdoh ℕ
  unfolding exchange
  write b = do
    doa (leb 2 (length b))
    doa (uint_be (take 2 b) == length b - 2)
    exchange (drop 2 b)
    pure (length b)

-- `Cdoh.Read` into `n` bytes: that of bytes.Buffer.
unfoldable pub read : ℕ → St Cdoh (List ℕ)
read zero d = (ok [], d)
read (suc n) d = elim d.buffer [
  | [] ↦ (fail eof, d)
  | b ∷ bs ↦ (ok (take (suc n) (b ∷ bs)), record d { buffer = drop (suc n) (b ∷ bs) })
]

-- `io.ReadFull`, whose second read finds nothing where the first has not been enough.
unfoldable pub read_full : ℕ → St Cdoh (List ℕ)
unfolding read
read_full n = do bs ← read n; λ d. (if length bs == n then ok bs else fail unexpected_eof, d)

-- How package net takes an answer from a stream: a length of two bytes, and that many.
unfoldable pub receive : St Cdoh (List ℕ)
unfolding read_full
receive = do head ← read_full 2; read_full (uint_be head)
