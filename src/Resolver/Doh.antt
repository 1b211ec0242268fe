-- ===== src/Resolver/Doh.antt =====
-- What a query through Cdoh comes to.
use daze.Base.{
  ℕ, zero, suc, ◌+◌, ◌-◌, ◌%◌, ◌^◌, ◌≤◌, ◌<◌, ◌≡◌, refl, arith, Option, none, some, List, [], ◌∷◌,
  ◌++◌, Outcome, ok, fail, eof, length, take, drop, le→leb, ==_refl, ==_iff, length-append,
  length-take_of_le, take-append, drop-append,
}
use daze.Base.Bytes.{uint_be, put_uint16, uint_be-put_uint16, length-put_uint16}
use daze.Resolver.{Cdoh, keep, exchange, write, read, read_full, receive}

-- A connection with nothing to read.
abbrev pub idle : List (List ℕ) → Cdoh
idle sent = record { buffer = []; posted = sent }

-- What is received, and what is left to read.
abbrev pub received : Option (Option (List ℕ)) → Outcome (List ℕ)
received none = fail eof
received (some none) = fail eof
received (some (some body)) = ok (take (length body % 2 ^ 16) body)

abbrev pub left : Option (Option (List ℕ)) → List ℕ
left none = []
left (some none) = []
left (some (some body)) = drop (length body % 2 ^ 16) body

read_full-all :
    (n : ℕ) (bs : List ℕ) (sent : List (List ℕ))
    → n ≤ length bs
    → read_full n (record { buffer = bs; posted = sent })
      ≡ (ok (take n bs), record { buffer = drop n bs; posted = sent })
unfolding read_full read
read_full-all zero bs sent h = refl
read_full-all (suc n) [] sent h = absurd (omega arith)
read_full-all (suc n) (b ∷ bs) sent h =
    rw ((==_iff (length (take (suc n) (b ∷ bs))) (suc n)).1 (length-take_of_le (suc n) (b ∷ bs) h))
      refl

head_be : (n : ℕ) → uint_be (put_uint16 n) ≡ n % 2 ^ 16
unfolding uint_be put_uint16
head_be n = omega arith

receive-body :
    (body : List ℕ) (sent : List (List ℕ))
    → receive (record { buffer = put_uint16 (length body) ++ body; posted = sent })
      ≡ (received (some (some body)), record { buffer = left (some (some body)); posted = sent })
unfolding receive
receive-body body sent = rw (
  read_full-all 2 (put_uint16 (length body) ++ body) sent (
      omega
        (arith, length-append (put_uint16 (length body)) body, length-put_uint16 (length body))),
  take-append 2 (put_uint16 (length body)) body (length-put_uint16 (length body)),
  drop-append 2 (put_uint16 (length body)) body (length-put_uint16 (length body)),
  head_be (length body),
  read_full-all (length body % 2 ^ 16) body sent (omega arith),
)

-- A query as package net writes it to a stream.
abbrev pub query : List ℕ → List ℕ
query msg = put_uint16 (length msg) ++ msg

module _ (post : List ℕ → Option (Option (List ℕ))) where
  abbrev pub buffered : Option (Option (List ℕ)) → List ℕ
  buffered none = []
  buffered (some none) = []
  buffered (some (some body)) = put_uint16 (length body) ++ body

  keep-idle :
      (answer : Option (Option (List ℕ))) (sent : List (List ℕ))
      → keep post answer (idle sent) ≡ (ok tt, record { buffer = buffered answer; posted = sent })
  unfolding keep
  keep-idle none sent = refl
  keep-idle (some none) sent = refl
  keep-idle (some (some body)) sent = refl

  write-query :
      (msg : List ℕ) (sent : List (List ℕ))
      → length msg < 2 ^ 16
      → write post (query msg) (idle sent) ≡ (
        ok (length (query msg)),
        record { buffer = buffered (post msg); posted = sent ++ msg ∷ [] },
      )
  unfolding write exchange
  write-query msg sent h =
      let size : length (query msg) ≡ 2 + length msg =
        omega
          (arith, length-append (put_uint16 (length msg)) msg, length-put_uint16 (length msg)) in
      let body_size : length (query msg) - 2 ≡ length msg = omega (arith, size) in
      rw (
        le→leb 2 (length (query msg)) (omega (arith, size)),
        take-append 2 (put_uint16 (length msg)) msg (length-put_uint16 (length msg)),
        uint_be-put_uint16 (length msg) h,
        body_size,
        ==_refl (length msg),
        drop-append 2 (put_uint16 (length msg)) msg (length-put_uint16 (length msg)),
        keep-idle (post msg) (sent ++ msg ∷ []),
      )

  receive-buffered :
      (answer : Option (Option (List ℕ))) (sent : List (List ℕ))
      → receive (record { buffer = buffered answer; posted = sent })
        ≡ (received answer, record { buffer = left answer; posted = sent })
  unfolding receive read_full read
  receive-buffered none sent = refl
  receive-buffered (some none) sent = refl
  receive-buffered (some (some body)) sent = receive-body body sent

  -- A query of the resolver through an idle Cdoh: exactly the message is posted, once, and Write
  -- reports that all of it is written, however the request goes; where it goes well, the resolver
  -- then receives the first bytes of the body, as many as its length modulo 2^16, and the others are
  -- left over for the next; where it does not, the resolver meets the end of the stream; for a
  -- message of less than 2^16 bytes.
  pub write-receive :
      (msg : List ℕ) (sent : List (List ℕ))
      → length msg < 2 ^ 16
      → let w = write post (query msg) (idle sent) in
        (w.0 ≡ ok (length (query msg)))
        × (receive w.1
            ≡ (received (post msg), record { buffer = left (post msg); posted = sent ++ msg ∷ [] }))
  write-receive msg sent h =
      rw (write-query msg sent h) (refl, receive-buffered (post msg) (sent ++ msg ∷ []))
