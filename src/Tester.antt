-- ===== src/Tester.antt =====
-- The test server of daze.go: Tester.TCPServe and Tester.UDPServe. A request is a command, a byte
-- and a count of 16 bits: command 0 asks for so many copies of the byte, command 1 sends them, 2
-- closes. Reads go into one buffer, which keeps what was in it; most errors are not looked at.
-- `size` is the length of the buffer, 2048 in the code.
pub mod Stream
pub mod Requests
pub mod Packets
use daze.Base.{
  ℕ, zero, suc, ◌+◌, ◌-◌, ◌*◌, ◌≡◌, Bool, true, false, Option, none, some, List, [], ◌∷◌, ◌++◌,
  Error, Outcome, ok, fail, panic, eof, unexpected_eof, length, take, drop, replicate, get_or, leb,
  ltb, ◌==◌, ◌&&◌, if◌then◌else◌,
}
use daze.Base.Bytes.{uint_be}
use daze.Base.State.{St, pure, doa, ◌>>=◌, ◌>>◌}

-- A connection of TCPServe, and its buffer.
pub record Peer : Type 0 where
  pub inp : List ℕ
  pub out : List ℕ
  pub quota : ℕ  -- how many more writes succeed
  pub closed : Bool
  pub buf : List ℕ

abbrev pub T : Type 0 → Type 0
T A = St Peer A

-- A buffer with new bytes at its front.
abbrev pub over : List ℕ → List ℕ → List ℕ
over bs buf = bs ++ drop (length bs) buf

-- `io.ReadFull(cli, buf[:n])`: what there is goes into the buffer; the result says whether it was
-- enough.
unfoldable pub fill : ℕ → T Bool
fill n p = if p.closed then (ok false, p) else (
  ok (leb n (length p.inp)),
  record p { inp = drop n p.inp; buf = over (take n p.inp) p.buf },
)

write_within : ℕ → List ℕ → T (Unit {0})
write_within zero bs p = (ok tt, p)
write_within (suc q) bs p =
    if p.closed then (ok tt, p) else (ok tt, record p { out = p.out ++ bs; quota = q })

-- `cli.Write`, its error unused.
unfoldable pub write : List ℕ → T (Unit {0})
unfolding write_within
write bs p = write_within p.quota bs p

-- `doa.Doa(buf[i] == val)` for each of the bytes.
unfoldable pub all_are : ℕ → List ℕ → Bool
all_are val [] = true
all_are val (b ∷ bs) = let rest = all_are val bs in if b == val then rest else false

module _ (size : ℕ) where
  -- The loops `for cnt >= len(buf)`, on fuel, which the caller gives; the result is `cnt` behind it.
  unfoldable pub send_full : ℕ → ℕ → T ℕ
  send_full zero cnt p = (ok cnt, p)
  send_full (suc fuel) cnt p =
      if leb size cnt then (write p.buf >>= λ _. send_full fuel (cnt - size)) p else (ok cnt, p)

  unfoldable pub check_full : ℕ → ℕ → ℕ → T ℕ
  check_full zero val cnt p = (ok cnt, p)
  check_full (suc fuel) val cnt p =
      if leb size cnt
      then (fill size >>= λ _.
            λ q. (doa (all_are val q.buf) >>= λ _. check_full fuel val (cnt - size)) q)
          p
      else (ok cnt, p)

  -- A count of 16 bits is less than 32 buffers and one more.
  abbrev pub enough : ℕ
  enough = 32

  -- `case 0`
  unfoldable pub send : ℕ → ℕ → T (Unit {0})
  unfolding send_full
  send val cnt p =
      (send_full enough cnt >>= λ rest.
      λ q. (if rest == 0 then pure tt else write (take rest q.buf)) q)
        (record p { buf = replicate size val })

  -- `case 1`
  unfoldable pub check : ℕ → ℕ → T (Unit {0})
  unfolding check_full
  check val cnt = check_full enough val cnt >>= λ rest.
      if rest == 0 then pure tt else (fill rest >>= λ _. λ q. doa (all_are val (take rest q.buf)) q)

  -- The switch.
  unfoldable pub command : ℕ → ℕ → ℕ → T (Unit {0})
  unfolding send check
  command cmd val cnt =
      if cmd == 0
      then send val cnt
      else if cmd == 1
      then check val cnt
      else if cmd == 2
      then (λ p. (ok tt, record p { closed = true }))
      else pure tt

  -- One pass of the loop; the result says whether it goes on.
  unfoldable pub serve_one : T Bool
  unfolding command
  serve_one = fill 4 >>= λ full.
      if full
      then (λ p.
          (command (get_or p.buf 0 0) (get_or p.buf 1 0) (uint_be (take 2 (drop 2 p.buf))) >>= λ _.
          pure true)
            p)
      else pure false

  after :
      Outcome Bool × Peer
      → (Peer → Option (Outcome (Unit {0}) × Peer))
      → Option (Outcome (Unit {0}) × Peer)
  after (ok true, p) k = k p
  after (ok false, p) k = some (ok tt, p)
  after (fail e, p) k = some (fail e, p)
  after (panic, p) k = some (panic, p)

  -- `Tester.TCPServe`, on fuel: `none` when it is used up.
  unfoldable pub tcp_serve : ℕ → Peer → Option (Outcome (Unit {0}) × Peer)
  unfolding after serve_one
  tcp_serve zero p = none
  tcp_serve (suc fuel) p = after (serve_one p) (tcp_serve fuel)

  -- UDPServe: the datagrams that come, up to the error that ends the loop, and the answers. `sends`
  -- says whether WriteToUDP succeeds.
  module _ (sends : List ℕ → Bool) where
    -- `case 0`, where the loop writes out of bounds if the count is too large.
    unfoldable pub udp_ask : ℕ → ℕ → List (List ℕ) → Outcome (List (List ℕ))
    udp_ask val cnt replies =
        if leb cnt size && sends (replicate cnt val)
        then ok (replies ++ replicate cnt val ∷ [])
        else panic

    -- `case 1`
    unfoldable pub udp_check : ℕ → ℕ → List ℕ → List (List ℕ) → Outcome (List (List ℕ))
    udp_check val cnt buf replies =
        if leb (4 + cnt) size && all_are val (take cnt (drop 4 buf)) then ok replies else panic

    -- The buffer behind a command, which command 0 writes to.
    unfoldable pub udp_buffer : ℕ → ℕ → ℕ → List ℕ → List ℕ
    udp_buffer cmd val cnt buf = if cmd == 0 then over (replicate cnt val) buf else buf

    unfoldable pub udp_command : ℕ → ℕ → ℕ → List ℕ → List (List ℕ) → Outcome (List (List ℕ))
    unfolding udp_ask udp_check
    udp_command cmd val cnt buf replies =
        if cmd == 0
        then udp_ask val cnt replies
        else if cmd == 1
        then udp_check val cnt buf replies
        else ok replies

    -- What is left is read unless the socket was closed.
    unfoldable pub udp_next :
        ℕ
        → Outcome (List (List ℕ))
        → (List (List ℕ) → Outcome (List (List ℕ)))
        → Outcome (List (List ℕ))
    udp_next cmd (ok replies) k = if cmd == 2 then ok replies else k replies
    udp_next cmd (fail e) k = fail e
    udp_next cmd panic k = panic

    -- `Tester.UDPServe`: the answers, in order.
    unfoldable pub udp_serve : List (List ℕ) → List ℕ → List (List ℕ) → Outcome (List (List ℕ))
    unfolding udp_command udp_buffer udp_next
    udp_serve [] buf replies = ok replies
    udp_serve (d ∷ ds) buf replies =
        let b = over (take size d) buf in
        let cmd = get_or b 0 0 in
        let val = get_or b 1 0 in
        let cnt = uint_be (take 2 (drop 2 b)) in
        udp_next cmd (udp_command cmd val cnt b replies) (udp_serve ds (udp_buffer cmd val cnt b))
