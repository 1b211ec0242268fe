-- ===== src/Locale/Datagram.antt =====
-- SOCKS5 over UDP: the loop of ServeSocks5UDP in daze.go, a datagram of the browser at a time.
-- The variables of the loop live on from one datagram to the next, and so does what a longer
-- datagram has left in the buffer. `dial` says how dialling an address with "udp" ends.
use daze.Base.{
  ℕ, ◌+◌, ◌%◌, ◌-◌, Bool, true, false, Option, none, some, List, [], ◌∷◌, ◌++◌, Error, Outcome, ok,
  fail, panic, length, take, drop, replicate, get_or, ltb, leb, ◌==◌, if◌then◌else◌,
}
use daze.Base.Bytes.{uint_be}
use daze.Base.State.{St, doa, ◌>>=◌, ◌>>◌}

pub record Relay : Type 0 where
  pub buf : List ℕ  -- 2048 bytes
  pub head_size : ℕ
  pub host : List ℕ
  pub port : ℕ
  pub known : List (List ℕ)  -- the keys of cpl
  pub sent : List (List ℕ × List ℕ)  -- the writes: to which address, which bytes

-- The variables as they are declared; the reply to the browser stands in the buffer.
unfoldable pub new_relay : List ℕ → Relay
new_relay reply = record {
  buf = reply ++ replicate (2048 - length reply) 0;
  head_size = 0;
  host = [];
  port = 0;
  known = [];
  sent = [];
}

-- A slice expression `b[i:j]`.
unfoldable pub slice : List ℕ → ℕ → ℕ → Outcome (List ℕ)
slice b i j =
    if ltb j i then panic else if ltb (length b) j then panic else ok (take (j - i) (drop i b))

unfoldable pub lift_slice : List ℕ → ℕ → ℕ → St Relay (List ℕ)
lift_slice b i j s = (slice b i j, s)

-- `bnd.ReadFromUDP(buf)`
unfoldable pub receive : List ℕ → St Relay (Unit {0})
receive d s = (ok tt, record s { buf = d ++ drop (length d) s.buf })

-- The first switch on the address type.
unfoldable pub size_head : St Relay (Unit {0})
size_head s = (
  ok tt,
  record s {
    head_size =
        if get_or s.buf 3 0 == 1
        then 10
        else if get_or s.buf 3 0 == 3
        then get_or s.buf 4 0 + 7
        else if get_or s.buf 3 0 == 4
        then 22
        else s.head_size;
  },
)

abbrev pub set_host : List ℕ → List ℕ → St Relay (Unit {0})
set_host host port s = (ok tt, record s { host = host; port = uint_be port })

module _ (ip_string : List ℕ → List ℕ) (itoa : ℕ → List ℕ) (dial : List ℕ → Option Error) where
  -- The second switch. A name's length is a byte, and so are its sums with 5 and 7.
  unfoldable pub parse_head : List ℕ → St Relay (Unit {0})
  parse_head head s =
      if leb (length head) 3
      then (panic, s)
      else if get_or head 3 0 == 1
      then (do a ← lift_slice head 4 8; p ← lift_slice head 8 10; set_host (ip_string a) p) s
      else if get_or head 3 0 == 3
      then (do
        a ← lift_slice head 5 ((5 + get_or head 4 0) % 256)
        p ← lift_slice head ((5 + get_or head 4 0) % 256) ((7 + get_or head 4 0) % 256)
        set_host a p)
          s
      else if get_or head 3 0 == 4
      then (do a ← lift_slice head 4 20; p ← lift_slice head 20 22; set_host (ip_string a) p) s
      else (ok tt, s)

  same_address : List ℕ → List ℕ → Bool
  same_address [] [] = true
  same_address [] (c ∷ cs) = false
  same_address (b ∷ bs) [] = false
  same_address (b ∷ bs) (c ∷ cs) = let rest = same_address bs cs in if b == c then rest else false

  unfoldable pub is_known : List ℕ → List (List ℕ) → Bool
  unfolding same_address
  is_known dst [] = false
  is_known dst (a ∷ rest) =
      let later = is_known dst rest in if same_address dst a then true else later

  -- `srv.Write(buf[appHeadSize:appSize])`; its error is only logged.
  unfoldable pub forward : ℕ → List ℕ → St Relay (Unit {0})
  forward size dst s = elim (slice s.buf s.head_size size) [
    | ok payload ↦ (ok tt, record s { sent = s.sent ++ (dst, payload) ∷ [] })
    | fail e ↦ (fail e, s)
    | panic ↦ (panic, s)
  ]

  -- The dialling, for an address that is not in cpl; a failure is only logged.
  unfoldable pub dial_forward : ℕ → List ℕ → Option Error → St Relay (Unit {0})
  unfolding forward
  dial_forward size dst (some e) s = (ok tt, s)
  dial_forward size dst none s = forward size dst (record s { known = dst ∷ s.known })

  unfoldable pub relay : ℕ → List ℕ → St Relay (Unit {0})
  unfolding is_known dial_forward
  relay size dst s =
      if is_known dst s.known then forward size dst s else dial_forward size dst (dial dst) s

  unfoldable pub take_head : St Relay (List ℕ)
  take_head s = (slice s.buf 0 s.head_size, s)

  -- The body of the loop for the `size` bytes that stand in the buffer.
  unfoldable pub process : ℕ → St Relay (Unit {0})
  unfolding parse_head relay
  process size = do
    buf ← (λ s. (ok s.buf, s))
    doa (get_or buf 0 0 == 0)
    doa (get_or buf 1 0 == 0)
    doa (get_or buf 2 0 == 0)
    size_head
    head ← take_head
    parse_head head
    dst ← (λ s. (ok (s.host ++ 58 ∷ itoa s.port), s))
    relay size dst

  unfoldable pub within : List ℕ → St Relay (Unit {0})
  unfolding receive process
  within d = do receive d; process (length d)

  -- The body of the loop; what the buffer does not hold of a datagram is lost.
  unfoldable pub datagram : List ℕ → St Relay (Unit {0})
  unfolding within
  datagram d = within (take 2048 d)

  -- The goroutine of a destination: the datagram to the browser for what Read has given.
  unfoldable pub answer : List ℕ → List ℕ → List ℕ
  answer head data_read = head ++ take (2048 - length head) data_read
