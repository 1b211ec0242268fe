-- ===== src/Ashe.antt =====
-- protocol/ashe/engine.go: the default protocol between the client and the server.
-- The client writes 32 random bytes, from which and the pre-shared key both sides make the RC4 key,
-- and then, under that key, the time and the destination; the server answers with one byte.
-- The clock is a parameter `now`, the 64-bit pattern of time.Now().Unix(); the random bytes are the
-- parameter `salt`; `dial` says how daze.Dial ends, with `none` for success.
pub mod Clock
pub mod Exchange
pub mod Refusals
pub mod Unclosed
pub mod Udp
pub mod Wire
use daze.Base.{
  ℕ, zero, suc, ◌+◌, ◌-◌, ◌/◌, ◌%◌, ◌^◌, ◌≡◌, Bool, true, false, Option, none, some, List, [], ◌∷◌,
  ◌++◌, Error, Outcome, ok, fail, panic, expired, too_long, bad_network, server_failure,
  bad_response, length, get_or, ltb, ◌==◌, if◌then◌else◌, ◌&&◌, bit_xor,
}
use daze.Base.Bytes.{uint_be, put_uint16, put_uint64}
use daze.Base.State.{pure, raise, crash, lift, ◌>>=◌, ◌>>◌, ignoring}
use daze.Net.{M, Conn, gravity, read_full, write}

-- The networks that daze names: "tcp", "udp", and any other string.
pub data Network : Type 0 where
  tcp udp other : Network

-- `Conf.LifeExpired`, in seconds.
abbrev pub life_expired : ℕ
life_expired = 120

-- `for i := range 32 { buf[i] ^= cipher[i] }`; a cipher that is too short is a panic.
unfoldable pub xor_key : List ℕ → List ℕ → Outcome (List ℕ)
xor_key [] cipher = ok []
xor_key (b ∷ bs) [] = panic
xor_key (b ∷ bs) (k ∷ ks) = elim (xor_key bs ks) [
  | ok rest ↦ ok (bit_xor b k ∷ rest)
  | fail e ↦ fail e
  | panic ↦ panic
]

-- 64-bit words: subtraction, the sign `gap >> 63` as a word, and `>` on signed words.
unfoldable pub sub64 : ℕ → ℕ → ℕ
sub64 a b = (a + (2 ^ 64 - b % 2 ^ 64)) % 2 ^ 64

unfoldable pub sign64 : ℕ → ℕ
sign64 a = if ltb a (2 ^ 63) then 0 else 2 ^ 64 - 1

unfoldable pub gt64 : ℕ → ℕ → Bool
gt64 a b = ltb (b + 2 ^ 63) ((a + 2 ^ 63) % 2 ^ 64)

-- `gap ^ gapSign - gapSign > LifeExpired`, which Go reads as `(gap ^ gapSign) - gapSign`.
unfoldable pub is_expired : ℕ → ℕ → Bool
is_expired now time =
    let gap = sub64 now time in
    let gap_sign = sign64 gap in gt64 (sub64 (bit_xor gap gap_sign) gap_sign) life_expired

-- What daze.Link is called with once a request is served: the network, the address dialled, and
-- whether the client's side is a UDPConn.
pub record Session : Type 0 where
  pub network : Network
  pub dst : List ℕ
  pub framed : Bool

-- The variables `srv, err` after the `switch dstNet` of Serve.
pub data Dialled : Type 0 where
  connected : Network → Dialled
  refused_by : Error → Dialled
  nothing : Dialled

module _ (crypt : List ℕ → ℕ → ℕ → ℕ) where
  -- `Server.Hello`
  unfoldable pub server_hello : List ℕ → ℕ → M (Unit {0})
  server_hello cipher now = do
    buf ← read_full crypt 32
    key ← lift (xor_key buf cipher)
    gravity key
    time ← read_full crypt 8
    if is_expired now (uint_be time) then raise expired else pure tt

  -- `Client.Hello`
  unfoldable pub client_hello : List ℕ → List ℕ → ℕ → M (Unit {0})
  client_hello cipher salt now = do
    write crypt salt
    key ← lift (xor_key salt cipher)
    gravity key
    write crypt (put_uint64 now)

  module _ (dial : Network → List ℕ → Option Error) where
    dialled : Network → Option Error → Dialled
    dialled n none = connected n
    dialled n (some e) = refused_by e

    unfoldable pub dial_for : ℕ → List ℕ → Dialled
    unfolding dialled
    dial_for code dst =
        if code == 0x01
        then dialled tcp (dial tcp dst)
        else if code == 0x03
        then dialled udp (dial udp dst)
        else nothing

    -- The rest of Serve: the answer, and the Link. With no srv the Link dereferences nil.
    unfoldable pub answer : Dialled → List ℕ → M Session
    answer (refused_by e) dst = do ignoring (write crypt (1 ∷ [])); raise e
    answer (connected tcp) dst = do
      ignoring (write crypt (0 ∷ []))
      pure (record { network = tcp; dst = dst; framed = false })
    answer (connected n) dst = do
      ignoring (write crypt (0 ∷ []))
      pure (record { network = n; dst = dst; framed = true })
    answer nothing dst = do ignoring (write crypt (0 ∷ [])); crash

    -- `Server.Serve`
    unfoldable pub serve : List ℕ → ℕ → M Session
    unfolding server_hello answer dial_for
    serve cipher now = do
      server_hello cipher now
      buf ← read_full crypt 2
      dst ← read_full crypt (get_or buf 1 0)
      answer (dial_for (get_or buf 0 0) dst) dst

  -- `buf[0]` of the request.
  unfoldable pub net_code : Network → ℕ
  net_code tcp = 0x01
  net_code udp = 0x03
  net_code other = 0x00

  -- The end of Estab: the server's byte. The result says whether the connection is a UDPConn.
  unfoldable pub accept : Network → ℕ → M Bool
  accept network code =
      if code == 0
      then elim network [ tcp ↦ pure false | udp ↦ pure true | other ↦ crash ]
      else if code == 1
      then raise server_failure
      else raise bad_response

  -- The part of Estab behind its guards.
  unfoldable pub request : List ℕ → List ℕ → ℕ → Network → List ℕ → M Bool
  unfolding client_hello net_code accept
  request cipher salt now network address = do
    client_hello cipher salt now
    write crypt (net_code network ∷ length address % 256 ∷ address)
    buf ← read_full crypt 1
    accept network (get_or buf 0 0)

  -- `Client.Estab`
  unfoldable pub estab : List ℕ → List ℕ → ℕ → Network → List ℕ → M Bool
  unfolding request
  estab cipher salt now other address =
      if ltb 255 (length address) then raise too_long else raise bad_network
  estab cipher salt now network address =
      if ltb 255 (length address) then raise too_long else request cipher salt now network address

  -- `Client.Dial`: `reach` says how daze.Dial to the server ends, and `c` is the connection made.
  unfoldable pub close_failed : Outcome Bool × Conn → Outcome Bool × Conn
  close_failed (ok b, c) = (ok b, c)
  close_failed (fail e, c) = (fail e, record c { closed = true })
  close_failed (panic, c) = (panic, c)

  unfoldable pub dial_server : Option Error → List ℕ → List ℕ → ℕ → Network → List ℕ → M Bool
  unfolding estab close_failed
  dial_server (some e) cipher salt now network address c = (fail e, c)
  dial_server none cipher salt now network address c =
      close_failed (estab cipher salt now network address c)
