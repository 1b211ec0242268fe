-- ===== src/Locale/Socks5.antt =====
-- SOCKS5 over TCP: Locale.ServeSocks5 and ServeSocks5TCP of daze.go, and how ServeSocks5UDP
-- begins. `ip_string` is net.IP.String, `itoa` strconv.Itoa and `join` net.JoinHostPort of the
-- standard library; `bound` is the port of the UDP socket that the system gives.
use daze.Base.{ℕ, Option, none, some, List, [], ◌∷◌, ◌++◌, Error, ◌==◌, if◌then◌else◌}
use daze.Base.Bytes.{uint_be, put_uint16}
use daze.Base.State.{St, pure, raise, crash, ignoring, ◌>>=◌, ◌>>◌}
use daze.Locale.{
  Client, Served, finished, linked, associated, discard, read_byte, read_lax, read_strict, write,
  dial_tcp,
}

-- The answers: success, and a general failure.
abbrev pub granted : List ℕ
granted = 0x05 ∷ 0x00 ∷ 0x00 ∷ 0x01 ∷ 0x00 ∷ 0x00 ∷ 0x00 ∷ 0x00 ∷ 0x00 ∷ 0x00 ∷ []

abbrev pub rejected : List ℕ
rejected = 0x05 ∷ 0x01 ∷ 0x00 ∷ 0x01 ∷ 0x00 ∷ 0x00 ∷ 0x00 ∷ 0x00 ∷ 0x00 ∷ 0x00 ∷ []

module _ (ip_string : List ℕ → List ℕ) (itoa : ℕ → List ℕ) (join : List ℕ → List ℕ → List ℕ)
    (dial : List ℕ → Option Error) (bound : ℕ) where
  -- The switch on the address type: dstHost, the empty string for an unknown type.
  unfoldable pub host_of : ℕ → St Client (List ℕ)
  host_of kind =
      if kind == 1
      then (do ip ← read_lax 4; pure (ip_string ip))
      else if kind == 3
      then (do n ← read_byte; read_lax n)
      else if kind == 4
      then (do ip ← read_lax 16; pure (ip_string ip))
      else pure []

  unfoldable pub finish_connect : List ℕ → Option Error → St Client Served
  finish_connect dst (some e) = do ignoring (write rejected); raise e
  finish_connect dst none = do ignoring (write granted); pure (linked dst)

  -- `Locale.ServeSocks5TCP`
  unfoldable pub serve_socks5_tcp : List ℕ → St Client Served
  unfolding finish_connect
  serve_socks5_tcp dst = do err ← dial_tcp dial dst; finish_connect dst err

  -- `Locale.ServeSocks5UDP` up to its loop.
  unfoldable pub serve_socks5_udp : St Client Served
  serve_socks5_udp = do
    write ((0x05 ∷ 0x00 ∷ 0x00 ∷ 0x01 ∷ 0x00 ∷ 0x00 ∷ 0x00 ∷ 0x00 ∷ []) ++ put_uint16 bound)
    pure associated

  -- The switch on the command.
  unfoldable pub by_cmd : ℕ → List ℕ → St Client Served
  unfolding serve_socks5_tcp serve_socks5_udp
  by_cmd cmd dst =
      if cmd == 1
      then serve_socks5_tcp dst
      else if cmd == 2
      then crash
      else if cmd == 3
      then serve_socks5_udp
      else pure finished

  -- `Locale.ServeSocks5`
  unfoldable pub serve_socks5 : St Client Served
  unfolding host_of by_cmd
  serve_socks5 = do
    discard 1
    n ← read_byte
    discard n
    ignoring (write (0x05 ∷ 0x00 ∷ []))
    discard 1
    cmd ← read_byte
    discard 1
    kind ← read_byte
    host ← host_of kind
    port ← read_strict 2
    by_cmd cmd (join host (itoa (uint_be port)))
