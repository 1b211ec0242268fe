-- ===== src/Locale/Socks4.antt =====
-- SOCKS4 and SOCKS4a: Locale.ServeSocks4 of daze.go. `ip_string` is net.IP.String and `itoa`
-- strconv.Itoa, both of the standard library.
use daze.Base.{
  ℕ, Bool, Option, none, some, List, [], ◌∷◌, ◌++◌, Error, ◌==◌, ◌&&◌, not, get_or, if◌then◌else◌,
}
use daze.Base.Bytes.{uint_be}
use daze.Base.State.{St, pure, raise, crash, ignoring, ◌>>=◌, ◌>>◌}
use daze.Locale.{
  Client, Served, finished, linked, discard, read_byte, read_lax, read_bytes, write, dial_tcp,
}

-- An address 0.0.0.x with x other than 0: the name follows.
unfoldable pub is_named : List ℕ → Bool
is_named ip =
    (get_or ip 0 0 == 0)
    && ((get_or ip 1 0 == 0) && ((get_or ip 2 0 == 0) && not (get_or ip 3 0 == 0)))

-- The answers: granted, and refused.
abbrev pub granted : List ℕ
granted = 0x00 ∷ 0x5a ∷ 0x00 ∷ 0x00 ∷ 0x00 ∷ 0x00 ∷ 0x00 ∷ 0x00 ∷ []

abbrev pub rejected : List ℕ
rejected = 0x00 ∷ 0x5b ∷ 0x00 ∷ 0x00 ∷ 0x00 ∷ 0x00 ∷ 0x00 ∷ 0x00 ∷ []

module _ (ip_string : List ℕ → List ℕ) (itoa : ℕ → List ℕ) (dial : List ℕ → Option Error) where
  unfoldable pub host_of : List ℕ → St Client (List ℕ)
  host_of ip = if is_named ip then read_bytes else pure (ip_string ip)

  unfoldable pub finish_connect : List ℕ → Option Error → St Client Served
  finish_connect dst (some e) = do ignoring (write rejected); raise e
  finish_connect dst none = do ignoring (write granted); pure (linked dst)

  unfoldable pub connect : List ℕ → St Client Served
  unfolding finish_connect
  connect dst = do err ← dial_tcp dial dst; finish_connect dst err

  -- The switch on the command.
  unfoldable pub by_code : ℕ → List ℕ → St Client Served
  unfolding connect
  by_code code dst = if code == 1 then connect dst else if code == 2 then crash else pure finished

  -- `Locale.ServeSocks4`
  unfoldable pub serve_socks4 : St Client Served
  unfolding host_of by_code
  serve_socks4 = do
    discard 1
    code ← read_byte
    port ← read_lax 2
    ip ← read_lax 4
    _ ← read_bytes
    host ← host_of ip
    by_code code (host ++ 58 ∷ itoa (uint_be port))
