-- ===== src/Baboon/Engine.antt =====
-- The connections of protocol/baboon/engine.go: what the server answers before it gives the
-- connection to ashe (ServeDaze), and the bytes that the client throws away for it (Client.Dial).
-- net/http reads and writes the requests: `request_text` is the text of Dial's request with a given
-- Authorization header, the server's connection is what comes behind it. `date` is the text of the
-- time in time.RFC1123, `mask` the answer of the masked web site.
use daze.Base.{
  ℕ, ◌+◌, ◌≡◌, Bool, true, Option, none, some, List, [], ◌∷◌, ◌++◌, Error, Outcome, ok, fail, panic,
  ◌==◌, if◌then◌else◌, length, length-append, arith,
}
use daze.Base.Bytes.{codes}
use daze.Base.State.{pure, ◌>>=◌, ◌>>◌, ignoring}
use daze.Net.{Conn, M, read_full, write}
use daze.Ashe.{Network, Session, estab}
use daze.Baboon.{route, authorization}
use daze.Ashe

abbrev crlf : List ℕ
crlf = 13 ∷ 10 ∷ []

-- The five lines of the header.
abbrev pub status_line : List ℕ
status_line = codes "HTTP/1.1 200 OK" ++ crlf

abbrev pub length_line : List ℕ
length_line = codes "Content-Length: 0" ++ crlf

abbrev pub type_line : List ℕ
type_line = codes "Content-Type: text/plain; charset=utf-8" ++ crlf

abbrev pub date_line : List ℕ → List ℕ
date_line date = codes "Date: " ++ date ++ crlf

-- Its last byte is named for itself.
abbrev pub options_start : List ℕ
options_start = codes "X-Content-Type-Options: nosniff" ++ 13 ∷ []

abbrev pub options_line : List ℕ
options_line = codes "X-Content-Type-Options: nosniff" ++ crlf

-- What the server writes before ashe: no empty line ends this header.
abbrev pub header : List ℕ → List ℕ
header date = status_line ++ length_line ++ type_line ++ date_line date ++ options_line

-- `buf = make([]byte, 147)` of Client.Dial
abbrev pub header_length : ℕ
header_length = 147

module _ (crypt : List ℕ → ℕ → ℕ → ℕ) where
  -- The calls of io.WriteString, their errors unused.
  unfoldable pub write_header : List ℕ → M (Unit {0})
  write_header date = do
    ignoring (write crypt status_line)
    ignoring (write crypt length_line)
    ignoring (write crypt type_line)
    ignoring (write crypt (date_line date))
    ignoring (write crypt options_line)

  module _ (dial : Network → List ℕ → Option Error) where
    -- `Server.ServeDaze`
    unfoldable pub serve_daze : List ℕ → List ℕ → ℕ → M Session
    unfolding write_header
    serve_daze date cipher now = do write_header date; Ashe.serve crypt dial cipher now

    module _ (md5 hex_encode : List ℕ → List ℕ) (hex_decode : List ℕ → Option (List ℕ)) where
      -- `Server.ServeHTTP`, for a request with the given Authorization header; `none` stands for
      -- the web site.
      unfoldable pub serve_http : M (Unit {0}) → List ℕ → List ℕ → List ℕ → ℕ → M (Option Session)
      serve_http mask auth date cipher now =
          if route md5 hex_encode hex_decode cipher auth == 1
          then (do s ← serve_daze date cipher now; pure (some s))
          else (do mask; pure none)

  unfoldable pub close_failed : Outcome Bool × Conn → Outcome Bool × Conn
  close_failed (ok b, c) = (ok b, c)
  close_failed (fail e, c) = (fail e, record c { closed = true })
  close_failed (panic, c) = (panic, c)

  module _ (md5 hex_encode : List ℕ → List ℕ) (hex_decode : List ℕ → Option (List ℕ))
      (request_text : List ℕ → List ℕ) where
    unfoldable pub established : List ℕ → List ℕ → List ℕ → ℕ → Network → List ℕ → M Bool
    established cipher rand salt now network address = do
      ignoring (write crypt (request_text (authorization md5 hex_encode hex_decode cipher rand)))
      ignoring (read_full crypt header_length)
      estab crypt cipher salt now network address

    -- `Client.Dial`, where `reach` says how daze.Dial to the server ends.
    unfoldable pub dial_server :
        Option Error → List ℕ → List ℕ → List ℕ → ℕ → Network → List ℕ → M Bool
    unfolding established close_failed
    dial_server (some e) cipher rand salt now network address c = (fail e, c)
    dial_server none cipher rand salt now network address c =
        close_failed (established cipher rand salt now network address c)

pub length-header : (date : List ℕ) → length (header date) ≡ 118 + length date
length-header date =
    omega (arith, length-append date crlf, length-append (date ++ crlf) options_line)
