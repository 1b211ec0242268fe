-- ===== src/Locale/Proxy.antt =====
-- Locale.ServeProxy of daze.go: an HTTP proxy. net/http does the reading and writing of messages,
-- and is a parameter: `read_request` takes a request off the browser's bytes, `forward` says how
-- writing it to the server ends, `response` what ReadResponse gives: the text that is written back.
use daze.Base.{
  ℕ, zero, suc, Bool, true, Option, none, some, List, [], ◌∷◌, ◌++◌, Error, Outcome, ok, fail,
  panic, eof,
}
use daze.Base.Bytes.{codes}
use daze.Base.State.{St, pure, raise_some, lift, ◌>>=◌, ◌>>◌}
use daze.Locale.{Client, Served, finished, linked, write, dial_tcp}

pub data Method : Type 0 where
  connect get other : Method

pub record Request : Type 0 where
  pub method : Method
  pub hostname : List ℕ  -- `r.URL.Hostname()`
  pub port : List ℕ  -- `r.URL.Port()`
  pub websocket : Bool  -- whether the header Upgrade says so

abbrev pub established : List ℕ
established = codes "HTTP/1.1 200 Connection Established" ++ 13 ∷ 10 ∷ 13 ∷ 10 ∷ []

abbrev pub port_of : List ℕ → List ℕ
port_of [] = b'8' ∷ b'0' ∷ []
port_of (c ∷ cs) = c ∷ cs

-- The address dialled.
abbrev pub address : Request → List ℕ
address r = r.hostname ++ b':' ∷ port_of r.port

-- How the function in the loop ends without an error of its own: nil, or io.EOF behind a Link.
pub data Turn : Type 0 where
  again : Turn
  through : List ℕ → Turn

module _ (read_request : List ℕ → Outcome (Request × List ℕ)) (dial : List ℕ → Option Error)
    (forward : Request → Option Error) (response : Request → Outcome (List ℕ)) where
  -- `http.ReadRequest(cliReader)`; what a failed one has read is left out, since nothing reads behind it.
  unfoldable pub take_request : Outcome (Request × List ℕ) → St Client Request
  take_request (ok (r, rest)) c = (ok r, record c { inp = rest })
  take_request (fail e) c = (fail e, c)
  take_request panic c = (panic, c)

  -- Behind the dial, by the method.
  unfoldable pub exchange : Method → Bool → Request → St Client Turn
  exchange connect upgrade r = do write established; pure (through (address r))
  exchange get true r = do raise_some (forward r); pure (through (address r))
  exchange m upgrade r = do raise_some (forward r); text ← lift (response r); write text; pure again

  -- The function in the loop.
  unfoldable pub one_request : St Client Turn
  unfolding take_request
  one_request c =
      (do
        r ← take_request (read_request c.inp)
        refused ← dial_tcp dial (address r)
        raise_some refused
        exchange r.method r.websocket r)
        c

  unfoldable pub next :
      Outcome Turn × Client
      → (Client → Option (Outcome Served × Client))
      → Option (Outcome Served × Client)
  next (ok again, c) k = k c
  next (ok (through a), c) k = some (ok (linked a), c)
  next (fail eof, c) k = some (ok finished, c)
  next (fail e, c) k = some (fail e, c)
  next (panic, c) k = some (panic, c)

  -- `ServeProxy`, on fuel: `none` when it is used up.
  unfoldable pub serve_proxy : ℕ → Client → Option (Outcome Served × Client)
  unfolding next one_request
  serve_proxy zero c = none
  serve_proxy (suc fuel) c = next (one_request c) (serve_proxy fuel)
