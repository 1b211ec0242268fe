-- ===== src/Dahlia.antt =====
-- protocol/dahlia/engine.go: an encrypted pipe between two ports. The client's end says Hello to
-- the server's end under the pre-shared key, and both then Link. `reached` says how daze.Dial to
-- the next address ends, with `none` for success; a result `ok` stands for the call of Link.
pub mod Tunnel
use daze.Base.{ℕ, Option, none, some, List, Error, Outcome, ok, fail, panic, Bool, true}
use daze.Base.State.{St, pure, raise, raise_some, ◌>>=◌, ◌>>◌}
use daze.Net.{Conn, M}
use daze.Ashe.{server_hello, client_hello}

module _ (crypt : List ℕ → ℕ → ℕ → ℕ) where
  -- `Server.Serve`, on the connection of the client's end.
  unfoldable pub server_serve : List ℕ → ℕ → Option Error → M (Unit {0})
  unfolding server_hello
  server_serve cipher now reached = do server_hello crypt cipher now; raise_some reached

  close_failed : Outcome (Unit {0}) × Conn → Outcome (Unit {0}) × Conn
  close_failed (ok a, c) = (ok a, c)
  close_failed (fail e, c) = (fail e, record c { closed = true })
  close_failed (panic, c) = (panic, c)

  greeted : List ℕ → List ℕ → ℕ → M (Unit {0})
  unfolding client_hello close_failed
  greeted cipher salt now c = close_failed (client_hello crypt cipher salt now c)

  -- `Client.Serve`, on the connection to the server's end.
  unfoldable pub client_serve : List ℕ → List ℕ → ℕ → Option Error → M (Unit {0})
  unfolding greeted
  client_serve cipher salt now (some e) = raise e
  client_serve cipher salt now none = greeted cipher salt now

-- `Middle.Serve`: no Hello.
unfoldable pub middle_serve : Option Error → M (Unit {0})
middle_serve reached = raise_some reached
