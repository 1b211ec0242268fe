-- ===== src/Baboon/Hijacked.antt =====
-- What ServeDaze of protocol/baboon/engine.go does with the connection that it has hijacked.
use daze.Base.{ℕ, ◌≡◌, Option, List, Error}
use daze.Base.State.{ignoring, ◌>>◌}
use daze.Net.{Conn, M, write}
use daze.Ashe.{Network, serve}
use daze.Ashe.Unclosed.{Keeps, Keeps-then, Keeps-ignoring, Keeps-write, Keeps-serve}
use daze.Baboon.Engine.{
  status_line, length_line, type_line, date_line, options_line, write_header, serve_daze,
}

module _ (crypt : List ℕ → ℕ → ℕ → ℕ) (dial : Network → List ℕ → Option Error) where
  Keeps-line :
      (line : List ℕ) (k : M (Unit {0})) → Keeps k → Keeps (ignoring (write crypt line) >> k)
  Keeps-line line k h =
      Keeps-then (ignoring (write crypt line)) (λ u. k)
        (Keeps-ignoring (write crypt line) (Keeps-write crypt line)) (λ u. h)

  Keeps-write_header : (date : List ℕ) → Keeps (write_header crypt date)
  unfolding write_header
  Keeps-write_header date = Keeps-line status_line _ (
      Keeps-line length_line _ (
        Keeps-line type_line _ (
          Keeps-line (date_line date) _
            (Keeps-ignoring (write crypt options_line) (Keeps-write crypt options_line)))))

  -- However a session behind the web site goes until its Link, its request being refused or its
  -- destination out of reach included, ServeDaze leaves the hijacked connection as open as it was.
  pub serve_daze-Keeps :
      (date cipher : List ℕ) (now : ℕ) (c : Conn)
      → (serve_daze crypt dial date cipher now c).1.closed ≡ c.closed
  unfolding serve_daze
  serve_daze-Keeps date cipher now c =
      Keeps-then (write_header crypt date) (λ u. serve crypt dial cipher now)
        (Keeps-write_header date) (λ u. Keeps-serve crypt dial cipher now) c
