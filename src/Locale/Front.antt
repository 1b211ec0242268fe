-- ===== src/Locale/Front.antt =====
-- Locale.Serve of daze.go: which protocol a browser speaks, by its first byte. `serve_proxy` is
-- ServeProxy, which Locale/Proxy models with the parameters of its own.
use daze.Base.{ℕ, Option, List, [], ◌∷◌, Error, ok, ◌==◌, if◌then◌else◌}
use daze.Base.State.{St}
use daze.Locale.{Client, Served, finished}
use daze.Locale.Socks4.{serve_socks4}
use daze.Locale.Socks5.{serve_socks5}

module _ (ip_string : List ℕ → List ℕ) (itoa : ℕ → List ℕ) (join : List ℕ → List ℕ → List ℕ)
    (dial : List ℕ → Option Error) (bound : ℕ) (serve_proxy : St Client Served) where
  -- The protocol for a first byte, which is read again.
  unfoldable pub handler : ℕ → St Client Served
  handler b =
      if b == 5
      then serve_socks5 ip_string itoa join dial bound
      else if b == 4
      then serve_socks4 ip_string itoa dial
      else serve_proxy

  -- `Locale.Serve`; a browser that leaves without a byte is no error.
  unfoldable pub serve : St Client Served
  unfolding handler
  serve c = elim c.inp [ [] ↦ (ok finished, c) | b ∷ bs ↦ handler b c ]
