-- ===== src/Assembly.antt =====
-- What cmd/daze/main.go puts together for a client of protocol ashe: a Locale, whose dialer is an
-- Aimbot, whose remote dialer is a client of ashe; and the server of ashe at its other end.
-- `server_dial` and `direct` say how daze.Dial ends at the server and at the client, with `none`
-- for success, and `reach` how it ends for the server itself.
pub mod Trip
use daze.Base.{
  ℕ, Bool, true, Option, none, some, List, [], ◌∷◌, ◌++◌, Error, Outcome, ok, fail, panic,
}
use daze.Base.State.{St}
use daze.Net.{Conn, fresh}
use daze.Ashe.{Network, tcp, Session, dial_server}
use daze.Ashe.Exchange.{client_wire}
use daze.Router.{Road, Router}
use daze.Router.Aimbot.{aimbot_dial}
use daze.Locale.{Client, Served}
use daze.Locale.Socks5.{serve_socks5}
use daze.Ashe

-- What has been done outside: the addresses that the client has dialled itself, and how each
-- session at the server has gone.
pub record World : Type 0 where
  pub direct : List (List ℕ)
  pub sessions : List (Outcome Session)

-- The error that a dial returns.
abbrev pub error_of : {A : Type 0} → Outcome A → Option Error
error_of (ok a) = none
error_of (fail e) = some e
error_of panic = none

abbrev pub outcome_of : Option Error → Outcome Bool
outcome_of none = ok true
outcome_of (some e) = fail e

module _ (crypt : List ℕ → ℕ → ℕ → ℕ) (cipher salt : List ℕ) (now now' : ℕ)
    (server_dial : Network → List ℕ → Option Error) (direct : List ℕ → Option Error) where
  -- `Direct.Dial`
  unfoldable pub direct_dial : List ℕ → St World Bool
  direct_dial address w =
      (outcome_of (direct address), record w { direct = w.direct ++ address ∷ [] })

  -- A session of the server, on what the client sends.
  abbrev pub session_of : List ℕ → Outcome Session × Conn
  session_of address =
      Ashe.serve crypt server_dial cipher now'
        (fresh 1 (client_wire crypt cipher salt now tcp address))

  -- `ashe.Client.Dial`, against that session.
  unfoldable pub remote_dial : Option Error → List ℕ → St World Bool
  remote_dial (some e) address w = (fail e, w)
  remote_dial none address w = (
    (dial_server crypt none cipher salt now tcp address (fresh 3 (session_of address).1.out)).0,
    record w { sessions = w.sessions ++ (session_of address).0 ∷ [] },
  )

  module _ {N G Ip : Type 0} (eq : List ℕ → List ℕ → Bool) (lookup : List ℕ → Option (List Ip))
      (contains : N → Ip → Bool) (glob : G → List ℕ → Option Bool)
      (split : List ℕ → Outcome (List ℕ)) (reach : Option Error) where
    -- The state of a client between two browsers' connections.
    abbrev pub State : Type 0
    State = Router N G (List ℕ) × World

    -- `l.Dialer.Dial`
    unfoldable pub dial : List ℕ → State → (Outcome Bool × World) × Router N G (List ℕ)
    unfolding direct_dial remote_dial
    dial address (r, w) =
        aimbot_dial eq lookup contains glob split direct_dial (remote_dial reach) r address w

    dialled :
        (Outcome Bool × World) × Router N G (List ℕ)
        → (State → Outcome (Unit {0}) × State)
        → Outcome (Unit {0}) × State
    dialled ((ok b, w), r) k = k (r, w)
    dialled ((fail e, w), r) k = k (r, w)
    dialled ((panic, w), r) k = (panic, (r, w))

    -- The state after the dials of a handler.
    unfoldable pub dial_all : List (List ℕ) → State → Outcome (Unit {0}) × State
    unfolding dialled dial
    dial_all [] s = (ok tt, s)
    dial_all (a ∷ as_) s = dialled (dial a s) (dial_all as_)

    unless_panic : {A : Type 0} → Outcome (Unit {0}) → Outcome A → Outcome A
    unless_panic (ok x) r = r
    unless_panic (fail e) r = r
    unless_panic panic r = panic

    module _ (ip_string : List ℕ → List ℕ) (itoa : ℕ → List ℕ) (join : List ℕ → List ℕ → List ℕ)
        (bound : ℕ) where
      -- A browser's connection that speaks SOCKS5. The handler dials at most once, so that its dial
      -- is that of the state in which it begins.
      unfoldable pub browse : Client → State → Outcome Served × Client × State
      unfolding dial_all unless_panic dial
      browse c s =
          let r = serve_socks5 ip_string itoa join (λ a. error_of (dial a s).0.0) bound c in
          let after = dial_all r.1.dialled s in (unless_panic after.0 r.0, r.1, after.1)
