-- ===== src/Listener/Engines.antt =====
-- The loops of Server.Run of protocol/ashe/engine.go, of the three Runs of
-- protocol/dahlia/engine.go, and of Locale.Run of daze.go: each with the handler that it starts. A
-- connection comes with what its handler finds: the clock, the random bytes, how dials end.
use daze.Base.{
  ℕ, ◌^◌, ◌≤◌, ◌<◌, ◌≡◌, ◌≢◌, refl, ap, Bool, true, false, Option, none, some, List, Error, Outcome,
  ok, fail, panic, length,
}
use daze.Base.Bytes.{AreBytes}
use daze.Base.State.{St}
use daze.Net.{Conn, fresh, IsInvolutive}
use daze.Ashe.{Network, xor_key, is_expired}
use daze.Ashe.Wire.{sent}
use daze.Ashe.Refusals.{serve_unknown_network}
use daze.Dahlia.{server_serve, client_serve, middle_serve}
use daze.Locale.{Client, Served}
use daze.Listener.{
  Phase, accepting, ended, crashed, Loop, Event, arrives, accept_error, ends, pick, finish, end_one,
  turn_at, turn,
}
use daze.Listener.Service.{Act, Service, step}
use daze.Ashe
use daze.Locale.Front

pub record Peer (A : Type 0) : Type 0 where
  pub now : ℕ
  pub salt : List ℕ
  pub reached : Option Error  -- how daze.Dial to the next address ends
  pub side : A  -- the connection whose bytes the handler reads and writes
  pub cli_closed : Bool

-- `defer cli.Close()`
unfoldable pub close_cli : {A : Type 0} → Peer A → Peer A
close_cli p = record p { cli_closed = true }

-- The handler's result, which only panics or not.
abbrev pub done : {A B : Type 0} → Peer B → Outcome A × B → Outcome (Unit {0}) × Peer B
done p (ok a, c) = (ok tt, record p { side = c })
done p (fail e, c) = (fail e, record p { side = c })
done p (panic, c) = (panic, record p { side = c })

done-panic : {A B : Type 0} (p : Peer B) (r : Outcome A × B) → r.0 ≡ panic → (done p r).0 ≡ panic
done-panic p (ok a, c) h = cc
done-panic p (fail e, c) h = cc
done-panic p (panic, c) h = refl

module _ (crypt : List ℕ → ℕ → ℕ → ℕ) (dial : Network → List ℕ → Option Error)
    (cipher : List ℕ) where
  unfoldable pub ashe_handler : Peer Conn → Outcome (Unit {0}) × Peer Conn
  ashe_handler p = done p (Ashe.serve crypt dial cipher p.now p.side)

  unfoldable pub ashe_turn : Event (Peer Conn) → Loop (Peer Conn) → Option (Loop (Peer Conn))
  ashe_turn = turn ashe_handler close_cli

  -- A server with its Run and its Close.
  unfoldable pub ashe_step : Act (Peer Conn) → Service (Peer Conn) → Option (Service (Peer Conn))
  ashe_step = step ashe_handler close_cli

module _ (crypt : List ℕ → ℕ → ℕ → ℕ) (cipher : List ℕ) where
  unfoldable pub dahlia_server_turn :
      Event (Peer Conn) → Loop (Peer Conn) → Option (Loop (Peer Conn))
  dahlia_server_turn =
      turn (λ p. done p (server_serve crypt cipher p.now p.reached p.side)) close_cli

  unfoldable pub dahlia_server_step :
      Act (Peer Conn) → Service (Peer Conn) → Option (Service (Peer Conn))
  dahlia_server_step =
      step (λ p. done p (server_serve crypt cipher p.now p.reached p.side)) close_cli

  -- The side of a client is the connection to the server.
  unfoldable pub dahlia_client_turn :
      Event (Peer Conn) → Loop (Peer Conn) → Option (Loop (Peer Conn))
  dahlia_client_turn =
      turn (λ p. done p (client_serve crypt cipher p.salt p.now p.reached p.side)) close_cli

  unfoldable pub dahlia_client_step :
      Act (Peer Conn) → Service (Peer Conn) → Option (Service (Peer Conn))
  dahlia_client_step =
      step (λ p. done p (client_serve crypt cipher p.salt p.now p.reached p.side)) close_cli

unfoldable pub dahlia_middle_turn : Event (Peer Conn) → Loop (Peer Conn) → Option (Loop (Peer Conn))
dahlia_middle_turn = turn (λ p. done p (middle_serve p.reached p.side)) close_cli

unfoldable pub dahlia_middle_step :
    Act (Peer Conn) → Service (Peer Conn) → Option (Service (Peer Conn))
dahlia_middle_step = step (λ p. done p (middle_serve p.reached p.side)) close_cli

module _ (ip_string : List ℕ → List ℕ) (itoa : ℕ → List ℕ) (join : List ℕ → List ℕ → List ℕ)
    (dial : List ℕ → Option Error) (bound : ℕ) (serve_proxy : St Client Served) where
  unfoldable pub locale_turn :
      Event (Peer Client) → Loop (Peer Client) → Option (Loop (Peer Client))
  locale_turn =
      turn (λ p. done p (Front.serve ip_string itoa join dial bound serve_proxy p.side)) close_cli

  unfoldable pub locale_step :
      Act (Peer Client) → Service (Peer Client) → Option (Service (Peer Client))
  locale_step =
      step (λ p. done p (Front.serve ip_string itoa join dial bound serve_proxy p.side)) close_cli

module _ {C : Type 0} (serve : C → Outcome (Unit {0}) × C) (close : C → C) where
  end_one-panic :
      (cid : ℕ) (c : C) (r : Outcome (Unit {0}) × C) (rest : List (ℕ × C)) (s : Loop C)
      → r.0 ≡ panic
      → finish serve close cid r rest s ≡ record s { phase = crashed; live = rest }
  unfolding finish
  end_one-panic cid c (ok a, d) rest s h = cc
  end_one-panic cid c (fail e, d) rest s h = cc
  end_one-panic cid c (panic, d) rest s h = refl

  turn_at-panic :
      (p : Phase) (n cid : ℕ) (c : C) (rest : List (ℕ × C)) (s : Loop C)
      → p ≢ crashed
      → pick n s.live ≡ some ((cid, c), rest)
      → (serve c).0 ≡ panic
      → turn_at serve close p (ends n) s ≡ some (record s { phase = crashed; live = rest })
  unfolding turn_at end_one
  turn_at-panic accepting n cid c rest s h p e =
      rw p (ap some (end_one-panic cid c (serve c) rest s e))
  turn_at-panic ended n cid c rest s h p e = rw p (ap some (end_one-panic cid c (serve c) rest s e))
  turn_at-panic crashed n cid c rest s h p e = absurd (h refl)

  turn_at-crashed : (e : Event C) (s : Loop C) → turn_at serve close crashed e s ≡ none
  unfolding turn_at
  turn_at-crashed (arrives c) s = refl
  turn_at-crashed accept_error s = refl
  turn_at-crashed (ends n) s = refl

module _ (crypt : List ℕ → ℕ → ℕ → ℕ) (inv : IsInvolutive crypt)
    (dial : Network → List ℕ → Option Error) (cipher salt key address : List ℕ) (now now' code : ℕ)
    (e : xor_key salt cipher ≡ ok key) (salt_length : length salt ≡ 32)
    (address_bytes : AreBytes address) (address_length : length address ≤ 255)
    (clock : now < 2 ^ 64) (code_lt : code < 256) where
  -- The server of ashe as a whole, whichever connections it serves, when one of them has sent a
  -- request under the right key with a network byte that is neither 1 nor 3, and its handler runs:
  -- the process has crashed, and no other connection is accepted, served or closed any more.
  pub ashe_turn-crashes :
      is_expired now' now ≡ false
      → code ≢ 0x01
      → code ≢ 0x03
      → (n cid : ℕ) (p : Peer Conn) (rest : List (ℕ × Peer Conn)) (s : Loop (Peer Conn))
      → s.phase ≢ crashed
      → pick n s.live ≡ some ((cid, p), rest)
      → p.now ≡ now'
      → p.side ≡ fresh 1 (sent crypt key salt now code address)
      → let t = record s { phase = crashed; live = rest } in
        (ashe_turn crypt dial cipher (ends n) s ≡ some t)
        × ((event : Event (Peer Conn)) → ashe_turn crypt dial cipher event t ≡ none)
  unfolding ashe_turn turn ashe_handler
  ashe_turn-crashes young n1 n3 n cid p rest s h picked clocked sent_eq =
      let bad : (Ashe.serve crypt dial cipher p.now p.side).0 ≡ panic =
        rw (clocked, sent_eq)
          ((serve_unknown_network crypt inv dial cipher salt key address now now' code e salt_length
            address_bytes address_length clock code_lt young n1 n3).0) in
      (
        turn_at-panic (ashe_handler crypt dial cipher) close_cli s.phase n cid p rest s h picked
            (done-panic p _ bad),
        λ event.
            turn_at-crashed (ashe_handler crypt dial cipher) close_cli event
              (record s { phase = crashed; live = rest }),
      )
