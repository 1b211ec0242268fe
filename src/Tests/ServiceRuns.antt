-- ===== src/Tests/ServiceRuns.antt =====
-- Tests of the servers' Run and Close, of the server of czar and of Cdoh.
use daze.Base.{
  ℕ, ◌≡◌, refl, true, Option, none, some, List, [], ◌∷◌, ◌++◌, arith, Outcome, ok, length, refused,
  ◌-◌, ◌≢◌, ◌^◌,
}
use daze.Resolver
use daze.Resolver.{receive}
use daze.Resolver.Doh
use daze.Resolver.Doh.{query, idle, received, left}
use daze.Listener.{Loop, accepting, arrives, accept, turn, turn_at}
use daze.Listener.Counting.{Counted}
use daze.Listener.Service
use daze.Listener.Service.{
  Port, Service, new_service, run, close, runs, closes, at, step, at_port, put_loop, port_turn,
  Follows, same,
}
use daze.Listener.Service.Closing
use daze.Listener.Service.Closing.{Shut}
use daze.Czar.Server
use daze.Czar.Server.{Stage, waiting, Hub, connects, gives, act, on_connect, on_give}
use daze.Czar.Server.Counter
use daze.Czar.Server.Counter.{Balanced}
use daze.Czar.Server.Race
use daze.Czar.Server.Race.{Doubled}

-- A name server that answers each message with two bytes.
abbrev two_bytes : List ℕ → Option (Option (List ℕ))
two_bytes msg = some (some (1 ∷ 2 ∷ []))

write-receive_example :
    let w = Resolver.write two_bytes (query (7 ∷ 8 ∷ 9 ∷ [])) (idle []) in
    (w.0 ≡ ok (length (query (7 ∷ 8 ∷ 9 ∷ []))))
    × (receive w.1 ≡ (
      received (two_bytes (7 ∷ 8 ∷ 9 ∷ [])),
      record { buffer = left (two_bytes (7 ∷ 8 ∷ 9 ∷ [])); posted = [] ++ (7 ∷ 8 ∷ 9 ∷ []) ∷ [] },
    ))
write-receive_example = Doh.write-receive two_bytes (7 ∷ 8 ∷ 9 ∷ []) [] (omega arith)

-- Connections are numbers, and a handler does nothing.
abbrev serve : ℕ → Outcome (Unit {0}) × ℕ
serve c = (ok tt, c)

abbrev shut : ℕ → ℕ
shut c = c

abbrev one_loop : Loop ℕ
one_loop = record { phase = accepting; idx = 0; given = 0 ∷ []; live = (0, 7) ∷ []; closed = [] }

-- A server with one connection.
abbrev one_served : Service ℕ
one_served = record { closer = some 0; ports = record { is_open = true; loop = one_loop } ∷ [] }

one_served-Follows : Follows serve shut new_service one_served
unfolding step run at_port put_loop port_turn turn turn_at accept
one_served-Follows = Service.later (at 0 (arrives 7)) (Service.later (runs none) same refl) refl

after_close : Follows serve shut (close one_served).1 (run (some refused) (close one_served).1).1
unfolding step
after_close = Service.later (runs (some refused)) same refl

close-Shut_example :
    ((close one_served).0 ≡ ok tt)
    × (n : ℕ) × Counted n one_loop
    × Shut serve shut 0 n (run (some refused) (close one_served).1).1
close-Shut_example =
    Closing.close-Shut serve shut 0 (record { is_open = true; loop = one_loop }) one_served-Follows
      refl refl refl after_close

-- Two multiplexers, one of which has given a stream.
abbrev two_muxes : Hub ℕ
two_muxes = record {
  phase = accepting;
  idx = 9;
  lanes = waiting ∷ waiting ∷ [];
  taken = [];
  live = [];
  closed = [];
}

abbrev one_taken : Hub ℕ
one_taken = record {
  phase = accepting;
  idx = 2 ^ 32 - 1;
  lanes = Server.holding 7 ∷ [];
  taken = 7 ∷ [];
  live = [];
  closed = [];
}

one_taken-Reached : Server.Reached serve shut Server.begin one_taken
unfolding Server.turn Server.turn_at act on_connect on_give
one_taken-Reached = Server.later (gives 0 7) (Server.later connects Server.start refl) refl

Reached-balances_example : Balanced (λ c. c) one_taken
Reached-balances_example =
    Counter.Reached-balances (λ c. c) serve shut (λ c. refl) one_taken-Reached

apart : ◌≢◌ {A = ℕ} 0 1
apart e = cc

race-Doubled_example : Doubled serve shut 0 1 apart 7 8 two_muxes
race-Doubled_example = Race.race-Doubled serve shut 0 1 apart 7 8 two_muxes (λ e. cc) refl refl
