-- ===== src/Listener/Service.antt =====
-- A server's Run and Close, around its accept loops: net.Listen and the field Closer. A listener is
-- named by its place among those that were made. net.Listener.Close fails where it is closed
-- already, and Accept gives no connection then.
pub mod Closing
pub mod Counts
use daze.Base.{
  ℕ, Bool, true, false, Option, none, some, List, [], ◌∷◌, ◌++◌, Error, Outcome, ok, fail,
  net_closed, get_elem?, set, length, ◌≡◌,
}
use daze.Listener.{Loop, Event, arrives, accept_error, ends, begin, turn}

pub record Port (C : Type 0) : Type 0 where
  pub is_open : Bool
  pub loop : Loop C

pub record Service (C : Type 0) : Type 0 where
  pub closer : Option ℕ
  pub ports : List (Port C)

abbrev pub new_service : {C : Type 0} → Service C
new_service = record { closer = none; ports = [] }

-- `Run`, where net.Listen ends with the error, if any.
unfoldable pub run : {C : Type 0} → Option Error → Service C → Outcome (Unit {0}) × Service C
run (some e) s = (fail e, s)
run none s = (
  ok tt,
  record {
    closer = some (length s.ports);
    ports = s.ports ++ record { is_open = true; loop = begin } ∷ [];
  },
)

-- `l.Close` of net.Listener.
unfoldable pub close_port :
    {C : Type 0} → ℕ → Option (Port C) → Service C → Outcome (Unit {0}) × Service C
close_port k none s = (fail net_closed, s)
close_port k (some p) s = elim p.is_open [
  | true ↦ (ok tt, record s { ports = set s.ports k (record p { is_open = false }) })
  | false ↦ (fail net_closed, s)
]

unfoldable pub close_from : {C : Type 0} → Option ℕ → Service C → Outcome (Unit {0}) × Service C
unfolding close_port
close_from none s = (ok tt, s)
close_from (some k) s = close_port k (get_elem? s.ports k) s

-- `Close`
unfoldable pub close : {C : Type 0} → Service C → Outcome (Unit {0}) × Service C
unfolding close_from
close s = close_from s.closer s

-- What happens to a server: a call of Run, one of Close, and an event of a loop.
pub data Act (C : Type 0) : Type 0 where
  runs : Option Error → Act C
  closes : Act C
  at : ℕ → Event C → Act C

module _ {C : Type 0} (serve : C → Outcome (Unit {0}) × C) (close_cli : C → C) where
  -- An event of a listener's loop.
  unfoldable pub port_turn : Event C → Port C → Option (Loop C)
  port_turn (arrives c) p = elim p.is_open [
    | true ↦ turn serve close_cli (arrives c) p.loop
    | false ↦ none
  ]
  port_turn accept_error p = turn serve close_cli accept_error p.loop
  port_turn (ends n) p = turn serve close_cli (ends n) p.loop

  unfoldable pub put_loop : ℕ → Port C → Option (Loop C) → Service C → Option (Service C)
  put_loop k p none s = none
  put_loop k p (some l) s = some (record s { ports = set s.ports k (record p { loop = l }) })

  unfoldable pub at_port : ℕ → Event C → Option (Port C) → Service C → Option (Service C)
  unfolding port_turn put_loop
  at_port k e none s = none
  at_port k e (some p) s = put_loop k p (port_turn e p) s

  unfoldable pub step : Act C → Service C → Option (Service C)
  unfolding run close at_port
  step (runs e) s = some ((run e s).1)
  step closes s = some ((close s).1)
  step (at k e) s = at_port k e (get_elem? s.ports k) s

  -- The states that a server gets into from another.
  pub data Follows (s : Service C) : Service C → Type 0 where
    same : Follows s s
    later : {t u : Service C} (a : Act C) → Follows s t → step a t ≡ some u → Follows s u
