-- ===== src/Czar/Client.antt =====
-- The client of protocol/czar/engine.go: Run, which keeps one connection to the server, hands its
-- multiplexer to those who dial, and connects again when it breaks. Run's variables are a record;
-- what its selects and its dialling meet are events. A connection is the number of its making.
pub mod Upkeep
use daze.Base.{ℕ, suc, ◌+◌, ◌^◌, min, Option, none, some, List, [], ◌∷◌, ◌≡◌}

-- `sid`: 0, 1 and 2.
pub data Phase : Type 0 where
  dialling serving stopped : Phase

pub record Client : Type 0 where
  pub sid : Phase
  pub rtt : ℕ
  pub mux : ℕ
  pub made : ℕ  -- the connections that have been made
  pub shut : List ℕ  -- those that Run has closed, the last one first
  pub waits : List ℕ  -- how many seconds it has waited, the last wait first
  pub given : List ℕ  -- what it has handed out, the last first

-- What happens to Run: dialling fails and the wait ends, or Cancel is closed meanwhile; dialling
-- succeeds; somebody takes the multiplexer; its error is signalled; Cancel is closed.
pub data Event : Type 0 where
  waited cancelled_waiting connected taken broken cancelled : Event

-- `NewClient`
abbrev pub new_client : Client
new_client = record {
  sid = dialling;
  rtt = 0;
  mux = 0;
  made = 0;
  shut = [];
  waits = [];
  given = [];
}

-- One turn of the loop; `none` where the event cannot happen.
unfoldable pub turn_at : Phase → Event → Client → Option Client
turn_at dialling waited c = some (record c { rtt = min (c.rtt + 1) 5; waits = 2 ^ c.rtt ∷ c.waits })
turn_at dialling cancelled_waiting c = some (record c { sid = stopped })
turn_at dialling connected c =
    some (record c { sid = serving; rtt = 0; mux = c.made; made = suc c.made })
turn_at serving taken c = some (record c { given = c.mux ∷ c.given })
turn_at serving broken c = some (record c { sid = dialling; shut = c.mux ∷ c.shut })
turn_at serving cancelled c = some (record c { sid = stopped; shut = c.mux ∷ c.shut })
turn_at _ _ c = none

unfoldable pub turn : Event → Client → Option Client
unfolding turn_at
turn e c = turn_at c.sid e c

-- The states that Run gets into.
pub data Reached : Client → Type 0 where
  begin : Reached new_client
  go_on : (e : Event) {c c' : Client} → Reached c → turn e c ≡ some c' → Reached c'
