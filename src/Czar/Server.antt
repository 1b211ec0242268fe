-- ===== src/Czar/Server.antt =====
-- Server.Run of protocol/czar/engine.go: the loop that accepts connections, and for each of them the
-- goroutine that takes the streams of its multiplexer and starts a handler for each. These
-- goroutines share one counter without a lock: `idx++` loads it and stores it, and the Context
-- reads it again, each a step of its own. A handler works on its own stream only, so that its work
-- is done in one step, at its end.
pub mod Counter
pub mod Race
use daze.Base.{
  ℕ, suc, ◌+◌, ◌^◌, ◌%◌, ◌-◌, Option, none, some, List, [], ◌∷◌, ◌++◌, Error, Outcome, ok, fail,
  panic, get_elem?, set, ◌≡◌,
}
use daze.Net.{Conn}
use daze.Ashe.{Network}
use daze.Listener.{Phase, accepting, ended, crashed, pick}
use daze.Listener.Engines.{Peer}
use daze.Listener.Engines

-- Where the goroutine of a multiplexer is: at `range mux.Accept()`, with a stream before, within
-- and behind `idx++`, or done, with its multiplexer closed.
pub data Stage (C : Type 0) : Type 0 where
  waiting : Stage C
  holding : C → Stage C
  loaded : ℕ → C → Stage C
  stored : C → Stage C
  done : Stage C

pub record Hub (C : Type 0) : Type 0 where
  pub phase : Phase
  pub idx : ℕ
  pub lanes : List (Stage C)
  pub taken : List C  -- the streams that the multiplexers have given, in order
  pub live : List (ℕ × C)  -- those that are being served, with their Cids
  pub closed : List (ℕ × C)

pub data Event (C : Type 0) : Type 0 where
  connects : Event C
  accept_error : Event C
  gives : ℕ → C → Event C
  goes : ℕ → Event C
  drains : ℕ → Event C
  ends : ℕ → Event C

abbrev pub begin : {C : Type 0} → Hub C
begin = record {
  phase = accepting;
  idx = 2 ^ 32 - 1;
  lanes = [];
  taken = [];
  live = [];
  closed = [];
}

module _ {C : Type 0} (serve : C → Outcome (Unit {0}) × C) (close : C → C) where
  -- `NewMuxServer`, and the goroutine started.
  unfoldable pub on_connect : Phase → Hub C → Option (Hub C)
  on_connect accepting s = some (record s { lanes = s.lanes ++ waiting ∷ [] })
  on_connect ended s = none
  on_connect crashed s = none

  unfoldable pub on_error : Phase → Hub C → Option (Hub C)
  on_error accepting s = some (record s { phase = ended })
  on_error ended s = none
  on_error crashed s = none

  -- A stream comes out of the channel of Accept.
  unfoldable pub on_give : ℕ → C → Option (Stage C) → Hub C → Option (Hub C)
  on_give n c (some waiting) s =
      some (record s { lanes = set s.lanes n (holding c); taken = s.taken ++ c ∷ [] })
  on_give n c _ s = none

  -- The channel is closed, and `mux.Close` is called.
  unfoldable pub on_drain : ℕ → Option (Stage C) → Hub C → Option (Hub C)
  on_drain n (some waiting) s = some (record s { lanes = set s.lanes n done })
  on_drain n _ s = none

  -- The body of the loop over the streams.
  unfoldable pub on_go : ℕ → Option (Stage C) → Hub C → Option (Hub C)
  on_go n (some (holding c)) s = some (record s { lanes = set s.lanes n (loaded s.idx c) })
  on_go n (some (loaded v c)) s =
      some (record s { idx = (v + 1) % 2 ^ 32; lanes = set s.lanes n (stored c) })
  on_go n (some (stored c)) s =
      some (record s { lanes = set s.lanes n waiting; live = s.live ++ (s.idx, c) ∷ [] })
  on_go n _ s = none

  -- A handler ends, and its stream is closed, also after an error.
  unfoldable pub finish : ℕ → Outcome (Unit {0}) × C → List (ℕ × C) → Hub C → Hub C
  finish cid (ok a, c) rest s = record s { live = rest; closed = s.closed ++ (cid, close c) ∷ [] }
  finish cid (fail e, c) rest s = record s { live = rest; closed = s.closed ++ (cid, close c) ∷ [] }
  finish cid (panic, c) rest s = record s { phase = crashed; live = rest }

  unfoldable pub on_end : Option ((ℕ × C) × List (ℕ × C)) → Hub C → Option (Hub C)
  unfolding finish
  on_end none s = none
  on_end (some ((cid, c), rest)) s = some (finish cid (serve c) rest s)

  -- One event while the program runs; `none` where it cannot happen.
  unfoldable pub act : Event C → Hub C → Option (Hub C)
  unfolding on_connect on_error on_give on_drain on_go on_end pick
  act connects s = on_connect s.phase s
  act accept_error s = on_error s.phase s
  act (gives n c) s = on_give n c (get_elem? s.lanes n) s
  act (goes n) s = on_go n (get_elem? s.lanes n) s
  act (drains n) s = on_drain n (get_elem? s.lanes n) s
  act (ends k) s = on_end (pick k s.live) s

  unfoldable pub turn_at : Phase → Event C → Hub C → Option (Hub C)
  unfolding act
  turn_at crashed e s = none
  turn_at accepting e s = act e s
  turn_at ended e s = act e s

  unfoldable pub turn : Event C → Hub C → Option (Hub C)
  unfolding turn_at
  turn e s = turn_at s.phase e s

  -- The states that the server gets into from another.
  pub data Reached (s : Hub C) : Hub C → Type 0 where
    start : Reached s s
    later : {t u : Hub C} (e : Event C) → Reached s t → turn e t ≡ some u → Reached s u

-- Server.Serve, which is that of ashe, and Run with it.
module _ (crypt : List ℕ → ℕ → ℕ → ℕ) (dial : Network → List ℕ → Option Error)
    (cipher : List ℕ) where
  unfoldable pub czar_handler : Peer Conn → Outcome (Unit {0}) × Peer Conn
  czar_handler p = Engines.ashe_handler crypt dial cipher p

  unfoldable pub czar_turn : Event (Peer Conn) → Hub (Peer Conn) → Option (Hub (Peer Conn))
  czar_turn = turn czar_handler Engines.close_cli
