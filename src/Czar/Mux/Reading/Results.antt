-- ===== src/Czar/Mux/Reading/Results.antt =====
-- What the Reads of a stream give, and when they fail or wait.
use daze.Base.{◌≡◌, ◌≢◌, ◌⊎◌, Option, none, some, [], ◌++◌, Error}
use daze.Czar.Mux.Transfer.Sender.{joined, pending}
use daze.Czar.Mux.Reading.{
  failed, Place, away, returned, crashed, Reader, Case, goes_on, picks, turn,
}
use daze.Czar.Mux.Reading.Order.{Core}

-- Read has been called and has not returned.
abbrev pub IsReading : Place → Type 0
IsReading p = (p ≢ away) × ((x : _) → p ≢ returned x)

-- A step that the reader can take by itself, and what it waits for otherwise: there is no byte to
-- read, and no error of the stream or of the multiplexer.
abbrev pub CanStep : Reader → Type 0
CanStep r = (t : Reader) × ((turn goes_on r ≡ some t) ⊎ ((c : Case) × (turn (picks c) r ≡ some t)))

abbrev pub Waits : Reader → Type 0
Waits r = (pending r.stream ≡ []) × (r.stream.rer.err ≡ none) × (r.mux_rer.err ≡ none)

pub record Reads (r : Reader) : Type 0 where
  pub in_order : joined r.queued ≡ r.given ++ pending r.stream
  pub safe : r.place ≢ crashed
  pub errors :
      (e : Option Error)
      → r.place ≡ returned (failed e)
      → (x : Error) × (e ≡ some x) × ((r.stream.rer.err ≡ some x) ⊎ (r.mux_rer.err ≡ some x))
  pub moves : IsReading r.place → CanStep r ⊎ Waits r
