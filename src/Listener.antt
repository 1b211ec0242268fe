-- ===== src/Listener.antt =====
-- The accept loops that the servers' Run starts, and the goroutine of each connection: a counter of
-- 32 bits gives the connection its Context, the handler serves it, and its end closes it. What
-- Accept returns and when a handler ends are events. A handler works on its own connection only, so
-- that its work is done in one step, at its end; a panic in it stops the program.
pub mod Counting
pub mod Engines
pub mod Service
use daze.Base.{
  ℕ, zero, suc, ◌+◌, ◌^◌, ◌%◌, ◌-◌, Bool, true, Option, none, some, List, [], ◌∷◌, ◌++◌, Outcome,
  ok, fail, panic, ◌≡◌,
}

pub data Phase : Type 0 where
  accepting ended crashed : Phase

pub record Loop (C : Type 0) : Type 0 where
  pub phase : Phase
  pub idx : ℕ
  pub given : List ℕ  -- the Cids given out, in order
  pub live : List (ℕ × C)  -- the connections that are being served
  pub closed : List (ℕ × C)  -- those that are closed, in the order of their ends

pub data Event (C : Type 0) : Type 0 where
  arrives : C → Event C
  accept_error : Event C
  ends : ℕ → Event C

-- `idx := uint32(math.MaxUint32)`
abbrev pub begin : {C : Type 0} → Loop C
begin = record { phase = accepting; idx = 2 ^ 32 - 1; given = []; live = []; closed = [] }

-- One of a list, and the others.
unfoldable pub pick : {A : Type 0} → ℕ → List A → Option (A × List A)
pick n [] = none
pick zero (a ∷ as_) = some (a, as_)
pick (suc n) (a ∷ as_) = elim (pick n as_) [ none ↦ none | some (b, rest) ↦ some (b, a ∷ rest) ]

module _ {C : Type 0} (serve : C → Outcome (Unit {0}) × C) (close : C → C) where
  -- `idx++`, and the goroutine started.
  unfoldable pub accept : C → Loop C → Loop C
  accept c s =
      let cid = (s.idx + 1) % 2 ^ 32 in
      record s { idx = cid; given = s.given ++ cid ∷ []; live = s.live ++ (cid, c) ∷ [] }

  -- What the handler has left is closed, also after an error.
  unfoldable pub finish : ℕ → Outcome (Unit {0}) × C → List (ℕ × C) → Loop C → Loop C
  finish cid (ok a, c) rest s = record s { live = rest; closed = s.closed ++ (cid, close c) ∷ [] }
  finish cid (fail e, c) rest s = record s { live = rest; closed = s.closed ++ (cid, close c) ∷ [] }
  finish cid (panic, c) rest s = record s { phase = crashed; live = rest }

  unfoldable pub end_one : Option ((ℕ × C) × List (ℕ × C)) → Loop C → Option (Loop C)
  unfolding finish
  end_one none s = none
  end_one (some ((cid, c), rest)) s = some (finish cid (serve c) rest s)

  -- One event; `none` where it cannot happen.
  unfoldable pub turn_at : Phase → Event C → Loop C → Option (Loop C)
  unfolding accept end_one pick
  turn_at accepting (arrives c) s = some (accept c s)
  turn_at accepting accept_error s = some (record s { phase = ended })
  turn_at accepting (ends n) s = end_one (pick n s.live) s
  turn_at ended (ends n) s = end_one (pick n s.live) s
  turn_at _ _ s = none

  unfoldable pub turn : Event C → Loop C → Option (Loop C)
  unfolding turn_at
  turn e s = turn_at s.phase e s

  -- The states that a server gets into; the number is that of the connections so far.
  abbrev pub arrivals : Event C → ℕ
  arrivals (arrives c) = 1
  arrivals accept_error = 0
  arrivals (ends n) = 0

  pub data Reached : ℕ → Loop C → Type 0 where
    start : Reached zero begin
    later :
        {n m : ℕ} {s t : Loop C} (e : Event C)
        → Reached n s
        → turn e s ≡ some t
        → m ≡ n + arrivals e
        → Reached m t
