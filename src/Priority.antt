-- ===== src/Priority.antt =====
-- lib/priority/priority.go: a lock with levels. Pri of level n takes the mutexes n down to 0, calls
-- f, and gives them back in the same order. The goroutines that call Pri take turns in any order;
-- one turn is one Lock, one call of f, or one Unlock. f is taken to return.
pub mod Exclusion
pub mod Progress
use daze.Base.{
  ℕ, zero, suc, ◌+◌, ◌≡◌, Bool, true, false, List, [], ◌∷◌, ltb, ◌==◌, if◌then◌else◌, map,
}

-- The mutexes: how many there are, and which of them are locked.
pub record Priority : Type 0 where
  pub size : ℕ
  pub locked : ℕ → Bool

-- A call of Pri: the mutexes that it still has to take, where with 0 it runs f; and those that it
-- still has to give back.
pub data Call : Type 0 where
  locking : ℕ → ℕ → Call
  unlocking : ℕ → Call

pub data Move (A : Type 0) : Type 0 where
  moved : A → Priority → Move A
  waits : Move A
  returned : Move A
  panics : Move A

unfoldable pub set_locked : ℕ → Bool → Priority → Priority
set_locked k b p = record p { locked = λ j. if j == k then b else p.locked j }

-- `p.l[i].Lock()`
unfoldable pub lock : ℕ → ℕ → Priority → Move Call
unfolding set_locked
lock n k p =
    if ltb k p.size
    then (if p.locked k then waits else moved (locking n k) (set_locked k true p))
    else panics

-- `p.l[i].Unlock()`: on a mutex that is not locked it is a fatal error.
unfoldable pub unlock : ℕ → Priority → Move Call
unfolding set_locked
unlock k p =
    if ltb k p.size
    then (if p.locked k then moved (unlocking k) (set_locked k false p) else panics)
    else panics

-- `Pri(n, f)`, one turn of it; it begins as `locking n (n + 1)`.
unfoldable pub pri : Call → Priority → Move Call
unfolding lock unlock
pri (locking n zero) p = moved (unlocking (suc n)) p
pri (locking n (suc k)) p = lock n k p
pri (unlocking zero) p = returned
pri (unlocking (suc k)) p = unlock k p

abbrev pub among : {A B : Type 0} → (A → B) → Move A → Move B
among f (moved a p) = moved (f a) p
among f waits = waits
among f returned = returned
among f panics = panics

-- The turn of one of several calls.
unfoldable pub turn : ℕ → List Call → Priority → Move (List Call)
turn i [] p = returned
turn zero (c ∷ cs) p = among (λ d. d ∷ cs) (pri c p)
turn (suc i) (c ∷ cs) p = among (λ ds. c ∷ ds) (turn i cs p)

-- `NewPriority(size)`
abbrev pub new_priority : ℕ → Priority
new_priority size = record { size = size; locked = λ j. false }

-- The calls of the given levels, and what they get to in a number of turns.
abbrev pub calls : List ℕ → List Call
calls ns = map (λ n. locking n (suc n)) ns

pub data Reached (size : ℕ) (levels : List ℕ) : ℕ → List Call → Priority → Type 0 where
  start : Reached size levels zero (calls levels) (new_priority size)
  later :
      {m : ℕ} {cs ds : List Call} {p q : Priority} (i : ℕ)
      → Reached size levels m cs p
      → turn i cs p ≡ moved ds q
      → Reached size levels (suc m) ds q
