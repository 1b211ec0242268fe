-- ===== src/Priority/Exclusion.antt =====
-- That at most one call holds a mutex, and so that at most one runs f.
use daze.Base.{
  ℕ, zero, suc, ◌+◌, ◌≤◌, ◌<◌, ◌≡◌, refl, ap, ◌∙◌, Bool, true, false, List, [], ◌∷◌, arith, ltb,
  ◌==◌, if◌then◌else◌,
}
use mathlib.Core.Path.{subst}
use daze.Priority.{
  Priority, Call, locking, unlocking, Move, moved, waits, returned, panics, set_locked, lock,
  unlock, pri, among, turn, calls, Reached, start, later,
}

-- How often a call holds a mutex, and how often all of them do.
abbrev pub holds : ℕ → Call → ℕ
holds j (locking n k) = if ltb j k then 0 else (if ltb n j then 0 else 1)
holds j (unlocking k) = if ltb j k then 1 else 0

abbrev pub held : ℕ → List Call → ℕ
held j [] = 0
held j (c ∷ cs) = holds j c + held j cs

abbrev pub IsLevel : ℕ → Call → Type 0
IsLevel size (locking n k) = (n < size) × (k ≤ suc n)
IsLevel size (unlocking k) = k ≤ size

abbrev pub AreLevels : ℕ → List Call → Type 0
AreLevels size [] = Unit
AreLevels size (c ∷ cs) = IsLevel size c × AreLevels size cs

-- The turns that a call still has to take.
abbrev pub left_of : Call → ℕ
left_of (locking n k) = k + suc (suc n)
left_of (unlocking k) = k

abbrev pub left : List Call → ℕ
left [] = 0
left (c ∷ cs) = left_of c + left cs

-- What one turn changes, of one call and of all.
abbrev pub Changed : (p q : Priority) → (ℕ → ℕ) → (ℕ → ℕ) → Type 0
Changed p q before after =
    (q.size ≡ p.size)
    × ((j : ℕ) → after j + (if p.locked j then 1 else 0) ≡ before j + (if q.locked j then 1 else 0))

abbrev AfterPri : Call → Priority → Move Call → Type 0
AfterPri c p (moved d q) =
    Changed p q (λ j. holds j c) (λ j. holds j d) × IsLevel p.size d × (left_of c ≡ suc (left_of d))
AfterPri c p waits = Unit
AfterPri c p returned = Unit
AfterPri c p panics = (j : ℕ) × (j < p.size) × ((if p.locked j then 1 else 0) < holds j c)

lock_one :
    (n k j : ℕ) (x : Bool)
    → k ≤ n
    → (j ≡ k → x ≡ false)
    → holds j (locking n k) + (if x then 1 else 0)
      ≡ holds j (locking n (suc k)) + (if (if j == k then true else x) then 1 else 0)
lock_one n k j false l h = ground arith
lock_one n k j true l h = let apart : j ≡ k → true ≡ false = h in ground arith

unlock_one :
    (k j : ℕ) (x : Bool)
    → (j ≡ k → x ≡ true)
    → holds j (unlocking k) + (if x then 1 else 0)
      ≡ holds j (unlocking (suc k)) + (if (if j == k then false else x) then 1 else 0)
unlock_one k j true h = ground arith
unlock_one k j false h = let apart : j ≡ k → false ≡ true = h in ground arith

lock-AfterPri :
    (n k : ℕ) (p : Priority) (here free : Bool)
    → n < p.size
    → k ≤ n
    → ltb k p.size ≡ here
    → p.locked k ≡ free
    → AfterPri (locking n (suc k)) p (
        if here
        then (if free then waits else moved (locking n k) (set_locked k true p))
        else panics)
unfolding set_locked
lock-AfterPri n k p true true h l e f = tt
lock-AfterPri n k p true false h l e f = (
  (refl, λ j. lock_one n k j (p.locked j) l (λ x. ap p.locked x ∙ f)),
  (h, omega (arith, l)),
  omega arith,
)
lock-AfterPri n k p false free h l e f = absurd (ground (arith, e))

unlock-AfterPri :
    (k : ℕ) (p : Priority) (here taken : Bool)
    → k < p.size
    → ltb k p.size ≡ here
    → p.locked k ≡ taken
    → AfterPri (unlocking (suc k)) p (
        if here
        then (if taken then moved (unlocking k) (set_locked k false p) else panics)
        else panics)
unfolding set_locked
unlock-AfterPri k p true true h e f =
    ((refl, λ j. unlock_one k j (p.locked j) (λ x. ap p.locked x ∙ f)), omega (arith, h), refl)
unlock-AfterPri k p true false h e f = (k, h, rw f (ground arith))
unlock-AfterPri k p false taken h e f = absurd (ground (arith, e))

pri-AfterPri : (c : Call) (p : Priority) → IsLevel p.size c → AfterPri c p (pri c p)
unfolding pri lock unlock set_locked
pri-AfterPri (locking n zero) p h = ((refl, λ j. ground arith), h.0, omega arith)
pri-AfterPri (locking n (suc k)) p h =
    lock-AfterPri n k p (ltb k p.size) (p.locked k) h.0 (omega (arith, h.1)) refl refl
pri-AfterPri (unlocking zero) p h = tt
pri-AfterPri (unlocking (suc k)) p h = unlock-AfterPri k p (ltb k p.size) (p.locked k) h refl refl

-- The same of all the calls.
abbrev pub AfterTurn : List Call → Priority → Move (List Call) → Type 0
AfterTurn cs p (moved ds q) =
    Changed p q (λ j. held j cs) (λ j. held j ds) × AreLevels p.size ds × (left cs ≡ suc (left ds))
AfterTurn cs p waits = Unit
AfterTurn cs p returned = Unit
AfterTurn cs p panics = (j : ℕ) × (j < p.size) × ((if p.locked j then 1 else 0) < held j cs)

this-AfterTurn :
    (c : Call) (cs : List Call) (p : Priority) (m : Move Call)
    → AreLevels p.size cs
    → AfterPri c p m
    → AfterTurn (c ∷ cs) p (among (λ d. d ∷ cs) m)
this-AfterTurn c cs p (moved d q) h a =
    ((a.0.0, λ j. omega (arith, a.0.1 j)), (a.1, h), omega (arith, a.2))
this-AfterTurn c cs p waits h a = tt
this-AfterTurn c cs p returned h a = tt
this-AfterTurn c cs p panics h a = (a.0, a.1, omega (arith, a.2))

others-AfterTurn :
    (c : Call) (cs : List Call) (p : Priority) (m : Move (List Call))
    → IsLevel p.size c
    → AfterTurn cs p m
    → AfterTurn (c ∷ cs) p (among (λ ds. c ∷ ds) m)
others-AfterTurn c cs p (moved ds q) h a =
    ((a.0.0, λ j. omega (arith, a.0.1 j)), (h, a.1), omega (arith, a.2))
others-AfterTurn c cs p waits h a = tt
others-AfterTurn c cs p returned h a = tt
others-AfterTurn c cs p panics h a = (a.0, a.1, omega (arith, a.2))

pub turn-AfterTurn :
    (i : ℕ) (cs : List Call) (p : Priority) → AreLevels p.size cs → AfterTurn cs p (turn i cs p)
unfolding turn
turn-AfterTurn i [] p h = tt
turn-AfterTurn zero (c ∷ cs) p h = this-AfterTurn c cs p (pri c p) h.1 (pri-AfterPri c p h.0)
turn-AfterTurn (suc i) (c ∷ cs) p h =
    others-AfterTurn c cs p (turn i cs p) h.0 (turn-AfterTurn i cs p h.1)

-- What holds between the turns: each mutex is locked just where one call holds it, once.
pub record Held (size : ℕ) (levels : List ℕ) (m : ℕ) (cs : List Call) (p : Priority) : Type 0 where
  pub sized : p.size ≡ size
  pub levelled : AreLevels size cs
  pub once : (j : ℕ) → held j cs ≡ (if p.locked j then 1 else 0)
  pub turns : m + left cs ≡ left (calls levels)

abbrev pub AreBelow : ℕ → List ℕ → Type 0
AreBelow size [] = Unit
AreBelow size (n ∷ ns) = (n < size) × AreBelow size ns

start-AreLevels : (size : ℕ) (ns : List ℕ) → AreBelow size ns → AreLevels size (calls ns)
start-AreLevels size [] h = tt
start-AreLevels size (n ∷ ns) h = ((h.0, omega arith), start-AreLevels size ns h.1)

start_held : (j : ℕ) (ns : List ℕ) → held j (calls ns) ≡ 0
start_held j [] = refl
start_held j (n ∷ ns) = ground (arith, start_held j ns)

pub Reached-Held :
    {size : ℕ} {levels : List ℕ} {m : ℕ} {cs : List Call} {p : Priority}
    → AreBelow size levels
    → Reached size levels m cs p
    → Held size levels m cs p
Reached-Held {size} {levels} {m} below start = record {
  sized = refl;
  levelled = start-AreLevels size levels below;
  once = λ j. start_held j levels;
  turns = omega arith;
}
Reached-Held {size} {levels} {m} {cs} {p} below (later {m = m'} {cs = bs} {p = o} i r e) =
    let h : Held size levels m' bs o = Reached-Held below r in
    let lv : AreLevels o.size bs = rw (h.sized) (h.levelled) in
    let a = subst (λ t. AfterTurn bs o t) e (turn-AfterTurn i bs o lv) in
    record {
      sized = a.0.0 ∙ h.sized;
      levelled = rw (h.sized) at a.1;
      once = λ j. omega (arith, a.0.1 j, h.once j);
      turns = omega (arith, h.turns, a.2);
    }
