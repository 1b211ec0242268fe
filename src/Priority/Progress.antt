-- ===== src/Priority/Progress.antt =====
-- What follows for all the calls of Pri together: one at a time runs f, and all of them return.
use daze.Base.{
  ℕ, zero, suc, ◌+◌, ◌≤◌, ◌<◌, ◌≡◌, ◌≢◌, ◌⊎◌, inl, inr, refl, ap, true, false, List, [], ◌∷◌, arith,
  if◌then◌else◌, lt→ltb, Bool-cases,
}
use daze.Priority.{
  Priority, Call, locking, unlocking, Move, moved, waits, returned, panics, set_locked, lock,
  unlock, pri, among, turn, calls, Reached,
}
use daze.Priority.Exclusion.{
  holds, held, IsLevel, AreLevels, left_of, left, Held, AreBelow, Reached-Held, turn-AfterTurn,
  AfterTurn,
}

-- How many calls run f.
abbrev pub running : List Call → ℕ
running [] = 0
running (locking n zero ∷ cs) = suc (running cs)
running (locking n (suc k) ∷ cs) = running cs
running (unlocking k ∷ cs) = running cs

running-le-held : (cs : List Call) → running cs ≤ held 0 cs
running-le-held [] = omega arith
running-le-held (locking n zero ∷ cs) = ground (arith, running-le-held cs)
running-le-held (locking n (suc k) ∷ cs) = ground (arith, running-le-held cs)
running-le-held (unlocking k ∷ cs) = ground (arith, running-le-held cs)

no_panic :
    (cs : List Call) (p : Priority) (m : Move (List Call))
    → ((j : ℕ) → held j cs ≡ (if p.locked j then 1 else 0))
    → AfterTurn cs p m
    → m ≢ panics
no_panic cs p (moved ds q) once a e = cc
no_panic cs p waits once a e = cc
no_panic cs p returned once a e = cc
no_panic cs p panics once a e = omega (arith, a.2, once a.0)

-- However the goroutines take turns, at most one of them runs f, each mutex is held by at most one
-- and is locked just then, and no turn is a panic; for levels that the lock has.
pub Reached-exclusive :
    {size : ℕ} {levels : List ℕ} {m : ℕ} {cs : List Call} {p : Priority}
    → AreBelow size levels
    → Reached size levels m cs p
    → (running cs ≤ 1)
      × ((j : ℕ) → held j cs ≡ (if p.locked j then 1 else 0))
      × ((i : ℕ) → turn i cs p ≢ panics)
Reached-exclusive {size} {levels} {m} {cs} {p} below r =
    let h : Held size levels m cs p = Reached-Held below r in
    let lv : AreLevels p.size cs = rw (h.sized) (h.levelled) in
    (
      ground (arith, running-le-held cs, h.once 0),
      h.once,
      λ i. no_panic cs p (turn i cs p) h.once (turn-AfterTurn i cs p lv),
    )

-- A call and its place.
data At : ℕ → Call → List Call → Type 0 where
  here : {c : Call} {cs : List Call} → At zero c (c ∷ cs)
  there : {i : ℕ} {c d : Call} {cs : List Call} → At i c cs → At (suc i) c (d ∷ cs)

At-held : {i : ℕ} {c : Call} {cs : List Call} (j : ℕ) → At i c cs → holds j c ≤ held j cs
At-held j here = omega arith
At-held j (there a) = omega (arith, At-held j a)

At-IsLevel :
    {i : ℕ} {c : Call} {cs : List Call} (size : ℕ) → At i c cs → AreLevels size cs → IsLevel size c
At-IsLevel size here h = h.0
At-IsLevel size (there a) h = At-IsLevel size a h.1

abbrev CanMove : List Call → Priority → Type 0
CanMove cs p = (i : ℕ) × (ds : List Call) × (q : Priority) × (turn i cs p ≡ moved ds q)

At-CanMove :
    {i : ℕ} {c d : Call} {cs : List Call} (p : Priority) {q : Priority}
    → At i c cs
    → pri c p ≡ moved d q
    → (ds : List Call) × (turn i cs p ≡ moved ds q)
unfolding turn
At-CanMove p (here {cs = cs}) e = (_, ap (among (λ c. c ∷ cs)) e)
At-CanMove p (there {d = d} a) e =
    let (ds, e') = At-CanMove p a e in (d ∷ ds, ap (among (λ x. d ∷ x)) e')

add_cases : (a b : ℕ) → 1 ≤ a + b → (1 ≤ a) ⊎ (1 ≤ b)
add_cases zero b h = inr (omega (arith, h))
add_cases (suc a) b h = inl (omega arith)

held-At :
    (j : ℕ) (cs : List Call) → 1 ≤ held j cs → (i : ℕ) × (c : Call) × At i c cs × (1 ≤ holds j c)
held-At j [] h = absurd (omega (arith, h))
held-At j (c ∷ cs) h = elim (add_cases (holds j c) (held j cs) h) [
  | inl one ↦ (0, c, here, one)
  | inr more ↦ let (i, d, a, one) = held-At j cs more in (suc i, d, there a, one)
]

left-At : (cs : List Call) → 1 ≤ left cs → (i : ℕ) × (c : Call) × At i c cs × (1 ≤ left_of c)
left-At [] h = absurd (omega (arith, h))
left-At (c ∷ cs) h = elim (add_cases (left_of c) (left cs) h) [
  | inl one ↦ (0, c, here, one)
  | inr more ↦ let (i, d, a, one) = left-At cs more in (suc i, d, there a, one)
]

module _ (cs : List Call) (p : Priority) (levelled : AreLevels p.size cs)
    (once : (j : ℕ) → held j cs ≡ (if p.locked j then 1 else 0)) where
  moves : {i : ℕ} {c d : Call} {q : Priority} → At i c cs → pri c p ≡ moved d q → CanMove cs p
  moves {i} a e = let (ds, e') = At-CanMove p a e in (i, ds, _, e')

  returned_one : {i n : ℕ} → At i (locking n zero) cs → CanMove cs p
  unfolding pri
  returned_one a = moves a refl

  unlocks : {i k : ℕ} → At i (unlocking (suc k)) cs → CanMove cs p
  unfolding pri unlock
  unlocks {i} {k} a =
      let small : suc k ≤ p.size = At-IsLevel p.size a levelled in
      let mine : 1 ≤ held k cs = ground (arith, At-held k a) in
      let taken : p.locked k ≡ true = elim (Bool-cases (p.locked k)) [
        | inl e ↦ e
        | inr e ↦ absurd (omega (arith, mine, (rw e at (once k))))
      ] in
      moves {d = unlocking k} {q = set_locked k false p} a (rw (lt→ltb k p.size small, taken) refl)

  locks : {i n k : ℕ} → At i (locking n (suc k)) cs → p.locked k ≡ false → CanMove cs p
  unfolding pri lock
  locks {i} {n} {k} a free =
      let level : (n < p.size) × (suc k ≤ suc n) = At-IsLevel p.size a levelled in
      moves {d = locking n k} {q = set_locked k true p} a
        (rw (lt→ltb k p.size (omega (arith, level.0, level.1)), free) refl)

  holding-CanMove :
      (bound k i : ℕ) (c : Call)
      → ((n m j : ℕ) → m < bound → At j (locking n m) cs → CanMove cs p)
      → k < bound
      → At i c cs
      → 1 ≤ holds k c
      → CanMove cs p
  holding-CanMove bound k i (locking n m) others h a one = others n m i (ground (arith, one)) a
  holding-CanMove bound k i (unlocking zero) others h a one = absurd (ground (arith, one))
  holding-CanMove bound k i (unlocking (suc m)) others h a one = unlocks a

  -- A call that waits waits for one that has fewer mutexes to take.
  waiting-CanMove : (bound n k i : ℕ) → k < bound → At i (locking n k) cs → CanMove cs p
  waiting-CanMove zero n k i h a = absurd (omega (arith, h))
  waiting-CanMove (suc bound) n zero i h a = returned_one a
  waiting-CanMove (suc bound) n (suc k) i h a = elim (Bool-cases (p.locked k)) [
    | inr free ↦ locks a free
    | inl taken ↦
        let some_one : 1 ≤ held k cs = rw (once k, taken) (omega arith) in
        let (j, c, at, one) = held-At k cs some_one in
        holding-CanMove bound k j c (waiting-CanMove bound) (omega (arith, h)) at one
  ]

  call-CanMove : (i : ℕ) (c : Call) → At i c cs → 1 ≤ left_of c → CanMove cs p
  call-CanMove i (locking n k) a h = waiting-CanMove (suc k) n k i (omega arith) a
  call-CanMove i (unlocking zero) a h = absurd (omega (arith, h))
  call-CanMove i (unlocking (suc k)) a h = unlocks a

  left-CanMove : 1 ≤ left cs → CanMove cs p
  left-CanMove h = let (i, c, a, one) = left-At cs h in call-CanMove i c a one

-- There is no deadlock, and every call returns: after any turns, each of them has brought the calls
-- one turn nearer to their end, and while turns are left, some call can take one; for levels that
-- the lock has.
pub Reached-goes_on :
    {size : ℕ} {levels : List ℕ} {m : ℕ} {cs : List Call} {p : Priority}
    → AreBelow size levels
    → Reached size levels m cs p
    → (m + left cs ≡ left (calls levels))
      × ((m < left (calls levels))
          → (i : ℕ) × (ds : List Call) × (q : Priority) × (turn i cs p ≡ moved ds q))
Reached-goes_on {size} {levels} {m} {cs} {p} below r =
    let h : Held size levels m cs p = Reached-Held below r in
    let lv : AreLevels p.size cs = rw (h.sized) (h.levelled) in
    (h.turns, λ more. left-CanMove cs p lv h.once (omega (arith, h.turns, more)))
