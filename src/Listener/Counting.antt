-- ===== src/Listener/Counting.antt =====
-- The Cids that an accept loop gives out, and what becomes of its connections.
use daze.Base.{
  ℕ, zero, suc, ◌+◌, ◌^◌, ◌%◌, ◌-◌, ◌≤◌, ◌≡◌, ◌≢◌, refl, ap, ◌∙◌, Option, none, some, List, [], ◌∷◌,
  ◌++◌, Outcome, ok, fail, panic, arith, ◌==◌, if◌then◌else◌, ltb,
}
use mathlib.Core.Path.{subst}
use native.Mathlib.Numerals.{add-one}
use native.Mathlib.Nat.{add-zero}
use daze.Listener.{
  Phase, accepting, ended, crashed, Loop, Event, arrives, accept_error, ends, pick, accept, finish,
  end_one, turn_at, turn, arrivals, Reached, start, later,
}

-- How often an id has been given out.
abbrev pub times : ℕ → List ℕ → ℕ
times i [] = 0
times i (j ∷ js) = times i js + (if j == i then 1 else 0)

times-append :
    (i : ℕ) (early late : List ℕ) → times i (early ++ late) ≡ times i early + times i late
times-append i [] late = omega arith
times-append i (j ∷ js) late = omega (arith, times-append i js late)

-- The ids of the first connections: from 0 on, in 32 bits.
abbrev pub ids : ℕ → List ℕ
ids zero = []
ids (suc n) = ids n ++ (n % 2 ^ 32) ∷ []

times-ids : (a n : ℕ) → n ≤ 2 ^ 32 → times a (ids n) ≡ (if ltb a n then 1 else 0)
times-ids a zero h = ground arith
times-ids a (suc n) h =
    let last : n % 2 ^ 32 ≡ n = omega (arith, h) in
    times-append a (ids n) ((n % 2 ^ 32) ∷ [])
    ∙ rw (last, times-ids a n (omega (arith, h))) (ground arith)

abbrev pub cids : {C : Type 0} → List (ℕ × C) → List ℕ
cids [] = []
cids ((i, c) ∷ l) = i ∷ cids l

cids-append :
    {C : Type 0} (a : ℕ) (xs ys : List (ℕ × C))
    → times a (cids (xs ++ ys)) ≡ times a (cids xs) + times a (cids ys)
cids-append a [] ys = omega arith
cids-append a ((i, c) ∷ xs) ys = omega (arith, cids-append a xs ys)

-- What a pick leaves.
abbrev Picked : {C : Type 0} → ℕ → List (ℕ × C) → Option ((ℕ × C) × List (ℕ × C)) → Type 0
Picked a l none = Unit
Picked a l (some ((i, c), rest)) =
    times a (cids l) ≡ (if i == a then 1 else 0) + times a (cids rest)

pick-Picked : {C : Type 0} (a n : ℕ) (l : List (ℕ × C)) → Picked a l (pick n l)
unfolding pick
pick-Picked a n [] = tt
pick-Picked a zero ((i, c) ∷ l) = omega arith
pick-Picked a (suc n) ((i, c) ∷ l) = go (pick n l) (pick-Picked a n l)
  where
    go :
        (o : Option ((ℕ × _) × List (ℕ × _)))
        → Picked a l o
        → Picked a ((i, c) ∷ l) (elim o [ none ↦ none | some (b, rest) ↦ some (b, (i, c) ∷ rest) ])
    go none h = tt
    go (some ((j, d), rest)) h = omega (arith, h)

-- The counter, the Cids given out, and that every one of them belongs to a connection that is being
-- served or is closed, unless a handler has panicked.
pub record Counted {C : Type 0} (n : ℕ) (s : Loop C) : Type 0 where
  pub counter : s.idx ≡ (2 ^ 32 - 1 + n) % 2 ^ 32
  pub in_order : s.given ≡ ids n
  pub kept :
      (a : ℕ)
      → s.phase ≢ crashed
      → times a (cids s.live) + times a (cids s.closed) ≡ times a (ids n)

abbrev pub AfterEvent : {C : Type 0} → ℕ → Option (Loop C) → Type 0
AfterEvent n none = Unit
AfterEvent n (some s) = Counted n s

module _ {C : Type 0} (serve : C → Outcome (Unit {0}) × C) (close : C → C) where
  accept-Counted :
      (c : C) (n : ℕ) (s : Loop C)
      → s.phase ≢ crashed
      → Counted n s
      → Counted (suc n) (accept serve close c s)
  unfolding accept
  accept-Counted c n s ok_phase k =
      let cid : (s.idx + 1) % 2 ^ 32 ≡ n % 2 ^ 32 = omega (arith, k.counter) in
      record {
        counter = omega (arith, k.counter);
        in_order = rw (k.in_order, cid);
        kept = λ a h. rw cid (
            omega (
              arith,
              cids-append a s.live ((n % 2 ^ 32, c) ∷ []),
              times-append a (ids n) ((n % 2 ^ 32) ∷ []),
              k.kept a ok_phase,
            ));
      }

  finish-Counted :
      (i : ℕ) (c : C) (r : Outcome (Unit {0}) × C) (rest : List (ℕ × C)) (n : ℕ) (s : Loop C)
      → s.phase ≢ crashed
      → ((a : ℕ) → times a (cids s.live) ≡ (if i == a then 1 else 0) + times a (cids rest))
      → Counted n s
      → Counted n (finish serve close i r rest s)
  unfolding finish
  finish-Counted i c (ok x, d) rest n s live p k = record {
    counter = k.counter;
    in_order = k.in_order;
    kept = λ a h. omega (arith, cids-append a s.closed ((i, close d) ∷ []), k.kept a live, p a);
  }
  finish-Counted i c (fail x, d) rest n s live p k = record {
    counter = k.counter;
    in_order = k.in_order;
    kept = λ a h. omega (arith, cids-append a s.closed ((i, close d) ∷ []), k.kept a live, p a);
  }
  finish-Counted i c (panic, d) rest n s live p k = record {
    counter = k.counter;
    in_order = k.in_order;
    kept = λ a h. absurd (h refl);
  }

  end_one-Counted :
      (o : Option ((ℕ × C) × List (ℕ × C))) (n : ℕ) (s : Loop C)
      → s.phase ≢ crashed
      → ((a : ℕ) → Picked a s.live o)
      → Counted n s
      → AfterEvent n (end_one serve close o s)
  unfolding end_one
  end_one-Counted none n s live p k = tt
  end_one-Counted (some ((i, c), rest)) n s live p k =
      finish-Counted i c (serve c) rest n s live p k

  turn_at-Counted :
      (p : Phase) (e : Event C) (n : ℕ) (s : Loop C)
      → s.phase ≡ p
      → Counted n s
      → AfterEvent (n + arrivals serve close e) (turn_at serve close p e s)
  unfolding turn_at
  turn_at-Counted accepting (arrives c) n s h k = rw add-one (accept-Counted c n s (λ x. cc) k)
  turn_at-Counted accepting accept_error n s h k =
      rw add-zero
        (record { counter = k.counter; in_order = k.in_order; kept = λ a x. k.kept a (λ y. cc) })
  turn_at-Counted accepting (ends i) n s h k =
      rw add-zero (end_one-Counted (pick i s.live) n s (λ x. cc) (λ a. pick-Picked a i s.live) k)
  turn_at-Counted ended (ends i) n s h k =
      rw add-zero (end_one-Counted (pick i s.live) n s (λ x. cc) (λ a. pick-Picked a i s.live) k)
  turn_at-Counted ended (arrives c) n s h k = tt
  turn_at-Counted ended accept_error n s h k = tt
  turn_at-Counted crashed (arrives c) n s h k = tt
  turn_at-Counted crashed accept_error n s h k = tt
  turn_at-Counted crashed (ends i) n s h k = tt

  pub turn-Counted :
      (e : Event C) (n : ℕ) (s : Loop C)
      → Counted n s
      → AfterEvent (n + arrivals serve close e) (turn serve close e s)
  unfolding turn
  turn-Counted e n s k = turn_at-Counted s.phase e n s refl k

  Reached-Counted : {n : ℕ} {s : Loop C} → Reached serve close n s → Counted n s
  Reached-Counted start = record { counter = refl; in_order = refl; kept = λ a h. refl }
  Reached-Counted (later {n} {m} {s} {t} e r step m_eq) =
      let k : Counted n s = Reached-Counted r in
      subst (λ o. AfterEvent m o) step (rw m_eq (turn-Counted e n s k))

  -- Connections that have been served to the end, without a panic, and whose end has been closed.
  abbrev pub AllShut : List (ℕ × C) → Type 0
  AllShut [] = Unit
  AllShut ((i, c) ∷ l) = ((d : C) × ((serve d).0 ≢ panic) × (c ≡ close (serve d).1)) × AllShut l

  AllShut-append :
      (l : List (ℕ × C)) (i : ℕ) (d : C)
      → (serve d).0 ≢ panic
      → AllShut l
      → AllShut (l ++ (i, close (serve d).1) ∷ [])
  AllShut-append [] i d calm h = ((d, calm, refl), tt)
  AllShut-append (x ∷ l) i d calm h = (h.0, AllShut-append l i d calm h.1)

  abbrev ShutAfter : Option (Loop C) → Type 0
  ShutAfter none = Unit
  ShutAfter (some s) = AllShut s.closed

  finish-AllShut :
      (i : ℕ) (d : C) (r : Outcome (Unit {0}) × C) (rest : List (ℕ × C)) (s : Loop C)
      → serve d ≡ r
      → AllShut s.closed
      → AllShut (finish serve close i r rest s).closed
  unfolding finish
  finish-AllShut i d (ok x, c) rest s e h =
      subst (λ b. AllShut (s.closed ++ (i, close b) ∷ [])) (ap (λ r. r.1) e)
        (AllShut-append s.closed i d (λ no_panic. cc) h)
  finish-AllShut i d (fail x, c) rest s e h =
      subst (λ b. AllShut (s.closed ++ (i, close b) ∷ [])) (ap (λ r. r.1) e)
        (AllShut-append s.closed i d (λ no_panic. cc) h)
  finish-AllShut i d (panic, c) rest s e h = h

  end_one-AllShut :
      (o : Option ((ℕ × C) × List (ℕ × C))) (s : Loop C)
      → AllShut s.closed
      → ShutAfter (end_one serve close o s)
  unfolding end_one
  end_one-AllShut none s h = tt
  end_one-AllShut (some ((i, d), rest)) s h = finish-AllShut i d (serve d) rest s refl h

  turn_at-AllShut :
      (p : Phase) (e : Event C) (s : Loop C)
      → AllShut s.closed
      → ShutAfter (turn_at serve close p e s)
  unfolding turn_at accept
  turn_at-AllShut accepting (arrives c) s h = h
  turn_at-AllShut accepting accept_error s h = h
  turn_at-AllShut accepting (ends i) s h = end_one-AllShut (pick i s.live) s h
  turn_at-AllShut ended (ends i) s h = end_one-AllShut (pick i s.live) s h
  turn_at-AllShut ended (arrives c) s h = tt
  turn_at-AllShut ended accept_error s h = tt
  turn_at-AllShut crashed (arrives c) s h = tt
  turn_at-AllShut crashed accept_error s h = tt
  turn_at-AllShut crashed (ends i) s h = tt

  Reached-AllShut : {n : ℕ} {s : Loop C} → Reached serve close n s → AllShut s.closed
  unfolding turn
  Reached-AllShut start = tt
  Reached-AllShut (later {s = s} e r step m_eq) =
      subst ShutAfter step (turn_at-AllShut s.phase e s (Reached-AllShut r))

  -- However connections come and end, the counter and the Cids given out are those of the number of
  -- connections so far, from 0 on in 32 bits; each of them is being served or is closed, and that as
  -- often as it was given out, unless a handler has panicked; each that is closed is what Close makes
  -- of a connection that its handler has left, without a panic; and the first 2^32 are distinct.
  pub Reached-counts :
      {n : ℕ} {s : Loop C}
      → Reached serve close n s
      → Counted n s
        × AllShut s.closed
        × ((a : ℕ) → n ≤ 2 ^ 32 → times a s.given ≡ (if ltb a n then 1 else 0))
  Reached-counts {n} {s} r =
      let k : Counted n s = Reached-Counted r in
      (k, Reached-AllShut r, λ a h. rw (k.in_order) (times-ids a n h))
