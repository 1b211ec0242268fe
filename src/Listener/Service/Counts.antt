-- ===== src/Listener/Service/Counts.antt =====
-- That all the accept loops of a server count their connections, through Run and Close.
use daze.Base.{
  ℕ, zero, suc, ◌≡◌, refl, true, false, Option, none, some, List, [], ◌∷◌, ◌++◌, Outcome, Error,
  ◌+◌, get_elem?, set, Bool-cases, inl, inr,
}
use mathlib.Core.Path.{subst}
use daze.Listener.{begin, Reached, Loop, Event, arrives, accept_error, ends}
use daze.Listener.Counting.{Reached-counts, Counted, AfterEvent, turn-Counted}
use daze.Listener.Service.{
  new_service, Port, Service, run, close_port, close_from, close, Act, runs, closes, at, port_turn,
  put_loop, at_port, step, Follows, same, later,
}

module _ {C : Type 0} (serve : C → Outcome (Unit {0}) × C) (close_cli : C → C) where
  -- Every accept loop counts its connections.
  abbrev pub AllCounted : List (Port C) → Type 0
  AllCounted ps = (k : ℕ) (p : Port C) → get_elem? ps k ≡ some p → (n : ℕ) × Counted n p.loop

  AllCounted-append :
      (ps : List (Port C)) (q : Port C)
      → AllCounted ps
      → (n : ℕ) × Counted n q.loop
      → AllCounted (ps ++ q ∷ [])
  AllCounted-append [] q all new zero p e = let one : q ≡ p = cc in rw (← one) new
  AllCounted-append [] q all new (suc k) p e = cc
  AllCounted-append (x ∷ ps) q all new zero p e = all 0 p e
  AllCounted-append (x ∷ ps) q all new (suc k) p e =
      AllCounted-append ps q (λ j r h. all (suc j) r h) new k p e

  AllCounted-set :
      (ps : List (Port C)) (j : ℕ) (q : Port C)
      → AllCounted ps
      → (n : ℕ) × Counted n q.loop
      → AllCounted (set ps j q)
  AllCounted-set [] j q all new k p e = cc
  AllCounted-set (x ∷ ps) zero q all new zero p e = let one : q ≡ p = cc in rw (← one) new
  AllCounted-set (x ∷ ps) zero q all new (suc k) p e = all (suc k) p e
  AllCounted-set (x ∷ ps) (suc j) q all new zero p e = all 0 p e
  AllCounted-set (x ∷ ps) (suc j) q all new (suc k) p e =
      AllCounted-set ps j q (λ i r h. all (suc i) r h) new k p e

  abbrev SomeCounted : Option (Loop C) → Type 0
  SomeCounted none = Unit
  SomeCounted (some l) = (n : ℕ) × Counted n l

  SomeCounted-AfterEvent : (n : ℕ) (o : Option (Loop C)) → AfterEvent n o → SomeCounted o
  SomeCounted-AfterEvent n none h = tt
  SomeCounted-AfterEvent n (some l) h = (n, h)

  port_turn-Counted :
      (e : Event C) (n : ℕ) (p : Port C)
      → Counted n p.loop
      → SomeCounted (port_turn serve close_cli e p)
  unfolding port_turn
  port_turn-Counted (arrives c) n p h = elim (Bool-cases p.is_open) [
    | inr closed ↦ rw (port_turn, closed) tt
    | inl open_ ↦
        rw (port_turn, open_)
          (SomeCounted-AfterEvent (n + 1) _ (turn-Counted serve close_cli (arrives c) n p.loop h))
  ]
  port_turn-Counted accept_error n p h =
      SomeCounted-AfterEvent (n + 0) _ (turn-Counted serve close_cli accept_error n p.loop h)
  port_turn-Counted (ends i) n p h =
      SomeCounted-AfterEvent (n + 0) _ (turn-Counted serve close_cli (ends i) n p.loop h)

  abbrev AfterStep : Option (Service C) → Type 0
  AfterStep none = Unit
  AfterStep (some s) = AllCounted s.ports

  put_loop-AllCounted :
      (j : ℕ) (p : Port C) (o : Option (Loop C)) (s : Service C)
      → AllCounted s.ports
      → SomeCounted o
      → AfterStep (put_loop serve close_cli j p o s)
  unfolding put_loop
  put_loop-AllCounted j p none s all h = tt
  put_loop-AllCounted j p (some l) s all h = AllCounted-set s.ports j (record p { loop = l }) all h

  at_port-AllCounted :
      (j : ℕ) (e : Event C) (o : Option (Port C)) (s : Service C)
      → get_elem? s.ports j ≡ o
      → AllCounted s.ports
      → AfterStep (at_port serve close_cli j e o s)
  unfolding at_port
  at_port-AllCounted j e none s found all = tt
  at_port-AllCounted j e (some p) s found all =
      let k = all j p found in
      put_loop-AllCounted j p (port_turn serve close_cli e p) s all (port_turn-Counted e k.0 p k.1)

  close_port-AllCounted :
      (j : ℕ) (o : Option (Port C)) (s : Service C)
      → get_elem? s.ports j ≡ o
      → AllCounted s.ports
      → AllCounted (close_port j o s).1.ports
  unfolding close_port
  close_port-AllCounted j none s found all = all
  close_port-AllCounted j (some p) s found all = elim (Bool-cases p.is_open) [
    | inr closed ↦ rw (close_port, closed) all
    | inl open_ ↦
        rw (close_port, open_)
          (AllCounted-set s.ports j (record p { is_open = false }) all (all j p found))
  ]

  close_from-AllCounted :
      (o : Option ℕ) (s : Service C) → AllCounted s.ports → AllCounted (close_from o s).1.ports
  unfolding close_from
  close_from-AllCounted none s all = all
  close_from-AllCounted (some j) s all = close_port-AllCounted j (get_elem? s.ports j) s refl all

  run-AllCounted :
      (o : Option Error) (s : Service C) → AllCounted s.ports → AllCounted (run o s).1.ports
  unfolding run
  run-AllCounted (some e) s all = all
  run-AllCounted none s all =
      AllCounted-append s.ports (record { is_open = true; loop = begin }) all
        (0, (Reached-counts serve close_cli Reached.start).0)

  step-AllCounted :
      (a : Act C) (s : Service C) → AllCounted s.ports → AfterStep (step serve close_cli a s)
  unfolding step close
  step-AllCounted (runs e) s all = run-AllCounted e s all
  step-AllCounted closes s all = close_from-AllCounted s.closer s all
  step-AllCounted (at j e) s all = at_port-AllCounted j e (get_elem? s.ports j) s refl all

  pub Follows-AllCounted :
      {s : Service C} → Follows serve close_cli new_service s → AllCounted s.ports
  Follows-AllCounted same = λ k p e. cc
  Follows-AllCounted (later {t} a r e) =
      subst (λ o. AfterStep o) e (step-AllCounted a t (Follows-AllCounted r))
