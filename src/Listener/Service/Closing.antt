-- ===== src/Listener/Service/Closing.antt =====
-- What Close does to the accept loop that Run has started.
use daze.Base.{
  ℕ, ◌≡◌, ◌≢◌, refl, sym, ◌∙◌, true, false, Option, none, some, Outcome, ok, ◌+◌, get_elem?, set,
  get_elem?-set_ne, get_elem?-set_found, get_elem?-append_old, Bool-cases, inl, inr, ◌==◌, ==_iff,
}
use mathlib.Core.Path.{subst}
use native.Mathlib.Nat.{add-zero}
use daze.Listener.{Loop, Event, arrives, accept_error, ends, turn}
use daze.Listener.Counting.{Counted, AfterEvent, turn-Counted}
use daze.Listener.Service.Counts.{Follows-AllCounted}
use daze.Listener.Service.{
  new_service, Port, Service, run, close_port, close_from, close, Act, runs, closes, at, port_turn,
  put_loop, at_port, step, Follows, same, later,
}

module _ {C : Type 0} (serve : C → Outcome (Unit {0}) × C) (close_cli : C → C) where
  -- A listener that is closed and whose loop has counted `n` connections.
  pub record Shut (k n : ℕ) (s : Service C) : Type 0 where
    pub port : Port C
    pub found : get_elem? s.ports k ≡ some port
    pub shut : port.is_open ≡ false
    pub counted : Counted n port.loop

  abbrev After : ℕ → ℕ → Option (Service C) → Type 0
  After k n none = Unit
  After k n (some s) = Shut k n s

  port_turn-Still :
      (e : Event C) (n : ℕ) (p : Port C)
      → p.is_open ≡ false
      → Counted n p.loop
      → AfterEvent n (port_turn serve close_cli e p)
  unfolding port_turn
  port_turn-Still (arrives c) n p h k = rw (port_turn, h) tt
  port_turn-Still accept_error n p h k =
      let r : AfterEvent (n + 0) (turn serve close_cli accept_error p.loop) =
        turn-Counted serve close_cli accept_error n p.loop k in
      rw add-zero at r
  port_turn-Still (ends i) n p h k =
      let r : AfterEvent (n + 0) (turn serve close_cli (ends i) p.loop) =
        turn-Counted serve close_cli (ends i) n p.loop k in
      rw add-zero at r

  set-Shut :
      (k n j : ℕ) (p p' : Port C) (s : Service C)
      → Shut k n s
      → get_elem? s.ports j ≡ some p
      → (p.is_open ≡ false → Counted n p.loop → (p'.is_open ≡ false) × Counted n p'.loop)
      → Shut k n (record s { ports = set s.ports j p' })
  set-Shut k n j p p' s f found new = elim (Bool-cases (j == k)) [
    | inr other ↦
        let apart : j ≢ k = λ e. let both : true ≡ false = sym ((==_iff j k).1 e) ∙ other in cc in
        record {
          port = f.port;
          found = get_elem?-set_ne s.ports j k p' apart ∙ f.found;
          shut = f.shut;
          counted = f.counted;
        }
    | inl here ↦
        let eq : j ≡ k = (==_iff j k).0 here in
        let one : p ≡ f.port = let both : some p ≡ some f.port = sym found ∙ rw eq f.found in cc in
        let after = new (rw one f.shut) (rw one f.counted) in
        record {
          port = p';
          found = rw (← eq) (get_elem?-set_found s.ports j p p' found);
          shut = after.0;
          counted = after.1;
        }
  ]

  put_loop-Shut :
      (k n j : ℕ) (p : Port C) (o : Option (Loop C)) (s : Service C)
      → Shut k n s
      → get_elem? s.ports j ≡ some p
      → (p.is_open ≡ false → Counted n p.loop → AfterEvent n o)
      → After k n (put_loop serve close_cli j p o s)
  unfolding put_loop
  put_loop-Shut k n j p none s f found new = tt
  put_loop-Shut k n j p (some l) s f found new =
      set-Shut k n j p (record p { loop = l }) s f found (λ h c. (h, new h c))

  at_port-Shut :
      (k n j : ℕ) (e : Event C) (o : Option (Port C)) (s : Service C)
      → get_elem? s.ports j ≡ o
      → Shut k n s
      → After k n (at_port serve close_cli j e o s)
  unfolding at_port
  at_port-Shut k n j e none s found f = tt
  at_port-Shut k n j e (some p) s found f =
      put_loop-Shut k n j p (port_turn serve close_cli e p) s f found
        (λ h c. port_turn-Still e n p h c)

  close_port-Shut :
      (k n j : ℕ) (o : Option (Port C)) (s : Service C)
      → get_elem? s.ports j ≡ o
      → Shut k n s
      → Shut k n (close_port j o s).1
  unfolding close_port
  close_port-Shut k n j none s found f = f
  close_port-Shut k n j (some p) s found f = elim (Bool-cases p.is_open) [
    | inr closed ↦ rw (close_port, closed) f
    | inl open_ ↦
        rw (close_port, open_)
          (set-Shut k n j p (record p { is_open = false }) s f found (λ h c. (refl, c)))
  ]

  close_from-Shut :
      (k n : ℕ) (o : Option ℕ) (s : Service C) → Shut k n s → Shut k n (close_from o s).1
  unfolding close_from
  close_from-Shut k n none s f = f
  close_from-Shut k n (some j) s f = close_port-Shut k n j (get_elem? s.ports j) s refl f

  run-Shut : (k n : ℕ) (o : Option _) (s : Service C) → Shut k n s → Shut k n (run o s).1
  unfolding run
  run-Shut k n (some e) s f = f
  run-Shut k n none s f = record {
    port = f.port;
    found = get_elem?-append_old s.ports _ k f.port f.found;
    shut = f.shut;
    counted = f.counted;
  }

  step-Shut :
      (a : Act C) (k n : ℕ) (s : Service C) → Shut k n s → After k n (step serve close_cli a s)
  unfolding step close
  step-Shut (runs e) k n s f = run-Shut k n e s f
  step-Shut closes k n s f = close_from-Shut k n s.closer s f
  step-Shut (at j e) k n s f = at_port-Shut k n j e (get_elem? s.ports j) s refl f

  Follows-Shut : {k n : ℕ} {s t : Service C} → Follows serve close_cli s t → Shut k n s → Shut k n t
  Follows-Shut same f = f
  Follows-Shut {k} {n} (later {t} a r e) f =
      subst (λ o. After k n o) e (step-Shut a k n t (Follows-Shut r f))

  -- Close of a server whose last listener, that of its Closer, is still open, with whatever runs,
  -- closes and events came before: it succeeds; and whatever comes then, further runs and closes
  -- included, the listener stays closed and its loop accepts no connection any more: the counter and
  -- the Cids given out stay as they are, and the connections that are being served are served on,
  -- until each is closed, unless a handler has panicked.
  pub close-Shut :
      {s t : Service C} (k : ℕ) (p : Port C)
      → Follows serve close_cli new_service s
      → s.closer ≡ some k
      → get_elem? s.ports k ≡ some p
      → p.is_open ≡ true
      → Follows serve close_cli (close s).1 t
      → ((close s).0 ≡ ok tt) × (n : ℕ) × Counted n p.loop × Shut k n t
  unfolding close close_from close_port
  close-Shut {s} {t} k p r closer found open_ after =
      let c = Follows-AllCounted serve close_cli r k p found in
      let shut : Shut k c.0 (close s).1 =
        rw (close, close_from, closer, close_port, found, open_)
          (record {
            port = record p { is_open = false };
            found = get_elem?-set_found s.ports k p _ found;
            shut = refl;
            counted = c.1;
          }) in
      (
        rw (close, close_from, closer, close_port, found, open_) refl,
        c.0,
        c.1,
        Follows-Shut after shut,
      )
