-- ===== src/Base/State.antt =====
-- Handlers that change a state and may fail: the state is kept when they do.
use daze.Base.{
  Option, none, some, Bool, true, false, Error, Outcome, ok, fail, panic, ◌≡◌, refl, arith,
}

abbrev pub St : Type 0 → Type 0 → Type 0
St S A = S → Outcome A × S

module _ {S : Type 0} where
  abbrev pub pure : {A : Type 0} → A → St S A
  pure a s = (ok a, s)

  abbrev pub raise : {A : Type 0} → Error → St S A
  raise e s = (fail e, s)

  abbrev pub crash : {A : Type 0} → St S A
  crash s = (panic, s)

  abbrev pub get_state : St S S
  get_state s = (ok s, s)

  -- doa.Doa of lib/doa/doa.go: a panic unless the condition holds.
  abbrev pub doa : Bool → St S (Unit {0})
  doa true s = (ok tt, s)
  doa false s = (panic, s)

  -- doa.Nil: a panic on an error.
  abbrev pub doa_nil : Option Error → St S (Unit {0})
  doa_nil none s = (ok tt, s)
  doa_nil (some e) s = (panic, s)

  -- An error, if there is one.
  abbrev pub raise_some : Option Error → St S (Unit {0})
  raise_some none s = (ok tt, s)
  raise_some (some e) s = (fail e, s)

  -- An outcome that neither reads nor changes the state.
  abbrev pub lift : {A : Type 0} → Outcome A → St S A
  lift r s = (r, s)

  abbrev pub and_then : {A B : Type 0} → Outcome A × S → (A → St S B) → Outcome B × S
  and_then (ok a, s) k = k a s
  and_then (fail e, s) k = (fail e, s)
  and_then (panic, s) k = (panic, s)

  -- A result and an error that the code does not use.
  abbrev pub ignore_result : {A : Type 0} → Outcome A × S → Outcome (Unit {0}) × S
  ignore_result (ok a, s) = (ok tt, s)
  ignore_result (fail e, s) = (ok tt, s)
  ignore_result (panic, s) = (panic, s)

  infixl 5 ◌>>=◌ ◌>>◌
  abbrev pub ◌>>=◌ : {A B : Type 0} → St S A → (A → St S B) → St S B
  ◌>>=◌ m k s = and_then (m s) k

  abbrev pub ◌>>◌ : {B : Type 0} → St S (Unit {0}) → St S B → St S B
  m >> k = m >>= λ _. k

  abbrev pub ignoring : {A : Type 0} → St S A → St S (Unit {0})
  ignoring m s = ignore_result (m s)

  pub and_then-pure :
      {A B : Type 0} (r : Outcome A × S) (f : A → B) (a : A)
      → r.0 ≡ ok a
      → (and_then r (λ x. pure (f x))).0 ≡ ok (f a)
  and_then-pure (ok b, s) f a h = ground arith
  and_then-pure (fail e, s) f a h = cc
  and_then-pure (panic, s) f a h = cc

  pub and_then-panic :
      {A B : Type 0} (r : Outcome A × S) (k : A → St S B) → r.0 ≡ panic → (and_then r k).0 ≡ panic
  and_then-panic (ok b, s) k h = cc
  and_then-panic (fail e, s) k h = cc
  and_then-panic (panic, s) k h = refl

  pub and_then-pure_state :
      {A B : Type 0} (r : Outcome A × S) (f : A → B) → (and_then r (λ x. pure (f x))).1 ≡ r.1
  and_then-pure_state (ok b, s) f = refl
  and_then-pure_state (fail e, s) f = refl
  and_then-pure_state (panic, s) f = refl
