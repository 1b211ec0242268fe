-- ===== src/Czar/Client/Upkeep.antt =====
-- How well Client.Run of protocol/czar/engine.go keeps its connection.
use daze.Base.{
  ℕ, zero, suc, ◌+◌, ◌≤◌, ◌<◌, ◌^◌, ◌≡◌, refl, sym, min, Option, none, some, List, [], ◌∷◌, arith,
}
use mathlib.Core.Path.{subst}
use daze.Czar.Client.{
  Phase, dialling, serving, stopped, Client, Event, waited, cancelled_waiting, connected, taken,
  broken, cancelled, new_client, turn, turn_at, Reached, begin, go_on,
}

-- The numbers below `n`, the largest first.
abbrev pub below : ℕ → List ℕ
below zero = []
below (suc n) = n ∷ below n

abbrev pub AllBelow : ℕ → List ℕ → Type 0
AllBelow n [] = Unit
AllBelow n (k ∷ ks) = (k < n) × AllBelow n ks

-- Which connections are closed in a phase: all, or all but the last, which is `mux`.
abbrev pub Closed : Phase → Client → Type 0
Closed dialling c = c.shut ≡ below c.made
Closed serving c = (c.made ≡ suc c.mux) × (c.shut ≡ below c.mux)
Closed stopped c = c.shut ≡ below c.made

pub record Kept (c : Client) : Type 0 where
  pub closed : Closed c.sid c
  pub slow : c.rtt ≤ 5
  pub patient : AllBelow 33 c.waits
  pub known : AllBelow c.made c.given

pow_le : (n : ℕ) → n ≤ 5 → 2 ^ n < 33
pow_le zero h = omega arith
pow_le (suc zero) h = omega arith
pow_le (suc (suc zero)) h = omega arith
pow_le (suc (suc (suc zero))) h = omega arith
pow_le (suc (suc (suc (suc zero)))) h = omega arith
pow_le (suc (suc (suc (suc (suc zero))))) h = omega arith
pow_le (suc (suc (suc (suc (suc (suc n)))))) h = absurd (omega (arith, h))

AllBelow-suc : (n : ℕ) (ks : List ℕ) → AllBelow n ks → AllBelow (suc n) ks
AllBelow-suc n [] h = tt
AllBelow-suc n (k ∷ ks) h = (omega (arith, h.0), AllBelow-suc n ks h.1)

mux_shut : (c : Client) → Closed serving c → c.mux ∷ c.shut ≡ below c.made
mux_shut c now = rw (now.0, now.1) refl

-- What holds of the state that comes next, if one does.
abbrev After : Option Client → Type 0
After none = Unit
After (some c) = Kept c

turn_at-Kept : (s : Phase) (e : Event) (c : Client) → c.sid ≡ s → Kept c → After (turn_at s e c)
unfolding turn_at
turn_at-Kept dialling waited c h k = record {
  closed =
      subst (λ s. Closed s (record c { rtt = min (c.rtt + 1) 5; waits = 2 ^ c.rtt ∷ c.waits }))
        (sym h) (subst (λ s. Closed s c) h k.closed);
  slow = omega arith;
  patient = (pow_le c.rtt k.slow, k.patient);
  known = k.known;
}
turn_at-Kept dialling cancelled_waiting c h k = record {
  closed = subst (λ s. Closed s c) h k.closed;
  slow = k.slow;
  patient = k.patient;
  known = k.known;
}
turn_at-Kept dialling connected c h k = record {
  closed = (refl, subst (λ s. Closed s c) h k.closed);
  slow = omega arith;
  patient = k.patient;
  known = AllBelow-suc c.made c.given k.known;
}
turn_at-Kept dialling taken c h k = tt
turn_at-Kept dialling broken c h k = tt
turn_at-Kept dialling cancelled c h k = tt
turn_at-Kept serving waited c h k = tt
turn_at-Kept serving cancelled_waiting c h k = tt
turn_at-Kept serving connected c h k = tt
turn_at-Kept serving taken c h k =
    let now = subst (λ s. Closed s c) h k.closed in
    record {
      closed = subst (λ s. Closed s (record c { given = c.mux ∷ c.given })) (sym h) now;
      slow = k.slow;
      patient = k.patient;
      known = (omega (arith, now.0), k.known);
    }
turn_at-Kept serving broken c h k =
    let now = subst (λ s. Closed s c) h k.closed in
    record { closed = mux_shut c now; slow = k.slow; patient = k.patient; known = k.known }
turn_at-Kept serving cancelled c h k =
    let now = subst (λ s. Closed s c) h k.closed in
    record { closed = mux_shut c now; slow = k.slow; patient = k.patient; known = k.known }
turn_at-Kept stopped waited c h k = tt
turn_at-Kept stopped cancelled_waiting c h k = tt
turn_at-Kept stopped connected c h k = tt
turn_at-Kept stopped taken c h k = tt
turn_at-Kept stopped broken c h k = tt
turn_at-Kept stopped cancelled c h k = tt

new_client-Kept : Kept new_client
new_client-Kept = record { closed = refl; slow = omega arith; patient = tt; known = tt }

-- However its events come, Run has closed every connection that it has made, but for the one that
-- it is handing out, and that one just while it is serving; the waits are at most 32 seconds each;
-- and only connections that were made have been handed out.
pub Reached-Kept : (c : Client) → Reached c → Kept c
unfolding turn
Reached-Kept c begin = new_client-Kept
Reached-Kept c' (go_on e {c} before t) =
    subst After t (turn_at-Kept c.sid e c refl (Reached-Kept c before))
