-- ===== src/Czar/Mux/Wither.antt =====
-- NewWither and the table of withered streams that NewMuxServer starts with.
use daze.Base.{
  ℕ, zero, suc, ◌+◌, ◌<◌, ◌≡◌, refl, ap, sym, ◌∙◌, inl, inr, true, Option, none, some, [], ◌∷◌,
  ◌++◌, arith, Outcome, ok, fail, panic, length, get_elem?, replicate, set, ◌==◌, Bool-cases,
  get_elem?-set_self, get_elem?-set_ne, ==_iff,
}
use mathlib.Core.Path.{subst}
use mathlib.Core.Bool.{true≢false}
use daze.Base.State.{and_then, pure, ◌>>◌}
use daze.Czar.Mux.{
  Stream, Wire, Mux, set_slot, stream_of, alloc, new_wither, close, fill_withers, new_mux,
  new_mux_server,
}
use daze.Czar.Mux.Invariant.{
  Holds, IsFull, IsValid, Keeps, alloc-IsSound, set_slot-IsSound, get_elem?-append_new,
}
use daze.Czar.Mux.Safety.{Fine, close-Fine}

-- A withered stream can stand anywhere in the table: it owns no id.
pub new_wither-Keeps :
    (i : ℕ) (m : Mux)
    → IsValid m
    → Keeps
        (λ q m'. (m'.tab.usb ≡ m.tab.usb) × (m'.con.inp ≡ m.con.inp) × Holds m'.tab i q)
        (new_wither i m)
unfolding new_wither alloc
new_wither-Keeps i m v =
    go (close (length m.tab.heap) m1) (close-Fine (length m.tab.heap) m1 s v1 found)
  where
    s : Stream
    s = record (stream_of i) { zo0 = true; zo1 = true }

    m1 : Mux
    m1 = record m { tab = record (m.tab) { heap = m.tab.heap ++ s ∷ [] } }

    v1 : IsValid m1
    v1 = record { sound = alloc-IsSound m.tab v.sound s (λ z. refl, λ z. refl); once = v.once }

    found : get_elem? m1.tab.heap (length m.tab.heap) ≡ some s
    found = get_elem?-append_new m.tab.heap s

    go :
        (r : Outcome (Unit {0}) × Mux)
        → Fine m1 r
        → Keeps
            (λ q m'. (m'.tab.usb ≡ m.tab.usb) × (m'.con.inp ≡ m.con.inp) × Holds m'.tab i q)
            (and_then r (λ _. pure (length m.tab.heap)))
    go (ok _, m') (v', st) =
        let (s', e', same, keep) = st.streams (length m.tab.heap) s found in
        (
          v',
          (
            st.slots,
            st.unread,
            record {
              stream = s';
              found = e';
              same = same;
              used = λ z. absurd (true≢false (sym (keep refl) ∙ z));
            },
          ),
        )
    go (fail e, m') h = h
    go (panic, m') h = h

-- The server's table after the first `i` places are filled.
record IsFilling (i : ℕ) (m : Mux) : Type 0 where
  valid : IsValid m
  filled : (j : ℕ) → j < i → (p : ℕ) × (get_elem? m.tab.usb j ≡ some (some p))

placed-IsFilling :
    (i q : ℕ) (m m' : Mux)
    → i < 256
    → IsFilling i m
    → IsValid m'
    → m'.tab.usb ≡ m.tab.usb
    → Holds m'.tab i q
    → IsFilling (i + 1) (record m' { tab = record (m'.tab) { usb = set m'.tab.usb i (some q) } })
placed-IsFilling i q m m' lt v valid slots h = record {
  valid = record { sound = set_slot-IsSound m'.tab valid.sound i q h; once = valid.once };
  filled = λ j below. elim (Bool-cases (i == j)) [
    | inl eq ↦ (
      q,
      subst (λ z. get_elem? (set m'.tab.usb i (some q)) z ≡ some (some q)) ((==_iff i j).0 eq)
          (get_elem?-set_self m'.tab.usb i (some q) (omega (arith, valid.sound.size))),
    )
    | inr ne ↦
        let (p, here) = v.filled j (ground arith) in
        (
          p,
          get_elem?-set_ne m'.tab.usb i j (some q) (ground arith)
              ∙ ap (λ u. get_elem? u j) slots
              ∙ here,
        )
  ];
}

abbrev pub Filled : Wire → Outcome (Unit {0}) × Mux → Type 0
Filled con = Keeps (λ _ m. IsFull m.tab × (m.con.inp ≡ con.inp))

filled-IsFull : (i : ℕ) (m : Mux) → i ≡ 256 → IsFilling i m → IsFull m.tab
filled-IsFull i m e v j lt = v.filled j (omega arith)

fill-Filled :
    (n i : ℕ) (con : Wire) (m : Mux)
    → i + n ≡ 256
    → IsFilling i m
    → m.con.inp ≡ con.inp
    → Filled con (fill_withers n i m)
unfolding fill_withers set_slot
fill-Filled zero i con m e v h = (v.valid, (filled-IsFull i m (omega arith) v, h))
fill-Filled (suc n) i con m e v h =
    go (fill-Filled n (i + 1) con) (new_wither i m) (new_wither-Keeps i m v.valid)
  where
    go :
        ((m' : Mux)
          → i + 1 + n ≡ 256
          → IsFilling (i + 1) m'
          → m'.con.inp ≡ con.inp
          → Filled con (fill_withers n (i + 1) m'))
        → (r : Outcome ℕ × Mux)
        → Keeps (λ q m'. (m'.tab.usb ≡ m.tab.usb) × (m'.con.inp ≡ m.con.inp) × Holds m'.tab i q) r
        → Filled con (and_then r (λ p. set_slot i p >> fill_withers n (i + 1)))
    go rec (ok q, m') (valid, (slots, unread, w)) =
        rec _ (omega arith) (placed-IsFilling i q m m' (omega arith) v valid slots w) (unread ∙ h)
    go rec (fail x, m') w = w
    go rec (panic, m') w = w

pub nothing_there : (n i p : ℕ) → get_elem? {A = Option ℕ} (replicate n none) i ≡ some (some p) → ⊥
nothing_there zero i p h = cc
nothing_there (suc n) zero p h = cc
nothing_there (suc n) (suc i) p h = nothing_there n i p h

pub new_mux-IsValid : (con : Wire) → IsValid (new_mux con)
new_mux-IsValid con = record {
  sound = record {
    pool = omega arith;
    size = refl;
    slots = λ i p h. absurd (nothing_there 256 i p h);
    once = λ p s h. cc;
  };
  once = λ h. refl;
}

-- A new server has a withered stream for every id.
pub new_mux_server-IsFull : (con : Wire) → Filled con (new_mux_server con)
unfolding new_mux_server
new_mux_server-IsFull con =
    fill-Filled 256 0 con (new_mux con) refl
      (record { valid = new_mux-IsValid con; filled = λ j lt. absurd (omega arith) }) refl
