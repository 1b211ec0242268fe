-- ===== src/Czar/Mux/Invariant.antt =====
-- The invariant of a multiplexer: the table and the ids in use agree, and no channel of an Err is
-- closed before an error is stored.
use daze.Base.{
  ℕ, zero, suc, ◌<◌, ◌≡◌, refl, ap, sym, ◌∙◌, ◌⊎◌, inl, inr, true, false, Option, some, List, [],
  ◌∷◌, ◌++◌, arith, Outcome, ok, fail, panic, length, get_elem?, get_elem?-append_old, set, ◌==◌,
  Bool-cases, get_elem?-set_self, get_elem?-set_ne, length-set, ==_iff,
}
use mathlib.Core.Path.{subst, subst₂}
use daze.Czar.Sip.{Sip, bit, IsPool}
use daze.Czar.Err.{IsOnce}
use daze.Czar.Mux.{Stream, Table, Mux}

abbrev pub AreOnce : Stream → Type 0
AreOnce s = IsOnce s.rer × IsOnce s.wer

-- What stands at place `i` of the table: a stream of that id, and the id is in use as long as the
-- stream has not given it back.
pub record Holds (t : Table) (i p : ℕ) : Type 0 where
  pub stream : Stream
  pub found : get_elem? t.heap p ≡ some stream
  pub same : stream.idx ≡ i
  pub used : stream.zo1 ≡ false → bit t.idp i ≡ true

pub record IsSound (t : Table) : Type 0 where
  pub pool : IsPool t.idp
  pub size : length t.usb ≡ 256
  pub slots : (i p : ℕ) → get_elem? t.usb i ≡ some (some p) → Holds t i p
  pub once : (p : ℕ) (s : Stream) → get_elem? t.heap p ≡ some s → AreOnce s

-- Every place of the table has a stream, as on the server.
abbrev pub IsFull : Table → Type 0
IsFull t = (i : ℕ) → i < 256 → (p : ℕ) × (get_elem? t.usb i ≡ some (some p))

pub get_elem?-length {ℓ} :
    {A : Type ℓ} (xs : List A) (i : ℕ) (x : A) → get_elem? xs i ≡ some x → i < length xs
get_elem?-length [] i x h = cc
get_elem?-length (y ∷ ys) zero x h = omega arith
get_elem?-length (y ∷ ys) (suc i) x h = omega (arith, get_elem?-length ys i x h)

pub get_elem?-append_new {ℓ} :
    {A : Type ℓ} (xs : List A) (x : A) → get_elem? (xs ++ x ∷ []) (length xs) ≡ some x
get_elem?-append_new [] x = refl
get_elem?-append_new (y ∷ xs) x = get_elem?-append_new xs x

-- The elements of a list to which one is added.
get_elem?-append_cases {ℓ} :
    {A : Type ℓ} (xs : List A) (x y : A) (i : ℕ)
    → get_elem? (xs ++ x ∷ []) i ≡ some y
    → (get_elem? xs i ≡ some y) ⊎ (y ≡ x)
get_elem?-append_cases [] x y zero h = inr (ground arith)
get_elem?-append_cases [] x y (suc i) h = cc
get_elem?-append_cases (z ∷ xs) x y zero h = inl h
get_elem?-append_cases (z ∷ xs) x y (suc i) h = get_elem?-append_cases xs x y i h

-- The elements of a list in which one is replaced, and what becomes of an element.
get_elem?-set_cases {ℓ} :
    {A : Type ℓ} (xs : List A) (p q : ℕ) (x y : A)
    → get_elem? (set xs p x) q ≡ some y
    → (y ≡ x) ⊎ (get_elem? xs q ≡ some y)
get_elem?-set_cases [] p q x y h = cc
get_elem?-set_cases (z ∷ xs) zero zero x y h = inl (ground arith)
get_elem?-set_cases (z ∷ xs) zero (suc q) x y h = inr h
get_elem?-set_cases (z ∷ xs) (suc p) zero x y h = inr h
get_elem?-set_cases (z ∷ xs) (suc p) (suc q) x y h = get_elem?-set_cases xs p q x y h

pub eq_of_found :
    (h : List Stream) (p q : ℕ) (s s' : Stream)
    → p ≡ q
    → get_elem? h p ≡ some s
    → get_elem? h q ≡ some s'
    → s ≡ s'
eq_of_found h p q s s' e a b = cc

pub same_slot :
    (u : List (Option ℕ)) (i j p q : ℕ)
    → i ≡ j
    → get_elem? u i ≡ some (some p)
    → get_elem? u j ≡ some (some q)
    → p ≡ q
same_slot u i j p q e a b = cc

module _ (t : Table) (v : IsSound t) where
  -- A stream is replaced by one that keeps the id and takes back no return of it.
  pub store-IsSound :
      (p : ℕ) (s s' : Stream)
      → get_elem? t.heap p ≡ some s
      → s'.idx ≡ s.idx
      → (s'.zo1 ≡ false → s.zo1 ≡ false)
      → AreOnce s'
      → IsSound (record t { heap = set t.heap p s' })
  store-IsSound p s s' e same keep once = record {
    pool = v.pool;
    size = v.size;
    slots = λ i q h. moved i q (v.slots i q h) (Bool-cases (p == q));
    once = λ q x h. kept q x (get_elem?-set_cases t.heap p q s' x h);
  }
    where
      kept : (q : ℕ) (x : Stream) → (x ≡ s') ⊎ (get_elem? t.heap q ≡ some x) → AreOnce x
      kept q x (inl e') = subst (λ x. AreOnce x) (sym e') once
      kept q x (inr h) = v.once q x h

      moved :
          (i q : ℕ)
          → Holds t i q
          → ((p == q) ≡ true) ⊎ ((p == q) ≡ false)
          → Holds (record t { heap = set t.heap p s' }) i q
      moved i q h (inl eq) =
          let pq : p ≡ q = (==_iff p q).0 eq in
          let ss : s ≡ h.stream = eq_of_found t.heap p q s h.stream pq e h.found in
          record {
            stream = s';
            found =
                subst (λ z. get_elem? (set t.heap p s') z ≡ some s') pq
                  (get_elem?-set_self t.heap p s' (get_elem?-length t.heap p s e));
            same = same ∙ ap (λ x. x.idx) ss ∙ h.same;
            used = λ z. h.used (ap (λ x. x.zo1) (sym ss) ∙ keep z);
          }
      moved i q h (inr ne) = record {
        stream = h.stream;
        found = get_elem?-set_ne t.heap p q s' (ground arith) ∙ h.found;
        same = h.same;
        used = h.used;
      }

  -- The ids in use change, but no id is freed that a stream of the table still owns.
  pub ids-IsSound :
      (idp : Sip)
      → IsPool idp
      → ((i p : ℕ) (s : Stream)
          → get_elem? t.usb i ≡ some (some p)
          → get_elem? t.heap p ≡ some s
          → s.zo1 ≡ false
          → bit t.idp i ≡ true
          → bit idp i ≡ true)
      → IsSound (record t { idp = idp })
  ids-IsSound idp pool keep = record {
    pool = pool;
    size = v.size;
    slots = λ i p h.
        let w = v.slots i p h in
        record {
          stream = w.stream;
          found = w.found;
          same = w.same;
          used = λ z. keep i p w.stream h w.found z (w.used z);
        };
    once = v.once;
  }

  -- A new stream in the store.
  pub alloc-IsSound : (s : Stream) → AreOnce s → IsSound (record t { heap = t.heap ++ s ∷ [] })
  alloc-IsSound s once = record {
    pool = v.pool;
    size = v.size;
    slots = λ i p h.
        let w = v.slots i p h in
        record {
          stream = w.stream;
          found = get_elem?-append_old t.heap (s ∷ []) p w.stream w.found;
          same = w.same;
          used = w.used;
        };
    once = λ p x h. kept p x (get_elem?-append_cases t.heap s x p h);
  }
    where
      kept : (p : ℕ) (x : Stream) → (get_elem? t.heap p ≡ some x) ⊎ (x ≡ s) → AreOnce x
      kept p x (inl h) = v.once p x h
      kept p x (inr e) = subst (λ x. AreOnce x) (sym e) once

  -- A stream of the store at a place of the table.
  pub set_slot-IsSound : (i p : ℕ) → Holds t i p → IsSound (record t { usb = set t.usb i (some p) })
  set_slot-IsSound i p w = record {
    pool = v.pool;
    size = length-set t.usb i (some p) ∙ v.size;
    slots = λ j q h. moved j q h (Bool-cases (i == j));
    once = v.once;
  }
    where
      moved :
          (j q : ℕ)
          → get_elem? (set t.usb i (some p)) j ≡ some (some q)
          → ((i == j) ≡ true) ⊎ ((i == j) ≡ false)
          → Holds (record t { usb = set t.usb i (some p) }) j q
      moved j q h (inl eq) =
          let ij : i ≡ j = (==_iff i j).0 eq in
          let lt : i < length t.usb = omega (
            arith,
            get_elem?-length (set t.usb i (some p)) j (some q) h,
            length-set t.usb i (some p),
          ) in
          let here = get_elem?-set_self t.usb i (some p) lt in
          let pq : p ≡ q = same_slot (set t.usb i (some p)) i j p q ij here h in
          subst₂ (λ j q. Holds (record t { usb = set t.usb i (some p) }) j q) ij pq
            (record { stream = w.stream; found = w.found; same = w.same; used = w.used })
      moved j q h (inr ne) =
          let w = v.slots j q (sym (get_elem?-set_ne t.usb i j (some p) (ground arith)) ∙ h) in
          record { stream = w.stream; found = w.found; same = w.same; used = w.used }

-- The invariant of the whole, and what a run of a handler comes to that keeps it: no error and no
-- panic, and `Q` of the value.
pub record IsValid (m : Mux) : Type 0 where
  pub sound : IsSound m.tab
  pub once : IsOnce m.rer

abbrev pub Keeps : {A : Type 0} → (A → Mux → Type 0) → Outcome A × Mux → Type 0
Keeps Q (ok a, m) = IsValid m × Q a m
Keeps Q (fail e, m) = ⊥
Keeps Q (panic, m) = ⊥

-- What later steps of a handler rely on: the stream `p` is still there, with its id, and if it had
-- given back the id it still has.
pub record Stays (m m' : Mux) : Type 0 where
  pub slots : m'.tab.usb ≡ m.tab.usb
  pub unread : m'.con.inp ≡ m.con.inp
  pub streams :
      (p : ℕ) (s : Stream)
      → get_elem? m.tab.heap p ≡ some s
      → (s' : Stream) × (get_elem? m'.tab.heap p ≡ some s')
        × (s'.idx ≡ s.idx)
        × (s.zo1 ≡ true → s'.zo1 ≡ true)

pub Stays-refl : (m : Mux) → Stays m m
Stays-refl m = record { slots = refl; unread = refl; streams = λ p s h. (s, h, refl, λ z. z) }

pub Stays-trans : (a b c : Mux) → Stays a b → Stays b c → Stays a c
Stays-trans a b c x y = record {
  slots = y.slots ∙ x.slots;
  unread = y.unread ∙ x.unread;
  streams = λ p s h.
      let (s', h', i', z') = x.streams p s h in
      let (s'', h'', i'', z'') = y.streams p s' h' in (s'', h'', i'' ∙ i', λ z. z'' (z' z));
}
