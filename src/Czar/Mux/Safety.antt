-- ===== src/Czar/Mux/Safety.antt =====
-- The operations on streams keep the invariant and do not panic.
use mathlib.Core.Path.{subst}
use mathlib.Core.Bool.{true≢false}
use daze.Base.{
  ℕ, zero, suc, ◌<◌, ◌≡◌, refl, ap, sym, ◌∙◌, ◌⊎◌, inl, inr, Bool, true, false, some, List, [], ◌∷◌,
  ◌++◌, arith, Error, Outcome, ok, fail, panic, eof, closed_pipe, get_elem?, set, ◌==◌,
  if◌then◌else◌, Bool-cases, get_elem?-set_self, get_elem?-set_ne, ==_iff,
}
use daze.Base.State.{St, ignore_result, and_then, ignoring, ◌>>◌}
use daze.Czar.Sip
use daze.Czar.Sip.{Sip, bit, set_bit, IsPool, bit-set_bit}
use daze.Czar.Err
use daze.Czar.Err.{Err, new_err, IsOnce}
use daze.Czar.Mux.{
  Stream, Wire, Mux, con_write, write_within, store, put_rer, put_wer, tell_once, tell_closed,
  return_once, return_id, close, esolc,
}
use daze.Czar.Mux.Invariant.{
  AreOnce, IsValid, Keeps, Stays, Stays-refl, Stays-trans, store-IsSound, ids-IsSound,
  get_elem?-length, eq_of_found, same_slot,
}

-- What an operation of a stream comes to.
abbrev pub Fine : {A : Type 0} → Mux → Outcome A × Mux → Type 0
Fine m r = Keeps (λ _ m'. Stays m m') r

abbrev pub with_heap : Mux → List Stream → Mux
with_heap m h = record m { tab = record (m.tab) { heap = h } }

module _ (m : Mux) (v : IsValid m) (p : ℕ) (s : Stream) (e : get_elem? m.tab.heap p ≡ some s) where
  -- The streams of the store after one is replaced.
  Stays-store :
      (s' : Stream)
      → s'.idx ≡ s.idx
      → (s.zo1 ≡ true → s'.zo1 ≡ true)
      → Stays m (with_heap m (set m.tab.heap p s'))
  Stays-store s' same keep = record {
    slots = refl;
    unread = refl;
    streams = λ q x h. moved q x h (Bool-cases (p == q));
  }
    where
      moved :
          (q : ℕ) (x : Stream)
          → get_elem? m.tab.heap q ≡ some x
          → ((p == q) ≡ true) ⊎ ((p == q) ≡ false)
          → (x' : Stream) × (get_elem? (set m.tab.heap p s') q ≡ some x')
            × (x'.idx ≡ x.idx)
            × (x.zo1 ≡ true → x'.zo1 ≡ true)
      moved q x h (inl eq) =
          let pq : p ≡ q = (==_iff p q).0 eq in
          let sx : s ≡ x = eq_of_found m.tab.heap p q s x pq e h in
          (
            s',
            subst (λ z. get_elem? (set m.tab.heap p s') z ≡ some s') pq
                (get_elem?-set_self m.tab.heap p s' (get_elem?-length m.tab.heap p s e)),
            same ∙ ap (λ x. x.idx) sx,
            λ z. keep (ap (λ x. x.zo1) sx ∙ z),
          )
      moved q x h (inr ne) =
          (x, get_elem?-set_ne m.tab.heap p q s' (ground arith) ∙ h, refl, λ z. z)

  pub store-Fine :
      (s' : Stream) → s'.idx ≡ s.idx → s'.zo1 ≡ s.zo1 → AreOnce s' → Fine m (store p s' m)
  unfolding store
  store-Fine s' same zo once = (
    record {
      sound = store-IsSound m.tab v.sound p s s' e same (λ z. sym zo ∙ z) once;
      once = v.once;
    },
    Stays-store s' same (λ z. zo ∙ z),
  )

  pub put_rer-Fine : (x : Error) → Fine m (put_rer p x m)
  unfolding put_rer
  put_rer-Fine x =
      let once = v.sound.once p s e in
      let (r, put, keeps) = Err.put-ok s.rer x once.0 in
      rw (e, put) (store-Fine (record s { rer = r }) refl refl (keeps, once.1))

  pub put_wer-Fine : (x : Error) → Fine m (put_wer p x m)
  unfolding put_wer
  put_wer-Fine x =
      let once = v.sound.once p s e in
      let (w, put, keeps) = Err.put-ok s.wer x once.1 in
      rw (e, put) (store-Fine (record s { wer = w }) refl refl (once.0, keeps))

module _ (m : Mux) (v : IsValid m) where
  con-Fine :
      {A : Type 0} (c : Wire) (a : A) → c.inp ≡ m.con.inp → Fine m (ok a, record m { con = c })
  con-Fine c a h = (
    record { sound = v.sound; once = v.once },
    record { slots = refl; unread = h; streams = λ p s h. (s, h, refl, λ z. z) },
  )

  same-Fine : {A : Type 0} (a : A) → Fine m (ok a, m)
  same-Fine a = (v, Stays-refl m)

  written-Fine : (bs : List ℕ) (q : ℕ) → Fine m (ignore_result (write_within bs q m))
  unfolding write_within
  written-Fine bs zero = same-Fine tt
  written-Fine bs (suc q) = con-Fine (record (m.con) { out = m.con.out ++ bs; quota = q }) tt refl

  -- A write to the connection touches neither the table nor the error.
  pub con_write-Fine : (bs : List ℕ) → Fine m (ignoring (con_write bs) m)
  unfolding con_write
  con_write-Fine bs = go m.con.closed
    where
      go :
          (b : Bool)
          → Fine m
              (ignore_result (if b then (fail closed_pipe, m) else write_within bs m.con.quota m))
      go true = same-Fine tt
      go false = written-Fine bs m.con.quota

widen : {A : Type 0} (m m' : Mux) (r : Outcome A × Mux) → Stays m m' → Fine m' r → Fine m r
widen m m' (ok b, m'') st w = (w.0, Stays-trans m m' m'' st w.1)
widen m m' (fail e, m'') st w = w
widen m m' (panic, m'') st w = w

-- The composition of two operations of streams.
pub bind-Fine :
    {A B : Type 0} (m : Mux) (r : Outcome A × Mux) (k : A → St Mux B)
    → Fine m r
    → ((a : A) (m' : Mux) → IsValid m' → Stays m m' → Fine m' (k a m'))
    → Fine m (and_then r k)
bind-Fine m (ok a, m') k h next = widen m m' (k a m') h.1 (next a m' h.0 h.1)
bind-Fine m (fail e, m') k h next = h
bind-Fine m (panic, m') k h next = h

module _ (p : ℕ) (m : Mux) (v : IsValid m) (s : Stream) (e : get_elem? m.tab.heap p ≡ some s) where
  tell_once-Fine : (code : ℕ) (b : Bool) → Fine m (tell_once p code s b m)
  unfolding tell_once
  tell_once-Fine code true = same-Fine m v tt
  tell_once-Fine code false =
      bind-Fine m (store p (record s { zo0 = true }) m)
        (λ _. ignoring (con_write (s.idx ∷ 0x02 ∷ code ∷ 0x00 ∷ [])))
        (store-Fine m v p s e (record s { zo0 = true }) refl refl (v.sound.once p s e))
        (λ _ m' v' st. con_write-Fine m' v' (s.idx ∷ 0x02 ∷ code ∷ 0x00 ∷ []))

  pub tell_closed-Fine : (code : ℕ) → Fine m (tell_closed p code m)
  unfolding tell_closed
  tell_closed-Fine code = rw e (tell_once-Fine code s.zo0)

  owned : (i : ℕ) → get_elem? m.tab.usb i ≡ some (some p) → s.idx ≡ i
  owned i u =
      let w = v.sound.slots i p u in
      ap (λ x. x.idx) (eq_of_found m.tab.heap p p s w.stream refl e w.found) ∙ w.same

  in_use :
      (i : ℕ) → get_elem? m.tab.usb i ≡ some (some p) → s.zo1 ≡ false → bit m.tab.idp s.idx ≡ true
  in_use i u z =
      let w = v.sound.slots i p u in
      let same : s ≡ w.stream = eq_of_found m.tab.heap p p s w.stream refl e w.found in
      ap (bit m.tab.idp) (owned i u) ∙ w.used (ap (λ x. x.zo1) (sym same) ∙ z)

  -- After its return the id is free, and the only stream of the table with it has returned it.
  still_in_use :
      (i : ℕ)
      → get_elem? m.tab.usb i ≡ some (some p)
      → (j q : ℕ) (x : Stream) → get_elem? m.tab.usb j ≡ some (some q)
      → get_elem? (set m.tab.heap p (record s { zo1 = true })) q ≡ some x
      → x.zo1 ≡ false
      → bit m.tab.idp j ≡ true
      → bit (set_bit m.tab.idp s.idx false) j ≡ true
  still_in_use i u j q x uj hx z b = elim (Bool-cases (s.idx == j)) [
    | inl eq ↦
        let ij : i ≡ j = sym (owned i u) ∙ (==_iff s.idx j).0 eq in
        let pq : p ≡ q = same_slot m.tab.usb i j p q ij u uj in
        let here =
          get_elem?-set_self m.tab.heap p (record s { zo1 = true })
            (get_elem?-length m.tab.heap p s e) in
        let same = eq_of_found (set m.tab.heap p (record s { zo1 = true })) p q _ x pq here hx in
        absurd (true≢false (ap (λ x. x.zo1) same ∙ z))
    | inr ne ↦ bit-set_bit m.tab.idp s.idx j false ∙ rw ne b
  ]

  -- The id goes back to the pool, once: the stream owned it.
  return_once-Fine :
      (b : Bool)
      → s.zo1 ≡ b
      → (i : ℕ) → get_elem? m.tab.usb i ≡ some (some p)
      → Fine m (return_once p s b m)
  unfolding return_once
  return_once-Fine true z i u = same-Fine m v tt
  return_once-Fine false z i u =
      let used = in_use i u z in
      let lt : s.idx < 256 =
        omega (arith, owned i u, v.sound.size, get_elem?-length m.tab.usb i (some p) u) in
      let put = Sip.put-ok m.tab.idp s.idx used in
      rw put (
        record {
          sound =
              ids-IsSound _
                (store-IsSound m.tab v.sound p s (record s { zo1 = true }) e refl (λ h. cc)
                  (v.sound.once p s e))
                (set_bit m.tab.idp s.idx false) (Sip.put-IsPool m.tab.idp s.idx v.sound.pool lt put)
                (still_in_use i u);
          once = v.once;
        },
        record {
          slots = refl;
          unread = refl;
          streams = (Stays-store m v p s e (record s { zo1 = true }) refl (λ h. refl)).streams;
        },
      )

  pub return_id-Fine : (i : ℕ) → get_elem? m.tab.usb i ≡ some (some p) → Fine m (return_id p m)
  unfolding return_id
  return_id-Fine i u = rw e (return_once-Fine s.zo1 refl i u)

-- Close of a stream of the store, and Esolc of one of the table, keep the invariant and end well.
pub close-Fine :
    (p : ℕ) (m : Mux) (s : Stream)
    → IsValid m
    → get_elem? m.tab.heap p ≡ some s
    → Fine m (close p m)
unfolding close
close-Fine p m s v e =
    bind-Fine m (put_rer p closed_pipe m) (λ _. put_wer p closed_pipe >> tell_closed p 0x00)
      (put_rer-Fine m v p s e closed_pipe)
      λ _ m1 v1 st1.
        let (s1, e1, _, _) = st1.streams p s e in
        bind-Fine m1 (put_wer p closed_pipe m1) (λ _. tell_closed p 0x00)
          (put_wer-Fine m1 v1 p s1 e1 closed_pipe)
          λ _ m2 v2 st2.
            let (s2, e2, _, _) = st2.streams p s1 e1 in tell_closed-Fine p m2 v2 s2 e2 0x00

pub esolc-Fine :
    (p i : ℕ) (m : Mux) (s : Stream)
    → IsValid m
    → get_elem? m.tab.heap p ≡ some s
    → get_elem? m.tab.usb i ≡ some (some p)
    → Fine m (esolc p m)
unfolding esolc
esolc-Fine p i m s v e u =
    bind-Fine m (put_rer p eof m)
      (λ _. put_wer p closed_pipe >> (tell_closed p 0x01 >> return_id p))
      (put_rer-Fine m v p s e eof)
      λ _ m1 v1 st1.
        let (s1, e1, _, _) = st1.streams p s e in
        bind-Fine m1 (put_wer p closed_pipe m1) (λ _. tell_closed p 0x01 >> return_id p)
          (put_wer-Fine m1 v1 p s1 e1 closed_pipe)
          λ _ m2 v2 st2.
            let (s2, e2, _, _) = st2.streams p s1 e1 in
            bind-Fine m2 (tell_closed p 0x01 m2) (λ _. return_id p)
              (tell_closed-Fine p m2 v2 s2 e2 0x01)
              λ _ m3 v3 st3.
                let (s3, e3, _, _) = st3.streams p s2 e2 in
                return_id-Fine p m3 v3 s3 e3 i
                  (ap (λ t. get_elem? t i) (st3.slots ∙ st2.slots ∙ st1.slots) ∙ u)
