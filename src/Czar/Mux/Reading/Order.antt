-- ===== src/Czar/Mux/Reading/Order.antt =====
-- The invariant of a stream and its reader.
use daze.Base.{
  ℕ, ◌≡◌, ◌⊎◌, inl, inr, refl, ap, sym, ◌∙◌, Bool, true, false, Option, none, some, List, [], ◌∷◌,
  ◌++◌, Error, ok, length, take, drop, ltb, if◌then◌else◌, append_assoc, append-nil,
  take-append-drop,
}
use mathlib.Core.Path.{subst}
use daze.Czar.Err
use daze.Czar.Err.{Err, new_err, stored}
use daze.Czar.Mux.{Stream, rch_cap}
use daze.Czar.Mux.Transfer.Sender.{joined}
use daze.Czar.Mux.Reading.{
  gave, failed, Place, away, checking, taking, asking, selecting, signalled, broken, passed,
  returned, crashed, Reader, Case, message, stream_error, mux_error, Move, calls, goes_on, picks,
  queues, puts, mux_ends, copy_out, begin_read, check_rch, receive, ask, put_stream, put_mux, go_on,
  pick, call, turn, Reached, start, later,
}

-- An Err holds no error and its channel is open, or holds one and it is closed.
abbrev pub IsErr : Err → Type 0
IsErr e = (e ≡ new_err) ⊎ ((x : Error) × (e ≡ stored x))

-- What Put leaves: what was stored stays.
record Grown (e : Err) (y : Error) : Type 0 where
  now : Err
  put_ok : Err.put e (some y) ≡ ok now
  sound : IsErr now
  keeps : (x : Error) → e ≡ stored x → now ≡ stored x

put-Grown : (e : Err) (y : Error) → IsErr e → Grown e y
unfolding Err.put
put-Grown e y (inl n) = record {
  now = stored y;
  put_ok = rw n refl;
  sound = inr (y, refl);
  keeps = λ x h. let no_way : false ≡ true = ap (λ z. z.sig) (sym n ∙ h) in cc;
}
put-Grown e y (inr (z, s)) = record {
  now = e;
  put_ok = rw s refl;
  sound = inr (z, s);
  keeps = λ x h. h;
}

joined-append : (q : List (List ℕ)) (msg : List ℕ) → joined (q ++ msg ∷ []) ≡ joined q ++ msg
unfolding joined
joined-append [] msg = append-nil msg
joined-append (x ∷ q) msg =
    ap (λ l. x ++ l) (joined-append q msg) ∙ sym (append_assoc x (joined q) msg)

-- The order of the bytes, and the two errors.
abbrev pub Core : Reader → Type 0
Core r =
    (joined r.queued ≡ r.given ++ (r.stream.rbf ++ joined r.stream.rch))
    × IsErr r.stream.rer
    × IsErr r.mux_rer

-- What is known where Read is.
abbrev pub At : Place → Stream → Err → Type 0
At away s m = Unit
At (checking n) s m = s.rbf ≡ []
At (taking n) s m = (s.rbf ≡ []) × (msg : List ℕ) × (rest : List (List ℕ)) × (s.rch ≡ msg ∷ rest)
At (asking n) s m = s.rbf ≡ []
At (selecting n) s m = s.rbf ≡ []
At signalled s m = (x : Error) × (s.rer ≡ stored x)
At broken s m = (x : Error) × (m ≡ stored x)
At passed s m = (x : Error) × (m ≡ stored x)
At (returned (gave bs)) s m = Unit
At (returned (failed e)) s m = (x : Error) × (e ≡ some x) × ((s.rer ≡ stored x) ⊎ (m ≡ stored x))
At crashed s m = ⊥

abbrev pub Sound : Reader → Type 0
Sound r = Core r × At r.place r.stream r.mux_rer

abbrev After : Option Reader → Type 0
After none = Unit
After (some r) = Sound r

copy_out-Sound :
    (size : ℕ) (s : Stream) (r : Reader)
    → joined r.queued ≡ r.given ++ (s.rbf ++ joined s.rch)
    → IsErr s.rer
    → IsErr r.mux_rer
    → Sound (copy_out size s r)
unfolding copy_out
copy_out-Sound size s r o e m =
    let a = take size s.rbf in
    let b = drop size s.rbf in
    (
      (
        o
            ∙ ap (λ l. r.given ++ l)
                (ap (λ l. l ++ joined s.rch) (sym (take-append-drop size s.rbf))
                  ∙ append_assoc a b (joined s.rch))
            ∙ sym (append_assoc r.given a (b ++ joined s.rch)),
        e,
        m,
      ),
      tt,
    )

begin_read-Sound :
    (size : ℕ) (l : List ℕ) (r : Reader) → r.stream.rbf ≡ l → Core r → Sound (begin_read size l r)
unfolding begin_read
begin_read-Sound size [] r e (o, a, b) = ((o, a, b), e)
begin_read-Sound size (x ∷ xs) r e (o, a, b) = copy_out-Sound size r.stream r o a b

check_rch-Sound :
    (size : ℕ) (q : List (List ℕ)) (r : Reader)
    → r.stream.rch ≡ q
    → r.stream.rbf ≡ []
    → Core r
    → Sound (check_rch size q r)
unfolding check_rch
check_rch-Sound size [] r e b k = (k, b)
check_rch-Sound size (msg ∷ rest) r e b k = (k, (b, msg, rest, e))

receive-Sound :
    (size : ℕ) (q : List (List ℕ)) (r : Reader)
    → r.stream.rch ≡ q
    → r.stream.rbf ≡ []
    → Core r
    → After (receive size q r)
unfolding receive joined
receive-Sound size [] r e b k = tt
receive-Sound size (msg ∷ rest) r e b (o, x, y) =
    copy_out-Sound size (record (r.stream) { rbf = msg; rch = rest }) r (o ∙ rw (e, b) refl) x y

ask-Sound :
    (size : ℕ) (o : Option Error) (r : Reader)
    → r.stream.rer.err ≡ o
    → r.stream.rbf ≡ []
    → Core r
    → Sound (ask size o r)
unfolding ask
ask-Sound size none r e b k = (k, b)
ask-Sound size (some x) r e b (o, inl n, m) =
    let no_way : none ≡ some x = sym (ap (λ z. z.err) n) ∙ e in cc
ask-Sound size (some x) r e b (o, inr (y, s), m) =
    let same : some y ≡ some x = sym (ap (λ z. z.err) s) ∙ e in
    ((o, inr (y, s), m), (y, sym same, inl s))

At-queues :
    (p : Place) (s : Stream) (m : Err) (msg : List ℕ)
    → At p s m
    → At p (record s { rch = s.rch ++ msg ∷ [] }) m
At-queues (taking n) s m msg (b, x, rest, e) = (b, x, rest ++ msg ∷ [], ap (λ l. l ++ msg ∷ []) e)
At-queues away s m msg a = a
At-queues (checking n) s m msg a = a
At-queues (asking n) s m msg a = a
At-queues (selecting n) s m msg a = a
At-queues signalled s m msg a = a
At-queues broken s m msg a = a
At-queues passed s m msg a = a
At-queues (returned (gave bs)) s m msg a = a
At-queues (returned (failed e)) s m msg a = a
At-queues crashed s m msg a = a

-- Errors that are stored stay.
At-grows :
    (p : Place) (s : Stream) (m e n : Err)
    → ((x : Error) → s.rer ≡ stored x → e ≡ stored x)
    → ((x : Error) → m ≡ stored x → n ≡ stored x)
    → At p s m
    → At p (record s { rer = e }) n
At-grows (taking k) s m e n f g a = a
At-grows away s m e n f g a = a
At-grows (checking k) s m e n f g a = a
At-grows (asking k) s m e n f g a = a
At-grows (selecting k) s m e n f g a = a
At-grows signalled s m e n f g (x, h) = (x, f x h)
At-grows broken s m e n f g (x, h) = (x, g x h)
At-grows passed s m e n f g (x, h) = (x, g x h)
At-grows (returned (gave bs)) s m e n f g a = a
At-grows (returned (failed y)) s m e n f g (x, same, inl h) = (x, same, inl (f x h))
At-grows (returned (failed y)) s m e n f g (x, same, inr h) = (x, same, inr (g x h))
At-grows crashed s m e n f g a = a

put_stream-Sound :
    (y : Error) (r : Reader) → Sound r → Sound (put_stream (Err.put r.stream.rer (some y)) r)
unfolding put_stream
put_stream-Sound y r ((o, a, b), h) =
    let g = put-Grown r.stream.rer y a in
    rw (g.put_ok)
      ((o, g.sound, b), At-grows r.place r.stream r.mux_rer g.now r.mux_rer g.keeps (λ x z. z) h)

put_mux-Sound : (y : Error) (r : Reader) → Sound r → Sound (put_mux (Err.put r.mux_rer (some y)) r)
unfolding put_mux
put_mux-Sound y r ((o, a, b), h) =
    let g = put-Grown r.mux_rer y b in
    rw (g.put_ok)
      ((o, a, g.sound), At-grows r.place r.stream r.mux_rer r.stream.rer g.now (λ x z. z) g.keeps h)

go_on-Sound : (p : Place) (r : Reader) → Core r → At p r.stream r.mux_rer → After (go_on p r)
unfolding go_on
go_on-Sound away r k a = tt
go_on-Sound (checking n) r k a = check_rch-Sound n r.stream.rch r refl a k
go_on-Sound (taking n) r k a = receive-Sound n r.stream.rch r refl a.0 k
go_on-Sound (asking n) r k a = ask-Sound n r.stream.rer.err r refl a k
go_on-Sound (selecting n) r k a = tt
go_on-Sound signalled r k (x, e) = (k, (x, ap (λ z. z.err) e, inl e))
go_on-Sound broken r k (x, e) =
    subst (λ o. Sound (put_stream (Err.put r.stream.rer o) (record r { place = passed })))
      (sym (ap (λ z. z.err) e)) (put_stream-Sound x (record r { place = passed }) (k, (x, e)))
go_on-Sound passed r k (x, e) = (k, (x, ap (λ z. z.err) e, inr e))
go_on-Sound (returned x) r k a = tt
go_on-Sound crashed r k a = tt

-- The case of a channel is ready only where an error is stored.
sig-stored : (e : Err) → IsErr e → e.sig ≡ true → (x : Error) × (e ≡ stored x)
sig-stored e (inl n) h = let no_way : false ≡ true = sym (ap (λ z. z.sig) n) ∙ h in cc
sig-stored e (inr s) h = s

guarded : (b : Bool) (r : Reader) → (b ≡ true → Sound r) → After (if b then some r else none)
guarded true r h = h refl
guarded false r h = tt

pick-Sound :
    (p : Place) (c : Case) (r : Reader) → Core r → At p r.stream r.mux_rer → After (pick p c r)
unfolding pick
pick-Sound (selecting n) message r k a = receive-Sound n r.stream.rch r refl a k
pick-Sound (selecting n) stream_error r k a =
    guarded r.stream.rer.sig (record r { place = signalled })
      (λ ready. (k, sig-stored r.stream.rer k.1 ready))
pick-Sound (selecting n) mux_error r k a =
    guarded r.mux_rer.sig (record r { place = broken })
      (λ ready. (k, sig-stored r.mux_rer k.2 ready))
pick-Sound away c r k a = tt
pick-Sound (checking n) c r k a = tt
pick-Sound (taking n) c r k a = tt
pick-Sound (asking n) c r k a = tt
pick-Sound signalled c r k a = tt
pick-Sound broken c r k a = tt
pick-Sound passed c r k a = tt
pick-Sound (returned x) c r k a = tt
pick-Sound crashed c r k a = tt

call-Sound : (p : Place) (size : ℕ) (r : Reader) → Core r → After (call p size r)
unfolding call
call-Sound away size r k = begin_read-Sound size r.stream.rbf r refl k
call-Sound (returned x) size r k = begin_read-Sound size r.stream.rbf r refl k
call-Sound (checking n) size r k = tt
call-Sound (taking n) size r k = tt
call-Sound (asking n) size r k = tt
call-Sound (selecting n) size r k = tt
call-Sound signalled size r k = tt
call-Sound broken size r k = tt
call-Sound passed size r k = tt
call-Sound crashed size r k = tt

turn-Sound : (m : Move) (r : Reader) → Sound r → After (turn m r)
unfolding turn
turn-Sound (calls size) r (k, a) = call-Sound r.place size r k
turn-Sound goes_on r (k, a) = go_on-Sound r.place r k a
turn-Sound (picks c) r (k, a) = pick-Sound r.place c r k a
turn-Sound (queues msg) r ((o, x, y), a) =
    let order =
      joined-append r.queued msg
      ∙ ap (λ l. l ++ msg) o
      ∙ append_assoc r.given (r.stream.rbf ++ joined r.stream.rch) msg
      ∙ ap (λ l. r.given ++ l)
          (append_assoc r.stream.rbf (joined r.stream.rch) msg
            ∙ ap (λ l. r.stream.rbf ++ l) (sym (joined-append r.stream.rch msg))) in
    guarded (ltb (length r.stream.rch) rch_cap) _
      (λ room. ((order, x, y), At-queues r.place r.stream r.mux_rer msg a))
turn-Sound (puts e) r h = put_stream-Sound e r h
turn-Sound (mux_ends e) r h = put_mux-Sound e r h

pub Reached-Sound : {i : ℕ} {r : Reader} → Reached i r → Sound r
unfolding joined
Reached-Sound start = ((refl, inl refl, inl refl), tt)
Reached-Sound (later {r} m h e) = subst After e (turn-Sound m r (Reached-Sound h))
