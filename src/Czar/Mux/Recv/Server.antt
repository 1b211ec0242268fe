-- ===== src/Czar/Mux/Recv/Server.antt =====
-- The server's Recv against whatever the peer sends.
use daze.Base.{
  ℕ, ◌<◌, ◌≡◌, refl, ap, sym, ◌∙◌, inl, inr, Bool, true, false, some, List, [], ◌∷◌, ◌++◌, arith,
  Error, Outcome, ok, fail, panic, closed_pipe, length, get_elem?, get_or, set, take, drop, leb,
  ◌==◌, if◌then◌else◌, Bool-cases, get_elem?-set_self, get_elem?-set_ne, ==_iff,
}
use mathlib.Core.Path.{subst}
use daze.Base.Bytes.{AreBytes, uint_be, AreBytes-take, AreBytes-drop, get_or-lt}
use daze.Base.State.{St, and_then, pure, ◌>>=◌, ◌>>◌}
use daze.Czar.Sip
use daze.Czar.Sip.{Sip, bit, set_bit, IsPool, bit-set_bit}
use daze.Czar.Err
use daze.Czar.Err.{Err, new_err, IsOnce}
use daze.Czar.Mux.{
  Stream, Wire, Table, Mux, con_read, end_error, con_close, load, slot, set_slot, set_id, esolc,
  stream_of, new_stream, new_wither, new_mux_server,
}
use daze.Czar.Mux.Recv.{
  Recv, reading, sending, done, is_set, hang_up, offer, make_stream, on_open, got_message,
  on_message, on_close, dispatch, finish, put_message, got_header, recv_packet, deliver, step, run,
}
use daze.Czar.Mux.Invariant.{
  Holds, IsFull, IsValid, Keeps, Stays, ids-IsSound, alloc-IsSound, set_slot-IsSound,
  get_elem?-length, get_elem?-append_new,
}
use daze.Czar.Mux.Wither.{Filled, new_wither-Keeps, new_mux_server-IsFull}
use daze.Czar.Mux.Safety.{Fine, store-Fine, esolc-Fine}

-- A multiplexer on the server's side: every id has a stream, and the peer sends bytes.
pub record IsServing (m : Mux) : Type 0 where
  pub valid : IsValid m
  pub full : IsFull m.tab
  pub bytes : AreBytes m.con.inp

-- A message that waits is for a stream of the store.
abbrev pub IsReady : Recv → Mux → Type 0
IsReady (sending p msg) m = (s : Stream) × (get_elem? m.tab.heap p ≡ some s)
IsReady reading m = Unit {0}
IsReady done m = Unit {0}

-- Recv goes on, without an error or a panic, and everything is in order.
abbrev pub Serves : Outcome Recv × Mux → Type 0
Serves (ok r, m) = IsServing m × IsReady r m
Serves (fail e, m) = ⊥
Serves (panic, m) = ⊥

IsFull-set : (t : Table) (i p : ℕ) → IsFull t → IsFull (record t { usb = set t.usb i (some p) })
IsFull-set t i p full j lt =
    let (q, here) = full j lt in
    elim (Bool-cases (i == j)) [
      | inl eq ↦
          let e : i ≡ j = (==_iff i j).0 eq in
          (
            p,
            subst (λ z. get_elem? (set t.usb i (some p)) z ≡ some (some p)) e
                (get_elem?-set_self t.usb i (some p)
                  (omega (arith, get_elem?-length t.usb j (some q) here))),
          )
      | inr ne ↦ (q, get_elem?-set_ne t.usb i j (some p) (ground arith) ∙ here)
    ]

IsServing-Stays : (m m' : Mux) → IsServing m → IsValid m' → Stays m m' → IsServing m'
IsServing-Stays m m' v valid st = record {
  valid = valid;
  full = λ i lt. let (p, h) = v.full i lt in (p, ap (λ u. get_elem? u i) st.slots ∙ h);
  bytes = subst AreBytes (sym st.unread) v.bytes;
}

module _ (m : Mux) (v : IsServing m) where
  hang_up-Serves : Serves (hang_up m)
  unfolding hang_up con_close
  hang_up-Serves = (
    record {
      valid = record { sound = v.valid.sound; once = v.valid.once };
      full = v.full;
      bytes = v.bytes;
    },
    tt,
  )

  -- A stream that is put at its place in the table.
  placed :
      (i p : ℕ)
      → Holds m.tab i p
      → IsServing (record m { tab = record (m.tab) { usb = set m.tab.usb i (some p) } })
  placed i p h = record {
    valid = record { sound = set_slot-IsSound m.tab v.valid.sound i p h; once = v.valid.once };
    full = IsFull-set m.tab i p v.full;
    bytes = v.bytes;
  }

  -- A stream that the peer opens: its id is marked, and it takes its place in the table.
  made-Serves : (i : ℕ) → i < 256 → Serves (make_stream i m)
  unfolding make_stream new_stream set_id set_slot offer Sip.set_used
  made-Serves i lt =
      let sound =
        ids-IsSound _ (alloc-IsSound m.tab v.valid.sound (stream_of i) (λ z. refl, λ z. refl))
          (set_bit m.tab.idp i true) (Sip.set_used-IsPool m.tab.idp i v.valid.sound.pool lt)
          (λ j p s u h z b. ground (arith, bit-set_bit m.tab.idp i j true)) in
      (
        record {
          valid = record {
            sound = set_slot-IsSound _ sound i (length m.tab.heap) (record {
              stream = stream_of i;
              found = get_elem?-append_new m.tab.heap (stream_of i);
              same = refl;
              used = λ z. ground (arith, bit-set_bit m.tab.idp i i true);
            });
            once = v.valid.once;
          };
          full = IsFull-set m.tab i (length m.tab.heap) v.full;
          bytes = v.bytes;
        },
        tt,
      )

  open_branch : (i : ℕ) (b : Bool) → i < 256 → Serves ((if b then hang_up else make_stream i) m)
  open_branch i true lt = hang_up-Serves
  open_branch i false lt = made-Serves i lt

  on_open-Serves : (i : ℕ) → i < 256 → Serves (on_open i m)
  unfolding on_open slot load
  on_open-Serves i lt =
      let (p, u) = v.full i lt in
      let h = v.valid.sound.slots i p u in rw (u, h.found) (open_branch i _ lt)

  got-Serves : (i : ℕ) (msg : List ℕ) → i < 256 → Serves (got_message i (ok msg, m))
  unfolding got_message slot load
  got-Serves i msg lt =
      let (p, u) = v.full i lt in
      let h = v.valid.sound.slots i p u in
      rw (u, h.found) (v, ready p h.stream h.found (is_set h.stream.rer.err))
    where
      ready :
          (p : ℕ) (s : Stream)
          → get_elem? m.tab.heap p ≡ some s
          → (b : Bool) → IsReady (if b then reading else sending p msg) m
      ready p s e true = tt
      ready p s e false = (s, e)

-- A read of the connection: the bytes are bytes, and the rest is as it was.
read-IsServing :
    (m : Mux) (v : IsServing m) (bs : List ℕ)
    → AreBytes bs
    → IsServing (record m { con = record (m.con) { inp = bs } })
read-IsServing m v bs h = record {
  valid = record { sound = v.valid.sound; once = v.valid.once };
  full = v.full;
  bytes = h;
}

-- What con_read comes to.
abbrev Reads : Outcome (List ℕ) × Mux → Type 0
Reads (ok bs, m) = AreBytes bs × IsServing m
Reads (fail e, m) = IsServing m
Reads (panic, m) = ⊥

con_read-Reads : (n : ℕ) (m : Mux) → IsServing m → Reads (con_read n m)
unfolding con_read
con_read-Reads n m v = go m.con.closed (leb n (length m.con.inp))
  where
    go :
        (b c : Bool)
        → Reads (
            if b
            then (fail closed_pipe, m)
            else if c
            then (
              ok (take n m.con.inp),
              record m { con = record (m.con) { inp = drop n m.con.inp } },
            )
            else (fail (end_error m.con.inp), record m { con = record (m.con) { inp = [] } }))
    go true c = v
    go false true = (
      AreBytes-take n m.con.inp v.bytes,
      read-IsServing m v _ (AreBytes-drop n m.con.inp v.bytes),
    )
    go false false = read-IsServing m v [] tt

on_message-Serves : (i n : ℕ) (m : Mux) → IsServing m → i < 256 → Serves (on_message i n m)
unfolding on_message
on_message-Serves i n m v lt = go (con_read n m) (con_read-Reads n m v)
  where
    go : (r : Outcome (List ℕ) × Mux) → Reads r → Serves (got_message i r)
    go (ok msg, m') h = got-Serves m' h.1 i msg lt
    go (fail e, m') h = hang_up-Serves m' h
    go (panic, m') h = h

on_close-Serves : (i : ℕ) (m : Mux) → IsServing m → i < 256 → Serves (on_close i m)
unfolding on_close slot set_slot
on_close-Serves i m v lt =
    let (p, u) = v.full i lt in
    let h = v.valid.sound.slots i p u in
    rw u (closed_end (esolc p m) (esolc-Fine p i m h.stream v.valid h.found u))
  where
    wither_end :
        (m' : Mux)
        → IsServing m'
        → (r : Outcome ℕ × Mux)
        → Keeps
            (λ q m''. (m''.tab.usb ≡ m'.tab.usb) × (m''.con.inp ≡ m'.con.inp) × Holds m''.tab i q)
            r
        → Serves (and_then r (λ q. set_slot i q >> pure reading))
    wither_end m' v' (ok q, m'') (valid, (slots, unread, h)) = (
      placed m''
          (record {
            valid = valid;
            full = λ i lt. let (p, h) = v'.full i lt in (p, ap (λ u. get_elem? u i) slots ∙ h);
            bytes = subst AreBytes (sym unread) v'.bytes;
          })
          i q h,
      tt,
    )
    wither_end m' v' (fail e, m'') h = h
    wither_end m' v' (panic, m'') h = h

    closed_end :
        (r : Outcome (Unit {0}) × Mux)
        → Fine m r
        → Serves (and_then r (λ _. new_wither i >>= λ q. set_slot i q >> pure reading))
    closed_end (ok _, m') (valid, st) =
        wither_end m' (IsServing-Stays m m' v valid st) (new_wither i m')
          (new_wither-Keeps i m' valid)
    closed_end (fail e, m') h = h
    closed_end (panic, m') h = h

dispatch-Serves : (i cmd n : ℕ) (m : Mux) → IsServing m → i < 256 → Serves (dispatch i cmd n m)
unfolding dispatch
dispatch-Serves i cmd n m v lt = go (cmd == 0x00) (cmd == 0x01) (cmd == 0x02)
  where
    go :
        (a b c : Bool)
        → Serves (
            (if a
                then on_open i
                else if b
                then on_message i n
                else if c
                then on_close i
                else hang_up)
              m)
    go true b c = on_open-Serves m v i lt
    go false true c = on_message-Serves i n m v lt
    go false false true = on_close-Serves i m v lt
    go false false false = hang_up-Serves m v

finish-Serves : (e : Error) (m : Mux) → IsServing m → Serves (finish e m)
unfolding finish
finish-Serves e m v =
    let (r, put, once) = Err.put-ok m.rer e v.valid.once in
    rw put (
      record {
        valid = record { sound = v.valid.sound; once = once };
        full = v.full;
        bytes = v.bytes;
      },
      tt,
    )

recv_packet-Serves : (m : Mux) → IsServing m → Serves (recv_packet m)
unfolding recv_packet
recv_packet-Serves m v = go (con_read 4 m) (con_read-Reads 4 m v)
  where
    go : (r : Outcome (List ℕ) × Mux) → Reads r → Serves (got_header r)
    go (ok buf, m') h =
        dispatch-Serves (get_or buf 0 0) (get_or buf 1 0) (uint_be (drop 2 buf)) m' h.1
          (get_or-lt buf 0 h.0)
    go (fail e, m') h = finish-Serves e m' h
    go (panic, m') h = h

deliver-Serves :
    (choice : Bool) (p : ℕ) (msg : List ℕ) (m : Mux) (s : Stream)
    → IsServing m
    → get_elem? m.tab.heap p ≡ some s
    → Serves (deliver choice p msg m)
unfolding deliver load
deliver-Serves choice p msg m s v e = rw e (go _ _)
  where
    stored : Outcome (Unit {0}) × Mux → Outcome Recv × Mux
    stored r = and_then r (λ _. pure reading)

    served : (r : Outcome (Unit {0}) × Mux) → Fine m r → Serves (stored r)
    served (ok _, m') (valid, st) = (IsServing-Stays m m' v valid st, tt)
    served (fail e, m') h = h
    served (panic, m') h = h

    go : (a b : Bool) → Serves (put_message p msg s a b m)
    go true b = served _ (
        store-Fine m v.valid p s e (record s { rch = s.rch ++ msg ∷ [] }) refl refl
          (v.valid.sound.once p s e))
    go false true = (v, tt)
    go false false = (v, (s, e))

-- One step of the server's Recv keeps everything in order, whatever the packet and whichever case
-- the select takes: it returns no error and does not panic.
pub step-Serves :
    (choice : Bool) (r : Recv) (m : Mux) → IsServing m → IsReady r m → Serves (step choice r m)
unfolding step
step-Serves choice reading m v h = recv_packet-Serves m v
step-Serves choice (sending p msg) m v h = deliver-Serves choice p msg m h.0 v h.1
step-Serves choice done m v h = (v, tt)

and_then-Serves :
    (x : Outcome Recv × Mux) (k : Recv → St Mux Recv)
    → Serves x
    → ((r : Recv) (m : Mux) → IsServing m → IsReady r m → Serves (k r m))
    → Serves (and_then x k)
and_then-Serves (ok r, m) k h next = next r m h.0 h.1
and_then-Serves (fail e, m) k h next = h
and_then-Serves (panic, m) k h next = h

pub run-Serves :
    (choices : List Bool) (r : Recv) (m : Mux)
    → IsServing m
    → IsReady r m
    → Serves (run choices r m)
unfolding run
run-Serves [] r m v h = (v, h)
run-Serves (b ∷ bs) r m v h =
    and_then-Serves (step b r m) (run bs) (step-Serves b r m v h)
      (λ r' m' v' h'. run-Serves bs r' m' v' h')

-- A server that a connection is given to, and whose peer sends any bytes at all, gets through any
-- number of steps of Recv without an error or a panic, and with the table in order.
pub server-Serves :
    (con : Wire) (choices : List Bool)
    → AreBytes con.inp
    → Serves (and_then (new_mux_server con) (λ _. run choices reading))
server-Serves con choices bytes = go (new_mux_server con) (new_mux_server-IsFull con)
  where
    go :
        (x : Outcome (Unit {0}) × Mux)
        → Filled con x
        → Serves (and_then x (λ _. run choices reading))
    go (ok _, m) (valid, (full, unread)) =
        run-Serves choices reading m
          (record { valid = valid; full = full; bytes = subst AreBytes (sym unread) bytes }) tt
    go (fail e, m) h = absurd h
    go (panic, m) h = absurd h
