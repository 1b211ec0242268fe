-- ===== src/Czar/Mux/Recv/Arrival.antt =====
-- Recv on the frames that Stream.Write of the peer makes.
use daze.Base.{
  ℕ, zero, suc, ◌+◌, ◌/◌, ◌%◌, ◌^◌, ◌≤◌, ◌<◌, ◌≡◌, refl, ap, sym, ◌∙◌, Bool, true, false, none,
  some, List, [], ◌∷◌, ◌++◌, arith, Outcome, ok, length, get_elem?, set, le→leb, lt→ltb,
  append_assoc, append-nil, take-append, drop-append, length-append, get_elem?-set_self, replicate,
}
use mathlib.Core.Path.{subst, ap₂}
use daze.Base.Bytes.{uint_be, put_uint16, uint_be-put_uint16}
use daze.Czar.Mux.{Stream, Mux, max_msg, rch_cap, con_read, load, store, slot}
use daze.Czar.Mux.Recv.{Recv, reading, sending, step, run, dispatch, got_message, put_message}
use daze.Czar.Mux.Transfer.{frame, write}
use daze.Czar.Mux.Transfer.Sender.{joined, pending, pieces, wire, writing, AreShort, write-frames}
use daze.Czar.Mux.Invariant.{get_elem?-length}

-- A multiplexer that has `inp` to read.
abbrev pub hearing : Mux → List ℕ → Mux
hearing m inp = record m {
  con = record { inp = inp; out = m.con.out; quota = m.con.quota; closed = false };
}

abbrev pub with_stream : Mux → ℕ → Stream → Mux
with_stream m p s = record m { tab = record (m.tab) { heap = set m.tab.heap p s } }

con_read-hearing :
    (m : Mux) (n : ℕ) (xs ys : List ℕ)
    → length xs ≡ n
    → con_read n (hearing m (xs ++ ys)) ≡ (ok xs, hearing m ys)
unfolding con_read
con_read-hearing m n xs ys e =
    let le : n ≤ length (xs ++ ys) = omega (arith, length-append xs ys) in
    rw (le→leb n _ le, take-append n xs ys e, drop-append n xs ys e)

module _ (m : Mux) (i p : ℕ) (s : Stream) (u : get_elem? m.tab.usb i ≡ some (some p))
    (e : get_elem? m.tab.heap p ≡ some s) (open_ : s.rer.err ≡ none) where
  header-read :
      (c rest : List ℕ)
      → length c ≤ max_msg
      → step true reading (hearing m (frame i c ++ rest)) ≡ (ok (sending p c), hearing m rest)
  unfolding step frame dispatch got_message slot load put_uint16
  header-read c rest h =
      let len : length c % 2 ^ 16 ≡ length c = omega arith in
      let n : uint_be (length c % 2 ^ 16 / 256 % 256 ∷ length c % 2 ^ 16 % 256 ∷ []) ≡ length c =
        uint_be-put_uint16 (length c % 2 ^ 16) (omega arith) ∙ len in
      rw (
        con_read-hearing m 4
            (i ∷ 0x01 ∷ (length c % 2 ^ 16 / 256 % 256) ∷ (length c % 2 ^ 16 % 256) ∷ [])
            (c ++ rest) refl,
        n,
        con_read-hearing m (length c) c rest refl,
        u,
        e,
        open_,
      )

  message-queued :
      (c rest : List ℕ)
      → length s.rch < rch_cap
      → step true (sending p c) (hearing m rest)
        ≡ (ok reading, hearing (with_stream m p (record s { rch = s.rch ++ c ∷ [] })) rest)
  unfolding step put_message load store
  message-queued c rest h = rw (e, lt→ltb (length s.rch) rch_cap h)

-- What a run of Recv over the frames of `cs` comes to: they are all read, the table is as it was,
-- and the stream's queue has grown by them.
pub record Arrived (m : Mux) (p : ℕ) (s : Stream) (cs : List (List ℕ)) (rest : List ℕ)
    (r : Outcome Recv × Mux) : Type 0 where
  pub after : Mux
  pub stream : Stream
  pub runs : r ≡ (ok reading, after)
  pub unread : after.con.inp ≡ rest
  pub table : after.tab.usb ≡ m.tab.usb
  pub found : get_elem? after.tab.heap p ≡ some stream
  pub queued : stream.rch ≡ s.rch ++ cs
  pub rest_of : (stream.rbf ≡ s.rbf) × (stream.rer ≡ s.rer)

abbrev pub always : ℕ → List Bool
always n = replicate n true

-- Two steps for each frame.
abbrev pub twice : ℕ → ℕ
twice zero = 0
twice (suc n) = suc (suc (twice n))

frames-Arrived :
    (cs : List (List ℕ)) (rest : List ℕ) (m : Mux) (i p : ℕ) (s : Stream)
    → get_elem? m.tab.usb i ≡ some (some p)
    → get_elem? m.tab.heap p ≡ some s
    → s.rer.err ≡ none
    → AreShort cs
    → length s.rch + length cs ≤ rch_cap
    → Arrived m p s cs rest
        (run (always (twice (length cs))) reading (hearing m (wire i cs ++ rest)))
unfolding run wire
frames-Arrived [] rest m i p s u e o short room = record {
  after = hearing m rest;
  stream = s;
  runs = refl;
  unread = refl;
  table = refl;
  found = e;
  queued = sym (append-nil s.rch);
  rest_of = (refl, refl);
}
frames-Arrived (c ∷ cs) rest m i p s u e o short room =
    let s' = record s { rch = s.rch ++ c ∷ [] } in
    let m' = with_stream m p s' in
    let ih =
      frames-Arrived cs rest m' i p s' u
        (get_elem?-set_self m.tab.heap p s' (get_elem?-length m.tab.heap p s e)) o short.1
        (omega (arith, length-append s.rch (c ∷ []))) in
    record {
      after = ih.after;
      stream = ih.stream;
      runs =
          rw
            (
              append_assoc (frame i c) (wire i cs) rest,
              header-read m i p s u e o c (wire i cs ++ rest) short.0,
              message-queued m i p s u e o c (wire i cs ++ rest) (omega arith),
            )
            ih.runs;
      unread = ih.unread;
      table = ih.table;
      found = ih.found;
      queued = ih.queued ∙ append_assoc s.rch (c ∷ []) cs;
      rest_of = ih.rest_of;
    }

joined-append : (xs ys : List (List ℕ)) → joined (xs ++ ys) ≡ joined xs ++ joined ys
unfolding joined
joined-append [] ys = refl
joined-append (x ∷ xs) ys = ap (λ l. x ++ l) (joined-append xs ys) ∙ sym (append_assoc x _ _)

pending-queued :
    (s s' : Stream) (cs : List (List ℕ))
    → s'.rch ≡ s.rch ++ cs
    → s'.rbf ≡ s.rbf
    → pending s' ≡ pending s ++ joined cs
pending-queued s s' cs q b =
    ap₂ (λ l r. l ++ joined r) b q
    ∙ ap (λ l. s.rbf ++ l) (joined-append s.rch cs)
    ∙ sym (append_assoc s.rbf (joined s.rch) (joined cs))

-- The two ends of a connection: what a user writes to an open stream `i` of one is, after the peer
-- has run over it, what the reader of stream `i` there has still to read beyond what it had,
-- byte for byte; and Write returns the number of bytes. The writer's connection takes the frames,
-- the reader's stream is open and its queue has room for the pieces.
pub write-Arrived :
    (m m' : Mux) (p p' q : ℕ) (s s' : Stream) (bs rest : List ℕ)
    → get_elem? m.tab.heap p ≡ some s
    → s.wer.err ≡ none
    → get_elem? m'.tab.usb s.idx ≡ some (some p')
    → get_elem? m'.tab.heap p' ≡ some s'
    → s'.rer.err ≡ none
    → length s'.rch + length (pieces (length bs + 1) bs) ≤ rch_cap
    → let cs = pieces (length bs + 1) bs in
      let w = write p bs (writing m [] (length cs + q)) in
      (w.0 ≡ ok (length bs, none))
      × (a : Arrived m' p' s' cs rest
          (run (always (twice (length cs))) reading (hearing m' (w.1.con.out ++ rest))))
      × (pending a.stream ≡ pending s' ++ bs)
write-Arrived m m' p p' q s s' bs rest e o u e' o' room =
    let (sent, whole, short) = write-frames m p s e o bs [] q in
    let cs = pieces (length bs + 1) bs in
    let a = frames-Arrived cs rest m' s.idx p' s' u e' o' short room in
    let there =
      subst
        (λ l.
          (a : Arrived m' p' s' cs rest
            (run (always (twice (length cs))) reading (hearing m' (l ++ rest))))
          × (pending a.stream ≡ pending s' ++ bs))
        (sym (ap (λ r. r.1.con.out) sent))
        (a, pending-queued s' a.stream cs a.queued a.rest_of.0 ∙ ap (λ l. pending s' ++ l) whole) in
    (ap (λ r. r.0) sent, there.0, there.1)
