-- ===== src/Czar/Mux/Recv.antt =====
-- Mux.Recv of protocol/czar/mux.go, a step at a time. A step reads one packet and acts on it; a
-- message for a stream whose channel is full waits, as the select in Recv does, until there is
-- room or the stream is closed.
pub mod Server
pub mod Arrival
use daze.Base.{
  ℕ, zero, suc, ◌+◌, Bool, true, false, not, ◌&&◌, ◌||◌, Option, none, some, List, [], ◌∷◌, ◌++◌,
  Error, Outcome, ok, fail, panic, length, get_or, drop, ltb, ◌==◌, if◌then◌else◌,
}
use daze.Base.Bytes.{uint_be}
use daze.Base.State.{St, pure, lift, and_then, ◌>>=◌, ◌>>◌}
use daze.Czar.Err
use daze.Czar.Err.{Err}
use daze.Czar.Mux.{
  Stream, Mux, rch_cap, con_read, con_close, load, store, slot, set_slot, set_id, esolc, new_stream,
  new_wither,
}

pub data Recv : Type 0 where
  reading : Recv
  sending : (p : ℕ) → (msg : List ℕ) → Recv
  done : Recv

abbrev pub is_set : Option Error → Bool
is_set none = false
is_set (some e) = true

-- `m.con.Close()`, and on to the next packet.
hang_up : St Mux Recv
unfolding con_close
hang_up = do con_close; pure reading

-- `m.ach <- stm`
pub offer : ℕ → St Mux (Unit {0})
offer p m = (ok tt, record m { ach = m.ach ++ p ∷ [] })

-- cmd 0: a stream is opened. The old one must have been closed in both directions.
make_stream : ℕ → St Mux Recv
unfolding offer
make_stream i = do p ← new_stream i; set_id i; set_slot i p; offer p; pure reading

pub on_open : ℕ → St Mux Recv
unfolding hang_up make_stream
on_open i = do
  q ← slot i
  old ← load q
  if not (is_set old.rer.err) || not (is_set old.wer.err) then hang_up else make_stream i

-- cmd 1: a message of `n` bytes. A connection that ends within it is closed.
got_message : ℕ → Outcome (List ℕ) × Mux → Outcome Recv × Mux
unfolding hang_up
got_message i (ok msg, m) =
    (do p ← slot i; s ← load p; pure (if is_set s.rer.err then reading else sending p msg)) m
got_message i (fail e, m) = hang_up m
got_message i (panic, m) = (panic, m)

pub on_message : ℕ → ℕ → St Mux Recv
unfolding got_message
on_message i n m = got_message i (con_read n m)

-- cmd 2: the peer closes a stream.
pub on_close : ℕ → St Mux Recv
on_close i = do p ← slot i; esolc p; q ← new_wither i; set_slot i q; pure reading

-- The switch on the command.
pub dispatch : ℕ → ℕ → ℕ → St Mux Recv
unfolding on_open on_message on_close hang_up
dispatch i cmd n =
    if cmd == 0x00
    then on_open i
    else if cmd == 0x01
    then on_message i n
    else if cmd == 0x02
    then on_close i
    else hang_up

-- `m.rer.Put(err)`, the break and `close(m.ach)`.
finish : Error → St Mux Recv
finish e m =
    and_then (Err.put m.rer (some e), m)
      λ r. λ m. (ok done, record m { rer = r; ach_closed = true })

got_header : Outcome (List ℕ) × Mux → Outcome Recv × Mux
unfolding dispatch finish
got_header (ok buf, m) = dispatch (get_or buf 0 0) (get_or buf 1 0) (uint_be (drop 2 buf)) m
got_header (fail e, m) = finish e m
got_header (panic, m) = (panic, m)

unfoldable pub recv_packet : St Mux Recv
unfolding got_header
recv_packet m = got_header (con_read 4 m)

-- The select: with room and a closed stream Go may take either case, as `choice` says.
put_message : ℕ → List ℕ → Stream → Bool → Bool → St Mux Recv
put_message p msg s true ended = do store p (record s { rch = s.rch ++ msg ∷ [] }); pure reading
put_message p msg s false true = pure reading
put_message p msg s false false = pure (sending p msg)

unfoldable pub deliver : Bool → ℕ → List ℕ → St Mux Recv
unfolding put_message
deliver choice p msg = do
  s ← load p
  let ended = is_set s.rer.err
  put_message p msg s (ltb (length s.rch) rch_cap && (choice || not ended)) ended

-- One step of Recv, and a run of it under the given choices.
unfoldable pub step : Bool → Recv → St Mux Recv
unfolding recv_packet deliver
step choice reading = recv_packet
step choice (sending p msg) = deliver choice p msg
step choice done = pure done

unfoldable pub run : List Bool → Recv → St Mux Recv
unfolding step
run [] r = pure r
run (b ∷ bs) r = do r' ← step b r; run bs r'
