-- ===== src/Czar/Mux.antt =====
-- protocol/czar/mux.go: the streams and the multiplexer. Streams are shared by their users and by
-- the table `usb`, so they live in a store and are named by their place in it. Recv blocks where a
-- stream's channel is full: it is a machine that takes a step at a time.
pub mod Recv
pub mod Transfer
pub mod Reading
pub mod Invariant
pub mod Safety
pub mod Wither
use daze.Base.{
  ℕ, zero, suc, ◌+◌, ◌-◌, ◌%◌, ◌^◌, Bool, true, false, not, ◌&&◌, ◌||◌, Option, none, some, List,
  [], ◌∷◌, ◌++◌, Error, Outcome, ok, fail, panic, eof, unexpected_eof, closed_pipe, broken_pipe,
  length, get_elem?, get_or, set, take, drop, replicate, ltb, leb, ◌==◌, if◌then◌else◌,
}
use daze.Base.Bytes.{uint_be, put_uint16}
use daze.Base.State.{St, pure, raise, crash, lift, and_then, ignoring, ◌>>=◌, ◌>>◌}
use daze.Czar.Sip
use daze.Czar.Sip.{Sip, new_sip}
use daze.Czar.Err
use daze.Czar.Err.{Err, new_err}

pub record Stream : Type 0 where
  pub idx : ℕ
  pub rbf : List ℕ
  pub rch : List (List ℕ)  -- a channel with room for 32 messages
  pub rer : Err
  pub wer : Err
  pub zo0 : Bool  -- whether the sync.Once has run
  pub zo1 : Bool

-- The connection below: what is still to be read of all that the peer will send, what has been
-- written, how many more writes succeed, and whether it has been closed on this side.
pub record Wire : Type 0 where
  pub inp : List ℕ
  pub out : List ℕ
  pub quota : ℕ
  pub closed : Bool

-- The ids in use, the table of streams, and the store of all streams that were made.
pub record Table : Type 0 where
  pub idp : Sip
  pub usb : List (Option ℕ)
  pub heap : List Stream

pub record Mux : Type 0 where
  pub con : Wire
  pub tab : Table
  pub rer : Err
  pub ach : List ℕ  -- the streams that Accept has given out, in order
  pub ach_closed : Bool

-- The capacity of rch, and the most that one frame carries.
abbrev pub rch_cap : ℕ
rch_cap = 32

abbrev pub max_msg : ℕ
max_msg = 2044

-- `m.con.Write`
write_within : List ℕ → ℕ → St Mux (Unit {0})
write_within bs zero m = (fail broken_pipe, m)
write_within bs (suc q) m =
    (ok tt, record m { con = record (m.con) { out = m.con.out ++ bs; quota = q } })

pub con_write : List ℕ → St Mux (Unit {0})
unfolding write_within
con_write bs m = if m.con.closed then (fail closed_pipe, m) else write_within bs m.con.quota m

-- `io.ReadFull(m.con, …)` of `n` bytes
abbrev end_error : List ℕ → Error
end_error [] = eof
end_error (_ ∷ _) = unexpected_eof

pub con_read : ℕ → St Mux (List ℕ)
con_read n m =
    if m.con.closed
    then (fail closed_pipe, m)
    else if leb n (length m.con.inp)
    then (ok (take n m.con.inp), record m { con = record (m.con) { inp = drop n m.con.inp } })
    else (fail (end_error m.con.inp), record m { con = record (m.con) { inp = [] } })

-- `m.con.Close`
pub con_close : St Mux (Unit {0})
con_close m = (ok tt, record m { con = record (m.con) { closed = true } })

-- The stream that a pointer leads to; nil is a panic.
abbrev deref : {A : Type 0} → Option A → Outcome A
deref none = panic
deref (some a) = ok a

pub load : ℕ → St Mux Stream
load p m = (deref (get_elem? m.tab.heap p), m)

pub store : ℕ → Stream → St Mux (Unit {0})
store p s m = (ok tt, record m { tab = record (m.tab) { heap = set m.tab.heap p s } })

abbrev join_nil : Option (Option ℕ) → Option ℕ
join_nil none = none
join_nil (some p) = p

-- `m.usb[idx]`, for a use of the stream: an index out of range and a nil are both panics.
pub slot : ℕ → St Mux ℕ
slot i m = (deref (join_nil (get_elem? m.tab.usb i)), m)

-- `m.usb[idx] = stm`
pub set_slot : ℕ → ℕ → St Mux (Unit {0})
set_slot i p m = (ok tt, record m { tab = record (m.tab) { usb = set m.tab.usb i (some p) } })

pub put_id : ℕ → St Mux (Unit {0})
put_id i m =
    and_then (Sip.put m.tab.idp i, m)
      λ idp. λ m. (ok tt, record m { tab = record (m.tab) { idp = idp } })

pub set_id : ℕ → St Mux (Unit {0})
set_id i m = (ok tt, record m { tab = record (m.tab) { idp = Sip.set_used m.tab.idp i } })

-- `s.rer.Put(err)` and `s.wer.Put(err)`
pub put_rer : ℕ → Error → St Mux (Unit {0})
unfolding load store
put_rer p e = do s ← load p; r ← lift (Err.put s.rer (some e)); store p (record s { rer = r })

pub put_wer : ℕ → Error → St Mux (Unit {0})
unfolding load store
put_wer p e = do s ← load p; w ← lift (Err.put s.wer (some e)); store p (record s { wer = w })

-- `s.zo0.Do` of the frame that tells the peer. Priority 0 of the lock is the caller's.
pub tell_once : ℕ → ℕ → Stream → Bool → St Mux (Unit {0})
unfolding store con_write
tell_once p code s true = pure tt
tell_once p code s false = do
  store p (record s { zo0 = true })
  ignoring (con_write (s.idx ∷ 0x02 ∷ code ∷ 0x00 ∷ []))

pub tell_closed : ℕ → ℕ → St Mux (Unit {0})
unfolding load tell_once
tell_closed p code = do s ← load p; tell_once p code s s.zo0

-- `s.zo1.Do` of the id's return.
pub return_once : ℕ → Stream → Bool → St Mux (Unit {0})
unfolding store put_id
return_once p s true = pure tt
return_once p s false = do store p (record s { zo1 = true }); put_id s.idx

pub return_id : ℕ → St Mux (Unit {0})
unfolding load return_once
return_id p = do s ← load p; return_once p s s.zo1

-- `Stream.Close`
unfoldable pub close : ℕ → St Mux (Unit {0})
unfolding put_rer put_wer tell_closed
close p = do put_rer p closed_pipe; put_wer p closed_pipe; tell_closed p 0x00

-- `Stream.Esolc`
unfoldable pub esolc : ℕ → St Mux (Unit {0})
unfolding put_rer put_wer tell_closed return_id
esolc p = do put_rer p eof; put_wer p closed_pipe; tell_closed p 0x01; return_id p

-- `NewStream`
abbrev pub stream_of : ℕ → Stream
stream_of i = record {
  idx = i;
  rbf = [];
  rch = [];
  rer = new_err;
  wer = new_err;
  zo0 = false;
  zo1 = false;
}

pub alloc : Stream → St Mux ℕ
alloc s m =
    (ok (length m.tab.heap), record m { tab = record (m.tab) { heap = m.tab.heap ++ s ∷ [] } })

unfoldable pub new_stream : ℕ → St Mux ℕ
unfolding alloc
new_stream i = alloc (stream_of i)

-- `NewWither`
unfoldable pub new_wither : ℕ → St Mux ℕ
unfolding alloc close
new_wither i = do p ← alloc (record (stream_of i) { zo0 = true; zo1 = true }); close p; pure p

-- `Mux.Open`
opened : ℕ → Outcome (Unit {0}) × Mux → Outcome ℕ × Mux
unfolding new_stream set_slot put_id
opened i (ok _, m) = (do p ← new_stream i; set_slot i p; pure p) m
opened i (fail e, m) = (do put_id i; raise e) m
opened i (panic, m) = (panic, m)

take_id : St Mux ℕ
take_id m =
    and_then (Sip.get m.tab.idp, m)
      λ r. λ m. (ok r.0, record m { tab = record (m.tab) { idp = r.1 } })

unfoldable pub open_stream : St Mux ℕ
unfolding take_id opened con_write
open_stream = do i ← take_id; λ m. opened i (con_write (i ∷ 0x00 ∷ 0x00 ∷ 0x00 ∷ []) m)

-- `NewMux`, `NewMuxServer` and `NewMuxClient`, over a connection
abbrev pub new_mux : Wire → Mux
new_mux con = record {
  con = con;
  tab = record { idp = new_sip; usb = replicate 256 none; heap = [] };
  rer = new_err;
  ach = [];
  ach_closed = false;
}

-- `for i := range 256`, the last `n` rounds of it.
pub fill_withers : ℕ → ℕ → St Mux (Unit {0})
unfolding new_wither set_slot
fill_withers zero i = pure tt
fill_withers (suc n) i = do p ← new_wither i; set_slot i p; fill_withers n (i + 1)

unfoldable pub new_mux_server : Wire → Outcome (Unit {0}) × Mux
unfolding fill_withers
new_mux_server con = fill_withers 256 0 (new_mux con)

unfoldable pub new_mux_client : Wire → Mux
new_mux_client con = new_mux con
