-- ===== src/Czar/Mux/Reading.antt =====
-- Stream.Read of protocol/czar/mux.go, a statement at a time, between any steps of the others: Recv,
-- which queues messages on the stream, Esolc and Close, which put an error on it, and the end of the
-- multiplexer. Of the stream only one Read runs at a time, so that `rbf` is its own.
pub mod Order
pub mod Results
use daze.Base.{
  ℕ, ◌≡◌, Bool, true, false, Option, none, some, List, [], ◌∷◌, ◌++◌, Error, Outcome, ok, fail,
  panic, length, take, drop, ltb, if◌then◌else◌,
}
use daze.Czar.Err
use daze.Czar.Err.{Err, new_err}
use daze.Czar.Mux.{Stream, stream_of, rch_cap}

pub data Result : Type 0 where
  gave : List ℕ → Result
  failed : Option Error → Result

-- Where Read is, with the length of its buffer: before `len(s.rch) != 0`, before the receive behind
-- it, before `s.rer.Get()`, at the select, and in the cases of it that return an error.
pub data Place : Type 0 where
  away : Place
  checking taking asking selecting : (size : ℕ) → Place
  signalled broken passed : Place
  returned : Result → Place
  crashed : Place

-- A stream and the error of its multiplexer; what has been queued, and what Reads have given.
pub record Reader : Type 0 where
  pub stream : Stream
  pub mux_rer : Err
  pub place : Place
  pub queued : List (List ℕ)
  pub given : List ℕ

abbrev pub new_reader : ℕ → Reader
new_reader i = record {
  stream = stream_of i;
  mux_rer = new_err;
  place = away;
  queued = [];
  given = [];
}

-- The cases of the select.
pub data Case : Type 0 where
  message stream_error mux_error : Case

-- The steps of the reader, and those of the others.
pub data Move : Type 0 where
  calls : (size : ℕ) → Move
  goes_on : Move
  picks : Case → Move
  queues : (msg : List ℕ) → Move
  puts : Error → Move
  mux_ends : Error → Move

-- `n := copy(p, s.rbf)` and below.
unfoldable pub copy_out : ℕ → Stream → Reader → Reader
copy_out size s r = record r {
  stream = record s { rbf = drop size s.rbf };
  place = returned (gave (take size s.rbf));
  given = r.given ++ take size s.rbf;
}

-- `len(s.rbf) != 0`
unfoldable pub begin_read : ℕ → List ℕ → Reader → Reader
unfolding copy_out
begin_read size [] r = record r { place = checking size }
begin_read size (b ∷ bs) r = copy_out size r.stream r

-- `len(s.rch) != 0`
unfoldable pub check_rch : ℕ → List (List ℕ) → Reader → Reader
check_rch size [] r = record r { place = asking size }
check_rch size (msg ∷ rest) r = record r { place = taking size }

-- `s.rbf = <-s.rch` and below.
unfoldable pub receive : ℕ → List (List ℕ) → Reader → Option Reader
unfolding copy_out
receive size [] r = none
receive size (msg ∷ rest) r = some (copy_out size (record (r.stream) { rbf = msg; rch = rest }) r)

-- `if err := s.rer.Get(); err != nil`
unfoldable pub ask : ℕ → Option Error → Reader → Reader
ask size none r = record r { place = selecting size }
ask size (some e) r = record r { place = returned (failed (some e)) }

-- The stream's Put, and the multiplexer's.
unfoldable pub put_stream : Outcome Err → Reader → Reader
put_stream (ok e) r = record r { stream = record (r.stream) { rer = e } }
put_stream (fail x) r = record r { place = crashed }
put_stream panic r = record r { place = crashed }

unfoldable pub put_mux : Outcome Err → Reader → Reader
put_mux (ok e) r = record r { mux_rer = e }
put_mux (fail x) r = record r { place = crashed }
put_mux panic r = record r { place = crashed }

unfoldable pub go_on : Place → Reader → Option Reader
unfolding check_rch receive ask put_stream
go_on (checking size) r = some (check_rch size r.stream.rch r)
go_on (taking size) r = receive size r.stream.rch r
go_on (asking size) r = some (ask size r.stream.rer.err r)
go_on signalled r = some (record r { place = returned (failed (r.stream.rer.err)) })
go_on broken r =
    some (put_stream (Err.put r.stream.rer r.mux_rer.err) (record r { place = passed }))
go_on passed r = some (record r { place = returned (failed (r.mux_rer.err)) })
go_on _ r = none

-- A case of the select, where it is ready.
unfoldable pub pick : Place → Case → Reader → Option Reader
unfolding receive
pick (selecting size) message r = receive size r.stream.rch r
pick (selecting size) stream_error r =
    if r.stream.rer.sig then some (record r { place = signalled }) else none
pick (selecting size) mux_error r =
    if r.mux_rer.sig then some (record r { place = broken }) else none
pick _ c r = none

unfoldable pub call : Place → ℕ → Reader → Option Reader
unfolding begin_read
call away size r = some (begin_read size r.stream.rbf r)
call (returned x) size r = some (begin_read size r.stream.rbf r)
call _ size r = none

-- A step; `none` where it cannot be taken.
unfoldable pub turn : Move → Reader → Option Reader
unfolding go_on pick call put_stream put_mux
turn (calls size) r = call r.place size r
turn goes_on r = go_on r.place r
turn (picks c) r = pick r.place c r
turn (queues msg) r =
    if ltb (length r.stream.rch) rch_cap
    then some (record r {
      stream = record (r.stream) { rch = r.stream.rch ++ msg ∷ [] };
      queued = r.queued ++ msg ∷ [];
    })
    else none
turn (puts e) r = some (put_stream (Err.put r.stream.rer (some e)) r)
turn (mux_ends e) r = some (put_mux (Err.put r.mux_rer (some e)) r)

-- The states that a stream, new at first, gets into.
pub data Reached (i : ℕ) : Reader → Type 0 where
  start : Reached i (new_reader i)
  later : {r t : Reader} (m : Move) → Reached i r → turn m r ≡ some t → Reached i t
