-- ===== src/Tests/CzarRuns.antt =====
-- Tests of protocol/czar.
use daze.Base.{
  ◌+◌, ◌≡◌, refl, true, false, none, some, [], ◌∷◌, ◌++◌, arith, ok, eof, replicate, length,
}
use daze.Base.State.{and_then}
use daze.Czar.Sip
use daze.Czar.Sip.{Sip, IsPool, Got, get}
use daze.Czar.Mux.{Wire, Mux, stream_of, new_mux, new_mux_server}
use daze.Czar.Mux.Recv.{reading, run}
use daze.Czar.Mux.Recv.Server
use daze.Czar.Mux.Recv.Server.{Serves}
use daze.Czar.Mux.Recv.Arrival
use daze.Czar.Mux.Recv.Arrival.{Arrived, always, twice, hearing}
use daze.Czar.Err
use daze.Czar.Err.{new_err, stored}
use daze.Czar.Mux.Reading.{Reader, returned, failed}
use daze.Czar.Mux.Reading.Results
use daze.Czar.Mux.Transfer.{write}
use daze.Czar.Mux.Transfer.Sender.{joined, pending, pieces, writing}

get-Got_example : Got (true ∷ false ∷ true ∷ []) (get (true ∷ false ∷ true ∷ []))
get-Got_example = Sip.get-Got (true ∷ false ∷ true ∷ []) (omega arith)

-- A message for stream 3, an open of stream 3, a command that is none.
abbrev noise : Wire
noise = record {
  inp = 3 ∷ 1 ∷ 0 ∷ 1 ∷ 9 ∷ 3 ∷ 0 ∷ 0 ∷ 0 ∷ 7 ∷ 8 ∷ 0 ∷ 0 ∷ [];
  out = [];
  quota = 5;
  closed = false;
}

server-Serves_example :
    Serves (and_then (new_mux_server noise) (λ _. run (true ∷ false ∷ true ∷ []) reading))
server-Serves_example = Server.server-Serves noise (true ∷ false ∷ true ∷ []) (omega arith)

abbrev wire : Wire
wire = record { inp = []; out = []; quota = 0; closed = false }

-- A multiplexer with one stream, of id 0.
abbrev one : Mux
one = record (new_mux wire) {
  tab = record { idp = true ∷ []; usb = some 0 ∷ replicate 255 none; heap = stream_of 0 ∷ [] };
}

write-Arrived_example :
    let cs = pieces 4 (5 ∷ 6 ∷ 7 ∷ []) in
    let w = write 0 (5 ∷ 6 ∷ 7 ∷ []) (writing one [] (length cs + 0)) in
    (w.0 ≡ ok (3, none))
    × (a : Arrived one 0
        (stream_of 0)
        cs
        []
        (run (always (twice (length cs))) reading (hearing one (w.1.con.out ++ []))))
    × (pending a.stream ≡ 5 ∷ 6 ∷ 7 ∷ [])
unfolding pieces joined
write-Arrived_example =
    Arrival.write-Arrived one one 0 0 0 (stream_of 0) (stream_of 0) (5 ∷ 6 ∷ 7 ∷ []) [] refl refl
      refl refl refl (omega arith)

-- A Read finds no message; one comes then, and the end of the stream behind it, before Read asks for
-- the error: it returns the end, and the message is left.
abbrev lost : Reader
lost = record {
  stream = record (stream_of 0) { rch = (7 ∷ []) ∷ []; rer = stored eof };
  mux_rer = new_err;
  place = returned (failed (some eof));
  queued = (7 ∷ []) ∷ [];
  given = [];
}
