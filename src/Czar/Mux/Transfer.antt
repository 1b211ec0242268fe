-- ===== src/Czar/Mux/Transfer.antt =====
-- Stream.Write of protocol/czar/mux.go.
pub mod Sender
use daze.Base.{
  ℕ, zero, suc, ◌+◌, ◌-◌, ◌%◌, ◌^◌, Bool, true, false, Option, none, some, List, [], ◌∷◌, ◌++◌,
  Error, Outcome, ok, fail, panic, length, take, drop, leb, if◌then◌else◌,
}
use daze.Base.Bytes.{put_uint16}
use daze.Base.State.{St, pure, raise, lift, and_then, ◌>>=◌, ◌>>◌}
use daze.Czar.Err
use daze.Czar.Err.{Err}
use daze.Czar.Mux.{Stream, Mux, max_msg, con_write, load, store, put_rer, put_wer}

-- The buffer of one frame.
unfoldable pub frame : ℕ → List ℕ → List ℕ
frame i msg = i ∷ 0x01 ∷ put_uint16 (length msg % 2 ^ 16) ++ msg

-- The function that Write runs under the lock: its error, if there is one.
sent_frame : ℕ → Outcome (Unit {0}) × Mux → Outcome (Option Error) × Mux
sent_frame p (ok _, m) = (ok none, m)
sent_frame p (fail e, m) = (do put_wer p e; pure (some e)) m
sent_frame p (panic, m) = (panic, m)

pub send_frame : ℕ → List ℕ → St Mux (Option Error)
unfolding sent_frame
send_frame p buf = do
  s ← load p
  elim s.wer.err [ some e ↦ pure (some e) | none ↦ λ m. sent_frame p (con_write buf m) ]

-- The loop of `Stream.Write`: the bytes left, and the count `n` that is returned with the error.
-- Each round but the last takes a byte or more off, so that `length bs + 1` rounds are enough.
pub write_loop : ℕ → ℕ → ℕ → List ℕ → ℕ → St Mux (ℕ × Option Error)
unfolding send_frame frame
write_loop zero i p bs n = pure (n, none)
write_loop (suc fuel) i p [] n = pure (n, none)
write_loop (suc fuel) i p (b ∷ bs) n = do
  let l = if leb max_msg (length (b ∷ bs)) then max_msg else length (b ∷ bs)
  r ← send_frame p (frame i (take l (b ∷ bs)))
  elim r [ some e ↦ pure (n, some e) | none ↦ write_loop fuel i p (drop l (b ∷ bs)) (n + l) ]

-- `Stream.Write`
unfoldable pub write : ℕ → List ℕ → St Mux (ℕ × Option Error)
unfolding write_loop
write p bs = do s ← load p; write_loop (length bs + 1) s.idx p bs 0
