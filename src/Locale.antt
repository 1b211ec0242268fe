-- ===== src/Locale.antt =====
-- The local end of daze: Locale of daze.go, and the reads that its handlers make of a browser's
-- connection through bufio.Reader. Several of them throw the error away and go on with what they
-- have; that is written out here. The stream ends, it does not break.
pub mod Socks4
pub mod Socks5
pub mod Reads
pub mod Requests
pub mod Relays
pub mod Crashes
pub mod Front
pub mod Proxy
pub mod Proxying
pub mod Datagram
use daze.Base.{
  ℕ, zero, suc, Bool, true, false, Option, none, some, List, [], ◌∷◌, ◌++◌, Error, Outcome, ok,
  fail, panic, eof, unexpected_eof, broken_pipe, length, take, drop, replicate, leb, ◌==◌, ◌-◌,
  if◌then◌else◌,
}
use daze.Base.State.{St}

pub record Client : Type 0 where
  pub inp : List ℕ  -- what the browser has sent and nobody has read
  pub out : List ℕ  -- what has been written to it
  pub quota : ℕ  -- how many more writes succeed
  pub dialled : List (List ℕ)  -- the addresses dialled with "tcp", in order

-- How a handler that returns no error has ended: by itself, in a Link with the address, or as a
-- UDP association.
pub data Served : Type 0 where
  finished : Served
  linked : List ℕ → Served
  associated : Served

-- `cliReader.Discard(n)`, its error unused.
abbrev pub discard : ℕ → St Client (Unit {0})
discard n c = (ok tt, record c { inp = drop n c.inp })

head_or : List ℕ → ℕ
head_or [] = 0
head_or (b ∷ bs) = b

-- `b, _ = cliReader.ReadByte()`: 0 at the end of the stream.
unfoldable pub read_byte : St Client ℕ
unfolding head_or
read_byte c = (ok (head_or c.inp), record c { inp = drop 1 c.inp })

-- `io.ReadFull(cliReader, buf)` on `n` zeros, its error unused.
unfoldable pub read_lax : ℕ → St Client (List ℕ)
read_lax n c =
    (ok (take n c.inp ++ replicate (n - length c.inp) 0), record c { inp = drop n c.inp })

-- The same with its error, which is EOF where nothing is left.
unfoldable pub read_strict : ℕ → St Client (List ℕ)
read_strict n c =
    if leb n (length c.inp)
    then (ok (take n c.inp), record c { inp = drop n c.inp })
    else (fail (elim c.inp [ [] ↦ eof | _ ∷ _ ↦ unexpected_eof ]), record c { inp = [] })

-- The bytes before the first 0 and those behind it.
unfoldable pub split_zero : List ℕ → Option (List ℕ × List ℕ)
split_zero [] = none
split_zero (b ∷ bs) =
    let rest = split_zero bs in
    if b == 0 then some ([], bs) else elim rest [ none ↦ none | some (u, v) ↦ some (b ∷ u, v) ]

-- `cliReader.ReadBytes(0x00)`, without the 0.
unfoldable pub read_bytes : St Client (List ℕ)
read_bytes c = elim (split_zero c.inp) [
  | none ↦ (fail eof, record c { inp = [] })
  | some (u, v) ↦ (ok u, record c { inp = v })
]

unfoldable pub write_within : ℕ → List ℕ → St Client (Unit {0})
write_within zero bs c = (fail broken_pipe, c)
write_within (suc q) bs c = (ok tt, record c { out = c.out ++ bs; quota = q })

-- `cli.Write`
unfoldable pub write : List ℕ → St Client (Unit {0})
unfolding write_within
write bs c = write_within c.quota bs c

-- `l.Dialer.Dial(ctx, "tcp", dst)`, where `dial` says how it ends: the error, if any.
unfoldable pub dial_tcp : (List ℕ → Option Error) → List ℕ → St Client (Option Error)
dial_tcp dial dst c = (ok (dial dst), record c { dialled = c.dialled ++ dst ∷ [] })
