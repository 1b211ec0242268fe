-- ===== src/Czar/Mux/Transfer/Sender.antt =====
-- Stream.Write cuts what it is given into frames.
use native.Mathlib.Nat.{suc-add}
use daze.Base.{
  ℕ, zero, suc, ◌+◌, ◌≤◌, ◌<◌, ◌≡◌, refl, ◌∙◌, false, none, some, List, [], ◌∷◌, ◌++◌, arith, ok,
  length, take, drop, get_elem?, leb, if◌then◌else◌, append_assoc, append-nil, take-append-drop,
  length-drop, length-take_of_le,
}
use daze.Czar.Mux.{Stream, Mux, max_msg, con_write, write_within, load}
use daze.Czar.Mux.Transfer.{frame, send_frame, write_loop, write}

-- The length of the first piece, and all of the pieces.
abbrev pub piece : List ℕ → ℕ
piece bs = if leb max_msg (length bs) then max_msg else length bs

unfoldable pub pieces : ℕ → List ℕ → List (List ℕ)
pieces zero bs = []
pieces (suc fuel) [] = []
pieces (suc fuel) (b ∷ bs) =
    take (piece (b ∷ bs)) (b ∷ bs) ∷ pieces fuel (drop (piece (b ∷ bs)) (b ∷ bs))

-- Lists of lists joined up.
unfoldable pub joined : List (List ℕ) → List ℕ
joined [] = []
joined (c ∷ cs) = c ++ joined cs

-- What the user of a stream has still to read.
abbrev pub pending : Stream → List ℕ
pending s = s.rbf ++ joined s.rch

-- The frames of the pieces for the stream `i`.
unfoldable pub wire : ℕ → List (List ℕ) → List ℕ
wire i [] = []
wire i (c ∷ cs) = frame i c ++ wire i cs

abbrev pub AreShort : List (List ℕ) → Type 0
AreShort [] = Unit
AreShort (c ∷ cs) = (length c ≤ max_msg) × AreShort cs

piece-le : (bs : List ℕ) → piece bs ≤ length bs
piece-le bs = ground arith

piece-le_max : (bs : List ℕ) → piece bs ≤ max_msg
piece-le_max bs = ground arith

piece_pos : (b : ℕ) (bs : List ℕ) → 0 < piece (b ∷ bs)
piece_pos b bs = ground arith

rest_shorter : (b : ℕ) (bs : List ℕ) → length (drop (piece (b ∷ bs)) (b ∷ bs)) < length (b ∷ bs)
rest_shorter b bs =
    omega (arith, length-drop (piece (b ∷ bs)) (b ∷ bs), piece_pos b bs, piece-le (b ∷ bs))

-- Joined, the pieces are the whole.
pub joined-pieces : (fuel : ℕ) (bs : List ℕ) → length bs < fuel → joined (pieces fuel bs) ≡ bs
unfolding joined pieces
joined-pieces zero bs h = absurd (omega arith)
joined-pieces (suc fuel) [] h = refl
joined-pieces (suc fuel) (b ∷ bs) h =
    rw (joined-pieces fuel (drop (piece (b ∷ bs)) (b ∷ bs)) (omega (arith, rest_shorter b bs)))
      (take-append-drop (piece (b ∷ bs)) (b ∷ bs))

pub pieces-AreShort : (fuel : ℕ) (bs : List ℕ) → AreShort (pieces fuel bs)
unfolding pieces
pieces-AreShort zero bs = tt
pieces-AreShort (suc fuel) [] = tt
pieces-AreShort (suc fuel) (b ∷ bs) = (
  omega (
    arith,
    length-take_of_le (piece (b ∷ bs)) (b ∷ bs) (piece-le (b ∷ bs)),
    piece-le_max (b ∷ bs),
  ),
  pieces-AreShort fuel (drop (piece (b ∷ bs)) (b ∷ bs)),
)

-- A multiplexer whose connection has written `out` and takes `q` more writes.
abbrev pub writing : Mux → List ℕ → ℕ → Mux
writing m out q = record m {
  con = record { inp = m.con.inp; out = out; quota = q; closed = false };
}

module _ (m : Mux) (p : ℕ) (s : Stream) (e : get_elem? m.tab.heap p ≡ some s)
    (open_ : s.wer.err ≡ none) where
  send_frame-writing :
      (buf out : List ℕ) (q : ℕ)
      → send_frame p buf (writing m out (suc q)) ≡ (ok none, writing m (out ++ buf) q)
  unfolding send_frame load con_write write_within
  send_frame-writing buf out q = rw (e, open_)

  write_loop-writing :
      (fuel i n : ℕ) (bs out : List ℕ) (q : ℕ)
      → length bs < fuel
      → write_loop fuel i p bs n (writing m out (length (pieces fuel bs) + q))
        ≡ (ok (n + length bs, none), writing m (out ++ wire i (pieces fuel bs)) q)
  unfolding write_loop pieces wire
  write_loop-writing zero i n bs out q h = absurd (omega arith)
  write_loop-writing (suc fuel) i n [] out q h =
      let zq : 0 + q ≡ q = omega arith in
      let nz : n + 0 ≡ n = omega arith in rw (zq, nz, append-nil out)
  write_loop-writing (suc fuel) i n (b ∷ bs) out q h =
      let l = piece (b ∷ bs) in
      let rest = drop l (b ∷ bs) in
      let count : n + l + length rest ≡ n + length (b ∷ bs) =
        omega (arith, length-drop l (b ∷ bs), piece-le (b ∷ bs)) in
      let ih =
        write_loop-writing fuel i (n + l) rest (out ++ frame i (take l (b ∷ bs))) q
          (omega (arith, rest_shorter b bs)) in
      rw
        (
          suc-add (length (pieces fuel rest)) q,
          send_frame-writing (frame i (take l (b ∷ bs))) out (length (pieces fuel rest) + q),
        )
        (ih ∙ rw (count, append_assoc out))

  -- Write of an open stream on a connection that takes the frames writes all of the bytes, in
  -- frames of at most 2044, and says so: enough rounds are given.
  pub write-frames :
      (bs out : List ℕ) (q : ℕ)
      → let cs = pieces (length bs + 1) bs in
        (write p bs (writing m out (length cs + q))
          ≡ (ok (length bs, none), writing m (out ++ wire s.idx cs) q))
        × (joined cs ≡ bs)
        × AreShort cs
  unfolding write load
  write-frames bs out q =
      let zn : 0 + length bs ≡ length bs = omega arith in
      (
        rw (e, write_loop-writing (length bs + 1) s.idx 0 bs out q (omega arith), zn),
        joined-pieces (length bs + 1) bs (omega arith),
        pieces-AreShort (length bs + 1) bs,
      )
