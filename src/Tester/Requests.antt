-- ===== src/Tester/Requests.antt =====
-- TCPServe on a whole conversation: requests one behind the other, and the end.
use daze.Base.{
  ℕ, zero, suc, ◌+◌, ◌*◌, ◌^◌, ◌≤◌, ◌<◌, ◌≡◌, refl, sym, ◌∙◌, true, some, List, [], ◌∷◌, ◌++◌,
  arith, ok, length, length-drop, length-replicate, ◌/◌, ◌%◌, drop, replicate, leb, append_assoc,
  append-nil,
}
use daze.Base.Bytes.{put_uint16, uint_be-put_uint16}
use daze.Tester.{Peer, fill, command, serve_one, tcp_serve}
use daze.Tester.Stream.{peer, send_lem, check_lem}

pub data Request : Type 0 where
  asks sends : ℕ → ℕ → Request

-- A request on the wire, and what is to come back for it.
abbrev pub encoded : Request → List ℕ
encoded (asks v cnt) = 0 ∷ v ∷ put_uint16 cnt
encoded (sends v cnt) = (1 ∷ v ∷ put_uint16 cnt) ++ replicate cnt v

abbrev pub encoded_all : List Request → List ℕ → List ℕ
encoded_all [] rest = rest
encoded_all (r ∷ rs) rest = encoded r ++ encoded_all rs rest

abbrev pub answer : Request → List ℕ
answer (asks v cnt) = replicate cnt v
answer (sends v cnt) = []

abbrev pub answers : List Request → List ℕ
answers [] = []
answers (r ∷ rs) = answer r ++ answers rs

abbrev pub IsCount : Request → Type 0
IsCount (asks v cnt) = cnt < 2 ^ 16
IsCount (sends v cnt) = cnt < 2 ^ 16

abbrev pub AreCounts : List Request → Type 0
AreCounts [] = Unit
AreCounts (r ∷ rs) = IsCount r × AreCounts rs

-- How a conversation ends: the peer closes its side, or asks the tester to.
pub data Ending : Type 0 where
  leaves : Ending
  closes : ℕ → ℕ → ℕ → List ℕ → Ending

abbrev pub ending : Ending → List ℕ
ending leaves = []
ending (closes a b c rest) = 2 ∷ a ∷ b ∷ c ∷ rest

header_read :
    (a b c d : ℕ) (rest out buf : List ℕ) (q : ℕ)
    → fill 4 (peer (a ∷ b ∷ c ∷ d ∷ rest) out q buf)
      ≡ (ok true, peer rest out q (a ∷ b ∷ c ∷ d ∷ drop 4 buf))
unfolding fill
header_read a b c d rest out buf q =
    let l : leb 4 (length (a ∷ b ∷ c ∷ d ∷ rest)) ≡ true = ground arith in rw l refl

module _ (size : ℕ) (long : 2048 ≤ size) where
  header_length :
      (a b c d : ℕ) (buf : List ℕ) → length buf ≡ size → length (a ∷ b ∷ c ∷ d ∷ drop 4 buf) ≡ size
  header_length a b c d buf l = omega (arith, length-drop 4 buf, l, long)

  -- One pass: the answer is written, the request is read, the buffer keeps its length.
  abbrev Passes : Request → List ℕ → List ℕ → ℕ → List ℕ → Type 0
  Passes r rest out q buf =
      (q' : ℕ) × (buf' : List ℕ) × (q ≤ q' + 33)
      × (length buf' ≡ size)
      × (serve_one size (peer (encoded r ++ rest) out q buf)
          ≡ (ok true, peer rest (out ++ answer r) q' buf'))

  serve_one-Passes :
      (r : Request) (rest out buf : List ℕ) (q : ℕ)
      → IsCount r
      → 33 ≤ q
      → length buf ≡ size
      → Passes r rest out q buf
  unfolding serve_one command put_uint16
  serve_one-Passes (asks v cnt) rest out buf q h quota l =
      let head = 0 ∷ v ∷ (cnt / 256 % 256) ∷ (cnt % 256) ∷ drop 4 buf in
      let (q', used, e) = send_lem size v cnt rest out head q (omega (arith, h, long)) quota in
      (
        q',
        replicate size v,
        used,
        length-replicate size v,
        rw
            (
              header_read 0 v (cnt / 256 % 256) (cnt % 256) rest out buf q,
              uint_be-put_uint16 cnt h,
              e,
            )
            refl,
      )
  serve_one-Passes (sends v cnt) rest out buf q h quota l =
      let head = 1 ∷ v ∷ (cnt / 256 % 256) ∷ (cnt % 256) ∷ drop 4 buf in
      let (buf', l', e) =
        check_lem size v cnt rest out head q (omega (arith, h, long))
          (header_length 1 v (cnt / 256 % 256) (cnt % 256) buf l) in
      (
        q,
        buf',
        omega arith,
        l',
        rw
            (
              header_read 1 v (cnt / 256 % 256) (cnt % 256) (replicate cnt v ++ rest) out buf q,
              uint_be-put_uint16 cnt h,
              e,
              append-nil out,
            )
            refl,
      )

  serve_ending :
      (fuel : ℕ) (end : Ending) (out buf : List ℕ) (q : ℕ)
      → (p : Peer) × (p.out ≡ out)
        × (tcp_serve size (suc (suc fuel)) (peer (ending end) out q buf) ≡ some (ok tt, p))
  unfolding tcp_serve serve_one fill command
  serve_ending fuel leaves out buf q = (peer [] out q buf, refl, refl)
  serve_ending fuel (closes a b c rest) out buf q =
      let last = peer rest out q (2 ∷ a ∷ b ∷ c ∷ drop 4 buf) in
      let full : leb 4 (length (2 ∷ a ∷ b ∷ c ∷ rest)) ≡ true = ground arith in
      (record last { closed = true }, refl, rw full refl)

  serve_passed :
      (fuel : ℕ) (p p' : Peer)
      → serve_one size p ≡ (ok true, p')
      → tcp_serve size (suc fuel) p ≡ tcp_serve size fuel p'
  unfolding tcp_serve
  serve_passed fuel p p' e = rw e refl

  -- On any requests with counts of 16 bits, and behind them the end of the stream or a request to
  -- close, TCPServe answers each command 0 with as many copies of the byte as it asks for, takes
  -- the copies of each command 1, leaves alone what comes behind a close, and returns without a
  -- panic; where 33 writes for each request succeed, and on enough fuel for two passes more than
  -- there are requests; the buffer has at least 2048 bytes.
  pub tcp_serve-answers :
      (rs : List Request) (end : Ending) (fuel : ℕ) (out buf : List ℕ) (q : ℕ)
      → AreCounts rs
      → 2 + length rs ≤ fuel
      → 33 * length rs ≤ q
      → length buf ≡ size
      → (p : Peer) × (p.out ≡ out ++ answers rs)
        × (tcp_serve size fuel (peer (encoded_all rs (ending end)) out q buf) ≡ some (ok tt, p))
  tcp_serve-answers rs end zero out buf q h f quota l = absurd (omega (arith, f))
  tcp_serve-answers [] end (suc zero) out buf q h f quota l = absurd (omega (arith, f))
  tcp_serve-answers [] end (suc (suc fuel)) out buf q h f quota l =
      let (p, same, e) = serve_ending fuel end out buf q in (p, same ∙ sym (append-nil out), e)
  tcp_serve-answers (r ∷ rs) end (suc fuel) out buf q h f quota l =
      let rest = encoded_all rs (ending end) in
      let (q', buf', used, l', pass) =
        serve_one-Passes r rest out buf q h.0 (omega (arith, quota)) l in
      let (p, same, e) =
        tcp_serve-answers rs end fuel (out ++ answer r) buf' q' h.1 (omega (arith, f))
          (omega (arith, quota, used)) l' in
      (
        p,
        same ∙ append_assoc out (answer r) (answers rs),
        serve_passed fuel (peer (encoded r ++ rest) out q buf) (peer rest (out ++ answer r) q' buf')
              pass
            ∙ e,
      )
