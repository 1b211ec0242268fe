-- ===== src/Ashe/Udp.antt =====
-- UDPConn of protocol/ashe/engine.go: packets on a byte stream, each behind its length in two
-- bytes.
use daze.Base.{
  ℕ, zero, suc, ◌+◌, ◌-◌, ◌%◌, ◌^◌, ◌≤◌, ◌≡◌, refl, false, some, List, [], ◌∷◌, ◌++◌, arith, ok,
  length, leb, append_assoc, length-append, le→leb, append-nil,
}
use daze.Base.Bytes.{
  AreBytes, uint_be, put_uint16, uint_be-put_uint16, put_uint16-AreBytes, AreBytes-append,
}
use daze.Base.State.{pure, doa, and_then-pure, ◌>>=◌, ◌>>◌}
use daze.Net.{
  M, stream, IsInvolutive, read_full, write, length-stream, stream-append, stream-stream,
}
use daze.Net.Steps.{conn, read_full-append, write_ok}

-- What the packets look like on the stream.
pub frames : List (List ℕ) → List ℕ
frames [] = []
frames (p ∷ ps) = put_uint16 (length p) ++ (p ++ frames ps)

-- A packet that UDPConn can carry to a reader with a buffer of `size` bytes.
pub record IsPacket (size : ℕ) (p : List ℕ) : Type 0 where
  pub fits : length p ≤ size
  pub short : length p ≤ 65527
  pub bytes : AreBytes p

abbrev pub ArePackets : ℕ → List (List ℕ) → Type 0
ArePackets size [] = Unit
ArePackets size (p ∷ ps) = IsPacket size p × ArePackets size ps

frames-AreBytes : (size : ℕ) (ps : List (List ℕ)) → ArePackets size ps → AreBytes (frames ps)
unfolding frames
frames-AreBytes size [] h = tt
frames-AreBytes size (p ∷ ps) h =
    AreBytes-append (put_uint16 (length p)) _ (put_uint16-AreBytes (length p))
      (AreBytes-append p _ h.0.bytes (frames-AreBytes size ps h.1))

module _ (crypt : List ℕ → ℕ → ℕ → ℕ) where
  -- `UDPConn.Read` into a buffer of `size` bytes
  unfoldable pub udp_read : ℕ → M (List ℕ)
  udp_read size = do
    doa (leb 2 size)
    head ← read_full crypt 2
    doa (leb (uint_be head) size)
    read_full crypt (uint_be head)

  -- `UDPConn.Write`, with the number that it returns
  unfoldable pub udp_write : List ℕ → M ℕ
  udp_write p = do
    doa (leb (length p) 65527)
    write crypt (put_uint16 (length p % 2 ^ 16) ++ p)
    pure (2 + length p - 2)

  -- The packets written one after the other, and as many read.
  pub write_all : List (List ℕ) → M (Unit {0})
  write_all [] = pure tt
  write_all (p ∷ ps) = do n ← udp_write p; write_all ps

  pub read_all : ℕ → ℕ → M (List (List ℕ))
  read_all size zero = pure []
  read_all size (suc n) = do p ← udp_read size; ps ← read_all size n; pure (p ∷ ps)

  udp_write-frame :
      (p inp out key : List ℕ) (q r w : ℕ)
      → length p ≤ 65527
      → udp_write p (conn crypt inp out (suc q) (some key) r w false) ≡ (
        ok (length p),
        conn crypt inp
            (out ++ stream crypt key w (put_uint16 (length p) ++ p))
            q
            (some key)
            r
            (w + length (put_uint16 (length p) ++ p))
            false,
      )
  unfolding udp_write
  udp_write-frame p inp out key q r w h =
      let m : length p % 2 ^ 16 ≡ length p = omega arith in
      let n : 2 + length p - 2 ≡ length p = omega arith in rw (le→leb _ 65527 h, m, write_ok, n)

  write_all-frames :
      (size : ℕ) (ps : List (List ℕ)) (inp out key : List ℕ) (r w : ℕ)
      → ArePackets size ps
      → write_all ps (conn crypt inp out (length ps) (some key) r w false) ≡ (
        ok tt,
        conn crypt inp
            (out ++ stream crypt key w (frames ps))
            0
            (some key)
            r
            (w + length (frames ps))
            false,
      )
  unfolding write_all frames stream
  write_all-frames size [] inp out key r w h =
      let e : w + 0 ≡ w = omega arith in rw (append-nil out, e)
  write_all-frames size (p ∷ ps) inp out key r w h =
      let f = put_uint16 (length p) ++ p in
      let e : w + length f + length (frames ps) ≡ w + length (f ++ frames ps) =
        omega (arith, length-append f (frames ps)) in
      rw (
        udp_write-frame p inp out key (length ps) r w h.0.short,
        write_all-frames size ps inp (out ++ stream crypt key w f) key r (w + length f) h.1,
        e,
        append_assoc out,
        ← stream-append crypt key w f (frames ps),
        append_assoc (put_uint16 (length p)) p (frames ps),
      )

  udp_read-frame :
      IsInvolutive crypt
      → (size : ℕ) (p rest out key : List ℕ) (q i w : ℕ) → IsPacket size p
      → 2 ≤ size
      → udp_read size (
          conn crypt
            (stream crypt key i (put_uint16 (length p) ++ (p ++ rest)))
            out
            q
            (some key)
            i
            w
            false)
        ≡ (
          ok p,
          conn crypt
              (stream crypt key (i + 2 + length p) rest)
              out
              q
              (some key)
              (i + 2 + length p)
              w
              false,
        )
  unfolding udp_read put_uint16
  udp_read-frame inv size p rest out key q i w h s2 = rw (
    le→leb 2 size s2,
    stream-append crypt key i (put_uint16 (length p)) (p ++ rest),
    stream-append crypt key (i + 2) p rest,
    read_full-append crypt 2 (stream crypt key i (put_uint16 (length p))) _ _ _ _ _ _ _
        (length-stream crypt key i _),
    stream-stream crypt inv key i (put_uint16 (length p)) (put_uint16-AreBytes (length p)),
    uint_be-put_uint16 (length p) (omega (arith, h.short)),
    le→leb (length p) size h.fits,
    read_full-append crypt (length p) (stream crypt key (i + 2) p) _ _ _ _ _ _ _
        (length-stream crypt key (i + 2) p),
    stream-stream crypt inv key (i + 2) p h.bytes,
  )

  read_all-frames :
      IsInvolutive crypt
      → (size : ℕ) (ps : List (List ℕ)) (out key : List ℕ) (q i w : ℕ) → 2 ≤ size
      → ArePackets size ps
      → (read_all size
          (length ps)
          (conn crypt (stream crypt key i (frames ps)) out q (some key) i w false)).0
        ≡ ok ps
  unfolding read_all frames
  read_all-frames inv size [] out key q i w s2 h = refl
  read_all-frames inv size (p ∷ ps) out key q i w s2 h =
      let ih = read_all-frames inv size ps out key q (i + 2 + length p) w s2 h.1 in
      rw (udp_read-frame inv size p (frames ps) out key q i w h.0 s2)
        (and_then-pure _ (λ ps'. p ∷ ps') _ ih)

  -- The packets that one end of an encrypted stream writes are those that the other end reads, in
  -- order, each whole and none joined to another: for packets of bytes that fit the reader's
  -- buffer and are no longer than UDPConn allows, at any place of the stream.
  pub read_all-write_all :
      IsInvolutive crypt
      → (size : ℕ) (ps : List (List ℕ)) (key : List ℕ) (r i : ℕ) → 2 ≤ size
      → ArePackets size ps
      → let sent = (write_all ps (conn crypt [] [] (length ps) (some key) r i false)).1.out in
        (read_all size (length ps) (conn crypt sent [] 0 (some key) i r false)).0 ≡ ok ps
  read_all-write_all inv size ps key r i s2 h =
      rw (write_all-frames size ps [] [] key r i h) (read_all-frames inv size ps [] key 0 i r s2 h)
