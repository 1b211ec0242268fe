-- ===== src/Dahlia/Tunnel.antt =====
-- Both ends of protocol/dahlia together.
use daze.Base.{
  ℕ, suc, ◌+◌, ◌^◌, ◌≤◌, ◌<◌, ◌≡◌, ◌∙◌, ap, false, none, some, List, [], ◌++◌, arith, ok, length,
  append_assoc,
}
use daze.Base.Bytes.{
  AreBytes, put_uint64, uint_be-put_uint64, put_uint64-AreBytes, length-put_uint64,
}
use daze.Base.State.{◌>>=◌, ◌>>◌, pure}
use daze.Net.{
  M, fresh, stream, IsInvolutive, read_full, write, stream-stream, length-stream, gravity,
}
use daze.Net.Steps.{conn, read_full-append, read_full_all}
use daze.Ashe.{xor_key, is_expired, server_hello, client_hello}
use daze.Ashe.Wire.{xor_key-total}
use daze.Dahlia.{server_serve, client_serve, greeted, close_failed}

module _ (crypt : List ℕ → ℕ → ℕ → ℕ) where
  -- What the two Links do with one message each way: the client's end writes `up` and reads what
  -- the other end answers; the server's end reads that and writes `down`.
  abbrev pub client_run : List ℕ → List ℕ → ℕ → List ℕ → ℕ → M (List ℕ)
  client_run cipher salt now up n = do
    client_serve crypt cipher salt now none
    write crypt up
    read_full crypt n

  abbrev pub server_run : List ℕ → ℕ → ℕ → List ℕ → M (List ℕ)
  server_run cipher now n down = do
    server_serve crypt cipher now none
    got ← read_full crypt n
    write crypt down
    pure got

  -- What the client's end writes.
  abbrev pub wire : List ℕ → List ℕ → ℕ → List ℕ → List ℕ
  wire key salt now up = salt ++ (stream crypt key 0 (put_uint64 now) ++ stream crypt key 8 up)

  client_run_lem :
      IsInvolutive crypt
      → (cipher salt key up down : List ℕ) (now q : ℕ) → xor_key salt cipher ≡ ok key
      → AreBytes down
      → client_run cipher salt now up
          (length down)
          (fresh (suc (suc (suc q))) (stream crypt key 0 down))
        ≡ (
          ok down,
          conn crypt [] (wire key salt now up) q (some key) (0 + length down) (8 + length up) false,
        )
  unfolding client_serve greeted close_failed client_hello write gravity put_uint64
  client_run_lem inv cipher salt key up down now q e bytes = rw (
    e,
    append_assoc salt (stream crypt key 0 (put_uint64 now)) (stream crypt key 8 up),
    read_full_all crypt (length down) (stream crypt key 0 down) (wire key salt now up) q (some key)
        0 (8 + length up) false (length-stream crypt key 0 down),
    stream-stream crypt inv key 0 down bytes,
  )

  server_run_lem :
      IsInvolutive crypt
      → (cipher salt key up down : List ℕ) (now now' q : ℕ) → xor_key salt cipher ≡ ok key
      → length salt ≡ 32
      → AreBytes up
      → now < 2 ^ 64
      → is_expired now' now ≡ false
      → server_run cipher now' (length up) down (fresh (suc q) (wire key salt now up)) ≡ (
        ok up,
        conn crypt []
            (stream crypt key 0 down)
            q
            (some key)
            (8 + length up)
            (0 + length down)
            false,
      )
  unfolding server_serve server_hello gravity write
  server_run_lem inv cipher salt key up down now now' q e l32 bytes small young =
      let t : stream crypt key 0 (stream crypt key 0 (put_uint64 now)) ≡ put_uint64 now =
        stream-stream crypt inv key 0 _ (put_uint64-AreBytes now) in
      let l8 : length (stream crypt key 0 (put_uint64 now)) ≡ 8 =
        length-stream crypt key 0 (put_uint64 now) ∙ length-put_uint64 now in
      rw (
        read_full-append crypt 32 salt _ _ _ _ _ _ _ l32,
        e,
        read_full-append crypt 8 (stream crypt key 0 (put_uint64 now)) _ _ _ _ _ _ _ l8,
        t,
        uint_be-put_uint64 now small,
        young,
        read_full_all crypt (length up) (stream crypt key 8 up) [] (suc q) (some key) 8 0 false
            (length-stream crypt key 8 up),
        stream-stream crypt inv key 8 up bytes,
      )

  -- Through both ends of dahlia that share a cipher and each read what the other has written: what
  -- the client's end writes is the salt, and then, under the key that the two derive from the cipher
  -- and the salt, its clock in eight bytes and, behind it in the same stream, the bytes `up`; what
  -- the server's end writes is the bytes `down` under that key from its start on. The server's end
  -- gets `up`, and the client's end gets `down`. This is for bytes, a salt of 32, a cipher at least
  -- as long, and a clock that the age check accepts, and for Links that carry one message each way.
  pub tunnel_carries :
      IsInvolutive crypt
      → (cipher salt up down : List ℕ) (now now' : ℕ) → length salt ≡ 32
      → 32 ≤ length cipher
      → AreBytes up
      → AreBytes down
      → now < 2 ^ 64
      → is_expired now' now ≡ false
      → (key : List ℕ) × (xor_key salt cipher ≡ ok key)
        × ((client_run cipher salt now up (length down) (fresh 3 (stream crypt key 0 down))).0
            ≡ ok down)
        × ((client_run cipher salt now up (length down) (fresh 3 (stream crypt key 0 down))).1.out
            ≡ salt ++ (stream crypt key 0 (put_uint64 now) ++ stream crypt key 8 up))
        × ((server_run cipher now' (length up) down (fresh 1 (wire key salt now up))).0 ≡ ok up)
        × ((server_run cipher now' (length up) down (fresh 1 (wire key salt now up))).1.out
            ≡ stream crypt key 0 down)
  tunnel_carries inv cipher salt up down now now' l32 long ups downs small young =
      let (key, e) = xor_key-total salt cipher (omega (arith, l32, long)) in
      let c : client_run cipher salt now up (length down) (fresh 3 (stream crypt key 0 down)) ≡ (
        ok down,
        conn crypt [] (wire key salt now up) 0 (some key) (0 + length down) (8 + length up) false,
      ) =
        client_run_lem inv cipher salt key up down now 0 e downs in
      let s = server_run_lem inv cipher salt key up down now now' 0 e l32 ups small young in
      (key, e, ap (λ r. r.0) c, ap (λ r. r.1.out) c, ap (λ r. r.0) s, ap (λ r. r.1.out) s)
