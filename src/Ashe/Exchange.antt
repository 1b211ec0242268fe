-- ===== src/Ashe/Exchange.antt =====
-- The client's Estab and the server's Serve against each other.
use daze.Base.{
  ℕ, suc, ◌+◌, ◌^◌, ◌≤◌, ◌<◌, ◌≡◌, ◌≢◌, ◌∙◌, ap, sym, false, Option, some, List, [], ◌∷◌, arith,
  Error, ok, length, get_or,
}
use daze.Base.Bytes.{AreBytes}
use daze.Base.State.{and_then, ◌>>=◌}
use daze.Net.{fresh, stream, IsInvolutive, read_full}
use daze.Net.Steps.{conn, read_full_short}
use daze.Ashe.{Network, other, xor_key, is_expired, net_code, accept, estab, serve}
use daze.Ashe.Wire.{
  xor_key-total, sent, request-sent, net_code-lt, serve-sent, estab-request, reply_byte, client_end,
  server_end, answer-dialled, client-answered,
}

module _ (crypt : List ℕ → ℕ → ℕ → ℕ) where
  -- The bytes that the client sends, and the server's bytes to a client that sends `wire`.
  abbrev pub client_wire : List ℕ → List ℕ → ℕ → Network → List ℕ → List ℕ
  client_wire cipher salt now n address = (estab crypt cipher salt now n address (fresh 3 [])).1.out

  abbrev pub server_wire : (Network → List ℕ → Option Error) → List ℕ → ℕ → List ℕ → List ℕ
  server_wire dial cipher now wire = (serve crypt dial cipher now (fresh 1 wire)).1.out

  module _ (inv : IsInvolutive crypt) (dial : Network → List ℕ → Option Error)
      (cipher salt address : List ℕ) (now now' : ℕ) (n : Network) (h : n ≢ other)
      (salt_length : length salt ≡ 32) (cipher_length : length cipher ≡ 32)
      (address_bytes : AreBytes address) (address_length : length address ≤ 255)
      (clock : now < 2 ^ 64) (young : is_expired now' now ≡ false) where
    estab-sent :
        (key inp : List ℕ)
        → xor_key salt cipher ≡ ok key
        → estab crypt cipher salt now n address (fresh 3 inp)
          ≡ (read_full crypt 1 >>= λ buf. accept crypt n (get_or buf 0 0)) (
              conn crypt inp
                (sent crypt key salt now (net_code crypt n) address)
                0
                (some key)
                0
                (8 + suc (suc (length address)))
                false)
    estab-sent key inp e =
        estab-request crypt cipher salt address now n (fresh 3 inp) h address_length
        ∙ request-sent crypt cipher salt key address inp [] now 0 0 0 n e

    wire-sent :
        (key : List ℕ)
        → xor_key salt cipher ≡ ok key
        → client_wire cipher salt now n address ≡ sent crypt key salt now (net_code crypt n) address
    wire-sent key e =
        let cut =
          read_full_short crypt 1 [] (sent crypt key salt now (net_code crypt n) address) 0
            (some key) 0 (8 + suc (suc (length address))) false (omega arith) in
        ap (λ r. r.1.out) (estab-sent key [] e)
        ∙ ap (λ r. (and_then r (λ buf. accept crypt n (get_or buf 0 0))).1.out) cut

    server-answered :
        (key : List ℕ)
        → xor_key salt cipher ≡ ok key
        → let s = serve crypt dial cipher now' (fresh 1 (client_wire cipher salt now n address)) in
          (s.0 ≡ server_end crypt n address (dial n address))
          × (s.1.out ≡ stream crypt key 0 (reply_byte crypt (dial n address) ∷ []))
    server-answered key e =
        rw
          (
            wire-sent key e,
            serve-sent crypt inv dial cipher salt key address now now' 1 0 0 (net_code crypt n) [] e
                salt_length address_bytes address_length clock (net_code-lt crypt n) young,
          )
          (answer-dialled crypt dial key address [] n 0 (10 + length address) h)

    client-done :
        (key : List ℕ)
        → xor_key salt cipher ≡ ok key
        → let wire = client_wire cipher salt now n address in
          estab crypt cipher salt now n address (fresh 3 (server_wire dial cipher now' wire)) ≡ (
            client_end crypt n (dial n address),
            conn crypt []
                (sent crypt key salt now (net_code crypt n) address)
                0
                (some key)
                1
                (8 + suc (suc (length address)))
                false,
          )
    client-done key e =
        ap (λ w. estab crypt cipher salt now n address (fresh 3 w)) (server-answered key e).1
        ∙ estab-sent key _ e
        ∙ client-answered crypt inv key _ 0 _ n (dial n address) h

    -- A client and a server that share a cipher, each reading what the other has written: the
    -- server dials exactly the network and address of the client's request, and where the dial
    -- succeeds both ends go on, as a packet connection just for udp; where it fails, the server
    -- returns its error and the client the general failure. The client has sent the same in both
    -- runs.
    pub estab-serve :
        let wire = client_wire cipher salt now n address in
        let c =
          estab crypt cipher salt now n address (fresh 3 (server_wire dial cipher now' wire)) in
        ((serve crypt dial cipher now' (fresh 1 wire)).0
          ≡ server_end crypt n address (dial n address))
        × (c.0 ≡ client_end crypt n (dial n address))
        × (c.1.out ≡ wire)
    estab-serve = go (xor_key-total salt cipher (omega arith))
      where
        go :
            (key : List ℕ) × (xor_key salt cipher ≡ ok key)
            → let wire = client_wire cipher salt now n address in
              let c =
                estab crypt cipher salt now n address
                  (fresh 3 (server_wire dial cipher now' wire)) in
              ((serve crypt dial cipher now' (fresh 1 wire)).0
                ≡ server_end crypt n address (dial n address))
              × (c.0 ≡ client_end crypt n (dial n address))
              × (c.1.out ≡ wire)
        go (key, e) = (
          (server-answered key e).0,
          ap (λ r. r.0) (client-done key e),
          ap (λ r. r.1.out) (client-done key e) ∙ sym (wire-sent key e),
        )
