-- ===== src/Ashe/Refusals.antt =====
-- The requests that are refused: by the client before it writes, by the server's age check, and
-- for a network byte that no case of Serve names.
use daze.Base.{
  ℕ, ◌^◌, ◌≤◌, ◌<◌, ◌≡◌, ◌≢◌, refl, false, Option, List, [], ◌∷◌, arith, Error, ok, fail, panic,
  too_long, bad_network, length, lt→ltb, le→ltb, ◌==◌,
}
use daze.Base.Bytes.{AreBytes}
use daze.Net.{Conn, fresh, stream, IsInvolutive, read_full, gravity, write}
use daze.Ashe.{
  Network, tcp, udp, other, xor_key, is_expired, estab, serve, server_hello, answer, dial_for,
}
use daze.Ashe.Wire.{sent, serve-sent}

module _ (crypt : List ℕ → ℕ → ℕ → ℕ) where
  -- Whatever the peer has sent, and whether or not it is let in, Hello of the server writes nothing.
  pub server_hello-silent :
      (cipher : List ℕ) (now : ℕ) (c : Conn)
      → ((server_hello crypt cipher now c).1.out ≡ c.out)
        × ((server_hello crypt cipher now c).1.quota ≡ c.quota)
  unfolding server_hello read_full gravity
  server_hello-silent cipher now c = ground arith

  -- A destination of more than 255 bytes, and a network that is neither "tcp" nor "udp", is
  -- refused with its error before a byte is written.
  pub estab_guards :
      (cipher salt address : List ℕ) (now : ℕ) (n : Network) (c : Conn)
      → (255 < length address → estab crypt cipher salt now n address c ≡ (fail too_long, c))
        × (length address ≤ 255
            → estab crypt cipher salt now other address c ≡ (fail bad_network, c))
  unfolding estab
  estab_guards cipher salt address now tcp c = (λ h. rw (lt→ltb 255 _ h), λ h. rw (le→ltb 255 _ h))
  estab_guards cipher salt address now udp c = (λ h. rw (lt→ltb 255 _ h), λ h. rw (le→ltb 255 _ h))
  estab_guards cipher salt address now other c =
      (λ h. rw (lt→ltb 255 _ h), λ h. rw (le→ltb 255 _ h))

  module _ (inv : IsInvolutive crypt) (dial : Network → List ℕ → Option Error)
      (cipher salt key address : List ℕ) (now now' code : ℕ) (e : xor_key salt cipher ≡ ok key)
      (salt_length : length salt ≡ 32) (address_bytes : AreBytes address)
      (address_length : length address ≤ 255) (clock : now < 2 ^ 64) (code_lt : code < 256) where
    -- A request with an authentic key and a network byte that is neither 1 nor 3 makes the server
    -- answer with success, and then dereference the nil connection: the process panics.
    pub serve_unknown_network :
        is_expired now' now ≡ false
        → code ≢ 0x01
        → code ≢ 0x03
        → let s = serve crypt dial cipher now' (fresh 1 (sent crypt key salt now code address)) in
          (s.0 ≡ panic) × (s.1.out ≡ stream crypt key 0 (0 ∷ []))
    unfolding answer dial_for write
    serve_unknown_network young n1 n3 =
        let f1 : (code == 0x01) ≡ false = ground arith in
        let f3 : (code == 0x03) ≡ false = ground arith in
        rw
          (
            serve-sent crypt inv dial cipher salt key address now now' 1 0 0 code [] e salt_length
                address_bytes address_length clock code_lt young,
            f1,
            f3,
          )
          (refl, refl)
