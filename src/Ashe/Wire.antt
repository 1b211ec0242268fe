-- ===== src/Ashe/Wire.antt =====
-- What the client's Estab and the server's Serve write and read, on a connection that may have
-- carried other bytes before, in the clear.
use daze.Base.{
  ℕ, suc, ◌+◌, ◌%◌, ◌^◌, ◌≤◌, ◌<◌, ◌≡◌, ◌≢◌, refl, ◌∙◌, ap, Bool, true, false, Option, none, some,
  List, [], ◌∷◌, ◌++◌, arith, Error, Outcome, ok, fail, inl, inr, Option-cases, server_failure,
  length, append_assoc, le→ltb, bit_xor, get_or,
}
use daze.Base.Bytes.{
  AreBytes, put_uint64, uint_be-put_uint64, put_uint64-AreBytes, length-put_uint64,
}
use daze.Base.State.{◌>>=◌}
use daze.Net.{Conn, stream, IsInvolutive, read_full, stream-stream, length-stream, gravity, write}
use daze.Net.Steps.{conn, read_full-append, read_full_all, read_full_two}
use daze.Ashe.{
  Network, tcp, udp, other, Session, xor_key, is_expired, net_code, accept, request, estab, serve,
  server_hello, answer, dialled, dial_for,
}

pub xor_key-total :
    (bs ks : List ℕ) → length bs ≤ length ks → (key : List ℕ) × (xor_key bs ks ≡ ok key)
unfolding xor_key
xor_key-total [] ks h = ([], refl)
xor_key-total (b ∷ bs) [] h = absurd (omega arith)
xor_key-total (b ∷ bs) (k ∷ ks) h =
    let (rest, e) = xor_key-total bs ks (omega arith) in (bit_xor b k ∷ rest, rw (e, xor_key))

module _ (crypt : List ℕ → ℕ → ℕ → ℕ) where
  -- What the client has sent when it waits for the answer.
  abbrev pub sent : List ℕ → List ℕ → ℕ → ℕ → List ℕ → List ℕ
  sent key salt now code address =
      (salt ++ stream crypt key 0 (put_uint64 now))
      ++ stream crypt key 8 (code ∷ length address % 256 ∷ address)

  -- With its key made, the client sends three messages and reads one byte.
  pub request-sent :
      (cipher salt key address inp out : List ℕ) (now q r w : ℕ) (n : Network)
      → xor_key salt cipher ≡ ok key
      → request crypt cipher salt now n address
          (conn crypt inp out (suc (suc (suc q))) none r w false)
        ≡ (read_full crypt 1 >>= λ buf. accept crypt n (get_or buf 0 0)) (
            conn crypt inp
              (out ++ sent key salt now (net_code crypt n) address)
              q
              (some key)
              0
              (8 + suc (suc (length address)))
              false)
  unfolding request write gravity put_uint64
  request-sent cipher salt key address inp out now q r w n e =
      let time = stream crypt key 0 (put_uint64 now) in
      let rest = stream crypt key 8 (net_code crypt n ∷ length address % 256 ∷ address) in
      let joined : ((out ++ salt) ++ time) ++ rest ≡ out ++ ((salt ++ time) ++ rest) =
        rw (append_assoc out salt time, append_assoc out (salt ++ time) rest) in
      rw e (
        ap
          (λ o.
            (read_full crypt 1 >>= λ buf. accept crypt n (get_or buf 0 0))
              (conn crypt inp o q (some key) 0 (8 + suc (suc (length address))) false))
          joined)

  pub net_code-lt : (n : Network) → net_code crypt n < 256
  unfolding net_code
  net_code-lt tcp = omega arith
  net_code-lt udp = omega arith
  net_code-lt other = omega arith

  -- The server takes such a message apart: the age check is passed, and what is left of the work
  -- is to answer for the code and the address.
  pub serve-sent :
      IsInvolutive crypt
      → (dial : Network → List ℕ → Option Error)
      → (cipher salt key address : List ℕ) (now now' q r w code : ℕ) (out : List ℕ)
      → xor_key salt cipher ≡ ok key
      → length salt ≡ 32
      → AreBytes address
      → length address ≤ 255
      → now < 2 ^ 64
      → code < 256
      → is_expired now' now ≡ false
      → serve crypt dial cipher now'
          (conn crypt (sent key salt now code address) out q none r w false)
        ≡ answer crypt dial
            (dial_for crypt dial (code) address)
            address
            (conn crypt [] out q (some key) (10 + length address) 0 false)
  unfolding serve server_hello gravity
  serve-sent inv dial cipher salt key address now now' q r w code out e l32 bytes short small
        code_lt young =
      let t : stream crypt key 0 (stream crypt key 0 (put_uint64 now)) ≡ put_uint64 now =
        stream-stream crypt inv key 0 _ (put_uint64-AreBytes now) in
      let l8 : length (stream crypt key 0 (put_uint64 now)) ≡ 8 =
        length-stream crypt key 0 (put_uint64 now) ∙ length-put_uint64 now in
      let len : length address % 256 ≡ length address = omega arith in
      rw (
        append_assoc salt (stream crypt key 0 (put_uint64 now)),
        read_full-append crypt 32 salt _ _ _ _ _ _ _ l32,
        e,
        read_full-append crypt 8 (stream crypt key 0 (put_uint64 now)) _ _ _ _ _ _ _ l8,
        t,
        uint_be-put_uint64 now small,
        young,
        len,
        read_full_two crypt inv key 8 _ (length address) address out q 0 false code_lt
            (omega arith),
        read_full_all crypt (length address) (stream crypt key 10 address) out q (some key) 10 0
            false (length-stream crypt key 10 address),
        stream-stream crypt inv key 10 address bytes,
      )

  pub estab-request :
      (cipher salt address : List ℕ) (now : ℕ) (n : Network) (c : Conn)
      → n ≢ other
      → length address ≤ 255
      → estab crypt cipher salt now n address c ≡ request crypt cipher salt now n address c
  unfolding estab
  estab-request cipher salt address now tcp c h short = rw (le→ltb 255 _ short)
  estab-request cipher salt address now udp c h short = rw (le→ltb 255 _ short)
  estab-request cipher salt address now other c h short = absurd (h refl)

  abbrev pub is_framed : Network → Bool
  is_framed tcp = false
  is_framed udp = true
  is_framed other = false

  abbrev pub session : Network → List ℕ → Session
  session n dst = record { network = n; dst = dst; framed = is_framed n }

  -- The answer byte, and how it ends the client's Estab.
  abbrev pub reply_byte : Option Error → ℕ
  reply_byte none = 0
  reply_byte (some e) = 1

  abbrev pub client_end : Network → Option Error → Outcome Bool
  client_end n none = ok (is_framed n)
  client_end n (some e) = fail server_failure

  abbrev pub server_end : Network → List ℕ → Option Error → Outcome Session
  server_end n dst none = ok (session n dst)
  server_end n dst (some e) = fail e

  pub answer-dialled :
      (dial : Network → List ℕ → Option Error) (key dst out : List ℕ) (n : Network) (q r : ℕ)
      → n ≢ other
      → let s =
          answer crypt dial
            (dial_for crypt dial (net_code crypt n) dst)
            dst
            (conn crypt [] out (suc q) (some key) r 0 false) in
        (s.0 ≡ server_end n dst (dial n dst))
        × (s.1.out ≡ out ++ stream crypt key 0 (reply_byte (dial n dst) ∷ []))
  unfolding answer dial_for net_code write
  answer-dialled dial key dst out tcp q r h = elim (Option-cases (dial tcp dst)) [
    | inl e ↦ rw (e, dialled) (refl, refl)
    | inr (x, e) ↦ rw (e, dialled) (refl, refl)
  ]
  answer-dialled dial key dst out udp q r h = elim (Option-cases (dial udp dst)) [
    | inl e ↦ rw (e, dialled) (refl, refl)
    | inr (x, e) ↦ rw (e, dialled) (refl, refl)
  ]
  answer-dialled dial key dst out other q r h = absurd (h refl)

  pub reply_byte-AreBytes : (d : Option Error) → AreBytes (reply_byte d ∷ [])
  reply_byte-AreBytes none = omega arith
  reply_byte-AreBytes (some e) = omega arith

  pub accept-client_end :
      (n : Network) (d : Option Error) (c : Conn)
      → n ≢ other
      → accept crypt n (reply_byte d) c ≡ (client_end n d, c)
  unfolding accept
  accept-client_end tcp none c h = refl
  accept-client_end tcp (some e) c h = refl
  accept-client_end udp none c h = refl
  accept-client_end udp (some e) c h = refl
  accept-client_end other d c h = absurd (h refl)

  pub client-answered :
      IsInvolutive crypt
      → (key out : List ℕ) (q w : ℕ) (n : Network) (d : Option Error) → n ≢ other
      → (read_full crypt 1 >>= λ buf. accept crypt n (get_or buf 0 0))
          (conn crypt (stream crypt key 0 (reply_byte d ∷ [])) out q (some key) 0 w false)
        ≡ (client_end n d, conn crypt [] out q (some key) 1 w false)
  client-answered inv key out q w n d h =
      rw
        (
          read_full_all crypt 1 (stream crypt key 0 (reply_byte d ∷ [])) out q (some key) 0 w false
              (length-stream crypt key 0 _),
          stream-stream crypt inv key 0 (reply_byte d ∷ []) (reply_byte-AreBytes d),
        )
        (accept-client_end n d _ h)
