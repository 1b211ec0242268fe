-- ===== src/Baboon/Disguise.antt =====
-- Both ends of protocol/baboon together: the header that the server writes in the clear and the
-- client skips, and ashe behind it.
use daze.Base.{
  ℕ, ◌+◌, ◌^◌, ◌≤◌, ◌<◌, ◌≡◌, ◌≢◌, refl, ◌∙◌, ap, Bool, false, Option, none, some, List, [], ◌∷◌,
  ◌++◌, arith, Error, Outcome, ok, fail, panic, bad_response, length, get_or, append_assoc,
  length-append,
}
use daze.Base.Bytes.{AreBytes}
use daze.Base.State.{and_then, ◌>>=◌, pure}
use daze.Net.{Conn, M, fresh, stream, IsInvolutive, read_full, write}
use daze.Net.Steps.{conn, read_full-append}
use daze.Ashe.{Network, other, Session, xor_key, is_expired, net_code, accept, serve}
use daze.Ashe.Wire.{
  sent, request-sent, serve-sent, estab-request, reply_byte, client_end, server_end, answer-dialled,
  client-answered, xor_key-total, net_code-lt,
}
use daze.Baboon.{route, authorization}
use daze.Baboon.Signature.{route-authorization, HasDigest}
use daze.Baboon.Engine.{
  status_line, length_line, type_line, date_line, options_start, header, length-header,
  write_header, serve_daze, serve_http, close_failed, established, dial_server,
}

module _ (crypt : List ℕ → ℕ → ℕ → ℕ) where
  close_failed_lem :
      (r : Outcome Bool × Conn)
      → ((close_failed crypt r).0 ≡ r.0) × ((close_failed crypt r).1.out ≡ r.1.out)
  unfolding close_failed
  close_failed_lem (ok b, c) = (refl, refl)
  close_failed_lem (fail e, c) = (refl, refl)
  close_failed_lem (panic, c) = (refl, refl)

  module _ (md5 hex_encode : List ℕ → List ℕ) (hex_decode : List ℕ → Option (List ℕ))
      (request_text : List ℕ → List ℕ) where
    abbrev pub text_of : List ℕ → List ℕ → List ℕ
    text_of cipher rand = request_text (authorization md5 hex_encode hex_decode cipher rand)

    -- The client, its peer having sent 147 bytes and others behind them.
    established-sent :
        (cipher rand salt key address skipped inp : List ℕ) (now : ℕ) (n : Network)
        → n ≢ other
        → length address ≤ 255
        → length skipped ≡ 147
        → xor_key salt cipher ≡ ok key
        → established crypt md5 hex_encode hex_decode request_text cipher rand salt now n address
            (fresh 4 (skipped ++ inp))
          ≡ (read_full crypt 1 >>= λ buf. accept crypt n (get_or buf 0 0)) (
              conn crypt inp
                (text_of cipher rand ++ sent crypt key salt now (net_code crypt n) address)
                0
                (some key)
                0
                (8 + length (net_code crypt n ∷ length address ∷ address))
                false)
    unfolding established write
    established-sent cipher rand salt key address skipped inp now n h short l147 e =
        let text = text_of cipher rand in
        rw (read_full-append crypt 147 skipped inp text 3 none 0 (0 + length text) false l147) (
          estab-request crypt cipher salt address now n _ h short
          ∙ request-sent crypt cipher salt key address inp text now 0 (0 + 147) (0 + length text) n
              e)

    module _ (dial : Network → List ℕ → Option Error) where
      header_written :
          (date inp cipher : List ℕ) (now : ℕ)
          → (w : ℕ) × (serve_daze crypt dial date cipher now (fresh 6 inp)
              ≡ serve crypt dial cipher now (conn crypt inp (header date) 1 none 0 w false))
      unfolding serve_daze write_header write
      header_written date inp cipher now = (_, refl)

      -- The server, with the request of a client of its own.
      serve_daze-answered :
          IsInvolutive crypt
          → (date cipher salt key address : List ℕ) (now now' : ℕ) (n : Network)
          → xor_key salt cipher ≡ ok key
          → n ≢ other
          → length salt ≡ 32
          → AreBytes address
          → length address ≤ 255
          → now < 2 ^ 64
          → is_expired now' now ≡ false
          → let s =
              serve_daze crypt dial date cipher now'
                (fresh 6 (sent crypt key salt now (net_code crypt n) address)) in
            (s.0 ≡ server_end crypt n address (dial n address))
            × (s.1.out ≡ header date ++ stream crypt key 0 (reply_byte crypt (dial n address) ∷ []))
      serve_daze-answered inv date cipher salt key address now now' n e h l32 bytes short small
            young =
          let wire = sent crypt key salt now (net_code crypt n) address in
          let (w, written) = header_written date wire cipher now' in
          rw
            (
              written,
              serve-sent crypt inv dial cipher salt key address now now' 1 0 w (net_code crypt n)
                  (header date) e l32 bytes short small (net_code-lt crypt n) young,
            )
            (answer-dialled crypt dial key address (header date) n 0 (10 + length address) h)

      serve_http_routed :
          (mask : M (Unit {0})) (auth date cipher : List ℕ) (now : ℕ) (c : Conn)
          → route md5 hex_encode hex_decode cipher auth ≡ 1
          → serve_http crypt dial md5 hex_encode hex_decode mask auth date cipher now c
            ≡ and_then (serve_daze crypt dial date cipher now c) (λ s. pure (some s))
      unfolding serve_http
      serve_http_routed mask auth date cipher now c h = rw h refl

      abbrev pub some_session : Outcome Session → Outcome (Option Session)
      some_session (ok s) = ok (some s)
      some_session (fail e) = fail e
      some_session panic = panic

      some_session_lem :
          (r : Outcome Session × Conn)
          → let t = and_then r (λ s. pure (some s)) in (t.0 ≡ some_session r.0) × (t.1 ≡ r.1)
      some_session_lem (ok s, c) = (refl, refl)
      some_session_lem (fail e, c) = (refl, refl)
      some_session_lem (panic, c) = (refl, refl)

      module _ (cipher rand salt address : List ℕ) (now now' : ℕ) (n : Network)
          (mask : M (Unit {0})) (date : List ℕ) where
        -- Both ends: the client on what its peer sends, the server on what lies behind the
        -- client's request.
        abbrev pub client : List ℕ → Outcome Bool × Conn
        client inp =
            dial_server crypt md5 hex_encode hex_decode request_text none cipher rand salt now n
              address (fresh 4 inp)

        abbrev pub server : List ℕ → Outcome (Option Session) × Conn
        server inp =
            serve_http crypt dial md5 hex_encode hex_decode mask
              (authorization md5 hex_encode hex_decode cipher rand) date cipher now' (fresh 6 inp)

        abbrev pub Dials : List ℕ → List ℕ → Type 0
        Dials to_server to_client =
            ((client to_client).0 ≡ client_end crypt n (dial n address))
            × ((client to_client).1.out ≡ text_of cipher rand ++ to_server)
            × ((server to_server).0 ≡ some_session (server_end crypt n address (dial n address)))
            × ((server to_server).1.out ≡ to_client)

        abbrev pub Misled : List ℕ → List ℕ → Type 0
        Misled to_server to_client =
            ((client to_client).0 ≡ fail bad_response)
            × ((client to_client).1.out ≡ text_of cipher rand ++ to_server)
            × ((server to_server).0 ≡ some_session (server_end crypt n address (dial n address)))
            × ((server to_server).1.out ≡ to_client)

        module _ (inv : IsInvolutive crypt) (digest : HasDigest md5 hex_encode hex_decode)
            (decodes : (xs : List ℕ) → hex_decode (hex_encode xs) ≡ some xs) (h : n ≢ other)
            (rand_length : length rand ≡ 16)
            (given : authorization md5 hex_encode hex_decode cipher rand ≢ [])
            (salt_length : length salt ≡ 32) (cipher_length : length cipher ≡ 32)
            (address_bytes : AreBytes address) (address_length : length address ≤ 255)
            (clock : now < 2 ^ 64) (young : is_expired now' now ≡ false) where
          server_lem :
              (key : List ℕ)
              → xor_key salt cipher ≡ ok key
              → let s = server (sent crypt key salt now (net_code crypt n) address) in
                (s.0 ≡ some_session (server_end crypt n address (dial n address)))
                × (s.1.out
                    ≡ header date ++ stream crypt key 0 (reply_byte crypt (dial n address) ∷ []))
          server_lem key e =
              let wire = sent crypt key salt now (net_code crypt n) address in
              let routed = serve_http_routed mask _ date cipher now' (fresh 6 wire) (
                route-authorization md5 hex_encode hex_decode digest decodes cipher rand rand_length
                  given) in
              let lifted =
                some_session_lem (serve_daze crypt dial date cipher now' (fresh 6 wire)) in
              let answered =
                serve_daze-answered inv date cipher salt key address now now' n e h salt_length
                  address_bytes address_length clock young in
              (
                ap (λ r. r.0) routed ∙ lifted.0 ∙ ap some_session answered.0,
                ap (λ r. r.1.out) routed ∙ ap (λ c. c.out) lifted.1 ∙ answered.1,
              )

          client_lem :
              (key skipped inp : List ℕ)
              → xor_key salt cipher ≡ ok key
              → length skipped ≡ 147
              → let read = read_full crypt 1 >>= λ buf. accept crypt n (get_or buf 0 0) in
                let r = read (
                  conn crypt inp
                    (text_of cipher rand ++ sent crypt key salt now (net_code crypt n) address)
                    0
                    (some key)
                    0
                    (8 + length (net_code crypt n ∷ length address ∷ address))
                    false) in
                ((client (skipped ++ inp)).0 ≡ r.0) × ((client (skipped ++ inp)).1.out ≡ r.1.out)
          unfolding dial_server
          client_lem key skipped inp e l147 =
              let made =
                established-sent cipher rand salt key address skipped inp now n h address_length
                  l147 e in
              let closing = close_failed_lem (
                established crypt md5 hex_encode hex_decode request_text cipher rand salt now n
                  address (fresh 4 (skipped ++ inp))) in
              (closing.0 ∙ ap (λ r. r.0) made, closing.1 ∙ ap (λ r. r.1.out) made)

          -- Both ends of baboon: behind the client's request its Route lets the client in, the server
          -- dials just the network and address asked for, and both ends of ashe agree on how that
          -- went, with the server's header skipped; where the date is 29 bytes long, for a cipher and
          -- random bytes of the right lengths, tcp or udp, an address of at most 255 bytes, and a
          -- clock that the age check accepts.
          pub dial_server-serve_http :
              length date ≡ 29
              → (to_server : List ℕ) × (to_client : List ℕ) × Dials to_server to_client
          dial_server-serve_http l29 =
              let (key, e) =
                xor_key-total salt cipher (omega (arith, salt_length, cipher_length)) in
              let answer = stream crypt key 0 (reply_byte crypt (dial n address) ∷ []) in
              let c =
                client_lem key (header date) answer e (length-header date ∙ ap (◌+◌ 118) l29) in
              let read =
                client-answered crypt inv key
                  (text_of cipher rand ++ sent crypt key salt now (net_code crypt n) address) 0
                  (8 + length (net_code crypt n ∷ length address ∷ address)) n (dial n address) h in
              let s = server_lem key e in
              (
                sent crypt key salt now (net_code crypt n) address,
                header date ++ answer,
                (c.0 ∙ ap (λ r. r.0) read, c.1 ∙ ap (λ r. r.1.out) read, s.0, s.1),
              )

          cut_header : List ℕ
          cut_header = status_line ++ length_line ++ type_line ++ date_line date ++ options_start

          header_cut : (ys : List ℕ) → header date ++ ys ≡ cut_header ++ 10 ∷ ys
          unfolding cut_header
          header_cut ys = simp append_assoc

          length-cut_header : length date ≡ 30 → length cut_header ≡ 147
          unfolding cut_header
          length-cut_header l30 = omega (
            arith,
            l30,
            length-append date (13 ∷ 10 ∷ []),
            length-append (date ++ 13 ∷ 10 ∷ []) options_start,
          )

          accept-bad_response :
              (code : ℕ) (c : Conn) → 2 ≤ code → accept crypt n code c ≡ (fail bad_response, c)
          unfolding accept
          accept-bad_response code c high = ground arith

          -- The same with a date of 30 bytes: whatever the server has dialled, the client takes the
          -- last byte of its header for the answer and fails with a bad response; for a key that
          -- does not turn a line feed into 0 or 1.
          pub dial_server-Misled :
              (key : List ℕ)
              → xor_key salt cipher ≡ ok key
              → length date ≡ 30
              → 2 ≤ crypt key 0 10
              → (to_server : List ℕ) × (to_client : List ℕ) × Misled to_server to_client
          unfolding stream
          dial_server-Misled key e l30 high =
              let answer = stream crypt key 0 (reply_byte crypt (dial n address) ∷ []) in
              let out = text_of cipher rand ++ sent crypt key salt now (net_code crypt n) address in
              let w = 8 + length (net_code crypt n ∷ length address ∷ address) in
              let c = client_lem key cut_header (10 ∷ answer) e (length-cut_header l30) in
              let read =
                read_full-append crypt 1 (10 ∷ []) answer out 0 (some key) 0 w false refl in
              let refused =
                ap (λ r. and_then r (λ buf. accept crypt n (get_or buf 0 0))) read
                ∙ accept-bad_response _ _ high in
              let s = server_lem key e in
              (
                sent crypt key salt now (net_code crypt n) address,
                header date ++ answer,
                rw (header_cut answer) (
                  c.0 ∙ ap (λ r. r.0) refused,
                  c.1 ∙ ap (λ r. r.1.out) refused,
                  s.0,
                  s.1 ∙ header_cut answer,
                ),
              )
