-- ===== src/Tester/Packets.antt =====
-- What UDPServe answers to requests, and the counts that stop it.
use daze.Base.{
  take_all, ℕ, ◌+◌, ◌^◌, ◌/◌, ◌%◌, ◌≤◌, ◌<◌, ◌≡◌, refl, sym, ap, ◌∙◌, Bool, true, false, List, [],
  ◌∷◌, ◌++◌, arith, ok, panic, length, length-drop, length-replicate, length-append, take, drop,
  replicate, leb, append_assoc, append-nil, take-append, le→leb, map,
}
use daze.Base.Bytes.{put_uint16, uint_be-put_uint16}
use daze.Tester.{over, all_are, udp_ask, udp_check, udp_buffer, udp_command, udp_next, udp_serve}
use daze.Tester.Stream.{all_are-replicate, length-over}
use daze.Tester.Requests.{Request, asks, sends, encoded}

module _ (size : ℕ) (deliver : List ℕ → Bool) where
  -- A request that fits the buffer, and for which the answer can be sent.
  abbrev pub Fits : Request → Type 0
  Fits (asks v cnt) = (cnt ≤ size) × (deliver (replicate cnt v) ≡ true)
  Fits (sends v cnt) = 4 + cnt ≤ size

  abbrev pub AllFit : List Request → Type 0
  AllFit [] = Unit
  AllFit (r ∷ rs) = Fits r × AllFit rs

  abbrev pub replies_to : List Request → List (List ℕ)
  replies_to [] = []
  replies_to (asks v cnt ∷ rs) = replicate cnt v ∷ replies_to rs
  replies_to (sends v cnt ∷ rs) = replies_to rs

  -- The buffer behind a datagram that it can hold.
  abbrev header_of : ℕ → ℕ → ℕ → List ℕ → List ℕ
  header_of cmd v cnt tail = cmd ∷ v ∷ (cnt / 256 % 256) ∷ (cnt % 256) ∷ tail

  module _ (large : 4 ≤ size) where
    received-asks :
        (v cnt : ℕ) (ds : List (List ℕ)) (buf : List ℕ) (replies : List (List ℕ))
        → cnt < 2 ^ 16
        → udp_serve size deliver (encoded (asks v cnt) ∷ ds) buf replies
          ≡ udp_next size deliver 0
              (udp_ask size deliver v cnt replies)
              (udp_serve size deliver ds (over (replicate cnt v) (header_of 0 v cnt (drop 4 buf))))
    unfolding udp_serve udp_command udp_buffer put_uint16
    received-asks v cnt ds buf replies h =
        rw (take_all size (header_of 0 v cnt []) (omega (arith, large)), uint_be-put_uint16 cnt h)
          refl

    received-sends :
        (v cnt : ℕ) (ds : List (List ℕ)) (buf : List ℕ) (replies : List (List ℕ))
        → 4 + cnt ≤ size
        → cnt < 2 ^ 16
        → let b =
            header_of 1 v cnt
              (replicate cnt v ++ drop (length (header_of 1 v cnt (replicate cnt v))) buf) in
          udp_serve size deliver (encoded (sends v cnt) ∷ ds) buf replies
          ≡ udp_next size deliver 1
              (udp_check size deliver v cnt b replies)
              (udp_serve size deliver ds b)
    unfolding udp_serve udp_command udp_buffer put_uint16
    received-sends v cnt ds buf replies h c =
        rw
          (
            take_all size (header_of 1 v cnt (replicate cnt v))
                (omega (arith, h, length-replicate cnt v)),
            uint_be-put_uint16 cnt c,
          )
          refl

    udp_passed :
        (small : size < 2 ^ 16) (rs : List Request) (ds : List (List ℕ)) (buf : List ℕ)
        (replies : List (List ℕ))
        → AllFit rs
        → length buf ≡ size
        → (buf' : List ℕ) × (length buf' ≡ size)
          × (udp_serve size deliver (map encoded rs ++ ds) buf replies
              ≡ udp_serve size deliver ds buf' (replies ++ replies_to rs))
    unfolding udp_next udp_ask udp_check
    udp_passed small [] ds buf replies f l =
        (buf, l, ap (udp_serve size deliver ds buf) (sym (append-nil replies)))
    udp_passed small (asks v cnt ∷ rs) ds buf replies f l =
        let fits : cnt ≤ size = f.0.0 in
        let b = header_of 0 v cnt (drop 4 buf) in
        let bl : length b ≡ size = omega (arith, length-drop 4 buf, l, large) in
        let (buf', l', e) =
          udp_passed small rs ds (over (replicate cnt v) b) (replies ++ replicate cnt v ∷ []) f.1
            (length-over size cnt v b (omega (arith, fits, bl)) ∙ bl) in
        (
          buf',
          l',
          received-asks v cnt (map encoded rs ++ ds) buf replies (omega (arith, fits, small))
              ∙ rw (le→leb cnt size fits, f.0.1)
                  (e
                    ∙ ap (udp_serve size deliver ds buf')
                        (append_assoc replies (replicate cnt v ∷ []) (replies_to rs))),
        )
    udp_passed small (sends v cnt ∷ rs) ds buf replies f l =
        let fits : 4 + cnt ≤ size = f.0 in
        let n = length (header_of 1 v cnt (replicate cnt v)) in
        let b = header_of 1 v cnt (replicate cnt v ++ drop n buf) in
        let bl : length b ≡ size = omega (
          arith,
          length-append (replicate cnt v) (drop n buf),
          length-drop n buf,
          length-replicate cnt v,
          l,
          fits,
        ) in
        let (buf', l', e) = udp_passed small rs ds b replies f.1 bl in
        let same : all_are v (take cnt (replicate cnt v ++ drop n buf)) ≡ true =
          rw (take-append cnt (replicate cnt v) (drop n buf) (length-replicate cnt v))
            (all_are-replicate cnt v) in
        (
          buf',
          l',
          received-sends v cnt (map encoded rs ++ ds) buf replies fits (omega (arith, fits, small))
              ∙ rw (le→leb (4 + cnt) size fits, same) e,
        )

    -- To any requests that fit its buffer UDPServe answers, each command 0 by as many copies of the
    -- byte as it asks for, in order; and one command 0 behind them that asks for more bytes than
    -- the buffer has ends the process, whatever follows. The answers can be delivered, and the
    -- buffer has 4 to 65535 bytes.
    pub udp_serve-answers :
        (small : size < 2 ^ 16) (rs : List Request) (v cnt : ℕ) (others : List (List ℕ))
        (buf : List ℕ)
        → AllFit rs
        → length buf ≡ size
        → size < cnt
        → cnt < 2 ^ 16
        → (udp_serve size deliver (map encoded rs) buf [] ≡ ok (replies_to rs))
          × (udp_serve size deliver (map encoded rs ++ encoded (asks v cnt) ∷ others) buf []
              ≡ panic)
    unfolding udp_serve udp_next udp_ask
    udp_serve-answers small rs v cnt others buf f l over_size c =
        let (b, bl, e) = udp_passed small rs [] buf [] f l in
        let (b', bl', e') = udp_passed small rs (encoded (asks v cnt) ∷ others) buf [] f l in
        let long : leb cnt size ≡ false = ground arith in
        (
          ap (λ ds. udp_serve size deliver ds buf []) (sym (append-nil (map encoded rs))) ∙ e,
          e' ∙ received-asks v cnt others b' (replies_to rs) c ∙ rw long refl,
        )
