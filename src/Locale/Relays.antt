-- ===== src/Locale/Relays.antt =====
-- What the loop of ServeSocks5UDP does with the datagrams that RFC 1928 describes.
use daze.Base.{
  take_all, ℕ, ◌+◌, ◌-◌, ◌≤◌, ◌<◌, ◌≡◌, refl, sym, ap, ◌∙◌, Bool, true, false, Option, none, some,
  List, [], ◌∷◌, ◌++◌, arith, Error, ok, length, drop, append_assoc, append-nil, ◌^◌, ◌%◌, leb,
  if◌then◌else◌, Bool-cases, Option-cases, inl, inr, le→ltb, take-append, drop-append,
  length-append,
}
use daze.Base.Bytes.{put_uint16, uint_be-put_uint16, length-put_uint16}
use daze.Locale.Datagram.{
  Relay, slice, lift_slice, receive, size_head, parse_head, is_known, forward, dial_forward, relay,
  take_head, within, process, datagram,
}
use daze.Locale.Requests.{Target, v4, name, v6, kind_of, body}

-- A target whose name is at most 248 bytes long.
abbrev pub IsSmall : Target → Type 0
IsSmall (v4 ip) = length ip ≡ 4
IsSmall (name n) = length n ≤ 248
IsSmall (v6 ip) = length ip ≡ 16

-- The header of a datagram.
abbrev pub head : Target → ℕ → List ℕ
head t port = 0 ∷ 0 ∷ 0 ∷ kind_of t ∷ (body t ++ put_uint16 port)

abbrev pub head_length : Target → ℕ
head_length (v4 ip) = 10
head_length (name n) = length n + 7
head_length (v6 ip) = 22

pub slice-append :
    (xs ys zs : List ℕ) (i j : ℕ)
    → length xs ≡ i
    → length xs + length ys ≡ j
    → slice (xs ++ (ys ++ zs)) i j ≡ ok ys
unfolding slice
slice-append xs ys zs i j hi hj = rw (
  le→ltb j i (omega (arith, hi, hj)),
  le→ltb (length (xs ++ (ys ++ zs))) j
      (omega (arith, hj, length-append xs (ys ++ zs), length-append ys zs)),
  drop-append i xs (ys ++ zs) hi,
  take-append (j - i) ys zs (omega (arith, hi, hj)),
)

slice-end :
    (xs ys : List ℕ) (i j : ℕ)
    → length xs ≡ i
    → length xs + length ys ≡ j
    → slice (xs ++ ys) i j ≡ ok ys
slice-end xs ys i j hi hj =
    ap (λ zs. slice (xs ++ zs) i j) (sym (append-nil ys)) ∙ slice-append xs ys [] i j hi hj

length-head : (t : Target) (port : ℕ) → IsSmall t → length (head t port) ≡ head_length t
length-head (v4 ip) port h =
    omega (arith, h, length-append ip (put_uint16 port), length-put_uint16 port)
length-head (name n) port h =
    omega (arith, length-append n (put_uint16 port), length-put_uint16 port)
length-head (v6 ip) port h =
    omega (arith, h, length-append ip (put_uint16 port), length-put_uint16 port)

module _ (ip_string : List ℕ → List ℕ) (itoa : ℕ → List ℕ) (dial : List ℕ → Option Error) where
  abbrev pub host_string : Target → List ℕ
  host_string (v4 ip) = ip_string ip
  host_string (name n) = n
  host_string (v6 ip) = ip_string ip

  parse_head-head :
      (t : Target) (port : ℕ) (s : Relay)
      → IsSmall t
      → port < 2 ^ 16
      → parse_head ip_string itoa dial (head t port) s
        ≡ (ok tt, record s { host = host_string t; port = port })
  unfolding parse_head lift_slice
  parse_head-head (v4 ip) port s h small =
      let enough : leb (length (head (v4 ip) port)) 3 ≡ false =
        ground (arith, length-head (v4 ip) port h) in
      rw (
        enough,
        slice-append (0 ∷ 0 ∷ 0 ∷ 1 ∷ []) ip (put_uint16 port) 4 8 refl (omega (arith, h)),
        slice-end (0 ∷ 0 ∷ 0 ∷ 1 ∷ ip) (put_uint16 port) 8 10 (omega (arith, h))
            (omega (arith, h, length-put_uint16 port)),
        uint_be-put_uint16 port small,
      )
  parse_head-head (name n) port s h small =
      let enough : leb (length (head (name n) port)) 3 ≡ false =
        ground (arith, length-head (name n) port h) in
      let first : (5 + length n) % 256 ≡ 5 + length n = omega (arith, h) in
      let second : (7 + length n) % 256 ≡ 7 + length n = omega (arith, h) in
      rw (
        enough,
        first,
        second,
        slice-append (0 ∷ 0 ∷ 0 ∷ 3 ∷ length n ∷ []) n (put_uint16 port) 5 (5 + length n) refl
            (omega arith),
        slice-end (0 ∷ 0 ∷ 0 ∷ 3 ∷ length n ∷ n) (put_uint16 port) (5 + length n) (7 + length n)
            (omega arith) (omega (arith, length-put_uint16 port)),
        uint_be-put_uint16 port small,
      )
  parse_head-head (v6 ip) port s h small =
      let enough : leb (length (head (v6 ip) port)) 3 ≡ false =
        ground (arith, length-head (v6 ip) port h) in
      rw (
        enough,
        slice-append (0 ∷ 0 ∷ 0 ∷ 4 ∷ []) ip (put_uint16 port) 4 20 refl (omega (arith, h)),
        slice-end (0 ∷ 0 ∷ 0 ∷ 4 ∷ ip) (put_uint16 port) 20 22 (omega (arith, h))
            (omega (arith, h, length-put_uint16 port)),
        uint_be-put_uint16 port small,
      )

  pub size_head-head :
      (t : Target) (port : ℕ) (more : List ℕ) (s : Relay)
      → s.buf ≡ head t port ++ more
      → size_head s ≡ (ok tt, record s { head_size = head_length t })
  unfolding size_head
  size_head-head (v4 ip) port more s e = rw e
  size_head-head (name n) port more s e = rw e
  size_head-head (v6 ip) port more s e = rw e

  -- The variables once the header is read.
  abbrev parsed : Target → ℕ → Relay → Relay
  parsed t port r = record r { head_size = head_length t; host = host_string t; port = port }

  abbrev pub address : Target → ℕ → List ℕ
  address t port = host_string t ++ 58 ∷ itoa port

  process-head :
      (size : ℕ) (t : Target) (port : ℕ) (more : List ℕ) (s : Relay)
      → IsSmall t
      → port < 2 ^ 16
      → let r : Relay = record s { buf = head t port ++ more } in
        process ip_string itoa dial size r
        ≡ relay ip_string itoa dial size (address t port) (parsed t port r)
  unfolding process take_head
  process-head size t port more s h small =
      let r : Relay = record s { buf = head t port ++ more } in
      rw (
        size_head-head t port more r refl,
        slice-append [] (head t port) more 0 (head_length t) refl
            (omega (arith, length-head t port h)),
        parse_head-head t port (record r { head_size = head_length t }) h small,
      )

  -- Whether the address has a connection, or gets one.
  abbrev pub reached : Relay → List ℕ → Bool
  reached s dst =
      if is_known ip_string itoa dial dst s.known
      then true
      else elim (dial dst) [ none ↦ true | some e ↦ false ]

  -- What is sent on to the address.
  abbrev pub sent_on : Bool → List ℕ → List ℕ → List (List ℕ × List ℕ)
  sent_on true dst payload = (dst, payload) ∷ []
  sent_on false dst payload = []

  relay-sent :
      (dst payload more : List ℕ) (size : ℕ) (t : Target) (port : ℕ) (r : Relay)
      → IsSmall t
      → size ≡ head_length t + length payload
      → r.buf ≡ head t port ++ (payload ++ more)
      → r.head_size ≡ head_length t
      → ((relay ip_string itoa dial size dst r).0 ≡ ok tt)
        × ((relay ip_string itoa dial size dst r).1.sent
            ≡ r.sent ++ sent_on (reached r dst) dst payload)
  unfolding relay dial_forward forward
  relay-sent dst payload more size t port r h hs e he =
      let found : slice r.buf r.head_size size ≡ ok payload =
        rw (e, he)
          (slice-append (head t port) payload more (head_length t) size (length-head t port h)
            (omega (arith, hs, length-head t port h))) in
      elim (Bool-cases (is_known ip_string itoa dial dst r.known)) [
        | inl old ↦ rw (old, forward, found) (refl, refl)
        | inr new ↦ elim (Option-cases (dial dst)) [
          | inl up ↦ rw (new, up, forward, found) (refl, refl)
          | inr (x, down) ↦ rw (new, down) (refl, sym (append-nil r.sent))
        ]
      ]

  pub datagram_fits :
      (d : List ℕ) (s : Relay)
      → length d ≤ 2048
      → datagram ip_string itoa dial d s
        ≡ process ip_string itoa dial (length d) (record s { buf = d ++ drop (length d) s.buf })
  unfolding datagram within receive
  datagram_fits d s h = ap (λ x. within ip_string itoa dial x s) (take_all 2048 d h)

  -- A datagram that is one of RFC 1928, unfragmented and with a name of at most 248 bytes, does not
  -- panic; its payload is sent, whole and once, to just the address that is the host of its header
  -- as text, a colon and the port, if that has a connection or can be dialled, and otherwise nothing
  -- is sent; whatever the loop has done before, for a datagram that the buffer of 2048 bytes holds.
  -- The text of an IPv6 host stands in that address without brackets.
  pub datagram-relays :
      (t : Target) (port : ℕ) (payload : List ℕ) (s : Relay)
      → IsSmall t
      → port < 2 ^ 16
      → length (head t port ++ payload) ≤ 2048
      → let after = datagram ip_string itoa dial (head t port ++ payload) s in
        (after.0 ≡ ok tt)
        × (after.1.sent ≡ s.sent ++ sent_on (reached s (address t port)) (address t port) payload)
  datagram-relays t port payload s h small room =
      let d = head t port ++ payload in
      let more = drop (length d) s.buf in
      let r : Relay = record s { buf = head t port ++ (payload ++ more) } in
      let buffer : d ++ more ≡ head t port ++ (payload ++ more) =
        append_assoc (head t port) payload more in
      let size : length d ≡ head_length t + length payload =
        length-append (head t port) payload ∙ ap (λ n. n + length payload) (length-head t port h) in
      let to_relay : datagram ip_string itoa dial d s
          ≡ relay ip_string itoa dial (length d) (address t port) (parsed t port r) =
        datagram_fits d s room
        ∙ ap (λ b. process ip_string itoa dial (length d) (record s { buf = b })) buffer
        ∙ process-head (length d) t port (payload ++ more) s h small in
      rw to_relay (
        relay-sent (address t port) payload more (length d) t port (parsed t port r) h size refl
          refl)
