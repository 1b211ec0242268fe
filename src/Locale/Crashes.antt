-- ===== src/Locale/Crashes.antt =====
-- Datagrams that stop the program: ServeSocks5UDP panics on them.
use daze.Base.{
  ℕ, ◌+◌, ◌≤◌, ◌<◌, ◌≡◌, ◌⊎◌, refl, ap, ◌∙◌, false, Option, List, [], ◌∷◌, ◌++◌, arith, Error,
  panic, length, drop, append_assoc, ◌%◌, ◌==◌, leb, inl, inr, lt→ltb, length-append,
}
use daze.Base.Bytes.{put_uint16, length-put_uint16}
use daze.Base.State.{and_then-panic}
use daze.Locale.Datagram.{Relay, slice, lift_slice, parse_head, process, take_head, datagram}
use daze.Locale.Requests.{name}
use daze.Locale.Relays.{head, size_head-head, datagram_fits, slice-append}

slice-panic : (b : List ℕ) (i j : ℕ) → j < i → slice b i j ≡ panic
unfolding slice
slice-panic b i j h = rw (lt→ltb j i h)

module _ (ip_string : List ℕ → List ℕ) (itoa : ℕ → List ℕ) (dial : List ℕ → Option Error) where
  -- A fragment, which RFC 1928 and the comment in the code want dropped, is a panic, for a datagram
  -- that the buffer holds.
  pub datagram_fragment :
      (frag : ℕ) (rest : List ℕ) (s : Relay)
      → 0 < frag
      → length rest ≤ 2045
      → (datagram ip_string itoa dial (0 ∷ 0 ∷ frag ∷ rest) s).0 ≡ panic
  unfolding process
  datagram_fragment frag rest s h room =
      let nonzero : (frag == 0) ≡ false = ground (arith, h) in
      rw (
        datagram_fits ip_string itoa dial (0 ∷ 0 ∷ frag ∷ rest) s (omega (arith, room)),
        process,
        nonzero,
      )

  le_cases : (n : ℕ) → (n ≤ 250) ⊎ (251 ≤ n)
  le_cases n = ground arith

  parse_head-long :
      (n : List ℕ) (port : ℕ) (s : Relay)
      → 249 ≤ length n
      → length n ≤ 255
      → (parse_head ip_string itoa dial (head (name n) port) s).0 ≡ panic
  unfolding parse_head lift_slice
  parse_head-long n port s low high =
      let enough : leb (length (head (name n) port)) 3 ≡ false =
        ground (arith, length-append n (put_uint16 port), length-put_uint16 port) in
      elim (le_cases (length n)) [
        | inl few ↦
            let first : (5 + length n) % 256 ≡ 5 + length n = omega (arith, few) in
            rw (
              enough,
              first,
              slice-append (0 ∷ 0 ∷ 0 ∷ 3 ∷ length n ∷ []) n (put_uint16 port) 5 (5 + length n) refl
                  (omega arith),
              slice-panic (head (name n) port) (5 + length n) ((7 + length n) % 256)
                  (omega (arith, low, few)),
            )
        | inr many ↦ rw (
          enough,
          slice-panic (head (name n) port) 5 ((5 + length n) % 256) (omega (arith, many, high)),
        )
      ]

  process-long :
      (size : ℕ) (n : List ℕ) (port : ℕ) (more : List ℕ) (s : Relay)
      → 249 ≤ length n
      → length n ≤ 255
      → (process ip_string itoa dial size (record s { buf = head (name n) port ++ more })).0 ≡ panic
  unfolding process take_head
  process-long size n port more s low high =
      let r : Relay = record s { buf = head (name n) port ++ more } in
      let sized : length (head (name n) port) ≡ length n + 7 =
        omega (arith, length-append n (put_uint16 port), length-put_uint16 port) in
      rw
        (
          size_head-head ip_string itoa dial (name n) port more r refl,
          slice-append [] (head (name n) port) more 0 (length n + 7) refl (omega (arith, sized)),
        )
        (and_then-panic _ _
          (parse_head-long n port (record r { head_size = length n + 7 }) low high))

  -- A datagram for a name of 249 to 255 bytes is a panic, though RFC 1928 allows it, for a datagram
  -- that the buffer holds.
  pub datagram_long_name :
      (n payload : List ℕ) (port : ℕ) (s : Relay)
      → 249 ≤ length n
      → length n ≤ 255
      → length (head (name n) port ++ payload) ≤ 2048
      → (datagram ip_string itoa dial (head (name n) port ++ payload) s).0 ≡ panic
  datagram_long_name n payload port s low high room =
      let d = head (name n) port ++ payload in
      let more = drop (length d) s.buf in
      let buffer : d ++ more ≡ head (name n) port ++ (payload ++ more) =
        append_assoc (head (name n) port) payload more in
      let to_process : datagram ip_string itoa dial d s
          ≡ process ip_string itoa dial (length d)
              (record s { buf = head (name n) port ++ (payload ++ more) }) =
        datagram_fits ip_string itoa dial d s room
        ∙ ap (λ b. process ip_string itoa dial (length d) (record s { buf = b })) buffer in
      rw to_process (process-long (length d) n port (payload ++ more) s low high)
