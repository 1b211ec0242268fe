-- ===== src/Locale/Requests.antt =====
-- The requests of SOCKS5 (RFC 1928) and SOCKS4/4a as a client writes them, and that Locale serves
-- them.
use daze.Base.{
  ℕ, suc, ◌≤◌, ◌<◌, ◌≡◌, ◌⊎◌, true, arith, refl, false, Option, none, some, List, [], ◌∷◌, ◌++◌,
  Error, Outcome, ok, fail, length, ◌^◌, Option-cases, inl, inr, drop-append,
}
use daze.Base.Bytes.{put_uint16, uint_be-put_uint16, length-put_uint16}
use daze.Locale.{Served, linked, read_byte, write, write_within, dial_tcp}
use daze.Locale.Reads.{client, NoZeros, read_lax-append, read_strict-append, read_bytes-append}
use daze.Locale.Socks5
use daze.Locale.Socks5.{serve_socks5, host_of, by_cmd, serve_socks5_tcp, finish_connect}
use daze.Locale.Socks4
use daze.Locale.Socks4.{serve_socks4}

-- Where a client wants to go: an address of 4 or 16 bytes, or a name.
pub data Target : Type 0 where
  v4 name v6 : List ℕ → Target

abbrev pub Fits : Target → Type 0
Fits (v4 ip) = length ip ≡ 4
Fits (name n) = length n ≤ 255
Fits (v6 ip) = length ip ≡ 16

abbrev pub kind_of : Target → ℕ
kind_of (v4 ip) = 1
kind_of (name n) = 3
kind_of (v6 ip) = 4

abbrev pub body : Target → List ℕ
body (v4 ip) = ip
body (name n) = length n ∷ n
body (v6 ip) = ip

module _ (ip_string : List ℕ → List ℕ) (itoa : ℕ → List ℕ) (join : List ℕ → List ℕ → List ℕ)
    (dial : List ℕ → Option Error) (bound : ℕ) where
  abbrev pub host_string : Target → List ℕ
  host_string (v4 ip) = ip_string ip
  host_string (name n) = n
  host_string (v6 ip) = ip_string ip

  host_of-body :
      (t : Target) (ys out : List ℕ) (q : ℕ) (d : List (List ℕ))
      → Fits t
      → host_of ip_string itoa join dial bound (kind_of t) (client (body t ++ ys) out q d)
        ≡ (ok (host_string t), client ys out q d)
  unfolding host_of read_byte
  host_of-body (v4 ip) ys out q d h = rw (read_lax-append out q d 4 ip ys h)
  host_of-body (name n) ys out q d h = rw (read_lax-append out q d (length n) n ys refl)
  host_of-body (v6 ip) ys out q d h = rw (read_lax-append out q d 16 ip ys h)

  -- A greeting with any methods, and a CONNECT request.
  abbrev pub socks5_wire : List ℕ → ℕ → Target → ℕ → List ℕ → List ℕ
  socks5_wire methods rsv t port rest =
      5
      ∷ length methods
      ∷ (methods ++ 5 ∷ 1 ∷ rsv ∷ kind_of t ∷ (body t ++ (put_uint16 port ++ rest)))

  abbrev pub socks5_end : List ℕ → Option Error → Outcome Served
  socks5_end dst none = ok (linked dst)
  socks5_end dst (some e) = fail e

  abbrev pub socks5_reply : Option Error → List ℕ
  socks5_reply none = 5 ∷ 0 ∷ Socks5.granted
  socks5_reply (some e) = 5 ∷ 0 ∷ Socks5.rejected

  by_cmd_connect :
      (dst rest : List ℕ) (q : ℕ)
      → by_cmd ip_string itoa join dial bound 1 dst (client rest (5 ∷ 0 ∷ []) (suc q) [])
        ≡ (socks5_end dst (dial dst), client rest (socks5_reply (dial dst)) q (dst ∷ []))
  unfolding by_cmd serve_socks5_tcp finish_connect dial_tcp write write_within
  by_cmd_connect dst rest q = elim (Option-cases (dial dst)) [ inl e ↦ rw e | inr (x, e) ↦ rw e ]

  -- A SOCKS5 CONNECT behind a greeting is served: exactly the address asked for is dialled, once,
  -- the client is told how that went, and nothing behind the request is read; for any methods, an
  -- address of 4 or 16 bytes or a name of at most 255, a port of 16 bits, and a client that takes
  -- two writes.
  pub serve_socks5-connects :
      (methods rest : List ℕ) (rsv port q : ℕ) (t : Target)
      → Fits t
      → port < 2 ^ 16
      → let dst = join (host_string t) (itoa port) in
        serve_socks5 ip_string itoa join dial bound
          (client (socks5_wire methods rsv t port rest) [] (suc (suc q)) [])
        ≡ (socks5_end dst (dial dst), client rest (socks5_reply (dial dst)) q (dst ∷ []))
  unfolding serve_socks5 read_byte write write_within
  serve_socks5-connects methods rest rsv port q t h small =
      let dst = join (host_string t) (itoa port) in
      let tail = put_uint16 port ++ rest in
      let opening : List ℕ = 5 ∷ 0 ∷ [] in
      rw (
        drop-append (length methods) methods (5 ∷ 1 ∷ rsv ∷ kind_of t ∷ (body t ++ tail)) refl,
        host_of-body t tail opening (suc q) [] h,
        read_strict-append opening (suc q) [] 2 (put_uint16 port) rest (length-put_uint16 port),
        uint_be-put_uint16 port small,
        by_cmd_connect dst rest q,
      )

-- Where a SOCKS4 client wants to go: an address, or a name behind the address 0.0.0.x (SOCKS4a).
pub data Place : Type 0 where
  at : (a b c d : ℕ) → Place
  called : (x : ℕ) → List ℕ → Place

-- An address with x other than 0 behind three zeros stands for a name and for no other place.
abbrev pub IsPlace : Place → Type 0
IsPlace (at a b c d) = (0 < a) ⊎ (0 < b) ⊎ (0 < c) ⊎ (d ≡ 0)
IsPlace (called x n) = (0 < x) × NoZeros n

abbrev pub place_ip : Place → List ℕ
place_ip (at a b c d) = a ∷ b ∷ c ∷ d ∷ []
place_ip (called x n) = 0 ∷ 0 ∷ 0 ∷ x ∷ []

abbrev pub place_end : Place → List ℕ → List ℕ
place_end (at a b c d) rest = rest
place_end (called x n) rest = n ++ 0 ∷ rest

is_named_at : (a b c d : ℕ) → IsPlace (at a b c d) → Socks4.is_named (a ∷ b ∷ c ∷ d ∷ []) ≡ false
unfolding Socks4.is_named
is_named_at a b c d (inl h) = ground (arith, h)
is_named_at a b c d (inr (inl h)) = ground (arith, h)
is_named_at a b c d (inr (inr (inl h))) = ground (arith, h)
is_named_at a b c d (inr (inr (inr h))) = ground (arith, h)

is_named_called : (x : ℕ) → 0 < x → Socks4.is_named (0 ∷ 0 ∷ 0 ∷ x ∷ []) ≡ true
unfolding Socks4.is_named
is_named_called x h = ground (arith, h)

module _ (ip_string : List ℕ → List ℕ) (itoa : ℕ → List ℕ) (dial : List ℕ → Option Error) where
  abbrev pub place_string : Place → List ℕ
  place_string (at a b c d) = ip_string (a ∷ b ∷ c ∷ d ∷ [])
  place_string (called x n) = n

  -- A CONNECT request with a user's name.
  abbrev pub socks4_wire : ℕ → Place → List ℕ → List ℕ → List ℕ
  socks4_wire port p user rest =
      4 ∷ 1 ∷ (put_uint16 port ++ (place_ip p ++ (user ++ 0 ∷ place_end p rest)))

  abbrev pub socks4_end : List ℕ → Option Error → Outcome Served
  socks4_end dst none = ok (linked dst)
  socks4_end dst (some e) = fail e

  abbrev pub socks4_reply : Option Error → List ℕ
  socks4_reply none = Socks4.granted
  socks4_reply (some e) = Socks4.rejected

  by_code_connect :
      (dst rest : List ℕ) (q : ℕ)
      → Socks4.by_code ip_string itoa dial 1 dst (client rest [] (suc q) [])
        ≡ (socks4_end dst (dial dst), client rest (socks4_reply (dial dst)) q (dst ∷ []))
  unfolding Socks4.by_code Socks4.connect Socks4.finish_connect dial_tcp write write_within
  by_code_connect dst rest q = elim (Option-cases (dial dst)) [ inl e ↦ rw e | inr (x, e) ↦ rw e ]

  host_of-place :
      (p : Place) (rest : List ℕ) (q : ℕ)
      → IsPlace p
      → Socks4.host_of ip_string itoa dial (place_ip p) (client (place_end p rest) [] q [])
        ≡ (ok (place_string p), client rest [] q [])
  unfolding Socks4.host_of
  host_of-place (at a b c d) rest q h = rw (is_named_at a b c d h)
  host_of-place (called x n) rest q h =
      rw (is_named_called x h.0) (read_bytes-append [] q [] n rest h.1)

  length-place_ip : (p : Place) → length (place_ip p) ≡ 4
  length-place_ip (at a b c d) = refl
  length-place_ip (called x n) = refl

  -- A SOCKS4 or SOCKS4a CONNECT is served: exactly the address asked for is dialled, once, the
  -- client is told how that went, and nothing behind the request is read; a name is one that follows
  -- an address 0.0.0.x with x other than 0, and any other address is itself; for a port of 16 bits,
  -- a user and a name without zero bytes, and a client that takes one write.
  pub serve_socks4-connects :
      (user rest : List ℕ) (port q : ℕ) (p : Place)
      → IsPlace p
      → NoZeros user
      → port < 2 ^ 16
      → let dst = place_string p ++ 58 ∷ itoa port in
        serve_socks4 ip_string itoa dial (client (socks4_wire port p user rest) [] (suc q) [])
        ≡ (socks4_end dst (dial dst), client rest (socks4_reply (dial dst)) q (dst ∷ []))
  unfolding serve_socks4 read_byte
  serve_socks4-connects user rest port q p h clean small =
      let named = user ++ 0 ∷ place_end p rest in
      rw (
        read_lax-append [] (suc q) [] 2 (put_uint16 port) (place_ip p ++ named)
            (length-put_uint16 port),
        read_lax-append [] (suc q) [] 4 (place_ip p) named (length-place_ip p),
        read_bytes-append [] (suc q) [] user (place_end p rest) clean,
        host_of-place p rest (suc q) h,
        uint_be-put_uint16 port small,
        by_code_connect (place_string p ++ 58 ∷ itoa port) rest q,
      )
