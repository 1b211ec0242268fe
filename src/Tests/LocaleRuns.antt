-- ===== src/Tests/LocaleRuns.antt =====
-- Tests of the local end.
use daze.Base.{
  ℕ, ◌≡◌, Option, none, some, List, [], ◌∷◌, ◌++◌, arith, Error, ok, panic, refused, replicate,
}
use daze.Locale.Reads.{client}
use daze.Locale.Requests
use daze.Locale.Requests.{
  v4, name, called, socks5_wire, socks5_end, socks5_reply, socks4_wire, socks4_end, socks4_reply,
}
use daze.Locale.Socks4.{serve_socks4}
use daze.Locale.Socks5.{serve_socks5}
use daze.Locale.Datagram.{Relay, new_relay, datagram}
use daze.Locale.Relays
use daze.Locale.Relays.{head, sent_on, reached, address}
use daze.Locale.Crashes
use daze.Base.Bytes.{put_uint16}

abbrev ip_string : List ℕ → List ℕ
ip_string ip = ip

abbrev itoa : ℕ → List ℕ
itoa n = n ∷ []

abbrev join : List ℕ → List ℕ → List ℕ
join h p = h ++ 58 ∷ p

abbrev dial : List ℕ → Option Error
dial [] = some refused
dial (b ∷ bs) = none

serve_socks5-connects_example :
    serve_socks5 ip_string itoa join dial 9 (
      client
        (socks5_wire ip_string itoa join dial 9 (0 ∷ []) 0 (name (b'a' ∷ [])) 443 (7 ∷ []))
        []
        5
        [])
    ≡ (
      socks5_end ip_string itoa join dial 9 (b'a' ∷ 58 ∷ 443 ∷ []) none,
      client
          (7 ∷ [])
          (socks5_reply ip_string itoa join dial 9 none)
          3
          ((b'a' ∷ 58 ∷ 443 ∷ []) ∷ []),
    )
serve_socks5-connects_example =
    Requests.serve_socks5-connects ip_string itoa join dial 9 (0 ∷ []) (7 ∷ []) 0 443 3
      (name (b'a' ∷ [])) (omega arith) (omega arith)

serve_socks4-connects_example :
    serve_socks4 ip_string itoa dial (
      client
        (socks4_wire ip_string itoa dial 80 (called 7 (b'a' ∷ [])) (b'u' ∷ []) (7 ∷ []))
        []
        2
        [])
    ≡ (
      socks4_end ip_string itoa dial (b'a' ∷ 58 ∷ 80 ∷ []) none,
      client (7 ∷ []) (socks4_reply ip_string itoa dial none) 1 ((b'a' ∷ 58 ∷ 80 ∷ []) ∷ []),
    )
serve_socks4-connects_example =
    Requests.serve_socks4-connects ip_string itoa dial (b'u' ∷ []) (7 ∷ []) 80 1
      (called 7 (b'a' ∷ [])) (omega arith) (omega arith) (omega arith)

abbrev start : Relay
start = new_relay (5 ∷ 0 ∷ [])

datagram-relays_example :
    let t = name (b'a' ∷ []) in
    let after = datagram ip_string itoa dial (head t 53 ++ 1 ∷ 2 ∷ []) start in
    (after.0 ≡ ok tt)
    × (after.1.sent
        ≡ start.sent
          ++ sent_on ip_string itoa dial
              (reached ip_string itoa dial start (address ip_string itoa dial t 53))
              (address ip_string itoa dial t 53)
              (1 ∷ 2 ∷ []))
unfolding put_uint16
datagram-relays_example =
    Relays.datagram-relays ip_string itoa dial (name (b'a' ∷ [])) 53 (1 ∷ 2 ∷ []) start
      (omega arith) (omega arith) (omega arith)

datagram_long_name_example :
    (datagram ip_string itoa dial (head (name (replicate 250 97)) 53 ++ 1 ∷ []) start).0 ≡ panic
unfolding put_uint16
datagram_long_name_example =
    Crashes.datagram_long_name ip_string itoa dial (replicate 250 97) (1 ∷ []) 53 start
      (omega arith) (omega arith) (omega arith)
