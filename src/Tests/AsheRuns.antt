-- ===== src/Tests/AsheRuns.antt =====
-- Tests of protocol/ashe.
use daze.Base.{
  ℕ, ◌+◌, ◌-◌, ◌≤◌, ◌≡◌, ◌↔◌, ◌⊎◌, ◌^◌, refl, true, false, Option, none, some, List, [], ◌∷◌, arith,
  Error, ok, refused, replicate,
}
use daze.Net.{IsInvolutive, fresh}
use daze.Net.Steps.{conn}
use daze.Ashe.{Network, tcp, sub64, sign64, gt64, is_expired, estab, serve}
use daze.Ashe.Clock
use daze.Ashe.Exchange
use daze.Ashe.Exchange.{client_wire, server_wire}
use daze.Ashe.Wire.{client_end, server_end}
use daze.Ashe.Udp
use daze.Ashe.Udp.{IsPacket, ArePackets, write_all, read_all}

-- A cipher that flips all the bits of a byte, whatever the key and the place.
abbrev pub flip : List ℕ → ℕ → ℕ → ℕ
flip key i b = 255 - b

pub flip-IsInvolutive : IsInvolutive flip
flip-IsInvolutive key i b h = omega arith

abbrev pub salt : List ℕ
salt = replicate 32 7

abbrev pub cipher : List ℕ
cipher = replicate 32 11

-- "a:1"
abbrev pub address : List ℕ
address = b'a' ∷ b':' ∷ b'1' ∷ []

abbrev pub all_up : Network → List ℕ → Option Error
all_up n dst = none

abbrev all_down : Network → List ℕ → Option Error
all_down n dst = some refused

pub young : is_expired 1100 1000 ≡ false
unfolding is_expired sub64 sign64 gt64
young = refl

old : is_expired 1121 1000 ≡ true
unfolding is_expired sub64 sign64 gt64
old = refl

estab-serve_example :
    let wire = client_wire flip cipher salt 1000 tcp address in
    let c =
      estab flip cipher salt 1000 tcp address
        (fresh 3 (server_wire flip all_up cipher 1100 wire)) in
    ((serve flip all_up cipher 1100 (fresh 1 wire)).0 ≡ server_end flip tcp address none)
    × (c.0 ≡ client_end flip tcp none)
    × (c.1.out ≡ wire)
estab-serve_example =
    Exchange.estab-serve flip flip-IsInvolutive all_up cipher salt address 1000 1100 tcp (λ e. cc)
      refl refl (omega arith) (omega arith) (omega arith) young

is_expired-eq-false_iff_example :
    (is_expired 5 3 ≡ false)
    ↔ ((sub64 5 3 ≤ 120) ⊎ (2 ^ 64 ≤ sub64 5 3 + 120) ⊎ (sub64 5 3 ≡ 2 ^ 63))
is_expired-eq-false_iff_example = Clock.is_expired-eq-false_iff 5 3

is_expired_opposite_example : is_expired 1000 (1000 + 2 ^ 63) ≡ false
is_expired_opposite_example = Clock.is_expired_opposite 1000 (omega arith)

abbrev packets : List (List ℕ)
packets = (1 ∷ 2 ∷ []) ∷ [] ∷ (3 ∷ []) ∷ []

packets-ArePackets : ArePackets 2048 packets
packets-ArePackets = (
  record { fits = omega arith; short = omega arith; bytes = omega arith },
  (
    record { fits = omega arith; short = omega arith; bytes = omega arith },
    (record { fits = omega arith; short = omega arith; bytes = omega arith }, tt),
  ),
)

read_all-write_all_example :
    let sent = (write_all flip packets (conn flip [] [] 3 (some (9 ∷ [])) 4 20 false)).1.out in
    (read_all flip 2048 3 (conn flip sent [] 0 (some (9 ∷ [])) 20 4 false)).0 ≡ ok packets
read_all-write_all_example =
    Udp.read_all-write_all flip flip-IsInvolutive 2048 packets (9 ∷ []) 4 20 (omega arith)
      packets-ArePackets
