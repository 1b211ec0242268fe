-- ===== src/Router/Reserved.antt =====
-- LoadReservedIP of daze.go, with what is used of the standard library: hex.DecodeString, and
-- IPNet.Contains for a net whose mask is as long as its address, which is no IPv4 in 16 bytes.
pub mod Ranges
pub mod Places
use Prim.Native.Nat.{bit_and}
use Prim.Native.String.{String}
use daze.Base.{
  ℕ, ◌+◌, ◌-◌, ◌*◌, Bool, true, false, ◌&&◌, Option, none, some, List, [], ◌∷◌, ◌++◌, Outcome, ok,
  fail, panic, bad_hex, length, take, drop, replicate, leb, ◌==◌, if◌then◌else◌,
}
use daze.Base.Bytes.{codes}
use daze.Baboon.{same_bytes}

-- `net.IPNet`
pub record Net : Type 0 where
  pub ip : List ℕ
  pub mask : List ℕ

digit : ℕ → Option ℕ
digit c =
    if leb 48 c && leb c 57
    then some (c - 48)
    else if leb 65 c && leb c 70
    then some (c - 55)
    else if leb 97 c && leb c 102
    then some (c - 87)
    else none

digits_byte : Option ℕ → Option ℕ → Outcome (List ℕ) → Outcome (List ℕ)
digits_byte (some a) (some b) (ok bs) = ok ((a * 16 + b) ∷ bs)
digits_byte (some a) (some b) (fail e) = fail e
digits_byte (some a) (some b) panic = panic
digits_byte (some a) none rest = fail bad_hex
digits_byte none b rest = fail bad_hex

-- `hex.DecodeString`
unfoldable pub decode_string : List ℕ → Outcome (List ℕ)
unfolding digits_byte digit
decode_string [] = ok []
decode_string (c ∷ []) = fail bad_hex
decode_string (c ∷ d ∷ cs) = digits_byte (digit c) (digit d) (decode_string cs)

-- The two `doa.Try`, and the append.
append_net : Outcome (List ℕ) → Outcome (List ℕ) → Outcome (List Net) → Outcome (List Net)
append_net (ok i) (ok m) (ok r) = ok (record { ip = i; mask = m } ∷ r)
append_net (ok i) (ok m) (fail e) = fail e
append_net (ok i) (ok m) panic = panic
append_net (ok i) (fail e) r = panic
append_net (ok i) panic r = panic
append_net (fail e) m r = panic
append_net panic m r = panic

abbrev pub table : List (String × String)
table =
    -- IPv4
    ("00000000", "FF000000")
    ∷ ("0A000000", "FF000000")
    ∷ ("7F000000", "FF000000")
    ∷ ("A9FE0000", "FFFF0000")
    ∷ ("AC100000", "FFF00000")
    ∷ ("C0000000", "FFFFFFF8")
    ∷ ("C00000AA", "FFFFFFFE")
    ∷ ("C0000200", "FFFFFF00")
    ∷ ("C0A80000", "FFFF0000")
    ∷ ("C6120000", "FFFE0000")
    ∷ ("C6336400", "FFFFFF00")
    ∷ ("CB007100", "FFFFFF00")
    ∷ ("F0000000", "F0000000")
    ∷ ("FFFFFFFF", "FFFFFFFF")
    -- IPv6
    ∷ ("00000000000000000000000000000000", "FFFFFFFFFFFFFFFFFFFFFFFFFFFFFFFF")
    ∷ ("00000000000000000000000000000001", "FFFFFFFFFFFFFFFFFFFFFFFFFFFFFFFF")
    ∷ ("01000000000000000000000000000000", "FFFFFFFFFFFFFFFF0000000000000000")
    ∷ ("0064FF9B000000000000000000000000", "FFFFFFFFFFFFFFFFFFFFFFFF00000000")
    ∷ ("20010000000000000000000000000000", "FFFFFFFF000000000000000000000000")
    ∷ ("20010010000000000000000000000000", "FFFFFFF0000000000000000000000000")
    ∷ ("20010020000000000000000000000000", "FFFFFFF0000000000000000000000000")
    ∷ ("20010DB8000000000000000000000000", "FFFFFFFF000000000000000000000000")
    ∷ ("20020000000000000000000000000000", "FFFF0000000000000000000000000000")
    ∷ ("FC000000000000000000000000000000", "FE000000000000000000000000000000")
    ∷ ("FE800000000000000000000000000000", "FFC00000000000000000000000000000")
    ∷ ("FF000000000000000000000000000000", "FF000000000000000000000000000000")
    ∷ []

unfoldable pub load_from : List (String × String) → Outcome (List Net)
unfolding append_net decode_string
load_from [] = ok []
load_from ((i, m) ∷ es) =
    append_net (decode_string (codes i)) (decode_string (codes m)) (load_from es)

-- `LoadReservedIP`
unfoldable pub load_reserved_ip : Outcome (List Net)
unfolding load_from
load_reserved_ip = load_from table

-- `IP.To4`, and the address itself where it has no form of four bytes.
unfoldable pub to4 : List ℕ → List ℕ
to4 ip =
    if length ip == 16 && same_bytes (take 12 ip) (replicate 10 0 ++ 255 ∷ 255 ∷ [])
    then drop 12 ip
    else ip

unfoldable pub same_masked : List ℕ → List ℕ → List ℕ → Bool
same_masked (n ∷ ns) (m ∷ ms) (b ∷ bs) =
    let rest = same_masked ns ms bs in if bit_and n m == bit_and b m then rest else false
same_masked [] ms bs = true
same_masked (n ∷ ns) [] bs = true
same_masked (n ∷ ns) (m ∷ ms) [] = true

-- `IPNet.Contains`
unfoldable pub contains : Net → List ℕ → Bool
unfolding to4 same_masked
contains n ip =
    let a = to4 ip in if length a == length n.ip then same_masked n.ip n.mask a else false
