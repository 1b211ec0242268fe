-- ===== src/Apnic.antt =====
-- The ranges of a country: LoadApnic of daze.go, and the command `gen` of cmd/daze/main.go, which
-- writes them to the file that RouterIPNet.FromFile reads. A file is the lines that bufio.Scanner
-- finds, split at "|" by strings.Split; `parse_uint` and `parse_cidr` are strconv.ParseUint of 32
-- bits and net.ParseCIDR, `itoa` and `to_string` the texts of a number and of a range.
pub mod Regions
use daze.Base.{
  ℕ, zero, suc, ◌+◌, ◌-◌, ◌/◌, ◌%◌, ◌^◌, Bool, true, false, Option, none, some, List, [], ◌∷◌, ◌++◌,
  Outcome, ok, fail, panic, ◌==◌, if◌then◌else◌, map,
}
use daze.Base.Bytes.{codes}
use daze.Router.File.{Word}
use Prim.Native.Nat.{bit_and}

unfoldable pub word_eq : Word → Word → Bool
word_eq [] [] = true
word_eq [] (d ∷ ds) = false
word_eq (c ∷ cs) [] = false
word_eq (c ∷ cs) (d ∷ ds) = let rest = word_eq cs ds in if c == d then rest else false

-- `bits.LeadingZeros64`, by way of the length in bits.
unfoldable pub bit_length : ℕ → ℕ → ℕ
bit_length zero n = 0
bit_length (suc fuel) n = let rest = bit_length fuel (n / 2) in if n == 0 then 0 else suc rest

unfoldable pub leading_zeros : ℕ → ℕ
unfolding bit_length
leading_zeros n = 64 - bit_length 64 n

-- `sep4&(sep4-1) == 0` in 64 bits.
unfoldable pub is_power : ℕ → Bool
is_power n = bit_and n ((n + (2 ^ 64 - 1)) % 2 ^ 64) == 0

-- `line == "" || strings.HasPrefix(line, "#")`
unfoldable pub is_comment : List Word → Bool
is_comment [] = true
is_comment ([] ∷ []) = true
is_comment ([] ∷ w ∷ ws) = false
is_comment ((c ∷ cs) ∷ ws) = c == b'#'

abbrev pub star : Word
star = b'*' ∷ []

abbrev pub ipv4 : Word
ipv4 = codes "ipv4"

abbrev pub ipv6 : Word
ipv6 = codes "ipv6"

-- The map from countries; a country that is not in it has no ranges.
abbrev pub Ranges : Type 0 → Type 0
Ranges N = Word → List N

module _ {N : Type 0} (parse_uint : Word → Option ℕ) (parse_cidr : Word → Option N)
    (itoa : ℕ → Word) where
  unfoldable pub add_range : Word → Option N → Ranges N → Outcome (Ranges N)
  add_range country none r = panic
  add_range country (some n) r = ok (λ w. if word_eq w country then r w ++ n ∷ [] else r w)

  -- `mask` is at least 1, since ParseUint gives less than 2^32.
  unfoldable pub counted : Word → Word → Option ℕ → Ranges N → Outcome (Ranges N)
  unfolding is_power leading_zeros add_range
  counted country start none r = panic
  counted country start (some n) r =
      if is_power n
      then add_range country (parse_cidr (start ++ b'/' ∷ itoa (leading_zeros n - 31))) r
      else panic

  -- The switch; an index out of range is a panic.
  unfoldable pub by_type : List Word → Ranges N → Outcome (Ranges N)
  unfolding counted
  by_type (registry ∷ country ∷ kind ∷ start ∷ value ∷ ws) r =
      if word_eq kind ipv4
      then counted country start (parse_uint value) r
      else if word_eq kind ipv6
      then add_range country (parse_cidr (start ++ b'/' ∷ value)) r
      else ok r
  by_type (registry ∷ country ∷ kind ∷ ws) r =
      if word_eq kind ipv4 then panic else if word_eq kind ipv6 then panic else ok r
  by_type ws r = panic

  unfoldable pub from_country : List Word → Ranges N → Outcome (Ranges N)
  unfolding by_type
  from_country (registry ∷ country ∷ ws) r =
      if word_eq country star then ok r else by_type (registry ∷ country ∷ ws) r
  from_country ws r = panic

  unfoldable pub one_line : List Word → Ranges N → Outcome (Ranges N)
  unfolding from_country is_comment
  one_line ws r = if is_comment ws then ok r else from_country ws r

  unfoldable pub all_lines : List (List Word) → Ranges N → Outcome (Ranges N)
  all_lines [] r = ok r
  all_lines (ws ∷ rest) r = elim (one_line ws r) [
    | ok q ↦ all_lines rest q
    | fail e ↦ fail e
    | panic ↦ panic
  ]

  -- `LoadApnic`, on what OpenFile gives.
  unfoldable pub load_apnic : Option (List (List Word)) → Outcome (Ranges N)
  load_apnic none = panic
  load_apnic (some rows) = all_lines rows (λ w. [])

  module _ (to_string : N → Word) where
    -- A line of the file, `fmt.Fprintln(f, "L", e.String())`, by its fields.
    abbrev pub written : N → List Word
    written n = (b'L' ∷ []) ∷ to_string n ∷ []

    -- Without a range the usage is printed, and no file is written.
    unfoldable pub save : List N → Option (List (List Word))
    save [] = none
    save (n ∷ ns) = some (map written (n ∷ ns))

    -- The command `gen` with a region in capitals: the lines of the file, or `none`.
    unfoldable pub gen : Word → Option (List (List Word)) → Outcome (Option (List (List Word)))
    unfolding save load_apnic
    gen region source =
        if word_eq region (codes "CN")
        then (elim (load_apnic source) [
          | ok r ↦ ok (save (r (codes "CN")))
          | fail e ↦ fail e
          | panic ↦ panic
        ])
        else ok none
