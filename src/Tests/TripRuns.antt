-- ===== src/Tests/TripRuns.antt =====
-- Tests of what cmd/daze/main.go puts together.
use daze.Base.{
  ℕ, ◌++◌, refl, Bool, true, false, Option, none, some, List, [], ◌∷◌, arith, Error, Outcome, ok,
  refused, take, ◌==◌, ◌≡◌, panic, replicate, if◌then◌else◌,
}
use daze.Base.Bytes.{codes}
use daze.Router.File.{Word, File}
use daze.Command.{
  main, resolver_of, server_flags, protocol_of, resolving, failed, shut, dns, Part, ashe_server,
}
use daze.Command.Starting
use daze.Command.Starting.{Nested}
use daze.Router.{Road, Lists, cache}
use daze.Router.Verdict.{Ruled, chained_rule}
use daze.Baboon.{same_bytes}
use daze.Baboon.Signature.{eq_of_same_bytes}
use daze.Locale.Reads.{client}
use daze.Locale.Requests.{name, socks5_wire}
use daze.Assembly.{World, browse}
use daze.Assembly.Trip
use daze.Assembly.Trip.{Trip}
use daze.Tests.AsheRuns.{flip, flip-IsInvolutive, salt, cipher, all_up, young}

abbrev direct : List ℕ → Option Error
direct a = some refused

abbrev lookup : List ℕ → Option (List ℕ)
lookup h = some (8 ∷ [])

abbrev contains : ℕ → ℕ → Bool
contains n a = n == a

-- A pattern without wildcards.
abbrev glob : List ℕ → List ℕ → Option Bool
glob g h = some (same_bytes g h)

abbrev split : List ℕ → Outcome (List ℕ)
split a = ok (take 1 a)

abbrev ip_string : List ℕ → List ℕ
ip_string ip = ip

abbrev itoa : ℕ → List ℕ
itoa n = 49 ∷ []

abbrev join : List ℕ → List ℕ → List ℕ
join h p = h ++ 58 ∷ p

abbrev some_rules : Lists (List ℕ)
some_rules = record { l = (98 ∷ []) ∷ []; r = (97 ∷ []) ∷ []; b = (99 ∷ []) ∷ [] }

abbrev some_ranges : Lists ℕ
some_ranges = record { l = 4 ∷ []; r = []; b = 5 ∷ [] }

abbrev idle : World
idle = record { direct = []; sessions = [] }

browse-Trip_example :
    let raw = chained_rule same_bytes lookup contains glob some_rules some_ranges in
    (a : Road) × Ruled same_bytes lookup contains glob some_rules some_ranges
      (97 ∷ [])
      (lookup (97 ∷ []))
      a
    × Trip flip cipher salt 1000 1100 all_up direct none flip-IsInvolutive refl refl
        (omega arith)
        young
        same_bytes
        lookup
        contains
        glob
        eq_of_same_bytes
        split
        ip_string
        itoa
        join
        9
        raw
        64
        (97 ∷ 58 ∷ 49 ∷ [])
        (7 ∷ [])
        3
        idle
        a
        (browse flip cipher salt 1000 1100 all_up direct same_bytes lookup contains glob split none
          ip_string itoa join 9
          (client
            (socks5_wire ip_string itoa join (λ d. none) 9 (0 ∷ []) 0 (name (97 ∷ [])) 1 (7 ∷ []))
            []
            5
            [])
          (cache 64 [] raw, idle))
unfolding same_bytes
browse-Trip_example =
    Trip.browse-Trip flip cipher salt 1000 1100 all_up direct none flip-IsInvolutive refl refl
      (omega arith) young same_bytes lookup contains glob eq_of_same_bytes split ip_string itoa join
      9 (0 ∷ []) (7 ∷ []) 0 1 3 63 (name (97 ∷ [])) (97 ∷ []) some_rules some_ranges [] idle
      (omega arith) (omega arith) (omega arith) (omega arith) refl ((false, refl), tt)
      ((true, refl), tt) ((false, refl), tt) (λ p. cc) tt

-- A server that is started with a cipher, at an address that is taken.
abbrev some_flags : List ℕ → Option (List ℕ)
some_flags w = if same_bytes w (codes "k") then some (codes "secret") else none

abbrev taken : List ℕ → Option Error
taken a = some refused

abbrev hash : List ℕ → List ℕ
hash w = replicate 32 1

abbrev no_nets : List ℕ → Option ℕ
no_nets w = none

abbrev no_file : Word → File
no_file w = none

main-Nested_example :
    let r = main hash taken no_nets [] no_file true (codes "server" ∷ []) [] [] some_flags [] in
    Nested r.0 r.1
main-Nested_example =
    Starting.main-Nested hash taken no_nets [] no_file true (codes "server" ∷ []) [] [] some_flags

-- What it does.
abbrev taken_server : Part
taken_server = ashe_server (codes "0.0.0.0:1081") (hash [])

started :
    main hash taken no_nets [] no_file true (codes "server" ∷ []) [] [] some_flags []
    ≡ (panic, resolving (dns (codes "1.1.1.1:53")) ∷ failed taken_server ∷ shut taken_server ∷ [])
unfolding main same_bytes resolver_of server_flags protocol_of
started = refl
