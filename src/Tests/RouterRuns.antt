-- ===== src/Tests/RouterRuns.antt =====
-- Tests of the routers and of Aimbot.
use daze.Base.{
  ℕ, ◌≡◌, refl, Bool, true, false, Option, none, some, List, [], ◌∷◌, Outcome, ok, ◌==◌, ==_iff,
  map, ◌%◌, arith,
}
use daze.Base.State.{St}
use daze.Router.{Road, remote, Lists, right, cache, road}
use daze.Router.Aimbot.{aimbot_dial, new_router, kind_remote, remote_router}
use daze.Router.Cache
use daze.Router.Cache.{ask_all, answer}
use daze.Router.Verdict.{Ruled, chained_rule}
use daze.Router.Dialing
use daze.Router.Dialing.{Dials}
use daze.Base.Bytes.{AreBytes}
use daze.Router.Reserved
use daze.Router.Reserved.{Net, load_reserved_ip}
use daze.Router.Reserved.Places
use daze.Router.Reserved.Places.{road_by_ip}
use daze.Router.File
use daze.Router.File.{Loaded, Word, rules_from_file, cidr_from_file}

abbrev eq : ℕ → ℕ → Bool
eq a b = a == b

eq-sound : (a b : ℕ) → eq a b ≡ true → a ≡ b
eq-sound a b h = (==_iff a b).0 h

abbrev lookup : ℕ → Option (List ℕ)
lookup h = some (h ∷ [])

abbrev contains : ℕ → ℕ → Bool
contains n a = n == a

abbrev glob : ℕ → ℕ → Option Bool
glob g h = some (g == h)

abbrev split : ℕ → Outcome ℕ
split a = ok a

-- Dialers that note what they are asked for.
abbrev near : ℕ → St (List ℕ) ℕ
near a w = (ok 0, a ∷ w)

abbrev far : ℕ → St (List ℕ) ℕ
far a w = (ok 1, a ∷ w)

abbrev some_rules : Lists ℕ
some_rules = record { l = 1 ∷ []; r = 2 ∷ []; b = 3 ∷ [] }

abbrev some_ranges : Lists ℕ
some_ranges = record { l = 4 ∷ []; r = []; b = 5 ∷ [] }

dial-Dials_example :
    (a : Road) × Ruled eq lookup contains glob some_rules some_ranges 4 (lookup 4) a
    × Dials eq lookup contains glob eq-sound split near far 64
        (chained_rule eq lookup contains glob some_rules some_ranges)
        4
        []
        a
        (aimbot_dial eq lookup contains glob split near far
          (cache 64 [] (chained_rule eq lookup contains glob some_rules some_ranges))
          4
          [])
dial-Dials_example =
    Dialing.dial-Dials eq lookup contains glob eq-sound split near far 63 some_rules some_ranges []
      4 4 [] refl ((false, refl), tt) ((false, refl), tt) ((false, refl), tt) (λ p. cc) tt

ask_all-cache_example :
    ask_all eq lookup contains glob eq-sound (cache 2 [] (right remote)) (1 ∷ 2 ∷ 1 ∷ 3 ∷ [])
    ≡ map (answer eq lookup contains glob eq-sound (right remote)) (1 ∷ 2 ∷ 1 ∷ 3 ∷ [])
unfolding road
ask_all-cache_example =
    Cache.ask_all-cache eq lookup contains glob eq-sound 1 (right remote) (1 ∷ 2 ∷ 1 ∷ 3 ∷ [])
      (λ h. refl)

-- "L a b", "# c", "B d"
abbrev rows : List (List Word)
rows =
    ((76 ∷ []) ∷ (97 ∷ []) ∷ (98 ∷ []) ∷ [])
    ∷ ((35 ∷ []) ∷ (99 ∷ []) ∷ [])
    ∷ ((66 ∷ []) ∷ (100 ∷ []) ∷ [])
    ∷ []

rules_from_file-Loaded_example :
    (m : Lists Word) × (rules_from_file (some (rows, false)) (record { l = []; r = []; b = [] })
      ≡ ok m)
    × Loaded (record { l = []; r = []; b = [] }) m rows
rules_from_file-Loaded_example =
    File.rules_from_file-Loaded rows (record { l = []; r = []; b = [] })

-- Hosts in a private network.
abbrev lookup_ip : ℕ → Option (List (List ℕ))
lookup_ip h = some ((192 ∷ 168 ∷ 1 ∷ (h % 256) ∷ []) ∷ [])

lookup_ip-AreBytes :
    (h : ℕ) (ip : List ℕ) (rest : List (List ℕ)) → lookup_ip h ≡ some (ip ∷ rest) → AreBytes ip
lookup_ip-AreBytes h ip rest e =
    let same : 192 ∷ 168 ∷ 1 ∷ (h % 256) ∷ [] ≡ ip = cc in rw (← same) (omega arith)

abbrev no_nets : Word → Option Net
no_nets w = none

remote_router-reserved_example :
    (reserved : List Net) × (load_reserved_ip ≡ ok reserved)
    × (new_router no_nets reserved kind_remote none none ≡ ok (remote_router {H = ℕ} reserved))
    × (ask_all eq lookup_ip Reserved.contains glob eq-sound
          (remote_router reserved)
          (1 ∷ 2 ∷ 1 ∷ [])
        ≡ map (λ h. road_by_ip eq lookup_ip glob eq-sound (lookup_ip h)) (1 ∷ 2 ∷ 1 ∷ []))
remote_router-reserved_example =
    Places.remote_router-reserved eq lookup_ip glob eq-sound no_nets none none (1 ∷ 2 ∷ 1 ∷ [])
      lookup_ip-AreBytes
