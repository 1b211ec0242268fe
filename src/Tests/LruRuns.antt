-- ===== src/Tests/LruRuns.antt =====
-- Tests of lib/lru.
use daze.Base.{ℕ, ◌≡◌, List, [], ◌∷◌, ok, ◌==◌, ==_iff}
use daze.Lru.Cache.{new}
use daze.Lru.Cache.Calls
use daze.Lru.Cache.Calls.{Held, Call, store, look, drop_key, count, run_calls, listed_calls}

-- A cache of one entry: the second Set drops the first.
abbrev asked : List (Call ℕ ℕ)
asked = store 1 10 ∷ store 2 20 ∷ look 1 ∷ look 2 ∷ drop_key 2 ∷ count ∷ []

run_calls-new_example :
    let run = run_calls (λ a b. a == b) asked (new 0 0 1) in
    (run.0 ≡ ok (listed_calls (λ a b. a == b) 1 asked [])) × Held (λ a b. a == b) ==_iff run.1
run_calls-new_example = Calls.run_calls-new (λ a b. a == b) ==_iff 0 0 0 asked
