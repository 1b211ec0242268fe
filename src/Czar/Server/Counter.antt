-- ===== src/Czar/Server/Counter.antt =====
-- What becomes of the streams that the goroutines of Server.Run take, and of their counter.
use daze.Base.{
  ℕ, zero, suc, ◌+◌, ◌≡◌, ◌≢◌, refl, Option, none, some, List, [], ◌∷◌, ◌++◌, Outcome, ok, fail,
  panic, arith, get_elem?, set,
}
use mathlib.Core.Path.{subst}
use daze.Listener.{Phase, accepting, ended, crashed, pick}
use daze.Czar.Server.{
  Stage, waiting, holding, loaded, stored, done, Hub, Event, connects, accept_error, gives, goes,
  drains, ends, begin, on_connect, on_error, on_give, on_drain, on_go, finish, on_end, act, turn_at,
  turn, Reached, start, later,
}

module _ {A : Type 0} where
  unfoldable pub weight : (A → ℕ) → List A → ℕ
  weight w [] = 0
  weight w (x ∷ xs) = w x + weight w xs

  weight-append : (w : A → ℕ) (xs ys : List A) → weight w (xs ++ ys) ≡ weight w xs + weight w ys
  unfolding weight
  weight-append w [] ys = omega arith
  weight-append w (x ∷ xs) ys = omega (arith, weight-append w xs ys)

  weight-set :
      (w : A → ℕ) (xs : List A) (n : ℕ) (a b : A)
      → get_elem? xs n ≡ some a
      → weight w (set xs n b) + w a ≡ weight w xs + w b
  unfolding weight
  weight-set w [] n a b h = cc
  weight-set w (x ∷ xs) zero a b h = let same : x ≡ a = cc in rw same (omega arith)
  weight-set w (x ∷ xs) (suc n) a b h = omega (arith, weight-set w xs n a b h)

module _ {C : Type 0} (w : C → ℕ) where
  -- The weight of a stream with its Cid, and of the stream that a goroutine has in its hands.
  abbrev pub of_pair : ℕ × C → ℕ
  of_pair (i, c) = w c

  abbrev pub of_stage : Stage C → ℕ
  of_stage waiting = 0
  of_stage (holding c) = w c
  of_stage (loaded v c) = w c
  of_stage (stored c) = w c
  of_stage done = 0

  abbrev Picked : List (ℕ × C) → Option ((ℕ × C) × List (ℕ × C)) → Type 0
  Picked l none = Unit
  Picked l (some (p, rest)) = weight of_pair l ≡ of_pair p + weight of_pair rest

  pick-Picked : (n : ℕ) (l : List (ℕ × C)) → Picked l (pick n l)
  unfolding pick weight
  pick-Picked n [] = tt
  pick-Picked zero (p ∷ l) = refl
  pick-Picked (suc n) (p ∷ l) = go (pick n l) (pick-Picked n l)
    where
      go :
          (o : Option ((ℕ × C) × List (ℕ × C)))
          → Picked l o
          → Picked (p ∷ l) (elim o [ none ↦ none | some (b, rest) ↦ some (b, p ∷ rest) ])
      go none h = tt
      go (some (q, rest)) h = omega (arith, h)

  -- Every stream that was taken is in the hands of a goroutine, or being served, or closed.
  abbrev pub Balanced : Hub C → Type 0
  Balanced s =
      s.phase ≢ crashed
      → weight w s.taken ≡ weight of_stage s.lanes + weight of_pair s.live + weight of_pair s.closed

  abbrev After : Option (Hub C) → Type 0
  After none = Unit
  After (some s) = Balanced s

  module _ (serve : C → Outcome (Unit {0}) × C) (close : C → C)
      (keeps : (c : C) → w (close (serve c).1) ≡ w c) where
    connect-Balanced :
        (p : Phase) (s : Hub C)
        → s.phase ≢ crashed
        → Balanced s
        → After (on_connect serve close p s)
    unfolding on_connect weight
    connect-Balanced accepting s a b =
        λ h. omega (arith, b a, weight-append of_stage s.lanes (waiting ∷ []))
    connect-Balanced ended s a b = tt
    connect-Balanced crashed s a b = tt

    error-Balanced :
        (p : Phase) (s : Hub C) → s.phase ≢ crashed → Balanced s → After (on_error serve close p s)
    unfolding on_error
    error-Balanced accepting s a b = λ h. b a
    error-Balanced ended s a b = tt
    error-Balanced crashed s a b = tt

    give-Balanced :
        (n : ℕ) (c : C) (o : Option (Stage C)) (s : Hub C)
        → get_elem? s.lanes n ≡ o
        → s.phase ≢ crashed
        → Balanced s
        → After (on_give serve close n c o s)
    unfolding on_give weight
    give-Balanced n c (some waiting) s e a b = λ h. omega (
      arith,
      b a,
      weight-append w s.taken (c ∷ []),
      weight-set of_stage s.lanes n waiting (holding c) e,
    )
    give-Balanced n c none s e a b = tt
    give-Balanced n c (some (holding d)) s e a b = tt
    give-Balanced n c (some (loaded v d)) s e a b = tt
    give-Balanced n c (some (stored d)) s e a b = tt
    give-Balanced n c (some done) s e a b = tt

    drain-Balanced :
        (n : ℕ) (o : Option (Stage C)) (s : Hub C)
        → get_elem? s.lanes n ≡ o
        → s.phase ≢ crashed
        → Balanced s
        → After (on_drain serve close n o s)
    unfolding on_drain
    drain-Balanced n (some waiting) s e a b =
        λ h. omega (arith, b a, weight-set of_stage s.lanes n waiting done e)
    drain-Balanced n none s e a b = tt
    drain-Balanced n (some (holding d)) s e a b = tt
    drain-Balanced n (some (loaded v d)) s e a b = tt
    drain-Balanced n (some (stored d)) s e a b = tt
    drain-Balanced n (some done) s e a b = tt

    go-Balanced :
        (n : ℕ) (o : Option (Stage C)) (s : Hub C)
        → get_elem? s.lanes n ≡ o
        → s.phase ≢ crashed
        → Balanced s
        → After (on_go serve close n o s)
    unfolding on_go weight
    go-Balanced n (some (holding c)) s e a b =
        λ h. omega (arith, b a, weight-set of_stage s.lanes n (holding c) (loaded s.idx c) e)
    go-Balanced n (some (loaded v c)) s e a b =
        λ h. omega (arith, b a, weight-set of_stage s.lanes n (loaded v c) (stored c) e)
    go-Balanced n (some (stored c)) s e a b = λ h. omega (
      arith,
      b a,
      weight-set of_stage s.lanes n (stored c) waiting e,
      weight-append of_pair s.live ((s.idx, c) ∷ []),
    )
    go-Balanced n none s e a b = tt
    go-Balanced n (some waiting) s e a b = tt
    go-Balanced n (some done) s e a b = tt

    finish-Balanced :
        (i : ℕ) (c : C) (r : Outcome (Unit {0}) × C) (rest : List (ℕ × C)) (s : Hub C)
        → w (close r.1) ≡ w c
        → weight of_pair s.live ≡ w c + weight of_pair rest
        → s.phase ≢ crashed
        → Balanced s
        → Balanced (finish serve close i r rest s)
    unfolding finish weight
    finish-Balanced i c (ok x, d) rest s k p a b =
        λ h. omega (arith, b a, k, p, weight-append of_pair s.closed ((i, close d) ∷ []))
    finish-Balanced i c (fail x, d) rest s k p a b =
        λ h. omega (arith, b a, k, p, weight-append of_pair s.closed ((i, close d) ∷ []))
    finish-Balanced i c (panic, d) rest s k p a b = λ h. absurd (h refl)

    end-Balanced :
        (o : Option ((ℕ × C) × List (ℕ × C))) (s : Hub C)
        → Picked s.live o
        → s.phase ≢ crashed
        → Balanced s
        → After (on_end serve close o s)
    unfolding on_end
    end-Balanced none s p a b = tt
    end-Balanced (some ((i, c), rest)) s p a b =
        finish-Balanced i c (serve c) rest s (keeps c) p a b

    act-Balanced :
        (e : Event C) (s : Hub C) → s.phase ≢ crashed → Balanced s → After (act serve close e s)
    unfolding act
    act-Balanced connects s a b = connect-Balanced s.phase s a b
    act-Balanced accept_error s a b = error-Balanced s.phase s a b
    act-Balanced (gives n c) s a b = give-Balanced n c (get_elem? s.lanes n) s refl a b
    act-Balanced (goes n) s a b = go-Balanced n (get_elem? s.lanes n) s refl a b
    act-Balanced (drains n) s a b = drain-Balanced n (get_elem? s.lanes n) s refl a b
    act-Balanced (ends k) s a b = end-Balanced (pick k s.live) s (pick-Picked k s.live) a b

    turn_at-Balanced :
        (p : Phase) (e : Event C) (s : Hub C)
        → s.phase ≡ p
        → Balanced s
        → After (turn_at serve close p e s)
    unfolding turn_at
    turn_at-Balanced accepting e s h b = act-Balanced e s (λ x. cc) b
    turn_at-Balanced ended e s h b = act-Balanced e s (λ x. cc) b
    turn_at-Balanced crashed e s h b = tt

    -- However connections, streams and the steps of the goroutines come: every stream that a
    -- multiplexer has given is in the hands of just one goroutine, or is being served, or is closed,
    -- and that as often as it was given, unless a handler has panicked; for a weight of streams that
    -- serving and closing one does not change.
    pub Reached-balances : {s : Hub C} → Reached serve close begin s → Balanced s
    unfolding turn weight
    Reached-balances start = λ h. refl
    Reached-balances (later {t} {u} e r step) =
        subst (λ o. After o) step (turn_at-Balanced t.phase e t refl (Reached-balances r))
