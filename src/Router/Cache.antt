-- ===== src/Router/Cache.antt =====
-- What RouterCache of daze.go adds to the router it stands before: nothing but speed.
use daze.Base.{
  ℕ, suc, Bool, true, Option, List, [], ◌∷◌, Outcome, ok, fail, panic, ◌≡◌, refl, sym, ap, map,
  Option-cases, inl, inr,
}
use daze.Lru.Recency
use daze.Router.{Road, Router, cache, road, cached, remember}

module _ {N G H Ip : Type 0} (eq : H → H → Bool) (lookup : H → Option (List Ip))
    (contains : N → Ip → Bool) (glob : G → H → Option Bool)
    (sound : (h k : H) → eq h k ≡ true → h ≡ k) where
  abbrev pub answer : Router N G H → H → Outcome Road
  answer r h = (road eq lookup contains glob r h).0

  -- A router that is the same after a question as before it.
  abbrev pub Stateless : Router N G H → Type 0
  Stateless r = (h : H) → (road eq lookup contains glob r h).1 ≡ r

  -- Every answer kept is the one that the router behind the cache gives.
  abbrev pub Agrees : Router N G H → List (H × Road) → Type 0
  Agrees raw es = Recency.AllEntries eq (λ h a. answer raw h ≡ ok a) es

  -- The outcomes of asking for one host after the other.
  unfoldable pub ask_all : Router N G H → List H → List (Outcome Road)
  ask_all r [] = []
  ask_all r (h ∷ hs) = let one = road eq lookup contains glob r h in one.0 ∷ ask_all one.1 hs

  -- A cache's answer `one`, and what it keeps.
  pub record Kept (limit : ℕ) (raw : Router N G H) (h : H) (one : Outcome Road × Router N G H)
      : Type 0 where
    pub same : one.0 ≡ answer raw h
    pub es : List (H × Road)
    pub after : one.1 ≡ cache limit es raw
    pub agrees : Agrees raw es

  remember-Kept :
      (limit : ℕ) (raw : Router N G H) (h : H) (es : List (H × Road))
      (r : Outcome Road × Router N G H)
      → r ≡ (answer raw h, raw)
      → Agrees raw es
      → Kept limit raw h (remember eq lookup contains glob limit h es r)
  unfolding remember
  remember-Kept limit raw h es (ok c, r) e a = record {
    same = ap (λ p. p.0) e;
    es = Recency.set eq limit h c es;
    after = ap (λ p. cache limit (Recency.set eq limit h c es) p.1) e;
    agrees =
        Recency.AllEntries-set eq (λ k b. answer raw k ≡ ok b) limit h c es (sym (ap (λ p. p.0) e))
          a;
  }
  remember-Kept limit raw h es (fail x, r) e a = record {
    same = ap (λ p. p.0) e;
    es = es;
    after = ap (λ p. cache limit es p.1) e;
    agrees = a;
  }
  remember-Kept limit raw h es (panic, r) e a = record {
    same = ap (λ p. p.0) e;
    es = es;
    after = ap (λ p. cache limit es p.1) e;
    agrees = a;
  }

  pub road-Kept :
      (limit : ℕ) (raw : Router N G H) (h : H) (es : List (H × Road))
      → Stateless raw
      → Agrees raw es
      → Kept limit raw h (road eq lookup contains glob (cache limit es raw) h)
  unfolding road cached
  road-Kept limit raw h es s a = elim (Option-cases (Recency.find eq h es)) [
    | inl miss ↦ rw (Recency.get_exists-miss eq h es miss) (
        remember-Kept limit raw h es (road eq lookup contains glob raw h)
          (ap (λ r. (answer raw h, r)) (s h)) a)
    | inr (v, hit) ↦
        let v_answer : answer raw h ≡ ok v =
          Recency.find-AllEntries eq (λ k b. answer raw k ≡ ok b) h v es sound a hit in
        rw (Recency.get_exists-hit eq h v es hit) (record {
          same = sym v_answer;
          es = Recency.touch eq h v es;
          after = refl;
          agrees = (v_answer, Recency.AllEntries-remove eq (λ k b. answer raw k ≡ ok b) h es a);
        })
  ]

  ask_all-Agrees :
      (limit : ℕ) (raw : Router N G H) (es : List (H × Road)) (hs : List H)
      → Stateless raw
      → Agrees raw es
      → ask_all (cache limit es raw) hs ≡ map (answer raw) hs
  unfolding ask_all
  ask_all-Agrees limit raw es [] s a = refl
  ask_all-Agrees limit raw es (h ∷ hs) s a =
      let k = road-Kept limit raw h es s a in
      rw (k.after, k.same, ask_all-Agrees limit raw k.es hs s k.agrees) refl

  -- A cache that starts empty gives, for hosts asked for one after the other, the answers of the
  -- router that it stands before, whichever its size but zero; for a router
  -- without a state of its own.
  pub ask_all-cache :
      (limit : ℕ) (raw : Router N G H) (hs : List H)
      → Stateless raw
      → ask_all (cache (suc limit) [] raw) hs ≡ map (answer raw) hs
  ask_all-cache limit raw hs s = ask_all-Agrees (suc limit) raw [] hs s tt
