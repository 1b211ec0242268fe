-- ===== src/Router/Verdict.antt =====
-- The rule that lists of patterns and of ranges give, and that the routers of daze.go follow it.
use daze.Base.{
  Bool, true, false, Option, none, some, List, [], ◌∷◌, Outcome, ok, fail, panic, ◌≡◌, ◌≢◌, refl,
  ap, ◌∙◌, ◌⊎◌, Bool-cases, inl, inr,
}
use mathlib.Core.Path.{subst}
use daze.Router.{
  Routers, Road, locale, remote, fucked, puzzle, Lists, Router, rules, ip_net, right, chain, cons,
  nil, road, road_chain, chained, rules_road, ip_net_road, net_road, any_contains, any_match,
  first_ip,
}

-- Some entry of the list applies.
pub data Some {A : Type 0} (hits : A → Type 0) : List A → Type 0 where
  here : {e : A} {es : List A} → hits e → Some hits (e ∷ es)
  there : {e : A} {es : List A} → Some hits es → Some hits (e ∷ es)

-- Which of three lists applies first, L before R before B.
pub data Sorted {A : Type 0} (hits : A → Type 0) (n : Lists A) : Road → Type 0 where
  by_l : Some hits n.l → Sorted hits n locale
  by_r : ¬ Some hits n.l → Some hits n.r → Sorted hits n remote
  by_b : ¬ Some hits n.l → ¬ Some hits n.r → Some hits n.b → Sorted hits n fucked
  by_none : ¬ Some hits n.l → ¬ Some hits n.r → ¬ Some hits n.b → Sorted hits n puzzle

-- A Boolean answer tells whether some entry applies.
abbrev Tells : {A : Type 0} → (A → Type 0) → List A → Bool → Type 0
Tells hits es true = Some hits es
Tells hits es false = ¬ Some hits es

Tells-skip :
    {A : Type 0} (hits : A → Type 0) (e : A) (es : List A) (b : Bool)
    → ¬ hits e
    → Tells hits es b
    → Tells hits (e ∷ es) b
Tells-skip hits e es true miss t = there t
Tells-skip hits e es false miss t = λ s. elim s [ here p ↦ miss p | there q ↦ t q ]

module _ {N G H Ip : Type 0} (eq : H → H → Bool) (lookup : H → Option (List Ip))
    (contains : N → Ip → Bool) (glob : G → H → Option Bool) where
  -- A range has the address, a pattern the host.
  abbrev pub Has : Ip → N → Type 0
  Has a e = contains e a ≡ true

  abbrev pub Matches : H → G → Type 0
  Matches h e = glob e h ≡ some true

  -- Every pattern is one that filepath.Match takes.
  abbrev pub AllGood : H → List G → Type 0
  AllGood h [] = Unit
  AllGood h (e ∷ es) = ((b : Bool) × (glob e h ≡ some b)) × AllGood h es

  any_contains-Tells :
      (a : Ip) (es : List N) → Tells (Has a) es (any_contains eq lookup contains glob es a)
  unfolding any_contains
  any_contains-Tells a [] = λ s. elim s [ ]
  any_contains-Tells a (e ∷ es) = elim (Bool-cases (contains e a)) [
    | inl hit ↦ rw (any_contains, hit) (here hit)
    | inr miss ↦
        rw (any_contains, miss)
          (Tells-skip (Has a) e es (any_contains eq lookup contains glob es a) (λ p. cc)
            (any_contains-Tells a es))
  ]

  any_match-Tells :
      (h : H) (es : List G)
      → AllGood h es
      → (b : Bool) × (any_match eq lookup contains glob es h ≡ ok b) × Tells (Matches h) es b
  unfolding any_match
  any_match-Tells h [] g = (false, refl, λ s. elim s [ ])
  any_match-Tells h (e ∷ es) ((true, hit), g) = (true, rw (any_match, hit) refl, here hit)
  any_match-Tells h (e ∷ es) ((false, miss), g) =
      let r = any_match-Tells h es g in
      (r.0, rw (any_match, miss) r.1, Tells-skip (Matches h) e es r.0 (λ p. cc) r.2)

  -- The first address that a host has, if the lookup gives one.
  net_road-Sorted : (n : Lists N) (a : Ip) → Sorted (Has a) n (net_road eq lookup contains glob n a)
  unfolding net_road
  net_road-Sorted n a =
      go (any_contains eq lookup contains glob n.l a) (any_contains eq lookup contains glob n.r a)
        (any_contains eq lookup contains glob n.b a) (any_contains-Tells a n.l)
        (any_contains-Tells a n.r) (any_contains-Tells a n.b)
    where
      go :
          (l r b : Bool)
          → Tells (Has a) n.l l
          → Tells (Has a) n.r r
          → Tells (Has a) n.b b
          → Sorted (Has a) n (elim l [
            | true ↦ locale
            | false ↦ elim r [ true ↦ remote | false ↦ elim b [ true ↦ fucked | false ↦ puzzle ] ]
          ])
      go true r b tl tr tb = by_l tl
      go false true b tl tr tb = by_r tl tr
      go false false true tl tr tb = by_b tl tr tb
      go false false false tl tr tb = by_none tl tr tb

  rules_road-Sorted :
      (n : Lists G) (h : H)
      → AllGood h n.l
      → AllGood h n.r
      → AllGood h n.b
      → (a : Road) × (rules_road eq lookup contains glob n h ≡ ok a) × Sorted (Matches h) n a
  unfolding rules_road
  rules_road-Sorted n h gl gr gb =
      let tl = any_match-Tells h n.l gl in
      let tr = any_match-Tells h n.r gr in
      let tb = any_match-Tells h n.b gb in go tl.0 tr.0 tb.0 tl.1 tr.1 tb.1 tl.2 tr.2 tb.2
    where
      go :
          (l r b : Bool)
          → any_match eq lookup contains glob n.l h ≡ ok l
          → any_match eq lookup contains glob n.r h ≡ ok r
          → any_match eq lookup contains glob n.b h ≡ ok b
          → Tells (Matches h) n.l l
          → Tells (Matches h) n.r r
          → Tells (Matches h) n.b b
          → (a : Road) × (rules_road eq lookup contains glob n h ≡ ok a) × Sorted (Matches h) n a
      go true r b el er eb tl tr tb = (locale, rw (rules_road, el) refl, by_l tl)
      go false true b el er eb tl tr tb = (remote, rw (rules_road, el, er) refl, by_r tl tr)
      go false false true el er eb tl tr tb =
          (fucked, rw (rules_road, el, er, eb) refl, by_b tl tr tb)
      go false false false el er eb tl tr tb =
          (puzzle, rw (rules_road, el, er, eb) refl, by_none tl tr tb)

  -- The router that NewAimbot makes for "rule", behind its cache.
  abbrev pub chained_rule : Lists G → Lists N → Router N G H
  chained_rule r n = chain (cons (rules r) (cons (ip_net n) (cons (right remote) nil)))

  -- Which way the rules of "rule" send a host with the addresses `ips`.
  pub data Ruled (r : Lists G) (n : Lists N) (h : H) (ips : Option (List Ip)) : Road → Type 0 where
    by_rule : {a : Road} → a ≢ puzzle → Sorted (Matches h) r a → Ruled r n h ips a
    by_ip :
        {a : Road} {ip : Ip} {more : List Ip}
        → Sorted (Matches h) r puzzle
        → ips ≡ some (ip ∷ more)
        → a ≢ puzzle
        → Sorted (Has ip) n a
        → Ruled r n h ips a
    by_default :
        Sorted (Matches h) r puzzle
        → ((ip : Ip) (more : List Ip) → ips ≡ some (ip ∷ more) → Sorted (Has ip) n puzzle)
        → Ruled r n h ips remote

  chained-first :
      (rest : Routers N G H) (p : Outcome Road × Router N G H)
      (later : Outcome Road × Routers N G H) (a : Road)
      → a ≢ puzzle
      → p.0 ≡ ok a
      → (chained eq lookup contains glob rest p later).0 ≡ ok a
  unfolding chained
  chained-first rest (ok puzzle, e) later a known h = absurd (known cc)
  chained-first rest (ok locale, e) later a known h = h
  chained-first rest (ok remote, e) later a known h = h
  chained-first rest (ok fucked, e) later a known h = h
  chained-first rest (fail x, e) later a known h = h
  chained-first rest (panic, e) later a known h = h

  chained-skip :
      (rest : Routers N G H) (p : Outcome Road × Router N G H)
      (later : Outcome Road × Routers N G H)
      → p.0 ≡ ok puzzle
      → (chained eq lookup contains glob rest p later).0 ≡ later.0
  unfolding chained
  chained-skip rest (ok puzzle, e) later h = refl
  chained-skip rest (ok locale, e) later h = cc
  chained-skip rest (ok remote, e) later h = cc
  chained-skip rest (ok fucked, e) later h = cc
  chained-skip rest (fail x, e) later h = cc
  chained-skip rest (panic, e) later h = cc

  Road-cases : (a : Road) → (a ≡ puzzle) ⊎ (a ≢ puzzle)
  Road-cases locale = inr (λ p. cc)
  Road-cases remote = inr (λ p. cc)
  Road-cases fucked = inr (λ p. cc)
  Road-cases puzzle = inl refl

  -- The ranges' answer, and the rest of the chain.
  abbrev tail_road : Lists N → H → Outcome Road
  tail_road n h =
      (road_chain eq lookup contains glob (cons (ip_net n) (cons (right remote) nil)) h).0

  ip_net_road-none :
      (n : Lists N) (h : H) → lookup h ≡ none → ip_net_road eq lookup contains glob n h ≡ ok puzzle
  unfolding ip_net_road
  ip_net_road-none n h e = rw (ip_net_road, e) refl

  ip_net_road-some :
      (n : Lists N) (h : H) (a : Ip) (more : List Ip)
      → lookup h ≡ some (a ∷ more)
      → ip_net_road eq lookup contains glob n h ≡ ok (net_road eq lookup contains glob n a)
  unfolding ip_net_road first_ip
  ip_net_road-some n h a more e = rw (ip_net_road, e) refl

  tail_road-Ruled :
      (r : Lists G) (n : Lists N) (h : H)
      → Sorted (Matches h) r puzzle
      → lookup h ≢ some []
      → (a : Road) × (tail_road n h ≡ ok a) × Ruled r n h (lookup h) a
  unfolding road chained
  tail_road-Ruled r n h none_r some_ip = go (lookup h) refl
    where
      rest : Routers N G H
      rest = cons (right remote) nil

      later : Outcome Road × Routers N G H
      later = (ok remote, rest)

      go :
          (l : Option (List Ip))
          → lookup h ≡ l
          → (a : Road) × (tail_road n h ≡ ok a) × Ruled r n h (lookup h) a
      go none e = (
        remote,
        chained-skip rest (ip_net_road eq lookup contains glob n h, ip_net n) later
            (ip_net_road-none n h e),
        by_default none_r (λ ip more q. cc),
      )
      go (some []) e = absurd (some_ip e)
      go (some (ip ∷ more)) e =
          let a = net_road eq lookup contains glob n ip in
          elim (Road-cases a) [
            | inr known ↦ (
              a,
              chained-first rest (ip_net_road eq lookup contains glob n h, ip_net n) later a known
                  (ip_net_road-some n h ip more e),
              by_ip none_r e known (net_road-Sorted n ip),
            )
            | inl unknown ↦ (
              remote,
              chained-skip rest (ip_net_road eq lookup contains glob n h, ip_net n) later
                  (ip_net_road-some n h ip more e ∙ ap ok unknown),
              by_default none_r (λ jp others q.
                  let same : ip ≡ jp = cc in
                  subst (λ x. Sorted (Has x) n puzzle) same
                    (subst (Sorted (Has ip) n) unknown (net_road-Sorted n ip))),
            )
          ]

  pub chained_rule-Ruled :
      (r : Lists G) (n : Lists N) (h : H)
      → AllGood h r.l
      → AllGood h r.r
      → AllGood h r.b
      → lookup h ≢ some []
      → (a : Road) × ((road eq lookup contains glob (chained_rule r n) h).0 ≡ ok a)
        × Ruled r n h (lookup h) a
  unfolding road
  chained_rule-Ruled r n h gl gr gb some_ip =
      let v = rules_road-Sorted r h gl gr gb in
      let rest : Routers N G H = cons (ip_net n) (cons (right remote) nil) in
      let later = road_chain eq lookup contains glob rest h in
      elim (Road-cases v.0) [
        | inr known ↦ (
          v.0,
          chained-first rest (rules_road eq lookup contains glob r h, rules r) later v.0 known v.1,
          by_rule known v.2,
        )
        | inl unknown ↦
            let t = tail_road-Ruled r n h (subst (Sorted (Matches h) r) unknown v.2) some_ip in
            (
              t.0,
              chained-skip rest (rules_road eq lookup contains glob r h, rules r) later
                    (v.1 ∙ ap ok unknown)
                  ∙ t.1,
              t.2,
            )
      ]
