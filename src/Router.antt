-- ===== src/Router.antt =====
-- The routers of daze.go: which way the traffic to a host goes.
-- The resolver, IP ranges and glob patterns are the standard library's: `lookup` says what
-- net.DefaultResolver.LookupIPAddr returns (`none` for an error), `contains` is IPNet.Contains, and
-- `glob` is filepath.Match (`none` for a bad pattern). Hosts and patterns are strings; `eq` is Go's
-- == on hosts.
pub mod File
pub mod Aimbot
pub mod Cache
pub mod Verdict
pub mod Dialing
pub mod Reserved
use daze.Base.{
  ℕ, Bool, true, false, Option, none, some, List, [], ◌∷◌, ◌++◌, Outcome, ok, fail, panic,
}
use daze.Lru.Recency

-- `Road`
pub data Road : Type 0 where
  locale remote fucked puzzle : Road

-- `RouterIPNet` over the ranges `N`, and `RouterRules` over the patterns `G`.
pub record Lists (A : Type 0) : Type 0 where
  pub l : List A
  pub r : List A
  pub b : List A

-- The routers of the package, RouterChain with its list.
mutual
  pub data Router (N G H : Type 0) : Type 0 where
    ip_net : Lists N → Router N G H
    rules : Lists G → Router N G H
    right : Road → Router N G H
    cache : (limit : ℕ) → List (H × Road) → Router N G H → Router N G H
    chain : Routers N G H → Router N G H

  pub data Routers (N G H : Type 0) : Type 0 where
    nil : Routers N G H
    cons : Router N G H → Routers N G H → Routers N G H

-- `Conf.RouterLruSize`
abbrev pub router_lru_size : ℕ
router_lru_size = 64

module _ {N G H Ip : Type 0} (eq : H → H → Bool) (lookup : H → Option (List Ip))
    (contains : N → Ip → Bool) (glob : G → H → Option Bool) where
  -- The loops of the two routers over one list.
  unfoldable pub any_contains : List N → Ip → Bool
  any_contains [] a = false
  any_contains (e ∷ es) a = elim (contains e a) [ true ↦ true | false ↦ any_contains es a ]

  unfoldable pub any_match : List G → H → Outcome Bool
  any_match [] h = ok false
  any_match (e ∷ es) h = elim (glob e h) [
    | none ↦ panic
    | some true ↦ ok true
    | some false ↦ any_match es h
  ]

  unfoldable pub net_road : Lists N → Ip → Road
  net_road n a = elim (any_contains n.l a) [
    | true ↦ locale
    | false ↦ elim (any_contains n.r a) [
      | true ↦ remote
      | false ↦ elim (any_contains n.b a) [ true ↦ fucked | false ↦ puzzle ]
    ]
  ]

  unfoldable pub first_ip : Lists N → List Ip → Outcome Road
  unfolding net_road any_contains
  first_ip n [] = panic
  first_ip n (a ∷ rest) = ok (net_road n a)

  -- `RouterIPNet.Road`
  unfoldable pub ip_net_road : Lists N → H → Outcome Road
  unfolding first_ip
  ip_net_road n h = elim (lookup h) [ none ↦ ok puzzle | some l ↦ first_ip n l ]

  -- `RouterRules.Road`
  unfoldable pub rules_road : Lists G → H → Outcome Road
  unfolding any_match
  rules_road n h = elim (any_match n.l h) [
    | fail e ↦ fail e
    | panic ↦ panic
    | ok true ↦ ok locale
    | ok false ↦ elim (any_match n.r h) [
      | fail e ↦ fail e
      | panic ↦ panic
      | ok true ↦ ok remote
      | ok false ↦ elim (any_match n.b h) [
        | fail e ↦ fail e
        | panic ↦ panic
        | ok true ↦ ok fucked
        | ok false ↦ ok puzzle
      ]
    ]
  ]

  -- `RouterCache.Road`, with the raw router's answer bound to wait.
  unfoldable pub remember :
      ℕ → H → List (H × Road) → Outcome Road × Router N G H → Outcome Road × Router N G H
  remember limit h es (ok c, raw) = (ok c, cache limit (Recency.set eq limit h c es) raw)
  remember limit h es (fail e, raw) = (fail e, cache limit es raw)
  remember limit h es (panic, raw) = (panic, cache limit es raw)

  unfoldable pub cached :
      ℕ
      → H
      → Option Road × List (H × Road)
      → Router N G H
      → Outcome Road × Router N G H
      → Outcome Road × Router N G H
  unfolding remember
  cached limit h (some a, es) raw r = (ok a, cache limit es raw)
  cached limit h (none, es) raw r = remember limit h es r

  -- `RouterChain.Road`, the answer `r` of the first router and that of the others.
  unfoldable pub chained :
      Routers N G H
      → Outcome Road × Router N G H
      → Outcome Road × Routers N G H
      → Outcome Road × Routers N G H
  chained rest (ok puzzle, e) later = (later.0, cons e later.1)
  chained rest (ok a, e) later = (ok a, cons e rest)
  chained rest (fail x, e) later = (fail x, cons e rest)
  chained rest (panic, e) later = (panic, cons e rest)

  unfoldable mutual
    unfolding cached chained

    -- `Router.Road`: the answer, and the router after it.
    pub road : Router N G H → H → Outcome Road × Router N G H
    road (ip_net n) h = (ip_net_road n h, ip_net n)
    road (rules n) h = (rules_road n h, rules n)
    road (right a) h = (ok a, right a)
    road (cache limit es raw) h =
        let r = road raw h in cached limit h (Recency.get_exists eq h es) raw r
    road (chain rs) h = let r = road_chain rs h in (r.0, chain r.1)

    pub road_chain : Routers N G H → H → Outcome Road × Routers N G H
    road_chain nil h = (ok puzzle, nil)
    road_chain (cons e rest) h = let later = road_chain rest h in chained rest (road e h) later
