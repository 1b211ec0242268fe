-- ===== src/Router/Aimbot.antt =====
-- Aimbot of daze.go: a dialer that takes the way its router gives.
-- `split` is net.SplitHostPort's host of the standard library, an error if the address has no host
-- and port. The two dialers work on a world `W` of theirs.
use daze.Base.{Option, List, [], Bool, Outcome, ok, fail, panic, blocked}
use daze.Base.State.{St}
use daze.Router.{
  Road, locale, remote, fucked, puzzle, Lists, Router, right, ip_net, rules, chain, cons, nil,
  cache, router_lru_size, road,
}
use daze.Router.File.{Word, File, rules_from_file, cidr_from_file}

-- `AimbotOption.Type`: the three strings that NewAimbot knows, and any other.
pub data Kind : Type 0 where
  kind_locale kind_remote kind_rule kind_other : Kind

-- `NewRouterChain` of the ranges and of remote, behind `NewRouterCache`.
abbrev pub remote_router : {N G H : Type 0} → List N → Router N G H
remote_router reserved =
    cache router_lru_size []
      (chain (cons (ip_net (record { l = reserved; r = []; b = [] })) (cons (right remote) nil)))

abbrev pub rule_router : {N G H : Type 0} → Lists G → Lists N → Router N G H
rule_router r n =
    cache router_lru_size [] (chain (cons (rules r) (cons (ip_net n) (cons (right remote) nil))))

-- The router of `NewAimbot`; `reserved` is what LoadReservedIP returns.
unfoldable pub new_router :
    {N H : Type 0} → (Word → Option N) → List N → Kind → File → File → Outcome (Router N Word H)
new_router parse_cidr reserved kind_locale rule cidr = ok (right locale)
new_router parse_cidr reserved kind_remote rule cidr = ok (remote_router reserved)
new_router parse_cidr reserved kind_rule rule cidr =
    elim (rules_from_file rule (record { l = []; r = []; b = [] })) [
      | fail e ↦ fail e
      | panic ↦ panic
      | ok r ↦ elim (cidr_from_file parse_cidr cidr (record { l = reserved; r = []; b = [] })) [
        | fail e ↦ fail e
        | panic ↦ panic
        | ok n ↦ ok (rule_router r n)
      ]
    ]
new_router parse_cidr reserved kind_other rule cidr = panic

module _ {N G H Ip W C A : Type 0} (eq : H → H → Bool) (lookup : H → Option (List Ip))
    (contains : N → Ip → Bool) (glob : G → H → Option Bool) (split : A → Outcome H)
    (locale_dial remote_dial : A → St W C) where
  -- The switch on the road.
  unfoldable pub take_road : Outcome Road → A → St W C
  take_road (ok locale) address w = locale_dial address w
  take_road (ok remote) address w = remote_dial address w
  take_road (ok fucked) address w = (fail blocked, w)
  take_road (ok puzzle) address w = remote_dial address w
  take_road (fail e) address w = (fail e, w)
  take_road panic address w = (panic, w)

  -- `Aimbot.Dial`: what it returns, the router afterwards and the world.
  unfoldable pub aimbot_dial : Router N G H → A → W → (Outcome C × W) × Router N G H
  unfolding take_road
  aimbot_dial r address w = elim (split address) [
    | fail e ↦ ((fail e, w), r)
    | panic ↦ ((panic, w), r)
    | ok dst ↦ let t = road eq lookup contains glob r dst in (take_road t.0 address w, t.1)
  ]
