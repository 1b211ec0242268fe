-- ===== src/Router/Dialing.antt =====
-- Whom Aimbot.Dial of daze.go dials, for the router that NewAimbot makes for "rule".
use daze.Base.{
  ℕ, suc, Option, List, [], Bool, true, Outcome, ok, fail, panic, blocked, ap, ◌≡◌, ◌≢◌, refl, some,
}
use daze.Base.State.{St}
use daze.Router.{
  Road, locale, remote, fucked, puzzle, Lists, Router, Routers, cache, road, road_chain, chained,
  chain, cons, nil, right, rules, ip_net, rules_road, ip_net_road,
}
use daze.Router.Aimbot.{aimbot_dial, take_road}
use daze.Router.Cache.{Agrees, Stateless, road-Kept}
use daze.Router.Verdict.{
  AllGood, Ruled, chained_rule, chained_rule-Ruled, by_rule, by_ip, by_default,
}

module _ {N G H Ip W C A : Type 0} (eq : H → H → Bool) (lookup : H → Option (List Ip))
    (contains : N → Ip → Bool) (glob : G → H → Option Bool)
    (sound : (h k : H) → eq h k ≡ true → h ≡ k) (split : A → Outcome H)
    (locale_dial remote_dial : A → St W C) where
  -- What is done for a road: one dialer is called, once, or none.
  pub data Sends (address : A) (w : W) : Road → Outcome C × W → Type 0 where
    locally : Sends address w locale (locale_dial address w)
    remotely : Sends address w remote (remote_dial address w)
    refused : Sends address w fucked (fail blocked, w)

  pub record Dials (limit : ℕ) (raw : Router N G H) (address : A) (w : W) (a : Road)
      (out : (Outcome C × W) × Router N G H) : Type 0 where
    pub sends : Sends address w a out.0
    pub es : List (H × Road)
    pub after : out.1 ≡ cache limit es raw
    pub agrees : Agrees eq lookup contains glob sound raw es

  Sends-take_road :
      (address : A) (w : W) (a : Road)
      → a ≢ puzzle
      → Sends address w a
          (take_road eq lookup contains glob split locale_dial remote_dial (ok a) address w)
  unfolding take_road
  Sends-take_road address w locale known = locally
  Sends-take_road address w remote known = remotely
  Sends-take_road address w fucked known = refused
  Sends-take_road address w puzzle known = absurd (known refl)

  Ruled-known :
      (r : Lists G) (n : Lists N) (h : H) (a : Road)
      → Ruled eq lookup contains glob r n h (lookup h) a
      → a ≢ puzzle
  Ruled-known r n h a (by_rule known s) = known
  Ruled-known r n h a (by_ip p e known s) = known
  Ruled-known r n h a (by_default p q) = λ x. cc

  chained-same :
      (rest : Routers N G H) (p : Outcome Road × Router N G H)
      (later : Outcome Road × Routers N G H)
      → later.1 ≡ rest
      → (chained eq lookup contains glob rest p later).1 ≡ cons p.1 rest
  unfolding chained
  chained-same rest (ok puzzle, e) later h = ap (cons e) h
  chained-same rest (ok locale, e) later h = refl
  chained-same rest (ok remote, e) later h = refl
  chained-same rest (ok fucked, e) later h = refl
  chained-same rest (fail x, e) later h = refl
  chained-same rest (panic, e) later h = refl

  chained_rule-Stateless :
      (r : Lists G) (n : Lists N)
      → Stateless eq lookup contains glob sound (chained_rule eq lookup contains glob r n)
  unfolding road chained
  chained_rule-Stateless r n h =
      let last : Routers N G H = cons (right remote) nil in
      let mid : Routers N G H = cons (ip_net n) last in
      let tail_same =
        chained-same last (ip_net_road eq lookup contains glob n h, ip_net n) (ok remote, last)
          refl in
      ap chain (
        chained-same mid (rules_road eq lookup contains glob r h, rules r)
          (road_chain eq lookup contains glob mid h) tail_same)

  -- Aimbot.Dial behind a cache, where `rs` are the rules and `n` the ranges: a host is sent the way
  -- that the rules and the ranges say, whatever was asked before, by exactly one call of the one
  -- dialer or, where it is blocked, by none, and the cache goes on agreeing with the rules; for an
  -- address with a host, patterns that filepath.Match takes and a resolver that gives no empty
  -- answer, and a cache whose size is not zero.
  pub dial-Dials :
      (limit : ℕ) (rs : Lists G) (n : Lists N) (es : List (H × Road)) (address : A) (dst : H)
      (w : W)
      → split address ≡ ok dst
      → AllGood eq lookup contains glob dst rs.l
      → AllGood eq lookup contains glob dst rs.r
      → AllGood eq lookup contains glob dst rs.b
      → lookup dst ≢ some []
      → Agrees eq lookup contains glob sound (chained_rule eq lookup contains glob rs n) es
      → (a : Road) × Ruled eq lookup contains glob rs n dst (lookup dst) a
        × Dials (suc limit) (chained_rule eq lookup contains glob rs n) address w a (
            aimbot_dial eq lookup contains glob split locale_dial remote_dial
              (cache (suc limit) es (chained_rule eq lookup contains glob rs n))
              address
              w)
  unfolding aimbot_dial
  dial-Dials limit rs n es address dst w e gl gr gb some_ip agree =
      let raw = chained_rule eq lookup contains glob rs n in
      let v = chained_rule-Ruled eq lookup contains glob rs n dst gl gr gb some_ip in
      let k =
        road-Kept eq lookup contains glob sound (suc limit) raw dst es (chained_rule-Stateless rs n)
          agree in
      (
        v.0,
        v.2,
        record {
          sends =
              rw (aimbot_dial, e, k.same, v.1)
                (Sends-take_road address w v.0 (Ruled-known rs n dst v.0 v.2));
          es = k.es;
          after = rw (aimbot_dial, e) k.after;
          agrees = k.agrees;
        },
      )
