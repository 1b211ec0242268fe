-- ===== src/Assembly/Trip.antt =====
-- The way of a browser's request through the whole of daze.
use daze.Base.{
  ℕ, suc, ◌^◌, ◌≤◌, ◌<◌, ◌≡◌, ◌≢◌, refl, sym, ap, append-nil, Bool, true, false, Option, none, some,
  List, [], ◌∷◌, ◌++◌, Error, Outcome, ok, fail, panic, blocked, server_failure, length,
}
use daze.Base.Bytes.{AreBytes}
use daze.Net.{Conn, fresh, IsInvolutive}
use daze.Ashe.{Network, tcp, Session, is_expired, dial_server, close_failed, estab}
use daze.Ashe.Exchange.{estab-serve}
use daze.Ashe.Wire.{client_end, server_end}
use daze.Router.{Road, locale, remote, fucked, puzzle, Lists, Router, cache}
use daze.Router.Aimbot.{aimbot_dial}
use daze.Router.Cache.{Agrees}
use daze.Router.Verdict.{AllGood, Ruled, chained_rule}
use daze.Router.Dialing.{Sends, locally, remotely, refused, dial-Dials}
use daze.Locale.{Client, Served}
use daze.Locale.Reads.{client}
use daze.Locale.Requests.{
  Target, Fits, socks5_wire, socks5_end, socks5_reply, host_string, serve_socks5-connects,
}
use daze.Assembly.{
  World, error_of, outcome_of, direct_dial, session_of, remote_dial, dial, dial_all, dialled,
  unless_panic, browse,
}

module _ (crypt : List ℕ → ℕ → ℕ → ℕ) (cipher salt : List ℕ) (now now' : ℕ)
    (server_dial : Network → List ℕ → Option Error) (direct : List ℕ → Option Error)
    (reach : Option Error) where
  -- How a dial ends that is sent along a road, and what it does outside.
  abbrev pub general : Option Error → Option Error
  general none = none
  general (some e) = some server_failure

  -- The server's answer, where it can be reached.
  abbrev pub through : Option Error → Option Error → Option Error
  through none d = d
  through (some e) d = some e

  abbrev pub met : Option Error → List ℕ → List (Outcome Session)
  met none dst = server_end crypt tcp dst (server_dial tcp dst) ∷ []
  met (some e) dst = []

  abbrev pub ends : Road → List ℕ → Option Error
  ends locale dst = direct dst
  ends remote dst = through reach (general (server_dial tcp dst))
  ends fucked dst = some blocked
  ends puzzle dst = none

  abbrev pub world_after : Road → List ℕ → World → World
  world_after locale dst w = record w { direct = w.direct ++ dst ∷ [] }
  world_after remote dst w = record w { sessions = w.sessions ++ met reach dst }
  world_after fucked dst w = w
  world_after puzzle dst w = w

  close_failed_result : (r : Outcome Bool × Conn) → (close_failed crypt r).0 ≡ r.0
  unfolding close_failed
  close_failed_result (ok b, c) = refl
  close_failed_result (fail e, c) = refl
  close_failed_result (panic, c) = refl

  dial_server_result :
      (address : List ℕ) (c : Conn)
      → (dial_server crypt none cipher salt now tcp address c).0
        ≡ (estab crypt cipher salt now tcp address c).0
  unfolding dial_server
  dial_server_result address c = close_failed_result (estab crypt cipher salt now tcp address c)

  -- A dial that does not panic and ends as it should.
  abbrev Ends : List ℕ → World → Road → Outcome Bool × World → Type 0
  Ends dst w a out = (error_of out.0 ≡ ends a dst) × (out.0 ≢ panic) × (out.1 ≡ world_after a dst w)

  module _ (inv : IsInvolutive crypt) (salt_length : length salt ≡ 32)
      (cipher_length : length cipher ≡ 32) (clock : now < 2 ^ 64)
      (young : is_expired now' now ≡ false) where
    direct_lem :
        (dst : List ℕ) (d : Option Error) → (error_of (outcome_of d) ≡ d) × (outcome_of d ≢ panic)
    direct_lem dst none = (refl, λ e. cc)
    direct_lem dst (some e) = (refl, λ e. cc)

    client_lem :
        (d : Option Error)
        → (error_of (client_end crypt tcp d) ≡ general d) × (client_end crypt tcp d ≢ panic)
    client_lem none = (refl, λ e. cc)
    client_lem (some e) = (refl, λ e. cc)

    remote_lem :
        (dst : List ℕ) (w : World)
        → AreBytes dst
        → length dst ≤ 255
        → (remote_dial crypt cipher salt now now' server_dial direct none dst w) ≡ (
          client_end crypt tcp (server_dial tcp dst),
          record w { sessions = w.sessions ++ met none dst },
        )
    unfolding remote_dial
    remote_lem dst w bytes short =
        let both =
          estab-serve crypt inv server_dial cipher salt dst now now' tcp (λ e. cc) salt_length
            cipher_length bytes short clock young in
        rw (
          both.0,
          dial_server_result dst
              (fresh 3 (session_of crypt cipher salt now now' server_dial direct dst).1.out),
          both.1,
        )

    reachable-Ends :
        (dst : List ℕ) (w : World)
        → none ≡ reach
        → AreBytes dst
        → length dst ≤ 255
        → Ends dst w remote (remote_dial crypt cipher salt now now' server_dial direct none dst w)
    reachable-Ends dst w e bytes short =
        let c = client_lem (server_dial tcp dst) in
        rw (remote_lem dst w bytes short, ← e) (c.0, c.1, refl)

    remote-Ends :
        (dst : List ℕ) (w : World) (r : Option Error)
        → r ≡ reach
        → AreBytes dst
        → length dst ≤ 255
        → Ends dst w remote (remote_dial crypt cipher salt now now' server_dial direct r dst w)
    unfolding remote_dial
    remote-Ends dst w none e bytes short = reachable-Ends dst w e bytes short
    remote-Ends dst w (some x) e bytes short =
        rw (← e)
          (refl, (λ y. cc), ap (λ s. record w { sessions = s }) (sym (append-nil w.sessions)))

    module _ {N G Ip : Type 0} (eq : List ℕ → List ℕ → Bool) (lookup : List ℕ → Option (List Ip))
        (contains : N → Ip → Bool) (glob : G → List ℕ → Option Bool)
        (sound : (h k : List ℕ) → eq h k ≡ true → h ≡ k) (split : List ℕ → Outcome (List ℕ)) where
      Sends-Ends :
          (dst : List ℕ) (w : World) (a : Road) (out : Outcome Bool × World)
          → AreBytes dst
          → length dst ≤ 255
          → Sends eq lookup contains glob sound split
              (direct_dial crypt cipher salt now now' server_dial direct)
              (remote_dial crypt cipher salt now now' server_dial direct reach)
              dst
              w
              a
              out
          → Ends dst w a out
      unfolding direct_dial
      Sends-Ends dst w a out bytes short locally =
          ((direct_lem dst (direct dst)).0, (direct_lem dst (direct dst)).1, refl)
      Sends-Ends dst w a out bytes short remotely = remote-Ends dst w reach refl bytes short
      Sends-Ends dst w a out bytes short refused = (refl, (λ e. cc), refl)

      dialled_lem :
          (out : (Outcome Bool × World) × Router N G (List ℕ))
          → out.0.0 ≢ panic
          → dialled crypt cipher salt now now' server_dial direct eq lookup contains glob split
              reach out
              (dial_all crypt cipher salt now now' server_dial direct eq lookup contains glob split
                reach [])
            ≡ (ok tt, (out.1, out.0.1))
      unfolding dialled dial_all
      dialled_lem ((ok b, w), r) h = refl
      dialled_lem ((fail e, w), r) h = refl
      dialled_lem ((panic, w), r) h = absurd (h refl)

      module _ (ip_string : List ℕ → List ℕ) (itoa : ℕ → List ℕ) (join : List ℕ → List ℕ → List ℕ)
          (bound : ℕ) where
        -- A browser's connection that has been sent along the road `a`, whose bytes behind the
        -- request are `rest` and which takes `q` more writes.
        pub record Trip (raw : Router N G (List ℕ)) (limit : ℕ) (dst rest : List ℕ) (q : ℕ)
            (w : World) (a : Road) (out : Outcome Served × Client × (Router N G (List ℕ) × World))
            : Type 0 where
          pub served : out.0 ≡ socks5_end ip_string itoa join (λ d. none) bound dst (ends a dst)
          pub answered :
              out.1
              ≡ client rest
                  (socks5_reply ip_string itoa join (λ d. none) bound (ends a dst))
                  q
                  (dst ∷ [])
          pub reached : out.2.1 ≡ world_after a dst w
          pub es : List (List ℕ × Road)
          pub after : out.2.0 ≡ cache limit es raw
          pub agrees : Agrees eq lookup contains glob sound raw es

        Trip-out :
            (raw : Router N G (List ℕ)) (limit : ℕ) (dst rest : List ℕ) (q : ℕ) (w : World)
            (a : Road) (out : (Outcome Bool × World) × Router N G (List ℕ))
            (es : List (List ℕ × Road))
            → Ends dst w a out.0
            → out.1 ≡ cache limit es raw
            → Agrees eq lookup contains glob sound raw es
            → let after =
                dialled crypt cipher salt now now' server_dial direct eq lookup contains glob split
                  reach out
                  (dial_all crypt cipher salt now now' server_dial direct eq lookup contains glob
                    split reach []) in
              let d = error_of out.0.0 in
              Trip raw limit dst rest q w a (
                unless_panic crypt cipher salt now now' server_dial direct eq lookup contains glob
                    split reach after.0
                    (socks5_end ip_string itoa join (λ x. none) bound dst d),
                client rest (socks5_reply ip_string itoa join (λ x. none) bound d) q (dst ∷ []),
                after.1,
              )
        unfolding unless_panic
        Trip-out raw limit dst rest q w a out es k e agree =
            rw (dialled_lem out k.1, k.0)
              (record {
                served = refl;
                answered = refl;
                reached = k.2;
                es = es;
                after = e;
                agrees = agree;
              })

        -- A browser that asks for a host by SOCKS5 is served as the rules say, end to end: the road is
        -- the one that the rules and the ranges give for the host. On the road locale the client dials
        -- the address itself, once; on the road remote, where it can reach the server, one session of
        -- the server runs, which dials exactly that address, and where it cannot, none; on the road
        -- fucked nothing is dialled and no session runs. The browser is told whether that went well,
        -- and the cache goes on agreeing with the rules. For a client and a server that share a cipher
        -- of 32 bytes and whose clocks agree, an address of at most 255 bytes, a port of 16 bits,
        -- patterns that filepath.Match takes, a resolver that gives no empty answer, a cache whose size
        -- is not zero and a browser that takes two writes.
        pub browse-Trip :
            (methods rest : List ℕ) (rsv port q limit : ℕ) (t : Target) (host : List ℕ)
            (rs : Lists G) (n : Lists N) (es : List (List ℕ × Road)) (w : World)
            → Fits t
            → port < 2 ^ 16
            → let dst = join (host_string ip_string itoa join (λ d. none) bound t) (itoa port) in
              let raw = chained_rule eq lookup contains glob rs n in
              AreBytes dst
              → length dst ≤ 255
              → split dst ≡ ok host
              → AllGood eq lookup contains glob host rs.l
              → AllGood eq lookup contains glob host rs.r
              → AllGood eq lookup contains glob host rs.b
              → lookup host ≢ some []
              → Agrees eq lookup contains glob sound raw es
              → (a : Road) × Ruled eq lookup contains glob rs n host (lookup host) a
                × Trip raw (suc limit) dst rest q w a (
                    browse crypt cipher salt now now' server_dial direct eq lookup contains glob
                      split reach ip_string itoa join bound
                      (client
                        (socks5_wire ip_string itoa join (λ d. none) bound methods rsv t port rest)
                        []
                        (suc (suc q))
                        [])
                      (cache (suc limit) es raw, w))
        unfolding browse dial_all dial
        browse-Trip methods rest rsv port q limit t host rs n es w fits small bytes short e gl gr gb
              some_ip agree =
            let dst = join (host_string ip_string itoa join (λ d. none) bound t) (itoa port) in
            let raw = chained_rule eq lookup contains glob rs n in
            let near = direct_dial crypt cipher salt now now' server_dial direct in
            let far = remote_dial crypt cipher salt now now' server_dial direct reach in
            let s : Router N G (List ℕ) × World = (cache (suc limit) es raw, w) in
            let d =
              dial-Dials eq lookup contains glob sound split near far limit rs n es dst host w e gl
                gr gb some_ip agree in
            let out = aimbot_dial eq lookup contains glob split near far s.0 dst w in
            let k : Ends dst w d.0 out.0 = Sends-Ends dst w d.0 out.0 bytes short d.2.sends in
            let dial_one : List ℕ → Option Error = λ x.
              error_of
                (dial crypt cipher salt now now' server_dial direct eq lookup contains glob split
                  reach x s).0.0 in
            (
              d.0,
              d.1,
              rw
                  (
                    serve_socks5-connects ip_string itoa join dial_one bound methods rest rsv port q
                        t fits small,
                    dial,
                  )
                  (Trip-out raw (suc limit) dst rest q w d.0 out d.2.es k d.2.after d.2.agrees),
            )
