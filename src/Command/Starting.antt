-- ===== src/Command/Starting.antt =====
-- The parts that main of cmd/daze/main.go starts, and their ends.
use daze.Base.{
  ℕ, ◌≡◌, refl, sym, ap, ◌∙◌, Bool, true, false, ◌||◌, Option, none, some, List, [], ◌∷◌, ◌++◌,
  append_assoc, append-nil, Error, Outcome, ok, fail, panic, if◌then◌else◌,
}
use mathlib.Core.Path.{subst}
use daze.Base.Bytes.{codes}
use daze.Base.State.{St, pure, crash, and_then, ◌>>◌}
use daze.Baboon.{same_bytes}
use daze.Router.{Router}
use daze.Router.File.{Word, File}
use daze.Command.{
  Part, local, Resolver, dns, Effect, helped, versioned, generated, resolving, running, failed,
  profiled, waited, shut, ServerFlags, server_flags, ClientFlags, client_flags, Protocol, ashe,
  baboon, czar, dahlia, protocol_of, resolver_of, note, set_resolver, profile, closing, launch_at,
  run_part, launch, built, new_aimbot, hang, new_server, serve_with, server, new_client, run_locale,
  browse_with, client, by_command, main,
}

-- What starts and ends no part.
pub data IsQuiet : Effect → Type 0 where
  helps : IsQuiet helped
  versions : IsQuiet versioned
  generates : IsQuiet generated
  resolves : (r : Resolver) → IsQuiet (resolving r)
  profiles : (g : Word) → IsQuiet (profiled g)
  waits : IsQuiet waited

pub data AreQuiet : List Effect → Type 0 where
  nothing : AreQuiet []
  first : {e : Effect} {es : List Effect} → IsQuiet e → AreQuiet es → AreQuiet (e ∷ es)

-- How main ends, and what it has done: the close of a part that runs is the last of all that is done
-- from its start on, and that of a part whose Run has failed comes next to the failure and is the
-- last of all, as the failure is a panic.
pub data Nested : Outcome (Unit {0}) → List Effect → Type 0 where
  calm : {o : Outcome (Unit {0})} {es : List Effect} → AreQuiet es → Nested o es
  framed :
      (p : Part) {o : Outcome (Unit {0})} {es inner : List Effect}
      → AreQuiet es
      → Nested o inner
      → Nested o (es ++ running p ∷ (inner ++ shut p ∷ []))
  refused :
      (p : Part) {es : List Effect} → AreQuiet es → Nested panic (es ++ failed p ∷ shut p ∷ [])

AreQuiet-append : {es fs : List Effect} → AreQuiet es → AreQuiet fs → AreQuiet (es ++ fs)
AreQuiet-append nothing g = g
AreQuiet-append (first q f) g = first q (AreQuiet-append f g)

Nested-append :
    {o : Outcome (Unit {0})} (es : List Effect) {fs : List Effect}
    → AreQuiet es
    → Nested o fs
    → Nested o (es ++ fs)
Nested-append es f (calm g) = calm (AreQuiet-append f g)
Nested-append {o} es f (framed p {es = gs} {inner = inner} g n) =
    subst (Nested o) (append_assoc es gs (running p ∷ (inner ++ shut p ∷ [])))
      (framed p (AreQuiet-append f g) n)
Nested-append es f (refused p {es = gs} g) =
    subst (Nested panic) (append_assoc es gs (failed p ∷ shut p ∷ []))
      (refused p (AreQuiet-append f g))

-- What has been done behind `w`.
record Emitted (w : List Effect) (r : Outcome (Unit {0}) × List Effect) : Type 0 where
  es : List Effect
  after : r.1 ≡ w ++ es
  nested : Nested r.0 es

record Hushed (w w' : List Effect) : Type 0 where
  es : List Effect
  after : w' ≡ w ++ es
  quiet : AreQuiet es

Emitted-Nested : (r : Outcome (Unit {0}) × List Effect) → Emitted [] r → Nested r.0 r.1
Emitted-Nested r e = subst (Nested r.0) (sym e.after) e.nested

abbrev Emits : St (List Effect) (Unit {0}) → Type 0
Emits m = (w : List Effect) → Emitted w (m w)

-- Starts and ends no part.
abbrev Hushes : St (List Effect) (Unit {0}) → Type 0
Hushes m = (w : List Effect) → Hushed w (m w).1

Hushes-Emits : (m : St (List Effect) (Unit {0})) → Hushes m → Emits m
Hushes-Emits m h w = let e = h w in record { es = e.es; after = e.after; nested = calm e.quiet }

Hushes-pure : Hushes (pure tt)
Hushes-pure w = record { es = []; after = sym (append-nil w); quiet = nothing }

Hushes-crash : Hushes crash
Hushes-crash w = record { es = []; after = sym (append-nil w); quiet = nothing }

Hushes-note : (e : Effect) → IsQuiet e → Hushes (note e)
Hushes-note e q w = record { es = e ∷ []; after = refl; quiet = first q nothing }

go_on :
    (k : St (List Effect) (Unit {0})) (w : List Effect) (r : Outcome (Unit {0}) × List Effect)
    → Emits k
    → Hushed w r.1
    → Emitted w (and_then r (λ _. k))
go_on k w (ok u, w') h e =
    let f = h w' in
    record {
      es = e.es ++ f.es;
      after = f.after ∙ ap (λ x. x ++ f.es) e.after ∙ append_assoc w e.es f.es;
      nested = Nested-append e.es e.quiet f.nested;
    }
go_on k w (fail x, w') h e = record { es = e.es; after = e.after; nested = calm e.quiet }
go_on k w (panic, w') h e = record { es = e.es; after = e.after; nested = calm e.quiet }

Emits-then : (m k : St (List Effect) (Unit {0})) → Hushes m → Emits k → Emits (m >> k)
Emits-then m k h g w = go_on k w (m w) g (h w)

-- A part that has begun to run, and the rest of main.
closing-running :
    (p : Part) (k : St (List Effect) (Unit {0}))
    → Emits k
    → Emits (closing p (note (running p) >> k))
unfolding closing
closing-running p k h w =
    let f = h (w ++ running p ∷ []) in
    record {
      es = running p ∷ (f.es ++ shut p ∷ []);
      after =
          ap (λ x. x ++ shut p ∷ []) f.after
          ∙ append_assoc (w ++ running p ∷ []) f.es (shut p ∷ [])
          ∙ append_assoc w (running p ∷ []) (f.es ++ shut p ∷ []);
      nested = framed p nothing f.nested;
    }

Hushes-set_resolver : (r : Option Resolver) → Hushes (set_resolver r)
unfolding set_resolver
Hushes-set_resolver none = Hushes-pure
Hushes-set_resolver (some r) = Hushes-note (resolving r) (resolves r)

Hushes-profile : (g : Word) → Hushes (profile g)
unfolding profile
Hushes-profile [] = Hushes-pure
Hushes-profile (b ∷ bs) = Hushes-note (profiled (b ∷ bs)) (profiles (b ∷ bs))

either :
    (c : Bool) (m k : St (List Effect) (Unit {0})) → Emits m → Emits k → Emits (if c then m else k)
either true m k h g = h
either false m k h g = g

module _ (sha256 : Word → List ℕ) (listen : Word → Option Error) {N : Type 0}
    (parse_cidr : Word → Option N) (reserved : List N) (open_file : Word → File) where
  Emits-hang : (g : Word) → Emits (hang sha256 listen parse_cidr reserved open_file g)
  unfolding hang
  Emits-hang g =
      Emits-then (profile g) (note waited) (Hushes-profile g)
        (Hushes-Emits _ (Hushes-note waited waits))

  closing-Emits :
      (p : Part) (o : Option Error) (k : St (List Effect) (Unit {0}))
      → Emits k
      → Emits (closing p (run_part sha256 listen parse_cidr reserved open_file p o >> k))
  unfolding run_part closing
  closing-Emits p none k h w = closing-running p k h w
  closing-Emits p (some e) k h w = record {
    es = failed p ∷ shut p ∷ [];
    after = append_assoc w (failed p ∷ []) (shut p ∷ []);
    nested = refused p nothing;
  }

  launch-Emits :
      (p : Part) (a : Word) (k : St (List Effect) (Unit {0}))
      → Emits k
      → Emits (closing p (launch_at sha256 listen parse_cidr reserved open_file p (some a) >> k))
  unfolding launch_at
  launch-Emits p a k h = closing-Emits p (listen a) k h

  Hushes-built :
      (o : Outcome (Router N Word Word))
      → Hushes (built sha256 listen parse_cidr reserved open_file o)
  unfolding built
  Hushes-built (ok r) = Hushes-pure
  Hushes-built (fail e) = Hushes-crash
  Hushes-built panic = Hushes-crash

  Emits-serve_with :
      (o : Option Protocol) (f : ServerFlags)
      → Emits (serve_with sha256 listen parse_cidr reserved open_file o f)
  unfolding serve_with launch new_server
  Emits-serve_with none f = Emits-hang f.gpprof
  Emits-serve_with (some ashe) f =
      launch-Emits (new_server sha256 listen parse_cidr reserved open_file ashe f) f.listen _
        (Emits-hang f.gpprof)
  Emits-serve_with (some baboon) f =
      launch-Emits (new_server sha256 listen parse_cidr reserved open_file baboon f) f.listen _
        (Emits-hang f.gpprof)
  Emits-serve_with (some czar) f =
      launch-Emits (new_server sha256 listen parse_cidr reserved open_file czar f) f.listen _
        (Emits-hang f.gpprof)
  Emits-serve_with (some dahlia) f =
      launch-Emits (new_server sha256 listen parse_cidr reserved open_file dahlia f) f.listen _
        (Emits-hang f.gpprof)

  Emits-run_locale :
      (f : ClientFlags) (c : Part)
      → Emits (run_locale sha256 listen parse_cidr reserved open_file f c)
  unfolding run_locale new_aimbot launch
  Emits-run_locale f c =
      Emits-then _ _ (Hushes-built _)
        (launch-Emits (local f.listen c) f.listen _ (Emits-hang f.gpprof))

  Emits-browse_with :
      (o : Option Protocol) (f : ClientFlags)
      → Emits (browse_with sha256 listen parse_cidr reserved open_file o f)
  unfolding browse_with new_client launch
  Emits-browse_with none f = Emits-hang f.gpprof
  Emits-browse_with (some ashe) f = Emits-run_locale f _
  Emits-browse_with (some baboon) f = Emits-run_locale f _
  Emits-browse_with (some czar) f =
      let part = new_client sha256 listen parse_cidr reserved open_file czar f in
      closing-running part (run_locale sha256 listen parse_cidr reserved open_file f part)
        (Emits-run_locale f part)
  Emits-browse_with (some dahlia) f =
      let part = new_client sha256 listen parse_cidr reserved open_file dahlia f in
      launch-Emits part f.listen _ (Emits-hang f.gpprof)

  Emits-by_command :
      (c rule cidr : Word) (given : Word → Option Word)
      → Emits (by_command sha256 listen parse_cidr reserved open_file c rule cidr given)
  unfolding by_command server client
  Emits-by_command c rule cidr given =
      let f = server_flags given in
      let g = client_flags rule cidr given in
      let help = same_bytes c [] || same_bytes c (codes "-h") || same_bytes c (codes "--help") in
      either (same_bytes c (codes "server")) _ _
        (Emits-then _ _ (Hushes-set_resolver (resolver_of f.dnserv))
          (Emits-serve_with (protocol_of f.protoc) f))
        (either (same_bytes c (codes "client")) _ _
          (Emits-then _ _ (Hushes-set_resolver (resolver_of g.dnserv))
            (Emits-browse_with (protocol_of g.protoc) g))
          (either (same_bytes c (codes "gen")) _ _
            (Hushes-Emits _ (Hushes-note generated generates))
            (either (same_bytes c (codes "ver")) _ _
              (Hushes-Emits _ (Hushes-note versioned versions))
              (either help (note helped) (pure tt) (Hushes-Emits _ (Hushes-note helped helps))
                (Hushes-Emits _ Hushes-pure)))))

  -- Whatever the arguments and flags, and however listening and the reading of the files end: the
  -- close of each part that main has running is the last of all that it does from the part's start
  -- on, so that each is closed as often as it is started and the last one first, and that also where
  -- main panics; where the Run of a part fails, main panics, and closes that part just behind, before
  -- those that it has running; and no part is closed otherwise.
  pub main-Nested :
      (android : Bool) (args : List Word) (rule cidr : Word) (given : Word → Option Word)
      → (let r = main sha256 listen parse_cidr reserved open_file android args rule cidr given [] in
          Nested r.0 r.1)
  unfolding main
  main-Nested android [] rule cidr given = calm (first helps nothing)
  main-Nested android (c ∷ rest) rule cidr given =
      let r : Option Resolver = if android then some (dns (codes "1.1.1.1:53")) else none in
      let k = by_command sha256 listen parse_cidr reserved open_file c rule cidr given in
      Emitted-Nested _ (
        Emits-then (set_resolver r) k (Hushes-set_resolver r) (Emits-by_command c rule cidr given)
          [])
