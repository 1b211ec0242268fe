-- ===== src/Command.antt =====
-- cmd/daze/main.go: which parts the commands start, from their flags, and what is done with them.
-- `given` is what package flag has found for a flag; `sha256` is sha256.Sum256, and `listen` says how
-- net.Listen ends at an address, with `none` for success. The lines of the log are left out; an error
-- of net/http/pprof comes later.
pub mod Starting
use daze.Base.{
  ℕ, Bool, true, false, ◌||◌, Option, none, some, List, [], ◌∷◌, ◌++◌, Error, Outcome, ok, fail,
  panic, if◌then◌else◌, length, take, drop, leb, ◌-◌,
}
use daze.Base.Bytes.{codes}
use daze.Base.State.{St, pure, crash, doa_nil, ◌>>=◌, ◌>>◌}
use daze.Baboon.{same_bytes}
use daze.Router.{Router}
use daze.Router.Aimbot.{Kind, kind_locale, kind_remote, kind_rule, kind_other, new_router}
use daze.Router.File.{Word, File}

-- The servers and clients of the protocols, as their constructors make them, and a Locale over an
-- Aimbot over a client.
pub data Part : Type 0 where
  ashe_server czar_server : (listen cipher : Word) → Part
  baboon_server : (listen cipher masker : Word) → Part
  dahlia_server : (listen server cipher : Word) → Part
  ashe_client baboon_client czar_client : (server cipher : Word) → Part
  dahlia_client : (listen server cipher : Word) → Part
  local : (listen : Word) → Part → Part

pub data Resolver : Type 0 where
  dns dot doh : Word → Resolver

pub data Effect : Type 0 where
  helped : Effect
  versioned : Effect
  generated : Effect
  resolving : Resolver → Effect
  running : Part → Effect
  failed : Part → Effect  -- Run returns an error
  profiled : Word → Effect
  waited : Effect
  shut : Part → Effect

abbrev pub or_default : Option Word → Word → Word
or_default none d = d
or_default (some w) d = w

-- The flags of the command server.
pub record ServerFlags : Type 0 where
  pub dnserv : Word
  pub extend : Word
  pub gpprof : Word
  pub cipher : Word
  pub listen : Word
  pub protoc : Word

unfoldable pub server_flags : (Word → Option Word) → ServerFlags
server_flags given = record {
  dnserv = or_default (given (codes "dns")) [];
  extend = or_default (given (codes "e")) [];
  gpprof = or_default (given (codes "g")) [];
  cipher = or_default (given (codes "k")) (codes "daze");
  listen = or_default (given (codes "l")) (codes "0.0.0.0:1081");
  protoc = or_default (given (codes "p")) (codes "ashe");
}

-- The flags of the command client; `rule` and `cidr` are the files beside the program.
pub record ClientFlags : Type 0 where
  pub cidrls : Word
  pub dnserv : Word
  pub filter : Word
  pub gpprof : Word
  pub cipher : Word
  pub listen : Word
  pub protoc : Word
  pub rulels : Word
  pub server : Word

unfoldable pub client_flags : Word → Word → (Word → Option Word) → ClientFlags
client_flags rule cidr given = record {
  cidrls = or_default (given (codes "c")) cidr;
  dnserv = or_default (given (codes "dns")) [];
  filter = or_default (given (codes "f")) (codes "rule");
  gpprof = or_default (given (codes "g")) [];
  cipher = or_default (given (codes "k")) (codes "daze");
  listen = or_default (given (codes "l")) (codes "127.0.0.1:1080");
  protoc = or_default (given (codes "p")) (codes "ashe");
  rulels = or_default (given (codes "r")) rule;
  server = or_default (given (codes "s")) (codes "127.0.0.1:1081");
}

-- The protocol that the flag -p names, if it is one.
pub data Protocol : Type 0 where
  ashe baboon czar dahlia : Protocol

unfoldable pub protocol_of : Word → Option Protocol
protocol_of w =
    if same_bytes w (codes "ashe")
    then some ashe
    else if same_bytes w (codes "baboon")
    then some baboon
    else if same_bytes w (codes "czar")
    then some czar
    else if same_bytes w (codes "dahlia")
    then some dahlia
    else none

unfoldable pub kind_of : Word → Kind
kind_of w =
    if same_bytes w (codes "locale")
    then kind_locale
    else if same_bytes w (codes "remote")
    then kind_remote
    else if same_bytes w (codes "rule")
    then kind_rule
    else kind_other

-- `strings.HasPrefix` and `strings.HasSuffix`
unfoldable pub has_prefix : Word → Word → Bool
has_prefix w s = same_bytes (take (length s) w) s

unfoldable pub has_suffix : Word → Word → Bool
has_suffix w s =
    if leb (length s) (length w) then same_bytes (drop (length w - length s) w) s else false

unfoldable pub resolver_of : Word → Option Resolver
unfolding has_prefix has_suffix
resolver_of [] = none
resolver_of (b ∷ bs) =
    if has_suffix (b ∷ bs) (codes ":53")
    then some (dns (b ∷ bs))
    else if has_suffix (b ∷ bs) (codes ":853")
    then some (dot (b ∷ bs))
    else if has_prefix (b ∷ bs) (codes "https://")
    then some (doh (b ∷ bs))
    else none

abbrev note : Effect → St (List Effect) (Unit {0})
note e w = (ok tt, w ++ e ∷ [])

set_resolver : Option Resolver → St (List Effect) (Unit {0})
set_resolver none = pure tt
set_resolver (some r) = note (resolving r)

profile : Word → St (List Effect) (Unit {0})
profile [] = pure tt
profile (b ∷ bs) = note (profiled (b ∷ bs))

-- `defer part.Close()` around the rest of main, also where that panics.
closing : Part → St (List Effect) (Unit {0}) → St (List Effect) (Unit {0})
closing p body w = let r = body w in (r.0, r.1 ++ shut p ∷ [])

-- The address that a part's Run listens on; the clients that a Locale uses have none.
abbrev address : Part → Option Word
address (ashe_server l k) = some l
address (czar_server l k) = some l
address (baboon_server l k m) = some l
address (dahlia_server l s k) = some l
address (dahlia_client l s k) = some l
address (local l c) = some l
address (ashe_client s k) = none
address (baboon_client s k) = none
address (czar_client s k) = none

module _ (sha256 : Word → List ℕ) (listen : Word → Option Error) {N : Type 0}
    (parse_cidr : Word → Option N) (reserved : List N) (open_file : Word → File) where
  -- `doa.Nil(part.Run())`
  run_part : Part → Option Error → St (List Effect) (Unit {0})
  run_part p none = note (running p)
  run_part p (some e) = do note (failed p); doa_nil (some e)

  launch_at : Part → Option Word → St (List Effect) (Unit {0})
  unfolding run_part
  launch_at p none = pure tt
  launch_at p (some a) = run_part p (listen a)

  unfoldable pub launch : Part → St (List Effect) (Unit {0})
  unfolding launch_at
  launch p = launch_at p (address p)

  -- `NewAimbot`, which reads the files, and panics where these or the filter are not right.
  built : Outcome (Router N Word Word) → St (List Effect) (Unit {0})
  built (ok r) = pure tt
  built (fail e) = crash
  built panic = crash

  unfoldable pub new_aimbot : ClientFlags → St (List Effect) (Unit {0})
  unfolding built
  new_aimbot f =
      built (
        new_router parse_cidr reserved (kind_of f.filter) (open_file f.rulels) (open_file f.cidrls))

  -- The end of both commands: the pprof flag, and gracefulexit.Wait.
  unfoldable pub hang : Word → St (List Effect) (Unit {0})
  unfolding profile
  hang g = do profile g; note waited

  -- The constructors of the servers, by the flag -p.
  unfoldable pub new_server : Protocol → ServerFlags → Part
  new_server ashe f = ashe_server f.listen (sha256 f.cipher)
  new_server baboon f =
      baboon_server f.listen (sha256 f.cipher)
        (elim f.extend [ [] ↦ codes "https://github.com/" | b ∷ bs ↦ b ∷ bs ])
  new_server czar f = czar_server f.listen (sha256 f.cipher)
  new_server dahlia f = dahlia_server f.listen f.extend (sha256 f.cipher)

  serve_with : Option Protocol → ServerFlags → St (List Effect) (Unit {0})
  unfolding closing launch new_server hang
  serve_with none f = hang f.gpprof
  serve_with (some p) f = closing (new_server p f) (do launch (new_server p f); hang f.gpprof)

  -- The command `server`
  unfoldable pub server : ServerFlags → St (List Effect) (Unit {0})
  unfolding set_resolver serve_with
  server f = do set_resolver (resolver_of f.dnserv); serve_with (protocol_of f.protoc) f

  -- The constructors of the clients, by the flag -p.
  unfoldable pub new_client : Protocol → ClientFlags → Part
  new_client ashe f = ashe_client f.server (sha256 f.cipher)
  new_client baboon f = baboon_client f.server (sha256 f.cipher)
  new_client czar f = czar_client f.server (sha256 f.cipher)
  new_client dahlia f = dahlia_client f.listen f.server (sha256 f.cipher)

  -- A Locale over an Aimbot over a client.
  unfoldable pub run_locale : ClientFlags → Part → St (List Effect) (Unit {0})
  unfolding new_aimbot closing launch hang
  run_locale f c = do
    new_aimbot f
    closing (local f.listen c) (do launch (local f.listen c); hang f.gpprof)

  browse_with : Option Protocol → ClientFlags → St (List Effect) (Unit {0})
  unfolding run_locale new_client closing launch hang
  browse_with none f = hang f.gpprof
  browse_with (some ashe) f = run_locale f (new_client ashe f)
  browse_with (some baboon) f = run_locale f (new_client baboon f)
  browse_with (some czar) f =
      let c = new_client czar f in closing c (do note (running c); run_locale f c)
  browse_with (some dahlia) f =
      let c = new_client dahlia f in closing c (do launch c; hang f.gpprof)

  -- The command `client`
  unfoldable pub client : ClientFlags → St (List Effect) (Unit {0})
  unfolding set_resolver browse_with
  client f = do set_resolver (resolver_of f.dnserv); browse_with (protocol_of f.protoc) f

  by_command : Word → Word → Word → (Word → Option Word) → St (List Effect) (Unit {0})
  unfolding server client
  by_command c rule cidr given =
      if same_bytes c (codes "server")
      then server (server_flags given)
      else if same_bytes c (codes "client")
      then client (client_flags rule cidr given)
      else if same_bytes c (codes "gen")
      then note generated
      else if same_bytes c (codes "ver")
      then note versioned
      else if same_bytes c [] || same_bytes c (codes "-h") || same_bytes c (codes "--help")
      then note helped
      else pure tt

  -- `main`, with the arguments behind the program's name, and whether it runs on Android.
  unfoldable pub main :
      Bool → List Word → Word → Word → (Word → Option Word) → St (List Effect) (Unit {0})
  unfolding set_resolver by_command
  main android [] rule cidr given = note helped
  main android (c ∷ rest) rule cidr given = do
    set_resolver (if android then some (dns (codes "1.1.1.1:53")) else none)
    by_command c rule cidr given
