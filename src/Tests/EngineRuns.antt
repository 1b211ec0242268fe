-- ===== src/Tests/EngineRuns.antt =====
-- Tests of protocol/baboon and of the client of protocol/czar.
use daze.Base.{
  ℕ, ◌≡◌, ◌↔◌, refl, Bool, true, false, ◌++◌, Option, none, some, List, [], ◌∷◌, replicate, Error,
  refused,
}
use daze.Net.{fresh}
use daze.Ashe.{Network}
use daze.Baboon.Mask
use daze.Baboon.Mask.{serve_mask, forwarded}
use daze.Baboon.Mask.Copied
use daze.Baboon.Mask.Copied.{blank, Asked, Mirrored}
use daze.Baboon.Engine.{serve_daze}
use daze.Baboon.Hijacked
use daze.Baboon.{route}
use daze.Baboon.Signature
use daze.Baboon.Signature.{Signed}
use daze.Czar.Client.{Client, serving, connected, taken, turn, turn_at, Reached, begin, go_on}
use daze.Czar.Client.Upkeep
use daze.Czar.Client.Upkeep.{Kept}

abbrev pub md5 : List ℕ → List ℕ
md5 xs = replicate 16 7

abbrev pub hex_encode : List ℕ → List ℕ
hex_encode xs = 48 ∷ xs

abbrev pub hex_decode : List ℕ → Option (List ℕ)
hex_decode [] = none
hex_decode (b ∷ xs) = some xs

abbrev cipher : List ℕ
cipher = replicate 32 11

route-eq-one_iff_example : (route md5 hex_encode hex_decode cipher (48 ∷ replicate 32 7) ≡ 1) ↔ (
    (bytes : List ℕ) × (hex_decode (48 ∷ replicate 32 7) ≡ some bytes)
    × Signed md5 hex_encode hex_decode cipher bytes)
route-eq-one_iff_example =
    Signature.route-eq-one_iff md5 hex_encode hex_decode (λ xs. refl) cipher (48 ∷ replicate 32 7)
      (λ p. cc)

-- Run has connected, and somebody has dialled through the connection.
abbrev busy : Client
busy = record { sid = serving; rtt = 0; mux = 0; made = 1; shut = []; waits = []; given = 0 ∷ [] }

abbrev up : Client
up = record { sid = serving; rtt = 0; mux = 0; made = 1; shut = []; waits = []; given = [] }

busy-Reached : Reached busy
unfolding turn turn_at
busy-Reached = go_on taken {c = up} (go_on connected begin refl) refl

Reached-Kept_example : Kept busy
Reached-Kept_example = Upkeep.Reached-Kept busy busy-Reached

-- A site with two cookies.
abbrev site : Mask.Request → Option Mask.Answer
site r =
    some (record { status = 200; header = ((9 ∷ []), (1 ∷ []) ∷ (2 ∷ []) ∷ []) ∷ []; body = r.uri })

abbrev visit : Mask.Request
visit = record { method = 71 ∷ []; uri = 47 ∷ []; header = []; body = [] }

abbrev any_request : List ℕ → List ℕ → Bool
any_request m u = true

visited : Asked site (104 ∷ []) visit (site (forwarded (104 ∷ []) visit))
visited = record {
  question = forwarded (104 ∷ []) visit;
  method = refl;
  uri = refl;
  header = refl;
  body = refl;
  answered = refl;
}

serve_mask-Mirrored_example :
    let w = serve_mask any_request site (104 ∷ []) visit blank in
    (any_request (71 ∷ []) ((104 ∷ []) ++ (47 ∷ [])) ≡ false → w ≡ blank)
    × (site (forwarded (104 ∷ []) visit) ≡ none → w ≡ blank)
    × ((a : Mask.Answer)
        → any_request (71 ∷ []) ((104 ∷ []) ++ (47 ∷ [])) ≡ true
        → site (forwarded (104 ∷ []) visit) ≡ some a
        → Mirrored a w)
serve_mask-Mirrored_example = Copied.serve_mask-Mirrored any_request site (104 ∷ []) visit _ visited

abbrev no_cipher : List ℕ → ℕ → ℕ → ℕ
no_cipher key i b = b

abbrev all_refused : Network → List ℕ → Option Error
all_refused n dst = some refused

-- A connection that ends before the salt.
serve_daze-Keeps_example :
    (serve_daze no_cipher all_refused
      (replicate 29 48)
      (replicate 32 1)
      1000
      (fresh 9 (1 ∷ []))).1.closed
    ≡ (fresh 9 (1 ∷ [])).closed
serve_daze-Keeps_example =
    Hijacked.serve_daze-Keeps no_cipher all_refused (replicate 29 48) (replicate 32 1) 1000
      (fresh 9 (1 ∷ []))
