-- ===== src/Tests/ToolRuns.antt =====
-- Tests of lib/priority, the test server, the HTTP proxy and the list of countries.
use daze.Base.{
  ℕ, zero, ◌+◌, ◌≤◌, ◌<◌, ◌≡◌, ◌≢◌, refl, Bool, true, false, Option, none, some, List, [], ◌∷◌,
  ◌++◌, arith, Error, Outcome, ok, fail, panic, inr, eof, replicate, length, length-replicate, map,
  ◌==◌, if◌then◌else◌,
}
use daze.Base.Bytes.{codes}
use daze.Priority.{
  Call, locking, Priority, moved, panics, turn, pri, Reached, start, later, calls, set_locked,
}
use daze.Priority.Exclusion.{held, left}
use daze.Priority.Progress
use daze.Priority.Progress.{running}
use daze.Tester.{udp_serve}
use daze.Tester.Requests.{Request, asks, sends, encoded}
use daze.Tester.Packets
use daze.Tester.Packets.{replies_to}
use daze.Locale.{Client, finished, linked}
use daze.Locale.Proxy.{Method, connect, get, other, established, serve_proxy}
use daze.Locale.Proxy
use daze.Locale.Proxying
use daze.Locale.Proxying.{
  Reads, one_more, none_yet, AllAnswered, nothing, and_one, Tunnel, Ends, addresses, target,
}
use daze.Router.File.{Word, cidr_from_file}
use daze.Apnic.{gen, ipv4, word_eq, is_comment}
use daze.Apnic.Regions
use daze.Apnic.Regions.{AllMean, no_lines, and_line, comment, range4}

-- Two calls of levels 0 and 1, of which the second has taken its first mutex.
abbrev waiting : List Call
waiting = locking 0 1 ∷ locking 1 1 ∷ []

abbrev one_taken : Priority
one_taken = record { size = 2; locked = λ j. if j == 1 then true else false }

waiting-Reached : Reached 2 (0 ∷ 1 ∷ []) 1 waiting one_taken
unfolding turn set_locked pri
waiting-Reached = later 1 start refl

Reached-exclusive_example :
    (running waiting ≤ 1)
    × ((j : ℕ) → held j waiting ≡ (if one_taken.locked j then 1 else 0))
    × ((i : ℕ) → turn i waiting one_taken ≢ panics)
Reached-exclusive_example =
    Progress.Reached-exclusive (omega arith, (omega arith, tt)) waiting-Reached

Reached-goes_on_example :
    (1 + left waiting ≡ left (calls (0 ∷ 1 ∷ [])))
    × (1 < left (calls (0 ∷ 1 ∷ []))
        → (i : ℕ) × (ds : List Call) × (q : Priority) × (turn i waiting one_taken ≡ moved ds q))
Reached-goes_on_example = Progress.Reached-goes_on (omega arith, (omega arith, tt)) waiting-Reached

abbrev fitting : List Request
fitting = asks 5 3 ∷ sends 6 2 ∷ []

abbrev delivered : List ℕ → Bool
delivered bs = true

udp_serve-answers_example :
    (udp_serve 2048 delivered (map encoded fitting) (replicate 2048 0) []
      ≡ ok (replies_to 2048 delivered fitting))
    × (udp_serve 2048 delivered
          (map encoded fitting ++ encoded (asks 1 2049) ∷ [])
          (replicate 2048 0)
          []
        ≡ panic)
udp_serve-answers_example =
    Packets.udp_serve-answers 2048 delivered (omega arith) (omega arith) fitting 1 2049 []
      (replicate 2048 0) ((omega arith, refl), (omega arith, tt)) (length-replicate 2048 zero)
      (omega arith) (omega arith)

-- A proxy for a toy of HTTP: a message is one byte, of which 1 is a GET and 2 a CONNECT.
abbrev site : Proxy.Request
site = record { method = get; hostname = b'a' ∷ []; port = []; websocket = false }

abbrev secure : Proxy.Request
secure = record { method = connect; hostname = b'b' ∷ []; port = b'1' ∷ []; websocket = false }

read_request : List ℕ → Outcome (Proxy.Request × List ℕ)
read_request [] = fail eof
read_request (b ∷ bs) = ok (if b == 1 then site else secure, bs)

read_request-lt :
    (inp rest : List ℕ) (r : Proxy.Request)
    → read_request inp ≡ ok (r, rest)
    → length rest < length inp
unfolding read_request
read_request-lt [] rest r e = absurd cc
read_request-lt (b ∷ bs) rest r e = let same : rest ≡ bs = cc in rw same (omega arith)

abbrev all_up : List ℕ → Option Error
all_up dst = none

abbrev passed_on : Proxy.Request → Option Error
passed_on r = none

abbrev page : Proxy.Request → Outcome (List ℕ)
page r = ok (b'p' ∷ [])

serve_proxy-serves_example :
    let client : List ℕ → List ℕ → ℕ → List (List ℕ) → Client =
      λ inp out q ds. record { inp = inp; out = out; quota = q; dialled = ds } in
    let run = serve_proxy read_request all_up passed_on page 2 (client (1 ∷ 2 ∷ 9 ∷ []) [] 2 []) in
    (read_request (2 ∷ 9 ∷ []) ≡ fail eof
      → run ≡ some (ok finished, client (2 ∷ 9 ∷ []) (b'p' ∷ []) 1 (target site ∷ [])))
    × ((t : Tunnel read_request all_up passed_on page (2 ∷ 9 ∷ []))
        → run
          ≡ some (
            ok (linked (target t.request)),
            client t.behind (b'p' ∷ established) 0 (target site ∷ target t.request ∷ []),
          ))
unfolding read_request
serve_proxy-serves_example =
    Proxying.serve_proxy-serves read_request all_up passed_on page (1 ∷ 2 ∷ 9 ∷ []) (2 ∷ 9 ∷ [])
      (b'p' ∷ []) 0 0 (site ∷ []) (one_more refl none_yet)
      (and_one
        (record {
          plain = inr (refl, refl);
          dialled = refl;
          forwarded = refl;
          text = b'p' ∷ [];
          answer = refl;
        })
        nothing)

serve_proxy-Ends_example : Ends read_request all_up passed_on page (
    serve_proxy read_request all_up passed_on page 4
      (record { inp = 1 ∷ 1 ∷ []; out = []; quota = 1; dialled = [] }))
serve_proxy-Ends_example =
    Proxying.serve_proxy-Ends read_request all_up passed_on page read_request-lt 4
      (record { inp = 1 ∷ 1 ∷ []; out = []; quota = 1; dialled = [] }) (omega arith)

-- A list of countries, where a range is its text.
abbrev row : List Word
row = (b'a' ∷ []) ∷ codes "CN" ∷ ipv4 ∷ codes "1.0.1.0" ∷ codes "256" ∷ []

abbrev rows : List (List Word)
rows = ((b'#' ∷ []) ∷ []) ∷ row ∷ []

abbrev parse_uint : Word → Option ℕ
parse_uint w = some 256

abbrev parse_cidr : Word → Option Word
parse_cidr w = some w

abbrev itoa : ℕ → Word
itoa n = n ∷ []

abbrev range : Word
range = codes "1.0.1.0" ++ b'/' ∷ 24 ∷ []

rows-AllMean : AllMean parse_uint parse_cidr itoa rows ((codes "CN", range) ∷ [])
unfolding is_comment word_eq
rows-AllMean =
    and_line (comment refl) (and_line (range4 8 refl refl (omega arith) refl refl) no_lines)

cidr_from_file-gen_example :
    (file : List (List Word)) × (gen parse_uint parse_cidr itoa (λ w. w) (codes "CN") (some rows)
      ≡ ok (some file))
    × (cidr_from_file parse_cidr (some (file, false)) (record { l = []; r = []; b = [] })
        ≡ ok (record { l = range ∷ []; r = []; b = [] }))
unfolding word_eq
cidr_from_file-gen_example =
    Regions.cidr_from_file-gen parse_uint parse_cidr itoa (λ w. w) (λ w. refl) range [] rows-AllMean
      refl
