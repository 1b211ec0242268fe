-- ===== src/Tests/LinkRuns.antt =====
-- Tests of Link, of the accept loops, of protocol/dahlia and of both ends of protocol/baboon.
use daze.Base.{
  ℕ, ◌+◌, ◌^◌, ◌≤◌, ◌≡◌, ◌⊎◌, inr, refl, true, false, none, some, List, [], ◌∷◌, ◌++◌, arith, ok,
  replicate, ltb, if◌then◌else◌,
}
use daze.Net.{Conn, M, fresh, stream, read_full}
use daze.Base.Bytes.{put_uint64}
use daze.Link.{
  Links, finished, Step, Reached, IsOver, begin, later, forth, back, end_of_file, read_error,
  close_a, close_b,
}
use daze.Link.Delivery
use daze.Link.Delivery.{Delivered}
use daze.Link.Ending
use daze.Tests.AsheRuns.{flip, flip-IsInvolutive, salt, cipher, address, all_up, young}
use daze.Ashe.{tcp, xor_key, serve, server_hello}
use daze.Ashe.Wire.{sent}
use daze.Dahlia.Tunnel
use daze.Dahlia.Tunnel.{client_run, server_run, wire}
use daze.Listener.{
  Loop, Event, arrives, ends, accepting, crashed, turn, turn_at, accept, end_one, finish, pick,
}
use daze.Listener
use daze.Listener.Counting
use daze.Listener.Counting.{Counted, AllShut, times}
use daze.Listener.Engines
use daze.Listener.Engines.{Peer, ashe_turn, ashe_handler, close_cli}
use daze.Tests.EngineRuns.{md5, hex_encode, hex_decode}
use daze.Baboon.{authorization}
use daze.Baboon.Disguise
use daze.Baboon.Disguise.{Dials, Misled}

-- `a` has sent one byte, and no end, and `b` has left: the byte is lost to it, and Link returns.
abbrev over : Links
over = record {
  to_b = record { ends = false; coming = 7 ∷ []; written = []; phase = finished };
  to_a = record { ends = true; coming = []; written = []; phase = finished };
  a_closed = true;
  b_closed = true;
}

over-Reached : Reached (7 ∷ []) [] false true 4 over
over-Reached =
    later
      (later (later (later begin (back _ (end_of_file refl refl refl))) (close_a refl))
        (forth _ (read_error refl)))
      (close_b refl)

Reached-Delivered_example : Delivered (7 ∷ []) [] over
Reached-Delivered_example = Delivery.Reached-Delivered (7 ∷ []) [] over over-Reached (refl, refl)

Reached-ends_example : (4 ≤ 4 + 1 + 0) × (IsOver over ⊎ ((t : Links) × Step over t))
Reached-ends_example = Ending.Reached-ends 4 (7 ∷ []) [] false true over over-Reached (inr refl)

abbrev up : List ℕ
up = 1 ∷ 2 ∷ []

abbrev down : List ℕ
down = 3 ∷ []

tunnel_carries_example :
    (key : List ℕ) × (xor_key salt cipher ≡ ok key)
    × ((client_run flip cipher salt 1000 up 1 (fresh 3 (stream flip key 0 down))).0 ≡ ok down)
    × ((client_run flip cipher salt 1000 up 1 (fresh 3 (stream flip key 0 down))).1.out
        ≡ salt ++ (stream flip key 0 (put_uint64 1000) ++ stream flip key 8 up))
    × ((server_run flip cipher 1100 2 down (fresh 1 (wire flip key salt 1000 up))).0 ≡ ok up)
    × ((server_run flip cipher 1100 2 down (fresh 1 (wire flip key salt 1000 up))).1.out
        ≡ stream flip key 0 down)
tunnel_carries_example =
    Tunnel.tunnel_carries flip flip-IsInvolutive cipher salt up down 1000 1100 refl (omega arith)
      (omega arith, (omega arith, tt)) (omega arith, tt) (omega arith) young

-- A server of ashe that has accepted one client, which asks for network 2.
abbrev odd : Peer Conn
odd = record {
  now = 1100;
  salt = [];
  reached = none;
  side = fresh 1 (sent flip (replicate 32 12) salt 1000 2 address);
  cli_closed = false;
}

-- One that is done with its only client, a stranger that has sent nothing.
abbrev left_early : Peer Conn
left_early = record odd { side = fresh 1 [] }

abbrev one_served : Loop (Peer Conn)
one_served = record {
  phase = accepting;
  idx = 0;
  given = 0 ∷ [];
  live = [];
  closed = (0, close_cli (ashe_handler flip all_up cipher left_early).1) ∷ [];
}

one_served-Reached : Listener.Reached (ashe_handler flip all_up cipher) close_cli 1 one_served
unfolding turn turn_at accept pick end_one finish ashe_handler serve server_hello read_full
one_served-Reached =
    Listener.later (ends 0) (Listener.later (arrives left_early) Listener.start refl refl) refl refl

Reached-counts_example :
    Counted 1 one_served
    × AllShut (ashe_handler flip all_up cipher) close_cli one_served.closed
    × ((a : ℕ) → 1 ≤ 2 ^ 32 → times a (0 ∷ []) ≡ (if ltb a 1 then 1 else 0))
Reached-counts_example =
    Counting.Reached-counts (ashe_handler flip all_up cipher) close_cli one_served-Reached

abbrev one_client : Loop (Peer Conn)
one_client = record {
  phase = accepting;
  idx = 0;
  given = 0 ∷ [];
  live = (0, odd) ∷ [];
  closed = [];
}

key_made : xor_key salt cipher ≡ ok (replicate 32 12)
unfolding xor_key
key_made = refl

first_picked : pick 0 one_client.live ≡ some ((0, odd), [])
unfolding pick
first_picked = refl

ashe_turn-crashes_example :
    let t = record one_client { phase = crashed; live = [] } in
    (ashe_turn flip all_up cipher (ends 0) one_client ≡ some t)
    × ((event : Event (Peer Conn)) → ashe_turn flip all_up cipher event t ≡ none)
ashe_turn-crashes_example =
    Engines.ashe_turn-crashes flip flip-IsInvolutive all_up cipher salt (replicate 32 12) address
      1000 1100 2 key_made refl (omega arith, (omega arith, (omega arith, tt))) (omega arith)
      (omega arith) (omega arith) young (λ e. omega (arith, e)) (λ e. omega (arith, e)) 0 0 odd []
      one_client (λ e. cc) first_picked refl refl

-- Both ends of baboon, with a date of 29 bytes and with one of 30.
abbrev date : ℕ → List ℕ
date n = replicate n b'0'

abbrev rand : List ℕ
rand = replicate 16 1

abbrev no_site : M (Unit {0})
no_site c = (ok tt, c)

abbrev request_text : List ℕ → List ℕ
request_text auth = b'P' ∷ auth

rand_authorization : authorization md5 hex_encode hex_decode cipher rand ≡ [] → ⊥
unfolding authorization
rand_authorization e = cc

dial_server-serve_http_example :
    (to_server : List ℕ) × (to_client : List ℕ) × Dials flip md5 hex_encode hex_decode request_text
      all_up cipher rand salt address 1000 1100 tcp no_site
      (date 29)
      to_server
      to_client
dial_server-serve_http_example =
    Disguise.dial_server-serve_http flip md5 hex_encode hex_decode request_text all_up cipher rand
      salt address 1000 1100 tcp no_site (date 29) flip-IsInvolutive (λ xs. refl) (λ xs. refl)
      (λ e. cc) refl rand_authorization refl refl (omega arith, (omega arith, (omega arith, tt)))
      (omega arith) (omega arith) young refl

dial_server-Misled_example :
    (to_server : List ℕ) × (to_client : List ℕ) × Misled flip md5 hex_encode hex_decode request_text
      all_up cipher rand salt address 1000 1100 tcp no_site
      (date 30)
      to_server
      to_client
dial_server-Misled_example =
    Disguise.dial_server-Misled flip md5 hex_encode hex_decode request_text all_up cipher rand salt
      address 1000 1100 tcp no_site (date 30) flip-IsInvolutive (λ xs. refl) (λ xs. refl) (λ e. cc)
      refl rand_authorization refl refl (omega arith, (omega arith, (omega arith, tt)))
      (omega arith) (omega arith) young (replicate 32 12) key_made refl (omega arith)
