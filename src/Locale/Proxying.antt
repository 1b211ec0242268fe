-- ===== src/Locale/Proxying.antt =====
-- What ServeProxy does with a browser's requests, one behind the other.
use daze.Base.{
  ℕ, zero, suc, ◌+◌, ◌<◌, ◌≡◌, ◌≢◌, ◌⊎◌, inl, inr, refl, ◌∙◌, Bool, true, false, Option, none, some,
  List, [], ◌∷◌, ◌++◌, arith, Error, Outcome, ok, fail, panic, eof, length, append_assoc,
  append-nil,
}
use daze.Base.Bytes.{codes}
use daze.Base.State.{and_then, raise_some}
use daze.Locale.{Client, Served, finished, linked, write, dial_tcp}
use daze.Locale.Proxy.{
  Method, connect, get, other, Request, established, port_of, address, Turn, again, through,
  take_request, exchange, one_request, next, serve_proxy,
}

-- The host and the port that a request names, and port 80 where it names none.
abbrev pub with_port : List ℕ → List ℕ → List ℕ
with_port host [] = host ++ codes ":80"
with_port host (c ∷ cs) = host ++ (codes ":" ++ c ∷ cs)

abbrev pub target : Request → List ℕ
target r = with_port r.hostname r.port

with_port_lem : (host port : List ℕ) → host ++ b':' ∷ port_of port ≡ with_port host port
with_port_lem host [] = refl
with_port_lem host (c ∷ cs) = refl

address_lem : (r : Request) → address r ≡ target r
address_lem r = with_port_lem r.hostname r.port

module _ (read_request : List ℕ → Outcome (Request × List ℕ)) (dial : List ℕ → Option Error)
    (forward : Request → Option Error) (response : Request → Outcome (List ℕ)) where
  -- Requests that are read one behind the other, and what is left.
  pub data Reads : List ℕ → List Request → List ℕ → Type 0 where
    none_yet : {inp : List ℕ} → Reads inp [] inp
    one_more :
        {inp mid rest : List ℕ} {r : Request} {rs : List Request}
        → read_request inp ≡ ok (r, mid)
        → Reads mid rs rest
        → Reads inp (r ∷ rs) rest

  -- A request that is answered with a text.
  pub record Answered (r : Request) : Type 0 where
    pub plain : (r.method ≡ other) ⊎ ((r.method ≡ get) × (r.websocket ≡ false))
    pub dialled : dial (target r) ≡ none
    pub forwarded : forward r ≡ none
    pub text : List ℕ
    pub answer : response r ≡ ok text

  pub data AllAnswered : List Request → List ℕ → Type 0 where
    nothing : AllAnswered [] []
    and_one :
        {r : Request} {rs : List Request} {texts : List ℕ} (a : Answered r)
        → AllAnswered rs texts
        → AllAnswered (r ∷ rs) (a.text ++ texts)

  abbrev pub addresses : List Request → List (List ℕ)
  addresses [] = []
  addresses (r ∷ rs) = target r ∷ addresses rs

  abbrev client : List ℕ → List ℕ → ℕ → List (List ℕ) → Client
  client inp out q dialled = record { inp = inp; out = out; quota = q; dialled = dialled }

  abbrev IsPlain : Method → Bool → Type 0
  IsPlain m w = (m ≡ other) ⊎ ((m ≡ get) × (w ≡ false))

  not_connect : (w : Bool) → ¬ IsPlain connect w
  not_connect w (inl e) = cc
  not_connect w (inr (e, f)) = cc

  not_upgraded : ¬ IsPlain get true
  not_upgraded (inl e) = cc
  not_upgraded (inr (e, f)) = cc

  exchange-Answered :
      (m : Method) (w : Bool) (c : Client) (q : ℕ) (r : Request) (a : Answered r)
      → IsPlain m w
      → c.quota ≡ suc q
      → exchange read_request dial forward response m w r c
        ≡ (ok again, record c { out = c.out ++ a.text; quota = q })
  unfolding exchange write
  exchange-Answered connect w c q r a p e = absurd (not_connect w p)
  exchange-Answered get true c q r a p e = absurd (not_upgraded p)
  exchange-Answered get false c q r a p e = rw (a.forwarded, a.answer, e) refl
  exchange-Answered other w c q r a p e = rw (a.forwarded, a.answer, e) refl

  one_request-Answered :
      (inp mid out : List ℕ) (q : ℕ) (ds : List (List ℕ)) (r : Request) (a : Answered r)
      → read_request inp ≡ ok (r, mid)
      → one_request read_request dial forward response (client inp out (suc q) ds)
        ≡ (ok again, client mid (out ++ a.text) q (ds ++ target r ∷ []))
  unfolding one_request take_request dial_tcp
  one_request-Answered inp mid out q ds r a e =
      rw (e, address_lem r, a.dialled)
        (exchange-Answered r.method r.websocket (client mid out (suc q) (ds ++ target r ∷ [])) q r a
          a.plain refl)

  one_pass :
      (fuel : ℕ) (c d : Client)
      → one_request read_request dial forward response c ≡ (ok again, d)
      → serve_proxy read_request dial forward response (suc fuel) c
        ≡ serve_proxy read_request dial forward response fuel d
  unfolding serve_proxy next
  one_pass fuel c d e = rw e refl

  serve_proxy-Answered :
      (fuel : ℕ) (inp rest out texts : List ℕ) (q : ℕ) (ds : List (List ℕ)) (rs : List Request)
      → Reads inp rs rest
      → AllAnswered rs texts
      → serve_proxy read_request dial forward response
          (length rs + fuel)
          (client inp out (length rs + q) ds)
        ≡ serve_proxy read_request dial forward response fuel
            (client rest (out ++ texts) q (ds ++ addresses rs))
  serve_proxy-Answered fuel inp rest out texts q ds [] none_yet nothing =
      let (f, n) : (0 + fuel ≡ fuel) × (0 + q ≡ q) = (omega arith, omega arith) in
      rw (f, n, append-nil out, append-nil ds) refl
  serve_proxy-Answered fuel inp rest out texts q ds (r ∷ rs) (one_more {mid = mid} e more)
        (and_one {texts = ts} a others) =
      let f : suc (length rs) + fuel ≡ suc (length rs + fuel) = omega arith in
      let n : suc (length rs) + q ≡ suc (length rs + q) = omega arith in
      let here = client inp out (suc (length rs + q)) ds in
      let there = client mid (out ++ a.text) (length rs + q) (ds ++ target r ∷ []) in
      rw (f, n)
        (one_pass (length rs + fuel) here there
            (one_request-Answered inp mid out (length rs + q) ds r a e)
          ∙ serve_proxy-Answered fuel mid rest (out ++ a.text) ts q (ds ++ target r ∷ []) rs more
              others
          ∙ rw (append_assoc out a.text ts, append_assoc ds (target r ∷ []) (addresses rs)) refl)

  -- How the loop ends: the browser's stream does between two requests, or it asks for a tunnel.
  pub record Tunnel (rest : List ℕ) : Type 0 where
    pub request : Request
    pub behind : List ℕ
    pub asked : read_request rest ≡ ok (request, behind)
    pub tunnelled : request.method ≡ connect
    pub dialled : dial (target request) ≡ none

  one_request-Tunnel :
      (rest out : List ℕ) (q : ℕ) (ds : List (List ℕ)) (t : Tunnel rest)
      → one_request read_request dial forward response (client rest out (suc q) ds) ≡ (
        ok (through (target t.request)),
        client t.behind (out ++ established) q (ds ++ target t.request ∷ []),
      )
  unfolding one_request take_request dial_tcp exchange write
  one_request-Tunnel rest out q ds t =
      rw (t.asked, address_lem t.request, t.dialled, t.tunnelled, address_lem t.request) refl

  one_request_ended :
      (rest out : List ℕ) (q : ℕ) (ds : List (List ℕ))
      → read_request rest ≡ fail eof
      → one_request read_request dial forward response (client rest out q ds)
        ≡ (fail eof, client rest out q ds)
  unfolding one_request take_request
  one_request_ended rest out q ds e = rw e refl

  -- A browser's requests that are no tunnels are dialled in order, with port 80 where none is
  -- named, and their answers are written back one behind the other. If then the stream ends
  -- between two requests, ServeProxy returns without an error; if a CONNECT comes, it writes that
  -- the connection is established, and links what is left of the browser's bytes with its address.
  -- The addresses can be dialled, the messages passed on, and there is a write for each answer.
  pub serve_proxy-serves :
      (inp rest texts : List ℕ) (q fuel : ℕ) (rs : List Request)
      → Reads inp rs rest
      → AllAnswered rs texts
      → let run =
          serve_proxy read_request dial forward response
            (length rs + suc fuel)
            (client inp [] (length rs + suc q) []) in
        (read_request rest ≡ fail eof
          → run ≡ some (ok finished, client rest texts (suc q) (addresses rs)))
        × ((t : Tunnel rest)
            → run
              ≡ some (
                ok (linked (target t.request)),
                client t.behind (texts ++ established) q (addresses rs ++ target t.request ∷ []),
              ))
  unfolding serve_proxy next
  serve_proxy-serves inp rest texts q fuel rs r a =
      let passed = serve_proxy-Answered (suc fuel) inp rest [] texts (suc q) [] rs r a in
      (
        λ e. passed ∙ rw (one_request_ended rest texts (suc q) (addresses rs) e) refl,
        λ t. passed ∙ rw (one_request-Tunnel rest texts q (addresses rs) t) refl,
      )

  exchange_inp :
      (m : Method) (w : Bool) (r : Request) (c : Client)
      → (exchange read_request dial forward response m w r c).1.inp ≡ c.inp
  unfolding exchange write
  exchange_inp m w r c = ground arith

  dialled_inp :
      (d : Option Error) (m : Method) (w : Bool) (r : Request) (c : Client)
      → (and_then (raise_some d c) (λ x. exchange read_request dial forward response m w r)).1.inp
        ≡ c.inp
  dialled_inp none m w r c = exchange_inp m w r c
  dialled_inp (some e) m w r c = refl

  one_request_inp :
      ((inp rest : List ℕ) (r : Request)
        → read_request inp ≡ ok (r, rest)
        → length rest < length inp)
      → (c : Client) → (one_request read_request dial forward response c).0 ≡ ok again
      → length ((one_request read_request dial forward response c).1.inp) < length c.inp
  unfolding one_request take_request dial_tcp
  one_request_inp shrinks c = go (read_request c.inp) refl
    where
      rest_of : Outcome (Request × List ℕ) → Outcome Turn × Client
      rest_of o = and_then (take_request read_request dial forward response o c) (λ r s.
          and_then (dial_tcp dial (address r) s) (λ d s'.
            and_then (raise_some d s')
              (λ x. exchange read_request dial forward response r.method r.websocket r)))

      go :
          (o : Outcome (Request × List ℕ))
          → read_request c.inp ≡ o
          → (rest_of o).0 ≡ ok again
          → length ((rest_of o).1.inp) < length c.inp
      go (ok (r, rest)) e h =
          rw (dialled_inp (dial (address r)) r.method r.websocket r _) (shrinks c.inp rest r e)
      go (fail e') e h = absurd cc
      go panic e h = absurd cc

  -- How a run ends, where an end of the stream is no error.
  abbrev pub Ends : Option (Outcome Served × Client) → Type 0
  Ends o = (r : Outcome Served × Client) × (o ≡ some r) × (r.0 ≢ fail eof)

  next-Ends :
      (o : Outcome Turn × Client) (k : Client → Option (Outcome Served × Client))
      → (o.0 ≡ ok again → Ends (k o.1))
      → Ends (next read_request dial forward response o k)
  unfolding next
  next-Ends (ok again, c) k h = h refl
  next-Ends (ok (through a), c) k h = (_, refl, λ e. cc)
  next-Ends (fail eof, c) k h = (_, refl, λ e. cc)
  next-Ends (fail e, c) k h = (_, refl, λ e. cc)
  next-Ends (panic, c) k h = (_, refl, λ e. cc)

  -- Whatever a browser sends, ServeProxy's loop ends, and never with an end of the stream as its
  -- error: fuel for as many passes as there are bytes, and one more, is enough, where a request that
  -- is read takes at least one byte.
  pub serve_proxy-Ends :
      ((inp rest : List ℕ) (r : Request)
        → read_request inp ≡ ok (r, rest)
        → length rest < length inp)
      → (fuel : ℕ) (c : Client) → length c.inp < fuel
      → Ends (serve_proxy read_request dial forward response fuel c)
  unfolding serve_proxy
  serve_proxy-Ends shrinks zero c h = absurd (omega (arith, h))
  serve_proxy-Ends shrinks (suc fuel) c h =
      next-Ends (one_request read_request dial forward response c)
        (serve_proxy read_request dial forward response fuel)
        (λ e. serve_proxy-Ends shrinks fuel _ (omega (arith, h, one_request_inp shrinks c e)))
