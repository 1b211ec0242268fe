-- ===== src/Ashe/Unclosed.antt =====
-- That Serve of protocol/ashe/engine.go leaves the closing of a connection to its caller.
use daze.Base.{
  ℕ, ◌≡◌, refl, ◌∙◌, Bool, true, false, Option, List, [], ◌∷◌, Error, Outcome, ok, fail, panic,
  length, zero, suc, leb, Bool-cases, inl, inr, if◌then◌else◌, get_or, expired,
}
use daze.Base.Bytes.{uint_be}
use daze.Base.State.{pure, raise, lift, and_then, ignoring, ◌>>=◌}
use daze.Net.{Conn, M, gravity, read_full, write, write_within}
use daze.Ashe.{
  Network, tcp, udp, other, Session, Dialled, connected, refused_by, nothing, xor_key, is_expired,
  server_hello, answer, dial_for, serve,
}

-- A step that neither closes the connection nor opens it again.
abbrev pub Keeps : {A : Type 0} → M A → Type 0
Keeps m = (c : Conn) → (m c).1.closed ≡ c.closed

go_on :
    {A B : Type 0} (c : Conn) (r : Outcome A × Conn) (k : A → M B)
    → r.1.closed ≡ c.closed
    → ((a : A) → Keeps (k a))
    → (and_then r k).1.closed ≡ c.closed
go_on c (ok a, d) k h g = g a d ∙ h
go_on c (fail e, d) k h g = h
go_on c (panic, d) k h g = h

pub Keeps-then :
    {A B : Type 0} (m : M A) (k : A → M B) → Keeps m → ((a : A) → Keeps (k a)) → Keeps (m >>= k)
Keeps-then m k h g c = go_on c (m c) k (h c) g

ignored :
    {A : Type 0} (c : Conn) (r : Outcome A × Conn)
    → r.1.closed ≡ c.closed
    → ((ignoring (λ x. r)) c).1.closed ≡ c.closed
ignored c (ok a, d) h = h
ignored c (fail e, d) h = h
ignored c (panic, d) h = h

pub Keeps-ignoring : {A : Type 0} (m : M A) → Keeps m → Keeps (ignoring m)
Keeps-ignoring m h c = ignored c (m c) (h c)

lifted : {A : Type 0} (r : Outcome A) → Keeps (lift r)
lifted r c = refl

module _ (crypt : List ℕ → ℕ → ℕ → ℕ) where
  within : (q : ℕ) (bs : List ℕ) → Keeps (write_within crypt q bs)
  unfolding write_within
  within zero bs c = refl
  within (suc q) bs c = refl

  pub Keeps-write : (bs : List ℕ) → Keeps (write crypt bs)
  unfolding write
  Keeps-write bs c = within c.quota bs c

  Keeps-read_full : (n : ℕ) → Keeps (read_full crypt n)
  unfolding read_full
  Keeps-read_full n c = elim (Bool-cases (leb n (length c.inp))) [
    | inl e ↦ rw (read_full, e) refl
    | inr e ↦ rw (read_full, e) refl
  ]

  judged : (b : Bool) → Keeps (if b then raise expired else pure tt)
  judged true c = refl
  judged false c = refl

  Keeps-server_hello : (cipher : List ℕ) (now : ℕ) → Keeps (server_hello crypt cipher now)
  unfolding server_hello gravity
  Keeps-server_hello cipher now =
      let timed : List ℕ → M (Unit {0}) =
        λ time. if is_expired now (uint_be time) then raise expired else pure tt in
      let rest : Unit {0} → M (Unit {0}) = λ u. read_full crypt 8 >>= timed in
      let keyed : List ℕ → M (Unit {0}) = λ key. gravity key >>= rest in
      let mixed : List ℕ → M (Unit {0}) = λ buf. lift (xor_key buf cipher) >>= keyed in
      Keeps-then (read_full crypt 32) mixed (Keeps-read_full 32) λ buf.
        Keeps-then (lift (xor_key buf cipher)) keyed (lifted (xor_key buf cipher)) λ key.
          Keeps-then (gravity key) rest (λ c. refl)
            λ u.
              Keeps-then (read_full crypt 8) timed (Keeps-read_full 8)
                λ time. judged (is_expired now (uint_be time))

  module _ (dial : Network → List ℕ → Option Error) where
    Keeps-answer : (d : Dialled) (dst : List ℕ) → Keeps (answer crypt dial d dst)
    unfolding answer
    Keeps-answer (refused_by e) dst =
        Keeps-then (ignoring (write crypt (1 ∷ []))) _
          (Keeps-ignoring (write crypt (1 ∷ [])) (Keeps-write (1 ∷ []))) (λ u c. refl)
    Keeps-answer (connected tcp) dst =
        Keeps-then (ignoring (write crypt (0 ∷ []))) _
          (Keeps-ignoring (write crypt (0 ∷ [])) (Keeps-write (0 ∷ []))) (λ u c. refl)
    Keeps-answer (connected udp) dst =
        Keeps-then (ignoring (write crypt (0 ∷ []))) _
          (Keeps-ignoring (write crypt (0 ∷ [])) (Keeps-write (0 ∷ []))) (λ u c. refl)
    Keeps-answer (connected other) dst =
        Keeps-then (ignoring (write crypt (0 ∷ []))) _
          (Keeps-ignoring (write crypt (0 ∷ [])) (Keeps-write (0 ∷ []))) (λ u c. refl)
    Keeps-answer nothing dst =
        Keeps-then (ignoring (write crypt (0 ∷ []))) _
          (Keeps-ignoring (write crypt (0 ∷ [])) (Keeps-write (0 ∷ []))) (λ u c. refl)

    pub Keeps-serve : (cipher : List ℕ) (now : ℕ) → Keeps (serve crypt dial cipher now)
    unfolding serve
    Keeps-serve cipher now =
        let answered : List ℕ → List ℕ → M Session =
          λ buf dst. answer crypt dial (dial_for crypt dial (get_or buf 0 0) dst) dst in
        let addressed : List ℕ → M Session =
          λ buf. read_full crypt (get_or buf 1 0) >>= answered buf in
        let asked : Unit {0} → M Session = λ u. read_full crypt 2 >>= addressed in
        Keeps-then (server_hello crypt cipher now) asked (Keeps-server_hello cipher now) λ u.
          Keeps-then (read_full crypt 2) addressed (Keeps-read_full 2) λ buf.
            Keeps-then (read_full crypt (get_or buf 1 0)) (answered buf)
              (Keeps-read_full (get_or buf 1 0))
              λ dst. Keeps-answer (dial_for crypt dial (get_or buf 0 0) dst) dst
