-- ===== src/Czar/Err.antt =====
-- protocol/czar/err.go: an error that is stored once, and a channel that is closed with it.
use daze.Base.{
  ◌≡◌, refl, Bool, true, false, Option, none, some, List, [], ◌∷◌, Error, Outcome, ok, fail, panic,
  Option-cases, inl, inr,
}

-- The field `sig` says whether the channel is closed.
pub record Err : Type 0 where
  pub err : Option Error
  pub sig : Bool

-- `NewErr`
abbrev pub new_err : Err
new_err = record { err = none; sig = false }

-- `close(e.sig)`, which panics if it is closed.
abbrev close_sig : Err → Bool → Outcome Err
close_sig e false = ok (record e { sig = true })
close_sig e true = panic

-- `Err.Put`. The argument may be nil, as an error of Go may.
unfoldable pub put : Err → Option Error → Outcome Err
put e new = elim e.err [ some _ ↦ ok e | none ↦ close_sig (record e { err = new }) e.sig ]

-- With no error stored the channel is open, so that Put does not panic.
abbrev pub IsOnce : Err → Type 0
IsOnce e = e.err ≡ none → e.sig ≡ false

pub put-ok : (e : Err) (x : Error) → IsOnce e → (e' : Err) × (put e (some x) ≡ ok e') × IsOnce e'
unfolding put
put-ok e x h = elim (Option-cases e.err) [
  | inl n ↦ (record { err = some x; sig = true }, rw (n, h n), λ z. cc)
  | inr (y, s) ↦ (e, rw s, h)
]

-- All of a list of errors put one after the other.
pub put_all : List Error → Err → Outcome Err
put_all [] e = ok e
put_all (x ∷ xs) e = elim (put e (some x)) [
  | ok e' ↦ put_all xs e'
  | fail y ↦ fail y
  | panic ↦ panic
]

abbrev pub stored : Error → Err
stored x = record { err = some x; sig = true }

put_all-stored : (xs : List Error) (x : Error) → put_all xs (stored x) ≡ ok (stored x)
unfolding put_all put
put_all-stored [] x = refl
put_all-stored (y ∷ ys) x = put_all-stored ys x

-- Of the errors that are put, the first is kept for good, and the channel is closed once: no
-- number of them makes a panic.
pub put_all-first : (x : Error) (xs : List Error) → put_all (x ∷ xs) new_err ≡ ok (stored x)
unfolding put_all put
put_all-first x xs = put_all-stored xs x

-- A nil error closes the channel and is not remembered, so the next Put closes it again.
pub put_nil : (new : Option Error) → (e : Err) × (put new_err none ≡ ok e) × (put e new ≡ panic)
unfolding put
put_nil new = (record { err = none; sig = true }, refl, refl)
