-- ===== src/Lru/Recency.antt =====
-- What the cache of lib/lru/lru.go promises: a list of entries, the last used first, of which Set
-- drops the last where the cache is full. `eq` is Go's == on the keys. A cache
-- of size zero is not one of these: there Set is a panic.
use daze.Base.{
  ℕ, ◌+◌, ◌<◌, ◌≡◌, Bool, true, Option, none, some, List, [], ◌∷◌, arith, length, ap, ◌==◌,
  if◌then◌else◌, Bool-cases, inl, inr,
}
use mathlib.Core.Path.{subst₂}

module _ {K V : Type 0} where
  -- All but the last.
  unfoldable pub but_last : List (K × V) → List (K × V)
  but_last [] = []
  but_last (e ∷ []) = []
  but_last (e ∷ f ∷ es) = e ∷ but_last (f ∷ es)

  pub length-but_last : (es : List (K × V)) → 0 < length es → length (but_last es) + 1 ≡ length es
  unfolding but_last
  length-but_last [] h = absurd (omega arith)
  length-but_last (e ∷ []) h = omega arith
  length-but_last (e ∷ f ∷ es) h = omega (arith, length-but_last (f ∷ es) (omega arith))

module _ {K V : Type 0} (eq : K → K → Bool) where
  unfoldable pub find : K → List (K × V) → Option V
  find k [] = none
  find k ((j, v) ∷ es) = if eq j k then some v else find k es

  unfoldable pub remove : K → List (K × V) → List (K × V)
  remove k [] = []
  remove k ((j, v) ∷ es) = if eq j k then es else (j, v) ∷ remove k es

  -- The entry with key `k`, with its value, in front.
  abbrev pub touch : K → V → List (K × V) → List (K × V)
  touch k v es = (k, v) ∷ remove k es

  abbrev looked : K → List (K × V) → Option V → Option V × List (K × V)
  looked k es none = (none, es)
  looked k es (some v) = (some v, touch k v es)

  unfoldable pub get_exists : K → List (K × V) → Option V × List (K × V)
  get_exists k es = looked k es (find k es)

  abbrev stored : ℕ → K → V → Option V → List (K × V) → List (K × V)
  stored limit k v none es = (k, v) ∷ (if length es == limit then but_last es else es)
  stored limit k v (some w) es = touch k v es

  unfoldable pub set : ℕ → K → V → List (K × V) → List (K × V)
  set limit k v es = stored limit k v (find k es) es

  unfoldable pub del : K → List (K × V) → List (K × V)
  del k es = remove k es

  -- What holds of every entry.
  abbrev pub AllEntries : (K → V → Type 0) → List (K × V) → Type 0
  AllEntries P [] = Unit
  AllEntries P ((k, v) ∷ es) = P k v × AllEntries P es

  pub AllEntries-remove :
      (P : K → V → Type 0) (k : K) (es : List (K × V))
      → AllEntries P es
      → AllEntries P (remove k es)
  unfolding remove
  AllEntries-remove P k [] h = tt
  AllEntries-remove P k ((j, v) ∷ es) h = elim (Bool-cases (eq j k)) [
    | inl hit ↦ rw hit h.1
    | inr miss ↦ rw miss (h.0, AllEntries-remove P k es h.1)
  ]

  AllEntries-but_last :
      (P : K → V → Type 0) (es : List (K × V)) → AllEntries P es → AllEntries P (but_last es)
  unfolding but_last
  AllEntries-but_last P [] h = tt
  AllEntries-but_last P (e ∷ []) h = tt
  AllEntries-but_last P ((k, v) ∷ f ∷ es) h = (h.0, AllEntries-but_last P (f ∷ es) h.1)

  AllEntries-stored :
      (P : K → V → Type 0) (limit : ℕ) (k : K) (v : V) (o : Option V) (es : List (K × V))
      → P k v
      → AllEntries P es
      → AllEntries P (stored limit k v o es)
  AllEntries-stored P limit k v (some w) es p h = (p, AllEntries-remove P k es h)
  AllEntries-stored P limit k v none es p h = elim (Bool-cases (length es == limit)) [
    | inl full ↦ rw full (p, AllEntries-but_last P es h)
    | inr room ↦ rw room (p, h)
  ]

  pub AllEntries-set :
      (P : K → V → Type 0) (limit : ℕ) (k : K) (v : V) (es : List (K × V))
      → P k v
      → AllEntries P es
      → AllEntries P (set limit k v es)
  unfolding set
  AllEntries-set P limit k v es p h = AllEntries-stored P limit k v (find k es) es p h

  -- A value that is found was stored with its key.
  pub find-AllEntries :
      (P : K → V → Type 0) (k : K) (v : V) (es : List (K × V))
      → ((i j : K) → eq i j ≡ true → i ≡ j)
      → AllEntries P es
      → find k es ≡ some v
      → P k v
  unfolding find
  find-AllEntries P k v [] sound h e = cc
  find-AllEntries P k v ((j, w) ∷ es) sound h e = elim (Bool-cases (eq j k)) [
    | inl hit ↦
        let wv : some w ≡ some v = rw hit at e in
        let wv' : w ≡ v = cc in subst₂ P (sound j k hit) wv' h.0
    | inr miss ↦ find-AllEntries P k v es sound h.1 (rw miss at e)
  ]

  pub get_exists-hit :
      (k : K) (v : V) (es : List (K × V))
      → find k es ≡ some v
      → get_exists k es ≡ (some v, touch k v es)
  unfolding get_exists
  get_exists-hit k v es h = ap (looked k es) h

  pub get_exists-miss :
      (k : K) (es : List (K × V)) → find k es ≡ none → get_exists k es ≡ (none, es)
  unfolding get_exists
  get_exists-miss k es h = ap (looked k es) h

  pub set-miss :
      (limit : ℕ) (k : K) (v : V) (es : List (K × V))
      → find k es ≡ none
      → set limit k v es ≡ (k, v) ∷ (if length es == limit then but_last es else es)
  unfolding set
  set-miss limit k v es h = ap (λ o. stored limit k v o es) h

  pub set-hit :
      (limit : ℕ) (k : K) (v w : V) (es : List (K × V))
      → find k es ≡ some w
      → set limit k v es ≡ touch k v es
  unfolding set
  set-hit limit k v w es h = ap (λ o. stored limit k v o es) h
