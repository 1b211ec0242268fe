-- ===== src/Lru/Cache/Keys.antt =====
-- The entries that a list of elements stands for, and where a key is among them.
use daze.Base.{
  ℕ, suc, ◌≡◌, ◌≢◌, ◌↔◌, refl, sym, ap, ◌∙◌, Bool, true, false, Option, none, some, List, [], ◌∷◌,
  ◌++◌, arith, length, if◌then◌else◌, Bool-cases, inl, inr, ◌==◌,
}
use mathlib.Core.Path.{subst}
use daze.Lru.Ring.{NotIn}
use daze.Lru.Cache.{put_at}
use daze.Lru.Recency
use daze.Lru.Recency.{but_last}

module _ {K V : Type 0} where
  abbrev pub entries : (ℕ → K) → (ℕ → V) → List ℕ → List (K × V)
  entries key value [] = []
  entries key value (x ∷ xs) = (key x, value x) ∷ entries key value xs

  pub length-entries :
      (key : ℕ → K) (value : ℕ → V) (xs : List ℕ) → length (entries key value xs) ≡ length xs
  length-entries key value [] = refl
  length-entries key value (x ∷ xs) = ap suc (length-entries key value xs)

  pub entries-append :
      (key : ℕ → K) (value : ℕ → V) (ys zs : List ℕ)
      → entries key value (ys ++ zs) ≡ entries key value ys ++ entries key value zs
  entries-append key value [] zs = refl
  entries-append key value (y ∷ ys) zs = ap (◌∷◌ (key y, value y)) (entries-append key value ys zs)

  pub but_last-entries :
      (key : ℕ → K) (value : ℕ → V) (ys : List ℕ) (x : ℕ)
      → but_last (entries key value (ys ++ x ∷ [])) ≡ entries key value ys
  unfolding but_last
  but_last-entries key value [] x = refl
  but_last-entries key value (y ∷ []) x = refl
  but_last-entries key value (y ∷ z ∷ ys) x =
      ap (◌∷◌ (key y, value y)) (but_last-entries key value (z ∷ ys) x)

  -- Writes to an element that is not in the list.
  pub entries-put_at :
      (key : ℕ → K) (value : ℕ → V) (e : ℕ) (k : K) (v : V) (xs : List ℕ)
      → NotIn e xs
      → entries (put_at key e k) (put_at value e v) xs ≡ entries key value xs
  entries-put_at key value e k v [] h = refl
  entries-put_at key value e k v (x ∷ xs) h =
      let other : (x == e) ≡ false = ground (arith, h.0) in
      rw (other, entries-put_at key value e k v xs h.1)

module _ {K : Type 0} (eq : K → K → Bool) (eq_iff : (j k : K) → (eq j k ≡ true) ↔ (j ≡ k)) where
  -- The element with key `k`.
  abbrev pub place : (ℕ → K) → K → List ℕ → Option ℕ
  place key k [] = none
  place key k (x ∷ xs) = if eq (key x) k then some x else place key k xs

  abbrev pub NotKey : (ℕ → K) → K → List ℕ → Type 0
  NotKey key k [] = Unit
  NotKey key k (x ∷ xs) = (key x ≢ k) × NotKey key k xs

  abbrev pub DistinctKeys : (ℕ → K) → List ℕ → Type 0
  DistinctKeys key [] = Unit
  DistinctKeys key (x ∷ xs) = NotKey key (key x) xs × DistinctKeys key xs

  abbrev pub value_at : {V : Type 0} → (ℕ → V) → Option ℕ → Option V
  value_at value none = none
  value_at value (some x) = some (value x)

  pub eq-false : (j k : K) → j ≢ k → eq j k ≡ false
  eq-false j k h = elim (Bool-cases (eq j k)) [
    | inl same ↦ absurd (h ((eq_iff j k).0 same))
    | inr other ↦ other
  ]

  pub find-entries :
      {V : Type 0} (key : ℕ → K) (value : ℕ → V) (k : K) (xs : List ℕ)
      → Recency.find eq k (entries key value xs) ≡ value_at value (place key k xs)
  unfolding Recency.find
  find-entries key value k [] = refl
  find-entries key value k (x ∷ xs) = elim (Bool-cases (eq (key x) k)) [
    | inl hit ↦ rw hit
    | inr miss ↦ rw miss (find-entries key value k xs)
  ]

  -- Where a key that is there stands: before it are other keys.
  pub record Split (key : ℕ → K) (k : K) (x : ℕ) (xs : List ℕ) : Type 0 where
    pub ys : List ℕ
    pub zs : List ℕ
    pub whole : xs ≡ ys ++ x ∷ zs
    pub same : key x ≡ k
    pub before : NotKey key k ys

  pub place-Split :
      (key : ℕ → K) (k : K) (x : ℕ) (xs : List ℕ) → place key k xs ≡ some x → Split key k x xs
  place-Split key k x [] h = cc
  place-Split key k x (y ∷ xs) h = elim (Bool-cases (eq (key y) k)) [
    | inl hit ↦
        let yx : some y ≡ some x = rw hit at h in
        let y_x : y ≡ x = cc in
        record {
          ys = [];
          zs = xs;
          whole = ap (λ a. a ∷ xs) y_x;
          same = ap key (sym y_x) ∙ (eq_iff (key y) k).0 hit;
          before = tt;
        }
    | inr miss ↦
        let later : place key k xs ≡ some x = rw miss at h in
        let s = place-Split key k x xs later in
        record {
          ys = y ∷ s.ys;
          zs = s.zs;
          whole = ap (◌∷◌ y) s.whole;
          same = s.same;
          before = ((λ e. cc ((eq_iff (key y) k).1 e)), s.before);
        }
  ]

  pub remove-entries :
      {V : Type 0} (key : ℕ → K) (value : ℕ → V) (k : K) (ys : List ℕ) (x : ℕ) (zs : List ℕ)
      → key x ≡ k
      → NotKey key k ys
      → Recency.remove eq k (entries key value (ys ++ x ∷ zs)) ≡ entries key value (ys ++ zs)
  unfolding Recency.remove
  remove-entries key value k [] x zs h n = rw ((eq_iff (key x) k).1 h)
  remove-entries key value k (y ∷ ys) x zs h n =
      rw (eq-false (key y) k n.0, remove-entries key value k ys x zs h n.1)

  pub place-NotKey : (key : ℕ → K) (k : K) (xs : List ℕ) → NotKey key k xs → place key k xs ≡ none
  place-NotKey key k [] h = refl
  place-NotKey key k (x ∷ xs) h = rw (eq-false (key x) k h.0, place-NotKey key k xs h.1)

  pub NotKey-place : (key : ℕ → K) (k : K) (xs : List ℕ) → place key k xs ≡ none → NotKey key k xs
  NotKey-place key k [] h = tt
  NotKey-place key k (x ∷ xs) h = elim (Bool-cases (eq (key x) k)) [
    | inl hit ↦ let no_way : some x ≡ none = rw hit at h in cc
    | inr miss ↦ ((λ e. cc ((eq_iff (key x) k).1 e)), NotKey-place key k xs (rw miss at h))
  ]

  pub NotKey-drop :
      (key : ℕ → K) (k : K) (ys : List ℕ) (x : ℕ) (zs : List ℕ)
      → NotKey key k (ys ++ x ∷ zs)
      → (key x ≢ k) × NotKey key k (ys ++ zs)
  NotKey-drop key k [] x zs h = h
  NotKey-drop key k (y ∷ ys) x zs h = let r = NotKey-drop key k ys x zs h.1 in (r.0, (h.0, r.1))

  -- The keys of a list without one of its elements, and that element's own.
  pub DistinctKeys-drop :
      (key : ℕ → K) (ys : List ℕ) (x : ℕ) (zs : List ℕ)
      → DistinctKeys key (ys ++ x ∷ zs)
      → NotKey key (key x) (ys ++ zs) × DistinctKeys key (ys ++ zs)
  DistinctKeys-drop key [] x zs h = h
  DistinctKeys-drop key (y ∷ ys) x zs h =
      let r = DistinctKeys-drop key ys x zs h.1 in
      let n = NotKey-drop key (key y) ys x zs h.0 in ((λ e. n.0 (sym e), r.0), (n.1, r.1))

  -- The order of distinct keys does not matter to a search.
  pub place-move :
      (key : ℕ → K) (j : K) (ys : List ℕ) (x : ℕ) (zs : List ℕ)
      → DistinctKeys key (ys ++ x ∷ zs)
      → place key j (ys ++ x ∷ zs) ≡ place key j (x ∷ (ys ++ zs))
  place-move key j [] x zs h = refl
  place-move key j (y ∷ ys) x zs h = elim (Bool-cases (eq (key y) j)) [
    | inl hit ↦
        let ny : key x ≢ key y = (NotKey-drop key (key y) ys x zs h.0).0 in
        let other : eq (key x) j ≡ false =
          eq-false (key x) j (λ e. ny (e ∙ sym ((eq_iff (key y) j).0 hit))) in
        rw (hit, other)
    | inr miss ↦ rw (miss, place-move key j ys x zs h.1)
  ]

  pub place-put_at :
      (key : ℕ → K) (e : ℕ) (k j : K) (xs : List ℕ)
      → NotIn e xs
      → place (put_at key e k) j xs ≡ place key j xs
  place-put_at key e k j [] h = refl
  place-put_at key e k j (x ∷ xs) h =
      let other : (x == e) ≡ false = ground (arith, h.0) in
      rw (other, place-put_at key e k j xs h.1)

  pub place_without :
      (key : ℕ → K) (j : K) (ys : List ℕ) (x : ℕ) (zs : List ℕ)
      → DistinctKeys key (ys ++ x ∷ zs)
      → (if eq (key x) j then none else place key j (ys ++ x ∷ zs)) ≡ place key j (ys ++ zs)
  place_without key j ys x zs d = elim (Bool-cases (eq (key x) j)) [
    | inl hit ↦
        let gone : place key j (ys ++ zs) ≡ none = place-NotKey key j (ys ++ zs) (
          subst (λ k. NotKey key k (ys ++ zs)) ((eq_iff (key x) j).0 hit)
            (DistinctKeys-drop key ys x zs d).0) in
        rw (hit, gone)
    | inr miss ↦
        let moved = place-move key j ys x zs d in
        let rest : place key j (ys ++ x ∷ zs) ≡ place key j (ys ++ zs) = rw miss at moved in
        rw (miss, rest)
  ]

  pub remove_absent :
      {V : Type 0} (key : ℕ → K) (value : ℕ → V) (k : K) (xs : List ℕ)
      → NotKey key k xs
      → Recency.remove eq k (entries key value xs) ≡ entries key value xs
  unfolding Recency.remove
  remove_absent key value k [] h = refl
  remove_absent key value k (x ∷ xs) h =
      rw (eq-false (key x) k h.0, remove_absent key value k xs h.1)

  pub NotKey-put_at :
      (key : ℕ → K) (e : ℕ) (k j : K) (xs : List ℕ)
      → NotIn e xs
      → NotKey key j xs
      → NotKey (put_at key e k) j xs
  NotKey-put_at key e k j [] h n = tt
  NotKey-put_at key e k j (x ∷ xs) h n =
      let other : (x == e) ≡ false = ground (arith, h.0) in
      (rw other n.0, NotKey-put_at key e k j xs h.1 n.1)

  pub DistinctKeys-put_at :
      (key : ℕ → K) (e : ℕ) (k : K) (xs : List ℕ)
      → NotIn e xs
      → DistinctKeys key xs
      → DistinctKeys (put_at key e k) xs
  DistinctKeys-put_at key e k [] h n = tt
  DistinctKeys-put_at key e k (x ∷ xs) h n =
      let other : (x == e) ≡ false = ground (arith, h.0) in
      (rw other (NotKey-put_at key e k (key x) xs h.1 n.0), DistinctKeys-put_at key e k xs h.1 n.1)
