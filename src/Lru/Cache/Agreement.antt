-- ===== src/Lru/Cache/Agreement.antt =====
-- That Set, GetExists and Del of lib/lru/lru.go, pointers and map, do what they do to a list of
-- entries, the last used first.
use daze.Base.{
  ℕ, suc, ◌-◌, ◌≤◌, ◌<◌, ◌≡◌, ◌↔◌, refl, sym, ap, ◌∙◌, Bool, true, Option, none, some, List, [],
  ◌∷◌, ◌++◌, arith, Outcome, ok, length, if◌then◌else◌, Option-cases, inl, inr,
}
use mathlib.Core.Path.{subst}
use daze.Lru.Ring.{NotIn}
use daze.Lru.Recency
use daze.Lru.Cache.{Lru, get_exists, get_at, update}
use daze.Lru.Cache.Moves.{Listed, relinked, update-Moved}
use daze.Lru.Cache.Keys.{
  entries, place, DistinctKeys, value_at, find-entries, place-Split, remove-entries,
  DistinctKeys-drop, place-move, place_without,
}

-- Elements that have been made.
abbrev pub AllBelow : ℕ → List ℕ → Type 0
AllBelow n [] = Unit
AllBelow n (x ∷ xs) = (x < n) × AllBelow n xs

AllBelow-drop :
    (n : ℕ) (ys : List ℕ) (x : ℕ) (zs : List ℕ)
    → AllBelow n (ys ++ x ∷ zs)
    → (x < n) × AllBelow n (ys ++ zs)
AllBelow-drop n [] x zs h = h
AllBelow-drop n (y ∷ ys) x zs h = let r = AllBelow-drop n ys x zs h.1 in (r.0, (h.0, r.1))

pub AllBelow-suc : (n : ℕ) (xs : List ℕ) → AllBelow n xs → AllBelow (suc n) xs
AllBelow-suc n [] h = tt
AllBelow-suc n (x ∷ xs) h = (omega (arith, h.0), AllBelow-suc n xs h.1)

pub AllBelow-NotIn : (n : ℕ) (xs : List ℕ) → AllBelow n xs → NotIn n xs
AllBelow-NotIn n [] h = tt
AllBelow-NotIn n (x ∷ xs) h = (omega (arith, h.0), AllBelow-NotIn n xs h.1)

length-drop_one :
    (ys : List ℕ) (x : ℕ) (zs : List ℕ) → length (ys ++ x ∷ zs) ≡ suc (length (ys ++ zs))
length-drop_one [] x zs = refl
length-drop_one (y ∷ ys) x zs = ap suc (length-drop_one ys x zs)

module _ {K V : Type 0} (eq : K → K → Bool) (eq_iff : (j k : K) → (eq j k ≡ true) ↔ (j ≡ k)) where
  -- The cache's invariant: its list is `xs`, and its map finds just the elements of the list.
  pub record Holds (s : Lru K V) (xs : List ℕ) : Type 0 where
    pub listed : Listed s xs
    pub below : AllBelow s.made xs
    pub begun : 0 < s.made
    pub sized : s.size ≡ length xs
    pub fits : s.size ≤ s.limit
    pub room : 0 < s.limit
    pub keys : DistinctKeys eq eq_iff s.key xs
    pub indexed : (k : K) → s.index k ≡ place eq eq_iff s.key k xs

  -- The entries of the cache, the last used first.
  abbrev pub view : Lru K V → List ℕ → List (K × V)
  view s xs = entries s.key s.value xs

  -- An operation that has returned `a` and left the entries `es`.
  pub record Agrees {A : Type 0} (s : Lru K V) (out : Outcome A × Lru K V) (a : A)
      (es : List (K × V)) : Type 0 where
    pub s' : Lru K V
    pub xs' : List ℕ
    pub run : out ≡ (ok a, s')
    pub holds : Holds s' xs'
    pub viewed : view s' xs' ≡ es
    pub limit_same : s'.limit ≡ s.limit

  -- A hit: the element moves to the front.
  pub record Touched (s : Lru K V) (x : ℕ) (k : K) (xs : List ℕ) : Type 0 where
    pub s' : Lru K V
    pub rest : List ℕ
    pub run : update x s ≡ (ok tt, s')
    pub holds : Holds s' (x ∷ rest)
    pub same_key : s'.key ≡ s.key
    pub same_value : s'.value ≡ s.value
    pub same_limit : s'.limit ≡ s.limit
    pub key_k : s.key x ≡ k
    pub removed : Recency.remove eq k (view s xs) ≡ entries s.key s.value rest

  pub touch_lem :
      (s : Lru K V) (k : K) (x : ℕ) (xs : List ℕ)
      → Holds s xs
      → s.index k ≡ some x
      → Touched s x k xs
  touch_lem s k x xs h i =
      let p = place-Split eq eq_iff s.key k x xs (sym (h.indexed k) ∙ i) in
      let whole : Listed s (p.ys ++ x ∷ p.zs) = subst (Listed s) p.whole h.listed in
      let keys : DistinctKeys eq eq_iff s.key (p.ys ++ x ∷ p.zs) =
        subst (DistinctKeys eq eq_iff s.key) p.whole h.keys in
      let below : AllBelow s.made (p.ys ++ x ∷ p.zs) = subst (AllBelow s.made) p.whole h.below in
      let size : s.size ≡ length (p.ys ++ x ∷ p.zs) = h.sized ∙ ap length p.whole in
      let m = update-Moved s p.ys x p.zs whole in
      record {
        s' = relinked s m.nx m.pv;
        rest = p.ys ++ p.zs;
        run = m.run;
        holds = record {
          listed = m.listed;
          below = AllBelow-drop s.made p.ys x p.zs below;
          begun = h.begun;
          sized = size ∙ length-drop_one p.ys x p.zs;
          fits = h.fits;
          room = h.room;
          keys = DistinctKeys-drop eq eq_iff s.key p.ys x p.zs keys;
          indexed = λ j.
              h.indexed j
              ∙ ap (place eq eq_iff s.key j) p.whole
              ∙ place-move eq eq_iff s.key j p.ys x p.zs keys;
        };
        same_key = refl;
        same_value = refl;
        same_limit = refl;
        key_k = p.same;
        removed =
            ap (λ l. Recency.remove eq k (entries s.key s.value l)) p.whole
            ∙ remove-entries eq eq_iff s.key s.value k p.ys x p.zs p.same p.before;
      }

  -- What the list of entries says of a key, by what the map says.
  pub found_lem :
      (s : Lru K V) (k : K) (o : Option ℕ) (xs : List ℕ)
      → Holds s xs
      → s.index k ≡ o
      → Recency.find eq k (view s xs) ≡ value_at eq eq_iff s.value o
  found_lem s k o xs h i =
      find-entries eq eq_iff s.key s.value k xs
      ∙ ap (value_at eq eq_iff s.value) (sym (h.indexed k) ∙ i)

  -- The entry of the element that has moved to the front.
  Touched-view :
      (s : Lru K V) (x : ℕ) (k : K) (xs : List ℕ) (t : Touched s x k xs)
      → view t.s' (x ∷ t.rest) ≡ Recency.touch eq k (s.value x) (view s xs)
  Touched-view s x k xs t =
      ap (λ f. entries f t.s'.value (x ∷ t.rest)) t.same_key
      ∙ ap (λ g. entries s.key g (x ∷ t.rest)) t.same_value
      ∙ rw (t.key_k, t.removed)

  pub get_exists-Agrees :
      (s : Lru K V) (k : K) (xs : List ℕ)
      → Holds s xs
      → Agrees s
          (get_exists eq k s)
          (Recency.find eq k (view s xs))
          (Recency.get_exists eq k (view s xs)).1
  unfolding get_exists get_at
  get_exists-Agrees s k xs h = elim (Option-cases (s.index k)) [
    | inl i ↦
        let miss = found_lem s k none xs h i in
        record {
          s' = s;
          xs' = xs;
          run = rw (i, miss);
          holds = h;
          viewed = ap (λ r. r.1) (sym (Recency.get_exists-miss eq k (view s xs) miss));
          limit_same = refl;
        }
    | inr (x, i) ↦
        let hit = found_lem s k (some x) xs h i in
        let t = touch_lem s k x xs h i in
        record {
          s' = t.s';
          xs' = x ∷ t.rest;
          run = rw (i, t.run, t.same_value, hit);
          holds = t.holds;
          viewed =
              Touched-view s x k xs t
              ∙ ap (λ r. r.1) (sym (Recency.get_exists-hit eq k (s.value x) (view s xs) hit));
          limit_same = t.same_limit;
        }
  ]

  -- An element out of the list and out of the map.
  pub record Dropped (s : Lru K V) (ys : List ℕ) (x : ℕ) (zs : List ℕ)
      (out : Outcome (Unit {0}) × Lru K V) : Type 0 where
    pub s' : Lru K V
    pub run : out ≡ (ok tt, s')
    pub holds : Holds s' (ys ++ zs)
    pub same_key : s'.key ≡ s.key
    pub same_value : s'.value ≡ s.value
    pub same_limit : s'.limit ≡ s.limit
    pub smaller : s'.size < s'.limit
    pub same_made : s'.made ≡ s.made

  -- The state of the map without a key, before and after the list is changed.
  abbrev unindexed : K → Lru K V → Lru K V
  unindexed k s = record s { index = λ j. if eq k j then none else s.index j }

  pub Holds-drop :
      (s : Lru K V) (nx pv : ℕ → Option ℕ) (ys : List ℕ) (x : ℕ) (zs : List ℕ)
      → Holds s (ys ++ x ∷ zs)
      → Listed (relinked s nx pv) (ys ++ zs)
      → Holds
          (record s {
            next = nx;
            prev = pv;
            size = s.size - 1;
            index = λ j. if eq (s.key x) j then none else s.index j;
          })
          (ys ++ zs)
  Holds-drop s nx pv ys x zs h l = record {
    listed = record { ring = l.ring; distinct = l.distinct; rootless = l.rootless };
    below = (AllBelow-drop s.made ys x zs h.below).1;
    begun = h.begun;
    sized = omega (arith, h.sized, length-drop_one ys x zs);
    fits = omega (arith, h.fits);
    room = h.room;
    keys = (DistinctKeys-drop eq eq_iff s.key ys x zs h.keys).1;
    indexed = λ j.
        ap (λ o. if eq (s.key x) j then none else o) (h.indexed j)
        ∙ place_without eq eq_iff s.key j ys x zs h.keys;
  }
