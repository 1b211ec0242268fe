-- ===== src/Lru/Cache/Storing.antt =====
-- Del and Set of lib/lru/lru.go against the list of entries.
use daze.Base.{
  ℕ, suc, ◌+◌, ◌-◌, ◌<◌, ◌≡◌, ◌↔◌, refl, sym, ap, ◌∙◌, Bool, true, false, none, some, List, [], ◌∷◌,
  ◌++◌, arith, ok, length, if◌then◌else◌, Bool-cases, Option-cases, inl, inr, ◌==◌, append-nil,
  ==_iff,
}
use mathlib.Core.Path.{subst, fun_ext}
use daze.Lru.Ring.{prev_last, last_of}
use daze.Lru.Recency
use daze.Lru.Recency.{but_last}
use daze.Lru.Cache.{Lru, put_at, del, del_at, insert, make_room, evict_at, remove_at, add}
use daze.Lru.Cache.Moves.{Listed, remove-Removed, link-Linked}
use daze.Lru.Cache.Keys.{
  entries, length-entries, but_last-entries, entries-put_at, place-Split, remove-entries,
  NotKey-place, place-put_at, remove_absent, NotKey-put_at, DistinctKeys-put_at,
}
use daze.Lru.Cache.Agreement.{Holds, view, Agrees, Holds-drop, AllBelow-suc, AllBelow-NotIn}

pub put_at_self : {A : Type 0} (f : ℕ → A) (e : ℕ) (a : A) → put_at f e a e ≡ a
put_at_self f e a = let same : (e == e) ≡ true = ground arith in rw same

pub put_at_same : {A : Type 0} (f : ℕ → A) (e : ℕ) (a : A) → f e ≡ a → put_at f e a ≡ f
put_at_same f e a h = fun_ext λ b. elim (Bool-cases (b == e)) [
  | inl hit ↦ let be : b ≡ e = (==_iff b e).0 hit in rw hit (sym h ∙ ap f (sym be))
  | inr miss ↦ rw miss refl
]

last_of_append : (a : ℕ) (ys : List ℕ) (x : ℕ) → last_of a (ys ++ x ∷ []) ≡ x
last_of_append a [] x = refl
last_of_append a (y ∷ ys) x = last_of_append y ys x

-- A list with an element has a last one.
split_last : (xs : List ℕ) → 0 < length xs → (ys : List ℕ) × (x : ℕ) × (xs ≡ ys ++ x ∷ [])
split_last [] h = absurd (omega arith)
split_last (x ∷ []) h = ([], x, refl)
split_last (x ∷ y ∷ xs) h =
    let r = split_last (y ∷ xs) (omega arith) in (x ∷ r.0, r.1, ap (◌∷◌ x) r.2)

module _ {K V : Type 0} (eq : K → K → Bool) (eq_iff : (j k : K) → (eq j k ≡ true) ↔ (j ≡ k)) where
  pub del-Agrees :
      (s : Lru K V) (k : K) (xs : List ℕ)
      → Holds eq eq_iff s xs
      → Agrees eq eq_iff s (del eq k s) tt (Recency.del eq k (view eq eq_iff s xs))
  unfolding del del_at Recency.del
  del-Agrees s k xs h = elim (Option-cases (s.index k)) [
    | inl i ↦ record {
      s' = s;
      xs' = xs;
      run = rw i;
      holds = h;
      viewed = sym (
          remove_absent eq eq_iff s.key s.value k xs
            (NotKey-place eq eq_iff s.key k xs (sym (h.indexed k) ∙ i)));
      limit_same = refl;
    }
    | inr (x, i) ↦
        let p = place-Split eq eq_iff s.key k x xs (sym (h.indexed k) ∙ i) in
        let whole : Holds eq eq_iff s (p.ys ++ x ∷ p.zs) = subst (Holds eq eq_iff s) p.whole h in
        let m = remove-Removed s p.ys x p.zs whole.listed in
        record {
          s' = record s {
            next = m.nx;
            prev = m.pv;
            size = s.size - 1;
            index = λ j. if eq k j then none else s.index j;
          };
          xs' = p.ys ++ p.zs;
          run = rw (i, m.run);
          holds =
              subst
                (λ q.
                  Holds eq eq_iff
                    (record s {
                      next = m.nx;
                      prev = m.pv;
                      size = s.size - 1;
                      index = λ j. if eq q j then none else s.index j;
                    })
                    (p.ys ++ p.zs))
                p.same (Holds-drop eq eq_iff s m.nx m.pv p.ys x p.zs whole m.listed);
          viewed = sym (
              ap (λ l. Recency.remove eq k (entries s.key s.value l)) p.whole
              ∙ remove-entries eq eq_iff s.key s.value k p.ys x p.zs p.same p.before);
          limit_same = refl;
        }
  ]

  -- The cache once there is room for one more.
  pub record Roomy (s : Lru K V) (xs : List ℕ) : Type 0 where
    pub s' : Lru K V
    pub xs' : List ℕ
    pub run : make_room eq s ≡ (ok tt, s')
    pub holds : Holds eq eq_iff s' xs'
    pub viewed : view eq eq_iff s' xs' ≡ (
        if length (view eq eq_iff s xs) == s.limit
        then but_last (view eq eq_iff s xs)
        else view eq eq_iff s xs)
    pub free : s'.size < s'.limit
    pub limit_same : s'.limit ≡ s.limit
    pub absent : (k : K) → s.index k ≡ none → s'.index k ≡ none

  evict_Roomy :
      (s : Lru K V) (ys : List ℕ) (x : ℕ)
      → Holds eq eq_iff s (ys ++ x ∷ [])
      → s.size ≡ s.limit
      → Roomy s (ys ++ x ∷ [])
  unfolding make_room evict_at remove_at
  evict_Roomy s ys x h full =
      let xs = ys ++ x ∷ [] in
      let s1 : Lru K V = record s { index = λ j. if eq (s.key x) j then none else s.index j } in
      let listed : Listed s1 xs = record {
        ring = h.listed.ring;
        distinct = h.listed.distinct;
        rootless = h.listed.rootless;
      } in
      let m = remove-Removed s1 ys x [] listed in
      let at_limit : (s.size == s.limit) ≡ true = ground (arith, full) in
      let prev : s.prev 0 ≡ some x =
        prev_last s.next s.prev 0 xs 0 h.listed.ring ∙ ap some (last_of_append 0 ys x) in
      let counted : length (view eq eq_iff s xs) ≡ s.limit =
        length-entries s.key s.value xs ∙ sym h.sized ∙ full in
      let all : (length (view eq eq_iff s xs) == s.limit) ≡ true = ground (arith, counted) in
      record {
        s' = record s1 { next = m.nx; prev = m.pv; size = s.size - 1 };
        xs' = ys ++ [];
        run = rw (at_limit, prev, prev, m.run);
        holds = Holds-drop eq eq_iff s m.nx m.pv ys x [] h (record {
          ring = m.listed.ring;
          distinct = m.listed.distinct;
          rootless = m.listed.rootless;
        });
        viewed = rw all (
            ap (entries s.key s.value) (append-nil ys) ∙ sym (but_last-entries s.key s.value ys x));
        free = omega (arith, full, h.room);
        limit_same = refl;
        absent =
            λ k e. elim (Bool-cases (eq (s.key x) k)) [ inl hit ↦ rw hit | inr miss ↦ rw miss e ];
      }

  pub make_room-Roomy : (s : Lru K V) (xs : List ℕ) → Holds eq eq_iff s xs → Roomy s xs
  unfolding make_room
  make_room-Roomy s xs h = elim (Bool-cases (s.size == s.limit)) [
    | inl all ↦
        let full : s.size ≡ s.limit = (==_iff s.size s.limit).0 all in
        let l = split_last xs (omega (arith, h.sized, h.room, full)) in
        subst (Roomy s) (sym l.2) (evict_Roomy s l.0 l.1 (subst (Holds eq eq_iff s) l.2 h) full)
    | inr few ↦
        let size : length (view eq eq_iff s xs) ≡ s.size =
          length-entries s.key s.value xs ∙ sym h.sized in
        let fewer : (length (view eq eq_iff s xs) == s.limit) ≡ false = rw size few in
        record {
          s' = s;
          xs' = xs;
          run = rw few;
          holds = h;
          viewed = rw fewer refl;
          free = ground (arith, h.fits, few);
          limit_same = refl;
          absent = λ k e. e;
        }
  ]

  -- A new element in front.
  pub record Added (s : Lru K V) (k : K) (v : V) (xs : List ℕ) : Type 0 where
    pub s' : Lru K V
    pub run : add eq k v s ≡ (ok tt, s')
    pub holds : Holds eq eq_iff s' (s.made ∷ xs)
    pub viewed : view eq eq_iff s' (s.made ∷ xs) ≡ (k, v) ∷ view eq eq_iff s xs
    pub limit_same : s'.limit ≡ s.limit

  pub add_lem :
      (s : Lru K V) (k : K) (v : V) (xs : List ℕ)
      → Holds eq eq_iff s xs
      → s.size < s.limit
      → s.index k ≡ none
      → Added s k v xs
  unfolding add insert
  add_lem s k v xs h free fresh =
      let e = s.made in
      let out = AllBelow-NotIn e xs h.below in
      let key' = put_at s.key e k in
      let value' = put_at s.value e v in
      let s1 : Lru K V = record s { key = key'; value = value'; made = suc e } in
      let m =
        link-Linked s1 xs e
          (record {
            ring = h.listed.ring;
            distinct = h.listed.distinct;
            rootless = h.listed.rootless;
          })
          (λ z. omega (arith, h.begun, z)) out in
      let others = NotKey-place eq eq_iff s.key k xs (sym (h.indexed k) ∙ fresh) in
      record {
        s' = record s1 {
          next = m.nx;
          prev = m.pv;
          size = s.size + 1;
          index = λ j. if eq k j then some e else s.index j;
        };
        run = rw m.run;
        holds = record {
          listed = record {
            ring = m.listed.ring;
            distinct = m.listed.distinct;
            rootless = m.listed.rootless;
          };
          below = (omega arith, AllBelow-suc e xs h.below);
          begun = omega arith;
          sized = omega (arith, h.sized);
          fits = omega (arith, free);
          room = h.room;
          keys = (
            rw (put_at_self s.key e k) (NotKey-put_at eq eq_iff s.key e k k xs out others),
            DistinctKeys-put_at eq eq_iff s.key e k xs out h.keys,
          );
          indexed = λ j.
              rw (put_at_self s.key e k, place-put_at eq eq_iff s.key e k j xs out, h.indexed j);
        };
        viewed = rw (
          put_at_self s.key e k,
          put_at_self s.value e v,
          entries-put_at s.key s.value e k v xs out,
        );
        limit_same = refl;
      }
