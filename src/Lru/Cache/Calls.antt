-- ===== src/Lru/Cache/Calls.antt =====
-- Set against the list of entries, and any run of calls of lib/lru/lru.go.
use daze.Base.{
  ℕ, suc, ◌≡◌, ◌↔◌, refl, sym, ap, ◌∙◌, Bool, true, Option, none, some, List, [], ◌∷◌, arith, ok,
  panic, length, Option-cases, inl, inr,
}
use daze.Base.State.{St, pure, ◌>>=◌, ◌>>◌, and_then-pure, and_then-pure_state}
use mathlib.Core.Path.{subst}
use daze.Lru.Ring.{write_self}
use daze.Lru.Recency
use daze.Lru.Cache.{
  Lru, new, put_at, set, set_at, get_exists, del, len, make_room, evict_at, remove_at, remove,
  unlink, set_next, set_prev, add, insert, link,
}
use daze.Lru.Cache.Keys.{entries, place, DistinctKeys, entries-put_at, length-entries}
use daze.Lru.Cache.Agreement.{Holds, view, Agrees, touch_lem, found_lem, get_exists-Agrees}
use daze.Lru.Cache.Storing.{del-Agrees, make_room-Roomy, add_lem, put_at_self, put_at_same}

module _ {K V : Type 0} (eq : K → K → Bool) (eq_iff : (j k : K) → (eq j k ≡ true) ↔ (j ≡ k)) where
  Holds-fill :
      (s : Lru K V) (x : ℕ) (k : K) (g : ℕ → V) (xs : List ℕ)
      → Holds eq eq_iff s xs
      → s.key x ≡ k
      → Holds eq eq_iff (record s { key = put_at s.key x k; value = g }) xs
  Holds-fill s x k g xs h e =
      let same = sym (put_at_same s.key x k e) in
      record {
        listed = record {
          ring = h.listed.ring;
          distinct = h.listed.distinct;
          rootless = h.listed.rootless;
        };
        below = h.below;
        begun = h.begun;
        sized = h.sized;
        fits = h.fits;
        room = h.room;
        keys = subst (λ f. DistinctKeys eq eq_iff f xs) same h.keys;
        indexed = λ j. h.indexed j ∙ ap (λ f. place eq eq_iff f j xs) same;
      }

  pub set-Agrees :
      (s : Lru K V) (k : K) (v : V) (xs : List ℕ)
      → Holds eq eq_iff s xs
      → Agrees eq eq_iff s (set eq k v s) tt (Recency.set eq s.limit k v (view eq eq_iff s xs))
  unfolding set set_at
  set-Agrees s k v xs h = elim (Option-cases (s.index k)) [
    | inl i ↦
        let r = make_room-Roomy eq eq_iff s xs h in
        let a = add_lem eq eq_iff r.s' k v r.xs' r.holds r.free (r.absent k i) in
        record {
          s' = a.s';
          xs' = r.s'.made ∷ r.xs';
          run = rw (i, r.run) a.run;
          holds = a.holds;
          viewed =
              a.viewed
              ∙ ap (◌∷◌ (k, v)) r.viewed
              ∙ sym (
                  Recency.set-miss eq s.limit k v (view eq eq_iff s xs)
                    (found_lem eq eq_iff s k none xs h i));
          limit_same = a.limit_same ∙ r.limit_same;
        }
    | inr (x, i) ↦
        let t = touch_lem eq eq_iff s k x xs h i in
        let g = put_at t.s'.value x v in
        let kept : t.s'.key x ≡ k = ap (λ f. f x) t.same_key ∙ t.key_k in
        record {
          s' = record t.s' { key = put_at t.s'.key x k; value = g };
          xs' = x ∷ t.rest;
          run = rw (i, t.run);
          holds = Holds-fill t.s' x k g (x ∷ t.rest) t.holds kept;
          viewed =
              ap (λ l. (put_at t.s'.key x k x, g x) ∷ l)
                (entries-put_at t.s'.key t.s'.value x k v t.rest t.holds.listed.distinct.0)
              ∙ ap (λ l. (put_at t.s'.key x k x, g x) ∷ l)
                  (ap (λ f. entries f t.s'.value t.rest) t.same_key
                    ∙ ap (λ f. entries s.key f t.rest) t.same_value
                    ∙ sym t.removed)
              ∙ rw (put_at_self t.s'.key x k, put_at_self t.s'.value x v)
                  (sym (
                    Recency.set-hit eq s.limit k v (s.value x) (view eq eq_iff s xs)
                      (found_lem eq eq_iff s k (some x) xs h i)));
          limit_same = t.same_limit;
        }
  ]

-- The calls, and what they return.
pub data Call (K V : Type 0) : Type 0 where
  store : K → V → Call K V
  look : K → Call K V
  drop_key : K → Call K V
  count : Call K V

pub data Answer (V : Type 0) : Type 0 where
  done : Answer V
  value : Option V → Answer V
  size : ℕ → Answer V

module _ {K V : Type 0} (eq : K → K → Bool) where
  unfoldable pub call : Call K V → St (Lru K V) (Answer V)
  call (store k v) = do set eq k v; pure done
  call (look k) = do o ← get_exists eq k; pure (value o)
  call (drop_key k) = do del eq k; pure done
  call count = do n ← len; pure (size n)

  unfoldable pub run_calls : List (Call K V) → St (Lru K V) (List (Answer V))
  unfolding call
  run_calls [] = pure []
  run_calls (c ∷ cs) = do a ← call c; answers ← run_calls cs; pure (a ∷ answers)

  -- The same on a list of entries.
  unfoldable pub listed_call : ℕ → Call K V → List (K × V) → Answer V × List (K × V)
  listed_call limit (store k v) es = (done, Recency.set eq limit k v es)
  listed_call limit (look k) es = (value (Recency.find eq k es), (Recency.get_exists eq k es).1)
  listed_call limit (drop_key k) es = (done, Recency.del eq k es)
  listed_call limit count es = (size (length es), es)

  unfoldable pub listed_calls : ℕ → List (Call K V) → List (K × V) → List (Answer V)
  unfolding listed_call
  listed_calls limit [] es = []
  listed_calls limit (c ∷ cs) es =
      let one = listed_call limit c es in one.0 ∷ listed_calls limit cs one.1

module _ {K V : Type 0} (eq : K → K → Bool) (eq_iff : (j k : K) → (eq j k ≡ true) ↔ (j ≡ k)) where
  call-Agrees :
      (s : Lru K V) (c : Call K V) (xs : List ℕ)
      → Holds eq eq_iff s xs
      → Agrees eq eq_iff s
          (call eq c s)
          (listed_call eq s.limit c (view eq eq_iff s xs)).0
          (listed_call eq s.limit c (view eq eq_iff s xs)).1
  unfolding call listed_call len
  call-Agrees s (store k v) xs h =
      let a = set-Agrees eq eq_iff s k v xs h in
      record {
        s' = a.s';
        xs' = a.xs';
        run = rw a.run;
        holds = a.holds;
        viewed = a.viewed;
        limit_same = a.limit_same;
      }
  call-Agrees s (look k) xs h =
      let a = get_exists-Agrees eq eq_iff s k xs h in
      record {
        s' = a.s';
        xs' = a.xs';
        run = rw a.run;
        holds = a.holds;
        viewed = a.viewed;
        limit_same = a.limit_same;
      }
  call-Agrees s (drop_key k) xs h =
      let a = del-Agrees eq eq_iff s k xs h in
      record {
        s' = a.s';
        xs' = a.xs';
        run = rw a.run;
        holds = a.holds;
        viewed = a.viewed;
        limit_same = a.limit_same;
      }
  call-Agrees s count xs h =
      let n : s.size ≡ length (view eq eq_iff s xs) =
        h.sized ∙ sym (length-entries s.key s.value xs) in
      record {
        s' = s;
        xs' = xs;
        run = ap (λ m. (ok (size m), s)) n;
        holds = h;
        viewed = refl;
        limit_same = refl;
      }

  -- A cache in order, with its list of elements.
  pub record Held (s : Lru K V) : Type 0 where
    pub xs : List ℕ
    pub holds : Holds eq eq_iff s xs

  run_calls-Agrees :
      (s : Lru K V) (cs : List (Call K V)) (xs : List ℕ)
      → Holds eq eq_iff s xs
      → ((run_calls eq cs s).0 ≡ ok (listed_calls eq s.limit cs (view eq eq_iff s xs)))
        × Held (run_calls eq cs s).1
  unfolding run_calls listed_calls
  run_calls-Agrees s [] xs h = (refl, record { xs = xs; holds = h })
  run_calls-Agrees s (c ∷ cs) xs h =
      let a = call-Agrees s c xs h in
      let ih = run_calls-Agrees a.s' cs a.xs' a.holds in
      let one = listed_call eq s.limit c (view eq eq_iff s xs) in
      let rest : (run_calls eq cs a.s').0 ≡ ok (listed_calls eq s.limit cs one.1) =
        ih.0
        ∙ ap (λ n. ok (listed_calls eq n cs (view eq eq_iff a.s' a.xs'))) a.limit_same
        ∙ ap (λ es. ok (listed_calls eq s.limit cs es)) a.viewed in
      (
        rw a.run (
            and_then-pure (run_calls eq cs a.s') (λ l. one.0 ∷ l) (listed_calls eq s.limit cs one.1)
              rest),
        rw a.run
            (subst Held (sym (and_then-pure_state (run_calls eq cs a.s') (λ l. one.0 ∷ l))) ih.1),
      )

  new-Holds : (zk : K) (zv : V) (limit : ℕ) → Holds eq eq_iff (new zk zv (suc limit)) []
  unfolding new
  new-Holds zk zv limit = record {
    listed = record {
      ring = (write_self (λ a. none) 0 (some 0), write_self (λ a. none) 0 (some 0));
      distinct = tt;
      rootless = tt;
    };
    below = tt;
    begun = omega arith;
    sized = refl;
    fits = omega arith;
    room = omega arith;
    keys = tt;
    indexed = λ k. refl;
  }

  -- Whatever is asked of a new cache of any size but zero, by Set, GetExists, Del and Len in any
  -- order, nothing panics, and the answers are those of a list of entries, the last used first, of
  -- which Set drops the last where the cache is full; the pointers and the map stay in order.
  pub run_calls-new :
      (zk : K) (zv : V) (limit : ℕ) (cs : List (Call K V))
      → ((run_calls eq cs (new zk zv (suc limit))).0 ≡ ok (listed_calls eq (suc limit) cs []))
        × Held (run_calls eq cs (new zk zv (suc limit))).1
  unfolding new
  run_calls-new zk zv limit cs =
      run_calls-Agrees (new zk zv (suc limit)) cs [] (new-Holds zk zv limit)

-- The first Set on a cache of size zero is a panic: it takes the root out of its own list.
pub set_size_zero :
    {K V : Type 0} (eq : K → K → Bool) (zk k : K) (zv v : V) → (set eq k v (new zk zv 0)).0 ≡ panic
unfolding set set_at new make_room evict_at remove_at remove unlink set_next set_prev add insert
    link
set_size_zero eq zk k zv v = refl
