-- ===== src/Lru/Cache.antt =====
-- lib/lru/lru.go with its pointers: the elements lie in a store and are named by their addresses,
-- the root of the list by 0; `none` is nil, and using it is a panic. `eq` is Go's == on the keys.
-- What the mutex guards is one step. Size is a count from 0 on: where Remove would take it below
-- (on the root of an empty list, in a cache of size zero) Set panics in its next line.
pub mod Moves
pub mod Keys
pub mod Agreement
pub mod Storing
pub mod Calls
use daze.Base.{
  ℕ, suc, ◌+◌, ◌-◌, Bool, false, Option, none, some, Outcome, ok, panic, ◌==◌, if◌then◌else◌,
}
use daze.Base.State.{St, pure, crash, get_state, ◌>>=◌, ◌>>◌}
use daze.Lru.Ring.{Links, write}

-- `Lru` with its `List` and the fields of all `Elem`s.
pub record Lru (K V : Type 0) : Type 0 where
  pub next : Links
  pub prev : Links
  pub key : ℕ → K
  pub value : ℕ → V
  pub made : ℕ  -- the address that the next element gets
  pub size : ℕ  -- List.Size
  pub limit : ℕ  -- Lru.Size
  pub index : K → Option ℕ  -- Lru.C

-- A field of one element written.
abbrev pub put_at : {A : Type 0} → (ℕ → A) → ℕ → A → ℕ → A
put_at f a v b = if b == a then v else f b

unfoldable pub is_first : Option ℕ → ℕ → Bool
is_first none e = false
is_first (some a) e = a == e

module _ {K V : Type 0} where
  -- `New`; the root's key and value are the zero values of their types.
  unfoldable pub new : K → V → ℕ → Lru K V
  new zero_k zero_v limit = record {
    next = write (λ a. none) 0 (some 0);
    prev = write (λ a. none) 0 (some 0);
    key = λ a. zero_k;
    value = λ a. zero_v;
    made = 1;
    size = 0;
    limit = limit;
    index = λ k. none;
  }

  -- `p.Next = v` and `p.Prev = v`.
  unfoldable pub set_next : Option ℕ → Option ℕ → St (Lru K V) (Unit {0})
  set_next none v s = (panic, s)
  set_next (some a) v s = (ok tt, record s { next = write s.next a v })

  unfoldable pub set_prev : Option ℕ → Option ℕ → St (Lru K V) (Unit {0})
  set_prev none v s = (panic, s)
  set_prev (some a) v s = (ok tt, record s { prev = write s.prev a v })

  abbrev pub next_of : ℕ → St (Lru K V) (Option ℕ)
  next_of e s = (ok (s.next e), s)

  abbrev pub prev_of : ℕ → St (Lru K V) (Option ℕ)
  prev_of e s = (ok (s.prev e), s)

  abbrev pub resize : (ℕ → ℕ) → St (Lru K V) (Unit {0})
  resize f s = (ok tt, record s { size = f s.size })

  -- The four writes of Insert.
  unfoldable pub link : ℕ → St (Lru K V) (Unit {0})
  unfolding set_next set_prev
  link e = do
    set_prev (some e) (some 0)
    first ← next_of 0
    set_next (some e) first
    p ← prev_of e
    set_next p (some e)
    n ← next_of e
    set_prev n (some e)

  -- `e.Prev.Next = e.Next` and `e.Next.Prev = e.Prev`.
  unfoldable pub unlink : ℕ → St (Lru K V) (Unit {0})
  unfolding set_next set_prev
  unlink e = do
    p ← prev_of e
    n ← next_of e
    set_next p n
    n' ← next_of e
    p' ← prev_of e
    set_prev n' p'

  -- `List.Insert`
  unfoldable pub insert : ℕ → St (Lru K V) (Unit {0})
  unfolding link
  insert e = do link e; resize (λ n. n + 1)

  -- `List.Update`
  unfoldable pub update : ℕ → St (Lru K V) (Unit {0})
  unfolding link unlink is_first
  update e = do first ← next_of 0; if is_first first e then pure tt else (do unlink e; link e)

  -- `List.Remove`
  unfoldable pub remove : ℕ → St (Lru K V) (Unit {0})
  unfolding unlink set_next set_prev
  remove e = do unlink e; set_prev (some e) none; set_next (some e) none; resize (λ n. n - 1)

  -- `Lru.Len`
  unfoldable pub len : St (Lru K V) ℕ
  len s = (ok s.size, s)

module _ {K V : Type 0} (eq : K → K → Bool) where
  -- `l.C[k] = e` and `delete(l.C, k)`.
  abbrev pub set_index : K → Option ℕ → St (Lru K V) (Unit {0})
  set_index k o s = (ok tt, record s { index = λ j. if eq k j then o else s.index j })

  abbrev pub index_of : K → St (Lru K V) (Option ℕ)
  index_of k s = (ok (s.index k), s)

  abbrev pub fill : ℕ → K → V → St (Lru K V) (Unit {0})
  fill e k v s = (ok tt, record s { key = put_at s.key e k; value = put_at s.value e v })

  -- `&Elem{K: k, V: v}`
  abbrev pub alloc : K → V → St (Lru K V) ℕ
  alloc k v s = (
    ok s.made,
    record s { key = put_at s.key s.made k; value = put_at s.value s.made v; made = suc s.made },
  )

  -- The last element out of the map and the list.
  unfoldable pub remove_at : Option ℕ → St (Lru K V) (Unit {0})
  unfolding remove
  remove_at none = crash
  remove_at (some x) = remove x

  unfoldable pub evict_at : Option ℕ → St (Lru K V) (Unit {0})
  unfolding remove_at
  evict_at none = crash
  evict_at (some e) = do s ← get_state; set_index (s.key e) none; last ← prev_of 0; remove_at last

  unfoldable pub make_room : St (Lru K V) (Unit {0})
  unfolding evict_at
  make_room = do s ← get_state; if s.size == s.limit then evict_at (s.prev 0) else pure tt

  -- `l.C[k] = l.List.Insert(&Elem{K: k, V: v})`
  unfoldable pub add : K → V → St (Lru K V) (Unit {0})
  unfolding insert
  add k v = do e ← alloc k v; insert e; set_index k (some e)

  -- `Lru.Set`, for what the map says of the key.
  unfoldable pub set_at : Option ℕ → K → V → St (Lru K V) (Unit {0})
  unfolding update make_room add
  set_at (some e) k v = do update e; fill e k v
  set_at none k v = do make_room; add k v

  unfoldable pub set : K → V → St (Lru K V) (Unit {0})
  unfolding set_at
  set k v = do o ← index_of k; set_at o k v

  -- `Lru.GetExists`: the value, `none` where the key is not there.
  unfoldable pub get_at : Option ℕ → St (Lru K V) (Option V)
  unfolding update
  get_at none = pure none
  get_at (some e) = do update e; s ← get_state; pure (some (s.value e))

  unfoldable pub get_exists : K → St (Lru K V) (Option V)
  unfolding get_at
  get_exists k = do o ← index_of k; get_at o

  abbrev or_zero : V → Option V → V
  or_zero zv none = zv
  or_zero zv (some v) = v

  -- `Get`, where `zv` is the zero value.
  unfoldable pub get : V → K → St (Lru K V) V
  get zv k = do o ← get_exists k; pure (or_zero zv o)

  -- `Lru.Del`
  unfoldable pub del_at : Option ℕ → K → St (Lru K V) (Unit {0})
  unfolding remove
  del_at none k = pure tt
  del_at (some e) k = do remove e; set_index k none

  unfoldable pub del : K → St (Lru K V) (Unit {0})
  unfolding del_at
  del k = do o ← index_of k; del_at o k
