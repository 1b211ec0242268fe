-- ===== src/Lru/Cache/Moves.antt =====
-- Insert, Update and Remove of lib/lru/lru.go on a list whose pointers are in order.
use daze.Base.{
  ℕ, ◌-◌, ◌≡◌, ◌≢◌, sym, ◌∙◌, none, some, true, false, List, [], ◌∷◌, ◌++◌, ok, arith, ◌==◌,
}
use daze.Lru.Ring.{
  Links, write, write_self, write_ne, NotIn, Distinct, Ring, last_of, first_of, NotIn-append-left,
  NotIn-append-right, last_of-ne, NotIn-drop, Distinct-drop, Distinct-middle, prev-eq, next-eq,
  next_first, Ring-write_next, Ring-write_prev,
}
use daze.Lru.Relink.{Ring-unlink, Ring-link}
use daze.Lru.Cache.{Lru, link, unlink, remove, update, set_next, set_prev, is_first}

-- What Insert's writes make of the pointers, and what taking out does.
abbrev linked_next : Links → List ℕ → ℕ → Links
linked_next nx xs e = write (write nx e (some (first_of xs 0))) 0 (some e)

abbrev linked_prev : Links → List ℕ → ℕ → Links
linked_prev pv xs e = write (write pv e (some 0)) (first_of xs 0) (some e)

module _ {K V : Type 0} where
  -- The list of the cache is `xs`, from the root and back to it.
  pub record Listed (s : Lru K V) (xs : List ℕ) : Type 0 where
    pub ring : Ring s.next s.prev 0 xs 0
    pub distinct : Distinct xs
    pub rootless : NotIn 0 xs

  -- The pointers alone are changed.
  abbrev pub relinked : Lru K V → Links → Links → Lru K V
  relinked s nx pv = record s { next = nx; prev = pv }

  link_lem :
      (s : Lru K V) (xs : List ℕ) (e : ℕ)
      → s.next 0 ≡ some (first_of xs 0)
      → e ≢ 0
      → link e s ≡ (ok tt, relinked s (linked_next s.next xs e) (linked_prev s.prev xs e))
  unfolding link set_next set_prev
  link_lem s xs e h ne =
      let nx = write s.next e (some (first_of xs 0)) in
      let found : write nx 0 (some e) e ≡ some (first_of xs 0) =
        write_ne nx 0 e (some e) ne ∙ write_self s.next e (some (first_of xs 0)) in
      rw (h, write_self s.prev e (some 0), found)

  unlink_lem :
      (s : Lru K V) (p n e : ℕ)
      → s.prev e ≡ some p
      → s.next e ≡ some n
      → p ≢ e
      → unlink e s ≡ (ok tt, relinked s (write s.next p (some n)) (write s.prev n (some p)))
  unfolding unlink set_next set_prev
  unlink_lem s p n e hp hn ne =
      let still : write s.next p (s.next e) e ≡ some n =
        write_ne s.next p e (s.next e) (λ h. ne (sym h)) ∙ hn in
      rw (hp, still, hp, hn)

  NotIn-ends :
      (s : Lru K V) (ys : List ℕ) (x : ℕ) (zs : List ℕ)
      → Listed s (ys ++ x ∷ zs)
      → (0 ≢ x) × (x ≢ last_of 0 ys) × NotIn x (ys ++ zs)
  NotIn-ends s ys x zs l =
      let apart = Distinct-middle ys x zs l.distinct in
      let rootless = (NotIn-append-right 0 ys (x ∷ zs) l.rootless).0 in
      (rootless, last_of-ne x 0 ys (λ e. rootless (sym e)) (NotIn-append-left x ys zs apart), apart)

  -- An element taken out, and the pointers that it keeps.
  pub record Unlinked (s : Lru K V) (ys : List ℕ) (x : ℕ) (zs : List ℕ) : Type 0 where
    pub nx : Links
    pub pv : Links
    pub run : unlink x s ≡ (ok tt, relinked s nx pv)
    pub listed : Listed (relinked s nx pv) (ys ++ zs)

  pub unlink-Unlinked :
      (s : Lru K V) (ys : List ℕ) (x : ℕ) (zs : List ℕ)
      → Listed s (ys ++ x ∷ zs)
      → Unlinked s ys x zs
  unlink-Unlinked s ys x zs l =
      let ends = NotIn-ends s ys x zs l in
      record {
        nx = write s.next (last_of 0 ys) (some (first_of zs 0));
        pv = write s.prev (first_of zs 0) (some (last_of 0 ys));
        run =
            unlink_lem s (last_of 0 ys) (first_of zs 0) x (prev-eq s.next s.prev 0 ys x zs 0 l.ring)
              (next-eq s.next s.prev 0 ys x zs 0 l.ring) (λ e. ends.1 (sym e));
        listed = record {
          ring = Ring-unlink s.next s.prev 0 ys x zs 0 l.ring l.rootless l.rootless l.distinct;
          distinct = Distinct-drop ys x zs l.distinct;
          rootless = NotIn-drop 0 ys x zs l.rootless;
        };
      }

  pub record Linked (s : Lru K V) (e : ℕ) (xs : List ℕ) : Type 0 where
    pub nx : Links
    pub pv : Links
    pub run : link e s ≡ (ok tt, relinked s nx pv)
    pub listed : Listed (relinked s nx pv) (e ∷ xs)

  pub link-Linked :
      (s : Lru K V) (xs : List ℕ) (e : ℕ) → Listed s xs → e ≢ 0 → NotIn e xs → Linked s e xs
  link-Linked s xs e l ne out = record {
    nx = linked_next s.next xs e;
    pv = linked_prev s.prev xs e;
    run = link_lem s xs e (next_first s.next s.prev 0 xs 0 l.ring) ne;
    listed = record {
      ring = Ring-link s.next s.prev 0 xs 0 e l.ring l.rootless l.rootless l.distinct ne ne out;
      distinct = (out, l.distinct);
      rootless = ((λ h. ne (sym h)), l.rootless);
    };
  }

  -- `x` moved to the front.
  pub record Moved (s : Lru K V) (x : ℕ) (rest : List ℕ) : Type 0 where
    pub nx : Links
    pub pv : Links
    pub run : update x s ≡ (ok tt, relinked s nx pv)
    pub listed : Listed (relinked s nx pv) (x ∷ rest)

  pub update-Moved :
      (s : Lru K V) (ys : List ℕ) (x : ℕ) (zs : List ℕ)
      → Listed s (ys ++ x ∷ zs)
      → Moved s x (ys ++ zs)
  unfolding update is_first
  update-Moved s [] x zs l =
      let first : (x == x) ≡ true = ground arith in
      record { nx = s.next; pv = s.prev; run = rw (l.ring.0, first); listed = l }
  update-Moved s (y ∷ ys) x zs l =
      let ends = NotIn-ends s (y ∷ ys) x zs l in
      let later : (y == x) ≡ false = ground (arith, ends.2.0) in
      let u = unlink-Unlinked s (y ∷ ys) x zs l in
      let m =
        link-Linked (relinked s u.nx u.pv) (y ∷ (ys ++ zs)) x u.listed (λ e. ends.0 (sym e))
          ends.2 in
      record { nx = m.nx; pv = m.pv; run = rw (l.ring.0, later, u.run) m.run; listed = m.listed }

  -- `x` taken out for good.
  pub record Removed (s : Lru K V) (x : ℕ) (rest : List ℕ) : Type 0 where
    pub nx : Links
    pub pv : Links
    pub run : remove x s ≡ (ok tt, record s { next = nx; prev = pv; size = s.size - 1 })
    pub listed : Listed (relinked s nx pv) rest

  pub remove-Removed :
      (s : Lru K V) (ys : List ℕ) (x : ℕ) (zs : List ℕ)
      → Listed s (ys ++ x ∷ zs)
      → Removed s x (ys ++ zs)
  unfolding remove set_next set_prev
  remove-Removed s ys x zs l =
      let ends = NotIn-ends s ys x zs l in
      let u = unlink-Unlinked s ys x zs l in
      record {
        nx = write u.nx x none;
        pv = write u.pv x none;
        run = rw u.run;
        listed = record {
          ring =
              Ring-write_next u.nx (write u.pv x none) x none 0 (ys ++ zs) 0 ends.0 ends.2
                (Ring-write_prev u.nx u.pv x none 0 (ys ++ zs) 0 ends.0 ends.2 u.listed.ring);
          distinct = u.listed.distinct;
          rootless = u.listed.rootless;
        };
      }
