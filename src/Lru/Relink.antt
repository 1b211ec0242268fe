-- ===== src/Lru/Relink.antt =====
-- What lib/lru/lru.go's Insert, Update and Remove do to a ring: an element taken out of its place,
-- and one put in behind the first.
use daze.Base.{ℕ, ◌≢◌, sym, ◌∙◌, some, List, [], ◌∷◌, ◌++◌}
use daze.Lru.Ring.{
  Links, write, write_self, write_ne, NotIn, Distinct, Ring, last_of, first_of, NotIn-append-left,
  NotIn-append-right, last_of-ne, first_of-ne, Ring-write_next, Ring-write_prev,
}

module _ (nx pv : Links) where
  -- `e.Prev.Next = e.Next` and `e.Next.Prev = e.Prev` for the element `x` between `ys` and `zs`.
  pub Ring-unlink :
      (a : ℕ) (ys : List ℕ) (x : ℕ) (zs : List ℕ) (b : ℕ)
      → Ring nx pv a (ys ++ x ∷ zs) b
      → NotIn a (ys ++ x ∷ zs)
      → NotIn b (ys ++ x ∷ zs)
      → Distinct (ys ++ x ∷ zs)
      → Ring
          (write nx (last_of a ys) (some (first_of zs b)))
          (write pv (first_of zs b) (some (last_of a ys)))
          a
          (ys ++ zs)
          b
  Ring-unlink a [] x [] b r na nb d = (write_self nx a (some b), write_self pv b (some a))
  Ring-unlink a [] x (z ∷ zs) b r na nb d = (
    write_self nx a (some z),
    write_self pv z (some a),
    Ring-write_next nx (write pv z (some a)) a (some z) z zs b (λ e. na.1.0 (sym e)) na.1.1
        (Ring-write_prev nx pv z (some a) z zs b nb.1.0 d.1.0 r.2.2),
  )
  Ring-unlink a (y ∷ ys) x zs b r na nb d = (
    write_ne nx (last_of y ys) a (some (first_of zs b))
          (last_of-ne a y ys na.0 (NotIn-append-left a ys (x ∷ zs) na.1))
        ∙ r.0,
    write_ne pv (first_of zs b) y (some (last_of y ys))
          (first_of-ne y zs b (NotIn-append-right y ys (x ∷ zs) d.0).1 (λ e. nb.0 (sym e)))
        ∙ r.1,
    Ring-unlink y ys x zs b r.2 d.0 nb.1 d.1,
  )

  -- Insert's four writes for an element `e` that is in no ring: behind `a`.
  pub Ring-link :
      (a : ℕ) (xs : List ℕ) (b e : ℕ)
      → Ring nx pv a xs b
      → NotIn a xs
      → NotIn b xs
      → Distinct xs
      → e ≢ a
      → e ≢ b
      → NotIn e xs
      → Ring
          (write (write nx e (some (first_of xs b))) a (some e))
          (write (write pv e (some a)) (first_of xs b) (some e))
          a
          (e ∷ xs)
          b
  Ring-link a [] b e r na nb d ea eb ne = (
    write_self (write nx e (some b)) a (some e),
    write_ne (write pv e (some a)) b e (some e) eb ∙ write_self pv e (some a),
    (
      write_ne (write nx e (some b)) a e (some e) ea ∙ write_self nx e (some b),
      write_self (write pv e (some a)) b (some e),
    ),
  )
  Ring-link a (x ∷ xs) b e r na nb d ea eb ne = (
    write_self (write nx e (some x)) a (some e),
    write_ne (write pv e (some a)) x e (some e) ne.0 ∙ write_self pv e (some a),
    (
      write_ne (write nx e (some x)) a e (some e) ea ∙ write_self nx e (some x),
      write_self (write pv e (some a)) x (some e),
      Ring-write_next (write nx e (some x)) (write (write pv e (some a)) x (some e)) a (some e) x xs
          b (λ h. na.0 (sym h)) na.1
          (Ring-write_next nx (write (write pv e (some a)) x (some e)) e (some x) x xs b
            (λ h. ne.0 (sym h)) ne.1
            (Ring-write_prev nx (write pv e (some a)) x (some e) x xs b nb.0 d.0
              (Ring-write_prev nx pv e (some a) x xs b (λ h. eb (sym h)) ne.1 r.2))),
    ),
  )
