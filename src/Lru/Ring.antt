-- ===== src/Lru/Ring.antt =====
-- Doubly linked rings, for lib/lru/lru.go's List: from one element the Next pointers lead through
-- others to a last one, and the Prev pointers back. An element is its address; `none` is nil.
use daze.Base.{ℕ, ◌≡◌, ◌≢◌, sym, ◌∙◌, Option, some, List, [], ◌∷◌, ◌++◌, arith, ◌==◌, if◌then◌else◌}

abbrev pub Links : Type 0
Links = ℕ → Option ℕ

-- A pointer written.
abbrev pub write : Links → ℕ → Option ℕ → Links
write f a v = λ b. if b == a then v else f b

pub write_self : (f : Links) (a : ℕ) (v : Option ℕ) → write f a v a ≡ v
write_self f a v = ground arith

pub write_ne : (f : Links) (a b : ℕ) (v : Option ℕ) → b ≢ a → write f a v b ≡ f b
write_ne f a b v h = ground (arith, h)

abbrev pub NotIn : ℕ → List ℕ → Type 0
NotIn a [] = Unit
NotIn a (x ∷ xs) = (a ≢ x) × NotIn a xs

abbrev pub Distinct : List ℕ → Type 0
Distinct [] = Unit
Distinct (x ∷ xs) = NotIn x xs × Distinct xs

abbrev pub Ring : Links → Links → ℕ → List ℕ → ℕ → Type 0
Ring nx pv a [] b = (nx a ≡ some b) × (pv b ≡ some a)
Ring nx pv a (x ∷ xs) b = (nx a ≡ some x) × (pv x ≡ some a) × Ring nx pv x xs b

-- The last of `a` and `xs`, and the first of `xs` and `b`.
abbrev pub last_of : ℕ → List ℕ → ℕ
last_of a [] = a
last_of a (x ∷ xs) = last_of x xs

abbrev pub first_of : List ℕ → ℕ → ℕ
first_of [] b = b
first_of (x ∷ xs) b = x

pub NotIn-append-left : (a : ℕ) (xs ys : List ℕ) → NotIn a (xs ++ ys) → NotIn a xs
NotIn-append-left a [] ys h = tt
NotIn-append-left a (x ∷ xs) ys h = (h.0, NotIn-append-left a xs ys h.1)

pub NotIn-append-right : (a : ℕ) (xs ys : List ℕ) → NotIn a (xs ++ ys) → NotIn a ys
NotIn-append-right a [] ys h = h
NotIn-append-right a (x ∷ xs) ys h = NotIn-append-right a xs ys h.1

pub NotIn-append : (a : ℕ) (xs ys : List ℕ) → NotIn a xs → NotIn a ys → NotIn a (xs ++ ys)
NotIn-append a [] ys h k = k
NotIn-append a (x ∷ xs) ys h k = (h.0, NotIn-append a xs ys h.1 k)

-- Without one of the elements.
pub NotIn-drop :
    (a : ℕ) (ys : List ℕ) (x : ℕ) (zs : List ℕ) → NotIn a (ys ++ x ∷ zs) → NotIn a (ys ++ zs)
NotIn-drop a [] x zs h = h.1
NotIn-drop a (y ∷ ys) x zs h = (h.0, NotIn-drop a ys x zs h.1)

pub Distinct-drop :
    (ys : List ℕ) (x : ℕ) (zs : List ℕ) → Distinct (ys ++ x ∷ zs) → Distinct (ys ++ zs)
Distinct-drop [] x zs h = h.1
Distinct-drop (y ∷ ys) x zs h = (NotIn-drop y ys x zs h.0, Distinct-drop ys x zs h.1)

pub Distinct-middle :
    (ys : List ℕ) (x : ℕ) (zs : List ℕ) → Distinct (ys ++ x ∷ zs) → NotIn x (ys ++ zs)
Distinct-middle [] x zs h = h.0
Distinct-middle (y ∷ ys) x zs h =
    (λ e. (NotIn-append-right y ys (x ∷ zs) h.0).0 (sym e), Distinct-middle ys x zs h.1)

pub last_of-ne : (c a : ℕ) (ys : List ℕ) → c ≢ a → NotIn c ys → c ≢ last_of a ys
last_of-ne c a [] h k = h
last_of-ne c a (y ∷ ys) h k = last_of-ne c y ys k.0 k.1

pub first_of-ne : (c : ℕ) (zs : List ℕ) (b : ℕ) → NotIn c zs → c ≢ b → c ≢ first_of zs b
first_of-ne c [] b h k = k
first_of-ne c (z ∷ zs) b h k = h.0

module _ (nx pv : Links) where
  -- The neighbours of an element.
  pub prev-eq :
      (a : ℕ) (ys : List ℕ) (x : ℕ) (zs : List ℕ) (b : ℕ)
      → Ring nx pv a (ys ++ x ∷ zs) b
      → pv x ≡ some (last_of a ys)
  prev-eq a [] x zs b r = r.1
  prev-eq a (y ∷ ys) x zs b r = prev-eq y ys x zs b r.2

  pub next_first : (a : ℕ) (xs : List ℕ) (b : ℕ) → Ring nx pv a xs b → nx a ≡ some (first_of xs b)
  next_first a [] b r = r.0
  next_first a (x ∷ xs) b r = r.0

  pub prev_last : (a : ℕ) (xs : List ℕ) (b : ℕ) → Ring nx pv a xs b → pv b ≡ some (last_of a xs)
  prev_last a [] b r = r.1
  prev_last a (x ∷ xs) b r = prev_last x xs b r.2

  pub next-eq :
      (a : ℕ) (ys : List ℕ) (x : ℕ) (zs : List ℕ) (b : ℕ)
      → Ring nx pv a (ys ++ x ∷ zs) b
      → nx x ≡ some (first_of zs b)
  next-eq a [] x zs b r = next_first x zs b r.2
  next-eq a (y ∷ ys) x zs b r = next-eq y ys x zs b r.2

  -- Writes elsewhere leave a ring alone.
  pub Ring-write_next :
      (c : ℕ) (v : Option ℕ) (a : ℕ) (xs : List ℕ) (b : ℕ)
      → a ≢ c
      → NotIn c xs
      → Ring nx pv a xs b
      → Ring (write nx c v) pv a xs b
  Ring-write_next c v a [] b h k r = (write_ne nx c a v h ∙ r.0, r.1)
  Ring-write_next c v a (x ∷ xs) b h k r =
      (write_ne nx c a v h ∙ r.0, r.1, Ring-write_next c v x xs b (λ e. k.0 (sym e)) k.1 r.2)

  pub Ring-write_prev :
      (c : ℕ) (v : Option ℕ) (a : ℕ) (xs : List ℕ) (b : ℕ)
      → b ≢ c
      → NotIn c xs
      → Ring nx pv a xs b
      → Ring nx (write pv c v) a xs b
  Ring-write_prev c v a [] b h k r = (r.0, write_ne pv c b v h ∙ r.1)
  Ring-write_prev c v a (x ∷ xs) b h k r =
      (r.0, write_ne pv c x v (λ e. k.0 (sym e)) ∙ r.1, Ring-write_prev c v x xs b h k.1 r.2)
