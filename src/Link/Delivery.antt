-- ===== src/Link/Delivery.antt =====
-- What Link of daze.go delivers.
use daze.Base.{
  ℕ, ◌≡◌, ◌≢◌, ◌⊎◌, inl, inr, refl, sym, ap, ◌∙◌, Bool, true, false, List, ◌∷◌, ◌++◌, append_assoc,
  append-nil,
}
use daze.Link.{
  Phase, copying, copied, finished, Lane, Links, Turn, chunk, write_error, end_of_file, read_error,
  Step, forth, back, close_b, close_a, Reached, begin, later, IsOver,
}

-- The bytes written are the first of those sent; while the copying goes on, those to come are the
-- others.
pub record Carries (sent : List ℕ) (l : Lane) : Type 0 where
  pub rest : List ℕ
  pub order : sent ≡ l.written ++ rest
  pub next : l.phase ≡ copying → rest ≡ l.coming

-- The copying has ended and has written all.
abbrev pub Whole : List ℕ → Lane → Type 0
Whole sent l = (l.phase ≢ copying) × (sent ≡ l.written)

-- Which connection is closed, and that the first copying to end has written all.
pub record InOrder (from_a from_b : List ℕ) (s : Links) : Type 0 where
  pub forth_ok : Carries from_a s.to_b
  pub back_ok : Carries from_b s.to_a
  pub b_shut : s.b_closed ≡ true → s.to_b.phase ≢ copying
  pub a_shut : s.a_closed ≡ true → s.to_a.phase ≢ copying
  pub b_end : s.to_b.phase ≡ finished → s.b_closed ≡ true
  pub a_end : s.to_a.phase ≡ finished → s.a_closed ≡ true
  pub one_whole :
      (s.to_b.phase ≡ copying) × (s.to_a.phase ≡ copying)
      ⊎ Whole from_a s.to_b
      ⊎ Whole from_b s.to_a

turn-Carries :
    {sent : List ℕ} {l l' : Lane} {source target : Bool}
    → Turn l source target l'
    → Carries sent l
    → Carries sent l'
turn-Carries {sent} {l} (chunk x xs rest live c) k = record {
  rest = rest;
  order =
      k.order
      ∙ ap (λ r. l.written ++ r) (k.next live ∙ c)
      ∙ sym (append_assoc l.written (x ∷ xs) rest);
  next = λ h. refl;
}
turn-Carries (write_error x xs rest live c) k = record {
  rest = k.rest;
  order = k.order;
  next = λ h. cc;
}
turn-Carries (end_of_file live c e) k = record { rest = k.rest; order = k.order; next = λ h. cc }
turn-Carries (read_error live) k = record { rest = k.rest; order = k.order; next = λ h. cc }

-- A lane that has taken a turn was copying; it goes on, or has written all, or a connection was
-- closed.
data After (sent : List ℕ) (l : Lane) : Bool → Bool → Lane → Type 0 where
  goes_on : {l' : Lane} → l'.phase ≡ copying → After sent l false false l'
  all_written : {l' : Lane} {target : Bool} → Whole sent l' → After sent l false target l'
  no_target : {l' : Lane} → l'.phase ≢ copying → After sent l false true l'
  no_source : {l' : Lane} {target : Bool} → l'.phase ≢ copying → After sent l true target l'

turn-After :
    {sent : List ℕ} {l l' : Lane} {source target : Bool}
    → Turn l source target l'
    → Carries sent l
    → After sent l source target l'
turn-After (chunk x xs rest live c) k = goes_on live
turn-After (write_error x xs rest live c) k = no_target (λ h. cc)
turn-After {sent} {l} (end_of_file live c e) k =
    all_written
      ((λ h. cc), k.order ∙ ap (λ r. l.written ++ r) (k.next live ∙ c) ∙ append-nil l.written)
turn-After (read_error live) k = no_source (λ h. cc)

turn-copying : {l l' : Lane} {source target : Bool} → Turn l source target l' → l.phase ≡ copying
turn-copying (chunk x xs rest live c) = live
turn-copying (write_error x xs rest live c) = live
turn-copying (end_of_file live c e) = live
turn-copying (read_error live) = live

-- The lane that has taken a turn, and the other one.
all_of_one-After :
    (sent others : List ℕ) (l l' m : Lane) (source target : Bool)
    → l.phase ≡ copying
    → After sent l source target l'
    → (source ≡ true → m.phase ≢ copying)
    → (target ≡ true → l.phase ≢ copying)
    → (l.phase ≡ copying) × (m.phase ≡ copying) ⊎ Whole sent l ⊎ Whole others m
    → (l'.phase ≡ copying) × (m.phase ≡ copying) ⊎ Whole sent l' ⊎ Whole others m
all_of_one-After sent others l l' m source target live a hs ht (inr (inr w)) = inr (inr w)
all_of_one-After sent others l l' m source target live a hs ht (inr (inl w)) = absurd (w.0 live)
all_of_one-After sent others l l' m source target live (goes_on h) hs ht (inl both) =
    inl (h, both.1)
all_of_one-After sent others l l' m source target live (all_written w) hs ht (inl both) =
    inr (inl w)
all_of_one-After sent others l l' m source target live (no_target h) hs ht (inl both) =
    absurd (ht refl live)
all_of_one-After sent others l l' m source target live (no_source h) hs ht (inl both) =
    absurd (hs refl both.1)

turn-ne-finished :
    {l l' : Lane} {source target : Bool} → Turn l source target l' → l'.phase ≢ finished
turn-ne-finished {l} (chunk x xs rest live c) h = cc
turn-ne-finished (write_error x xs rest live c) h = cc
turn-ne-finished (end_of_file live c e) h = cc
turn-ne-finished (read_error live) h = cc

other_way : {A B C D : Type 0} → (A × B) ⊎ C ⊎ D → (B × A) ⊎ D ⊎ C
other_way (inl (a, b)) = inl (b, a)
other_way (inr (inl c)) = inr (inr c)
other_way (inr (inr d)) = inr (inl d)

stopped : {p : Phase} → p ≡ copied → p ≢ copying
stopped h e = cc

Step-InOrder :
    {from_a from_b : List ℕ} {s t : Links}
    → Step s t
    → InOrder from_a from_b s
    → InOrder from_a from_b t
Step-InOrder {from_a} {from_b} {s} (forth l t) o = record {
  forth_ok = turn-Carries t o.forth_ok;
  back_ok = o.back_ok;
  b_shut = λ h. absurd (o.b_shut h (turn-copying t));
  a_shut = o.a_shut;
  b_end = λ h. absurd (turn-ne-finished t h);
  a_end = o.a_end;
  one_whole =
      all_of_one-After from_a from_b s.to_b l s.to_a s.a_closed s.b_closed (turn-copying t)
        (turn-After t o.forth_ok) o.a_shut o.b_shut o.one_whole;
}
Step-InOrder {from_a} {from_b} {s} (back l t) o = record {
  forth_ok = o.forth_ok;
  back_ok = turn-Carries t o.back_ok;
  b_shut = o.b_shut;
  a_shut = λ h. absurd (o.a_shut h (turn-copying t));
  b_end = o.b_end;
  a_end = λ h. absurd (turn-ne-finished t h);
  one_whole = other_way (
      all_of_one-After from_b from_a s.to_a l s.to_b s.b_closed s.a_closed (turn-copying t)
        (turn-After t o.back_ok) o.b_shut o.a_shut (other_way o.one_whole));
}
Step-InOrder {from_a} {from_b} {s} (close_b h) o = record {
  forth_ok = record { rest = o.forth_ok.rest; order = o.forth_ok.order; next = λ e. cc };
  back_ok = o.back_ok;
  b_shut = λ _ e. cc;
  a_shut = o.a_shut;
  b_end = λ _. refl;
  a_end = o.a_end;
  one_whole = elim o.one_whole [
    | inl both ↦ absurd (stopped h both.0)
    | inr (inl w) ↦ inr (inl ((λ e. cc), w.1))
    | inr (inr w) ↦ inr (inr w)
  ];
}
Step-InOrder {from_a} {from_b} {s} (close_a h) o = record {
  forth_ok = o.forth_ok;
  back_ok = record { rest = o.back_ok.rest; order = o.back_ok.order; next = λ e. cc };
  b_shut = o.b_shut;
  a_shut = λ _ e. cc;
  b_end = o.b_end;
  a_end = λ _. refl;
  one_whole = elim o.one_whole [
    | inl both ↦ absurd (stopped h both.1)
    | inr (inl w) ↦ inr (inl w)
    | inr (inr w) ↦ inr (inr ((λ e. cc), w.1))
  ];
}

pub reached-InOrder :
    {from_a from_b : List ℕ} {a_ends b_ends : Bool} {n : ℕ} {s : Links}
    → Reached from_a from_b a_ends b_ends n s
    → InOrder from_a from_b s
reached-InOrder {from_a} {from_b} begin = record {
  forth_ok = record { rest = from_a; order = refl; next = λ h. refl };
  back_ok = record { rest = from_b; order = refl; next = λ h. refl };
  b_shut = λ h. cc;
  a_shut = λ h. cc;
  b_end = λ h. cc;
  a_end = λ h. cc;
  one_whole = inl (refl, refl);
}
reached-InOrder (later r t) = Step-InOrder t (reached-InOrder r)

-- What Link has done when it returns.
pub record Delivered (from_a from_b : List ℕ) (s : Links) : Type 0 where
  pub lost_by_b : List ℕ
  pub lost_by_a : List ℕ
  pub first_of_a : from_a ≡ s.to_b.written ++ lost_by_b
  pub first_of_b : from_b ≡ s.to_a.written ++ lost_by_a
  pub one_whole : (from_a ≡ s.to_b.written) ⊎ (from_b ≡ s.to_a.written)
  pub both_closed : (s.a_closed ≡ true) × (s.b_closed ≡ true)

-- However the two goroutines take turns, and in whatever chunks: when Link returns, each side has
-- been written the first bytes of what the other has sent, in order and none twice, one of them
-- all of these, and both connections are closed; for connections that fail only by being closed
-- here.
pub Reached-Delivered :
    {n : ℕ} {a_ends b_ends : Bool} (from_a from_b : List ℕ) (s : Links)
    → Reached from_a from_b a_ends b_ends n s
    → IsOver s
    → Delivered from_a from_b s
Reached-Delivered from_a from_b s r over =
    let o = reached-InOrder r in
    record {
      lost_by_b = o.forth_ok.rest;
      lost_by_a = o.back_ok.rest;
      first_of_a = o.forth_ok.order;
      first_of_b = o.back_ok.order;
      one_whole = elim o.one_whole [
        | inl both ↦ let no_way : finished ≡ copying = sym over.0 ∙ both.0 in cc
        | inr (inl w) ↦ inl w.1
        | inr (inr w) ↦ inr w.1
      ];
      both_closed = (o.a_end over.1, o.b_end over.0);
    }
