-- ===== src/Link/Ending.antt =====
-- That Link of daze.go returns where a peer sends an end: the close of the other connection lets the
-- goroutine that reads this one go on.
use daze.Base.{
  ℕ, ◌+◌, ◌≤◌, ◌<◌, ◌≡◌, ◌∙◌, ◌⊎◌, inl, inr, refl, Bool, true, false, List, [], ◌∷◌, arith, length,
  length-append,
}
use daze.Link.{
  Phase, copying, copied, finished, Lane, Links, Turn, chunk, write_error, end_of_file, read_error,
  Step, forth, back, close_b, close_a, Reached, begin, later, IsOver,
}
use daze.Link.Delivery.{reached-InOrder}

-- How many steps a lane can still take.
abbrev lane_left : Phase → List ℕ → ℕ
lane_left copying coming = 2 + length coming
lane_left copied coming = 1
lane_left finished coming = 0

abbrev left_to_do : Links → ℕ
left_to_do s = lane_left s.to_b.phase s.to_b.coming + lane_left s.to_a.phase s.to_a.coming

turn-lt :
    {l l' : Lane} {source target : Bool}
    → Turn l source target l'
    → lane_left l'.phase l'.coming < lane_left l.phase l.coming
turn-lt {l} (chunk x xs rest live c) = rw (live, c) (omega (arith, length-append xs rest))
turn-lt {l} (write_error x xs rest live c) = rw live (omega arith)
turn-lt {l} (end_of_file live c e) = rw live (omega arith)
turn-lt {l} (read_error live) = rw live (omega arith)

Step-lt : {s t : Links} → Step s t → left_to_do t < left_to_do s
Step-lt {s} (forth l t) = omega (arith, turn-lt t)
Step-lt {s} (back l t) = omega (arith, turn-lt t)
Step-lt {s} (close_b h) = rw h (omega arith)
Step-lt {s} (close_a h) = rw h (omega arith)

reached-le :
    {from_a from_b : List ℕ} {a_ends b_ends : Bool} {n : ℕ} {s : Links}
    → Reached from_a from_b a_ends b_ends n s
    → n + left_to_do s ≤ 4 + length from_a + length from_b
reached-le begin = omega arith
reached-le (later r st) = omega (arith, reached-le r, Step-lt st)

-- Whether an end comes does not change.
turn-ends : {l l' : Lane} {source target : Bool} → Turn l source target l' → l'.ends ≡ l.ends
turn-ends (chunk x xs rest live c) = refl
turn-ends (write_error x xs rest live c) = refl
turn-ends (end_of_file live c e) = refl
turn-ends (read_error live) = refl

Step-ends : {s t : Links} → Step s t → (t.to_b.ends ≡ s.to_b.ends) × (t.to_a.ends ≡ s.to_a.ends)
Step-ends (forth l t) = (turn-ends t, refl)
Step-ends (back l t) = (refl, turn-ends t)
Step-ends (close_b h) = (refl, refl)
Step-ends (close_a h) = (refl, refl)

reached-ends :
    {from_a from_b : List ℕ} {a_ends b_ends : Bool} {n : ℕ} {s : Links}
    → Reached from_a from_b a_ends b_ends n s
    → (s.to_b.ends ≡ a_ends) × (s.to_a.ends ≡ b_ends)
reached-ends begin = (refl, refl)
reached-ends (later r st) = let k = reached-ends r in let e = Step-ends st in (e.0 ∙ k.0, e.1 ∙ k.1)

-- A lane that copies has a turn to take where its source is closed or sends an end.
can_turn :
    (l : Lane) (source target : Bool)
    → l.phase ≡ copying
    → (source ≡ true) ⊎ (l.ends ≡ true)
    → (l' : Lane) × Turn l source target l'
can_turn l true target live h = (_, read_error live)
can_turn l false target live (inl never) = cc
can_turn l false target live (inr e) = go l.coming refl target
  where
    go : (bs : List ℕ) → l.coming ≡ bs → (target : Bool) → (l' : Lane) × Turn l false target l'
    go [] c target = (_, end_of_file live c e)
    go (x ∷ xs) c true = (_, write_error x [] xs live c)
    go (x ∷ xs) c false = (_, chunk x [] xs live c)

Phase-cases : (p : Phase) → (p ≡ copying) ⊎ (p ≡ copied) ⊎ (p ≡ finished)
Phase-cases copying = inl refl
Phase-cases copied = inr (inl refl)
Phase-cases finished = inr (inr refl)

move_forth :
    (s : Links)
    → s.to_b.phase ≡ copying
    → (s.a_closed ≡ true) ⊎ (s.to_b.ends ≡ true)
    → (t : Links) × Step s t
move_forth s live h = let t = can_turn s.to_b s.a_closed s.b_closed live h in (_, forth t.0 t.1)

move_back :
    (s : Links)
    → s.to_a.phase ≡ copying
    → (s.b_closed ≡ true) ⊎ (s.to_a.ends ≡ true)
    → (t : Links) × Step s t
move_back s live h = let t = can_turn s.to_a s.b_closed s.a_closed live h in (_, back t.0 t.1)

able_to_move :
    (s : Links)
    → (s.to_b.phase ≡ finished → s.b_closed ≡ true)
    → (s.to_a.phase ≡ finished → s.a_closed ≡ true)
    → (s.to_b.ends ≡ true) ⊎ (s.to_a.ends ≡ true)
    → IsOver s ⊎ ((t : Links) × Step s t)
able_to_move s shut_b shut_a h = elim (Phase-cases s.to_b.phase) [
  | inr (inl done) ↦ inr (_, close_b done)
  | inl live ↦ elim (Phase-cases s.to_a.phase) [
    | inr (inl done) ↦ inr (_, close_a done)
    | inr (inr over) ↦ inr (move_forth s live (inl (shut_a over)))
    | inl alive ↦ elim h [
      | inl e ↦ inr (move_forth s live (inr e))
      | inr e ↦ inr (move_back s alive (inr e))
    ]
  ]
  | inr (inr over) ↦ elim (Phase-cases s.to_a.phase) [
    | inl live ↦ inr (move_back s live (inl (shut_b over)))
    | inr (inl done) ↦ inr (_, close_a done)
    | inr (inr over_a) ↦ inl (over, over_a)
  ]
]

-- Link returns where at least one of the peers sends an end behind its bytes, though the other be
-- silent for ever: no run of it, however the goroutines take turns, has more steps than there are
-- bytes to come and four, and in every state that it gets into a step can be taken unless both
-- goroutines are done.
pub Reached-ends :
    (n : ℕ) (from_a from_b : List ℕ) (a_ends b_ends : Bool) (s : Links)
    → Reached from_a from_b a_ends b_ends n s
    → (a_ends ≡ true) ⊎ (b_ends ≡ true)
    → (n ≤ 4 + length from_a + length from_b) × (IsOver s ⊎ ((t : Links) × Step s t))
Reached-ends n from_a from_b a_ends b_ends s r one =
    let o = reached-InOrder r in
    let k = reached-ends r in
    let ended : (s.to_b.ends ≡ true) ⊎ (s.to_a.ends ≡ true) = elim one [
      | inl e ↦ inl (k.0 ∙ e)
      | inr e ↦ inr (k.1 ∙ e)
    ] in
    (omega (arith, reached-le r), able_to_move s o.b_end o.a_end ended)
