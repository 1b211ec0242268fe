-- ===== src/Czar/Server/Race.antt =====
-- Two goroutines of Server.Run that count at the same time.
use daze.Base.{
  ℕ, ◌+◌, ◌^◌, ◌%◌, ◌≡◌, ◌≢◌, refl, sym, ◌∙◌, some, List, [], ◌∷◌, ◌++◌, append_assoc, Outcome,
  get_elem?, set, get_elem?-set_ne, get_elem?-set_found,
}
use daze.Listener.{Phase, accepting, ended, crashed}
use daze.Czar.Server.{
  Stage, waiting, holding, loaded, stored, Hub, Event, gives, goes, on_give, on_go, act, turn_at,
  turn, Reached, start, later,
}

module _ {C : Type 0} (serve : C → Outcome (Unit {0}) × C) (close : C → C) where
  turn_at-act :
      (p : Phase) (e : Event C) (s : Hub C)
      → p ≢ crashed
      → turn_at serve close p e s ≡ act serve close e s
  unfolding turn_at
  turn_at-act accepting e s h = refl
  turn_at-act ended e s h = refl
  turn_at-act crashed e s h = absurd (h refl)

  give_lem :
      (n : ℕ) (c : C) (s : Hub C)
      → s.phase ≢ crashed
      → get_elem? s.lanes n ≡ some waiting
      → turn serve close (gives n c) s
        ≡ some (record s { lanes = set s.lanes n (holding c); taken = s.taken ++ c ∷ [] })
  unfolding turn act on_give
  give_lem n c s h e = turn_at-act s.phase (gives n c) s h ∙ rw (act, e) refl

  go_lem :
      (n : ℕ) (st : Stage C) (s : Hub C)
      → s.phase ≢ crashed
      → get_elem? s.lanes n ≡ some st
      → turn serve close (goes n) s ≡ on_go serve close n (some st) s
  unfolding turn act
  go_lem n st s h e = turn_at-act s.phase (goes n) s h ∙ rw (act, e) refl

  module _ (n m : ℕ) (ne : n ≢ m) where
    -- Where the two goroutines are.
    abbrev Both : List (Stage C) → Stage C → Stage C → Type 0
    Both l x y = (get_elem? l n ≡ some x) × (get_elem? l m ≡ some y)

    first_moves : (l : List (Stage C)) (x y z : Stage C) → Both l x y → Both (set l n z) z y
    first_moves l x y z b = (get_elem?-set_found l n x z b.0, get_elem?-set_ne l n m z ne ∙ b.1)

    second_moves : (l : List (Stage C)) (x y z : Stage C) → Both l x y → Both (set l m z) x z
    second_moves l x y z b =
        (get_elem?-set_ne l m n z (λ e. ne (sym e)) ∙ b.0, get_elem?-set_found l m y z b.1)

    -- A server that has given two streams one Cid.
    pub record Doubled (c d : C) (s : Hub C) : Type 0 where
      pub after : Hub C
      pub reached : Reached serve close s after
      pub cid : ℕ
      pub both : after.live ≡ s.live ++ (cid, c) ∷ (cid, d) ∷ []
      pub counter : after.idx ≡ (s.idx + 1) % 2 ^ 32

    -- Of two goroutines that wait for streams and get one each, both can load the counter before
    -- either stores it: then both streams are served under the same Cid, and the counter has gone up
    -- by one; in any state of a program that has not crashed.
    pub race-Doubled :
        (c d : C) (s : Hub C)
        → s.phase ≢ crashed
        → get_elem? s.lanes n ≡ some waiting
        → get_elem? s.lanes m ≡ some waiting
        → Doubled c d s
    unfolding on_go
    race-Doubled c d s h en em =
        let k : ℕ = (s.idx + 1) % 2 ^ 32 in
        let s1 : Hub C = record s {
          lanes = set s.lanes n (holding c);
          taken = s.taken ++ c ∷ [];
        } in
        let b1 = first_moves s.lanes waiting waiting (holding c) (en, em) in
        let s2 : Hub C = record s1 {
          lanes = set s1.lanes m (holding d);
          taken = s1.taken ++ d ∷ [];
        } in
        let b2 = second_moves s1.lanes (holding c) waiting (holding d) b1 in
        let s3 : Hub C = record s2 { lanes = set s2.lanes n (loaded s.idx c) } in
        let b3 = first_moves s2.lanes (holding c) (holding d) (loaded s.idx c) b2 in
        let s4 : Hub C = record s3 { lanes = set s3.lanes m (loaded s.idx d) } in
        let b4 = second_moves s3.lanes (loaded s.idx c) (holding d) (loaded s.idx d) b3 in
        let s5 : Hub C = record s4 { idx = k; lanes = set s4.lanes n (stored c) } in
        let b5 = first_moves s4.lanes (loaded s.idx c) (loaded s.idx d) (stored c) b4 in
        let s6 : Hub C = record s5 { lanes = set s5.lanes m (stored d) } in
        let b6 = second_moves s5.lanes (stored c) (loaded s.idx d) (stored d) b5 in
        let s7 : Hub C = record s6 {
          lanes = set s6.lanes n waiting;
          live = s6.live ++ (k, c) ∷ [];
        } in
        let b7 = first_moves s6.lanes (stored c) (stored d) waiting b6 in
        let s8 : Hub C = record s7 {
          lanes = set s7.lanes m waiting;
          live = s7.live ++ (k, d) ∷ [];
        } in
        let r1 : Reached serve close s s1 = later (gives n c) start (give_lem n c s h en) in
        let r2 : Reached serve close s s2 = later (gives m d) r1 (give_lem m d s1 h b1.1) in
        let r3 : Reached serve close s s3 = later (goes n) r2 (go_lem n (holding c) s2 h b2.0) in
        let r4 : Reached serve close s s4 = later (goes m) r3 (go_lem m (holding d) s3 h b3.1) in
        let r5 : Reached serve close s s5 =
          later (goes n) r4 (go_lem n (loaded s.idx c) s4 h b4.0) in
        let r6 : Reached serve close s s6 =
          later (goes m) r5 (go_lem m (loaded s.idx d) s5 h b5.1) in
        let r7 : Reached serve close s s7 = later (goes n) r6 (go_lem n (stored c) s6 h b6.0) in
        record {
          after = s8;
          reached = later (goes m) r7 (go_lem m (stored d) s7 h b7.1);
          cid = k;
          both = append_assoc s.live ((k, c) ∷ []) ((k, d) ∷ []);
          counter = refl;
        }
