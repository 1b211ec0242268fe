-- ===== src/Link.antt =====
-- Link of daze.go: two goroutines, each of which copies one connection to the other until its
-- source ends or an error stops it, and then closes its target. A close ends both directions of a
-- connection, so that the direction that ends first stops the other at its next read. What each peer
-- will ever send is a list, and it may or may not send an end behind it: where it does not, the
-- goroutine that reads it waits until its source is closed. A chunk that io.Copy reads is any part
-- of the list; bytes are those that the connection's reader gives, whatever cipher lies under it; a
-- connection fails by being closed here, and not by itself.
pub mod Delivery
pub mod Ending
use daze.Base.{ℕ, zero, suc, Bool, true, false, List, [], ◌∷◌, ◌++◌, ◌≡◌}

-- A goroutine copies, has left io.Copy, and has closed its target.
pub data Phase : Type 0 where
  copying copied finished : Phase

-- One direction: what is to come from its source, whether an end comes behind it, and what has been
-- written to its target.
pub record Lane : Type 0 where
  pub ends : Bool
  pub coming : List ℕ
  pub written : List ℕ
  pub phase : Phase

-- `to_b` copies `a` to `b`.
pub record Links : Type 0 where
  pub to_b : Lane
  pub to_a : Lane
  pub a_closed : Bool
  pub b_closed : Bool

abbrev pub start : List ℕ → List ℕ → Bool → Bool → Links
start from_a from_b a_ends b_ends = record {
  to_b = record { ends = a_ends; coming = from_a; written = []; phase = copying };
  to_a = record { ends = b_ends; coming = from_b; written = []; phase = copying };
  a_closed = false;
  b_closed = false;
}

-- A turn of io.Copy; the Booleans say whether the source and the target are closed.
pub data Turn : Lane → Bool → Bool → Lane → Type 0 where
  chunk :
      {l : Lane} (x : ℕ) (xs rest : List ℕ)
      → l.phase ≡ copying
      → l.coming ≡ (x ∷ xs) ++ rest
      → Turn l false false (record l { coming = rest; written = l.written ++ x ∷ xs })
  write_error :
      {l : Lane} (x : ℕ) (xs rest : List ℕ)
      → l.phase ≡ copying
      → l.coming ≡ (x ∷ xs) ++ rest
      → Turn l false true (record l { coming = rest; phase = copied })
  end_of_file :
      {l : Lane} {target : Bool}
      → l.phase ≡ copying
      → l.coming ≡ []
      → l.ends ≡ true
      → Turn l false target (record l { phase = copied })
  read_error :
      {l : Lane} {target : Bool}
      → l.phase ≡ copying
      → Turn l true target (record l { phase = copied })

pub data Step : Links → Links → Type 0 where
  forth :
      {s : Links} (l : Lane) → Turn s.to_b s.a_closed s.b_closed l → Step s (record s { to_b = l })
  back :
      {s : Links} (l : Lane) → Turn s.to_a s.b_closed s.a_closed l → Step s (record s { to_a = l })
  close_b :
      {s : Links}
      → s.to_b.phase ≡ copied
      → Step s (record s { to_b = record s.to_b { phase = finished }; b_closed = true })
  close_a :
      {s : Links}
      → s.to_a.phase ≡ copied
      → Step s (record s { to_a = record s.to_a { phase = finished }; a_closed = true })

-- The states that Link gets into, and after how many steps.
pub data Reached (from_a from_b : List ℕ) (a_ends b_ends : Bool) : ℕ → Links → Type 0 where
  begin : Reached from_a from_b a_ends b_ends zero (start from_a from_b a_ends b_ends)
  later :
      {n : ℕ} {s t : Links}
      → Reached from_a from_b a_ends b_ends n s
      → Step s t
      → Reached from_a from_b a_ends b_ends (suc n) t

-- `w.Wait()` returns.
abbrev pub IsOver : Links → Type 0
IsOver s = (s.to_b.phase ≡ finished) × (s.to_a.phase ≡ finished)
