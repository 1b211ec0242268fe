-- ===== src/Router/File.antt =====
-- FromFile of RouterRules and RouterIPNet in daze.go.
-- A file is what bufio.Scanner makes of it, each line split by strings.Fields: its lines, and
-- whether reading ended in an error; `none` is a file that does not open. `parse_cidr` is
-- net.ParseCIDR of the standard library.
use daze.Base.{
  ℕ, Bool, true, false, Option, none, some, List, [], ◌∷◌, ◌++◌, Outcome, ok, fail, panic, ◌==◌,
  if◌then◌else◌, ◌≡◌, refl, sym, append_assoc, append-nil, Bool-cases, ==_iff, Option-cases, ◌⊎◌,
  inl, inr,
}
use daze.Router.{Lists}

-- A string as its bytes.
abbrev pub Word : Type 0
Word = List ℕ

abbrev pub File : Type 0
File = Option (List (List Word) × Bool)

-- The cases of the switch on the first field.
pub data Mark : Type 0 where
  comment mark_l mark_r mark_b unknown : Mark

unfoldable pub mark : Word → Mark
mark [] = unknown
mark (c ∷ []) =
    if c == 35
    then comment
    else if c == 76
    then mark_l
    else if c == 82
    then mark_r
    else if c == 66
    then mark_b
    else unknown
mark (c ∷ d ∷ w) = unknown

-- The patterns of a line put after those of the list that its first field names.
unfoldable pub add_rules : {A : Type 0} → Mark → List A → Lists A → Lists A
add_rules mark_l ws n = record { l = n.l ++ ws; r = n.r; b = n.b }
add_rules mark_r ws n = record { l = n.l; r = n.r ++ ws; b = n.b }
add_rules mark_b ws n = record { l = n.l; r = n.r; b = n.b ++ ws }
add_rules comment ws n = n
add_rules unknown ws n = n

unfoldable pub rules_line : List Word → Lists Word → Lists Word
unfolding mark add_rules
rules_line [] n = n
rules_line (s ∷ []) n = n
rules_line (s ∷ w ∷ ws) n = add_rules (mark s) (w ∷ ws) n

unfoldable pub rules_lines : List (List Word) → Lists Word → Lists Word
rules_lines [] n = n
rules_lines (fields ∷ rest) n = rules_lines rest (rules_line fields n)

-- `RouterRules.FromFile`
unfoldable pub rules_from_file : File → Lists Word → Outcome (Lists Word)
rules_from_file none n = panic
rules_from_file (some (rows, true)) n = panic
rules_from_file (some (rows, false)) n = ok (rules_lines rows n)

module _ {N : Type 0} (parse_cidr : Word → Option N) where
  unfoldable pub cidr_line : List Word → Lists N → Outcome (Lists N)
  unfolding mark add_rules
  cidr_line [] n = ok n
  cidr_line (s ∷ []) n = ok n
  cidr_line (s ∷ w ∷ ws) n = elim (parse_cidr w) [
    | none ↦ panic
    | some c ↦ ok (add_rules (mark s) (c ∷ []) n)
  ]

  unfoldable pub cidr_lines : List (List Word) → Lists N → Outcome (Lists N)
  cidr_lines [] n = ok n
  cidr_lines (fields ∷ rest) n = elim (cidr_line fields n) [
    | ok m ↦ cidr_lines rest m
    | fail e ↦ fail e
    | panic ↦ panic
  ]

  -- `RouterIPNet.FromFile`
  unfoldable pub cidr_from_file : File → Lists N → Outcome (Lists N)
  cidr_from_file none n = panic
  cidr_from_file (some (rows, failed)) n = elim (cidr_lines rows n) [
    | ok m ↦ if failed then panic else ok m
    | fail e ↦ fail e
    | panic ↦ panic
  ]

-- A first field that is one letter.
abbrev pub is_letter : ℕ → Word → Bool
is_letter k [] = false
is_letter k (c ∷ []) = c == k
is_letter k (c ∷ d ∷ w) = false

-- The patterns of a file's lines whose first field is one letter, in their order.
abbrev pub given : ℕ → List (List Word) → List Word
given k [] = []
given k ([] ∷ rest) = given k rest
given k ((s ∷ ws) ∷ rest) = (if is_letter k s then ws else []) ++ given k rest

-- What each list of the rules has gained.
pub record Loaded (n m : Lists Word) (rows : List (List Word)) : Type 0 where
  pub of_l : m.l ≡ n.l ++ given b'L' rows
  pub of_r : m.r ≡ n.r ++ given b'R' rows
  pub of_b : m.b ≡ n.b ++ given b'B' rows

-- One of the three lists, and the letter of the lines that put patterns in it.
record Side : Type 0 where
  get : Lists Word → List Word
  letter : ℕ
  adds :
      (s : Word) (ws : List Word) (n : Lists Word)
      → get (add_rules (mark s) ws n) ≡ get n ++ (if is_letter letter s then ws else [])

module _ (d : Side) where
  rules_line-gain :
      (s : Word) (ws : List Word) (n : Lists Word)
      → d.get (rules_line (s ∷ ws) n) ≡ d.get n ++ (if is_letter d.letter s then ws else [])
  unfolding rules_line
  rules_line-gain s [] n = elim (Bool-cases (is_letter d.letter s)) [
    | inl hit ↦ rw hit (sym (append-nil _))
    | inr miss ↦ rw miss (sym (append-nil _))
  ]
  rules_line-gain s (w ∷ ws) n = d.adds s (w ∷ ws) n

  rules_lines-gain :
      (rows : List (List Word)) (n : Lists Word)
      → d.get (rules_lines rows n) ≡ d.get n ++ given d.letter rows
  unfolding rules_lines rules_line
  rules_lines-gain [] n = sym (append-nil _)
  rules_lines-gain ([] ∷ rest) n = rules_lines-gain rest n
  rules_lines-gain ((s ∷ ws) ∷ rest) n =
      rw (rules_lines-gain rest (rules_line (s ∷ ws) n), rules_line-gain s ws n)
        (append_assoc (d.get n) (if is_letter d.letter s then ws else []) (given d.letter rest))

-- The lists behind a line whose first field is one letter.
module _ (ws : List Word) (n : Lists Word) where
  abbrev Behind : ℕ → (Lists Word → List Word) → Word → Type 0
  Behind k get s = get (add_rules (mark s) ws n) ≡ get n ++ (if is_letter k s then ws else [])

  one_letter :
      (c : ℕ)
      → Behind b'L' (λ m. m.l) (c ∷ [])
        × Behind b'R' (λ m. m.r) (c ∷ [])
        × Behind b'B' (λ m. m.b) (c ∷ [])
  unfolding mark add_rules
  one_letter c = elim (Bool-cases (c == 35)) [
    | inl e ↦
        let k : c ≡ 35 = (==_iff c 35).0 e in
        rw k (sym (append-nil _), sym (append-nil _), sym (append-nil _))
    | inr e1 ↦ elim (Bool-cases (c == 76)) [
      | inl e ↦
          let k : c ≡ 76 = (==_iff c 76).0 e in rw k (refl, sym (append-nil _), sym (append-nil _))
      | inr e2 ↦ elim (Bool-cases (c == 82)) [
        | inl e ↦
            let k : c ≡ 82 = (==_iff c 82).0 e in
            rw k (sym (append-nil _), refl, sym (append-nil _))
        | inr e3 ↦ elim (Bool-cases (c == 66)) [
          | inl e ↦
              let k : c ≡ 66 = (==_iff c 66).0 e in
              rw k (sym (append-nil _), sym (append-nil _), refl)
          | inr e4 ↦
              rw (e1, e2, e3, e4) (sym (append-nil _), sym (append-nil _), sym (append-nil _))
        ]
      ]
    ]
  ]

  adds_lem :
      (s : Word) → Behind b'L' (λ m. m.l) s × Behind b'R' (λ m. m.r) s × Behind b'B' (λ m. m.b) s
  unfolding mark add_rules
  adds_lem [] = (sym (append-nil _), sym (append-nil _), sym (append-nil _))
  adds_lem (c ∷ []) = one_letter c
  adds_lem (c ∷ d ∷ w) = (sym (append-nil _), sym (append-nil _), sym (append-nil _))

-- Loading a file of rules succeeds and puts, at the end of each list and in their order, all the
-- patterns of the lines whose first field is that list's one letter, L, R or B, and nothing else;
-- for a file that opens and is read to its end.
pub rules_from_file-Loaded :
    (rows : List (List Word)) (n : Lists Word)
    → (m : Lists Word) × (rules_from_file (some (rows, false)) n ≡ ok m) × Loaded n m rows
unfolding rules_from_file
rules_from_file-Loaded rows n = (
  rules_lines rows n,
  refl,
  record {
    of_l =
        rules_lines-gain
          (record { get = λ k. k.l; letter = b'L'; adds = λ x ws m. (adds_lem ws m x).0 }) rows n;
    of_r =
        rules_lines-gain
          (record { get = λ k. k.r; letter = b'R'; adds = λ x ws m. (adds_lem ws m x).1 }) rows n;
    of_b =
        rules_lines-gain
          (record { get = λ k. k.b; letter = b'B'; adds = λ x ws m. (adds_lem ws m x).2 }) rows n;
  },
)

module _ {N : Type 0} (parse_cidr : Word → Option N) where
  cidr_line-cases :
      (fields : List Word) (n : Lists N)
      → (cidr_line parse_cidr fields n ≡ panic)
        ⊎ ((m : Lists N) × (cidr_line parse_cidr fields n ≡ ok m))
  unfolding cidr_line
  cidr_line-cases [] n = inr (n, refl)
  cidr_line-cases (s ∷ []) n = inr (n, refl)
  cidr_line-cases (s ∷ w ∷ ws) n = elim (Option-cases (parse_cidr w)) [
    | inl e ↦ inl (rw (cidr_line, e) refl)
    | inr (c, e) ↦ inr (add_rules (mark s) (c ∷ []) n, rw (cidr_line, e) refl)
  ]

  cidr_lines-bad :
      (before : List (List Word)) (s w : Word) (ws : List Word) (after : List (List Word))
      (n : Lists N)
      → parse_cidr w ≡ none
      → cidr_lines parse_cidr (before ++ (s ∷ w ∷ ws) ∷ after) n ≡ panic
  unfolding cidr_lines cidr_line
  cidr_lines-bad [] s w ws after n bad = rw (cidr_lines, cidr_line, bad) refl
  cidr_lines-bad (fields ∷ before) s w ws after n bad = elim (cidr_line-cases fields n) [
    | inl e ↦ rw (cidr_lines, e) refl
    | inr (m, e) ↦ rw (cidr_lines, e) (cidr_lines-bad before s w ws after m bad)
  ]

  -- A file of ranges is a panic if any line has a second field that is no range, and that whatever
  -- the first field is, a comment's # included.
  pub cidr_from_file_bad :
      (before : List (List Word)) (s w : Word) (ws : List Word) (after : List (List Word))
      (failed : Bool) (n : Lists N)
      → parse_cidr w ≡ none
      → cidr_from_file parse_cidr (some (before ++ (s ∷ w ∷ ws) ∷ after, failed)) n ≡ panic
  unfolding cidr_from_file
  cidr_from_file_bad before s w ws after failed n bad =
      rw (cidr_from_file, cidr_lines-bad before s w ws after n bad) refl
