-- ===== src/Apnic/Regions.antt =====
-- What the command `gen` writes, and that FromFile reads the same ranges from it.
use daze.Base.{
  ℕ, zero, suc, ◌-◌, ◌^◌, ◌<◌, ◌≡◌, refl, sym, ap, ◌∙◌, Bool, true, false, Option, some, List, [],
  ◌∷◌, ◌++◌, arith, Outcome, ok, ◌==◌, ==_refl, if◌then◌else◌, map, Bool-cases, ltb, ltb→lt, inl,
  inr, ==_iff, append_assoc, append-nil, ◌&&◌,
}
use daze.Base.Bytes.{codes}
use daze.Router.{Lists}
use daze.Router.File.{Word, cidr_from_file, cidr_lines, cidr_line, add_rules, mark}
use daze.Apnic.{
  word_eq, leading_zeros, is_power, is_comment, star, ipv4, ipv6, Ranges, add_range, counted,
  by_type, from_country, one_line, all_lines, load_apnic, written, save, gen, bit_length,
}

pub word_eq_refl : (w : Word) → word_eq w w ≡ true
unfolding word_eq
word_eq_refl [] = refl
word_eq_refl (c ∷ cs) = rw (word_eq_refl cs, ==_refl c)

six_not_four : word_eq ipv6 ipv4 ≡ false
unfolding word_eq
six_not_four = refl

-- The mask of a power of two: it passes the test, and has as many zeros in front as it should.
is_right : ℕ → Bool
is_right k = is_power (2 ^ k) && (leading_zeros (2 ^ k) == 63 - k)

all_right : ℕ → Bool
unfolding is_right
all_right zero = true
all_right (suc n) = let rest = all_right n in if is_right n then rest else false

all_right_32 : all_right 32 ≡ true
unfolding all_right is_right is_power leading_zeros bit_length
all_right_32 = refl

both_true : (a b : Bool) → (if a then b else false) ≡ true → (a ≡ true) × (b ≡ true)
both_true true b h = (refl, h)
both_true false b h = absurd cc

and_true : (a b : Bool) → (a && b) ≡ true → (a ≡ true) × (b ≡ true)
and_true true b h = (refl, h)
and_true false b h = absurd cc

all_right-lt : (n k : ℕ) → all_right n ≡ true → k < n → is_right k ≡ true
unfolding all_right
all_right-lt zero k h l = absurd (omega (arith, l))
all_right-lt (suc n) k h l =
    let (last, others) = both_true (is_right n) (all_right n) h in
    elim (Bool-cases (ltb k n)) [
      | inl less ↦ all_right-lt n k others (ltb→lt k n less)
      | inr same ↦ let e : k ≡ n = ground (arith, same) in rw e last
    ]

power_lem : (k : ℕ) → k < 32 → (is_power (2 ^ k) ≡ true) × (leading_zeros (2 ^ k) - 31 ≡ 32 - k)
unfolding is_right
power_lem k l =
    let h = all_right-lt 32 k all_right_32 l in
    let (one, zeros) = and_true (is_power (2 ^ k)) (leading_zeros (2 ^ k) == 63 - k) h in
    (one, omega (arith, l, (==_iff (leading_zeros (2 ^ k)) (63 - k)).0 zeros))

module _ {N : Type 0} (parse_uint : Word → Option ℕ) (parse_cidr : Word → Option N)
    (itoa : ℕ → Word) where
  -- What a line means: a range of a country, or nothing.
  pub data Means : List Word → List (Word × N) → Type 0 where
    comment : {ws : List Word} → is_comment ws ≡ true → Means ws []
    summary :
        {registry : Word} {ws : List Word}
        → is_comment (registry ∷ star ∷ ws) ≡ false
        → Means (registry ∷ star ∷ ws) []
    another :
        {registry country kind : Word} {ws : List Word}
        → is_comment (registry ∷ country ∷ kind ∷ ws) ≡ false
        → word_eq country star ≡ false
        → word_eq kind ipv4 ≡ false
        → word_eq kind ipv6 ≡ false
        → Means (registry ∷ country ∷ kind ∷ ws) []
    range4 :
        {registry country start value : Word} {ws : List Word} {n : N} (k : ℕ)
        → is_comment (registry ∷ country ∷ ipv4 ∷ start ∷ value ∷ ws) ≡ false
        → word_eq country star ≡ false
        → k < 32
        → parse_uint value ≡ some (2 ^ k)
        → parse_cidr (start ++ b'/' ∷ itoa (32 - k)) ≡ some n
        → Means (registry ∷ country ∷ ipv4 ∷ start ∷ value ∷ ws) ((country, n) ∷ [])
    range6 :
        {registry country start value : Word} {ws : List Word} {n : N}
        → is_comment (registry ∷ country ∷ ipv6 ∷ start ∷ value ∷ ws) ≡ false
        → word_eq country star ≡ false
        → parse_cidr (start ++ b'/' ∷ value) ≡ some n
        → Means (registry ∷ country ∷ ipv6 ∷ start ∷ value ∷ ws) ((country, n) ∷ [])

  pub data AllMean : List (List Word) → List (Word × N) → Type 0 where
    no_lines : AllMean [] []
    and_line :
        {ws : List Word} {rows : List (List Word)} {es fs : List (Word × N)}
        → Means ws es
        → AllMean rows fs
        → AllMean (ws ∷ rows) (es ++ fs)

  abbrev pub of_country : Word → List (Word × N) → List N
  of_country w [] = []
  of_country w ((c, n) ∷ es) = (if word_eq w c then n ∷ [] else []) ++ of_country w es

  of_country-append :
      (w : Word) (es fs : List (Word × N))
      → of_country w (es ++ fs) ≡ of_country w es ++ of_country w fs
  of_country-append w [] fs = refl
  of_country-append w ((c, n) ∷ es) fs =
      ap (◌++◌ (if word_eq w c then n ∷ [] else [])) (of_country-append w es fs)
      ∙ sym (append_assoc (if word_eq w c then n ∷ [] else []) (of_country w es) (of_country w fs))

  abbrev Gains : Ranges N → List (Word × N) → Outcome (Ranges N) → Type 0
  Gains r es o = (q : Ranges N) × (o ≡ ok q) × ((w : Word) → q w ≡ r w ++ of_country w es)

  add_one :
      (b : Bool) (xs : List N) (n : N)
      → (if b then xs ++ n ∷ [] else xs) ≡ xs ++ ((if b then n ∷ [] else []) ++ [])
  add_one true xs n = refl
  add_one false xs n = sym (append-nil xs)

  by_type_another :
      (registry country kind : Word) (ws : List Word) (r : Ranges N)
      → word_eq kind ipv4 ≡ false
      → word_eq kind ipv6 ≡ false
      → by_type parse_uint parse_cidr itoa (registry ∷ country ∷ kind ∷ ws) r ≡ ok r
  unfolding by_type
  by_type_another registry country kind [] r n4 n6 = rw (n4, n6) refl
  by_type_another registry country kind (a ∷ []) r n4 n6 = rw (n4, n6) refl
  by_type_another registry country kind (a ∷ b ∷ ws) r n4 n6 = rw (n4, n6) refl

  line-Gains :
      {ws : List Word} {es : List (Word × N)} (r : Ranges N)
      → Means ws es
      → Gains r es (one_line parse_uint parse_cidr itoa ws r)
  unfolding one_line from_country by_type counted add_range
  line-Gains r (comment c) = (r, rw c refl, λ w. sym (append-nil (r w)))
  line-Gains r (summary c) = (r, rw (c, word_eq_refl star) refl, λ w. sym (append-nil (r w)))
  line-Gains r
        (another {registry = registry} {country = country} {kind = kind} {ws = ws} c s n4 n6) =
      (r, rw (c, s) (by_type_another registry country kind ws r n4 n6), λ w. sym (append-nil (r w)))
  line-Gains r (range4 {country = country} {n = n} k c s l p e) =
      let m = power_lem k l in
      (
        _,
        rw (c, s, word_eq_refl ipv4, p, m.0, m.1, e) refl,
        λ w. add_one (word_eq w country) (r w) n,
      )
  line-Gains r (range6 {country = country} {n = n} c s e) = (
    _,
    rw (c, s, six_not_four, word_eq_refl ipv6, e) refl,
    λ w. add_one (word_eq w country) (r w) n,
  )

  all_lines-Gains :
      {rows : List (List Word)} {es : List (Word × N)} (r : Ranges N)
      → AllMean rows es
      → Gains r es (all_lines parse_uint parse_cidr itoa rows r)
  unfolding all_lines
  all_lines-Gains r no_lines = (r, refl, λ w. sym (append-nil (r w)))
  all_lines-Gains r (and_line {es = es} {fs = fs} m more) =
      let (q, e, gained) = line-Gains r m in
      let (q', e', gained') = all_lines-Gains q more in
      (
        q',
        rw (all_lines, e) e',
        λ w.
            gained' w
            ∙ ap (λ xs. xs ++ of_country w fs) (gained w)
            ∙ append_assoc (r w) (of_country w es) (of_country w fs)
            ∙ ap (◌++◌ (r w)) (sym (of_country-append w es fs)),
      )

  -- The ranges that LoadApnic finds for every country are those of its lines, in order: an IPv4
  -- line with a count of 2^k counts as the start with a mask of 32 - k bits, an IPv6 line as its
  -- start and mask, and comments, summaries and other types of line as nothing.
  pub load_apnic-gives :
      {rows : List (List Word)} {es : List (Word × N)}
      → AllMean rows es
      → (r : Ranges N) × (load_apnic parse_uint parse_cidr itoa (some rows) ≡ ok r)
        × ((w : Word) → r w ≡ of_country w es)
  unfolding load_apnic
  load_apnic-gives m = all_lines-Gains (λ w. []) m

  module _ (to_string : N → Word) (parses : (n : N) → parse_cidr (to_string n) ≡ some n) where
    abbrev none_yet : List N → Lists N
    none_yet ls = record { l = ls; r = []; b = [] }

    cidr_line_written :
        (n : N) (ls : List N)
        → cidr_line parse_cidr (written parse_uint parse_cidr itoa to_string n) (none_yet ls)
          ≡ ok (none_yet (ls ++ n ∷ []))
    unfolding cidr_line mark add_rules
    cidr_line_written n ls = rw (parses n) refl

    cidr_lines_written :
        (ns ls : List N)
        → cidr_lines parse_cidr
            (map (written parse_uint parse_cidr itoa to_string) ns)
            (none_yet ls)
          ≡ ok (none_yet (ls ++ ns))
    unfolding cidr_lines cidr_line
    cidr_lines_written [] ls = ap (λ xs. ok (none_yet xs)) (sym (append-nil ls))
    cidr_lines_written (n ∷ ns) ls = rw (cidr_line_written n ls) (
        cidr_lines_written ns (ls ++ n ∷ [])
        ∙ ap (λ xs. ok (none_yet xs)) (append_assoc ls (n ∷ []) ns))

    -- From any list of ranges as APNIC publishes it, which has some for CN, the command `gen CN`
    -- writes a file from which FromFile reads just the ranges of CN, in their order, as those of
    -- L; for ranges that ParseCIDR reads back from their text.
    pub cidr_from_file-gen :
        {rows : List (List Word)} {es : List (Word × N)} (n : N) (ns : List N)
        → AllMean rows es
        → of_country (codes "CN") es ≡ n ∷ ns
        → (file : List (List Word)) × (gen parse_uint parse_cidr itoa to_string
              (codes "CN")
              (some rows)
            ≡ ok (some file))
          × (cidr_from_file parse_cidr (some (file, false)) (none_yet []) ≡ ok (none_yet (n ∷ ns)))
    unfolding gen save cidr_from_file cidr_lines cidr_line
    cidr_from_file-gen n ns m cn =
        let (r, e, given) = load_apnic-gives m in
        (
          map (written parse_uint parse_cidr itoa to_string) (n ∷ ns),
          rw (word_eq_refl (codes "CN"), e, given (codes "CN"), cn) refl,
          rw (cidr_lines_written (n ∷ ns) []) refl,
        )
