-- ===== src/Router/Reserved/Places.antt =====
-- The addresses that LoadReservedIP of daze.go stands for, and where they go.
use daze.Base.{
  ℕ, suc, ◌≡◌, refl, ap, ◌∙◌, Bool, true, false, ◌&&◌, Option, none, some, List, [], ◌∷◌, ◌++◌, map,
  arith, Outcome, ok, fail, panic, length, drop, ltb, ◌==◌, replicate, if◌then◌else◌, Bool-cases,
  inl, inr, ==_iff, ltb→lt,
}
use daze.Base.Bytes.{AreBytes, AreBytes-drop}
use daze.Router.{
  Road, locale, remote, Router, ip_net, puzzle, right, chain, cons, nil, road, road_chain, chained,
  any_contains, net_road, first_ip, ip_net_road,
}
use daze.Router.Aimbot.{kind_remote, remote_router, new_router}
use daze.Router.Cache.{ask_all, ask_all-cache, answer, Stateless}
use daze.Router.File.{Word, File}
use daze.Router.Reserved.{Net, load_reserved_ip, to4, contains}
use daze.Router.Reserved.Ranges.{up_to, first_of, last_of, is_prefix, same_masked-up_to}

abbrev Range : Type 0
Range = List ℕ × List ℕ

-- A range of IPv4, and one of IPv6 whose last bytes are all of them.
abbrev pub v4 : ℕ → ℕ → ℕ → ℕ → List ℕ
v4 a b c d = a ∷ b ∷ c ∷ d ∷ []

abbrev pub below : List ℕ → List ℕ → ℕ → Range
below lo hi n = (lo ++ replicate n 0, hi ++ replicate n 255)

abbrev pub places : List Range
places =
    (v4 0 0 0 0, v4 0 255 255 255)
    ∷ (v4 10 0 0 0, v4 10 255 255 255)
    ∷ (v4 127 0 0 0, v4 127 255 255 255)
    ∷ (v4 169 254 0 0, v4 169 254 255 255)
    ∷ (v4 172 16 0 0, v4 172 31 255 255)
    ∷ (v4 192 0 0 0, v4 192 0 0 7)
    ∷ (v4 192 0 0 170, v4 192 0 0 171)
    ∷ (v4 192 0 2 0, v4 192 0 2 255)
    ∷ (v4 192 168 0 0, v4 192 168 255 255)
    ∷ (v4 198 18 0 0, v4 198 19 255 255)
    ∷ (v4 198 51 100 0, v4 198 51 100 255)
    ∷ (v4 203 0 113 0, v4 203 0 113 255)
    ∷ (v4 240 0 0 0, v4 255 255 255 255)
    ∷ (v4 255 255 255 255, v4 255 255 255 255)
    ∷ below (replicate 16 0) (replicate 16 0) 0
    ∷ below (replicate 15 0 ++ 1 ∷ []) (replicate 15 0 ++ 1 ∷ []) 0
    ∷ below (1 ∷ replicate 7 0) (1 ∷ replicate 7 0) 8
    ∷ below (0 ∷ 100 ∷ 255 ∷ 155 ∷ replicate 8 0) (0 ∷ 100 ∷ 255 ∷ 155 ∷ replicate 8 0) 4
    ∷ below (32 ∷ 1 ∷ 0 ∷ 0 ∷ []) (32 ∷ 1 ∷ 0 ∷ 0 ∷ []) 12
    ∷ below (32 ∷ 1 ∷ 0 ∷ 16 ∷ []) (32 ∷ 1 ∷ 0 ∷ 31 ∷ []) 12
    ∷ below (32 ∷ 1 ∷ 0 ∷ 32 ∷ []) (32 ∷ 1 ∷ 0 ∷ 47 ∷ []) 12
    ∷ below (32 ∷ 1 ∷ 13 ∷ 184 ∷ []) (32 ∷ 1 ∷ 13 ∷ 184 ∷ []) 12
    ∷ below (32 ∷ 2 ∷ []) (32 ∷ 2 ∷ []) 14
    ∷ below (252 ∷ []) (253 ∷ []) 15
    ∷ below (254 ∷ 128 ∷ []) (254 ∷ 191 ∷ []) 14
    ∷ below (255 ∷ []) (255 ∷ []) 15
    ∷ []

abbrev in_range : Range → List ℕ → Bool
in_range (lo, hi) a = if length a == length lo then (up_to lo a && up_to a hi) else false

unfoldable pub in_any : List Range → List ℕ → Bool
in_any [] a = false
in_any (r ∷ rs) a = elim (in_range r a) [ true ↦ true | false ↦ in_any rs a ]

abbrev range_of : Net → Range
range_of n = (first_of n.ip n.mask, last_of n.ip n.mask)

are_bytes : List ℕ → Bool
are_bytes [] = true
are_bytes (b ∷ bs) = let rest = are_bytes bs in if ltb b 256 then rest else false

AreBytes-are_bytes : (bs : List ℕ) → are_bytes bs ≡ true → AreBytes bs
unfolding are_bytes
AreBytes-are_bytes [] h = tt
AreBytes-are_bytes (b ∷ bs) h = elim (Bool-cases (ltb b 256)) [
  | inl hit ↦ (ltb→lt b 256 hit, AreBytes-are_bytes bs (rw hit at h))
  | inr miss ↦ let never : false ≡ true = rw miss at h in cc
]

abbrev is_good : Net → Bool
is_good n = is_prefix n.mask && ((length n.ip == length n.mask) && are_bytes n.ip)

all_good : List Net → Bool
all_good [] = true
all_good (n ∷ ns) = let rest = all_good ns in if is_good n then rest else false

unfoldable pub nets_of : Outcome (List Net) → List Net
nets_of (ok r) = r
nets_of (fail e) = []
nets_of panic = []

abbrev pub nets : List Net
nets = nets_of load_reserved_ip

loaded : load_reserved_ip ≡ ok nets
unfolding load_reserved_ip nets_of
loaded = refl

nets-all_good : all_good nets ≡ true
unfolding load_reserved_ip nets_of all_good is_prefix are_bytes
nets-all_good = refl

map-nets : map range_of nets ≡ places
unfolding load_reserved_ip nets_of first_of last_of
map-nets = refl

either-AreBytes :
    (c : Bool) (xs ys : List ℕ) → AreBytes xs → AreBytes ys → AreBytes (if c then xs else ys)
either-AreBytes true xs ys hx hy = hx
either-AreBytes false xs ys hx hy = hy

to4-AreBytes : (ip : List ℕ) → AreBytes ip → AreBytes (to4 ip)
unfolding to4
to4-AreBytes ip h = either-AreBytes _ (drop 12 ip) ip (AreBytes-drop 12 ip h) h

length-first_of : (ns ms : List ℕ) → length ns ≡ length ms → length (first_of ns ms) ≡ length ns
unfolding first_of
length-first_of [] ms h = refl
length-first_of (n ∷ ns) [] h = absurd (omega (arith, h))
length-first_of (n ∷ ns) (m ∷ ms) h = ap suc (length-first_of ns ms (omega (arith, h)))

record IsGood (n : Net) : Type 0 where
  prefix : is_prefix n.mask ≡ true
  size : length n.ip ≡ length n.mask
  bytes : AreBytes n.ip

is_good-IsGood : (n : Net) → is_good n ≡ true → IsGood n
is_good-IsGood n h = elim (Bool-cases (is_prefix n.mask)) [
  | inr miss ↦ let never : false ≡ true = rw miss at h in cc
  | inl hit ↦ elim (Bool-cases (length n.ip == length n.mask)) [
    | inr miss ↦ let never : false ≡ true = rw (hit, miss) at h in cc
    | inl same ↦ record {
      prefix = hit;
      size = (==_iff (length n.ip) (length n.mask)).0 same;
      bytes = AreBytes-are_bytes n.ip (rw (hit, same) at h);
    }
  ]
]

contains-in_range :
    (n : Net) (ip : List ℕ)
    → IsGood n
    → AreBytes ip
    → contains n ip ≡ in_range (range_of n) (to4 ip)
unfolding contains
contains-in_range n ip g h = elim (Bool-cases (length (to4 ip) == length n.ip)) [
  | inr miss ↦ rw (contains, length-first_of n.ip n.mask g.size, miss) refl
  | inl same ↦
      let size : length (to4 ip) ≡ length n.ip = (==_iff (length (to4 ip)) (length n.ip)).0 same in
      rw (contains, length-first_of n.ip n.mask g.size, same)
        (same_masked-up_to n.ip n.mask (to4 ip) g.prefix g.size (size ∙ g.size) g.bytes
          (to4-AreBytes ip h))
]

module _ {G H : Type 0} (eq : H → H → Bool) (lookup : H → Option (List (List ℕ)))
    (glob : G → H → Option Bool) (sound : (h k : H) → eq h k ≡ true → h ≡ k) where
  any_contains-in_any :
      (ns : List Net) (ip : List ℕ)
      → all_good ns ≡ true
      → AreBytes ip
      → any_contains eq lookup contains glob ns ip ≡ in_any (map range_of ns) (to4 ip)
  unfolding any_contains in_any all_good
  any_contains-in_any [] ip g h = refl
  any_contains-in_any (n ∷ ns) ip g h = elim (Bool-cases (is_good n)) [
    | inr miss ↦ let never : false ≡ true = rw miss at g in cc
    | inl hit ↦
        let here = contains-in_range n ip (is_good-IsGood n hit) h in
        elim (Bool-cases (in_range (range_of n) (to4 ip))) [
          | inl found ↦ rw (any_contains, here, in_any, found) refl
          | inr missed ↦
              rw (any_contains, here, in_any, missed) (any_contains-in_any ns ip (rw hit at g) h)
        ]
  ]

  any_contains-nets :
      (ip : List ℕ)
      → AreBytes ip
      → any_contains eq lookup contains glob nets ip ≡ in_any places (to4 ip)
  any_contains-nets ip h =
      any_contains-in_any nets ip nets-all_good h ∙ ap (λ rs. in_any rs (to4 ip)) map-nets

  -- Where a host goes by its first address, if that is asked for.
  unfoldable pub road_by_ip : Option (List (List ℕ)) → Outcome Road
  road_by_ip none = ok remote
  road_by_ip (some []) = panic
  road_by_ip (some (ip ∷ rest)) =
      ok (elim (in_any places (to4 ip)) [ true ↦ locale | false ↦ remote ])

  abbrev behind : Router Net G H
  behind = chain (cons (ip_net (record { l = nets; r = []; b = [] })) (cons (right remote) nil))

  net_road-nets :
      (ip : List ℕ)
      → AreBytes ip
      → net_road eq lookup contains glob (record { l = nets; r = []; b = [] }) ip
        ≡ elim (in_any places (to4 ip)) [ true ↦ locale | false ↦ puzzle ]
  unfolding net_road any_contains
  net_road-nets ip h = rw (net_road, any_contains-nets ip h) refl

  behind-road :
      (h : H) (found : Option (List (List ℕ)))
      → lookup h ≡ found
      → ((ip : List ℕ) (rest : List (List ℕ)) → found ≡ some (ip ∷ rest) → AreBytes ip)
      → road eq lookup contains glob behind h ≡ (road_by_ip found, behind)
  unfolding road road_chain chained ip_net_road first_ip road_by_ip
  behind-road h none e bytes = rw (road, ip_net_road, e) refl
  behind-road h (some []) e bytes = rw (road, ip_net_road, e) refl
  behind-road h (some (ip ∷ rest)) e bytes = elim (Bool-cases (in_any places (to4 ip))) [
    | inl hit ↦ rw (road, ip_net_road, e, net_road-nets ip (bytes ip rest refl), hit) refl
    | inr miss ↦ rw (road, ip_net_road, e, net_road-nets ip (bytes ip rest refl), miss) refl
  ]

  behind-Stateless :
      ((h : H) (ip : List ℕ) (rest : List (List ℕ)) → lookup h ≡ some (ip ∷ rest) → AreBytes ip)
      → Stateless eq lookup contains glob sound behind
  behind-Stateless bytes h = ap (λ r. r.1) (behind-road h (lookup h) refl (bytes h))

  map-answer :
      ((h : H) (ip : List ℕ) (rest : List (List ℕ)) → lookup h ≡ some (ip ∷ rest) → AreBytes ip)
      → (hs : List H)
      → map (answer eq lookup contains glob sound behind) hs ≡ map (λ h. road_by_ip (lookup h)) hs
  map-answer bytes [] = refl
  map-answer bytes (h ∷ hs) =
      rw (ap (λ r. r.0) (behind-road h (lookup h) refl (bytes h)), map-answer bytes hs)

  -- With the filter remote, NewAimbot makes a router that, for hosts asked for one after the other,
  -- sends a host to locale where the first address that the resolver gives for it is in one of the
  -- reserved ranges, and to remote where it is in none or the resolver fails, and panics on an empty
  -- answer of the resolver; whatever the files hold, and where the addresses are of bytes.
  pub remote_router-reserved :
      (parse_cidr : Word → Option Net) (rule cidr : File) (hs : List H)
      → ((h : H) (ip : List ℕ) (rest : List (List ℕ)) → lookup h ≡ some (ip ∷ rest) → AreBytes ip)
      → (reserved : List Net) × (load_reserved_ip ≡ ok reserved)
        × (new_router parse_cidr reserved kind_remote rule cidr
            ≡ ok (remote_router {H = H} reserved))
        × (ask_all eq lookup contains glob sound (remote_router reserved) hs
            ≡ map (λ h. road_by_ip (lookup h)) hs)
  unfolding new_router
  remote_router-reserved parse_cidr rule cidr hs bytes = (
    nets,
    loaded,
    refl,
    ask_all-cache eq lookup contains glob sound 63 behind hs (behind-Stateless bytes)
        ∙ map-answer bytes hs,
  )
