-- ===== src/Baboon.antt =====
-- protocol/baboon: ashe behind a web site. The server tells its own clients from others by the
-- Authorization header of a request (Server.Route), which Client.Dial signs. `md5`, `hex_encode`
-- and `hex_decode` stand for the standard library's.
pub mod Signature
pub mod Engine
pub mod Disguise
pub mod Hijacked
pub mod Mask
use daze.Base.{
  ℕ, Bool, true, false, Option, none, some, List, [], ◌∷◌, ◌++◌, length, take, drop, ◌==◌,
  if◌then◌else◌,
}

-- The loop over the bytes of the signature.
unfoldable pub same_bytes : List ℕ → List ℕ → Bool
same_bytes [] [] = true
same_bytes [] (c ∷ cs) = false
same_bytes (b ∷ bs) [] = false
same_bytes (b ∷ bs) (c ∷ cs) = let rest = same_bytes bs cs in if b == c then rest else false

module _ (md5 hex_encode : List ℕ → List ℕ) (hex_decode : List ℕ → Option (List ℕ)) where
  -- Route behind the decoding.
  unfoldable pub check_auth : List ℕ → List ℕ → ℕ
  check_auth cipher bytes =
      if length bytes == 32
      then (if same_bytes (drop 16 bytes) (md5 (take 16 bytes ++ take 16 cipher)) then 1 else 0)
      else 0

  unfoldable pub decoded : List ℕ → Option (List ℕ) → ℕ
  unfolding check_auth
  decoded cipher none = 0
  decoded cipher (some bytes) = check_auth cipher bytes

  -- `Server.Route` for the text of the header, which is empty where there is none: 0 is the web
  -- site, 1 is ashe.
  unfoldable pub route : List ℕ → List ℕ → ℕ
  unfolding decoded
  route cipher [] = 0
  route cipher (b ∷ bs) = decoded cipher (hex_decode (b ∷ bs))

  -- The header that `Client.Dial` sets, from its 16 random bytes.
  unfoldable pub authorization : List ℕ → List ℕ → List ℕ
  authorization cipher rand = hex_encode (rand ++ md5 (rand ++ take 16 cipher))
