-- ===== src/Baboon/Mask.antt =====
-- Server.ServeMask of protocol/baboon/engine.go: the masked web site. `is_request` says whether
-- http.NewRequest takes a method and an address, and `answer_of` is http.DefaultClient.Do, with
-- `none` for an error. A header is the pairs of a name and its values, in the order in which Go's
-- range gives them. The body is read to its end.
pub mod Copied
use daze.Base.{ℕ, Bool, true, false, Option, none, some, List, [], ◌∷◌, ◌++◌, if◌then◌else◌}

abbrev pub Header : Type 0
Header = List (List ℕ × List (List ℕ))

pub record Request : Type 0 where
  pub method : List ℕ
  pub uri : List ℕ
  pub header : Header
  pub body : List ℕ

pub record Answer : Type 0 where
  pub status : ℕ
  pub header : Header
  pub body : List ℕ

-- http.ResponseWriter: the pairs added to its header, the status and what has been written.
pub record Writer : Type 0 where
  pub added : List (List ℕ × List ℕ)
  pub status : Option ℕ
  pub body : List ℕ

-- The loops over the header: `w.Header().Add(k, e)`.
unfoldable pub add_values : List ℕ → List (List ℕ) → Writer → Writer
add_values k [] w = w
add_values k (e ∷ es) w = add_values k es (record w { added = w.added ++ (k, e) ∷ [] })

unfoldable pub add_header : Header → Writer → Writer
unfolding add_values
add_header [] w = w
add_header ((k, v) ∷ h) w = add_header h (add_values k v w)

unfoldable pub copy_answer : Option Answer → Writer → Writer
unfolding add_header
copy_answer none w = w
copy_answer (some a) w =
    let h = add_header a.header w in record h { status = some a.status; body = h.body ++ a.body }

-- The request to the masked site: the visitor's, at another place.
abbrev pub forwarded : List ℕ → Request → Request
forwarded masker r = record r { uri = masker ++ r.uri }

-- `Server.ServeMask`
unfoldable pub serve_mask :
    (List ℕ → List ℕ → Bool) → (Request → Option Answer) → List ℕ → Request → Writer → Writer
unfolding copy_answer
serve_mask is_request answer_of masker r w =
    if is_request r.method (masker ++ r.uri)
    then copy_answer (answer_of (forwarded masker r)) w
    else w
