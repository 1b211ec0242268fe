-- ===== src/Baboon/Mask/Copied.antt =====
-- What a visitor of the masked web site gets.
use daze.Base.{
  ℕ, ◌≡◌, refl, ◌∙◌, ap, sym, Bool, true, false, Option, none, some, List, [], ◌∷◌, ◌++◌,
  append_assoc, append-nil, Bool-cases, inl, inr,
}
use daze.Baboon.Mask.{
  Header, Request, Answer, Writer, add_values, add_header, copy_answer, forwarded, serve_mask,
}

-- A header as the pairs of a name and one value.
abbrev pub with_name : List ℕ → List (List ℕ) → List (List ℕ × List ℕ)
with_name k [] = []
with_name k (e ∷ es) = (k, e) ∷ with_name k es

abbrev pub pairs : Header → List (List ℕ × List ℕ)
pairs [] = []
pairs ((k, v) ∷ h) = with_name k v ++ pairs h

add_values_lem :
    (k : List ℕ) (v : List (List ℕ)) (w : Writer)
    → add_values k v w ≡ record w { added = w.added ++ with_name k v }
unfolding add_values
add_values_lem k [] w = ap (λ x. record w { added = x }) (sym (append-nil w.added))
add_values_lem k (e ∷ es) w =
    add_values_lem k es (record w { added = w.added ++ (k, e) ∷ [] })
    ∙ ap (λ x. record w { added = x }) (append_assoc w.added ((k, e) ∷ []) (with_name k es))

add_header_lem :
    (h : Header) (w : Writer) → add_header h w ≡ record w { added = w.added ++ pairs h }
unfolding add_header
add_header_lem [] w = ap (λ x. record w { added = x }) (sym (append-nil w.added))
add_header_lem ((k, v) ∷ h) w =
    add_header_lem h (add_values k v w)
    ∙ rw (add_values_lem k v w)
        (ap (λ x. record w { added = x }) (append_assoc w.added (with_name k v) (pairs h)))

-- The answer that nothing has been written to.
abbrev pub blank : Writer
blank = record { added = []; status = none; body = [] }

-- What a visitor has got of an answer of the site.
pub record Mirrored (a : Answer) (w : Writer) : Type 0 where
  pub status : w.status ≡ some a.status
  pub header : w.added ≡ pairs a.header
  pub body : w.body ≡ a.body

-- The site's answer to the visitor's request: to one of the same method, header and body, for the
-- same path at the site's address.
pub record Asked (answer_of : Request → Option Answer) (masker : List ℕ) (r : Request)
    (o : Option Answer) : Type 0 where
  pub question : Request
  pub method : question.method ≡ r.method
  pub uri : question.uri ≡ masker ++ r.uri
  pub header : question.header ≡ r.header
  pub body : question.body ≡ r.body
  pub answered : answer_of question ≡ o

copied : (a : Answer) (w : Writer) → w ≡ copy_answer (some a) blank → Mirrored a w
unfolding copy_answer
copied a w e =
    rw (e, add_header_lem a.header blank) (record { status = refl; header = refl; body = refl })

Asked-forwarded :
    (answer_of : Request → Option Answer) (masker : List ℕ) (r : Request) (o : Option Answer)
    → Asked answer_of masker r o
    → answer_of (forwarded masker r) ≡ o
Asked-forwarded answer_of masker r o q = rw (← q.method, ← q.uri, ← q.header, ← q.body) q.answered

-- Where there is a request of the visitor's method for the site's address and the visitor's path:
-- what the site answers to the visitor's method, header and body there is what the visitor gets, the
-- status, each value of the header in its order under its name, and the body; and the visitor gets
-- nothing where the site gives no answer. Where there is no such request the visitor gets nothing.
pub serve_mask-Mirrored :
    (is_request : List ℕ → List ℕ → Bool) (answer_of : Request → Option Answer) (masker : List ℕ)
    (r : Request) (o : Option Answer)
    → Asked answer_of masker r o
    → let w = serve_mask is_request answer_of masker r blank in
      (is_request r.method (masker ++ r.uri) ≡ false → w ≡ blank)
      × (o ≡ none → w ≡ blank)
      × ((a : Answer) → is_request r.method (masker ++ r.uri) ≡ true → o ≡ some a → Mirrored a w)
unfolding serve_mask copy_answer
serve_mask-Mirrored is_request answer_of masker r o q =
    let e = Asked-forwarded answer_of masker r o q in
    (
      λ no_request. rw (no_request) refl,
      λ no_answer. elim (Bool-cases (is_request r.method (masker ++ r.uri))) [
        | inl y ↦ rw (serve_mask, y, e, no_answer) refl
        | inr y ↦ rw (serve_mask, y) refl
      ],
      λ a good some_answer. copied a _ (rw (serve_mask, good, e, some_answer) refl),
    )
