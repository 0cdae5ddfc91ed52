-- ===== src/Body/Marks.antt =====
-- The bytes and the marks of lists of links.

use ngx_brotli.Base.{
  or-false, or_false, ◌≡◌, refl, ap, sym, ◌∙◌, Bool, true, false, ◌||◌, Bytes, List, [], ◌∷◌, ◌++◌,
  length, take, append-nil, append_assoc, if◌then◌else◌,
}
use ngx_brotli.Body.Open.{contents, has_last, waiting_link, early_last, waiting}
use ngx_brotli.Body.Stream.{Piece}

pub take_all : (xs : Bytes) → take (length xs) xs ≡ xs
take_all [] = refl
take_all (x ∷ xs) = ap (◌∷◌ x) (take_all xs)

pub contents-append : (ps qs : List Piece) → contents (ps ++ qs) ≡ contents ps ++ contents qs
contents-append [] qs = refl
contents-append (p ∷ ps) qs =
    ap (◌++◌ p.content) (contents-append ps qs)
    ∙ sym (append_assoc p.content (contents ps) (contents qs))

-- A link moves from those that wait to those that are handed over.
pub contents-handed :
    (ready : Bool) (handed : List Piece) (b : Piece)
    → contents (if ready then handed ++ b ∷ [] else handed) ++ []
      ≡ contents handed ++ waiting ready b
contents-handed false handed b = refl
contents-handed true handed b =
    append-nil (contents (handed ++ b ∷ []))
    ∙ contents-append handed (b ∷ [])
    ∙ ap (◌++◌ (contents handed)) (append-nil b.content)

pub links-handed :
    (ready : Bool) (handed : List Piece) (b : Piece)
    → (if ready then handed ++ b ∷ [] else handed) ++ [] ≡ handed ++ waiting_link ready b
links-handed false handed b = refl
links-handed true handed b = append-nil (handed ++ b ∷ [])

pub early_last-snoc : (ps : List Piece) (p : Piece) → early_last (ps ++ p ∷ []) ≡ has_last ps
early_last-snoc [] p = refl
early_last-snoc (q ∷ []) p = refl
early_last-snoc (q ∷ r ∷ ps) p = ap (◌||◌ q.last_buf) (early_last-snoc (r ∷ ps) p)

pub has_last-snoc :
    (ps : List Piece) (p : Piece) → has_last ps ≡ false → has_last (ps ++ p ∷ []) ≡ p.last_buf
has_last-snoc [] p h = or-false p.last_buf
has_last-snoc (q ∷ ps) p h =
    ap (λ b. b || has_last (ps ++ p ∷ [])) (or_false q.last_buf (has_last ps) h).0
    ∙ has_last-snoc ps p (or_false q.last_buf (has_last ps) h).1
