-- ===== src/Body/Joins.antt =====
-- Links and their bodies, pulled apart and joined: the lists behind the invariant of the main loop.
use mathlib.Core.Bool.{false≢true}
use ngx_brotli.Base.{
  ℕ, zero, suc, ◌≡◌, refl, ap, sym, ◌∙◌, Bool, true, false, not, ◌&&◌, ◌||◌, Bytes, List, [], ◌∷◌,
  ◌++◌, arith, length, take, drop, append-nil, append_assoc, take-append-drop, inl, inr, ◌==◌,
  Bool-cases,
}
use ngx_brotli.Body.Marks.{}
use ngx_brotli.Body.Laws.{is_finishing}
use ngx_brotli.Body.Open.{body_bytes, has_last, to_come}
use ngx_brotli.Body.Rounds.{operation_of}
use ngx_brotli.Body.Stream.{Piece}
use ngx_brotli.Dcb.{}

pub take-nil : (n : ℕ) → take {A = ℕ} n [] ≡ []
take-nil zero = refl
take-nil (suc n) = refl

pub is_finishing-operation_of : (p : Piece) → is_finishing (operation_of p) ≡ p.last_buf
is_finishing-operation_of p = ground arith

-- A link in front of those to come, of which the encoder consumed a part.
pub split_body :
    (p : Piece) (n : ℕ) (ps : List Piece)
    → body_bytes (p ∷ ps)
      ≡ take n p.content ++ body_bytes (record p { content = drop n p.content } ∷ ps)
split_body p n ps = elim (Bool-cases p.last_buf) [
  | inl h ↦ rw (h) (sym (take-append-drop n p.content))
  | inr h ↦ rw (h) (
      ap (λ c. c ++ body_bytes ps) (sym (take-append-drop n p.content))
      ∙ append_assoc (take n p.content) (drop n p.content) (body_bytes ps))
]

-- A link that is consumed whole: nothing is to come behind the last one.
pub pass_body :
    (p : Piece) (eoi : Bool) (ps : List Piece)
    → eoi ≡ false
    → body_bytes (p ∷ ps) ≡ p.content ++ to_come (p.last_buf || eoi) ps
pass_body p true ps e = absurd (false≢true (sym e))
pass_body p false ps e = elim (Bool-cases p.last_buf) [
  | inl h ↦ rw (h) (sym (append-nil p.content))
  | inr h ↦ rw (h) refl
]

drop_said :
    (content : Bytes) (last_buf flush : Bool) (ps : List Piece)
    → (length content == 0 && (not last_buf && not flush)) ≡ true
    → body_bytes (record { content = content; last_buf = last_buf; flush = flush } ∷ ps)
      ≡ body_bytes ps
drop_said [] false flush ps h = refl
drop_said [] true flush ps h = absurd (false≢true h)
drop_said (x ∷ xs) last_buf flush ps h = ground arith

-- An empty link that says nothing is passed over.
pub drop_body :
    (p : Piece) (ps : List Piece)
    → (length p.content == 0 && (not p.last_buf && not p.flush)) ≡ true
    → body_bytes (p ∷ ps) ≡ body_bytes ps
drop_body p ps h = drop_said p.content p.last_buf p.flush ps h

pub or_swap : (a b c : Bool) → (a || (b || c)) ≡ ((b || a) || c)
or_swap true true c = refl
or_swap true false c = refl
or_swap false true c = refl
or_swap false false c = refl

not_said :
    (empty last_buf flush c : Bool)
    → (empty && (not last_buf && not flush)) ≡ true
    → (last_buf || c) ≡ c
not_said empty false flush c h = refl
not_said true true flush c h = absurd (false≢true h)
not_said false true flush c h = absurd (false≢true h)

-- Such a link is not the last one.
pub drop_last :
    (p : Piece) (ps : List Piece)
    → (length p.content == 0 && (not p.last_buf && not p.flush)) ≡ true
    → has_last (p ∷ ps) ≡ has_last ps
drop_last p ps h = not_said (length p.content == 0) p.last_buf p.flush (has_last ps) h

-- A whole link closes the encoder when it is the last one; a part never does.
pub whole_shuts :
    (closing finishes all last eoi : Bool)
    → (closing ≡ true → eoi ≡ true)
    → finishes ≡ last
    → (closing || (finishes && all)) ≡ true
    → (last || eoi) ≡ true
whole_shuts true finishes all true eoi h f k = refl
whole_shuts true finishes all false eoi h f k = h refl
whole_shuts false true all true eoi h f k = refl
whole_shuts false true all false eoi h f k = absurd (false≢true (sym f))
whole_shuts false false all last eoi h f k = absurd (false≢true k)

pub part_shuts :
    (closing finishes all eoi : Bool)
    → (closing ≡ true → eoi ≡ true)
    → all ≡ false
    → (closing || (finishes && all)) ≡ true
    → eoi ≡ true
part_shuts true finishes all eoi h f k = h refl
part_shuts false true all eoi h f k = absurd (false≢true (sym f ∙ k))
part_shuts false false all eoi h f k = absurd (false≢true k)
