-- ===== src/Loading/Listed.antt =====
-- The dictionaries of a location and their hashes.
use mathlib.Core.Bool.{false≢true}
use mathlib.Core.Option.{none-ne-some}
use ngx_brotli.Base.{
  if_cases, or_false, ℕ, ◌≡◌, refl, sym, subst, Bool, true, false, not, Bytes, List, [], ◌∷◌, ◌++◌,
  Option, none, some, if◌then◌else◌, ==_iff, ◌⊎◌, inl, inr,
}
use ngx_brotli.Dcb.Granted.{Among}
use ngx_brotli.Dcb.{Dict, same_bytes, find_dict}
use ngx_brotli.Loading.Accepts.{dcb_dict_file-Accepted}
use ngx_brotli.Loading.Load.{Main, has_hash, dicts_of, dcb_dict_file}
use ngx_brotli.Loading.{System, accepted}

same_bytes_refl : (xs : Bytes) → same_bytes xs xs ≡ true
unfolding same_bytes
same_bytes_refl [] = refl
same_bytes_refl (x ∷ xs) = rw ((==_iff x x).1 refl) (same_bytes_refl xs)

not-true : (b : Bool) → not b ≡ true → b ≡ false
not-true true h = absurd (false≢true h)
not-true false h = refl

find_dict-append :
    (hash : Bytes) (ds es : List Dict) (d : Dict)
    → find_dict hash ds ≡ some d
    → find_dict hash (ds ++ es) ≡ some d
unfolding find_dict
find_dict-append hash [] es d h = absurd (none-ne-some d h)
find_dict-append hash (x ∷ ds) es d h =
    if_cases
      (λ y.
        y ≡ some d
        → (if same_bytes x.hash hash then some x else find_dict hash (ds ++ es)) ≡ some d)
      (same_bytes x.hash hash) (some x) (find_dict hash ds) (λ same k. rw (same) k)
      (λ differs k. rw (differs) (find_dict-append hash ds es d k)) h

find_dict-last :
    (ds : List Dict) (d : Dict)
    → has_hash d.hash ds ≡ false
    → find_dict d.hash (ds ++ d ∷ []) ≡ some d
unfolding find_dict has_hash
find_dict-last [] d h = rw (same_bytes_refl d.hash) refl
find_dict-last (x ∷ ds) d h =
    let differs = or_false (same_bytes x.hash d.hash) (has_hash d.hash ds) h in
    rw (differs.0) (find_dict-last ds d differs.1)

Among-append : (d x : Dict) (ds : List Dict) → Among d (ds ++ x ∷ []) → Among d ds ⊎ (d ≡ x)
Among-append d x [] (inl h) = inr h
Among-append d x [] (inr k) = absurd k
Among-append d x (y ∷ ds) (inl h) = inl (inl h)
Among-append d x (y ∷ ds) (inr k) = elim (Among-append d x ds k) [
  | inl m ↦ inl (inr m)
  | inr h ↦ inr h
]

-- The list that the directives of one location built.
pub data Listed (D F : Type 0) : Option (List Dict) → Type 0 where
  unset : Listed D F none
  added :
      {dicts : Option (List Dict)}
      → Listed D F dicts
      → (sys : System D F) (fuel : ℕ) (name : Bytes) (text : Option Bytes) (m m' : Main)
        (ds' : List Dict)
      → dcb_dict_file sys fuel name text m dicts ≡ accepted (m', ds')
      → Listed D F (some ds')

-- Every dictionary that a location loaded is the one that the negotiation finds by its hash.
pub Listed-find_dict :
    {D F : Type 0} {dicts : Option (List Dict)} (d : Dict)
    → Listed D F dicts
    → Among d (dicts_of dicts)
    → find_dict d.hash (dicts_of dicts) ≡ some d
Listed-find_dict d unset among = absurd among
Listed-find_dict d (added {dicts} k sys fuel name text m m' ds' call) among =
    let a = dcb_dict_file-Accepted sys fuel name text m dicts m' ds' call in
    let p = a.passed in
    let x : Dict = record { file = a.path; bytes = p.bytes; hash = p.key } in
    let ds = dicts_of dicts in
    subst (λ ds. find_dict d.hash ds ≡ some d) (sym p.kept)
      (elim (Among-append d x ds (subst (Among d) p.kept among)) [
        | inl old ↦ find_dict-append d.hash ds (x ∷ []) d (Listed-find_dict d k old)
        | inr new ↦
            subst (λ d. find_dict d.hash (ds ++ x ∷ []) ≡ some d) (sym new)
              (find_dict-last ds x (not-true (has_hash x.hash ds) p.fresh))
      ])
