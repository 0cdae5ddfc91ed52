-- ===== src/Loading/Reads.antt =====
-- The read loop under the laws of read(2), and its fuel.
use ngx_brotli.Base.{
  if_cases, ℕ, zero, suc, ◌+◌, ◌-◌, ◌≤◌, ◌<◌, ◌≡◌, refl, ap, sym, ◌∙◌, Bytes, [], ◌∷◌, ◌++◌, arith,
  ltb, length, take, append-nil, append_assoc, length-append, ◌⊎◌, inl, inr,
}
use ngx_brotli.Loading.Read.{after_read, read_loop, read_dict_file}
use ngx_brotli.Loading.{
  System, Reading, failed, interrupted, got, Result, refused, unfinished, accepted,
}

pub take-more : (n : ℕ) (xs : Bytes) → length xs ≤ n → take n xs ≡ xs
take-more zero [] h = refl
take-more (suc n) [] h = refl
take-more zero (x ∷ xs) h = absurd (omega (arith, h))
take-more (suc n) (x ∷ xs) h = ap (◌∷◌ x) (take-more n xs (omega (arith, h)))

take-append : (n : ℕ) (xs ys : Bytes) → length xs ≡ n → take n (xs ++ ys) ≡ xs
take-append zero [] ys h = refl
take-append zero (x ∷ xs) ys h = absurd (omega (arith, h))
take-append (suc n) [] ys h = absurd (omega (arith, h))
take-append (suc n) (x ∷ xs) ys h = ap (◌∷◌ x) (take-append n xs ys (omega (arith, h)))

-- What read(2) promises of a regular file: `rest` are the bytes from the offset to the end, and
-- `patience` bounds the interruptions still to come.
pub record ReadLaws {D F : Type 0} (sys : System D F) : Type 0 where
  pub rest : F → Bytes
  pub patience : F → ℕ
  pub gives :
      (fd fd' : F) (n : ℕ) (xs : Bytes)
      → sys.read_fd fd n ≡ (got xs, fd')
      → (rest fd ≡ xs ++ rest fd') × (length xs ≤ n) × (patience fd' ≤ patience fd)
  pub ends : (fd fd' : F) (n : ℕ) → sys.read_fd fd (suc n) ≡ (got [], fd') → rest fd ≡ []
  pub stays :
      (fd fd' : F) (n : ℕ)
      → sys.read_fd fd n ≡ (interrupted, fd')
      → (rest fd' ≡ rest fd) × (patience fd' < patience fd)

-- A result that is accepted has the property.
abbrev Holds : (Bytes → Type 0) → Result Bytes → Type 0
Holds P refused = Unit
Holds P unfinished = Unit
Holds P (accepted bytes) = P bytes

-- The fuel did not end.
abbrev Ended : Result Bytes → Type 0
Ended refused = Unit
Ended unfinished = ⊥
Ended (accepted bytes) = Unit

module _ {D F : Type 0} {sys : System D F} (laws : ReadLaws sys) where
  -- A read in the loop, with `k` more than zero bytes to go.
  after_read-Holds :
      (next : Bytes → F → Result Bytes) (size k : ℕ) (whole done : Bytes) (fd : F) (x : Reading × F)
      → length done + suc k ≡ size
      → whole ≡ done ++ laws.rest fd
      → sys.read_fd fd (suc k) ≡ x
      → ((done : Bytes) (fd : F)
          → length done ≤ size
          → whole ≡ done ++ laws.rest fd
          → Holds (λ bytes. bytes ≡ take size whole) (next done fd))
      → Holds (λ bytes. bytes ≡ take size whole) (after_read next done x)
  after_read-Holds next size k whole done fd (failed, fd') left inv call ih = tt
  after_read-Holds next size k whole done fd (interrupted, fd') left inv call ih =
      ih done fd' (omega (arith, left))
        (inv ∙ ap (◌++◌ done) (sym (laws.stays fd fd' (suc k) call).0))
  after_read-Holds next size k whole done fd (got [], fd') left inv call ih =
      let all : whole ≡ done = inv ∙ ap (◌++◌ done) (laws.ends fd fd' k call) ∙ append-nil done in
      sym (take-more size whole (omega (arith, left, ap length all)) ∙ all)
  after_read-Holds next size k whole done fd (got (c ∷ cs), fd') left inv call ih =
      let h = laws.gives fd fd' (suc k) (c ∷ cs) call in
      ih (done ++ c ∷ cs) fd' (omega (arith, left, h.1, length-append done (c ∷ cs)))
        (inv ∙ ap (◌++◌ done) h.0 ∙ sym (append_assoc done (c ∷ cs) (laws.rest fd')))

  read_loop-Holds :
      (fuel size : ℕ) (whole done : Bytes) (fd : F)
      → length done ≤ size
      → whole ≡ done ++ laws.rest fd
      → Holds (λ bytes. bytes ≡ take size whole) (read_loop sys fuel size done fd)
  unfolding read_loop
  read_loop-Holds zero size whole done fd le inv = tt
  read_loop-Holds (suc fuel) size whole done fd le inv =
      if_cases (Holds (λ bytes. bytes ≡ take size whole)) (ltb (length done) size)
        (after_read (read_loop sys fuel size) done (sys.read_fd fd (size - length done)))
        (accepted done)
        (λ less.
          let k = size - length done - 1 in
          let left : length done + suc k ≡ size = ground (arith, less) in
          after_read-Holds (read_loop sys fuel size) size k whole done fd
            (sys.read_fd fd (size - length done)) left inv
            (ap (sys.read_fd fd) (ground (arith, less)))
            (λ done fd. read_loop-Holds fuel size whole done fd))
        (λ full.
          let same : length done ≡ size = ground (arith, le, full) in
          sym (ap (take size) inv ∙ take-append size done (laws.rest fd) same))

  after_read-Ended :
      (next : Bytes → F → Result Bytes) (fuel size k : ℕ) (done : Bytes) (fd : F) (x : Reading × F)
      → length done + suc k ≡ size
      → (size - length done) + laws.patience fd < suc fuel
      → sys.read_fd fd (suc k) ≡ x
      → ((done : Bytes) (fd : F)
          → (size - length done) + laws.patience fd < fuel
          → Ended (next done fd))
      → Ended (after_read next done x)
  after_read-Ended next fuel size k done fd (failed, fd') left less call ih = tt
  after_read-Ended next fuel size k done fd (interrupted, fd') left less call ih =
      ih done fd' (omega (arith, less, (laws.stays fd fd' (suc k) call).1))
  after_read-Ended next fuel size k done fd (got [], fd') left less call ih = tt
  after_read-Ended next fuel size k done fd (got (c ∷ cs), fd') left less call ih =
      let h = laws.gives fd fd' (suc k) (c ∷ cs) call in
      ih (done ++ c ∷ cs) fd' (omega (arith, left, less, h.2, length-append done (c ∷ cs)))

  read_loop-Ended :
      (fuel size : ℕ) (done : Bytes) (fd : F)
      → (size - length done) + laws.patience fd < fuel
      → Ended (read_loop sys fuel size done fd)
  unfolding read_loop
  read_loop-Ended zero size done fd less = absurd (omega (arith, less))
  read_loop-Ended (suc fuel) size done fd less =
      if_cases Ended (ltb (length done) size)
        (after_read (read_loop sys fuel size) done (sys.read_fd fd (size - length done)))
        (accepted done)
        (λ more.
          let k = size - length done - 1 in
          let left : length done + suc k ≡ size = ground (arith, more) in
          after_read-Ended (read_loop sys fuel size) fuel size k done fd
            (sys.read_fd fd (size - length done)) left less
            (ap (sys.read_fd fd) (ground (arith, more)))
            (λ done fd. read_loop-Ended fuel size done fd))
        (λ _. tt)

Ended-Holds :
    (x : Result Bytes) (bytes : Bytes)
    → Ended x
    → Holds (λ b. b ≡ bytes) x
    → (x ≡ refused) ⊎ (x ≡ accepted bytes)
Ended-Holds refused bytes e h = inl refl
Ended-Holds unfinished bytes e h = absurd e
Ended-Holds (accepted b) bytes e h = inr (ap accepted h)

-- The read loop ends, whatever short and interrupted reads it meets, with fuel for each byte and each
-- interruption, if reads behave as read(2) does: it fails, or it gives the file's bytes, up to the
-- requested size.
pub read_dict_file-take :
    {D F : Type 0} {sys : System D F} (laws : ReadLaws sys) (fuel : ℕ) (fd : F) (size : ℕ)
    → size + laws.patience fd < fuel
    → (read_dict_file sys fuel fd size ≡ refused)
      ⊎ (read_dict_file sys fuel fd size ≡ accepted (take size (laws.rest fd)))
unfolding read_dict_file
read_dict_file-take {sys} laws fuel fd size less =
    Ended-Holds (read_loop sys fuel size [] fd) (take size (laws.rest fd))
      (read_loop-Ended laws fuel size [] fd (omega (arith, less)))
      (read_loop-Holds laws fuel size (laws.rest fd) [] fd (omega arith) refl)
