-- ===== src/Body/Store.antt =====
-- The concrete encoder keeps the laws.
use mathlib.Core.Option.{none-ne-some, some-injective}
use mathlib.Core.Bool.{false≢true}
use ngx_brotli.Base.{
  ℕ, suc, ◌+◌, ◌≤◌, ◌<◌, ◌≡◌, refl, ap, sym, subst, ◌∙◌, Bool, true, false, ◌&&◌, ◌||◌, Bytes, [],
  ◌∷◌, ◌++◌, Option, none, some, arith, length, length-append, take, append-nil, ◌==◌, ==_iff,
}
use ngx_brotli.Body.Laws.{View, EncoderLaws, Progress, is_finishing}
use ngx_brotli.Body.Marks.{take_all}
use ngx_brotli.Body.Stream.{Operation, process, flushing, finishing}
use ngx_brotli.Body.StoreRuns.{
  Store, store_fed, store_repeated, store_attach, store_more, store_finished, store_take,
  store_compress, store, all_but_last, store_decode, store_view, store_closing, feeding, waiting,
  giving, spent,
}

all_but_last-snoc : (xs : Bytes) → all_but_last (xs ++ 3 ∷ []) ≡ some xs
all_but_last-snoc [] = refl
all_but_last-snoc (x ∷ []) = refl
all_but_last-snoc (x ∷ y ∷ ys) = rw (all_but_last-snoc (y ∷ ys)) refl

pub store_attached :
    (bytes : Bytes) (e e' : Store)
    → store_attach bytes e ≡ some e'
    → store_view e' ≡ record (store_view e) { dictionary = some bytes }
store_attached bytes (feeding d c) e' h =
    ap store_view (sym (some-injective (feeding (some bytes) c) e' h))
store_attached bytes (waiting d c) e' h = absurd (none-ne-some e' h)
store_attached bytes (giving d c) e' h = absurd (none-ne-some e' h)
store_attached bytes (spent d c) e' h = absurd (none-ne-some e' h)

pub store_took :
    (e : Store)
    → store_view (store_take e).1
      ≡ record (store_view e) { taken = (store_view e).taken ++ (store_take e).0 }
store_took (feeding d c) = refl
store_took (waiting d c) = refl
store_took (giving d c) = refl
store_took (spent d c) =
    ap (λ t. record (store_view (spent d c)) { taken = t }) (sym (append-nil (c ++ 3 ∷ [])))

abbrev store_seen : Option Bytes → Bytes → Bytes → Bool → View
store_seen d c taken closing = record {
  consumed = c;
  taken = taken;
  dictionary = d;
  closing = closing;
}

and_true : (a b : Bool) → b ≡ true → (a && b) ≡ a
and_true true b h = h
and_true false b h = refl

store_fed_view :
    (d : Option Bytes) (c xs : Bytes) (op : Operation)
    → store_view (store_fed d (c ++ xs) op)
      ≡ record { consumed = c ++ xs; taken = []; dictionary = d; closing = is_finishing op }
store_fed_view d c xs process = refl
store_fed_view d c xs flushing = refl
store_fed_view d c xs finishing = refl

store_fed_finished :
    (d : Option Bytes) (c : Bytes) (op : Operation) → store_finished (store_fed d c op) ≡ false
store_fed_finished d c process = refl
store_fed_finished d c flushing = refl
store_fed_finished d c finishing = refl

store_repeated_view :
    (d : Option Bytes) (c : Bytes) (op : Operation)
    → store_view (store_repeated d c op) ≡ store_seen d c [] true
store_repeated_view d c process = refl
store_repeated_view d c flushing = refl
store_repeated_view d c finishing = refl

store_repeated_finished :
    (d : Option Bytes) (c : Bytes) (op : Operation) → store_finished (store_repeated d c op) ≡ false
store_repeated_finished d c process = refl
store_repeated_finished d c flushing = refl
store_repeated_finished d c finishing = refl

-- What the laws say of one call.
abbrev StoreFed : Store → Operation → Bytes → Bool × ℕ × Store → Type 0
StoreFed e op xs (false, n, e') = Unit
StoreFed e op xs (true, n, e') =
    (n ≤ length xs)
    × (store_view e' ≡ record (store_view e) {
      consumed = (store_view e).consumed ++ take n xs;
      closing = (store_view e).closing || (is_finishing op && n == length xs);
    })
    × (store_finished e ≡ false → store_finished e' ≡ false)

store_compressed :
    (op : Operation) (xs : Bytes) (e : Store) → StoreFed e op xs (store_compress op xs e)
store_compressed op xs (feeding d c) = (
  omega arith,
  store_fed_view d c xs op
      ∙ ap (λ t. store_seen d (c ++ t) [] (is_finishing op)) (sym (take_all xs))
      ∙ ap (store_seen d (c ++ take (length xs) xs) []) (
          sym (
            and_true (is_finishing op) (length xs == length xs)
              ((==_iff (length xs) (length xs)).1 refl))),
  λ _. store_fed_finished d (c ++ xs) op,
)
store_compressed op [] (waiting d c) = (
  omega arith,
  store_repeated_view d c op ∙ ap (λ t. store_seen d t [] true) (sym (append-nil c)),
  λ _. store_repeated_finished d c op,
)
store_compressed op (x ∷ xs) (waiting d c) = tt
store_compressed op [] (giving d c) =
    (omega arith, ap (λ t. store_seen d t [] true) (sym (append-nil c)), λ _. refl)
store_compressed op (x ∷ xs) (giving d c) = tt
store_compressed op [] (spent d c) =
    (omega arith, ap (λ t. store_seen d t (c ++ 3 ∷ []) true) (sym (append-nil c)), λ h. h)
store_compressed op (x ∷ xs) (spent d c) = tt

pub store_call :
    (op : Operation) (xs : Bytes) (e e' : Store) (n : ℕ)
    → store_compress op xs e ≡ (true, n, e')
    → StoreFed e op xs (true, n, e')
store_call op xs e e' n h = subst (StoreFed e op xs) h (store_compressed op xs e)

pub store_closed : (e : Store) → store_finished e ≡ true → store_closing e ≡ true
store_closed (feeding d c) h = absurd (false≢true h)
store_closed (waiting d c) h = absurd (false≢true h)
store_closed (giving d c) h = absurd (false≢true h)
store_closed (spent d c) h = refl

pub store_decodes :
    (e : Store)
    → store_finished e ≡ true
    → store_decode (store_view e).dictionary (store_view e).taken ≡ some (store_view e).consumed
store_decodes (feeding d c) h = absurd (false≢true h)
store_decodes (waiting d c) h = absurd (false≢true h)
store_decodes (giving d c) h = absurd (false≢true h)
store_decodes (spent d c) h = all_but_last-snoc c

-- The laws of the body filter's encoder can hold.
abbrev pub store_laws : EncoderLaws store store_decode
store_laws = record {
  view = store_view;
  created = λ e h. ap store_view (sym (some-injective (feeding none []) e h));
  parameter_set = λ p n e. refl;
  dictionary_attached = λ bytes n e e' h. store_attached bytes e e' h;
  took = store_took;
  consumes = λ op xs e e' n h. (store_call op xs e e' n h).0;
  compressed = λ op xs e e' n h. (store_call op xs e e' n h).1;
  unfinished = λ op xs e e' n h. (store_call op xs e e' n h).2;
  finished = store_closed;
  decodes = λ e h more. store_decodes e h;
}

abbrev store_pending : Store → ℕ
store_pending (feeding d c) = 0
store_pending (waiting d c) = suc (suc (length c))
store_pending (giving d c) = suc (length c)
store_pending (spent d c) = 0

pub store_drains :
    (e : Store) → store_pending (store_take e).1 + length (store_take e).0 ≤ store_pending e
store_drains (feeding d c) = omega arith
store_drains (waiting d c) = omega arith
store_drains (giving d c) = omega (arith, length-append c (3 ∷ []))
store_drains (spent d c) = omega arith

pub store_repeats :
    (e e' : Store) (n : ℕ)
    → store_closing e ≡ true
    → store_more e ≡ false
    → store_finished e ≡ false
    → store_compress finishing [] e ≡ (true, n, e')
    → store_pending e' < store_pending e
store_repeats (feeding d c) e' n h more unfinished call = absurd (false≢true h)
store_repeats (waiting d c) e' n h more unfinished call =
    subst (λ e. store_pending e < store_pending (waiting d c))
      (ap (λ (x : Bool × ℕ × Store). x.2) call) (omega arith)
store_repeats (giving d c) e' n h more unfinished call = absurd (false≢true (sym more))
store_repeats (spent d c) e' n h more unfinished call = absurd (false≢true (sym unfinished))

abbrev pub store_progress : Progress store store_closing
store_progress = record { pending = store_pending; drains = store_drains; repeats = store_repeats }
