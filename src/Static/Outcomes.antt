-- ===== src/Static/Outcomes.antt =====
-- The proof that `serve` ends as Sends says.
use mathlib.Core.Bool.{true≢false, false≢true}
use ngx_brotli.Base.{
  ◌≡◌, ◌≢◌, refl, ap, sym, subst, ◌∙◌, Bool, true, false, not, ◌||◌, Bytes, List, [], ◌∷◌, ◌++◌,
  some, codes, ◌⊎◌, inl, inr, if_cases, append_assoc,
}
use ngx_brotli.Request.{
  Method, get, head, other, Header, Request, allocate, push_header, new_header,
}
use ngx_brotli.Static.{
  Code, ok, error, again, declined, status, FileInfo, Server, is_head, is_stopped, body_of, output,
  with_buffer, send, encoded, typed, tagged, discarded, serve,
}
use ngx_brotli.Static.Sends.{
  Extends, Keeps, Short, Stops, prepared, Follows, Outcome, refuses, untagged, untyped, no_room,
  sent,
}

module _ (path : Bytes) (file : FileInfo) where
  module _ (server : Server) where
    is_head-cases :
        (m : Method) → ((m ≡ head) × (is_head m ≡ true)) ⊎ ((m ≢ head) × (is_head m ≡ false))
    is_head-cases get = inr (λ e. false≢true (ap is_head e), refl)
    is_head-cases head = inl (refl, refl)
    is_head-cases other = inr (λ e. false≢true (ap is_head e), refl)

    is_stopped-cases :
        (code : Code)
        → (Stops code × (is_stopped code ≡ true)) ⊎ ((¬ Stops code) × (is_stopped code ≡ false))
    is_stopped-cases ok = inr (λ h. h, refl)
    is_stopped-cases error = inl (tt, refl)
    is_stopped-cases again = inr (λ h. h, refl)
    is_stopped-cases declined = inr (λ h. h, refl)
    is_stopped-cases (status n) = inl (tt, refl)

    output-Follows : (y : Code × Request) → Follows path file server y (output server path file y)
    output-Follows (code, q) = elim (is_stopped-cases code) [
      | inl (s, e) ↦ rw e (inl (inl s, refl))
      | inr (n, e) ↦
          if_cases (Follows path file server (code, q)) (is_stopped code || q.header_only) (code, q)
            (server.output_filter (body_of server path file q) q)
            (λ h. inl (inr (sym (ap (λ b. b || q.header_only) e) ∙ h), refl))
            (λ h. inr (
              λ s. elim s [
                | inl s ↦ n s
                | inr only ↦ true≢false (sym only ∙ sym (ap (λ b. b || q.header_only) e) ∙ h)
              ],
              refl,
            ))
    ]

    -- The pool behind the push of Content-Encoding.
    send-Outcome :
        (r : Request) (hs : List Header) (pool : List Bool)
        → r.pool ≡ true ∷ pool
        → Outcome path file server r (send server path file (prepared path file r hs pool))
    send-Outcome r hs pool e = elim (is_head-cases r.method) [
      | inl (m, h) ↦ rw h (sent hs pool (inl (m, refl)))
      | inr (m, h) ↦ rw h (allocated pool e m)
    ]
      where
        allocated :
            (pool : List Bool)
            → r.pool ≡ true ∷ pool
            → r.method ≢ head
            → Outcome path file server r
                (with_buffer server path file (allocate (prepared path file r hs pool)))
        allocated [] e m = no_room (subst (Short 3) (sym e) tt) refl
        allocated (false ∷ pool) e m = no_room (subst (Short 3) (sym e) tt) refl
        allocated (true ∷ []) e m = no_room (subst (Short 3) (sym e) tt) refl
        allocated (true ∷ false ∷ pool) e m = no_room (subst (Short 3) (sym e) tt) refl
        allocated (true ∷ true ∷ pool) e m =
            sent hs pool
              (inr (m, output-Follows (server.send_header (prepared path file r hs pool))))

    -- The request in front of the push of Content-Encoding.
    abbrev described : Request → List Header → Request
    described r hs = record r {
      root_tested = not r.error_page;
      status = 200;
      content_length_n = some file.size;
      last_modified_time = file.mtime;
      headers_out = r.headers_out ++ hs;
    }

    abbrev coding_header : Header
    coding_header = new_header (codes "Content-Encoding") (codes "br")

    push-Outcome :
        (r : Request) (hs : List Header)
        → Outcome path file server r
            (encoded server path file (push_header coding_header (described r hs)))
    push-Outcome r hs = by_pool r.pool refl
      where
        by_pool :
            (pool : List Bool)
            → r.pool ≡ pool
            → Outcome path file server r (
                encoded server path file
                  (push_header coding_header (record (described r hs) { pool = pool })))
        by_pool [] e = no_room (subst (Short 3) (sym e) tt) refl
        by_pool (false ∷ pool) e = no_room (subst (Short 3) (sym e) tt) refl
        by_pool (true ∷ pool) e = send-Outcome r hs pool e

    described-Extends :
        (r q q' : Request) (hs : List Header)
        → q ≡ described r hs
        → Extends q q'
        → (ks : List Header) × (q' ≡ described r ks)
    described-Extends r q q' hs e (hs', f) = (
      hs ++ hs',
      f
          ∙ ap (λ (q : Request). record q { headers_out = q.headers_out ++ hs' }) e
          ∙ ap (λ ks. record (described r hs) { headers_out = ks })
              (append_assoc r.headers_out hs hs'),
    )

    module _ (keeps : Keeps server) where
      type-Outcome :
          (r q : Request) (hs : List Header) (y : Bool × Request)
          → q ≡ described r hs
          → server.set_content_type q ≡ y
          → Outcome path file server r (typed server path file y)
      type-Outcome r q hs (false, q') e h = untyped q h refl
      type-Outcome r q hs (true, q') e h =
          let (ks, f) = described-Extends r q q' hs e (keeps.types q q' h) in
          subst
            (λ q.
              Outcome path file server r (encoded server path file (push_header coding_header q)))
            (sym f) (push-Outcome r ks)

      tag-Outcome :
          (r q : Request) (hs : List Header) (y : Bool × Request)
          → q ≡ described r hs
          → server.set_etag q ≡ y
          → Outcome path file server r (tagged server path file y)
      tag-Outcome r q hs (false, q') e h = untagged q h refl
      tag-Outcome r q hs (true, q') e h =
          let (ks, f) = described-Extends r q q' hs e (keeps.tags q q' h) in
          type-Outcome r q' ks (server.set_content_type q') f refl

      discard-Outcome :
          (r : Request) (y : Code × Request)
          → server.discard_request_body (record r { root_tested = not r.error_page }) ≡ y
          → Outcome path file server r (discarded server path file y)
      discard-Outcome r (ok, q) h =
          let (hs, f) = keeps.discards (record r { root_tested = not r.error_page }) q h in
          let q' = record q {
            status = 200;
            content_length_n = some file.size;
            last_modified_time = file.mtime;
          } in
          tag-Outcome r q' hs (server.set_etag q')
            (ap
              (λ (q : Request). record q {
                status = 200;
                content_length_n = some file.size;
                last_modified_time = file.mtime;
              })
              f)
            refl
      discard-Outcome r (error, q) h = refuses (record r { root_tested = not r.error_page }) h tt
      discard-Outcome r (again, q) h = refuses (record r { root_tested = not r.error_page }) h tt
      discard-Outcome r (declined, q) h = refuses (record r { root_tested = not r.error_page }) h tt
      discard-Outcome r (status n, q) h = refuses (record r { root_tested = not r.error_page }) h tt

      pub serve-Outcome : (r : Request) → Outcome path file server r (serve server path file r)
      unfolding serve
      serve-Outcome r =
          discard-Outcome r
            (server.discard_request_body (record r { root_tested = not r.error_page })) refl
