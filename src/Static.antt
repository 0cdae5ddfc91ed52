-- ===== src/Static.antt =====
-- static/ngx_http_brotli_static_module.c: the content handler that serves a file's .br neighbour.
pub mod Config
pub mod Latch
pub mod Sends
pub mod Outcomes
pub mod Serves
mod Tests
use ngx_brotli.Base.{
  ℕ, Bool, true, false, not, ◌||◌, Bytes, List, [], ◌∷◌, ◌++◌, Option, none, some, ◌==◌,
  if◌then◌else◌, codes, ◌>>=◌, ltb,
}
use ngx_brotli.Request.{
  Method, get, head, other, Request, allocate, push_header, new_header, accepts, latch_gzip_off,
}
use ngx_brotli.Vary.{vary_accept_encoding}

-- The values of `brotli_static`.
pub data Mode : Type 0 where
  off on always : Mode

-- What the code tells apart of nginx's return codes; `status n` is above NGX_OK.
pub data Code : Type 0 where
  ok error again declined : Code
  status : ℕ → Code

-- The fields of `ngx_open_file_info_t` that the handler reads.
pub record FileInfo : Type 0 where
  pub is_dir : Bool
  pub is_file : Bool
  pub size : ℕ
  pub mtime : ℕ

-- `ngx_open_cached_file`: a file, or whether `err` is 0 behind the failure.
pub data Opened : Type 0 where
  opened : FileInfo → Opened
  failed : Bool → Opened

-- The response's body, a buffer over the file.
pub record Body : Type 0 where
  pub name : Bytes
  pub file_last : ℕ
  pub in_file : Bool
  pub last_buf : Bool
  pub sync : Bool

-- What the handler calls of nginx.
pub record Server : Type 0 where
  pub gzip_vary : Bool
  pub map_uri_to_path : Request → Option Bytes
  pub set_disable_symlinks : Request → Bytes → Bool
  pub open_cached_file : Request → Bytes → Opened
  pub discard_request_body : Request → Code × Request
  pub set_etag : Request → Bool × Request
  pub set_content_type : Request → Bool × Request
  pub send_header : Request → Code × Request
  pub output_filter : Body → Request → Code × Request

abbrev pub get_or_head : Method → Bool
get_or_head get = true
get_or_head head = true
get_or_head other = false

abbrev pub is_head : Method → Bool
is_head get = false
is_head head = true
is_head other = false

-- The last byte is a slash; nginx's URI is never empty.
abbrev pub ends_in_slash : Bytes → Bool
ends_in_slash [] = false
ends_in_slash (c ∷ []) = c == b'/'
ends_in_slash (c ∷ d ∷ ds) = ends_in_slash (d ∷ ds)

abbrev pub is_off : Mode → Bool
is_off off = true
is_off on = false
is_off always = false

-- The handler returns, or a usable file is found.
pub data Probe : Type 0 where
  stop : Code → Probe
  usable : Bytes → FileInfo → Probe

-- The file is neither a directory nor special.
abbrev pub checked_file : Bytes → Opened → Probe
checked_file path (failed err_is_zero) = stop (if err_is_zero then status 500 else declined)
checked_file path (opened file) =
    if file.is_dir
    then stop declined
    else if not file.is_file
    then stop (status 404)
    else usable path file

abbrev pub is_stopped : Code → Bool
is_stopped ok = false
is_stopped error = true
is_stopped again = false
is_stopped declined = false
is_stopped (status n) = true

module _ (server : Server) where
  abbrev pub probe_path : Request → Option Bytes → Probe
  probe_path r none = stop (status 500)
  probe_path r (some root) =
      let path = root ++ codes ".br" in
      if not (server.set_disable_symlinks r path)
      then stop (status 500)
      else checked_file path (server.open_cached_file r path)

  -- Up to the proof that the file is usable; nothing of the request has changed.
  unfoldable pub probe : Mode → Request → Probe
  probe mode r =
      if not (get_or_head r.method)
      then stop declined
      else if ends_in_slash r.uri
      then stop declined
      else if is_off mode
      then stop declined
      else probe_path r (server.map_uri_to_path r)

  abbrev pub body_of : Bytes → FileInfo → Request → Body
  body_of path file r =
      let in_file = ltb 0 file.size in
      record {
        name = path;
        file_last = file.size;
        in_file = in_file;
        last_buf = r.is_main;
        sync = not (r.is_main || in_file);
      }

  -- Behind `ngx_http_send_header`.
  abbrev pub output : Bytes → FileInfo → Code × Request → Code × Request
  output path file (code, r) =
      if is_stopped code || r.header_only
      then (code, r)
      else server.output_filter (body_of path file r) r

  -- The two allocations of the body.
  abbrev pub with_body : Bytes → FileInfo → Bool × Request → Code × Request
  with_body path file (false, r) = (status 500, r)
  with_body path file (true, r) = output path file (server.send_header r)

  abbrev pub with_buffer : Bytes → FileInfo → Bool × Request → Code × Request
  with_buffer path file (false, r) = (status 500, r)
  with_buffer path file (true, r) = with_body path file (allocate r)

  abbrev pub send : Bytes → FileInfo → Request → Code × Request
  send path file r =
      if is_head r.method then server.send_header r else with_buffer path file (allocate r)

  -- Behind the push of Content-Encoding.
  abbrev pub encoded : Bytes → FileInfo → Bool × Request → Code × Request
  encoded path file (false, r) = (status 500, r)
  encoded path file (true, r) =
      send path file (record r { content_encoding = some (codes "br"); allow_ranges = true })

  abbrev pub typed : Bytes → FileInfo → Bool × Request → Code × Request
  typed path file (false, r) = (status 500, r)
  typed path file (true, r) =
      encoded path file (push_header (new_header (codes "Content-Encoding") (codes "br")) r)

  abbrev pub tagged : Bytes → FileInfo → Bool × Request → Code × Request
  tagged path file (false, r) = (status 500, r)
  tagged path file (true, r) = typed path file (server.set_content_type r)

  abbrev pub discarded : Bytes → FileInfo → Code × Request → Code × Request
  discarded path file (ok, r) = tagged path file (
      server.set_etag (record r {
        status = 200;
        content_length_n = some file.size;
        last_modified_time = file.mtime;
      }))
  discarded path file (code, r) = (code, r)

  -- From `root_tested` to the end.
  unfoldable pub serve : Bytes → FileInfo → Request → Code × Request
  serve path file r =
      discarded path file
        (server.discard_request_body (record r { root_tested = not r.error_page }))

  -- Behind the Vary line: acceptance decides.
  abbrev pub serve_accepted : Bytes → FileInfo → Bool × Request → Option (Code × Request)
  serve_accepted path file (false, r) = some (status 500, r)
  serve_accepted path file (true, r) = accepts r >>= λ accepted.
      some (if accepted then serve path file (latch_gzip_off r) else (declined, r))

  abbrev pub respond : Mode → Request → Probe → Option (Code × Request)
  respond mode r (stop code) = some (code, r)
  respond off r (usable path file) = some (serve path file r)
  respond on r (usable path file) =
      vary_accept_encoding server.gzip_vary r >>= λ varied. serve_accepted path file varied
  respond always r (usable path file) = some (serve path file r)

  -- The outer `none` is the end of a loop's fuel.
  unfoldable pub handler : Mode → Request → Option (Code × Request)
  unfolding probe serve vary_accept_encoding accepts
  handler mode r = respond mode r (probe mode r)
