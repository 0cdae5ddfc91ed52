-- ===== src/Static/Tests.antt =====
-- The static module on a concrete request and configuration, and the theorems on it there.
use mathlib.Core.Option.{none-ne-some, some-injective}
use ngx_brotli.AcceptEncoding.Walk.{}
use ngx_brotli.Base.{
  ap, ◌∙◌, append-nil, ◌≡◌, refl, sym, true, false, Bytes, [], ◌∷◌, ◌++◌, Option, none, some, codes,
}
use ngx_brotli.Request.Tests.{page}
use ngx_brotli.Request.{Request}
use ngx_brotli.Static.Config.{mode_of, load, init_handler}
use ngx_brotli.Static.Latch.{SetsEnum, init_handler-load}
use ngx_brotli.Static.Sends.{Extends, Keeps}
use ngx_brotli.Static.Serves.{Answers, handler-usable}
use ngx_brotli.Static.{Code, Mode, on, ok, FileInfo, opened, Server, usable, probe, handler}

abbrev small_file : FileInfo
small_file = record { is_dir = false; is_file = true; size = 120; mtime = 7 }

abbrev plain_server : Server
plain_server = record {
  gzip_vary = false;
  map_uri_to_path = λ r. some (codes "/srv" ++ r.uri);
  set_disable_symlinks = λ r path. true;
  open_cached_file = λ r path. opened small_file;
  discard_request_body = λ r. (ok, r);
  set_etag = λ r. (true, r);
  set_content_type = λ r. (true, r);
  send_header = λ r. (ok, r);
  output_filter = λ body r. (ok, r);
}

page-usable : probe plain_server on page ≡ usable (codes "/srv/page.html.br") small_file
unfolding probe
page-usable = refl

-- A call that answers with its argument has added no header.
added_none :
    {r r' : Request} {A : Type 0} {a b : A} → ◌≡◌ {A = A × Request} (a, r) (b, r') → Extends r r'
added_none {r} e = (
  [],
  sym (ap (λ (x : _ × Request). x.1) e)
      ∙ ap (λ hs. record r { headers_out = hs }) (sym (append-nil r.headers_out)),
)

plain_server-Keeps : Keeps plain_server
plain_server-Keeps = record {
  discards = λ r r' e. added_none e;
  tags = λ r r' e. added_none e;
  types = λ r r' e. added_none e;
}

handler-usable_example :
    (x : Code × Request) × (handler plain_server on page ≡ some x)
    × Answers plain_server on (codes "/srv/page.html.br") small_file page x
handler-usable_example =
    handler-usable plain_server plain_server-Keeps on page (codes "/srv/page.html.br") small_file
      page-usable

-- A setter that follows the table, and refuses a second directive in the same block.
abbrev found_mode : Option Mode → Option (Option Mode)
found_mode none = none
found_mode (some mode) = some (some mode)

abbrev set_once : Bytes → Option Mode → Option (Option Mode)
set_once arg (some mode) = none
set_once arg none = found_mode (mode_of arg)

found_mode-some :
    (found slot' : Option Mode)
    → found_mode found ≡ some slot'
    → (mode : Mode) × (slot' ≡ some mode) × (found ≡ some mode)
found_mode-some none slot' e = absurd (none-ne-some slot' e)
found_mode-some (some mode) slot' e = (mode, sym (some-injective (some mode) slot' e), refl)

set_once-SetsEnum : SetsEnum set_once
set_once-SetsEnum arg (some mode) slot' e = absurd (none-ne-some slot' e)
set_once-SetsEnum arg none slot' e = found_mode-some (mode_of arg) slot' e

nested : load set_once ((codes "On" ∷ []) ∷ [] ∷ []) (none, false) ≡ some (some on, true)
unfolding load mode_of
nested = refl

init_handler-load_example : init_handler true true ≡ some true
init_handler-load_example =
    init_handler-load set_once ((codes "On" ∷ []) ∷ [] ∷ []) false true on set_once-SetsEnum nested
      refl
