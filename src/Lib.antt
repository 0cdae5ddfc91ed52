-- ===== src/Lib.antt =====
-- ngx_brotli: nginx modules that serve responses in the br and dcb content codings.
--
-- Paths are from the repository's root.
--
-- The parts. ngx_http_brotli_common.h decides from a request's Accept-Encoding lines whether a
-- coding is acceptable and puts Accept-Encoding into the response's Vary; both modules call it. The
-- filter module, filter/ngx_http_brotli_filter_module.c, decides in its header filter whether to
-- compress a response, with which coding, and adjusts the response's header; its body filter then
-- runs the encoder. A dcb response is compressed against a dictionary that the client names by its
-- SHA-256, which ngx_http_brotli_sha256.h computes when the configuration is loaded. The static
-- module, static/ngx_http_brotli_static_module.c, serves a file's .br neighbour in its place.
--
-- The files.
--   Base: Boolean tests on the native numbers, lists measured by them, byte scans, machine words, the
--     monad of chains that may end.
--   AcceptEncoding (ngx_http_brotli_common.h): Scan is `ngx_http_brotli_skip_quoted` and the string
--     helpers of fuzz/ngx_shim.h; Qvalue is `ngx_http_brotli_eval_qvalue`; Walk is
--     `ngx_http_brotli_coding_weight_ex`, `ngx_http_brotli_coding_weight` and
--     `ngx_http_brotli_request_coding_weight`. Grammar describes a field by RFC 9110; the Reads
--     files and Lines compare the walker with it; ScanEnds, ParamsEnd, WalkEnds and LinesEnd are for
--     arbitrary bytes.
--   Request: the fields of nginx's request that the modules read and write, `ngx_http_brotli_accepts`
--     and `ngx_http_brotli_ok`.
--   Vary: `ngx_http_brotli_vary_accept_encoding`.
--   NoTransform (filter): `ngx_http_brotli_cc_value_no_transform`, `ngx_http_brotli_no_transform`.
--   Dcb (filter): the configuration, `ngx_http_brotli_find_request_header`,
--     `ngx_http_brotli_dcb_negotiate`.
--   FilterConf (filter): `ngx_http_brotli_create_conf`, `ngx_http_brotli_merge_conf`,
--     `ngx_http_brotli_set_enable_slot` and `ngx_http_brotli_filter_init`.
--   Loading (filter): Walk is `ngx_http_brotli_open_dict_strict` and
--     `ngx_http_brotli_check_strict_dir`; Read is `ngx_http_brotli_read_dict_file`; Hex is the hash
--     literal; Load is `ngx_http_brotli_dcb_dict_file` and `ngx_http_brotli_init_main_conf`. Split,
--     Safe, Trusted and Reaches describe the walk by the path's components; Parse puts the directives
--     of a configuration in order; Listed is the dictionaries of one location, Located those of a
--     configuration's locations; Usable is what a directive needs of the file system and of its hash.
--   Body (filter): Stream is the context and what the body filter calls, Setup is
--     `ngx_http_brotli_filter_ensure_stream_initialized`, `ngx_http_brotli_emit_dcb_header` and
--     `ngx_http_brotli_filter_close`, Rounds is `ngx_http_brotli_body_filter`, a round of its main loop
--     as a function. Laws is what libbrotli documents; Open is the invariant of a stream, which Keeps,
--     Joins, Feeds, Intake, Turns, Inputs, Header and Calls carry through a call; Sizes, Measures,
--     Shrinks and Ends bound the loop; Sessions puts the calls on one response in order, with what
--     happens in between.
--   Fuzz (fuzz/fuzz_accept_encoding.c): Scans and Oracle are `ref_accepts`, a second and independent
--     parser of Accept-Encoding that may be unsure; Harness is `LLVMFuzzerTestOneInput`. ParametersEnd
--     and Ends bound the oracle's loops; Quiet, QuietParams, Values, Parameters, Weights, Names, Passed
--     and Elements compare it with the walker piece by piece, and Agreement puts the pieces together.
--   HeaderFilter (filter): `ngx_http_brotli_header_filter`.
--   Response: the header filter and the body filter together; Sources has the loading in front.
--   Ratio (filter): `ngx_http_brotli_ratio_parts`; Variable is `ngx_http_brotli_ratio_variable` and
--     `ngx_http_brotli_dcb_dicts_hashed_variable`, Reported reads the ratio off a completed response.
--   Window (filter): `ngx_http_brotli_parse_wbits`, and the window that
--     `ngx_http_brotli_filter_ensure_stream_initialized` chooses.
--   Sha256 (ngx_http_brotli_sha256.h): the context with its operations; Compress is
--     `ngx_http_brotli_sha256_compress`, Digest says what a digest is.
--   Static (static): the handler and the configuration of the static module; Sends describes what the
--     serving of a file hands to nginx, Outcomes and Serves follow the handler to it.
--
-- How the code is read. A byte is a number, a string or a pointer with its end is the list of the
-- bytes that remain. A loop over bytes is recursion on fuel, one more than the bytes that remain:
-- each round drops at least one, so the fuel is enough, and `none` of an outer Option is its end.
-- Machine words keep their wrap-around, written out. nginx's list of headers is a list; a pointer
-- that may be NULL is an Option. Whether an allocation succeeds is an input, one Boolean for each in
-- the request's `pool`, and an empty `pool` is a pool that gives no more.
--
-- The body filter's loop is bounded by no list, so its fuel is found: each round shrinks what the
-- encoder is still to be fed, or else its work on what it has and the output that waits, and the loop has an answer for some fuel.
-- An error of the file system or of libbrotli is `none` or `false`.
--
-- What nginx, libcrypto, libbrotli or the file system does is a parameter: the record `Nginx` of
-- HeaderFilter, `Server` of Static, `System` of Loading, `Encoder` and `Downstream` of Body,
-- `decode_base64` of Dcb, `evp` of Sha256. What is relied on of them stands in the records
-- `EncoderLaws` and `Progress` of Body/Laws, `ReadLaws` of Loading/Reads, `Keeps` of Static/Sends and
-- `Computes` of Sha256/Digest. The next body filter answers NGX_OK, NGX_AGAIN or NGX_ERROR.
--
-- Not modelled: the registration of the variables, the directive tables and nginx's merge of the MIME
-- types, which are tables and calls that nginx reads; the log, which changes no state; the hooks that
-- give libbrotli its memory; and the tools, the tests and the packaging.
pub mod Base
pub mod AcceptEncoding
pub mod Body
pub mod Dcb
pub mod FilterConf
pub mod Fuzz
pub mod HeaderFilter
pub mod Loading
pub mod NoTransform
pub mod Ratio
pub mod Request
pub mod Response
pub mod Sha256
pub mod Static
pub mod Vary
pub mod Window
