-- ===== src/Body/Tests.antt =====
-- The body filter on concrete responses, with an encoder and a next filter that keep the laws.
use mathlib.Core.Option.{some-injective}
use ngx_brotli.Base.{
  arith, ◌≤◌, ℕ, ◌+◌, ◌≡◌, refl, ap, sym, true, false, Bytes, List, [], ◌∷◌, ◌++◌, Option, none,
  some, length, codes, ◌⊎◌,
}
use ngx_brotli.Body.Begin.{Hashed}
use ngx_brotli.Body.Complete.{Reached-Done, Reached-max_length, called_last-Done, called_total}
use ngx_brotli.Body.Open.{core, Done, Returned}
use ngx_brotli.Body.Rounds.{returns, body_filter}
use ngx_brotli.Body.Sessions.{Reached, start, called}
use ngx_brotli.Body.Store.{store_laws, store_progress}
use ngx_brotli.Body.StoreRuns.{Store, store}
use ngx_brotli.Body.Stream.{Piece, Answer, ok, Downstream, Stream}
use ngx_brotli.Dcb.{Dict, Conf}
use ngx_brotli.Ratio.Reported.{ratio_variable-Reached}
use ngx_brotli.Ratio.Variable.{found, ratio_variable}

-- A next filter that counts the links it is given and writes them at once.
abbrev counting_next : ℕ → Option Piece → ℕ × Answer × ℕ
counting_next n none = (n, ok, 0)
counting_next n (some p) = (n + 1, ok, length p.content)

abbrev counting : Downstream ℕ
counting = record { next = counting_next; forward = λ n ps. (n + length ps, ok) }

abbrev plain_conf : Conf
plain_conf = record {
  enable = true;
  types = [];
  min_length = 20;
  max_length = some 3;
  bypass = none;
  bypass_vary = [];
  dcb_dicts = [];
  dcb_assume_secure = false;
  quality = 6;
  lg_win = 19;
}

abbrev hash_of_a : Bytes
hash_of_a = codes "0123456789abcdef0123456789abcdef"

abbrev dict_a : Dict
dict_a = record { file = codes "a"; bytes = codes "abc"; hash = hash_of_a }

dict_a-Hashed : Hashed (some dict_a)
dict_a-Hashed d h = ap (λ (d : Dict). length d.hash) (sym (some-injective dict_a d h))

abbrev new_stream : Stream Store ℕ
new_stream = record {
  encoder = none;
  content_length = none;
  bytes_in = 0;
  bytes_out = 0;
  input = [];
  out_chain = false;
  out_buf = none;
  initialized = false;
  closed = false;
  success = false;
  output_ready = false;
  output_busy = false;
  end_of_input = false;
  end_of_block = false;
  dcb_header_sent = false;
  dcb_dict = some dict_a;
  buffered = false;
  header_only = false;
  pool = true ∷ true ∷ true ∷ true ∷ [];
  downstream = 0;
  handed = [];
}

abbrev two_links : List Piece
two_links =
    record { content = codes "ab"; last_buf = false; flush = false }
    ∷ record { content = codes "c"; last_buf = true; flush = false }
    ∷ []

abbrev header_link : Piece
header_link = record {
  content = (0xff ∷ 0x44 ∷ 0x43 ∷ 0x42 ∷ []) ++ hash_of_a;
  last_buf = false;
  flush = false;
}

abbrev coded_link : Piece
coded_link = record { content = codes "abc" ++ 3 ∷ []; last_buf = true; flush = false }

-- The response of both links, complete.
abbrev sent_stream : Stream Store ℕ
sent_stream = record new_stream {
  bytes_in = 3;
  bytes_out = 40;
  initialized = true;
  closed = true;
  success = true;
  end_of_input = true;
  dcb_header_sent = true;
  pool = [];
  downstream = 2;
  handed = header_link ∷ coded_link ∷ [];
}

two_links-sent :
    body_filter store plain_conf counting 9 two_links new_stream ≡ some (returns ok sent_stream)
unfolding body_filter
two_links-sent = refl

new-Reached : Reached store plain_conf (some dict_a) counting [] new_stream
new-Reached = start new_stream refl

sent-Reached : Reached store plain_conf (some dict_a) counting two_links sent_stream
sent-Reached = called new-Reached refl 9 two_links ok sent_stream two_links-sent

Reached-Done_example : Done store_laws plain_conf (some dict_a) two_links (core sent_stream)
Reached-Done_example =
    Reached-Done store_laws plain_conf (some dict_a) counting dict_a-Hashed sent-Reached refl

called_last-Done_example : Done store_laws plain_conf (some dict_a) two_links (core sent_stream)
called_last-Done_example =
    called_last-Done store_laws plain_conf (some dict_a) counting dict_a-Hashed new-Reached refl 9
      two_links sent_stream refl two_links-sent

Reached-max_length_example :
    ((sent_stream.closed ≡ true) × (sent_stream.success ≡ false)) ⊎ (sent_stream.bytes_in ≤ 3)
Reached-max_length_example =
    Reached-max_length store_laws plain_conf (some dict_a) counting 3 dict_a-Hashed sent-Reached
      refl (omega arith)

called_total_example :
    (fuel : ℕ) × (answer : Answer) × (s : Stream Store ℕ) × (body_filter store plain_conf counting
        fuel two_links new_stream
      ≡ some (returns answer s))
    × Returned store_laws plain_conf (some dict_a) two_links answer s
called_total_example =
    called_total store_laws plain_conf (some dict_a) counting store_progress dict_a-Hashed
      new-Reached refl two_links

ratio_variable-Reached_example :
    ratio_variable (λ n m. n ∷ m ∷ []) true (some sent_stream) ≡ found (0 ∷ 8 ∷ [])
ratio_variable-Reached_example =
    ratio_variable-Reached store_laws plain_conf (some dict_a) counting (λ n m. n ∷ m ∷ [])
      dict_a-Hashed (λ d. refl) sent-Reached refl (omega arith) (omega arith)
