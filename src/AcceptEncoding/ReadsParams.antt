-- ===== src/AcceptEncoding/ReadsParams.antt =====
-- The walker's parameter loop reads back every well-formed list of parameters.
use ngx_brotli.Base.{
  ℕ, zero, suc, ◌<◌, ◌≡◌, refl, Bool, true, Bytes, List, [], ◌∷◌, none, some, arith, ◌==◌, length,
  All,
}
use ngx_brotli.AcceptEncoding.Scan.{at_end_or}
use ngx_brotli.AcceptEncoding.Qvalue.{Params, well_formed, ends_value, past_semicolon, params_fuel}
use ngx_brotli.AcceptEncoding.Grammar.{Param, blanks, params_text, AreBlank, IsParam, OneWeight}
use ngx_brotli.AcceptEncoding.ReadsValue.{}
use ngx_brotli.AcceptEncoding.ReadsParam.{behind, param_lem}

-- The loop's variables behind all parameters.
abbrev pub behind_all : Params → List Param → Bytes → Params
behind_all s [] rest = record s { p = rest }
behind_all s (p ∷ ps) rest = behind_all (behind s p.value []) ps rest

pub blanks-AreBlank :
    (ps : List Param) (trail : Bytes) → All IsParam ps → AreBlank trail → AreBlank (blanks ps trail)
blanks-AreBlank [] trail h a = a
blanks-AreBlank (p ∷ ps) trail h a = h.0.before_blank

abbrev pub at_comma : Bytes → Bool
at_comma = at_end_or λ c. c == b','

pub params_text-ends_value :
    (ps : List Param) (trail rest : Bytes)
    → at_comma rest ≡ true
    → at_end_or ends_value (params_text trail ps rest) ≡ true
params_text-ends_value [] trail [] e = refl
params_text-ends_value [] trail (c ∷ cs) e = ground arith
params_text-ends_value (p ∷ ps) trail rest e = refl

past_semicolon-at_comma : (rest : Bytes) → at_comma rest ≡ true → past_semicolon rest ≡ none
past_semicolon-at_comma [] e = refl
past_semicolon-at_comma (c ∷ cs) e = ground arith

-- The loop reads every parameter and stops at the comma or the end.
pub params_fuel-params_text :
    (n : ℕ) (s : Params) (ps : List Param) (trail rest : Bytes)
    → length ps < n
    → All IsParam ps
    → OneWeight s.q_seen ps
    → AreBlank trail
    → at_comma rest ≡ true
    → params_fuel n (record s { p = params_text trail ps rest })
      ≡ some (well_formed (behind_all s ps rest))
unfolding params_fuel
params_fuel-params_text zero s ps trail rest l h o a e = absurd (omega arith)
params_fuel-params_text (suc n) s [] trail rest l h o a e =
    rw (past_semicolon-at_comma rest e, params_fuel)
params_fuel-params_text (suc n) s (p ∷ ps) trail rest l h o a e =
    rw
      (
        param_lem p s (blanks ps trail) (params_text trail ps rest) h.0 o.0
            (blanks-AreBlank ps trail h.1 a) (params_text-ends_value ps trail rest e),
        params_fuel,
      )
      (params_fuel-params_text n (behind s p.value []) ps trail rest (omega arith) h.1 o.1 a e)
