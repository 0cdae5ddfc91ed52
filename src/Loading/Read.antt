-- ===== src/Loading/Read.antt =====
-- `ngx_http_brotli_read_dict_file`.
use ngx_brotli.Base.{ℕ, zero, suc, ◌-◌, Bytes, [], ◌∷◌, ◌++◌, ltb, length, if◌then◌else◌}
use ngx_brotli.Loading.{
  System, Reading, failed, interrupted, got, Result, refused, unfinished, accepted,
}

-- Behind one read: `done` is what the buffer holds, `next` the loop's next round.
abbrev pub after_read :
    {F : Type 0} → (Bytes → F → Result Bytes) → Bytes → Reading × F → Result Bytes
after_read next done (failed, fd) = refused
after_read next done (interrupted, fd) = next done fd
after_read next done (got [], fd) = accepted done
after_read next done (got (c ∷ cs), fd) = next (done ++ c ∷ cs) fd

module _ {D F : Type 0} (sys : System D F) where
  unfoldable pub read_loop : ℕ → ℕ → Bytes → F → Result Bytes
  read_loop zero size done fd = unfinished
  read_loop (suc fuel) size done fd =
      if ltb (length done) size
      then after_read (read_loop fuel size) done (sys.read_fd fd (size - length done))
      else accepted done

  unfoldable pub read_dict_file : ℕ → F → ℕ → Result Bytes
  unfolding read_loop
  read_dict_file fuel fd size = read_loop fuel size [] fd
