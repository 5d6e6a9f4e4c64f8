-- ===== src/Stdio/Irregular.antt =====
-- The wrappers of fake_libc.c that leave the common pattern: they hand the bionic stream on as it is,
-- load another symbol than they call, use one that they do not load, or call themselves.
pub mod Streams
pub mod Symbols
pub mod Recursion
use fake_libc.Common.{ℕ, zero, suc, List, [], ◌∷◌, Option, none, some, Outcome, ok, fault}
use fake_libc.Loader.{
  Linker, Runtime, M, forward, load_symbol, call_glibc, deref_glibc, get_actual_fp, glibc, ◌>>=◌,
  ◌>>◌,
}

-- A run that goes on into the wrapper's call of itself.
abbrev pub again :
    {A : Type 0}
    → Outcome (A × Runtime)
    → (A → Runtime → Option (Outcome (ℕ × Runtime)))
    → Option (Outcome (ℕ × Runtime))
again fault next = some fault
again (ok (a, r)) next = next a r

module _ (L : Linker) where
  pub vfwprintf : ℕ → ℕ → ℕ → M ℕ
  vfwprintf a b ap = forward L "vfwprintf" (a ∷ b ∷ ap ∷ [])

  pub vfwscanf : ℕ → ℕ → ℕ → M ℕ
  vfwscanf a b ap = forward L "vfwscanf" (a ∷ b ∷ ap ∷ [])

  pub rewind : ℕ → M ℕ
  rewind stream = forward L "rewind" (stream ∷ [])

  pub ftello : ℕ → M ℕ
  ftello stream = forward L "ftello" (stream ∷ [])

  pub feof : ℕ → M ℕ
  feof stream = forward L "feof" (stream ∷ [])

  -- Loads `vfprintf` and calls `vprintf`.
  pub printf : ℕ → ℕ → M ℕ
  printf format args = do
    load_symbol L glibc "vfprintf"
    call_glibc L "vprintf" (format ∷ args ∷ [])

  -- Loads `readdir_r`; `my_readdir` calls `glibc_readdir`.
  pub readdir : ℕ → M ℕ
  readdir dir = do load_symbol L glibc "readdir_r"; call_glibc L "readdir" (dir ∷ [])

  -- Uses `glibc_stderr`, which it does not load.
  syslog : ℕ → ℕ → ℕ → M ℕ
  syslog priority fmt args = do
    load_symbol L glibc "fprintf"
    load_symbol L glibc "vfprintf"
    stream ← deref_glibc L "stderr"
    call_glibc L "vfprintf" (stream ∷ fmt ∷ args ∷ [])

  -- `android_set_abort_message`, `openlog` and `closelog` print to glibc's stderr; `text` is the
  -- address of the literal.
  stub_message : ℕ → List ℕ → M ℕ
  stub_message text args = do
    load_symbol L glibc "fprintf"
    load_symbol L glibc "stderr"
    stream ← deref_glibc L "stderr"
    call_glibc L "fprintf" (stream ∷ text ∷ args)

  -- `fgetpos`, `fsetpos` and `funopen` call themselves and not glibc. They run on fuel, a unit for each
  -- call; `none` means that the fuel has run out.
  pub fgetpos : ℕ → ℕ → ℕ → Runtime → Option (Outcome (ℕ × Runtime))
  fgetpos zero stream pos r = none
  fgetpos (suc fuel) stream pos r =
      again ((load_symbol L glibc "fgetpos" >> get_actual_fp L stream) r)
        λ a r'. fgetpos fuel a pos r'

  pub fsetpos : ℕ → ℕ → ℕ → Runtime → Option (Outcome (ℕ × Runtime))
  fsetpos zero stream pos r = none
  fsetpos (suc fuel) stream pos r =
      again ((load_symbol L glibc "fsetpos" >> get_actual_fp L stream) r)
        λ a r'. fsetpos fuel a pos r'

  pub funopen : ℕ → List ℕ → Runtime → Option (Outcome (ℕ × Runtime))
  funopen zero args r = none
  funopen (suc fuel) args r = again (load_symbol L glibc "funopen" r) λ _ r'. funopen fuel args r'
