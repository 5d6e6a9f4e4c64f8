-- ===== src/Stdio/Formatted.antt =====
-- The wrappers of fake_libc.c for formatted text without a stream argument, and the opening functions.
pub mod Forwarding
use fake_libc.Common.{ℕ, List, [], ◌∷◌}
use fake_libc.Loader.{
  Linker, M, forward, forward_stream, load_symbol, call_glibc, glibc, ◌>>=◌, ◌>>◌, Runtime,
  deref_glibc, get_actual_fp,
}

module _ (L : Linker) where
  pub sprintf_chk : ℕ → ℕ → ℕ → ℕ → ℕ → M ℕ
  sprintf_chk str flag sl format ap =
      forward L "__vsprintf_chk" (str ∷ flag ∷ sl ∷ format ∷ ap ∷ [])

  pub vasprintf : ℕ → ℕ → ℕ → M ℕ
  vasprintf strp fmt ap = forward L "vasprintf" (strp ∷ fmt ∷ ap ∷ [])

  pub asprintf : ℕ → ℕ → ℕ → M ℕ
  asprintf strp fmt ap = forward L "vasprintf" (strp ∷ fmt ∷ ap ∷ [])

  pub snprintf_chk : ℕ → ℕ → ℕ → ℕ → ℕ → ℕ → M ℕ
  snprintf_chk dest supplied_size flags dest_len format va =
      forward L "__vsnprintf_chk" (dest ∷ supplied_size ∷ flags ∷ dest_len ∷ format ∷ va ∷ [])

  pub vsnprintf_chk : ℕ → ℕ → ℕ → ℕ → ℕ → ℕ → M ℕ
  vsnprintf_chk dest supplied_size flags dest_len format va =
      forward L "__vsnprintf_chk" (dest ∷ supplied_size ∷ flags ∷ dest_len ∷ format ∷ va ∷ [])

  pub scanf : ℕ → ℕ → M ℕ
  scanf format args = forward L "vscanf" (format ∷ args ∷ [])

  pub sscanf : ℕ → ℕ → ℕ → M ℕ
  sscanf str format args = forward L "vsscanf" (str ∷ format ∷ args ∷ [])

  pub vscanf : ℕ → ℕ → M ℕ
  vscanf format ap = forward L "vscanf" (format ∷ ap ∷ [])

  pub vsscanf : ℕ → ℕ → ℕ → M ℕ
  vsscanf str format ap = forward L "vsscanf" (str ∷ format ∷ ap ∷ [])

  pub dprintf : ℕ → ℕ → ℕ → M ℕ
  dprintf fd fmt args = forward L "vdprintf" (fd ∷ fmt ∷ args ∷ [])

  pub sprintf : ℕ → ℕ → ℕ → M ℕ
  sprintf str format args = forward L "vsprintf" (str ∷ format ∷ args ∷ [])

  pub snprintf : ℕ → ℕ → ℕ → ℕ → M ℕ
  snprintf str size format args = forward L "vsnprintf" (str ∷ size ∷ format ∷ args ∷ [])

  pub vprintf : ℕ → ℕ → M ℕ
  vprintf format ap = forward L "vprintf" (format ∷ ap ∷ [])

  pub vdprintf : ℕ → ℕ → ℕ → M ℕ
  vdprintf fd format ap = forward L "vdprintf" (fd ∷ format ∷ ap ∷ [])

  pub vsprintf : ℕ → ℕ → ℕ → M ℕ
  vsprintf str format ap = forward L "vsprintf" (str ∷ format ∷ ap ∷ [])

  pub vsnprintf : ℕ → ℕ → ℕ → ℕ → M ℕ
  vsnprintf str size format ap = forward L "vsnprintf" (str ∷ size ∷ format ∷ ap ∷ [])

  pub fopen : ℕ → ℕ → M ℕ
  fopen path mode = forward L "fopen" (path ∷ mode ∷ [])

  pub fdopen : ℕ → ℕ → M ℕ
  fdopen fd mode = forward L "fdopen" (fd ∷ mode ∷ [])
