-- ===== src/Stdio/Narrow.antt =====
-- The byte-stream wrappers of fake_libc.c. A variadic function hands on the `va_list` of its arguments.
pub mod Forwarding
use fake_libc.Common.{ℕ, List, [], ◌∷◌}
use fake_libc.Loader.{
  Linker, M, forward, forward_stream, load_symbol, call_glibc, glibc, ◌>>=◌, ◌>>◌, Runtime,
  deref_glibc, get_actual_fp,
}

module _ (L : Linker) where
  pub vfprintf : ℕ → ℕ → ℕ → M ℕ
  vfprintf fp fmt ap = forward_stream L "vfprintf" fp (λ p. p ∷ fmt ∷ ap ∷ [])

  pub fprintf : ℕ → ℕ → ℕ → M ℕ
  fprintf fp fmt args = forward_stream L "vfprintf" fp (λ p. p ∷ fmt ∷ args ∷ [])

  pub fputs : ℕ → ℕ → M ℕ
  fputs s stream = forward_stream L "fputs" stream (λ p. s ∷ p ∷ [])

  pub fputc : ℕ → ℕ → M ℕ
  fputc c stream = forward_stream L "fputc" stream (λ p. c ∷ p ∷ [])

  pub fgetc : ℕ → M ℕ
  fgetc stream = forward_stream L "fgetc" stream (λ p. p ∷ [])

  pub fgets : ℕ → ℕ → ℕ → M ℕ
  fgets s size stream = forward_stream L "fgets" stream (λ p. s ∷ size ∷ p ∷ [])

  pub getc : ℕ → M ℕ
  getc stream = forward_stream L "getc" stream (λ p. p ∷ [])

  pub ungetc : ℕ → ℕ → M ℕ
  ungetc c stream = forward_stream L "ungetc" stream (λ p. c ∷ p ∷ [])

  pub fread : ℕ → ℕ → ℕ → ℕ → M ℕ
  fread ptr size nmemb stream = forward_stream L "fread" stream (λ p. ptr ∷ size ∷ nmemb ∷ p ∷ [])

  pub fwrite : ℕ → ℕ → ℕ → ℕ → M ℕ
  fwrite ptr size nmemb stream = forward_stream L "fwrite" stream (λ p. ptr ∷ size ∷ nmemb ∷ p ∷ [])

  pub fflush : ℕ → M ℕ
  fflush stream = forward_stream L "fflush" stream (λ p. p ∷ [])

  pub fscanf : ℕ → ℕ → ℕ → M ℕ
  fscanf stream format args = forward_stream L "vfscanf" stream (λ p. p ∷ format ∷ args ∷ [])

  pub vfscanf : ℕ → ℕ → ℕ → M ℕ
  vfscanf stream format ap = forward_stream L "vfscanf" stream (λ p. p ∷ format ∷ ap ∷ [])

  pub fclose : ℕ → M ℕ
  fclose stream = forward_stream L "fclose" stream (λ p. p ∷ [])

  pub getline : ℕ → ℕ → ℕ → M ℕ
  getline lineptr n stream = forward_stream L "getline" stream (λ p. lineptr ∷ n ∷ p ∷ [])

  pub freopen : ℕ → ℕ → ℕ → M ℕ
  freopen path mode stream = forward_stream L "freopen" stream (λ p. path ∷ mode ∷ p ∷ [])

  pub ferror : ℕ → M ℕ
  ferror stream = forward_stream L "ferror" stream (λ p. p ∷ [])

  pub fseek : ℕ → ℕ → ℕ → M ℕ
  fseek stream offset whence = forward_stream L "fseek" stream (λ p. p ∷ offset ∷ whence ∷ [])

  pub fseeko : ℕ → ℕ → ℕ → M ℕ
  fseeko stream offset whence = forward_stream L "fseeko" stream (λ p. p ∷ offset ∷ whence ∷ [])

  pub ftell : ℕ → M ℕ
  ftell stream = forward_stream L "ftell" stream (λ p. p ∷ [])

  pub fileno : ℕ → M ℕ
  fileno stream = forward_stream L "fileno" stream (λ p. p ∷ [])
