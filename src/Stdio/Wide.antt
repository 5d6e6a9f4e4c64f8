-- ===== src/Stdio/Wide.antt =====
-- The wide-character wrappers of fake_libc.c that translate their stream or have none.
pub mod Forwarding
use fake_libc.Common.{ℕ, List, [], ◌∷◌}
use fake_libc.Loader.{
  Linker, M, forward, forward_stream, load_symbol, call_glibc, glibc, ◌>>=◌, ◌>>◌, Runtime,
  deref_glibc, get_actual_fp,
}

module _ (L : Linker) where
  pub fwprintf : ℕ → ℕ → ℕ → M ℕ
  fwprintf fp format ap = forward_stream L "vfwprintf" fp (λ p. p ∷ format ∷ ap ∷ [])

  pub fwscanf : ℕ → ℕ → ℕ → M ℕ
  fwscanf fp format ap = forward_stream L "vfwscanf" fp (λ p. p ∷ format ∷ ap ∷ [])

  pub fgetwc : ℕ → M ℕ
  fgetwc fp = forward_stream L "fgetwc" fp (λ p. p ∷ [])

  pub fgetws : ℕ → ℕ → ℕ → M ℕ
  fgetws a b fp = forward_stream L "fgetws" fp (λ p. a ∷ b ∷ p ∷ [])

  pub fputwc : ℕ → ℕ → M ℕ
  fputwc a fp = forward_stream L "fputwc" fp (λ p. a ∷ p ∷ [])

  pub fputws : ℕ → ℕ → M ℕ
  fputws a fp = forward_stream L "fputws" fp (λ p. a ∷ p ∷ [])

  pub fwide : ℕ → ℕ → M ℕ
  fwide fp a = forward_stream L "fwide" fp (λ p. p ∷ a ∷ [])

  pub getwc : ℕ → M ℕ
  getwc fp = forward_stream L "getwc" fp (λ p. p ∷ [])

  pub putwc : ℕ → ℕ → M ℕ
  putwc a fp = forward_stream L "putwc" fp (λ p. a ∷ p ∷ [])

  pub swprintf : ℕ → ℕ → ℕ → ℕ → M ℕ
  swprintf a b c ap = forward L "vswprintf" (a ∷ b ∷ c ∷ ap ∷ [])

  pub swscanf : ℕ → ℕ → ℕ → M ℕ
  swscanf a b ap = forward L "vswscanf" (a ∷ b ∷ ap ∷ [])

  pub vswprintf : ℕ → ℕ → ℕ → ℕ → M ℕ
  vswprintf a b c ap = forward L "vswprintf" (a ∷ b ∷ c ∷ ap ∷ [])

  pub vswscanf : ℕ → ℕ → ℕ → M ℕ
  vswscanf a b ap = forward L "vswscanf" (a ∷ b ∷ ap ∷ [])

  pub vwprintf : ℕ → ℕ → M ℕ
  vwprintf a ap = forward L "vwprintf" (a ∷ ap ∷ [])

  pub vwscanf : ℕ → ℕ → M ℕ
  vwscanf a ap = forward L "vwscanf" (a ∷ ap ∷ [])

  pub wprintf : ℕ → ℕ → M ℕ
  wprintf a ap = forward L "vwprintf" (a ∷ ap ∷ [])

  pub wscanf : ℕ → ℕ → M ℕ
  wscanf a ap = forward L "vwscanf" (a ∷ ap ∷ [])

  pub wcstod : ℕ → ℕ → M ℕ
  wcstod a b = forward L "wcstod" (a ∷ b ∷ [])

  pub wcstof : ℕ → ℕ → M ℕ
  wcstof a b = forward L "wcstof" (a ∷ b ∷ [])

  pub wcstold : ℕ → ℕ → M ℕ
  wcstold a b = forward L "wcstold" (a ∷ b ∷ [])

  pub wcstold_l : ℕ → ℕ → ℕ → M ℕ
  wcstold_l a b c = forward L "wcstold_l" (a ∷ b ∷ c ∷ [])
