-- ===== src/Stdio/Numbers.antt =====
-- The wrappers of fake_libc.c for floating-point values, whose bits are handed on, and two others.
pub mod Forwarding
use fake_libc.Common.{ℕ, List, [], ◌∷◌}
use fake_libc.Loader.{
  Linker, M, forward, forward_stream, load_symbol, call_glibc, glibc, ◌>>=◌, ◌>>◌, Runtime,
  deref_glibc, get_actual_fp,
}

module _ (L : Linker) where
  pub ldexp : ℕ → ℕ → M ℕ
  ldexp a b = forward L "ldexp" (a ∷ b ∷ [])

  pub atof : ℕ → M ℕ
  atof a = forward L "atof" (a ∷ [])

  pub strtod : ℕ → ℕ → M ℕ
  strtod a b = forward L "strtod" (a ∷ b ∷ [])

  pub strtof : ℕ → ℕ → M ℕ
  strtof a b = forward L "strtof" (a ∷ b ∷ [])

  pub strtold : ℕ → ℕ → M ℕ
  strtold a b = forward L "strtold" (a ∷ b ∷ [])

  pub strtold_l : ℕ → ℕ → ℕ → M ℕ
  strtold_l a b c = forward L "strtold_l" (a ∷ b ∷ c ∷ [])

  pub drand48 : M ℕ
  drand48 = forward L "drand48" []

  pub erand48 : ℕ → M ℕ
  erand48 a = forward L "erand48" (a ∷ [])

  pub difftime : ℕ → ℕ → M ℕ
  difftime a b = forward L "difftime" (a ∷ b ∷ [])

  pub finite : ℕ → M ℕ
  finite x = forward L "finite" (x ∷ [])

  pub finitef : ℕ → M ℕ
  finitef x = forward L "finitef" (x ∷ [])

  pub finitel : ℕ → M ℕ
  finitel x = forward L "finitel" (x ∷ [])

  pub isinf : ℕ → M ℕ
  isinf x = forward L "isinf" (x ∷ [])

  pub isinff : ℕ → M ℕ
  isinff x = forward L "isinff" (x ∷ [])

  pub isinfl : ℕ → M ℕ
  isinfl x = forward L "isinfl" (x ∷ [])

  pub isnan : ℕ → M ℕ
  isnan x = forward L "isnan" (x ∷ [])

  pub isnanf : ℕ → M ℕ
  isnanf x = forward L "isnanf" (x ∷ [])

  pub isnanl : ℕ → M ℕ
  isnanl x = forward L "isnanl" (x ∷ [])

  pub get_h_errno : M ℕ
  get_h_errno = forward L "__h_errno_location" []

  pub cxa_finalize : ℕ → M ℕ
  cxa_finalize dso_handle = forward L "__cxa_finalize" (dso_handle ∷ [])
