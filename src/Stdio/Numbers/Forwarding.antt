-- ===== src/Stdio/Numbers/Forwarding.antt =====
-- The numeric wrappers hand their arguments on.
use fake_libc.Common.{ℕ, refl, [], ◌∷◌}
use fake_libc.Loader.{Linker}
use fake_libc.Loader.Ready.{Provides}
use fake_libc.Loader.Streams.{Forwards, forward-Returns}
use fake_libc.Stdio.Numbers.{
  ldexp, atof, strtod, strtof, strtold, strtold_l, drand48, erand48, difftime, finite, finitef,
  finitel, isinf, isinff, isinfl, isnan, isnanf, isnanl, get_h_errno, cxa_finalize,
}

module _ (L : Linker) where
  -- Each wrapper of the family, with the function of glibc that it is to call and the arguments.
  abbrev pub Numbers : (a b c : ℕ) → Type 0
  Numbers a b c =
      (Forwards L (ldexp L a b) "ldexp" (a ∷ b ∷ []))
      × (Forwards L (atof L a) "atof" (a ∷ []))
      × (Forwards L (strtod L a b) "strtod" (a ∷ b ∷ []))
      × (Forwards L (strtof L a b) "strtof" (a ∷ b ∷ []))
      × (Forwards L (strtold L a b) "strtold" (a ∷ b ∷ []))
      × (Forwards L (strtold_l L a b c) "strtold_l" (a ∷ b ∷ c ∷ []))
      × (Forwards L (drand48 L) "drand48" ([]))
      × (Forwards L (erand48 L a) "erand48" (a ∷ []))
      × (Forwards L (difftime L a b) "difftime" (a ∷ b ∷ []))
      × (Forwards L (finite L a) "finite" (a ∷ []))
      × (Forwards L (finitef L a) "finitef" (a ∷ []))
      × (Forwards L (finitel L a) "finitel" (a ∷ []))
      × (Forwards L (isinf L a) "isinf" (a ∷ []))
      × (Forwards L (isinff L a) "isinff" (a ∷ []))
      × (Forwards L (isinfl L a) "isinfl" (a ∷ []))
      × (Forwards L (isnan L a) "isnan" (a ∷ []))
      × (Forwards L (isnanf L a) "isnanf" (a ∷ []))
      × (Forwards L (isnanl L a) "isnanl" (a ∷ []))
      × (Forwards L (get_h_errno L) "__h_errno_location" ([]))
      × (Forwards L (cxa_finalize L a) "__cxa_finalize" (a ∷ []))

module _ (L : Linker) (p : Provides L) where
  -- If glibc provides its symbols: each numeric wrapper makes one call of the glibc function of
  -- its name on its own arguments, and answers what this call answers.
  pub numbers : (a b c : ℕ) → Numbers L a b c
  unfolding ldexp atof strtod strtof strtold strtold_l drand48 erand48 difftime finite finitef
      finitel isinf isinff isinfl isnan isnanf isnanl get_h_errno cxa_finalize
  numbers a b c = (
    forward-Returns L p "ldexp" (a ∷ b ∷ []) refl,
    forward-Returns L p "atof" (a ∷ []) refl,
    forward-Returns L p "strtod" (a ∷ b ∷ []) refl,
    forward-Returns L p "strtof" (a ∷ b ∷ []) refl,
    forward-Returns L p "strtold" (a ∷ b ∷ []) refl,
    forward-Returns L p "strtold_l" (a ∷ b ∷ c ∷ []) refl,
    forward-Returns L p "drand48" ([]) refl,
    forward-Returns L p "erand48" (a ∷ []) refl,
    forward-Returns L p "difftime" (a ∷ b ∷ []) refl,
    forward-Returns L p "finite" (a ∷ []) refl,
    forward-Returns L p "finitef" (a ∷ []) refl,
    forward-Returns L p "finitel" (a ∷ []) refl,
    forward-Returns L p "isinf" (a ∷ []) refl,
    forward-Returns L p "isinff" (a ∷ []) refl,
    forward-Returns L p "isinfl" (a ∷ []) refl,
    forward-Returns L p "isnan" (a ∷ []) refl,
    forward-Returns L p "isnanf" (a ∷ []) refl,
    forward-Returns L p "isnanl" (a ∷ []) refl,
    forward-Returns L p "__h_errno_location" ([]) refl,
    forward-Returns L p "__cxa_finalize" (a ∷ []) refl,
  )
