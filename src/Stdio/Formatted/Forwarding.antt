-- ===== src/Stdio/Formatted/Forwarding.antt =====
-- The wrappers for formatted text hand their arguments on.
use fake_libc.Common.{ℕ, refl, [], ◌∷◌}
use fake_libc.Loader.{Linker}
use fake_libc.Loader.Ready.{Provides}
use fake_libc.Loader.Streams.{Forwards, forward-Returns}
use fake_libc.Stdio.Formatted.{
  sprintf_chk, vasprintf, asprintf, snprintf_chk, vsnprintf_chk, scanf, sscanf, vscanf, vsscanf,
  dprintf, sprintf, snprintf, vprintf, vdprintf, vsprintf, vsnprintf, fopen, fdopen,
}

module _ (L : Linker) where
  -- Each wrapper of the family, with the function of glibc that it is to call and the arguments.
  abbrev pub FormattedText : (a b c d e h : ℕ) → Type 0
  FormattedText a b c d e h =
      (Forwards L (sprintf_chk L a b c d e) "__vsprintf_chk" (a ∷ b ∷ c ∷ d ∷ e ∷ []))
      × (Forwards L (vasprintf L a b c) "vasprintf" (a ∷ b ∷ c ∷ []))
      × (Forwards L (asprintf L a b c) "vasprintf" (a ∷ b ∷ c ∷ []))
      × (Forwards L (snprintf_chk L a b c d e h) "__vsnprintf_chk" (a ∷ b ∷ c ∷ d ∷ e ∷ h ∷ []))
      × (Forwards L (vsnprintf_chk L a b c d e h) "__vsnprintf_chk" (a ∷ b ∷ c ∷ d ∷ e ∷ h ∷ []))
      × (Forwards L (scanf L a b) "vscanf" (a ∷ b ∷ []))
      × (Forwards L (sscanf L a b c) "vsscanf" (a ∷ b ∷ c ∷ []))
      × (Forwards L (vscanf L a b) "vscanf" (a ∷ b ∷ []))
      × (Forwards L (vsscanf L a b c) "vsscanf" (a ∷ b ∷ c ∷ []))
      × (Forwards L (dprintf L a b c) "vdprintf" (a ∷ b ∷ c ∷ []))
      × (Forwards L (sprintf L a b c) "vsprintf" (a ∷ b ∷ c ∷ []))
      × (Forwards L (snprintf L a b c d) "vsnprintf" (a ∷ b ∷ c ∷ d ∷ []))
      × (Forwards L (vprintf L a b) "vprintf" (a ∷ b ∷ []))
      × (Forwards L (vdprintf L a b c) "vdprintf" (a ∷ b ∷ c ∷ []))
      × (Forwards L (vsprintf L a b c) "vsprintf" (a ∷ b ∷ c ∷ []))
      × (Forwards L (vsnprintf L a b c d) "vsnprintf" (a ∷ b ∷ c ∷ d ∷ []))
      × (Forwards L (fopen L a b) "fopen" (a ∷ b ∷ []))
      × (Forwards L (fdopen L a b) "fdopen" (a ∷ b ∷ []))

module _ (L : Linker) (p : Provides L) where
  -- If glibc provides its symbols: each wrapper for formatted text without a stream makes one
  -- call of glibc, of the v variant for a variadic one, on its own arguments in their order, and
  -- answers what this call answers.
  pub formatted_text : (a b c d e h : ℕ) → FormattedText L a b c d e h
  unfolding sprintf_chk vasprintf asprintf snprintf_chk vsnprintf_chk scanf sscanf vscanf vsscanf
      dprintf sprintf snprintf vprintf vdprintf vsprintf vsnprintf fopen fdopen
  formatted_text a b c d e h = (
    forward-Returns L p "__vsprintf_chk" (a ∷ b ∷ c ∷ d ∷ e ∷ []) refl,
    forward-Returns L p "vasprintf" (a ∷ b ∷ c ∷ []) refl,
    forward-Returns L p "vasprintf" (a ∷ b ∷ c ∷ []) refl,
    forward-Returns L p "__vsnprintf_chk" (a ∷ b ∷ c ∷ d ∷ e ∷ h ∷ []) refl,
    forward-Returns L p "__vsnprintf_chk" (a ∷ b ∷ c ∷ d ∷ e ∷ h ∷ []) refl,
    forward-Returns L p "vscanf" (a ∷ b ∷ []) refl,
    forward-Returns L p "vsscanf" (a ∷ b ∷ c ∷ []) refl,
    forward-Returns L p "vscanf" (a ∷ b ∷ []) refl,
    forward-Returns L p "vsscanf" (a ∷ b ∷ c ∷ []) refl,
    forward-Returns L p "vdprintf" (a ∷ b ∷ c ∷ []) refl,
    forward-Returns L p "vsprintf" (a ∷ b ∷ c ∷ []) refl,
    forward-Returns L p "vsnprintf" (a ∷ b ∷ c ∷ d ∷ []) refl,
    forward-Returns L p "vprintf" (a ∷ b ∷ []) refl,
    forward-Returns L p "vdprintf" (a ∷ b ∷ c ∷ []) refl,
    forward-Returns L p "vsprintf" (a ∷ b ∷ c ∷ []) refl,
    forward-Returns L p "vsnprintf" (a ∷ b ∷ c ∷ d ∷ []) refl,
    forward-Returns L p "fopen" (a ∷ b ∷ []) refl,
    forward-Returns L p "fdopen" (a ∷ b ∷ []) refl,
  )
