-- ===== src/Stdio/Wide/Forwarding.antt =====
-- The wide-character wrappers hand on glibc's stream.
use fake_libc.Common.{ℕ, refl, [], ◌∷◌}
use fake_libc.Loader.{Linker}
use fake_libc.Loader.Ready.{Provides}
use fake_libc.Loader.Streams.{actual, Forwards, forward-Returns, forward_stream-Returns}
use fake_libc.Stdio.Wide.{
  fwprintf, fwscanf, fgetwc, fgetws, fputwc, fputws, fwide, getwc, putwc, swprintf, swscanf,
  vswprintf, vswscanf, vwprintf, vwscanf, wprintf, wscanf, wcstod, wcstof, wcstold, wcstold_l,
}

module _ (L : Linker) where
  -- Each wrapper of the family, with the function of glibc that it is to call and the arguments.
  abbrev pub WideStreams : (a b c d fp : ℕ) → Type 0
  WideStreams a b c d fp =
      (Forwards L (fwprintf L fp a b) "vfwprintf" (actual L fp ∷ a ∷ b ∷ []))
      × (Forwards L (fwscanf L fp a b) "vfwscanf" (actual L fp ∷ a ∷ b ∷ []))
      × (Forwards L (fgetwc L fp) "fgetwc" (actual L fp ∷ []))
      × (Forwards L (fgetws L a b fp) "fgetws" (a ∷ b ∷ actual L fp ∷ []))
      × (Forwards L (fputwc L a fp) "fputwc" (a ∷ actual L fp ∷ []))
      × (Forwards L (fputws L a fp) "fputws" (a ∷ actual L fp ∷ []))
      × (Forwards L (fwide L fp a) "fwide" (actual L fp ∷ a ∷ []))
      × (Forwards L (getwc L fp) "getwc" (actual L fp ∷ []))
      × (Forwards L (putwc L a fp) "putwc" (a ∷ actual L fp ∷ []))
      × (Forwards L (swprintf L a b c d) "vswprintf" (a ∷ b ∷ c ∷ d ∷ []))
      × (Forwards L (swscanf L a b c) "vswscanf" (a ∷ b ∷ c ∷ []))
      × (Forwards L (vswprintf L a b c d) "vswprintf" (a ∷ b ∷ c ∷ d ∷ []))
      × (Forwards L (vswscanf L a b c) "vswscanf" (a ∷ b ∷ c ∷ []))
      × (Forwards L (vwprintf L a b) "vwprintf" (a ∷ b ∷ []))
      × (Forwards L (vwscanf L a b) "vwscanf" (a ∷ b ∷ []))
      × (Forwards L (wprintf L a b) "vwprintf" (a ∷ b ∷ []))
      × (Forwards L (wscanf L a b) "vwscanf" (a ∷ b ∷ []))
      × (Forwards L (wcstod L a b) "wcstod" (a ∷ b ∷ []))
      × (Forwards L (wcstof L a b) "wcstof" (a ∷ b ∷ []))
      × (Forwards L (wcstold L a b) "wcstold" (a ∷ b ∷ []))
      × (Forwards L (wcstold_l L a b c) "wcstold_l" (a ∷ b ∷ c ∷ []))

module _ (L : Linker) (p : Provides L) where
  -- If glibc provides its symbols: each wide-character wrapper, but vfwprintf and vfwscanf,
  -- makes one call of glibc on glibc's stream and on its other arguments, and answers what this
  -- call answers.
  pub wide_streams : (a b c d fp : ℕ) → WideStreams L a b c d fp
  unfolding fwprintf fwscanf fgetwc fgetws fputwc fputws fwide getwc putwc swprintf swscanf
      vswprintf vswscanf vwprintf vwscanf wprintf wscanf wcstod wcstof wcstold wcstold_l
  wide_streams a b c d fp = (
    forward_stream-Returns L p "vfwprintf" fp (λ q. q ∷ a ∷ b ∷ []) refl,
    forward_stream-Returns L p "vfwscanf" fp (λ q. q ∷ a ∷ b ∷ []) refl,
    forward_stream-Returns L p "fgetwc" fp (λ q. q ∷ []) refl,
    forward_stream-Returns L p "fgetws" fp (λ q. a ∷ b ∷ q ∷ []) refl,
    forward_stream-Returns L p "fputwc" fp (λ q. a ∷ q ∷ []) refl,
    forward_stream-Returns L p "fputws" fp (λ q. a ∷ q ∷ []) refl,
    forward_stream-Returns L p "fwide" fp (λ q. q ∷ a ∷ []) refl,
    forward_stream-Returns L p "getwc" fp (λ q. q ∷ []) refl,
    forward_stream-Returns L p "putwc" fp (λ q. a ∷ q ∷ []) refl,
    forward-Returns L p "vswprintf" (a ∷ b ∷ c ∷ d ∷ []) refl,
    forward-Returns L p "vswscanf" (a ∷ b ∷ c ∷ []) refl,
    forward-Returns L p "vswprintf" (a ∷ b ∷ c ∷ d ∷ []) refl,
    forward-Returns L p "vswscanf" (a ∷ b ∷ c ∷ []) refl,
    forward-Returns L p "vwprintf" (a ∷ b ∷ []) refl,
    forward-Returns L p "vwscanf" (a ∷ b ∷ []) refl,
    forward-Returns L p "vwprintf" (a ∷ b ∷ []) refl,
    forward-Returns L p "vwscanf" (a ∷ b ∷ []) refl,
    forward-Returns L p "wcstod" (a ∷ b ∷ []) refl,
    forward-Returns L p "wcstof" (a ∷ b ∷ []) refl,
    forward-Returns L p "wcstold" (a ∷ b ∷ []) refl,
    forward-Returns L p "wcstold_l" (a ∷ b ∷ c ∷ []) refl,
  )
