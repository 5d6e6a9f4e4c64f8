-- ===== src/Stdio/Irregular/Streams.antt =====
-- The wrappers that hand the bionic stream to glibc as it is.
use fake_libc.Common.{ℕ, refl, [], ◌∷◌}
use fake_libc.Loader.{Linker}
use fake_libc.Loader.Ready.{Provides}
use fake_libc.Loader.Streams.{Forwards, forward-Returns}
use fake_libc.Stdio.Irregular.{vfwprintf, vfwscanf, rewind, ftello, feof}

module _ (L : Linker) where
  -- The five wrappers, with the address of the bionic stream itself among the arguments.
  abbrev pub RawStreams : (fp b ap : ℕ) → Type 0
  RawStreams fp b ap =
      (Forwards L (vfwprintf L fp b ap) "vfwprintf" (fp ∷ b ∷ ap ∷ []))
      × (Forwards L (vfwscanf L fp b ap) "vfwscanf" (fp ∷ b ∷ ap ∷ []))
      × (Forwards L (rewind L fp) "rewind" (fp ∷ []))
      × (Forwards L (ftello L fp) "ftello" (fp ∷ []))
      × (Forwards L (feof L fp) "feof" (fp ∷ []))

module _ (L : Linker) (p : Provides L) where
  -- If glibc provides its symbols: vfwprintf, vfwscanf, rewind, ftello and feof call glibc with
  -- the bionic stream's own address, also where this is one of &__sF[0..2].
  pub raw_streams : (fp b ap : ℕ) → RawStreams L fp b ap
  unfolding vfwprintf vfwscanf rewind ftello feof
  raw_streams fp b ap = (
    forward-Returns L p "vfwprintf" (fp ∷ b ∷ ap ∷ []) refl,
    forward-Returns L p "vfwscanf" (fp ∷ b ∷ ap ∷ []) refl,
    forward-Returns L p "rewind" (fp ∷ []) refl,
    forward-Returns L p "ftello" (fp ∷ []) refl,
    forward-Returns L p "feof" (fp ∷ []) refl,
  )
