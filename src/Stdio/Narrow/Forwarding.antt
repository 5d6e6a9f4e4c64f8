-- ===== src/Stdio/Narrow/Forwarding.antt =====
-- The byte-stream wrappers hand on glibc's stream.
use fake_libc.Common.{ℕ, refl, [], ◌∷◌}
use fake_libc.Loader.{Linker}
use fake_libc.Loader.Ready.{Provides}
use fake_libc.Loader.Streams.{actual, Forwards, forward_stream-Returns}
use fake_libc.Stdio.Narrow.{
  vfprintf, fprintf, fputs, fputc, fgetc, fgets, getc, ungetc, fread, fwrite, fflush, fscanf,
  vfscanf, fclose, getline, freopen, ferror, fseek, fseeko, ftell, fileno,
}

module _ (L : Linker) where
  -- Each wrapper of the family, with the function of glibc that it is to call and the arguments.
  abbrev pub NarrowStreams : (a b c fp : ℕ) → Type 0
  NarrowStreams a b c fp =
      (Forwards L (vfprintf L fp a b) "vfprintf" (actual L fp ∷ a ∷ b ∷ []))
      × (Forwards L (fprintf L fp a b) "vfprintf" (actual L fp ∷ a ∷ b ∷ []))
      × (Forwards L (fputs L a fp) "fputs" (a ∷ actual L fp ∷ []))
      × (Forwards L (fputc L a fp) "fputc" (a ∷ actual L fp ∷ []))
      × (Forwards L (fgetc L fp) "fgetc" (actual L fp ∷ []))
      × (Forwards L (fgets L a b fp) "fgets" (a ∷ b ∷ actual L fp ∷ []))
      × (Forwards L (getc L fp) "getc" (actual L fp ∷ []))
      × (Forwards L (ungetc L a fp) "ungetc" (a ∷ actual L fp ∷ []))
      × (Forwards L (fread L a b c fp) "fread" (a ∷ b ∷ c ∷ actual L fp ∷ []))
      × (Forwards L (fwrite L a b c fp) "fwrite" (a ∷ b ∷ c ∷ actual L fp ∷ []))
      × (Forwards L (fflush L fp) "fflush" (actual L fp ∷ []))
      × (Forwards L (fscanf L fp a b) "vfscanf" (actual L fp ∷ a ∷ b ∷ []))
      × (Forwards L (vfscanf L fp a b) "vfscanf" (actual L fp ∷ a ∷ b ∷ []))
      × (Forwards L (fclose L fp) "fclose" (actual L fp ∷ []))
      × (Forwards L (getline L a b fp) "getline" (a ∷ b ∷ actual L fp ∷ []))
      × (Forwards L (freopen L a b fp) "freopen" (a ∷ b ∷ actual L fp ∷ []))
      × (Forwards L (ferror L fp) "ferror" (actual L fp ∷ []))
      × (Forwards L (fseek L fp a b) "fseek" (actual L fp ∷ a ∷ b ∷ []))
      × (Forwards L (fseeko L fp a b) "fseeko" (actual L fp ∷ a ∷ b ∷ []))
      × (Forwards L (ftell L fp) "ftell" (actual L fp ∷ []))
      × (Forwards L (fileno L fp) "fileno" (actual L fp ∷ []))

module _ (L : Linker) (p : Provides L) where
  -- If glibc provides its symbols: from every ready runtime each byte-stream wrapper makes one
  -- call of glibc, of the function of its name (of the v variant for a variadic one), on glibc's
  -- stream for the bionic one and on its other arguments, and answers what this call answers.
  pub narrow_streams : (a b c fp : ℕ) → NarrowStreams L a b c fp
  unfolding vfprintf fprintf fputs fputc fgetc fgets getc ungetc fread fwrite fflush fscanf vfscanf
      fclose getline freopen ferror fseek fseeko ftell fileno
  narrow_streams a b c fp = (
    forward_stream-Returns L p "vfprintf" fp (λ q. q ∷ a ∷ b ∷ []) refl,
    forward_stream-Returns L p "vfprintf" fp (λ q. q ∷ a ∷ b ∷ []) refl,
    forward_stream-Returns L p "fputs" fp (λ q. a ∷ q ∷ []) refl,
    forward_stream-Returns L p "fputc" fp (λ q. a ∷ q ∷ []) refl,
    forward_stream-Returns L p "fgetc" fp (λ q. q ∷ []) refl,
    forward_stream-Returns L p "fgets" fp (λ q. a ∷ b ∷ q ∷ []) refl,
    forward_stream-Returns L p "getc" fp (λ q. q ∷ []) refl,
    forward_stream-Returns L p "ungetc" fp (λ q. a ∷ q ∷ []) refl,
    forward_stream-Returns L p "fread" fp (λ q. a ∷ b ∷ c ∷ q ∷ []) refl,
    forward_stream-Returns L p "fwrite" fp (λ q. a ∷ b ∷ c ∷ q ∷ []) refl,
    forward_stream-Returns L p "fflush" fp (λ q. q ∷ []) refl,
    forward_stream-Returns L p "vfscanf" fp (λ q. q ∷ a ∷ b ∷ []) refl,
    forward_stream-Returns L p "vfscanf" fp (λ q. q ∷ a ∷ b ∷ []) refl,
    forward_stream-Returns L p "fclose" fp (λ q. q ∷ []) refl,
    forward_stream-Returns L p "getline" fp (λ q. a ∷ b ∷ q ∷ []) refl,
    forward_stream-Returns L p "freopen" fp (λ q. a ∷ b ∷ q ∷ []) refl,
    forward_stream-Returns L p "ferror" fp (λ q. q ∷ []) refl,
    forward_stream-Returns L p "fseek" fp (λ q. q ∷ a ∷ b ∷ []) refl,
    forward_stream-Returns L p "fseeko" fp (λ q. q ∷ a ∷ b ∷ []) refl,
    forward_stream-Returns L p "ftell" fp (λ q. q ∷ []) refl,
    forward_stream-Returns L p "fileno" fp (λ q. q ∷ []) refl,
  )
