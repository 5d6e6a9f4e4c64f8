-- ===== src/Stdio/Forwarding.antt =====
-- The four families of wrappers together.
use fake_libc.Common.{ℕ}
use fake_libc.Loader.{Linker}
use fake_libc.Loader.Ready.{Provides}
use fake_libc.Stdio.Narrow.Forwarding.{NarrowStreams, narrow_streams}
use fake_libc.Stdio.Wide.Forwarding.{WideStreams, wide_streams}
use fake_libc.Stdio.Formatted.Forwarding.{FormattedText, formatted_text}
use fake_libc.Stdio.Numbers.Forwarding.{Numbers, numbers}

-- If glibc provides its symbols: from every ready runtime each byte-stream, wide-character,
-- text-formatting and numeric wrapper of these four families makes one call of glibc, of the
-- function of its name (of the v variant for a variadic one), on glibc's stream for the bionic
-- one and on its other arguments in their order, and answers what this call answers.
pub all_wrappers :
    (L : Linker) (p : Provides L) (a b c d e h fp : ℕ)
    → NarrowStreams L a b c fp
      × WideStreams L a b c d fp
      × FormattedText L a b c d e h
      × Numbers L a b c
all_wrappers L p a b c d e h fp = (
  narrow_streams L p a b c fp,
  wide_streams L p a b c d fp,
  formatted_text L p a b c d e h,
  numbers L p a b c,
)
