-- ===== src/Tests/Stdio.antt =====
-- The loader and the wrappers over a small dynamic linker.
use Prim.Native.String.{String}
use text.Mathlib.Text.{◌==◌ as str_eq}
use fake_libc.Stdio.Forwarding.{all_wrappers}
use fake_libc.Stdio.Numbers.Forwarding.{Numbers}
use fake_libc.Common.{true, ◌||◌, ◌+◌, ◌≡◌, ◌≢◌, refl, if◌then◌else◌, [], ◌∷◌, ok, arith, none, inl}
use fake_libc.Loader.{
  glibc, Linker, Runtime, via_dlmopen, via_dlsym, load_symbol, get_actual_fp, init_dl,
  forward_stream, load_library, look_up, call_pointer, deref_glibc, set_handle, set_symbol,
  choose_stream,
}
use fake_libc.Loader.Returns.{Returns}
use fake_libc.Loader.Ready.{uses, Provides, IsReady, symbol_at}
use fake_libc.Loader.Init.{cold, Initialised, init_dl-Initialised}
use fake_libc.Stdio.Narrow.Forwarding.{NarrowStreams}
use fake_libc.Stdio.Wide.Forwarding.{WideStreams}
use fake_libc.Stdio.Formatted.Forwarding.{FormattedText}
use fake_libc.Stdio.Irregular.{fgetpos, fsetpos}
use fake_libc.Stdio.Irregular.Recursion.{recursive_wrappers}

-- Each library is at 7; other symbols than those that are used are missing, the standard streams stand at 501 to 503 and all else
-- at 500; a call answers 3.
abbrev pub tiny : Linker
tiny = record {
  dlmopen = λ id path. 7;
  dlsym = λ h f.
      if uses f || str_eq f "init_dlfunctions"
      then (if str_eq f "stdin"
          then 501
          else (if str_eq f "stdout" then 502 else (if str_eq f "stderr" then 503 else 500)))
      else 0;
  answer = λ calls p args. 3;
  content = λ p. p + 100;
  sf_base = 64;
  sf_size = 84;
}

tiny_symbol : (f : String) → uses f ≡ true → symbol_at tiny glibc f ≢ 0
tiny_symbol f used = rw used (ground arith)

pub tiny-Provides : Provides tiny
tiny-Provides = record { libraries = λ lib. omega arith; symbols = tiny_symbol }

-- The linker's functions are known, and nothing is loaded.
abbrev pub started : Runtime
started = record cold { statics = record cold.statics { glibc_dlmopen = 1; glibc_dlsym = 2 } }

pub started-IsReady : IsReady tiny started
started-IsReady = record {
  dlmopen_there = omega arith;
  dlsym_there = omega arith;
  handles = λ lib. inl refl;
  pointers = λ lib f. inl refl;
}

stdout_translated :
    forward_stream tiny "fputs" 148 (λ p. 9 ∷ p ∷ []) started
    ≡ ok (
      3,
      record started {
        handle = (set_handle glibc 7 started).handle;
        symbol =
            (set_symbol glibc "stderr" 503 (
              set_symbol glibc "stdout" 502
                (set_symbol glibc "stdin" 501 (set_symbol glibc "fputs" 500 started)))).symbol;
        calls = (500, 9 ∷ 602 ∷ []) ∷ [];
      },
    )
unfolding forward_stream load_symbol load_library look_up via_dlmopen via_dlsym call_pointer
    deref_glibc get_actual_fp choose_stream set_handle set_symbol
stdout_translated = refl

init_dl-Initialised_example :
    Returns (λ _ r. Initialised tiny 5 1 2 3 4 5 6 77 8 r) (init_dl tiny 5 1 2 3 4 5 6 77 8 cold)
init_dl-Initialised_example =
    init_dl-Initialised tiny tiny-Provides 5 1 2 3 4 5 6 77 8 (omega arith) (omega arith)
      (ground arith)

recursive_wrappers_example :
    (fgetpos tiny 50 148 9 started ≡ none) × (fsetpos tiny 50 148 9 started ≡ none)
recursive_wrappers_example = recursive_wrappers tiny tiny-Provides 50 148 9 started started-IsReady

all_wrappers_example :
    NarrowStreams tiny 1 2 3 148
    × WideStreams tiny 1 2 3 4 148
    × FormattedText tiny 1 2 3 4 5 6
    × Numbers tiny 1 2 3
all_wrappers_example = all_wrappers tiny tiny-Provides 1 2 3 4 5 6 148
