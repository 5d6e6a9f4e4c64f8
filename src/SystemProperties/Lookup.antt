-- ===== src/SystemProperties/Lookup.antt =====
-- `__system_property_get`, with the loading of the symbols that it uses. What fopen, getline, feof and
-- fclose do for /system/build.prop is the parameter `build_prop`: the lines of the file, if it is there.
use fake_libc.Common.{ℕ, Option, List, if◌then◌else◌, Outcome, ok, fault}
use fake_libc.Loader.{Linker, M, load_symbol, glibc, ◌>>◌}
use fake_libc.SystemProperties.{Text, Cache, Answer, same_text, read_file, cached}

abbrev pub lift : {A : Type 0} → Outcome A → M A
lift fault r = fault
lift (ok a) r = ok (a, r)

module _ (L : Linker) where
  -- The symbols that are loaded before the file is opened.
  unfoldable pub load_stdio : M (Unit {0})
  load_stdio = do
    load_symbol L glibc "fprintf"
    load_symbol L glibc "fopen"
    load_symbol L glibc "fclose"
    load_symbol L glibc "getline"
    load_symbol L glibc "feof"
    load_symbol L glibc "stderr"

  -- `size` is the size of the buffer at `value`.
  unfoldable pub system_property_get : Option (List Text) → Text → ℕ → Cache → M Answer
  system_property_get build_prop name size c =
      if same_text name c.last_property
      then lift (cached size c)
      else (load_stdio >> lift (read_file size name build_prop))
