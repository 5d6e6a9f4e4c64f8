-- ===== src/Sysconf/Translation.antt =====
-- The array `sysconf_map` that the initialisers of `Table` make, and `sysconf`. The parameter `macros` is
-- what the names stand for where the table is compiled.
use Prim.Native.String.{String}
use fake_libc.Common.{ℕ, zero, suc, List, [], ◌∷◌, Option, none, some, ok, fault, get_elem?}
use fake_libc.Loader.{Linker, M, load_symbol, call_glibc, glibc, ◌>>=◌, ◌>>◌}
use fake_libc.Sysconf.Table.{initialisers}

-- `[i] = v`: the array grows to this index, with zeros below it.
unfoldable pub designate : ℕ → ℕ → List ℕ → List ℕ
designate zero v [] = v ∷ []
designate zero v (x ∷ xs) = v ∷ xs
designate (suc i) v [] = 0 ∷ designate i v []
designate (suc i) v (x ∷ xs) = x ∷ designate i v xs

-- The initialisers between #ifdef and #endif in their order.
unfoldable pub initialise : (String → Option ℕ) → List (ℕ × String) → List ℕ → List ℕ
initialise macros [] a = a
initialise macros ((i, name) ∷ es) a = elim (macros name) [
  | none ↦ initialise macros es a
  | some v ↦ initialise macros es (designate i v a)
]

unfoldable pub sysconf_map : (String → Option ℕ) → List ℕ
unfolding initialise
sysconf_map macros = initialise macros initialisers []

-- What the headers define that fake_libc.c includes: none of the names, since <unistd.h> is not among
-- them.
unfoldable pub included_macros : String → Option ℕ
included_macros name = none

-- `sysconf_map[name]`, a fault out of bounds.
pub map_name : (String → Option ℕ) → ℕ → M ℕ
map_name macros name r = elim (get_elem? (sysconf_map macros) name) [
  | none ↦ fault
  | some v ↦ ok (v, r)
]

module _ (L : Linker) where
  unfoldable pub sysconf : (String → Option ℕ) → ℕ → M ℕ
  unfolding map_name
  sysconf macros name = do
    load_symbol L glibc "sysconf"
    v ← map_name macros name
    call_glibc L "sysconf" (v ∷ [])
