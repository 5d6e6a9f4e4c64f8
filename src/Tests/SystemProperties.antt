-- ===== src/Tests/SystemProperties.antt =====
-- Look-ups in a build.prop of three lines: "ab=x", "cd.ab.e=yz" and "e=w".
use fake_libc.Common.{
  ℕ, zero, suc, ◌<◌, ◌≡◌, refl, List, [], ◌∷◌, ◌++◌, ok, some, Option, arith, length, drop, false,
}
use fake_libc.Loader.Returns.{Returns}
use fake_libc.Loader.Ready.{Extends}
use fake_libc.SystemProperties.{
  Text, Cache, same_text, starts_with, strstr, cut, read_lines, found, strcpy,
}
use fake_libc.SystemProperties.Lookup.{system_property_get}
use fake_libc.SystemProperties.Search.{lacks}
use fake_libc.SystemProperties.Answers.{with_value, get-found}
use fake_libc.Tests.Stdio.{tiny, tiny-Provides, started, started-IsReady}

abbrev first_line : Text
first_line = b'a' ∷ b'b' ∷ b'=' ∷ b'x' ∷ 10 ∷ []

abbrev second_line : Text
second_line = b'c' ∷ b'd' ∷ b'.' ∷ b'e' ∷ b'=' ∷ b'y' ∷ b'z' ∷ 10 ∷ []

abbrev third_line : Text
third_line = b'e' ∷ b'=' ∷ b'w' ∷ 10 ∷ []

abbrev build_prop : List Text
build_prop = first_line ∷ second_line ∷ third_line ∷ []

abbrev e_name : Text
e_name = b'e' ∷ []

abbrev empty_cache : Cache
empty_cache = record { last_property = []; last_value = [] }

-- The name "e" is found in the line of the property "cd.e".
substring_found : read_lines 92 e_name build_prop ≡ ok (with_value e_name (b'y' ∷ b'z' ∷ []))
unfolding read_lines strstr starts_with cut found strcpy
substring_found = refl

no_earlier :
    (k : ℕ)
    → k < length {A = ℕ} (b'c' ∷ b'd' ∷ b'.' ∷ [])
    → starts_with (drop k (b'c' ∷ b'd' ∷ b'.' ∷ e_name ++ b'=' ∷ b'y' ∷ b'z' ∷ [])) e_name ≡ false
unfolding starts_with
no_earlier zero lt = refl
no_earlier (suc zero) lt = refl
no_earlier (suc (suc zero)) lt = refl
no_earlier (suc (suc (suc k))) lt = absurd (omega arith)

get-found_example :
    Returns
      (λ a r'. (a ≡ with_value e_name (b'y' ∷ b'z' ∷ [])) × Extends tiny started r')
      (system_property_get tiny (some build_prop) e_name 92 empty_cache started)
    × ((file : Option (List Text)) (r' : _)
        → system_property_get tiny file e_name 92 (with_value e_name (b'y' ∷ b'z' ∷ [])).cache r'
          ≡ ok (with_value e_name (b'y' ∷ b'z' ∷ []), r'))
unfolding same_text lacks strstr starts_with cut
get-found_example =
    get-found tiny tiny-Provides (first_line ∷ []) (third_line ∷ []) (b'c' ∷ b'd' ∷ b'.' ∷ [])
      e_name b'=' (b'y' ∷ b'z' ∷ []) 10 92 empty_cache started started-IsReady refl refl no_earlier
      (omega arith) (omega arith) (omega arith)
