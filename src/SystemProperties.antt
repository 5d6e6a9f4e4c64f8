-- ===== src/SystemProperties.antt =====
-- `__system_property_get` of fake_libc.c: a look-up in /system/build.prop behind a cache of one entry.
-- A text is the list of the bytes before its terminator.
pub mod Lookup
pub mod Search
pub mod Answers
use fake_libc.Common.{
  ℕ, suc, ◌+◌, ◌==◌, leb, if◌then◌else◌, Bool, true, false, ◌&&◌, Option, none, some, List, [], ◌∷◌,
  Outcome, ok, fault, ◌>>=◌, length, drop,
}

abbrev pub Text : Type 0
Text = List ℕ

-- `strcmp(a, b) == 0`
unfoldable pub same_text : Text → Text → Bool
same_text [] [] = true
same_text (a ∷ s) (b ∷ t) = a == b && same_text s t
same_text _ _ = false

unfoldable pub starts_with : Text → Text → Bool
starts_with s [] = true
starts_with [] (b ∷ t) = false
starts_with (a ∷ s) (b ∷ t) = a == b && starts_with s t

-- The text from the first occurrence on.
unfoldable pub strstr : Text → Text → Option Text
unfolding starts_with
strstr [] t = if starts_with [] t then some [] else none
strstr (a ∷ s) t = if starts_with (a ∷ s) t then some (a ∷ s) else strstr s t

-- A copy into a buffer of `size` bytes.
unfoldable pub strcpy : ℕ → Text → Outcome Text
strcpy size s = if leb size (length s) then fault else ok s

-- `line[read-1] = 0`, which leaves a second terminator behind the first.
unfoldable pub cut : Text → Text
cut [] = []
cut (c ∷ []) = []
cut (c ∷ d ∷ s) = c ∷ cut (d ∷ s)

pub record Cache : Type 0 where
  pub last_property : Text
  pub last_value : Text

abbrev pub buffer_size : ℕ
buffer_size = 4096

-- The result, the new text in `value` (none if it is left alone), and the new cache.
pub record Answer : Type 0 where
  pub result : ℕ
  pub value : Option Text
  pub cache : Cache

abbrev answer : ℕ → Option Text → Text → Text → Answer
answer n v property last = record {
  result = n;
  value = v;
  cache = record { last_property = property; last_value = last };
}

-- The branch for a line with the name, at `pos`; `size` is the size of the caller's buffer.
unfoldable pub found : ℕ → Text → Text → Outcome Answer
unfolding strcpy
found size name pos = do
  value ← strcpy size (drop (length name + 1) pos)
  last_value ← strcpy buffer_size value
  last_property ← strcpy buffer_size name
  ok (answer (length value) (some value) last_property last_value)

-- The loop over the lines, and what stands behind it.
unfoldable pub read_lines : ℕ → Text → List Text → Outcome Answer
unfolding strstr cut found strcpy
read_lines size name [] = do
  last_property ← strcpy buffer_size name
  ok (answer 0 none last_property [])
read_lines size name (line ∷ lines) = elim (strstr (cut line) name) [
  | some pos ↦ found size name pos
  | none ↦ read_lines size name lines
]

-- Without the file, `fclose` is given a null pointer at the end.
unfoldable pub read_file : ℕ → Text → Option (List Text) → Outcome Answer
read_file size name none = fault
read_file size name (some lines) = read_lines size name lines

-- The answer out of the cache.
unfoldable pub cached : ℕ → Cache → Outcome Answer
unfolding strcpy
cached size c = do
  value ← strcpy size c.last_value
  ok (answer (length value) (some value) c.last_property c.last_value)

-- The functions that only answer a constant, 0 or null; `foreach` calls nothing.
unfoldable pub system_property_set : Text → Text → ℕ
system_property_set name value = 0

unfoldable pub system_property_foreach : (propfn cookie : ℕ) → ℕ
system_property_foreach propfn cookie = 0

unfoldable pub system_property_serial : (pi : ℕ) → ℕ
system_property_serial pi = 0

unfoldable pub system_property_find_compat : Text → ℕ
system_property_find_compat name = 0

unfoldable pub system_property_find : Text → ℕ
system_property_find name = 0

unfoldable pub system_property_area_serial : ℕ
system_property_area_serial = 0

unfoldable pub system_property_read : (pi : ℕ) → Text → Text → ℕ
system_property_read pi name value = 0
