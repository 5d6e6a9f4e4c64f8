-- ===== src/SystemProperties/Search.antt =====
-- `strstr`, and the loop over the lines.
use fake_libc.Common.{
  ℕ, suc, ◌+◌, ◌<◌, ◌≡◌, refl, ap, Bool, true, false, ◌&&◌, Option, none, some, List, [], ◌∷◌, ◌++◌,
  ok, length, drop, arith,
}
use fake_libc.SystemProperties.{Text, same_text, starts_with, strstr, strcpy, cut, read_lines}

pub same_text_refl : (s : Text) → same_text s s ≡ true
unfolding same_text
same_text_refl [] = refl
same_text_refl (a ∷ s) = ground (arith, same_text_refl s)

starts_with-append : (name s : Text) → starts_with (name ++ s) name ≡ true
unfolding starts_with
starts_with-append [] [] = refl
starts_with-append [] (a ∷ s) = refl
starts_with-append (a ∷ name) s = ground (arith, starts_with-append name s)

strstr-here : (s name : Text) → starts_with s name ≡ true → strstr s name ≡ some s
unfolding strstr
strstr-here [] name h = rw h refl
strstr-here (a ∷ s) name h = rw h refl

-- The first occurrence is found.
pub strstr-first :
    (before name s : Text)
    → ((k : ℕ) → k < length before → starts_with (drop k (before ++ (name ++ s))) name ≡ false)
    → strstr (before ++ (name ++ s)) name ≡ some (name ++ s)
unfolding strstr
strstr-first [] name s h = strstr-here (name ++ s) name (starts_with-append name s)
strstr-first (a ∷ before) name s h =
    rw (h 0 (omega arith)) (strstr-first before name s (λ k lt. h (suc k) (omega arith)))

pub cut-append : (s : Text) (c : ℕ) → cut (s ++ c ∷ []) ≡ s
unfolding cut
cut-append [] c = refl
cut-append (a ∷ []) c = refl
cut-append (a ∷ b ∷ s) c = ap (◌∷◌ a) (cut-append (b ∷ s) c)

pub drop-past : (s : Text) (c : ℕ) (t : Text) → drop (length s + 1) (s ++ c ∷ t) ≡ t
drop-past [] c t = refl
drop-past (a ∷ s) c t =
    let e : length (a ∷ s) + 1 ≡ suc (length s + 1) = omega arith in rw e (drop-past s c t)

pub strcpy-fits : (size : ℕ) (s : Text) → length s < size → strcpy size s ≡ ok s
unfolding strcpy
strcpy-fits size s h = ground arith

abbrev is_none : Option Text → Bool
is_none none = true
is_none (some pos) = false

is_none-eq : (o : Option Text) → is_none o ≡ true → o ≡ none
is_none-eq none h = refl
is_none-eq (some pos) h = ground (arith, h)

-- No line of a list contains a name.
unfoldable pub lacks : Text → List Text → Bool
lacks name [] = true
lacks name (line ∷ lines) = is_none (strstr (cut line) name) && lacks name lines

-- Lines without the name are passed over.
pub read_lines-lacks :
    (size : ℕ) (name : Text) (lines rest : List Text)
    → lacks name lines ≡ true
    → read_lines size name (lines ++ rest) ≡ read_lines size name rest
unfolding lacks read_lines
read_lines-lacks size name [] rest h = refl
read_lines-lacks size name (line ∷ lines) rest h =
    let no = is_none-eq (strstr (cut line) name) (ground arith) in
    rw (read_lines, no) (read_lines-lacks size name lines rest (ground arith))
