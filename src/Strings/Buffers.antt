-- ===== src/Strings/Buffers.antt =====
-- Byte buffers written at the end of a known prefix, and strings before their terminator.
use fake_libc.Common.{
  ℕ, ◌+◌, ◌<◌, ◌≡◌, refl, false, [], ◌∷◌, ◌++◌, arith, ◌==◌, ok, length, length-append,
  get_elem?-append, set-append, append_assoc,
}
use fake_libc.Strings.{Bytes, read, write, skip_rest, strlen}

-- No byte of a string's text is its terminator.
abbrev pub NoNul : Bytes → Type 0
NoNul [] = Unit {0}
NoNul (c ∷ s) = (0 < c) × NoNul s

pub read-append : (pre : Bytes) (c : ℕ) (rest : Bytes) → read (pre ++ c ∷ rest) (length pre) ≡ ok c
unfolding read
read-append pre c rest = rw (get_elem?-append pre c rest)

pub write-append :
    (pre : Bytes) (c v : ℕ) (rest : Bytes)
    → write (pre ++ c ∷ rest) (length pre) v ≡ ok (pre ++ v ∷ rest)
unfolding write
write-append pre c v rest = rw (read-append pre c rest, set-append pre c v rest)

pub skip_rest-append : (s tail : Bytes) → NoNul s → skip_rest (s ++ 0 ∷ tail) ≡ ok tail
unfolding skip_rest
skip_rest-append [] tail h = refl
skip_rest-append (c ∷ s) tail h = ground (arith, skip_rest-append s tail h.1)

pub strlen-append : (s tail : Bytes) → NoNul s → strlen (s ++ 0 ∷ tail) ≡ ok (length s)
unfolding strlen
strlen-append [] tail h = refl
strlen-append (c ∷ s) tail h = ground (arith, strlen-append s tail h.1)

-- One more byte of the prefix: the shape in which the loops' induction goes on.
pub snoc-append : (pre : Bytes) (c : ℕ) (rest : Bytes) → pre ++ c ∷ rest ≡ (pre ++ c ∷ []) ++ rest
snoc-append pre c rest = simp append_assoc

pub length-snoc : (pre : Bytes) (c : ℕ) → length (pre ++ c ∷ []) ≡ length pre + 1
length-snoc pre c = omega (arith, length-append pre (c ∷ []))

-- The loops' test on a byte of the text.
pub pos-== : (c : ℕ) → 0 < c → (c == 0) ≡ false
pos-== c h = ground arith
