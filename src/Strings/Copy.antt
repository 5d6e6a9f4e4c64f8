-- ===== src/Strings/Copy.antt =====
-- What `strlcpy` promises, on every size of the destination.
use fake_libc.Common.{
  ℕ, zero, suc, ◌+◌, ◌-◌, ◌<◌, ◌≤◌, ◌≡◌, ap, ◌∙◌, [], ◌∷◌, ◌++◌, arith, ok, ◌>>=◌, min, length,
  length-append, take, drop, append_assoc,
}
use fake_libc.Strings.{Bytes, copy_loop, finish_copy, strlcpy}
use fake_libc.Strings.Buffers.{
  NoNul, pos-==, write-append, skip_rest-append, snoc-append, length-snoc,
}

-- A destination whose first bytes are replaced by a string cut to `n` bytes, terminated.
unfoldable pub overwrite : (n : ℕ) (s free : Bytes) → Bytes
overwrite zero s [] = 0 ∷ []
overwrite zero s (_ ∷ free) = 0 ∷ free
overwrite (suc n) [] [] = 0 ∷ []
overwrite (suc n) [] (_ ∷ free) = 0 ∷ free
overwrite (suc n) (c ∷ s) [] = c ∷ overwrite n s []
overwrite (suc n) (c ∷ s) (_ ∷ free) = c ∷ overwrite n s free

module _ (src tail : Bytes) (siz : ℕ) where
  copy_loop-overwrite :
      (n : ℕ) (pre free s : Bytes)
      → NoNul s
      → n < length free
      → (copy_loop n (pre ++ free) (length pre) (s ++ 0 ∷ tail) >>= finish_copy (suc siz) src)
        ≡ ok (pre ++ overwrite n s free, length src - length tail - 1)
  unfolding copy_loop finish_copy overwrite
  copy_loop-overwrite n pre [] s h fits = absurd (omega arith)
  copy_loop-overwrite zero pre (x ∷ free) s h fits =
      rw (write-append pre x 0 free, skip_rest-append s tail h) (ground arith)
  copy_loop-overwrite (suc n) pre (x ∷ free) [] h fits =
      rw (write-append pre x 0 free) (ground arith)
  copy_loop-overwrite (suc n) pre (x ∷ free) (c ∷ s) h fits =
      rw (write-append pre x c free, pos-== c h.0, snoc-append pre c free, ← length-snoc pre c)
        (copy_loop-overwrite n (pre ++ c ∷ []) free s h.1 (omega arith)
          ∙ ap (λ b. ok (b, length src - length tail - 1))
              (append_assoc pre (c ∷ []) (overwrite n s free)))

length-source : (s tail : Bytes) → length (s ++ 0 ∷ tail) - length tail - 1 ≡ length s
length-source s tail = omega (arith, length-append s (0 ∷ tail))

pub overwrite-append :
    (n : ℕ) (s free : Bytes)
    → n < length free
    → overwrite n s free ≡ take n s ++ 0 ∷ drop (min n (length s) + 1) free
unfolding overwrite
overwrite-append n s [] h = absurd (omega arith)
overwrite-append zero s (x ∷ free) h = let e : min 0 (length s) + 1 ≡ suc 0 = omega arith in rw e
overwrite-append (suc n) [] (x ∷ free) h = let e : min (suc n) 0 + 1 ≡ suc 0 = omega arith in rw e
overwrite-append (suc n) (c ∷ s) (x ∷ free) h =
    let e : min (suc n) (suc (length s)) + 1 ≡ suc (min n (length s) + 1) = omega arith in
    rw (e, overwrite-append n s free (omega arith))

-- For a source that is a string, followed by anything, and a destination of at least `siz` bytes
-- with 0 < siz, strlcpy neither reads nor writes out of bounds, replaces the first bytes of the
-- destination by the string cut to siz - 1 bytes and a terminator, leaves the bytes behind as
-- they were, and returns the length of the whole string.
pub strlcpy-take :
    (dst s tail : Bytes) (siz : ℕ)
    → NoNul s
    → 0 < siz
    → siz ≤ length dst
    → strlcpy dst (s ++ 0 ∷ tail) siz
      ≡ ok (take (siz - 1) s ++ 0 ∷ drop (min (siz - 1) (length s) + 1) dst, length s)
unfolding strlcpy
strlcpy-take dst s tail zero h pos fits = absurd (omega arith)
strlcpy-take dst s tail (suc n) h pos fits =
    let e : suc n - 1 ≡ n = omega arith in
    rw (
      e,
      copy_loop-overwrite (s ++ 0 ∷ tail) tail n n [] dst s h (omega arith),
      overwrite-append n s dst (omega arith),
      length-source s tail,
    )

-- A size of 0 writes nothing, and still returns the length of the string.
strlcpy-zero : (dst s tail : Bytes) → NoNul s → strlcpy dst (s ++ 0 ∷ tail) 0 ≡ ok (dst, length s)
unfolding strlcpy finish_copy
strlcpy-zero dst s tail h = rw (skip_rest-append s tail h, length-source s tail)
