-- ===== src/Strings/Concat.antt =====
-- What `strlcat` promises, whether or not the destination holds a string within its size.
use fake_libc.Common.{
  ℕ, zero, suc, ◌+◌, ◌-◌, ◌<◌, ◌≤◌, ◌≡◌, ◌==◌, ap, ◌∙◌, [], ◌∷◌, ◌++◌, arith, ok, ◌>>=◌, min, true,
  false, length, length-append, take, drop, append_assoc, Outcome,
}
use fake_libc.Strings.{Bytes, Copied, find_end, append_loop, append_at, write, strlcat}
use fake_libc.Strings.Buffers.{
  NoNul, pos-==, read-append, write-append, strlen-append, snoc-append, length-snoc,
}
use fake_libc.Strings.Copy.{overwrite, overwrite-append}

find_end-nul :
    (n : ℕ) (pre a rest : Bytes)
    → NoNul a
    → length a < n
    → find_end n (pre ++ (a ++ 0 ∷ rest)) (length pre) ≡ ok (length pre + length a)
unfolding find_end
find_end-nul zero pre a rest h room = absurd (omega arith)
find_end-nul (suc n) pre [] rest h room = rw (read-append pre 0 rest) (ap ok (omega arith))
find_end-nul (suc n) pre (c ∷ a) rest h room =
    rw
      (
        read-append pre c (a ++ 0 ∷ rest),
        ◌>>=◌,
        pos-== c h.0,
        snoc-append pre c (a ++ 0 ∷ rest),
        ← length-snoc pre c,
      )
      (find_end-nul n (pre ++ c ∷ []) a rest h.1 (omega arith)
        ∙ ap ok (omega (arith, length-snoc pre c)))

find_end-full :
    (n : ℕ) (pre a : Bytes)
    → NoNul a
    → n ≤ length a
    → find_end n (pre ++ a) (length pre) ≡ ok (length pre + n)
unfolding find_end
find_end-full zero pre a h room = ap ok (omega arith)
find_end-full (suc n) pre [] h room = absurd (omega arith)
find_end-full (suc n) pre (c ∷ a) h room =
    rw (read-append pre c a, ◌>>=◌, pos-== c h.0, snoc-append pre c a, ← length-snoc pre c)
      (find_end-full n (pre ++ c ∷ []) a h.1 (omega arith)
        ∙ ap ok (omega (arith, length-snoc pre c)))

find_end_0-nul :
    (n : ℕ) (a rest : Bytes) → NoNul a → length a < n → find_end n (a ++ 0 ∷ rest) 0 ≡ ok (length a)
find_end_0-nul n a rest h room =
    let e : 0 + length a ≡ length a = omega arith in find_end-nul n [] a rest h room ∙ ap ok e

find_end_0-full : (n : ℕ) (a : Bytes) → NoNul a → n ≤ length a → find_end n a 0 ≡ ok n
find_end_0-full n a h room =
    let e : 0 + n ≡ n = omega arith in find_end-full n [] a h room ∙ ap ok e

-- The end of `strlcat`, with the number that it returns as a parameter.
abbrev close : (Copied → ℕ) → Copied → Outcome (Bytes × ℕ)
close result c = write c.dst c.d 0 >>= λ dst'. ok (dst', result c)

module _ (tail : Bytes) (dlen total : ℕ) where
  append_loop-overwrite :
      (k : ℕ) (pre free s : Bytes)
      → NoNul s
      → k < length free
      → (append_loop (pre ++ free) (length pre) (suc k) (s ++ 0 ∷ tail)
          >>= close (λ c. dlen + (total - length c.s)))
        ≡ ok (pre ++ overwrite k s free, dlen + (total - suc (length tail)))
  unfolding append_loop overwrite
  append_loop-overwrite k pre [] s h room = absurd (omega arith)
  append_loop-overwrite zero pre (x ∷ free) [] h room = rw (write-append pre x 0 free)
  append_loop-overwrite (suc k) pre (x ∷ free) [] h room = rw (write-append pre x 0 free)
  append_loop-overwrite zero pre (x ∷ free) (c ∷ s) h room =
      rw (◌>>=◌, pos-== c h.0) (append_loop-overwrite zero pre (x ∷ free) s h.1 room)
  append_loop-overwrite (suc k) pre (x ∷ free) (c ∷ s) h room =
      let e : (suc (suc k) == 1) ≡ false = ground arith in
      let e' : suc (suc k) - 1 ≡ suc k = omega arith in
      rw
        (
          ◌>>=◌,
          pos-== c h.0,
          e,
          write-append pre x c free,
          e',
          snoc-append pre c free,
          ← length-snoc pre c,
        )
        (append_loop-overwrite k (pre ++ c ∷ []) free s h.1 (omega arith)
          ∙ ap (λ b. ok (b, dlen + (total - suc (length tail))))
              (append_assoc pre (c ∷ []) (overwrite k s free)))

append_at-overwrite :
    (pre free b tail : Bytes) (siz k : ℕ)
    → NoNul b
    → siz - length pre ≡ suc k
    → suc k ≤ length free
    → append_at (pre ++ free) (b ++ 0 ∷ tail) siz (length pre)
      ≡ ok (pre ++ overwrite k b free, length pre + length b)
unfolding append_at
append_at-overwrite pre free b tail siz k h left fits =
    let more : (suc k == 0) ≡ false = ground arith in
    let counted : length (b ++ 0 ∷ tail) - suc (length tail) ≡ length b =
      omega (arith, length-append b (0 ∷ tail)) in
    rw (append_at, left, more, left)
      (append_loop-overwrite tail (length pre) (length (b ++ 0 ∷ tail)) k pre free b h fits
        ∙ ap (λ n. ok (pre ++ overwrite k b free, length pre + n)) counted)

-- If the destination's buffer has siz bytes and holds the string a within them, strlcat writes
-- the source's string behind a, cut so that at most siz - 1 bytes of text are there, and a
-- terminator, leaves the bytes behind, stays in bounds and returns the length that it tried to
-- make.
pub strlcat-append :
    (a b free tail : Bytes) (siz : ℕ)
    → NoNul a
    → NoNul b
    → length a < siz
    → siz ≤ length (a ++ 0 ∷ free)
    → strlcat (a ++ 0 ∷ free) (b ++ 0 ∷ tail) siz
      ≡ ok (
        a
            ++ (take (siz - length a - 1) b
                ++ 0 ∷ drop (min (siz - length a - 1) (length b) + 1) (0 ∷ free)),
        length a + length b,
      )
unfolding strlcat
strlcat-append a b free tail siz ha hb short fits = rw (
  find_end_0-nul siz a free ha short,
  append_at-overwrite a (0 ∷ free) b tail siz (siz - length a - 1) hb (omega arith)
      (omega (arith, length-append a (0 ∷ free))),
  overwrite-append (siz - length a - 1) b (0 ∷ free) (omega (arith, length-append a (0 ∷ free))),
)

-- The first `siz` bytes of the destination hold no terminator: nothing is written, and the result is
-- `siz` and the length of the source's string.
strlcat-full :
    (dst b tail : Bytes) (siz : ℕ)
    → NoNul dst
    → NoNul b
    → siz ≤ length dst
    → strlcat dst (b ++ 0 ∷ tail) siz ≡ ok (dst, siz + length b)
unfolding strlcat
strlcat-full dst b tail siz hd hb fits =
    let e : (siz - siz == 0) ≡ true = ground arith in
    rw (find_end_0-full siz dst hd fits, append_at, e, strlen-append b tail hb)
