-- ===== src/Strings.antt =====
-- strlcpy.c and strlcat.c: bounded copy and append of byte strings, and the two `_chk` wrappers of
-- fake_libc.c. A destination is a buffer with an index into it; a pointer into the source is the
-- list of the bytes from there to the end of its buffer. An access out of bounds is a fault.
pub mod Buffers
pub mod Copy
pub mod Concat
use fake_libc.Common.{
  ℕ, zero, suc, ◌+◌, ◌-◌, ◌==◌, if◌then◌else◌, Option, none, some, List, [], ◌∷◌, true, false,
  Outcome, ok, fault, ◌>>=◌, length, get_elem?, set,
}

abbrev pub Bytes : Type 0
Bytes = List ℕ

-- `*p`, and `buf[i]`.
abbrev pub deref : Bytes → Outcome ℕ
deref [] = fault
deref (c ∷ s) = ok c

abbrev pub or_fault : Option ℕ → Outcome ℕ
or_fault none = fault
or_fault (some c) = ok c

unfoldable pub read : Bytes → ℕ → Outcome ℕ
read buf i = or_fault (get_elem? buf i)

-- `buf[i] = v`.
unfoldable pub write : Bytes → ℕ → ℕ → Outcome Bytes
unfolding read
write buf i v = read buf i >>= λ _. ok (set buf i v)

-- `while (*s++) ;`, which ends behind the terminator.
unfoldable pub skip_rest : Bytes → Outcome Bytes
skip_rest [] = fault
skip_rest (c ∷ s) = if c == 0 then ok s else skip_rest s

-- `strlen`.
unfoldable pub strlen : Bytes → Outcome ℕ
strlen [] = fault
strlen (c ∷ s) = elim (c == 0) [ true ↦ ok 0 | false ↦ strlen s >>= λ n. ok (suc n) ]

-- The variables of `strlcpy` after its copying loop.
pub record Copied : Type 0 where
  pub dst : Bytes
  pub d : ℕ
  pub s : Bytes
  pub n : ℕ

-- `while (--n != 0) if ((*d++ = *s++) == '\0') break;`, the first argument being the decremented `n`.
copy_loop : ℕ → Bytes → ℕ → Bytes → Outcome Copied
copy_loop zero dst d s = ok (record { dst = dst; d = d; s = s; n = 0 })
copy_loop (suc n) dst d [] = fault
copy_loop (suc n) dst d (c ∷ s) = do
  dst' ← write dst d c
  elim (c == 0) [
    | true ↦ ok (record { dst = dst'; d = d + 1; s = s; n = suc n })
    | false ↦ copy_loop n dst' (d + 1) s
  ]

-- What follows the loop: terminate a full destination and walk to the end of the source.
finish_copy : ℕ → Bytes → Copied → Outcome (Bytes × ℕ)
finish_copy siz src c =
    if c.n == 0
    then (do
      dst' ← (if siz == 0 then ok c.dst else write c.dst c.d 0)
      s' ← skip_rest c.s
      ok (dst', length src - length s' - 1))
    else ok (c.dst, length src - length c.s - 1)

-- The new contents of the destination, and the result.
unfoldable pub strlcpy : (dst src : Bytes) (siz : ℕ) → Outcome (Bytes × ℕ)
unfolding copy_loop finish_copy
strlcpy dst src zero = finish_copy 0 src (record { dst = dst; d = 0; s = src; n = 0 })
strlcpy dst src (suc n) = copy_loop n dst 0 src >>= finish_copy (suc n) src

-- `while (n-- != 0 && *d != '\0') d++;`
find_end : ℕ → Bytes → ℕ → Outcome ℕ
find_end zero dst d = ok d
find_end (suc n) dst d = do
  c ← read dst d
  elim (c == 0) [ true ↦ ok d | false ↦ find_end n dst (d + 1) ]

-- `while (*s != '\0') { if (n != 1) { *d++ = *s; n--; } s++; }`
append_loop : Bytes → ℕ → ℕ → Bytes → Outcome Copied
append_loop dst d n [] = fault
append_loop dst d n (c ∷ s) = elim (c == 0) [
  | true ↦ ok (record { dst = dst; d = d; s = c ∷ s; n = n })
  | false ↦ elim (n == 1) [
    | true ↦ append_loop dst d n s
    | false ↦ write dst d c >>= λ dst'. append_loop dst' (d + 1) (n - 1) s
  ]
]

-- What `strlcat` does once the end of the destination's string is known.
append_at : (dst src : Bytes) (siz dlen : ℕ) → Outcome (Bytes × ℕ)
append_at dst src siz dlen = elim (siz - dlen == 0) [
  | true ↦ (do k ← strlen src; ok (dst, dlen + k))
  | false ↦ (do
    c ← append_loop dst dlen (siz - dlen) src
    dst' ← write c.dst c.d 0
    ok (dst', dlen + (length src - length c.s)))
]

unfoldable pub strlcat : (dst src : Bytes) (siz : ℕ) → Outcome (Bytes × ℕ)
unfolding find_end append_loop append_at
strlcat dst src siz = find_end siz dst 0 >>= append_at dst src siz

-- The checked variants ignore the size of the destination object.
strlcpy_chk : (dst src : Bytes) (siz c : ℕ) → Outcome (Bytes × ℕ)
strlcpy_chk dst src siz c = strlcpy dst src siz

strlcat_chk : (dst src : Bytes) (siz c : ℕ) → Outcome (Bytes × ℕ)
strlcat_chk dst src siz c = strlcat dst src siz
