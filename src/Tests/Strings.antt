-- ===== src/Tests/Strings.antt =====
-- `strlcpy` and `strlcat` on short buffers.
use fake_libc.Common.{◌≡◌, refl, [], ◌∷◌, ◌++◌, arith, ok, fault, take, drop}
use fake_libc.Strings.{Bytes, read, write, skip_rest, strlcpy, strlcat}
use fake_libc.Strings.Copy.{strlcpy-take}
use fake_libc.Strings.Concat.{strlcat-append}

abbrev ab : Bytes
ab = b'a' ∷ b'b' ∷ []

abbrev cde : Bytes
cde = b'c' ∷ b'd' ∷ b'e' ∷ []

abbrev sevens : Bytes
sevens = 7 ∷ 7 ∷ 7 ∷ 7 ∷ 7 ∷ []

strlcpy_cut : strlcpy sevens (cde ++ 0 ∷ 9 ∷ []) 3 ≡ ok (b'c' ∷ b'd' ∷ 0 ∷ 7 ∷ 7 ∷ [], 3)
unfolding strlcpy read write skip_rest
strlcpy_cut = refl

strlcpy_small : strlcpy (7 ∷ []) (cde ++ 0 ∷ []) 3 ≡ fault
unfolding strlcpy read write skip_rest
strlcpy_small = refl

strlcat_cut :
    strlcat (ab ++ 0 ∷ 7 ∷ 7 ∷ []) (cde ++ 0 ∷ []) 4 ≡ ok (b'a' ∷ b'b' ∷ b'c' ∷ 0 ∷ 7 ∷ [], 5)
unfolding strlcat read write
strlcat_cut = refl

strlcpy-take_example :
    strlcpy sevens (cde ++ 0 ∷ 9 ∷ []) 3 ≡ ok (take 2 cde ++ 0 ∷ drop 3 sevens, 3)
strlcpy-take_example = strlcpy-take sevens cde (9 ∷ []) 3 (omega arith) (omega arith) (omega arith)

strlcat-append_example :
    strlcat (ab ++ 0 ∷ 7 ∷ 7 ∷ []) (cde ++ 0 ∷ []) 4
    ≡ ok (ab ++ (take 1 cde ++ 0 ∷ drop 2 (0 ∷ 7 ∷ 7 ∷ [])), 5)
strlcat-append_example =
    strlcat-append ab cde (7 ∷ 7 ∷ []) [] 4 (omega arith) (omega arith) (omega arith) (omega arith)
