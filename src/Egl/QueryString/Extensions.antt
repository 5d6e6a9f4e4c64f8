-- ===== src/Egl/QueryString/Extensions.antt =====
-- What a client reads in the static buffer of the extensions.
use fake_libc.Common.{
  if◌then◌else◌, zero, suc, [], ◌∷◌, ap, ==-refl, ne→==, ℕ, ◌+◌, ◌<◌, ◌≡◌, ◌≢◌, ◌==◌, refl, Bool,
  true, false, ◌&&◌, not, Option, List, ◌++◌, take, length, length-take, length-append, min, arith,
  Outcome, ok, fault, ◌>>=◌, ◌∙◌,
}
use fake_libc.Strings.Buffers.{NoNul}
use fake_libc.Egl.QueryString.{
  hybris_extensions, eglextensionsbuf, snprintf, or_empty, in_buffer, of_vendor,
  eglplatformcommon_egl_query_string,
}

-- The text that stands in a buffer, up to its terminator.
unfoldable pub text_in : List ℕ → Outcome (List ℕ)
text_in [] = fault
text_in (c ∷ buf) = if c == 0 then ok [] else (text_in buf >>= λ text. ok (c ∷ text))

extensions_length : length hybris_extensions ≡ 90
extensions_length = refl

abbrev pub positive : List ℕ → Bool
positive [] = true
positive (c ∷ cs) = not (c == 0) && positive cs

pub positive-NoNul : (cs : List ℕ) → positive cs ≡ true → NoNul cs
positive-NoNul [] h = tt
positive-NoNul (c ∷ cs) h = (ground (arith, h), positive-NoNul cs (ground (arith, h)))

append-NoNul : (xs ys : List ℕ) → NoNul xs → NoNul ys → NoNul (xs ++ ys)
append-NoNul [] ys h k = k
append-NoNul (x ∷ xs) ys h k = (h.0, append-NoNul xs ys h.1 k)

take-length : (n : ℕ) (xs : List ℕ) → take n xs ≡ take (length (take n xs)) xs
take-length zero xs = refl
take-length (suc n) [] = refl
take-length (suc n) (x ∷ xs) = ap (◌∷◌ x) (take-length n xs)

-- Into a buffer of more than `n` bytes.
snprintf-text_in :
    (n : ℕ) (text buf : List ℕ)
    → NoNul text
    → n < length buf
    → (stored : List ℕ) × (snprintf (suc n) text buf ≡ ok stored)
      × (length stored ≡ length buf)
      × (text_in stored ≡ ok (take n text))
unfolding snprintf text_in
snprintf-text_in n text [] h lt = absurd (omega (arith, lt))
snprintf-text_in zero [] (b ∷ buf) h lt = (0 ∷ buf, refl, refl, refl)
snprintf-text_in (suc n) [] (b ∷ buf) h lt = (0 ∷ buf, refl, refl, refl)
snprintf-text_in zero (c ∷ text) (b ∷ buf) h lt = (0 ∷ buf, refl, refl, refl)
snprintf-text_in (suc n) (c ∷ text) (b ∷ buf) h lt =
    let (stored, done, same, reads) = snprintf-text_in n text buf h.1 (omega (arith, lt)) in
    let more : (c == 0) ≡ false = ground (arith, h.0) in
    (c ∷ stored, rw done refl, omega (arith, same), rw (more, reads) refl)

-- Built for Wayland, whatever the static buffer of 1024 bytes holds: for EGL_EXTENSIONS nothing
-- is stored outside of the buffer, and the text that then stands in it, up to its terminator, is
-- the vendor's list, or none where it has none, with the three names behind it, cut to 1021
-- bytes, however long that list is; for another name the vendor's answer is handed on and the
-- buffer is left alone.
pub query_string-extensions :
    (egl_extensions name : ℕ) (real : ℕ → Option (List ℕ)) (buf : List ℕ)
    → NoNul (or_empty (real egl_extensions))
    → length buf ≡ length eglextensionsbuf
    → name ≢ egl_extensions
    → let query = eglplatformcommon_egl_query_string true egl_extensions real in
      (stored : List ℕ) × (text : List ℕ) × (query egl_extensions buf ≡ ok (in_buffer, stored))
      × (length stored ≡ length eglextensionsbuf)
      × (text_in stored ≡ ok text)
      × (length text ≡ min 1021 (length (or_empty (real egl_extensions)) + 90))
      × (text ≡ take (length text) (or_empty (real egl_extensions) ++ hybris_extensions))
      × (query name buf ≡ ok (of_vendor (real name), buf))
unfolding eglplatformcommon_egl_query_string eglextensionsbuf
query_string-extensions egl_extensions name real buf clean full ne =
    let vendor = or_empty (real egl_extensions) in
    let whole = vendor ++ hybris_extensions in
    let all_clean =
      append-NoNul vendor hybris_extensions clean (positive-NoNul hybris_extensions refl) in
    let (stored, done, same, reads) =
      snprintf-text_in 1021 whole buf all_clean (omega (arith, full)) in
    let total = length-append vendor hybris_extensions in
    let size = length-take 1021 whole in
    (
      stored,
      take 1021 whole,
      rw (==-refl egl_extensions, done) refl,
      same ∙ full,
      reads,
      omega (arith, size, total, extensions_length),
      take-length 1021 whole,
      rw (ne→== name egl_extensions ne) refl,
    )
