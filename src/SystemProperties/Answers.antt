-- ===== src/SystemProperties/Answers.antt =====
-- What `__system_property_get` answers.
use fake_libc.Common.{
  ℕ, ◌<◌, ◌≡◌, refl, sym, ap, ◌∙◌, true, false, Option, none, some, List, [], ◌∷◌, ◌++◌, ok, fault,
  length, drop, append-nil,
}
use fake_libc.Loader.{Linker, Runtime}
use fake_libc.Loader.Returns.{Returns, returns, bind, mono, faults}
use fake_libc.Loader.Ready.{Provides, IsReady, Extends}
use fake_libc.Loader.Streams.{load_glibc, Extends-trans}
use fake_libc.SystemProperties.{
  Text, Cache, Answer, same_text, starts_with, found, read_lines, read_file, cached, buffer_size,
}
use fake_libc.SystemProperties.Lookup.{load_stdio, system_property_get}
use fake_libc.SystemProperties.Search.{
  same_text_refl, strstr-first, cut-append, drop-past, strcpy-fits, lacks, read_lines-lacks,
}

-- The answers out of the file and out of the cache, for a property with a value.
abbrev pub with_value : Text → Text → Answer
with_value name v = record {
  result = length v;
  value = some v;
  cache = record { last_property = name; last_value = v };
}

abbrev pub missed : Text → Answer
missed name = record {
  result = 0;
  value = none;
  cache = record { last_property = name; last_value = [] };
}

found-line :
    (size : ℕ) (before name : Text) (c : ℕ) (v : Text) (nl : ℕ) (lines : List Text)
    → ((k : ℕ) → k < length before → starts_with (drop k (before ++ (name ++ c ∷ v))) name ≡ false)
    → length v < size
    → length v < buffer_size
    → length name < buffer_size
    → read_lines size name (((before ++ (name ++ c ∷ v)) ++ nl ∷ []) ∷ lines)
      ≡ ok (with_value name v)
unfolding found read_lines
found-line size before name c v nl lines first fits fits_value fits_name =
    rw
      (
        read_lines,
        cut-append (before ++ (name ++ c ∷ v)) nl,
        strstr-first before name (c ∷ v) first,
        drop-past name c v,
        strcpy-fits size v fits,
        strcpy-fits buffer_size v fits_value,
        strcpy-fits buffer_size name fits_name,
      )
      refl

cached-value :
    (size : ℕ) (name v : Text)
    → length v < size
    → cached size (record { last_property = name; last_value = v }) ≡ ok (with_value name v)
unfolding cached
cached-value size name v fits = rw (strcpy-fits size v fits) refl

missed-file :
    (size : ℕ) (name : Text) (lines : List Text)
    → lacks name lines ≡ true
    → length name < buffer_size
    → read_lines size name lines ≡ ok (missed name)
unfolding read_lines
missed-file size name lines none_has fits =
    let all : read_lines size name lines ≡ read_lines size name [] =
      ap (read_lines size name) (sym (append-nil lines))
      ∙ read_lines-lacks size name lines [] none_has in
    rw (all, read_lines, strcpy-fits buffer_size name fits) refl

module _ (L : Linker) where
  -- A query for the name in the cache does not read the file.
  cached-get :
      (build_prop : Option (List Text)) (name v : Text) (size : ℕ) (r : Runtime)
      → length v < size
      → system_property_get L build_prop name size
          (record { last_property = name; last_value = v })
          r
        ≡ ok (with_value name v, r)
  unfolding system_property_get
  cached-get build_prop name v size r fits =
      rw (same_text_refl name, cached-value size name v fits) refl

  module _ (p : Provides L) where
    chain : {r s t : Runtime} → Extends L r s → Extends L s t → Extends L r t
    chain = Extends-trans L p

    load_stdio-Extends :
        (r : Runtime) → IsReady L r → Returns (λ _ r'. Extends L r r') (load_stdio L r)
    unfolding load_stdio
    load_stdio-Extends r w = bind (load_glibc L p "fprintf" r w refl) λ _ r1 (x1, _).
        bind (load_glibc L p "fopen" r1 x1.ready refl) λ _ r2 (x2, _).
          bind (load_glibc L p "fclose" r2 x2.ready refl) λ _ r3 (x3, _).
            bind (load_glibc L p "getline" r3 x3.ready refl) λ _ r4 (x4, _).
              bind (load_glibc L p "feof" r4 x4.ready refl) λ _ r5 (x5, _).
                mono (load_glibc L p "stderr" r5 x5.ready refl)
                  λ _ r6 (x6, _). chain (chain (chain (chain (chain x1 x2) x3) x4) x5) x6

    -- A query for another name than the cached one is answered out of the file.
    uncached-get :
        (lines : List Text) (name : Text) (size : ℕ) (c : Cache) (r : Runtime) (a : Answer)
        → IsReady L r
        → same_text name c.last_property ≡ false
        → read_lines size name lines ≡ ok a
        → Returns
            (λ b r'. (b ≡ a) × Extends L r r')
            (system_property_get L (some lines) name size c r)
    unfolding system_property_get read_file
    uncached-get lines name size c r a w other e =
        rw other (bind (load_stdio-Extends r w) λ _ r1 x. rw e (returns (refl, x)))

    -- If glibc provides its symbols: where a line of build.prop is some text, the name, one
    -- byte, a value and the newline, the name does not begin earlier in it, no earlier line
    -- contains the name, and the texts fit into the buffers: a query for this name, if it is not
    -- the cached one, from a ready runtime, answers the value, its length and a cache with both;
    -- and a query with this cache answers the same, and loads and reads nothing.
    pub get-found :
        (earlier later : List Text) (before name : Text) (sep : ℕ) (v : Text) (nl size : ℕ)
        (c : Cache) (r : Runtime)
        → IsReady L r
        → same_text name c.last_property ≡ false
        → lacks name earlier ≡ true
        → ((k : ℕ)
            → k < length before
            → starts_with (drop k (before ++ (name ++ sep ∷ v))) name ≡ false)
        → length v < size
        → length v < buffer_size
        → length name < buffer_size
        → Returns
            (λ a r'. (a ≡ with_value name v) × Extends L r r')
            (system_property_get L
              (some (earlier ++ ((before ++ (name ++ sep ∷ v)) ++ nl ∷ []) ∷ later))
              name
              size
              c
              r)
          × ((build_prop : Option (List Text)) (r' : Runtime)
              → system_property_get L build_prop name size (with_value name v).cache r'
                ≡ ok (with_value name v, r'))
    get-found earlier later before name sep v nl size c r w other none_has first fits fits_v
          fits_n =
        let line : Text = (before ++ (name ++ sep ∷ v)) ++ nl ∷ [] in
        let e : read_lines size name (earlier ++ line ∷ later) ≡ ok (with_value name v) =
          read_lines-lacks size name earlier (line ∷ later) none_has
          ∙ found-line size before name sep v nl later first fits fits_v fits_n in
        (
          uncached-get (earlier ++ line ∷ later) name size c r (with_value name v) w other e,
          λ build_prop r'. cached-get build_prop name v size r' fits,
        )

    -- If glibc provides its symbols: where no line of build.prop contains the name, and the name
    -- fits into its buffer: a query for this name, if it is not the cached one, from a ready
    -- runtime, answers 0, leaves the caller's buffer alone and caches the empty value; and a
    -- query with this cache answers 0 too, but writes the empty text into the caller's buffer.
    pub get-missed :
        (lines : List Text) (name : Text) (size : ℕ) (c : Cache) (r : Runtime)
        → IsReady L r
        → same_text name c.last_property ≡ false
        → lacks name lines ≡ true
        → 0 < size
        → length name < buffer_size
        → Returns
            (λ a r'. (a ≡ missed name) × Extends L r r')
            (system_property_get L (some lines) name size c r)
          × ((build_prop : Option (List Text)) (r' : Runtime)
              → system_property_get L build_prop name size (missed name).cache r'
                ≡ ok (with_value name [], r'))
    get-missed lines name size c r w other none_has room fits = (
      uncached-get lines name size c r (missed name) w other
          (missed-file size name lines none_has fits),
      λ build_prop r'. cached-get build_prop name [] size r' room,
    )

    -- If glibc provides its symbols: without build.prop, a query for a name that is not the
    -- cached one closes a null stream, from a ready runtime.
    pub get-fileless :
        (name : Text) (size : ℕ) (c : Cache) (r : Runtime)
        → IsReady L r
        → same_text name c.last_property ≡ false
        → system_property_get L none name size c r ≡ fault
    unfolding system_property_get read_file
    get-fileless name size c r w other = rw other (faults (load_stdio-Extends r w) (λ _ r1 _. refl))
