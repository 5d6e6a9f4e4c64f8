-- ===== src/Loader/Ready.antt =====
-- The invariant of the lazily loaded pointers.
use Prim.Native.String.{String}
use text.Mathlib.Text.{◌==◌ as str_eq}
use text.Mathlib.TextEquality.{eq_iff}
use text.Mathlib.TextPositions.{eq_refl}
use mathlib.Core.Path.{ap₂}
use fake_libc.Common.{
  List, [], ◌∷◌, Bool, if◌then◌else◌, ℕ, ◌≡◌, ◌≢◌, refl, ◌==◌, true, false, ◌&&◌, ◌⊎◌, inl, inr,
  arith, Bool-cases, ap, sym, ◌∙◌, ne→==, ==→eq,
}
use fake_libc.Loader.{
  Library, glibc, rt, gcc, pthread, same_library, path, lm_id_base, Linker, Runtime, set_handle,
  set_symbol, via_dlmopen, via_dlsym, load_library, look_up, load_symbol,
}
use fake_libc.Loader.Returns.{Returns, returns, bind, mono}

same_library-eq : (a b : Library) → same_library a b ≡ true → a ≡ b
same_library-eq glibc glibc h = refl
same_library-eq rt rt h = refl
same_library-eq gcc gcc h = refl
same_library-eq pthread pthread h = refl
same_library-eq _ _ h = cc

same_library_refl : (a : Library) → same_library a a ≡ true
same_library_refl glibc = refl
same_library_refl rt = refl
same_library_refl gcc = refl
same_library_refl pthread = refl

-- The test under which a pointer is replaced.
same_symbol :
    (a b : Library) (f g : String) → (same_library a b && str_eq f g) ≡ true → (a ≡ b) × (f ≡ g)
same_symbol a b f g h = (same_library-eq a b (ground arith), (eq_iff f g).0 (ground arith))

-- The symbols of glibc that the code of the model loads, but for `funopen`, which glibc does not have.
abbrev pub used_symbols : List String
used_symbols =
    "__cxa_finalize" ∷ "__h_errno_location" ∷ "__vsnprintf_chk" ∷ "__vsprintf_chk" ∷ "atof"
    ∷ "difftime" ∷ "drand48" ∷ "erand48" ∷ "fclose" ∷ "fdopen" ∷ "feof" ∷ "ferror" ∷ "fflush"
    ∷ "fgetc" ∷ "fgetpos" ∷ "fgets" ∷ "fgetwc" ∷ "fgetws" ∷ "fileno" ∷ "finite" ∷ "finitef"
    ∷ "finitel" ∷ "fopen" ∷ "fprintf" ∷ "fputc" ∷ "fputs" ∷ "fputwc" ∷ "fputws" ∷ "fread"
    ∷ "freopen" ∷ "fseek" ∷ "fseeko" ∷ "fsetpos" ∷ "ftell" ∷ "ftello" ∷ "fwide" ∷ "fwrite" ∷ "getc"
    ∷ "getline" ∷ "getwc" ∷ "isinf" ∷ "isinff" ∷ "isinfl" ∷ "isnan" ∷ "isnanf" ∷ "isnanl" ∷ "ldexp"
    ∷ "putwc" ∷ "readdir" ∷ "readdir_r" ∷ "rewind" ∷ "stderr" ∷ "stdin" ∷ "stdout" ∷ "strtod"
    ∷ "strtof" ∷ "strtold" ∷ "strtold_l" ∷ "syscall" ∷ "sysconf" ∷ "ungetc" ∷ "vasprintf"
    ∷ "vdprintf" ∷ "vfprintf" ∷ "vfscanf" ∷ "vfwprintf" ∷ "vfwscanf" ∷ "vprintf" ∷ "vscanf"
    ∷ "vsnprintf" ∷ "vsprintf" ∷ "vsscanf" ∷ "vswprintf" ∷ "vswscanf" ∷ "vwprintf" ∷ "vwscanf"
    ∷ "wcstod" ∷ "wcstof" ∷ "wcstold" ∷ "wcstold_l" ∷ []

abbrev pub member : String → List String → Bool
member f [] = false
member f (g ∷ gs) = if str_eq f g then true else member f gs

abbrev pub uses : String → Bool
uses f = member f used_symbols

module _ (L : Linker) where
  -- Where a library and a symbol are found.
  abbrev pub library_at : Library → ℕ
  library_at lib = L.dlmopen lm_id_base (path lib)

  abbrev pub symbol_at : Library → String → ℕ
  symbol_at lib f = L.dlsym (library_at lib) f

  -- The libraries are there, and glibc has the symbols.
  pub record Provides : Type 0 where
    pub libraries : (lib : Library) → library_at lib ≢ 0
    pub symbols : (f : String) → uses f ≡ true → symbol_at glibc f ≢ 0

  -- The linker's functions are there; a handle or pointer is null, or it is the library's or symbol's.
  pub record IsReady (r : Runtime) : Type 0 where
    pub dlmopen_there : r.statics.glibc_dlmopen ≢ 0
    pub dlsym_there : r.statics.glibc_dlsym ≢ 0
    pub handles : (lib : Library) → (r.handle lib ≡ 0) ⊎ (r.handle lib ≡ library_at lib)
    pub pointers :
        (lib : Library) (f : String) → (r.symbol lib f ≡ 0) ⊎ (r.symbol lib f ≡ symbol_at lib f)

  -- Nothing that was loaded is loaded again or lost, and nothing was called.
  pub record Extends (r r' : Runtime) : Type 0 where
    pub ready : IsReady r'
    pub keeps : (l : Library) (g : String) → r.symbol l g ≢ 0 → r'.symbol l g ≡ r.symbol l g
    pub calls : r'.calls ≡ r.calls
    pub statics : r'.statics ≡ r.statics

  set_handle-IsReady :
      (lib : Library) (r : Runtime)
      → IsReady r
      → IsReady (set_handle lib (library_at lib) r)
        × ((set_handle lib (library_at lib) r).handle lib ≡ library_at lib)
        × ((set_handle lib (library_at lib) r).symbol ≡ r.symbol)
        × ((set_handle lib (library_at lib) r).calls ≡ r.calls)
        × ((set_handle lib (library_at lib) r).statics ≡ r.statics)
  unfolding set_handle
  set_handle-IsReady lib r v = (
    record {
      dlmopen_there = v.dlmopen_there;
      dlsym_there = v.dlsym_there;
      handles = λ l. elim (Bool-cases (same_library lib l)) [
        | inl same ↦ rw same (inr (ap library_at (same_library-eq lib l same)))
        | inr other ↦ rw other (v.handles l)
      ];
      pointers = v.pointers;
    },
    rw (same_library_refl lib),
    refl,
    refl,
    refl,
  )

  set_symbol-Extends :
      (lib : Library) (f : String) (p : ℕ) (r : Runtime)
      → IsReady r
      → p ≡ symbol_at lib f
      → r.symbol lib f ≡ 0
      → Extends r (set_symbol lib f p r)
        × ((set_symbol lib f p r).symbol lib f ≡ symbol_at lib f)
        × ((l : Library) (g : String)
            → (same_library lib l && str_eq f g) ≡ false
            → (set_symbol lib f p r).symbol l g ≡ r.symbol l g)
  unfolding set_symbol
  set_symbol-Extends lib f p r v e null = (
    record {
      ready = record {
        dlmopen_there = v.dlmopen_there;
        dlsym_there = v.dlsym_there;
        handles = v.handles;
        pointers = λ l g. elim (Bool-cases (same_library lib l && str_eq f g)) [
          | inl same ↦
              rw same (let (el, ef) = same_symbol lib l f g same in inr (e ∙ ap₂ symbol_at el ef))
          | inr other ↦ rw other (v.pointers l g)
        ];
      };
      keeps = λ l g held. elim (Bool-cases (same_library lib l && str_eq f g)) [
        | inl same ↦
            (let (el, ef) = same_symbol lib l f g same in
              absurd (held (sym (ap₂ r.symbol el ef) ∙ null)))
        | inr other ↦ rw other
      ];
      calls = refl;
      statics = refl;
    },
    rw (same_library_refl lib, eq_refl f, e),
    λ l g other. rw other,
  )

  pub load_library-Returns :
      (lib : Library) (r : Runtime)
      → IsReady r
      → library_at lib ≢ 0
      → Returns
          (λ _ r'.
            IsReady r'
            × (r'.handle lib ≡ library_at lib)
            × (r'.symbol ≡ r.symbol)
            × (r'.calls ≡ r.calls)
            × (r'.statics ≡ r.statics))
          (load_library L lib r)
  unfolding load_library via_dlmopen
  load_library-Returns lib r v there = elim (Bool-cases (r.handle lib == 0)) [
    | inl null ↦
        rw (null, ne→== r.statics.glibc_dlmopen 0 v.dlmopen_there)
          (returns (set_handle-IsReady lib r v))
    | inr held ↦ rw held (returns (v, ground (arith, v.handles lib), refl, refl, refl))
  ]

  look_up-Returns :
      (lib : Library) (f : String) (r : Runtime)
      → IsReady r
      → r.handle lib ≡ library_at lib
      → symbol_at lib f ≢ 0
      → r.symbol lib f ≡ 0
      → Returns
          (λ _ r'.
            Extends r r'
            × (r'.symbol lib f ≡ symbol_at lib f)
            × ((l : Library) (g : String)
                → (same_library lib l && str_eq f g) ≡ false
                → r'.symbol l g ≡ r.symbol l g))
          (look_up L lib f r)
  unfolding look_up via_dlsym
  look_up-Returns lib f r v e there null =
      let found : L.dlsym (r.handle lib) f ≡ symbol_at lib f = ap (λ h. L.dlsym h f) e in
      let held : (L.dlsym (r.handle lib) f == 0) ≡ false = rw e (ne→== (symbol_at lib f) 0 there) in
      rw (ne→== r.statics.glibc_dlsym 0 v.dlsym_there, held)
        (returns (set_symbol-Extends lib f (L.dlsym (r.handle lib) f) r v found null))

  -- LOAD_GLIBC_SYMBOL(f) for a symbol that the library has: the pointer is loaded, pointers that were
  -- loaded stay, and nothing is called.
  pub load_symbol-Returns :
      (lib : Library) (f : String) (r : Runtime)
      → IsReady r
      → library_at lib ≢ 0
      → symbol_at lib f ≢ 0
      → Returns
          (λ _ r'.
            Extends r r'
            × (r'.symbol lib f ≡ symbol_at lib f)
            × ((l : Library) (g : String)
                → (same_library lib l && str_eq f g) ≡ false
                → r'.symbol l g ≡ r.symbol l g))
          (load_symbol L lib f r)
  unfolding load_symbol
  load_symbol-Returns lib f r v open_ok there = elim (Bool-cases (r.symbol lib f == 0)) [
    | inl null ↦ rw null (
        bind (load_library-Returns lib r v open_ok) λ _ r1 (v1, h1, s1, c1, t1).
          mono
            (look_up-Returns lib f r1 v1 h1 there
              (ap (λ s. s lib f) s1 ∙ ==→eq (r.symbol lib f) 0 null))
            λ _ r2 (x, p, o). (
              record {
                ready = x.ready;
                keeps = λ l g h.
                    (let e : r1.symbol l g ≡ r.symbol l g = ap (λ s. s l g) s1 in
                      x.keeps l g (λ z. h (sym e ∙ z)) ∙ e);
                calls = x.calls ∙ c1;
                statics = x.statics ∙ t1;
              },
              p,
              λ l g ne. o l g ne ∙ ap (λ s. s l g) s1,
            ))
    | inr held ↦ rw held (
        returns (
          record { ready = v; keeps = λ l g h. refl; calls = refl; statics = refl },
          ground (arith, v.pointers lib f),
          λ l g ne. refl,
        ))
  ]
