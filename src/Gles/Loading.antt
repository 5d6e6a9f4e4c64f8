-- ===== src/Gles/Loading.antt =====
-- What the constructor leaves in the pointers.
use Prim.Native.String.{String}
use text.Mathlib.Text.{◌==◌ as str_eq}
use text.Mathlib.TextEquality.{eq_iff}
use fake_libc.Common.{
  ℕ, ◌≡◌, ◌≢◌, refl, sym, ◌∙◌, ap, if◌then◌else◌, Bool, true, false, List, [], ◌∷◌, Option, fault,
  ◌⊎◌, Bool-cases, inl, inr, arith, ne→==,
}
use fake_libc.Gles.{
  Vendor, Gl, M, before_constructor, call_address, call_vendor, gles2_load, load_all, library_name,
  dispatch, loaded_symbols, init_androidglesv2,
}

abbrev pub member : String → List String → Bool
member f [] = false
member f (g ∷ gs) = if str_eq f g then true else member f gs

module _ (V : Vendor) where
  load_all-library : (syms : List String) (gl : Gl) → (load_all V syms gl).libglesv2 ≡ gl.libglesv2
  unfolding load_all gles2_load
  load_all-library [] gl = refl
  load_all-library (s ∷ syms) gl = load_all-library syms (gles2_load V s gl)

  -- A pointer that holds what `dlsym` answers goes on to do so.
  load_all-keeps :
      (f : String) (syms : List String) (gl : Gl)
      → gl.pointer f ≡ V.dlsym gl.libglesv2 f
      → (load_all V syms gl).pointer f ≡ V.dlsym gl.libglesv2 f
  unfolding load_all gles2_load
  load_all-keeps f [] gl e = e
  load_all-keeps f (s ∷ syms) gl e =
      load_all-keeps f syms (gles2_load V s gl) (again (Bool-cases (str_eq f s)))
    where
      again :
          (str_eq f s ≡ true) ⊎ (str_eq f s ≡ false)
          → (gles2_load V s gl).pointer f ≡ V.dlsym gl.libglesv2 f
      again (inl same) = rw same (ap (V.dlsym gl.libglesv2) (sym ((eq_iff f s).0 same)))
      again (inr other) = rw other e

  load_all-pointer :
      (f : String) (syms : List String) (gl : Gl)
      → member f syms ≡ true
      → (load_all V syms gl).pointer f ≡ V.dlsym gl.libglesv2 f
  unfolding load_all gles2_load
  load_all-pointer f [] gl h = ground arith
  load_all-pointer f (s ∷ syms) gl h = elim (Bool-cases (str_eq f s)) [
    | inl same ↦
        load_all-keeps f syms (gles2_load V s gl)
          (rw same (ap (V.dlsym gl.libglesv2) (sym ((eq_iff f s).0 same))))
    | inr other ↦ load_all-pointer f syms (gles2_load V s gl) (ground (arith, h, other))
  ]

  -- One that is not loaded stays as it was.
  load_all-other :
      (f : String) (syms : List String) (gl : Gl)
      → member f syms ≡ false
      → (load_all V syms gl).pointer f ≡ gl.pointer f
  unfolding load_all gles2_load
  load_all-other f [] gl h = refl
  load_all-other f (s ∷ syms) gl h =
      let other : str_eq f s ≡ false = ground (arith, h) in
      load_all-other f syms (gles2_load V s gl) (ground (arith, h)) ∙ rw other refl

  pub dispatch-opened :
      (name : String) (args : List ℕ) (f : M ℕ) (gl : Gl)
      → gl.libglesv2 ≢ 0
      → dispatch V name args f gl ≡ call_address V (V.dlsym gl.libglesv2 name) args gl
  unfolding dispatch
  dispatch-opened name args f gl nz = rw (ne→== gl.libglesv2 0 nz) refl

  module _ (env : Option String) where
    -- The state behind the constructor.
    abbrev pub loaded : Gl
    loaded = init_androidglesv2 V env before_constructor

    loaded-pointer :
        (f : String)
        → member f loaded_symbols ≡ true
        → loaded.pointer f ≡ V.dlsym loaded.libglesv2 f
    unfolding init_androidglesv2
    loaded-pointer f h =
        load_all-pointer f loaded_symbols _ h
        ∙ ap (λ lib. V.dlsym lib f) (sym (load_all-library loaded_symbols _))

    -- A function does what the vendor's function of the name does.
    abbrev pub Calls : String → List ℕ → M ℕ → Type 0
    Calls name args f = f loaded ≡ call_address V (V.dlsym loaded.libglesv2 name) args loaded

    -- So does the indirect function whose wrapper it is.
    abbrev pub Agrees : String → List ℕ → M ℕ → Type 0
    Agrees name args f = Calls name args f × (dispatch V name args f loaded ≡ f loaded)

    pub loaded-Calls :
        (nz : loaded.libglesv2 ≢ 0) (name : String) (args : List ℕ)
        → member name loaded_symbols ≡ true
        → Calls name args (call_vendor V name args)
    unfolding call_vendor
    loaded-Calls nz name args h =
        rw (ne→== loaded.libglesv2 0 nz)
          (ap (λ p. call_address V p args loaded) (loaded-pointer name h))

    pub loaded-Agrees :
        (nz : loaded.libglesv2 ≢ 0) (name : String) (args : List ℕ)
        → member name loaded_symbols ≡ true
        → Agrees name args (call_vendor V name args)
    unfolding dispatch
    loaded-Agrees nz name args h =
        let calls = loaded-Calls nz name args h in
        (calls, rw (ne→== loaded.libglesv2 0 nz) (sym calls))

    -- The function that is not among the loaded ones.
    pub read_pixels-null : (args : List ℕ) → call_vendor V "glReadPixels" args loaded ≡ fault
    unfolding init_androidglesv2 call_vendor call_address before_constructor
    read_pixels-null args =
        let null =
          load_all-other "glReadPixels" loaded_symbols
            (record before_constructor { libglesv2 = V.android_dlopen (library_name V env) })
            refl in
        ground (arith, null)
