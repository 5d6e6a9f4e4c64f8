-- ===== src/Egl/Forwarders/Ready.antt =====
-- The lazily loaded pointers, and what a function does with them.
use Prim.Native.String.{String}
use text.Mathlib.Text.{◌==◌ as str_eq}
use text.Mathlib.TextEquality.{eq_iff}
use text.Mathlib.TextPositions.{eq_refl}
use fake_libc.Common.{
  ℕ, ◌≡◌, ◌≢◌, refl, sym, ◌∙◌, ap, ◌==◌, if◌then◌else◌, true, false, List, ◌∷◌, Outcome, ok, ◌⊎◌,
  Bool-cases, inl, inr, arith, ne→==,
}
use fake_libc.Egl.Forwarders.{
  Event, Vendor, Symbols, M, library_name, hybris_egl_initialize, open_library, look_up,
  hybris_dlsysm, call_address, hybris_implement_function,
}

module _ (V : Vendor) where
  -- The vendor's library, where it is opened.
  abbrev pub vendor_handle : ℕ
  vendor_handle = V.android_dlopen (library_name V V.libegl)

  -- The handle is null or the library's, and each pointer null or what `dlsym` answers.
  pub record IsLazy (s : Symbols) : Type 0 where
    pub handle : (s.egl_handle ≡ 0) ⊎ (s.egl_handle ≡ vendor_handle)
    pub pointers : (f : String) → (s.pointer f ≡ 0) ⊎ (s.pointer f ≡ V.dlsym vendor_handle f)

  -- A function calls the vendor's function of the name once, on its arguments, and answers what this
  -- answers.
  abbrev pub Forwards : Symbols → String → List ℕ → M ℕ → Type 0
  Forwards s name args f =
      let p = V.dlsym vendor_handle name in
      (r : Symbols) × (f s ≡ ok (V.answer s.calls p args, r))
      × (r.calls ≡ (p, args) ∷ s.calls)
      × IsLazy r

  initialize-IsLazy : (s : Symbols) → IsLazy s → IsLazy (hybris_egl_initialize V s)
  unfolding hybris_egl_initialize
  initialize-IsLazy s v = record { handle = inr refl; pointers = v.pointers }

  open_library-IsLazy :
      (s : Symbols)
      → IsLazy s
      → IsLazy (open_library V s)
        × ((open_library V s).egl_handle ≡ vendor_handle)
        × ((open_library V s).calls ≡ s.calls)
  unfolding open_library hybris_egl_initialize
  open_library-IsLazy s v = elim (Bool-cases (s.egl_handle == 0)) [
    | inl e ↦ rw e (initialize-IsLazy s v, refl, refl)
    | inr e ↦ rw e (v, handle_set v.handle e, refl)
  ]
    where
      handle_set :
          (s.egl_handle ≡ 0) ⊎ (s.egl_handle ≡ vendor_handle)
          → (s.egl_handle == 0) ≡ false
          → s.egl_handle ≡ vendor_handle
      handle_set (inl z) e = absurd (ground (arith, z, e))
      handle_set (inr h) e = h

  look_up-IsLazy :
      (name : String) (s : Symbols)
      → IsLazy s
      → s.egl_handle ≡ vendor_handle
      → IsLazy (look_up V name s)
        × ((look_up V name s).pointer name ≡ V.dlsym vendor_handle name)
        × ((look_up V name s).calls ≡ s.calls)
  unfolding look_up
  look_up-IsLazy name s v opened = elim (Bool-cases (s.pointer name == 0)) [
    | inl e ↦ rw e (
      record { handle = v.handle; pointers = λ f. new_pointer f (Bool-cases (str_eq f name)) },
      rw (eq_refl name) (ap (λ lib. V.dlsym lib name) opened),
      refl,
    )
    | inr e ↦ rw e (v, pointer_set (v.pointers name) e, refl)
  ]
    where
      new_pointer :
          (f : String)
          → (str_eq f name ≡ true) ⊎ (str_eq f name ≡ false)
          → ((if str_eq f name then V.dlsym s.egl_handle name else s.pointer f) ≡ 0)
            ⊎ ((if str_eq f name then V.dlsym s.egl_handle name else s.pointer f)
                ≡ V.dlsym vendor_handle f)
      new_pointer f (inl same) = inr (
          rw same (
            ap (λ lib. V.dlsym lib name) opened
            ∙ ap (V.dlsym vendor_handle) (sym ((eq_iff f name).0 same))))
      new_pointer f (inr other) = rw other (v.pointers f)

      pointer_set :
          (s.pointer name ≡ 0) ⊎ (s.pointer name ≡ V.dlsym vendor_handle name)
          → (s.pointer name == 0) ≡ false
          → s.pointer name ≡ V.dlsym vendor_handle name
      pointer_set (inl z) e = absurd (ground (arith, z, e))
      pointer_set (inr h) e = h

  call_address-ok :
      (p : ℕ) (args : List ℕ) (s : Symbols)
      → p ≢ 0
      → call_address V p args s
        ≡ ok (V.answer s.calls p args, record s { calls = (p, args) ∷ s.calls })
  unfolding call_address
  call_address-ok p args s nz = rw (ne→== p 0 nz) refl

  pub implement-Forwards :
      (name : String) (args : List ℕ) (s : Symbols)
      → V.dlsym vendor_handle name ≢ 0
      → IsLazy s
      → Forwards s name args (hybris_implement_function V name args)
  unfolding hybris_implement_function hybris_dlsysm
  implement-Forwards name args s found v =
      let (opened, handle, same) = open_library-IsLazy s v in
      let s' = look_up V name (open_library V s) in
      let (w, at, kept) = look_up-IsLazy name (open_library V s) opened handle in
      let p = V.dlsym vendor_handle name in
      let calls = kept ∙ same in
      let answered : List Event → Outcome (ℕ × Symbols) =
        λ c. ok (V.answer c p args, record s' { calls = (p, args) ∷ s'.calls }) in
      (
        record s' { calls = (p, args) ∷ s'.calls },
        rw at (call_address-ok p args s' found) ∙ ap answered calls,
        ap (λ c. (p, args) ∷ c) calls,
        record { handle = w.handle; pointers = w.pointers },
      )
