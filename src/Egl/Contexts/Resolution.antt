-- ===== src/Egl/Contexts/Resolution.antt =====
-- What `eglGetProcAddress` answers, whatever it has opened already.
use Prim.Native.String.{String}
use text.Mathlib.Text.{◌==◌ as str_eq}
use fake_libc.Common.{
  ℕ, ◌≡◌, refl, ◌∙◌, ap, ◌==◌, if◌then◌else◌, Bool, true, false, List, [], ◌∷◌, Option, some, ok,
  arith, ◌⊎◌, inl, inr, Bool-cases,
}
use fake_libc.Egl.Contexts.{
  Host, Contexts, scan_attributes, client_version_of, egl_create_context, file_or, opened, symbol,
  look_up_gles, fall_back, egl_get_proc_address,
}

module _ (H : Host) where
  -- Attributes and their values as an array, with EGL_NONE behind them, and what follows.
  unfoldable pub flatten : List (ℕ × ℕ) → List ℕ → List ℕ
  flatten [] rest = H.egl_none ∷ rest
  flatten ((a, v) ∷ pairs) rest = a ∷ v ∷ flatten pairs rest

  unfoldable pub has_none : List (ℕ × ℕ) → Bool
  has_none [] = false
  has_none ((a, v) ∷ pairs) = if a == H.egl_none then true else has_none pairs

  -- The version that the last attribute of its name asks for.
  unfoldable pub last_version : List (ℕ × ℕ) → ℕ → ℕ
  last_version [] version = version
  last_version ((a, v) ∷ pairs) version =
      last_version pairs (if a == H.egl_context_client_version then v else version)

  scan-flatten :
      (pairs : List (ℕ × ℕ)) (rest : List ℕ) (version : ℕ)
      → has_none pairs ≡ false
      → scan_attributes H (flatten pairs rest) version ≡ ok (last_version pairs version)
  unfolding scan_attributes flatten has_none last_version
  scan-flatten [] [] version h = ground arith
  scan-flatten [] (x ∷ rest) version h = ground arith
  scan-flatten ((a, v) ∷ pairs) rest version h =
      ground
        (arith, scan-flatten pairs rest (if a == H.egl_context_client_version then v else version))

  -- The address that a name resolves to for a client version.
  unfoldable pub gles_symbol : ℕ → String → ℕ
  gles_symbol version procname =
      if version == 1
      then symbol H (H.dlopen (file_or H H.hybris_libglesv1 "libGLESv1_CM.so.1")) procname
      else (if version == 2
          then symbol H (H.dlopen (file_or H H.hybris_libglesv2 "libGLESv2.so.2")) procname
          else 0)

  unfoldable pub resolve : ℕ → String → ℕ
  resolve version procname =
      if str_eq procname "eglCreateImageKHR"
      then H.my_egl_create_image_khr
      else (if str_eq procname "eglDestroyImageKHR"
          then H.egl_destroy_image_khr
          else (if str_eq procname "eglSwapBuffersWithDamageEXT"
              then H.my_egl_swap_buffers_with_damage_ext
              else (if str_eq procname "glEGLImageTargetTexture2DOES"
                  then H.my_gl_egl_image_target_texture_2d_oes
                  else fall_back H procname (gles_symbol version procname))))

  -- A handle is null or the library's.
  pub record IsCached (s : Contexts) : Type 0 where
    pub first :
        (s.libgles1 ≡ 0)
        ⊎ (s.libgles1 ≡ H.dlopen (file_or H H.hybris_libglesv1 "libGLESv1_CM.so.1"))
    pub second :
        (s.libgles2 ≡ 0) ⊎ (s.libgles2 ≡ H.dlopen (file_or H H.hybris_libglesv2 "libGLESv2.so.2"))

  opened-IsCached :
      (handle : ℕ) (env : Option String) (file : String)
      → (handle ≡ 0) ⊎ (handle ≡ H.dlopen (file_or H env file))
      → opened H handle env file ≡ H.dlopen (file_or H env file)
  unfolding opened
  opened-IsCached handle env file (inl e) = rw e refl
  opened-IsCached handle env file (inr e) = ground (arith, e)

  look_up_gles-IsCached :
      (procname : String) (s : Contexts)
      → IsCached s
      → ((look_up_gles H procname s).0 ≡ gles_symbol s.client_version procname)
        × IsCached (look_up_gles H procname s).1
        × ((look_up_gles H procname s).1.client_version ≡ s.client_version)
  unfolding look_up_gles gles_symbol
  look_up_gles-IsCached procname s v =
      let one = opened-IsCached s.libgles1 H.hybris_libglesv1 "libGLESv1_CM.so.1" v.first in
      let two = opened-IsCached s.libgles2 H.hybris_libglesv2 "libGLESv2.so.2" v.second in
      elim (Bool-cases (s.client_version == 1)) [
        | inl e1 ↦
            rw e1 (
              ap (λ h. symbol H h procname) one,
              record { first = inr one; second = v.second },
              refl,
            )
        | inr e1 ↦ rw e1 (elim (Bool-cases (s.client_version == 2)) [
          | inl e2 ↦ rw e2 (
            ap (λ h. symbol H h procname) two,
            record { first = v.first; second = inr two },
            refl,
          )
          | inr e2 ↦ rw e2 (refl, v, refl)
        ])
      ]

  -- A look-up answers an address, caches no wrong handle and leaves the version.
  Answers : Contexts → ℕ → ℕ × Contexts → Type 0
  Answers s n out = (out.0 ≡ n) × IsCached out.1 × (out.1.client_version ≡ s.client_version)

  intercept :
      (b : Bool) (p n : ℕ) (s : Contexts) (out : ℕ × Contexts)
      → IsCached s
      → Answers s n out
      → Answers s (if b then p else n) (if b then (p, s) else out)
  unfolding Answers
  intercept true p n s out v a = (refl, v, refl)
  intercept false p n s out v a = a

  get_proc_address-resolve :
      (procname : String) (s : Contexts)
      → IsCached s
      → Answers s (resolve s.client_version procname) (egl_get_proc_address H procname s)
  unfolding egl_get_proc_address resolve Answers
  get_proc_address-resolve procname s v =
      let (found, cached, same) = look_up_gles-IsCached procname s v in
      intercept (str_eq procname "eglCreateImageKHR") _ _ s _ v (
        intercept (str_eq procname "eglDestroyImageKHR") _ _ s _ v (
          intercept (str_eq procname "eglSwapBuffersWithDamageEXT") _ _ s _ v (
            intercept (str_eq procname "glEGLImageTargetTexture2DOES") _ _ s _ v
              (ap (fall_back H procname) found, cached, same))))

  -- If no attribute is EGL_NONE and each handle is null or the library's: eglCreateContext with
  -- any attributes, EGL_NONE behind them and anything behind that reads no further than EGL_NONE
  -- and answers what the vendor answers, and eglGetProcAddress then answers for every name the
  -- address that it resolves to for the version of the last EGL_CONTEXT_CLIENT_VERSION, or for
  -- the remembered version if there is none, both at once and after a look-up of any other name.
  pub create-resolve :
      (dpy config share_context : ℕ) (pairs : List (ℕ × ℕ)) (rest : List ℕ)
      (procname other : String) (s : Contexts)
      → has_none pairs ≡ false
      → IsCached s
      → let version = last_version pairs s.client_version in
        let attribs = some (flatten pairs rest) in
        (r : Contexts) × (egl_create_context H dpy config share_context attribs s
          ≡ ok (H.vendor_create_context dpy config share_context attribs, r))
        × ((egl_get_proc_address H procname r).0 ≡ resolve version procname)
        × ((egl_get_proc_address H procname (egl_get_proc_address H other r).1).0
            ≡ resolve version procname)
  unfolding egl_create_context client_version_of Answers
  create-resolve dpy config share_context pairs rest procname other s nn v =
      let version = last_version pairs s.client_version in
      let r : Contexts = record s { client_version = version } in
      let u : IsCached r = record { first = v.first; second = v.second } in
      let (_, cached, same) = get_proc_address-resolve other r u in
      let (later, _, _) =
        get_proc_address-resolve procname (egl_get_proc_address H other r).1 cached in
      (
        r,
        rw (scan-flatten pairs rest s.client_version nn) refl,
        (get_proc_address-resolve procname r u).0,
        later ∙ ap (λ n. resolve n procname) same,
      )
