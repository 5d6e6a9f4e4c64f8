-- ===== src/Egl/Forwarders/Calls.antt =====
-- What each of the functions hands on.
use Prim.Native.String.{String}
use text.Mathlib.Text.{◌==◌ as str_eq}
use fake_libc.Common.{ℕ, ◌≡◌, ◌≢◌, refl, if◌then◌else◌, Bool, true, false, List, [], ◌∷◌}
use fake_libc.Egl.Forwarders.{
  Vendor, Symbols, egl_get_error, egl_initialize, egl_get_configs, egl_choose_config,
  egl_get_config_attrib, egl_create_pbuffer_surface, egl_create_pixmap_surface, egl_query_surface,
  egl_bind_api, egl_query_api, egl_wait_client, egl_release_thread,
  egl_create_pbuffer_from_client_buffer, egl_surface_attrib, egl_bind_tex_image,
  egl_release_tex_image, egl_destroy_context, egl_make_current, egl_get_current_context,
  egl_get_current_surface, egl_get_current_display, egl_query_context, egl_wait_gl, egl_wait_native,
  egl_copy_buffers,
}
use fake_libc.Egl.Forwarders.Ready.{vendor_handle, IsLazy, Forwards, implement-Forwards}

abbrev pub vendor_functions : List String
vendor_functions =
    "eglGetError" ∷ "eglInitialize" ∷ "eglGetConfigs" ∷ "eglChooseConfig" ∷ "eglGetConfigAttrib"
    ∷ "eglCreatePbufferSurface" ∷ "eglCreatePixmapSurface" ∷ "eglQuerySurface" ∷ "eglBindAPI"
    ∷ "eglQueryAPI" ∷ "eglWaitClient" ∷ "eglReleaseThread" ∷ "eglCreatePbufferFromClientBuffer"
    ∷ "eglSurfaceAttrib" ∷ "eglBindTexImage" ∷ "eglReleaseTexImage" ∷ "eglDestroyContext"
    ∷ "eglMakeCurrent" ∷ "eglGetCurrentContext" ∷ "eglGetCurrentSurface" ∷ "eglGetCurrentDisplay"
    ∷ "eglQueryContext" ∷ "eglWaitGL" ∷ "eglWaitNative" ∷ "eglCopyBuffers" ∷ []

abbrev pub member : String → List String → Bool
member f [] = false
member f (g ∷ gs) = if str_eq f g then true else member f gs

-- The vendor's library has the functions.
pub record Provides (V : Vendor) : Type 0 where
  pub finds : (f : String) → member f vendor_functions ≡ true → V.dlsym (vendor_handle V) f ≢ 0

module _ (V : Vendor) where
  abbrev pub AllForward : Symbols → (a b c d e : ℕ) → Type 0
  AllForward s a b c d e =
      (Forwards V s "eglGetError" [] (egl_get_error V))
      × (Forwards V s "eglInitialize" (a ∷ b ∷ c ∷ []) (egl_initialize V a b c))
      × (Forwards V s "eglGetConfigs" (a ∷ b ∷ c ∷ d ∷ []) (egl_get_configs V a b c d))
      × (Forwards V s "eglChooseConfig" (a ∷ b ∷ c ∷ d ∷ e ∷ []) (egl_choose_config V a b c d e))
      × (Forwards V s "eglGetConfigAttrib" (a ∷ b ∷ c ∷ d ∷ []) (egl_get_config_attrib V a b c d))
      × (Forwards V s "eglCreatePbufferSurface" (a ∷ b ∷ c ∷ [])
          (egl_create_pbuffer_surface V a b c))
      × (Forwards V s "eglCreatePixmapSurface" (a ∷ b ∷ c ∷ d ∷ [])
          (egl_create_pixmap_surface V a b c d))
      × (Forwards V s "eglQuerySurface" (a ∷ b ∷ c ∷ d ∷ []) (egl_query_surface V a b c d))
      × (Forwards V s "eglBindAPI" (a ∷ []) (egl_bind_api V a))
      × (Forwards V s "eglQueryAPI" [] (egl_query_api V))
      × (Forwards V s "eglWaitClient" [] (egl_wait_client V))
      × (Forwards V s "eglReleaseThread" [] (egl_release_thread V))
      × (Forwards V s "eglCreatePbufferFromClientBuffer" (a ∷ b ∷ c ∷ d ∷ e ∷ [])
          (egl_create_pbuffer_from_client_buffer V a b c d e))
      × (Forwards V s "eglSurfaceAttrib" (a ∷ b ∷ c ∷ d ∷ []) (egl_surface_attrib V a b c d))
      × (Forwards V s "eglBindTexImage" (a ∷ b ∷ c ∷ []) (egl_bind_tex_image V a b c))
      × (Forwards V s "eglReleaseTexImage" (a ∷ b ∷ c ∷ []) (egl_release_tex_image V a b c))
      × (Forwards V s "eglDestroyContext" (a ∷ b ∷ []) (egl_destroy_context V a b))
      × (Forwards V s "eglMakeCurrent" (a ∷ b ∷ c ∷ d ∷ []) (egl_make_current V a b c d))
      × (Forwards V s "eglGetCurrentContext" [] (egl_get_current_context V))
      × (Forwards V s "eglGetCurrentSurface" (a ∷ []) (egl_get_current_surface V a))
      × (Forwards V s "eglGetCurrentDisplay" [] (egl_get_current_display V))
      × (Forwards V s "eglQueryContext" (a ∷ b ∷ c ∷ d ∷ []) (egl_query_context V a b c d))
      × (Forwards V s "eglWaitGL" [] (egl_wait_gl V))
      × (Forwards V s "eglWaitNative" (a ∷ []) (egl_wait_native V a))
      × (Forwards V s "eglCopyBuffers" (a ∷ b ∷ c ∷ []) (egl_copy_buffers V a b c))

  -- If the vendor's library has the functions: from a state in which the handle is null or the
  -- library's, and each pointer null or what dlsym answers, each of the 25 functions makes one
  -- call of the vendor's function of its name, on its own arguments in their order, answers what
  -- this call answers, and leaves such a state.
  pub all_forward :
      (p : Provides V) (s : Symbols) → IsLazy V s → (a b c d e : ℕ) → AllForward s a b c d e
  unfolding egl_get_error egl_initialize egl_get_configs egl_choose_config egl_get_config_attrib
      egl_create_pbuffer_surface egl_create_pixmap_surface egl_query_surface egl_bind_api
      egl_query_api egl_wait_client egl_release_thread egl_create_pbuffer_from_client_buffer
      egl_surface_attrib egl_bind_tex_image egl_release_tex_image egl_destroy_context
      egl_make_current egl_get_current_context egl_get_current_surface egl_get_current_display
      egl_query_context egl_wait_gl egl_wait_native egl_copy_buffers
  all_forward p s v a b c d e = (
    implement-Forwards V "eglGetError" [] s (p.finds "eglGetError" refl) v,
    implement-Forwards V "eglInitialize" (a ∷ b ∷ c ∷ []) s (p.finds "eglInitialize" refl) v,
    implement-Forwards V "eglGetConfigs" (a ∷ b ∷ c ∷ d ∷ []) s (p.finds "eglGetConfigs" refl) v,
    implement-Forwards V "eglChooseConfig" (a ∷ b ∷ c ∷ d ∷ e ∷ []) s
        (p.finds "eglChooseConfig" refl) v,
    implement-Forwards V "eglGetConfigAttrib" (a ∷ b ∷ c ∷ d ∷ []) s
        (p.finds "eglGetConfigAttrib" refl) v,
    implement-Forwards V "eglCreatePbufferSurface" (a ∷ b ∷ c ∷ []) s
        (p.finds "eglCreatePbufferSurface" refl) v,
    implement-Forwards V "eglCreatePixmapSurface" (a ∷ b ∷ c ∷ d ∷ []) s
        (p.finds "eglCreatePixmapSurface" refl) v,
    implement-Forwards V "eglQuerySurface" (a ∷ b ∷ c ∷ d ∷ []) s (p.finds "eglQuerySurface" refl)
        v,
    implement-Forwards V "eglBindAPI" (a ∷ []) s (p.finds "eglBindAPI" refl) v,
    implement-Forwards V "eglQueryAPI" [] s (p.finds "eglQueryAPI" refl) v,
    implement-Forwards V "eglWaitClient" [] s (p.finds "eglWaitClient" refl) v,
    implement-Forwards V "eglReleaseThread" [] s (p.finds "eglReleaseThread" refl) v,
    implement-Forwards V "eglCreatePbufferFromClientBuffer" (a ∷ b ∷ c ∷ d ∷ e ∷ []) s
        (p.finds "eglCreatePbufferFromClientBuffer" refl) v,
    implement-Forwards V "eglSurfaceAttrib" (a ∷ b ∷ c ∷ d ∷ []) s (p.finds "eglSurfaceAttrib" refl)
        v,
    implement-Forwards V "eglBindTexImage" (a ∷ b ∷ c ∷ []) s (p.finds "eglBindTexImage" refl) v,
    implement-Forwards V "eglReleaseTexImage" (a ∷ b ∷ c ∷ []) s (p.finds "eglReleaseTexImage" refl)
        v,
    implement-Forwards V "eglDestroyContext" (a ∷ b ∷ []) s (p.finds "eglDestroyContext" refl) v,
    implement-Forwards V "eglMakeCurrent" (a ∷ b ∷ c ∷ d ∷ []) s (p.finds "eglMakeCurrent" refl) v,
    implement-Forwards V "eglGetCurrentContext" [] s (p.finds "eglGetCurrentContext" refl) v,
    implement-Forwards V "eglGetCurrentSurface" (a ∷ []) s (p.finds "eglGetCurrentSurface" refl) v,
    implement-Forwards V "eglGetCurrentDisplay" [] s (p.finds "eglGetCurrentDisplay" refl) v,
    implement-Forwards V "eglQueryContext" (a ∷ b ∷ c ∷ d ∷ []) s (p.finds "eglQueryContext" refl)
        v,
    implement-Forwards V "eglWaitGL" [] s (p.finds "eglWaitGL" refl) v,
    implement-Forwards V "eglWaitNative" (a ∷ []) s (p.finds "eglWaitNative" refl) v,
    implement-Forwards V "eglCopyBuffers" (a ∷ b ∷ c ∷ []) s (p.finds "eglCopyBuffers" refl) v,
  )
