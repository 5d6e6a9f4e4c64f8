-- ===== src/Egl/Forwarders.antt =====
-- The functions of libEGL/egl.c that HYBRIS_IMPLEMENT_FUNCTION makes: each looks the vendor's function up
-- at its first call and hands its arguments on. A value that the code only hands on is a number.
pub mod Ready
pub mod Calls
use Prim.Native.String.{String}
use text.Mathlib.Text.{◌==◌ as str_eq}
use fake_libc.Common.{ℕ, ◌==◌, if◌then◌else◌, List, [], ◌∷◌, Option, none, some, Outcome, ok, fault}

-- A call through a function pointer.
abbrev pub Event : Type 0
Event = ℕ × List ℕ

-- `android_dlopen` and `dlsym`, the variable LIBEGL of the environment, and what a called function answers
-- after earlier calls.
pub record Vendor : Type 0 where
  pub android_dlopen : String → ℕ
  pub dlsym : ℕ → String → ℕ
  pub libegl : Option String
  pub answer : List Event → ℕ → List ℕ → ℕ

-- `egl_handle`, the static `f` of each function, under the function's name, and the calls so far, the latest
-- first.
pub record Symbols : Type 0 where
  pub egl_handle : ℕ
  pub pointer : String → ℕ
  pub calls : List Event

abbrev pub M : Type 0 → Type 0
M A = Symbols → Outcome (A × Symbols)

module _ (V : Vendor) where
  unfoldable pub library_name : Option String → String
  library_name none = "libEGL.so"
  library_name (some file) = file

  unfoldable pub hybris_egl_initialize : Symbols → Symbols
  hybris_egl_initialize s = record s { egl_handle = V.android_dlopen (library_name V.libegl) }

  -- The two tests of HYBRIS_DLSYSM(egl, &f, sym), and the macro.
  unfoldable pub open_library : Symbols → Symbols
  open_library s = if s.egl_handle == 0 then hybris_egl_initialize s else s

  unfoldable pub look_up : String → Symbols → Symbols
  look_up sym s =
      if s.pointer sym == 0
      then record s {
        pointer = λ f. if str_eq f sym then V.dlsym s.egl_handle sym else s.pointer f;
      }
      else s

  unfoldable pub hybris_dlsysm : String → Symbols → Symbols
  hybris_dlsysm sym s = look_up sym (open_library s)

  -- A call through a pointer; through a null pointer it is a fault.
  unfoldable pub call_address : ℕ → List ℕ → M ℕ
  call_address p args s =
      if p == 0
      then fault
      else ok (V.answer s.calls p args, record s { calls = (p, args) ∷ s.calls })

  -- HYBRIS_IMPLEMENT_FUNCTION0 and its kin, for any number of arguments.
  unfoldable pub hybris_implement_function : String → List ℕ → M ℕ
  hybris_implement_function sym args s =
      let s' = hybris_dlsysm sym s in call_address (s'.pointer sym) args s'

  unfoldable pub egl_get_error : M ℕ
  egl_get_error = hybris_implement_function "eglGetError" []

  unfoldable pub egl_initialize : ℕ → ℕ → ℕ → M ℕ
  egl_initialize a b c = hybris_implement_function "eglInitialize" (a ∷ b ∷ c ∷ [])

  unfoldable pub egl_get_configs : ℕ → ℕ → ℕ → ℕ → M ℕ
  egl_get_configs a b c d = hybris_implement_function "eglGetConfigs" (a ∷ b ∷ c ∷ d ∷ [])

  unfoldable pub egl_choose_config : ℕ → ℕ → ℕ → ℕ → ℕ → M ℕ
  egl_choose_config a b c d e = hybris_implement_function "eglChooseConfig" (a ∷ b ∷ c ∷ d ∷ e ∷ [])

  unfoldable pub egl_get_config_attrib : ℕ → ℕ → ℕ → ℕ → M ℕ
  egl_get_config_attrib a b c d =
      hybris_implement_function "eglGetConfigAttrib" (a ∷ b ∷ c ∷ d ∷ [])

  unfoldable pub egl_create_pbuffer_surface : ℕ → ℕ → ℕ → M ℕ
  egl_create_pbuffer_surface a b c =
      hybris_implement_function "eglCreatePbufferSurface" (a ∷ b ∷ c ∷ [])

  unfoldable pub egl_create_pixmap_surface : ℕ → ℕ → ℕ → ℕ → M ℕ
  egl_create_pixmap_surface a b c d =
      hybris_implement_function "eglCreatePixmapSurface" (a ∷ b ∷ c ∷ d ∷ [])

  unfoldable pub egl_query_surface : ℕ → ℕ → ℕ → ℕ → M ℕ
  egl_query_surface a b c d = hybris_implement_function "eglQuerySurface" (a ∷ b ∷ c ∷ d ∷ [])

  unfoldable pub egl_bind_api : ℕ → M ℕ
  egl_bind_api a = hybris_implement_function "eglBindAPI" (a ∷ [])

  unfoldable pub egl_query_api : M ℕ
  egl_query_api = hybris_implement_function "eglQueryAPI" []

  unfoldable pub egl_wait_client : M ℕ
  egl_wait_client = hybris_implement_function "eglWaitClient" []

  unfoldable pub egl_release_thread : M ℕ
  egl_release_thread = hybris_implement_function "eglReleaseThread" []

  unfoldable pub egl_create_pbuffer_from_client_buffer : ℕ → ℕ → ℕ → ℕ → ℕ → M ℕ
  egl_create_pbuffer_from_client_buffer a b c d e =
      hybris_implement_function "eglCreatePbufferFromClientBuffer" (a ∷ b ∷ c ∷ d ∷ e ∷ [])

  unfoldable pub egl_surface_attrib : ℕ → ℕ → ℕ → ℕ → M ℕ
  egl_surface_attrib a b c d = hybris_implement_function "eglSurfaceAttrib" (a ∷ b ∷ c ∷ d ∷ [])

  unfoldable pub egl_bind_tex_image : ℕ → ℕ → ℕ → M ℕ
  egl_bind_tex_image a b c = hybris_implement_function "eglBindTexImage" (a ∷ b ∷ c ∷ [])

  unfoldable pub egl_release_tex_image : ℕ → ℕ → ℕ → M ℕ
  egl_release_tex_image a b c = hybris_implement_function "eglReleaseTexImage" (a ∷ b ∷ c ∷ [])

  unfoldable pub egl_destroy_context : ℕ → ℕ → M ℕ
  egl_destroy_context a b = hybris_implement_function "eglDestroyContext" (a ∷ b ∷ [])

  unfoldable pub egl_make_current : ℕ → ℕ → ℕ → ℕ → M ℕ
  egl_make_current a b c d = hybris_implement_function "eglMakeCurrent" (a ∷ b ∷ c ∷ d ∷ [])

  unfoldable pub egl_get_current_context : M ℕ
  egl_get_current_context = hybris_implement_function "eglGetCurrentContext" []

  unfoldable pub egl_get_current_surface : ℕ → M ℕ
  egl_get_current_surface a = hybris_implement_function "eglGetCurrentSurface" (a ∷ [])

  unfoldable pub egl_get_current_display : M ℕ
  egl_get_current_display = hybris_implement_function "eglGetCurrentDisplay" []

  unfoldable pub egl_query_context : ℕ → ℕ → ℕ → ℕ → M ℕ
  egl_query_context a b c d = hybris_implement_function "eglQueryContext" (a ∷ b ∷ c ∷ d ∷ [])

  unfoldable pub egl_wait_gl : M ℕ
  egl_wait_gl = hybris_implement_function "eglWaitGL" []

  unfoldable pub egl_wait_native : ℕ → M ℕ
  egl_wait_native a = hybris_implement_function "eglWaitNative" (a ∷ [])

  unfoldable pub egl_copy_buffers : ℕ → ℕ → ℕ → M ℕ
  egl_copy_buffers a b c = hybris_implement_function "eglCopyBuffers" (a ∷ b ∷ c ∷ [])
