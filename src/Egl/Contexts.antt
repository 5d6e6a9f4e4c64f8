-- ===== src/Egl/Contexts.antt =====
-- `eglCreateContext`, which remembers the client version, and `eglGetProcAddress`, which depends on it
-- (libEGL/egl.c). The model starts behind the look-ups of the vendor's functions.
pub mod Resolution
use Prim.Native.String.{String}
use text.Mathlib.Text.{◌==◌ as str_eq}
use fake_libc.Common.{
  ℕ, ◌==◌, if◌then◌else◌, not, List, [], ◌∷◌, Option, none, some, Outcome, ok, fault, ◌>>=◌,
}

-- The numbers EGL_NONE and EGL_CONTEXT_CLIENT_VERSION; what the dynamic linker, the plug-in and the
-- vendor's library answer for a name; the environment's HYBRIS_LIBGLESV1 and HYBRIS_LIBGLESV2; and the
-- addresses of the four functions of egl.c that are handed out.
pub record Host : Type 0 where
  pub egl_none : ℕ
  pub egl_context_client_version : ℕ
  pub dlopen : String → ℕ
  pub dlsym : ℕ → String → ℕ
  pub ws_egl_get_proc_address : String → ℕ
  pub vendor_get_proc_address : String → ℕ
  pub vendor_create_context : ℕ → ℕ → ℕ → Option (List ℕ) → ℕ
  pub hybris_libglesv1 : Option String
  pub hybris_libglesv2 : Option String
  pub my_egl_create_image_khr : ℕ
  pub egl_destroy_image_khr : ℕ
  pub my_egl_swap_buffers_with_damage_ext : ℕ
  pub my_gl_egl_image_target_texture_2d_oes : ℕ

-- `_egl_context_client_version` and the two handles.
pub record Contexts : Type 0 where
  pub client_version : ℕ
  pub libgles1 : ℕ
  pub libgles2 : ℕ

module _ (H : Host) where
  -- The loop over the attributes, from the version that is remembered. A list that ends without
  -- EGL_NONE is read out of bounds.
  unfoldable pub scan_attributes : List ℕ → ℕ → Outcome ℕ
  scan_attributes [] version = fault
  scan_attributes (a ∷ []) version = if a == H.egl_none then ok version else fault
  scan_attributes (a ∷ value ∷ rest) version =
      let more =
        scan_attributes rest (if a == H.egl_context_client_version then value else version) in
      if a == H.egl_none then ok version else more

  -- A null list has no attributes.
  unfoldable pub client_version_of : Option (List ℕ) → ℕ → Outcome ℕ
  client_version_of none version = ok version
  client_version_of (some attribs) version = scan_attributes attribs version

  unfoldable pub egl_create_context :
      ℕ → ℕ → ℕ → Option (List ℕ) → Contexts → Outcome (ℕ × Contexts)
  egl_create_context dpy config share_context attrib_list s =
      client_version_of attrib_list s.client_version >>= λ version. ok (
        H.vendor_create_context dpy config share_context attrib_list,
        record s { client_version = version },
      )

  unfoldable pub file_or : Option String → String → String
  file_or none default = default
  file_or (some file) default = file

  -- The handle of a library that is opened at its first use.
  unfoldable pub opened : ℕ → Option String → String → ℕ
  opened handle env default = if handle == 0 then H.dlopen (file_or env default) else handle

  unfoldable pub symbol : ℕ → String → ℕ
  symbol handle procname = if handle == 0 then 0 else H.dlsym handle procname

  -- The switch over the client version.
  unfoldable pub look_up_gles : String → Contexts → ℕ × Contexts
  look_up_gles procname s =
      if s.client_version == 1
      then (let handle = opened s.libgles1 H.hybris_libglesv1 "libGLESv1_CM.so.1" in
          (symbol handle procname, record s { libgles1 = handle }))
      else (if s.client_version == 2
          then (let handle = opened s.libgles2 H.hybris_libglesv2 "libGLESv2.so.2" in
              (symbol handle procname, record s { libgles2 = handle }))
          else (0, s))

  -- The two steps behind the switch.
  unfoldable pub fall_back : String → ℕ → ℕ
  fall_back procname ret =
      let ret' = if ret == 0 then H.ws_egl_get_proc_address procname else ret in
      if ret' == 0 then H.vendor_get_proc_address procname else ret'

  unfoldable pub egl_get_proc_address : String → Contexts → ℕ × Contexts
  egl_get_proc_address procname s =
      if str_eq procname "eglCreateImageKHR"
      then (H.my_egl_create_image_khr, s)
      else (if str_eq procname "eglDestroyImageKHR"
          then (H.egl_destroy_image_khr, s)
          else (if str_eq procname "eglSwapBuffersWithDamageEXT"
              then (H.my_egl_swap_buffers_with_damage_ext, s)
              else (if str_eq procname "glEGLImageTargetTexture2DOES"
                  then (H.my_gl_egl_image_target_texture_2d_oes, s)
                  else (let (ret, s') = look_up_gles procname s in (fall_back procname ret, s')))))
