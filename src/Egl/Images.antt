-- ===== src/Egl/Images.antt =====
-- Images: the wrappers of `eglCreateImageKHR`, `eglDestroyImageKHR` and
-- `glEGLImageTargetTexture2DOES` (libEGL/egl.c, `struct egl_image` in libEGL/ws.h). The model starts
-- behind the look-ups of the vendor's functions; malloc answers an object. `free(NULL)` stands in
-- `freed` as 0. EGL_NO_IMAGE_KHR is 0 and EGL_TRUE is 1.
pub mod Lifetime
use fake_libc.Common.{ℕ, ◌==◌, if◌then◌else◌, List, [], ◌∷◌}

-- `struct egl_image`
pub record Image : Type 0 where
  pub egl_image : ℕ
  pub egl_buffer : ℕ
  pub target : ℕ

-- The arguments of `ws_passthroughImageKHR`.
pub record ImageArguments : Type 0 where
  pub ctx : ℕ
  pub target : ℕ
  pub buffer : ℕ
  pub attrib_list : ℕ

-- The calls of the vendor's libraries.
pub data Call : Type 0 where
  vendor_create_image : ℕ → ImageArguments → Call
  vendor_destroy_image : ℕ → ℕ → Call
  vendor_image_target_texture : ℕ → ℕ → Call

-- What a call answers after earlier ones, what the plug-in makes of the arguments, and what malloc answers.
pub record Host : Type 0 where
  pub answer : List Call → Call → ℕ
  pub ws_passthrough_image_khr : ImageArguments → ImageArguments
  pub malloc : List Call → ℕ

-- The objects by address, the freed addresses, and the calls so far, the latest first.
pub record Images : Type 0 where
  pub image : ℕ → Image
  pub freed : List ℕ
  pub calls : List Call

-- `img ? img->egl_image : NULL`
unfoldable pub unwrap : ℕ → Images → ℕ
unwrap img s = if img == 0 then 0 else (s.image img).egl_image

module _ (H : Host) where
  unfoldable pub do_call : Call → Images → ℕ × Images
  do_call c s = (H.answer s.calls c, record s { calls = c ∷ s.calls })

  unfoldable pub my_egl_create_image_khr : ℕ → ImageArguments → Images → ℕ × Images
  my_egl_create_image_khr dpy args s =
      let (eik, s') = do_call (vendor_create_image dpy (H.ws_passthrough_image_khr args)) s in
      let p = H.malloc s'.calls in
      if eik == 0 then (0, s') else (
        p,
        record s' {
          image = λ q.
              if q == p
              then record { egl_image = eik; egl_buffer = args.buffer; target = args.target }
              else s'.image q;
        },
      )

  unfoldable pub my_gl_egl_image_target_texture_2d_oes : ℕ → ℕ → Images → ℕ × Images
  my_gl_egl_image_target_texture_2d_oes target img s =
      do_call (vendor_image_target_texture target (unwrap img s)) s

  unfoldable pub egl_destroy_image_khr : ℕ → ℕ → Images → ℕ × Images
  egl_destroy_image_khr dpy img s =
      let (ret, s') = do_call (vendor_destroy_image dpy (unwrap img s)) s in
      if ret == 1 then (1, record s' { freed = img ∷ s'.freed }) else (ret, s')
