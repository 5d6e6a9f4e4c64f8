-- ===== src/Egl/Images/Lifetime.antt =====
-- An image from its creation to its destruction.
use fake_libc.Common.{ℕ, ◌≡◌, ◌≢◌, refl, ◌==◌, if◌then◌else◌, ◌∷◌, arith}
use fake_libc.Egl.Images.{
  ImageArguments, vendor_create_image, vendor_destroy_image, vendor_image_target_texture, Host,
  Images, unwrap, do_call, my_egl_create_image_khr, my_gl_egl_image_target_texture_2d_oes,
  egl_destroy_image_khr,
}

module _ (H : Host) where
  -- The image that the vendor has made stands behind the address that the caller gets.
  create-unwrap :
      (dpy eik : ℕ) (args : ImageArguments) (s : Images)
      → let call = vendor_create_image dpy (H.ws_passthrough_image_khr args) in
        H.answer s.calls call ≡ eik
        → eik ≢ 0
        → H.malloc (call ∷ s.calls) ≢ 0
        → let (img, r) = my_egl_create_image_khr H dpy args s in
          (img ≡ H.malloc (call ∷ s.calls)) × (unwrap img r ≡ eik) × (r.calls ≡ call ∷ s.calls)
  unfolding my_egl_create_image_khr do_call unwrap
  create-unwrap dpy eik args s made nz room = ground (arith, made)

  -- With an image that the vendor has made, the texture call hands on the vendor's image, and the
  -- destruction destroys this one and frees the object if the vendor answers EGL_TRUE, else it frees nothing.
  pub create-destroy :
      (dpy eik target : ℕ) (args : ImageArguments) (s : Images)
      → let call = vendor_create_image dpy (H.ws_passthrough_image_khr args) in
        H.answer s.calls call ≡ eik
        → eik ≢ 0
        → H.malloc (call ∷ s.calls) ≢ 0
        → let (img, r) = my_egl_create_image_khr H dpy args s in
          let destroy = vendor_destroy_image dpy eik in
          (my_gl_egl_image_target_texture_2d_oes H target img r
            ≡ do_call H (vendor_image_target_texture target eik) r)
          × ((egl_destroy_image_khr H dpy img r).1.calls ≡ destroy ∷ call ∷ s.calls)
          × ((egl_destroy_image_khr H dpy img r).1.freed
              ≡ (if H.answer (call ∷ s.calls) destroy == 1 then img ∷ r.freed else r.freed))
  unfolding my_gl_egl_image_target_texture_2d_oes egl_destroy_image_khr do_call
  create-destroy dpy eik target args s made nz room =
      let (img, r) = my_egl_create_image_khr H dpy args s in
      let (_, inner, calls) = create-unwrap dpy eik args s made nz room in
      rw (inner, calls) (refl, ground arith, ground arith)
