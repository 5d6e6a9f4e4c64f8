-- ===== src/Gles/Images.antt =====
-- The functions of libGLESv2/glesv2.c on textures, frame buffers and render buffers: each calls the vendor's function of its name
-- through its pointer.
use fake_libc.Common.{ℕ, [], ◌∷◌}
use fake_libc.Gles.{Vendor, M, call_vendor}

module _ (V : Vendor) where
  unfoldable pub gl_active_texture_wrapper : ℕ → M ℕ
  gl_active_texture_wrapper texture = call_vendor V "glActiveTexture" (texture ∷ [])

  unfoldable pub gl_bind_framebuffer_wrapper : ℕ → ℕ → M ℕ
  gl_bind_framebuffer_wrapper target framebuffer =
      call_vendor V "glBindFramebuffer" (target ∷ framebuffer ∷ [])

  unfoldable pub gl_bind_renderbuffer_wrapper : ℕ → ℕ → M ℕ
  gl_bind_renderbuffer_wrapper target framebuffer =
      call_vendor V "glBindRenderbuffer" (target ∷ framebuffer ∷ [])

  unfoldable pub gl_bind_texture_wrapper : ℕ → ℕ → M ℕ
  gl_bind_texture_wrapper target texture = call_vendor V "glBindTexture" (target ∷ texture ∷ [])

  unfoldable pub gl_check_framebuffer_status_wrapper : ℕ → M ℕ
  gl_check_framebuffer_status_wrapper target =
      call_vendor V "glCheckFramebufferStatus" (target ∷ [])

  unfoldable pub gl_compressed_tex_image_2d_wrapper : ℕ → ℕ → ℕ → ℕ → ℕ → ℕ → ℕ → ℕ → M ℕ
  gl_compressed_tex_image_2d_wrapper target level internalformat width height border image_size
        pixels =
      call_vendor V "glCompressedTexImage2D"
        (target ∷ level ∷ internalformat ∷ width ∷ height ∷ border ∷ image_size ∷ pixels ∷ [])

  unfoldable pub gl_compressed_tex_sub_image_2d_wrapper : ℕ → ℕ → ℕ → ℕ → ℕ → ℕ → ℕ → ℕ → ℕ → M ℕ
  gl_compressed_tex_sub_image_2d_wrapper target level xoffset yoffset width height format image_size
        pixels =
      call_vendor V "glCompressedTexSubImage2D"
        (target ∷ level ∷ xoffset ∷ yoffset ∷ width ∷ height ∷ format ∷ image_size ∷ pixels ∷ [])

  unfoldable pub gl_copy_tex_image_2d_wrapper : ℕ → ℕ → ℕ → ℕ → ℕ → ℕ → ℕ → ℕ → M ℕ
  gl_copy_tex_image_2d_wrapper target level internalformat x y width height border =
      call_vendor V "glCopyTexImage2D"
        (target ∷ level ∷ internalformat ∷ x ∷ y ∷ width ∷ height ∷ border ∷ [])

  unfoldable pub gl_copy_tex_sub_image_2d_wrapper : ℕ → ℕ → ℕ → ℕ → ℕ → ℕ → ℕ → ℕ → M ℕ
  gl_copy_tex_sub_image_2d_wrapper target level xoffset yoffset x y width height =
      call_vendor V "glCopyTexSubImage2D"
        (target ∷ level ∷ xoffset ∷ yoffset ∷ x ∷ y ∷ width ∷ height ∷ [])

  unfoldable pub gl_delete_framebuffers_wrapper : ℕ → ℕ → M ℕ
  gl_delete_framebuffers_wrapper n buffers = call_vendor V "glDeleteFramebuffers" (n ∷ buffers ∷ [])

  unfoldable pub gl_delete_renderbuffers_wrapper : ℕ → ℕ → M ℕ
  gl_delete_renderbuffers_wrapper n renderbuffers =
      call_vendor V "glDeleteRenderbuffers" (n ∷ renderbuffers ∷ [])

  unfoldable pub gl_delete_textures_wrapper : ℕ → ℕ → M ℕ
  gl_delete_textures_wrapper n textures = call_vendor V "glDeleteTextures" (n ∷ textures ∷ [])

  unfoldable pub gl_framebuffer_renderbuffer_wrapper : ℕ → ℕ → ℕ → ℕ → M ℕ
  gl_framebuffer_renderbuffer_wrapper target attachment renderbuffertarget renderbuffer =
      call_vendor V "glFramebufferRenderbuffer"
        (target ∷ attachment ∷ renderbuffertarget ∷ renderbuffer ∷ [])

  unfoldable pub gl_framebuffer_texture_2d_wrapper : ℕ → ℕ → ℕ → ℕ → ℕ → M ℕ
  gl_framebuffer_texture_2d_wrapper target attachment textarget texture level =
      call_vendor V "glFramebufferTexture2D"
        (target ∷ attachment ∷ textarget ∷ texture ∷ level ∷ [])

  unfoldable pub gl_gen_framebuffers_wrapper : ℕ → ℕ → M ℕ
  gl_gen_framebuffers_wrapper n framebuffers =
      call_vendor V "glGenFramebuffers" (n ∷ framebuffers ∷ [])

  unfoldable pub gl_gen_renderbuffers_wrapper : ℕ → ℕ → M ℕ
  gl_gen_renderbuffers_wrapper n renderbuffers =
      call_vendor V "glGenRenderbuffers" (n ∷ renderbuffers ∷ [])

  unfoldable pub gl_gen_textures_wrapper : ℕ → ℕ → M ℕ
  gl_gen_textures_wrapper n textures = call_vendor V "glGenTextures" (n ∷ textures ∷ [])

  unfoldable pub gl_get_framebuffer_attachment_parameteriv_wrapper : ℕ → ℕ → ℕ → ℕ → M ℕ
  gl_get_framebuffer_attachment_parameteriv_wrapper target attachment pname params =
      call_vendor V "glGetFramebufferAttachmentParameteriv"
        (target ∷ attachment ∷ pname ∷ params ∷ [])

  unfoldable pub gl_get_renderbuffer_parameteriv_wrapper : ℕ → ℕ → ℕ → M ℕ
  gl_get_renderbuffer_parameteriv_wrapper target pname params =
      call_vendor V "glGetRenderbufferParameteriv" (target ∷ pname ∷ params ∷ [])

  unfoldable pub gl_get_tex_parameterfv_wrapper : ℕ → ℕ → ℕ → M ℕ
  gl_get_tex_parameterfv_wrapper target pname params =
      call_vendor V "glGetTexParameterfv" (target ∷ pname ∷ params ∷ [])

  unfoldable pub gl_get_tex_parameteriv_wrapper : ℕ → ℕ → ℕ → M ℕ
  gl_get_tex_parameteriv_wrapper target pname params =
      call_vendor V "glGetTexParameteriv" (target ∷ pname ∷ params ∷ [])

  unfoldable pub gl_is_framebuffer_wrapper : ℕ → M ℕ
  gl_is_framebuffer_wrapper framebuffer = call_vendor V "glIsFramebuffer" (framebuffer ∷ [])

  unfoldable pub gl_is_renderbuffer_wrapper : ℕ → M ℕ
  gl_is_renderbuffer_wrapper renderbuffer = call_vendor V "glIsRenderbuffer" (renderbuffer ∷ [])

  unfoldable pub gl_is_texture_wrapper : ℕ → M ℕ
  gl_is_texture_wrapper texture = call_vendor V "glIsTexture" (texture ∷ [])

  unfoldable pub gl_renderbuffer_storage_wrapper : ℕ → ℕ → ℕ → ℕ → M ℕ
  gl_renderbuffer_storage_wrapper target internalformat width height =
      call_vendor V "glRenderbufferStorage" (target ∷ internalformat ∷ width ∷ height ∷ [])

  unfoldable pub gl_tex_image_2d_wrapper : ℕ → ℕ → ℕ → ℕ → ℕ → ℕ → ℕ → ℕ → ℕ → M ℕ
  gl_tex_image_2d_wrapper target level internalformat width height border format type pixels =
      call_vendor V "glTexImage2D"
        (target ∷ level ∷ internalformat ∷ width ∷ height ∷ border ∷ format ∷ type ∷ pixels ∷ [])

  unfoldable pub gl_tex_parameterfv_wrapper : ℕ → ℕ → ℕ → M ℕ
  gl_tex_parameterfv_wrapper target pname params =
      call_vendor V "glTexParameterfv" (target ∷ pname ∷ params ∷ [])

  unfoldable pub gl_tex_parameteri_wrapper : ℕ → ℕ → ℕ → M ℕ
  gl_tex_parameteri_wrapper target pname param =
      call_vendor V "glTexParameteri" (target ∷ pname ∷ param ∷ [])

  unfoldable pub gl_tex_parameteriv_wrapper : ℕ → ℕ → ℕ → M ℕ
  gl_tex_parameteriv_wrapper target pname params =
      call_vendor V "glTexParameteriv" (target ∷ pname ∷ params ∷ [])

  unfoldable pub gl_tex_sub_image_2d_wrapper : ℕ → ℕ → ℕ → ℕ → ℕ → ℕ → ℕ → ℕ → ℕ → M ℕ
  gl_tex_sub_image_2d_wrapper target level xoffset yoffset width height format type pixels =
      call_vendor V "glTexSubImage2D"
        (target ∷ level ∷ xoffset ∷ yoffset ∷ width ∷ height ∷ format ∷ type ∷ pixels ∷ [])

  unfoldable pub gl_tex_parameterf : ℕ → ℕ → ℕ → M ℕ
  gl_tex_parameterf target pname param =
      call_vendor V "glTexParameterf" (target ∷ pname ∷ param ∷ [])
