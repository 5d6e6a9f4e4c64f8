-- ===== src/Gles/Equivalence/Images.antt =====
-- The functions on textures, frame buffers and render buffers, with the names and the arguments that they are to hand on.
use Prim.Native.String.{String}
use fake_libc.Common.{ℕ, ◌≢◌, refl, [], ◌∷◌, Option}
use fake_libc.Gles.{Vendor, before_constructor, init_androidglesv2}
use fake_libc.Gles.Loading.{Agrees, loaded-Agrees, Calls, loaded-Calls}
use fake_libc.Gles.Images.{
  gl_active_texture_wrapper, gl_bind_framebuffer_wrapper, gl_bind_renderbuffer_wrapper,
  gl_bind_texture_wrapper, gl_check_framebuffer_status_wrapper, gl_compressed_tex_image_2d_wrapper,
  gl_compressed_tex_sub_image_2d_wrapper, gl_copy_tex_image_2d_wrapper,
  gl_copy_tex_sub_image_2d_wrapper, gl_delete_framebuffers_wrapper, gl_delete_renderbuffers_wrapper,
  gl_delete_textures_wrapper, gl_framebuffer_renderbuffer_wrapper,
  gl_framebuffer_texture_2d_wrapper, gl_gen_framebuffers_wrapper, gl_gen_renderbuffers_wrapper,
  gl_gen_textures_wrapper, gl_get_framebuffer_attachment_parameteriv_wrapper,
  gl_get_renderbuffer_parameteriv_wrapper, gl_get_tex_parameterfv_wrapper,
  gl_get_tex_parameteriv_wrapper, gl_is_framebuffer_wrapper, gl_is_renderbuffer_wrapper,
  gl_is_texture_wrapper, gl_renderbuffer_storage_wrapper, gl_tex_image_2d_wrapper,
  gl_tex_parameterfv_wrapper, gl_tex_parameteri_wrapper, gl_tex_parameteriv_wrapper,
  gl_tex_sub_image_2d_wrapper, gl_tex_parameterf,
}

module _ (V : Vendor) (env : Option String) where
  abbrev pub SoundImages : (a b c d e f g h i : ℕ) → Type 0
  SoundImages a b c d e f g h i =
      (Agrees V env "glActiveTexture" (a ∷ []) (gl_active_texture_wrapper V a))
      × (Agrees V env "glBindFramebuffer" (a ∷ b ∷ []) (gl_bind_framebuffer_wrapper V a b))
      × (Agrees V env "glBindRenderbuffer" (a ∷ b ∷ []) (gl_bind_renderbuffer_wrapper V a b))
      × (Agrees V env "glBindTexture" (a ∷ b ∷ []) (gl_bind_texture_wrapper V a b))
      × (Agrees V env "glCheckFramebufferStatus" (a ∷ []) (gl_check_framebuffer_status_wrapper V a))
      × (Agrees V env "glCompressedTexImage2D" (a ∷ b ∷ c ∷ d ∷ e ∷ f ∷ g ∷ h ∷ [])
          (gl_compressed_tex_image_2d_wrapper V a b c d e f g h))
      × (Agrees V env "glCompressedTexSubImage2D" (a ∷ b ∷ c ∷ d ∷ e ∷ f ∷ g ∷ h ∷ i ∷ [])
          (gl_compressed_tex_sub_image_2d_wrapper V a b c d e f g h i))
      × (Agrees V env "glCopyTexImage2D" (a ∷ b ∷ c ∷ d ∷ e ∷ f ∷ g ∷ h ∷ [])
          (gl_copy_tex_image_2d_wrapper V a b c d e f g h))
      × (Agrees V env "glCopyTexSubImage2D" (a ∷ b ∷ c ∷ d ∷ e ∷ f ∷ g ∷ h ∷ [])
          (gl_copy_tex_sub_image_2d_wrapper V a b c d e f g h))
      × (Agrees V env "glDeleteFramebuffers" (a ∷ b ∷ []) (gl_delete_framebuffers_wrapper V a b))
      × (Agrees V env "glDeleteRenderbuffers" (a ∷ b ∷ []) (gl_delete_renderbuffers_wrapper V a b))
      × (Agrees V env "glDeleteTextures" (a ∷ b ∷ []) (gl_delete_textures_wrapper V a b))
      × (Agrees V env "glFramebufferRenderbuffer" (a ∷ b ∷ c ∷ d ∷ [])
          (gl_framebuffer_renderbuffer_wrapper V a b c d))
      × (Agrees V env "glFramebufferTexture2D" (a ∷ b ∷ c ∷ d ∷ e ∷ [])
          (gl_framebuffer_texture_2d_wrapper V a b c d e))
      × (Agrees V env "glGenFramebuffers" (a ∷ b ∷ []) (gl_gen_framebuffers_wrapper V a b))
      × (Agrees V env "glGenRenderbuffers" (a ∷ b ∷ []) (gl_gen_renderbuffers_wrapper V a b))
      × (Agrees V env "glGenTextures" (a ∷ b ∷ []) (gl_gen_textures_wrapper V a b))
      × (Agrees V env "glGetFramebufferAttachmentParameteriv" (a ∷ b ∷ c ∷ d ∷ [])
          (gl_get_framebuffer_attachment_parameteriv_wrapper V a b c d))
      × (Agrees V env "glGetRenderbufferParameteriv" (a ∷ b ∷ c ∷ [])
          (gl_get_renderbuffer_parameteriv_wrapper V a b c))
      × (Agrees V env "glGetTexParameterfv" (a ∷ b ∷ c ∷ [])
          (gl_get_tex_parameterfv_wrapper V a b c))
      × (Agrees V env "glGetTexParameteriv" (a ∷ b ∷ c ∷ [])
          (gl_get_tex_parameteriv_wrapper V a b c))
      × (Agrees V env "glIsFramebuffer" (a ∷ []) (gl_is_framebuffer_wrapper V a))
      × (Agrees V env "glIsRenderbuffer" (a ∷ []) (gl_is_renderbuffer_wrapper V a))
      × (Agrees V env "glIsTexture" (a ∷ []) (gl_is_texture_wrapper V a))
      × (Agrees V env "glRenderbufferStorage" (a ∷ b ∷ c ∷ d ∷ [])
          (gl_renderbuffer_storage_wrapper V a b c d))
      × (Agrees V env "glTexImage2D" (a ∷ b ∷ c ∷ d ∷ e ∷ f ∷ g ∷ h ∷ i ∷ [])
          (gl_tex_image_2d_wrapper V a b c d e f g h i))
      × (Agrees V env "glTexParameterfv" (a ∷ b ∷ c ∷ []) (gl_tex_parameterfv_wrapper V a b c))
      × (Agrees V env "glTexParameteri" (a ∷ b ∷ c ∷ []) (gl_tex_parameteri_wrapper V a b c))
      × (Agrees V env "glTexParameteriv" (a ∷ b ∷ c ∷ []) (gl_tex_parameteriv_wrapper V a b c))
      × (Agrees V env "glTexSubImage2D" (a ∷ b ∷ c ∷ d ∷ e ∷ f ∷ g ∷ h ∷ i ∷ [])
          (gl_tex_sub_image_2d_wrapper V a b c d e f g h i))
      × (Calls V env "glTexParameterf" (a ∷ b ∷ c ∷ []) (gl_tex_parameterf V a b c))

  pub images :
      (nz : (init_androidglesv2 V env before_constructor).libglesv2 ≢ 0) (a b c d e f g h i : ℕ)
      → SoundImages a b c d e f g h i
  unfolding gl_active_texture_wrapper gl_bind_framebuffer_wrapper gl_bind_renderbuffer_wrapper
      gl_bind_texture_wrapper gl_check_framebuffer_status_wrapper gl_compressed_tex_image_2d_wrapper
      gl_compressed_tex_sub_image_2d_wrapper gl_copy_tex_image_2d_wrapper
      gl_copy_tex_sub_image_2d_wrapper gl_delete_framebuffers_wrapper
      gl_delete_renderbuffers_wrapper gl_delete_textures_wrapper gl_framebuffer_renderbuffer_wrapper
      gl_framebuffer_texture_2d_wrapper gl_gen_framebuffers_wrapper gl_gen_renderbuffers_wrapper
      gl_gen_textures_wrapper gl_get_framebuffer_attachment_parameteriv_wrapper
      gl_get_renderbuffer_parameteriv_wrapper gl_get_tex_parameterfv_wrapper
      gl_get_tex_parameteriv_wrapper gl_is_framebuffer_wrapper gl_is_renderbuffer_wrapper
      gl_is_texture_wrapper gl_renderbuffer_storage_wrapper gl_tex_image_2d_wrapper
      gl_tex_parameterfv_wrapper gl_tex_parameteri_wrapper gl_tex_parameteriv_wrapper
      gl_tex_sub_image_2d_wrapper gl_tex_parameterf
  images nz a b c d e f g h i = (
    loaded-Agrees V env nz "glActiveTexture" (a ∷ []) refl,
    loaded-Agrees V env nz "glBindFramebuffer" (a ∷ b ∷ []) refl,
    loaded-Agrees V env nz "glBindRenderbuffer" (a ∷ b ∷ []) refl,
    loaded-Agrees V env nz "glBindTexture" (a ∷ b ∷ []) refl,
    loaded-Agrees V env nz "glCheckFramebufferStatus" (a ∷ []) refl,
    loaded-Agrees V env nz "glCompressedTexImage2D" (a ∷ b ∷ c ∷ d ∷ e ∷ f ∷ g ∷ h ∷ []) refl,
    loaded-Agrees V env nz "glCompressedTexSubImage2D" (a ∷ b ∷ c ∷ d ∷ e ∷ f ∷ g ∷ h ∷ i ∷ [])
        refl,
    loaded-Agrees V env nz "glCopyTexImage2D" (a ∷ b ∷ c ∷ d ∷ e ∷ f ∷ g ∷ h ∷ []) refl,
    loaded-Agrees V env nz "glCopyTexSubImage2D" (a ∷ b ∷ c ∷ d ∷ e ∷ f ∷ g ∷ h ∷ []) refl,
    loaded-Agrees V env nz "glDeleteFramebuffers" (a ∷ b ∷ []) refl,
    loaded-Agrees V env nz "glDeleteRenderbuffers" (a ∷ b ∷ []) refl,
    loaded-Agrees V env nz "glDeleteTextures" (a ∷ b ∷ []) refl,
    loaded-Agrees V env nz "glFramebufferRenderbuffer" (a ∷ b ∷ c ∷ d ∷ []) refl,
    loaded-Agrees V env nz "glFramebufferTexture2D" (a ∷ b ∷ c ∷ d ∷ e ∷ []) refl,
    loaded-Agrees V env nz "glGenFramebuffers" (a ∷ b ∷ []) refl,
    loaded-Agrees V env nz "glGenRenderbuffers" (a ∷ b ∷ []) refl,
    loaded-Agrees V env nz "glGenTextures" (a ∷ b ∷ []) refl,
    loaded-Agrees V env nz "glGetFramebufferAttachmentParameteriv" (a ∷ b ∷ c ∷ d ∷ []) refl,
    loaded-Agrees V env nz "glGetRenderbufferParameteriv" (a ∷ b ∷ c ∷ []) refl,
    loaded-Agrees V env nz "glGetTexParameterfv" (a ∷ b ∷ c ∷ []) refl,
    loaded-Agrees V env nz "glGetTexParameteriv" (a ∷ b ∷ c ∷ []) refl,
    loaded-Agrees V env nz "glIsFramebuffer" (a ∷ []) refl,
    loaded-Agrees V env nz "glIsRenderbuffer" (a ∷ []) refl,
    loaded-Agrees V env nz "glIsTexture" (a ∷ []) refl,
    loaded-Agrees V env nz "glRenderbufferStorage" (a ∷ b ∷ c ∷ d ∷ []) refl,
    loaded-Agrees V env nz "glTexImage2D" (a ∷ b ∷ c ∷ d ∷ e ∷ f ∷ g ∷ h ∷ i ∷ []) refl,
    loaded-Agrees V env nz "glTexParameterfv" (a ∷ b ∷ c ∷ []) refl,
    loaded-Agrees V env nz "glTexParameteri" (a ∷ b ∷ c ∷ []) refl,
    loaded-Agrees V env nz "glTexParameteriv" (a ∷ b ∷ c ∷ []) refl,
    loaded-Agrees V env nz "glTexSubImage2D" (a ∷ b ∷ c ∷ d ∷ e ∷ f ∷ g ∷ h ∷ i ∷ []) refl,
    loaded-Calls V env nz "glTexParameterf" (a ∷ b ∷ c ∷ []) refl,
  )
