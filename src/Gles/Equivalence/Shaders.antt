-- ===== src/Gles/Equivalence/Shaders.antt =====
-- The functions on shaders and programs, with the names and the arguments that they are to hand on.
use Prim.Native.String.{String}
use fake_libc.Common.{ℕ, ◌≢◌, refl, [], ◌∷◌, Option}
use fake_libc.Gles.{Vendor, before_constructor, init_androidglesv2}
use fake_libc.Gles.Loading.{Agrees, loaded-Agrees}
use fake_libc.Gles.Shaders.{
  gl_attach_shader_wrapper, gl_compile_shader_wrapper, gl_create_program_wrapper,
  gl_create_shader_wrapper, gl_delete_program_wrapper, gl_delete_shader_wrapper,
  gl_detach_shader_wrapper, gl_get_attached_shaders_wrapper, gl_get_programiv_wrapper,
  gl_get_program_info_log_wrapper, gl_get_shaderiv_wrapper, gl_get_shader_info_log_wrapper,
  gl_get_shader_precision_format_wrapper, gl_get_shader_source_wrapper, gl_is_program_wrapper,
  gl_is_shader_wrapper, gl_link_program_wrapper, gl_release_shader_compiler_wrapper,
  gl_shader_binary_wrapper, gl_shader_source_wrapper, gl_use_program_wrapper,
  gl_validate_program_wrapper,
}

module _ (V : Vendor) (env : Option String) where
  abbrev pub SoundShaders : (a b c d e : ℕ) → Type 0
  SoundShaders a b c d e =
      (Agrees V env "glAttachShader" (a ∷ b ∷ []) (gl_attach_shader_wrapper V a b))
      × (Agrees V env "glCompileShader" (a ∷ []) (gl_compile_shader_wrapper V a))
      × (Agrees V env "glCreateProgram" [] (gl_create_program_wrapper V))
      × (Agrees V env "glCreateShader" (a ∷ []) (gl_create_shader_wrapper V a))
      × (Agrees V env "glDeleteProgram" (a ∷ []) (gl_delete_program_wrapper V a))
      × (Agrees V env "glDeleteShader" (a ∷ []) (gl_delete_shader_wrapper V a))
      × (Agrees V env "glDetachShader" (a ∷ b ∷ []) (gl_detach_shader_wrapper V a b))
      × (Agrees V env "glGetAttachedShaders" (a ∷ b ∷ c ∷ d ∷ [])
          (gl_get_attached_shaders_wrapper V a b c d))
      × (Agrees V env "glGetProgramiv" (a ∷ b ∷ c ∷ []) (gl_get_programiv_wrapper V a b c))
      × (Agrees V env "glGetProgramInfoLog" (a ∷ b ∷ c ∷ d ∷ [])
          (gl_get_program_info_log_wrapper V a b c d))
      × (Agrees V env "glGetShaderiv" (a ∷ b ∷ c ∷ []) (gl_get_shaderiv_wrapper V a b c))
      × (Agrees V env "glGetShaderInfoLog" (a ∷ b ∷ c ∷ d ∷ [])
          (gl_get_shader_info_log_wrapper V a b c d))
      × (Agrees V env "glGetShaderPrecisionFormat" (a ∷ b ∷ c ∷ d ∷ [])
          (gl_get_shader_precision_format_wrapper V a b c d))
      × (Agrees V env "glGetShaderSource" (a ∷ b ∷ c ∷ d ∷ [])
          (gl_get_shader_source_wrapper V a b c d))
      × (Agrees V env "glIsProgram" (a ∷ []) (gl_is_program_wrapper V a))
      × (Agrees V env "glIsShader" (a ∷ []) (gl_is_shader_wrapper V a))
      × (Agrees V env "glLinkProgram" (a ∷ []) (gl_link_program_wrapper V a))
      × (Agrees V env "glReleaseShaderCompiler" [] (gl_release_shader_compiler_wrapper V))
      × (Agrees V env "glShaderBinary" (a ∷ b ∷ c ∷ d ∷ e ∷ [])
          (gl_shader_binary_wrapper V a b c d e))
      × (Agrees V env "glShaderSource" (a ∷ b ∷ c ∷ d ∷ []) (gl_shader_source_wrapper V a b c d))
      × (Agrees V env "glUseProgram" (a ∷ []) (gl_use_program_wrapper V a))
      × (Agrees V env "glValidateProgram" (a ∷ []) (gl_validate_program_wrapper V a))

  pub shaders :
      (nz : (init_androidglesv2 V env before_constructor).libglesv2 ≢ 0) (a b c d e : ℕ)
      → SoundShaders a b c d e
  unfolding gl_attach_shader_wrapper gl_compile_shader_wrapper gl_create_program_wrapper
      gl_create_shader_wrapper gl_delete_program_wrapper gl_delete_shader_wrapper
      gl_detach_shader_wrapper gl_get_attached_shaders_wrapper gl_get_programiv_wrapper
      gl_get_program_info_log_wrapper gl_get_shaderiv_wrapper gl_get_shader_info_log_wrapper
      gl_get_shader_precision_format_wrapper gl_get_shader_source_wrapper gl_is_program_wrapper
      gl_is_shader_wrapper gl_link_program_wrapper gl_release_shader_compiler_wrapper
      gl_shader_binary_wrapper gl_shader_source_wrapper gl_use_program_wrapper
      gl_validate_program_wrapper
  shaders nz a b c d e = (
    loaded-Agrees V env nz "glAttachShader" (a ∷ b ∷ []) refl,
    loaded-Agrees V env nz "glCompileShader" (a ∷ []) refl,
    loaded-Agrees V env nz "glCreateProgram" [] refl,
    loaded-Agrees V env nz "glCreateShader" (a ∷ []) refl,
    loaded-Agrees V env nz "glDeleteProgram" (a ∷ []) refl,
    loaded-Agrees V env nz "glDeleteShader" (a ∷ []) refl,
    loaded-Agrees V env nz "glDetachShader" (a ∷ b ∷ []) refl,
    loaded-Agrees V env nz "glGetAttachedShaders" (a ∷ b ∷ c ∷ d ∷ []) refl,
    loaded-Agrees V env nz "glGetProgramiv" (a ∷ b ∷ c ∷ []) refl,
    loaded-Agrees V env nz "glGetProgramInfoLog" (a ∷ b ∷ c ∷ d ∷ []) refl,
    loaded-Agrees V env nz "glGetShaderiv" (a ∷ b ∷ c ∷ []) refl,
    loaded-Agrees V env nz "glGetShaderInfoLog" (a ∷ b ∷ c ∷ d ∷ []) refl,
    loaded-Agrees V env nz "glGetShaderPrecisionFormat" (a ∷ b ∷ c ∷ d ∷ []) refl,
    loaded-Agrees V env nz "glGetShaderSource" (a ∷ b ∷ c ∷ d ∷ []) refl,
    loaded-Agrees V env nz "glIsProgram" (a ∷ []) refl,
    loaded-Agrees V env nz "glIsShader" (a ∷ []) refl,
    loaded-Agrees V env nz "glLinkProgram" (a ∷ []) refl,
    loaded-Agrees V env nz "glReleaseShaderCompiler" [] refl,
    loaded-Agrees V env nz "glShaderBinary" (a ∷ b ∷ c ∷ d ∷ e ∷ []) refl,
    loaded-Agrees V env nz "glShaderSource" (a ∷ b ∷ c ∷ d ∷ []) refl,
    loaded-Agrees V env nz "glUseProgram" (a ∷ []) refl,
    loaded-Agrees V env nz "glValidateProgram" (a ∷ []) refl,
  )
