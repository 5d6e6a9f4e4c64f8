-- ===== src/Gles/Shaders.antt =====
-- The functions of libGLESv2/glesv2.c on shaders and programs: each calls the vendor's function of its name
-- through its pointer.
use fake_libc.Common.{ℕ, [], ◌∷◌}
use fake_libc.Gles.{Vendor, M, call_vendor}

module _ (V : Vendor) where
  unfoldable pub gl_attach_shader_wrapper : ℕ → ℕ → M ℕ
  gl_attach_shader_wrapper program shader = call_vendor V "glAttachShader" (program ∷ shader ∷ [])

  unfoldable pub gl_compile_shader_wrapper : ℕ → M ℕ
  gl_compile_shader_wrapper shader = call_vendor V "glCompileShader" (shader ∷ [])

  unfoldable pub gl_create_program_wrapper : M ℕ
  gl_create_program_wrapper = call_vendor V "glCreateProgram" []

  unfoldable pub gl_create_shader_wrapper : ℕ → M ℕ
  gl_create_shader_wrapper type = call_vendor V "glCreateShader" (type ∷ [])

  unfoldable pub gl_delete_program_wrapper : ℕ → M ℕ
  gl_delete_program_wrapper program = call_vendor V "glDeleteProgram" (program ∷ [])

  unfoldable pub gl_delete_shader_wrapper : ℕ → M ℕ
  gl_delete_shader_wrapper shader = call_vendor V "glDeleteShader" (shader ∷ [])

  unfoldable pub gl_detach_shader_wrapper : ℕ → ℕ → M ℕ
  gl_detach_shader_wrapper program shader = call_vendor V "glDetachShader" (program ∷ shader ∷ [])

  unfoldable pub gl_get_attached_shaders_wrapper : ℕ → ℕ → ℕ → ℕ → M ℕ
  gl_get_attached_shaders_wrapper program maxcount count shaders =
      call_vendor V "glGetAttachedShaders" (program ∷ maxcount ∷ count ∷ shaders ∷ [])

  unfoldable pub gl_get_programiv_wrapper : ℕ → ℕ → ℕ → M ℕ
  gl_get_programiv_wrapper program pname params =
      call_vendor V "glGetProgramiv" (program ∷ pname ∷ params ∷ [])

  unfoldable pub gl_get_program_info_log_wrapper : ℕ → ℕ → ℕ → ℕ → M ℕ
  gl_get_program_info_log_wrapper program bufsize length infolog =
      call_vendor V "glGetProgramInfoLog" (program ∷ bufsize ∷ length ∷ infolog ∷ [])

  unfoldable pub gl_get_shaderiv_wrapper : ℕ → ℕ → ℕ → M ℕ
  gl_get_shaderiv_wrapper shader pname params =
      call_vendor V "glGetShaderiv" (shader ∷ pname ∷ params ∷ [])

  unfoldable pub gl_get_shader_info_log_wrapper : ℕ → ℕ → ℕ → ℕ → M ℕ
  gl_get_shader_info_log_wrapper shader bufsize length infolog =
      call_vendor V "glGetShaderInfoLog" (shader ∷ bufsize ∷ length ∷ infolog ∷ [])

  unfoldable pub gl_get_shader_precision_format_wrapper : ℕ → ℕ → ℕ → ℕ → M ℕ
  gl_get_shader_precision_format_wrapper shadertype precisiontype range precision =
      call_vendor V "glGetShaderPrecisionFormat"
        (shadertype ∷ precisiontype ∷ range ∷ precision ∷ [])

  unfoldable pub gl_get_shader_source_wrapper : ℕ → ℕ → ℕ → ℕ → M ℕ
  gl_get_shader_source_wrapper shader bufsize length source =
      call_vendor V "glGetShaderSource" (shader ∷ bufsize ∷ length ∷ source ∷ [])

  unfoldable pub gl_is_program_wrapper : ℕ → M ℕ
  gl_is_program_wrapper program = call_vendor V "glIsProgram" (program ∷ [])

  unfoldable pub gl_is_shader_wrapper : ℕ → M ℕ
  gl_is_shader_wrapper shader = call_vendor V "glIsShader" (shader ∷ [])

  unfoldable pub gl_link_program_wrapper : ℕ → M ℕ
  gl_link_program_wrapper program = call_vendor V "glLinkProgram" (program ∷ [])

  unfoldable pub gl_release_shader_compiler_wrapper : M ℕ
  gl_release_shader_compiler_wrapper = call_vendor V "glReleaseShaderCompiler" []

  unfoldable pub gl_shader_binary_wrapper : ℕ → ℕ → ℕ → ℕ → ℕ → M ℕ
  gl_shader_binary_wrapper n shaders binaryformat binary length =
      call_vendor V "glShaderBinary" (n ∷ shaders ∷ binaryformat ∷ binary ∷ length ∷ [])

  unfoldable pub gl_shader_source_wrapper : ℕ → ℕ → ℕ → ℕ → M ℕ
  gl_shader_source_wrapper shader count string length =
      call_vendor V "glShaderSource" (shader ∷ count ∷ string ∷ length ∷ [])

  unfoldable pub gl_use_program_wrapper : ℕ → M ℕ
  gl_use_program_wrapper program = call_vendor V "glUseProgram" (program ∷ [])

  unfoldable pub gl_validate_program_wrapper : ℕ → M ℕ
  gl_validate_program_wrapper program = call_vendor V "glValidateProgram" (program ∷ [])
