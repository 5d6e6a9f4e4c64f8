-- ===== src/Gles/Equivalence/Uniforms.antt =====
-- The functions on uniforms of programs, with the names and the arguments that they are to hand on.
use Prim.Native.String.{String}
use fake_libc.Common.{ℕ, ◌≢◌, refl, [], ◌∷◌, Option}
use fake_libc.Gles.{Vendor, before_constructor, init_androidglesv2}
use fake_libc.Gles.Loading.{Agrees, loaded-Agrees, Calls, loaded-Calls}
use fake_libc.Gles.Uniforms.{
  gl_get_active_uniform_wrapper, gl_get_uniformfv_wrapper, gl_get_uniformiv_wrapper,
  gl_get_uniform_location_wrapper, gl_uniform_1fv_wrapper, gl_uniform_1i_wrapper,
  gl_uniform_1iv_wrapper, gl_uniform_2fv_wrapper, gl_uniform_2i_wrapper, gl_uniform_2iv_wrapper,
  gl_uniform_3fv_wrapper, gl_uniform_3i_wrapper, gl_uniform_3iv_wrapper, gl_uniform_4fv_wrapper,
  gl_uniform_4i_wrapper, gl_uniform_4iv_wrapper, gl_uniform_matrix_2fv_wrapper,
  gl_uniform_matrix_3fv_wrapper, gl_uniform_matrix_4fv_wrapper, gl_uniform_4f, gl_uniform_3f,
  gl_uniform_2f, gl_uniform_1f,
}

module _ (V : Vendor) (env : Option String) where
  abbrev pub SoundUniforms : (a b c d e f g : ℕ) → Type 0
  SoundUniforms a b c d e f g =
      (Agrees V env "glGetActiveUniform" (a ∷ b ∷ c ∷ d ∷ e ∷ f ∷ g ∷ [])
        (gl_get_active_uniform_wrapper V a b c d e f g))
      × (Agrees V env "glGetUniformfv" (a ∷ b ∷ c ∷ []) (gl_get_uniformfv_wrapper V a b c))
      × (Agrees V env "glGetUniformiv" (a ∷ b ∷ c ∷ []) (gl_get_uniformiv_wrapper V a b c))
      × (Agrees V env "glGetUniformLocation" (a ∷ b ∷ []) (gl_get_uniform_location_wrapper V a b))
      × (Agrees V env "glUniform1fv" (a ∷ b ∷ c ∷ []) (gl_uniform_1fv_wrapper V a b c))
      × (Agrees V env "glUniform1i" (a ∷ b ∷ []) (gl_uniform_1i_wrapper V a b))
      × (Agrees V env "glUniform1iv" (a ∷ b ∷ c ∷ []) (gl_uniform_1iv_wrapper V a b c))
      × (Agrees V env "glUniform2fv" (a ∷ b ∷ c ∷ []) (gl_uniform_2fv_wrapper V a b c))
      × (Agrees V env "glUniform2i" (a ∷ b ∷ c ∷ []) (gl_uniform_2i_wrapper V a b c))
      × (Agrees V env "glUniform2iv" (a ∷ b ∷ c ∷ []) (gl_uniform_2iv_wrapper V a b c))
      × (Agrees V env "glUniform3fv" (a ∷ b ∷ c ∷ []) (gl_uniform_3fv_wrapper V a b c))
      × (Agrees V env "glUniform3i" (a ∷ b ∷ c ∷ d ∷ []) (gl_uniform_3i_wrapper V a b c d))
      × (Agrees V env "glUniform3iv" (a ∷ b ∷ c ∷ []) (gl_uniform_3iv_wrapper V a b c))
      × (Agrees V env "glUniform4fv" (a ∷ b ∷ c ∷ []) (gl_uniform_4fv_wrapper V a b c))
      × (Agrees V env "glUniform4i" (a ∷ b ∷ c ∷ d ∷ e ∷ []) (gl_uniform_4i_wrapper V a b c d e))
      × (Agrees V env "glUniform4iv" (a ∷ b ∷ c ∷ []) (gl_uniform_4iv_wrapper V a b c))
      × (Agrees V env "glUniformMatrix2fv" (a ∷ b ∷ c ∷ d ∷ [])
          (gl_uniform_matrix_2fv_wrapper V a b c d))
      × (Agrees V env "glUniformMatrix3fv" (a ∷ b ∷ c ∷ d ∷ [])
          (gl_uniform_matrix_3fv_wrapper V a b c d))
      × (Agrees V env "glUniformMatrix4fv" (a ∷ b ∷ c ∷ d ∷ [])
          (gl_uniform_matrix_4fv_wrapper V a b c d))
      × (Calls V env "glUniform4f" (a ∷ b ∷ c ∷ d ∷ e ∷ []) (gl_uniform_4f V a b c d e))
      × (Calls V env "glUniform3f" (a ∷ b ∷ c ∷ d ∷ []) (gl_uniform_3f V a b c d))
      × (Calls V env "glUniform2f" (a ∷ b ∷ c ∷ []) (gl_uniform_2f V a b c))
      × (Calls V env "glUniform1f" (a ∷ b ∷ []) (gl_uniform_1f V a b))

  pub uniforms :
      (nz : (init_androidglesv2 V env before_constructor).libglesv2 ≢ 0) (a b c d e f g : ℕ)
      → SoundUniforms a b c d e f g
  unfolding gl_get_active_uniform_wrapper gl_get_uniformfv_wrapper gl_get_uniformiv_wrapper
      gl_get_uniform_location_wrapper gl_uniform_1fv_wrapper gl_uniform_1i_wrapper
      gl_uniform_1iv_wrapper gl_uniform_2fv_wrapper gl_uniform_2i_wrapper gl_uniform_2iv_wrapper
      gl_uniform_3fv_wrapper gl_uniform_3i_wrapper gl_uniform_3iv_wrapper gl_uniform_4fv_wrapper
      gl_uniform_4i_wrapper gl_uniform_4iv_wrapper gl_uniform_matrix_2fv_wrapper
      gl_uniform_matrix_3fv_wrapper gl_uniform_matrix_4fv_wrapper gl_uniform_4f gl_uniform_3f
      gl_uniform_2f gl_uniform_1f
  uniforms nz a b c d e f g = (
    loaded-Agrees V env nz "glGetActiveUniform" (a ∷ b ∷ c ∷ d ∷ e ∷ f ∷ g ∷ []) refl,
    loaded-Agrees V env nz "glGetUniformfv" (a ∷ b ∷ c ∷ []) refl,
    loaded-Agrees V env nz "glGetUniformiv" (a ∷ b ∷ c ∷ []) refl,
    loaded-Agrees V env nz "glGetUniformLocation" (a ∷ b ∷ []) refl,
    loaded-Agrees V env nz "glUniform1fv" (a ∷ b ∷ c ∷ []) refl,
    loaded-Agrees V env nz "glUniform1i" (a ∷ b ∷ []) refl,
    loaded-Agrees V env nz "glUniform1iv" (a ∷ b ∷ c ∷ []) refl,
    loaded-Agrees V env nz "glUniform2fv" (a ∷ b ∷ c ∷ []) refl,
    loaded-Agrees V env nz "glUniform2i" (a ∷ b ∷ c ∷ []) refl,
    loaded-Agrees V env nz "glUniform2iv" (a ∷ b ∷ c ∷ []) refl,
    loaded-Agrees V env nz "glUniform3fv" (a ∷ b ∷ c ∷ []) refl,
    loaded-Agrees V env nz "glUniform3i" (a ∷ b ∷ c ∷ d ∷ []) refl,
    loaded-Agrees V env nz "glUniform3iv" (a ∷ b ∷ c ∷ []) refl,
    loaded-Agrees V env nz "glUniform4fv" (a ∷ b ∷ c ∷ []) refl,
    loaded-Agrees V env nz "glUniform4i" (a ∷ b ∷ c ∷ d ∷ e ∷ []) refl,
    loaded-Agrees V env nz "glUniform4iv" (a ∷ b ∷ c ∷ []) refl,
    loaded-Agrees V env nz "glUniformMatrix2fv" (a ∷ b ∷ c ∷ d ∷ []) refl,
    loaded-Agrees V env nz "glUniformMatrix3fv" (a ∷ b ∷ c ∷ d ∷ []) refl,
    loaded-Agrees V env nz "glUniformMatrix4fv" (a ∷ b ∷ c ∷ d ∷ []) refl,
    loaded-Calls V env nz "glUniform4f" (a ∷ b ∷ c ∷ d ∷ e ∷ []) refl,
    loaded-Calls V env nz "glUniform3f" (a ∷ b ∷ c ∷ d ∷ []) refl,
    loaded-Calls V env nz "glUniform2f" (a ∷ b ∷ c ∷ []) refl,
    loaded-Calls V env nz "glUniform1f" (a ∷ b ∷ []) refl,
  )
