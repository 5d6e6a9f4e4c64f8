-- ===== src/Gles/Uniforms.antt =====
-- The functions of libGLESv2/glesv2.c on uniforms of programs: each calls the vendor's function of its name
-- through its pointer.
use fake_libc.Common.{ℕ, [], ◌∷◌}
use fake_libc.Gles.{Vendor, M, call_vendor}

module _ (V : Vendor) where
  unfoldable pub gl_get_active_uniform_wrapper : ℕ → ℕ → ℕ → ℕ → ℕ → ℕ → ℕ → M ℕ
  gl_get_active_uniform_wrapper program index bufsize length size type name =
      call_vendor V "glGetActiveUniform"
        (program ∷ index ∷ bufsize ∷ length ∷ size ∷ type ∷ name ∷ [])

  unfoldable pub gl_get_uniformfv_wrapper : ℕ → ℕ → ℕ → M ℕ
  gl_get_uniformfv_wrapper program location params =
      call_vendor V "glGetUniformfv" (program ∷ location ∷ params ∷ [])

  unfoldable pub gl_get_uniformiv_wrapper : ℕ → ℕ → ℕ → M ℕ
  gl_get_uniformiv_wrapper program location params =
      call_vendor V "glGetUniformiv" (program ∷ location ∷ params ∷ [])

  unfoldable pub gl_get_uniform_location_wrapper : ℕ → ℕ → M ℕ
  gl_get_uniform_location_wrapper program name =
      call_vendor V "glGetUniformLocation" (program ∷ name ∷ [])

  unfoldable pub gl_uniform_1fv_wrapper : ℕ → ℕ → ℕ → M ℕ
  gl_uniform_1fv_wrapper location count v = call_vendor V "glUniform1fv" (location ∷ count ∷ v ∷ [])

  unfoldable pub gl_uniform_1i_wrapper : ℕ → ℕ → M ℕ
  gl_uniform_1i_wrapper location x = call_vendor V "glUniform1i" (location ∷ x ∷ [])

  unfoldable pub gl_uniform_1iv_wrapper : ℕ → ℕ → ℕ → M ℕ
  gl_uniform_1iv_wrapper location count v = call_vendor V "glUniform1iv" (location ∷ count ∷ v ∷ [])

  unfoldable pub gl_uniform_2fv_wrapper : ℕ → ℕ → ℕ → M ℕ
  gl_uniform_2fv_wrapper location count v = call_vendor V "glUniform2fv" (location ∷ count ∷ v ∷ [])

  unfoldable pub gl_uniform_2i_wrapper : ℕ → ℕ → ℕ → M ℕ
  gl_uniform_2i_wrapper location x y = call_vendor V "glUniform2i" (location ∷ x ∷ y ∷ [])

  unfoldable pub gl_uniform_2iv_wrapper : ℕ → ℕ → ℕ → M ℕ
  gl_uniform_2iv_wrapper location count v = call_vendor V "glUniform2iv" (location ∷ count ∷ v ∷ [])

  unfoldable pub gl_uniform_3fv_wrapper : ℕ → ℕ → ℕ → M ℕ
  gl_uniform_3fv_wrapper location count v = call_vendor V "glUniform3fv" (location ∷ count ∷ v ∷ [])

  unfoldable pub gl_uniform_3i_wrapper : ℕ → ℕ → ℕ → ℕ → M ℕ
  gl_uniform_3i_wrapper location x y z = call_vendor V "glUniform3i" (location ∷ x ∷ y ∷ z ∷ [])

  unfoldable pub gl_uniform_3iv_wrapper : ℕ → ℕ → ℕ → M ℕ
  gl_uniform_3iv_wrapper location count v = call_vendor V "glUniform3iv" (location ∷ count ∷ v ∷ [])

  unfoldable pub gl_uniform_4fv_wrapper : ℕ → ℕ → ℕ → M ℕ
  gl_uniform_4fv_wrapper location count v = call_vendor V "glUniform4fv" (location ∷ count ∷ v ∷ [])

  unfoldable pub gl_uniform_4i_wrapper : ℕ → ℕ → ℕ → ℕ → ℕ → M ℕ
  gl_uniform_4i_wrapper location x y z w =
      call_vendor V "glUniform4i" (location ∷ x ∷ y ∷ z ∷ w ∷ [])

  unfoldable pub gl_uniform_4iv_wrapper : ℕ → ℕ → ℕ → M ℕ
  gl_uniform_4iv_wrapper location count v = call_vendor V "glUniform4iv" (location ∷ count ∷ v ∷ [])

  unfoldable pub gl_uniform_matrix_2fv_wrapper : ℕ → ℕ → ℕ → ℕ → M ℕ
  gl_uniform_matrix_2fv_wrapper location count transpose value =
      call_vendor V "glUniformMatrix2fv" (location ∷ count ∷ transpose ∷ value ∷ [])

  unfoldable pub gl_uniform_matrix_3fv_wrapper : ℕ → ℕ → ℕ → ℕ → M ℕ
  gl_uniform_matrix_3fv_wrapper location count transpose value =
      call_vendor V "glUniformMatrix3fv" (location ∷ count ∷ transpose ∷ value ∷ [])

  unfoldable pub gl_uniform_matrix_4fv_wrapper : ℕ → ℕ → ℕ → ℕ → M ℕ
  gl_uniform_matrix_4fv_wrapper location count transpose value =
      call_vendor V "glUniformMatrix4fv" (location ∷ count ∷ transpose ∷ value ∷ [])

  unfoldable pub gl_uniform_4f : ℕ → ℕ → ℕ → ℕ → ℕ → M ℕ
  gl_uniform_4f location x y z w = call_vendor V "glUniform4f" (location ∷ x ∷ y ∷ z ∷ w ∷ [])

  unfoldable pub gl_uniform_3f : ℕ → ℕ → ℕ → ℕ → M ℕ
  gl_uniform_3f location x y z = call_vendor V "glUniform3f" (location ∷ x ∷ y ∷ z ∷ [])

  unfoldable pub gl_uniform_2f : ℕ → ℕ → ℕ → M ℕ
  gl_uniform_2f location x y = call_vendor V "glUniform2f" (location ∷ x ∷ y ∷ [])

  unfoldable pub gl_uniform_1f : ℕ → ℕ → M ℕ
  gl_uniform_1f location x = call_vendor V "glUniform1f" (location ∷ x ∷ [])
