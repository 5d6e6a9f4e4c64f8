-- ===== src/Gles/Attributes.antt =====
-- The functions of libGLESv2/glesv2.c on vertex attributes: each calls the vendor's function of its name
-- through its pointer.
use fake_libc.Common.{ℕ, [], ◌∷◌}
use fake_libc.Gles.{Vendor, M, call_vendor}

module _ (V : Vendor) where
  unfoldable pub gl_bind_attrib_location_wrapper : ℕ → ℕ → ℕ → M ℕ
  gl_bind_attrib_location_wrapper program index name =
      call_vendor V "glBindAttribLocation" (program ∷ index ∷ name ∷ [])

  unfoldable pub gl_disable_vertex_attrib_array_wrapper : ℕ → M ℕ
  gl_disable_vertex_attrib_array_wrapper index =
      call_vendor V "glDisableVertexAttribArray" (index ∷ [])

  unfoldable pub gl_enable_vertex_attrib_array_wrapper : ℕ → M ℕ
  gl_enable_vertex_attrib_array_wrapper index =
      call_vendor V "glEnableVertexAttribArray" (index ∷ [])

  unfoldable pub gl_get_active_attrib_wrapper : ℕ → ℕ → ℕ → ℕ → ℕ → ℕ → ℕ → M ℕ
  gl_get_active_attrib_wrapper program index bufsize length size type name =
      call_vendor V "glGetActiveAttrib"
        (program ∷ index ∷ bufsize ∷ length ∷ size ∷ type ∷ name ∷ [])

  unfoldable pub gl_get_attrib_location_wrapper : ℕ → ℕ → M ℕ
  gl_get_attrib_location_wrapper program name =
      call_vendor V "glGetAttribLocation" (program ∷ name ∷ [])

  unfoldable pub gl_get_vertex_attribfv_wrapper : ℕ → ℕ → ℕ → M ℕ
  gl_get_vertex_attribfv_wrapper index pname params =
      call_vendor V "glGetVertexAttribfv" (index ∷ pname ∷ params ∷ [])

  unfoldable pub gl_get_vertex_attribiv_wrapper : ℕ → ℕ → ℕ → M ℕ
  gl_get_vertex_attribiv_wrapper index pname params =
      call_vendor V "glGetVertexAttribiv" (index ∷ pname ∷ params ∷ [])

  unfoldable pub gl_get_vertex_attrib_pointerv_wrapper : ℕ → ℕ → ℕ → M ℕ
  gl_get_vertex_attrib_pointerv_wrapper index pname pointer =
      call_vendor V "glGetVertexAttribPointerv" (index ∷ pname ∷ pointer ∷ [])

  unfoldable pub gl_vertex_attrib_1fv_wrapper : ℕ → ℕ → M ℕ
  gl_vertex_attrib_1fv_wrapper indx values = call_vendor V "glVertexAttrib1fv" (indx ∷ values ∷ [])

  unfoldable pub gl_vertex_attrib_2fv_wrapper : ℕ → ℕ → M ℕ
  gl_vertex_attrib_2fv_wrapper indx values = call_vendor V "glVertexAttrib2fv" (indx ∷ values ∷ [])

  unfoldable pub gl_vertex_attrib_3fv_wrapper : ℕ → ℕ → M ℕ
  gl_vertex_attrib_3fv_wrapper indx values = call_vendor V "glVertexAttrib3fv" (indx ∷ values ∷ [])

  unfoldable pub gl_vertex_attrib_4fv_wrapper : ℕ → ℕ → M ℕ
  gl_vertex_attrib_4fv_wrapper indx values = call_vendor V "glVertexAttrib4fv" (indx ∷ values ∷ [])

  unfoldable pub gl_vertex_attrib_pointer_wrapper : ℕ → ℕ → ℕ → ℕ → ℕ → ℕ → M ℕ
  gl_vertex_attrib_pointer_wrapper indx size type normalized stride ptr =
      call_vendor V "glVertexAttribPointer" (indx ∷ size ∷ type ∷ normalized ∷ stride ∷ ptr ∷ [])

  unfoldable pub gl_vertex_attrib_4f : ℕ → ℕ → ℕ → ℕ → ℕ → M ℕ
  gl_vertex_attrib_4f indx x y z w = call_vendor V "glVertexAttrib4f" (indx ∷ x ∷ y ∷ z ∷ w ∷ [])

  unfoldable pub gl_vertex_attrib_2f : ℕ → ℕ → ℕ → M ℕ
  gl_vertex_attrib_2f indx x y = call_vendor V "glVertexAttrib2f" (indx ∷ x ∷ y ∷ [])

  unfoldable pub gl_vertex_attrib_3f : ℕ → ℕ → ℕ → ℕ → M ℕ
  gl_vertex_attrib_3f indx x y z = call_vendor V "glVertexAttrib3f" (indx ∷ x ∷ y ∷ z ∷ [])

  unfoldable pub gl_vertex_attrib_1f : ℕ → ℕ → M ℕ
  gl_vertex_attrib_1f indx x = call_vendor V "glVertexAttrib1f" (indx ∷ x ∷ [])
