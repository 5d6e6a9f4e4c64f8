-- ===== src/Gles/Drawing.antt =====
-- The functions of libGLESv2/glesv2.c on buffers, the state and drawing: each calls the vendor's function of its name
-- through its pointer.
use fake_libc.Common.{ℕ, [], ◌∷◌}
use fake_libc.Gles.{Vendor, M, call_vendor}

module _ (V : Vendor) where
  unfoldable pub gl_bind_buffer_wrapper : ℕ → ℕ → M ℕ
  gl_bind_buffer_wrapper target buffer = call_vendor V "glBindBuffer" (target ∷ buffer ∷ [])

  unfoldable pub gl_blend_equation_wrapper : ℕ → M ℕ
  gl_blend_equation_wrapper mode = call_vendor V "glBlendEquation" (mode ∷ [])

  unfoldable pub gl_blend_equation_separate_wrapper : ℕ → ℕ → M ℕ
  gl_blend_equation_separate_wrapper mode_rgb mode_alpha =
      call_vendor V "glBlendEquationSeparate" (mode_rgb ∷ mode_alpha ∷ [])

  unfoldable pub gl_blend_func_wrapper : ℕ → ℕ → M ℕ
  gl_blend_func_wrapper sfactor dfactor = call_vendor V "glBlendFunc" (sfactor ∷ dfactor ∷ [])

  unfoldable pub gl_blend_func_separate_wrapper : ℕ → ℕ → ℕ → ℕ → M ℕ
  gl_blend_func_separate_wrapper src_rgb dst_rgb src_alpha dst_alpha =
      call_vendor V "glBlendFuncSeparate" (src_rgb ∷ dst_rgb ∷ src_alpha ∷ dst_alpha ∷ [])

  unfoldable pub gl_buffer_data_wrapper : ℕ → ℕ → ℕ → ℕ → M ℕ
  gl_buffer_data_wrapper target size pixels usage =
      call_vendor V "glBufferData" (target ∷ size ∷ pixels ∷ usage ∷ [])

  unfoldable pub gl_buffer_sub_data_wrapper : ℕ → ℕ → ℕ → ℕ → M ℕ
  gl_buffer_sub_data_wrapper target offset size pixels =
      call_vendor V "glBufferSubData" (target ∷ offset ∷ size ∷ pixels ∷ [])

  unfoldable pub gl_clear_wrapper : ℕ → M ℕ
  gl_clear_wrapper mask = call_vendor V "glClear" (mask ∷ [])

  unfoldable pub gl_clear_stencil_wrapper : ℕ → M ℕ
  gl_clear_stencil_wrapper s = call_vendor V "glClearStencil" (s ∷ [])

  unfoldable pub gl_color_mask_wrapper : ℕ → ℕ → ℕ → ℕ → M ℕ
  gl_color_mask_wrapper red green blue alpha =
      call_vendor V "glColorMask" (red ∷ green ∷ blue ∷ alpha ∷ [])

  unfoldable pub gl_cull_face_wrapper : ℕ → M ℕ
  gl_cull_face_wrapper mode = call_vendor V "glCullFace" (mode ∷ [])

  unfoldable pub gl_delete_buffers_wrapper : ℕ → ℕ → M ℕ
  gl_delete_buffers_wrapper n buffers = call_vendor V "glDeleteBuffers" (n ∷ buffers ∷ [])

  unfoldable pub gl_depth_func_wrapper : ℕ → M ℕ
  gl_depth_func_wrapper func = call_vendor V "glDepthFunc" (func ∷ [])

  unfoldable pub gl_depth_mask_wrapper : ℕ → M ℕ
  gl_depth_mask_wrapper flag = call_vendor V "glDepthMask" (flag ∷ [])

  unfoldable pub gl_disable_wrapper : ℕ → M ℕ
  gl_disable_wrapper cap = call_vendor V "glDisable" (cap ∷ [])

  unfoldable pub gl_draw_arrays_wrapper : ℕ → ℕ → ℕ → M ℕ
  gl_draw_arrays_wrapper mode first count = call_vendor V "glDrawArrays" (mode ∷ first ∷ count ∷ [])

  unfoldable pub gl_draw_elements_wrapper : ℕ → ℕ → ℕ → ℕ → M ℕ
  gl_draw_elements_wrapper mode count type indices =
      call_vendor V "glDrawElements" (mode ∷ count ∷ type ∷ indices ∷ [])

  unfoldable pub gl_enable_wrapper : ℕ → M ℕ
  gl_enable_wrapper cap = call_vendor V "glEnable" (cap ∷ [])

  unfoldable pub gl_finish_wrapper : M ℕ
  gl_finish_wrapper = call_vendor V "glFinish" []

  unfoldable pub gl_flush_wrapper : M ℕ
  gl_flush_wrapper = call_vendor V "glFlush" []

  unfoldable pub gl_front_face_wrapper : ℕ → M ℕ
  gl_front_face_wrapper mode = call_vendor V "glFrontFace" (mode ∷ [])

  unfoldable pub gl_gen_buffers_wrapper : ℕ → ℕ → M ℕ
  gl_gen_buffers_wrapper n buffers = call_vendor V "glGenBuffers" (n ∷ buffers ∷ [])

  unfoldable pub gl_generate_mipmap_wrapper : ℕ → M ℕ
  gl_generate_mipmap_wrapper target = call_vendor V "glGenerateMipmap" (target ∷ [])

  unfoldable pub gl_get_booleanv_wrapper : ℕ → ℕ → M ℕ
  gl_get_booleanv_wrapper pname params = call_vendor V "glGetBooleanv" (pname ∷ params ∷ [])

  unfoldable pub gl_get_buffer_parameteriv_wrapper : ℕ → ℕ → ℕ → M ℕ
  gl_get_buffer_parameteriv_wrapper target pname params =
      call_vendor V "glGetBufferParameteriv" (target ∷ pname ∷ params ∷ [])

  unfoldable pub gl_get_error_wrapper : M ℕ
  gl_get_error_wrapper = call_vendor V "glGetError" []

  unfoldable pub gl_get_floatv_wrapper : ℕ → ℕ → M ℕ
  gl_get_floatv_wrapper pname params = call_vendor V "glGetFloatv" (pname ∷ params ∷ [])

  unfoldable pub gl_get_integerv_wrapper : ℕ → ℕ → M ℕ
  gl_get_integerv_wrapper pname params = call_vendor V "glGetIntegerv" (pname ∷ params ∷ [])

  unfoldable pub gl_get_string_wrapper : ℕ → M ℕ
  gl_get_string_wrapper name = call_vendor V "glGetString" (name ∷ [])

  unfoldable pub gl_hint_wrapper : ℕ → ℕ → M ℕ
  gl_hint_wrapper target mode = call_vendor V "glHint" (target ∷ mode ∷ [])

  unfoldable pub gl_is_buffer_wrapper : ℕ → M ℕ
  gl_is_buffer_wrapper buffer = call_vendor V "glIsBuffer" (buffer ∷ [])

  unfoldable pub gl_is_enabled_wrapper : ℕ → M ℕ
  gl_is_enabled_wrapper cap = call_vendor V "glIsEnabled" (cap ∷ [])

  unfoldable pub gl_pixel_storei_wrapper : ℕ → ℕ → M ℕ
  gl_pixel_storei_wrapper pname param = call_vendor V "glPixelStorei" (pname ∷ param ∷ [])

  unfoldable pub gl_read_pixels_wrapper : ℕ → ℕ → ℕ → ℕ → ℕ → ℕ → ℕ → M ℕ
  gl_read_pixels_wrapper x y width height format type pixels =
      call_vendor V "glReadPixels" (x ∷ y ∷ width ∷ height ∷ format ∷ type ∷ pixels ∷ [])

  unfoldable pub gl_scissor_wrapper : ℕ → ℕ → ℕ → ℕ → M ℕ
  gl_scissor_wrapper x y width height = call_vendor V "glScissor" (x ∷ y ∷ width ∷ height ∷ [])

  unfoldable pub gl_stencil_func_wrapper : ℕ → ℕ → ℕ → M ℕ
  gl_stencil_func_wrapper func ref mask = call_vendor V "glStencilFunc" (func ∷ ref ∷ mask ∷ [])

  unfoldable pub gl_stencil_func_separate_wrapper : ℕ → ℕ → ℕ → ℕ → M ℕ
  gl_stencil_func_separate_wrapper face func ref mask =
      call_vendor V "glStencilFuncSeparate" (face ∷ func ∷ ref ∷ mask ∷ [])

  unfoldable pub gl_stencil_mask_wrapper : ℕ → M ℕ
  gl_stencil_mask_wrapper mask = call_vendor V "glStencilMask" (mask ∷ [])

  unfoldable pub gl_stencil_mask_separate_wrapper : ℕ → ℕ → M ℕ
  gl_stencil_mask_separate_wrapper face mask =
      call_vendor V "glStencilMaskSeparate" (face ∷ mask ∷ [])

  unfoldable pub gl_stencil_op_wrapper : ℕ → ℕ → ℕ → M ℕ
  gl_stencil_op_wrapper fail zfail zpass = call_vendor V "glStencilOp" (fail ∷ zfail ∷ zpass ∷ [])

  unfoldable pub gl_stencil_op_separate_wrapper : ℕ → ℕ → ℕ → ℕ → M ℕ
  gl_stencil_op_separate_wrapper face fail zfail zpass =
      call_vendor V "glStencilOpSeparate" (face ∷ fail ∷ zfail ∷ zpass ∷ [])

  unfoldable pub gl_viewport_wrapper : ℕ → ℕ → ℕ → ℕ → M ℕ
  gl_viewport_wrapper x y width height = call_vendor V "glViewport" (x ∷ y ∷ width ∷ height ∷ [])

  unfoldable pub gl_blend_color : ℕ → ℕ → ℕ → ℕ → M ℕ
  gl_blend_color red green blue alpha =
      call_vendor V "glBlendColor" (red ∷ green ∷ blue ∷ alpha ∷ [])

  unfoldable pub gl_sample_coverage : ℕ → ℕ → M ℕ
  gl_sample_coverage value invert = call_vendor V "glSampleCoverage" (value ∷ invert ∷ [])

  unfoldable pub gl_polygon_offset : ℕ → ℕ → M ℕ
  gl_polygon_offset factor units = call_vendor V "glPolygonOffset" (factor ∷ units ∷ [])

  unfoldable pub gl_depth_rangef : ℕ → ℕ → M ℕ
  gl_depth_rangef z_near z_far = call_vendor V "glDepthRangef" (z_near ∷ z_far ∷ [])

  unfoldable pub gl_clear_color : ℕ → ℕ → ℕ → ℕ → M ℕ
  gl_clear_color red green blue alpha =
      call_vendor V "glClearColor" (red ∷ green ∷ blue ∷ alpha ∷ [])

  unfoldable pub gl_clear_depthf : ℕ → M ℕ
  gl_clear_depthf depth = call_vendor V "glClearDepthf" (depth ∷ [])

  unfoldable pub gl_line_width : ℕ → M ℕ
  gl_line_width width = call_vendor V "glLineWidth" (width ∷ [])
