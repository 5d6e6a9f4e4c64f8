-- ===== src/Gles/Equivalence/Drawing.antt =====
-- The functions on buffers, the state and drawing, with the names and the arguments that they are to hand on.
use Prim.Native.String.{String}
use fake_libc.Common.{ℕ, ◌≢◌, refl, [], ◌∷◌, Option}
use fake_libc.Gles.{Vendor, before_constructor, init_androidglesv2}
use fake_libc.Gles.Loading.{Agrees, loaded-Agrees, Calls, loaded-Calls}
use fake_libc.Gles.Drawing.{
  gl_bind_buffer_wrapper, gl_blend_equation_wrapper, gl_blend_equation_separate_wrapper,
  gl_blend_func_wrapper, gl_blend_func_separate_wrapper, gl_buffer_data_wrapper,
  gl_buffer_sub_data_wrapper, gl_clear_wrapper, gl_clear_stencil_wrapper, gl_color_mask_wrapper,
  gl_cull_face_wrapper, gl_delete_buffers_wrapper, gl_depth_func_wrapper, gl_depth_mask_wrapper,
  gl_disable_wrapper, gl_draw_arrays_wrapper, gl_draw_elements_wrapper, gl_enable_wrapper,
  gl_finish_wrapper, gl_flush_wrapper, gl_front_face_wrapper, gl_gen_buffers_wrapper,
  gl_generate_mipmap_wrapper, gl_get_booleanv_wrapper, gl_get_buffer_parameteriv_wrapper,
  gl_get_error_wrapper, gl_get_floatv_wrapper, gl_get_integerv_wrapper, gl_get_string_wrapper,
  gl_hint_wrapper, gl_is_buffer_wrapper, gl_is_enabled_wrapper, gl_pixel_storei_wrapper,
  gl_scissor_wrapper, gl_stencil_func_wrapper, gl_stencil_func_separate_wrapper,
  gl_stencil_mask_wrapper, gl_stencil_mask_separate_wrapper, gl_stencil_op_wrapper,
  gl_stencil_op_separate_wrapper, gl_viewport_wrapper, gl_blend_color, gl_sample_coverage,
  gl_polygon_offset, gl_depth_rangef, gl_clear_color, gl_clear_depthf, gl_line_width,
}

module _ (V : Vendor) (env : Option String) where
  abbrev pub SoundDrawing : (a b c d : ℕ) → Type 0
  SoundDrawing a b c d =
      (Agrees V env "glBindBuffer" (a ∷ b ∷ []) (gl_bind_buffer_wrapper V a b))
      × (Agrees V env "glBlendEquation" (a ∷ []) (gl_blend_equation_wrapper V a))
      × (Agrees V env "glBlendEquationSeparate" (a ∷ b ∷ [])
          (gl_blend_equation_separate_wrapper V a b))
      × (Agrees V env "glBlendFunc" (a ∷ b ∷ []) (gl_blend_func_wrapper V a b))
      × (Agrees V env "glBlendFuncSeparate" (a ∷ b ∷ c ∷ d ∷ [])
          (gl_blend_func_separate_wrapper V a b c d))
      × (Agrees V env "glBufferData" (a ∷ b ∷ c ∷ d ∷ []) (gl_buffer_data_wrapper V a b c d))
      × (Agrees V env "glBufferSubData" (a ∷ b ∷ c ∷ d ∷ []) (gl_buffer_sub_data_wrapper V a b c d))
      × (Agrees V env "glClear" (a ∷ []) (gl_clear_wrapper V a))
      × (Agrees V env "glClearStencil" (a ∷ []) (gl_clear_stencil_wrapper V a))
      × (Agrees V env "glColorMask" (a ∷ b ∷ c ∷ d ∷ []) (gl_color_mask_wrapper V a b c d))
      × (Agrees V env "glCullFace" (a ∷ []) (gl_cull_face_wrapper V a))
      × (Agrees V env "glDeleteBuffers" (a ∷ b ∷ []) (gl_delete_buffers_wrapper V a b))
      × (Agrees V env "glDepthFunc" (a ∷ []) (gl_depth_func_wrapper V a))
      × (Agrees V env "glDepthMask" (a ∷ []) (gl_depth_mask_wrapper V a))
      × (Agrees V env "glDisable" (a ∷ []) (gl_disable_wrapper V a))
      × (Agrees V env "glDrawArrays" (a ∷ b ∷ c ∷ []) (gl_draw_arrays_wrapper V a b c))
      × (Agrees V env "glDrawElements" (a ∷ b ∷ c ∷ d ∷ []) (gl_draw_elements_wrapper V a b c d))
      × (Agrees V env "glEnable" (a ∷ []) (gl_enable_wrapper V a))
      × (Agrees V env "glFinish" [] (gl_finish_wrapper V))
      × (Agrees V env "glFlush" [] (gl_flush_wrapper V))
      × (Agrees V env "glFrontFace" (a ∷ []) (gl_front_face_wrapper V a))
      × (Agrees V env "glGenBuffers" (a ∷ b ∷ []) (gl_gen_buffers_wrapper V a b))
      × (Agrees V env "glGenerateMipmap" (a ∷ []) (gl_generate_mipmap_wrapper V a))
      × (Agrees V env "glGetBooleanv" (a ∷ b ∷ []) (gl_get_booleanv_wrapper V a b))
      × (Agrees V env "glGetBufferParameteriv" (a ∷ b ∷ c ∷ [])
          (gl_get_buffer_parameteriv_wrapper V a b c))
      × (Agrees V env "glGetError" [] (gl_get_error_wrapper V))
      × (Agrees V env "glGetFloatv" (a ∷ b ∷ []) (gl_get_floatv_wrapper V a b))
      × (Agrees V env "glGetIntegerv" (a ∷ b ∷ []) (gl_get_integerv_wrapper V a b))
      × (Agrees V env "glGetString" (a ∷ []) (gl_get_string_wrapper V a))
      × (Agrees V env "glHint" (a ∷ b ∷ []) (gl_hint_wrapper V a b))
      × (Agrees V env "glIsBuffer" (a ∷ []) (gl_is_buffer_wrapper V a))
      × (Agrees V env "glIsEnabled" (a ∷ []) (gl_is_enabled_wrapper V a))
      × (Agrees V env "glPixelStorei" (a ∷ b ∷ []) (gl_pixel_storei_wrapper V a b))
      × (Agrees V env "glScissor" (a ∷ b ∷ c ∷ d ∷ []) (gl_scissor_wrapper V a b c d))
      × (Agrees V env "glStencilFunc" (a ∷ b ∷ c ∷ []) (gl_stencil_func_wrapper V a b c))
      × (Agrees V env "glStencilFuncSeparate" (a ∷ b ∷ c ∷ d ∷ [])
          (gl_stencil_func_separate_wrapper V a b c d))
      × (Agrees V env "glStencilMask" (a ∷ []) (gl_stencil_mask_wrapper V a))
      × (Agrees V env "glStencilMaskSeparate" (a ∷ b ∷ []) (gl_stencil_mask_separate_wrapper V a b))
      × (Agrees V env "glStencilOp" (a ∷ b ∷ c ∷ []) (gl_stencil_op_wrapper V a b c))
      × (Agrees V env "glStencilOpSeparate" (a ∷ b ∷ c ∷ d ∷ [])
          (gl_stencil_op_separate_wrapper V a b c d))
      × (Agrees V env "glViewport" (a ∷ b ∷ c ∷ d ∷ []) (gl_viewport_wrapper V a b c d))
      × (Calls V env "glBlendColor" (a ∷ b ∷ c ∷ d ∷ []) (gl_blend_color V a b c d))
      × (Calls V env "glSampleCoverage" (a ∷ b ∷ []) (gl_sample_coverage V a b))
      × (Calls V env "glPolygonOffset" (a ∷ b ∷ []) (gl_polygon_offset V a b))
      × (Calls V env "glDepthRangef" (a ∷ b ∷ []) (gl_depth_rangef V a b))
      × (Calls V env "glClearColor" (a ∷ b ∷ c ∷ d ∷ []) (gl_clear_color V a b c d))
      × (Calls V env "glClearDepthf" (a ∷ []) (gl_clear_depthf V a))
      × (Calls V env "glLineWidth" (a ∷ []) (gl_line_width V a))

  pub drawing :
      (nz : (init_androidglesv2 V env before_constructor).libglesv2 ≢ 0) (a b c d : ℕ)
      → SoundDrawing a b c d
  unfolding gl_bind_buffer_wrapper gl_blend_equation_wrapper gl_blend_equation_separate_wrapper
      gl_blend_func_wrapper gl_blend_func_separate_wrapper gl_buffer_data_wrapper
      gl_buffer_sub_data_wrapper gl_clear_wrapper gl_clear_stencil_wrapper gl_color_mask_wrapper
      gl_cull_face_wrapper gl_delete_buffers_wrapper gl_depth_func_wrapper gl_depth_mask_wrapper
      gl_disable_wrapper gl_draw_arrays_wrapper gl_draw_elements_wrapper gl_enable_wrapper
      gl_finish_wrapper gl_flush_wrapper gl_front_face_wrapper gl_gen_buffers_wrapper
      gl_generate_mipmap_wrapper gl_get_booleanv_wrapper gl_get_buffer_parameteriv_wrapper
      gl_get_error_wrapper gl_get_floatv_wrapper gl_get_integerv_wrapper gl_get_string_wrapper
      gl_hint_wrapper gl_is_buffer_wrapper gl_is_enabled_wrapper gl_pixel_storei_wrapper
      gl_scissor_wrapper gl_stencil_func_wrapper gl_stencil_func_separate_wrapper
      gl_stencil_mask_wrapper gl_stencil_mask_separate_wrapper gl_stencil_op_wrapper
      gl_stencil_op_separate_wrapper gl_viewport_wrapper gl_blend_color gl_sample_coverage
      gl_polygon_offset gl_depth_rangef gl_clear_color gl_clear_depthf gl_line_width
  drawing nz a b c d = (
    loaded-Agrees V env nz "glBindBuffer" (a ∷ b ∷ []) refl,
    loaded-Agrees V env nz "glBlendEquation" (a ∷ []) refl,
    loaded-Agrees V env nz "glBlendEquationSeparate" (a ∷ b ∷ []) refl,
    loaded-Agrees V env nz "glBlendFunc" (a ∷ b ∷ []) refl,
    loaded-Agrees V env nz "glBlendFuncSeparate" (a ∷ b ∷ c ∷ d ∷ []) refl,
    loaded-Agrees V env nz "glBufferData" (a ∷ b ∷ c ∷ d ∷ []) refl,
    loaded-Agrees V env nz "glBufferSubData" (a ∷ b ∷ c ∷ d ∷ []) refl,
    loaded-Agrees V env nz "glClear" (a ∷ []) refl,
    loaded-Agrees V env nz "glClearStencil" (a ∷ []) refl,
    loaded-Agrees V env nz "glColorMask" (a ∷ b ∷ c ∷ d ∷ []) refl,
    loaded-Agrees V env nz "glCullFace" (a ∷ []) refl,
    loaded-Agrees V env nz "glDeleteBuffers" (a ∷ b ∷ []) refl,
    loaded-Agrees V env nz "glDepthFunc" (a ∷ []) refl,
    loaded-Agrees V env nz "glDepthMask" (a ∷ []) refl,
    loaded-Agrees V env nz "glDisable" (a ∷ []) refl,
    loaded-Agrees V env nz "glDrawArrays" (a ∷ b ∷ c ∷ []) refl,
    loaded-Agrees V env nz "glDrawElements" (a ∷ b ∷ c ∷ d ∷ []) refl,
    loaded-Agrees V env nz "glEnable" (a ∷ []) refl,
    loaded-Agrees V env nz "glFinish" [] refl,
    loaded-Agrees V env nz "glFlush" [] refl,
    loaded-Agrees V env nz "glFrontFace" (a ∷ []) refl,
    loaded-Agrees V env nz "glGenBuffers" (a ∷ b ∷ []) refl,
    loaded-Agrees V env nz "glGenerateMipmap" (a ∷ []) refl,
    loaded-Agrees V env nz "glGetBooleanv" (a ∷ b ∷ []) refl,
    loaded-Agrees V env nz "glGetBufferParameteriv" (a ∷ b ∷ c ∷ []) refl,
    loaded-Agrees V env nz "glGetError" [] refl,
    loaded-Agrees V env nz "glGetFloatv" (a ∷ b ∷ []) refl,
    loaded-Agrees V env nz "glGetIntegerv" (a ∷ b ∷ []) refl,
    loaded-Agrees V env nz "glGetString" (a ∷ []) refl,
    loaded-Agrees V env nz "glHint" (a ∷ b ∷ []) refl,
    loaded-Agrees V env nz "glIsBuffer" (a ∷ []) refl,
    loaded-Agrees V env nz "glIsEnabled" (a ∷ []) refl,
    loaded-Agrees V env nz "glPixelStorei" (a ∷ b ∷ []) refl,
    loaded-Agrees V env nz "glScissor" (a ∷ b ∷ c ∷ d ∷ []) refl,
    loaded-Agrees V env nz "glStencilFunc" (a ∷ b ∷ c ∷ []) refl,
    loaded-Agrees V env nz "glStencilFuncSeparate" (a ∷ b ∷ c ∷ d ∷ []) refl,
    loaded-Agrees V env nz "glStencilMask" (a ∷ []) refl,
    loaded-Agrees V env nz "glStencilMaskSeparate" (a ∷ b ∷ []) refl,
    loaded-Agrees V env nz "glStencilOp" (a ∷ b ∷ c ∷ []) refl,
    loaded-Agrees V env nz "glStencilOpSeparate" (a ∷ b ∷ c ∷ d ∷ []) refl,
    loaded-Agrees V env nz "glViewport" (a ∷ b ∷ c ∷ d ∷ []) refl,
    loaded-Calls V env nz "glBlendColor" (a ∷ b ∷ c ∷ d ∷ []) refl,
    loaded-Calls V env nz "glSampleCoverage" (a ∷ b ∷ []) refl,
    loaded-Calls V env nz "glPolygonOffset" (a ∷ b ∷ []) refl,
    loaded-Calls V env nz "glDepthRangef" (a ∷ b ∷ []) refl,
    loaded-Calls V env nz "glClearColor" (a ∷ b ∷ c ∷ d ∷ []) refl,
    loaded-Calls V env nz "glClearDepthf" (a ∷ []) refl,
    loaded-Calls V env nz "glLineWidth" (a ∷ []) refl,
  )
