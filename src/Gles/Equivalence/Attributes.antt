-- ===== src/Gles/Equivalence/Attributes.antt =====
-- The functions on vertex attributes, with the names and the arguments that they are to hand on.
use Prim.Native.String.{String}
use fake_libc.Common.{ℕ, ◌≢◌, refl, [], ◌∷◌, Option}
use fake_libc.Gles.{Vendor, before_constructor, init_androidglesv2}
use fake_libc.Gles.Loading.{Agrees, loaded-Agrees, Calls, loaded-Calls}
use fake_libc.Gles.Attributes.{
  gl_bind_attrib_location_wrapper, gl_disable_vertex_attrib_array_wrapper,
  gl_enable_vertex_attrib_array_wrapper, gl_get_active_attrib_wrapper,
  gl_get_attrib_location_wrapper, gl_get_vertex_attribfv_wrapper, gl_get_vertex_attribiv_wrapper,
  gl_get_vertex_attrib_pointerv_wrapper, gl_vertex_attrib_1fv_wrapper, gl_vertex_attrib_2fv_wrapper,
  gl_vertex_attrib_3fv_wrapper, gl_vertex_attrib_4fv_wrapper, gl_vertex_attrib_pointer_wrapper,
  gl_vertex_attrib_4f, gl_vertex_attrib_2f, gl_vertex_attrib_3f, gl_vertex_attrib_1f,
}

module _ (V : Vendor) (env : Option String) where
  abbrev pub SoundAttributes : (a b c d e f g : ℕ) → Type 0
  SoundAttributes a b c d e f g =
      (Agrees V env "glBindAttribLocation" (a ∷ b ∷ c ∷ [])
        (gl_bind_attrib_location_wrapper V a b c))
      × (Agrees V env "glDisableVertexAttribArray" (a ∷ [])
          (gl_disable_vertex_attrib_array_wrapper V a))
      × (Agrees V env "glEnableVertexAttribArray" (a ∷ [])
          (gl_enable_vertex_attrib_array_wrapper V a))
      × (Agrees V env "glGetActiveAttrib" (a ∷ b ∷ c ∷ d ∷ e ∷ f ∷ g ∷ [])
          (gl_get_active_attrib_wrapper V a b c d e f g))
      × (Agrees V env "glGetAttribLocation" (a ∷ b ∷ []) (gl_get_attrib_location_wrapper V a b))
      × (Agrees V env "glGetVertexAttribfv" (a ∷ b ∷ c ∷ [])
          (gl_get_vertex_attribfv_wrapper V a b c))
      × (Agrees V env "glGetVertexAttribiv" (a ∷ b ∷ c ∷ [])
          (gl_get_vertex_attribiv_wrapper V a b c))
      × (Agrees V env "glGetVertexAttribPointerv" (a ∷ b ∷ c ∷ [])
          (gl_get_vertex_attrib_pointerv_wrapper V a b c))
      × (Agrees V env "glVertexAttrib1fv" (a ∷ b ∷ []) (gl_vertex_attrib_1fv_wrapper V a b))
      × (Agrees V env "glVertexAttrib2fv" (a ∷ b ∷ []) (gl_vertex_attrib_2fv_wrapper V a b))
      × (Agrees V env "glVertexAttrib3fv" (a ∷ b ∷ []) (gl_vertex_attrib_3fv_wrapper V a b))
      × (Agrees V env "glVertexAttrib4fv" (a ∷ b ∷ []) (gl_vertex_attrib_4fv_wrapper V a b))
      × (Agrees V env "glVertexAttribPointer" (a ∷ b ∷ c ∷ d ∷ e ∷ f ∷ [])
          (gl_vertex_attrib_pointer_wrapper V a b c d e f))
      × (Calls V env "glVertexAttrib4f" (a ∷ b ∷ c ∷ d ∷ e ∷ []) (gl_vertex_attrib_4f V a b c d e))
      × (Calls V env "glVertexAttrib2f" (a ∷ b ∷ c ∷ []) (gl_vertex_attrib_2f V a b c))
      × (Calls V env "glVertexAttrib3f" (a ∷ b ∷ c ∷ d ∷ []) (gl_vertex_attrib_3f V a b c d))
      × (Calls V env "glVertexAttrib1f" (a ∷ b ∷ []) (gl_vertex_attrib_1f V a b))

  pub attributes :
      (nz : (init_androidglesv2 V env before_constructor).libglesv2 ≢ 0) (a b c d e f g : ℕ)
      → SoundAttributes a b c d e f g
  unfolding gl_bind_attrib_location_wrapper gl_disable_vertex_attrib_array_wrapper
      gl_enable_vertex_attrib_array_wrapper gl_get_active_attrib_wrapper
      gl_get_attrib_location_wrapper gl_get_vertex_attribfv_wrapper gl_get_vertex_attribiv_wrapper
      gl_get_vertex_attrib_pointerv_wrapper gl_vertex_attrib_1fv_wrapper
      gl_vertex_attrib_2fv_wrapper gl_vertex_attrib_3fv_wrapper gl_vertex_attrib_4fv_wrapper
      gl_vertex_attrib_pointer_wrapper gl_vertex_attrib_4f gl_vertex_attrib_2f gl_vertex_attrib_3f
      gl_vertex_attrib_1f
  attributes nz a b c d e f g = (
    loaded-Agrees V env nz "glBindAttribLocation" (a ∷ b ∷ c ∷ []) refl,
    loaded-Agrees V env nz "glDisableVertexAttribArray" (a ∷ []) refl,
    loaded-Agrees V env nz "glEnableVertexAttribArray" (a ∷ []) refl,
    loaded-Agrees V env nz "glGetActiveAttrib" (a ∷ b ∷ c ∷ d ∷ e ∷ f ∷ g ∷ []) refl,
    loaded-Agrees V env nz "glGetAttribLocation" (a ∷ b ∷ []) refl,
    loaded-Agrees V env nz "glGetVertexAttribfv" (a ∷ b ∷ c ∷ []) refl,
    loaded-Agrees V env nz "glGetVertexAttribiv" (a ∷ b ∷ c ∷ []) refl,
    loaded-Agrees V env nz "glGetVertexAttribPointerv" (a ∷ b ∷ c ∷ []) refl,
    loaded-Agrees V env nz "glVertexAttrib1fv" (a ∷ b ∷ []) refl,
    loaded-Agrees V env nz "glVertexAttrib2fv" (a ∷ b ∷ []) refl,
    loaded-Agrees V env nz "glVertexAttrib3fv" (a ∷ b ∷ []) refl,
    loaded-Agrees V env nz "glVertexAttrib4fv" (a ∷ b ∷ []) refl,
    loaded-Agrees V env nz "glVertexAttribPointer" (a ∷ b ∷ c ∷ d ∷ e ∷ f ∷ []) refl,
    loaded-Calls V env nz "glVertexAttrib4f" (a ∷ b ∷ c ∷ d ∷ e ∷ []) refl,
    loaded-Calls V env nz "glVertexAttrib2f" (a ∷ b ∷ c ∷ []) refl,
    loaded-Calls V env nz "glVertexAttrib3f" (a ∷ b ∷ c ∷ d ∷ []) refl,
    loaded-Calls V env nz "glVertexAttrib1f" (a ∷ b ∷ []) refl,
  )
