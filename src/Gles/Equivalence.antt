-- ===== src/Gles/Equivalence.antt =====
-- Each function calls the vendor's function of its name, as the indirect function that stands in its
-- place does.
pub mod Attributes
pub mod Drawing
pub mod Images
pub mod Shaders
pub mod Uniforms
use Prim.Native.String.{String}
use fake_libc.Common.{ℕ, ◌≡◌, ◌≢◌, refl, [], ◌∷◌, Option, fault}
use fake_libc.Gles.{Vendor, before_constructor, init_androidglesv2, call_address, dispatch}
use fake_libc.Gles.Loading.{read_pixels-null, dispatch-opened}
use fake_libc.Gles.Drawing.{gl_read_pixels_wrapper}
use fake_libc.Gles.Equivalence.Attributes.{SoundAttributes, attributes}
use fake_libc.Gles.Equivalence.Drawing.{SoundDrawing, drawing}
use fake_libc.Gles.Equivalence.Images.{SoundImages, images}
use fake_libc.Gles.Equivalence.Shaders.{SoundShaders, shaders}
use fake_libc.Gles.Equivalence.Uniforms.{SoundUniforms, uniforms}

-- Behind a constructor that has opened the library: each function but glReadPixels and
-- glEGLImageTargetTexture2DOES makes the call of the address that dlsym answers for its name, on
-- its own arguments in their order, and the indirect function, where there is one, does the same
-- as the wrapper.
pub all_functions :
    (V : Vendor) (env : Option String) (a b c d e f g h i : ℕ)
    → (init_androidglesv2 V env before_constructor).libglesv2 ≢ 0
    → SoundAttributes V env a b c d e f g
      × SoundDrawing V env a b c d
      × SoundImages V env a b c d e f g h i
      × SoundShaders V env a b c d e
      × SoundUniforms V env a b c d e f g
all_functions V env a b c d e f g h i nz = (
  attributes V env nz a b c d e f g,
  drawing V env nz a b c d,
  images V env nz a b c d e f g h i,
  shaders V env nz a b c d e,
  uniforms V env nz a b c d e f g,
)

-- Behind a constructor that has opened the library, the wrapper of glReadPixels, whose symbol
-- the constructor does not load, calls through a null pointer, while the indirect function calls
-- the vendor's.
pub read_pixels-unloaded :
    (V : Vendor) (env : Option String) (a b c d e f g : ℕ)
    → (init_androidglesv2 V env before_constructor).libglesv2 ≢ 0
    → let gl = init_androidglesv2 V env before_constructor in
      (gl_read_pixels_wrapper V a b c d e f g gl ≡ fault)
      × (dispatch V "glReadPixels"
            (a ∷ b ∷ c ∷ d ∷ e ∷ f ∷ g ∷ [])
            (gl_read_pixels_wrapper V a b c d e f g)
            gl
          ≡ call_address V
              (V.dlsym gl.libglesv2 "glReadPixels")
              (a ∷ b ∷ c ∷ d ∷ e ∷ f ∷ g ∷ [])
              gl)
unfolding gl_read_pixels_wrapper
read_pixels-unloaded V env a b c d e f g nz = (
  read_pixels-null V env (a ∷ b ∷ c ∷ d ∷ e ∷ f ∷ g ∷ []),
  dispatch-opened V "glReadPixels" (a ∷ b ∷ c ∷ d ∷ e ∷ f ∷ g ∷ [])
      (gl_read_pixels_wrapper V a b c d e f g) (init_androidglesv2 V env before_constructor) nz,
)
