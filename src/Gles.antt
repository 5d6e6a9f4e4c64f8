-- ===== src/Gles.antt =====
-- libGLESv2/glesv2.c: the wrapper of the vendor's OpenGL ES library. A value that the code only hands on,
-- the bits of a float too, is a number; so is what a function without a result answers. Each
-- function's static pointer is held under the function's name.
pub mod Images
pub mod Shaders
pub mod Attributes
pub mod Drawing
pub mod Uniforms
pub mod Loading
pub mod Equivalence
use Prim.Native.String.{String}
use text.Mathlib.Text.{◌==◌ as str_eq}
use fake_libc.Common.{ℕ, ◌==◌, if◌then◌else◌, List, [], ◌∷◌, Option, none, some, Outcome, ok, fault}

-- A call through a function pointer.
abbrev pub Event : Type 0
Event = ℕ × List ℕ

-- `android_dlopen` and `dlsym`, and what a called function answers after earlier calls.
pub record Vendor : Type 0 where
  pub android_dlopen : String → ℕ
  pub dlsym : ℕ → String → ℕ
  pub answer : List Event → ℕ → List ℕ → ℕ

-- `_libglesv2`, the pointers `_glActiveTexture` and so on, and the calls so far, the latest first.
pub record Gl : Type 0 where
  pub libglesv2 : ℕ
  pub pointer : String → ℕ
  pub calls : List Event

-- The static variables before the constructor.
unfoldable pub before_constructor : Gl
before_constructor = record { libglesv2 = 0; pointer = λ s. 0; calls = [] }

abbrev pub M : Type 0 → Type 0
M A = Gl → Outcome (A × Gl)

module _ (V : Vendor) where
  -- A call through a pointer; through a null pointer it is a fault.
  unfoldable pub call_address : ℕ → List ℕ → M ℕ
  call_address p args gl =
      if p == 0
      then fault
      else ok (V.answer gl.calls p args, record gl { calls = (p, args) ∷ gl.calls })

  -- `(*_f)(args)`. With no library open it never returns: before the constructor the pointer is null,
  -- behind it the pointer is what `dlsym` answers for the handle NULL, which is RTLD_DEFAULT, and so
  -- the caller itself, which calls itself until the stack is full.
  unfoldable pub call_vendor : String → List ℕ → M ℕ
  call_vendor f args gl = if gl.libglesv2 == 0 then fault else call_address (gl.pointer f) args gl

  -- GLES2_LOAD(sym)
  unfoldable pub gles2_load : String → Gl → Gl
  gles2_load sym gl = record gl {
    pointer = λ f. if str_eq f sym then V.dlsym gl.libglesv2 sym else gl.pointer f;
  }

  unfoldable pub load_all : List String → Gl → Gl
  load_all [] gl = gl
  load_all (sym ∷ syms) gl = load_all syms (gles2_load sym gl)

  -- The file that is opened, where `env` is the variable LIBGLESV2 of the environment.
  unfoldable pub library_name : Option String → String
  library_name none = "libGLESv2.so"
  library_name (some file) = file

  -- A call of the function that GLES2_IDLOAD(sym) makes: the dynamic linker calls what the resolver
  -- answers, the vendor's function or the wrapper `f`.
  unfoldable pub dispatch : String → List ℕ → M ℕ → M ℕ
  dispatch sym args f gl =
      if gl.libglesv2 == 0 then f gl else call_address (V.dlsym gl.libglesv2 sym) args gl

  -- `img ? img->egl_image : NULL`, where `egl_image` is what stands in the field of an address.
  unfoldable pub gl_egl_image_target_texture_2d_oes : (ℕ → ℕ) → ℕ → ℕ → M ℕ
  gl_egl_image_target_texture_2d_oes egl_image target img =
      call_vendor "glEGLImageTargetTexture2DOES"
        (target ∷ (if img == 0 then 0 else egl_image img) ∷ [])

-- The symbols in the order in which the constructor loads them.
abbrev pub loaded_symbols : List String
loaded_symbols =
    "glBlendColor" ∷ "glClearColor" ∷ "glClearDepthf" ∷ "glDepthRangef" ∷ "glLineWidth"
    ∷ "glPolygonOffset" ∷ "glSampleCoverage" ∷ "glTexParameterf" ∷ "glUniform1f" ∷ "glUniform2f"
    ∷ "glUniform3f" ∷ "glUniform4f" ∷ "glVertexAttrib1f" ∷ "glVertexAttrib2f" ∷ "glVertexAttrib3f"
    ∷ "glVertexAttrib4f" ∷ "glEGLImageTargetTexture2DOES" ∷ "glActiveTexture" ∷ "glAttachShader"
    ∷ "glBindAttribLocation" ∷ "glBindBuffer" ∷ "glBindFramebuffer" ∷ "glBindRenderbuffer"
    ∷ "glBindTexture" ∷ "glBlendEquation" ∷ "glBlendEquationSeparate" ∷ "glBlendFunc"
    ∷ "glBlendFuncSeparate" ∷ "glBufferData" ∷ "glBufferSubData" ∷ "glCheckFramebufferStatus"
    ∷ "glClear" ∷ "glClearStencil" ∷ "glColorMask" ∷ "glCompileShader" ∷ "glCompressedTexImage2D"
    ∷ "glCompressedTexSubImage2D" ∷ "glCopyTexImage2D" ∷ "glCopyTexSubImage2D" ∷ "glCreateProgram"
    ∷ "glCreateShader" ∷ "glCullFace" ∷ "glDeleteBuffers" ∷ "glDeleteFramebuffers"
    ∷ "glDeleteProgram" ∷ "glDeleteRenderbuffers" ∷ "glDeleteShader" ∷ "glDeleteTextures"
    ∷ "glDepthFunc" ∷ "glDepthMask" ∷ "glDetachShader" ∷ "glDisable" ∷ "glDisableVertexAttribArray"
    ∷ "glDrawArrays" ∷ "glDrawElements" ∷ "glEnable" ∷ "glEnableVertexAttribArray" ∷ "glFinish"
    ∷ "glFlush" ∷ "glFramebufferRenderbuffer" ∷ "glFramebufferTexture2D" ∷ "glFrontFace"
    ∷ "glGenBuffers" ∷ "glGenerateMipmap" ∷ "glGenFramebuffers" ∷ "glGenRenderbuffers"
    ∷ "glGenTextures" ∷ "glGetActiveAttrib" ∷ "glGetActiveUniform" ∷ "glGetAttachedShaders"
    ∷ "glGetAttribLocation" ∷ "glGetBooleanv" ∷ "glGetBufferParameteriv" ∷ "glGetError"
    ∷ "glGetFloatv" ∷ "glGetFramebufferAttachmentParameteriv" ∷ "glGetIntegerv" ∷ "glGetProgramiv"
    ∷ "glGetProgramInfoLog" ∷ "glGetRenderbufferParameteriv" ∷ "glGetShaderiv"
    ∷ "glGetShaderInfoLog" ∷ "glGetShaderPrecisionFormat" ∷ "glGetShaderSource" ∷ "glGetString"
    ∷ "glGetTexParameterfv" ∷ "glGetTexParameteriv" ∷ "glGetUniformfv" ∷ "glGetUniformiv"
    ∷ "glGetUniformLocation" ∷ "glGetVertexAttribfv" ∷ "glGetVertexAttribiv"
    ∷ "glGetVertexAttribPointerv" ∷ "glHint" ∷ "glIsBuffer" ∷ "glIsEnabled" ∷ "glIsFramebuffer"
    ∷ "glIsProgram" ∷ "glIsRenderbuffer" ∷ "glIsShader" ∷ "glIsTexture" ∷ "glLinkProgram"
    ∷ "glPixelStorei" ∷ "glReleaseShaderCompiler" ∷ "glRenderbufferStorage" ∷ "glScissor"
    ∷ "glShaderBinary" ∷ "glShaderSource" ∷ "glStencilFunc" ∷ "glStencilFuncSeparate"
    ∷ "glStencilMask" ∷ "glStencilMaskSeparate" ∷ "glStencilOp" ∷ "glStencilOpSeparate"
    ∷ "glTexImage2D" ∷ "glTexParameterfv" ∷ "glTexParameteri" ∷ "glTexParameteriv"
    ∷ "glTexSubImage2D" ∷ "glUniform1fv" ∷ "glUniform1i" ∷ "glUniform1iv" ∷ "glUniform2fv"
    ∷ "glUniform2i" ∷ "glUniform2iv" ∷ "glUniform3fv" ∷ "glUniform3i" ∷ "glUniform3iv"
    ∷ "glUniform4fv" ∷ "glUniform4i" ∷ "glUniform4iv" ∷ "glUniformMatrix2fv" ∷ "glUniformMatrix3fv"
    ∷ "glUniformMatrix4fv" ∷ "glUseProgram" ∷ "glValidateProgram" ∷ "glVertexAttrib1fv"
    ∷ "glVertexAttrib2fv" ∷ "glVertexAttrib3fv" ∷ "glVertexAttrib4fv" ∷ "glVertexAttribPointer"
    ∷ "glViewport" ∷ []

-- The constructor `_init_androidglesv2`.
unfoldable pub init_androidglesv2 : Vendor → Option String → Gl → Gl
init_androidglesv2 V env gl =
    load_all V loaded_symbols (record gl { libglesv2 = V.android_dlopen (library_name V env) })
