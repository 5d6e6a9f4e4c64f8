-- ===== src/Egl/QueryString.antt =====
-- `eglQueryString` of libEGL/egl.c, and `eglplatformcommon_eglQueryString` of
-- platforms/common/eglplatformcommon.cpp, which every plug-in but Wayland's has as its own. A text is the
-- list of the bytes before its terminator.
pub mod Extensions
use Prim.Native.Char.{code}
use Prim.Native.String.{String}
use fake_libc.Common.{
  ℕ, zero, suc, ◌==◌, if◌then◌else◌, Bool, ◌&&◌, Option, none, some, List, [], ◌∷◌, ◌++◌, replicate,
  Outcome, ok, fault, ◌>>=◌,
}
use fake_libc.Egl.Forwarders.{Vendor, Symbols, hybris_dlsysm}
use fake_libc.Egl.Plugin.{Host, Plugin, ws_egl_query_string}

abbrev pub codes : String → List ℕ
codes String.[] = []
codes (String.◌∷◌ c s) = code c ∷ codes s

-- `eglQueryString`: the vendor's function is handed over to the plug-in.
unfoldable pub egl_query_string :
    Vendor → Host → ℕ → ℕ → Symbols → Plugin → Outcome (ℕ × (Symbols × Plugin))
egl_query_string V H dpy name s p =
    let s' = hybris_dlsysm V "eglQueryString" s in
    ws_egl_query_string H dpy name (s'.pointer "eglQueryString") p >>= λ r. ok (r.0, (s', r.1))

-- What the format string adds to the vendor's extensions, the argument of its second `%s` included.
abbrev pub hybris_extensions : List ℕ
hybris_extensions =
    codes
      "EGL_HYBRIS_native_buffer2 EGL_HYBRIS_WL_acquire_native_buffer EGL_WL_bind_wayland_display "

-- `static char eglextensionsbuf[1024]`
unfoldable pub eglextensionsbuf : List ℕ
eglextensionsbuf = replicate 1024 0

-- `snprintf(buf, size, …)` of a text, whose bytes are stored one after the other, a terminator behind
-- them; the last of the `size` bytes is always for the terminator, and a store behind the end of the
-- buffer is a fault.
unfoldable pub snprintf : ℕ → List ℕ → List ℕ → Outcome (List ℕ)
snprintf zero text buf = ok buf
snprintf (suc n) text [] = fault
snprintf (suc n) [] (b ∷ buf) = ok (0 ∷ buf)
snprintf (suc zero) (c ∷ text) (b ∷ buf) = ok (0 ∷ buf)
snprintf (suc (suc n)) (c ∷ text) (b ∷ buf) =
    snprintf (suc n) text buf >>= λ stored. ok (c ∷ stored)

-- `ret ? ret : ""`
unfoldable pub or_empty : Option (List ℕ) → List ℕ
or_empty none = []
or_empty (some text) = text

-- The pointer that is answered: that of the static buffer, or the vendor's, which may be NULL.
pub data Pointer : Type 0 where
  in_buffer : Pointer
  of_vendor : Option (List ℕ) → Pointer

-- `wayland` is WANT_WAYLAND, `egl_extensions` EGL_EXTENSIONS, `real` what the vendor's function answers
-- for a name, and `buf` what stands in the static buffer.
unfoldable pub eglplatformcommon_egl_query_string :
    Bool → ℕ → (ℕ → Option (List ℕ)) → ℕ → List ℕ → Outcome (Pointer × List ℕ)
eglplatformcommon_egl_query_string wayland egl_extensions real name buf =
    if wayland && name == egl_extensions
    then (snprintf 1022 (or_empty (real name) ++ hybris_extensions) buf >>= λ stored.
        ok (in_buffer, stored))
    else ok (of_vendor (real name), buf)
