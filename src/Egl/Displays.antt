-- ===== src/Egl/Displays.antt =====
-- The table of displays of libEGL/egl.c. A pointer to a `struct _EGLDisplay` is an address; NULL and
-- EGL_NO_DISPLAY are 0. What the vendor's library and the window system's plug-in do is a parameter, a
-- record of functions on a state of their own.
pub mod Mapping
pub mod Deletion
use fake_libc.Common.{ℕ, ◌==◌, if◌then◌else◌, not, ◌&&◌, List, [], ◌∷◌, replicate}

-- `_EGL_MAX_DISPLAYS`, and the table before the first call.
abbrev max_displays : ℕ
max_displays = 100

unfoldable pub display_mappings : List ℕ
display_mappings = replicate max_displays 0

-- `_addMapping`: the first free row is taken; without one nothing happens.
unfoldable pub add_mapping : ℕ → List ℕ → List ℕ
add_mapping display_id [] = []
add_mapping display_id (m ∷ ms) = if m == 0 then display_id ∷ ms else m ∷ add_mapping display_id ms

-- `hybris_egl_display_get_mapping`, where `dpy` is what stands in the field of an address.
unfoldable pub get_mapping : (ℕ → ℕ) → ℕ → List ℕ → ℕ
get_mapping dpy display [] = 0
get_mapping dpy display (m ∷ ms) =
    if not (m == 0) && dpy m == display then m else get_mapping dpy display ms

-- `p->dpy = v`
unfoldable pub set_dpy : (ℕ → ℕ) → ℕ → ℕ → ℕ → ℕ
set_dpy dpy p v q = if q == p then v else dpy q

-- The functions of the vendor's library and of the plug-in that the two operations call. What the
-- plug-in's `Terminate` leaves in the memory of the displays, deleted ones too, is its own.
pub record Platform : Type 1 where
  pub State : Type 0
  pub vendor_get_display : State → ℕ × State
  pub vendor_terminate : ℕ → State → ℕ × State
  pub ws_get_display : ℕ → State → ℕ × State
  pub ws_terminate : ℕ → State → (ℕ → ℕ) → State × (ℕ → ℕ)

pub record Egl (P : Platform) : Type 0 where
  pub mappings : List ℕ
  pub dpy : ℕ → ℕ
  pub host : P.State

module _ {P : Platform} where
  -- What follows a look-up that has found nothing.
  unfoldable pub new_display : ℕ → ℕ → Egl P → ℕ × Egl P
  new_display display_id real_display e =
      let (dpy, host) = P.ws_get_display display_id e.host in
      if dpy == 0 then (0, record e { host = host }) else (
        real_display,
        record {
          mappings = add_mapping dpy e.mappings;
          dpy = set_dpy e.dpy dpy real_display;
          host = host;
        },
      )

  unfoldable pub egl_get_display : ℕ → Egl P → ℕ × Egl P
  unfolding new_display
  egl_get_display display_id e =
      let (real_display, host) = P.vendor_get_display e.host in
      let e' : Egl P = record e { host = host } in
      if real_display == 0
      then (0, e')
      else (if get_mapping e'.dpy real_display e'.mappings == 0
          then new_display display_id real_display e'
          else (real_display, e'))

  unfoldable pub egl_terminate : ℕ → Egl P → ℕ × Egl P
  egl_terminate dpy e =
      let (host, memory) = P.ws_terminate (get_mapping e.dpy dpy e.mappings) e.host e.dpy in
      let (result, host') = P.vendor_terminate dpy host in
      (result, record e { dpy = memory; host = host' })
