-- ===== src/Egl/Surfaces.antt =====
-- Window surfaces: `eglCreateWindowSurface`, `eglDestroySurface`, `eglSwapInterval` and the swaps of
-- libEGL/egl.c, and the table of surfaces of libEGL/helper.cpp. The model starts behind the look-ups of
-- the vendor's functions. EGL_NO_SURFACE is 0.
pub mod Lifecycle
pub mod Balance
use fake_libc.Common.{
  ℕ, ◌==◌, if◌then◌else◌, Bool, true, false, List, [], ◌∷◌, Option, none, some, Outcome, ok, fault,
  ◌>>=◌,
}

-- The calls of the vendor's library, and of the window system's plug-in.
pub data Call : Type 0 where
  vendor_create_window_surface : ℕ → ℕ → ℕ → ℕ → Call
  vendor_destroy_surface vendor_swap_buffers vendor_swap_interval : ℕ → ℕ → Call
  vendor_get_current_surface : ℕ → Call
  ws_create_window : ℕ → ℕ → Call
  ws_destroy_window : ℕ → Call
  ws_prepare_swap : ℕ → ℕ → ℕ → ℕ → Call
  ws_finish_swap : ℕ → ℕ → Call
  ws_set_swap_interval : ℕ → ℕ → ℕ → Call

-- What a call answers after earlier ones (the latest first), whether the object at an address has the magic
-- number of a window, and the number EGL_DRAW.
pub record Host : Type 0 where
  pub answer : List Call → Call → ℕ
  pub is_window : List Call → ℕ → Bool
  pub egl_draw : ℕ

-- `_surface_window_map`, and the calls so far.
pub record Surfaces : Type 0 where
  pub surface_window_map : List (ℕ × ℕ)
  pub calls : List Call

-- `egl_helper_has_mapping`, `egl_helper_get_mapping` and the two changes of the map.
unfoldable pub find : ℕ → List (ℕ × ℕ) → Option ℕ
find surface [] = none
find surface ((s, window) ∷ rest) = if s == surface then some window else find surface rest

unfoldable pub erase : ℕ → List (ℕ × ℕ) → List (ℕ × ℕ)
erase surface [] = []
erase surface ((s, window) ∷ rest) = if s == surface then rest else (s, window) ∷ erase surface rest

unfoldable pub has : Option ℕ → Bool
has none = false
has (some window) = true

unfoldable pub egl_helper_has_mapping : ℕ → Surfaces → Bool
egl_helper_has_mapping surface s = has (find surface s.surface_window_map)

-- The assertion fails where the surface has a window already.
unfoldable pub egl_helper_push_mapping : ℕ → ℕ → Surfaces → Outcome Surfaces
egl_helper_push_mapping surface window s =
    if egl_helper_has_mapping surface s
    then fault
    else ok (record s { surface_window_map = (surface, window) ∷ s.surface_window_map })

unfoldable pub found : Option ℕ → Outcome ℕ
found none = fault
found (some window) = ok window

unfoldable pub egl_helper_get_mapping : ℕ → Surfaces → Outcome ℕ
egl_helper_get_mapping surface s = found (find surface s.surface_window_map)

unfoldable pub egl_helper_pop_mapping : ℕ → Surfaces → Outcome (ℕ × Surfaces)
egl_helper_pop_mapping surface s = egl_helper_get_mapping surface s >>= λ window.
    ok (window, record s { surface_window_map = erase surface s.surface_window_map })

module _ (H : Host) where
  unfoldable pub do_call : Call → Surfaces → ℕ × Surfaces
  do_call c s = (H.answer s.calls c, record s { calls = c ∷ s.calls })

  -- `display` is what `hybris_egl_display_get_mapping` answers for `dpy`.
  unfoldable pub egl_create_window_surface : ℕ → ℕ → ℕ → ℕ → ℕ → Surfaces → Outcome (ℕ × Surfaces)
  egl_create_window_surface display dpy config win attrib_list s =
      let (window, s1) = do_call (ws_create_window win display) s in
      let (result, s2) = do_call (vendor_create_window_surface dpy config window attrib_list) s1 in
      if H.is_window s1.calls window
      then (egl_helper_push_mapping result window s2 >>= λ s3. ok (result, s3))
      else fault

  unfoldable pub egl_destroy_surface : ℕ → ℕ → Surfaces → Outcome (ℕ × Surfaces)
  egl_destroy_surface dpy surface s =
      let (result, s1) = do_call (vendor_destroy_surface dpy surface) s in
      if egl_helper_has_mapping surface s1
      then (egl_helper_pop_mapping surface s1 >>= λ popped.
          ok (result, (do_call (ws_destroy_window popped.0) popped.1).1))
      else ok (result, s1)

  unfoldable pub egl_swap_interval : ℕ → ℕ → Surfaces → Outcome (ℕ × Surfaces)
  egl_swap_interval dpy interval s =
      let (surface, s1) = do_call (vendor_get_current_surface H.egl_draw) s in
      (if egl_helper_has_mapping surface s1
        then (egl_helper_get_mapping surface s1 >>= λ window.
            ok (do_call (ws_set_swap_interval dpy window interval) s1).1)
        else ok s1)
      >>= λ s2. ok (do_call (vendor_swap_interval dpy interval) s2)

  unfoldable pub egl_swap_buffers_with_damage : ℕ → ℕ → ℕ → ℕ → Surfaces → Outcome (ℕ × Surfaces)
  egl_swap_buffers_with_damage dpy surface rects n_rects s =
      if egl_helper_has_mapping surface s
      then (egl_helper_get_mapping surface s >>= λ window.
          let s1 = (do_call (ws_prepare_swap dpy window rects n_rects) s).1 in
          let (ret, s2) = do_call (vendor_swap_buffers dpy surface) s1 in
          ok (ret, (do_call (ws_finish_swap dpy window) s2).1))
      else ok (do_call (vendor_swap_buffers dpy surface) s)

  unfoldable pub egl_swap_buffers : ℕ → ℕ → Surfaces → Outcome (ℕ × Surfaces)
  egl_swap_buffers dpy surface s = egl_swap_buffers_with_damage dpy surface 0 0 s
