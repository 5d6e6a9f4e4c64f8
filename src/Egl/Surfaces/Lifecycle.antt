-- ===== src/Egl/Surfaces/Lifecycle.antt =====
-- A window surface from its creation to its destruction.
use fake_libc.Common.{
  ℕ, ◌≡◌, refl, ◌∙◌, ap, if◌then◌else◌, Bool, true, false, List, ◌∷◌, none, some, Outcome, ok,
  fault, ==-refl,
}
use fake_libc.Egl.Surfaces.{
  vendor_create_window_surface, vendor_destroy_surface, vendor_swap_buffers, ws_create_window,
  ws_destroy_window, ws_prepare_swap, ws_finish_swap, Host, Surfaces, find, erase, has,
  egl_helper_has_mapping, egl_helper_push_mapping, found, egl_helper_get_mapping,
  egl_helper_pop_mapping, do_call, egl_create_window_surface, egl_destroy_surface,
  egl_swap_buffers_with_damage,
}

module _ (H : Host) where
  -- The three results of the map where a surface has a window.
  mapped-has :
      (surface window : ℕ) (s : Surfaces)
      → find surface s.surface_window_map ≡ some window
      → (egl_helper_has_mapping surface s ≡ true) × (egl_helper_get_mapping surface s ≡ ok window)
  unfolding egl_helper_has_mapping egl_helper_get_mapping has found
  mapped-has surface window s e = (ap has e, ap found e)

  pub swap-mapped :
      (dpy surface rects n_rects window : ℕ) (s : Surfaces)
      → find surface s.surface_window_map ≡ some window
      → let prepared = ws_prepare_swap dpy window rects n_rects ∷ s.calls in
        egl_swap_buffers_with_damage H dpy surface rects n_rects s
        ≡ ok (
          H.answer prepared (vendor_swap_buffers dpy surface),
          record s {
            calls = ws_finish_swap dpy window ∷ vendor_swap_buffers dpy surface ∷ prepared;
          },
        )
  unfolding egl_swap_buffers_with_damage do_call
  swap-mapped dpy surface rects n_rects window s e =
      let (yes_mapped, got) = mapped-has surface window s e in rw (yes_mapped, got) refl

  pub destroy-mapped :
      (dpy surface window : ℕ) (s : Surfaces)
      → find surface s.surface_window_map ≡ some window
      → egl_destroy_surface H dpy surface s
        ≡ ok (
          H.answer s.calls (vendor_destroy_surface dpy surface),
          record {
            surface_window_map = erase surface s.surface_window_map;
            calls = ws_destroy_window window ∷ vendor_destroy_surface dpy surface ∷ s.calls;
          },
        )
  unfolding egl_destroy_surface do_call egl_helper_pop_mapping egl_helper_has_mapping
      egl_helper_get_mapping has found
  destroy-mapped dpy surface window s e = rw e refl

  create-free :
      (display dpy config win attrib_list window surface : ℕ) (s : Surfaces)
      → H.answer s.calls (ws_create_window win display) ≡ window
      → H.is_window (ws_create_window win display ∷ s.calls) window ≡ true
      → H.answer
          (ws_create_window win display ∷ s.calls)
          (vendor_create_window_surface dpy config window attrib_list)
        ≡ surface
      → find surface s.surface_window_map ≡ none
      → egl_create_window_surface H display dpy config win attrib_list s
        ≡ ok (
          surface,
          record {
            surface_window_map = (surface, window) ∷ s.surface_window_map;
            calls =
                vendor_create_window_surface dpy config window attrib_list
                ∷ ws_create_window win display
                ∷ s.calls;
          },
        )
  unfolding egl_create_window_surface do_call egl_helper_push_mapping egl_helper_has_mapping has
  create-free display dpy config win attrib_list window surface s made magic answered free =
      rw (made, magic, answered, free) refl

  first_found :
      (surface window : ℕ) (m : List (ℕ × ℕ))
      → (find surface ((surface, window) ∷ m) ≡ some window)
        × (erase surface ((surface, window) ∷ m) ≡ m)
  unfolding find erase
  first_found surface window m = rw (==-refl surface) (refl, refl)

  -- If the plug-in answers a window with the magic number, and the vendor a surface that the
  -- table does not have: the creation answers this surface; a swap of it calls the plug-in
  -- before and behind the vendor's, with this window; and its destruction answers what the
  -- vendor's answers, destroys the window and gives the table back.
  pub create-swap-destroy :
      (display dpy config win attrib_list rects n_rects window surface : ℕ) (s : Surfaces)
      → H.answer s.calls (ws_create_window win display) ≡ window
      → H.is_window (ws_create_window win display ∷ s.calls) window ≡ true
      → H.answer
          (ws_create_window win display ∷ s.calls)
          (vendor_create_window_surface dpy config window attrib_list)
        ≡ surface
      → find surface s.surface_window_map ≡ none
      → let created : Surfaces = record {
        surface_window_map = (surface, window) ∷ s.surface_window_map;
        calls =
            vendor_create_window_surface dpy config window attrib_list
            ∷ ws_create_window win display
            ∷ s.calls;
      } in
        let prepared = ws_prepare_swap dpy window rects n_rects ∷ created.calls in
        (egl_create_window_surface H display dpy config win attrib_list s ≡ ok (surface, created))
        × (egl_swap_buffers_with_damage H dpy surface rects n_rects created
            ≡ ok (
              H.answer prepared (vendor_swap_buffers dpy surface),
              record created {
                calls = ws_finish_swap dpy window ∷ vendor_swap_buffers dpy surface ∷ prepared;
              },
            ))
        × (egl_destroy_surface H dpy surface created
            ≡ ok (
              H.answer created.calls (vendor_destroy_surface dpy surface),
              record {
                surface_window_map = s.surface_window_map;
                calls =
                    ws_destroy_window window ∷ vendor_destroy_surface dpy surface ∷ created.calls;
              },
            ))
  create-swap-destroy display dpy config win attrib_list rects n_rects window surface s made magic
        answered free =
      let created : Surfaces = record {
        surface_window_map = (surface, window) ∷ s.surface_window_map;
        calls =
            vendor_create_window_surface dpy config window attrib_list
            ∷ ws_create_window win display
            ∷ s.calls;
      } in
      let (at, gone) = first_found surface window s.surface_window_map in
      let ending : List (ℕ × ℕ) → Outcome (ℕ × Surfaces) = λ m. ok (
        H.answer created.calls (vendor_destroy_surface dpy surface),
        record {
          surface_window_map = m;
          calls = ws_destroy_window window ∷ vendor_destroy_surface dpy surface ∷ created.calls;
        },
      ) in
      (
        create-free display dpy config win attrib_list window surface s made magic answered free,
        swap-mapped dpy surface rects n_rects window created at,
        destroy-mapped dpy surface window created at ∙ ap ending gone,
      )

  -- If the vendor answers EGL_NO_SURFACE, and the table has a window for EGL_NO_SURFACE, which
  -- an earlier failure has left there, the creation fails an assertion.
  pub create-mapped :
      (display dpy config win attrib_list window : ℕ) (s : Surfaces)
      → H.answer (ws_create_window win display ∷ s.calls) (
          vendor_create_window_surface dpy config
            (H.answer s.calls (ws_create_window win display))
            attrib_list)
        ≡ 0
      → find 0 s.surface_window_map ≡ some window
      → egl_create_window_surface H display dpy config win attrib_list s ≡ fault
  unfolding egl_create_window_surface do_call egl_helper_push_mapping egl_helper_has_mapping has
  create-mapped display dpy config win attrib_list window s failed mapped =
      rw (failed, mapped)
        (ends (
          H.is_window (ws_create_window win display ∷ s.calls)
            (H.answer s.calls (ws_create_window win display))))
    where
      failure : Outcome (ℕ × Surfaces)
      failure = fault

      ends : (b : Bool) → (if b then failure else failure) ≡ failure
      ends true = refl
      ends false = refl
