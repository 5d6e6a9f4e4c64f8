-- ===== src/Egl/Surfaces/Balance.antt =====
-- The plug-in's windows: each is held by the map or has been destroyed.
use fake_libc.Common.{
  ℕ, ◌+◌, ◌≡◌, refl, sym, ◌∙◌, ap, ◌==◌, if◌then◌else◌, Bool, List, [], ◌∷◌, none, some, Outcome,
  ok, arith, Option-cases, ok-injective, inl, inr,
}
use mathlib.Core.Path.{subst}
use fake_libc.Egl.Surfaces.Lifecycle.{swap-mapped, destroy-mapped}
use fake_libc.Egl.Surfaces.{
  Call, vendor_create_window_surface, vendor_destroy_surface, vendor_swap_buffers,
  vendor_swap_interval, vendor_get_current_surface, ws_create_window, ws_destroy_window,
  ws_set_swap_interval, Host, Surfaces, find, erase, has, egl_helper_has_mapping,
  egl_helper_push_mapping, found, egl_helper_get_mapping, do_call, egl_create_window_surface,
  egl_destroy_surface, egl_swap_buffers_with_damage, egl_swap_interval,
}

unfoldable pub one : Bool → ℕ
one b = if b then 1 else 0

-- How often a window has been given to the vendor, and how often it has been destroyed.
unfoldable pub given : ℕ → List Call → ℕ
given x [] = 0
given x (vendor_create_window_surface dpy config window attribs ∷ cs) =
    one (window == x) + given x cs
given x (c ∷ cs) = given x cs

unfoldable pub destroyed : ℕ → List Call → ℕ
destroyed x [] = 0
destroyed x (ws_destroy_window window ∷ cs) = one (window == x) + destroyed x cs
destroyed x (c ∷ cs) = destroyed x cs

-- How many surfaces of the map have the window.
unfoldable pub mapped : ℕ → List (ℕ × ℕ) → ℕ
mapped x [] = 0
mapped x ((s, window) ∷ rest) = one (window == x) + mapped x rest

unfoldable pub IsBalanced : ℕ → Surfaces → Type 0
IsBalanced x s = given x s.calls ≡ destroyed x s.calls + mapped x s.surface_window_map

erase-mapped :
    (x surface window : ℕ) (m : List (ℕ × ℕ))
    → find surface m ≡ some window
    → mapped x m ≡ one (window == x) + mapped x (erase surface m)
unfolding find erase mapped
erase-mapped x surface window [] e = ground arith
erase-mapped x surface window ((s, w) ∷ rest) e = ground (arith, erase-mapped x surface window rest)

module _ (H : Host) where
  pub data Step : Surfaces → Surfaces → Type 0 where
    creates :
        (display dpy config win attrib_list result : ℕ) (s r : Surfaces)
        → egl_create_window_surface H display dpy config win attrib_list s ≡ ok (result, r)
        → Step s r
    destroys :
        (dpy surface result : ℕ) (s r : Surfaces)
        → egl_destroy_surface H dpy surface s ≡ ok (result, r)
        → Step s r
    swaps :
        (dpy surface rects n_rects result : ℕ) (s r : Surfaces)
        → egl_swap_buffers_with_damage H dpy surface rects n_rects s ≡ ok (result, r)
        → Step s r
    sets_interval :
        (dpy interval result : ℕ) (s r : Surfaces)
        → egl_swap_interval H dpy interval s ≡ ok (result, r)
        → Step s r

  pub data Run (s : Surfaces) : Surfaces → Type 0 where
    here : Run s s
    next : {r q : Surfaces} → Run s r → Step r q → Run s q

  -- What a creation that returns has done.
  create-window :
      (display dpy config win attrib_list result : ℕ) (s r : Surfaces)
      → egl_create_window_surface H display dpy config win attrib_list s ≡ ok (result, r)
      → (window : ℕ) × (r ≡ record {
        surface_window_map = (result, window) ∷ s.surface_window_map;
        calls =
            vendor_create_window_surface dpy config window attrib_list
            ∷ ws_create_window win display
            ∷ s.calls;
      })
  unfolding egl_create_window_surface do_call egl_helper_push_mapping egl_helper_has_mapping
  create-window display dpy config win attrib_list result s r e =
      (H.answer s.calls (ws_create_window win display), ground (arith, e))

  create-IsBalanced :
      (x display dpy config win attrib_list result : ℕ) (s r : Surfaces)
      → egl_create_window_surface H display dpy config win attrib_list s ≡ ok (result, r)
      → IsBalanced x s
      → IsBalanced x r
  unfolding IsBalanced given destroyed mapped
  create-IsBalanced x display dpy config win attrib_list result s r e v =
      let (window, made) = create-window display dpy config win attrib_list result s r e in
      rw made (omega (arith, v))

  destroy-unmapped :
      (dpy surface : ℕ) (s : Surfaces)
      → find surface s.surface_window_map ≡ none
      → egl_destroy_surface H dpy surface s
        ≡ ok (
          H.answer s.calls (vendor_destroy_surface dpy surface),
          record s { calls = vendor_destroy_surface dpy surface ∷ s.calls },
        )
  unfolding egl_destroy_surface do_call egl_helper_has_mapping has
  destroy-unmapped dpy surface s e = rw e refl

  swap-unmapped :
      (dpy surface rects n_rects : ℕ) (s : Surfaces)
      → find surface s.surface_window_map ≡ none
      → egl_swap_buffers_with_damage H dpy surface rects n_rects s
        ≡ ok (
          H.answer s.calls (vendor_swap_buffers dpy surface),
          record s { calls = vendor_swap_buffers dpy surface ∷ s.calls },
        )
  unfolding egl_swap_buffers_with_damage do_call egl_helper_has_mapping has
  swap-unmapped dpy surface rects n_rects s e = rw e refl

  -- The state that an operation leaves, from the equation that computes it.
  leaves : {run : Outcome (ℕ × Surfaces)} (a b : ℕ × Surfaces) → run ≡ ok a → run ≡ ok b → a.1 ≡ b.1
  leaves a b computed e = ap (λ p. p.1) (ok-injective a b (sym computed ∙ e))

  destroy-IsBalanced :
      (x dpy surface result : ℕ) (s r : Surfaces)
      → egl_destroy_surface H dpy surface s ≡ ok (result, r)
      → IsBalanced x s
      → IsBalanced x r
  unfolding IsBalanced given destroyed mapped
  destroy-IsBalanced x dpy surface result s r e v =
      elim (Option-cases (find surface s.surface_window_map)) [
        | inl gone ↦
            subst (IsBalanced x) (leaves _ (result, r) (destroy-unmapped dpy surface s gone) e) v
        | inr (w, at) ↦
            let fewer = erase-mapped x surface w s.surface_window_map at in
            subst (IsBalanced x) (leaves _ (result, r) (destroy-mapped H dpy surface w s at) e)
              (omega (arith, v, fewer))
      ]

  swap-IsBalanced :
      (x dpy surface rects n_rects result : ℕ) (s r : Surfaces)
      → egl_swap_buffers_with_damage H dpy surface rects n_rects s ≡ ok (result, r)
      → IsBalanced x s
      → IsBalanced x r
  unfolding IsBalanced given destroyed mapped
  swap-IsBalanced x dpy surface rects n_rects result s r e v =
      elim (Option-cases (find surface s.surface_window_map)) [
        | inl gone ↦
            subst (IsBalanced x)
              (leaves _ (result, r) (swap-unmapped dpy surface rects n_rects s gone) e) v
        | inr (w, at) ↦
            subst (IsBalanced x)
              (leaves _ (result, r) (swap-mapped H dpy surface rects n_rects w s at) e) v
      ]

  interval-unmapped :
      (dpy interval : ℕ) (s : Surfaces)
      → let current = vendor_get_current_surface H.egl_draw in
        find (H.answer s.calls current) s.surface_window_map ≡ none
        → egl_swap_interval H dpy interval s
          ≡ ok (
            H.answer (current ∷ s.calls) (vendor_swap_interval dpy interval),
            record s { calls = vendor_swap_interval dpy interval ∷ current ∷ s.calls },
          )
  unfolding egl_swap_interval do_call egl_helper_has_mapping has
  interval-unmapped dpy interval s e = rw e refl

  interval-mapped :
      (dpy interval w : ℕ) (s : Surfaces)
      → let current = vendor_get_current_surface H.egl_draw in
        let told = ws_set_swap_interval dpy w interval ∷ current ∷ s.calls in
        find (H.answer s.calls current) s.surface_window_map ≡ some w
        → egl_swap_interval H dpy interval s
          ≡ ok (
            H.answer told (vendor_swap_interval dpy interval),
            record s { calls = vendor_swap_interval dpy interval ∷ told },
          )
  unfolding egl_swap_interval do_call egl_helper_has_mapping egl_helper_get_mapping has found
  interval-mapped dpy interval w s e = rw e refl

  interval-IsBalanced :
      (x dpy interval result : ℕ) (s r : Surfaces)
      → egl_swap_interval H dpy interval s ≡ ok (result, r)
      → IsBalanced x s
      → IsBalanced x r
  unfolding IsBalanced given destroyed mapped
  interval-IsBalanced x dpy interval result s r e v =
      elim (Option-cases
        (find (H.answer s.calls (vendor_get_current_surface H.egl_draw)) s.surface_window_map)) [
          | inl gone ↦
              subst (IsBalanced x) (leaves _ (result, r) (interval-unmapped dpy interval s gone) e)
                v
          | inr (w, at) ↦
              subst (IsBalanced x) (leaves _ (result, r) (interval-mapped dpy interval w s at) e) v
        ]

  Step-IsBalanced : (x : ℕ) {s r : Surfaces} → Step s r → IsBalanced x s → IsBalanced x r
  Step-IsBalanced x (creates display dpy config win attribs result s r e) v =
      create-IsBalanced x display dpy config win attribs result s r e v
  Step-IsBalanced x (destroys dpy surface result s r e) v =
      destroy-IsBalanced x dpy surface result s r e v
  Step-IsBalanced x (swaps dpy surface rects n_rects result s r e) v =
      swap-IsBalanced x dpy surface rects n_rects result s r e v
  Step-IsBalanced x (sets_interval dpy interval result s r e) v =
      interval-IsBalanced x dpy interval result s r e v

  -- In every state that creations, destructions, swaps and interval changes that return reach
  -- from an empty table, whatever the vendor and the plug-in answer: a window has been given to
  -- the vendor as often as it has been destroyed and is in the table together.
  pub Run-balance :
      {r : Surfaces} (x : ℕ)
      → Run (record { surface_window_map = []; calls = [] }) r
      → given x r.calls ≡ destroyed x r.calls + mapped x r.surface_window_map
  unfolding IsBalanced given destroyed mapped
  Run-balance x here = omega arith
  Run-balance x (next p st) = Step-IsBalanced x st (Run-balance x p)
