-- ===== src/Egl/Displays/Deletion.antt =====
-- Displays over the plug-ins of the framebuffer and of hwcomposer, which delete a display at `eglTerminate`.
use fake_libc.Common.{
  ℕ, ◌≡◌, ◌≢◌, refl, ◌∙◌, ap, true, false, List, [], ◌∷◌, Outcome, ok, fault, arith,
}
use fake_libc.Egl.Displays.{get_mapping, add_mapping, Platform, Egl, egl_get_display, egl_terminate}
use fake_libc.Egl.Displays.Mapping.{holds, get_display-new, get_mapping-new}
use fake_libc.Windows.Plugin.{Plugin, get_display, terminate}

-- `GetDisplay` fails no assertion behind `init_module`.
unfoldable pub answered : Outcome ℕ → ℕ
answered (ok dpy) = dpy
answered fault = 0

-- The vendor's two functions on a state of their own, the object that `new` makes after a deletion of
-- others, and what the deletion of an object leaves in the memory.
abbrev pub deleting :
    {W V : Type 0}
    → (V → ℕ × V)
    → (ℕ → V → ℕ × V)
    → (Plugin W → ℕ)
    → (ℕ → (ℕ → ℕ) → ℕ → ℕ)
    → Platform
deleting {W = W} {V = V} vendor_get vendor_terminate made left = record {
  State = V × Plugin W;
  vendor_get_display = λ h. let (d, v) = vendor_get h.0 in (d, (v, h.1));
  vendor_terminate = λ d h. let (r, v) = vendor_terminate d h.0 in (r, (v, h.1));
  ws_get_display = λ d h. (answered (get_display (made h.1) d h.1), h);
  ws_terminate = λ d h memory. ((h.0, terminate d h.1), left d memory);
}

-- The row that `_addMapping` has filled, whatever the memory holds by then.
get_mapping-add_mapping :
    (memory : ℕ → ℕ) (p v : ℕ) (ms : List ℕ)
    → p ≢ 0
    → holds 0 ms ≡ true
    → memory p ≡ v
    → get_mapping memory v ms ≡ 0
    → get_mapping memory v (add_mapping p ms) ≡ p
unfolding get_mapping holds add_mapping
get_mapping-add_mapping memory p v [] nz room at none_yet = cc
get_mapping-add_mapping memory p v (m ∷ ms) nz room at none_yet =
    ground (arith, get_mapping-add_mapping memory p v ms)

module _ {W V : Type 0} (vendor_get : V → ℕ × V) (vendor_terminate : ℕ → V → ℕ × V)
    (made : Plugin W → ℕ) (left : ℕ → (ℕ → ℕ) → ℕ → ℕ) where
  abbrev platform : Platform
  platform = deleting vendor_get vendor_terminate made left

  -- `eglTerminate` leaves the table.
  terminate-keeps : (dpy : ℕ) (e : Egl platform) → (egl_terminate dpy e).1.mappings ≡ e.mappings
  unfolding egl_terminate
  terminate-keeps dpy e = refl

  terminate-deletes :
      (dpy p : ℕ) (e : Egl platform)
      → get_mapping e.dpy dpy e.mappings ≡ p
      → p ≢ 0
      → (egl_terminate dpy e).1.host.1.deleted_displays ≡ p ∷ e.host.1.deleted_displays
  unfolding egl_terminate terminate
  terminate-deletes dpy p e found nz = ground arith

  get_display-made :
      (v : V) (s : Plugin W) → s.gralloc ≢ 0 → platform.ws_get_display 0 (v, s) ≡ (made s, (v, s))
  unfolding answered get_display
  get_display-made v s ready = ground arith

  -- Over a plug-in that deletes displays, loaded, where the table is empty for the vendor's
  -- display but has a free row, and `new` answers an object that the table does not hold:
  -- eglTerminate of the display that eglGetDisplay has answered deletes the object and leaves
  -- its address in the table. Whatever the memory, where it can still be read, holds by the next
  -- call: of the value that then stands where the object was, if no display of the earlier table
  -- has it, the look-up finds the deleted object, and eglTerminate of that value deletes it once
  -- more.
  pub terminate_twice :
      (real : ℕ) (v1 : V) (e : Egl platform) (other : ℕ) (memory : ℕ → ℕ)
      → vendor_get e.host.0 ≡ (real, v1)
      → real ≢ 0
      → e.host.1.gralloc ≢ 0
      → made e.host.1 ≢ 0
      → get_mapping e.dpy real e.mappings ≡ 0
      → holds (made e.host.1) e.mappings ≡ false
      → holds 0 e.mappings ≡ true
      → memory (made e.host.1) ≡ other
      → get_mapping memory other e.mappings ≡ 0
      → let p = made e.host.1 in
        let (answer, e1) = egl_get_display 0 e in
        let e2 = (egl_terminate real e1).1 in
        let e3 = (egl_terminate other (record e2 { dpy = memory })).1 in
        (answer ≡ real)
        × (e2.host.1.deleted_displays ≡ p ∷ e.host.1.deleted_displays)
        × (get_mapping memory other e2.mappings ≡ p)
        × (e3.host.1.deleted_displays ≡ p ∷ p ∷ e.host.1.deleted_displays)
  terminate_twice real v1 e other memory vendor real_nz ready made_nz none_yet fresh room at
        no_other =
      let s = e.host.1 in
      let p = made s in
      let get : platform.vendor_get_display e.host ≡ (real, (v1, s)) =
        ap (λ d. (d.0, (d.1, s))) vendor in
      let run =
        get_display-new 0 real p (v1, s) (v1, s) e get (get_display-made v1 s ready) real_nz made_nz
          none_yet in
      let e1 = (egl_get_display 0 e).1 in
      let e2 = (egl_terminate real e1).1 in
      let found : get_mapping e1.dpy real e1.mappings ≡ p =
        rw run (get_mapping-new e.dpy p real e.mappings made_nz fresh room none_yet) in
      let table : e2.mappings ≡ add_mapping p e.mappings =
        terminate-keeps real e1 ∙ ap (λ r. r.1.mappings) run in
      let found' : get_mapping memory other e2.mappings ≡ p =
        rw table (get_mapping-add_mapping memory p other e.mappings made_nz room at no_other) in
      let first : e2.host.1.deleted_displays ≡ p ∷ s.deleted_displays =
        terminate-deletes real p e1 found made_nz ∙ ap (λ r. p ∷ r.1.host.1.deleted_displays) run in
      let second = terminate-deletes other p (record e2 { dpy = memory }) found' made_nz in
      (ap (λ r. r.0) run, first, found', second ∙ ap (λ d. p ∷ d) first)
