-- ===== src/Egl/Displays/Mapping.antt =====
-- What the table answers after `eglGetDisplay`.
use fake_libc.Common.{
  ℕ, ◌≡◌, ◌≢◌, refl, ◌==◌, Bool, true, false, ◌||◌, List, [], ◌∷◌, arith, ne→==, sym, ◌∙◌,
}
use fake_libc.Egl.Displays.{
  add_mapping, get_mapping, set_dpy, Platform, Egl, new_display, egl_get_display,
}

-- An address stands in the table. A free row is the address 0.
unfoldable pub holds : ℕ → List ℕ → Bool
holds p [] = false
holds p (m ∷ ms) = m == p || holds p ms

get_mapping-set_dpy :
    (dpy : ℕ → ℕ) (p v x : ℕ) (ms : List ℕ)
    → holds p ms ≡ false
    → get_mapping (set_dpy dpy p v) x ms ≡ get_mapping dpy x ms
unfolding get_mapping holds set_dpy
get_mapping-set_dpy dpy p v x [] h = refl
get_mapping-set_dpy dpy p v x (m ∷ ms) h = ground (arith, get_mapping-set_dpy dpy p v x ms)

pub get_mapping-new :
    (dpy : ℕ → ℕ) (p v : ℕ) (ms : List ℕ)
    → p ≢ 0
    → holds p ms ≡ false
    → holds 0 ms ≡ true
    → get_mapping dpy v ms ≡ 0
    → get_mapping (set_dpy dpy p v) v (add_mapping p ms) ≡ p
unfolding get_mapping holds set_dpy add_mapping
get_mapping-new dpy p v [] nz fresh room none_yet = cc
get_mapping-new dpy p v (m ∷ ms) nz fresh room none_yet = ground (arith, get_mapping-new dpy p v ms)

get_mapping-other :
    (dpy : ℕ → ℕ) (p v x : ℕ) (ms : List ℕ)
    → x ≢ v
    → holds p ms ≡ false
    → get_mapping (set_dpy dpy p v) x (add_mapping p ms) ≡ get_mapping dpy x ms
unfolding get_mapping holds set_dpy add_mapping
get_mapping-other dpy p v x [] ne fresh = refl
get_mapping-other dpy p v x (m ∷ ms) ne fresh =
    ground (arith, get_mapping-other dpy p v x ms, get_mapping-set_dpy dpy p v x ms)

add_mapping-full : (p : ℕ) (ms : List ℕ) → holds 0 ms ≡ false → add_mapping p ms ≡ ms
unfolding holds add_mapping
add_mapping-full p [] full = refl
add_mapping-full p (m ∷ ms) full = ground (arith, add_mapping-full p ms)

module _ {P : Platform} where
  -- The result and the state of `eglGetDisplay` for a display that the table does not have.
  pub get_display-new :
      (display_id real p : ℕ) (h1 h2 : P.State) (e : Egl P)
      → P.vendor_get_display e.host ≡ (real, h1)
      → P.ws_get_display display_id h1 ≡ (p, h2)
      → real ≢ 0
      → p ≢ 0
      → get_mapping e.dpy real e.mappings ≡ 0
      → egl_get_display display_id e ≡ (
        real,
        record { mappings = add_mapping p e.mappings; dpy = set_dpy e.dpy p real; host = h2 },
      )
  unfolding egl_get_display new_display
  get_display-new display_id real p h1 h2 e vendor plugin real_nz p_nz none_yet =
      let here : (get_mapping e.dpy real e.mappings == 0) ≡ true = ground arith in
      rw (vendor, ne→== real 0 real_nz, here, plugin, ne→== p 0 p_nz) refl

  get_display-known :
      (display_id real : ℕ) (h : P.State) (e : Egl P)
      → P.vendor_get_display e.host ≡ (real, h)
      → real ≢ 0
      → get_mapping e.dpy real e.mappings ≢ 0
      → egl_get_display display_id e ≡ (real, record e { host = h })
  unfolding egl_get_display
  get_display-known display_id real h e vendor real_nz known =
      rw (vendor, ne→== real 0 real_nz, ne→== (get_mapping e.dpy real e.mappings) 0 known) refl

  -- Where the vendor's library answers a display, the table has none for it but a free row, and
  -- the plug-in answers an address that the table does not hold: eglGetDisplay answers the
  -- vendor's display, the table then has the plug-in's for it, and for every other display what
  -- it had; and a second call, for which the vendor's library answers the same display, answers
  -- it without asking the plug-in and leaves the table.
  pub get_display-maps :
      (display_id again real p : ℕ) (h1 h2 h3 : P.State) (e : Egl P)
      → P.vendor_get_display e.host ≡ (real, h1)
      → P.ws_get_display display_id h1 ≡ (p, h2)
      → P.vendor_get_display h2 ≡ (real, h3)
      → real ≢ 0
      → p ≢ 0
      → get_mapping e.dpy real e.mappings ≡ 0
      → holds p e.mappings ≡ false
      → holds 0 e.mappings ≡ true
      → let (answer, e') = egl_get_display display_id e in
        (answer ≡ real)
        × (get_mapping e'.dpy real e'.mappings ≡ p)
        × ((x : ℕ) → x ≢ real → get_mapping e'.dpy x e'.mappings ≡ get_mapping e.dpy x e.mappings)
        × (egl_get_display again e' ≡ (real, record e' { host = h3 }))
  get_display-maps display_id again real p h1 h2 h3 e vendor plugin later real_nz p_nz none_yet
        fresh room =
      let found = get_mapping-new e.dpy p real e.mappings p_nz fresh room none_yet in
      rw (get_display-new display_id real p h1 h2 e vendor plugin real_nz p_nz none_yet) (
        refl,
        found,
        λ x ne. get_mapping-other e.dpy p real x e.mappings ne fresh,
        get_display-known again real h3 _ later real_nz (λ z. p_nz (sym found ∙ z)),
      )

  -- Where the table has no display for the vendor's and no free row, each call of eglGetDisplay asks the
  -- plug-in for one, and the table has none for it afterwards either.
  pub get_display-full :
      (display_id real p : ℕ) (h1 h2 : P.State) (e : Egl P)
      → P.vendor_get_display e.host ≡ (real, h1)
      → P.ws_get_display display_id h1 ≡ (p, h2)
      → real ≢ 0
      → p ≢ 0
      → get_mapping e.dpy real e.mappings ≡ 0
      → holds p e.mappings ≡ false
      → holds 0 e.mappings ≡ false
      → let (answer, e') = egl_get_display display_id e in
        (answer ≡ real) × (e'.host ≡ h2) × (get_mapping e'.dpy real e'.mappings ≡ 0)
  get_display-full display_id real p h1 h2 e vendor plugin real_nz p_nz none_yet fresh full =
      rw
        (
          get_display-new display_id real p h1 h2 e vendor plugin real_nz p_nz none_yet,
          add_mapping-full p e.mappings full,
        )
        (refl, refl, get_mapping-set_dpy e.dpy p real real e.mappings fresh ∙ none_yet)
