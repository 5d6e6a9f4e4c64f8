-- ===== src/Tests/Egl.antt =====
-- Displays over a platform that counts the displays it has made.
use fake_libc.Common.{ℕ, ◌+◌, ◌≡◌, ◌≢◌, refl, [], ◌∷◌, arith}
use fake_libc.Egl.Displays.{
  Platform, Egl, egl_get_display, new_display, add_mapping, get_mapping, set_dpy, display_mappings,
}
use fake_libc.Egl.Displays.Mapping.{holds, get_display-maps, get_display-full}

-- The vendor's display is 7; the plug-in's are 1001, 1002 and so on.
abbrev counter : Platform
counter = record {
  State = ℕ;
  vendor_get_display = λ n. (7, n);
  vendor_terminate = λ d n. (1, n);
  ws_get_display = λ d n. (1001 + n, n + 1);
  ws_terminate = λ d n memory. (n, memory);
}

abbrev start : Egl counter
start = record { mappings = display_mappings; dpy = λ p. 0; host = 0 }

twice : (egl_get_display 5 (egl_get_display 5 start).1).1.host ≡ 1
unfolding egl_get_display new_display add_mapping get_mapping set_dpy display_mappings
twice = refl

get_display-maps_example :
    let (answer, e') = egl_get_display 5 start in
    (answer ≡ 7)
    × (get_mapping e'.dpy 7 e'.mappings ≡ 1001)
    × ((x : ℕ) → x ≢ 7 → get_mapping e'.dpy x e'.mappings ≡ get_mapping start.dpy x start.mappings)
    × (egl_get_display 6 e' ≡ (7, record e' { host = 1 }))
unfolding display_mappings holds get_mapping
get_display-maps_example =
    get_display-maps 5 6 7 1001 0 1 1 start refl refl refl (omega arith) (omega arith) refl refl
      refl

abbrev crowded : Egl counter
crowded = record { mappings = 900 ∷ 901 ∷ []; dpy = λ p. 3; host = 0 }

crowded_table :
    let (answer, e') = egl_get_display 5 crowded in
    (answer ≡ 7) × (e'.host ≡ 1) × (get_mapping e'.dpy 7 e'.mappings ≡ 0)
unfolding holds get_mapping
crowded_table =
    get_display-full 5 7 1001 0 1 crowded refl refl (omega arith) (omega arith) refl refl refl
