-- ===== src/Tests/EglCalls.antt =====
-- The calls of EGL on a vendor and a plug-in that answer numbers of their own.
use fake_libc.Common.{List, zero, suc, ℕ, ◌+◌, ◌≡◌, refl, true, [], ◌∷◌, none, some, ok, arith, inl}
use fake_libc.Egl.Forwarders
use fake_libc.Egl.Forwarders.{Symbols}
use fake_libc.Egl.Forwarders.Calls.{Provides, AllForward, all_forward}
use fake_libc.Egl.Plugin
use fake_libc.Egl.Plugin.{Slot, init_module, prepare_swap, finish_swap, terminate}
use fake_libc.Egl.Plugin.Loading.{
  Request, required, optional, serve_all, served, has_all, serve_all-once,
}
use fake_libc.Egl.Surfaces
use fake_libc.Egl.Surfaces.{
  Call, vendor_create_window_surface, vendor_destroy_surface, vendor_swap_buffers, ws_create_window,
  ws_destroy_window, ws_prepare_swap, ws_finish_swap, Surfaces, find, has, egl_helper_has_mapping,
  egl_helper_push_mapping, do_call, egl_create_window_surface, egl_destroy_surface,
  egl_swap_buffers_with_damage,
}
use fake_libc.Egl.Surfaces.Lifecycle.{create-swap-destroy}
use fake_libc.Egl.Surfaces.Balance.{given, destroyed, mapped, here, next, creates, Run-balance}
use fake_libc.Egl.Contexts
use fake_libc.Egl.Contexts.{
  Contexts, egl_create_context, egl_get_proc_address, file_or, symbol, fall_back,
}
use fake_libc.Egl.Contexts.Resolution.{
  flatten, has_none, last_version, gles_symbol, resolve, create-resolve,
}

abbrev vendor : Forwarders.Vendor
vendor = record {
  android_dlopen = λ name. 40;
  dlsym = λ lib name. lib + 2;
  libegl = none;
  answer = λ calls p args. p;
}

vendor-Provides : Provides vendor
vendor-Provides = record { finds = λ f h e. absurd (omega (arith, e)) }

abbrev unloaded : Symbols
unloaded = record { egl_handle = 0; pointer = λ f. 0; calls = [] }

all_forward_example : AllForward vendor unloaded 1 2 3 4 5
all_forward_example =
    all_forward vendor vendor-Provides unloaded
      (record { handle = inl refl; pointers = λ f. inl refl }) 1 2 3 4 5

-- A plug-in whose windows are at 900, and a vendor whose surfaces are at 70, but for the configuration 0, for
-- which it makes none.
abbrev answers : Call → ℕ
answers (vendor_create_window_surface dpy zero window attribs) = 0
answers (vendor_create_window_surface dpy (suc config) window attribs) = 70
answers (ws_create_window win display) = 900
answers c = 1

abbrev host : Surfaces.Host
host = record { answer = λ calls c. answers c; is_window = λ calls w. true; egl_draw = 3 }

abbrev nothing : Surfaces
nothing = record { surface_window_map = []; calls = [] }

abbrev created : Surfaces
created = record {
  surface_window_map = (70, 900) ∷ [];
  calls = vendor_create_window_surface 7 2 900 0 ∷ ws_create_window 11 5 ∷ [];
}

create-swap-destroy_example :
    (egl_create_window_surface host 5 7 2 11 0 nothing ≡ ok (70, created))
    × (egl_swap_buffers_with_damage host 7 70 0 0 created
        ≡ ok (
          1,
          record created {
            calls =
                ws_finish_swap 7 900
                ∷ vendor_swap_buffers 7 70
                ∷ ws_prepare_swap 7 900 0 0
                ∷ created.calls;
          },
        ))
    × (egl_destroy_surface host 7 70 created
        ≡ ok (
          1,
          record {
            surface_window_map = [];
            calls = ws_destroy_window 900 ∷ vendor_destroy_surface 7 70 ∷ created.calls;
          },
        ))
unfolding find
create-swap-destroy_example =
    create-swap-destroy host 5 7 2 11 0 0 0 900 70 nothing refl refl refl refl

abbrev half_created : Surfaces
half_created = record created { surface_window_map = (0, 900) ∷ [] }

first_created : egl_create_window_surface host 5 7 2 11 0 nothing ≡ ok (70, created)
unfolding egl_create_window_surface do_call egl_helper_push_mapping egl_helper_has_mapping find has
first_created = refl

Run-balance_example :
    given 900 created.calls ≡ destroyed 900 created.calls + mapped 900 created.surface_window_map
Run-balance_example =
    Run-balance host 900 (next here (creates 5 7 2 11 0 70 nothing created first_created))

abbrev linker : Contexts.Host
linker = record {
  egl_none = 0x3038;
  egl_context_client_version = 0x3098;
  dlopen = λ name. 50;
  dlsym = λ lib name. lib + 1;
  ws_egl_get_proc_address = λ name. 0;
  vendor_get_proc_address = λ name. 8;
  vendor_create_context = λ d c s a. 31;
  hybris_libglesv1 = none;
  hybris_libglesv2 = none;
  my_egl_create_image_khr = 101;
  egl_destroy_image_khr = 102;
  my_egl_swap_buffers_with_damage_ext = 103;
  my_gl_egl_image_target_texture_2d_oes = 104;
}

abbrev fresh : Contexts
fresh = record { client_version = 1; libgles1 = 0; libgles2 = 0 }

create-resolve_example :
    (r : Contexts) × (egl_create_context linker 1 2 3 (some (0x3098 ∷ 2 ∷ 0x3038 ∷ [])) fresh
      ≡ ok (31, r))
    × ((egl_get_proc_address linker "glClear" r).0 ≡ 51)
    × ((egl_get_proc_address linker "glClear"
          (egl_get_proc_address linker "eglCreateImageKHR" r).1).0
        ≡ 51)
unfolding flatten has_none last_version resolve gles_symbol file_or symbol fall_back
create-resolve_example =
    create-resolve linker 1 2 3 ((0x3098, 2) ∷ []) [] "glClear" "eglCreateImageKHR" fresh refl
      (record { first = inl refl; second = inl refl })

-- A plug-in that lacks `prepareSwap`.
abbrev slots : Slot → ℕ
slots prepare_swap = 0
slots f = 600

abbrev platform : Plugin.Host
platform = record {
  hybris_eglplatform = none;
  egl_platform = some "fbdev";
  default_egl_platform = "null";
  dlopen = λ name. 60;
  module_info = λ wsmod. wsmod + 4;
  slot = λ ws f. slots f;
  answer = λ calls f args. 1;
}

abbrev swap : List Request
swap =
    optional prepare_swap (7 ∷ [])
    ∷ optional finish_swap (7 ∷ [])
    ∷ required terminate (5 ∷ [])
    ∷ []

serve_all-once_example :
    serve_all platform swap (record { ws = 0; calls = [] })
    ≡ ok (record { ws = 64; calls = served platform 64 swap ((init_module, 0 ∷ []) ∷ []) })
unfolding has_all
serve_all-once_example =
    serve_all-once platform (optional prepare_swap (7 ∷ []))
      (optional finish_swap (7 ∷ []) ∷ required terminate (5 ∷ []) ∷ []) (omega arith) (omega arith)
      (omega arith) refl
