-- ===== src/Tests/Plugins.antt =====
-- The framebuffer's plug-in with one window of two buffers, and displays over a plug-in.
use fake_libc.Common.{
  replicate, min, ℕ, ◌+◌, ◌≡◌, refl, ◌==◌, if◌then◌else◌, true, false, ◌&&◌, [], ◌∷◌, ◌++◌, Option,
  some, ok, fault, List, length, take, pos, arith,
}
use fake_libc.Windows.Fbdev
use fake_libc.Windows.Fbdev.{Build, Device, Buffer, Answer, Window, destroy_buffers}
use fake_libc.Windows.Fbdev.Flags.{is_in, are_distinct}
use fake_libc.Windows.Fbdev.References.{occurrences, Held, destroy_buffers-deletes}
use fake_libc.Windows.Plugin.{Plugin, fbdevws_create_window, fbdevws_destroy_window}
use fake_libc.Windows.Plugin.Counts.{inc_all, dec_all}
use fake_libc.Windows.Plugin.Lifetime.{create-destroy}
use fake_libc.Egl.Displays.{Egl, egl_get_display, egl_terminate, get_mapping}
use fake_libc.Egl.Displays.Mapping.{holds}
use fake_libc.Egl.Displays.Deletion.{deleting, terminate_twice}
use fake_libc.Egl.QueryString.{
  hybris_extensions, eglextensionsbuf, in_buffer, of_vendor, or_empty,
  eglplatformcommon_egl_query_string,
}
use fake_libc.Egl.QueryString.Extensions.{positive-NoNul, text_in, query_string-extensions}

abbrev android_5 : Build
android_5 = record { usage_hw_fb = 4096; front_serves = false; counts_framebuffers = true }

abbrev screen : Device
screen = record { width = 640; height = 480; format = 1; num_framebuffers = 2 }

-- Every object has one reference of the window's, and a client has one more of the object at 101.
abbrev heap : ℕ → Buffer
heap p = record {
  width = 0;
  height = 0;
  format = 0;
  usage = 0;
  handle = 0;
  stride = 0;
  refcount = if p == 101 then 2 else 1;
  busy = 0;
  status = 0;
  alloc = 60;
}

abbrev refs : ℕ → ℕ
refs p = if p == 101 then 1 else 0

abbrev full : Window
full = record {
  alloc = 60;
  device = screen;
  usage = 4096;
  buf_format = 1;
  buffer_count = 2;
  free_bufs = pos 2;
  allocate_buffers = false;
  buf_list = 100 ∷ 101 ∷ [];
  front_buf = 0;
  buffers = heap;
  deleted = [];
  freed = [];
}

full-Held : Held refs heap (100 ∷ 101 ∷ [])
full-Held b listed = (ground arith, ground arith)

full_destroyed :
    let r = destroy_buffers full in
    ((q : ℕ)
      → occurrences q r.deleted
        ≡ (if is_in q (100 ∷ 101 ∷ []) && refs q == 0 then 1 else 0) + occurrences q [])
    × ((q : ℕ)
        → (r.buffers q).refcount ≡ (if is_in q (100 ∷ 101 ∷ []) then refs q else (heap q).refcount))
    × (r.buf_list ≡ [])
unfolding is_in are_distinct
full_destroyed = destroy_buffers-deletes refs full refl full-Held

abbrev answers : ℕ → Answer
answers i = record { address = i + 200; status = 0; handle = i + 500; stride = 640 }

-- The plug-in behind `init_module`.
abbrev loaded : Plugin Window
loaded = record {
  gralloc = 50;
  framebuffer = 55;
  alloc = 60;
  nativewindow = 0;
  windows = λ p. full;
  refcount = λ p. 77;
  deleted = [];
  deleted_displays = [];
}

create-destroy_example :
    (made : Plugin Window) × (r : Plugin Window) × (fbdevws_create_window android_5
        (λ p. screen)
        300
        loaded
      ≡ ok (300, made))
    × ((q : ℕ) → fbdevws_create_window android_5 (λ p. screen) q (inc_all 2 300 made) ≡ fault)
    × (fbdevws_destroy_window 300 (inc_all 2 300 made) ≡ ok r)
    × (r.nativewindow ≡ 0)
    × ((dec_all destroy_buffers 1 300 r).deleted ≡ (if ◌==◌ 1 2 then 300 ∷ [] else []))
    × ((dec_all destroy_buffers 2 300 r).windows 300
        ≡ destroy_buffers (Fbdev.new_window android_5 60 screen full))
create-destroy_example =
    create-destroy android_5 (λ p. screen) 300 2 1 loaded (omega arith) refl (omega arith)
      (omega arith) (omega arith)

abbrev vendor_get : ℕ → ℕ × ℕ
vendor_get calls = (7, calls + 1)

abbrev vendor_terminate : ℕ → ℕ → ℕ × ℕ
vendor_terminate dpy calls = (1, calls + 1)

abbrev made : Plugin Window → ℕ
made s = 900

-- What is deleted is filled with the address of the next free block.
abbrev left : ℕ → (ℕ → ℕ) → ℕ → ℕ
left p memory q = if q == p then 820 else memory q

abbrev start : Egl (deleting vendor_get vendor_terminate made left)
start = record { mappings = 0 ∷ 0 ∷ []; dpy = λ p. 0; host = (0, loaded) }

-- By the second call the block of the display has a new use.
abbrev reused : ℕ → ℕ
reused q = if q == 900 then 33 else 0

terminate_twice_example :
    let (answer, e1) = egl_get_display 0 start in
    let e2 = (egl_terminate 7 e1).1 in
    let e3 = (egl_terminate 33 (record e2 { dpy = reused })).1 in
    (answer ≡ 7)
    × (e2.host.1.deleted_displays ≡ 900 ∷ [])
    × (get_mapping reused 33 e2.mappings ≡ 900)
    × (e3.host.1.deleted_displays ≡ 900 ∷ 900 ∷ [])
unfolding get_mapping holds
terminate_twice_example =
    terminate_twice vendor_get vendor_terminate made left 7 1 start 33 reused refl (omega arith)
      (omega arith) (omega arith) refl refl refl refl refl

abbrev vendor_text : ℕ → Option (List ℕ)
vendor_text name = some (replicate 1000 65)

query_string-extensions_example :
    let query = eglplatformcommon_egl_query_string true 3 vendor_text in
    (stored : List ℕ) × (text : List ℕ) × (query 3 eglextensionsbuf ≡ ok (in_buffer, stored))
    × (length stored ≡ length eglextensionsbuf)
    × (text_in stored ≡ ok text)
    × (length text ≡ min 1021 (length (or_empty (vendor_text 3)) + 90))
    × (text ≡ take (length text) (or_empty (vendor_text 3) ++ hybris_extensions))
    × (query 2 eglextensionsbuf ≡ ok (of_vendor (vendor_text 2), eglextensionsbuf))
unfolding or_empty
query_string-extensions_example =
    query_string-extensions 3 2 vendor_text eglextensionsbuf
      (positive-NoNul (replicate 1000 65) refl) refl (omega arith)
