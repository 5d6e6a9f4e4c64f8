-- ===== src/Windows/Plugin.antt =====
-- The entry points of the plug-ins: fbdev/eglplatform_fbdev.cpp, hwcomposer/eglplatform_hwcomposer.cpp and
-- null/eglplatform_null.c (libEGL/platforms), with the reference counts of the windows
-- (common/nativewindowbase.cpp). A window has one address, whichever of its classes a pointer names.
-- EGL_DEFAULT_DISPLAY and the null pointer are 0.
pub mod Counts
pub mod Lifetime
use fake_libc.Common.{ℕ, ◌==◌, if◌then◌else◌, not, List, ◌∷◌, Outcome, ok, ◌>>=◌, ◌>>◌, assert}
use fake_libc.Windows.Base.{put, increment, decrement, is_last}
use fake_libc.Windows.Fbdev
use fake_libc.Windows.Hwcomposer

-- What the hardware modules answer: the gralloc module, or 0, and the codes and devices of the two calls
-- that open one.
pub record Hardware : Type 0 where
  pub hw_get_module : ℕ
  pub framebuffer_open : ℕ × ℕ
  pub gralloc_open : ℕ × ℕ

-- The static variables of a plug-in, the windows by address with the count of their base class, and the
-- windows and displays that have been deleted.
pub record Plugin (W : Type 0) : Type 0 where
  pub gralloc : ℕ
  pub framebuffer : ℕ
  pub alloc : ℕ
  pub nativewindow : ℕ
  pub windows : ℕ → W
  pub refcount : ℕ → ℕ
  pub deleted : List ℕ
  pub deleted_displays : List ℕ

module _ {W : Type 0} where
  -- `BaseNativeWindow::_incRef`
  unfoldable pub inc_ref : ℕ → Plugin W → Plugin W
  inc_ref p s = record s { refcount = put s.refcount p (increment (s.refcount p)) }

  -- `delete` of a window, whose destructor destroys its buffers.
  unfoldable pub delete_window : (W → W) → ℕ → Plugin W → Plugin W
  delete_window destroy_buffers p s = record s {
    windows = put s.windows p (destroy_buffers (s.windows p));
    deleted = p ∷ s.deleted;
  }

  -- `BaseNativeWindow::_decRef`
  unfoldable pub dec_ref : (W → W) → ℕ → Plugin W → Plugin W
  dec_ref destroy_buffers p s =
      let s' : Plugin W = record s { refcount = put s.refcount p (decrement (s.refcount p)) } in
      if is_last (s.refcount p) then delete_window destroy_buffers p s' else s'

  -- `GetDisplay` of fbdev and hwcomposer, where `new` answers `made`.
  unfoldable pub get_display : ℕ → ℕ → Plugin W → Outcome ℕ
  get_display made display s = do
    assert (not (s.gralloc == 0))
    ok (if display == 0 then made else 0)

  -- `Terminate`: a `delete` of the null pointer does nothing.
  unfoldable pub terminate : ℕ → Plugin W → Plugin W
  terminate dpy s = if dpy == 0 then s else record s { deleted_displays = dpy ∷ s.deleted_displays }

  -- The end of `CreateWindow`: the window at `p` becomes the plug-in's.
  unfoldable pub keep_window : ℕ → Plugin W → ℕ × Plugin W
  keep_window p s = (p, inc_ref p (record s { nativewindow = p }))

  unfoldable pub destroy_window : (W → W) → ℕ → Plugin W → Outcome (Plugin W)
  destroy_window destroy_buffers win s = do
    assert (not (s.nativewindow == 0))
    assert (win == s.nativewindow)
    ok (record (dec_ref destroy_buffers s.nativewindow s) { nativewindow = 0 })

-- `fbdevws_init_module`, up to the call of `eglplatformcommon_init`.
unfoldable pub fbdevws_init_module : Hardware → Plugin Fbdev.Window → Outcome (Plugin Fbdev.Window)
fbdevws_init_module hw s =
    let (err, framebuffer) = hw.framebuffer_open in
    let (err', alloc) = hw.gralloc_open in
    do
      assert (not (hw.hw_get_module == 0))
      assert (err == 0)
      assert (err' == 0)
      ok (record s { gralloc = hw.hw_get_module; framebuffer = framebuffer; alloc = alloc })

-- `new` answers `p`; `device` is what stands at the address of a framebuffer device.
unfoldable pub fbdevws_create_window :
    Fbdev.Build → (ℕ → Fbdev.Device) → ℕ → Plugin Fbdev.Window → Outcome (ℕ × Plugin Fbdev.Window)
fbdevws_create_window build device p s = do
  assert (not (s.gralloc == 0))
  assert (s.nativewindow == 0)
  ok (
      keep_window p (record s {
        windows =
            put s.windows p (Fbdev.new_window build s.alloc (device s.framebuffer) (s.windows p));
        refcount = put s.refcount p 0;
      }))

unfoldable pub fbdevws_destroy_window : ℕ → Plugin Fbdev.Window → Outcome (Plugin Fbdev.Window)
fbdevws_destroy_window = destroy_window Fbdev.destroy_buffers

-- `hwcomposerws_init_module`, up to the call of `eglplatformcommon_init`.
unfoldable pub hwcomposerws_init_module :
    Hardware → Plugin Hwcomposer.Window → Outcome (Plugin Hwcomposer.Window)
hwcomposerws_init_module hw s =
    let (err, alloc) = hw.gralloc_open in
    do
      assert (not (hw.hw_get_module == 0))
      assert (err == 0)
      ok (record s { gralloc = hw.hw_get_module; alloc = alloc })

-- The window is the application's.
unfoldable pub hwcomposerws_create_window :
    ℕ → Plugin Hwcomposer.Window → Outcome (ℕ × Plugin Hwcomposer.Window)
hwcomposerws_create_window win s = do
  assert (not (s.gralloc == 0))
  assert (s.nativewindow == 0)
  ok (
      keep_window win
        (record s { windows = put s.windows win (Hwcomposer.setup s.alloc (s.windows win)) }))

unfoldable pub hwcomposerws_destroy_window :
    ℕ → Plugin Hwcomposer.Window → Outcome (Plugin Hwcomposer.Window)
hwcomposerws_destroy_window = destroy_window Hwcomposer.destroy_buffers

-- `nullws_GetDisplay`, where malloc answers `made`, and `nullws_CreateWindow`, where libui.so answers
-- `surface`. `nullws_Terminate` frees the display; `nullws_DestroyWindow` does nothing.
unfoldable pub nullws_get_display : ℕ → ℕ → ℕ
nullws_get_display made display = made

unfoldable pub nullws_create_window : ℕ → ℕ → ℕ
nullws_create_window surface win = if win == 0 then surface else win
