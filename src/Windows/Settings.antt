-- ===== src/Windows/Settings.antt =====
-- The two windows as classes, and sequences of operations.
pub mod Composed
pub mod Framebuffer
use fake_libc.Common.{ℕ, ◌≡◌, refl, ◌∙◌, ap, List, [], ◌∷◌, arith, bit_or}
use fake_libc.Windows.Dispatch
use fake_libc.Windows.Dispatch.{
  WindowClass, Attribute, Operation, query, perform, connect, disconnect, set_crop,
  set_buffers_geometry, set_buffers_transform, set_buffers_timestamp, set_scaling_mode, lock,
  unlock_and_post, api_connect, api_disconnect, set_buffers_user_dimensions,
  set_post_transform_crop, other, window_width, window_height, window_format, window_concrete_type,
  window_queues_to_window_composer, window_default_width, window_default_height,
  window_transform_hint, window_min_undequeued_buffers, window_other,
}
use fake_libc.Windows.Fbdev
use fake_libc.Windows.Hwcomposer

-- FbDevNativeWindow; `framebuffer` is NATIVE_WINDOW_FRAMEBUFFER.
abbrev pub fbdev_class : ℕ → WindowClass Fbdev.Window
fbdev_class framebuffer = record {
  width = λ w. w.device.width;
  height = λ w. w.device.height;
  format = λ w. w.device.format;
  window_type = λ w. framebuffer;
  queue_length = λ w. 0;
  default_width = λ w. w.device.width;
  default_height = λ w. w.device.height;
  transform_hint = λ w. 0;
  set_usage = λ usage w. (0, Fbdev.set_usage usage w);
  set_buffers_format = λ format w. (0, Fbdev.set_buffers_format format w);
  set_buffers_dimensions = λ width height w. (0, w);
  set_buffer_count = λ cnt w. (0, Fbdev.set_buffer_count cnt w);
}

-- HWComposerNativeWindow; `composer_usage` is GRALLOC_USAGE_HW_COMPOSER|GRALLOC_USAGE_HW_FB.
abbrev pub hwcomposer_class : ℕ → ℕ → WindowClass Hwcomposer.Window
hwcomposer_class framebuffer composer_usage = record {
  width = λ w. w.width;
  height = λ w. w.height;
  format = λ w. w.buf_format;
  window_type = λ w. framebuffer;
  queue_length = λ w. 0;
  default_width = λ w. w.width;
  default_height = λ w. w.height;
  transform_hint = λ w. 0;
  set_usage = λ usage w. (0, Hwcomposer.set_usage composer_usage usage w);
  set_buffers_format = λ format w. (0, Hwcomposer.set_buffers_format format w);
  set_buffers_dimensions = λ width height w. (0, w);
  set_buffer_count = λ count w. (0, Hwcomposer.set_buffer_count count w);
}

-- Any operations, one after the other.
unfoldable pub perform_all : {W : Type 0} → WindowClass W → List Operation → W → W
perform_all c [] w = w
perform_all c (o ∷ os) w = perform_all c os (perform c o w).1

-- The format that the last NATIVE_WINDOW_SET_BUFFERS_FORMAT asks for.
unfoldable pub format_after : ℕ → Operation → ℕ
format_after format (Dispatch.set_buffers_format f) = f
format_after format o = format

unfoldable pub asked_format : ℕ → List Operation → ℕ
asked_format format [] = format
asked_format format (o ∷ os) = asked_format (format_after format o) os
