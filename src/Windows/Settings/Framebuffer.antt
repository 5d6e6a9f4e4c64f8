-- ===== src/Windows/Settings/Framebuffer.antt =====
-- What the queries of a framebuffer window answer after any operations.
use fake_libc.Common.{ℕ, ◌≡◌, refl, ◌∙◌, ap, List, [], ◌∷◌, arith}
use fake_libc.Windows.Dispatch
use fake_libc.Windows.Dispatch.{
  WindowClass, Attribute, Operation, query, perform, connect, disconnect, set_crop,
  set_buffers_geometry, set_buffers_transform, set_buffers_timestamp, set_scaling_mode, lock,
  unlock_and_post, api_connect, api_disconnect, set_buffers_user_dimensions,
  set_post_transform_crop, other, window_width, window_height, window_format, window_concrete_type,
  window_queues_to_window_composer, window_default_width, window_default_height,
  window_transform_hint, window_min_undequeued_buffers, window_other,
}
use fake_libc.Windows.Fbdev
use fake_libc.Windows.Settings.{fbdev_class, perform_all}

module _ (framebuffer : ℕ) where
  perform-device :
      (o : Operation) (w : Fbdev.Window)
      → (perform (fbdev_class framebuffer) o w).1.device ≡ w.device
  unfolding perform Fbdev.set_usage Fbdev.set_buffers_format Fbdev.set_buffer_count
  perform-device (Dispatch.set_usage usage) w = refl
  perform-device (Dispatch.set_buffer_count n) w = ground arith
  perform-device (Dispatch.set_buffers_format f) w = refl
  perform-device (Dispatch.set_buffers_dimensions x y) w = refl
  perform-device connect w = refl
  perform-device disconnect w = refl
  perform-device set_crop w = refl
  perform-device set_buffers_geometry w = refl
  perform-device set_buffers_transform w = refl
  perform-device set_buffers_timestamp w = refl
  perform-device set_scaling_mode w = refl
  perform-device lock w = refl
  perform-device unlock_and_post w = refl
  perform-device api_connect w = refl
  perform-device api_disconnect w = refl
  perform-device set_buffers_user_dimensions w = refl
  perform-device set_post_transform_crop w = refl
  perform-device other w = refl

  perform_all-device :
      (os : List Operation) (w : Fbdev.Window)
      → (perform_all (fbdev_class framebuffer) os w).device ≡ w.device
  unfolding perform_all
  perform_all-device [] w = refl
  perform_all-device (o ∷ os) w = perform_all-device os _ ∙ perform-device o w

  -- No operation changes what a query of a framebuffer window answers: it tells of the device.
  pub fbdev_query-perform :
      (bad_value : ℕ) (os : List Operation) (w : Fbdev.Window) (a : Attribute)
      → query (fbdev_class framebuffer) bad_value (perform_all (fbdev_class framebuffer) os w) a
        ≡ query (fbdev_class framebuffer) bad_value w a
  unfolding query
  fbdev_query-perform bad_value os w window_width = ap (λ d. (d.width, 0)) (perform_all-device os w)
  fbdev_query-perform bad_value os w window_height =
      ap (λ d. (d.height, 0)) (perform_all-device os w)
  fbdev_query-perform bad_value os w window_format =
      ap (λ d. (d.format, 0)) (perform_all-device os w)
  fbdev_query-perform bad_value os w window_concrete_type = refl
  fbdev_query-perform bad_value os w window_queues_to_window_composer = refl
  fbdev_query-perform bad_value os w window_default_width =
      ap (λ d. (d.width, 0)) (perform_all-device os w)
  fbdev_query-perform bad_value os w window_default_height =
      ap (λ d. (d.height, 0)) (perform_all-device os w)
  fbdev_query-perform bad_value os w window_transform_hint = refl
  fbdev_query-perform bad_value os w window_min_undequeued_buffers = refl
  fbdev_query-perform bad_value os w window_other = refl
