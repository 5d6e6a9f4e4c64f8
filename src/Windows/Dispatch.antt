-- ===== src/Windows/Dispatch.antt =====
-- BaseNativeWindow (libEGL/platforms/common/nativewindowbase.cpp): the C functions of a native window, and
-- the methods of its class that they call. A class is a record of functions on a state of its own.
use fake_libc.Common.{ℕ, ltb, ◌&&◌, if◌then◌else◌, Bool, Option, none, some}

pub record WindowClass (W : Type 0) : Type 0 where
  pub width : W → ℕ
  pub height : W → ℕ
  pub format : W → ℕ
  pub window_type : W → ℕ
  pub queue_length : W → ℕ
  pub default_width : W → ℕ
  pub default_height : W → ℕ
  pub transform_hint : W → ℕ
  pub set_usage : ℕ → W → ℕ × W
  pub set_buffers_format : ℕ → W → ℕ × W
  pub set_buffers_dimensions : ℕ → ℕ → W → ℕ × W
  pub set_buffer_count : ℕ → W → ℕ × W

-- The attributes NATIVE_WINDOW_… that `_query` names.
pub data Attribute : Type 0 where
  window_width window_height window_format window_concrete_type : Attribute
  window_queues_to_window_composer window_default_width window_default_height : Attribute
  window_transform_hint window_min_undequeued_buffers window_other : Attribute

-- The value that `_query` stores and the code that it answers; `bad_value` is BAD_VALUE.
unfoldable pub query : {W : Type 0} → WindowClass W → ℕ → W → Attribute → ℕ × ℕ
query c bad_value w window_width = (c.width w, 0)
query c bad_value w window_height = (c.height w, 0)
query c bad_value w window_format = (c.format w, 0)
query c bad_value w window_concrete_type = (c.window_type w, 0)
query c bad_value w window_queues_to_window_composer = (c.queue_length w, 0)
query c bad_value w window_default_width = (c.default_width w, 0)
query c bad_value w window_default_height = (c.default_height w, 0)
query c bad_value w window_transform_hint = (c.transform_hint w, 0)
query c bad_value w window_min_undequeued_buffers = (1, 0)
query c bad_value w window_other = (0, bad_value)

-- The operations NATIVE_WINDOW_… that `_perform` names, with the arguments that it takes from its list.
pub data Operation : Type 0 where
  set_usage set_buffer_count set_buffers_format : ℕ → Operation
  set_buffers_dimensions : ℕ → ℕ → Operation
  connect disconnect set_crop set_buffers_geometry set_buffers_transform : Operation
  set_buffers_timestamp set_scaling_mode lock unlock_and_post api_connect : Operation
  api_disconnect set_buffers_user_dimensions set_post_transform_crop other : Operation

unfoldable pub perform : {W : Type 0} → WindowClass W → Operation → W → ℕ × W
perform c (set_usage usage) w = c.set_usage usage w
perform c (set_buffer_count cnt) w = c.set_buffer_count cnt w
perform c (set_buffers_format format) w = c.set_buffers_format format w
perform c (set_buffers_dimensions width height) w = c.set_buffers_dimensions width height w
perform c connect w = (0, w)
perform c disconnect w = (0, w)
perform c set_crop w = (0, w)
perform c set_buffers_geometry w = (0, w)
perform c set_buffers_transform w = (0, w)
perform c set_buffers_timestamp w = (0, w)
perform c set_scaling_mode w = (0, w)
perform c lock w = (0, w)
perform c unlock_and_post w = (0, w)
perform c api_connect w = (0, w)
perform c api_disconnect w = (0, w)
perform c set_buffers_user_dimensions w = (0, w)
perform c set_post_transform_crop w = (0, w)
perform c other w = (0, w)

-- What a call of `dequeueBuffer` answers and leaves in its two places.
pub record Dequeued : Type 0 where
  pub ret : ℕ
  pub buffer : ℕ
  pub fence_fd : ℕ

-- `_dequeueBuffer_DEPRECATED`, on the method: the result, the buffer, and the fence that is waited for and
-- closed, if there is one. `has_fences` is the test of the Android version; an `int` is its 32 bits.
unfoldable pub dequeue_buffer_deprecated :
    {W : Type 0} → (ℕ → W → Dequeued × W) → Bool → W → (ℕ × ℕ × Option ℕ) × W
dequeue_buffer_deprecated dequeue_buffer has_fences w =
    let (d, w') = dequeue_buffer 4294967295 w in
    (
      (d.ret, d.buffer, if has_fences && ltb d.fence_fd 2147483648 then some d.fence_fd else none),
      w',
    )

-- `_queueBuffer_DEPRECATED` and `_cancelBuffer_DEPRECATED`: there is no fence.
unfoldable pub queue_buffer_deprecated : {W R : Type 0} → (ℕ → ℕ → W → R) → ℕ → W → R
queue_buffer_deprecated queue_buffer buffer w = queue_buffer buffer 4294967295 w

unfoldable pub cancel_buffer_deprecated : {W R : Type 0} → (ℕ → ℕ → W → R) → ℕ → W → R
cancel_buffer_deprecated cancel_buffer buffer w = cancel_buffer buffer 4294967295 w
