-- ===== src/Windows/Fbdev.antt =====
-- libEGL/platforms/fbdev/fbdev_window.cpp: the window on a framebuffer device. A buffer is an address.
-- What `new`, gralloc and the framebuffer answer are arguments of the definitions.
pub mod Threads
pub mod Flags
pub mod Search
pub mod Counting
pub mod Ownership
pub mod Progress
pub mod Allocation
pub mod References
pub mod Recycling
use fake_libc.Common.{
  ℤ, pos, ◌+ℤ◌, ◌-ℤ◌, ◌==ℤ◌, ℕ, zero, suc, ◌+◌, ◌-◌, ltb, ◌==◌, if◌then◌else◌, Bool, true, false,
  not, ◌&&◌, ◌||◌, List, [], ◌∷◌, ◌++◌, Option, none, some, Outcome, ok, fault, bit_or,
}
use fake_libc.Windows.Base.{put, increment, decrement, is_last}

-- What the Android headers say of the version and of `GRALLOC_USAGE_HW_FB`: `front_serves` and
-- `counts_framebuffers` are the two tests of the version, in `dequeueBuffer` and in the constructor.
pub record Build : Type 0 where
  pub usage_hw_fb : ℕ
  pub front_serves : Bool
  pub counts_framebuffers : Bool

-- `framebuffer_device_t`
pub record Device : Type 0 where
  pub width : ℕ
  pub height : ℕ
  pub format : ℕ
  pub num_framebuffers : ℕ

-- The class FbDevNativeWindowBuffer with the fields of its bases.
pub record Buffer : Type 0 where
  pub width : ℕ
  pub height : ℕ
  pub format : ℕ
  pub usage : ℕ
  pub handle : ℕ
  pub stride : ℕ
  pub refcount : ℕ
  pub busy : ℕ
  pub status : ℕ
  pub alloc : ℕ

-- What `new` and `m_alloc->alloc` answer for one buffer. A status of 0 is success.
pub record Answer : Type 0 where
  pub address : ℕ
  pub status : ℕ
  pub handle : ℕ
  pub stride : ℕ

-- `deleted` has the buffers whose destructor has run, `freed` the handles given back to gralloc.
pub record Window : Type 0 where
  pub alloc : ℕ
  pub device : Device
  pub usage : ℕ
  pub buf_format : ℕ
  pub buffer_count : ℕ
  pub free_bufs : ℤ
  pub allocate_buffers : Bool
  pub buf_list : List ℕ
  pub front_buf : ℕ
  pub buffers : ℕ → Buffer
  pub deleted : List ℕ
  pub freed : List ℕ

-- The constructor of a buffer.
unfoldable pub new_buffer : ℕ → ℕ → ℕ → ℕ → ℕ → Answer → Buffer
new_buffer alloc width height format usage a = record {
  width = width;
  height = height;
  format = format;
  usage = usage;
  handle = if alloc == 0 then 0 else a.handle;
  stride = if alloc == 0 then 0 else a.stride;
  refcount = 0;
  busy = 0;
  status = if alloc == 0 then 0 else a.status;
  alloc = alloc;
}

unfoldable pub delete_buffer : ℕ → Window → Window
delete_buffer b w = record w {
  deleted = b ∷ w.deleted;
  freed =
      if not ((w.buffers b).alloc == 0) && not ((w.buffers b).handle == 0)
      then (w.buffers b).handle ∷ w.freed
      else w.freed;
}

unfoldable pub inc_ref : ℕ → Window → Window
inc_ref b w = record w {
  buffers = put w.buffers b (record (w.buffers b) { refcount = increment (w.buffers b).refcount });
}

unfoldable pub dec_ref : ℕ → Window → Window
dec_ref b w =
    let w' : Window = record w {
      buffers =
          put w.buffers b (record (w.buffers b) { refcount = decrement (w.buffers b).refcount });
    } in
    if is_last (w.buffers b).refcount then delete_buffer b w' else w'

unfoldable pub dec_all : List ℕ → Window → Window
dec_all [] w = w
dec_all (b ∷ bs) w = dec_all bs (dec_ref b w)

unfoldable pub destroy_buffers : Window → Window
destroy_buffers w = record (dec_all w.buf_list w) {
  buf_list = [];
  free_bufs = pos 0;
  front_buf = 0;
}

-- One round of the loop of `reallocateBuffers`, up to the test of the status.
unfoldable pub make_buffer : Build → Answer → Window → Window
make_buffer build a w = inc_ref a.address (record w {
  buffers = put w.buffers a.address (
      new_buffer w.alloc w.device.width w.device.height w.device.format
        (bit_or w.usage build.usage_hw_fb) a);
})

-- The loop, with `n` rounds left; `answers i` is what the next round but `i` is answered.
unfoldable pub make_buffers : Build → ℕ → (ℕ → Answer) → Window → Window
make_buffers build zero answers w = w
make_buffers build (suc n) answers w =
    let a : Answer = answers 0 in
    let w' = make_buffer build a w in
    let rest =
      make_buffers build n (λ i. answers (i + 1))
        (record w' {
          free_bufs = w'.free_bufs +ℤ pos 1;
          buf_list = w'.buf_list ++ a.address ∷ [];
        }) in
    if not ((w'.buffers a.address).status == 0) then dec_ref a.address w' else rest

unfoldable pub reallocate_buffers : Build → (ℕ → Answer) → Window → Window
reallocate_buffers build answers w =
    record (make_buffers build w.buffer_count answers (destroy_buffers w)) {
      allocate_buffers = false;
    }

-- The search of `dequeueBuffer`: the first buffer that is neither the front one nor busy.
unfoldable pub find_free : Window → List ℕ → Option ℕ
find_free w [] = none
find_free w (b ∷ bs) =
    if b == w.front_buf
    then find_free w bs
    else (if (w.buffers b).busy == 0 then some b else find_free w bs)

-- The end of `dequeueBuffer`.
unfoldable pub take_buffer : ℕ → Window → Window
take_buffer b w = record w {
  buffers = put w.buffers b (record (w.buffers b) { busy = 1 });
  free_bufs = w.free_bufs -ℤ pos 1;
}

-- Where a thread stands in `dequeueBuffer` when it gets the mutex: at the start, or behind one of the
-- two calls of `pthread_cond_wait`.
pub data Phase : Type 0 where
  entering awaits_count awaits_buffer : Phase

-- What the thread does until it waits (`inl`) or is done (`inr`).
pub data Attempt : Type 0 where
  waits : Phase → Attempt
  dequeued : ℕ → Attempt

-- The loop behind the first wait.
unfoldable pub search_buffer : Build → Window → Attempt × Window
search_buffer build w = elim (find_free w w.buf_list) [
  | some b ↦ (dequeued b, take_buffer b w)
  | none ↦
      if build.front_serves && not (w.front_buf == 0) && (w.buffers w.front_buf).busy == 0
      then (dequeued w.front_buf, take_buffer w.front_buf w)
      else (waits awaits_buffer, w)
]

unfoldable pub await_count : Build → Window → Attempt × Window
await_count build w =
    if w.free_bufs ==ℤ pos 0 then (waits awaits_count, w) else search_buffer build w

unfoldable pub dequeue_buffer : Build → (ℕ → Answer) → Phase → Window → Attempt × Window
dequeue_buffer build answers entering w =
    await_count build (if w.allocate_buffers then reallocate_buffers build answers w else w)
dequeue_buffer build answers awaits_count w = await_count build w
dequeue_buffer build answers awaits_buffer w = search_buffer build w

-- `queueBuffer` up to the post, which it does without the mutex, and behind it.
unfoldable pub start_queue : ℕ → Window → Outcome Window
start_queue b w =
    if (w.buffers b).busy == 1
    then ok (record w { buffers = put w.buffers b (record (w.buffers b) { busy = 2 }) })
    else fault

unfoldable pub end_queue : ℕ → Window → Window
end_queue b w = record w {
  buffers = put w.buffers b (record (w.buffers b) { busy = 0 });
  front_buf = b;
  free_bufs = w.free_bufs +ℤ pos 1;
}

-- The whole call where no other thread comes between; `post` answers for the buffer's handle.
unfoldable pub queue_buffer : (ℕ → ℕ) → ℕ → Window → Outcome (ℕ × Window)
queue_buffer post b w = elim (start_queue b w) [
  | ok w' ↦ ok (post (w'.buffers b).handle, end_queue b w')
  | fault ↦ fault
]

unfoldable pub cancel_buffer : ℕ → Window → Window
cancel_buffer b w = record w {
  buffers = put w.buffers b (record (w.buffers b) { busy = 0 });
  free_bufs = w.free_bufs +ℤ pos 1;
}

-- `lockBuffer` waits while this holds.
unfoldable pub lock_waits : ℕ → Window → Bool
lock_waits b w = w.front_buf == b

unfoldable pub set_usage : ℕ → Window → Window
set_usage usage w = record w { allocate_buffers = not (w.usage == usage); usage = usage }

unfoldable pub set_buffers_format : ℕ → Window → Window
set_buffers_format format w = record w {
  allocate_buffers = w.allocate_buffers || not (format == w.buf_format);
  buf_format = format;
}

unfoldable pub set_buffer_count : ℕ → Window → Window
set_buffer_count cnt w =
    if not (w.buffer_count == cnt)
    then record w { buffer_count = cnt; allocate_buffers = true }
    else w

-- The constructor. The fields that it leaves as they are in the memory are those of `memory`.
unfoldable pub new_window : Build → ℕ → Device → Window → Window
new_window build alloc device memory =
    set_buffer_count
      (if build.counts_framebuffers && ltb 0 device.num_framebuffers
        then device.num_framebuffers
        else 2)
      (record memory {
        alloc = alloc;
        device = device;
        buf_format = device.format;
        usage = build.usage_hw_fb;
        buffer_count = 0;
        allocate_buffers = true;
        buf_list = [];
      })
