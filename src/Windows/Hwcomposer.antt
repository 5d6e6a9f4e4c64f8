-- ===== src/Windows/Hwcomposer.antt =====
-- libEGL/platforms/hwcomposer/hwcomposer_window.cpp: the window whose buffers a callback presents. A
-- buffer is an address, an `int` its 32 bits; what `new`, gralloc, `dup` and the callback do are
-- arguments of the definitions. Each function that takes the mutex holds it from its start to its end.
pub mod Rounds
pub mod Assertions
pub mod Fences
use fake_libc.Common.{
  ℕ, zero, suc, ◌+◌, ltb, leb, ◌==◌, if◌then◌else◌, Bool, true, false, not, ◌&&◌, List, [], ◌∷◌,
  ◌++◌, Option, none, some, Outcome, ok, fault, bit_or, length, get_elem?,
}
use fake_libc.Windows.Base.{put, increment, decrement, is_last}

-- The class HWComposerNativeWindowBuffer with the fields of its bases.
pub record Buffer : Type 0 where
  pub width : ℕ
  pub height : ℕ
  pub format : ℕ
  pub usage : ℕ
  pub handle : ℕ
  pub stride : ℕ
  pub refcount : ℕ
  pub busy : ℕ
  pub fence_fd : ℕ
  pub status : ℕ
  pub alloc : ℕ

-- What `new` and `m_alloc->alloc` answer for one buffer. A status of 0 is success.
pub record Answer : Type 0 where
  pub address : ℕ
  pub status : ℕ
  pub handle : ℕ
  pub stride : ℕ

-- `deleted` has the buffers whose destructor has run, `freed` the handles given back to gralloc,
-- `closed` the descriptors that the window has closed.
pub record Window : Type 0 where
  pub alloc : ℕ
  pub width : ℕ
  pub height : ℕ
  pub usage : ℕ
  pub buf_format : ℕ
  pub buffer_count : ℕ
  pub next_buffer : ℕ
  pub buf_list : List ℕ
  pub buffers : ℕ → Buffer
  pub deleted : List ℕ
  pub freed : List ℕ
  pub closed : List ℕ

-- -1
abbrev pub no_fence : ℕ
no_fence = 4294967295

-- The constructor of a buffer.
unfoldable pub new_buffer : ℕ → ℕ → ℕ → ℕ → ℕ → Answer → Buffer
new_buffer alloc width height format usage a = record {
  width = width;
  height = height;
  format = format;
  usage = usage;
  handle = if alloc == 0 then 0 else a.handle;
  stride = if alloc == 0 then 0 else a.stride;
  refcount = 0;
  busy = 0;
  fence_fd = no_fence;
  status = if alloc == 0 then 0 else a.status;
  alloc = alloc;
}

-- The constructor of a window; `composer_usage` is GRALLOC_USAGE_HW_COMPOSER|GRALLOC_USAGE_HW_FB.
unfoldable pub new_window : ℕ → ℕ → ℕ → ℕ → (ℕ → Buffer) → Window
new_window composer_usage width height format memory = record {
  alloc = 0;
  width = width;
  height = height;
  usage = composer_usage;
  buf_format = format;
  buffer_count = 2;
  next_buffer = 0;
  buf_list = [];
  buffers = memory;
  deleted = [];
  freed = [];
  closed = [];
}

unfoldable pub setup : ℕ → Window → Window
setup alloc w = record w { alloc = alloc }

unfoldable pub delete_buffer : ℕ → Window → Window
delete_buffer b w = record w {
  deleted = b ∷ w.deleted;
  freed =
      if not ((w.buffers b).alloc == 0) && not ((w.buffers b).handle == 0)
      then (w.buffers b).handle ∷ w.freed
      else w.freed;
}

unfoldable pub inc_ref : ℕ → Window → Window
inc_ref b w = record w {
  buffers = put w.buffers b (record (w.buffers b) { refcount = increment (w.buffers b).refcount });
}

unfoldable pub dec_ref : ℕ → Window → Window
dec_ref b w =
    let w' : Window = record w {
      buffers =
          put w.buffers b (record (w.buffers b) { refcount = decrement (w.buffers b).refcount });
    } in
    if is_last (w.buffers b).refcount then delete_buffer b w' else w'

unfoldable pub dec_all : List ℕ → Window → Window
dec_all [] w = w
dec_all (b ∷ bs) w = dec_all bs (dec_ref b w)

unfoldable pub destroy_buffers : Window → Window
destroy_buffers w = record (dec_all w.buf_list w) { buf_list = []; next_buffer = 0 }

-- One round of the loop of `allocateBuffers`, up to the test of the status.
unfoldable pub make_buffer : Answer → Window → Window
make_buffer a w = inc_ref a.address (record w {
  buffers = put w.buffers a.address (new_buffer w.alloc w.width w.height w.buf_format w.usage a);
})

-- The loop, with `n` rounds left; `answers i` is what the next round but `i` is answered.
unfoldable pub make_buffers : ℕ → (ℕ → Answer) → Window → Window
make_buffers zero answers w = w
make_buffers (suc n) answers w =
    let a : Answer = answers 0 in
    let w' = make_buffer a w in
    let rest =
      make_buffers n (λ i. answers (i + 1))
        (record w' { buf_list = w'.buf_list ++ a.address ∷ [] }) in
    if not ((w'.buffers a.address).status == 0) then dec_ref a.address w' else rest

unfoldable pub allocate_buffers : (ℕ → Answer) → Window → Window
allocate_buffers answers w = record (make_buffers w.buffer_count answers w) { next_buffer = 0 }

-- `dequeueBuffer` behind its assertions, for the buffer `b` at `m_nextBuffer`: what is written to the
-- caller's `fenceFd`, if there is one, and the new state.
unfoldable pub hand_over : (ℕ → ℕ) → Bool → ℕ → Window → Option ℕ × Window
hand_over dup wants b w =
    let fence = (w.buffers b).fence_fd in
    let next = if leb (length w.buf_list) (w.next_buffer + 1) then 0 else w.next_buffer + 1 in
    let w' : Window = record w { next_buffer = next } in
    (
      if wants then some (dup fence) else none,
      if fence == no_fence then w' else record w' {
        closed = fence ∷ w.closed;
        buffers = put w.buffers b (record (w.buffers b) { fence_fd = no_fence });
      },
    )

-- `m_bufList.empty()`
unfoldable pub is_empty : List ℕ → Bool
is_empty [] = true
is_empty (b ∷ bs) = false

-- An allocation where the list is empty.
unfoldable pub ready : (ℕ → Answer) → Window → Window
ready answers w = if is_empty w.buf_list then allocate_buffers answers w else w

-- The two assertions say that the list has a buffer at `m_nextBuffer`.
unfoldable pub dequeue_buffer :
    (ℕ → Answer) → (ℕ → ℕ) → Bool → Window → Outcome (ℕ × (Option ℕ × Window))
dequeue_buffer answers dup wants w =
    let w' = ready answers w in
    elim (get_elem? w'.buf_list w'.next_buffer) [
      | some b ↦ ok (b, hand_over dup wants b w')
      | none ↦ fault
    ]

unfoldable pub set_fence : ℕ → ℕ → Window → Window
set_fence b fence w = record w {
  buffers = put w.buffers b (record (w.buffers b) { fence_fd = fence });
}

unfoldable pub get_fence : ℕ → Window → ℕ
get_fence b w = (w.buffers b).fence_fd

-- The callback gets the buffer, and may read and set the fences of buffers.
unfoldable pub queue_buffer : (ℕ → (ℕ → Buffer) → ℕ → Buffer) → ℕ → ℕ → Window → Outcome Window
queue_buffer present b fence w =
    let w' = set_fence b fence w in
    if (w.buffers b).fence_fd == no_fence
    then ok (record w' { buffers = present b w'.buffers })
    else fault

unfoldable pub cancel_buffer : ℕ → ℕ → Window → Window
cancel_buffer b fence w = set_fence b fence w

unfoldable pub set_usage : ℕ → ℕ → Window → Window
set_usage composer_usage usage w =
    let usage' = bit_or usage composer_usage in
    let w' : Window = record w { usage = usage' } in
    if not (w.usage == usage') then destroy_buffers w' else w'

unfoldable pub set_buffers_format : ℕ → Window → Window
set_buffers_format format w =
    let w' : Window = record w { buf_format = format } in
    if not (format == w.buf_format) then destroy_buffers w' else w'

unfoldable pub set_buffer_count : ℕ → Window → Window
set_buffer_count count w = record (if not (count == w.buffer_count) then destroy_buffers w else w) {
  buffer_count = count;
}
