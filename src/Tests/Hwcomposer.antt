-- ===== src/Tests/Hwcomposer.antt =====
-- A window that presents two buffers in turn.
use fake_libc.Common.{
  ◌==◌, if◌then◌else◌, ℕ, ◌+◌, ◌≡◌, ◌≢◌, refl, true, [], ◌∷◌, Option, inr, some, ok, fault, arith,
  length,
}
use fake_libc.Windows.Base.{put}
use fake_libc.Windows.Hwcomposer.{
  Buffer, Answer, Window, no_fence, new_buffer, new_window, setup, set_buffer_count, inc_ref,
  make_buffer, make_buffers, allocate_buffers, hand_over, is_empty, ready, dequeue_buffer,
  set_fence, get_fence, queue_buffer, cancel_buffer,
}
use fake_libc.Windows.Hwcomposer.Rounds.{dequeue_all, dequeue_all-round}
use fake_libc.Windows.Hwcomposer.Assertions.{here, next, sets_up, sets_count, Run-dequeue}
use fake_libc.Windows.Hwcomposer.Fences.{dequeue_buffer-fence, queue-dequeue-fence}
use fake_libc.Windows.Dispatch
use fake_libc.Windows.Dispatch.{perform, window_width, dequeue_buffer_deprecated, Dequeued}

abbrev heap : ℕ → Buffer
heap p = record {
  width = 0;
  height = 0;
  format = 0;
  usage = 0;
  handle = 0;
  stride = 0;
  refcount = 0;
  busy = 0;
  fence_fd = 0;
  status = 0;
  alloc = 0;
}

-- Each object has an address and a handle of its own, and every allocation succeeds.
abbrev answers : ℕ → Answer
answers i = record { address = i + 100; status = 0; handle = i + 500; stride = 640 }

abbrev dup : ℕ → ℕ
dup fd = if fd == no_fence then no_fence else fd + 1

abbrev begin : Window
begin = new_window 6144 640 480 1 heap

-- The window, with the allocation device 9 and a third buffer.
abbrev prepared : Window
prepared = set_buffer_count 3 (setup 9 begin)

Run-dequeue_example :
    (b : ℕ) × (out : Option ℕ) × (r : Window) × (dequeue_buffer answers dup true prepared
      ≡ ok (b, (out, r)))
unfolding new_window setup set_buffer_count
Run-dequeue_example =
    let run = next (next here (sets_up 9 begin)) (sets_count 3 (setup 9 begin)) in
    Run-dequeue 6144 640 480 1 heap answers dup true run (inr refl) (omega arith)

abbrev two : Window
two = allocate_buffers answers begin

two_list : two.buf_list ≡ 100 ∷ 101 ∷ []
unfolding new_window allocate_buffers make_buffers make_buffer inc_ref new_buffer put
two_list = refl

two_full : two.buf_list ≢ []
unfolding new_window allocate_buffers make_buffers make_buffer inc_ref new_buffer put hand_over
    is_empty ready dequeue_buffer set_fence queue_buffer
two_full e = ground arith

dequeue_all-round_example :
    (r : Window) × (dequeue_all (length two.buf_list) answers dup true two ≡ ok (two.buf_list, r))
    × (r.buf_list ≡ two.buf_list)
    × (r.next_buffer ≡ 0)
unfolding allocate_buffers
dequeue_all-round_example = dequeue_all-round answers dup true two refl two_full

abbrev drawn : Window
drawn = (hand_over dup true 100 two).1

drawn_first : dequeue_buffer answers dup true begin ≡ ok (100, (some no_fence, drawn))
unfolding new_window allocate_buffers make_buffers make_buffer inc_ref new_buffer put hand_over
    is_empty ready dequeue_buffer set_fence queue_buffer
drawn_first = refl

cancel_with_fence :
    (queue_buffer (λ c buffers. buffers) 100 9 drawn
      ≡ ok (record drawn { buffers = (set_fence 100 9 drawn).buffers }))
    × (queue_buffer (λ c buffers. buffers) 100 9 (cancel_buffer 100 7 drawn) ≡ fault)
cancel_with_fence =
    dequeue_buffer-fence answers dup true begin drawn 100 (some no_fence) (λ c buffers. buffers) 9 7
      drawn_first (omega arith)

-- Both buffers are out; the first comes back with the fence 9.
abbrev out_both : Window
out_both = (hand_over dup true 101 drawn).1

abbrev back : Window
back = set_fence 100 9 out_both

back_queued : queue_buffer (λ c buffers. buffers) 100 9 out_both ≡ ok back
unfolding new_window allocate_buffers make_buffers make_buffer inc_ref new_buffer put hand_over
    is_empty ready dequeue_buffer set_fence queue_buffer
back_queued = refl

queue-dequeue-fence_example :
    (q : Window) × (dequeue_buffer answers dup true back ≡ ok (100, (some 10, q)))
    × (q.closed ≡ 9 ∷ out_both.closed)
    × (get_fence 100 q ≡ no_fence)
unfolding new_window allocate_buffers make_buffers make_buffer inc_ref new_buffer put hand_over
    is_empty ready dequeue_buffer set_fence queue_buffer
queue-dequeue-fence_example =
    queue-dequeue-fence answers dup 100 9 out_both back back_queued (omega arith) refl

-- A dequeue that answers the fence 8 in buffer 100.
deprecated :
    dequeue_buffer_deprecated
      (λ fd w. (record { ret = 0; buffer = 100; fence_fd = 8 }, w))
      true
      begin
    ≡ ((0, 100, some 8), begin)
unfolding dequeue_buffer_deprecated
deprecated = refl
