-- ===== src/Tests/Windows.antt =====
-- A framebuffer device of two buffers, on which two threads draw.
use fake_libc.Common.{
  pos, ◌-ℤ◌, ◌≤ℤ◌, ℕ, ◌+◌, ◌≡◌, ◌≢◌, refl, true, false, [], ◌∷◌, arith, inl, inr,
}
use fake_libc.Windows.Base.{put, is_last}
use fake_libc.Windows.Fbdev.{
  Build, Device, Buffer, Answer, Window, entering, awaits_count, dequeued, new_buffer,
  delete_buffer, inc_ref, dec_ref, dec_all, destroy_buffers, make_buffer, make_buffers,
  reallocate_buffers, find_free, take_buffer, search_buffer, await_count, dequeue_buffer,
  set_buffer_count, new_window,
}
use fake_libc.Windows.Fbdev.Flags.{is_in, are_distinct, free, count_free}
use fake_libc.Windows.Fbdev.Search.{IsCounted}
use fake_libc.Windows.Fbdev.Threads.{System, outside, dequeuing, AreFresh, Run, here, next, call}
use fake_libc.Windows.Fbdev.Ownership.{searched, Run-dequeued, Run-exclusive}
use fake_libc.Windows.Fbdev.Progress.{dequeue_buffer-at_once}
use fake_libc.Windows.Fbdev.Allocation.{addresses, reallocate_buffers-lists}

abbrev android_5 : Build
android_5 = record { usage_hw_fb = 4096; front_serves = false; counts_framebuffers = true }

abbrev screen : Device
screen = record { width = 640; height = 480; format = 1; num_framebuffers = 2 }

abbrev heap : ℕ → Buffer
heap p = record {
  width = 0;
  height = 0;
  format = 0;
  usage = 0;
  handle = 0;
  stride = 0;
  refcount = 0;
  busy = 9;
  status = 0;
  alloc = 0;
}

abbrev memory : Window
memory = record {
  alloc = 0;
  device = screen;
  usage = 3;
  buf_format = 3;
  buffer_count = 3;
  free_bufs = pos 3;
  allocate_buffers = false;
  buf_list = [];
  front_buf = 77;
  buffers = heap;
  deleted = [];
  freed = [];
}

-- Each object has an address and a handle of its own, and every allocation succeeds.
abbrev answers : ℕ → Answer
answers i = record { address = i + 100; status = 0; handle = i + 500; stride = 640 }

fresh : AreFresh answers
fresh = record { distinct = λ i j e. omega (arith, e); not_null = λ i e. absurd (omega (arith, e)) }

abbrev begin : System
begin = record { window = new_window android_5 60 screen memory; place = λ t. outside }

abbrev entered : System
entered = record begin { place = put begin.place 1 (dequeuing entering) }

abbrev first : Window
first = (dequeue_buffer android_5 answers entering begin.window).1

first_list : first.buf_list ≡ 100 ∷ 101 ∷ []
unfolding new_window set_buffer_count dequeue_buffer reallocate_buffers destroy_buffers dec_all
    dec_ref is_last delete_buffer make_buffers make_buffer inc_ref new_buffer put await_count
    search_buffer find_free take_buffer
first_list = refl

to_entered : Run android_5 (λ e. Unit) begin entered
to_entered = next here tt (call begin 1 (dequeuing entering) refl (inl refl))

first_taken : dequeue_buffer android_5 answers entering begin.window ≡ (dequeued 100, first)
unfolding new_window set_buffer_count dequeue_buffer reallocate_buffers destroy_buffers dec_all
    dec_ref is_last delete_buffer make_buffers make_buffer inc_ref new_buffer put await_count
    search_buffer find_free take_buffer
first_taken = refl

Run-dequeued_example :
    (is_in 100 first.buf_list ≡ true)
    × (100 ≢ first.front_buf)
    × ((first.buffers 100).busy ≡ 1)
    × (are_distinct first.buf_list ≡ true)
    × (pos (count_free first.buffers first.buf_list) ≤ℤ first.free_bufs)
    × (pos 1 ≤ℤ (searched android_5 answers entering begin.window).free_bufs)
    × (first.free_bufs ≡ (searched android_5 answers entering begin.window).free_bufs -ℤ pos 1)
Run-dequeued_example =
    Run-dequeued 60 screen memory begin.place answers entering first 100 refl (omega arith)
      to_entered fresh first_taken

-- A second thread comes while the first draws into its buffer. The objects of a further reallocation would
-- lie elsewhere.
abbrev later : ℕ → Answer
later i = record { address = i + 900; status = 0; handle = i + 500; stride = 640 }

abbrev drawing : System
drawing = record { window = first; place = λ t. outside }

abbrev second : Window
second = (dequeue_buffer android_5 later entering first).1

second_taken : dequeue_buffer android_5 later entering first ≡ (dequeued 101, second)
unfolding new_window set_buffer_count dequeue_buffer reallocate_buffers destroy_buffers dec_all
    dec_ref is_last delete_buffer make_buffers make_buffer inc_ref new_buffer put await_count
    search_buffer find_free take_buffer
second_taken = refl

Run-exclusive_example : (◌≢◌ {A = ℕ} 101 100) × ((second.buffers 100).busy ≢ 0)
Run-exclusive_example =
    Run-exclusive {s = drawing} {r = drawing} answers later entering entering begin.window second
      100 101 refl first_taken here (λ i e. absurd (omega (arith, e))) second_taken

-- Behind the reallocation both buffers are free.
abbrev both : Window
both = reallocate_buffers android_5 answers begin.window

both-IsCounted : IsCounted both
unfolding new_window set_buffer_count reallocate_buffers destroy_buffers dec_all dec_ref is_last
    delete_buffer make_buffers make_buffer inc_ref new_buffer put is_in are_distinct free count_free
both-IsCounted = record { distinct = refl; counted = omega arith }

dequeue_buffer-at_once_example :
    (b : ℕ) × (dequeue_buffer android_5 answers awaits_count both
      ≡ (dequeued b, take_buffer b both))
unfolding new_window set_buffer_count reallocate_buffers destroy_buffers dec_all dec_ref is_last
    delete_buffer make_buffers make_buffer inc_ref new_buffer put free count_free
dequeue_buffer-at_once_example =
    dequeue_buffer-at_once android_5 answers awaits_count both both-IsCounted refl (omega arith)

-- The second of two allocations fails.
abbrev short : ℕ → Answer
short i = record { address = i + 100; status = i; handle = 0; stride = 0 }

reallocate_buffers-lists_example :
    let r = reallocate_buffers android_5 short begin.window in
    (r.buf_list ≡ addresses 1 short) × (r.free_bufs ≡ pos 1) × (r.allocate_buffers ≡ false)
unfolding new_window set_buffer_count
reallocate_buffers-lists_example =
    reallocate_buffers-lists android_5 1 short begin.window (λ i lt. omega (arith, lt))
      (omega arith) (inr (λ e. absurd (omega (arith, e)), λ e. absurd (omega (arith, e))))
