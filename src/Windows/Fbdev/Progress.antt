-- ===== src/Windows/Fbdev/Progress.antt =====
-- When `dequeueBuffer` answers at once, and when it never does.
use fake_libc.Common.{
  ℕ, ◌<◌, ◌≤◌, ◌≡◌, ◌≢◌, if◌then◌else◌, true, false, List, [], ◌∷◌, none, arith, Option-cases, inl,
  inr,
}
use fake_libc.Windows.Fbdev.{
  Build, Device, Answer, Window, Phase, entering, awaits_count, awaits_buffer, dequeued, find_free,
  take_buffer, search_buffer, await_count, dequeue_buffer, set_usage, set_buffer_count, new_window,
}
use fake_libc.Windows.Fbdev.Flags.{is_in, are_distinct, free, count_free}
use fake_libc.Windows.Fbdev.Search.{IsCounted, search_buffer-found, search_buffer-none}

-- At most the front buffer is free where the search finds nothing.
none-free :
    (w : Window) (bs : List ℕ)
    → are_distinct bs ≡ true
    → find_free w bs ≡ none
    → count_free w.buffers bs ≤ (if is_in w.front_buf bs then 1 else 0)
unfolding find_free count_free is_in are_distinct free
none-free w [] d e = ground arith
none-free w (b ∷ bs) d e = ground (arith, none-free w bs)

-- Where the list has no buffer twice, m_freeBufs is at least the number of its free buffers, at
-- least two of these are free and no reallocation is due, an attempt to dequeue from any point
-- of the function waits no more: it takes a buffer.
pub dequeue_buffer-at_once :
    (build : Build) (answers : ℕ → Answer) (ph : Phase) (w : Window)
    → IsCounted w
    → w.allocate_buffers ≡ false
    → 1 < count_free w.buffers w.buf_list
    → (b : ℕ) × (dequeue_buffer build answers ph w ≡ (dequeued b, take_buffer b w))
unfolding dequeue_buffer await_count
dequeue_buffer-at_once build answers ph w v quiet two =
    elim (Option-cases (find_free w w.buf_list)) [
      | inl e ↦ absurd (ground (arith, none-free w w.buf_list v.distinct e))
      | inr (b, e) ↦ (b, answered ph b (search_buffer-found build w b e))
    ]
  where
    answered :
        (ph : Phase) (b : ℕ)
        → search_buffer build w ≡ (dequeued b, take_buffer b w)
        → dequeue_buffer build answers ph w ≡ (dequeued b, take_buffer b w)
    answered entering b e = ground (arith, v.counted)
    answered awaits_count b e = ground (arith, v.counted)
    answered awaits_buffer b e = e

-- Where nothing is to be reallocated and the search finds nothing, every attempt waits.
waits_on :
    (build : Build) (answers : ℕ → Answer) (ph : Phase) (w : Window)
    → build.front_serves ≡ false
    → w.allocate_buffers ≡ false
    → find_free w w.buf_list ≡ none
    → ((dequeue_buffer build answers ph w).1 ≡ w)
      × ((b : ℕ) → (dequeue_buffer build answers ph w).0 ≢ dequeued b)
unfolding dequeue_buffer await_count
waits_on build answers entering w old quiet e =
    let waiting = search_buffer-none build w old e in ground arith
waits_on build answers awaits_count w old quiet e =
    let waiting = search_buffer-none build w old e in ground arith
waits_on build answers awaits_buffer w old quiet e =
    let waiting = search_buffer-none build w old e in ground arith

new_window-quiet :
    (build : Build) (alloc : ℕ) (device : Device) (memory : Window)
    → let w = set_usage build.usage_hw_fb (new_window build alloc device memory) in
      (w.allocate_buffers ≡ false) × (find_free w w.buf_list ≡ none)
unfolding set_usage new_window set_buffer_count find_free
new_window-quiet build alloc device memory = ground arith

-- On Android from 4.2 on: setting a new window's usage to GRALLOC_USAGE_HW_FB, which it has
-- already, cancels its first allocation, so that every attempt to dequeue, from any point of the
-- function, waits and leaves the window as it is.
pub new_window-waits :
    (build : Build) (alloc : ℕ) (device : Device) (memory : Window) (answers : ℕ → Answer)
    → build.front_serves ≡ false
    → let w = set_usage build.usage_hw_fb (new_window build alloc device memory) in
      ((ph : Phase) → (dequeue_buffer build answers ph w).1 ≡ w)
      × ((ph : Phase) (b : ℕ) → (dequeue_buffer build answers ph w).0 ≢ dequeued b)
new_window-waits build alloc device memory answers old =
    let w = set_usage build.usage_hw_fb (new_window build alloc device memory) in
    let (quiet, nothing) = new_window-quiet build alloc device memory in
    (
      λ ph. (waits_on build answers ph w old quiet nothing).0,
      λ ph. (waits_on build answers ph w old quiet nothing).1,
    )
