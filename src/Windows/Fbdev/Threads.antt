-- ===== src/Windows/Fbdev/Threads.antt =====
-- Any number of threads on one window: each step is what a thread does while it holds the mutex, or one
-- of the setters, which do not take it.
use fake_libc.Common.{ℕ, ◌≡◌, ◌≢◌, ◌⊎◌, false, ok}
use fake_libc.Windows.Base.{put}
use fake_libc.Windows.Fbdev.{
  Build, Answer, Window, Phase, entering, Attempt, waits, dequeued, dequeue_buffer, start_queue,
  end_queue, cancel_buffer, lock_waits, set_usage, set_buffers_format, set_buffer_count,
}

-- Where a thread stands: outside of the window's functions, in `dequeueBuffer`, in the post of
-- `queueBuffer`, or in `lockBuffer`.
pub data Place : Type 0 where
  outside : Place
  dequeuing : Phase → Place
  posting : ℕ → Place
  locking : ℕ → Place

pub record System : Type 0 where
  pub window : Window
  pub place : ℕ → Place

-- Where an attempt leaves the thread.
unfoldable pub after : Attempt → Place
after (waits ph) = dequeuing ph
after (dequeued b) = outside

-- The objects that `new` makes in one call of `reallocateBuffers` are distinct, and none is at NULL.
pub record AreFresh (answers : ℕ → Answer) : Type 0 where
  pub distinct : (i j : ℕ) → (answers i).address ≡ (answers j).address → i ≡ j
  pub not_null : (i : ℕ) → (answers i).address ≢ 0

-- What a step does with buffers, for those who watch one.
pub data Event : Type 0 where
  calls : Event
  attempts : (ℕ → Answer) → Attempt → Event
  queues posts cancels : ℕ → Event

pub data Step (build : Build) : Event → System → System → Type 0 where
  call :
      (s : System) (t : ℕ) (p : Place)
      → s.place t ≡ outside
      → ((p ≡ dequeuing entering) ⊎ ((b : ℕ) × (p ≡ locking b)))
      → Step build calls s (record s { place = put s.place t p })
  attempt :
      (s : System) (t : ℕ) (ph : Phase) (answers : ℕ → Answer)
      → s.place t ≡ dequeuing ph
      → AreFresh answers
      → Step build (attempts answers (dequeue_buffer build answers ph s.window).0) s (record {
        window = (dequeue_buffer build answers ph s.window).1;
        place = put s.place t (after (dequeue_buffer build answers ph s.window).0);
      })
  queue :
      (s : System) (t b : ℕ) (w : Window)
      → s.place t ≡ outside
      → start_queue b s.window ≡ ok w
      → Step build (queues b) s (record { window = w; place = put s.place t (posting b) })
  post :
      (s : System) (t b : ℕ)
      → s.place t ≡ posting b
      → Step build
          (posts b)
          s
          (record { window = end_queue b s.window; place = put s.place t outside })
  cancel :
      (s : System) (t b : ℕ)
      → s.place t ≡ outside
      → Step build (cancels b) s (record s { window = cancel_buffer b s.window })
  lock :
      (s : System) (t b : ℕ)
      → s.place t ≡ locking b
      → lock_waits b s.window ≡ false
      → Step build calls s (record s { place = put s.place t outside })
  configure_usage :
      (s : System) (usage : ℕ) → Step build calls s (record s { window = set_usage usage s.window })
  configure_format :
      (s : System) (format : ℕ)
      → Step build calls s (record s { window = set_buffers_format format s.window })
  configure_count :
      (s : System) (cnt : ℕ)
      → Step build calls s (record s { window = set_buffer_count cnt s.window })

-- A run of steps with events that are allowed, the last one at the end.
pub data Run (build : Build) (Allowed : Event → Type 0) (s : System) : System → Type 0 where
  here : Run build Allowed s s
  next :
      {r q : System} {e : Event}
      → Run build Allowed s r
      → Allowed e
      → Step build e r q
      → Run build Allowed s q
