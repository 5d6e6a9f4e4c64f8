-- ===== src/Windows/Hwcomposer/Assertions.antt =====
-- The assertions of `dequeueBuffer` hold.
use mathlib.Core.Path.{subst}
use fake_libc.Common.{
  if◌then◌else◌, ℕ, zero, suc, ◌+◌, ◌<◌, ◌≡◌, ◌≢◌, refl, ap, ◌==◌, Bool, true, false, List, [], ◌∷◌,
  Option, none, some, ok, fault, bit_or, length, length-append, get_elem?, arith, Bool-cases,
  Option-cases, inl, inr, ◌⊎◌,
}
use fake_libc.Windows.Base.{put}
use fake_libc.Windows.Hwcomposer.{
  Buffer, Answer, Window, new_buffer, new_window, setup, delete_buffer, inc_ref, dec_ref,
  destroy_buffers, make_buffer, make_buffers, allocate_buffers, hand_over, is_empty, ready,
  dequeue_buffer, set_fence, queue_buffer, cancel_buffer, set_usage, set_buffers_format,
  set_buffer_count,
}
use fake_libc.Windows.Hwcomposer.Rounds.{hand_over-next, dequeue_buffer-some}

-- The next buffer is one of the list, or the list is empty and the next one is the first.
unfoldable pub IsRound : Window → Type 0
IsRound w = (w.next_buffer < length w.buf_list) ⊎ ((w.buf_list ≡ []) × (w.next_buffer ≡ 0))

get_elem?-some : (bs : List ℕ) (i : ℕ) → i < length bs → (b : ℕ) × (get_elem? bs i ≡ some b)
get_elem?-some [] i lt = absurd (omega (arith, lt))
get_elem?-some (x ∷ xs) zero lt = (x, refl)
get_elem?-some (x ∷ xs) (suc i) lt = get_elem?-some xs i (omega (arith, lt))

-- The operations, called one after the other: `setup` and the settings take no mutex in the code, and
-- no step here is interrupted by another.
pub data Step : Window → Window → Type 0 where
  sets_up : (alloc : ℕ) (w : Window) → Step w (setup alloc w)
  dequeues :
      (answers : ℕ → Answer) (dup : ℕ → ℕ) (wants : Bool) (w r : Window) (b : ℕ) (out : Option ℕ)
      → dequeue_buffer answers dup wants w ≡ ok (b, (out, r))
      → Step w r
  queues :
      (present : ℕ → (ℕ → Buffer) → ℕ → Buffer) (b fence : ℕ) (w r : Window)
      → queue_buffer present b fence w ≡ ok r
      → Step w r
  cancels : (b fence : ℕ) (w : Window) → Step w (cancel_buffer b fence w)
  sets_usage : (composer_usage usage : ℕ) (w : Window) → Step w (set_usage composer_usage usage w)
  sets_format : (format : ℕ) (w : Window) → Step w (set_buffers_format format w)
  sets_count : (count : ℕ) (w : Window) → Step w (set_buffer_count count w)

pub data Run (w : Window) : Window → Type 0 where
  here : Run w w
  next : {r q : Window} → Run w r → Step r q → Run w q

destroy_buffers-IsRound : (w : Window) → IsRound (destroy_buffers w)
unfolding destroy_buffers IsRound
destroy_buffers-IsRound w = inr (refl, refl)

starts-IsRound : (bs : List ℕ) → (0 < length bs) ⊎ ((bs ≡ []) × (◌≡◌ {A = ℕ} 0 0))
starts-IsRound [] = inr (refl, refl)
starts-IsRound (b ∷ bs) = inl (omega arith)

ready-IsRound : (answers : ℕ → Answer) (w : Window) → IsRound w → IsRound (ready answers w)
unfolding ready allocate_buffers IsRound
ready-IsRound answers w v =
    let made = starts-IsRound (make_buffers w.buffer_count answers w).buf_list in ground arith

hand_over-IsRound :
    (dup : ℕ → ℕ) (wants : Bool) (b : ℕ) (w : Window)
    → 0 < length w.buf_list
    → IsRound (hand_over dup wants b w).1
unfolding IsRound
hand_over-IsRound dup wants b w full =
    let (kept, at) = hand_over-next dup wants b w in ground (arith, ap length kept)

dequeue_buffer-none :
    (answers : ℕ → Answer) (dup : ℕ → ℕ) (wants : Bool) (w : Window)
    → get_elem? (ready answers w).buf_list (ready answers w).next_buffer ≡ none
    → dequeue_buffer answers dup wants w ≡ fault
unfolding dequeue_buffer
dequeue_buffer-none answers dup wants w e = rw (e, dequeue_buffer) refl

pub dequeue_buffer-ok :
    (answers : ℕ → Answer) (dup : ℕ → ℕ) (wants : Bool) (w r : Window) (b : ℕ) (out : Option ℕ)
    → dequeue_buffer answers dup wants w ≡ ok (b, (out, r))
    → (get_elem? (ready answers w).buf_list (ready answers w).next_buffer ≡ some b)
      × (hand_over dup wants b (ready answers w) ≡ (out, r))
dequeue_buffer-ok answers dup wants w r b out e =
    elim (Option-cases (get_elem? (ready answers w).buf_list (ready answers w).next_buffer)) [
      | inl missing ↦
          let failed = dequeue_buffer-none answers dup wants w missing in absurd (ground arith)
      | inr (c, found) ↦ let done = dequeue_buffer-some answers dup wants w c found in ground arith
    ]

get_elem?-full : (bs : List ℕ) (i b : ℕ) → get_elem? bs i ≡ some b → 0 < length bs
get_elem?-full [] i b e = ground arith
get_elem?-full (x ∷ xs) i b e = omega arith

dequeue_buffer-IsRound :
    (answers : ℕ → Answer) (dup : ℕ → ℕ) (wants : Bool) (w r : Window) (b : ℕ) (out : Option ℕ)
    → dequeue_buffer answers dup wants w ≡ ok (b, (out, r))
    → IsRound r
dequeue_buffer-IsRound answers dup wants w r b out e =
    let (found, given) = dequeue_buffer-ok answers dup wants w r b out e in
    let full = get_elem?-full (ready answers w).buf_list _ b found in
    subst (λ x. IsRound x.1) given (hand_over-IsRound dup wants b (ready answers w) full)

queue_buffer-lists :
    (present : ℕ → (ℕ → Buffer) → ℕ → Buffer) (b fence : ℕ) (w r : Window)
    → queue_buffer present b fence w ≡ ok r
    → (r.buf_list ≡ w.buf_list) × (r.next_buffer ≡ w.next_buffer)
unfolding queue_buffer set_fence
queue_buffer-lists present b fence w r e = ground arith

Step-IsRound : {w r : Window} → Step w r → IsRound w → IsRound r
unfolding setup cancel_buffer set_fence set_usage set_buffers_format set_buffer_count IsRound
Step-IsRound (sets_up alloc w) v = v
Step-IsRound (dequeues answers dup wants w r b out e) v =
    dequeue_buffer-IsRound answers dup wants w r b out e
Step-IsRound (queues present b fence w r e) v =
    let (list, at) = queue_buffer-lists present b fence w r e in rw (list, at) v
Step-IsRound (cancels b fence w) v = v
Step-IsRound (sets_usage composer_usage usage w) v =
    let fresh = destroy_buffers-IsRound (record w { usage = bit_or usage composer_usage }) in
    ground arith
Step-IsRound (sets_format format w) v =
    let fresh = destroy_buffers-IsRound (record w { buf_format = format }) in ground arith
Step-IsRound (sets_count count w) v = let fresh = destroy_buffers-IsRound w in ground arith

Run-IsRound : {w r : Window} → Run w r → IsRound w → IsRound r
Run-IsRound here v = v
Run-IsRound (next p st) v = Step-IsRound st (Run-IsRound p v)

make_buffer-list : (a : Answer) (w : Window) → (make_buffer a w).buf_list ≡ w.buf_list
unfolding make_buffer inc_ref
make_buffer-list a w = refl

dec_ref-list : (b : ℕ) (w : Window) → (dec_ref b w).buf_list ≡ w.buf_list
unfolding dec_ref delete_buffer
dec_ref-list b w = ground arith

make_buffers-full :
    (n : ℕ) (answers : ℕ → Answer) (w : Window)
    → 0 < length w.buf_list
    → 0 < length (make_buffers n answers w).buf_list
unfolding make_buffers
make_buffers-full zero answers w full = full
make_buffers-full (suc n) answers w full =
    let a : Answer = answers 0 in
    let w' = make_buffer a w in
    let longer = length-append w'.buf_list (a.address ∷ []) in
    elim (Bool-cases ((w'.buffers a.address).status == 0)) [
      | inl e ↦ rw e (make_buffers-full n (λ i. answers (i + 1)) _ (omega (arith, longer)))
      | inr e ↦ rw (e, dec_ref-list a.address w', make_buffer-list a w) full
    ]

make_buffer-status :
    (a : Answer) (w : Window)
    → ((make_buffer a w).buffers a.address).status ≡ (if w.alloc == 0 then 0 else a.status)
unfolding make_buffer inc_ref put new_buffer
make_buffer-status a w = ground arith

make_buffers-first :
    (n : ℕ) (answers : ℕ → Answer) (w : Window)
    → (w.alloc ≡ 0) ⊎ ((answers 0).status ≡ 0)
    → n ≢ 0
    → 0 < length (make_buffers n answers w).buf_list
unfolding make_buffers
make_buffers-first zero answers w good asked = absurd (asked refl)
make_buffers-first (suc n) answers w good asked =
    let a : Answer = answers 0 in
    let w' = make_buffer a w in
    let made = make_buffer-status a w in
    let fine : ((w'.buffers a.address).status == 0) ≡ true = ground arith in
    let longer = length-append w'.buf_list (a.address ∷ []) in
    rw fine (make_buffers-full n (λ i. answers (i + 1)) _ (omega (arith, longer)))

is_empty-full : (bs : List ℕ) → is_empty bs ≡ false → 0 < length bs
unfolding is_empty
is_empty-full [] e = ground arith
is_empty-full (b ∷ bs) e = omega arith

ready-full :
    (answers : ℕ → Answer) (w : Window)
    → (w.alloc ≡ 0) ⊎ ((answers 0).status ≡ 0)
    → w.buffer_count ≢ 0
    → 0 < length (ready answers w).buf_list
unfolding ready allocate_buffers
ready-full answers w good asked = elim (Bool-cases (is_empty w.buf_list)) [
  | inl e ↦ rw e (make_buffers-first w.buffer_count answers w good asked)
  | inr e ↦ rw e (is_empty-full w.buf_list e)
]

full-IsRound : (w : Window) → 0 < length w.buf_list → IsRound w → w.next_buffer < length w.buf_list
unfolding IsRound
full-IsRound w full (inl lt) = lt
full-IsRound w full (inr (e, z)) = absurd (omega (arith, ap length e))

-- In every state that setup, dequeues, queues, cancels and settings, called one after the other,
-- reach from a new window: a dequeue answers a buffer and fails no assertion, if the buffer
-- count is not 0 and either no allocation device is set or the first allocation succeeds.
pub Run-dequeue :
    {w : Window} (composer_usage width height format : ℕ) (memory : ℕ → Buffer)
    (answers : ℕ → Answer) (dup : ℕ → ℕ) (wants : Bool)
    → Run (new_window composer_usage width height format memory) w
    → (w.alloc ≡ 0) ⊎ ((answers 0).status ≡ 0)
    → w.buffer_count ≢ 0
    → (b : ℕ) × (out : Option ℕ) × (r : Window) × (dequeue_buffer answers dup wants w
        ≡ ok (b, (out, r)))
unfolding new_window IsRound
Run-dequeue {w} composer_usage width height format memory answers dup wants run good asked =
    let v = ready-IsRound answers w (Run-IsRound run (inr (refl, refl))) in
    let lt = full-IsRound (ready answers w) (ready-full answers w good asked) v in
    let (b, e) = get_elem?-some (ready answers w).buf_list (ready answers w).next_buffer lt in
    let given = hand_over dup wants b (ready answers w) in
    (b, given.0, given.1, dequeue_buffer-some answers dup wants w b e)
