-- ===== src/Windows/Fbdev/Allocation.antt =====
-- Which buffers a reallocation leaves, and how an allocation that fails ends it.
use mathlib.Core.Path.{subst}
use fake_libc.Common.{
  if◌then◌else◌, ℤ, pos, ◌+ℤ◌, ℕ, zero, suc, ◌+◌, ◌<◌, ◌≤◌, ◌≡◌, ◌≢◌, refl, sym, ◌∙◌, ap, ◌==◌,
  true, false, ◌⊎◌, List, [], ◌∷◌, ◌++◌, append_assoc, append-nil, arith, inl, inr,
}
use fake_libc.Windows.Base.{put}
use fake_libc.Windows.Fbdev.{
  Build, Answer, Window, new_buffer, delete_buffer, inc_ref, dec_ref, dec_all, destroy_buffers,
  make_buffer, make_buffers, reallocate_buffers,
}
use fake_libc.Windows.Fbdev.Counting.{make_buffer-list, dec_ref-lists}

-- The addresses of the first `n` answers.
unfoldable pub addresses : ℕ → (ℕ → Answer) → List ℕ
addresses zero answers = []
addresses (suc n) answers = (answers 0).address ∷ addresses n (λ i. answers (i + 1))

make_buffer-status :
    (build : Build) (a : Answer) (w : Window)
    → ((make_buffer build a w).buffers a.address).status ≡ (if w.alloc == 0 then 0 else a.status)
unfolding make_buffer inc_ref put new_buffer
make_buffer-status build a w = ground arith

make_buffer-alloc :
    (build : Build) (a : Answer) (w : Window) → (make_buffer build a w).alloc ≡ w.alloc
unfolding make_buffer inc_ref
make_buffer-alloc build a w = refl

dec_all-alloc : (bs : List ℕ) (w : Window) → (dec_all bs w).alloc ≡ w.alloc
unfolding dec_all dec_ref delete_buffer
dec_all-alloc [] w = refl
dec_all-alloc (b ∷ bs) w = dec_all-alloc bs (dec_ref b w) ∙ ground arith

make_buffer-spare :
    (build : Build) (a : Answer) (w : Window) → (make_buffer build a w).free_bufs ≡ w.free_bufs
unfolding make_buffer inc_ref
make_buffer-spare build a w = refl

-- One round, where the allocation succeeds or fails.
make_buffers-goes_on :
    (build : Build) (n : ℕ) (answers : ℕ → Answer) (w : Window)
    → (answers 0).status ≡ 0
    → let w' = make_buffer build (answers 0) w in
      make_buffers build (suc n) answers w
      ≡ make_buffers build n
          (λ i. answers (i + 1))
          (record w' {
            free_bufs = w'.free_bufs +ℤ pos 1;
            buf_list = w'.buf_list ++ (answers 0).address ∷ [];
          })
unfolding make_buffers
make_buffers-goes_on build n answers w good =
    let made = make_buffer-status build (answers 0) w in
    let fine : (((make_buffer build (answers 0) w).buffers (answers 0).address).status == 0)
        ≡ true =
      ground arith in
    rw fine refl

make_buffers-stops :
    (build : Build) (n : ℕ) (answers : ℕ → Answer) (w : Window)
    → w.alloc ≢ 0
    → (answers 0).status ≢ 0
    → make_buffers build (suc n) answers w
      ≡ dec_ref (answers 0).address (make_buffer build (answers 0) w)
unfolding make_buffers
make_buffers-stops build n answers w can bad =
    let made = make_buffer-status build (answers 0) w in
    let failed : (((make_buffer build (answers 0) w).buffers (answers 0).address).status == 0)
        ≡ false =
      ground arith in
    rw failed refl

make_buffers-done :
    (build : Build) (answers : ℕ → Answer) (w : Window) → make_buffers build 0 answers w ≡ w
unfolding make_buffers
make_buffers-done build answers w = refl

plus_zero : (a : ℤ) → a ≡ a +ℤ pos 0
plus_zero a = ground arith

plus_one : (a : ℤ) (k : ℕ) → a +ℤ pos 1 +ℤ pos k ≡ a +ℤ pos (suc k)
plus_one a k = ground arith

next_index : (k : ℕ) → suc k ≡ k + 1
next_index k = omega arith

make_buffers-lists :
    (build : Build) (n k : ℕ) (answers : ℕ → Answer) (w : Window)
    → ((i : ℕ) → i < k → (answers i).status ≡ 0)
    → k ≤ n
    → (k ≡ n) ⊎ ((w.alloc ≢ 0) × ((answers k).status ≢ 0))
    → ((make_buffers build n answers w).buf_list ≡ w.buf_list ++ addresses k answers)
      × ((make_buffers build n answers w).free_bufs ≡ w.free_bufs +ℤ pos k)
unfolding addresses
make_buffers-lists build zero zero answers w good le end =
    rw (make_buffers-done build answers w) (sym (append-nil w.buf_list), plus_zero w.free_bufs)
make_buffers-lists build zero (suc k) answers w good le end = absurd (omega (arith, le))
make_buffers-lists build (suc n) zero answers w good le (inl e) = absurd (omega (arith, e))
make_buffers-lists build (suc n) zero answers w good le (inr (can, bad)) =
    let (list, spare) = dec_ref-lists (answers 0).address (make_buffer build (answers 0) w) in
    rw
      (
        make_buffers-stops build n answers w can bad,
        list,
        spare,
        make_buffer-list build (answers 0) w,
        make_buffer-spare build (answers 0) w,
      )
      (sym (append-nil w.buf_list), plus_zero w.free_bufs)
make_buffers-lists build (suc n) (suc k) answers w good le end =
    let w' = make_buffer build (answers 0) w in
    let w'' : Window = record w' {
      free_bufs = w'.free_bufs +ℤ pos 1;
      buf_list = w'.buf_list ++ (answers 0).address ∷ [];
    } in
    let (list, spare) =
      make_buffers-lists build n k (λ i. answers (i + 1)) w''
        (λ i lt. good (i + 1) (omega (arith, lt))) (omega (arith, le))
        (elim end [
          | inl e ↦ inl (omega (arith, e))
          | inr (can, bad) ↦ inr (
            rw (make_buffer-alloc build (answers 0) w) can,
            subst (λ i. (answers i).status ≢ 0) (next_index k) bad,
          )
        ]) in
    let kept = make_buffer-list build (answers 0) w in
    let same = make_buffer-spare build (answers 0) w in
    rw (make_buffers-goes_on build n answers w (good 0 (omega arith))) (
      list
          ∙ ap (λ bs. (bs ++ (answers 0).address ∷ []) ++ addresses k (λ i. answers (i + 1))) kept
          ∙ append_assoc w.buf_list _ _,
      spare ∙ rw same (plus_one w.free_bufs k),
    )

destroy_buffers-empties :
    (w : Window)
    → ((destroy_buffers w).buf_list ≡ [])
      × ((destroy_buffers w).free_bufs ≡ pos 0)
      × ((destroy_buffers w).alloc ≡ w.alloc)
unfolding destroy_buffers
destroy_buffers-empties w = (refl, refl, dec_all-alloc w.buf_list w)

-- If the first k allocations succeed, and these are all that m_bufferCount asks for, or there is
-- an allocator and the next one fails: a reallocation leaves the buffers of these k in their
-- order as the list, m_freeBufs is k, and no reallocation is due.
pub reallocate_buffers-lists :
    (build : Build) (k : ℕ) (answers : ℕ → Answer) (w : Window)
    → ((i : ℕ) → i < k → (answers i).status ≡ 0)
    → k ≤ w.buffer_count
    → (k ≡ w.buffer_count) ⊎ ((w.alloc ≢ 0) × ((answers k).status ≢ 0))
    → let r = reallocate_buffers build answers w in
      (r.buf_list ≡ addresses k answers) × (r.free_bufs ≡ pos k) × (r.allocate_buffers ≡ false)
unfolding reallocate_buffers
reallocate_buffers-lists build k answers w good le end =
    let (empty, zeroed, same) = destroy_buffers-empties w in
    let (list, spare) =
      make_buffers-lists build w.buffer_count k answers (destroy_buffers w) good le (rw same end) in
    (list ∙ ap (λ bs. bs ++ addresses k answers) empty, spare ∙ rw zeroed (ground arith), refl)
