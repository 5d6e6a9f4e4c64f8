-- ===== src/Windows/Base.antt =====
-- What the buffers of all windows share (libEGL/platforms/common/nativewindowbase.cpp): their reference
-- counts, a field of 32 bits of the object at an address.
use fake_libc.Common.{ℕ, ◌+◌, ◌%◌, ◌==◌, Bool, if◌then◌else◌}

-- An assignment of a field of the object at an address.
unfoldable pub put {ℓ} : {A : Type ℓ} → (ℕ → A) → ℕ → A → ℕ → A
put f p v q = if q == p then v else f q

-- `__sync_fetch_and_add(&refcount, 1)` and `__sync_fetch_and_sub(&refcount, 1)`
abbrev pub increment : ℕ → ℕ
increment n = (n + 1) % 4294967296

abbrev pub decrement : ℕ → ℕ
decrement n = (n + 4294967295) % 4294967296

-- `_decRef` deletes the object where the count was 1.
unfoldable pub is_last : ℕ → Bool
is_last refcount = refcount == 1
