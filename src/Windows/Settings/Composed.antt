-- ===== src/Windows/Settings/Composed.antt =====
-- What the queries of a hwcomposer window answer after any operations.
use fake_libc.Common.{ℕ, ◌≡◌}
use fake_libc.Windows.Dispatch
use fake_libc.Windows.Dispatch.{WindowClass}
use fake_libc.Windows.Hwcomposer

-- The fields that the queries of the hwcomposer window read.
record HasShape (width height format : ℕ) (w : Hwcomposer.Window) : Type 0 where
  wide : w.width ≡ width
  high : w.height ≡ height
  formatted : w.buf_format ≡ format
