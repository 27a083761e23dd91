-- ===== src/Object/Platform.antt =====
-- What the object model calls and this repository does not hold: fstat(), GLib's string hash, the
-- conversion of a double to an integer, the matchers of the query operators.
use librpc.Base.{ℕ, Bool, Option, Bytes}
use librpc.Base.Int.{ℤ}

pub record Platform : Type 0 where
  -- The device and the inode of a descriptor, or `none` where fstat() fails.
  pub fstat : ℤ → Option (ℕ × ℕ)
  pub string_hash : Bytes → ℕ
  pub double_to_size : ℕ → ℕ
  pub backtrace : Option Bytes
  -- g_regex_match_simple(pattern, string, 0, 0) and fnmatch(pattern, string, 0) == 0
  pub regex_match : Bytes → Bytes → Bool
  pub fnmatch : Bytes → Bytes → Bool
