-- ===== src/Prelude/Word.antt =====
-- Machine words as numbers below a power of two, and casts between them.
use Prim.Native.Nat.{ℕ, ◌+◌, ◌-◌, ◌%◌, ◌^◌}
use mathlib.Core.Option.{Option, none, some}
use managed_linux_democracy.Prelude.Tests.{leb, ltb, if◌then◌else◌}
use managed_linux_democracy.Prelude.Int.{ℤ, pos, negsuc}

-- Whether the build has `overflow-checks`: Cargo's dev profile has, its release profile has not.
pub data Profile : Type 0 where
  dev release : Profile

-- `a - b` on `u64`: a panic (`none`) or a wrap where it would go below 0.
abbrev pub sub_u64 : Profile → ℕ → ℕ → Option ℕ
sub_u64 dev a b = if leb b a then some (a - b) else none
sub_u64 release a b = if leb b a then some (a - b) else some (a + 2 ^ 64 - b)

-- `a + b` on `u64`.
abbrev pub add_u64 : Profile → ℕ → ℕ → Option ℕ
add_u64 dev a b = if ltb (a + b) (2 ^ 64) then some (a + b) else none
add_u64 release a b = some ((a + b) % 2 ^ 64)

-- `x as u64` for an `i64`, and `x as u32` for an `i32`.
abbrev pub as_u64 : ℤ → ℕ
as_u64 (pos n) = n
as_u64 (negsuc n) = 2 ^ 64 - 1 - n

abbrev pub as_u32 : ℤ → ℕ
as_u32 (pos n) = n
as_u32 (negsuc n) = 2 ^ 32 - 1 - n
