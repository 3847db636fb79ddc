-- ===== src/Prelude/Word.antt =====
-- Integers of fixed width. The board is a Cortex-M33: `size_t`, `int` and `unsigned` have 32 bits.
use Prim.Native.Nat.{ℕ, ◌+◌, ◌-◌, ◌%◌, ◌^◌}

abbrev pub u8 : ℕ → ℕ
u8 n = n % 2 ^ 8

abbrev pub u16 : ℕ → ℕ
u16 n = n % 2 ^ 16

abbrev pub u32 : ℕ → ℕ
u32 n = n % 2 ^ 32

-- `size_t` sums and differences wrap.
abbrev pub add_size : ℕ → ℕ → ℕ
add_size a b = u32 (a + b)

abbrev pub sub_size : ℕ → ℕ → ℕ
sub_size a b = u32 (a + 2 ^ 32 - b)
