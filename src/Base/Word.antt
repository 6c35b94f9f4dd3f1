-- ===== src/Base/Word.antt =====
-- Machine words as native numbers: a w-bit value wraps by `% 2 ^ w`.
use Prim.Native.Nat.{ℕ, ◌+◌, ◌*◌, ◌%◌, ◌^◌}

abbrev pub u8 : ℕ → ℕ
u8 n = n % 256

abbrev pub u32 : ℕ → ℕ
u32 n = n % 2 ^ 32

-- `(hi << 8) | lo` on two bytes: the bits do not overlap, so `|` is a sum.
abbrev pub be16 : ℕ → ℕ → ℕ
be16 hi lo = hi * 256 + lo

-- `(a << 16) | (b << 8) | c` on three bytes.
abbrev pub be24 : ℕ → ℕ → ℕ → ℕ
be24 a b c = (a * 256 + b) * 256 + c
