-- ===== src/Words.antt =====
-- The VM's integer types DATA8, DATA16 and DATA32 of lms2012/lmstypes.h: a stored value is its bit
-- pattern, a number below the modulus, and stands for a signed integer in two's complement.
pub mod Laws
use lms2012_compat.Prelude.{ℕ, ◌-◌, ◌/◌, ◌%◌, ◌^◌, ◌≤◌, ◌<◌, Bool, ◌==◌, ltb, if◌then◌else◌}
use lms2012_compat.Prelude.Int.{ℤ, pos, negsuc, pos_part, neg_part}

pub data Width : Type 0 where
  data8 data16 data32 : Width

-- sizeof
abbrev pub size : Width → ℕ
size data8 = 1
size data16 = 2
size data32 = 4

abbrev pub modulus : Width → ℕ
modulus data8 = 2 ^ 8
modulus data16 = 2 ^ 16
modulus data32 = 2 ^ 32

abbrev pub half : Width → ℕ
half data8 = 2 ^ 7
half data16 = 2 ^ 15
half data32 = 2 ^ 31

-- The integer that a bit pattern stands for.
unfoldable pub signed : Width → ℕ → ℤ
signed w x = if ltb x (half w) then pos x else negsuc (modulus w - 1 - x)

-- The bit pattern that a conversion to the type leaves: the value modulo 2 ^ bits.
unfoldable pub pattern_of : Width → ℤ → ℕ
pattern_of w (pos n) = n % modulus w
pattern_of w (negsuc n) = modulus w - 1 - n % modulus w

-- Bit `k` of a byte, as in `Data & (1 << k)`.
abbrev pub bit : ℕ → ℕ → Bool
bit k x = x / 2 ^ k % 2 == 1

-- A conversion to DATA16
abbrev pub to_data16 : ℤ → ℤ
to_data16 z = signed data16 (pattern_of data16 z)

abbrev pub InRange : Width → ℤ → Type 0
InRange w z = (pos_part z < half w) × (neg_part z ≤ half w)
