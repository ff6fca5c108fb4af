-- ===== src/Words/Laws.antt =====
-- Two's complement: the conversions of `Words` between bit patterns and signed integers.
use lms2012_compat.Prelude.{ℕ, ◌<◌, ◌≡◌, arith}
use lms2012_compat.Prelude.Int.{ℤ, pos, negsuc}
use lms2012_compat.Words.{Width, data8, data16, data32, modulus, signed, pattern_of, InRange}

pub pattern_of-lt : (w : Width) (z : ℤ) → pattern_of w z < modulus w
unfolding pattern_of
pattern_of-lt data8 (pos n) = omega arith
pattern_of-lt data8 (negsuc n) = omega arith
pattern_of-lt data16 (pos n) = omega arith
pattern_of-lt data16 (negsuc n) = omega arith
pattern_of-lt data32 (pos n) = omega arith
pattern_of-lt data32 (negsuc n) = omega arith

pub signed-InRange : (w : Width) (x : ℕ) → x < modulus w → InRange w (signed w x)
unfolding signed
signed-InRange data8 x h = ground arith
signed-InRange data16 x h = ground arith
signed-InRange data32 x h = ground arith

pub pattern_of-signed : (w : Width) (x : ℕ) → x < modulus w → pattern_of w (signed w x) ≡ x
unfolding signed pattern_of
pattern_of-signed data8 x h = ground arith
pattern_of-signed data16 x h = ground arith
pattern_of-signed data32 x h = ground arith

pub signed-pattern_of : (w : Width) (z : ℤ) → InRange w z → signed w (pattern_of w z) ≡ z
unfolding signed pattern_of
signed-pattern_of data8 (pos n) h = ground arith
signed-pattern_of data8 (negsuc n) h = ground arith
signed-pattern_of data16 (pos n) h = ground arith
signed-pattern_of data16 (negsuc n) h = ground arith
signed-pattern_of data32 (pos n) h = ground arith
signed-pattern_of data32 (negsuc n) h = ground arith
