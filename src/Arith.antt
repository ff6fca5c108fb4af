-- ===== src/Arith.antt =====
-- The arithmetic of lms2012/c_math.c: each reads its operands, and writes the result to the last one.
-- Integers are promoted to `int` and the result is cut to the type, so that it wraps; a 32-bit sum,
-- difference or product wraps like the hardware's.
pub mod Exact
pub mod Division
pub mod Zero
use Prim.Native.Nat.{bit_and, bit_or, bit_xor}
use lms2012_compat.Prelude.{◌+◌, ◌-◌, ◌/◌, ◌%◌, ◌^◌, ◌&&◌, ltb, if◌then◌else◌}
use lms2012_compat.Prelude.Int.{
  ℤ, pos, negsuc, pos_part, neg_part, sub_ℕ, ◌+ℤ◌, ◌-ℤ◌, ◌*ℤ◌, ltb_ℤ, eqb_ℤ,
}
use lms2012_compat.Words.{data8, data16, data32}
use lms2012_compat.Vm.{M, ◌>>=◌, fault, gets, pure}
use lms2012_compat.Floats.{Floats}
use lms2012_compat.Param.{par, par_bits, put, put_bits}

-- C's `/` and `%` on integers: the quotient is cut towards zero.
unfoldable pub div_int : ℤ → ℤ → ℤ
div_int x y =
    sub_ℕ (pos_part x / pos_part y + neg_part x / neg_part y)
      (pos_part x / neg_part y + neg_part x / pos_part y)

unfoldable pub mod_int : ℤ → ℤ → ℤ
mod_int x y =
    sub_ℕ (pos_part x % (pos_part y + neg_part y)) (neg_part x % (pos_part y + neg_part y))

unfoldable pub c_math_add8 : M (Unit {0})
c_math_add8 = do tmp ← par data8; x ← par data8; put data8 (tmp +ℤ x)

unfoldable pub c_math_add16 : M (Unit {0})
c_math_add16 = do tmp ← par data16; x ← par data16; put data16 (tmp +ℤ x)

unfoldable pub c_math_add32 : M (Unit {0})
c_math_add32 = do tmp ← par data32; x ← par data32; put data32 (tmp +ℤ x)

unfoldable pub c_math_add_f : Floats → M (Unit {0})
c_math_add_f f = do tmp ← par_bits data32; x ← par_bits data32; put_bits data32 (f.add tmp x)

unfoldable pub c_math_sub8 : M (Unit {0})
c_math_sub8 = do tmp ← par data8; x ← par data8; put data8 (tmp -ℤ x)

unfoldable pub c_math_sub16 : M (Unit {0})
c_math_sub16 = do tmp ← par data16; x ← par data16; put data16 (tmp -ℤ x)

unfoldable pub c_math_sub32 : M (Unit {0})
c_math_sub32 = do tmp ← par data32; x ← par data32; put data32 (tmp -ℤ x)

unfoldable pub c_math_sub_f : Floats → M (Unit {0})
c_math_sub_f f = do tmp ← par_bits data32; x ← par_bits data32; put_bits data32 (f.sub tmp x)

unfoldable pub c_math_mul8 : M (Unit {0})
c_math_mul8 = do tmp ← par data8; x ← par data8; put data8 (tmp *ℤ x)

unfoldable pub c_math_mul16 : M (Unit {0})
c_math_mul16 = do tmp ← par data16; x ← par data16; put data16 (tmp *ℤ x)

unfoldable pub c_math_mul32 : M (Unit {0})
c_math_mul32 = do tmp ← par data32; x ← par data32; put data32 (tmp *ℤ x)

unfoldable pub c_math_mul_f : Floats → M (Unit {0})
c_math_mul_f f = do tmp ← par_bits data32; x ← par_bits data32; put_bits data32 (f.mul tmp x)

-- What a division by zero leaves: a limit of the type, by the sign of the dividend. The second test
-- reads the value that the first one may have set.
unfoldable pub on_zero : ℤ → ℤ → ℤ → ℤ
on_zero lo hi x = let x' = if ltb_ℤ (pos 0) x then hi else x in if ltb_ℤ x' (pos 0) then lo else x'

unfoldable pub c_math_div8 : M (Unit {0})
unfolding div_int
c_math_div8 = do
  x ← par data8
  y ← par data8
  lo ← gets (λ s. s.codes.data_min data8)
  hi ← gets (λ s. s.codes.data_max data8)
  put data8 (if eqb_ℤ y (pos 0) then on_zero lo hi x else div_int x y)

unfoldable pub c_math_div16 : M (Unit {0})
unfolding div_int
c_math_div16 = do
  x ← par data16
  y ← par data16
  lo ← gets (λ s. s.codes.data_min data16)
  hi ← gets (λ s. s.codes.data_max data16)
  put data16 (if eqb_ℤ y (pos 0) then on_zero lo hi x else div_int x y)

-- The one quotient that no DATA32 holds is undefined in C.
unfoldable pub c_math_div32 : M (Unit {0})
unfolding div_int
c_math_div32 = do
  x ← par data32
  y ← par data32
  lo ← gets (λ s. s.codes.data_min data32)
  hi ← gets (λ s. s.codes.data_max data32)
  if eqb_ℤ x (negsuc (2 ^ 31 - 1)) && eqb_ℤ y (negsuc 0)
      then fault
      else put data32 (if eqb_ℤ y (pos 0) then on_zero lo hi x else div_int x y)

unfoldable pub c_math_div_f : Floats → M (Unit {0})
c_math_div_f f = do x ← par_bits data32; y ← par_bits data32; put_bits data32 (f.div x y)

unfoldable pub c_math_or8 : M (Unit {0})
c_math_or8 = do tmp ← par_bits data8; x ← par_bits data8; put_bits data8 (bit_or tmp x)

unfoldable pub c_math_or16 : M (Unit {0})
c_math_or16 = do tmp ← par_bits data16; x ← par_bits data16; put_bits data16 (bit_or tmp x)

unfoldable pub c_math_or32 : M (Unit {0})
c_math_or32 = do tmp ← par_bits data32; x ← par_bits data32; put_bits data32 (bit_or tmp x)

unfoldable pub c_math_and8 : M (Unit {0})
c_math_and8 = do tmp ← par_bits data8; x ← par_bits data8; put_bits data8 (bit_and tmp x)

unfoldable pub c_math_and16 : M (Unit {0})
c_math_and16 = do tmp ← par_bits data16; x ← par_bits data16; put_bits data16 (bit_and tmp x)

unfoldable pub c_math_and32 : M (Unit {0})
c_math_and32 = do tmp ← par_bits data32; x ← par_bits data32; put_bits data32 (bit_and tmp x)

unfoldable pub c_math_xor8 : M (Unit {0})
c_math_xor8 = do tmp ← par_bits data8; x ← par_bits data8; put_bits data8 (bit_xor tmp x)

unfoldable pub c_math_xor16 : M (Unit {0})
c_math_xor16 = do tmp ← par_bits data16; x ← par_bits data16; put_bits data16 (bit_xor tmp x)

unfoldable pub c_math_xor32 : M (Unit {0})
c_math_xor32 = do tmp ← par_bits data32; x ← par_bits data32; put_bits data32 (bit_xor tmp x)

-- `<<` by a negative number or by 32 and more is undefined in C.
unfoldable pub shift_left : ℤ → ℤ → M ℤ
shift_left x (pos n) = if ltb n 32 then pure (x *ℤ pos (2 ^ n)) else fault
shift_left x (negsuc n) = fault

unfoldable pub c_math_rl8 : M (Unit {0})
unfolding shift_left
c_math_rl8 = do tmp ← par data8; x ← par data8; r ← shift_left tmp x; put data8 r

unfoldable pub c_math_rl16 : M (Unit {0})
unfolding shift_left
c_math_rl16 = do tmp ← par data16; x ← par data16; r ← shift_left tmp x; put data16 r

unfoldable pub c_math_rl32 : M (Unit {0})
unfolding shift_left
c_math_rl32 = do tmp ← par data32; x ← par data32; r ← shift_left tmp x; put data32 r

-- The case scMOD8 of cMath.
unfoldable pub c_math_mod8 : M (Unit {0})
unfolding mod_int
c_math_mod8 = do
  x ← par data8
  y ← par data8
  put data8 (if eqb_ℤ y (pos 0) then pos 0 else mod_int x y)

-- The case scMOD16 of cMath.
unfoldable pub c_math_mod16 : M (Unit {0})
unfolding mod_int
c_math_mod16 = do
  x ← par data16
  y ← par data16
  put data16 (if eqb_ℤ y (pos 0) then pos 0 else mod_int x y)

-- The case scMOD32 of cMath, undefined where the quotient is.
unfoldable pub c_math_mod32 : M (Unit {0})
unfolding mod_int
c_math_mod32 = do
  x ← par data32
  y ← par data32
  if eqb_ℤ x (negsuc (2 ^ 31 - 1)) && eqb_ℤ y (negsuc 0)
      then fault
      else put data32 (if eqb_ℤ y (pos 0) then pos 0 else mod_int x y)
