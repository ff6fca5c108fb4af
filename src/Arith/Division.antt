-- ===== src/Arith/Division.antt =====
-- Division and remainder of lms2012/c_math.c: quotient and remainder make up the dividend.
use lms2012_compat.Prelude.{
  ℕ, zero, suc, ◌+◌, ◌-◌, ◌^◌, ◌<◌, ◌≤◌, ◌≡◌, ◌≢◌, refl, ◌∙◌, Bool, false, ◌&&◌, some, arith,
}
use lms2012_compat.Prelude.Int.{ℤ, pos, negsuc, pos_part, neg_part, ◌+ℤ◌, ◌*ℤ◌, eqb_ℤ}
use lms2012_compat.Words.{Width, data8, data16, data32, size, half, signed, InRange}
use lms2012_compat.Words.Laws.{signed-InRange}
use lms2012_compat.Vm.{Vm, Ptr, M, value_at, at, load_bytes}
use lms2012_compat.Vm.Memory.{load_bytes-lt}
use lms2012_compat.Param.{put}
use lms2012_compat.Param.Encode.{
  Operand, after_operand, operand, bits_at, value_of, pointer_of, IsVariable,
}
use lms2012_compat.Param.Instruction.{Encoded, par-par}
use lms2012_compat.Arith.{
  div_int, mod_int, c_math_div8, c_math_div16, c_math_div32, c_math_mod8, c_math_mod16,
  c_math_mod32,
}
use lms2012_compat.Arith.Exact.{put_third, signed-store_bytes}

abbrev pub divide : Width → M (Unit {0})
divide data8 = c_math_div8
divide data16 = c_math_div16
divide data32 = c_math_div32

abbrev pub remainder : Width → M (Unit {0})
remainder data8 = c_math_mod8
remainder data16 = c_math_mod16
remainder data32 = c_math_mod32

abbrev pub magnitude : ℤ → ℕ
magnitude z = pos_part z + neg_part z

div_mod_int : (x y : ℤ) → y ≢ pos 0 → div_int x y *ℤ y +ℤ mod_int x y ≡ x
unfolding div_int mod_int ◌+ℤ◌ ◌*ℤ◌
div_mod_int (pos a) (pos zero) h = absurd (h refl)
div_mod_int (pos a) (pos (suc b)) h = ground arith
div_mod_int (pos a) (negsuc b) h = ground arith
div_mod_int (negsuc a) (pos zero) h = absurd (h refl)
div_mod_int (negsuc a) (pos (suc b)) h = ground arith
div_mod_int (negsuc a) (negsuc b) h = ground arith

mod_int-lt : (x y : ℤ) → y ≢ pos 0 → magnitude (mod_int x y) < magnitude y
unfolding mod_int
mod_int-lt (pos a) (pos zero) h = absurd (h refl)
mod_int-lt (pos a) (pos (suc b)) h = ground arith
mod_int-lt (pos a) (negsuc b) h = ground arith
mod_int-lt (negsuc a) (pos zero) h = absurd (h refl)
mod_int-lt (negsuc a) (pos (suc b)) h = ground arith
mod_int-lt (negsuc a) (negsuc b) h = ground arith

is_zero-false : (y : ℤ) → y ≢ pos 0 → eqb_ℤ y (pos 0) ≡ false
is_zero-false (pos zero) h = absurd (h refl)
is_zero-false (pos (suc b)) h = ground arith
is_zero-false (negsuc b) h = ground arith

magnitude-le : (w : Width) (y : ℤ) → InRange w y → magnitude y ≤ half w
magnitude-le w (pos b) r = omega arith
magnitude-le w (negsuc b) r = omega arith

InRange-mod_int : (w : Width) (x y : ℤ) → y ≢ pos 0 → InRange w y → InRange w (mod_int x y)
InRange-mod_int w x y h r =
    let l = mod_int-lt x y h in let b = magnitude-le w y r in (omega arith, omega arith)

-- The test for the quotient that no DATA32 holds.
overflows : ℤ → ℤ → Bool
overflows x y = eqb_ℤ x (negsuc (2 ^ 31 - 1)) && eqb_ℤ y (negsuc 0)

overflows-false : (x y : ℤ) → InRange data32 (div_int x y) → overflows x y ≡ false
unfolding div_int overflows
overflows-false (pos a) y h = ground arith
overflows-false (negsuc a) (pos b) h = ground arith
overflows-false (negsuc a) (negsuc zero) h = ground arith
overflows-false (negsuc a) (negsuc (suc b)) h = ground arith

pub bits_at-InRange :
    (w : Width) (m : ℕ → ℕ) (v : ℕ) (p : Ptr) → InRange w (signed w (bits_at w m v p))
bits_at-InRange data8 m v (value_at k) = signed-InRange data8 _ (omega arith)
bits_at-InRange data16 m v (value_at k) = signed-InRange data16 _ (omega arith)
bits_at-InRange data32 m v (value_at k) = signed-InRange data32 _ (omega arith)
bits_at-InRange w m v (at a) = signed-InRange w _ (load_bytes-lt w m a)

module _ {s : Vm} {x y z : Operand} (e : Encoded s x y z) where
  divide-arm :
      (w : Width)
      → operand w s y ≢ pos 0
      → InRange w (div_int (operand w s x) (operand w s y))
      → divide w s
        ≡ put w (div_int (operand w s x) (operand w s y)) (after_operand (after_operand s x) y)
  unfolding c_math_div8 c_math_div16 c_math_div32 overflows
  divide-arm data8 h r = par-par e data8 _ ∙ rw (is_zero-false _ h) refl
  divide-arm data16 h r = par-par e data16 _ ∙ rw (is_zero-false _ h) refl
  divide-arm data32 h r =
      par-par e data32 _ ∙ rw (overflows-false _ _ r) (rw (is_zero-false _ h) refl)

  remainder-arm :
      (w : Width)
      → operand w s y ≢ pos 0
      → InRange w (div_int (operand w s x) (operand w s y))
      → remainder w s
        ≡ put w (mod_int (operand w s x) (operand w s y)) (after_operand (after_operand s x) y)
  unfolding c_math_mod8 c_math_mod16 c_math_mod32 overflows
  remainder-arm data8 h r = par-par e data8 _ ∙ rw (is_zero-false _ h) refl
  remainder-arm data16 h r = par-par e data16 _ ∙ rw (is_zero-false _ h) refl
  remainder-arm data32 h r =
      par-par e data32 _ ∙ rw (overflows-false _ _ r) (rw (is_zero-false _ h) refl)

  -- Division and remainder of the same encoded operands, the third a variable, by a divisor that is
  -- not 0 and with a quotient that the type holds: both return, quotient times divisor plus
  -- remainder is the dividend, and the remainder is smaller than the divisor in magnitude.
  pub divide-remainder :
      (w : Width) (a : ℕ)
      → IsVariable s z a
      → operand w s y ≢ pos 0
      → InRange w (div_int (operand w s x) (operand w s y))
      → (t : Vm) × (u : Vm) × (divide w s ≡ some (tt, t))
        × (remainder w s ≡ some (tt, u))
        × (let q = signed w (load_bytes (size w) t.mem a) in
            let r = signed w (load_bytes (size w) u.mem a) in
            (q *ℤ operand w s y +ℤ r ≡ operand w s x) × (magnitude r < magnitude (operand w s y)))
  divide-remainder w a v h r =
      let in_range = bits_at-InRange w s.mem (value_of y) (pointer_of s y) in
      let quotient = signed-store_bytes w s.mem a _ r in
      let rest = signed-store_bytes w s.mem a _ (InRange-mod_int w (operand w s x) _ h in_range) in
      (
        _,
        _,
        divide-arm w h r ∙ put_third e w _ a v,
        remainder-arm w h r ∙ put_third e w _ a v,
        (rw (quotient, rest) (div_mod_int _ _ h), rw rest (mod_int-lt _ _ h)),
      )
