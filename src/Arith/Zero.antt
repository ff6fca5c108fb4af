-- ===== src/Arith/Zero.antt =====
-- Division by zero of lms2012/c_math.c: the quotient saturates by the sign of the dividend.
use lms2012_compat.Prelude.{ℕ, zero, suc, ◌<◌, ◌≡◌, refl, ◌∙◌, some, arith}
use lms2012_compat.Prelude.Int.{ℤ, pos, negsuc, pos_part, neg_part}
use lms2012_compat.Words.{Width, data8, data16, data32, size, signed, InRange}
use lms2012_compat.Vm.{Vm, Codes, load_bytes}
use lms2012_compat.Param.{put}
use lms2012_compat.Param.Encode.{Operand, after_operand, operand, IsVariable}
use lms2012_compat.Param.Instruction.{Encoded, par-par}
use lms2012_compat.Arith.{on_zero, c_math_div8, c_math_div16, c_math_div32}
use lms2012_compat.Arith.Exact.{put_third, signed-store_bytes}
use lms2012_compat.Arith.Division.{divide}

-- The limits belong to the type and lie on both sides of 0.
pub record Straddles (c : Codes) (w : Width) : Type 0 where
  pub min_range : InRange w (c.data_min w)
  pub max_range : InRange w (c.data_max w)
  pub below : 0 < neg_part (c.data_min w)
  pub above : 0 < pos_part (c.data_max w)

-- The limit on the dividend's side of 0, and 0 for 0.
abbrev pub saturated : Codes → Width → ℤ → ℤ
saturated c w (pos zero) = pos 0
saturated c w (pos (suc n)) = c.data_max w
saturated c w (negsuc n) = c.data_min w

on_zero_lem :
    (c : Codes) (w : Width) (x : ℤ)
    → Straddles c w
    → on_zero (c.data_min w) (c.data_max w) x ≡ saturated c w x
unfolding on_zero
on_zero_lem c w (pos zero) h = ground arith
on_zero_lem c w (pos (suc n)) h = let a = h.above in ground arith
on_zero_lem c w (negsuc n) h = ground arith

saturated-InRange : (c : Codes) (w : Width) (x : ℤ) → Straddles c w → InRange w (saturated c w x)
saturated-InRange c data8 (pos zero) h = (omega arith, omega arith)
saturated-InRange c data16 (pos zero) h = (omega arith, omega arith)
saturated-InRange c data32 (pos zero) h = (omega arith, omega arith)
saturated-InRange c w (pos (suc n)) h = h.max_range
saturated-InRange c w (negsuc n) h = h.min_range

module _ {s : Vm} {x y z : Operand} (e : Encoded s x y z) where
  divide-arm :
      (w : Width)
      → operand w s y ≡ pos 0
      → divide w s
        ≡ put w
            (on_zero (s.codes.data_min w) (s.codes.data_max w) (operand w s x))
            (after_operand (after_operand s x) y)
  unfolding c_math_div8 c_math_div16 c_math_div32
  divide-arm data8 h = par-par e data8 _ ∙ rw h refl
  divide-arm data16 h = par-par e data16 _ ∙ rw h refl
  divide-arm data32 h = par-par e data32 _ ∙ rw h (ground arith)

  -- Division of encoded operands, the third a variable, by a divisor that is 0 returns, where the
  -- limits belong to the type and lie on both sides of 0. The variable then holds the upper limit for
  -- a positive dividend, the lower limit for a negative one, and 0 for 0.
  pub divide-zero :
      (w : Width) (a : ℕ)
      → IsVariable s z a
      → operand w s y ≡ pos 0
      → Straddles s.codes w
      → (t : Vm) × (divide w s ≡ some (tt, t))
        × (signed w (load_bytes (size w) t.mem a) ≡ saturated s.codes w (operand w s x))
  divide-zero w a v h l = (
    _,
    divide-arm w h ∙ put_third e w _ a v,
    rw (on_zero_lem s.codes w (operand w s x) l)
        (signed-store_bytes w s.mem a _ (saturated-InRange s.codes w (operand w s x) l)),
  )
