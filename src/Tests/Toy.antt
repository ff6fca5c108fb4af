-- ===== src/Tests/Toy.antt =====
-- A small model of the float operations, and a float branch on its NaN.
use lms2012_compat.Prelude.{
  ℕ, ◌+◌, ◌-◌, ◌*◌, ◌/◌, refl, Bool, not, ◌&&◌, ◌==◌, ltb, leb, arith, [], ◌∷◌,
}
use lms2012_compat.Prelude.Int.{pos, negsuc, pos_part}
use lms2012_compat.Words.{pattern_of}
use lms2012_compat.Vm.{Vm}
use lms2012_compat.Floats.{Floats, IsIeee}
use lms2012_compat.Param.Encode.{lc0, lc1, lc2, encode}
use lms2012_compat.Param.Instruction.{Encoded}
use lms2012_compat.Tests.{machine}

-- All numbers but the last pattern, which is NaN.
abbrev numbers : ℕ → ℕ → Bool
numbers a b = not (a == 0xFFFF_FFFF) && not (b == 0xFFFF_FFFF)

abbrev toy : Floats
toy = record {
  add = λ a b. a + b;
  sub = λ a b. a - b;
  mul = λ a b. a * b;
  div = λ a b. a / b;
  lt = λ a b. numbers a b && ltb a b;
  eq = λ a b. numbers a b && a == b;
  le = λ a b. numbers a b && leb a b;
  is_nan = λ a. a == 0xFFFF_FFFF;
  nan = 0xFFFF_FFFF;
  of_int = λ z. pos_part z;
  to_int = λ w a. pos a;
}

toy-IsIeee : IsIeee toy
toy-IsIeee = record {
  lt-nan_left = λ a b h. ground arith;
  lt-nan_right = λ a b h. ground arith;
  le-nan_left = λ a b h. ground arith;
  le-nan_right = λ a b h. ground arith;
  eq-nan_left = λ a b h. ground arith;
  eq-nan_right = λ a b h. ground arith;
  is_nan-nan = refl;
}

-- `JR_NEQF(-1, 100, -20)` behind its opcode: the first operand has the pattern of NaN.
abbrev jump : Vm
jump = machine (0x3F ∷ 0x81 ∷ 100 ∷ 0x82 ∷ 236 ∷ 255 ∷ [])

jump_f-Encoded : Encoded jump (lc0 (negsuc 0)) (lc1 (pos 100)) (lc2 (negsuc 19))
unfolding encode pattern_of
jump_f-Encoded = record {
  x_fits = (omega arith, omega arith);
  y_fits = (omega arith, omega arith);
  z_fits = (omega arith, omega arith);
  ip_range = omega arith;
  holds = (refl, (refl, (refl, (refl, (refl, (refl, tt))))));
}
