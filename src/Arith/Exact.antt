-- ===== src/Arith/Exact.antt =====
-- Addition, subtraction and multiplication of lms2012/c_math.c as a family over the integer types:
-- they compute modulo the width, and exactly where the type holds the result.
use lms2012_compat.Prelude.{ℕ, ◌%◌, ◌≡◌, refl, ◌∙◌, ap, some, arith}
use lms2012_compat.Prelude.Int.{ℤ, ◌+ℤ◌, ◌-ℤ◌, ◌*ℤ◌}
use lms2012_compat.Words.{Width, data8, data16, data32, size, modulus, signed, pattern_of, InRange}
use lms2012_compat.Words.Laws.{pattern_of-lt, signed-pattern_of}
use lms2012_compat.Vm.{Vm, M, ◌>>=◌, load_bytes, store_bytes}
use lms2012_compat.Vm.Memory.{load_bytes-store_bytes}
use lms2012_compat.Param.{par, put}
use lms2012_compat.Param.Encode.{Operand, after_operand, operand, IsVariable}
use lms2012_compat.Param.Instruction.{Encoded, after_operands, par-par, put_bits_third}
use lms2012_compat.Arith.{
  c_math_add8, c_math_add16, c_math_add32, c_math_sub8, c_math_sub16, c_math_sub32, c_math_mul8,
  c_math_mul16, c_math_mul32,
}

pub data Op : Type 0 where
  add sub mul : Op

abbrev pub handler : Op → Width → M (Unit {0})
handler add data8 = c_math_add8
handler add data16 = c_math_add16
handler add data32 = c_math_add32
handler sub data8 = c_math_sub8
handler sub data16 = c_math_sub16
handler sub data32 = c_math_sub32
handler mul data8 = c_math_mul8
handler mul data16 = c_math_mul16
handler mul data32 = c_math_mul32

abbrev pub eval : Op → ℤ → ℤ → ℤ
eval add a b = a +ℤ b
eval sub a b = a -ℤ b
eval mul a b = a *ℤ b

handler-eval : (o : Op) (w : Width) → handler o w ≡ (do a ← par w; b ← par w; put w (eval o a b))
unfolding c_math_add8 c_math_add16 c_math_add32 c_math_sub8 c_math_sub16 c_math_sub32 c_math_mul8
    c_math_mul16 c_math_mul32
handler-eval add data8 = refl
handler-eval add data16 = refl
handler-eval add data32 = refl
handler-eval sub data8 = refl
handler-eval sub data16 = refl
handler-eval sub data32 = refl
handler-eval mul data8 = refl
handler-eval mul data16 = refl
handler-eval mul data32 = refl

-- A value in range that was stored is read back as it was.
pub signed-store_bytes :
    (w : Width) (m : ℕ → ℕ) (a : ℕ) (z : ℤ)
    → InRange w z
    → signed w (load_bytes (size w) (store_bytes (size w) m a (pattern_of w z)) a) ≡ z
signed-store_bytes w m a z h =
    ap (signed w) (load_bytes-store_bytes w m a (pattern_of w z) ∙ small w)
    ∙ signed-pattern_of w z h
  where
    small : (v : Width) → pattern_of v z % modulus v ≡ pattern_of v z
    small data8 = omega (arith, pattern_of-lt data8 z)
    small data16 = omega (arith, pattern_of-lt data16 z)
    small data32 = omega (arith, pattern_of-lt data32 z)

module _ {s : Vm} {x y z : Operand} (e : Encoded s x y z) where
  pub put_third :
      (w : Width) (v : ℤ) (a : ℕ)
      → IsVariable s z a
      → put w v (after_operand (after_operand s x) y)
        ≡ some (
          tt,
          record (after_operands s x y z) { mem = store_bytes (size w) s.mem a (pattern_of w v) },
        )
  unfolding put
  put_third w v a h = put_bits_third e w (pattern_of w v) a h

  -- Addition, subtraction and multiplication of encoded operands, the third a variable, at each
  -- integer type: the variable gets the result cut to the type, and beside its bytes only the
  -- instruction pointer, which goes behind the operands, and the decoder's registers change.
  pub arith_lem :
      (o : Op) (w : Width) (a : ℕ)
      → IsVariable s z a
      → handler o w s
        ≡ some (
          tt,
          record (after_operands s x y z) {
            mem =
                store_bytes
                  (size w)
                  s.mem
                  a
                  (pattern_of w (eval o (operand w s x) (operand w s y)));
          },
        )
  arith_lem o w a h =
      ap (λ (m : M (Unit {0})). m s) (handler-eval o w) ∙ par-par e w _ ∙ put_third w _ a h

  -- Where the type holds the exact result of such an operation, it returns, and the variable, read
  -- back as a signed integer, is that result.
  pub arith_exact :
      (o : Op) (w : Width) (a : ℕ)
      → IsVariable s z a
      → InRange w (eval o (operand w s x) (operand w s y))
      → (t : Vm) × (handler o w s ≡ some (tt, t))
        × (signed w (load_bytes (size w) t.mem a) ≡ eval o (operand w s x) (operand w s y))
  arith_exact o w a h r = (_, arith_lem o w a h, signed-store_bytes w s.mem a _ r)
