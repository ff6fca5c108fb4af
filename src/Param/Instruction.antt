-- ===== src/Param/Instruction.antt =====
-- Instructions with three operands that stand one behind the other: what a handler sees of them.
use lms2012_compat.Prelude.{ℕ, ◌^◌, ◌<◌, ◌≡◌, refl, ◌∙◌, ap, some, arith, ◌++◌, length}
use lms2012_compat.Prelude.Int.{ℤ}
use lms2012_compat.Words.{Width, size, signed}
use lms2012_compat.Vm.{Vm, M, ◌>>=◌, add_address, store_bytes}
use lms2012_compat.Vm.Run.{>>=-some}
use lms2012_compat.Param.{par, par_bits, put_bits}
use lms2012_compat.Param.Encode.{
  Operand, lc0, lc1, lc2, lc4, lv0, lv1, lv2, lv4, gv0, gv1, gv2, encode, Fits, Holds,
  after_operand, pointer_of, operand_bits, operand, IsVariable,
}
use lms2012_compat.Param.RoundTrip.{par_bits-encode, par-encode, put_bits-encode, Holds-append}

-- Three operands that fit stand in the byte stream at the instruction pointer.
pub record Encoded (s : Vm) (x y z : Operand) : Type 0 where
  pub x_fits : Fits x
  pub y_fits : Fits y
  pub z_fits : Fits z
  pub ip_range : s.object_ip < 2 ^ 32
  pub holds : Holds s.mem s.object_ip (encode x ++ (encode y ++ encode z))

-- The address behind them.
abbrev pub behind : Vm → Operand → Operand → Operand → ℕ
behind s x y z =
    add_address (add_address (add_address s.object_ip (length (encode x))) (length (encode y)))
      (length (encode z))

-- Reading an operand does not change what another one means.
pub operand_bits-after :
    (w : Width) (s : Vm) (x y : Operand) → operand_bits w (after_operand s x) y ≡ operand_bits w s y
operand_bits-after w s x (lc0 z) = refl
operand_bits-after w s x (lc1 z) = refl
operand_bits-after w s x (lc2 z) = refl
operand_bits-after w s x (lc4 z) = refl
operand_bits-after w s x (lv0 z) = refl
operand_bits-after w s x (lv1 z) = refl
operand_bits-after w s x (lv2 z) = refl
operand_bits-after w s x (lv4 z) = refl
operand_bits-after w s x (gv0 z) = refl
operand_bits-after w s x (gv1 z) = refl
operand_bits-after w s x (gv2 z) = refl
operand_bits-after w s x _ = refl

-- The state behind all three.
abbrev pub after_operands : Vm → Operand → Operand → Operand → Vm
after_operands s x y z = after_operand (after_operand (after_operand s x) y) z

-- Likewise for where an operand points.
pub pointer_of-after : (s : Vm) (x y : Operand) → pointer_of (after_operand s x) y ≡ pointer_of s y
pointer_of-after s x (lc0 z) = refl
pointer_of-after s x (lc1 z) = refl
pointer_of-after s x (lc2 z) = refl
pointer_of-after s x (lc4 z) = refl
pointer_of-after s x (lv0 z) = refl
pointer_of-after s x (lv1 z) = refl
pointer_of-after s x (lv2 z) = refl
pointer_of-after s x (lv4 z) = refl
pointer_of-after s x (gv0 z) = refl
pointer_of-after s x (gv1 z) = refl
pointer_of-after s x (gv2 z) = refl
pointer_of-after s x _ = refl

module _ {s : Vm} {x y z : Operand} (e : Encoded s x y z) where
  Holds-rest : Holds s.mem (add_address s.object_ip (length (encode x))) (encode y ++ encode z)
  Holds-rest = (Holds-append s.mem s.object_ip (encode x) _ e.ip_range e.holds).1

  pub Holds-x : Holds s.mem s.object_ip (encode x)
  Holds-x = (Holds-append s.mem s.object_ip (encode x) _ e.ip_range e.holds).0

  pub Holds-y : Holds s.mem (add_address s.object_ip (length (encode x))) (encode y)
  Holds-y = (Holds-append s.mem _ (encode y) _ (omega arith) Holds-rest).0

  pub Holds-z :
      Holds s.mem
        (add_address (add_address s.object_ip (length (encode x))) (length (encode y)))
        (encode z)
  Holds-z = (Holds-append s.mem _ (encode y) _ (omega arith) Holds-rest).1

  -- A handler that begins with two reads goes on with what the first two operands mean.
  pub par-par :
      {A : Type 0} (w : Width) (f : ℤ → ℤ → M A)
      → (do a ← par w; b ← par w; f a b) s
        ≡ f (operand w s x) (operand w s y) (after_operand (after_operand s x) y)
  par-par w f =
      >>=-some (par w) _ (par-encode w x s e.x_fits Holds-x)
      ∙ >>=-some (par w) _ (par-encode w y (after_operand s x) e.y_fits Holds-y)
      ∙ ap (λ b. f (operand w s x) (signed w b) (after_operand (after_operand s x) y))
          (operand_bits-after w s x y)

  pub par_bits-par_bits :
      {A : Type 0} (w : Width) (f : ℕ → ℕ → M A)
      → (do a ← par_bits w; b ← par_bits w; f a b) s
        ≡ f (operand_bits w s x) (operand_bits w s y) (after_operand (after_operand s x) y)
  par_bits-par_bits w f =
      >>=-some (par_bits w) _ (par_bits-encode w x s e.x_fits Holds-x)
      ∙ >>=-some (par_bits w) _ (par_bits-encode w y (after_operand s x) e.y_fits Holds-y)
      ∙ ap (λ b. f (operand_bits w s x) b (after_operand (after_operand s x) y))
          (operand_bits-after w s x y)

  -- What a handler does with the third operand.
  pub par_third :
      (w : Width)
      → par w (after_operand (after_operand s x) y) ≡ some (operand w s z, after_operands s x y z)
  par_third w =
      par-encode w z _ e.z_fits Holds-z
      ∙ ap (λ b. some (signed w b, after_operands s x y z))
          (operand_bits-after w (after_operand s x) y z ∙ operand_bits-after w s x z)

  pub put_bits_third :
      (w : Width) (v a : ℕ)
      → IsVariable s z a
      → put_bits w v (after_operand (after_operand s x) y)
        ≡ some (tt, record (after_operands s x y z) { mem = store_bytes (size w) s.mem a v })
  put_bits_third w v a h =
      put_bits-encode w z _ v a e.z_fits Holds-z
        (pointer_of-after (after_operand s x) y z ∙ pointer_of-after s x z ∙ h)
