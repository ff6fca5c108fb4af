-- ===== src/Branch.antt =====
-- The relative branches of lms2012/c_branch.c: each reads its operands, and then either adds the
-- offset operand to the instruction pointer or skips it.
use lms2012_compat.Prelude.{Bool, true, false, not}
use lms2012_compat.Prelude.Int.{pos, ltb_ℤ, leb_ℤ, eqb_ℤ}
use lms2012_compat.Words.{data8, data16, data32}
use lms2012_compat.Vm.{M, ◌>>=◌}
use lms2012_compat.Floats.{Floats}
use lms2012_compat.Param.{par, par_bits, prim_par_advance, adjust_object_ip}

-- The two arms that all conditional branches share.
unfoldable pub branch_if : Bool → M (Unit {0})
branch_if true = do offset ← par data32; adjust_object_ip offset
branch_if false = prim_par_advance

unfoldable pub c_branch_jr : M (Unit {0})
c_branch_jr = do offset ← par data32; adjust_object_ip offset

unfoldable pub c_branch_jr_false : M (Unit {0})
c_branch_jr_false = do flag ← par data8; branch_if (eqb_ℤ flag (pos 0))

unfoldable pub c_branch_jr_true : M (Unit {0})
c_branch_jr_true = do flag ← par data8; branch_if (not (eqb_ℤ flag (pos 0)))

unfoldable pub c_branch_jr_nan : Floats → M (Unit {0})
c_branch_jr_nan f = do tmp ← par_bits data32; branch_if (f.is_nan tmp)

unfoldable pub c_branch_jr_lt8 : M (Unit {0})
c_branch_jr_lt8 = do a ← par data8; b ← par data8; branch_if (ltb_ℤ a b)

unfoldable pub c_branch_jr_lt16 : M (Unit {0})
c_branch_jr_lt16 = do a ← par data16; b ← par data16; branch_if (ltb_ℤ a b)

unfoldable pub c_branch_jr_lt32 : M (Unit {0})
c_branch_jr_lt32 = do a ← par data32; b ← par data32; branch_if (ltb_ℤ a b)

unfoldable pub c_branch_jr_lt_f : Floats → M (Unit {0})
c_branch_jr_lt_f f = do a ← par_bits data32; b ← par_bits data32; branch_if (f.lt a b)

unfoldable pub c_branch_jr_gt8 : M (Unit {0})
c_branch_jr_gt8 = do a ← par data8; b ← par data8; branch_if (ltb_ℤ b a)

unfoldable pub c_branch_jr_gt16 : M (Unit {0})
c_branch_jr_gt16 = do a ← par data16; b ← par data16; branch_if (ltb_ℤ b a)

unfoldable pub c_branch_jr_gt32 : M (Unit {0})
c_branch_jr_gt32 = do a ← par data32; b ← par data32; branch_if (ltb_ℤ b a)

unfoldable pub c_branch_jr_gt_f : Floats → M (Unit {0})
c_branch_jr_gt_f f = do a ← par_bits data32; b ← par_bits data32; branch_if (f.lt b a)

unfoldable pub c_branch_jr_eq8 : M (Unit {0})
c_branch_jr_eq8 = do a ← par data8; b ← par data8; branch_if (eqb_ℤ a b)

unfoldable pub c_branch_jr_eq16 : M (Unit {0})
c_branch_jr_eq16 = do a ← par data16; b ← par data16; branch_if (eqb_ℤ a b)

unfoldable pub c_branch_jr_eq32 : M (Unit {0})
c_branch_jr_eq32 = do a ← par data32; b ← par data32; branch_if (eqb_ℤ a b)

unfoldable pub c_branch_jr_eq_f : Floats → M (Unit {0})
c_branch_jr_eq_f f = do a ← par_bits data32; b ← par_bits data32; branch_if (f.eq a b)

unfoldable pub c_branch_jr_neq8 : M (Unit {0})
c_branch_jr_neq8 = do a ← par data8; b ← par data8; branch_if (not (eqb_ℤ a b))

unfoldable pub c_branch_jr_neq16 : M (Unit {0})
c_branch_jr_neq16 = do a ← par data16; b ← par data16; branch_if (not (eqb_ℤ a b))

unfoldable pub c_branch_jr_neq32 : M (Unit {0})
c_branch_jr_neq32 = do a ← par data32; b ← par data32; branch_if (not (eqb_ℤ a b))

unfoldable pub c_branch_jr_neq_f : Floats → M (Unit {0})
c_branch_jr_neq_f f = do a ← par_bits data32; b ← par_bits data32; branch_if (not (f.eq a b))

unfoldable pub c_branch_jr_lteq8 : M (Unit {0})
c_branch_jr_lteq8 = do a ← par data8; b ← par data8; branch_if (leb_ℤ a b)

unfoldable pub c_branch_jr_lteq16 : M (Unit {0})
c_branch_jr_lteq16 = do a ← par data16; b ← par data16; branch_if (leb_ℤ a b)

unfoldable pub c_branch_jr_lteq32 : M (Unit {0})
c_branch_jr_lteq32 = do a ← par data32; b ← par data32; branch_if (leb_ℤ a b)

unfoldable pub c_branch_jr_lteq_f : Floats → M (Unit {0})
c_branch_jr_lteq_f f = do a ← par_bits data32; b ← par_bits data32; branch_if (f.le a b)

unfoldable pub c_branch_jr_gteq8 : M (Unit {0})
c_branch_jr_gteq8 = do a ← par data8; b ← par data8; branch_if (leb_ℤ b a)

unfoldable pub c_branch_jr_gteq16 : M (Unit {0})
c_branch_jr_gteq16 = do a ← par data16; b ← par data16; branch_if (leb_ℤ b a)

unfoldable pub c_branch_jr_gteq32 : M (Unit {0})
c_branch_jr_gteq32 = do a ← par data32; b ← par data32; branch_if (leb_ℤ b a)

unfoldable pub c_branch_jr_gteq_f : Floats → M (Unit {0})
c_branch_jr_gteq_f f = do a ← par_bits data32; b ← par_bits data32; branch_if (f.le b a)
