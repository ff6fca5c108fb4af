-- ===== src/Compare.antt =====
-- The comparisons and selections of lms2012/c_compare.c: each reads its operands and writes a result.
pub mod Relation
pub mod Nan
use lms2012_compat.Prelude.{Bool, not, if◌then◌else◌}
use lms2012_compat.Prelude.Int.{pos, ltb_ℤ, leb_ℤ, eqb_ℤ}
use lms2012_compat.Words.{data8, data16, data32}
use lms2012_compat.Vm.{M, ◌>>=◌}
use lms2012_compat.Floats.{Floats}
use lms2012_compat.Param.{par, par_bits, put, put_bits}

-- The two arms that all comparisons share.
unfoldable pub put_flag : Bool → M (Unit {0})
put_flag b = if b then put data8 (pos 1) else put data8 (pos 0)

unfoldable pub c_compare_lt8 : M (Unit {0})
c_compare_lt8 = do a ← par data8; b ← par data8; put_flag (ltb_ℤ a b)

unfoldable pub c_compare_lt16 : M (Unit {0})
c_compare_lt16 = do a ← par data16; b ← par data16; put_flag (ltb_ℤ a b)

unfoldable pub c_compare_lt32 : M (Unit {0})
c_compare_lt32 = do a ← par data32; b ← par data32; put_flag (ltb_ℤ a b)

unfoldable pub c_compare_lt_f : Floats → M (Unit {0})
c_compare_lt_f f = do a ← par_bits data32; b ← par_bits data32; put_flag (f.lt a b)

unfoldable pub c_compare_gt8 : M (Unit {0})
c_compare_gt8 = do a ← par data8; b ← par data8; put_flag (ltb_ℤ b a)

unfoldable pub c_compare_gt16 : M (Unit {0})
c_compare_gt16 = do a ← par data16; b ← par data16; put_flag (ltb_ℤ b a)

unfoldable pub c_compare_gt32 : M (Unit {0})
c_compare_gt32 = do a ← par data32; b ← par data32; put_flag (ltb_ℤ b a)

unfoldable pub c_compare_gt_f : Floats → M (Unit {0})
c_compare_gt_f f = do a ← par_bits data32; b ← par_bits data32; put_flag (f.lt b a)

unfoldable pub c_compare_eq8 : M (Unit {0})
c_compare_eq8 = do a ← par data8; b ← par data8; put_flag (eqb_ℤ a b)

unfoldable pub c_compare_eq16 : M (Unit {0})
c_compare_eq16 = do a ← par data16; b ← par data16; put_flag (eqb_ℤ a b)

unfoldable pub c_compare_eq32 : M (Unit {0})
c_compare_eq32 = do a ← par data32; b ← par data32; put_flag (eqb_ℤ a b)

unfoldable pub c_compare_eq_f : Floats → M (Unit {0})
c_compare_eq_f f = do a ← par_bits data32; b ← par_bits data32; put_flag (f.eq a b)

unfoldable pub c_compare_neq8 : M (Unit {0})
c_compare_neq8 = do a ← par data8; b ← par data8; put_flag (not (eqb_ℤ a b))

unfoldable pub c_compare_neq16 : M (Unit {0})
c_compare_neq16 = do a ← par data16; b ← par data16; put_flag (not (eqb_ℤ a b))

unfoldable pub c_compare_neq32 : M (Unit {0})
c_compare_neq32 = do a ← par data32; b ← par data32; put_flag (not (eqb_ℤ a b))

unfoldable pub c_compare_neq_f : Floats → M (Unit {0})
c_compare_neq_f f = do a ← par_bits data32; b ← par_bits data32; put_flag (not (f.eq a b))

unfoldable pub c_compare_lteq8 : M (Unit {0})
c_compare_lteq8 = do a ← par data8; b ← par data8; put_flag (leb_ℤ a b)

unfoldable pub c_compare_lteq16 : M (Unit {0})
c_compare_lteq16 = do a ← par data16; b ← par data16; put_flag (leb_ℤ a b)

unfoldable pub c_compare_lteq32 : M (Unit {0})
c_compare_lteq32 = do a ← par data32; b ← par data32; put_flag (leb_ℤ a b)

unfoldable pub c_compare_lteq_f : Floats → M (Unit {0})
c_compare_lteq_f f = do a ← par_bits data32; b ← par_bits data32; put_flag (f.le a b)

unfoldable pub c_compare_gteq8 : M (Unit {0})
c_compare_gteq8 = do a ← par data8; b ← par data8; put_flag (leb_ℤ b a)

unfoldable pub c_compare_gteq16 : M (Unit {0})
c_compare_gteq16 = do a ← par data16; b ← par data16; put_flag (leb_ℤ b a)

unfoldable pub c_compare_gteq32 : M (Unit {0})
c_compare_gteq32 = do a ← par data32; b ← par data32; put_flag (leb_ℤ b a)

unfoldable pub c_compare_gteq_f : Floats → M (Unit {0})
c_compare_gteq_f f = do a ← par_bits data32; b ← par_bits data32; put_flag (f.le b a)

unfoldable pub c_compare_select8 : M (Unit {0})
c_compare_select8 = do
  flag ← par data8
  source1 ← par data8
  source2 ← par data8
  if eqb_ℤ flag (pos 0) then put data8 source2 else put data8 source1

unfoldable pub c_compare_select16 : M (Unit {0})
c_compare_select16 = do
  flag ← par data8
  source1 ← par data16
  source2 ← par data16
  if eqb_ℤ flag (pos 0) then put data16 source2 else put data16 source1

unfoldable pub c_compare_select32 : M (Unit {0})
c_compare_select32 = do
  flag ← par data8
  source1 ← par data32
  source2 ← par data32
  if eqb_ℤ flag (pos 0) then put data32 source2 else put data32 source1

unfoldable pub c_compare_select_f : M (Unit {0})
c_compare_select_f = do
  flag ← par data8
  source1 ← par_bits data32
  source2 ← par_bits data32
  if eqb_ℤ flag (pos 0) then put_bits data32 source2 else put_bits data32 source1
