-- ===== src/Compare/Relation.antt =====
-- The six comparisons as a family over the widths: the branches of `Branch` and the comparisons of
-- `Compare` decide the same integer relation.
use lms2012_compat.Prelude.{
  ℕ, ◌+◌, ◌<◌, ◌≡◌, ◌≢◌, refl, Bool, true, false, not, arith, some, ap, ◌∙◌, ◌⊎◌, inl, inr,
  if◌then◌else◌,
}
use lms2012_compat.Prelude.Int.{ℤ, pos, negsuc, pos_part, neg_part, ◌≤ℤ◌, ltb_ℤ, leb_ℤ, eqb_ℤ}
use lms2012_compat.Words.{Width, data8, data16, data32, pattern_of}
use lms2012_compat.Vm.{Vm, M, ◌>>=◌, add_address, store_bytes}
use lms2012_compat.Param.{par, put, adjust_object_ip}
use lms2012_compat.Vm.Run.{>>=-some}
use lms2012_compat.Param.Encode.{Operand, after_operand, operand, IsVariable}
use lms2012_compat.Param.Advance.{ip_after, prim_par_advance-ip}
use lms2012_compat.Param.RoundTrip.{prim_par_pointer-encode}
use lms2012_compat.Param.Instruction.{
  Encoded, behind, after_operands, Holds-z, par-par, par_third, put_bits_third,
}
use lms2012_compat.Branch.{
  branch_if, c_branch_jr_lt8, c_branch_jr_lt16, c_branch_jr_lt32, c_branch_jr_gt8, c_branch_jr_gt16,
  c_branch_jr_gt32, c_branch_jr_eq8, c_branch_jr_eq16, c_branch_jr_eq32, c_branch_jr_neq8,
  c_branch_jr_neq16, c_branch_jr_neq32, c_branch_jr_lteq8, c_branch_jr_lteq16, c_branch_jr_lteq32,
  c_branch_jr_gteq8, c_branch_jr_gteq16, c_branch_jr_gteq32,
}
use lms2012_compat.Compare.{
  put_flag, c_compare_lt8, c_compare_lt16, c_compare_lt32, c_compare_gt8, c_compare_gt16,
  c_compare_gt32, c_compare_eq8, c_compare_eq16, c_compare_eq32, c_compare_neq8, c_compare_neq16,
  c_compare_neq32, c_compare_lteq8, c_compare_lteq16, c_compare_lteq32, c_compare_gteq8,
  c_compare_gteq16, c_compare_gteq32,
}

pub data Cmp : Type 0 where
  lt gt eq neq lteq gteq : Cmp

-- The handler for each comparison and type.
abbrev pub branch : Cmp → Width → M (Unit {0})
branch lt data8 = c_branch_jr_lt8
branch lt data16 = c_branch_jr_lt16
branch lt data32 = c_branch_jr_lt32
branch gt data8 = c_branch_jr_gt8
branch gt data16 = c_branch_jr_gt16
branch gt data32 = c_branch_jr_gt32
branch eq data8 = c_branch_jr_eq8
branch eq data16 = c_branch_jr_eq16
branch eq data32 = c_branch_jr_eq32
branch neq data8 = c_branch_jr_neq8
branch neq data16 = c_branch_jr_neq16
branch neq data32 = c_branch_jr_neq32
branch lteq data8 = c_branch_jr_lteq8
branch lteq data16 = c_branch_jr_lteq16
branch lteq data32 = c_branch_jr_lteq32
branch gteq data8 = c_branch_jr_gteq8
branch gteq data16 = c_branch_jr_gteq16
branch gteq data32 = c_branch_jr_gteq32

abbrev pub compare : Cmp → Width → M (Unit {0})
compare lt data8 = c_compare_lt8
compare lt data16 = c_compare_lt16
compare lt data32 = c_compare_lt32
compare gt data8 = c_compare_gt8
compare gt data16 = c_compare_gt16
compare gt data32 = c_compare_gt32
compare eq data8 = c_compare_eq8
compare eq data16 = c_compare_eq16
compare eq data32 = c_compare_eq32
compare neq data8 = c_compare_neq8
compare neq data16 = c_compare_neq16
compare neq data32 = c_compare_neq32
compare lteq data8 = c_compare_lteq8
compare lteq data16 = c_compare_lteq16
compare lteq data32 = c_compare_lteq32
compare gteq data8 = c_compare_gteq8
compare gteq data16 = c_compare_gteq16
compare gteq data32 = c_compare_gteq32

-- What the names say of integers.
abbrev pub Rel : Cmp → ℤ → ℤ → Type 0
Rel lt a b = pos_part a + neg_part b < pos_part b + neg_part a
Rel gt a b = pos_part b + neg_part a < pos_part a + neg_part b
Rel eq a b = a ≡ b
Rel neq a b = a ≢ b
Rel lteq a b = a ≤ℤ b
Rel gteq a b = b ≤ℤ a

test : Cmp → ℤ → ℤ → Bool
test lt a b = ltb_ℤ a b
test gt a b = ltb_ℤ b a
test eq a b = eqb_ℤ a b
test neq a b = not (eqb_ℤ a b)
test lteq a b = leb_ℤ a b
test gteq a b = leb_ℤ b a

eqb-cases : (a b : ℤ) → (eqb_ℤ a b ≡ true) × (a ≡ b) ⊎ (eqb_ℤ a b ≡ false) × (a ≢ b)
eqb-cases (pos a) (pos b) = ground arith
eqb-cases (pos a) (negsuc b) = ground arith
eqb-cases (negsuc a) (pos b) = ground arith
eqb-cases (negsuc a) (negsuc b) = ground arith

test-Rel :
    (c : Cmp) (a b : ℤ) → (test c a b ≡ true) × Rel c a b ⊎ (test c a b ≡ false) × (¬ Rel c a b)
unfolding test
test-Rel lt a b = ground arith
test-Rel gt a b = ground arith
test-Rel eq a b = eqb-cases a b
test-Rel neq a b = elim (eqb-cases a b) [
  | inl (t, e) ↦ inr (rw t, λ ne. ne e)
  | inr (t, ne) ↦ inl (rw t, ne)
]
test-Rel lteq a b = ground arith
test-Rel gteq a b = ground arith

-- Every branch, and every comparison, is two reads and one test.
branch-test : (c : Cmp) (w : Width) → branch c w ≡ (do a ← par w; b ← par w; branch_if (test c a b))
unfolding test c_branch_jr_lt8 c_branch_jr_lt16 c_branch_jr_lt32 c_branch_jr_gt8 c_branch_jr_gt16
    c_branch_jr_gt32 c_branch_jr_eq8 c_branch_jr_eq16 c_branch_jr_eq32 c_branch_jr_neq8
    c_branch_jr_neq16 c_branch_jr_neq32 c_branch_jr_lteq8 c_branch_jr_lteq16 c_branch_jr_lteq32
    c_branch_jr_gteq8 c_branch_jr_gteq16 c_branch_jr_gteq32
branch-test lt data8 = refl
branch-test lt data16 = refl
branch-test lt data32 = refl
branch-test gt data8 = refl
branch-test gt data16 = refl
branch-test gt data32 = refl
branch-test eq data8 = refl
branch-test eq data16 = refl
branch-test eq data32 = refl
branch-test neq data8 = refl
branch-test neq data16 = refl
branch-test neq data32 = refl
branch-test lteq data8 = refl
branch-test lteq data16 = refl
branch-test lteq data32 = refl
branch-test gteq data8 = refl
branch-test gteq data16 = refl
branch-test gteq data32 = refl

compare-test :
    (c : Cmp) (w : Width) → compare c w ≡ (do a ← par w; b ← par w; put_flag (test c a b))
unfolding test c_compare_lt8 c_compare_lt16 c_compare_lt32 c_compare_gt8 c_compare_gt16
    c_compare_gt32 c_compare_eq8 c_compare_eq16 c_compare_eq32 c_compare_neq8 c_compare_neq16
    c_compare_neq32 c_compare_lteq8 c_compare_lteq16 c_compare_lteq32 c_compare_gteq8
    c_compare_gteq16 c_compare_gteq32
compare-test lt data8 = refl
compare-test lt data16 = refl
compare-test lt data32 = refl
compare-test gt data8 = refl
compare-test gt data16 = refl
compare-test gt data32 = refl
compare-test eq data8 = refl
compare-test eq data16 = refl
compare-test eq data32 = refl
compare-test neq data8 = refl
compare-test neq data16 = refl
compare-test neq data32 = refl
compare-test lteq data8 = refl
compare-test lteq data16 = refl
compare-test lteq data32 = refl
compare-test gteq data8 = refl
compare-test gteq data16 = refl
compare-test gteq data32 = refl

module _ {s : Vm} {x y z : Operand} (e : Encoded s x y z) where
  branch-arm :
      (c : Cmp) (w : Width)
      → branch c w s
        ≡ branch_if (test c (operand w s x) (operand w s y)) (after_operand (after_operand s x) y)
  branch-arm c w = ap (λ (m : M (Unit {0})). m s) (branch-test c w) ∙ par-par e w _

  -- The two arms of every branch.
  pub taken :
      ip_after (branch_if true (after_operand (after_operand s x) y))
      ≡ some (add_address (behind s x y z) (pattern_of data32 (operand data32 s z)))
  unfolding branch_if adjust_object_ip
  taken = ap ip_after (>>=-some (par data32) _ (par_third e data32))

  pub skipped :
      ip_after (branch_if false (after_operand (after_operand s x) y)) ≡ some (behind s x y z)
  unfolding branch_if
  skipped =
      prim_par_advance-ip (after_operand (after_operand s x) y)
      ∙ ap ip_after (prim_par_pointer-encode z _ e.z_fits (Holds-z e))

  -- A conditional branch on encoded operands, which stand at the instruction pointer, goes to the third operand's offset behind the
  -- instruction if its relation holds of the first two as signed integers of its type, and to the
  -- next instruction if it does not, for all six comparisons and three integer types.
  pub branch_lem :
      (c : Cmp) (w : Width)
      → Rel c (operand w s x) (operand w s y)
          × (ip_after (branch c w s)
              ≡ some (add_address (behind s x y z) (pattern_of data32 (operand data32 s z))))
        ⊎ (¬ Rel c (operand w s x) (operand w s y))
          × (ip_after (branch c w s) ≡ some (behind s x y z))
  branch_lem c w = elim (test-Rel c (operand w s x) (operand w s y)) [
    | inl (t, r) ↦ inl (r, ap ip_after (branch-arm c w) ∙ rw t taken)
    | inr (t, n) ↦ inr (n, ap ip_after (branch-arm c w) ∙ rw t skipped)
  ]

  compare-arm :
      (c : Cmp) (w : Width)
      → compare c w s
        ≡ put_flag (test c (operand w s x) (operand w s y)) (after_operand (after_operand s x) y)
  compare-arm c w = ap (λ (m : M (Unit {0})). m s) (compare-test c w) ∙ par-par e w _

  put_flag-third :
      (b : Bool) (a : ℕ)
      → IsVariable s z a
      → put_flag b (after_operand (after_operand s x) y)
        ≡ some (
          tt,
          record (after_operands s x y z) { mem = store_bytes 1 s.mem a (if b then 1 else 0) },
        )
  unfolding put_flag put pattern_of
  put_flag-third true a h = put_bits_third e data8 1 a h
  put_flag-third false a h = put_bits_third e data8 0 a h

  -- A comparison of encoded operands, the third a variable, writes 1 to the variable if the relation holds of the first
  -- two as signed integers of its type, and 0 if it does not; beside that byte it changes only the
  -- instruction pointer, which goes behind the operands, and the decoder's registers.
  pub compare_lem :
      (c : Cmp) (w : Width) (a : ℕ)
      → IsVariable s z a
      → Rel c (operand w s x) (operand w s y)
          × (compare c w s
              ≡ some (tt, record (after_operands s x y z) { mem = store_bytes 1 s.mem a 1 }))
        ⊎ (¬ Rel c (operand w s x) (operand w s y))
          × (compare c w s
              ≡ some (tt, record (after_operands s x y z) { mem = store_bytes 1 s.mem a 0 }))
  compare_lem c w a h = elim (test-Rel c (operand w s x) (operand w s y)) [
    | inl (t, r) ↦ inl (r, compare-arm c w ∙ rw t (put_flag-third true a h))
    | inr (t, n) ↦ inr (n, compare-arm c w ∙ rw t (put_flag-third false a h))
  ]
