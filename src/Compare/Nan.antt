-- ===== src/Compare/Nan.antt =====
-- The float branches of lms2012/c_branch.c on NaN.
use lms2012_compat.Prelude.{ℕ, ◌≡◌, refl, ◌∙◌, ap, Bool, true, false, not, some, ◌⊎◌, inl, inr}
use lms2012_compat.Words.{data32, pattern_of}
use lms2012_compat.Vm.{Vm, M, ◌>>=◌, add_address}
use lms2012_compat.Floats.{Floats, IsIeee}
use lms2012_compat.Param.{par_bits}
use lms2012_compat.Param.Encode.{Operand, after_operand, operand, operand_bits}
use lms2012_compat.Param.Advance.{ip_after}
use lms2012_compat.Param.Instruction.{Encoded, behind, par_bits-par_bits}
use lms2012_compat.Branch.{
  branch_if, c_branch_jr_lt_f, c_branch_jr_gt_f, c_branch_jr_eq_f, c_branch_jr_neq_f,
  c_branch_jr_lteq_f, c_branch_jr_gteq_f,
}
use lms2012_compat.Compare.Relation.{Cmp, lt, gt, eq, neq, lteq, gteq, taken, skipped}

abbrev pub branch_f : Cmp → Floats → M (Unit {0})
branch_f lt = c_branch_jr_lt_f
branch_f gt = c_branch_jr_gt_f
branch_f eq = c_branch_jr_eq_f
branch_f neq = c_branch_jr_neq_f
branch_f lteq = c_branch_jr_lteq_f
branch_f gteq = c_branch_jr_gteq_f

test_f : Cmp → Floats → ℕ → ℕ → Bool
test_f lt f a b = f.lt a b
test_f gt f a b = f.lt b a
test_f eq f a b = f.eq a b
test_f neq f a b = not (f.eq a b)
test_f lteq f a b = f.le a b
test_f gteq f a b = f.le b a

branch_f-test_f :
    (c : Cmp) (f : Floats)
    → branch_f c f ≡ (do a ← par_bits data32; b ← par_bits data32; branch_if (test_f c f a b))
unfolding test_f c_branch_jr_lt_f c_branch_jr_gt_f c_branch_jr_eq_f c_branch_jr_neq_f
    c_branch_jr_lteq_f c_branch_jr_gteq_f
branch_f-test_f lt f = refl
branch_f-test_f gt f = refl
branch_f-test_f eq f = refl
branch_f-test_f neq f = refl
branch_f-test_f lteq f = refl
branch_f-test_f gteq f = refl

-- Only "not equal" holds of NaN.
abbrev pub on_nan : Cmp → Bool
on_nan neq = true
on_nan _ = false

test_f-nan :
    (c : Cmp) (f : Floats) (a b : ℕ)
    → IsIeee f
    → (f.is_nan a ≡ true) ⊎ (f.is_nan b ≡ true)
    → test_f c f a b ≡ on_nan c
unfolding test_f
test_f-nan lt f a b h (inl n) = h.lt-nan_left a b n
test_f-nan lt f a b h (inr n) = h.lt-nan_right a b n
test_f-nan gt f a b h (inl n) = h.lt-nan_right b a n
test_f-nan gt f a b h (inr n) = h.lt-nan_left b a n
test_f-nan eq f a b h (inl n) = h.eq-nan_left a b n
test_f-nan eq f a b h (inr n) = h.eq-nan_right a b n
test_f-nan neq f a b h (inl n) = ap not (h.eq-nan_left a b n)
test_f-nan neq f a b h (inr n) = ap not (h.eq-nan_right a b n)
test_f-nan lteq f a b h (inl n) = h.le-nan_left a b n
test_f-nan lteq f a b h (inr n) = h.le-nan_right a b n
test_f-nan gteq f a b h (inl n) = h.le-nan_right b a n
test_f-nan gteq f a b h (inr n) = h.le-nan_left b a n

module _ {s : Vm} {x y z : Operand} (e : Encoded s x y z) where
  -- Where a branch goes.
  abbrev pub target : Bool → ℕ
  target true = add_address (behind s x y z) (pattern_of data32 (operand data32 s z))
  target false = behind s x y z

  target-branch_if :
      (b : Bool) → ip_after (branch_if b (after_operand (after_operand s x) y)) ≡ some (target b)
  target-branch_if true = taken e
  target-branch_if false = skipped e

  -- With float comparisons that are false of NaN, a float branch on encoded operands, one of which is
  -- NaN, goes to the next instruction, but for the branch on "not equal", which goes to its offset.
  pub branch_f-nan :
      (c : Cmp) (f : Floats)
      → IsIeee f
      → (f.is_nan (operand_bits data32 s x) ≡ true) ⊎ (f.is_nan (operand_bits data32 s y) ≡ true)
      → ip_after (branch_f c f s) ≡ some (target (on_nan c))
  branch_f-nan c f h n =
      ap ip_after (
        ap (λ (m : M (Unit {0})). m s) (branch_f-test_f c f)
        ∙ par_bits-par_bits e data32 _
        ∙ ap (λ b. branch_if b (after_operand (after_operand s x) y)) (test_f-nan c f _ _ h n))
      ∙ target-branch_if (on_nan c)
