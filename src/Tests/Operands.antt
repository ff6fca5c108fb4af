-- ===== src/Tests/Operands.antt =====
-- Instructions with encoded operands, decoded and executed.
use lms2012_compat.Prelude.{◌≡◌, refl, ◌⊎◌, some, arith, [], ◌∷◌}
use lms2012_compat.Prelude.Int.{pos, negsuc}
use lms2012_compat.Words.{data8, data16, pattern_of, signed}
use lms2012_compat.Vm.{Vm, store_bytes}
use lms2012_compat.Param.{prim_par_pointer, prim_par_advance}
use lms2012_compat.Param.Advance.{ip_after, prim_par_advance-ip}
use lms2012_compat.Param.Encode.{lc0, lc1, lc2, lv0, encode, after_operand, pointer_of}
use lms2012_compat.Param.Instruction.{Encoded, after_operands}
use lms2012_compat.Param.RoundTrip.{prim_par_pointer-encode}
use lms2012_compat.Compare.Relation.{Rel, branch, compare, lt, lteq, branch_lem, compare_lem}
use lms2012_compat.Tests.{machine}

-- `JR_LT8(-1, 100, -20)` behind its opcode
abbrev jump : Vm
jump = machine (0x3F ∷ 0x81 ∷ 100 ∷ 0x82 ∷ 236 ∷ 255 ∷ [])

-- `CP_LTEQ16(-1, 100, LV0(2))`
abbrev test : Vm
test = machine (0x3F ∷ 0x81 ∷ 100 ∷ 0x42 ∷ [])

prim_par_advance-ip_example : ip_after (prim_par_advance jump) ≡ ip_after (prim_par_pointer jump)
prim_par_advance-ip_example = prim_par_advance-ip jump

prim_par_pointer-encode_example :
    prim_par_pointer jump
    ≡ some (pointer_of jump (lc0 (negsuc 0)), after_operand jump (lc0 (negsuc 0)))
unfolding encode
prim_par_pointer-encode_example =
    prim_par_pointer-encode (lc0 (negsuc 0)) jump (omega arith, omega arith) (refl, tt)

jump-Encoded : Encoded jump (lc0 (negsuc 0)) (lc1 (pos 100)) (lc2 (negsuc 19))
unfolding encode pattern_of
jump-Encoded = record {
  x_fits = (omega arith, omega arith);
  y_fits = (omega arith, omega arith);
  z_fits = (omega arith, omega arith);
  ip_range = omega arith;
  holds = (refl, (refl, (refl, (refl, (refl, (refl, tt))))));
}

test-Encoded : Encoded test (lc0 (negsuc 0)) (lc1 (pos 100)) (lv0 2)
unfolding encode pattern_of
test-Encoded = record {
  x_fits = (omega arith, omega arith);
  y_fits = (omega arith, omega arith);
  z_fits = omega arith;
  ip_range = omega arith;
  holds = (refl, (refl, (refl, (refl, tt))));
}

-- The branch is taken, 20 bytes back from behind the operands.
branch_lem_example :
    (Rel lt (negsuc 0) (pos 100) × (ip_after (branch lt data8 jump) ≡ some 0x1032))
    ⊎ ((¬ Rel lt (negsuc 0) (pos 100)) × (ip_after (branch lt data8 jump) ≡ some 0x1046))
unfolding signed pattern_of encode
branch_lem_example = branch_lem jump-Encoded lt data8

compare_lem_example :
    (Rel lteq (negsuc 0) (pos 100)
      × (compare lteq data16 test
          ≡ some (
            tt,
            record (after_operands test (lc0 (negsuc 0)) (lc1 (pos 100)) (lv0 2)) {
              mem = store_bytes 1 test.mem 0x3002 1;
            },
          )))
    ⊎ ((¬ Rel lteq (negsuc 0) (pos 100))
        × (compare lteq data16 test
            ≡ some (
              tt,
              record (after_operands test (lc0 (negsuc 0)) (lc1 (pos 100)) (lv0 2)) {
                mem = store_bytes 1 test.mem 0x3002 0;
              },
            )))
unfolding signed pattern_of
compare_lem_example = compare_lem test-Encoded lteq data16 0x3002 refl
