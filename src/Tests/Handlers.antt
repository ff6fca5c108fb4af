-- ===== src/Tests/Handlers.antt =====
-- Arithmetic, moves and waiting instructions, executed on concrete machines.
use lms2012_compat.Prelude.{◌<◌, ◌≡◌, refl, some, arith, [], ◌∷◌}
use lms2012_compat.Prelude.Int.{pos, negsuc, ◌+ℤ◌, ◌-ℤ◌, ◌*ℤ◌}
use lms2012_compat.Words.{data8, data16, pattern_of, signed}
use lms2012_compat.Vm.{Vm, load_bytes}
use lms2012_compat.Timer.{Timeval}
use lms2012_compat.Param.Encode.{lc0, lc1, lc2, lv0, encode}
use lms2012_compat.Param.Instruction.{Encoded}
use lms2012_compat.Arith.{div_int}
use lms2012_compat.Arith.Exact.{sub, handler, arith_exact}
use lms2012_compat.Arith.Division.{divide, remainder, magnitude, divide-remainder}
use lms2012_compat.Arith.Zero.{Straddles, divide-zero}
use lms2012_compat.Move.Convert.{move, meaning, move_lem, IsLimit}
use lms2012_compat.Tests.{codes, machine}

-- The operands -100, 7 and LV0(2)
abbrev state : Vm
state = machine (0x81 ∷ 156 ∷ 7 ∷ 0x42 ∷ [])

state-Encoded : Encoded state (lc1 (negsuc 99)) (lc0 (pos 7)) (lv0 2)
unfolding encode pattern_of
state-Encoded = record {
  x_fits = (omega arith, omega arith);
  y_fits = (omega arith, omega arith);
  z_fits = omega arith;
  ip_range = omega arith;
  holds = (refl, (refl, (refl, (refl, tt))));
}

arith_exact_example :
    (t : Vm) × (handler sub data8 state ≡ some (tt, t))
    × (signed data8 (load_bytes 1 t.mem 0x3002) ≡ negsuc 106)
unfolding pattern_of signed ◌-ℤ◌
arith_exact_example = arith_exact state-Encoded sub data8 0x3002 refl (omega arith, omega arith)

divide-remainder_example :
    (t : Vm) × (u : Vm) × (divide data8 state ≡ some (tt, t))
    × (remainder data8 state ≡ some (tt, u))
    × (let q = signed data8 (load_bytes 1 t.mem 0x3002) in
        let r = signed data8 (load_bytes 1 u.mem 0x3002) in
        (q *ℤ pos 7 +ℤ r ≡ negsuc 99) × (magnitude r < 7))
unfolding pattern_of signed div_int
divide-remainder_example =
    divide-remainder state-Encoded data8 0x3002 refl (ground arith) (omega arith, omega arith)

-- 1000 does not fit into 8 bits.
abbrev wide : Vm
wide = machine (0x82 ∷ 232 ∷ 3 ∷ 0x42 ∷ [])

codes-IsLimit : IsLimit codes data8
codes-IsLimit = record {
  min_range = (omega arith, omega arith);
  max_range = (omega arith, omega arith);
  min_number = ground arith;
  ordered = omega arith;
}

move_lem_example :
    (t : Vm) × (move data16 data8 wide ≡ some (tt, t))
    × (meaning data8 (signed data8 (load_bytes 1 t.mem 0x3002)) ≡ some (pos 127))
unfolding pattern_of signed encode
move_lem_example =
    move_lem data16 data8 wide (lc2 (pos 1000)) (lv0 2) 0x3002 (omega arith, omega arith)
      (omega arith) (omega arith) (refl, (refl, (refl, (refl, tt)))) refl codes-IsLimit

-- Object 3 runs: the wait for it is executed again.
abbrev waits_for : Vm
waits_for = machine (3 ∷ [])

abbrev now : Timeval
now = record { sec = 0; usec = 2500 }

-- -100 divided by 0
abbrev zero_divisor : Vm
zero_divisor = machine (0x81 ∷ 156 ∷ 0 ∷ 0x42 ∷ [])

zero_divisor-Encoded : Encoded zero_divisor (lc1 (negsuc 99)) (lc0 (pos 0)) (lv0 2)
unfolding encode pattern_of
zero_divisor-Encoded = record {
  x_fits = (omega arith, omega arith);
  y_fits = (omega arith, omega arith);
  z_fits = omega arith;
  ip_range = omega arith;
  holds = (refl, (refl, (refl, (refl, tt))));
}

codes-Straddles : Straddles codes data8
codes-Straddles = record {
  min_range = (omega arith, omega arith);
  max_range = (omega arith, omega arith);
  below = omega arith;
  above = omega arith;
}

divide-zero_example :
    (t : Vm) × (divide data8 zero_divisor ≡ some (tt, t))
    × (signed data8 (load_bytes 1 t.mem 0x3002) ≡ negsuc 126)
unfolding pattern_of signed
divide-zero_example = divide-zero zero_divisor-Encoded data8 0x3002 refl refl codes-Straddles
