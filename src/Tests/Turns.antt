-- ===== src/Tests/Turns.antt =====
-- A set of byte codes for the dispatch loop, and turns of a program.
use lms2012_compat.Prelude.{
  ℕ, ◌%◌, ◌≡◌, refl, ◌==◌, if◌then◌else◌, false, Option, none, some, [], ◌∷◌, arith, inl, inr,
  Bool-cases,
}
use lms2012_compat.Vm.{Vm}
use lms2012_compat.Timer.{Timeval}
use lms2012_compat.Objects.{sleep}
use lms2012_compat.Sched.{Sched, S, on_vm, pure, Devices, slice, fail_break}
use lms2012_compat.Sched.Slice.{Gives, StaysCalm, next_op, Ran, slice-Ran}
use lms2012_compat.Sched.FailBreak.{Failed, fail_break-Failed}
use lms2012_compat.Sched.Code.{started}
use lms2012_compat.Tests.{machine}

-- 0x0E sleeps, 0x0F makes the time slice longer, as scSET_INSTR does, and every other byte code does nothing.
abbrev longer : S (Unit {0})
longer s = some (tt, record s { vm = record s.vm { priority = 200 } })

abbrev few_codes : ℕ → S (Unit {0})
few_codes op = if op == 0x0E then on_vm sleep else if op == 0x0F then longer else pure tt

abbrev nothing : S (Unit {0})
nothing = pure tt

abbrev devices : Devices
devices = record {
  dispatch = few_codes;
  op_object_end = 0x0A;
  escape = pure 0;
  com_update = nothing;
  sound_update = nothing;
  dynload_update_vm = nothing;
  input_update = λ t. nothing;
  ui_update = λ t. nothing;
  tst_close = nothing;
}

-- No byte of the memory is 0x0F.
abbrev NeverLonger : Sched → Type 0
NeverLonger s = (a : ℕ) → (s.vm.mem a % 256 == 0x0F) ≡ false

devices-StaysCalm : StaysCalm devices NeverLonger
unfolding sleep
devices-StaysCalm s p = elim (Bool-cases (next_op s == 0x0E)) [
  | inl e ↦ rw e (record { shorter = ground arith; no_debug = refl; same_count = refl }, p)
  | inr e ↦
      rw (e, p s.vm.object_ip)
        (record { shorter = omega arith; no_debug = refl; same_count = refl }, p)
]

abbrev turn_of : Vm → Sched
turn_of m = record {
  vm = m;
  new_time = 0;
  old_time1 = 0;
  old_time2 = 0;
  saved_priority = 0;
  test = 0;
  back_long = false;
  warned = false;
  restart = false;
}

abbrev at_sleep : Sched
at_sleep = turn_of (machine (1 ∷ 1 ∷ 0x0E ∷ 0x0A ∷ []))

-- The slice is over when the program sleeps: it has executed three instructions.
abbrev counted : Option (Unit {0} × Sched) → ℕ
counted none = 0
counted (some (a, s)) = s.vm.instr_cnt

three_instructions : counted (slice devices 201 at_sleep) ≡ 3
unfolding slice sleep
three_instructions = refl

never_longer : NeverLonger at_sleep
never_longer a = ground arith

slice-Ran_example : Gives (Ran 200 at_sleep) (slice devices 201 at_sleep)
slice-Ran_example =
    slice-Ran NeverLonger 201 devices at_sleep devices-StaysCalm (λ s n p. p) never_longer refl
      (ground arith) (ground arith)

abbrev start_time : Timeval
start_time = record { sec = 0; usec = 1000 }

fail_break-Failed_example : Gives (Failed at_sleep) (fail_break start_time at_sleep)
fail_break-Failed_example = fail_break-Failed start_time at_sleep refl

-- A stream of two instructions at 0x1040, which ends at 0x1042
abbrev with_code : Sched
with_code = turn_of (machine (1 ∷ 1 ∷ 0x0A ∷ []))

abbrev after_two : Sched
after_two = record (started with_code 0x1040 0x2000 0x3000) {
  vm = record (started with_code 0x1040 0x2000 0x3000).vm { object_ip = 0x1042; priority = 198 };
}

abbrev after_one : Sched
after_one = record (started with_code 0x1040 0x2000 0x3000) {
  vm = record (started with_code 0x1040 0x2000 0x3000).vm { object_ip = 0x1041; priority = 199 };
}
