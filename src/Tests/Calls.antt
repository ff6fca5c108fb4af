-- ===== src/Tests/Calls.antt =====
-- Parameters of a sub call, copied on a concrete machine.
use lms2012_compat.Prelude.{◌==◌, if◌then◌else◌, refl, arith}
use lms2012_compat.Prelude.{[], ◌∷◌}
use lms2012_compat.Words.{pattern_of}
use lms2012_compat.Vm.{Vm, running, halted, at}
use lms2012_compat.Vm.Run.{Yields}
use lms2012_compat.Copy.{Cursor, data_s, slot_in, slot_out, slot_skip}
use lms2012_compat.Copy.Slots.{Behind, slots_agree}
use lms2012_compat.Call.{object_call, object_return}
use lms2012_compat.Call.Control.{Called, object_call_lem}
use lms2012_compat.Call.Return.{Returned, object_return_lem}
use lms2012_compat.Param.Encode.{lc0, encode}
use lms2012_compat.Prelude.Int.{pos}
use lms2012_compat.Tests.{machine, object_with}

-- The preamble says that four bytes are allocated for a string.
abbrev state : Vm
state = machine (4 ∷ 72 ∷ 105 ∷ 0 ∷ [])

-- The locals start at an odd address.
abbrev start : Cursor
start = record { p_locals = 0x3001; type_ip = 0x1040 }

slots_agree_example :
    Yields (Behind state data_s start) (slot_in data_s (at 0x1041) start state)
    × Yields (Behind state data_s start) (slot_out data_s (at 0x2000) start state)
    × Yields (Behind state data_s start) (slot_skip data_s start state)
slots_agree_example = slots_agree data_s (at 0x1041) 0x2000 start state tt (omega arith)

-- `CALL(2, 0)`, behind a preamble without parameters
abbrev call_state : Vm
call_state = record (machine (0 ∷ 0 ∷ 0 ∷ 0 ∷ 2 ∷ 0 ∷ [])) { object_ip = 0x1044 }

object_call_lem_example : Yields (λ _ t. Called call_state 2 0x1046 t) (object_call call_state)
unfolding encode pattern_of
object_call_lem_example =
    object_call_lem call_state (lc0 (pos 2)) (lc0 (pos 0)) (omega arith, omega arith)
      (omega arith, omega arith) (omega arith) (refl, (refl, tt)) refl refl refl

-- Object 3 was called by object 1, which is halted.
abbrev return_state : Vm
return_state = record call_state {
  object_id = 3;
  obj = λ _ i. if i == 3 then object_with running 1 else object_with halted 0;
}

object_return_lem_example : Yields (λ _ t. Returned return_state 1 t) (object_return return_state)
object_return_lem_example = object_return_lem return_state refl refl
