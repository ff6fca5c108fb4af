-- ===== src/Call/Busy.antt =====
-- The instructions of lms2012/lms2012.c and lms2012/c_timer.c that wait: they set the instruction
-- pointer back to their opcode, so that they are executed again in a later turn.
use lms2012_compat.Prelude.{
  ◌≤◌, ◌<◌, ◌≡◌, refl, ◌∙◌, true, false, ◌&&◌, ◌==◌, leb, if◌then◌else◌, some, ◌⊎◌, inl, inr,
  Bool-cases, arith,
}
use lms2012_compat.Words.{data16, data32}
use lms2012_compat.Vm.{Vm, nobreak, busybreak}
use lms2012_compat.Vm.Run.{>>=-some}
use lms2012_compat.Dispatch.{set_dispatch_status, get_object_ip, set_object_ip, previous}
use lms2012_compat.Param.{par_bits}
use lms2012_compat.Param.Encode.{Operand, encode, Fits, Holds, after_operand, operand_bits}
use lms2012_compat.Param.RoundTrip.{par_bits-encode}
use lms2012_compat.Objects.{is_stopped, object_wait, get_obj, set_obj}
use lms2012_compat.Timer.{Timeval, timer_get_ms, ready_or_rewind, c_timer_ready}
use lms2012_compat.Call.{call_busy, object_call}

-- The state of an instruction that waits.
abbrev pub rewound : Vm → Operand → Vm
rewound s o = record (after_operand s o) {
  object_ip = previous s.object_ip;
  dispatch_status = busybreak;
  priority = 0;
}

-- opCALL of an object that has not stopped sets the instruction pointer back to its opcode, ends the
-- turn as busy, and marks the object as blocked; beside the decoder's registers it changes nothing
-- else. The object is the operand, which stands encoded at the instruction pointer.
pub object_call-busy :
    (s : Vm) (o : Operand)
    → Fits o
    → Holds s.mem s.object_ip (encode o)
    → is_stopped (s.obj s.p_obj_list (operand_bits data16 s o)).obj_status ≡ false
    → object_call s
      ≡ some (
        tt,
        record (rewound s o) {
          obj = λ p i.
              if p == s.p_obj_list && i == operand_bits data16 s o
              then record (s.obj s.p_obj_list (operand_bits data16 s o)) { blocked = 1 }
              else s.obj p i;
        },
      )
unfolding object_call get_object_ip get_obj call_busy set_object_ip set_dispatch_status set_obj
object_call-busy s o f h busy =
    >>=-some (par_bits data16) _ (par_bits-encode data16 o s f h) ∙ rw busy refl

-- opOBJECT_WAIT goes on behind its encoded operand if the object has stopped, and else sets the
-- instruction pointer back to its opcode and ends the turn as busy; beside the decoder's registers
-- it changes nothing else.
pub object_wait_lem :
    (s : Vm) (o : Operand)
    → Fits o
    → Holds s.mem s.object_ip (encode o)
    → let st = (s.obj s.p_obj_list (operand_bits data16 s o)).obj_status in
      (is_stopped st ≡ true) × (object_wait s ≡ some (tt, after_operand s o))
      ⊎ (is_stopped st ≡ false) × (object_wait s ≡ some (tt, rewound s o))
unfolding object_wait get_object_ip get_obj set_object_ip set_dispatch_status
object_wait_lem s o f h =
    elim (Bool-cases (is_stopped (s.obj s.p_obj_list (operand_bits data16 s o)).obj_status)) [
      | inl e ↦ inl (e, >>=-some (par_bits data16) _ (par_bits-encode data16 o s f h) ∙ rw e refl)
      | inr e ↦ inr (e, >>=-some (par_bits data16) _ (par_bits-encode data16 o s f h) ∙ rw e refl)
    ]

-- opTIMER_READY goes on behind its encoded operand if the clock in milliseconds, modulo 2 ^ 32, has
-- reached it as an unsigned number, and else sets the instruction pointer back to its opcode and ends
-- the turn as busy; beside the decoder's registers it changes nothing else.
pub c_timer_ready_lem :
    (tv : Timeval) (s : Vm) (o : Operand)
    → Fits o
    → Holds s.mem s.object_ip (encode o)
    → (operand_bits data32 s o ≤ timer_get_ms tv)
        × (c_timer_ready tv s ≡ some (tt, record (after_operand s o) { dispatch_status = nobreak }))
      ⊎ (timer_get_ms tv < operand_bits data32 s o) × (c_timer_ready tv s ≡ some (tt, rewound s o))
unfolding c_timer_ready get_object_ip set_object_ip set_dispatch_status ready_or_rewind
c_timer_ready_lem tv s o f h = elim (Bool-cases (leb (operand_bits data32 s o) (timer_get_ms tv))) [
  | inl e ↦
      inl (ground arith, >>=-some (par_bits data32) _ (par_bits-encode data32 o s f h) ∙ rw e refl)
  | inr e ↦
      inr (ground arith, >>=-some (par_bits data32) _ (par_bits-encode data32 o s f h) ∙ rw e refl)
]
