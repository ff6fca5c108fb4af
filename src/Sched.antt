-- ===== src/Sched.antt =====
-- The dispatch loop in lms2012/lms2012.c: `mSchedCtrl`, the single steps of `Monitor`, and
-- `ExecuteByteCode`. The table of the byte codes and the updates of the device modules are a parameter.
pub mod Code
pub mod FailBreak
pub mod Slice
use lms2012_compat.Prelude.{
  ℕ, zero, suc, ◌+◌, ◌-◌, ◌%◌, ◌^◌, Bool, true, false, not, ◌&&◌, ◌||◌, ◌==◌, ltb, leb,
  if◌then◌else◌, Option, none, some,
}
use lms2012_compat.Vm.{
  Vm, Prg, Result, ok, fail, stop, DspStat, nobreak, stopbreak, instrbreak, failbreak, M,
}
use lms2012_compat.Param.{fetch}
use lms2012_compat.Dispatch.{set_dispatch_status}
use lms2012_compat.Timer.{Timeval, timer_get_ms}
use lms2012_compat.ErrorLog.{log_error_number}
use lms2012_compat.Objects.{object_init, object_exit, object_exec}
use lms2012_compat.Programs.{
  program_init, program_exit, program_exec, program_end, set_program, with_program,
}

-- The machine with what the loop keeps beside it: the time of the last updates, `SavedPriority` of the
-- monitor, `VMInstance.Test`, the flag LONGPRESS of the back button, WARNING_DSPSTAT, and `*pRestart`.
pub record Sched : Type 0 where
  pub vm : Vm
  pub new_time : ℕ
  pub old_time1 : ℕ
  pub old_time2 : ℕ
  pub saved_priority : ℕ
  pub test : ℕ
  pub back_long : Bool
  pub warned : Bool
  pub restart : Bool

abbrev pub S : Type 0 → Type 0
S A = Sched → Option (A × Sched)

infixl 5 ◌>>=◌ ◌>>◌
abbrev pub ◌>>=◌ : {A B : Type 0} → S A → (A → S B) → S B
◌>>=◌ m f s = elim (m s) [ none ↦ none | some (a, t) ↦ f a t ]

abbrev pub ◌>>◌ : {B : Type 0} → S (Unit {0}) → S B → S B
m >> k = m >>= λ _. k

abbrev pub pure : {A : Type 0} → A → S A
pure a s = some (a, s)

abbrev pub modify : (Sched → Sched) → S (Unit {0})
modify f s = some (tt, f s)

abbrev pub gets : {A : Type 0} → (Sched → A) → S A
gets f s = some (f s, s)

abbrev pub back : {A : Type 0} → Sched → Option (A × Vm) → Option (A × Sched)
back s none = none
back s (some (a, m)) = some (a, record s { vm = m })

-- A function of the machine
abbrev pub on_vm : {A : Type 0} → M A → S A
on_vm m s = back s (m s.vm)

abbrev pub modify_vm : (Vm → Vm) → S (Unit {0})
modify_vm f s = some (tt, record s { vm = f s.vm })

-- `PrimDispatchTable`, opOBJECT_END, `cUiEscape`, the updates of the modules, and `TstClose`
pub record Devices : Type 0 where
  pub dispatch : ℕ → S (Unit {0})
  pub op_object_end : ℕ
  pub escape : S ℕ
  pub com_update : S (Unit {0})
  pub sound_update : S (Unit {0})
  pub dynload_update_vm : S (Unit {0})
  pub input_update : ℕ → S (Unit {0})
  pub ui_update : ℕ → S (Unit {0})
  pub tst_close : S (Unit {0})

-- `C_PRIORITY`, `UPDATE_TIME1` and `UPDATE_TIME2`, and the numbers of two errors
abbrev pub c_priority : ℕ
c_priority = 200

abbrev pub update_time1 : ℕ
update_time1 = 2

abbrev pub update_time2 : ℕ
update_time2 = 10

abbrev pub vm_internal : ℕ
vm_internal = 15

abbrev pub vm_program_instruction_break : ℕ
vm_program_instruction_break = 19

module _ (d : Devices) where
  -- `PrimDispatchTable[*(VMInstance.ObjectIp++)]()`
  unfoldable pub execute : S (Unit {0})
  unfolding fetch
  execute = do op ← on_vm fetch; d.dispatch op

  unfoldable pub lower_priority : S (Unit {0})
  lower_priority = modify_vm λ m. record m { priority = m.priority - 1 }

  -- `Monitor`, without what it prints: a key executes one byte code, or leaves the monitor.
  unfoldable pub enter_monitor : S (Unit {0})
  enter_monitor s =
      if s.vm.debug == 1
      then (d.escape >>= λ _. pure tt)
          (record s { saved_priority = s.vm.priority; vm = record s.vm { debug = 2 } })
      else some (tt, s)

  -- `VMInstance.Priority = SavedPriority; VMInstance.Priority--`, on a ULONG
  unfoldable pub single_step : S (Unit {0})
  unfolding execute
  single_step = do
    modify
        λ s. record s { vm = record s.vm { priority = (s.saved_priority + 2 ^ 32 - 1) % 2 ^ 32 } }
    execute

  unfoldable pub use_key : ℕ → S (Unit {0})
  unfolding single_step
  use_key key =
      if key == b' '
      then single_step >> modify_vm (λ m. record m { debug = (m.debug + 2 ^ 16 - 1) % 2 ^ 16 })
      else if key == b'<'
      then single_step >> modify_vm (λ m. record m { debug = 0 })
      else modify_vm (λ m. record m { priority = 0 })

  unfoldable pub monitor : S (Unit {0})
  unfolding enter_monitor use_key
  monitor = do
    enter_monitor
    waits ← gets (λ s. s.vm.debug == 2)
    if waits then d.escape >>= use_key else pure tt

  -- One round of `while (VMInstance.Priority)`
  unfoldable pub run_one : S (Unit {0})
  unfolding lower_priority execute
  run_one = do
    lower_priority
    execute
    modify_vm (λ m. record m { instr_cnt = (m.instr_cnt + 1) % 2 ^ 32 })

  unfoldable pub round : S (Unit {0})
  unfolding run_one monitor
  round s = if s.vm.debug == 0 then run_one s else monitor s

  -- The loop, on fuel
  unfoldable pub slice : ℕ → S (Unit {0})
  unfolding round
  slice zero s = none
  slice (suc fuel) s =
      let rest = (round >> slice fuel) s in if s.vm.priority == 0 then some (tt, s) else rest

  -- The timed updates: `cComUpdate`, `cSoundUpdate` and `dynloadUpdateVM` every 2 ms
  unfoldable pub update_fast : S (Unit {0})
  update_fast s =
      let time = (s.new_time + 2 ^ 32 - s.old_time1) % 2 ^ 32 in
      let updates = d.com_update >> d.sound_update >> d.dynload_update_vm in
      if leb update_time1 time
      then updates (record s { old_time1 = (s.old_time1 + time) % 2 ^ 32 })
      else some (tt, s)

  -- `cInputUpdate` and `cUiUpdate` every 10 ms; `more` is what mSchedCtrl does besides.
  unfoldable pub update_slow : (ℕ → S (Unit {0})) → S (Unit {0})
  update_slow more s =
      let time = (s.new_time + 2 ^ 32 - s.old_time2) % 2 ^ 32 in
      let t = time % 2 ^ 16 in
      let updates = d.input_update t >> d.ui_update t >> more t in
      if leb update_time2 time
      then updates (record s { old_time2 = (s.old_time2 + time) % 2 ^ 32 })
      else some (tt, s)

  -- `VMInstance.Test` runs out.
  unfoldable pub count_test : ℕ → S (Unit {0})
  count_test t s =
      if s.test == 0
      then some (tt, s)
      else if ltb t s.test
      then some (tt, record s { test = s.test - t })
      else d.tst_close s

  unfoldable pub update : (ℕ → S (Unit {0})) → Timeval → S (Unit {0})
  unfolding update_fast update_slow timer_get_ms
  update more now = do
    modify (λ s. record s { new_time = timer_get_ms now })
    update_fast
    update_slow more

-- `VMInstance.Program[VMInstance.ProgramId].Result = FAIL`
abbrev pub fail_program : Vm → Vm
fail_program m = with_program m m.program_id (record (m.program m.program_id) { result = fail })

-- A FAILBREAK ends the program, and restarts the UI's.
unfoldable pub fail_break : Timeval → S (Unit {0})
unfolding program_end log_error_number
fail_break tv = do
  m ← gets (λ s. s.vm)
  if m.program_id == m.codes.gui_slot
      then modify (λ s. record s {
        restart = true;
        vm = record m { log = (log_error_number vm_internal m.log).0 };
      })
      else (do
        modify (λ s. record s { warned = s.warned || not (m.program_id == m.codes.cmd_slot) })
        on_vm (program_end tv m.program_id)
        modify_vm fail_program)

unfoldable pub instruction_break : Vm → Vm
unfolding log_error_number
instruction_break m = fail_program (
    if m.program_id == m.codes.cmd_slot
    then m
    else record m { log = (log_error_number vm_program_instruction_break m.log).0 })

abbrev pub is_instrbreak : DspStat → Bool
is_instrbreak instrbreak = true
is_instrbreak _ = false

abbrev pub is_failbreak : DspStat → Bool
is_failbreak failbreak = true
is_failbreak _ = false

abbrev pub is_stopbreak : DspStat → Bool
is_stopbreak stopbreak = true
is_stopbreak _ = false

abbrev pub is_stop : Result → Bool
is_stop stop = true
is_stop _ = false

-- The next object of the program, which ends when none of its objects runs.
unfoldable pub next_turn : Timeval → S Result
unfolding instruction_break object_exit object_exec program_exit program_end
next_turn tv = do
  modify_vm (λ m. object_exit (if is_instrbreak m.dispatch_status then instruction_break m else m))
  r ← on_vm object_exec
  if is_stop r
      then (do
        modify_vm program_exit
        m ← gets (λ s. s.vm)
        on_vm (program_end tv m.program_id)
        modify_vm (λ n. record n { dispatch_status = nobreak })
        pure r)
      else (do
        modify_vm (λ m. if is_stopbreak m.dispatch_status then m else program_exit m)
        pure r)

-- What comes behind the updates. `Result` is FAIL until something else is known.
unfoldable pub finish_turn : Timeval → S Result
unfolding fail_break next_turn program_exec
finish_turn tv = do
  failed ← gets (λ s. is_failbreak s.vm.dispatch_status)
  r ← (if failed then fail_break tv >> pure fail else next_turn tv)
  stays ← gets (λ s. is_stopbreak s.vm.dispatch_status)
  q ← (if stays then pure r else on_vm program_exec)
  again ← gets (λ s. s.restart)
  pure (if again then fail else q)

-- Switching in, at the start
unfoldable pub start_turn : S (Unit {0})
unfolding program_init object_init set_dispatch_status
start_turn = do
  modify_vm (λ m. if is_stopbreak m.dispatch_status then m else program_init m)
  r ← gets (λ s. object_init s.vm)
  modify_vm (λ _. r.1)
  on_vm (set_dispatch_status r.0)

-- The registers of the stream. The first value of the priority is never used.
abbrev pub start_code : ℕ → ℕ → ℕ → S (Unit {0})
start_code code globals locals = modify λ s. record s {
  back_long = false;
  vm = record s.vm { object_ip = code; p_global = globals; object_local = locals; priority = 1 };
}

-- The registers that are saved, as they were in `old`
abbrev pub restore : Vm → Vm → Vm
restore old m = record m {
  object_ip = old.object_ip;
  p_global = old.p_global;
  object_local = old.object_local;
  dispatch_status = old.dispatch_status;
  priority = old.priority;
}

module _ (d : Devices) where
  -- `mSchedCtrl`: `now` is the time after the slice, `ended` the time at which a program ends.
  unfoldable pub m_sched_ctrl : ℕ → Timeval → Timeval → S Result
  unfolding start_turn slice update count_test finish_turn
  m_sched_ctrl fuel now ended = do
    start_turn
    slice d fuel
    update d (count_test d) now
    finish_turn ended

  abbrev pub at_end : Sched → Bool
  at_end s = s.vm.mem s.vm.object_ip % 256 == d.op_object_end

  -- The inner loop of `ExecuteByteCode`, on fuel
  unfoldable pub code_slice : ℕ → S (Unit {0})
  unfolding lower_priority execute
  code_slice zero s = none
  code_slice (suc fuel) s =
      let rest = (lower_priority d >> execute d >> code_slice fuel) s in
      if s.vm.priority == 0 || at_end s then some (tt, s) else rest

  abbrev pub code_round : ℕ → Timeval → S (Unit {0})
  code_round fuel now = do
    modify_vm (λ m. record m { dispatch_status = nobreak; priority = c_priority })
    code_slice fuel
    update d (λ t. pure tt) now

  -- The outer loop: a long press of the back button breaks it off.
  unfoldable pub code_rounds : ℕ → ℕ → (ℕ → Timeval) → S (Unit {0})
  unfolding code_slice update
  code_rounds zero fuel now s = none
  code_rounds (suc n) fuel now s =
      let rest = (code_round fuel (now n) >> code_rounds n fuel now) s in
      if at_end s || s.back_long then some (tt, s) else rest

  unfoldable pub execute_byte_code : ℕ → ℕ → (ℕ → Timeval) → ℕ → ℕ → ℕ → S DspStat
  unfolding code_rounds
  execute_byte_code n fuel now code globals locals = do
    old ← gets (λ s. s.vm)
    start_code code globals locals
    code_rounds n fuel now
    result ← gets (λ s. s.vm.dispatch_status)
    modify (λ s. record s { back_long = false; vm = restore old s.vm })
    pure result
