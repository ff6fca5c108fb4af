-- ===== src/Programs.antt =====
-- The programs (slots) in lms2012/lms2012.c: ending one, switching the current one in and out, and the
-- choice of the next one to run.
pub mod Exec
pub mod Stop
pub mod Switch
use lms2012_compat.Prelude.{
  ℕ, zero, suc, ◌+◌, ◌-◌, ◌%◌, ◌^◌, Bool, true, false, not, ◌&&◌, ◌||◌, ◌==◌, ltb, leb,
  if◌then◌else◌, Option, none, some, List, [], ◌∷◌, ◌++◌,
}
use lms2012_compat.Words.{data16}
use lms2012_compat.Vm.{
  Vm, Prg, ObjStat, running, waiting, stopped, Result, ok, fail, stop, DspStat, prgbreak,
  instrbreak, Event, sound_close, input_close, output_close, ui_close, dyn_load_vm_close,
  memory_close, M, ◌>>=◌, ◌>>◌, pure, fault, modify, gets,
}
use lms2012_compat.Param.{par_bits, max_handles}
use lms2012_compat.Dispatch.{set_dispatch_status}
use lms2012_compat.Timer.{Timeval, timer_get_us}
use lms2012_compat.Objects.{is_stopped}

abbrev pub is_active : ObjStat → Bool
is_active running = true
is_active waiting = true
is_active _ = false

-- `VMInstance.Program[id]`, written
abbrev pub with_program : Vm → ℕ → Prg → Vm
with_program s id p = record s { program = λ i. if i == id then p else s.program i }

unfoldable pub set_program : ℕ → Prg → M (Unit {0})
set_program id p = modify λ s. with_program s id p

-- `cMemoryClose`: every handle of the program is freed. What happens to the files behind the handles
-- is the memory module's.
unfoldable pub c_memory_close : ℕ → M (Unit {0})
c_memory_close id = modify λ s. record s {
  pool = λ p h. if p == id && ltb h max_handles then 0 else s.pool p h;
  events = s.events ++ memory_close id ∷ [];
}

-- The user's program holds the devices: the last reference to go closes them. A count of 0 stays.
unfoldable pub release_devices : ℕ → M (Unit {0})
release_devices id = modify λ s.
    let n = s.ref_count - 1 in
    if id == s.codes.user_slot
    then record s {
      ref_count = n;
      events =
          if n == 0
          then s.events
            ++ sound_close ∷ input_close ∷ output_close ∷ ui_close ∷ dyn_load_vm_close ∷ []
          else s.events;
    }
    else s

-- The part of `ProgramEnd` for a program that has not stopped.
unfoldable pub end_program : Timeval → ℕ → M (Unit {0})
unfolding set_program c_memory_close release_devices timer_get_us set_dispatch_status
end_program tv id = do
  us ← timer_get_us tv
  modify (λ s.
      let p = s.program id in
      let counts = not (id == 0) && not (id == s.program_id) in
      with_program s id (record p {
        instr_time = (us + 2 ^ 32 - p.run_time) % 2 ^ 32;
        objects = 0;
        status = stopped;
        status_change = stopped;
        instr_cnt = if counts then (p.instr_cnt + s.instr_cnt) % 2 ^ 32 else p.instr_cnt;
      }))
  release_devices id
  c_memory_close id
  current ← gets (λ s. s.program_id)
  if id == current then set_dispatch_status prgbreak else pure tt
  p ← gets (λ s. s.program id)
  set_program id (record p { result = ok })

unfoldable pub program_end : Timeval → ℕ → M (Unit {0})
unfolding end_program
program_end tv id = do
  p ← gets (λ s. s.program id)
  if is_stopped p.status then pure tt else end_program tv id

-- The byte code of an unknown instruction.
unfoldable pub error : Timeval → M (Unit {0})
unfolding program_end set_program set_dispatch_status
error tv = do
  id ← gets (λ s. s.program_id)
  program_end tv id
  p ← gets (λ s. s.program id)
  set_program id (record p { result = fail })
  set_dispatch_status instrbreak

-- `do { PrgId--; ProgramEnd(PrgId); } while (PrgId)` from `PrgId` on; each call has its own time.
unfoldable pub end_all : (ℕ → Timeval) → ℕ → M (Unit {0})
unfolding program_end
end_all tv zero = pure tt
end_all tv (suc id) = do program_end (tv id) id; end_all tv id

-- opPROGRAM_STOP: the UI's slot stands for all programs. Another number than a slot's is undefined.
unfoldable pub program_stop : (ℕ → Timeval) → M (Unit {0})
unfolding end_all program_end
program_stop tv = do
  id ← par_bits data16
  codes ← gets (λ s. s.codes)
  current ← gets (λ s. s.program_id)
  let target = if id == codes.current_slot then current else id
  if id == codes.gui_slot
      then end_all tv codes.max_programs
      else if ltb target codes.max_programs
      then program_end (tv target) target
      else fault

-- Switching the current program in, and out.
unfoldable pub program_init : Vm → Vm
program_init s =
    let p = s.program s.program_id in
    if ltb s.program_id s.codes.max_programs && is_active p.status
    then record s {
      p_global = p.p_global;
      p_image = p.p_image;
      p_obj_head = p.p_obj_head;
      p_obj_list = p.p_obj_list;
      objects = p.objects;
      object_id = p.object_id;
      object_ip = p.object_ip;
      object_local = p.object_local;
      instr_cnt = 0;
      debug = p.debug;
    }
    else s

unfoldable pub program_exit : Vm → Vm
program_exit s =
    let p = s.program s.program_id in
    if ltb s.program_id s.codes.max_programs
    then record (with_program s s.program_id (record p {
      p_global = s.p_global;
      p_image = s.p_image;
      p_obj_head = s.p_obj_head;
      p_obj_list = s.p_obj_list;
      objects = s.objects;
      object_id = s.object_id;
      object_ip = s.object_ip;
      object_local = s.object_local;
      instr_cnt = (p.instr_cnt + s.instr_cnt) % 2 ^ 32;
      debug = s.debug;
    })) { instr_cnt = 0 }
    else s

-- The first loop of `ProgramExec`: does any program from `id` on, of `n`, not stand?
unfoldable pub any_active : ℕ → (ℕ → Bool) → ℕ → Bool
any_active zero halts id = false
any_active (suc n) halts id = not (halts id) || any_active n halts (id + 1)

-- `if (++ProgramId >= MAX_PROGRAMS) ProgramId = 0`
abbrev pub next_program : ℕ → ℕ → ℕ
next_program n id = let id' = (id + 1) % 2 ^ 16 in if leb n id' then 0 else id'

-- The second loop.
unfoldable pub find_active : ℕ → (ℕ → Bool) → ℕ → ℕ → Option ℕ
find_active zero halts n id = none
find_active (suc fuel) halts n id =
    let id' = next_program n id in
    let rest = find_active fuel halts n id' in if halts id' then rest else some id'

unfoldable pub program_exec : M Result
unfolding any_active find_active
program_exec s =
    let halts = λ (i : ℕ). is_stopped (s.program i).status in
    let n = s.codes.max_programs in
    if any_active n halts 0
    then elim (find_active n halts n s.program_id) [
      | none ↦ none
      | some id ↦ some (ok, record s { program_id = id })
    ]
    else some (stop, s)
