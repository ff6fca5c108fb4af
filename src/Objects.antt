-- ===== src/Objects.antt =====
-- The objects of a program (threads, blocks and sub calls) in lms2012/lms2012.c: their states, the byte
-- codes that start, trigger, await and end them, and the choice of the next one to run. The build's
-- default options hold: NEW_CALL_MUTEX is on, BLOCK_ALIAS_LOCALS and OLDCALL are off.
pub mod Exec
pub mod Trigger
pub mod Switch
use lms2012_compat.Prelude.{
  ℕ, zero, suc, ◌+◌, ◌-◌, ◌%◌, ◌^◌, Bool, true, false, not, ◌&&◌, ◌||◌, ◌==◌, ltb, leb,
  if◌then◌else◌, Option, none, some,
}
use lms2012_compat.Words.{data16}
use lms2012_compat.Vm.{
  Vm, Obj, ObjStat, running, waiting, stopped, Result, ok, stop, DspStat, nobreak, stopbreak,
  sleepbreak, busybreak, M, ◌>>=◌, ◌>>◌, pure, gets, modify, add_address,
}
use lms2012_compat.Param.{par_bits}
use lms2012_compat.Dispatch.{
  set_dispatch_status, get_object_ip, set_object_ip, previous, prg_priority, ui_priority,
}

abbrev pub is_running : ObjStat → Bool
is_running running = true
is_running _ = false

abbrev pub is_stopped : ObjStat → Bool
is_stopped stopped = true
is_stopped _ = false

-- `(*VMInstance.pObjList[id])`, read and written
unfoldable pub get_obj : ℕ → M Obj
get_obj id = gets λ s. s.obj s.p_obj_list id

unfoldable pub set_obj : ℕ → Obj → M (Unit {0})
set_obj id o =
    modify λ s. record s { obj = λ p i. if p == s.p_obj_list && i == id then o else s.obj p i }

-- `&VMInstance.pImage[VMInstance.pObjHead[id].OffsetToInstructions]`
unfoldable pub first_instruction : ℕ → M ℕ
first_instruction id =
    gets λ s. add_address s.p_image (s.head s.p_obj_head id).offset_to_instructions

unfoldable pub object_reset : ℕ → M (Unit {0})
unfolding get_obj set_obj first_instruction
object_reset id = do
  o ← get_obj id
  start ← first_instruction id
  n ← gets (λ s. (s.head s.p_obj_head id).trigger_count)
  set_obj id (record o { ip = start; count = n })

abbrev pub is_object : ℕ → ℕ → Bool
is_object objects id = ltb 0 id && leb id objects

unfoldable pub object_en_queue : ℕ → M (Unit {0})
unfolding get_obj set_obj first_instruction
object_en_queue id = do
  objects ← gets (λ s. s.objects)
  o ← get_obj id
  start ← first_instruction id
  n ← gets (λ s. (s.head s.p_obj_head id).trigger_count)
  if is_object objects id
      then set_obj id (record o { obj_status = running; ip = start; count = n })
      else pure tt

unfoldable pub object_de_queue : ℕ → M (Unit {0})
unfolding get_obj set_obj set_dispatch_status
object_de_queue id = do
  objects ← gets (λ s. s.objects)
  o ← get_obj id
  here ← get_object_ip
  if is_object objects id
      then (do
        set_obj id (record o { ip = here; obj_status = stopped })
        set_dispatch_status stopbreak)
      else pure tt

-- opOBJECT_STOP and opOBJECT_START
unfoldable pub object_stop : M (Unit {0})
unfolding object_de_queue
object_stop = do id ← par_bits data16; object_de_queue id

unfoldable pub object_start : M (Unit {0})
unfolding object_en_queue
object_start = do id ← par_bits data16; object_en_queue id

-- opOBJECT_TRIG, behind the decoding of its operand
unfoldable pub trigger : ℕ → M (Unit {0})
unfolding get_obj set_obj object_reset object_en_queue
trigger id = do
  o ← get_obj id
  set_obj id (record o { obj_status = waiting })
  if o.count == 0 then pure tt else (do
    set_obj id (record o { obj_status = waiting; count = o.count - 1 })
    if o.count - 1 == 0 then (do object_reset id; object_en_queue id) else pure tt)

unfoldable pub object_trig : M (Unit {0})
unfolding trigger
object_trig = do id ← par_bits data16; trigger id

-- opOBJECT_WAIT: a wait for an object that is not stopped is executed again.
unfoldable pub object_wait : M (Unit {0})
unfolding get_obj get_object_ip set_object_ip set_dispatch_status
object_wait = do
  tmp_ip ← get_object_ip
  id ← par_bits data16
  o ← get_obj id
  if is_stopped o.obj_status
      then pure tt
      else (do set_object_ip (previous tmp_ip); set_dispatch_status busybreak)

-- opOBJECT_END: the tables are those of the program's record.
unfoldable pub object_end : M (Unit {0})
unfolding get_obj set_obj set_dispatch_status
object_end = do
  id ← gets (λ s. s.object_id)
  o ← get_obj id
  start ← gets (λ s.
      let prg = s.program s.program_id in
      add_address prg.p_image (s.head prg.p_obj_head id).offset_to_instructions)
  set_obj id (record o { ip = start; obj_status = stopped })
  set_dispatch_status stopbreak

-- opSLEEP
unfoldable pub sleep : M (Unit {0})
unfolding set_dispatch_status
sleep = set_dispatch_status sleepbreak

-- Switching an object in: its context, and the length of the time slice.
unfoldable pub object_init : Vm → DspStat × Vm
object_init s =
    let o = s.obj s.p_obj_list s.object_id in
    let valid = is_object s.objects s.object_id && is_running o.obj_status in
    let s' = if valid then record s { object_ip = o.ip; object_local = o.p_local } else s in
    let slice =
      if s.program_id == s.codes.gui_slot || s.program_id == s.codes.debug_slot
      then ui_priority
      else prg_priority in
    (if valid then nobreak else stopbreak, record s' { priority = slice })

-- Switching an object out.
unfoldable pub object_exit : Vm → Vm
object_exit s =
    let o = s.obj s.p_obj_list s.object_id in
    let valid =
      is_object s.objects s.object_id
      && not (is_stopped (s.program s.program_id).status)
      && is_running o.obj_status in
    if valid
    then record s {
      obj = λ p i.
          if p == s.p_obj_list && i == s.object_id
          then record o { ip = s.object_ip }
          else s.obj p i;
    }
    else s

-- `if (++ObjectId > Objects) ObjectId = 1`
abbrev pub next_object : ℕ → ℕ → ℕ
next_object objects id = let id' = (id + 1) % 2 ^ 16 in if ltb objects id' then 1 else id'

-- The search of `ObjectExec` over the states of the objects: `tmp` is `TmpId`.
unfoldable pub find_running : ℕ → (ℕ → Bool) → ℕ → ℕ → ℕ → Option (Result × ℕ)
find_running zero runs objects id tmp = none
find_running (suc fuel) runs objects id tmp =
    let id' = next_object objects id in
    let tmp' = (tmp + 1) % 2 ^ 16 in
    let rest = find_running fuel runs objects id' tmp' in
    if ltb objects tmp' then some (stop, id') else if runs id' then some (ok, id') else rest

-- While a user program runs, the UI's slot only runs its objects 2 and 3 in turn.
unfoldable pub object_exec : M Result
unfolding find_running
object_exec s =
    let user = s.program s.codes.user_slot in
    let gui = s.program s.codes.gui_slot in
    let found =
      find_running (s.objects + 1) (λ i. is_running (s.obj s.p_obj_list i).obj_status) s.objects
        s.object_id 0 in
    if s.program_id == s.codes.gui_slot && not (is_stopped user.status)
    then if leb 3 s.objects && not (is_stopped gui.status)
      then some (ok, record s { object_id = if s.object_id == 2 then 3 else 2 })
      else some (ok, s)
    else elim found [ none ↦ none | some (r, id) ↦ some (r, record s { object_id = id }) ]
