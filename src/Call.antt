-- ===== src/Call.antt =====
-- Sub calls in lms2012/lms2012.c: `ObjectCall` and `ObjectReturn`, with the frames of `CopyParsToLocals`
-- and `CopyLocalsToPars`, whose loops are in Copy.antt.
pub mod Busy
pub mod Control
pub mod Return
use lms2012_compat.Prelude.{ℕ, zero, suc, ◌-◌, ◌*◌, ◌/◌, ◌%◌, ◌==◌, if◌then◌else◌}
use lms2012_compat.Prelude.Int.{pos, negsuc}
use lms2012_compat.Words.{data16, bit}
use lms2012_compat.Vm.{
  Ptr, at, running, stopped, halted, stopbreak, busybreak, M, ◌>>=◌, ◌>>◌, pure, gets, modify,
  add_address, load, store, offset,
}
use lms2012_compat.Param.{prim_par_pointer, par_bits}
use lms2012_compat.Dispatch.{set_dispatch_status, get_object_ip, set_object_ip, previous}
use lms2012_compat.Objects.{get_obj, set_obj, object_reset, is_stopped}
use lms2012_compat.Copy.{Cursor, next_type, pars_in, pars_out}

-- The start of an object's code and locals.
unfoldable pub cursor_of : ℕ → M Cursor
cursor_of id = gets λ s. record {
  p_locals = (s.obj s.p_obj_list id).p_local;
  type_ip =
      add_address (s.program s.program_id).p_image (s.head s.p_obj_head id).offset_to_instructions;
}

unfoldable pub copy_pars_to_locals : ℕ → M (Unit {0})
unfolding cursor_of next_type pars_in get_obj set_obj get_object_ip set_object_ip
copy_pars_to_locals id = do
  tmp_ip ← get_object_ip
  c ← cursor_of id
  (no_of_pars, c') ← next_type c
  c'' ← pars_in no_of_pars c'
  o ← get_obj id
  set_obj id (record o { ip = c''.type_ip })
  set_object_ip tmp_ip

unfoldable pub copy_locals_to_pars : ℕ → M (Unit {0})
unfolding cursor_of next_type pars_out get_obj set_obj get_object_ip set_object_ip
copy_locals_to_pars id = do
  tmp_ip ← get_object_ip
  caller ← get_obj id
  set_object_ip caller.ip
  current ← gets (λ s. s.object_id)
  c ← cursor_of current
  (no_of_pars, c') ← next_type c
  c'' ← pars_out no_of_pars c'
  behind ← get_object_ip
  o ← get_obj id
  set_obj id (record o { ip = behind })
  set_object_ip tmp_ip

-- The current object becomes `id`, which runs on from its own context.
unfoldable pub switch_to : ℕ → M (Unit {0})
unfolding get_obj set_obj set_object_ip
switch_to id = do
  o ← get_obj id
  modify (λ s. record s { object_id = id })
  set_obj id (record o { obj_status = running })
  set_object_ip o.ip
  modify (λ s. record s { object_local = o.p_local })

-- The call of a free object, from the operand that gives the number of parameters on.
unfoldable pub call_free : ℕ → M (Unit {0})
unfolding object_reset copy_pars_to_locals get_obj set_obj get_object_ip switch_to
call_free id = do
  p ← prim_par_pointer
  object_reset id
  caller ← gets (λ s. s.object_id)
  called ← get_obj id
  set_obj id (record called { count = caller })
  copy_pars_to_locals id
  here ← get_object_ip
  o ← get_obj caller
  set_obj caller (record o { ip = here; obj_status = halted })
  switch_to id

-- The call of an object that is not free is executed again, and the object notes that it is awaited.
unfoldable pub call_busy : ℕ → ℕ → M (Unit {0})
unfolding get_obj set_obj set_object_ip set_dispatch_status
call_busy tmp_ip id = do
  set_object_ip (previous tmp_ip)
  set_dispatch_status busybreak
  o ← get_obj id
  set_obj id (record o { blocked = 1 })

-- opCALL
unfoldable pub object_call : M (Unit {0})
unfolding call_free call_busy get_obj get_object_ip
object_call = do
  tmp_ip ← get_object_ip
  id ← par_bits data16
  o ← get_obj id
  if is_stopped o.obj_status then call_free id else call_busy tmp_ip id

-- opRETURN
unfoldable pub object_return : M (Unit {0})
unfolding get_obj set_obj get_object_ip copy_locals_to_pars set_dispatch_status switch_to
object_return = do
  id ← gets (λ s. s.object_id)
  called ← get_obj id
  let caller = called.count
  c ← get_obj caller
  modify (λ s. record s { object_local = c.p_local })
  copy_locals_to_pars caller
  here ← get_object_ip
  o ← get_obj id
  set_obj id (record o { ip = here; obj_status = stopped; blocked = 0 })
  if o.blocked == 0 then pure tt else set_dispatch_status stopbreak
  switch_to caller
