-- ===== src/Tests.antt =====
-- Concrete machines, on which the theorems are applied.
mod Operands
mod Log
mod Scheduling
mod Handlers
mod Calls
mod Toy
mod Drawing
mod Keys
mod Blocks
mod Loading
mod Messages
mod Validation
mod Turns
mod Access
use lms2012_compat.Prelude.{ℕ, ◌-◌, ◌==◌, ltb, if◌then◌else◌, List, [], ◌∷◌, get_or}
use lms2012_compat.Prelude.Int.{ℤ, pos, negsuc}
use lms2012_compat.Words.{Width, data8, data16, data32}
use lms2012_compat.ErrorLog.{ErrorLog}
use lms2012_compat.Vm.{
  Vm, Codes, Obj, ObjHead, Prg, ObjStat, running, waiting, stopped, ok, nobreak,
}

-- The limits of the types without the pattern that stands for NaN.
abbrev least : Width → ℤ
least data8 = negsuc 126
least data16 = negsuc 32766
least data32 = negsuc 2147483646

abbrev greatest : Width → ℤ
greatest data8 = pos 127
greatest data16 = pos 32767
greatest data32 = pos 2147483647

abbrev pub codes : Codes
codes = record {
  gui_slot = 0;
  user_slot = 1;
  cmd_slot = 2;
  term_slot = 3;
  debug_slot = 4;
  current_slot = 65535;
  max_programs = 5;
  data_min = least;
  data_max = greatest;
}

abbrev pub object_with : ObjStat → ℕ → Obj
object_with st n = record {
  ip = 0;
  p_local = 0x3000;
  obj_status = st;
  blocked = 0;
  count = n;
  local = 0x3000;
}

abbrev pub program_with : ObjStat → Prg
program_with st = record {
  instr_cnt = 0;
  instr_time = 0;
  start_time = 0;
  run_time = 0;
  p_image = 0x1000;
  p_global = 0x2000;
  p_obj_head = 0x1010;
  p_obj_list = 0x2800;
  object_ip = 0x1040;
  object_local = 0x3000;
  objects = 3;
  object_id = 1;
  status = st;
  status_change = st;
  result = ok;
  label = λ _. 0;
  debug = 0;
}

-- The user's program has three objects: the first waits for two triggers, the third runs.
abbrev states : ℕ → Obj
states id =
    if id == 1
    then object_with waiting 2
    else if id == 3
    then object_with running 0
    else object_with stopped 0

-- Only the user's program has not stopped.
abbrev programs : ℕ → Prg
programs slot = if slot == 1 then program_with running else program_with stopped

-- Byte code at address 0x1040, in the user's program.
abbrev pub machine : List ℕ → Vm
machine code = record {
  codes = codes;
  mem = λ a. if ltb a 0x1040 then 0 else get_or code (a - 0x1040) 0;
  obj = λ _. states;
  head = λ _ _. record {
    offset_to_instructions = 0x40;
    owner_object_id = 0;
    trigger_count = 2;
    local_bytes = 16;
  };
  pool = λ _ _. 0;
  program_id = 1;
  program = programs;
  instr_cnt = 0;
  p_image = 0x1000;
  p_global = 0x2000;
  p_obj_head = 0x1010;
  p_obj_list = 0x2800;
  object_ip = 0x1040;
  object_local = 0x3000;
  objects = 3;
  object_id = 1;
  debug = 0;
  ref_count = 1;
  time_us = 0;
  dispatch_status = nobreak;
  priority = 200;
  log = record { errors = 0 ∷ 0 ∷ 0 ∷ 0 ∷ 0 ∷ 0 ∷ 0 ∷ 0 ∷ []; error_in = 0; error_out = 0 };
  events = [];
  value = 0;
  handle = 0;
}
