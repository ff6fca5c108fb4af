-- ===== src/Programs/Switch.antt =====
-- `ProgramInit` and `ProgramExit` of lms2012/lms2012.c: switching a program out and in loses nothing.
use lms2012_compat.Prelude.{◌+◌, ◌%◌, ◌^◌, ◌<◌, ◌≡◌, true, ◌==◌, ltb, ap, ◌∙◌, lt→ltb, arith}
use lms2012_compat.Vm.{Vm, Prg}
use lms2012_compat.Programs.{is_active, program_init, program_exit}

-- The registers of a program's record.
abbrev loaded : Vm → Prg → Vm
loaded t p = record t {
  p_global = p.p_global;
  p_image = p.p_image;
  p_obj_head = p.p_obj_head;
  p_obj_list = p.p_obj_list;
  objects = p.objects;
  object_id = p.object_id;
  object_ip = p.object_ip;
  object_local = p.object_local;
  instr_cnt = 0;
  debug = p.debug;
}

program_init-active :
    (t : Vm)
    → ltb t.program_id t.codes.max_programs ≡ true
    → is_active (t.program t.program_id).status ≡ true
    → program_init t ≡ loaded t (t.program t.program_id)
unfolding program_init
program_init-active t l a = rw (l, a)

-- The record that `ProgramExit` leaves.
abbrev saved : Vm → Prg
saved s = record (s.program s.program_id) {
  p_global = s.p_global;
  p_image = s.p_image;
  p_obj_head = s.p_obj_head;
  p_obj_list = s.p_obj_list;
  objects = s.objects;
  object_id = s.object_id;
  object_ip = s.object_ip;
  object_local = s.object_local;
  instr_cnt = ((s.program s.program_id).instr_cnt + s.instr_cnt) % 2 ^ 32;
  debug = s.debug;
}

program_exit-saved :
    (s : Vm) → s.program_id < s.codes.max_programs → (program_exit s).program s.program_id ≡ saved s
unfolding program_exit
program_exit-saved s h =
    let l : ltb s.program_id s.codes.max_programs ≡ true = ground arith in
    let same : (s.program_id == s.program_id) ≡ true = ground arith in rw l (rw same)

-- An active program of a valid slot that is switched out and later switched in again, while its record
-- stayed, runs on with the registers that it had; only the instruction counter starts again.
pub program_init-exit :
    (s t : Vm)
    → s.program_id < s.codes.max_programs
    → is_active (s.program s.program_id).status ≡ true
    → t.program_id ≡ s.program_id
    → t.codes ≡ s.codes
    → t.program s.program_id ≡ (program_exit s).program s.program_id
    → program_init t ≡ record t {
      p_global = s.p_global;
      p_image = s.p_image;
      p_obj_head = s.p_obj_head;
      p_obj_list = s.p_obj_list;
      objects = s.objects;
      object_id = s.object_id;
      object_ip = s.object_ip;
      object_local = s.object_local;
      instr_cnt = 0;
      debug = s.debug;
    }
program_init-exit s t l a same codes kept =
    let here : t.program t.program_id ≡ saved s =
      ap t.program same ∙ kept ∙ program_exit-saved s l in
    let valid : ltb t.program_id t.codes.max_programs ≡ true =
      rw (same, codes) (lt→ltb s.program_id s.codes.max_programs l) in
    let active : is_active (t.program t.program_id).status ≡ true =
      ap (λ (p : Prg). is_active p.status) here ∙ a in
    program_init-active t valid active ∙ ap (loaded t) here
