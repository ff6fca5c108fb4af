-- ===== src/Load.antt =====
-- Loading a program, in lms2012/lms2012.c: how much memory an image needs, and where its variables and
-- objects go. The answer of `cMemoryOpen`, the verdict of `cValidateProgram` with the labels that it
-- finds, and what the device modules answer when they are opened are arguments.
pub mod Layout
use lms2012_compat.Prelude.{
  ℕ, zero, suc, ◌+◌, ◌-◌, ◌*◌, ◌/◌, ◌%◌, ◌^◌, Bool, true, false, not, ◌&&◌, ◌||◌, ◌==◌, ltb, leb,
  if◌then◌else◌, Option, none, some,
}
use lms2012_compat.Vm.{
  Vm, Prg, Obj, ObjHead, ObjStat, running, waiting, stopped, Result, ok, busy, fail, M, ◌>>=◌, ◌>>◌,
  pure, fault, modify, gets, add_address, load_bytes,
}
use lms2012_compat.Words.{data8, data16, data32}
use lms2012_compat.Param.{par_bits}
use lms2012_compat.Objects.{is_stopped}
use lms2012_compat.ErrorLog.{log_error_number}
use lms2012_compat.Timer.{Timeval, timer_get_ms, timer_get_us}
use lms2012_compat.Programs.{set_program, with_program}

-- The sizes of the structures on the 32-bit machine
abbrev pub imghead_size : ℕ
imghead_size = 16

abbrev pub objhead_size : ℕ
objhead_size = 12

abbrev pub obj_size : ℕ
obj_size = 12

abbrev pub pointer_size : ℕ
pointer_size = 4

-- `(x + 3) & 0xFFFFFFFC`
abbrev pub align_up : ℕ → ℕ
align_up x = (x + 3) % 2 ^ 32 / 4 * 4

-- `NumberOfObjects` and `GlobalBytes` of the header, and the address of the object headers, which are
-- counted from one
unfoldable pub number_of_objects : (ℕ → ℕ) → ℕ → ℕ
unfolding load_bytes
number_of_objects mem image = load_bytes 2 mem (image + 10)

unfoldable pub global_bytes : (ℕ → ℕ) → ℕ → ℕ
unfolding load_bytes
global_bytes mem image = load_bytes 4 mem (image + 12)

abbrev pub obj_heads : ℕ → ℕ
obj_heads image = add_address image (imghead_size - objhead_size)

-- `ObjId++` of an OBJID
abbrev pub next_id : ℕ → ℕ
next_id id = (id + 1) % 2 ^ 16

-- The loop `for (; ObjId <= NoOfObj; ObjId++)` over the bytes of the objects, on fuel. The index has 16
-- bits: it is never past 65535 objects, and then the loop goes on forever.
unfoldable pub ram_objects : ℕ → (ℕ → ObjHead) → ℕ → ℕ → ℕ → Option ℕ
ram_objects zero head objects id bytes = none
ram_objects (suc fuel) head objects id bytes =
    let rest =
      ram_objects fuel head objects (next_id id)
        ((align_up bytes + (obj_size + (head id).local_bytes)) % 2 ^ 32) in
    if leb id objects then rest else some bytes

-- One round for each object, and the test that ends the loop
abbrev pub enough_rounds : ℕ → ℕ
enough_rounds objects = suc objects

-- The source computes the same sum, by the same loop, twice, and throws the first one away.
unfoldable pub get_amount_of_ram_for_image : Vm → ℕ → Option ℕ
unfolding number_of_objects global_bytes ram_objects
get_amount_of_ram_for_image s image =
    let objects = number_of_objects s.mem image in
    ram_objects (enough_rounds objects) (s.head (obj_heads image)) objects 1
      ((align_up (global_bytes s.mem image) + pointer_size * (objects + 1)) % 2 ^ 32)

-- The first object runs unless it waits for triggers; with the debug flag 2 it waits.
abbrev pub first_status : ℕ → ℕ → ℕ → ObjStat
first_status deb id count =
    if not (count == 0) || ltb 1 id then stopped else if deb == 2 then waiting else running

-- `Local` of the owner is read from the list, which was cleared: an owner that comes later is NULL there,
-- and the `Local` of NULL is at the size of an object. An owner that the list does not have is read from
-- past its end, which faults.
abbrev pub owner_local : Vm → ℕ → ℕ → ℕ → ℕ → ℕ → Option ℕ
owner_local s list objects id own owner =
    if owner == 0 || owner == id
    then some own
    else if ltb owner id
    then some (s.obj list owner).local
    else if leb owner objects
    then some obj_size
    else none

abbrev pub with_object : Vm → ℕ → ℕ → Obj → Vm
with_object s list id o = record s { obj = λ p i. if p == list && i == id then o else s.obj p i }

-- The object with the pointer to its variables, and where the next one may start
abbrev pub put_object : ℕ → ℕ → ℕ → Obj → Option ℕ → M ℕ
put_object list id past o none s = none
put_object list id past o (some l) s = some (past, with_object s list id (record o { p_local = l }))

-- One round of the loop over the objects, with the object's data from `start` on
unfoldable pub place_object : ℕ → ℕ → ℕ → ℕ → ℕ → ℕ → M ℕ
place_object image deb objects list id start s =
    let h = s.head (obj_heads image) id in
    let place = align_up start in
    let own = add_address place obj_size in
    put_object list id (add_address place (obj_size + h.local_bytes))
      (record {
        ip = add_address image h.offset_to_instructions;
        p_local = 0;
        obj_status = first_status deb id h.trigger_count;
        blocked = 0;
        count = h.trigger_count;
        local = own;
      })
      (owner_local s list objects id own h.owner_object_id) s

-- The loop over the objects, whose index has 16 bits too
unfoldable pub place_objects : ℕ → ℕ → ℕ → ℕ → ℕ → ℕ → ℕ → M ℕ
unfolding place_object
place_objects zero image deb objects list id start = fault
place_objects (suc fuel) image deb objects list id start =
    let round = place_object image deb objects list id start >>= λ next_start.
    place_objects fuel image deb objects list (next_id id) next_start in
    if leb id objects then round else pure start

abbrev pub clear_memory : ℕ → ℕ → M (Unit {0})
clear_memory base size =
    modify λ s. record s { mem = λ a. if leb base a && ltb a (base + size) then 0 else s.mem a }

-- What the surroundings of `ProgramReset` answer: the handle and the memory that were reserved, the labels of a valid
-- program or the number of the error to log, the results of opening the devices together, and the time.
pub record Surroundings : Type 0 where
  pub reserved : Option (ℕ × ℕ)
  pub labels : Option (ℕ → ℕ)
  pub invalid : ℕ
  pub opened : Result
  pub clock : Timeval

-- The program's first fields, and the list of its objects: the address behind it
abbrev pub reset_status : ℕ → M (Unit {0})
unfolding set_program
reset_status prg = do
  p ← gets (λ s. s.program prg)
  set_program prg (record p { status = stopped; status_change = stopped; result = fail })

unfoldable pub open_devices : Surroundings → ℕ → M Result
open_devices e prg s =
    if prg == s.codes.user_slot
    then some (
      if s.ref_count == 0 then e.opened else ok,
      record s { ref_count = (s.ref_count + 1) % 2 ^ 16 },
    )
    else some (ok, s)

-- After the memory is reserved and the image found valid
unfoldable pub load_program : Surroundings → (ℕ → ℕ) → ℕ → ℕ → ℕ → ℕ → ℕ → ℕ → M Result
unfolding set_program number_of_objects global_bytes place_objects timer_get_ms timer_get_us
    open_devices
load_program e labels prg image globals deb base size = do
  clear_memory base size
  objects ← gets (λ s. number_of_objects s.mem image)
  bytes ← gets (λ s. global_bytes s.mem image)
  let list = align_up (add_address base bytes)
  p ← gets (λ s. s.program prg)
  set_program prg (record p {
    debug = (if deb == 1 then 1 else 0);
    p_image = image;
    label = labels;
    objects = objects;
    p_global = (if globals == 0 then base else globals);
    p_obj_list = list;
    p_obj_head = obj_heads image;
  })
  past ←
      place_objects (enough_rounds objects) image deb objects list 1
        (add_address list (pointer_size * (objects + 1)))
  result ← open_devices e prg
  us ← timer_get_us e.clock
  q ← gets (λ s. s.program prg)
  set_program prg (record q {
    object_id = 1;
    status = running;
    status_change = running;
    result = busy;
    instr_cnt = 0;
    start_time = timer_get_ms e.clock;
    run_time = us;
  })
  pure result

-- With the memory at `base`, of handle `h`: a program that is not valid fails, and keeps the memory.
unfoldable pub validate_program : Surroundings → ℕ → ℕ → ℕ → ℕ → ℕ → ℕ × ℕ → M Result
unfolding set_program load_program log_error_number
validate_program e prg image globals deb size (h, base) = do
  modify (λ s. record s { pool = λ p i. if p == prg && i == h then base else s.pool p i })
  p ← gets (λ s. s.program prg)
  set_program prg (record p { debug = (if deb == 1 then 1 else 0); p_image = image })
  elim e.labels as (λ _. M Result) [
    | some labels ↦ load_program e labels prg image globals deb base size
    | none ↦
        modify (λ s.
          if prg == s.codes.cmd_slot
          then s
          else record s { log = (log_error_number e.invalid s.log).0 })
        >> pure fail
  ]

-- The result of GetAmountOfRamForImage, if it returns
unfoldable pub reserve : ℕ → M ℕ
unfolding get_amount_of_ram_for_image
reserve image s = elim (get_amount_of_ram_for_image s image) [ none ↦ none | some n ↦ some (n, s) ]

unfoldable pub program_reset : Surroundings → ℕ → ℕ → ℕ → ℕ → M Result
unfolding reset_status reserve validate_program
program_reset e prg image globals deb = do
  reset_status prg
  size ← reserve image
  elim (if image == 0 then none else e.reserved) as (λ _. M Result) [
    | none ↦ pure fail
    | some r ↦ validate_program e prg image globals deb size r
  ]

-- opPROGRAM_START. A direct command starts a program only while the user's and the debugged one are
-- stopped.
unfoldable pub program_start : Surroundings → M (Unit {0})
unfolding program_reset
program_start e = do
  prg ← par_bits data16
  dummy ← par_bits data32
  image ← par_bits data32
  deb ← par_bits data8
  s ← gets (λ s. s)
  let direct = s.program_id == s.codes.cmd_slot || s.program_id == s.codes.term_slot
  let idle =
      is_stopped (s.program s.codes.user_slot).status
      && is_stopped (s.program s.codes.debug_slot).status
  if not (ltb prg s.codes.max_programs)
      then fault
      else if is_stopped (s.program prg).status && (not direct || idle)
      then program_reset e prg image 0 deb >>= (λ _. pure tt)
      else pure tt
