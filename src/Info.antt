-- ===== src/Info.antt =====
-- Smaller byte codes of lms2012/lms2012.c: opPROGRAM_INFO, opPORT_CNV_OUTPUT, opPORT_CNV_INPUT,
-- opNOTE_TO_FREQ, opLABEL and opNOP. The numbers of the sub commands and of the states are generated.
pub mod Objects
use lms2012_compat.Prelude.{
  ℕ, zero, suc, ◌+◌, ◌-◌, ◌*◌, ◌/◌, ◌%◌, ◌^◌, Bool, true, false, not, ◌&&◌, ◌||◌, ◌==◌, ltb, leb,
  if◌then◌else◌, Option, none, some, List, [], ◌∷◌,
}
use lms2012_compat.Prelude.Int.{ℤ, pos, negsuc, ltb_ℤ, ◌-ℤ◌}
use lms2012_compat.Words.{data8, data16, data32, signed}
use lms2012_compat.Vm.{
  Vm, Prg, Obj, ObjStat, running, stopped, Result, DspStat, failbreak, M, ◌>>=◌, ◌>>◌, pure, fault,
  gets, modify, add_address, Ptr, load, offset,
}
use lms2012_compat.Param.{prim_par_pointer, par, par_bits, put, put_bits, address_space}
use lms2012_compat.Dispatch.{set_dispatch_status, set_instructions}
use lms2012_compat.Timer.{Timeval, timer_get_ms, timer_get_us}
use lms2012_compat.Objects.{is_stopped, is_object}
use lms2012_compat.Programs.{set_program}
use lms2012_compat.Floats.{Floats}

-- The generated numbers, and what scGET_PRGNAME does with the path in c_memory
pub record InfoCodes : Type 0 where
  pub obj_stop : ℕ
  pub obj_start : ℕ
  pub get_status : ℕ
  pub get_prgresult : ℕ
  pub get_speed : ℕ
  pub set_instr : ℕ
  pub get_prgname : ℕ
  pub status_number : ObjStat → ℕ
  pub result_number : Result → ℕ
  pub put_name : ℕ → M (Unit {0})

-- `VMInstance.Program[PrgId]`; the number of the slot is not tested.
unfoldable pub slot : ℕ → M Prg
slot prg s = if ltb prg s.codes.max_programs then some (s.program prg, s) else none

abbrev pub with_object_of : ℕ → ℕ → Obj → Vm → Vm
with_object_of prg id o s = record s {
  obj = λ p i. if p == (s.program prg).p_obj_list && i == id then o else s.obj p i;
}

abbrev pub may_change : Prg → ℕ → Bool
may_change p id = is_object p.objects id && not (is_stopped p.status)

unfoldable pub stop_object_of : ℕ → ℕ → M (Unit {0})
unfolding slot
stop_object_of prg id = do
  p ← slot prg
  o ← gets (λ s. s.obj p.p_obj_list id)
  if may_change p id
      then modify (with_object_of prg id (record o { obj_status = stopped }))
      else pure tt

-- The first object starts the clock of the program.
unfoldable pub start_clock : Timeval → ℕ → M (Unit {0})
unfolding timer_get_us timer_get_ms set_program
start_clock tv prg = do
  us ← timer_get_us tv
  p ← gets (λ s. s.program prg)
  set_program prg (record p { start_time = timer_get_ms tv; run_time = us })

unfoldable pub begin_object : ℕ → ℕ → M (Unit {0})
begin_object prg id = modify λ s.
    let p = s.program prg in
    let h = s.head p.p_obj_head id in
    with_object_of prg id
      (record (s.obj p.p_obj_list id) {
        obj_status = running;
        ip = add_address p.p_image h.offset_to_instructions;
        count = h.trigger_count;
      })
      s

unfoldable pub start_object_of : Timeval → ℕ → ℕ → M (Unit {0})
unfolding slot start_clock begin_object
start_object_of tv prg id = do
  p ← slot prg
  if may_change p id
      then (if id == 1 then start_clock tv prg else pure tt) >> begin_object prg id
      else pure tt

-- `(float)InstrCnt * 1000000 / (float)InstrTime`, as an integer
abbrev pub speed : Floats → Prg → ℤ
speed f p = f.to_int data32 (
    f.div (f.mul (f.of_int (pos p.instr_cnt)) (f.of_int (pos 1000000)))
      (f.of_int (pos p.instr_time)))

unfoldable pub program_info_of : InfoCodes → Floats → Timeval → ℕ → ℕ → M (Unit {0})
unfolding slot stop_object_of start_object_of set_instructions set_dispatch_status
program_info_of c f tv cmd prg =
    if cmd == c.obj_stop
    then (do id ← par_bits data16; stop_object_of prg id)
    else if cmd == c.obj_start
    then (do id ← par_bits data16; start_object_of tv prg id)
    else if cmd == c.get_status
    then (do p ← slot prg; put_bits data8 (c.status_number p.status))
    else if cmd == c.get_prgresult
    then (do p ← slot prg; put_bits data8 (c.result_number p.result))
    else if cmd == c.get_speed
    then (do p ← slot prg; put data32 (speed f p))
    else if cmd == c.set_instr
    then (do n ← par_bits data16; set_instructions n)
    else if cmd == c.get_prgname
    then c.put_name prg
    else set_dispatch_status failbreak

unfoldable pub program_info : InfoCodes → Floats → Timeval → M (Unit {0})
unfolding program_info_of
program_info c f tv = do cmd ← par_bits data8; prg ← par_bits data16; program_info_of c f tv cmd prg

-- The digits of an encoded port: the layer, and two ports from 1 on. A shift by -1, for a digit 0, is
-- undefined.
abbrev pub port_bit : ℕ → ℕ
port_bit digit = 2 ^ (digit - 1) % 2 ^ 8

abbrev pub join_bits : ℕ → ℕ → ℕ
join_bits a b = if a == b then a else a + b

abbrev pub port_layer : ℕ → ℕ
port_layer ports = ports / 100 % 10 - 1

abbrev pub is_inverted : ℕ → ℕ → ℕ
is_inverted a b = if ltb_ℤ (signed data8 b) (signed data8 a) then 1 else 0

unfoldable pub port_cnv_output_of : ℤ → M (Unit {0})
port_cnv_output_of (negsuc n) = fault
port_cnv_output_of (pos n) =
    let second = port_bit (n % 10) in
    let first = port_bit (n / 10 % 10) in
    if n % 10 == 0 || n / 10 % 10 == 0 then fault else (do
      put_bits data8 (port_layer n)
      put_bits data8 (join_bits first second)
      put_bits data8 (is_inverted first second))

unfoldable pub port_cnv_output : M (Unit {0})
unfolding port_cnv_output_of
port_cnv_output = do ports ← par data32; port_cnv_output_of ports

-- `%` has the sign of its first operand.
unfoldable pub last_digit : ℤ → ℤ
unfolding ◌-ℤ◌
last_digit (pos n) = pos (n % 10)
last_digit (negsuc n) = pos 0 -ℤ pos ((n + 1) % 10)

abbrev pub input_layer : ℤ → ℕ
input_layer (pos n) = port_layer n
input_layer (negsuc n) = 0

unfoldable pub port_cnv_input : M (Unit {0})
unfolding last_digit
port_cnv_input = do
  ports ← par data32
  put_bits data8 (input_layer ports)
  put data8 (last_digit ports -ℤ pos 1)

-- `NoteFreq`: the names of the notes, and their frequencies
abbrev pub note_freq : List (List ℕ × ℕ)
note_freq =
    (b'C' ∷ b'4' ∷ [], 262)
    ∷ (b'D' ∷ b'4' ∷ [], 294)
    ∷ (b'E' ∷ b'4' ∷ [], 330)
    ∷ (b'F' ∷ b'4' ∷ [], 349)
    ∷ (b'G' ∷ b'4' ∷ [], 392)
    ∷ (b'A' ∷ b'4' ∷ [], 440)
    ∷ (b'B' ∷ b'4' ∷ [], 494)
    ∷ (b'C' ∷ b'5' ∷ [], 523)
    ∷ (b'D' ∷ b'5' ∷ [], 587)
    ∷ (b'E' ∷ b'5' ∷ [], 659)
    ∷ (b'F' ∷ b'5' ∷ [], 698)
    ∷ (b'G' ∷ b'5' ∷ [], 784)
    ∷ (b'A' ∷ b'5' ∷ [], 880)
    ∷ (b'B' ∷ b'5' ∷ [], 988)
    ∷ (b'C' ∷ b'6' ∷ [], 1047)
    ∷ (b'D' ∷ b'6' ∷ [], 1175)
    ∷ (b'E' ∷ b'6' ∷ [], 1319)
    ∷ (b'F' ∷ b'6' ∷ [], 1397)
    ∷ (b'G' ∷ b'6' ∷ [], 1568)
    ∷ (b'A' ∷ b'6' ∷ [], 1760)
    ∷ (b'B' ∷ b'6' ∷ [], 1976)
    ∷ (b'C' ∷ b'#' ∷ b'4' ∷ [], 277)
    ∷ (b'D' ∷ b'#' ∷ b'4' ∷ [], 311)
    ∷ (b'F' ∷ b'#' ∷ b'4' ∷ [], 370)
    ∷ (b'G' ∷ b'#' ∷ b'4' ∷ [], 415)
    ∷ (b'A' ∷ b'#' ∷ b'4' ∷ [], 466)
    ∷ (b'C' ∷ b'#' ∷ b'5' ∷ [], 554)
    ∷ (b'D' ∷ b'#' ∷ b'5' ∷ [], 622)
    ∷ (b'F' ∷ b'#' ∷ b'5' ∷ [], 740)
    ∷ (b'G' ∷ b'#' ∷ b'5' ∷ [], 831)
    ∷ (b'A' ∷ b'#' ∷ b'5' ∷ [], 932)
    ∷ (b'C' ∷ b'#' ∷ b'6' ∷ [], 1109)
    ∷ (b'D' ∷ b'#' ∷ b'6' ∷ [], 1245)
    ∷ (b'F' ∷ b'#' ∷ b'6' ∷ [], 1480)
    ∷ (b'G' ∷ b'#' ∷ b'6' ∷ [], 1661)
    ∷ (b'A' ∷ b'#' ∷ b'6' ∷ [], 1865)
    ∷ []

-- `strcmp` of a name and the string at a pointer
unfoldable pub same_string : List ℕ → Ptr → ℕ → M Bool
same_string [] p i = do q ← offset p (pos i); b ← load 1 q; pure (b == 0)
same_string (c ∷ s) p i = do
  q ← offset p (pos i)
  b ← load 1 q
  if b == c then same_string s p (i + 1) else pure false

-- The loop over the notes: the last one with the name is taken.
unfoldable pub find_note : List (List ℕ × ℕ) → Ptr → ℕ → M ℕ
unfolding same_string
find_note [] p freq = pure freq
find_note ((name, f) ∷ notes) p freq = do
  same ← same_string name p 0
  find_note notes p (if same then f else freq)

unfoldable pub note_to_freq : M (Unit {0})
unfolding find_note
note_to_freq = do note ← prim_par_pointer; freq ← find_note note_freq note 440; put_bits data16 freq

unfoldable pub def_label : M (Unit {0})
def_label = prim_par_pointer >>= λ p. pure tt

abbrev pub nop : M (Unit {0})
nop = pure tt
