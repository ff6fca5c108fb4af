-- ===== src/Vm.antt =====
-- The state of the virtual machine, `VMInstance` of lms2012/lms2012.h, and the memory that its
-- pointers reach. Addresses and registers are 32 bits wide, as on the brick: the code casts
-- pointers to ULONG and back.
pub mod Memory
pub mod Run
use lms2012_compat.Prelude.{
  ℕ, zero, suc, ◌+◌, ◌-◌, ◌*◌, ◌/◌, ◌%◌, ◌^◌, Bool, ◌==◌, leb, if◌then◌else◌, Option, none, some,
  List,
}
use lms2012_compat.Prelude.Int.{ℤ, pos, negsuc}
use lms2012_compat.ErrorLog.{ErrorLog}
use lms2012_compat.Words.{Width, size, signed, pattern_of, data32}

-- OBJSTAT
pub data ObjStat : Type 0 where
  running waiting stopped halted : ObjStat

-- DSPSTAT
pub data DspStat : Type 0 where
  nobreak stopbreak sleepbreak instrbreak busybreak prgbreak userbreak failbreak : DspStat

-- RESULT, as far as the scheduler uses it.
pub data Result : Type 0 where
  ok busy fail stop : Result

-- `OBJ`. `count` is the union of `CallerId` and `TriggerCount`; `local` is the address of `Local`.
pub record Obj : Type 0 where
  pub ip : ℕ
  pub p_local : ℕ
  pub obj_status : ObjStat
  pub blocked : ℕ
  pub count : ℕ
  pub local : ℕ

-- `OBJHEAD`
pub record ObjHead : Type 0 where
  pub offset_to_instructions : ℕ
  pub owner_object_id : ℕ
  pub trigger_count : ℕ
  pub local_bytes : ℕ

-- `PRG`. `p_obj_list` and `p_obj_head` are addresses; the tables there are `Vm.obj` and `Vm.head`.
pub record Prg : Type 0 where
  pub instr_cnt : ℕ
  pub instr_time : ℕ
  pub start_time : ℕ
  pub run_time : ℕ
  pub p_image : ℕ
  pub p_global : ℕ
  pub p_obj_head : ℕ
  pub p_obj_list : ℕ
  pub object_ip : ℕ
  pub object_local : ℕ
  pub objects : ℕ
  pub object_id : ℕ
  pub status : ObjStat
  pub status_change : ObjStat
  pub result : Result
  pub label : ℕ → ℕ
  pub debug : ℕ

-- Calls into the device modules, which keep their own state: the machine keeps the list of them.
pub data Event : Type 0 where
  sound_close input_close output_close ui_close dyn_load_vm_close : Event
  memory_close : ℕ → Event

-- Constants that the build generates into bytecodes.h: the program slots as 16-bit patterns with
-- their number (`MAX_PROGRAMS`), and the limits `DATA8_MIN` to `DATA32_MAX`.
pub record Codes : Type 0 where
  pub gui_slot : ℕ
  pub user_slot : ℕ
  pub cmd_slot : ℕ
  pub term_slot : ℕ
  pub debug_slot : ℕ
  pub current_slot : ℕ
  pub max_programs : ℕ
  pub data_min : Width → ℤ
  pub data_max : Width → ℤ

-- `VMInstance`, with the memory. `mem` has a byte at each address, `obj p id` is the object
-- `*p[id]` of the list at address `p`, `head p id` the header `p[id]`, and `pool prg handle` the
-- address `pPoolList[prg][handle].pPool` of c_memory (0 is NULL). No operation changes `codes`.
pub record Vm : Type 0 where
  pub codes : Codes
  pub mem : ℕ → ℕ
  pub obj : ℕ → ℕ → Obj
  pub head : ℕ → ℕ → ObjHead
  pub pool : ℕ → ℕ → ℕ
  pub program_id : ℕ
  pub program : ℕ → Prg
  pub instr_cnt : ℕ
  pub p_image : ℕ
  pub p_global : ℕ
  pub p_obj_head : ℕ
  pub p_obj_list : ℕ
  pub object_ip : ℕ
  pub object_local : ℕ
  pub objects : ℕ
  pub object_id : ℕ
  pub debug : ℕ
  pub ref_count : ℕ
  pub time_us : ℕ
  pub dispatch_status : DspStat
  pub priority : ℕ
  pub log : ErrorLog
  pub events : List Event
  pub value : ℕ
  pub handle : ℕ

-- A `void*` that `PrimParPointer` returns: a byte of `VMInstance.Value`, or an address.
pub data Ptr : Type 0 where
  value_at : ℕ → Ptr
  at : ℕ → Ptr

-- A function of the VM. `none` is undefined behaviour of the C code, or an unending loop.
abbrev pub M : Type 0 → Type 0
M A = Vm → Option (A × Vm)

infixl 5 ◌>>=◌ ◌>>◌
abbrev pub ◌>>=◌ : {A B : Type 0} → M A → (A → M B) → M B
◌>>=◌ m f s = elim (m s) [ none ↦ none | some (a, t) ↦ f a t ]

abbrev pub ◌>>◌ : {B : Type 0} → M (Unit {0}) → M B → M B
m >> k = m >>= λ _. k

abbrev pub pure : {A : Type 0} → A → M A
pure a s = some (a, s)

abbrev pub fault : {A : Type 0} → M A
fault s = none

abbrev pub modify : (Vm → Vm) → M (Unit {0})
modify f s = some (tt, f s)

abbrev pub gets : {A : Type 0} → (Vm → A) → M A
gets f s = some (f s, s)

-- Pointer arithmetic on addresses wraps at 2 ^ 32.
abbrev pub add_address : ℕ → ℕ → ℕ
add_address a k = (a + k) % 2 ^ 32

-- A little-endian value of `n` bytes.
unfoldable pub load_bytes : ℕ → (ℕ → ℕ) → ℕ → ℕ
load_bytes zero m a = 0
load_bytes (suc n) m a = m a % 256 + 256 * load_bytes n m (a + 1)

abbrev pub write_byte : (ℕ → ℕ) → ℕ → ℕ → ℕ → ℕ
write_byte m a b x = if x == a then b else m x

pub store_bytes : ℕ → (ℕ → ℕ) → ℕ → ℕ → ℕ → ℕ
store_bytes zero m a v = m
store_bytes (suc n) m a v = store_bytes n (write_byte m a (v % 256)) (a + 1) (v / 256)

-- `*(T*)p` for a type of `n` bytes. Past the four bytes of `Value` it is undefined.
unfoldable pub load : ℕ → Ptr → M ℕ
unfolding load_bytes
load n (at a) s = some (load_bytes n s.mem a, s)
load n (value_at k) s = if leb (k + n) 4 then some (s.value / 256 ^ k % 256 ^ n, s) else none

-- `*(T*)p = v`
unfoldable pub store : ℕ → Ptr → ℕ → M (Unit {0})
unfolding store_bytes
store n (at a) v s = some (tt, record s { mem = store_bytes n s.mem a v })
store n (value_at k) v s =
    let old = s.value / 256 ^ k % 256 ^ n in
    if leb (k + n) 4
    then some (tt, record s { value = s.value - old * 256 ^ k + v % 256 ^ n * 256 ^ k })
    else none

-- `p + z` for a pointer to bytes.
unfoldable pub offset : Ptr → ℤ → M Ptr
unfolding pattern_of
offset (at a) z s = some (at (add_address a (pattern_of data32 z)), s)
offset (value_at k) (pos n) s = some (value_at (k + n), s)
offset (value_at k) (negsuc n) s = if leb (suc n) k then some (value_at (k - suc n), s) else none
