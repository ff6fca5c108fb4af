-- ===== src/Ram.antt =====
-- opMEMORY_WRITE and opMEMORY_READ in lms2012/lms2012.c: access to the variables of a program from
-- outside of it.
pub mod Bounds
use lms2012_compat.Prelude.{
  ℕ, zero, suc, ◌+◌, ◌-◌, ◌%◌, ◌^◌, Bool, true, false, ◌&&◌, not, ◌==◌, ltb, leb, if◌then◌else◌,
  Option, none, some,
}
use lms2012_compat.Prelude.Int.{pos}
use lms2012_compat.Words.{data16, data32}
use lms2012_compat.Vm.{
  Vm, Ptr, M, ◌>>=◌, ◌>>◌, pure, gets, add_address, load_bytes, load, store, offset, at,
}
use lms2012_compat.Param.{prim_par_pointer, par_bits}
use lms2012_compat.Objects.{is_stopped}
use lms2012_compat.Load.{global_bytes}

-- `Ram` and `Lng`: the global variables of a program, or the local ones of an object
abbrev pub ram_of : ℕ → ℕ → Vm → ℕ
ram_of prg id s =
    let p = s.program prg in if id == 0 then p.p_global else (s.obj p.p_obj_list id).p_local

abbrev pub lng_of : ℕ → ℕ → Vm → ℕ
lng_of prg id s =
    let p = s.program prg in
    let globals = global_bytes s.mem p.p_image in
    if id == 0 then globals else (s.head p.p_obj_head id).local_bytes

-- Is there anything to be accessed?
abbrev pub is_accessible : ℕ → ℕ → Vm → Bool
is_accessible prg id s =
    ltb prg s.codes.max_programs
    && not (is_stopped (s.program prg).status)
    && leb id (s.program prg).objects

-- `Ram[Tmp + Offset]`; the sum is a ULONG.
abbrev pub index_of : ℕ → ℕ → ℕ
index_of tmp off = (tmp + off) % 2 ^ 32

unfoldable pub write_one : ℕ → ℕ → ℕ → Ptr → ℕ → M (Unit {0})
write_one ram lng off array tmp =
    if ltb (index_of tmp off) lng
    then (do
      p ← offset array (pos tmp)
      b ← load 1 p
      store 1 (at (add_address ram (index_of tmp off))) b)
    else pure tt

-- The loop over `n` bytes from `tmp` on
unfoldable pub write_loop : ℕ → ℕ → ℕ → Ptr → ℕ → ℕ → M (Unit {0})
unfolding write_one
write_loop ram lng off array zero tmp = pure tt
write_loop ram lng off array (suc n) tmp = do
  write_one ram lng off array tmp
  write_loop ram lng off array n (tmp + 1)

unfoldable pub write_ram : ℕ → ℕ → ℕ → ℕ → Ptr → M (Unit {0})
unfolding write_loop
write_ram prg id off size array s =
    if is_accessible prg id s
    then write_loop (ram_of prg id s) (lng_of prg id s) off array size 0 s
    else some (tt, s)

unfoldable pub memory_write : M (Unit {0})
unfolding write_ram
memory_write = do
  prg ← par_bits data16
  id ← par_bits data16
  off ← par_bits data32
  size ← par_bits data32
  array ← prim_par_pointer
  write_ram prg id off size array

unfoldable pub read_one : ℕ → ℕ → ℕ → Ptr → ℕ → M (Unit {0})
read_one ram lng off array tmp =
    (if ltb (index_of tmp off) lng
      then load 1 (at (add_address ram (index_of tmp off)))
      else pure 0)
    >>= λ b. offset array (pos tmp) >>= λ p. store 1 p b

unfoldable pub read_loop : ℕ → ℕ → ℕ → Ptr → ℕ → ℕ → M (Unit {0})
unfolding read_one
read_loop ram lng off array zero tmp = pure tt
read_loop ram lng off array (suc n) tmp = do
  read_one ram lng off array tmp
  read_loop ram lng off array n (tmp + 1)

unfoldable pub read_ram : ℕ → ℕ → ℕ → ℕ → Ptr → M (Unit {0})
unfolding read_loop
read_ram prg id off size array s =
    if is_accessible prg id s
    then read_loop (ram_of prg id s) (lng_of prg id s) off array size 0 s
    else some (tt, s)

unfoldable pub memory_read : M (Unit {0})
unfolding read_ram
memory_read = do
  prg ← par_bits data16
  id ← par_bits data16
  off ← par_bits data32
  size ← par_bits data32
  array ← prim_par_pointer
  read_ram prg id off size array
