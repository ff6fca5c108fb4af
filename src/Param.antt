-- ===== src/Param.antt =====
-- Decoding of instruction operands: `PrimParPointer` and `PrimParAdvance` of lms2012/lms2012.c, with
-- the handle lookup of c_memory/c_memory.c, and the typed accesses through the pointers.
pub mod Advance
pub mod Encode
pub mod RoundTrip
pub mod Instruction
use lms2012_compat.Prelude.{
  ℕ, zero, suc, ◌+◌, ◌-◌, ◌*◌, ◌/◌, ◌%◌, ◌^◌, Bool, true, false, ◌&&◌, ◌||◌, ◌==◌, ltb,
  if◌then◌else◌, Option, none, some,
}
use lms2012_compat.Prelude.Int.{ℤ}
use lms2012_compat.Words.{Width, data8, data16, data32, size, signed, pattern_of, bit}
use lms2012_compat.Vm.{
  Vm, Prg, Ptr, value_at, at, M, ◌>>=◌, ◌>>◌, pure, gets, modify, add_address, load, store,
}

-- `MAX_LABELS` and `MAX_HANDLES`
abbrev pub max_labels : ℕ
max_labels = 32

abbrev pub max_handles : ℕ
max_handles = 500

-- `*((IMGDATA*)VMInstance.ObjectIp++)`
unfoldable pub fetch : M ℕ
fetch s = some (s.mem s.object_ip % 256, record s { object_ip = add_address s.object_ip 1 })

-- `n` bytes from the stream, the lowest first.
unfoldable pub fetch_value : ℕ → M ℕ
fetch_value zero = pure 0
fetch_value (suc n) = do b ← fetch; r ← fetch_value n; pure (b + 256 * r)

unfoldable pub set_value : ℕ → M (Unit {0})
set_value v = modify λ s. record s { value = v }

-- `while (*ObjectIp++)`: the address behind the first zero byte. The fuel is the number of
-- addresses, after which the loop would see the same bytes again.
unfoldable pub skip_string : ℕ → (ℕ → ℕ) → ℕ → Option ℕ
skip_string zero m a = none
skip_string (suc fuel) m a = elim (m a % 256 == 0) [
  | true ↦ some (add_address a 1)
  | false ↦ skip_string fuel m (add_address a 1)
]

abbrev pub address_space : ℕ
address_space = 2 ^ 32

unfoldable pub skip_zero_terminated : M (Unit {0})
unfolding skip_string
skip_zero_terminated s = elim (skip_string address_space s.mem s.object_ip) [
  | none ↦ none
  | some a ↦ some (tt, record s { object_ip = a })
]

-- `switch (Data & PRIMPAR_BYTES)` of a variable: how many bytes follow.
unfoldable pub index_bytes : ℕ → ℕ
index_bytes d = if d % 8 == 1 then 1 else if d % 8 == 2 then 2 else if d % 8 == 3 then 4 else 0

-- The index of a long variable goes to `Value`, which stays when no byte follows.
unfoldable pub fetch_index : ℕ → M (Unit {0})
fetch_index d =
    if index_bytes d == 0 then pure tt else do v ← fetch_value (index_bytes d); set_value v

-- `&pGlobal[Value]` or `&ObjectLocal[Value]`
unfoldable pub variable : ℕ → M Ptr
variable d = gets λ s. at (add_address (if bit 5 d then s.p_global else s.object_local) s.value)

-- The offset of a label relative to the instruction pointer; other label numbers stay as they are.
unfoldable pub label_value : M (Unit {0})
label_value = do
  n ← fetch
  set_value n
  modify λ s.
      let prg = s.program s.program_id in
      if ltb 0 n && ltb n max_labels
      then record s {
        value = (prg.label n + 2 ^ 32 - (s.object_ip + 2 ^ 32 - prg.p_image) % 2 ^ 32) % 2 ^ 32;
      }
      else s

-- A constant of one, two or four bytes, extended by its sign.
unfoldable pub constant_value : ℕ → M (Unit {0})
constant_value d =
    if d % 8 == 1
    then (do v ← fetch_value 1; set_value (if bit 7 v then v + 0xFFFF_FF00 else v))
    else if d % 8 == 2
    then (do v ← fetch_value 2; set_value (if bit 15 v then v + 0xFFFF_0000 else v))
    else if d % 8 == 3
    then (do v ← fetch_value 4; set_value v)
    else pure tt

unfoldable pub is_string : ℕ → Bool
is_string d = d % 8 == 0 || d % 8 == 4

unfoldable pub long_constant : ℕ → M Ptr
long_constant d =
    if bit 5 d
    then (do label_value; pure (value_at 0))
    else if is_string d
    then (do a ← gets (λ s. s.object_ip); skip_zero_terminated; pure (at a))
    else (do constant_value d; pure (value_at 0))

unfoldable pub long_variable : ℕ → M Ptr
long_variable d = do fetch_index d; variable d

-- `cMemoryGetPointer`: NULL is 0. `Handle` is a DATA16, so its pattern is below `MAX_HANDLES`
-- exactly when the number is from 0 on.
unfoldable pub memory_get_pointer : ℕ → ℕ → M ℕ
memory_get_pointer prg h =
    gets λ s. if ltb prg s.codes.max_programs && ltb h max_handles then s.pool prg h else 0

-- `cMemoryArraryPointer`: the array lies behind the 12 bytes of `DESCR`; with no pool the pointer
-- that was passed in stays.
unfoldable pub memory_array_pointer : ℕ → ℕ → Ptr → M Ptr
memory_array_pointer prg h p = do
  pool ← memory_get_pointer prg h
  pure (if pool == 0 then p else at (add_address pool 12))

-- The two ways in which a long operand refers to something else than its own value.
unfoldable pub indirect : ℕ → Ptr → M Ptr
indirect d p =
    if bit 4 d
    then (do
      h ← load 2 p
      modify (λ s. record s { handle = h })
      prg ← gets (λ s. s.program_id)
      memory_array_pointer prg h p)
    else if bit 3 d
    then (do a ← load 4 p; set_value a; pure (at a))
    else pure p

unfoldable pub short_variable : ℕ → M Ptr
short_variable d = do set_value (d % 32); variable d

-- `Value |= ~(ULONG)(PRIMPAR_VALUE)` for a negative constant
unfoldable pub short_constant : ℕ → M Ptr
short_constant d = do
  set_value (if bit 5 d then d % 64 + 0xFFFF_FFC0 else d % 64)
  pure (value_at 0)

-- The prefix of the two functions below: which bits of the first byte select what.
unfoldable pub long_operand : ℕ → M Ptr
long_operand d = do p ← (if bit 6 d then long_variable d else long_constant d); indirect d p

unfoldable pub short_operand : ℕ → M Ptr
short_operand d = if bit 6 d then short_variable d else short_constant d

unfoldable pub prim_par_pointer : M Ptr
prim_par_pointer = do
  d ← fetch
  modify (λ s. record s { handle = 0xFFFF })
  if bit 7 d then long_operand d else short_operand d

-- `ObjectIp++`, `n` times
unfoldable pub advance : ℕ → M (Unit {0})
advance zero = pure tt
advance (suc n) = do modify (λ s. record s { object_ip = add_address s.object_ip 1 }); advance n

unfoldable pub skip_operand : ℕ → M (Unit {0})
skip_operand d =
    if bit 7 d
    then if bit 6 d
      then advance (index_bytes d)
      else if bit 5 d
      then advance 1
      else if is_string d
      then skip_zero_terminated
      else advance (index_bytes d)
    else pure tt

unfoldable pub prim_par_advance : M (Unit {0})
prim_par_advance = do d ← fetch; skip_operand d

-- `*(T*)PrimParPointer()` as a signed integer, as a bit pattern, and the assignment to it.
unfoldable pub par_bits : Width → M ℕ
par_bits w = do p ← prim_par_pointer; load (size w) p

unfoldable pub par : Width → M ℤ
par w = do x ← par_bits w; pure (signed w x)

unfoldable pub put_bits : Width → ℕ → M (Unit {0})
put_bits w x = do p ← prim_par_pointer; store (size w) p x

unfoldable pub put : Width → ℤ → M (Unit {0})
put w z = put_bits w (pattern_of w z)

-- `AdjustObjectIp`: the offset is a signed 32-bit number, and adding its pattern adds it modulo
-- 2 ^ 32.
unfoldable pub adjust_object_ip : ℤ → M (Unit {0})
adjust_object_ip z =
    modify λ s. record s { object_ip = add_address s.object_ip (pattern_of data32 z) }
