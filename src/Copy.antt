-- ===== src/Copy.antt =====
-- The copying of sub call parameters in lms2012/lms2012.c, `CopyParsToLocals` and `CopyLocalsToPars`,
-- between the caller's operands and the called object's locals. Option PAR_ALIGNMENT is on: locals of
-- two and four bytes are aligned.
pub mod Slots
use lms2012_compat.Prelude.{ℕ, zero, suc, ◌-◌, ◌*◌, ◌/◌, ◌%◌, ◌==◌, if◌then◌else◌}
use lms2012_compat.Prelude.Int.{pos, negsuc}
use lms2012_compat.Words.{data16, bit}
use lms2012_compat.Vm.{
  Ptr, at, value_at, fault, running, stopped, halted, stopbreak, busybreak, M, ◌>>=◌, ◌>>◌, pure,
  gets, modify, add_address, load, store, offset,
}
use lms2012_compat.Param.{prim_par_pointer, par_bits}
use lms2012_compat.Dispatch.{set_dispatch_status, get_object_ip, set_object_ip, previous}
use lms2012_compat.Objects.{get_obj, set_obj, object_reset, is_stopped}

-- The types of a parameter, `CALLPAR_TYPE` of its byte in the preamble of the called code.
pub data ParType : Type 0 where
  data_8 data_16 data_32 data_f data_s other : ParType

unfoldable pub par_type : ℕ → ParType
par_type t =
    if t % 8 == 0
    then data_8
    else if t % 8 == 1
    then data_16
    else if t % 8 == 2
    then data_32
    else if t % 8 == 3
    then data_f
    else if t % 8 == 4
    then data_s
    else other

-- `(pLocals + 1) & ~1` and `(pLocals + 3) & ~3`
abbrev pub align : ℕ → ℕ → ℕ
align n a = add_address a (n - 1) / n * n

-- The two running pointers of the copying loops: the called object's locals, and the preamble.
pub record Cursor : Type 0 where
  pub p_locals : ℕ
  pub type_ip : ℕ

-- `*(IMGDATA*)TypeIp++`
unfoldable pub next_type : Cursor → M (ℕ × Cursor)
next_type c = gets λ s. (s.mem c.type_ip % 256, record c { type_ip = add_address c.type_ip 1 })

-- One value of `n` bytes goes in or out, and the locals move on.
unfoldable pub copy_in : ℕ → Ptr → Cursor → M Cursor
copy_in n p c = do
  let a = align n c.p_locals
  x ← load n p
  store n (at a) x
  pure (record c { p_locals = add_address a n })

unfoldable pub copy_out : ℕ → Ptr → Cursor → M Cursor
copy_out n p c = do
  let a = align n c.p_locals
  x ← load n (at a)
  store n p x
  pure (record c { p_locals = add_address a n })

unfoldable pub skip_slot : ℕ → Cursor → M Cursor
skip_slot n c = pure (record c { p_locals = add_address (align n c.p_locals) n })

-- The string loops: after the first zero only zeros are written. They return both pointers.
unfoldable pub copy_string : ℕ → ℕ → Ptr → Ptr → M (Ptr × Ptr)
copy_string zero flag from to = pure (from, to)
copy_string (suc size) flag from to = do
  x ← (if flag == 0 then pure 0 else load 1 from)
  store 1 to x
  from' ← offset from (pos 1)
  to' ← offset to (pos 1)
  copy_string size x from' to'

-- The byte before the pointer becomes the terminator.
unfoldable pub terminate : Ptr → M (Unit {0})
terminate p = do last ← offset p (negsuc 0); store 1 last 0

-- `pLocals` points into memory.
abbrev pub address_of : Ptr → M ℕ
address_of (at a) = pure a
address_of (value_at k) = fault

-- The last byte of the locals becomes the terminator: a step back, and one forward.
unfoldable pub string_in : Ptr → Cursor → M Cursor
unfolding next_type copy_string
string_in p c = do
  (size, c') ← next_type c
  (from, to) ← copy_string size 1 p (at c'.p_locals)
  last ← offset to (negsuc 0)
  store 1 last 0
  next ← offset last (pos 1)
  locals ← address_of next
  pure (record c' { p_locals = locals })

unfoldable pub string_out : Ptr → Cursor → M Cursor
unfolding next_type copy_string terminate
string_out p c = do
  (size, c') ← next_type c
  (from, to) ← copy_string size 1 (at c'.p_locals) p
  terminate to
  locals ← address_of from
  pure (record c' { p_locals = locals })

unfoldable pub string_skip : Cursor → M Cursor
unfolding next_type
string_skip c = do
  (size, c') ← next_type c
  pure (record c' { p_locals = add_address c'.p_locals size })

unfoldable pub slot_in : ParType → Ptr → Cursor → M Cursor
unfolding copy_in string_in
slot_in data_8 p c = copy_in 1 p c
slot_in data_16 p c = copy_in 2 p c
slot_in data_32 p c = copy_in 4 p c
slot_in data_f p c = copy_in 4 p c
slot_in data_s p c = string_in p c
slot_in other p c = pure c

unfoldable pub slot_out : ParType → Ptr → Cursor → M Cursor
unfolding copy_out string_out
slot_out data_8 p c = copy_out 1 p c
slot_out data_16 p c = copy_out 2 p c
slot_out data_32 p c = copy_out 4 p c
slot_out data_f p c = copy_out 4 p c
slot_out data_s p c = string_out p c
slot_out other p c = pure c

unfoldable pub slot_skip : ParType → Cursor → M Cursor
unfolding skip_slot string_skip
slot_skip data_8 c = skip_slot 1 c
slot_skip data_16 c = skip_slot 2 c
slot_skip data_32 c = skip_slot 4 c
slot_skip data_f c = skip_slot 4 c
slot_skip data_s c = string_skip c
slot_skip other c = pure c

-- One parameter on the way in (`CALLPAR_IN` is bit 7, `CALLPAR_OUT` bit 6), and on the way out.
unfoldable pub par_in : Cursor → M Cursor
unfolding next_type par_type slot_in slot_skip
par_in c = do
  (t, c') ← next_type c
  p ← prim_par_pointer
  if bit 7 t
      then slot_in (par_type t) p c'
      else if bit 6 t
      then slot_skip (par_type t) c'
      else pure c'

unfoldable pub par_out : Cursor → M Cursor
unfolding next_type par_type slot_out slot_skip
par_out c = do
  (t, c') ← next_type c
  p ← prim_par_pointer
  if bit 6 t
      then slot_out (par_type t) p c'
      else if bit 7 t
      then slot_skip (par_type t) c'
      else pure c'

-- `while (NoOfPars--)`
unfoldable pub pars_in : ℕ → Cursor → M Cursor
unfolding par_in
pars_in zero c = pure c
pars_in (suc n) c = do c' ← par_in c; pars_in n c'

unfoldable pub pars_out : ℕ → Cursor → M Cursor
unfolding par_out
pars_out zero c = pure c
pars_out (suc n) c = do c' ← par_out c; pars_out n c'
