-- ===== src/Move.antt =====
-- The moves of lms2012/c_move.c: between the types, where NaN stays NaN and a narrower type saturates,
-- and from and to array elements.
pub mod Convert
use lms2012_compat.Prelude.{ℕ, zero, suc, ◌-◌, if◌then◌else◌}
use lms2012_compat.Prelude.Int.{ℤ, pos, negsuc, ◌*ℤ◌, ltb_ℤ, eqb_ℤ}
use lms2012_compat.Words.{Width, data8, data16, data32, size, half}
use lms2012_compat.Vm.{Ptr, M, ◌>>=◌, ◌>>◌, pure, fault, gets, load, store, offset}
use lms2012_compat.Floats.{Floats}
use lms2012_compat.Param.{par, par_bits, put, put_bits, prim_par_pointer}

-- `DATA8_NAN`, `DATA16_NAN`, `DATA32_NAN`: the least number of the type.
abbrev pub data_nan : Width → ℤ
data_nan w = negsuc (half w - 1)

-- One round of the loop stores one byte; the C loop with a negative length runs into a signed
-- overflow.
unfoldable pub init_bytes : ℕ → Ptr → M (Unit {0})
init_bytes zero dest = pure tt
init_bytes (suc n) dest = do
  x ← par_bits data8
  store 1 dest x
  dest' ← offset dest (pos 1)
  init_bytes n dest'

unfoldable pub init_length : ℤ → Ptr → M (Unit {0})
unfolding init_bytes
init_length (pos n) dest = init_bytes n dest
init_length (negsuc n) dest = fault

unfoldable pub c_move_init_bytes : M (Unit {0})
unfolding init_length
c_move_init_bytes = do dest ← prim_par_pointer; length ← par data32; init_length length dest

-- To a wider type, and to a narrower one between its limits.
unfoldable pub widen : Width → Width → ℤ → ℤ
widen from to x = if eqb_ℤ x (data_nan from) then data_nan to else x

unfoldable pub narrow : Width → Width → ℤ → ℤ → ℤ → ℤ
narrow from to lo hi x =
    let x' = if ltb_ℤ hi x then hi else x in
    if eqb_ℤ x (data_nan from) then data_nan to else if ltb_ℤ x' lo then lo else x'

-- From a float that is no NaN: cut to the limits, then converted.
unfoldable pub narrow_float : Floats → Width → ℤ → ℤ → ℕ → ℤ
narrow_float f to lo hi x =
    let x' = if f.lt (f.of_int hi) x then f.of_int hi else x in
    let x'' = if f.lt x' (f.of_int lo) then f.of_int lo else x' in
    if f.is_nan x then data_nan to else f.to_int to x''

unfoldable pub c_move_8to8 : M (Unit {0})
c_move_8to8 = do tmp ← par data8; put data8 tmp

unfoldable pub c_move_8to16 : M (Unit {0})
c_move_8to16 = do tmp ← par data8; put data16 (widen data8 data16 tmp)

unfoldable pub c_move_8to32 : M (Unit {0})
c_move_8to32 = do tmp ← par data8; put data32 (widen data8 data32 tmp)

unfoldable pub c_move_8to_f : Floats → M (Unit {0})
c_move_8to_f f = do
  tmp ← par data8
  put_bits data32 (if eqb_ℤ tmp (data_nan data8) then f.nan else f.of_int tmp)

unfoldable pub c_move_16to8 : M (Unit {0})
c_move_16to8 = do
  tmp ← par data16
  lo ← gets (λ s. s.codes.data_min data8)
  hi ← gets (λ s. s.codes.data_max data8)
  put data8 (narrow data16 data8 lo hi tmp)

unfoldable pub c_move_16to16 : M (Unit {0})
c_move_16to16 = do tmp ← par data16; put data16 tmp

unfoldable pub c_move_16to32 : M (Unit {0})
c_move_16to32 = do tmp ← par data16; put data32 (widen data16 data32 tmp)

unfoldable pub c_move_16to_f : Floats → M (Unit {0})
c_move_16to_f f = do
  tmp ← par data16
  put_bits data32 (if eqb_ℤ tmp (data_nan data16) then f.nan else f.of_int tmp)

unfoldable pub c_move_32to8 : M (Unit {0})
c_move_32to8 = do
  tmp ← par data32
  lo ← gets (λ s. s.codes.data_min data8)
  hi ← gets (λ s. s.codes.data_max data8)
  put data8 (narrow data32 data8 lo hi tmp)

unfoldable pub c_move_32to16 : M (Unit {0})
c_move_32to16 = do
  tmp ← par data32
  lo ← gets (λ s. s.codes.data_min data16)
  hi ← gets (λ s. s.codes.data_max data16)
  put data16 (narrow data32 data16 lo hi tmp)

unfoldable pub c_move_32to32 : M (Unit {0})
c_move_32to32 = do tmp ← par data32; put data32 tmp

unfoldable pub c_move_32to_f : Floats → M (Unit {0})
c_move_32to_f f = do
  tmp ← par data32
  put_bits data32 (if eqb_ℤ tmp (data_nan data32) then f.nan else f.of_int tmp)

unfoldable pub c_move_f_to8 : Floats → M (Unit {0})
c_move_f_to8 f = do
  tmp ← par_bits data32
  lo ← gets (λ s. s.codes.data_min data8)
  hi ← gets (λ s. s.codes.data_max data8)
  put data8 (narrow_float f data8 lo hi tmp)

unfoldable pub c_move_f_to16 : Floats → M (Unit {0})
c_move_f_to16 f = do
  tmp ← par_bits data32
  lo ← gets (λ s. s.codes.data_min data16)
  hi ← gets (λ s. s.codes.data_max data16)
  put data16 (narrow_float f data16 lo hi tmp)

unfoldable pub c_move_f_to32 : Floats → M (Unit {0})
c_move_f_to32 f = do
  tmp ← par_bits data32
  lo ← gets (λ s. s.codes.data_min data32)
  hi ← gets (λ s. s.codes.data_max data32)
  put data32 (narrow_float f data32 lo hi tmp)

unfoldable pub c_move_f_to_f : M (Unit {0})
c_move_f_to_f = do tmp ← par_bits data32; put_bits data32 tmp

-- `pTmp[Index]`
unfoldable pub element : Width → Ptr → ℤ → M Ptr
element w p index = offset p (index *ℤ pos (size w))

-- The element is read before the destination is decoded; C leaves that order open.
unfoldable pub read_element : Width → M (Unit {0})
unfolding element
read_element w = do
  p ← prim_par_pointer
  index ← par data8
  e ← element w p index
  x ← load (size w) e
  put_bits w x

unfoldable pub write_element : Width → M (Unit {0})
unfolding element
write_element w = do
  x ← par_bits w
  index ← par data8
  p ← prim_par_pointer
  e ← element w p index
  store (size w) e x

unfoldable pub c_move_read8 : M (Unit {0})
unfolding read_element
c_move_read8 = read_element data8

unfoldable pub c_move_write8 : M (Unit {0})
unfolding write_element
c_move_write8 = write_element data8

unfoldable pub c_move_read16 : M (Unit {0})
unfolding read_element
c_move_read16 = read_element data16

unfoldable pub c_move_write16 : M (Unit {0})
unfolding write_element
c_move_write16 = write_element data16

unfoldable pub c_move_read32 : M (Unit {0})
unfolding read_element
c_move_read32 = read_element data32

unfoldable pub c_move_write32 : M (Unit {0})
unfolding write_element
c_move_write32 = write_element data32

unfoldable pub c_move_read_f : M (Unit {0})
unfolding read_element
c_move_read_f = read_element data32

unfoldable pub c_move_write_f : M (Unit {0})
unfolding write_element
c_move_write_f = write_element data32
