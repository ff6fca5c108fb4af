-- ===== src/Param/RoundTrip.antt =====
-- `PrimParPointer` reads the operands that the macros write.
use lms2012_compat.Prelude.{
  ℕ, ◌^◌, ◌<◌, ◌≡◌, refl, ◌∙◌, suc, some, arith, List, [], ◌∷◌, ◌++◌, length,
}
use lms2012_compat.Prelude.Int.{pos, negsuc}
use lms2012_compat.Words.{Width, data8, data16, data32, size}
use lms2012_compat.Vm.{Vm, add_address, load, store, store_bytes}
use lms2012_compat.Vm.Run.{>>=-some}
use lms2012_compat.Param.{
  fetch, fetch_value, set_value, index_bytes, fetch_index, variable, constant_value, is_string,
  long_constant, long_variable, indirect, short_variable, short_constant, long_operand,
  short_operand, prim_par_pointer, par_bits, par, put_bits,
}
use lms2012_compat.Param.Encode.{
  Operand, lc0, lc1, lc2, lc4, lv0, lv1, lv2, lv4, gv0, gv1, gv2, gv4, encode, Fits, Holds,
  pointer_of, after_operand, operand_bits, operand, IsVariable,
}

-- Where the bytes of an encoded operand that fits its form stand at the instruction pointer, decoding
-- yields the pointer and the value that the operand means, moves the instruction pointer behind those
-- bytes, sets `Handle` to -1, and changes nothing else.
pub prim_par_pointer-encode :
    (o : Operand) (s : Vm)
    → Fits o
    → Holds s.mem s.object_ip (encode o)
    → prim_par_pointer s ≡ some (pointer_of s o, after_operand s o)
unfolding prim_par_pointer fetch long_operand short_operand long_constant short_constant
    long_variable short_variable variable fetch_index is_string constant_value fetch_value indirect
    set_value encode index_bytes
prim_par_pointer-encode (lc0 (pos n)) s f h = rw h.0 (ground arith)
prim_par_pointer-encode (lc0 (negsuc n)) s f h = rw h.0 (ground arith)
prim_par_pointer-encode (lc1 (pos n)) s f h = rw h.0 (ground arith)
prim_par_pointer-encode (lc1 (negsuc n)) s f h = rw h.0 (ground arith)
prim_par_pointer-encode (lc2 (pos n)) s f h = rw h.0 (ground arith)
prim_par_pointer-encode (lc2 (negsuc n)) s f h = rw h.0 (ground arith)
prim_par_pointer-encode (lc4 (pos n)) s f h = rw h.0 (ground arith)
prim_par_pointer-encode (lc4 (negsuc n)) s f h = rw h.0 (ground arith)
prim_par_pointer-encode (lv0 i) s f h = rw h.0 (ground arith)
prim_par_pointer-encode (lv1 i) s f h = rw h.0 (ground arith)
prim_par_pointer-encode (lv2 i) s f h = rw h.0 (ground arith)
prim_par_pointer-encode (lv4 i) s f h = rw h.0 (ground arith)
prim_par_pointer-encode (gv0 i) s f h = rw h.0 (ground arith)
prim_par_pointer-encode (gv1 i) s f h = rw h.0 (ground arith)
prim_par_pointer-encode (gv2 i) s f h = rw h.0 (ground arith)
prim_par_pointer-encode (gv4 i) s f h = rw h.0 (ground arith)

load-operand :
    (w : Width) (o : Operand) (s : Vm)
    → load (size w) (pointer_of s o) (after_operand s o)
      ≡ some (operand_bits w s o, after_operand s o)
unfolding load
load-operand data8 (lc0 z) s = ground arith
load-operand data16 (lc0 z) s = ground arith
load-operand data32 (lc0 z) s = ground arith
load-operand data8 (lc1 z) s = ground arith
load-operand data16 (lc1 z) s = ground arith
load-operand data32 (lc1 z) s = ground arith
load-operand data8 (lc2 z) s = ground arith
load-operand data16 (lc2 z) s = ground arith
load-operand data32 (lc2 z) s = ground arith
load-operand data8 (lc4 z) s = ground arith
load-operand data16 (lc4 z) s = ground arith
load-operand data32 (lc4 z) s = ground arith
load-operand w (lv0 z) s = refl
load-operand w (lv1 z) s = refl
load-operand w (lv2 z) s = refl
load-operand w (lv4 z) s = refl
load-operand w (gv0 z) s = refl
load-operand w (gv1 z) s = refl
load-operand w (gv2 z) s = refl
load-operand w (gv4 z) s = refl

-- So an operand is read as what it means, at each type.
pub par_bits-encode :
    (w : Width) (o : Operand) (s : Vm)
    → Fits o
    → Holds s.mem s.object_ip (encode o)
    → par_bits w s ≡ some (operand_bits w s o, after_operand s o)
unfolding par_bits
par_bits-encode w o s f h =
    >>=-some prim_par_pointer _ (prim_par_pointer-encode o s f h) ∙ load-operand w o s

pub par-encode :
    (w : Width) (o : Operand) (s : Vm)
    → Fits o
    → Holds s.mem s.object_ip (encode o)
    → par w s ≡ some (operand w s o, after_operand s o)
unfolding par
par-encode w o s f h = >>=-some (par_bits w) _ (par_bits-encode w o s f h)

pub put_bits-encode :
    (w : Width) (o : Operand) (s : Vm) (x a : ℕ)
    → Fits o
    → Holds s.mem s.object_ip (encode o)
    → IsVariable s o a
    → put_bits w x s
      ≡ some (tt, record (after_operand s o) { mem = store_bytes (size w) s.mem a x })
unfolding put_bits store
put_bits-encode w o s x a f h v =
    >>=-some prim_par_pointer _ (prim_par_pointer-encode o s f h) ∙ rw v

-- A sequence of bytes holds in its parts.
pub Holds-append :
    (m : ℕ → ℕ) (a : ℕ) (xs ys : List ℕ)
    → a < 2 ^ 32
    → Holds m a (xs ++ ys)
    → Holds m a xs × Holds m (add_address a (length xs)) ys
Holds-append m a [] ys l h = (tt, let e : a ≡ add_address a 0 = omega arith in rw e at h)
Holds-append m a (x ∷ xs) ys l h =
    let r = Holds-append m (add_address a 1) xs ys (omega arith) h.1 in
    let e : add_address (add_address a 1) (length xs) ≡ add_address a (suc (length xs)) =
      omega arith in
    ((h.0, r.0), rw e at r.1)
