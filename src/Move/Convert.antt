-- ===== src/Move/Convert.antt =====
-- The moves between the integer types of lms2012/c_move.c as conversions of numbers or NaN.
use lms2012_compat.Prelude.{
  ℕ, ◌^◌, ◌<◌, ◌≡◌, ◌≢◌, refl, ◌∙◌, ap, ltb, if◌then◌else◌, Option, none, some, ◌++◌, arith,
}
use lms2012_compat.Prelude.Int.{ℤ, pos, negsuc, neg_part, ◌≤ℤ◌, ltb_ℤ, eqb_ℤ}
use lms2012_compat.Words.{Width, data8, data16, data32, size, half, signed, InRange}
use lms2012_compat.Vm.{Vm, Codes, M, ◌>>=◌, gets, load_bytes}
use lms2012_compat.Vm.Run.{>>=-some}
use lms2012_compat.Param.{par, put}
use lms2012_compat.Param.Encode.{
  Operand, encode, Fits, Holds, after_operand, operand, pointer_of, value_of, IsVariable,
}
use lms2012_compat.Param.RoundTrip.{par-encode, put_bits-encode, Holds-append}
use lms2012_compat.Param.Instruction.{pointer_of-after}
use lms2012_compat.Arith.Exact.{signed-store_bytes}
use lms2012_compat.Arith.Division.{bits_at-InRange}
use lms2012_compat.Move.{
  data_nan, widen, narrow, c_move_8to8, c_move_8to16, c_move_8to32, c_move_16to8, c_move_16to16,
  c_move_16to32, c_move_32to8, c_move_32to16, c_move_32to32,
}

abbrev pub move : Width → Width → M (Unit {0})
move data8 data8 = c_move_8to8
move data8 data16 = c_move_8to16
move data8 data32 = c_move_8to32
move data16 data8 = c_move_16to8
move data16 data16 = c_move_16to16
move data16 data32 = c_move_16to32
move data32 data8 = c_move_32to8
move data32 data16 = c_move_32to16
move data32 data32 = c_move_32to32

-- What an integer of the type stands for: none is NaN.
abbrev pub meaning : Width → ℤ → Option ℤ
meaning w z = if eqb_ℤ z (data_nan w) then none else some z

-- The nearest number between two limits.
abbrev pub clamp : ℤ → ℤ → ℤ → ℤ
clamp lo hi z = if ltb_ℤ hi z then hi else if ltb_ℤ z lo then lo else z

-- What a move to a type should do: NaN stays NaN, and a number is cut to the limits of a narrower type.
abbrev pub expected : Codes → Width → Width → Option ℤ → Option ℤ
expected c from to none = none
expected c from to (some z) =
    some (if ltb (size to) (size from) then clamp (c.data_min to) (c.data_max to) z else z)

-- The limits are numbers of the type, and in order.
pub record IsLimit (c : Codes) (w : Width) : Type 0 where
  pub min_range : InRange w (c.data_min w)
  pub max_range : InRange w (c.data_max w)
  pub min_number : c.data_min w ≢ data_nan w
  pub ordered : c.data_min w ≤ℤ c.data_max w

convert : Codes → Width → Width → ℤ → ℤ
convert c data8 data8 z = z
convert c data8 data16 z = widen data8 data16 z
convert c data8 data32 z = widen data8 data32 z
convert c data16 data8 z = narrow data16 data8 (c.data_min data8) (c.data_max data8) z
convert c data16 data16 z = z
convert c data16 data32 z = widen data16 data32 z
convert c data32 data8 z = narrow data32 data8 (c.data_min data8) (c.data_max data8) z
convert c data32 data16 z = narrow data32 data16 (c.data_min data16) (c.data_max data16) z
convert c data32 data32 z = z

move-convert :
    (from to : Width)
    → move from to ≡ (do z ← par from; c ← gets (λ s. s.codes); put to (convert c from to z))
unfolding convert c_move_8to8 c_move_8to16 c_move_8to32 c_move_16to8 c_move_16to16 c_move_16to32
    c_move_32to8 c_move_32to16 c_move_32to32
move-convert data8 data8 = refl
move-convert data8 data16 = refl
move-convert data8 data32 = refl
move-convert data16 data8 = refl
move-convert data16 data16 = refl
move-convert data16 data32 = refl
move-convert data32 data8 = refl
move-convert data32 data16 = refl
move-convert data32 data32 = refl

not_least : (w : Width) (z : ℤ) → InRange w z → z ≢ data_nan w → neg_part z < half w
not_least w (pos n) r h = omega arith
not_least data8 (negsuc n) r h = ground arith
not_least data16 (negsuc n) r h = ground arith
not_least data32 (negsuc n) r h = ground arith

convert_lem :
    (c : Codes) (from to : Width) (z : ℤ)
    → IsLimit c to
    → InRange from z
    → InRange to (convert c from to z)
      × (meaning to (convert c from to z) ≡ expected c from to (meaning from z))
unfolding convert widen narrow
convert_lem c data8 data8 z l r =
    ground (arith, not_least data8 (c.data_min data8) l.min_range l.min_number)
convert_lem c data8 data16 z l r = ground (arith)
convert_lem c data8 data32 z l r = ground (arith)
convert_lem c data16 data8 z l r =
    ground (arith, not_least data8 (c.data_min data8) l.min_range l.min_number)
convert_lem c data16 data16 z l r = ground (arith)
convert_lem c data16 data32 z l r = ground (arith)
convert_lem c data32 data8 z l r =
    ground (arith, not_least data8 (c.data_min data8) l.min_range l.min_number)
convert_lem c data32 data16 z l r =
    ground (arith, not_least data16 (c.data_min data16) l.min_range l.min_number)
convert_lem c data32 data32 z l r = ground (arith)

-- A move between integer types, of an encoded operand to an encoded variable that stands behind it,
-- returns. What the variable then holds, read as a number or NaN of its type, is the operand's number
-- or NaN; a number is cut to the limits of a narrower type. The limits are numbers of the type.
pub move_lem :
    (from to : Width) (s : Vm) (x z : Operand) (a : ℕ)
    → Fits x
    → Fits z
    → s.object_ip < 2 ^ 32
    → Holds s.mem s.object_ip (encode x ++ encode z)
    → IsVariable s z a
    → IsLimit s.codes to
    → (t : Vm) × (move from to s ≡ some (tt, t))
      × (meaning to (signed to (load_bytes (size to) t.mem a))
          ≡ expected s.codes from to (meaning from (operand from s x)))
unfolding put
move_lem from to s x z a fx fz small h v l =
    let (hx, hz) = Holds-append s.mem s.object_ip (encode x) (encode z) small h in
    let (r, m) =
      convert_lem s.codes from to (operand from s x) l
        (bits_at-InRange from s.mem (value_of x) (pointer_of s x)) in
    let back = signed-store_bytes to s.mem a (convert s.codes from to (operand from s x)) r in
    (
      _,
      ap (λ (f : M (Unit {0})). f s) (move-convert from to)
          ∙ >>=-some (par from) _ (par-encode from x s fx hx)
          ∙ put_bits-encode to z (after_operand s x) _ a fz hz (pointer_of-after s x z ∙ v),
      rw back m,
    )
