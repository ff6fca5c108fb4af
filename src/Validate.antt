-- ===== src/Validate.antt =====
-- The check of a program's image before it runs, in lms2012/validate.c.in: `cValidateCheckAlignment` and
-- `cValidateBytecode`, which walks the operands of one byte code. The tables of op-codes that a
-- generator writes are a parameter; the image is the list of the bytes that may be read.
pub mod Advance
pub mod Ends
pub mod Forward
pub mod Lenient
pub mod Program
pub mod ProgramEnds
pub mod Sound
pub mod Starts
use lms2012_compat.Prelude.{
  ℕ, zero, suc, ◌+◌, ◌-◌, ◌*◌, ◌/◌, ◌%◌, ◌^◌, Bool, true, false, not, ◌&&◌, ◌||◌, ◌==◌, ltb, leb,
  if◌then◌else◌, Option, none, some, List, [], ◌∷◌, get_elem?, drop,
}
use lms2012_compat.Prelude.Options.{◌>>=◌}
use lms2012_compat.Prelude.Int.{ℤ, pos, negsuc, leb_ℤ}
use lms2012_compat.Words.{data8, data32, signed, bit}
use lms2012_compat.Vm.{Result, ok, fail, stop}
use lms2012_compat.Param.{index_bytes, is_string, max_labels}

-- The outcome of a run: the fuel of a loop is used up, the behaviour is undefined (a byte outside the
-- image is read, or a table is read outside its bounds), or there is a result.
pub data Run {ℓ} (A : Type ℓ) : Type ℓ where
  out_of_fuel undefined : Run A
  returns : A → Run A

-- What the generator writes: the parameters of an op-code and of a sub code, if it exists; the op-codes
-- that are treated apart; PAR8 to PARV, CALLPAR_STRING; ParMin and ParMax of a type; and the test of a
-- float constant against DATAF_MIN and DATAF_MAX.
pub record Tables : Type 0 where
  pub op_pars : ℕ → Option ℕ
  pub sub_pars : ℕ → ℕ → Option ℕ
  pub op_error : ℕ
  pub op_object_end : ℕ
  pub par8 : ℕ
  pub par16 : ℕ
  pub par32 : ℕ
  pub parf : ℕ
  pub parv : ℕ
  pub call_string : ℕ
  pub par_min : ℕ → ℤ
  pub par_max : ℕ → ℤ
  pub float_in_range : ℕ → Bool

-- SUBP, PARNO, PARLAB, PARVALUES, PAR and MAX_SUBCODES
abbrev pub subp : ℕ
subp = 1

abbrev pub parno : ℕ
parno = 2

abbrev pub parlab : ℕ
parlab = 3

abbrev pub parvalues : ℕ
parvalues = 4

abbrev pub par_plain : ℕ
par_plain = 8

abbrev pub max_subcodes : ℕ
max_subcodes = 33

-- `cValidateCheckAlignment`: is the index of a variable right for its type?
unfoldable pub check_alignment : Tables → ℕ → ℕ → Bool
check_alignment t value type =
    if type == t.par16
    then value % 2 == 0
    else if type == t.par32 || type == t.parf
    then value % 4 == 0
    else true

-- `pI[i] & 0xFF`
abbrev pub low_byte : ℕ → ℕ
low_byte b = b % 256

unfoldable pub image_byte : List ℕ → ℕ → Option ℕ
image_byte [] i = none
image_byte (b ∷ bs) zero = some (low_byte b)
image_byte (b ∷ bs) (suc i) = image_byte bs i

-- `n` bytes, the lowest first, and the index behind them.
unfoldable pub image_value : ℕ → List ℕ → ℕ → Option (ℕ × ℕ)
unfolding image_byte
image_value zero xs i = some (0, i)
image_value (suc n) xs i = do
  b ← image_byte xs i
  r ← image_value n xs (i + 1)
  some (b + 256 * r.0, r.1)

-- `while (pI[*pIndex]) (*pIndex)++; (*pIndex)++`, on the rest of the image
unfoldable pub skip_text : List ℕ → ℕ → Option ℕ
skip_text [] i = none
skip_text (b ∷ bs) i = if b % 256 == 0 then some (i + 1) else skip_text bs (i + 1)

-- "Adjust if negative", for constants of one and of two bytes
abbrev pub extend_sign : ℕ → ℕ → ℕ
extend_sign n v =
    if n == 1 && bit 7 v then v + 0xFFFF_FF00 else if n == 2 && bit 15 v then v + 0xFFFF_0000 else v

unfoldable pub extended : ℕ → Option (ℕ × ℕ) → Option (ℕ × ℕ)
extended n none = none
extended n (some (v, j)) = some (extend_sign n v, j)

unfoldable pub text_value : Option ℕ → Option (ℕ × ℕ)
text_value none = none
text_value (some j) = some (0, j)

abbrev pub short_value : ℕ → ℕ
short_value code = if not (bit 6 code) && bit 5 code then code % 64 + 0xFFFF_FFC0 else code % 64

-- "Calculate parameter value": the value of the operand whose first byte is `code`, and the index behind
-- the operand.
unfoldable pub parameter_value : List ℕ → ℕ → ℕ → Option (ℕ × ℕ)
unfolding image_value skip_text extended text_value index_bytes is_string
parameter_value xs code i =
    if not (bit 7 code)
    then some (short_value code, i)
    else if bit 6 code
    then image_value (index_bytes code) xs i
    else if bit 5 code
    then extended 1 (image_value 1 xs i)
    else if is_string code
    then text_value (skip_text (drop i xs) i)
    else extended (index_bytes code) (image_value (index_bytes code) xs i)

-- An operand: its first byte `ParCode`, its value, and the index behind it.
pub record Parameter : Type 0 where
  pub code : ℕ
  pub value : ℕ
  pub next : ℕ

unfoldable pub read_operand : List ℕ → ℕ → Option Parameter
unfolding image_byte parameter_value
read_operand xs i = do
  code ← image_byte xs i
  r ← parameter_value xs code (i + 1)
  some (record { code = code; value = r.0; next = r.1 })

-- The variables of the loop over the parameters. `last_value` is what `pParValue` points to, which is
-- nowhere before the first operand; `labels` is `pLabel[n].Addr`.
pub record Walk : Type 0 where
  pub index : ℕ
  pub pars : ℕ
  pub last_value : Option ℕ
  pub result : Result
  pub aligned : Bool
  pub parameters : ℕ
  pub par_no : Bool
  pub labels : ℕ → ℕ

abbrev pub in_range : Tables → ℕ → ℕ → Bool
in_range t type value =
    leb t.par8 type
    && leb type t.par32
    && leb_ℤ (t.par_min type) (signed data32 value)
    && leb_ℤ (signed data32 value) (t.par_max type)

-- The sub command: one that does not exist has no parameters, and keeps the result of the operand before
-- it. A negative one reads outside the table.
abbrev pub with_sub_pars : Option ℕ → Walk → Walk
with_sub_pars none w = record w { pars = 0 }
with_sub_pars (some p) w = record w { pars = p; result = ok }

unfoldable pub sub_command_at : Tables → ℤ → Walk → Option Walk
sub_command_at t (negsuc n) w = none
sub_command_at t (pos n) w =
    if ltb n max_subcodes
    then some (with_sub_pars (t.sub_pars (w.pars / 16 % 16) n) w)
    else some (record w { pars = 0 })

abbrev pub sub_command : Tables → Walk → Option Walk
sub_command t w = do v ← w.last_value; sub_command_at t (signed data8 (v % 256)) w

-- The values behind a count of values, of the type `type`. A negative count does not end inside any
-- image.
abbrev pub value_fits : Tables → ℕ → ℕ → Bool
value_fits t type value =
    in_range t type value || (type == t.parf && t.float_in_range value) || type == t.parv

abbrev pub after_value : Tables → ℕ → Parameter → Walk → Walk
after_value t type o w = record w {
  index = o.next;
  last_value = some o.value;
  aligned = true;
  result = if value_fits t type o.value then ok else w.result;
}

unfoldable pub check_values : Tables → List ℕ → ℕ → ℕ → Walk → Option Walk
unfolding read_operand
check_values t xs type zero w = some (record w { pars = 0 })
check_values t xs type (suc n) w = do
  o ← read_operand xs w.index
  check_values t xs type n (after_value t type o w)

unfoldable pub check_count : Tables → List ℕ → ℤ → Walk → Option Walk
unfolding check_values
check_count t xs (negsuc n) w = none
check_count t xs (pos n) w = check_values t xs (w.pars / 16 % 16) n w

abbrev pub parameter_values : Tables → List ℕ → Walk → Option Walk
parameter_values t xs w = do v ← w.last_value; check_count t xs (signed data32 v) w

-- Is the operand good as a parameter of this type? A variable is; of the constants those of the integer
-- types must be in range.
abbrev pub parameter_fits : Tables → ℕ → Parameter → Bool
parameter_fits t type o =
    bit 6 o.code || in_range t type o.value || type == t.parf || type == t.parv

abbrev pub is_count : Tables → ℕ → Parameter → Bool
is_count t type o =
    type == parno
    && not (bit 6 o.code)
    && leb_ℤ (pos 0) (signed data32 o.value)
    && leb_ℤ (signed data32 o.value) (t.par_max t.par8)

abbrev pub is_label : ℕ → Parameter → Bool
is_label type o = type == parlab && not (bit 6 o.code) && ltb o.value max_labels

-- "Check allocation": a variable that is not behind a number of parameters
abbrev pub is_allocated : Tables → ℕ → Parameter → Bool → Bool
is_allocated t type o counted =
    if counted || not (bit 6 o.code)
    then true
    else check_alignment t o.value (if bit 7 o.code && bit 4 o.code then t.par16 else type)

-- "Next parameter"
abbrev pub next_parameter : Tables → Walk → Walk
next_parameter t w =
    if w.parameters == 0
    then record w { pars = w.pars / 16 }
    else record w { pars = t.par32; parameters = w.parameters - 1 }

unfoldable pub after_parameter : Tables → ℕ → Parameter → Walk → Walk
unfolding check_alignment
after_parameter t type o w =
    let counted = w.par_no || type == parno in
    next_parameter t (record w {
      index = o.next;
      last_value = some o.value;
      result =
          if parameter_fits t type o || is_count t type o || is_label type o then ok else w.result;
      parameters = if is_count t type o then o.value % 256 else w.parameters;
      par_no = counted;
      aligned = is_allocated t type o counted;
      labels = λ n. if is_label type o && n == o.value then o.next else w.labels n;
    })

abbrev pub is_parameter : ℕ → Bool
is_parameter type = leb par_plain type || type == parno || type == parlab

unfoldable pub check_parameter : Tables → List ℕ → ℕ → Walk → Option Walk
unfolding read_operand after_parameter
check_parameter t xs type w = do o ← read_operand xs w.index; some (after_parameter t type o w)

-- The body of the loop for the type in the lowest nibble of `pars`. The tests of the source exclude one
-- another.
unfoldable pub check_type : Tables → List ℕ → ℕ → Walk → Option Walk
unfolding sub_command_at check_count check_parameter
check_type t xs type w =
    if type == 0
    then some (record w { result = ok })
    else if type == subp
    then sub_command t w
    else if type == parvalues
    then parameter_values t xs w
    else if is_parameter type
    then check_parameter t xs type w
    else some w

abbrev pub is_ok : Result → Bool
is_ok ok = true
is_ok _ = false

-- `if (Aligned != OK) Result = FAIL`
abbrev pub settle : Walk → Walk
settle w = record w { result = if w.aligned then w.result else fail }

-- The test of the loop, after a body for the type `type`
unfoldable pub go_on : ℕ → (Walk → Run Walk) → Option Walk → Run Walk
go_on type rest none = undefined
go_on type rest (some w) =
    if not (type == 0) && is_ok (settle w).result then rest (settle w) else returns (settle w)

unfoldable pub check_parameters : ℕ → Tables → List ℕ → Walk → Run Walk
unfolding check_type go_on
check_parameters zero t xs w = out_of_fuel
check_parameters (suc fuel) t xs w =
    go_on (w.pars % 16) (check_parameters fuel t xs) (check_type t xs (w.pars % 16) w)

-- What `cValidateBytecode` returns, and what it leaves in `*pIndex` and `pLabel`.
pub record Checked : Type 0 where
  pub outcome : Result
  pub after : ℕ
  pub found : ℕ → ℕ

abbrev pub checked : Run Walk → Run Checked
checked out_of_fuel = out_of_fuel
checked undefined = undefined
checked (returns w) = returns (record { outcome = w.result; after = w.index; found = w.labels })

abbrev pub first_walk : ℕ → ℕ → (ℕ → ℕ) → Walk
first_walk i pars labels = record {
  index = i;
  pars = pars;
  last_value = none;
  result = fail;
  aligned = true;
  parameters = 0;
  par_no = false;
  labels = labels;
}

-- The number of rounds that the parameters of an op-code take at most.
abbrev pub enough_rounds : ℕ
enough_rounds = 4000

-- The byte code `op`, whose parameters are given, at `i`
unfoldable pub check_op_code : Tables → List ℕ → ℕ → (ℕ → ℕ) → ℕ → Option ℕ → Run Checked
unfolding check_parameters
check_op_code t xs i labels op none = returns (record { outcome = fail; after = i; found = labels })
check_op_code t xs i labels op (some pars) =
    if op == t.op_error || op == t.op_object_end
    then returns (record {
      outcome = if op == t.op_object_end then stop else fail;
      after = i + 1;
      found = labels;
    })
    else checked (check_parameters enough_rounds t xs (first_walk (i + 1) pars labels))

unfoldable pub check_byte_code : Tables → List ℕ → ℕ → (ℕ → ℕ) → Option ℕ → Run Checked
unfolding check_op_code
check_byte_code t xs i labels none = undefined
check_byte_code t xs i labels (some op) = check_op_code t xs i labels op (t.op_pars op)

unfoldable pub validate_bytecode : Tables → List ℕ → ℕ → (ℕ → ℕ) → Run Checked
unfolding image_byte check_byte_code
validate_bytecode t xs i labels = check_byte_code t xs i labels (image_byte xs i)
