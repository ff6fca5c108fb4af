-- ===== src/Validate/Forward.antt =====
-- The check of a byte code moves the index forward.
use lms2012_compat.Prelude.{
  ℕ, zero, suc, ◌+◌, ◌/◌, ◌%◌, ◌≤◌, ◌<◌, ◌≡◌, refl, ◌⊎◌, inl, inr, Bool, true, false, not, ◌&&◌,
  ◌||◌, ◌==◌, ltb, if◌then◌else◌, Option, none, some, List, [], ◌∷◌, arith, Bool-cases, drop,
}
use lms2012_compat.Prelude.Options.{IfSome, IfSome-bind, IfSome-each, IfSome-if}
use lms2012_compat.Prelude.Int.{ℤ, pos, negsuc}
use lms2012_compat.Words.{data8, data32, signed, bit}
use lms2012_compat.Vm.{fail}
use lms2012_compat.Param.{index_bytes, is_string}
use lms2012_compat.Validate.{
  Run, out_of_fuel, undefined, returns, Tables, subp, parvalues, is_parameter, Parameter,
  read_operand, Walk, sub_command_at, check_values, check_count, image_byte, image_value, skip_text,
  extended, text_value, parameter_value, after_parameter, after_value, check_parameter, check_type,
  is_ok, settle, go_on, check_parameters, enough_rounds, with_sub_pars, Checked, checked,
  first_walk, check_op_code, check_byte_code, validate_bytecode, next_parameter,
}

abbrev Behind : ℕ → ℕ × ℕ → Type 0
Behind i r = i ≤ r.1

image_value-Behind : (n : ℕ) (xs : List ℕ) (i : ℕ) → IfSome (Behind i) (image_value n xs i)
unfolding image_value
image_value-Behind zero xs i = omega arith
image_value-Behind (suc n) xs i = IfSome-each (Behind i) (image_byte xs i) _ λ b.
    IfSome-bind (Behind (i + 1)) (Behind i) (image_value n xs (i + 1)) _
      (image_value-Behind n xs (i + 1)) λ r h. omega (arith, h)

skip_text-Behind : (xs : List ℕ) (i : ℕ) → IfSome (λ j. i ≤ j) (skip_text xs i)
unfolding skip_text
skip_text-Behind [] i = tt
skip_text-Behind (b ∷ bs) i =
    IfSome-if _ (b % 256 == 0) _ _ (omega arith)
      (weaken (skip_text bs (i + 1)) (skip_text-Behind bs (i + 1)))
  where
    weaken : (o : Option ℕ) → IfSome (λ j. i + 1 ≤ j) o → IfSome (λ j. i ≤ j) o
    weaken none h = tt
    weaken (some j) h = omega (arith, h)

extended-Behind :
    (n i : ℕ) (o : Option (ℕ × ℕ)) → IfSome (Behind i) o → IfSome (Behind i) (extended n o)
unfolding extended
extended-Behind n i none h = tt
extended-Behind n i (some (v, j)) h = h

text_value-Behind :
    (i : ℕ) (o : Option ℕ) → IfSome (λ j. i ≤ j) o → IfSome (Behind i) (text_value o)
unfolding text_value
text_value-Behind i none h = tt
text_value-Behind i (some j) h = h

parameter_value-Behind : (xs : List ℕ) (code i : ℕ) → IfSome (Behind i) (parameter_value xs code i)
unfolding parameter_value
parameter_value-Behind xs code i = IfSome-if _ (not (bit 7 code)) _ _ (omega arith) (
    IfSome-if _ (bit 6 code) _ _ (image_value-Behind (index_bytes code) xs i) (
      IfSome-if _ (bit 5 code) _ _ (extended-Behind 1 i _ (image_value-Behind 1 xs i)) (
        IfSome-if _ (is_string code) _ _ (text_value-Behind i _ (skip_text-Behind (drop i xs) i))
          (extended-Behind (index_bytes code) i _ (image_value-Behind (index_bytes code) xs i)))))

read_operand-next : (xs : List ℕ) (i : ℕ) → IfSome (λ o. i < Parameter.next o) (read_operand xs i)
unfolding read_operand
read_operand-next xs i = IfSome-each _ (image_byte xs i) _ λ b.
    IfSome-bind (Behind (i + 1)) _ (parameter_value xs b (i + 1)) _
      (parameter_value-Behind xs b (i + 1)) λ r h. omega (arith, h)

abbrev From : ℕ → Walk → Type 0
From i w = i ≤ w.index

check_values-From :
    (t : Tables) (xs : List ℕ) (type n i : ℕ) (w : Walk)
    → From i w
    → IfSome (From i) (check_values t xs type n w)
unfolding check_values
check_values-From t xs type zero i w h = h
check_values-From t xs type (suc n) i w h =
    IfSome-bind _ _ (read_operand xs w.index) _ (read_operand-next xs w.index)
      λ o k. check_values-From t xs type n i (after_value t type o w) (omega (arith, h, k))

with_sub_pars-From : (p : Option ℕ) (i : ℕ) (w : Walk) → From i w → From i (with_sub_pars p w)
with_sub_pars-From none i w h = h
with_sub_pars-From (some p) i w h = h

sub_command-From :
    (t : Tables) (v : ℤ) (i : ℕ) (w : Walk) → From i w → IfSome (From i) (sub_command_at t v w)
unfolding sub_command_at
sub_command-From t (negsuc n) i w h = tt
sub_command-From t (pos n) i w h =
    IfSome-if _ (ltb n 33) _ _ (with_sub_pars-From (t.sub_pars (w.pars / 16 % 16) n) i w h) h

check_count-From :
    (t : Tables) (xs : List ℕ) (v : ℤ) (i : ℕ) (w : Walk)
    → From i w
    → IfSome (From i) (check_count t xs v w)
unfolding check_count
check_count-From t xs (negsuc n) i w h = tt
check_count-From t xs (pos n) i w h = check_values-From t xs (w.pars / 16 % 16) n i w h

next_parameter-index : (t : Tables) (w : Walk) → (next_parameter t w).index ≡ w.index
next_parameter-index t w = ground arith

check_type-From :
    (t : Tables) (xs : List ℕ) (type i : ℕ) (w : Walk)
    → From i w
    → IfSome (From i) (check_type t xs type w)
unfolding check_type check_parameter after_parameter
check_type-From t xs type i w h = IfSome-if _ (type == 0) _ _ h (
    IfSome-if _ (type == subp) _ _
      (IfSome-each _ w.last_value _ λ v. sub_command-From t (signed data8 (v % 256)) i w h)
      (IfSome-if _ (type == parvalues) _ _
        (IfSome-each _ w.last_value _ λ v. check_count-From t xs (signed data32 v) i w h)
        (IfSome-if _ (is_parameter type) _ _
          (IfSome-bind _ _ (read_operand xs w.index) _ (read_operand-next xs w.index)
            λ o k. rw (next_parameter-index) (omega (arith, h, k)))
          h)))

-- What holds of the outcome of a run that returns.
abbrev pub IfReturns : {A : Type 0} → (A → Type 0) → Run A → Type 0
IfReturns P (returns a) = P a
IfReturns P _ = Unit {0}

go_on-From :
    (type i : ℕ) (rest : Walk → Run Walk) (o : Option Walk)
    → IfSome (From i) o
    → ((w : Walk) → From i w → IfReturns (From i) (rest w))
    → IfReturns (From i) (go_on type rest o)
unfolding go_on
go_on-From type i rest none h k = tt
go_on-From type i rest (some w) h k =
    elim (Bool-cases (not (type == 0) && is_ok (settle w).result)) [
      | inl c ↦ rw c (k (settle w) h)
      | inr c ↦ rw c h
    ]

check_parameters-From :
    (fuel : ℕ) (t : Tables) (xs : List ℕ) (i : ℕ) (w : Walk)
    → From i w
    → IfReturns (From i) (check_parameters fuel t xs w)
unfolding check_parameters
check_parameters-From zero t xs i w h = tt
check_parameters-From (suc fuel) t xs i w h =
    go_on-From (w.pars % 16) i (check_parameters fuel t xs) _
      (check_type-From t xs (w.pars % 16) i w h) λ v k. check_parameters-From fuel t xs i v k

-- The index stays, or moves behind the op-code; it stays only when the byte code fails.
abbrev pub Moves : ℕ → Checked → Type 0
Moves i c = (i < c.after) ⊎ ((c.outcome ≡ fail) × (c.after ≡ i))

Moves-checked :
    (i : ℕ) (r : Run Walk) → IfReturns (From (i + 1)) r → IfReturns (Moves i) (checked r)
Moves-checked i out_of_fuel h = tt
Moves-checked i undefined h = tt
Moves-checked i (returns w) h = inl (omega (arith, h))

Moves-if :
    (i : ℕ) (b : Bool) (x y : Run Checked)
    → IfReturns (Moves i) x
    → IfReturns (Moves i) y
    → IfReturns (Moves i) (if b then x else y)
Moves-if i true x y h k = h
Moves-if i false x y h k = k

Moves-op_code :
    (t : Tables) (xs : List ℕ) (i : ℕ) (labels : ℕ → ℕ) (op : ℕ) (p : Option ℕ)
    → IfReturns (Moves i) (check_op_code t xs i labels op p)
unfolding check_op_code
Moves-op_code t xs i labels op none = inr (refl, refl)
Moves-op_code t xs i labels op (some p) =
    Moves-if i (op == t.op_error || op == t.op_object_end) _ _ (inl (omega arith)) (
      Moves-checked i _ (
        check_parameters-From enough_rounds t xs (i + 1) (first_walk (i + 1) p labels)
          (omega arith)))

-- The check of a byte code that returns has moved the index behind where it was, unless it failed for an
-- op-code that does not exist; then the index is where it was.
pub validate_bytecode-Moves :
    (t : Tables) (xs : List ℕ) (i : ℕ) (labels : ℕ → ℕ)
    → IfReturns (Moves i) (validate_bytecode t xs i labels)
unfolding validate_bytecode check_byte_code
validate_bytecode-Moves t xs i labels = at_byte (image_byte xs i)
  where
    at_byte : (o : Option ℕ) → IfReturns (Moves i) (check_byte_code t xs i labels o)
    at_byte none = tt
    at_byte (some op) = Moves-op_code t xs i labels op (t.op_pars op)
