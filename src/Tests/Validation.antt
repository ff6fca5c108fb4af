-- ===== src/Tests/Validation.antt =====
-- A small set of byte codes, and images of them.
use lms2012_compat.Prelude.{
  ℕ, ◌≡◌, refl, ◌==◌, if◌then◌else◌, Bool, true, false, Option, none, some, List, [], ◌∷◌, arith,
  ◌&&◌, ◌||◌, replicate, ◌++◌, inr,
}
use lms2012_compat.Prelude.Options.{IfSome}
use lms2012_compat.Prelude.Int.{pos, negsuc}
use lms2012_compat.Words.{signed, data8}
use lms2012_compat.Vm.{Vm, ObjHead, ok}
use lms2012_compat.Param.{prim_par_pointer}
use lms2012_compat.Param.Advance.{ip_after}
use lms2012_compat.Validate.{
  Run, returns, Tables, Parameter, read_operand, check_parameters, first_walk, validate_bytecode,
}
use lms2012_compat.Validate.Advance.{Lands, read_operand-prim_par_pointer}
use lms2012_compat.Validate.Ends.{IsTables, Ends, has_nibble, has_meaning}
use lms2012_compat.Validate.Lenient.{check_parameters-sub_missing, after_good}
use lms2012_compat.Validate.Program.{ImgHead, Verdict, validate_program_image}
use lms2012_compat.Validate.ProgramEnds.{validate_program_image-Ends}
use lms2012_compat.Validate.Starts.{HasOffsets, validate_program_image-offsets}
use lms2012_compat.Tests.{machine}

-- 0x0A ends an object, 0x10 has a DATA8 and a DATA16, and 0x20 has the sub commands 1 and 2.
abbrev op_codes : ℕ → Option ℕ
op_codes c =
    if c == 0 || c == 0x0A
    then some 0
    else if c == 0x10
    then some 0x98
    else if c == 0x20
    then some 0x718
    else none

abbrev sub_codes : ℕ → ℕ → Option ℕ
sub_codes k c = if k == 7 && c == 1 then some 0x8 else if k == 7 && c == 2 then some 0x84A else none

abbrev tables : Tables
tables = record {
  op_pars = op_codes;
  sub_pars = sub_codes;
  op_error = 0;
  op_object_end = 0x0A;
  par8 = 8;
  par16 = 9;
  par32 = 10;
  parf = 11;
  parv = 15;
  call_string = 4;
  par_min = λ n. if n == 8 then negsuc 127 else if n == 9 then negsuc 32767 else negsuc 2147483647;
  par_max = λ n. if n == 8 then pos 127 else if n == 9 then pos 32767 else pos 2147483647;
  float_in_range = λ x. true;
}

tables-IsTables : IsTables tables
unfolding has_nibble has_meaning
tables-IsTables = record {
  op_word = λ c p e. ground arith;
  op_known = λ c p e. ground arith;
  sub_word = λ k c p e. ground arith;
  sub_known = λ k c p e. ground arith;
  sub_once = λ k c p e. ground arith;
  par32_plain = ground arith;
  par32_nibble = ground arith;
}

-- The instruction 0x10 with the constant 5 and a local variable, and the end of the object.
abbrev code : List ℕ
code = 0x10 ∷ 5 ∷ 0x44 ∷ 0x0A ∷ []

abbrev no_labels : ℕ → ℕ
no_labels n = 0

first_code :
    validate_bytecode tables code 0 no_labels
    ≡ returns (record { outcome = ok; after = 3; found = no_labels })
unfolding validate_bytecode signed
first_code = refl

nine : signed data8 9 ≡ pos 9
unfolding signed
nine = refl

-- The sub command 9 of 0x20 does not exist.
check_parameters-sub_missing_example :
    check_parameters 5 tables code (after_good (first_walk 2 0 no_labels) 0x71 9)
    ≡ returns (after_good (first_walk 2 0 no_labels) 0 9)
check_parameters-sub_missing_example =
    check_parameters-sub_missing 3 tables code (first_walk 2 0 no_labels) 0x71 9 9 refl nine
      (inr refl)

-- The variable behind the constant, in the memory of a machine at 0x1042
abbrev at_variable : Vm
at_variable = record (machine code) { object_ip = 0x1042 }

read_operand-prim_par_pointer_example :
    IfSome
      (λ o. Lands 0x1040 (ip_after (prim_par_pointer at_variable)) (Parameter.next o))
      (read_operand code 2)
read_operand-prim_par_pointer_example =
    read_operand-prim_par_pointer at_variable code 0x1040 2 (ground arith) refl

-- An image of one object, which starts behind the two headers
abbrev image : List ℕ
image = replicate 28 0 ++ code

abbrev image_head : ImgHead
image_head = record { image_size = 32; version_info = 109; number_of_objects = 1 }

abbrev object_heads : ℕ → ObjHead
object_heads i = record {
  offset_to_instructions = 0;
  owner_object_id = 0;
  trigger_count = 0;
  local_bytes = 4;
}

abbrev is_valid : Run Verdict → Bool
is_valid (returns v) = v.valid
is_valid _ = false

image_valid :
    is_valid (validate_program_image tables image image_head object_heads no_labels) ≡ true
unfolding validate_program_image signed
image_valid = refl

validate_program_image-Ends_example :
    Ends (validate_program_image tables image image_head object_heads no_labels)
validate_program_image-Ends_example =
    validate_program_image-Ends tables tables-IsTables image image_head object_heads no_labels
      (omega arith)

abbrev verdict_of : Run Verdict → Verdict
verdict_of (returns v) = v
verdict_of _ = record {
  valid = false;
  error_at = 0;
  new_head = object_heads;
  new_labels = no_labels;
}

abbrev image_verdict : Verdict
unfolding validate_program_image signed
image_verdict = verdict_of (validate_program_image tables image image_head object_heads no_labels)

image_run :
    validate_program_image tables image image_head object_heads no_labels ≡ returns image_verdict
unfolding validate_program_image signed image_verdict
image_run = refl

verdict_valid : image_verdict.valid ≡ true
unfolding validate_program_image signed image_verdict
verdict_valid = refl

validate_program_image-offsets_example :
    HasOffsets tables image image_head object_heads no_labels image_verdict
validate_program_image-offsets_example =
    validate_program_image-offsets tables image image_head object_heads no_labels image_verdict
      (omega arith) image_run verdict_valid
