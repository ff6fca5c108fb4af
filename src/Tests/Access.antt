-- ===== src/Tests/Access.antt =====
-- Variables of a program that are written and read from outside, and a name that is validated.
use lms2012_compat.Prelude.{
  ℕ, ◌≡◌, refl, ◌==◌, if◌then◌else◌, Bool, true, some, List, [], ◌∷◌, arith, inr,
}
use lms2012_compat.Vm.{Vm, at, load_bytes}
use lms2012_compat.Vm.Run.{Yields}
use lms2012_compat.Load.{global_bytes}
use lms2012_compat.Ram.{write_ram, read_ram, lng_of}
use lms2012_compat.Ram.Bounds.{Within, HasRead, bytes_of, write_ram-Within, read_ram-HasRead}
use lms2012_compat.FileName.{find_name}
use lms2012_compat.FileName.Split.{Splits, find_name-Splits}
use lms2012_compat.Names.{validate_string}
use lms2012_compat.Names.Valid.{Corrected, validate_string-Corrected}
use lms2012_compat.Tests.{machine}

-- The user's program has eight bytes of global variables.
abbrev with_globals : Vm
with_globals = record (machine []) {
  mem = λ a. if a == 0x100C then 8 else if a == 0x2006 then 5 else 0;
}

eight : lng_of 1 0 with_globals ≡ 8
unfolding global_bytes load_bytes
eight = refl

eight_bytes : bytes_of 1 0 with_globals ≡ 8
unfolding load_bytes
eight_bytes = refl

write_ram-Within_example :
    Yields
      (λ _. Within 0x2000 (lng_of 1 0 with_globals) with_globals)
      (write_ram 1 0 6 4 (at 0x5000) with_globals)
write_ram-Within_example = write_ram-Within 1 0 6 4 0x5000 with_globals (omega (arith, eight))

read_ram-HasRead_example :
    Yields
      (λ _. HasRead 0x2000 (bytes_of 1 0 with_globals) 6 0x5000 4 with_globals)
      (read_ram 1 0 6 4 (at 0x5000) with_globals)
read_ram-HasRead_example =
    read_ram-HasRead 1 0 6 4 0x5000 with_globals (omega arith) refl (omega arith)
      (omega (arith, eight_bytes)) (ground arith) (inr (omega (arith, eight_bytes)))

-- "a*" in the set of file names
validate_string-Corrected_example :
    (t : List ℕ) × (w : Bool) × (validate_string 2 (b'a' ∷ b'*' ∷ []) ≡ some (t, w))
    × Corrected 2 (b'a' ∷ b'*' ∷ []) t w
validate_string-Corrected_example =
    validate_string-Corrected 2 (b'a' ∷ b'*' ∷ []) refl (ground arith, (ground arith, tt))

star_put_right : validate_string 2 (b'a' ∷ b'*' ∷ []) ≡ some (b'a' ∷ b'_' ∷ [], true)
unfolding validate_string
star_put_right = refl

-- "../prjs/a.rbf" and a name without a path
abbrev program_name : List ℕ
program_name =
    b'.' ∷ b'.' ∷ b'/' ∷ b'p' ∷ b'r' ∷ b'j' ∷ b's' ∷ b'/' ∷ b'a' ∷ b'.' ∷ b'r' ∷ b'b' ∷ b'f' ∷ []

program_name_split : (find_name program_name).name ≡ b'a' ∷ []
unfolding find_name
program_name_split = refl

find_name-Splits_example : Splits program_name (find_name program_name)
find_name-Splits_example = find_name-Splits program_name
