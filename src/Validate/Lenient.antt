-- ===== src/Validate/Lenient.antt =====
-- What the check of a byte code lets pass.
use lms2012_compat.Prelude.{
  ℕ, suc, ◌/◌, ◌%◌, ◌≡◌, refl, ap, ◌∙◌, true, false, ltb, none, some, List, arith, Bool-cases, inl,
  inr, ◌⊎◌,
}
use lms2012_compat.Prelude.Int.{ℤ, pos}
use lms2012_compat.Words.{data8, signed}
use lms2012_compat.Vm.{ok}
use lms2012_compat.Validate.{
  Run, returns, Tables, subp, max_subcodes, Parameter, Walk, sub_command_at, after_parameter,
  check_type, go_on, check_parameters,
}

-- Once a parameter was found good, the value of a later one is not looked at: the result stays OK, and
-- only its alignment can make the check fail.
pub after_parameter-ok :
    (t : Tables) (type : ℕ) (o : Parameter) (w : Walk)
    → w.result ≡ ok
    → (after_parameter t type o w).result ≡ ok
unfolding after_parameter
after_parameter-ok t type o w e = ground arith

-- The table has no sub command `n`, or ends before it.
abbrev pub IsMissing : Tables → ℕ → ℕ → Type 0
IsMissing t k n = (ltb n max_subcodes ≡ false) ⊎ (t.sub_pars k n ≡ none)

sub_command-missing :
    (t : Tables) (n : ℕ) (w : Walk)
    → IsMissing t (w.pars / 16 % 16) n
    → sub_command_at t (pos n) w ≡ some (record w { pars = 0 })
unfolding sub_command_at
sub_command-missing t n w (inl c) = rw c
sub_command-missing t n w (inr m) = elim (Bool-cases (ltb n max_subcodes)) [
  | inr c ↦ rw c
  | inl c ↦ rw (c, m)
]

-- Between two parameters of which the first was good, and had the value `v`
abbrev pub after_good : Walk → ℕ → ℕ → Walk
after_good w p v = record w { pars = p; last_value = some v; result = ok; aligned = true }

check_sub :
    (t : Tables) (xs : List ℕ) (w : Walk) (p v n : ℕ)
    → p % 16 ≡ subp
    → signed data8 (v % 256) ≡ pos n
    → IsMissing t (p / 16 % 16) n
    → check_type t xs (p % 16) (after_good w p v) ≡ some (after_good w 0 v)
unfolding check_type
check_sub t xs w p v n e s m = rw e (
    ap (λ (z : ℤ). sub_command_at t z (after_good w p v)) s
    ∙ sub_command-missing t n (after_good w p v) m)

last_round :
    (t : Tables) (xs : List ℕ) (fuel : ℕ) (w : Walk) (v : ℕ)
    → check_parameters (suc fuel) t xs (after_good w 0 v) ≡ returns (after_good w 0 v)
unfolding check_parameters go_on check_type
last_round t xs fuel w v = refl

go_on-subp :
    (type : ℕ) (rest : Walk → Run Walk) (w : Walk) (v : ℕ)
    → type ≡ subp
    → go_on type rest (some (after_good w 0 v)) ≡ rest (after_good w 0 v)
unfolding go_on
go_on-subp type rest w v e = rw e

-- A sub command that the tables do not have is accepted, without parameters: where the operand before it
-- was good, the loop over the parameters returns OK.
pub check_parameters-sub_missing :
    (fuel : ℕ) (t : Tables) (xs : List ℕ) (w : Walk) (p v n : ℕ)
    → p % 16 ≡ subp
    → signed data8 (v % 256) ≡ pos n
    → IsMissing t (p / 16 % 16) n
    → check_parameters (suc (suc fuel)) t xs (after_good w p v) ≡ returns (after_good w 0 v)
unfolding check_parameters
check_parameters-sub_missing fuel t xs w p v n e s m =
    ap (go_on (p % 16) (check_parameters (suc fuel) t xs)) (check_sub t xs w p v n e s m)
    ∙ go_on-subp (p % 16) (check_parameters (suc fuel) t xs) w v e
    ∙ last_round t xs fuel w v
