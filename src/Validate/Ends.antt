-- ===== src/Validate/Ends.antt =====
-- The loop over the parameters of a byte code ends.
use lms2012_compat.Prelude.{
  ℕ, zero, suc, ◌+◌, ◌*◌, ◌/◌, ◌%◌, ◌^◌, ◌≤◌, ◌<◌, ◌≡◌, ◌≢◌, refl, ◌⊎◌, inl, inr, Bool, true, false,
  not, ◌&&◌, ◌||◌, ◌==◌, ltb, leb, if◌then◌else◌, Option, none, some, List, arith, Bool-cases,
}
use lms2012_compat.Prelude.Options.{IfSome, IfSome-each}
use lms2012_compat.Prelude.Int.{ℤ, pos, negsuc}
use lms2012_compat.Words.{data8, data32, signed}
use lms2012_compat.Validate.{
  Run, out_of_fuel, undefined, returns, Tables, subp, parno, parvalues, par_plain, is_parameter,
  Parameter, read_operand, Walk, sub_command_at, check_values, check_count, after_parameter,
  check_parameter, check_type, is_ok, settle, go_on, check_parameters, enough_rounds,
  next_parameter, with_sub_pars, checked, first_walk, check_op_code, check_byte_code,
  validate_bytecode, image_byte,
}

-- Does one of the lowest `n` nibbles meet a test?
unfoldable pub has_nibble : (ℕ → Bool) → ℕ → ℕ → Bool
has_nibble f zero p = false
has_nibble f (suc n) p = f (p % 16) || has_nibble f n (p / 16)

abbrev pub is_subp : ℕ → Bool
is_subp x = x == subp

abbrev pub is_parno : ℕ → Bool
is_parno x = x == parno

-- A nibble that the validator has no case for
abbrev pub is_unknown : ℕ → Bool
is_unknown x = leb 5 x && ltb x par_plain

-- Does each nibble that the loop comes to have a case? Behind SUBP and PARVALUES it goes no further.
unfoldable pub has_meaning : ℕ → ℕ → Bool
has_meaning zero p = true
has_meaning (suc n) p =
    p % 16 == subp || p % 16 == parvalues || (not (is_unknown (p % 16)) && has_meaning n (p / 16))

-- The tables hold words of 32 bits, whose nibbles have a meaning; the parameters of a sub command
-- name no sub command again.
pub record IsTables (t : Tables) : Type 0 where
  pub op_word : (c p : ℕ) → t.op_pars c ≡ some p → p < 16 ^ 8
  pub op_known : (c p : ℕ) → t.op_pars c ≡ some p → has_meaning 8 p ≡ true
  pub sub_word : (k c p : ℕ) → t.sub_pars k c ≡ some p → p < 16 ^ 8
  pub sub_known : (k c p : ℕ) → t.sub_pars k c ≡ some p → has_meaning 8 p ≡ true
  pub sub_once : (k c p : ℕ) → t.sub_pars k c ≡ some p → has_nibble is_subp 8 p ≡ false
  pub par32_plain : par_plain ≤ t.par32
  pub par32_nibble : t.par32 < 16

-- What is left to do for `n` nibbles: a sub command brings new ones, a number of parameters up to 255.
abbrev pub rank : ℕ → Walk → ℕ
rank n w =
    2 * w.parameters
    + n
    + (if has_nibble is_parno n w.pars then 600 else 0)
    + (if has_nibble is_subp n w.pars then 2000 else 0)

pub record Left (n : ℕ) (w : Walk) : Type 0 where
  pub word : w.pars < 16 ^ n
  pub known : has_meaning n w.pars ≡ true

-- A walk with less left than `k`
abbrev Below : ℕ → Walk → Type 0
Below k w = (n : ℕ) × Left n w × (rank n w < k)

shift_word : (p n : ℕ) → p < 16 ^ suc n → p / 16 < 16 ^ n
shift_word p n h = omega arith

Below-values :
    (t : Tables) (xs : List ℕ) (k type n : ℕ) (w : Walk)
    → 2 * w.parameters < k
    → IfSome (Below k) (check_values t xs type n w)
unfolding check_values has_nibble has_meaning
Below-values t xs k type zero w h = (0, record { word = omega arith; known = refl }, ground arith)
Below-values t xs k type (suc n) w h =
    IfSome-each (Below k) (read_operand xs w.index) _ λ o. Below-values t xs k type n _ h

abbrev IsPlain : ℕ → Type 0
IsPlain x = (x == subp ≡ false) × (x == parvalues ≡ false)

one_meaning : (x : ℕ) → par_plain ≤ x → x < 16 → has_meaning 1 x ≡ true
unfolding has_meaning
one_meaning x h k = ground arith

Below-next :
    (t : Tables) (h : IsTables t) (n : ℕ) (w v : Walk)
    → v.pars ≡ w.pars
    → w.pars % 16 ≢ 0
    → IsPlain (w.pars % 16)
    → Left (suc n) w
    → (v.parameters ≤ w.parameters) ⊎ ((w.pars % 16 ≡ parno) × (v.parameters ≤ 255))
    → Below (rank (suc n) w) (next_parameter t v)
unfolding has_nibble has_meaning
Below-next t h n w v e z b l c = elim (Bool-cases (v.parameters == 0)) [
  | inl q ↦
      rw (q, e)
        (n, record { word = shift_word w.pars n l.word; known = ground arith }, ground arith)
  | inr q ↦ rw q (
    1,
    record { word = ground (arith, h); known = one_meaning t.par32 h.par32_plain h.par32_nibble },
    ground (arith, h.par32_plain, h.par32_nibble),
  )
]

Below-parameter :
    (t : Tables) (h : IsTables t) (n : ℕ) (o : Parameter) (w : Walk)
    → w.pars % 16 ≢ 0
    → IsPlain (w.pars % 16)
    → Left (suc n) w
    → Below (rank (suc n) w) (after_parameter t (w.pars % 16) o w)
unfolding after_parameter
Below-parameter t h n o w z b l = Below-next t h n w _ refl z b l (ground arith)

first_subp : (n p : ℕ) → p % 16 ≡ subp → has_nibble is_subp (suc n) p ≡ true
unfolding has_nibble
first_subp n p e = rw e

first_known :
    (n p : ℕ) → IsPlain (p % 16) → has_meaning (suc n) p ≡ true → is_unknown (p % 16) ≡ false
unfolding has_meaning
first_known n p b e = ground arith

Below-empty :
    (n : ℕ) (w : Walk)
    → has_nibble is_subp (suc n) w.pars ≡ true
    → Below (rank (suc n) w) (record w { pars = 0 })
unfolding has_nibble has_meaning
Below-empty n w e = (0, record { word = omega arith; known = refl }, ground arith)

Below-sub_pars :
    (t : Tables) (h : IsTables t) (n k : ℕ) (w : Walk)
    → has_nibble is_subp (suc n) w.pars ≡ true
    → (p : Option ℕ) → t.sub_pars (w.pars / 16 % 16) k ≡ p
    → Below (rank (suc n) w) (with_sub_pars p w)
Below-sub_pars t h n k w e none q = Below-empty n w e
Below-sub_pars t h n k w e (some p) q = (
  8,
  record { word = h.sub_word _ _ p q; known = h.sub_known _ _ p q },
  less (has_nibble is_subp 8 p) (has_nibble is_subp (suc n) w.pars) (has_nibble is_parno 8 p)
      (has_nibble is_parno (suc n) w.pars) w.parameters (h.sub_once _ _ p q) e,
)
  where
    less :
        (a b c d : Bool) (m : ℕ)
        → a ≡ false
        → b ≡ true
        → 2 * m + 8 + (if c then 600 else 0) + (if a then 2000 else 0)
          < 2 * m + suc n + (if d then 600 else 0) + (if b then 2000 else 0)
    less a b c d m x y = ground arith

Below-sub :
    (t : Tables) (h : IsTables t) (n : ℕ) (v : ℤ) (w : Walk)
    → w.pars % 16 ≡ subp
    → IfSome (Below (rank (suc n) w)) (sub_command_at t v w)
unfolding sub_command_at
Below-sub t h n (negsuc k) w e = tt
Below-sub t h n (pos k) w e = elim (Bool-cases (ltb k 33)) [
  | inr c ↦ rw c (Below-empty n w (first_subp n w.pars e))
  | inl c ↦ rw c (Below-sub_pars t h n k w (first_subp n w.pars e) _ refl)
]

Below-count :
    (t : Tables) (xs : List ℕ) (k : ℕ) (v : ℤ) (w : Walk)
    → 2 * w.parameters < k
    → IfSome (Below k) (check_count t xs v w)
unfolding check_count
Below-count t xs k (negsuc n) w h = tt
Below-count t xs k (pos n) w h = Below-values t xs k (w.pars / 16 % 16) n w h

Below-type :
    (t : Tables) (h : IsTables t) (xs : List ℕ) (n : ℕ) (w : Walk)
    → w.pars % 16 ≢ 0
    → Left (suc n) w
    → IfSome (Below (rank (suc n) w)) (check_type t xs (w.pars % 16) w)
unfolding check_type check_parameter
Below-type t h xs n w z l = elim (Bool-cases (w.pars % 16 == 0)) [
  | inl c ↦ absurd (z (ground arith))
  | inr c ↦ elim (Bool-cases (w.pars % 16 == subp)) [
    | inl d ↦
        rw (c, d)
          (IfSome-each _ w.last_value _
            λ v. Below-sub t h n (signed data8 (v % 256)) w (ground arith))
    | inr d ↦ elim (Bool-cases (w.pars % 16 == parvalues)) [
      | inl f ↦
          rw (c, d, f)
            (IfSome-each _ w.last_value _
              λ v. Below-count t xs _ (signed data32 v) w (ground arith))
      | inr f ↦ elim (Bool-cases (is_parameter (w.pars % 16))) [
        | inl g ↦
            rw (c, d, f, g)
              (IfSome-each _ (read_operand xs w.index) _ λ o. Below-parameter t h n o w z (d, f) l)
        | inr g ↦ absurd (ground (arith, first_known n w.pars (d, f) l.known))
      ]
    ]
  ]
]

-- With enough fuel for what is left the loop does not run out of it.
abbrev pub Ends {ℓ} : {A : Type ℓ} → Run A → Type 0
Ends out_of_fuel = ⊥
Ends undefined = Unit {0}
Ends (returns a) = Unit {0}

Ends-last :
    (type : ℕ) (rest : Walk → Run Walk) (o : Option Walk) → type ≡ 0 → Ends (go_on type rest o)
unfolding go_on
Ends-last type rest none e = tt
Ends-last type rest (some w) e = rw e tt

Ends-next :
    (k type : ℕ) (rest : Walk → Run Walk) (o : Option Walk)
    → IfSome (Below k) o
    → ((v : Walk) → Below k v → Ends (rest v))
    → Ends (go_on type rest o)
unfolding go_on
Ends-next k type rest none b h = tt
Ends-next k type rest (some w) (n, l, r) h =
    elim (Bool-cases (not (type == 0) && is_ok (settle w).result)) [
      | inl c ↦ rw c (h (settle w) (n, record { word = l.word; known = l.known }, r))
      | inr c ↦ rw c tt
    ]

pub check_parameters-Ends :
    (fuel : ℕ) (t : Tables) (h : IsTables t) (xs : List ℕ) (n : ℕ) (w : Walk)
    → Left n w
    → rank n w < fuel
    → Ends (check_parameters fuel t xs w)
unfolding check_parameters
check_parameters-Ends zero t h xs n w l r = absurd (omega arith)
check_parameters-Ends (suc fuel) t h xs zero w l r =
    Ends-last (w.pars % 16) (check_parameters fuel t xs) (check_type t xs (w.pars % 16) w)
      (omega (arith, l.word))
check_parameters-Ends (suc fuel) t h xs (suc n) w l r = elim (Bool-cases (w.pars % 16 == 0)) [
  | inl c ↦
      Ends-last (w.pars % 16) (check_parameters fuel t xs) (check_type t xs (w.pars % 16) w)
        (ground arith)
  | inr c ↦
      Ends-next (rank (suc n) w) (w.pars % 16) (check_parameters fuel t xs)
        (check_type t xs (w.pars % 16) w) (Below-type t h xs n w (ground arith) l)
        λ v (m, k, q). check_parameters-Ends fuel t h xs m v k (omega (arith, r, q))
]

Ends-checked : (r : Run Walk) → Ends r → Ends (checked r)
Ends-checked out_of_fuel h = h
Ends-checked undefined h = tt
Ends-checked (returns w) h = tt

pub Ends-if : {A : Type 0} (b : Bool) (x y : Run A) → Ends x → Ends y → Ends (if b then x else y)
Ends-if true x y h k = h
Ends-if false x y h k = k

first_rank :
    (a b : Bool) → 2 * 0 + 8 + (if a then 600 else 0) + (if b then 2000 else 0) < enough_rounds
first_rank a b = ground arith

Ends-op_code :
    (t : Tables) (h : IsTables t) (xs : List ℕ) (i : ℕ) (labels : ℕ → ℕ) (op : ℕ) (p : Option ℕ)
    → t.op_pars op ≡ p
    → Ends (check_op_code t xs i labels op p)
unfolding check_op_code
Ends-op_code t h xs i labels op none e = tt
Ends-op_code t h xs i labels op (some p) e =
    Ends-if (op == t.op_error || op == t.op_object_end) _ _ tt (
      Ends-checked _ (
        check_parameters-Ends enough_rounds t h xs 8 (first_walk (i + 1) p labels)
          (record { word = h.op_word op p e; known = h.op_known op p e }) (first_rank _ _)))

-- With tables of 32-bit words whose nibbles all have a meaning, and sub commands that have no sub
-- commands, the check of one byte code ends: it returns, or reads a byte outside the image or a
-- table outside its bounds, but never uses up the rounds that the loop over the parameters has.
pub validate_bytecode-Ends :
    (t : Tables) (h : IsTables t) (xs : List ℕ) (i : ℕ) (labels : ℕ → ℕ)
    → Ends (validate_bytecode t xs i labels)
unfolding validate_bytecode check_byte_code
validate_bytecode-Ends t h xs i labels = at_byte (image_byte xs i)
  where
    at_byte : (o : Option ℕ) → Ends (check_byte_code t xs i labels o)
    at_byte none = tt
    at_byte (some op) = Ends-op_code t h xs i labels op (t.op_pars op) refl
