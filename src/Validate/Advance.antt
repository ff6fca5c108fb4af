-- ===== src/Validate/Advance.antt =====
-- The validator and the machine read an operand alike.
use lms2012_compat.Prelude.{
  ℕ, zero, suc, ◌+◌, ◌%◌, ◌^◌, ◌≤◌, ◌<◌, ◌≡◌, ◌≢◌, refl, sym, ◌∙◌, ap, ◌==◌, Option, none, some,
  List, [], ◌∷◌, arith, Bool-cases, drop, length, inl, inr,
}
use lms2012_compat.Prelude.Options.{IfSome, IfSome-bind, IfSome-each}
use lms2012_compat.Words.{bit}
use lms2012_compat.Vm.{Vm, add_address}
use lms2012_compat.Param.{
  fetch, skip_zero_terminated, skip_string, address_space, index_bytes, is_string, advance,
  skip_operand, prim_par_advance, prim_par_pointer,
}
use lms2012_compat.Param.Advance.{ip_after, prim_par_advance-ip}
use lms2012_compat.Validate.{
  Parameter, image_byte, image_value, skip_text, extended, text_value, parameter_value,
  read_operand,
}

-- The memory from the address `p` on holds the bytes of a list, which end within the address space.
abbrev pub Holds : (ℕ → ℕ) → ℕ → List ℕ → Type 0
Holds mem p [] = p ≤ 2 ^ 32
Holds mem p (b ∷ bs) = (mem p % 256 ≡ b % 256) × (p < 2 ^ 32) × Holds mem (p + 1) bs

Holds-bound : (mem : ℕ → ℕ) (p : ℕ) (xs : List ℕ) → Holds mem p xs → p + length xs ≤ 2 ^ 32
Holds-bound mem p [] h = omega (arith, h)
Holds-bound mem p (b ∷ bs) (e, l, h) = omega (arith, Holds-bound mem (p + 1) bs h)

-- A byte that is read is the one in memory.
image_byte-Holds :
    (mem : ℕ → ℕ) (xs : List ℕ) (p i a : ℕ)
    → Holds mem p xs
    → p + i ≡ a
    → IfSome (λ b. (mem a % 256 ≡ b) × (a < 2 ^ 32)) (image_byte xs i)
unfolding image_byte
image_byte-Holds mem [] p i a h q = tt
image_byte-Holds mem (b ∷ bs) p zero a (e, l, h) q =
    let same : p ≡ a = omega (arith, q) in rw (← same) (e, l)
image_byte-Holds mem (b ∷ bs) p (suc i) a (e, l, h) q =
    image_byte-Holds mem bs (p + 1) i a h (omega (arith, q))

subst_address : (mem : ℕ → ℕ) (xs : List ℕ) (p q : ℕ) → p ≡ q → Holds mem p xs → Holds mem q xs
subst_address mem xs p q e h = rw (← e) h

Holds-drop :
    (mem : ℕ → ℕ) (xs : List ℕ) (p i : ℕ)
    → Holds mem p xs
    → i ≤ length xs
    → Holds mem (p + i) (drop i xs)
Holds-drop mem xs p zero h l = subst_address mem xs p (p + 0) (omega arith) h
Holds-drop mem [] p (suc i) h l = absurd (omega (arith, l))
Holds-drop mem (b ∷ bs) p (suc i) (e, k, h) l =
    subst_address mem _ (p + 1 + i) (p + suc i) (omega arith)
      (Holds-drop mem bs (p + 1) i h (omega (arith, l)))

-- `n` steps of the instruction pointer
advance-ip :
    (n : ℕ) (s : Vm)
    → s.object_ip < 2 ^ 32
    → ip_after (advance n s) ≡ some (add_address s.object_ip n)
unfolding advance
advance-ip zero s h = ap some (omega (arith, h))
advance-ip (suc n) s h =
    advance-ip n (record s { object_ip = add_address s.object_ip 1 }) (omega arith)
    ∙ ap some (ground arith)

image_value-next : (n : ℕ) (xs : List ℕ) (i : ℕ) → IfSome (λ r. r.1 ≡ i + n) (image_value n xs i)
unfolding image_value
image_value-next zero xs i = omega arith
image_value-next (suc n) xs i = IfSome-each _ (image_byte xs i) _ λ b.
    IfSome-bind (λ r. r.1 ≡ i + 1 + n) _ (image_value n xs (i + 1)) _
      (image_value-next n xs (i + 1)) λ r e. omega (arith, e)

skip_string-end :
    (fuel : ℕ) (m : ℕ → ℕ) (a : ℕ)
    → m a % 256 ≡ 0
    → skip_string (suc fuel) m a ≡ some (add_address a 1)
unfolding skip_string
skip_string-end fuel m a e = ground (arith, e)

skip_string-on :
    (fuel : ℕ) (m : ℕ → ℕ) (a : ℕ)
    → m a % 256 ≢ 0
    → skip_string (suc fuel) m a ≡ skip_string fuel m (add_address a 1)
unfolding skip_string
skip_string-on fuel m a e = ground (arith, e)

skip_text-nil : (P : ℕ → Type 0) (i : ℕ) → IfSome P (skip_text [] i)
unfolding skip_text
skip_text-nil P i = tt

skip_text-cases :
    (P : ℕ → Type 0) (b : ℕ) (bs : List ℕ) (i : ℕ)
    → (b % 256 ≡ 0 → P (i + 1))
    → (b % 256 ≢ 0 → IfSome P (skip_text bs (i + 1)))
    → IfSome P (skip_text (b ∷ bs) i)
unfolding skip_text
skip_text-cases P b bs i f g = elim (Bool-cases (b % 256 == 0)) [
  | inl c ↦ rw c (f (ground arith))
  | inr c ↦ rw c (g (ground arith))
]

IfSome-map :
    {A : Type 0} (P Q : A → Type 0) (o : Option A) → ((a : A) → P a → Q a) → IfSome P o → IfSome Q o
IfSome-map P Q none f h = tt
IfSome-map P Q (some a) f h = f a h

skip_text-skip_string :
    (fuel : ℕ) (mem : ℕ → ℕ) (ys : List ℕ) (p i a : ℕ)
    → Holds mem a ys
    → p + i ≡ a
    → length ys ≤ fuel
    → IfSome (λ j. skip_string fuel mem (a % 2 ^ 32) ≡ some (add_address p j)) (skip_text ys i)
skip_text-skip_string fuel mem [] p i a h q l = skip_text-nil _ i
skip_text-skip_string zero mem (b ∷ bs) p i a h q l = absurd (omega (arith, l))
skip_text-skip_string (suc fuel) mem (b ∷ bs) p i a (e, k, h) q l =
    let same : a % 2 ^ 32 ≡ a = omega (arith, k) in
    rw same (
      skip_text-cases _ b bs i
        (λ z. skip_string-end fuel mem a (e ∙ z) ∙ ap some (omega (arith, q)))
        (λ z.
          IfSome-map _ _ (skip_text bs (i + 1))
            (λ j w. skip_string-on fuel mem a (λ y. z (sym e ∙ y)) ∙ w)
            (skip_text-skip_string fuel mem bs p (i + 1) (a + 1) h (omega (arith, q))
              (omega (arith, l)))))

-- The index behind an operand, as the address behind it
abbrev pub Lands : ℕ → Option ℕ → ℕ → Type 0
Lands p o j = o ≡ some (add_address p j)

skip_zero_terminated-ip :
    (s : Vm) (a : ℕ)
    → skip_string address_space s.mem s.object_ip ≡ some a
    → ip_after (skip_zero_terminated s) ≡ some a
unfolding skip_zero_terminated
skip_zero_terminated-ip s a e = rw (e, skip_zero_terminated)

text-Lands :
    (s : Vm) (xs : List ℕ) (p i : ℕ)
    → Holds s.mem p xs
    → i ≤ length xs
    → s.object_ip ≡ add_address p i
    → IfSome
        (λ r. Lands p (ip_after (skip_zero_terminated s)) r.1)
        (text_value (skip_text (drop i xs) i))
unfolding text_value
text-Lands s xs p i h l e = lift (skip_text (drop i xs) i) (
    skip_text-skip_string address_space s.mem (drop i xs) p i (p + i) (Holds-drop s.mem xs p i h l)
      refl (omega (arith, Holds-bound s.mem (p + i) (drop i xs) (Holds-drop s.mem xs p i h l))))
  where
    lift :
        (o : Option ℕ)
        → IfSome (λ j. skip_string address_space s.mem (add_address p i) ≡ some (add_address p j)) o
        → IfSome (λ r. Lands p (ip_after (skip_zero_terminated s)) r.1) (text_value o)
    lift none k = tt
    lift (some j) k = skip_zero_terminated-ip s _ (ap (skip_string address_space s.mem) e ∙ k)

advance-Lands :
    (n : ℕ) (s : Vm) (p i j : ℕ)
    → s.object_ip ≡ add_address p i
    → i + n ≡ j
    → Lands p (ip_after (advance n s)) j
advance-Lands n s p i j e q = advance-ip n s (omega (arith, e)) ∙ ap some (omega (arith, e, q))

value-Lands :
    (n : ℕ) (s : Vm) (xs : List ℕ) (p i : ℕ)
    → s.object_ip ≡ add_address p i
    → IfSome (λ r. Lands p (ip_after (advance n s)) r.1) (image_value n xs i)
value-Lands n s xs p i e =
    IfSome-map (λ r. r.1 ≡ i + n) _ (image_value n xs i)
      (λ r h. advance-Lands n s p i r.1 e (sym h)) (image_value-next n xs i)

extended-Lands :
    (k p : ℕ) (c : Option ℕ) (o : Option (ℕ × ℕ))
    → IfSome (λ r. Lands p c r.1) o
    → IfSome (λ r. Lands p c r.1) (extended k o)
unfolding extended
extended-Lands k p c none h = tt
extended-Lands k p c (some (v, j)) h = h

parameter_value-Lands :
    (s : Vm) (xs : List ℕ) (d p i : ℕ)
    → Holds s.mem p xs
    → i ≤ length xs
    → s.object_ip ≡ add_address p i
    → IfSome (λ r. Lands p (ip_after (skip_operand d s)) r.1) (parameter_value xs d i)
unfolding parameter_value skip_operand
parameter_value-Lands s xs d p i h l e = elim (Bool-cases (bit 7 d)) [
  | inr c ↦ rw c (ap some e)
  | inl c ↦ rw c (elim (Bool-cases (bit 6 d)) [
    | inl v ↦ rw v (value-Lands (index_bytes d) s xs p i e)
    | inr v ↦ rw v (elim (Bool-cases (bit 5 d)) [
      | inl b ↦ rw b (extended-Lands 1 p _ (image_value 1 xs i) (value-Lands 1 s xs p i e))
      | inr b ↦ rw b (elim (Bool-cases (is_string d)) [
        | inl t ↦ rw t (text-Lands s xs p i h l e)
        | inr t ↦ rw t (
            extended-Lands (index_bytes d) p _ (image_value (index_bytes d) xs i)
              (value-Lands (index_bytes d) s xs p i e))
      ])
    ])
  ])
]

image_byte-length : (xs : List ℕ) (i : ℕ) → IfSome (λ b. i + 1 ≤ length xs) (image_byte xs i)
unfolding image_byte
image_byte-length [] i = tt
image_byte-length (b ∷ bs) zero = omega arith
image_byte-length (b ∷ bs) (suc i) =
    IfSome-map _ _ (image_byte bs i) (λ c h. omega (arith, h)) (image_byte-length bs i)

IfSome-both :
    {A : Type 0} (P Q : A → Type 0) (o : Option A)
    → IfSome P o
    → IfSome Q o
    → IfSome (λ a. P a × Q a) o
IfSome-both P Q none h k = tt
IfSome-both P Q (some a) h k = (h, k)

skipped-Lands :
    (s : Vm) (xs : List ℕ) (p i : ℕ)
    → Holds s.mem p xs
    → s.object_ip ≡ p + i
    → IfSome (λ o. Lands p (ip_after (prim_par_advance s)) (Parameter.next o)) (read_operand xs i)
unfolding prim_par_advance fetch read_operand
skipped-Lands s xs p i h e =
    IfSome-bind _ _ (image_byte xs i) _
      (IfSome-both _ _ (image_byte xs i) (image_byte-Holds s.mem xs p i s.object_ip h (sym e))
        (image_byte-length xs i))
      λ b ((same, low), l). rw same (
        IfSome-bind _ _ (parameter_value xs b (i + 1)) _
          (parameter_value-Lands (record s { object_ip = add_address s.object_ip 1 }) xs b p (i + 1)
            h l (omega (arith, e)))
          λ r k. k)

-- The validator and the machine agree on where an operand ends: in memory that holds the bytes of an
-- image, where the validator reads an operand at an index, `PrimParPointer` at the byte of that index
-- returns, with the instruction pointer at the byte of the index that the validator goes on with.
pub read_operand-prim_par_pointer :
    (s : Vm) (xs : List ℕ) (p i : ℕ)
    → Holds s.mem p xs
    → s.object_ip ≡ p + i
    → IfSome (λ o. Lands p (ip_after (prim_par_pointer s)) (Parameter.next o)) (read_operand xs i)
read_operand-prim_par_pointer s xs p i h e =
    IfSome-map _ _ (read_operand xs i) (λ o k. sym (prim_par_advance-ip s) ∙ k)
      (skipped-Lands s xs p i h e)
