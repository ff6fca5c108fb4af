-- ===== src/Names/Valid.antt =====
-- What validating a string makes of each of its characters.
use Prim.Native.Nat.{bit_and}
use lms2012_compat.Prelude.{
  ℕ, zero, suc, ◌<◌, ◌≡◌, ◌≢◌, refl, sym, ap, ◌∙◌, Bool, true, false, not, ◌||◌, ◌==◌, Option, none,
  some, List, [], ◌∷◌, get_elem?, length, arith, Bool-cases, inl, inr,
}
use lms2012_compat.Names.{valid_chars, validate_char, validate_string}

abbrev pub meets : ℕ → Option ℕ → Bool
meets set none = false
meets set (some sets) = not (bit_and sets set == 0)

-- Is the character in the set?
abbrev pub is_valid_char : ℕ → ℕ → Bool
is_valid_char set c = meets set (get_elem? valid_chars c)

abbrev pub AllAscii : List ℕ → Type 0
AllAscii [] = Unit {0}
AllAscii (c ∷ s) = (c < 128) × AllAscii s

abbrev pub AllValid : ℕ → List ℕ → Type 0
AllValid set [] = Unit {0}
AllValid set (c ∷ s) = (is_valid_char set c ≡ true) × AllValid set s

get_elem?-some : (xs : List ℕ) (i : ℕ) → i < length xs → (v : ℕ) × (get_elem? xs i ≡ some v)
get_elem?-some [] i h = absurd (omega (arith, h))
get_elem?-some (x ∷ xs) zero h = (x, refl)
get_elem?-some (x ∷ xs) (suc i) h = get_elem?-some xs i (omega (arith, h))

-- What a character must become: one of the set stays, and any other is an underscore then.
abbrev pub Correction : ℕ → ℕ → ℕ → Type 0
Correction set c d = (is_valid_char set c ≡ true → d ≡ c) × (is_valid_char set c ≡ false → d ≡ b'_')

abbrev pub Corrections : ℕ → List ℕ → List ℕ → Type 0
Corrections set [] [] = Unit {0}
Corrections set [] (d ∷ t) = ⊥
Corrections set (c ∷ s) [] = ⊥
Corrections set (c ∷ s) (d ∷ t) = Correction set c d × Corrections set s t

-- What a character becomes
record Right (set c d : ℕ) (wrong : Bool) : Type 0 where
  valid : is_valid_char set d ≡ true
  correction : Correction set c d
  kept : wrong ≡ false → d ≡ c
  needless : is_valid_char set c ≡ true → wrong ≡ false

validate_char-Right :
    (set c : ℕ)
    → is_valid_char set b'_' ≡ true
    → c < 128
    → (d : ℕ) × (w : Bool) × (validate_char c set ≡ some (d, w)) × Right set c d w
unfolding validate_char
validate_char-Right set c u h =
    let (sets, e) = get_elem?-some valid_chars c h in
    elim (Bool-cases (bit_and sets set == 0)) [
      | inl z ↦ (
        b'_',
        true,
        rw e (rw z),
        record {
          valid = u;
          correction = (λ v. absurd (true-ne-false (sym v ∙ wrong sets e z)), λ v. refl);
          kept = λ f. absurd (true-ne-false f);
          needless = λ v. absurd (true-ne-false (sym v ∙ wrong sets e z));
        },
      )
      | inr z ↦ (
        c,
        false,
        rw e (rw z),
        record {
          valid = ap (meets set) e ∙ ap not z;
          correction =
              (λ v. refl, λ v. absurd (true-ne-false (sym (ap (meets set) e ∙ ap not z) ∙ v)));
          kept = λ f. refl;
          needless = λ v. refl;
        },
      )
    ]
  where
    true-ne-false : true ≢ false
    true-ne-false f = cc f

    wrong :
        (sets : ℕ)
        → get_elem? valid_chars c ≡ some sets
        → (bit_and sets set == 0) ≡ true
        → is_valid_char set c ≡ false
    wrong sets e z = ap (meets set) e ∙ ap not z

-- What a string becomes: `t`, and whether a character of it was wrong
pub record Corrected (set : ℕ) (s t : List ℕ) (wrong : Bool) : Type 0 where
  pub all_valid : AllValid set t
  pub corrections : Corrections set s t
  pub kept : wrong ≡ false → t ≡ s
  pub needless : AllValid set s → wrong ≡ false

or-false : (a b : Bool) → a || b ≡ false → (a ≡ false) × (b ≡ false)
or-false true b h = absurd (cc h)
or-false false b h = (refl, h)

-- Validating a string of ASCII characters by a set that the underscore is in returns a string of the
-- same length, character by character: a character of the set stays, and any other becomes an
-- underscore. All characters are in the set then. The result is OK just where all characters were in
-- the set before, and the string is unchanged then.
pub validate_string-Corrected :
    (set : ℕ) (s : List ℕ)
    → is_valid_char set b'_' ≡ true
    → AllAscii s
    → (t : List ℕ) × (w : Bool) × (validate_string set s ≡ some (t, w)) × Corrected set s t w
unfolding validate_string
validate_string-Corrected set [] u h = (
  [],
  false,
  refl,
  record { all_valid = tt; corrections = tt; kept = λ f. refl; needless = λ v. refl },
)
validate_string-Corrected set (c ∷ s) u (a, h) =
    let (d, v, e, r) = validate_char-Right set c u a in
    let (t, w, f, q) = validate_string-Corrected set s u h in
    (
      d ∷ t,
      v || w,
      rw (e, f),
      record {
        all_valid = (r.valid, q.all_valid);
        corrections = (r.correction, q.corrections);
        kept = λ k. let (x, y) = or-false v w k in cc (r.kept x, q.kept y);
        needless = λ (x, y). cc (r.needless x, q.needless y);
      },
    )
