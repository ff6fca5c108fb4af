-- ===== src/Floats.antt =====
-- DATAF, the 32-bit float of the C compiler, is not part of the repository: a float is its bit
-- pattern, and its operations are a record that the handlers take as an argument.
use lms2012_compat.Prelude.{ℕ, Bool, true, false, ◌≡◌}
use lms2012_compat.Prelude.Int.{ℤ}
use lms2012_compat.Words.{Width}

pub record Floats : Type 0 where
  pub add : ℕ → ℕ → ℕ
  pub sub : ℕ → ℕ → ℕ
  pub mul : ℕ → ℕ → ℕ
  pub div : ℕ → ℕ → ℕ
  pub lt : ℕ → ℕ → Bool
  pub eq : ℕ → ℕ → Bool
  pub le : ℕ → ℕ → Bool
  pub is_nan : ℕ → Bool
  -- `DATAF_NAN`
  pub nan : ℕ
  -- the conversions from an integer, and to an integer type
  pub of_int : ℤ → ℕ
  pub to_int : Width → ℕ → ℤ

-- Comparisons with NaN are false, as IEEE 754 has it, and `DATAF_NAN` is NaN.
pub record IsIeee (f : Floats) : Type 0 where
  pub lt-nan_left : (a b : ℕ) → f.is_nan a ≡ true → f.lt a b ≡ false
  pub lt-nan_right : (a b : ℕ) → f.is_nan b ≡ true → f.lt a b ≡ false
  pub le-nan_left : (a b : ℕ) → f.is_nan a ≡ true → f.le a b ≡ false
  pub le-nan_right : (a b : ℕ) → f.is_nan b ≡ true → f.le a b ≡ false
  pub eq-nan_left : (a b : ℕ) → f.is_nan a ≡ true → f.eq a b ≡ false
  pub eq-nan_right : (a b : ℕ) → f.is_nan b ≡ true → f.eq a b ≡ false
  pub is_nan-nan : f.is_nan f.nan ≡ true
