-- ===== src/Names.antt =====
-- The characters that names and keys may have, in lms2012/lms2012.c: `ValidateChar` and
-- `ValidateString`. A string is the list of its characters before the zero byte.
pub mod Valid
use Prim.Native.Nat.{bit_and}
use lms2012_compat.Prelude.{
  ℕ, zero, suc, Bool, true, false, ◌||◌, ◌==◌, if◌then◌else◌, Option, none, some, List, [], ◌∷◌,
  get_elem?,
}
use lms2012_compat.Prelude.Options.{◌>>=◌}

-- `ValidChars`: the sets that a character is in
abbrev pub valid_chars : List ℕ
valid_chars =
    0 ∷ 0 ∷ 0 ∷ 0 ∷ 0 ∷ 0 ∷ 0 ∷ 0 ∷ 0 ∷ 0 ∷ 0 ∷ 0 ∷ 0 ∷ 0 ∷ 0 ∷ 0 ∷ 0 ∷ 0 ∷ 0 ∷ 0 ∷ 0 ∷ 0 ∷ 0 ∷ 0
    ∷ 0 ∷ 0 ∷ 0 ∷ 0 ∷ 0 ∷ 0 ∷ 0 ∷ 0 ∷ 18 ∷ 0 ∷ 0 ∷ 0 ∷ 0 ∷ 0 ∷ 0 ∷ 0 ∷ 0 ∷ 0 ∷ 0 ∷ 0 ∷ 0 ∷ 3 ∷ 2 ∷ 2
    ∷ 31 ∷ 31 ∷ 31 ∷ 31 ∷ 31 ∷ 31 ∷ 31 ∷ 31 ∷ 31 ∷ 31 ∷ 0 ∷ 0 ∷ 0 ∷ 0 ∷ 0 ∷ 0 ∷ 0 ∷ 31 ∷ 31 ∷ 31
    ∷ 31 ∷ 31 ∷ 31 ∷ 31 ∷ 31 ∷ 31 ∷ 31 ∷ 31 ∷ 31 ∷ 31 ∷ 31 ∷ 31 ∷ 31 ∷ 31 ∷ 31 ∷ 31 ∷ 31 ∷ 31 ∷ 31
    ∷ 31 ∷ 31 ∷ 31 ∷ 31 ∷ 0 ∷ 0 ∷ 0 ∷ 0 ∷ 31 ∷ 0 ∷ 31 ∷ 31 ∷ 31 ∷ 31 ∷ 31 ∷ 31 ∷ 31 ∷ 31 ∷ 31 ∷ 31
    ∷ 31 ∷ 31 ∷ 31 ∷ 31 ∷ 31 ∷ 31 ∷ 31 ∷ 31 ∷ 31 ∷ 31 ∷ 31 ∷ 31 ∷ 31 ∷ 31 ∷ 31 ∷ 31 ∷ 0 ∷ 0 ∷ 0 ∷ 2
    ∷ 0 ∷ []

-- A character that is put right, and whether it was wrong (FAIL). DATA8 is signed: a character from 128
-- on is a negative index, which reads outside of the table.
abbrev pub put_right : ℕ → ℕ → ℕ → ℕ × Bool
put_right c set sets = if bit_and sets set == 0 then (b'_', true) else (c, false)

unfoldable pub validate_char : ℕ → ℕ → Option (ℕ × Bool)
validate_char c set = do sets ← get_elem? valid_chars c; some (put_right c set sets)

-- `Result |= ValidateChar(pString,Set)`
unfoldable pub validate_string : ℕ → List ℕ → Option (List ℕ × Bool)
unfolding validate_char
validate_string set [] = some ([], false)
validate_string set (c ∷ s) = do
  r ← validate_char c set
  q ← validate_string set s
  some (r.0 ∷ q.0, r.1 || q.1)
