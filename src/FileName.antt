-- ===== src/FileName.antt =====
-- Names of files in c_memory/c_memory.c: `FindName` splits a name into its path, its name and its
-- extension, and
-- `cMemoryCheckFilename` tests and repairs it. A string is the list of its characters before the zero byte.
pub mod Split
use lms2012_compat.Prelude.{
  ℕ, zero, suc, ◌+◌, Bool, true, false, not, ◌&&◌, ◌||◌, ◌==◌, ltb, Option, none, some,
  if◌then◌else◌, List, [], ◌∷◌, length, get_or, take, drop,
}
use lms2012_compat.Prelude.Options.{◌>>=◌}
use lms2012_compat.ErrorLog.{ErrorLog, log_error_number, log_error_number_exists}
use lms2012_compat.Names.{validate_string}

-- What is written through `pPath`, `pName` and `pExt`
pub record Parts : Type 0 where
  pub path : List ℕ
  pub name : List ℕ
  pub ext : List ℕ

-- `while ((Source > 0) && (pSource[Source] != '/')) Source--`
unfoldable pub last_slash : List ℕ → ℕ → ℕ
last_slash s zero = 0
last_slash s (suc i) =
    let rest = last_slash s i in if get_or s (suc i) 0 == b'/' then suc i else rest

-- `while ((pSource[Source]) && (pSource[Source] != '.'))`: what is passed, and what is left
unfoldable pub before_dot : List ℕ → List ℕ
before_dot [] = []
before_dot (c ∷ s) = let rest = c ∷ before_dot s in if c == b'.' then [] else rest

unfoldable pub from_dot : List ℕ → List ℕ
from_dot [] = []
from_dot (c ∷ s) = let rest = from_dot s in if c == b'.' then c ∷ s else rest

abbrev pub parts_of : List ℕ → List ℕ → Parts
parts_of path rest = record { path = path; name = before_dot rest; ext = from_dot rest }

unfoldable pub find_name : List ℕ → Parts
unfolding last_slash before_dot from_dot
find_name s =
    let k = last_slash s (length s) in
    if get_or s k 0 == b'/'
    then parts_of (take (k + 1) s) (drop (k + 1) s)
    else parts_of [] (drop k s)

-- vmFILENAMESIZE, vmPATHSIZE, vmNAMESIZE and vmEXTSIZE, which are generated, and vmCHARSET_FILENAME
pub record Sizes : Type 0 where
  pub filename_size : ℕ
  pub path_size : ℕ
  pub name_size : ℕ
  pub ext_size : ℕ

abbrev pub charset_filename : ℕ
charset_filename = 2

-- FILE_NAME_ERROR
abbrev pub file_name_error : ℕ
file_name_error = 26

-- What `cMemoryCheckFilename` does: the parts that it copies out, whether it answers OK, the name that it
-- leaves, and the log.
pub record NameCheck : Type 0 where
  pub out_path : Option (List ℕ)
  pub out_name : Option (List ℕ)
  pub out_ext : Option (List ℕ)
  pub is_good : Bool
  pub repaired : List ℕ
  pub log_after : ErrorLog

abbrev pub copied : Bool → List ℕ → Option (List ℕ)
copied b xs = if b then some xs else none

abbrev pub path_fits : Sizes → List ℕ → Bool
path_fits z s = ltb (length s) z.filename_size && ltb (length (find_name s).path) z.path_size

abbrev pub name_fits : Sizes → List ℕ → Bool
name_fits z s = path_fits z s && ltb (length (find_name s).name) z.name_size

abbrev pub ext_fits : Sizes → List ℕ → Bool
ext_fits z s = name_fits z s && ltb (length (find_name s).ext) z.ext_size

-- An error is logged once.
unfoldable pub log_name_error : Bool → ErrorLog → Option ErrorLog
unfolding log_error_number log_error_number_exists
log_name_error good l = do
  exists ← log_error_number_exists file_name_error l
  some (if good || exists then l else (log_error_number file_name_error l).0)

unfoldable pub check_filename : Sizes → List ℕ → ErrorLog → Option NameCheck
unfolding find_name validate_string log_name_error
check_filename z s l = do
  r ← (if ext_fits z s then validate_string charset_filename s else some (s, true))
  log ← log_name_error (not r.1) l
  some (record {
    out_path = copied (path_fits z s) (find_name s).path;
    out_name = copied (name_fits z s) (find_name s).name;
    out_ext = copied (ext_fits z s) (find_name s).ext;
    is_good = not r.1;
    repaired = r.0;
    log_after = log;
  })
