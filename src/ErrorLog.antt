-- ===== src/ErrorLog.antt =====
-- The error log of lms2012/lms2012.c: a ring of `ERROR_BUFFER_SIZE` error numbers between `ErrorOut`
-- and `ErrorIn`, of which one place stays free.
pub mod Queue
pub mod Refine
use lms2012_compat.Prelude.{
  ℕ, zero, suc, ◌+◌, ◌%◌, Bool, true, false, ◌==◌, ltb, leb, if◌then◌else◌, Option, none, some,
  List, get_or, set,
}

-- `ERROR_BUFFER_SIZE`
abbrev pub error_buffer_size : ℕ
error_buffer_size = 8

-- `Errors`, `ErrorIn` and `ErrorOut` of VMInstance. An ERR is its number; 0 is
-- TOO_MANY_ERRORS_TO_BUFFER.
pub record ErrorLog : Type 0 where
  pub errors : List ℕ
  pub error_in : ℕ
  pub error_out : ℕ

-- `if (++Tmp >= ERROR_BUFFER_SIZE) Tmp = 0` on a UBYTE
unfoldable pub next : ℕ → ℕ
next i = let i' = (i + 1) % 256 in if leb error_buffer_size i' then 0 else i'

-- The flag says that the buffer was full, and a message was printed in place of the error.
unfoldable pub log_error_number : ℕ → ErrorLog → ErrorLog × Bool
unfolding next
log_error_number err l =
    let tmp = next l.error_in in
    if ltb 0 err
    then if tmp == l.error_out
      then (l, true)
      else (record l { errors = set l.errors l.error_in err; error_in = tmp }, false)
    else (l, false)

-- The loop of `LogErrorNumberExists`, one round for each unit of fuel.
unfoldable pub exists_from : ℕ → ℕ → ErrorLog → ℕ → Option Bool
exists_from zero err l tmp = none
exists_from (suc fuel) err l tmp =
    let rest = exists_from fuel err l (next tmp) in
    if tmp == l.error_in
    then some false
    else if get_or l.errors tmp 0 == err
    then some true
    else rest

unfoldable pub log_error_number_exists : ℕ → ErrorLog → Option Bool
unfolding exists_from next
log_error_number_exists err l = exists_from error_buffer_size err l l.error_out

unfoldable pub log_error_get : ErrorLog → ErrorLog × ℕ
unfolding next
log_error_get l =
    if l.error_in == l.error_out
    then (l, 0)
    else (record l { error_out = next l.error_out }, get_or l.errors l.error_out 0)

unfoldable pub clean_log_errors : ErrorLog → ErrorLog
clean_log_errors l = record l { error_in = 0; error_out = 0 }
