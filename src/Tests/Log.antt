-- ===== src/Tests/Log.antt =====
-- The error log on concrete calls.
use lms2012_compat.Prelude.{◌≡◌, refl, true, false, some, arith, [], ◌∷◌}
use lms2012_compat.ErrorLog.{ErrorLog}
use lms2012_compat.ErrorLog.Queue
use lms2012_compat.ErrorLog.Queue.{Call, logs, exists, gets, cleans, full, found, number, done}
use lms2012_compat.ErrorLog.Refine.{IsValid, run, run_refines}

-- Seven errors are held, from index 6 on round the end; the next one does not fit.
abbrev crowded : ErrorLog
crowded = record { errors = 13 ∷ 14 ∷ 15 ∷ 16 ∷ 17 ∷ 0 ∷ 11 ∷ 12 ∷ []; error_in = 5; error_out = 6 }

crowded-IsValid : IsValid crowded
crowded-IsValid = record { storage = refl; in_range = omega arith; out_range = omega arith }

run_refines_example :
    run (logs 18 ∷ gets ∷ logs 18 ∷ exists 18 ∷ exists 11 ∷ cleans ∷ gets ∷ []) crowded
    ≡ some (full true ∷ number 11 ∷ full false ∷ found true ∷ found false ∷ done ∷ number 0 ∷ [])
unfolding Queue.run Queue.push Queue.pop Queue.contains
run_refines_example =
    run_refines (logs 18 ∷ gets ∷ logs 18 ∷ exists 18 ∷ exists 11 ∷ cleans ∷ gets ∷ []) crowded
      crowded-IsValid
