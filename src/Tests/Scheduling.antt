-- ===== src/Tests/Scheduling.antt =====
-- The search for the next object and program, triggers, and the end of programs.
use lms2012_compat.Prelude.{◌≡◌, refl, some, arith, []}
use lms2012_compat.Timer.{Timeval}
use lms2012_compat.Vm.{Vm}
use lms2012_compat.Objects.{object_exec}
use lms2012_compat.Programs.{program_exec, program_init, program_exit, end_all}
use lms2012_compat.Objects.Exec as ObjectSearch
use lms2012_compat.Objects.Exec.{object_exec_lem}
use lms2012_compat.Objects.Trigger.{triggers, Becomes, started, triggers_lem}
use lms2012_compat.Programs.Exec as ProgramSearch
use lms2012_compat.Programs.Exec.{program_exec_lem}
use lms2012_compat.Programs.Switch.{program_init-exit}
use lms2012_compat.Programs.Stop.{Returns, AllStopped, end_all-AllStopped}
use lms2012_compat.Tests.{machine}

abbrev idle : Vm
idle = machine []

-- Twenty bytes further
abbrev later : Vm
later = record idle { object_ip = 0x1054 }

abbrev now : Timeval
now = record { sec = 1000; usec = 500 }

object_exec_lem_example : ObjectSearch.Outcome idle (object_exec idle)
object_exec_lem_example = object_exec_lem idle (omega arith) (omega arith) refl

program_exec_lem_example : ProgramSearch.Outcome idle (program_exec idle)
program_exec_lem_example = program_exec_lem idle (omega arith) (omega arith)

triggers_lem_example :
    (t : Vm) × (triggers 2 1 idle ≡ some (tt, t)) × Becomes idle 1 (started idle 1) t
triggers_lem_example = triggers_lem 2 0 1 idle refl refl (omega arith)

program_init-exit_example :
    program_init (record (program_exit later) { object_ip = 7 })
    ≡ record (program_exit later) { object_ip = 0x1054; instr_cnt = 0 }
unfolding program_exit
program_init-exit_example =
    program_init-exit later (record (program_exit later) { object_ip = 7 }) (omega arith) refl refl
      refl refl

end_all-AllStopped_example : Returns (AllStopped 5 idle) (end_all (λ _. now) 5 idle)
end_all-AllStopped_example = end_all-AllStopped (λ _. now) 5 idle

-- The third object runs.
abbrev third : Vm
third = record later { object_id = 3 }
