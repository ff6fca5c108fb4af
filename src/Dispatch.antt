-- ===== src/Dispatch.antt =====
-- The dispatch status and the instruction pointer, as lms2012/lms2012.c hands them to the byte codes.
use lms2012_compat.Prelude.{ℕ, ◌+◌, ◌-◌, ◌%◌, ◌^◌, leb, if◌then◌else◌}
use lms2012_compat.Vm.{M, DspStat, nobreak, modify, gets}

-- `PRG_PRIORITY` and `UI_PRIORITY`
abbrev pub prg_priority : ℕ
prg_priority = 200

abbrev pub ui_priority : ℕ
ui_priority = 20

-- Every status but NOBREAK ends the time slice.
unfoldable pub set_dispatch_status : DspStat → M (Unit {0})
set_dispatch_status nobreak = modify λ s. record s { dispatch_status = nobreak }
set_dispatch_status d = modify λ s. record s { dispatch_status = d; priority = 0 }

unfoldable pub set_instructions : ℕ → M (Unit {0})
set_instructions n = modify λ s. if leb n prg_priority then record s { priority = n } else s

unfoldable pub get_object_ip : M ℕ
get_object_ip = gets λ s. s.object_ip

unfoldable pub set_object_ip : ℕ → M (Unit {0})
set_object_ip ip = modify λ s. record s { object_ip = ip }

-- The address before, where `TmpIp - 1` is the opcode of an instruction.
abbrev pub previous : ℕ → ℕ
previous ip = (ip + 2 ^ 32 - 1) % 2 ^ 32
