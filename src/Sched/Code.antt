-- ===== src/Sched/Code.antt =====
-- `ExecuteByteCode` runs a stream of byte codes between two instructions of a program.
use lms2012_compat.Prelude.{ℕ, zero, suc, ◌+◌, ◌-◌, ◌%◌, ◌^◌, ◌≡◌, true, false, leb, some}
use lms2012_compat.Vm.{nobreak}
use lms2012_compat.Timer.{Timeval, timer_get_ms}
use lms2012_compat.Sched.{
  Sched, ◌>>◌, Devices, execute, lower_priority, c_priority, update_time1, update_time2, at_end,
}

-- The stream at `s` is `n` byte codes, each of which returns and leaves the priority, behind which
-- stands opOBJECT_END; they take the machine to `t`.
abbrev pub Executes : Devices → ℕ → Sched → Sched → Type 0
Executes d zero s t = (s ≡ t) × (at_end d s ≡ true)
Executes d (suc n) s t =
    (at_end d s ≡ false)
    × ((u : Sched) × ((lower_priority d >> execute d) s ≡ some (tt, u))
        × (u.vm.priority + 1 ≡ s.vm.priority)
        × Executes d n u t)

-- No update of the devices is due at the time `now`.
abbrev pub NotDue : Timeval → Sched → Type 0
NotDue now s =
    (leb update_time1 ((timer_get_ms now + 2 ^ 32 - s.old_time1) % 2 ^ 32) ≡ false)
    × (leb update_time2 ((timer_get_ms now + 2 ^ 32 - s.old_time2) % 2 ^ 32) ≡ false)

abbrev pub refreshed : Sched → Sched
refreshed s = record s { vm = record s.vm { dispatch_status = nobreak; priority = c_priority } }

-- What `ExecuteByteCode` leaves when the stream has taken the machine to `t`: the registers that it
-- saved are those of before, and everything else is as in `t`.
abbrev pub returned : Sched → Sched → ℕ → Sched
returned s t ms = record t {
  new_time = ms;
  back_long = false;
  vm = record t.vm {
    object_ip = s.vm.object_ip;
    p_global = s.vm.p_global;
    object_local = s.vm.object_local;
    dispatch_status = s.vm.dispatch_status;
    priority = s.vm.priority;
  };
}

abbrev pub started : Sched → ℕ → ℕ → ℕ → Sched
started s code globals locals = record s {
  back_long = false;
  vm = record s.vm {
    object_ip = code;
    p_global = globals;
    object_local = locals;
    dispatch_status = nobreak;
    priority = c_priority;
  };
}
