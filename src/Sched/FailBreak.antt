-- ===== src/Sched/FailBreak.antt =====
-- FAILBREAK ends the program that is running.
use lms2012_compat.Prelude.{
  ℕ, ◌≡◌, ◌≢◌, refl, ap, ◌∙◌, Bool, true, false, not, ◌||◌, ◌==◌, if◌then◌else◌, Option, none, some,
  arith,
}
use lms2012_compat.Vm.{Vm, stopped, fail}
use lms2012_compat.Timer.{Timeval}
use lms2012_compat.Programs.{program_end, end_program, set_program, c_memory_close, release_devices}
use lms2012_compat.Programs.Stop.{Returns, Stopped, program_end-Stopped}
use lms2012_compat.Sched.{Sched, S, ◌>>◌, modify_vm, on_vm, fail_program, fail_break}
use lms2012_compat.Sched.Slice.{Gives}

program_end-program_id :
    (tv : Timeval) (id : ℕ) (s : Vm)
    → Returns (λ t. t.program_id ≡ s.program_id) (program_end tv id s)
unfolding program_end end_program set_program c_memory_close release_devices
program_end-program_id tv id s = ground arith

-- The current program has stopped with the result FAIL; no other program has changed.
pub record Failed (s t : Sched) : Type 0 where
  pub has_stopped : (t.vm.program s.vm.program_id).status ≡ stopped
  pub has_failed : (t.vm.program s.vm.program_id).result ≡ fail
  pub others : (j : ℕ) → j ≢ s.vm.program_id → t.vm.program j ≡ s.vm.program j
  pub warning : t.warned ≡ (s.warned || not (s.vm.program_id == s.vm.codes.cmd_slot))
  pub no_restart : t.restart ≡ s.restart

Failed-fail :
    (s : Sched) (m : Vm)
    → Stopped s.vm.program_id s.vm m
    → m.program_id ≡ s.vm.program_id
    → Failed s (record s {
      warned = s.warned || not (s.vm.program_id == s.vm.codes.cmd_slot);
      vm = fail_program m;
    })
Failed-fail s m h e =
    let here : (s.vm.program_id == m.program_id) ≡ true = ground (arith, e) in
    record {
      has_stopped = rw here (ap (λ (i : ℕ). (m.program i).status) e ∙ h.this);
      has_failed = rw here;
      others = λ j ne.
          let differ : (j == m.program_id) ≡ false = ground (arith, e, ne) in
          rw differ (h.others j ne);
      warning = refl;
      no_restart = refl;
    }

Failed-end :
    (s : Sched) (o : Option (Unit {0} × Vm))
    → Returns (Stopped s.vm.program_id s.vm) o
    → Returns (λ m. m.program_id ≡ s.vm.program_id) o
    → Gives (Failed s) (
        (on_vm (λ _. o) >> modify_vm fail_program)
          (record s { warned = s.warned || not (s.vm.program_id == s.vm.codes.cmd_slot) }))
Failed-end s none h k = h
Failed-end s (some (a, m)) h k = Failed-fail s m h k

Gives-else :
    (P : Sched → Type 0) (b : Bool) (x y : S (Unit {0})) (s : Sched)
    → b ≡ false
    → Gives P (y s)
    → Gives P ((if b then x else y) s)
Gives-else P b x y s e h = rw e h

-- A FAILBREAK outside of the UI's slot: the code behind the slice returns, the program that was running
-- has stopped and has the result FAIL, the other programs are as before, no restart is asked for, and
-- the warning is set unless it was a direct command.
pub fail_break-Failed :
    (tv : Timeval) (s : Sched)
    → (s.vm.program_id == s.vm.codes.gui_slot) ≡ false
    → Gives (Failed s) (fail_break tv s)
unfolding fail_break
fail_break-Failed tv s e = Gives-else (Failed s) (s.vm.program_id == s.vm.codes.gui_slot) _ _ s e (
    Failed-end s (program_end tv s.vm.program_id s.vm) (program_end-Stopped tv s.vm.program_id s.vm)
      (program_end-program_id tv s.vm.program_id s.vm))
