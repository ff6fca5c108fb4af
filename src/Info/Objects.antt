-- ===== src/Info/Objects.antt =====
-- opPROGRAM_INFO starts and stops the objects of any program.
use lms2012_compat.Prelude.{ℕ, ◌≡◌, ◌≢◌, ◌≤◌, false, ◌&&◌, ◌==◌, if◌then◌else◌}
use lms2012_compat.Vm.{Vm, Prg, running, stopped, add_address}
use lms2012_compat.Timer.{Timeval, timer_get_ms}

-- All objects but the object `id` of the program `prg` are as they were.
abbrev pub OthersStay : ℕ → ℕ → Vm → Vm → Type 0
OthersStay prg id s t =
    (p i : ℕ) → ((p == (s.program prg).p_obj_list && i == id) ≡ false) → t.obj p i ≡ s.obj p i

-- The object runs from its first instruction on, and the program's clock started at `time`.
pub record Begun (prg id time : ℕ) (s t : Vm) : Type 0 where
  pub runs : (t.obj (s.program prg).p_obj_list id).obj_status ≡ running
  pub at_start :
      (t.obj (s.program prg).p_obj_list id).ip
      ≡ add_address
          (s.program prg).p_image
          (s.head (s.program prg).p_obj_head id).offset_to_instructions
  pub triggers :
      (t.obj (s.program prg).p_obj_list id).count
      ≡ (s.head (s.program prg).p_obj_head id).trigger_count
  pub clock : (t.program prg).start_time ≡ time
  pub others : OthersStay prg id s t

-- The start of the program's clock: now for the first object, else as before
abbrev pub clock_of : Timeval → ℕ → ℕ → Vm → ℕ
clock_of tv prg id s = if id == 1 then timer_get_ms tv else (s.program prg).start_time

-- The object is one of a program that has not stopped.
abbrev pub MayStart : Prg → ℕ → Type 0
MayStart p id = (1 ≤ id) × (id ≤ p.objects) × (p.status ≢ stopped)
