-- ===== src/Timer.antt =====
-- The timer byte codes of lms2012/c_timer.c. The time of day is an argument: `gettimeofday` is the
-- system's.
use lms2012_compat.Prelude.{ℕ, ◌+◌, ◌-◌, ◌*◌, ◌/◌, ◌%◌, ◌^◌, Bool, true, false, leb}
use lms2012_compat.Words.{data32}
use lms2012_compat.Vm.{M, ◌>>=◌, ◌>>◌, pure, nobreak, busybreak, gets, modify}
use lms2012_compat.Param.{par_bits, put_bits}
use lms2012_compat.Dispatch.{set_dispatch_status, get_object_ip, set_object_ip, previous}

-- `struct timeval`
pub record Timeval : Type 0 where
  pub sec : ℕ
  pub usec : ℕ

-- `cTimerGetmS` and `cTimerGetuS`, in ULONG arithmetic; the second keeps its result in `TimeuS`.
unfoldable pub timer_get_ms : Timeval → ℕ
timer_get_ms tv = (tv.sec % 2 ^ 32 * 1000 + tv.usec / 1000) % 2 ^ 32

unfoldable pub timer_get_us : Timeval → M ℕ
timer_get_us tv = do
  let us = (tv.sec % 2 ^ 32 * 1000000 + tv.usec) % 2 ^ 32
  modify (λ s. record s { time_us = us })
  pure us

unfoldable pub c_timer_wait : Timeval → M (Unit {0})
unfolding timer_get_ms
c_timer_wait tv = do time ← par_bits data32; put_bits data32 ((timer_get_ms tv + time) % 2 ^ 32)

-- A timer that is not ready sets the instruction pointer back to the opcode.
unfoldable pub ready_or_rewind : ℕ → Bool → M (Unit {0})
unfolding set_dispatch_status
ready_or_rewind ip true = set_dispatch_status nobreak
ready_or_rewind ip false = do set_object_ip (previous ip); set_dispatch_status busybreak

unfoldable pub c_timer_ready : Timeval → M (Unit {0})
unfolding timer_get_ms ready_or_rewind
c_timer_ready tv = do
  tmp_ip ← get_object_ip
  due ← par_bits data32
  ready_or_rewind tmp_ip (leb due (timer_get_ms tv))

unfoldable pub c_timer_read : Timeval → M (Unit {0})
unfolding timer_get_ms
c_timer_read tv = do
  start ← gets (λ s. (s.program s.program_id).start_time)
  put_bits data32 ((timer_get_ms tv + 2 ^ 32 - start) % 2 ^ 32)

unfoldable pub c_timer_read_us : Timeval → M (Unit {0})
unfolding timer_get_us
c_timer_read_us tv = do us ← timer_get_us tv; put_bits data32 us
