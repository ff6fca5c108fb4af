-- ===== src/Call/Return.antt =====
-- opRETURN from a sub call without parameters: the caller runs on behind the call.
use lms2012_compat.Prelude.{
  ℕ, ◌%◌, ◌≡◌, refl, ap, sym, false, ◌==◌, if◌then◌else◌, some, Bool-cases, inl, inr, arith,
}
use mathlib.Core.Path.{subst}
use lms2012_compat.Vm.{Vm, Obj, running, stopped, stopbreak, add_address, M, ◌>>=◌, ◌>>◌, pure}
use lms2012_compat.Vm.Run.{Yields, >>=-some}
use lms2012_compat.Dispatch.{set_dispatch_status, get_object_ip, set_object_ip}
use lms2012_compat.Objects.{get_obj, set_obj}
use lms2012_compat.Objects.Trigger.{the_obj, with_obj}
use lms2012_compat.Copy.{Cursor, next_type, pars_out}
use lms2012_compat.Call.{cursor_of, copy_locals_to_pars, switch_to, object_return}
use lms2012_compat.Call.Control.{preamble, SameOthers}

-- The copying of parameters behind their number, on the way back.
after_number_out : ℕ → ℕ → Cursor → ℕ → M (Unit {0})
unfolding get_obj set_obj set_object_ip get_object_ip pars_out
after_number_out id tmp_ip c n = do
  c' ← pars_out n c
  behind ← get_object_ip
  o ← get_obj id
  set_obj id (record o { ip = behind })
  set_object_ip tmp_ip

copy_locals-none :
    (s : Vm) (id : ℕ)
    → s.mem (preamble s s.object_id) % 256 ≡ 0
    → copy_locals_to_pars id s
      ≡ some (tt, with_obj s id (record (the_obj s id) { ip = (the_obj s id).ip }))
unfolding copy_locals_to_pars cursor_of next_type get_object_ip set_object_ip get_obj set_obj
    after_number_out pars_out
copy_locals-none s id none =
    ap
      (λ n.
        after_number_out id s.object_ip
          (record {
            p_locals = (the_obj s s.object_id).p_local;
            type_ip = add_address (preamble s s.object_id) 1;
          })
          n (record s { object_ip = (the_obj s id).ip }))
      none

-- The return behind the copying.
return_end : ℕ → ℕ → Obj → M (Unit {0})
unfolding get_obj set_obj get_object_ip set_dispatch_status switch_to
return_end id caller c = do
  here ← get_object_ip
  o ← get_obj id
  set_obj id (record o { ip = here; obj_status = stopped; blocked = 0 })
  if o.blocked == 0 then pure tt else set_dispatch_status stopbreak
  switch_to caller

-- What a return leaves: the caller, the object that returned, the registers, and the other objects.
abbrev pub Returned : Vm → ℕ → Vm → Type 0
Returned s caller t =
    (the_obj t caller ≡ record (the_obj s caller) { obj_status = running })
    × (the_obj t s.object_id
        ≡ record (the_obj s s.object_id) { ip = s.object_ip; obj_status = stopped; blocked = 0 })
    × (t.object_id ≡ caller)
    × (t.object_ip ≡ (the_obj s caller).ip)
    × (t.object_local ≡ (the_obj s caller).p_local)
    × SameOthers s caller s.object_id t

-- The state in which the object returns.
abbrev copied_back : Vm → ℕ → Vm
copied_back s caller =
    with_obj (record s { object_local = (the_obj s caller).p_local }) caller
      (record (the_obj s caller) { ip = (the_obj s caller).ip })

return_end-Returned :
    (s : Vm) (caller : ℕ)
    → (caller == s.object_id) ≡ false
    → Yields
        (λ _ t. Returned s caller t)
        (return_end s.object_id caller (the_obj s caller) (copied_back s caller))
unfolding return_end get_object_ip set_object_ip get_obj set_obj set_dispatch_status switch_to
return_end-Returned s caller differ =
    elim (Bool-cases ((the_obj (copied_back s caller) s.object_id).blocked == 0)) [
      | inl b ↦
          rw b (ground arith, ground arith, refl, ground arith, ground arith, λ i e f. ground arith)
      | inr b ↦
          rw b (ground arith, ground arith, refl, ground arith, ground arith, λ i e f. ground arith)
    ]

-- opRETURN from a sub call without parameters, which is not its own caller, returns. The caller that
-- the object noted then runs on where it was halted, on its own locals; the object has stopped and is
-- no longer blocked; no other object of the program changes.
pub object_return_lem :
    (s : Vm)
    → ((the_obj s s.object_id).count == s.object_id) ≡ false
    → s.mem (preamble s s.object_id) % 256 ≡ 0
    → Yields (λ _ t. Returned s (the_obj s s.object_id).count t) (object_return s)
unfolding object_return return_end get_object_ip set_object_ip get_obj set_obj set_dispatch_status
    switch_to
object_return_lem s differ none =
    let caller = (the_obj s s.object_id).count in
    subst (Yields (λ _ t. Returned s caller t))
      (sym (
        >>=-some (copy_locals_to_pars caller)
          (λ _. return_end s.object_id caller (the_obj s caller))
          {s = record s { object_local = (the_obj s caller).p_local }}
          (copy_locals-none (record s { object_local = (the_obj s caller).p_local }) caller none)))
      (return_end-Returned s caller differ)
