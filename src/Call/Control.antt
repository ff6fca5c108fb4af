-- ===== src/Call/Control.antt =====
-- opCALL of a sub call without parameters: the called object runs on its own locals.
use lms2012_compat.Prelude.{
  ℕ, ◌%◌, ◌^◌, ◌<◌, ◌≡◌, refl, ◌∙◌, ap, sym, true, false, ◌==◌, some, ◌++◌, arith,
}
use mathlib.Core.Path.{subst}
use lms2012_compat.Words.{data16}
use lms2012_compat.Vm.{Vm, running, halted, add_address, M, ◌>>=◌, ◌>>◌, gets}
use lms2012_compat.Vm.Run.{Yields, >>=-some}
use lms2012_compat.Dispatch.{get_object_ip, set_object_ip}
use lms2012_compat.Param.{par_bits, prim_par_pointer}
use lms2012_compat.Param.Encode.{Operand, encode, Fits, Holds, after_operand, operand_bits}
use lms2012_compat.Param.RoundTrip.{prim_par_pointer-encode, par_bits-encode, Holds-append}
use lms2012_compat.Objects.{is_stopped, get_obj, set_obj, object_reset, first_instruction}
use lms2012_compat.Objects.Trigger.{the_obj, with_obj}
use lms2012_compat.Copy.{Cursor, next_type, pars_in}
use lms2012_compat.Call.{cursor_of, copy_pars_to_locals, switch_to, call_free, object_call}

-- The address of the preamble of an object's code, which begins with the number of parameters.
abbrev pub preamble : Vm → ℕ → ℕ
preamble s id =
    add_address (s.program s.program_id).p_image (s.head s.p_obj_head id).offset_to_instructions

-- The objects of the program as they were, but for two.
abbrev pub SameOthers : Vm → ℕ → ℕ → Vm → Type 0
SameOthers s id caller t =
    (i : ℕ) → (i == id) ≡ false → (i == caller) ≡ false → the_obj t i ≡ the_obj s i

-- What a call leaves: the called object, the caller, the registers, and the other objects.
abbrev pub Called : Vm → ℕ → ℕ → Vm → Type 0
Called s id behind t =
    (the_obj t id ≡ record (the_obj s id) {
      obj_status = running;
      ip = add_address (preamble s id) 1;
      count = s.object_id;
    })
    × (the_obj t s.object_id ≡ record (the_obj s s.object_id) { obj_status = halted; ip = behind })
    × (t.object_id ≡ id)
    × (t.object_ip ≡ add_address (preamble s id) 1)
    × (t.object_local ≡ (the_obj s id).p_local)
    × SameOthers s id s.object_id t

-- The copying of parameters behind their number.
after_number : ℕ → ℕ → Cursor → ℕ → M (Unit {0})
unfolding get_obj set_obj set_object_ip pars_in
after_number id tmp_ip c n = do
  c' ← pars_in n c
  o ← get_obj id
  set_obj id (record o { ip = c'.type_ip })
  set_object_ip tmp_ip

-- Without parameters, copying them only moves the called object behind its preamble.
copy_pars-none :
    (s : Vm) (id : ℕ)
    → s.mem (preamble s id) % 256 ≡ 0
    → copy_pars_to_locals id s
      ≡ some (tt, with_obj s id (record (the_obj s id) { ip = add_address (preamble s id) 1 }))
unfolding copy_pars_to_locals cursor_of next_type get_object_ip set_object_ip get_obj set_obj
    after_number pars_in
copy_pars-none s id none =
    ap
      (λ n.
        after_number id s.object_ip
          (record { p_locals = (the_obj s id).p_local; type_ip = add_address (preamble s id) 1 }) n
          s)
      none

-- The call behind its two operands.
call_end : ℕ → ℕ → M (Unit {0})
unfolding get_obj set_obj get_object_ip switch_to
call_end id caller = do
  here ← get_object_ip
  o ← get_obj caller
  set_obj caller (record o { ip = here; obj_status = halted })
  switch_to id

call_body : ℕ → M (Unit {0})
unfolding object_reset copy_pars_to_locals get_obj set_obj call_end
call_body id = do
  object_reset id
  caller ← gets (λ s. s.object_id)
  called ← get_obj id
  set_obj id (record called { count = caller })
  copy_pars_to_locals id
  call_end id caller

-- The state in which the parameters are copied.
abbrev restarted : Vm → ℕ → Vm
restarted s id = with_obj s id (record (the_obj s id) {
  ip = add_address s.p_image (s.head s.p_obj_head id).offset_to_instructions;
  count = (s.head s.p_obj_head id).trigger_count;
})

abbrev noted : Vm → ℕ → Vm
noted s id =
    with_obj (restarted s id) id (record (the_obj (restarted s id) id) { count = s.object_id })

call_body-Called :
    (s : Vm) (id : ℕ)
    → (s.object_id == id) ≡ false
    → s.mem (preamble s id) % 256 ≡ 0
    → Yields (λ _ t. Called s id s.object_ip t) (call_body id s)
unfolding call_body call_end get_object_ip set_object_ip get_obj set_obj object_reset
    first_instruction switch_to
call_body-Called s id differ none =
    subst (λ o. Yields (λ _ t. Called s id s.object_ip t) o)
      (sym (
        >>=-some (copy_pars_to_locals id) (λ _. call_end id s.object_id) {s = noted s id}
          (copy_pars-none (noted s id) id none)))
      (ground arith, ground arith, refl, ground arith, ground arith, λ i e f. ground arith)

-- opCALL of a sub call that is free, is not the current object, and has no parameters, with its two
-- operands encoded at the instruction pointer, returns. The called object then runs behind its
-- preamble, on its own locals, and notes its caller; the caller is halted and goes on behind the
-- operands; no other object of the program changes.
pub object_call_lem :
    (s : Vm) (x y : Operand)
    → Fits x
    → Fits y
    → s.object_ip < 2 ^ 32
    → Holds s.mem s.object_ip (encode x ++ encode y)
    → is_stopped (the_obj s (operand_bits data16 s x)).obj_status ≡ true
    → (s.object_id == operand_bits data16 s x) ≡ false
    → s.mem (preamble s (operand_bits data16 s x)) % 256 ≡ 0
    → Yields
        (λ _ t.
          Called s (operand_bits data16 s x) (after_operand (after_operand s x) y).object_ip t)
        (object_call s)
unfolding object_call call_free get_object_ip get_obj call_body
object_call_lem s x y fx fy small h free differ none =
    let (hx, hy) = Holds-append s.mem s.object_ip (encode x) (encode y) small h in
    let id = operand_bits data16 s x in
    let body = call_body-Called (after_operand (after_operand s x) y) id differ none in
    let second : call_free id (after_operand s x)
        ≡ call_body id (after_operand (after_operand s x) y) =
      >>=-some prim_par_pointer _ (prim_par_pointer-encode y (after_operand s x) fy hy) in
    let e : object_call s ≡ call_body id (after_operand (after_operand s x) y) =
      >>=-some (par_bits data16) _ (par_bits-encode data16 x s fx hx) ∙ rw free second in
    subst (Yields (λ _ t. Called s id (after_operand (after_operand s x) y).object_ip t)) (sym e)
      body
