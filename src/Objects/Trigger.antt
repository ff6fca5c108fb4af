-- ===== src/Objects/Trigger.antt =====
-- `ObjectTrig` counts triggers: the last one that a block waits for starts it.
use lms2012_compat.Prelude.{
  ℕ, zero, suc, ◌+◌, ◌-◌, ◌<◌, ◌≡◌, refl, ◌∙◌, ap, true, false, ◌&&◌, ◌==◌, if◌then◌else◌, some,
  arith,
}
use mathlib.Core.Path.{subst}
use lms2012_compat.Vm.{Vm, Obj, ObjHead, waiting, running, ◌>>◌, M, pure, add_address}
use lms2012_compat.Vm.Run.{>>=-some}
use lms2012_compat.Objects.{trigger, object_en_queue, is_object}

-- The object `id` of the current program, and the header that it starts from.
abbrev pub the_obj : Vm → ℕ → Obj
the_obj s id = s.obj s.p_obj_list id

abbrev pub the_head : Vm → ℕ → ObjHead
the_head s id = s.head s.p_obj_head id

-- The state with another object in that place.
abbrev pub with_obj : Vm → ℕ → Obj → Vm
with_obj s id o = record s { obj = λ p i. if p == s.p_obj_list && i == id then o else s.obj p i }

the_obj-with_obj : (s : Vm) (id : ℕ) (o : Obj) → the_obj (with_obj s id o) id ≡ o
the_obj-with_obj s id o = ground arith

-- From `s` to `t` the object `id` became `o`, and nothing else changed.
pub record Becomes (s : Vm) (id : ℕ) (o : Obj) (t : Vm) : Type 0 where
  pub this : the_obj t id ≡ o
  pub others : (p i : ℕ) → (p == s.p_obj_list && i == id) ≡ false → t.obj p i ≡ s.obj p i
  pub rest : t ≡ record s { obj = t.obj }

with_obj-Becomes : (s : Vm) (id : ℕ) (o : Obj) → Becomes s id o (with_obj s id o)
with_obj-Becomes s id o = record {
  this = the_obj-with_obj s id o;
  others = λ p i h. rw h;
  rest = refl;
}

with_obj-again :
    (s t : Vm) (id : ℕ) (o o' : Obj) → Becomes s id o t → Becomes s id o' (with_obj t id o')
with_obj-again s t id o o' b = record {
  this = the_obj-with_obj t id o';
  others = λ p i h.
      let e : t.p_obj_list ≡ s.p_obj_list = ap (λ (v : Vm). v.p_obj_list) b.rest in
      rw e (rw h (b.others p i h));
  rest = ap (λ (v : Vm). record v { obj = (with_obj t id o').obj }) b.rest;
}

-- `k` triggers in a row
unfoldable pub triggers : ℕ → ℕ → M (Unit {0})
triggers zero id = pure tt
triggers (suc k) id = do trigger id; triggers k id

-- An object that waits for `n` more triggers, and one that runs from its first instruction with its
-- trigger count set up again.
abbrev pub waits : Vm → ℕ → ℕ → Obj
waits s id n = record (the_obj s id) { obj_status = waiting; count = n }

abbrev pub started : Vm → ℕ → Obj
started s id = record (the_obj s id) {
  obj_status = running;
  ip = add_address s.p_image (the_head s id).offset_to_instructions;
  count = (the_head s id).trigger_count;
}

-- One trigger before the last only counts.
trigger-counts :
    (s : Vm) (id n : ℕ)
    → (the_obj s id).count ≡ suc (suc n)
    → (t : Vm) × (trigger id s ≡ some (tt, t)) × Becomes s id (waits s id (suc n)) t
unfolding trigger
trigger-counts s id n h =
    let some_left : ((the_obj s id).count == 0) ≡ false = ground arith in
    let more : ((the_obj s id).count - 1 == 0) ≡ false = ground arith in
    let less : (the_obj s id).count - 1 ≡ suc n = omega arith in
    (
      with_obj (with_obj s id (waits s id (the_obj s id).count)) id (waits s id (suc n)),
      rw (some_left) (rw more (rw less)),
      with_obj-again s _ id _ _ (with_obj-Becomes s id (waits s id (the_obj s id).count)),
    )

object_en_queue_lem :
    (s : Vm) (id : ℕ)
    → is_object s.objects id ≡ true
    → object_en_queue id s ≡ some (tt, with_obj s id (started s id))
unfolding object_en_queue
object_en_queue_lem s id h = rw h

-- The states between the steps of the last trigger.
abbrev armed : Vm → ℕ → Vm
armed s id =
    with_obj (with_obj s id (waits s id (the_obj s id).count)) id
      (waits s id ((the_obj s id).count - 1))

abbrev again : Vm → ℕ → Vm
again s id = with_obj (armed s id) id (record (the_obj (armed s id) id) {
  ip = add_address s.p_image (the_head s id).offset_to_instructions;
  count = (the_head s id).trigger_count;
})

-- The last one starts the object.
trigger-starts :
    (s : Vm) (id : ℕ)
    → is_object s.objects id ≡ true
    → (the_obj s id).count ≡ 1
    → (t : Vm) × (trigger id s ≡ some (tt, t)) × Becomes s id (started s id) t
unfolding trigger
trigger-starts s id v h =
    let some_left : ((the_obj s id).count == 0) ≡ false = ground arith in
    let last : ((the_obj s id).count - 1 == 0) ≡ true = ground arith in
    (
      with_obj (again s id) id (started (again s id) id),
      rw some_left (rw last (object_en_queue_lem (again s id) id v)),
      subst (λ o. Becomes s id o (with_obj (again s id) id (started (again s id) id))) started-again
          (with_obj-again s (again s id) id _ _ (
            with_obj-again s (armed s id) id _ _ (
              with_obj-again s _ id _ _
                (with_obj-Becomes s id (waits s id (the_obj s id).count))))),
    )
  where
    reset_obj : Obj → Obj
    reset_obj o = record o {
      ip = add_address s.p_image (the_head s id).offset_to_instructions;
      count = (the_head s id).trigger_count;
    }

    started-again : started (again s id) id ≡ started s id
    started-again =
        ap (λ (o : Obj). record (reset_obj o) { obj_status = running })
          (the_obj-with_obj (armed s id) id _)
        ∙ ap (λ (o : Obj). record (reset_obj o) { obj_status = running })
            (the_obj-with_obj (with_obj s id (waits s id (the_obj s id).count)) id
              (waits s id ((the_obj s id).count - 1)))

-- What an object is when `n` of the triggers that it waits for are still to come.
abbrev pub progress : Vm → ℕ → ℕ → Obj
progress s id zero = started s id
progress s id (suc n) = waits s id (suc n)

Becomes-trans :
    {s t u : Vm} (id : ℕ) {o o' : Obj} → Becomes s id o t → Becomes t id o' u → Becomes s id o' u
Becomes-trans {s} {t} {u} id b c = record {
  this = c.this;
  others = λ p i h.
      let e : t.p_obj_list ≡ s.p_obj_list = ap (λ (v : Vm). v.p_obj_list) b.rest in
      c.others p i (rw e h) ∙ b.others p i h;
  rest = c.rest ∙ ap (λ (v : Vm). record v { obj = u.obj }) b.rest;
}

-- The count and the status do not bear on what the object becomes in the end.
progress-waits :
    {s t : Vm} (id n m : ℕ) → Becomes s id (waits s id m) t → progress t id n ≡ progress s id n
progress-waits {s} {t} id zero m b =
    ap
      (λ (v : Vm). record (the_obj t id) {
        obj_status = running;
        ip = add_address v.p_image (the_head v id).offset_to_instructions;
        count = (the_head v id).trigger_count;
      })
      b.rest
    ∙ ap
        (λ (o : Obj). record o {
          obj_status = running;
          ip = add_address s.p_image (the_head s id).offset_to_instructions;
          count = (the_head s id).trigger_count;
        })
        b.this
progress-waits id (suc n) m b =
    ap (λ (o : Obj). record o { obj_status = waiting; count = suc n }) b.this

-- A block, one of the program's objects, that waits for `k + n` triggers gets `k` of them, at least
-- one. If `n` is 0 it now runs from its first
-- instruction with its trigger count set up again; else it waits for `n` more. No other object and
-- nothing else has changed.
pub triggers_lem :
    (k n id : ℕ) (s : Vm)
    → is_object s.objects id ≡ true
    → (the_obj s id).count ≡ k + n
    → 0 < k
    → (t : Vm) × (triggers k id s ≡ some (tt, t)) × Becomes s id (progress s id n) t
unfolding triggers
triggers_lem zero n id s v h p = elim p [ ]
triggers_lem (suc zero) zero id s v h p =
    let (t, e, b) = trigger-starts s id v (omega arith) in (t, >>=-some (trigger id) _ e, b)
triggers_lem (suc zero) (suc n) id s v h p =
    let (t, e, b) = trigger-counts s id n (omega arith) in (t, >>=-some (trigger id) _ e, b)
triggers_lem (suc (suc k)) n id s v h p =
    let (t, e, b) = trigger-counts s id (k + n) (omega arith) in
    let left : (the_obj t id).count ≡ suc k + n = ap (λ (o : Obj). o.count) b.this ∙ omega arith in
    let valid : is_object t.objects id ≡ true =
      ap (λ (w : Vm). is_object w.objects id) b.rest ∙ v in
    let (u, e', c) = triggers_lem (suc k) n id t valid left (omega arith) in
    (
      u,
      >>=-some (trigger id) _ e ∙ e',
      Becomes-trans id b (subst (λ o. Becomes t id o u) (progress-waits id n _ b) c),
    )
