-- ===== src/Objects/Exec.antt =====
-- `ObjectExec` is a fair search: it takes the next running object after the current one, in turn.
use lms2012_compat.Prelude.{
  ℕ, zero, suc, ◌+◌, ◌-◌, ◌%◌, ◌^◌, ◌≤◌, ◌<◌, ◌≡◌, refl, ◌∙◌, ◌⊎◌, inl, inr, Bool, true, false, not,
  ◌&&◌, ◌==◌, ltb, Option, none, some, arith, Bool-cases,
}
use lms2012_compat.Vm.{Vm, Result, ok, stop}
use lms2012_compat.Objects.{is_running, is_stopped, next_object, find_running, object_exec}

-- The object `k` places after `id`, in the order that goes from the last object to the first.
abbrev pub visit : ℕ → ℕ → ℕ → ℕ
visit objects zero id = id
visit objects (suc k) id = visit objects k (next_object objects id)

module _ (runs : ℕ → Bool) (objects : ℕ) where
  -- How a search over the next `n` objects ends: at the first that runs, or with none of them running.
  abbrev pub FindsFirst : ℕ → ℕ → Option (Result × ℕ) → Type 0
  FindsFirst n id r =
      ((k : ℕ) × (1 ≤ k)
        × (k ≤ n)
        × (r ≡ some (ok, visit objects k id))
        × (runs (visit objects k id) ≡ true)
        × ((j : ℕ) → 1 ≤ j → j < k → runs (visit objects j id) ≡ false))
      ⊎ ((last : ℕ) × (r ≡ some (stop, last))
          × ((j : ℕ) → 1 ≤ j → j ≤ n → runs (visit objects j id) ≡ false))

  later :
      (id n : ℕ) (r : Option (Result × ℕ))
      → runs (next_object objects id) ≡ false
      → FindsFirst n (next_object objects id) r
      → FindsFirst (suc n) id r
  later id n r h (inl (k, a, b, e, t, before)) = inl (suc k, omega arith, omega arith, e, t, first)
    where
      first : (j : ℕ) → 1 ≤ j → j < suc k → runs (visit objects j id) ≡ false
      first zero p q = absurd (omega arith)
      first (suc zero) p q = h
      first (suc (suc j)) p q = before (suc j) (omega arith) (omega arith)
  later id n r h (inr (last, e, none_runs)) = inr (last, e, all)
    where
      all : (j : ℕ) → 1 ≤ j → j ≤ suc n → runs (visit objects j id) ≡ false
      all zero p q = absurd (omega arith)
      all (suc zero) p q = h
      all (suc (suc j)) p q = none_runs (suc j) (omega arith) (omega arith)

  find_running-FindsFirst :
      (fuel id tmp n : ℕ)
      → objects < 2 ^ 16 - 1
      → tmp + n ≡ objects
      → n < fuel
      → FindsFirst n id (find_running fuel runs objects id tmp)
  unfolding find_running
  find_running-FindsFirst zero id tmp n small e lt = elim lt [ ]
  find_running-FindsFirst (suc fuel) id tmp zero small e lt =
      let over : ltb objects ((tmp + 1) % 2 ^ 16) ≡ true = ground arith in
      rw over (inr (next_object objects id, refl, λ j p q. absurd (omega arith)))
  find_running-FindsFirst (suc fuel) id tmp (suc n) small e lt =
      let within : ltb objects ((tmp + 1) % 2 ^ 16) ≡ false = ground arith in
      elim (Bool-cases (runs (next_object objects id))) [
        | inl t ↦
            rw (within, t)
              (inl (1, omega arith, omega arith, refl, t, λ j p q. absurd (omega arith)))
        | inr t ↦
            rw (within, t)
              (later id n _ t (
                find_running-FindsFirst fuel (next_object objects id) ((tmp + 1) % 2 ^ 16) n small
                  (omega arith) (omega arith)))
      ]

-- Going on from `id` without passing the last object.
visit_up :
    (objects j id : ℕ) → objects < 2 ^ 16 - 1 → id + j ≤ objects → visit objects j id ≡ id + j
visit_up objects zero id small h = omega arith
visit_up objects (suc j) id small h =
    let step : next_object objects id ≡ id + 1 = ground arith in
    rw step (omega (arith, visit_up objects j (id + 1) small (omega arith)))

-- Going round: past the last object to the ones up to `id`.
visit_round :
    (objects n id i : ℕ)
    → objects < 2 ^ 16 - 1
    → id + n ≡ objects
    → 1 ≤ i
    → i ≤ objects
    → visit objects (n + i) id ≡ i
visit_round objects zero id zero small e lo hi = absurd (omega arith)
visit_round objects zero id (suc i) small e lo hi =
    let count : zero + suc i ≡ suc i = omega arith in
    let wrap : next_object objects id ≡ 1 = ground arith in
    rw count (rw (wrap, visit) (omega (arith, visit_up objects i 1 small (omega arith))))
visit_round objects (suc n) id i small e lo hi =
    let count : suc n + i ≡ suc (n + i) = omega arith in
    let step : next_object objects id ≡ id + 1 = ground arith in
    rw count (rw (step, visit) (visit_round objects n (id + 1) i small (omega arith) lo hi))

-- Every object is met within one round.
visits_all :
    (objects id i : ℕ)
    → objects < 2 ^ 16 - 1
    → id ≤ objects
    → 1 ≤ i
    → i ≤ objects
    → (j : ℕ) × (1 ≤ j) × (j ≤ objects) × (visit objects j id ≡ i)
visits_all objects id i small h lo hi = elim (Bool-cases (ltb id i)) [
  | inl up ↦ (
    i - id,
    ground arith,
    ground arith,
    visit_up objects (i - id) id small (ground arith) ∙ ground arith,
  )
  | inr down ↦ (
    objects - id + i,
    omega arith,
    ground arith,
    visit_round objects (objects - id) id i small (omega arith) lo hi,
  )
]

visit-in_range :
    (objects k id : ℕ)
    → objects < 2 ^ 16 - 1
    → 1 ≤ k
    → 1 ≤ objects
    → id ≤ objects
    → (1 ≤ visit objects k id) × (visit objects k id ≤ objects)
visit-in_range objects zero id small h n l = absurd (omega arith)
visit-in_range objects (suc zero) id small h n l = ground arith
visit-in_range objects (suc (suc k)) id small h n l =
    visit-in_range objects (suc k) (next_object objects id) small (omega arith) n (ground arith)

-- The objects of the current program that run.
abbrev pub runs : Vm → ℕ → Bool
runs s i = is_running (s.obj s.p_obj_list i).obj_status

-- Not the UI's slot beside a user program.
abbrev pub SchedulesAll : Vm → Type 0
SchedulesAll s =
    (s.program_id == s.codes.gui_slot && not (is_stopped (s.program s.codes.user_slot).status))
    ≡ false

-- What the search in a state leaves.
abbrev pub Outcome : Vm → Option (Result × Vm) → Type 0
Outcome s r =
    ((k : ℕ) × (1 ≤ k)
      × (k ≤ s.objects)
      × (r ≡ some (ok, record s { object_id = visit s.objects k s.object_id }))
      × (runs s (visit s.objects k s.object_id) ≡ true)
      × ((j : ℕ) → 1 ≤ j → j < k → runs s (visit s.objects j s.object_id) ≡ false))
    ⊎ ((last : ℕ) × (r ≡ some (stop, record s { object_id = last }))
        × ((i : ℕ) → 1 ≤ i → i ≤ s.objects → runs s i ≡ false))

-- Unless it is the UI's slot beside a user program, with fewer than 65535 objects and a current object
-- that is 0 or one of them, the scheduler always ends its search.
-- Either it makes the first running object after the current one, in cyclic order, the current
-- object and answers OK, or it answers STOP and none of the program's objects is running.
pub object_exec_lem :
    (s : Vm)
    → s.objects < 2 ^ 16 - 1
    → s.object_id ≤ s.objects
    → SchedulesAll s
    → Outcome s (object_exec s)
unfolding object_exec
object_exec_lem s small in_range all = rw all (
    lift _ (
      find_running-FindsFirst (runs s) s.objects (s.objects + 1) s.object_id 0 s.objects small
        (omega arith) (omega arith)))
  where
    lift :
        (r : Option (Result × ℕ))
        → FindsFirst (runs s) s.objects s.objects s.object_id r
        → Outcome s (elim r [ none ↦ none | some (a, id) ↦ some (a, record s { object_id = id }) ])
    lift r (inl (k, a, b, e, t, first)) = inl (k, a, b, rw e, t, first)
    lift r (inr (last, e, none_runs)) = inr (
      last,
      rw e,
      λ i lo hi.
          let (j, a, b, v) = visits_all s.objects s.object_id i small in_range lo hi in
          rw v at (none_runs j a b),
    )
