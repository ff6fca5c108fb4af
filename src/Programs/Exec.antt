-- ===== src/Programs/Exec.antt =====
-- `ProgramExec` is a fair search over the slots: it takes the next program after the current one that
-- has not stopped.
use lms2012_compat.Prelude.{
  ℕ, zero, suc, ◌+◌, ◌-◌, ◌^◌, ◌≤◌, ◌<◌, ◌≡◌, refl, ◌∙◌, ◌⊎◌, inl, inr, Bool, true, false, ltb,
  Option, some, arith, Bool-cases,
}
use lms2012_compat.Vm.{Vm, Result, ok, stop}
use lms2012_compat.Objects.{is_stopped}
use lms2012_compat.Programs.{any_active, next_program, find_active, program_exec}

-- The slot `k` places after `id`, of `n` slots.
abbrev pub visit : ℕ → ℕ → ℕ → ℕ
visit n zero id = id
visit n (suc k) id = visit n k (next_program n id)

visit_up : (n k id : ℕ) → n < 2 ^ 16 → id + k < n → visit n k id ≡ id + k
visit_up n zero id small h = omega arith
visit_up n (suc k) id small h =
    let step : next_program n id ≡ id + 1 = ground arith in
    rw step (omega (arith, visit_up n k (id + 1) small (omega arith)))

-- Going round, past the last slot.
visit_round : (n m id i : ℕ) → n < 2 ^ 16 → id + suc m ≡ n → i < n → visit n (suc m + i) id ≡ i
visit_round n zero id i small e h =
    let count : suc zero + i ≡ suc i = omega arith in
    let wrap : next_program n id ≡ 0 = ground arith in
    rw count (rw (wrap, visit) (omega (arith, visit_up n i 0 small (omega arith))))
visit_round n (suc m) id i small e h =
    let count : suc (suc m) + i ≡ suc (suc m + i) = omega arith in
    let step : next_program n id ≡ id + 1 = ground arith in
    rw count (rw (step, visit) (visit_round n m (id + 1) i small (omega arith) h))

-- Every slot is met within one round, the current one last.
visits_all :
    (n id i : ℕ) → n < 2 ^ 16 → id < n → i < n → (k : ℕ) × (1 ≤ k) × (k ≤ n) × (visit n k id ≡ i)
visits_all n id i small h l = elim (Bool-cases (ltb id i)) [
  | inl up ↦ (
    i - id,
    ground arith,
    ground arith,
    visit_up n (i - id) id small (ground arith) ∙ ground arith,
  )
  | inr down ↦ (
    suc (n - id - 1) + i,
    omega arith,
    ground arith,
    visit_round n (n - id - 1) id i small (omega arith) l,
  )
]

module _ (halts : ℕ → Bool) where
  any_active-cases :
      (m id : ℕ)
      → ((any_active m halts id ≡ true) × ((i : ℕ) × (id ≤ i) × (i < id + m) × (halts i ≡ false)))
        ⊎ ((any_active m halts id ≡ false) × ((i : ℕ) → id ≤ i → i < id + m → halts i ≡ true))
  unfolding any_active
  any_active-cases zero id = inr (refl, λ i p q. absurd (omega arith))
  any_active-cases (suc m) id = elim (Bool-cases (halts id)) [
    | inr t ↦ inl (rw t, (id, omega arith, omega arith, t))
    | inl t ↦ elim (any_active-cases m (id + 1)) [
      | inl (e, (i, p, q, f)) ↦ inl (rw (t, e), (i, omega arith, omega arith, f))
      | inr (e, all) ↦ inr (rw (t, e), first t all)
    ]
  ]
    where
      first :
          halts id ≡ true
          → ((i : ℕ) → id + 1 ≤ i → i < id + 1 + m → halts i ≡ true)
          → (i : ℕ) → id ≤ i
          → i < id + suc m
          → halts i ≡ true
      first t all i p q = elim (Bool-cases (ltb id i)) [
        | inl above ↦ all i (ground arith) (omega arith)
        | inr here ↦ let e : i ≡ id = ground arith in rw e t
      ]

  -- The search stops at the first slot whose program has not stopped, if there is one in reach.
  find_active-first :
      (fuel n id k : ℕ)
      → 1 ≤ k
      → k ≤ fuel
      → halts (visit n k id) ≡ false
      → (j : ℕ) × (1 ≤ j)
        × (j ≤ k)
        × (find_active fuel halts n id ≡ some (visit n j id))
        × (halts (visit n j id) ≡ false)
        × ((i : ℕ) → 1 ≤ i → i < j → halts (visit n i id) ≡ true)
  unfolding find_active
  find_active-first zero n id k lo hi h = absurd (omega arith)
  find_active-first (suc fuel) n id zero lo hi h = absurd (omega arith)
  find_active-first (suc fuel) n id (suc zero) lo hi h =
      (1, omega arith, omega arith, rw h, h, λ i p q. absurd (omega arith))
  find_active-first (suc fuel) n id (suc (suc k)) lo hi h =
      elim (Bool-cases (halts (next_program n id))) [
        | inr t ↦ (1, omega arith, omega arith, rw t, t, λ i p q. absurd (omega arith))
        | inl t ↦
            let (j, a, b, e, f, before) =
              find_active-first fuel n (next_program n id) (suc k) (omega arith) (omega arith) h in
            (suc j, omega arith, omega arith, rw t e, f, later t before)
      ]
    where
      later :
          {j : ℕ}
          → halts (next_program n id) ≡ true
          → ((i : ℕ) → 1 ≤ i → i < j → halts (visit n i (next_program n id)) ≡ true)
          → (i : ℕ) → 1 ≤ i
          → i < suc j
          → halts (visit n i id) ≡ true
      later t before zero p q = absurd (omega arith)
      later t before (suc zero) p q = t
      later t before (suc (suc i)) p q = before (suc i) (omega arith) (omega arith)

abbrev pub halted_program : Vm → ℕ → Bool
halted_program s i = is_stopped (s.program i).status

-- What `ProgramExec` leaves.
abbrev pub Outcome : Vm → Option (Result × Vm) → Type 0
Outcome s r =
    let n = s.codes.max_programs in
    ((j : ℕ) × (1 ≤ j)
      × (j ≤ n)
      × (r ≡ some (ok, record s { program_id = visit n j s.program_id }))
      × (halted_program s (visit n j s.program_id) ≡ false)
      × ((i : ℕ) → 1 ≤ i → i < j → halted_program s (visit n i s.program_id) ≡ true))
    ⊎ ((r ≡ some (stop, s)) × ((i : ℕ) → i < n → halted_program s i ≡ true))

-- With fewer than 65536 slots and from a current program among them, the search for a program always
-- ends. Either it makes the first program after the current one, in
-- cyclic order, that has not stopped the current one and answers OK, or it answers STOP, changes
-- nothing, and the programs of all slots have stopped.
pub program_exec_lem :
    (s : Vm)
    → s.codes.max_programs < 2 ^ 16
    → s.program_id < s.codes.max_programs
    → Outcome s (program_exec s)
unfolding program_exec
program_exec_lem s small h = elim (any_active-cases (halted_program s) s.codes.max_programs 0) [
  | inl (e, (i, p, q, f)) ↦
      let (k, a, b, v) = visits_all s.codes.max_programs s.program_id i small h (omega arith) in
      let (j, c, d, g, t, before) =
        find_active-first (halted_program s) s.codes.max_programs s.codes.max_programs s.program_id
          k a b (rw v f) in
      inl (j, c, omega arith, rw e (rw g), t, before)
  | inr (e, all) ↦ inr (rw e, λ i l. all i (omega arith) (omega arith))
]
