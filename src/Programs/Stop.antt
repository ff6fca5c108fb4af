-- ===== src/Programs/Stop.antt =====
-- `ProgramEnd` stops one program; opPROGRAM_STOP of the UI's slot stops all of them.
use lms2012_compat.Prelude.{
  ℕ, zero, suc, ◌≤◌, ◌<◌, ◌≡◌, refl, ◌≢◌, ◌∙◌, ap, true, false, ◌==◌, ltb, if◌then◌else◌, some,
  none, Option, arith, Bool-cases, inl, inr, ◌⊎◌,
}
use lms2012_compat.Vm.{
  Vm, Prg, ObjStat, running, waiting, stopped, halted, prgbreak, ok, M, ◌>>=◌, ◌>>◌, pure, gets,
}
use lms2012_compat.Vm.Run.{Yields, Yields-bind}
use lms2012_compat.Dispatch.{set_dispatch_status}
use lms2012_compat.Timer.{Timeval}
use lms2012_compat.Objects.{is_stopped}
use lms2012_compat.Programs.{
  set_program, with_program, c_memory_close, release_devices, end_program, program_end, end_all,
}

-- A run that returns, in a state that meets a condition.
abbrev pub Returns : {A : Type 0} → (Vm → Type 0) → Option (A × Vm) → Type 0
Returns P o = Yields (λ _. P) o

Returns-bind :
    {A B : Type 0} (P Q : Vm → Type 0) (o : Option (A × Vm)) (f : A → M B) (s : Vm)
    → Returns P o
    → ((a : A) (t : Vm) → P t → Returns Q (f a t))
    → Returns Q (((λ _. o) >>= f) s)
Returns-bind P Q o f s h k = Yields-bind (λ _. P) (λ _. Q) o f s h k

-- The program `id` has stopped, and the other ones are as they were.
pub record Stopped (id : ℕ) (s t : Vm) : Type 0 where
  pub this : (t.program id).status ≡ stopped
  pub others : (j : ℕ) → j ≢ id → t.program j ≡ s.program j
  pub same_codes : t.codes ≡ s.codes

-- Nothing happened to the programs.
abbrev Same : Vm → Vm → Type 0
Same s t = (t.program ≡ s.program) × (t.codes ≡ s.codes)

Stopped-Same : (s t u : Vm) (id : ℕ) → Stopped id s t → Same t u → Stopped id s u
Stopped-Same s t u id h (p, c) = record {
  this = ap (λ (f : ℕ → Prg). (f id).status) p ∙ h.this;
  others = λ j ne. ap (λ (f : ℕ → Prg). f j) p ∙ h.others j ne;
  same_codes = c ∙ h.same_codes;
}

-- Writing a stopped record stops the program.
with_program-Stopped :
    {s t : Vm} (id : ℕ) (p : Prg)
    → p.status ≡ stopped
    → ((j : ℕ) → j ≢ id → t.program j ≡ s.program j)
    → t.codes ≡ s.codes
    → Stopped id s (with_program t id p)
with_program-Stopped {s} {t} id p e others codes = record {
  this = let same : (id == id) ≡ true = ground arith in rw same e;
  others = λ j ne. let differ : (j == id) ≡ false = ground arith in rw differ (others j ne);
  same_codes = codes;
}

release_devices-Same : (id : ℕ) (s : Vm) → Returns (Same s) (release_devices id s)
unfolding release_devices
release_devices-Same id s = elim (Bool-cases (id == s.codes.user_slot)) [
  | inl e ↦ rw e (refl, refl)
  | inr e ↦ rw e (refl, refl)
]

break_current-Same :
    (id current : ℕ) (s : Vm)
    → Returns (Same s) ((if id == current then set_dispatch_status prgbreak else pure tt) s)
unfolding set_dispatch_status
break_current-Same id current s = elim (Bool-cases (id == current)) [
  | inl e ↦ rw e (refl, refl)
  | inr e ↦ rw e (refl, refl)
]

-- What comes behind the write of the record.
end_program-rest :
    (id : ℕ) (s t : Vm)
    → Stopped id s t
    → Returns (Stopped id s) (
        (do
          release_devices id
          c_memory_close id
          current ← gets (λ s. s.program_id)
          if id == current then set_dispatch_status prgbreak else pure tt
          p ← gets (λ s. s.program id)
          set_program id (record p { result = ok }))
          t)
unfolding c_memory_close set_program
end_program-rest id s t h =
    Returns-bind (Same t) (Stopped id s) (release_devices id t) _ t (release_devices-Same id t)
      λ _ u same.
        Returns-bind (Same u) (Stopped id s) _ _ u (break_current-Same id u.program_id _)
          λ _ v same'.
            let stopped_u : Stopped id s u = Stopped-Same s t u id h same in
            let stopped_v : Stopped id s v = Stopped-Same s u v id stopped_u same' in
            with_program-Stopped id _ stopped_v.this stopped_v.others stopped_v.same_codes

-- A program that has not stopped is stopped.
end_program-Stopped :
    (tv : Timeval) (id : ℕ) (s : Vm) → Returns (Stopped id s) (end_program tv id s)
unfolding end_program
end_program-Stopped tv id s =
    end_program-rest id s _ (with_program-Stopped id _ refl (λ j ne. refl) refl)

is_stopped-cases :
    (st : ObjStat) → (is_stopped st ≡ true) × (st ≡ stopped) ⊎ (is_stopped st ≡ false)
is_stopped-cases running = inr refl
is_stopped-cases waiting = inr refl
is_stopped-cases stopped = inl (refl, refl)
is_stopped-cases halted = inr refl

-- `ProgramEnd` always returns; the program has then stopped, and the other programs are as before.
pub program_end-Stopped :
    (tv : Timeval) (id : ℕ) (s : Vm) → Returns (Stopped id s) (program_end tv id s)
unfolding program_end
program_end-Stopped tv id s = elim (is_stopped-cases (s.program id).status) [
  | inl (e, st) ↦ rw e (record { this = st; others = λ j ne. refl; same_codes = refl })
  | inr e ↦ rw e (end_program-Stopped tv id s)
]

-- The programs below `n` have stopped, the ones from `n` on are as they were.
pub record AllStopped (n : ℕ) (s t : Vm) : Type 0 where
  pub below : (i : ℕ) → i < n → (t.program i).status ≡ stopped
  pub above : (i : ℕ) → n ≤ i → t.program i ≡ s.program i
  pub same_codes : t.codes ≡ s.codes

AllStopped-suc : {n : ℕ} {s t u : Vm} → Stopped n s t → AllStopped n t u → AllStopped (suc n) s u
AllStopped-suc {n} {s} {t} {u} h k = record {
  below = λ i l. elim (Bool-cases (ltb i n)) [
    | inl lower ↦ k.below i (ground arith)
    | inr last ↦
        let e : i ≡ n = ground arith in
        rw e (ap (λ (p : Prg). p.status) (k.above n (omega arith)) ∙ h.this)
  ];
  above = λ i l. k.above i (omega arith) ∙ h.others i (omega arith);
  same_codes = k.same_codes ∙ h.same_codes;
}

Returns-mono :
    {A : Type 0} {P Q : Vm → Type 0} (o : Option (A × Vm))
    → Returns P o
    → ((t : Vm) → P t → Q t)
    → Returns Q o
Returns-mono none h f = h
Returns-mono (some (a, t)) h f = f t h

-- The loop of opPROGRAM_STOP for the UI's slot, from `n` slots on down, always ends; the programs of
-- those slots have then stopped, and other ones are as before.
pub end_all-AllStopped :
    (tv : ℕ → Timeval) (n : ℕ) (s : Vm) → Returns (AllStopped n s) (end_all tv n s)
unfolding end_all
end_all-AllStopped tv zero s = record {
  below = λ i h. absurd (omega arith);
  above = λ i h. refl;
  same_codes = refl;
}
end_all-AllStopped tv (suc n) s =
    Returns-bind (Stopped n s) (AllStopped (suc n) s) (program_end (tv n) n s) _ s
      (program_end-Stopped (tv n) n s)
      λ _ t h. Returns-mono (end_all tv n t) (end_all-AllStopped tv n t) (λ u. AllStopped-suc h)
