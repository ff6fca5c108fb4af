-- ===== src/Sched/Slice.antt =====
-- A time slice whose byte codes do not raise the priority ends, and executes no more of them than the
-- priority that it starts with.
use lms2012_compat.Prelude.{
  ℕ, zero, suc, ◌+◌, ◌-◌, ◌%◌, ◌^◌, ◌≤◌, ◌<◌, ◌≡◌, ap, ◌∙◌, Bool, true, false, ◌==◌, if◌then◌else◌,
  Option, none, some, arith, Bool-cases, inl, inr,
}
use lms2012_compat.Vm.{add_address}
use lms2012_compat.Param.{fetch}
use lms2012_compat.Sched.{Sched, S, ◌>>=◌, Devices, execute, lower_priority, run_one, round, slice}

-- A run that returns, in a state that meets a condition.
abbrev pub Gives : {A : Type 0} → (Sched → Type 0) → Option (A × Sched) → Type 0
Gives P none = ⊥
Gives P (some (a, t)) = P t

-- A byte code that returns, does not lengthen the slice and does not switch the monitor on.
pub record Calm (s t : Sched) : Type 0 where
  pub shorter : t.vm.priority ≤ s.vm.priority
  pub no_debug : t.vm.debug ≡ s.vm.debug
  pub same_count : t.vm.instr_cnt ≡ s.vm.instr_cnt

-- The op-code of the next byte code, and the machine when it is executed
abbrev pub next_op : Sched → ℕ
next_op s = s.vm.mem s.vm.object_ip % 256

abbrev pub fetched : Sched → Sched
fetched s = record s {
  vm = record s.vm { priority = s.vm.priority - 1; object_ip = add_address s.vm.object_ip 1 };
}

-- In the states of a set, the next byte code is calm, and leads to a state of the set.
abbrev pub StaysCalm : Devices → (Sched → Type 0) → Type 0
StaysCalm d P =
    (s : Sched) → P s → Gives (λ t. Calm (fetched s) t × P t) (d.dispatch (next_op s) (fetched s))

-- The machine is at the end of a slice that executed `k` byte codes.
abbrev pub Ran : ℕ → Sched → Sched → Type 0
Ran n s t =
    (k : ℕ) × (k ≤ n) × (t.vm.priority ≡ 0) × (t.vm.instr_cnt ≡ (s.vm.instr_cnt + k) % 2 ^ 32)

record OneRun (P : Sched → Type 0) (s t : Sched) : Type 0 where
  lower : t.vm.priority < s.vm.priority
  off : t.vm.debug ≡ 0
  counted : t.vm.instr_cnt ≡ (s.vm.instr_cnt + 1) % 2 ^ 32
  inside : P t

-- The count of instructions is no part of the set.
abbrev pub IgnoresCount : (Sched → Type 0) → Type 0
IgnoresCount P = (s : Sched) (n : ℕ) → P s → P (record s { vm = record s.vm { instr_cnt = n } })

Gives-bind :
    {A B : Type 0} (P Q : Sched → Type 0) (o : Option (A × Sched)) (f : A → S B) (s : Sched)
    → Gives P o
    → ((a : A) (t : Sched) → P t → Gives Q (f a t))
    → Gives Q (((λ _. o) >>= f) s)
Gives-bind P Q none f s h k = absurd h
Gives-bind P Q (some (a, t)) f s h k = k a t h

run_one-OneRun :
    (P : Sched → Type 0) (d : Devices) (s : Sched)
    → StaysCalm d P
    → IgnoresCount P
    → P s
    → s.vm.debug ≡ 0
    → 0 < s.vm.priority
    → Gives (OneRun P s) (run_one d s)
unfolding run_one lower_priority execute fetch
run_one-OneRun P d s c i q e p =
    Gives-bind (λ t. Calm (fetched s) t × P t) (OneRun P s) (d.dispatch (next_op s) (fetched s)) _
      (fetched s) (c s q)
      λ a t (h, k). record {
        lower = omega (arith, h.shorter, p);
        off = h.no_debug ∙ e;
        counted = ap (λ (n : ℕ). (n + 1) % 2 ^ 32) h.same_count;
        inside = i t ((t.vm.instr_cnt + 1) % 2 ^ 32) k;
      }

Gives-known :
    {A : Type 0} (P : Sched → Type 0) (b c : Bool) (x y : Option (A × Sched))
    → b ≡ c
    → Gives P (if c then x else y)
    → Gives P (if b then x else y)
Gives-known P b c x y e h = rw e h

Gives-map :
    {A : Type 0} (P Q : Sched → Type 0) (o : Option (A × Sched))
    → ((t : Sched) → P t → Q t)
    → Gives P o
    → Gives Q o
Gives-map P Q none f h = h
Gives-map P Q (some (a, t)) f h = f t h

round-OneRun :
    (P : Sched → Type 0) (d : Devices) (s : Sched)
    → StaysCalm d P
    → IgnoresCount P
    → P s
    → s.vm.debug ≡ 0
    → 0 < s.vm.priority
    → Gives (OneRun P s) (round d s)
unfolding round
round-OneRun P d s c i q e p =
    Gives-known (OneRun P s) (s.vm.debug == 0) true (run_one d s) _ (ground (arith, e))
      (run_one-OneRun P d s c i q e p)

-- A round and what comes behind it
Ran-more :
    (P : Sched → Type 0) (s t u : Sched)
    → OneRun P s t
    → Ran t.vm.priority t u
    → Ran s.vm.priority s u
Ran-more P s t u o (k, l, z, e) = (k + 1, omega (arith, l, o.lower), z, e ∙ count o.counted)
  where
    count :
        t.vm.instr_cnt ≡ (s.vm.instr_cnt + 1) % 2 ^ 32
        → (t.vm.instr_cnt + k) % 2 ^ 32 ≡ (s.vm.instr_cnt + (k + 1)) % 2 ^ 32
    count h = omega (arith, h)

-- Where the monitor is off, and from the start of a time slice on every byte code that comes next returns,
-- leaves the monitor off, and neither raises the priority nor counts instructions itself (which holds of
-- a set of states that the start is in and that the byte codes do not leave), the slice ends, with as
-- much fuel as its priority and one more: it has executed at most as many byte codes as the priority it
-- started with, and counted them.
pub slice-Ran :
    (P : Sched → Type 0) (fuel : ℕ) (d : Devices) (s : Sched)
    → StaysCalm d P
    → IgnoresCount P
    → P s
    → s.vm.debug ≡ 0
    → s.vm.priority < fuel
    → s.vm.instr_cnt < 2 ^ 32
    → Gives (Ran s.vm.priority s) (slice d fuel s)
unfolding slice
slice-Ran P zero d s c i q e l n = absurd (omega (arith, l))
slice-Ran P (suc fuel) d s c i q e l n = elim (Bool-cases (s.vm.priority == 0)) [
  | inl z ↦
      Gives-known (Ran s.vm.priority s) (s.vm.priority == 0) true _ _ z
        (0, omega arith, ground arith, omega (arith, n))
  | inr z ↦ Gives-known (Ran s.vm.priority s) (s.vm.priority == 0) false _ _ z (
      Gives-bind (OneRun P s) (Ran s.vm.priority s) (round d s) _ s
        (round-OneRun P d s c i q e (ground arith))
        λ a t h.
          Gives-map (Ran t.vm.priority t) _ (slice d fuel t) (λ u r. Ran-more P s t u h r)
            (slice-Ran P fuel d t c i h.inside h.off (omega (arith, l, h.lower))
              (omega (arith, h.counted))))
]
