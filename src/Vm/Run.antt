-- ===== src/Vm/Run.antt =====
-- Running a `do` block whose first step is known.
use lms2012_compat.Prelude.{◌≡◌, Option, none, some, ap}
use lms2012_compat.Vm.{Vm, M, ◌>>=◌}

pub >>=-some :
    {A B : Type 0} (m : M A) (f : A → M B) {s t : Vm} {a : A}
    → m s ≡ some (a, t)
    → (m >>= f) s ≡ f a t
>>=-some {A} {B} m f e = ap (λ (o : Option (A × Vm)). after o) e
  where
    after : Option (A × Vm) → Option (B × Vm)
    after none = none
    after (some (a, t)) = f a t

-- A run that returns, with a result and a state that meet a condition.
abbrev pub Yields : {A : Type 0} → (A → Vm → Type 0) → Option (A × Vm) → Type 0
Yields P none = ⊥
Yields P (some (a, t)) = P a t

pub Yields-bind :
    {A B : Type 0} (P : A → Vm → Type 0) (Q : B → Vm → Type 0) (o : Option (A × Vm)) (f : A → M B)
    (s : Vm)
    → Yields P o
    → ((a : A) (t : Vm) → P a t → Yields Q (f a t))
    → Yields Q (((λ _. o) >>= f) s)
Yields-bind P Q none f s h k = absurd h
Yields-bind P Q (some (a, t)) f s h k = k a t h
