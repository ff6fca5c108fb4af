-- ===== src/Prelude/Options.antt =====
-- Chains of optional results.
use mathlib.Core.Bool.{Bool, true, false}
use mathlib.Core.Option.{Option, none, some}
use lms2012_compat.Prelude.Tests.{if◌then◌else◌}

infixl 5 ◌>>=◌
abbrev pub ◌>>=◌ {ℓ κ} : {A : Type ℓ} → {B : Type κ} → Option A → (A → Option B) → Option B
none >>= f = none
some a >>= f = f a

-- What holds of the result, if there is one.
abbrev pub IfSome : {A : Type 0} → (A → Type 0) → Option A → Type 0
IfSome P none = Unit {0}
IfSome P (some a) = P a

pub IfSome-bind :
    {A B : Type 0} (Q : A → Type 0) (P : B → Type 0) (o : Option A) (f : A → Option B)
    → IfSome Q o
    → ((a : A) → Q a → IfSome P (f a))
    → IfSome P (o >>= f)
IfSome-bind Q P none f q h = tt
IfSome-bind Q P (some a) f q h = h a q

pub IfSome-each :
    {A B : Type 0} (P : B → Type 0) (o : Option A) (f : A → Option B)
    → ((a : A) → IfSome P (f a))
    → IfSome P (o >>= f)
IfSome-each P none f h = tt
IfSome-each P (some a) f h = h a

pub IfSome-if :
    {A : Type 0} (P : A → Type 0) (b : Bool) (x y : Option A)
    → IfSome P x
    → IfSome P y
    → IfSome P (if b then x else y)
IfSome-if P true x y h k = h
IfSome-if P false x y h k = k
