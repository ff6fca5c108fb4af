-- ===== src/Lcd/Octant.antt =====
-- How close the places of an eighth of a circle are to it, and that their loop ends.
use lms2012_compat.Prelude.{
  ℕ, zero, suc, ◌+◌, ◌*◌, ◌≤◌, ◌<◌, ◌≡◌, refl, inl, inr, true, false, List, [], ◌∷◌, some, arith,
  Bool-cases, ltb,
}
use lms2012_compat.Prelude.Int.{ℤ, pos, pos_part, neg_part, ◌+ℤ◌, ◌-ℤ◌, ◌*ℤ◌, ltb_ℤ, leb_ℤ}
use lms2012_compat.Lcd.Line.{Point}
use lms2012_compat.Lcd.Circle.{Arc, arc_step, arc_loop}

-- `P` compares the squares of the two places that may be next.
abbrev pub Decides : ℕ → ℕ → ℕ → ℤ → Type 0
Decides r x y d =
    pos_part d + (r * r + r * r) + (y + y)
    ≡ neg_part d + (suc x * suc x + suc x * suc x) + (y * y + y * y) + 1

abbrev pub NearCircle : ℕ → ℕ → ℕ → Type 0
NearCircle r x y = (r * r ≤ x * x + y * y + y) × (x * x + y * y ≤ r * r + y + 1)

abbrev pub Inside : ℕ → ℕ → ℕ → Type 0
Inside r x y = (r * r ≤ x * x + y * y + y) × (x * x + y * y ≤ r * r + y)

step_out :
    (r x y : ℕ) (d : ℤ)
    → Decides r x y d
    → Inside r x y
    → x < y
    → ltb_ℤ d (pos 0) ≡ true
    → Decides r (suc x) y (d +ℤ pos 4 *ℤ pos x +ℤ pos 6) × Inside r (suc x) y
unfolding ◌+ℤ◌ ◌*ℤ◌
step_out r x y d h near lt k = (ground arith, ground arith)

step_in :
    (r x y : ℕ) (d : ℤ)
    → Decides r x (suc y) d
    → Inside r x (suc y)
    → x ≤ y
    → ltb_ℤ d (pos 0) ≡ false
    → Decides r (suc x) y (d +ℤ pos 4 *ℤ (pos x -ℤ pos (suc y)) +ℤ pos 10)
      × (r * r ≤ suc x * suc x + y * y + y)
      × (suc x * suc x + y * y ≤ r * r + y + 1)
      × (x < y → suc x * suc x + y * y ≤ r * r + y)
unfolding ◌+ℤ◌ ◌-ℤ◌ ◌*ℤ◌
step_in r x y d h near lt k = (ground arith, ground arith, ground arith, λ p. ground arith)

-- A place in the column `x`, close to the circle
abbrev pub CloseTo : ℕ → ℕ → Point → Type 0
CloseTo r x p = (y : ℕ) × (p ≡ record { x = pos x; y = pos y }) × NearCircle r x y

-- The last place is not below the diagonal.
abbrev pub Reaches : ℕ → Point → Type 0
Reaches x p = leb_ℤ p.y (pos x) ≡ true

-- One place in each column from `x` on, up to the diagonal, each of them close to the circle
abbrev pub AllCloseTo : ℕ → ℕ → List Point → Type 0
AllCloseTo r x [] = ⊥
AllCloseTo r x (p ∷ []) = CloseTo r x p × Reaches x p
AllCloseTo r x (p ∷ (q ∷ ps)) = CloseTo r x p × AllCloseTo r (suc x) (q ∷ ps)

AllCloseTo-cons :
    (r x : ℕ) (p : Point) (ps : List Point)
    → CloseTo r x p
    → AllCloseTo r (suc x) ps
    → AllCloseTo r x (p ∷ ps)
AllCloseTo-cons r x p [] h k = absurd k
AllCloseTo-cons r x p (q ∷ ps) h k = (h, k)

abbrev pub arc_at : ℕ → ℕ → ℤ → Arc
arc_at x y d = record { arc_x = pos x; arc_y = pos y; decision = d }

-- What the loop returns from a place on.
abbrev pub Plots : ℕ → ℕ → ℕ → Arc → Type 0
Plots r n x a = (ps : List Point) × (arc_loop n a ≡ some ps) × AllCloseTo r x ps

arc_loop-done : (r n x y : ℕ) (d : ℤ) → NearCircle r x y → y ≤ x → Plots r n x (arc_at x y d)
unfolding arc_loop
arc_loop-done r zero x y d near le =
    let e : ltb_ℤ (pos x) (pos y) ≡ false = ground arith in
    (record { x = pos x; y = pos y } ∷ [], rw e refl, ((y, refl, near), ground arith))
arc_loop-done r (suc n) x y d near le =
    let e : ltb_ℤ (pos x) (pos y) ≡ false = ground arith in
    (record { x = pos x; y = pos y } ∷ [], rw e refl, ((y, refl, near), ground arith))

arc_loop-more :
    (r n x y : ℕ) (d : ℤ)
    → NearCircle r x y
    → x < y
    → Plots r n (suc x) (arc_step (arc_at x y d))
    → Plots r (suc n) x (arc_at x y d)
unfolding arc_loop
arc_loop-more r n x y d near lt (ps, run, all) =
    let e : ltb_ℤ (pos x) (pos y) ≡ true = ground arith in
    (
      record { x = pos x; y = pos y } ∷ ps,
      rw (e, run) refl,
      AllCloseTo-cons r x (record { x = pos x; y = pos y }) ps (y, refl, near) all,
    )

next_of : (x : ℕ) → pos x +ℤ pos 1 ≡ pos (suc x)
unfolding ◌+ℤ◌
next_of x = ground arith

before : (y : ℕ) → pos (suc y) -ℤ pos 1 ≡ pos y
unfolding ◌-ℤ◌
before y = ground arith

arc_step-out :
    (x y : ℕ) (d : ℤ)
    → ltb_ℤ d (pos 0) ≡ true
    → arc_step (arc_at x y d) ≡ arc_at (suc x) y (d +ℤ pos 4 *ℤ pos x +ℤ pos 6)
unfolding arc_step
arc_step-out x y d k = rw (k, next_of x) refl

arc_step-in :
    (x y : ℕ) (d : ℤ)
    → ltb_ℤ d (pos 0) ≡ false
    → arc_step (arc_at x (suc y) d)
      ≡ arc_at (suc x) y (d +ℤ pos 4 *ℤ (pos x -ℤ pos (suc y)) +ℤ pos 10)
unfolding arc_step
arc_step-in x y d k = rw (k, next_of x, before y) refl

-- The loop has as many rounds as `Y` is above `X` at most, and stays close.
pub arc_loop-Plots :
    (r n x y : ℕ) (d : ℤ) → Decides r x y d → Inside r x y → y ≤ x + n → Plots r n x (arc_at x y d)
arc_loop-Plots r zero x y d dec near le = arc_loop-done r zero x y d (ground arith) (omega arith)
arc_loop-Plots r (suc n) x zero d dec near le =
    arc_loop-done r (suc n) x zero d (ground arith) (omega arith)
arc_loop-Plots r (suc n) x (suc y) d dec near le = elim (Bool-cases (ltb x (suc y))) [
  | inr ge ↦ arc_loop-done r (suc n) x (suc y) d (ground arith) (ground arith)
  | inl lt ↦
      arc_loop-more r n x (suc y) d (ground arith) (ground arith)
        (elim (Bool-cases (ltb_ℤ d (pos 0))) [
          | inl k ↦
              let s = step_out r x (suc y) d dec near (ground arith) k in
              rw (arc_step-out x (suc y) d k) (
                arc_loop-Plots r n (suc x) (suc y) (d +ℤ pos 4 *ℤ pos x +ℤ pos 6) s.0 s.1
                  (omega arith))
          | inr k ↦
              let s = step_in r x y d dec near (ground arith) k in
              rw (arc_step-in x y d k) (elim (Bool-cases (ltb x y)) [
                | inl lt' ↦
                    arc_loop-Plots r n (suc x) y (d +ℤ pos 4 *ℤ (pos x -ℤ pos (suc y)) +ℤ pos 10)
                      s.0 (s.1, s.3 (ground arith)) (omega arith)
                | inr ge' ↦
                    arc_loop-done r n (suc x) y (d +ℤ pos 4 *ℤ (pos x -ℤ pos (suc y)) +ℤ pos 10)
                      (s.1, s.2) (ground arith)
              ])
        ])
]

pub Decides-start : (r : ℕ) → Decides r 0 r (pos 3 -ℤ pos 2 *ℤ pos r)
unfolding ◌-ℤ◌ ◌*ℤ◌
Decides-start r = ground arith
