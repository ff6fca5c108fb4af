-- ===== src/Lcd/Round.antt =====
-- One round of the loop of `dLcdDrawLine`: how it changes `Diff`, and how close it stays to the line.
use lms2012_compat.Prelude.{
  ℕ, zero, suc, ◌+◌, ◌*◌, ◌≤◌, ◌<◌, ◌≡◌, refl, ◌⊎◌, inl, inr, true, false, ltb, leb, if◌then◌else◌,
  List, [], ◌∷◌, arith, Bool-cases,
}
use mathlib.Core.Path.{subst, sym}
use lms2012_compat.Prelude.Int.{ℤ, pos, negsuc, pos_part, neg_part, ◌+ℤ◌, ◌-ℤ◌, ltb_ℤ, eqb_ℤ}
use lms2012_compat.Lcd.Line.{Point, Line, Pen, length_of, inc_of, moves_x, moves_y, line_step}

-- A coordinate is `i` steps short of its end.
abbrev pub Short : ℤ → ℤ → ℕ → ℤ → Type 0
Short inc t i x = ((inc ≡ pos 1) × (x +ℤ pos i ≡ t)) ⊎ ((inc ≡ negsuc 0) × (t +ℤ pos i ≡ x))

pub Short-start : (a b : ℤ) → Short (inc_of a b) b (length_of a b) a
unfolding ◌+ℤ◌ ◌-ℤ◌
Short-start a b = elim (Bool-cases (ltb_ℤ a b)) [
  | inl h ↦ rw h (inl (refl, ground arith))
  | inr h ↦ rw h (inr (refl, ground arith))
]

Short-step : (inc t x : ℤ) (i : ℕ) → Short inc t (suc i) x → Short inc t i (x +ℤ inc)
unfolding ◌+ℤ◌
Short-step inc t x i (inl (e, h)) = inl (e, rw e (ground arith))
Short-step inc t x i (inr (e, h)) = inr (e, rw e (ground arith))

pub Short-here : (inc t x : ℤ) → Short inc t zero x → eqb_ℤ x t ≡ true
unfolding ◌+ℤ◌
Short-here inc t x (inl (e, h)) = ground arith
Short-here inc t x (inr (e, h)) = ground arith

pub Short-end : (inc t x : ℤ) → Short inc t zero x → x ≡ t
unfolding ◌+ℤ◌
Short-end inc t x (inl (e, h)) = ground arith
Short-end inc t x (inr (e, h)) = ground arith

pub Short-away : (inc t x : ℤ) (i : ℕ) → Short inc t (suc i) x → eqb_ℤ x t ≡ false
unfolding ◌+ℤ◌
Short-away inc t x i (inl (e, h)) = ground arith
Short-away inc t x i (inr (e, h)) = ground arith

-- `Diff` while `i` columns and `j` rows are left, as a difference of sums.
abbrev pub Balanced : ℕ → ℕ → ℕ → ℕ → ℤ → Type 0
Balanced a b i j d = pos_part d + j * a + b ≡ neg_part d + i * b + a

-- The place is at most half a pixel off the line: `i * b` is `j * a` on it.
abbrev pub Near : ℕ → ℕ → ℕ → ℕ → Type 0
Near a b i j =
    (i * b + i * b ≤ j * a + j * a + (if leb b a then a else b))
    × (j * a + j * a ≤ i * b + i * b + (if leb b a then a else b))

-- On a diagonal the same number of columns and rows is left.
diagonal : (a i j : ℕ) → 0 < a → i * a + i * a ≤ j * a + j * a + a → i ≤ j
diagonal a zero j p h = omega arith
diagonal a (suc i) zero p h = absurd (omega arith)
diagonal a (suc i) (suc j) p h = omega (arith, diagonal a i j p (omega arith))

abbrev pub left : ℕ → ℕ → ℕ → ℕ → ℕ
left a b i j = if leb b a then i else j

moves_x_major :
    (a b i j : ℕ) (d : ℤ)
    → Balanced a b i j d
    → Near a b i j
    → b < a
    → ltb_ℤ (pos 0 -ℤ pos b) (d +ℤ d) ≡ true
unfolding ◌+ℤ◌ ◌-ℤ◌
moves_x_major a b i j d h near lt = ground arith

moves_y_major :
    (a b i j : ℕ) (d : ℤ)
    → Balanced a b i j d
    → Near a b i j
    → a < b
    → ltb_ℤ (d +ℤ d) (pos a) ≡ true
unfolding ◌+ℤ◌ ◌-ℤ◌
moves_y_major a b i j d h near lt = ground arith

-- With equal lengths the line is a diagonal, and every round moves both ways.
moves_both :
    (a b i j : ℕ) (d : ℤ)
    → a ≡ b
    → Balanced a b i j d
    → Near a b i j
    → 0 < a
    → (i ≡ j) × (ltb_ℤ (pos 0 -ℤ pos b) (d +ℤ d) ≡ true) × (ltb_ℤ (d +ℤ d) (pos a) ≡ true)
unfolding ◌+ℤ◌ ◌-ℤ◌
moves_both a b i j d ab h near p =
    let near' : Near a a i j = subst (λ k. Near a k i j) (sym ab) near in
    let e : i ≡ j =
      omega (arith, diagonal a i j p (ground arith), diagonal a j i p (ground arith)) in
    let h' : Balanced a a j j d =
      subst (λ k. Balanced a a k j d) e (subst (λ k. Balanced a k i j d) (sym ab) h) in
    (e, ground arith, ground arith)

-- The pen while `i` columns and `j` rows are left of a line.
abbrev pub At : Line → Point → ℕ → ℕ → Pen → Type 0
At l q i j p =
    Short l.x_inc q.x i p.at_x
    × Short l.y_inc q.y j p.at_y
    × Balanced l.x_length l.y_length i j p.diff
    × Near l.x_length l.y_length i j
    × (i ≤ l.x_length)
    × (j ≤ l.y_length)

-- What remains to be shown of each kind of round: the moves that the tests choose do not pass the end,
-- and `Diff` and the distance from the line stay as they are described.
module _ (a b : ℕ) (d : ℤ) where
  only_x :
      (i j : ℕ)
      → Balanced a b (suc i) j d
      → Near a b (suc i) j
      → b < a
      → ltb_ℤ (d +ℤ d) (pos a) ≡ false
      → Balanced a b i j (d -ℤ pos b) × Near a b i j
  unfolding ◌+ℤ◌ ◌-ℤ◌
  only_x i j h near lt k = (ground arith, ground arith)

  only_y :
      (i j : ℕ)
      → Balanced a b i (suc j) d
      → Near a b i (suc j)
      → a < b
      → ltb_ℤ (pos 0 -ℤ pos b) (d +ℤ d) ≡ false
      → Balanced a b i j (d +ℤ pos a) × Near a b i j
  unfolding ◌+ℤ◌ ◌-ℤ◌
  only_y i j h near lt k = (ground arith, ground arith)

  both :
      (i j : ℕ)
      → Balanced a b (suc i) (suc j) d
      → Near a b (suc i) (suc j)
      → ltb_ℤ (pos 0 -ℤ pos b) (d +ℤ d) ≡ true
      → ltb_ℤ (d +ℤ d) (pos a) ≡ true
      → Balanced a b i j (d -ℤ pos b +ℤ pos a) × Near a b i j
  unfolding ◌+ℤ◌ ◌-ℤ◌
  both i j h near k m = (ground arith, ground arith)

  no_row : (i : ℕ) → Balanced a b (suc i) 0 d → 0 < a → ltb_ℤ (d +ℤ d) (pos a) ≡ false
  unfolding ◌+ℤ◌
  no_row i h p = ground arith

  no_column : (j : ℕ) → Balanced a b 0 (suc j) d → 0 < b → ltb_ℤ (pos 0 -ℤ pos b) (d +ℤ d) ≡ false
  unfolding ◌+ℤ◌ ◌-ℤ◌
  no_column j h p = ground arith

-- The rounds that the tests choose.
module _ (l : Line) (q : Point) (p : Pen) where
  step_x :
      (i j : ℕ)
      → At l q (suc i) j p
      → l.y_length < l.x_length
      → moves_y l p ≡ false
      → At l q i j (line_step l p)
  unfolding line_step
  step_x i j (sx, sy, bal, near, ia, jb) lt k =
      let mx = moves_x_major l.x_length l.y_length (suc i) j p.diff bal near lt in
      let bn = only_x l.x_length l.y_length p.diff i j bal near lt k in
      rw (mx, k) (Short-step l.x_inc q.x p.at_x i sx, sy, bn.0, bn.1, omega arith, jb)

  step_y :
      (i j : ℕ)
      → At l q i (suc j) p
      → l.x_length < l.y_length
      → moves_x l p ≡ false
      → At l q i j (line_step l p)
  unfolding line_step
  step_y i j (sx, sy, bal, near, ia, jb) lt k =
      let my = moves_y_major l.x_length l.y_length i (suc j) p.diff bal near lt in
      let bn = only_y l.x_length l.y_length p.diff i j bal near lt k in
      rw (my, k) (sx, Short-step l.y_inc q.y p.at_y j sy, bn.0, bn.1, ia, omega arith)

  step_both :
      (i j : ℕ)
      → At l q (suc i) (suc j) p
      → moves_x l p ≡ true
      → moves_y l p ≡ true
      → At l q i j (line_step l p)
  unfolding line_step
  step_both i j (sx, sy, bal, near, ia, jb) mx my =
      let bn = both l.x_length l.y_length p.diff i j bal near mx my in
      rw (mx, my)
        (
          Short-step l.x_inc q.x p.at_x i sx,
          Short-step l.y_inc q.y p.at_y j sy,
          bn.0,
          bn.1,
          omega arith,
          omega arith,
        )

-- A round leaves one place less along the longer side.
abbrev pub Steps : Line → Point → Pen → ℕ → Type 0
Steps l q p n =
    (i : ℕ) × (j : ℕ) × At l q i j (line_step l p) × (left l.x_length l.y_length i j ≡ n)

module _ (l : Line) (q : Point) (p : Pen) (n : ℕ) where
  step_flat : (j : ℕ) → At l q (suc n) j p → l.y_length < l.x_length → Steps l q p n
  step_flat zero at lt = (
    n,
    0,
    step_x l q p n 0 at lt (no_row l.x_length l.y_length p.diff n at.2 (omega arith)),
    ground arith,
  )
  step_flat (suc j) at lt = elim (Bool-cases (moves_y l p)) [
    | inr k ↦ (n, suc j, step_x l q p n (suc j) at lt k, ground arith)
    | inl k ↦ (
      n,
      j,
      step_both l q p n j at
          (moves_x_major l.x_length l.y_length (suc n) (suc j) p.diff at.2 at.3 lt) k,
      ground arith,
    )
  ]

  step_steep : (i : ℕ) → At l q i (suc n) p → l.x_length < l.y_length → Steps l q p n
  step_steep zero at lt = (
    0,
    n,
    step_y l q p 0 n at lt (no_column l.x_length l.y_length p.diff n at.2 (omega arith)),
    ground arith,
  )
  step_steep (suc i) at lt = elim (Bool-cases (moves_x l p)) [
    | inr k ↦ (suc i, n, step_y l q p (suc i) n at lt k, ground arith)
    | inl k ↦ (
      i,
      n,
      step_both l q p i n at k
          (moves_y_major l.x_length l.y_length (suc i) (suc n) p.diff at.2 at.3 lt),
      ground arith,
    )
  ]

  step_diagonal : (j : ℕ) → At l q (suc n) j p → l.x_length ≡ l.y_length → Steps l q p n
  step_diagonal j at e =
      let m = moves_both l.x_length l.y_length (suc n) j p.diff e at.2 at.3 (omega arith) in
      (
        n,
        n,
        step_both l q p n n (subst (λ k. At l q (suc n) k p) (sym m.0) at) m.1 m.2,
        ground arith,
      )

  pub step : (i j : ℕ) → At l q i j p → left l.x_length l.y_length i j ≡ suc n → Steps l q p n
  step i j at e = elim (Bool-cases (ltb l.y_length l.x_length)) [
    | inl lt ↦ step_flat j (subst (λ k. At l q k j p) (ground arith) at) (ground arith)
    | inr ge ↦ elim (Bool-cases (ltb l.x_length l.y_length)) [
      | inl lt ↦ step_steep i (subst (λ k. At l q i k p) (ground arith) at) (ground arith)
      | inr le ↦ step_diagonal j (subst (λ k. At l q k j p) (ground arith) at) (ground arith)
    ]
  ]

-- A point on the way: so many columns and rows short of the end, at most half a pixel off the line.
abbrev pub OnLine : Line → Point → Point → Type 0
OnLine l q r =
    (i : ℕ) × (j : ℕ) × Short l.x_inc q.x i r.x
    × Short l.y_inc q.y j r.y
    × Near l.x_length l.y_length i j
    × (i ≤ l.x_length)
    × (j ≤ l.y_length)

abbrev pub AllOnLine : Line → Point → List Point → Type 0
AllOnLine l q [] = Unit
AllOnLine l q (r ∷ rs) = OnLine l q r × AllOnLine l q rs

pub arrived :
    (l : Line) (q : Point) (p : Pen) (i j : ℕ)
    → At l q i j p
    → left l.x_length l.y_length i j ≡ 0
    → (i ≡ 0) × (j ≡ 0)
arrived l q p zero zero at e = (refl, refl)
arrived l q p (suc i) zero at e = absurd (ground arith)
arrived l q p zero (suc j) at e = absurd (ground arith)
arrived l q p (suc i) (suc j) at e = absurd (ground arith)
