-- ===== src/Lcd/Flood.antt =====
-- Filling an area from a place: `dLcdFlodfill`. It fills spans to the left of the column of the place, on
-- the rows above and below it, and then spans to the right.
use lms2012_compat.Prelude.{
  ℕ, zero, suc, ◌≤◌, ◌≡◌, refl, inl, inr, Bool, true, false, not, ◌&&◌, ◌==◌, ltb, if◌then◌else◌,
  Option, none, some, arith, Bool-cases, and-false,
}
use lms2012_compat.Prelude.Int.{ℤ, pos, negsuc, pos_part, ◌+ℤ◌, ◌-ℤ◌, eqb_ℤ}
use lms2012_compat.Prelude.Options.{◌>>=◌}
use lms2012_compat.Lcd.{Screen, Image, on_screen, draw_pixel, read_pixel}

unfoldable pub check_pixel : Screen → Image → ℕ → ℤ → ℤ → Bool
unfolding read_pixel
check_pixel c m color x y = on_screen c x y && not (read_pixel c m x y == color)

-- `X--` or `X++`
abbrev step_towards : Bool → ℤ → ℤ
step_towards true x = x +ℤ pos 1
step_towards false x = x -ℤ pos 1

-- An inner loop, from `X` on. The loops to the left leave out the place `X0`.
unfoldable pub fill_span : ℕ → Screen → ℕ → Bool → ℤ → ℤ → Image → ℤ → Option Image
unfolding check_pixel draw_pixel
fill_span zero c color right x0 y m x = if check_pixel c m color x y then none else some m
fill_span (suc n) c color right x0 y m x =
    let m' = if not right && eqb_ℤ x x0 then m else draw_pixel c m color x y in
    let rest = fill_span n c color right x0 y m' (step_towards right x) in
    if check_pixel c m color x y then rest else some m

-- An outer loop, from `Y` on
unfoldable pub fill_rows : ℕ → Screen → ℕ → Bool → Bool → ℤ → Image → ℤ → Option Image
unfolding check_pixel fill_span
fill_rows zero c color right down x0 m y = if check_pixel c m color x0 y then none else some m
fill_rows (suc n) c color right down x0 m y =
    let rest =
      fill_span c.width c color right x0 y m x0
      >>= (λ m'. fill_rows n c color right down x0 m' (step_towards down y)) in
    if check_pixel c m color x0 y then rest else some m

-- No loop needs more rounds than there are places on the screen in its direction.
unfoldable pub flodfill : Screen → Image → ℕ → ℤ → ℤ → Option Image
unfolding fill_rows
flodfill c m color x0 y0 = do
  m1 ← fill_rows c.height c color false false x0 m y0
  m2 ← fill_rows c.height c color false true x0 m1 y0
  m3 ← fill_rows c.height c color true false x0 m2 y0
  fill_rows c.height c color true true x0 m3 (y0 +ℤ pos 1)

-- How many places are left before a coordinate leaves `0 .. n`.
abbrev room : ℕ → Bool → ℤ → ℕ
room n true x = pos_part (pos n -ℤ x)
room n false x = pos_part (x +ℤ pos 1)

-- Whether a coordinate is in `0 .. n`.
abbrev among : ℕ → ℤ → Bool
among n (pos x) = ltb x n
among n (negsuc x) = false

room-zero : (n : ℕ) (b : Bool) (x : ℤ) → room n b x ≤ 0 → among n x ≡ false
unfolding ◌+ℤ◌ ◌-ℤ◌
room-zero n true (pos x) h = ground arith
room-zero n false (pos x) h = ground arith
room-zero n b (negsuc x) h = refl

room-step :
    (n k : ℕ) (b : Bool) (x : ℤ)
    → room n b x ≤ suc k
    → among n x ≡ true
    → room n b (step_towards b x) ≤ k
unfolding ◌+ℤ◌ ◌-ℤ◌
room-step n k true (pos x) h a = ground arith
room-step n k false (pos x) h a = ground arith
room-step n k b (negsuc x) h a = absurd (ground arith)

room-all : (n : ℕ) (b : Bool) (x : ℤ) → among n x ≡ true → room n b x ≤ n
unfolding ◌+ℤ◌ ◌-ℤ◌
room-all n true (pos x) a = ground arith
room-all n false (pos x) a = ground arith
room-all n b (negsuc x) a = absurd (ground arith)

check-among :
    (c : Screen) (m : Image) (color : ℕ) (x y : ℤ)
    → check_pixel c m color x y ≡ true
    → (among c.width x ≡ true) × (among c.height y ≡ true)
unfolding check_pixel
check-among c m color (negsuc x) y h = absurd (ground arith)
check-among c m color (pos x) (negsuc y) h = absurd (ground arith)
check-among c m color (pos x) (pos y) h = (ground arith, ground arith)

abbrev pub Succeeds : Option Image → Type 0
Succeeds o = (m : Image) × (o ≡ some m)

-- A place that is not tested ends a loop.
check-outside :
    (c : Screen) (m : Image) (color : ℕ) (x y : ℤ)
    → (among c.width x && among c.height y) ≡ false
    → check_pixel c m color x y ≡ false
check-outside c m color x y h = elim (Bool-cases (check_pixel c m color x y)) [
  | inr k ↦ k
  | inl k ↦ let a = check-among c m color x y k in ground arith
]

fill_span-Succeeds :
    (n : ℕ) (c : Screen) (color : ℕ) (right : Bool) (x0 y : ℤ) (m : Image) (x : ℤ)
    → room c.width right x ≤ n
    → Succeeds (fill_span n c color right x0 y m x)
unfolding fill_span
fill_span-Succeeds zero c color right x0 y m x le =
    let r = room-zero c.width right x le in
    let e = check-outside c m color x y (rw r refl) in (m, rw e refl)
fill_span-Succeeds (suc n) c color right x0 y m x le =
    elim (Bool-cases (check_pixel c m color x y)) [
      | inr k ↦ (m, rw k refl)
      | inl k ↦
          let a = check-among c m color x y k in
          let (m', run) =
            fill_span-Succeeds n c color right x0 y
              (if not right && eqb_ℤ x x0 then m else draw_pixel c m color x y)
              (step_towards right x) (room-step c.width n right x le a.0) in
          (m', rw k run)
    ]

fill_rows-Succeeds :
    (n : ℕ) (c : Screen) (color : ℕ) (right down : Bool) (x0 : ℤ) (m : Image) (y : ℤ)
    → room c.height down y ≤ n
    → Succeeds (fill_rows n c color right down x0 m y)
unfolding fill_rows
fill_rows-Succeeds zero c color right down x0 m y le =
    let r = room-zero c.height down y le in
    let e = check-outside c m color x0 y (rw r (and-false (among c.width x0))) in (m, rw e refl)
fill_rows-Succeeds (suc n) c color right down x0 m y le =
    elim (Bool-cases (check_pixel c m color x0 y)) [
      | inr k ↦ (m, rw k refl)
      | inl k ↦
          let a = check-among c m color x0 y k in
          let (m1, run1) =
            fill_span-Succeeds c.width c color right x0 y m x0 (room-all c.width right x0 a.0) in
          let (m2, run2) =
            fill_rows-Succeeds n c color right down x0 m1 (step_towards down y)
              (room-step c.height n down y le a.1) in
          (m2, rw (k, run1) run2)
    ]

fill_rows-done :
    (n : ℕ) (c : Screen) (color : ℕ) (right down : Bool) (x0 : ℤ) (m : Image) (y : ℤ)
    → check_pixel c m color x0 y ≡ false
    → Succeeds (fill_rows n c color right down x0 m y)
unfolding fill_rows
fill_rows-done zero c color right down x0 m y k = (m, rw k refl)
fill_rows-done (suc n) c color right down x0 m y k = (m, rw k refl)

fill_rows-any :
    (c : Screen) (color : ℕ) (right down : Bool) (x0 : ℤ) (m : Image) (y : ℤ)
    → Succeeds (fill_rows c.height c color right down x0 m y)
fill_rows-any c color right down x0 m y = elim (Bool-cases (check_pixel c m color x0 y)) [
  | inr k ↦ fill_rows-done c.height c color right down x0 m y k
  | inl k ↦
      let a = check-among c m color x0 y k in
      fill_rows-Succeeds c.height c color right down x0 m y (room-all c.height down y a.1)
]

-- Filling an area ends, whatever the image holds, the colour is and the place is: no inner loop makes
-- more rounds than the screen has columns, and no outer loop more than it has rows.
pub flodfill-Succeeds :
    (c : Screen) (m : Image) (color : ℕ) (x0 y0 : ℤ) → Succeeds (flodfill c m color x0 y0)
unfolding flodfill
flodfill-Succeeds c m color x0 y0 =
    let (m1, r1) = fill_rows-any c color false false x0 m y0 in
    let (m2, r2) = fill_rows-any c color false true x0 m1 y0 in
    let (m3, r3) = fill_rows-any c color true false x0 m2 y0 in
    let (m4, r4) = fill_rows-any c color true true x0 m3 (y0 +ℤ pos 1) in (m4, rw (r1, r2, r3) r4)
