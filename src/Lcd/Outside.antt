-- ===== src/Lcd/Outside.antt =====
-- Filling or inverting a rectangle, and drawing a line: the bytes past the end of the image stay.
use native.Mathlib.Nat.{mul-le-mul_right}
use lms2012_compat.Prelude.{
  ℕ, zero, suc, ◌*◌, ◌/◌, ◌≤◌, ◌<◌, ◌≡◌, refl, ◌∙◌, inl, inr, true, ◌==◌, if◌then◌else◌, List, [],
  ◌∷◌, some, arith, Bool-cases,
}
use lms2012_compat.Prelude.Int.{ℤ, pos, negsuc, ◌+ℤ◌}
use lms2012_compat.Words.{to_data16}
use lms2012_compat.Lcd.{
  Screen, Image, stride, on_screen, offset_of, change, draw_pixel, inverse_pixel, each_in_row,
  each_row, rounds, fill_rect, inverse_rect, set_bit, clear_bit, flip_bit,
}
use lms2012_compat.Lcd.Line.{Point, draw_points, draw_line}
use lms2012_compat.Lcd.Path.{line_path-AllOnLine}

offset-bound :
    (c : Screen) (x y : ℤ) → on_screen c x y ≡ true → offset_of c x y < c.height * stride c
offset-bound c (pos x) (pos y) h =
    let s : x / 8 < stride c = ground arith in
    let r : suc y * stride c ≤ c.height * stride c = mul-le-mul_right (stride c) (ground arith) in
    omega arith
offset-bound c (pos x) (negsuc y) h = ground arith
offset-bound c (negsuc x) y h = ground arith

change-outside :
    (c : Screen) (f : ℕ → ℕ → ℕ) (m : Image) (x y : ℤ) (o : ℕ)
    → on_screen c x y ≡ true
    → c.height * stride c ≤ o
    → change c f m x y o ≡ m o
change-outside c f m x y o h le = let b = offset-bound c x y h in ground arith

abbrev Keeps : (Image → ℤ → ℤ → Image) → ℕ → Type 0
Keeps f o = (m : Image) (x y : ℤ) → f m x y o ≡ m o

draw_pixel-Keeps :
    (c : Screen) (color o : ℕ)
    → c.height * stride c ≤ o
    → Keeps (λ m x y. draw_pixel c m color x y) o
unfolding draw_pixel
draw_pixel-Keeps c color o le m x y = elim (Bool-cases (on_screen c x y)) [
  | inl h ↦ rw h (change-outside c (if color == 0 then clear_bit else set_bit) m x y o h le)
  | inr h ↦ rw h refl
]

inverse_pixel-Keeps : (c : Screen) (o : ℕ) → c.height * stride c ≤ o → Keeps (inverse_pixel c) o
unfolding inverse_pixel
inverse_pixel-Keeps c o le m x y = elim (Bool-cases (on_screen c x y)) [
  | inl h ↦ rw h (change-outside c flip_bit m x y o h le)
  | inr h ↦ rw h refl
]

module _ (f : Image → ℤ → ℤ → Image) (o : ℕ) (keeps : Keeps f o) where
  each_in_row-Keeps : (n : ℕ) (m : Image) (y x : ℤ) → each_in_row f m y n x o ≡ m o
  unfolding each_in_row
  each_in_row-Keeps zero m y x = refl
  each_in_row-Keeps (suc n) m y x = each_in_row-Keeps n (f m x y) y (x +ℤ pos 1) ∙ keeps m x y

  each_row-Keeps : (k : ℕ) (m : Image) (x : ℤ) (n : ℕ) (y : ℤ) → each_row f m x n k y o ≡ m o
  unfolding each_row
  each_row-Keeps zero m x n y = refl
  each_row-Keeps (suc k) m x n y =
      each_row-Keeps k (each_in_row f m y n x) x n (y +ℤ pos 1) ∙ each_in_row-Keeps n m y x

pub draw_points-outside :
    (c : Screen) (color o : ℕ) (ps : List Point) (m : Image)
    → c.height * stride c ≤ o
    → draw_points c m color ps o ≡ m o
unfolding draw_points
draw_points-outside c color o [] m le = refl
draw_points-outside c color o (p ∷ ps) m le =
    draw_points-outside c color o ps (draw_pixel c m color p.x p.y) le
    ∙ draw_pixel-Keeps c color o le m p.x p.y

-- Wherever they are drawn, on the screen or not, a filled rectangle, an inverted rectangle and a line
-- change no byte past the end of the image.
pub drawing-outside :
    (c : Screen) (m : Image) (color : ℕ) (p q : Point) (x0 y0 x1 y1 : ℤ) (o : ℕ)
    → c.height * stride c ≤ o
    → (fill_rect c m color x0 y0 x1 y1 o ≡ m o)
      × (inverse_rect c m x0 y0 x1 y1 o ≡ m o)
      × (m' : Image) × (draw_line c m color p q ≡ some m')
      × (m' o ≡ m o)
unfolding fill_rect inverse_rect draw_line
drawing-outside c m color p q x0 y0 x1 y1 o le =
    let (ps, run, _, _, _) = line_path-AllOnLine p q in
    (
      each_row-Keeps (λ i x y. draw_pixel c i color x y) o (draw_pixel-Keeps c color o le)
          (rounds y0 (to_data16 (y0 +ℤ y1))) m x0 (rounds x0 (to_data16 (x0 +ℤ x1))) y0,
      each_row-Keeps (inverse_pixel c) o (inverse_pixel-Keeps c o le)
          (rounds y0 (to_data16 (y0 +ℤ y1))) m x0 (rounds x0 (to_data16 (x0 +ℤ x1))) y0,
      draw_points c m color (p ∷ ps),
      rw run refl,
      draw_points-outside c color o (p ∷ ps) m le,
    )
