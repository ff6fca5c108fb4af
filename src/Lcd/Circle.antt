-- ===== src/Lcd/Circle.antt =====
-- The circles of `dLcdDrawCircle` and `dLcdDrawFilledCircle`: the loop that both have computes an eighth
-- of the circle around the origin, and every place of it is drawn as eight points or as four lines.
use lms2012_compat.Prelude.{ℕ, zero, suc, if◌then◌else◌, List, [], ◌∷◌, Option, none, some}
use lms2012_compat.Prelude.Int.{ℤ, pos, pos_part, ◌+ℤ◌, ◌-ℤ◌, ◌*ℤ◌, ltb_ℤ}
use lms2012_compat.Prelude.Options.{◌>>=◌}
use lms2012_compat.Words.{to_data16}
use lms2012_compat.Lcd.{Screen, Image, draw_pixel}
use lms2012_compat.Lcd.Line.{Point, draw_line}

-- `X`, `Y` and `P`
pub record Arc : Type 0 where
  pub arc_x : ℤ
  pub arc_y : ℤ
  pub decision : ℤ

abbrev pub arc_of : ℤ → Arc
arc_of r = record { arc_x = pos 0; arc_y = r; decision = pos 3 -ℤ pos 2 *ℤ r }

unfoldable pub arc_step : Arc → Arc
arc_step a =
    if ltb_ℤ a.decision (pos 0)
    then record {
      arc_x = a.arc_x +ℤ pos 1;
      arc_y = a.arc_y;
      decision = a.decision +ℤ pos 4 *ℤ a.arc_x +ℤ pos 6;
    }
    else record {
      arc_x = a.arc_x +ℤ pos 1;
      arc_y = a.arc_y -ℤ pos 1;
      decision = a.decision +ℤ pos 4 *ℤ (a.arc_x -ℤ a.arc_y) +ℤ pos 10;
    }

-- The places that are drawn: one in each round while `X < Y`, and one after the loop.
unfoldable pub arc_loop : ℕ → Arc → Option (List Point)
unfolding arc_step
arc_loop zero a =
    if ltb_ℤ a.arc_x a.arc_y then none else some (record { x = a.arc_x; y = a.arc_y } ∷ [])
arc_loop (suc n) a =
    let rest = arc_loop n (arc_step a) in
    if ltb_ℤ a.arc_x a.arc_y
    then rest >>= (λ ps. some (record { x = a.arc_x; y = a.arc_y } ∷ ps))
    else some (record { x = a.arc_x; y = a.arc_y } ∷ [])

-- The loop makes at most `R` rounds.
unfoldable pub arc : ℤ → Option (List Point)
unfolding arc_loop
arc r = arc_loop (pos_part r) (arc_of r)

unfoldable pub plot_points : Screen → Image → ℕ → Point → Point → Image
unfolding draw_pixel
plot_points c m color o p =
    let draw : Image → ℤ → ℤ → Image = λ m x y. draw_pixel c m color (to_data16 x) (to_data16 y) in
    let m = draw m (o.x +ℤ p.x) (o.y +ℤ p.y) in
    let m = draw m (o.x -ℤ p.x) (o.y +ℤ p.y) in
    let m = draw m (o.x +ℤ p.x) (o.y -ℤ p.y) in
    let m = draw m (o.x -ℤ p.x) (o.y -ℤ p.y) in
    let m = draw m (o.x +ℤ p.y) (o.y +ℤ p.x) in
    let m = draw m (o.x -ℤ p.y) (o.y +ℤ p.x) in
    let m = draw m (o.x +ℤ p.y) (o.y -ℤ p.x) in draw m (o.x -ℤ p.y) (o.y -ℤ p.x)

unfoldable pub plot_all : Screen → Image → ℕ → Point → List Point → Image
unfolding plot_points
plot_all c m color o [] = m
plot_all c m color o (p ∷ ps) = plot_all c (plot_points c m color o p) color o ps

unfoldable pub draw_circle : Screen → Image → ℕ → Point → ℤ → Option Image
unfolding arc plot_all
draw_circle c m color o r = do ps ← arc r; some (plot_all c m color o ps)

-- A line between two places, which are converted to DATA16.
abbrev pub line_between : Screen → Image → ℕ → ℤ → ℤ → ℤ → ℤ → Option Image
line_between c m color x y x' y' =
    draw_line c m color (record { x = to_data16 x; y = to_data16 y })
      (record { x = to_data16 x'; y = to_data16 y' })

unfoldable pub plot_lines : Screen → Image → ℕ → Point → Point → Option Image
unfolding draw_line
plot_lines c m color o p = do
  m1 ← line_between c m color (o.x -ℤ p.x) (o.y +ℤ p.y) (o.x +ℤ p.x) (o.y +ℤ p.y)
  m2 ← line_between c m1 color (o.x -ℤ p.x) (o.y -ℤ p.y) (o.x +ℤ p.x) (o.y -ℤ p.y)
  m3 ← line_between c m2 color (o.x -ℤ p.y) (o.y +ℤ p.x) (o.x +ℤ p.y) (o.y +ℤ p.x)
  line_between c m3 color (o.x -ℤ p.y) (o.y -ℤ p.x) (o.x +ℤ p.y) (o.y -ℤ p.x)

unfoldable pub plot_all_lines : Screen → Image → ℕ → Point → List Point → Option Image
unfolding plot_lines
plot_all_lines c m color o [] = some m
plot_all_lines c m color o (p ∷ ps) = do
  m1 ← plot_lines c m color o p
  plot_all_lines c m1 color o ps

unfoldable pub draw_filled_circle : Screen → Image → ℕ → Point → ℤ → Option Image
unfolding arc plot_all_lines
draw_filled_circle c m color o r = do ps ← arc r; plot_all_lines c m color o ps
