-- ===== src/Lcd/Line.antt =====
-- The lines of `dLcdDrawLine`, and the outlines of `dLcdRect` that are made of them. The path is the
-- sequence of the points that the code draws; its loop is bounded by the two lengths together.
use lms2012_compat.Prelude.{
  ℕ, zero, suc, ◌+◌, Bool, ◌&&◌, if◌then◌else◌, List, [], ◌∷◌, Option, none, some,
}
use lms2012_compat.Prelude.Int.{ℤ, pos, negsuc, pos_part, ◌+ℤ◌, ◌-ℤ◌, ltb_ℤ, eqb_ℤ}
use lms2012_compat.Prelude.Options.{◌>>=◌}
use lms2012_compat.Words.{to_data16}
use lms2012_compat.Lcd.{Screen, Image, draw_pixel}

pub record Point : Type 0 where
  pub x : ℤ
  pub y : ℤ

-- What the code sets before its loop: `XLength`, `YLength`, `XInc` and `YInc`.
pub record Line : Type 0 where
  pub x_length : ℕ
  pub y_length : ℕ
  pub x_inc : ℤ
  pub y_inc : ℤ

-- `X0`, `Y0` and `Diff` in the loop
pub record Pen : Type 0 where
  pub at_x : ℤ
  pub at_y : ℤ
  pub diff : ℤ

-- `X1 - X0` or `X0 - X1`, whichever is not negative
abbrev pub length_of : ℤ → ℤ → ℕ
length_of a b = if ltb_ℤ a b then pos_part (b -ℤ a) else pos_part (a -ℤ b)

abbrev pub inc_of : ℤ → ℤ → ℤ
inc_of a b = if ltb_ℤ a b then pos 1 else negsuc 0

abbrev pub line_of : Point → Point → Line
line_of p q = record {
  x_length = length_of p.x q.x;
  y_length = length_of p.y q.y;
  x_inc = inc_of p.x q.x;
  y_inc = inc_of p.y q.y;
}

abbrev pub pen_of : Point → Line → Pen
pen_of p l = record { at_x = p.x; at_y = p.y; diff = pos l.x_length -ℤ pos l.y_length }

-- `Tmp > -YLength` and `Tmp < XLength`
abbrev pub moves_x : Line → Pen → Bool
moves_x l p = ltb_ℤ (pos 0 -ℤ pos l.y_length) (p.diff +ℤ p.diff)

abbrev pub moves_y : Line → Pen → Bool
moves_y l p = ltb_ℤ (p.diff +ℤ p.diff) (pos l.x_length)

abbrev pub move_x : Line → Pen → Pen
move_x l p = record p { at_x = p.at_x +ℤ l.x_inc; diff = p.diff -ℤ pos l.y_length }

abbrev pub move_y : Line → Pen → Pen
move_y l p = record p { at_y = p.at_y +ℤ l.y_inc; diff = p.diff +ℤ pos l.x_length }

-- One round of the loop, with `Tmp` computed before either move.
unfoldable pub line_step : Line → Pen → Pen
line_step l p =
    let p' = if moves_x l p then move_x l p else p in if moves_y l p then move_y l p' else p'

-- The points that the loop draws until it is at the end, or nothing if the rounds do not suffice.
unfoldable pub line_loop : ℕ → Line → Point → Pen → Option (List Point)
unfolding line_step
line_loop zero l q p = if eqb_ℤ p.at_x q.x && eqb_ℤ p.at_y q.y then some [] else none
line_loop (suc n) l q p =
    let p' = line_step l p in
    let rest = line_loop n l q p' in
    if eqb_ℤ p.at_x q.x && eqb_ℤ p.at_y q.y
    then some []
    else do ps ← rest; some (record { x = p'.at_x; y = p'.at_y } ∷ ps)

unfoldable pub line_path : Point → Point → Option (List Point)
unfolding line_loop
line_path p q = do
  let l = line_of p q
  ps ← line_loop (l.x_length + l.y_length) l q (pen_of p l)
  some (p ∷ ps)

unfoldable pub draw_points : Screen → Image → ℕ → List Point → Image
unfolding draw_pixel
draw_points c m color [] = m
draw_points c m color (p ∷ ps) = draw_points c (draw_pixel c m color p.x p.y) color ps

unfoldable pub draw_line : Screen → Image → ℕ → Point → Point → Option Image
unfolding line_path draw_points
draw_line c m color p q = do ps ← line_path p q; some (draw_points c m color ps)

-- The four sides, each line from where the one before it ends.
unfoldable pub rect : Screen → Image → ℕ → Point → ℤ → ℤ → Option Image
unfolding draw_line
rect c m color p x1 y1 = do
  let right = to_data16 (p.x +ℤ to_data16 (x1 -ℤ pos 1))
  let bottom = to_data16 (p.y +ℤ to_data16 (y1 -ℤ pos 1))
  m1 ← draw_line c m color p (record { x = right; y = p.y })
  m2 ← draw_line c m1 color (record { x = right; y = p.y }) (record { x = right; y = bottom })
  m3 ← draw_line c m2 color (record { x = right; y = bottom }) (record { x = p.x; y = bottom })
  draw_line c m3 color (record { x = p.x; y = bottom }) p
