-- ===== src/Tests/Drawing.antt =====
-- Lines, circles and areas on a screen of 20 columns and 6 rows.
use lms2012_compat.Prelude.{◌≡◌, ◌==◌, ◌&&◌, if◌then◌else◌, List, ◌∷◌, some, length, arith}
use lms2012_compat.Prelude.Int.{ℤ, pos, negsuc, ◌-ℤ◌, ◌+ℤ◌}
use lms2012_compat.Words.{signed, pattern_of}
use lms2012_compat.Lcd.{Screen, Image, on_screen, read_pixel, fill_rect, inverse_rect}
use lms2012_compat.Lcd.Rect.{read-fill_rect}
use lms2012_compat.Lcd.Line.{Point, line_of, line_path, draw_line}
use lms2012_compat.Lcd.Round.{AllOnLine}
use lms2012_compat.Lcd.Path.{last_of, line_path-AllOnLine}
use lms2012_compat.Lcd.Outside.{drawing-outside}
use lms2012_compat.Lcd.Circle.{draw_circle}
use lms2012_compat.Lcd.Octant.{AllCloseTo}
use lms2012_compat.Lcd.Arc.{all_reflections, is_among, draw_circle-AllCloseTo}
use lms2012_compat.Lcd.Flood.{Succeeds, flodfill, flodfill-Succeeds}

abbrev screen : Screen
screen = record { width = 20; height = 6 }

abbrev striped : Image
striped o = if o == 4 then 0xA5 else 0

abbrev left_top : Point
left_top = record { x = pos 1; y = pos 1 }

abbrev right_low : Point
right_low = record { x = pos 9; y = pos 4 }

read-fill_rect_example :
    read_pixel screen
      (fill_rect screen striped 1 (negsuc 1) (pos 0) (pos 9) (pos 3))
      (pos 6)
      (pos 2)
    ≡ 1
unfolding signed pattern_of ◌+ℤ◌
read-fill_rect_example =
    read-fill_rect screen striped 1 (negsuc 1) (pos 0) (pos 9) (pos 3) (pos 6) (pos 2)

line_path-AllOnLine_example :
    (ps : List Point) × (line_path left_top right_low ≡ some (left_top ∷ ps))
    × (length ps ≡ 8)
    × AllOnLine (line_of left_top right_low) right_low (left_top ∷ ps)
    × (last_of left_top ps ≡ right_low)
unfolding ◌-ℤ◌
line_path-AllOnLine_example = line_path-AllOnLine left_top right_low

drawing-outside_example :
    (fill_rect screen striped 1 (pos 0) (pos 4) (pos 30) (pos 30) 18 ≡ 0)
    × (inverse_rect screen striped (pos 0) (pos 4) (pos 30) (pos 30) 18 ≡ 0)
    × (m : Image) × (draw_line screen striped 1 left_top right_low ≡ some m)
    × (m 18 ≡ 0)
drawing-outside_example =
    drawing-outside screen striped 1 left_top right_low (pos 0) (pos 4) (pos 30) (pos 30) 18
      (omega arith)

draw_circle-AllCloseTo_example :
    (ps : List Point) × (m : Image) × (draw_circle screen striped 1 left_top (pos 5) ≡ some m)
    × AllCloseTo 5 0 ps
    × ((x y : ℤ)
        → read_pixel screen m x y ≡ (
            if on_screen screen x y && is_among (all_reflections left_top ps) x y
            then 1
            else read_pixel screen striped x y))
draw_circle-AllCloseTo_example = draw_circle-AllCloseTo screen striped 1 left_top 5

flodfill-Succeeds_example : Succeeds (flodfill screen striped 1 (pos 2) (pos 3))
flodfill-Succeeds_example = flodfill-Succeeds screen striped 1 (pos 2) (pos 3)
