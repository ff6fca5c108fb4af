-- ===== src/Lcd/Draw.antt =====
-- What an image holds after a line is drawn.
use lms2012_compat.Prelude.{
  ℕ, ◌≡◌, refl, ◌∙◌, Bool, true, false, ◌&&◌, ◌||◌, ◌==◌, if◌then◌else◌, List, [], ◌∷◌, some, arith,
}
use lms2012_compat.Prelude.Int.{ℤ, eqb_ℤ}
use lms2012_compat.Lcd.{Screen, Image, on_screen, draw_pixel, read_pixel}
use lms2012_compat.Lcd.Pixel.{read-draw}
use lms2012_compat.Lcd.Line.{Point, line_path, draw_points, draw_line}
use lms2012_compat.Lcd.Path.{line_path-AllOnLine}

-- Whether one of the points is at the place.
abbrev pub visits : List Point → ℤ → ℤ → Bool
visits [] x y = false
visits (p ∷ ps) x y = (eqb_ℤ x p.x && eqb_ℤ y p.y) || visits ps x y

paint_twice :
    (o e g v : Bool) (k r : ℕ)
    → (if o && v then k else (if o && e && g then k else r)) ≡ (if o && (e && g || v) then k else r)
paint_twice false e g v k r = refl
paint_twice true false g v k r = refl
paint_twice true true false v k r = refl
paint_twice true true true false k r = refl
paint_twice true true true true k r = refl

read-draw_points :
    (c : Screen) (color : ℕ) (ps : List Point) (m : Image) (x y : ℤ)
    → read_pixel c (draw_points c m color ps) x y ≡ (
        if on_screen c x y && visits ps x y
        then (if color == 0 then 0 else 1)
        else read_pixel c m x y)
unfolding draw_points
read-draw_points c color [] m x y = ground arith
read-draw_points c color (p ∷ ps) m x y =
    read-draw_points c color ps (draw_pixel c m color p.x p.y) x y
    ∙ rw (read-draw c m color p.x p.y x y) (
        paint_twice (on_screen c x y) (eqb_ℤ x p.x) (eqb_ℤ y p.y) (visits ps x y)
          (if color == 0 then 0 else 1) (read_pixel c m x y))

-- Drawing a line always ends, and the pixels of the screen on its path have the colour then, and the
-- others are as before.
pub read-draw_line :
    (c : Screen) (m : Image) (color : ℕ) (p q : Point)
    → (ps : List Point) × (m' : Image) × (line_path p q ≡ some (p ∷ ps))
      × (draw_line c m color p q ≡ some m')
      × ((x y : ℤ)
          → read_pixel c m' x y ≡ (
              if on_screen c x y && visits (p ∷ ps) x y
              then (if color == 0 then 0 else 1)
              else read_pixel c m x y))
unfolding draw_line
read-draw_line c m color p q =
    let (ps, run, _, _, _) = line_path-AllOnLine p q in
    (ps, draw_points c m color (p ∷ ps), run, rw run refl, read-draw_points c color (p ∷ ps) m)
