-- ===== src/Lcd/Arc.antt =====
-- Which pixels the drawing of a circle changes.
use lms2012_compat.Prelude.{
  ℕ, ◌≡◌, refl, true, false, List, [], ◌∷◌, some, arith, Bool, ◌++◌, ◌&&◌, ◌||◌, ◌==◌,
  if◌then◌else◌, and-false, ap, ◌∙◌,
}
use lms2012_compat.Prelude.Int.{ℤ, pos, ◌+ℤ◌, ◌-ℤ◌, ◌*ℤ◌, eqb_ℤ}
use lms2012_compat.Words.{to_data16}
use lms2012_compat.Lcd.{Screen, Image, on_screen, draw_pixel, read_pixel}
use lms2012_compat.Lcd.Pixel.{read-draw}
use lms2012_compat.Lcd.Line.{Point}
use lms2012_compat.Lcd.Circle.{arc, plot_points, plot_all, draw_circle}
use lms2012_compat.Lcd.Octant.{AllCloseTo, Decides-start, arc_loop-Plots}

-- The pixels that eight places stand for, and those of all places: the reflections of a place on the rows,
-- the columns and the diagonals through the centre `o`, with coordinates of 16 bits
abbrev pub pixel : ℤ → ℤ → Point
pixel x y = record { x = to_data16 x; y = to_data16 y }

abbrev pub reflections : Point → Point → List Point
reflections o p =
    pixel (o.x +ℤ p.x) (o.y +ℤ p.y)
    ∷ pixel (o.x -ℤ p.x) (o.y +ℤ p.y)
    ∷ pixel (o.x +ℤ p.x) (o.y -ℤ p.y)
    ∷ pixel (o.x -ℤ p.x) (o.y -ℤ p.y)
    ∷ pixel (o.x +ℤ p.y) (o.y +ℤ p.x)
    ∷ pixel (o.x -ℤ p.y) (o.y +ℤ p.x)
    ∷ pixel (o.x +ℤ p.y) (o.y -ℤ p.x)
    ∷ pixel (o.x -ℤ p.y) (o.y -ℤ p.x)
    ∷ []

abbrev pub all_reflections : Point → List Point → List Point
all_reflections o [] = []
all_reflections o (p ∷ ps) = reflections o p ++ all_reflections o ps

-- Is the pixel in the list?
abbrev pub is_among : List Point → ℤ → ℤ → Bool
is_among [] x y = false
is_among (q ∷ qs) x y = eqb_ℤ x q.x && eqb_ℤ y q.y || is_among qs x y

draw_each : Screen → Image → ℕ → List Point → Image
draw_each c m color [] = m
draw_each c m color (q ∷ qs) = draw_each c (draw_pixel c m color q.x q.y) color qs

earlier-or-later :
    {A : Type 0} (on e f l : Bool) (v w : A)
    → (if on && l then v else if on && e && f then v else w)
      ≡ (if on && (e && f || l) then v else w)
earlier-or-later false e f l v w = refl
earlier-or-later true true true true v w = refl
earlier-or-later true true true false v w = refl
earlier-or-later true true false l v w = refl
earlier-or-later true false f l v w = refl

read-draw_each :
    (c : Screen) (m : Image) (color : ℕ) (qs : List Point) (x y : ℤ)
    → read_pixel c (draw_each c m color qs) x y ≡ (
        if on_screen c x y && is_among qs x y
        then (if color == 0 then 0 else 1)
        else read_pixel c m x y)
unfolding draw_each
read-draw_each c m color [] x y = rw (and-false (on_screen c x y)) refl
read-draw_each c m color (q ∷ qs) x y =
    read-draw_each c (draw_pixel c m color q.x q.y) color qs x y
    ∙ rw (read-draw c m color q.x q.y x y) refl
    ∙ earlier-or-later (on_screen c x y) (eqb_ℤ x q.x) (eqb_ℤ y q.y) (is_among qs x y) _ _

plot_all-draw_each :
    (c : Screen) (m : Image) (color : ℕ) (o : Point) (ps : List Point)
    → plot_all c m color o ps ≡ draw_each c m color (all_reflections o ps)
unfolding plot_all plot_points draw_each
plot_all-draw_each c m color o [] = refl
plot_all-draw_each c m color o (p ∷ ps) =
    plot_all-draw_each c (plot_points c m color o p) color o ps

-- Drawing a circle of radius `r` always ends. There are places around the origin, one in each column from 0
-- on up to the diagonal, each within a pixel of the circle (the square of its distance from the origin
-- differs from that of the radius by at most the place's row and one), such that just the pixels of
-- their eight reflections around the centre have the colour afterwards, where they are on the screen,
-- and every other pixel is as before.
pub draw_circle-AllCloseTo :
    (c : Screen) (m : Image) (color : ℕ) (o : Point) (r : ℕ)
    → (ps : List Point) × (m' : Image) × (draw_circle c m color o (pos r) ≡ some m')
      × AllCloseTo r 0 ps
      × ((x y : ℤ)
          → read_pixel c m' x y ≡ (
              if on_screen c x y && is_among (all_reflections o ps) x y
              then (if color == 0 then 0 else 1)
              else read_pixel c m x y))
unfolding arc draw_circle
draw_circle-AllCloseTo c m color o r =
    let (ps, run, all) =
      arc_loop-Plots r r 0 r (pos 3 -ℤ pos 2 *ℤ pos r) (Decides-start r) (omega arith, omega arith)
        (omega arith) in
    (
      ps,
      plot_all c m color o ps,
      rw run refl,
      all,
      λ x y.
          ap (λ (i : Image). read_pixel c i x y) (plot_all-draw_each c m color o ps)
          ∙ read-draw_each c m color (all_reflections o ps) x y,
    )
