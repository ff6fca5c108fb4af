-- ===== src/Lcd.antt =====
-- The image buffer of c_ui/d_lcd.c: one bit for each pixel, eight in a byte, rows padded to bytes. The
-- size of the display is generated (`vmLCD_WIDTH`, `vmLCD_HEIGHT`), and so a parameter. An image is a
-- function from offsets to bytes; a bit of a byte is set, cleared and inverted by arithmetic on it.
pub mod Pixel
pub mod Rect
pub mod Line
pub mod Round
pub mod Path
pub mod Draw
pub mod Outside
pub mod Circle
pub mod Octant
pub mod Arc
pub mod Flood
use lms2012_compat.Prelude.{
  ℕ, zero, suc, ◌+◌, ◌-◌, ◌*◌, ◌/◌, ◌%◌, ◌^◌, Bool, true, false, ◌&&◌, ◌==◌, ltb, leb,
  if◌then◌else◌, Option, none, some,
}
use lms2012_compat.Prelude.Int.{ℤ, pos, negsuc, pos_part, ◌+ℤ◌, ◌-ℤ◌}
use lms2012_compat.Words.{to_data16, bit}

pub record Screen : Type 0 where
  pub width : ℕ
  pub height : ℕ

-- `(LCD_WIDTH + 7) / 8`, the bytes of a row
abbrev pub stride : Screen → ℕ
stride c = (c.width + 7) / 8

abbrev pub Image : Type 0
Image = ℕ → ℕ

-- `b | (1 << k)`, `b & ~(1 << k)` and `b ^ (1 << k)` of a byte
abbrev pub set_bit : ℕ → ℕ → ℕ
set_bit k b = if bit k b then b else b + 2 ^ k

abbrev pub clear_bit : ℕ → ℕ → ℕ
clear_bit k b = if bit k b then b - 2 ^ k else b

abbrev pub flip_bit : ℕ → ℕ → ℕ
flip_bit k b = if bit k b then b - 2 ^ k else b + 2 ^ k

abbrev pub on_screen : Screen → ℤ → ℤ → Bool
on_screen c (pos x) (pos y) = ltb x c.width && ltb y c.height
on_screen c _ _ = false

-- `(X0 >> 3) + Y0 * ((LCD_WIDTH + 7) >> 3)`, for a pixel on the screen
abbrev pub offset_of : Screen → ℤ → ℤ → ℕ
offset_of c x y = pos_part x / 8 + pos_part y * stride c

-- The bit `X0 % 8` of the byte becomes what the function makes of it.
abbrev pub change : Screen → (ℕ → ℕ → ℕ) → Image → ℤ → ℤ → Image
change c f m x y o = if o == offset_of c x y then f (pos_part x % 8) (m o % 256) else m o

unfoldable pub draw_pixel : Screen → Image → ℕ → ℤ → ℤ → Image
draw_pixel c m color x y =
    if on_screen c x y then change c (if color == 0 then clear_bit else set_bit) m x y else m

unfoldable pub inverse_pixel : Screen → Image → ℤ → ℤ → Image
inverse_pixel c m x y = if on_screen c x y then change c flip_bit m x y else m

unfoldable pub read_pixel : Screen → Image → ℤ → ℤ → ℕ
read_pixel c m x y =
    if on_screen c x y && bit (pos_part x % 8) (m (offset_of c x y) % 256) then 1 else 0

-- The loops over rectangles, for each function on pixels: `n` pixels of a row from `x` on, and `k` rows
-- from `y` on. The loop variables stay below a DATA16, and so do not wrap.
unfoldable pub each_in_row : (Image → ℤ → ℤ → Image) → Image → ℤ → ℕ → ℤ → Image
each_in_row f m y zero x = m
each_in_row f m y (suc n) x = each_in_row f (f m x y) y n (x +ℤ pos 1)

unfoldable pub each_row : (Image → ℤ → ℤ → Image) → Image → ℤ → ℕ → ℕ → ℤ → Image
unfolding each_in_row
each_row f m x n zero y = m
each_row f m x n (suc k) y = each_row f (each_in_row f m y n x) x n k (y +ℤ pos 1)

-- How many rounds `for (; i < max; i++)` makes.
abbrev pub rounds : ℤ → ℤ → ℕ
rounds i max = pos_part (max -ℤ i)

unfoldable pub fill_rect : Screen → Image → ℕ → ℤ → ℤ → ℤ → ℤ → Image
unfolding draw_pixel each_row
fill_rect c m color x0 y0 x1 y1 =
    let max_x = to_data16 (x0 +ℤ x1) in
    let max_y = to_data16 (y0 +ℤ y1) in
    each_row (λ i x y. draw_pixel c i color x y) m x0 (rounds x0 max_x) (rounds y0 max_y) y0

unfoldable pub inverse_rect : Screen → Image → ℤ → ℤ → ℤ → ℤ → Image
unfolding inverse_pixel each_row
inverse_rect c m x0 y0 x1 y1 =
    let max_x = to_data16 (x0 +ℤ x1) in
    let max_y = to_data16 (y0 +ℤ y1) in
    each_row (inverse_pixel c) m x0 (rounds x0 max_x) (rounds y0 max_y) y0

-- `dLcdScroll`: the image moves up by `Y0` rows, and zeros come in. A negative number of rows, or more
-- than there are, is a size out of range.
unfoldable pub scroll : Screen → Image → ℤ → Option Image
scroll c m (negsuc n) = none
scroll c m (pos y0) =
    if ltb c.height y0
    then none
    else some λ o.
      if ltb o ((c.height - y0) * stride c)
      then m (stride c * y0 + o)
      else if ltb o (c.height * stride c)
      then 0
      else m o
