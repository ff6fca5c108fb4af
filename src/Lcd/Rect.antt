-- ===== src/Lcd/Rect.antt =====
-- Filling and inverting rectangles.
use lms2012_compat.Prelude.{
  ℕ, zero, suc, ◌-◌, ◌%◌, ◌≤◌, ◌≡◌, refl, ◌∙◌, Bool, true, false, ◌&&◌, ◌||◌, ◌==◌, if◌then◌else◌,
  inl, inr, arith, Bool-cases,
}
use lms2012_compat.Prelude.Int.{ℤ, pos, pos_part, ◌+ℤ◌, ◌-ℤ◌, ltb_ℤ, leb_ℤ, eqb_ℤ}
use lms2012_compat.Lcd.{
  Screen, Image, on_screen, draw_pixel, inverse_pixel, read_pixel, each_in_row, each_row, rounds,
  fill_rect, inverse_rect, offset_of,
}
use lms2012_compat.Words.{to_data16, bit}
use lms2012_compat.Lcd.Pixel.{read-draw, read-inverse}

-- `n` places from `x` on.
within : ℤ → ℕ → ℤ → Bool
within x n x' = leb_ℤ x x' && ltb_ℤ x' (x +ℤ pos n)

within-zero : (x x' : ℤ) → within x zero x' ≡ false
unfolding within ◌+ℤ◌
within-zero x x' = ground arith

within-suc :
    (x : ℤ) (n : ℕ) (x' : ℤ) → within x (suc n) x' ≡ (eqb_ℤ x' x || within (x +ℤ pos 1) n x')
unfolding within ◌+ℤ◌
within-suc x n x' = ground arith

within-next : (x : ℤ) (n : ℕ) (x' : ℤ) → (within (x +ℤ pos 1) n x' && eqb_ℤ x' x) ≡ false
unfolding within ◌+ℤ◌
within-next x n x' = ground arith

-- The places that a loop from `x` to `max` visits.
within-rounds : (x max x' : ℤ) → within x (rounds x max) x' ≡ (leb_ℤ x x' && ltb_ℤ x' max)
unfolding within ◌+ℤ◌ ◌-ℤ◌
within-rounds x max x' = ground arith

-- A change of one place before changes of other ones.
merge :
    (v : ℕ → ℕ) (a w e : Bool) (r : ℕ)
    → (w && e) ≡ false
    → (if a && w then v (if a && e then v r else r) else (if a && e then v r else r))
      ≡ (if a && (e || w) then v r else r)
merge v false w e r h = refl
merge v true false false r h = refl
merge v true false true r h = refl
merge v true true false r h = refl
merge v true true true r h = cc

module _ (c : Screen) (f : Image → ℤ → ℤ → Image) (v : ℕ → ℕ)
    (law : (m : Image) (x y x' y' : ℤ)
      → read_pixel c (f m x y) x' y' ≡ (
          if on_screen c x' y' && eqb_ℤ x' x && eqb_ℤ y' y
          then v (read_pixel c m x' y')
          else read_pixel c m x' y')) where
  law_row :
      (m : Image) (x y x' y' : ℤ)
      → read_pixel c (f m x y) x' y' ≡ (
          if (on_screen c x' y' && eqb_ℤ y' y) && eqb_ℤ x' x
          then v (read_pixel c m x' y')
          else read_pixel c m x' y')
  law_row m x y x' y' = law m x y x' y' ∙ swap (on_screen c x' y') (eqb_ℤ x' x) (eqb_ℤ y' y)
    where
      swap :
          (o p q : Bool)
          → (if o && p && q then v (read_pixel c m x' y') else read_pixel c m x' y')
            ≡ (if (o && q) && p then v (read_pixel c m x' y') else read_pixel c m x' y')
      swap false p q = refl
      swap true false false = refl
      swap true false true = refl
      swap true true false = refl
      swap true true true = refl

  read-each_in_row :
      (n : ℕ) (m : Image) (x y x' y' : ℤ)
      → read_pixel c (each_in_row f m y n x) x' y' ≡ (
          if (on_screen c x' y' && eqb_ℤ y' y) && within x n x'
          then v (read_pixel c m x' y')
          else read_pixel c m x' y')
  unfolding each_in_row
  read-each_in_row zero m x y x' y' = rw (within-zero x x') (ground arith)
  read-each_in_row (suc n) m x y x' y' =
      read-each_in_row n (f m x y) (x +ℤ pos 1) y x' y'
      ∙ rw (law_row m x y x' y', within-suc x n x')
          (merge v (on_screen c x' y' && eqb_ℤ y' y) (within (x +ℤ pos 1) n x') (eqb_ℤ x' x)
            (read_pixel c m x' y') (within-next x n x'))

  row-cell :
      (n : ℕ) (m : Image) (x y x' y' : ℤ)
      → read_pixel c (each_in_row f m y n x) x' y' ≡ (
          if (on_screen c x' y' && within x n x') && eqb_ℤ y' y
          then v (read_pixel c m x' y')
          else read_pixel c m x' y')
  row-cell n m x y x' y' =
      read-each_in_row n m x y x' y' ∙ swap (on_screen c x' y') (within x n x') (eqb_ℤ y' y)
    where
      swap :
          (o p q : Bool)
          → (if (o && q) && p then v (read_pixel c m x' y') else read_pixel c m x' y')
            ≡ (if (o && p) && q then v (read_pixel c m x' y') else read_pixel c m x' y')
      swap false p q = refl
      swap true false false = refl
      swap true false true = refl
      swap true true false = refl
      swap true true true = refl

  read-each_row :
      (k : ℕ) (m : Image) (x : ℤ) (n : ℕ) (y x' y' : ℤ)
      → read_pixel c (each_row f m x n k y) x' y' ≡ (
          if (on_screen c x' y' && within x n x') && within y k y'
          then v (read_pixel c m x' y')
          else read_pixel c m x' y')
  unfolding each_row
  read-each_row zero m x n y x' y' = rw (within-zero y y') (ground arith)
  read-each_row (suc k) m x n y x' y' =
      read-each_row k (each_in_row f m y n x) x n (y +ℤ pos 1) x' y'
      ∙ rw (row-cell n m x y x' y', within-suc y k y')
          (merge v (on_screen c x' y' && within x n x') (within (y +ℤ pos 1) k y') (eqb_ℤ y' y)
            (read_pixel c m x' y') (within-next y k y'))

-- The pixels that a rectangle of `x1` columns and `y1` rows from `x0`, `y0` on covers.
abbrev pub in_rect : ℤ → ℤ → ℤ → ℤ → ℤ → ℤ → Bool
in_rect x0 y0 x1 y1 x y =
    (leb_ℤ x0 x && ltb_ℤ x (to_data16 (x0 +ℤ x1))) && (leb_ℤ y0 y && ltb_ℤ y (to_data16 (y0 +ℤ y1)))

and_assoc : (a b d : Bool) → ((a && b) && d) ≡ (a && (b && d))
and_assoc false b d = refl
and_assoc true b d = refl

module _ (c : Screen) (f : Image → ℤ → ℤ → Image) (v : ℕ → ℕ)
    (law : (m : Image) (x y x' y' : ℤ)
      → read_pixel c (f m x y) x' y' ≡ (
          if on_screen c x' y' && eqb_ℤ x' x && eqb_ℤ y' y
          then v (read_pixel c m x' y')
          else read_pixel c m x' y')) where
  read-rect :
      (m : Image) (x0 y0 x1 y1 x y : ℤ)
      → read_pixel c
          (each_row f m x0 (rounds x0 (to_data16 (x0 +ℤ x1))) (rounds y0 (to_data16 (y0 +ℤ y1))) y0)
          x
          y
        ≡ (if on_screen c x y && in_rect x0 y0 x1 y1 x y
            then v (read_pixel c m x y)
            else read_pixel c m x y)
  read-rect m x0 y0 x1 y1 x y =
      read-each_row c f v law (rounds y0 (to_data16 (y0 +ℤ y1))) m x0
        (rounds x0 (to_data16 (x0 +ℤ x1))) y0 x y
      ∙ rw
          (
            within-rounds x0 (to_data16 (x0 +ℤ x1)) x,
            within-rounds y0 (to_data16 (y0 +ℤ y1)) y,
            and_assoc (on_screen c x y) (leb_ℤ x0 x && ltb_ℤ x (to_data16 (x0 +ℤ x1)))
                (leb_ℤ y0 y && ltb_ℤ y (to_data16 (y0 +ℤ y1))),
          )
          refl

-- After a rectangle is filled, a pixel of the screen that it covers has the colour, and every other
-- pixel is as before. The ends of the rectangle are conversions to DATA16, so one that reaches past the
-- largest DATA16 covers nothing.
pub read-fill_rect :
    (c : Screen) (m : Image) (color : ℕ) (x0 y0 x1 y1 x y : ℤ)
    → read_pixel c (fill_rect c m color x0 y0 x1 y1) x y ≡ (
        if on_screen c x y && in_rect x0 y0 x1 y1 x y
        then (if color == 0 then 0 else 1)
        else read_pixel c m x y)
unfolding fill_rect
read-fill_rect c m color x0 y0 x1 y1 x y =
    read-rect c (λ i p q. draw_pixel c i color p q) (λ _. if color == 0 then 0 else 1)
      (λ i p q p' q'. read-draw c i color p q p' q') m x0 y0 x1 y1 x y

read-inverse_rect :
    (c : Screen) (m : Image) (x0 y0 x1 y1 x y : ℤ)
    → read_pixel c (inverse_rect c m x0 y0 x1 y1) x y ≡ (
        if on_screen c x y && in_rect x0 y0 x1 y1 x y
        then 1 - read_pixel c m x y
        else read_pixel c m x y)
unfolding inverse_rect
read-inverse_rect c m x0 y0 x1 y1 x y =
    read-rect c (inverse_pixel c) (λ r. 1 - r) (read-inverse c) m x0 y0 x1 y1 x y

pixel-bound : (c : Screen) (m : Image) (x y : ℤ) → read_pixel c m x y ≤ 1
unfolding read_pixel
pixel-bound c m x y =
    elim (Bool-cases (on_screen c x y && bit (pos_part x % 8) (m (offset_of c x y) % 256))) [
      | inl h ↦ rw h (omega arith)
      | inr h ↦ rw h (omega arith)
    ]

-- Inverting a rectangle twice leaves every pixel as it was.
pub inverse_rect-twice :
    (c : Screen) (m : Image) (x0 y0 x1 y1 x y : ℤ)
    → read_pixel c (inverse_rect c (inverse_rect c m x0 y0 x1 y1) x0 y0 x1 y1) x y
      ≡ read_pixel c m x y
inverse_rect-twice c m x0 y0 x1 y1 x y =
    let le = pixel-bound c m x y in
    read-inverse_rect c (inverse_rect c m x0 y0 x1 y1) x0 y0 x1 y1 x y
    ∙ elim (Bool-cases (on_screen c x y && in_rect x0 y0 x1 y1 x y)) [
      | inl h ↦ rw (h, read-inverse_rect c m x0 y0 x1 y1 x y, h) (omega arith)
      | inr h ↦ rw (h, read-inverse_rect c m x0 y0 x1 y1 x y, h) refl
    ]
