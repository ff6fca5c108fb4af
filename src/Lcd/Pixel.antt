-- ===== src/Lcd/Pixel.antt =====
-- Reading a pixel after one was drawn or inverted.
use lms2012_compat.Prelude.{
  ℕ, zero, suc, ◌+◌, ◌-◌, ◌*◌, ◌/◌, ◌%◌, ◌<◌, ◌≡◌, refl, sym, ap, ◌∙◌, inl, inr, Bool, true, false,
  not, ◌&&◌, ◌==◌, if◌then◌else◌, arith, Bool-cases,
}
use lms2012_compat.Prelude.Int.{ℤ, pos, negsuc, pos_part, eqb_ℤ}
use lms2012_compat.Words.{bit}
use native.Mathlib.Nat.{mul-add-div_right, div-eq_of_lt}
use lms2012_compat.Lcd.{
  Screen, stride, Image, set_bit, clear_bit, flip_bit, on_screen, change, draw_pixel, inverse_pixel,
  read_pixel,
}

-- Over all bytes and bits, by evaluation.
all_below : ℕ → (ℕ → Bool) → Bool
all_below zero p = true
all_below (suc n) p = p n && all_below n p

all_below-lt : (n : ℕ) (p : ℕ → Bool) (x : ℕ) → all_below n p ≡ true → x < n → p x ≡ true
unfolding all_below
all_below-lt zero p x h l = absurd (omega arith)
all_below-lt (suc n) p x h l = ground (arith, all_below-lt n p x)

same : Bool → Bool → Bool
same true b = b
same false b = not b

same-eq : (a b : Bool) → same a b ≡ true → a ≡ b
unfolding same
same-eq true true h = refl
same-eq true false h = cc
same-eq false true h = cc
same-eq false false h = refl

-- What setting, clearing and inverting bit `j` does to bit `k`, in a byte.
entry : (ℕ → ℕ → ℕ) → (Bool → Bool) → ℕ → ℕ → ℕ → Bool
unfolding same
entry f g b j k = same (bit k (f j b % 256)) (if k == j then g (bit k b) else bit k b)

column : (ℕ → ℕ → ℕ) → (Bool → Bool) → ℕ → ℕ → Bool
unfolding all_below entry
column f g b j = all_below 8 (entry f g b j)

page : (ℕ → ℕ → ℕ) → (Bool → Bool) → ℕ → Bool
unfolding all_below column
page f g b = all_below 8 (column f g b)

table : (ℕ → ℕ → ℕ) → (Bool → Bool) → Bool
unfolding all_below page
table f g = all_below 256 (page f g)

set-table : table set_bit (λ _. true) ≡ true
unfolding table page column entry all_below same
set-table = refl

clear-table : table clear_bit (λ _. false) ≡ true
unfolding table page column entry all_below same
clear-table = refl

flip-table : table flip_bit not ≡ true
unfolding table page column entry all_below same
flip-table = refl

bit-table :
    (f : ℕ → ℕ → ℕ) (g : Bool → Bool) (b j k : ℕ)
    → table f g ≡ true
    → b < 256
    → j < 8
    → k < 8
    → bit k (f j b % 256) ≡ (if k == j then g (bit k b) else bit k b)
unfolding table page column entry
bit-table f g b j k t hb hj hk =
    let u : page f g b ≡ true = all_below-lt 256 (page f g) b t hb in
    let v : column f g b j ≡ true = all_below-lt 8 (column f g b) j u hj in
    let w : entry f g b j k ≡ true = all_below-lt 8 (entry f g b j) k v hk in
    same-eq (bit k (f j b % 256)) (if k == j then g (bit k b) else bit k b) w

-- Different pixels have different places.
row_of : (c : Screen) (x y : ℕ) → x < c.width → (y * stride c + x / 8) / stride c ≡ y
row_of c x y hx =
    let small : x / 8 / stride c ≡ 0 = div-eq_of_lt (omega arith) in
    mul-add-div_right (omega arith) y (x / 8) ∙ omega (arith, small)

offset_of-eq :
    (c : Screen) (x y x' y' : ℕ)
    → x < c.width
    → x' < c.width
    → x / 8 + y * stride c ≡ x' / 8 + y' * stride c
    → (x / 8 ≡ x' / 8) × (y ≡ y')
offset_of-eq c x y x' y' hx hx' e =
    let rows : y ≡ y' =
      sym (row_of c x y hx) ∙ ap (λ o. o / stride c) (omega (arith, e)) ∙ row_of c x' y' hx' in
    let e' : x / 8 + y' * stride c ≡ x' / 8 + y' * stride c = rw rows at e in (omega arith, rows)

-- The bit of a pixel.
abbrev pub pixel_bit : Screen → Image → ℕ → ℕ → Bool
pixel_bit c m x y = bit (x % 8) (m (x / 8 + y * stride c) % 256)

same_pixel :
    (c : Screen) (x y x' y' : ℕ)
    → x < c.width
    → x' < c.width
    → (x' / 8 + y' * stride c == x / 8 + y * stride c) ≡ true
    → (x' == x && y' == y) ≡ (x' % 8 == x % 8)
same_pixel c x y x' y' hx hx' e =
    let places = offset_of-eq c x' y' x y hx' hx (ground arith) in
    let q = places.0 in let r = places.1 in ground arith

other_pixel :
    (c : Screen) (x y x' y' : ℕ)
    → (x' / 8 + y' * stride c == x / 8 + y * stride c) ≡ false
    → (x' == x && y' == y) ≡ false
other_pixel c x y x' y' e = elim (Bool-cases (x' == x && y' == y)) [
  | inr h ↦ h
  | inl h ↦
      let p : x' ≡ x = ground arith in
      let q : y' ≡ y = ground arith in
      let e' : (x / 8 + y * stride c == x / 8 + y * stride c) ≡ false = rw (p, q) at e in
      ground arith
]

change-bit :
    (c : Screen) (f : ℕ → ℕ → ℕ) (g : Bool → Bool) (m : Image) (x y x' y' : ℕ)
    → table f g ≡ true
    → x < c.width
    → x' < c.width
    → pixel_bit c (change c f m (pos x) (pos y)) x' y'
      ≡ (if x' == x && y' == y then g (pixel_bit c m x' y') else pixel_bit c m x' y')
change-bit c f g m x y x' y' t hx hx' =
    elim (Bool-cases (x' / 8 + y' * stride c == x / 8 + y * stride c)) [
      | inr e ↦ rw (e, other_pixel c x y x' y' e) refl
      | inl e ↦
          rw (e, same_pixel c x y x' y' hx hx' e)
            (bit-table f g (m (x' / 8 + y' * stride c) % 256) (x % 8) (x' % 8) t (omega arith)
              (omega arith) (omega arith))
    ]

-- What a read finds after a change of one pixel.
read-change :
    (c : Screen) (f : ℕ → ℕ → ℕ) (g : Bool → Bool) (m : Image) (x y x' y' : ℤ)
    → table f g ≡ true
    → on_screen c x y ≡ true
    → read_pixel c (change c f m x y) x' y' ≡ (
        if on_screen c x' y' && eqb_ℤ x' x && eqb_ℤ y' y
        then (if g (pixel_bit c m (pos_part x') (pos_part y')) then 1 else 0)
        else read_pixel c m x' y')
unfolding read_pixel
read-change c f g m (negsuc x) y x' y' t h = cc
read-change c f g m (pos x) (negsuc y) x' y' t h = cc
read-change c f g m (pos x) (pos y) (negsuc x') y' t h = refl
read-change c f g m (pos x) (pos y) (pos x') (negsuc y') t h = refl
read-change c f g m (pos x) (pos y) (pos x') (pos y') t h =
    elim (Bool-cases (on_screen c (pos x') (pos y'))) [
      | inr e ↦ rw e refl
      | inl e ↦
          let b = change-bit c f g m x y x' y' t (ground arith) (ground arith) in
          rw (e, b) (ground arith)
    ]

off_screen :
    (c : Screen) (x y x' y' : ℤ)
    → on_screen c x y ≡ false
    → (on_screen c x' y' && eqb_ℤ x' x && eqb_ℤ y' y) ≡ false
off_screen c (negsuc x) y (negsuc x') y' h = refl
off_screen c (negsuc x) y (pos x') (negsuc y') h = refl
off_screen c (negsuc x) y (pos x') (pos y') h = ground arith
off_screen c (pos x) y (negsuc x') y' h = refl
off_screen c (pos x) y (pos x') (negsuc y') h = refl
off_screen c (pos x) (negsuc y) (pos x') (pos y') h = ground arith
off_screen c (pos x) (pos y) (pos x') (pos y') h = ground arith

-- After a pixel is drawn, it has the colour if it is on the screen, and every other pixel is as before.
pub read-draw :
    (c : Screen) (m : Image) (color : ℕ) (x y x' y' : ℤ)
    → read_pixel c (draw_pixel c m color x y) x' y' ≡ (
        if on_screen c x' y' && eqb_ℤ x' x && eqb_ℤ y' y
        then (if color == 0 then 0 else 1)
        else read_pixel c m x' y')
unfolding draw_pixel
read-draw c m color x y x' y' = elim (Bool-cases (on_screen c x y)) [
  | inr h ↦ rw (h, off_screen c x y x' y' h) refl
  | inl h ↦ elim (Bool-cases (color == 0)) [
    | inl k ↦ rw (h, k) (read-change c clear_bit (λ _. false) m x y x' y' clear-table h)
    | inr k ↦ rw (h, k) (read-change c set_bit (λ _. true) m x y x' y' set-table h)
  ]
]

invert_value :
    (c : Screen) (m : Image) (x y : ℤ)
    → on_screen c x y ≡ true
    → (if not (pixel_bit c m (pos_part x) (pos_part y)) then 1 else 0) ≡ 1 - read_pixel c m x y
unfolding read_pixel
invert_value c m x y h = rw h (ground arith)

-- After a pixel is inverted, it is inverted if it is on the screen, and every other one is as before.
pub read-inverse :
    (c : Screen) (m : Image) (x y x' y' : ℤ)
    → read_pixel c (inverse_pixel c m x y) x' y' ≡ (
        if on_screen c x' y' && eqb_ℤ x' x && eqb_ℤ y' y
        then 1 - read_pixel c m x' y'
        else read_pixel c m x' y')
unfolding inverse_pixel
read-inverse c m x y x' y' = elim (Bool-cases (on_screen c x y)) [
  | inr h ↦ rw (h, off_screen c x y x' y' h) refl
  | inl h ↦ elim (Bool-cases (on_screen c x' y')) [
    | inl k ↦ rw h (
        read-change c flip_bit not m x y x' y' flip-table h ∙ rw (k, invert_value c m x' y' k) refl)
    | inr k ↦ rw h (read-change c flip_bit not m x y x' y' flip-table h ∙ rw k refl)
  ]
]
