-- ===== src/Buttons/Flags.antt =====
-- Setting, testing and taking the flags of buttons, by c_ui/button.c. The reads of short presses, long
-- presses and bumps differ in their flag only; a read that takes a flag clears it.
use lms2012_compat.Prelude.{
  ℕ, zero, suc, Bool, true, false, ◌||◌, ◌==◌, ltb, if◌then◌else◌, List, [], ◌∷◌, length,
}
use lms2012_compat.Prelude.Int.{ℤ, pos, negsuc}
use lms2012_compat.Buttons.{
  Button, Ui, Mapped, left_button, right_button, up_button, down_button, any_button,
  c_ui_button_remap, real_any_button, real_no_button, map_buttons,
}

-- A flag of `ButtonState`
pub record Flag : Type 0 where
  pub test : Button → Bool
  pub clear : Button → Button

abbrev pub pressed_flag : Flag
pressed_flag = record { test = λ b. b.pressed; clear = λ b. record b { pressed = false } }

abbrev pub activated_flag : Flag
activated_flag = record { test = λ b. b.activated; clear = λ b. record b { activated = false } }

abbrev pub longpress_flag : Flag
longpress_flag = record { test = λ b. b.longpress; clear = λ b. record b { longpress = false } }

abbrev pub bumped_flag : Flag
bumped_flag = record { test = λ b. b.bumped; clear = λ b. record b { bumped = false } }

-- The flag of the button with this number, which is below their number
abbrev pub set_at : Flag → ℕ → List Button → Bool
set_at f i [] = false
set_at f zero (b ∷ bs) = f.test b
set_at f (suc i) (b ∷ bs) = set_at f i bs

-- A read of the flag of that button, which clears it
abbrev pub take_at : Flag → ℕ → List Button → Bool × List Button
take_at f i [] = (false, [])
take_at f zero (b ∷ bs) = if f.test b then (true, f.clear b ∷ bs) else (false, b ∷ bs)
take_at f (suc i) (b ∷ bs) = let (r, bs') = take_at f i bs in (r, b ∷ bs')

-- The loops over all buttons: `Result` becomes `hit` at each one that has the flag.
abbrev pub test_all : Flag → Bool → Bool → List Button → Bool
test_all f hit result [] = result
test_all f hit result (b ∷ bs) = test_all f hit (if f.test b then hit else result) bs

abbrev pub take_all : Flag → Bool → Bool → List Button → Bool × List Button
take_all f hit result [] = (result, [])
take_all f hit result (b ∷ bs) =
    let (r, bs') = take_all f hit (if f.test b then hit else result) bs in
    (r, (if f.test b then f.clear b else b) ∷ bs')

-- `cUiButtonTestShortPress` and `cUiButtonTestLongPress`
unfoldable pub test_flag : Flag → ℕ → List Button → Bool
test_flag f i bs =
    if ltb i (length bs)
    then set_at f i bs
    else if i == real_any_button
    then test_all f true false bs
    else if i == real_no_button
    then test_all f false true bs
    else false

-- `cUiButtonGetShortPress`, `cUiButtonGetLongPress` and `cUiButtonGetBumped`
unfoldable pub take_flag : Flag → ℕ → List Button → Bool × List Button
take_flag f i bs =
    if ltb i (length bs)
    then take_at f i bs
    else if i == real_any_button
    then take_all f true false bs
    else if i == real_no_button
    then take_all f false true bs
    else (false, bs)

unfoldable pub c_ui_button_set_press : Mapped → Bool → Ui → Ui
c_ui_button_set_press m press u =
    let i = c_ui_button_remap m in
    record u {
      buttons =
          if ltb i (length u.buttons)
          then map_at i (λ b. record b { active = press }) u.buttons
          else if i == real_any_button
          then map_buttons (λ b. record b { active = press }) u.buttons
          else u.buttons;
    }
  where
    map_at : ℕ → (Button → Button) → List Button → List Button
    map_at i f [] = []
    map_at zero f (b ∷ bs) = f b ∷ bs
    map_at (suc i) f (b ∷ bs) = b ∷ map_at i f bs

-- PRESSED has no branch for NO_BUTTON.
unfoldable pub c_ui_button_get_press : Mapped → Ui → Bool
c_ui_button_get_press m u =
    let i = c_ui_button_remap m in
    if ltb i (length u.buttons)
    then set_at pressed_flag i u.buttons
    else if i == real_any_button
    then test_all pressed_flag true false u.buttons
    else false

unfoldable pub c_ui_button_test_short_press : Mapped → Ui → Bool
unfolding test_flag
c_ui_button_test_short_press m u = test_flag activated_flag (c_ui_button_remap m) u.buttons

unfoldable pub c_ui_button_test_long_press : Mapped → Ui → Bool
unfolding test_flag
c_ui_button_test_long_press m u = test_flag longpress_flag (c_ui_button_remap m) u.buttons

-- A read of a short or a long press that finds one is a click.
unfoldable pub c_ui_button_get_short_press : Mapped → Ui → Bool × Ui
unfolding take_flag
c_ui_button_get_short_press m u =
    let (result, bs) = take_flag activated_flag (c_ui_button_remap m) u.buttons in
    (result, record u { buttons = bs; click = result || u.click })

unfoldable pub c_ui_button_get_long_press : Mapped → Ui → Bool × Ui
unfolding take_flag
c_ui_button_get_long_press m u =
    let (result, bs) = take_flag longpress_flag (c_ui_button_remap m) u.buttons in
    (result, record u { buttons = bs; click = result || u.click })

unfoldable pub c_ui_button_get_bumped : Mapped → Ui → Bool × Ui
unfolding take_flag
c_ui_button_get_bumped m u =
    let (result, bs) = take_flag bumped_flag (c_ui_button_remap m) u.buttons in
    (result, record u { buttons = bs })

unfoldable pub c_ui_button_test_horz : Ui → ℤ
unfolding c_ui_button_test_short_press
c_ui_button_test_horz u =
    if c_ui_button_test_short_press right_button u
    then pos 1
    else if c_ui_button_test_short_press left_button u
    then negsuc 0
    else pos 0

-- Both buttons are read, the second on what the first read leaves.
abbrev pub get_pair : Mapped → Mapped → Ui → ℤ × Ui
unfolding c_ui_button_get_short_press
get_pair back forth u =
    let (b, u1) = c_ui_button_get_short_press back u in
    let (f, u2) = c_ui_button_get_short_press forth u1 in
    (if f then pos 1 else if b then negsuc 0 else pos 0, u2)

unfoldable pub c_ui_button_get_horz : Ui → ℤ × Ui
unfolding get_pair
c_ui_button_get_horz u = get_pair left_button right_button u

unfoldable pub c_ui_button_get_vert : Ui → ℤ × Ui
unfolding get_pair
c_ui_button_get_vert u = get_pair up_button down_button u

unfoldable pub c_ui_button_wait_for_press : Ui → Bool
unfolding c_ui_button_test_short_press
c_ui_button_wait_for_press u = c_ui_button_test_short_press any_button u
