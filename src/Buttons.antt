-- ===== src/Buttons.antt =====
-- The buttons of c_ui/button.c: debouncing, automatic repetition, long presses and the reads that clear.
-- `ButtonState` is a record of its flags. The numbers of the mapped buttons are generated, so they are the
-- constructors of a type; which key of the hardware a button is, and the keys' states, are the caller's.
pub mod Flags
pub mod Reads
pub mod Long
pub mod Release
use lms2012_compat.Prelude.{
  ℕ, zero, suc, ◌+◌, Bool, true, false, not, ◌&&◌, ◌||◌, ◌==◌, ltb, if◌then◌else◌, List, [], ◌∷◌,
  Option, none, some, length, get_elem?, set,
}
use lms2012_compat.Prelude.Int.{ℤ, pos, negsuc, pos_part, neg_part, ◌+ℤ◌, ◌-ℤ◌, ltb_ℤ, leb_ℤ, eqb_ℤ}
use lms2012_compat.Words.{to_data16}

-- The flags and the timers of one button
pub record Button : Type 0 where
  pub active : Bool
  pub pressed : Bool
  pub activated : Bool
  pub longpress : Bool
  pub bumped : Bool
  pub long_latch : Bool
  pub button_timer : ℤ
  pub debounce_timer : ℤ
  pub repeat_timer : ℤ

-- `Activated` has the two bits of BUTTON_ACTIVATION_SET; the third one is of another build.
pub record Ui : Type 0 where
  pub buttons : List Button
  pub alive : Bool
  pub click_activated : Bool
  pub click : Bool

abbrev pub button_debounce_time : ℕ
button_debounce_time = 30

abbrev pub button_start_repeat_time : ℕ
button_start_repeat_time = 400

abbrev pub button_repeat_time : ℕ
button_repeat_time = 200

abbrev pub long_press_time : ℕ
long_press_time = 3000

abbrev pub real_enter_button : ℕ
real_enter_button = 1

abbrev pub real_back_button : ℕ
real_back_button = 5

abbrev pub real_any_button : ℕ
real_any_button = 6

abbrev pub real_no_button : ℕ
real_no_button = 7

pub data Mapped : Type 0 where
  up_button : Mapped
  enter_button : Mapped
  down_button : Mapped
  right_button : Mapped
  left_button : Mapped
  back_button : Mapped
  any_button : Mapped
  no_button : Mapped
  out_of_range : Mapped

-- `MappedToReal`, and what `cUiButtonRemap` makes of a number that it has no entry for
abbrev pub c_ui_button_remap : Mapped → ℕ
c_ui_button_remap up_button = 0
c_ui_button_remap enter_button = real_enter_button
c_ui_button_remap down_button = 2
c_ui_button_remap right_button = 3
c_ui_button_remap left_button = 4
c_ui_button_remap back_button = real_back_button
c_ui_button_remap any_button = real_any_button
c_ui_button_remap no_button = real_no_button
c_ui_button_remap out_of_range = real_any_button

abbrev pub clear_flags : Button → Button
clear_flags b = record b {
  activated = false;
  longpress = false;
  bumped = false;
  long_latch = false;
}

abbrev pub map_buttons : (Button → Button) → List Button → List Button
map_buttons f [] = []
map_buttons f (b ∷ bs) = f b ∷ map_buttons f bs

unfoldable pub c_ui_button_clear_all : Ui → Ui
c_ui_button_clear_all u = record u { buttons = map_buttons clear_flags u.buttons }

-- The state that a press of the hardware sets: ACTIVE, and no other flag.
abbrev pub only_active : Button → Button
only_active b = record b {
  active = true;
  pressed = false;
  activated = false;
  longpress = false;
  bumped = false;
  long_latch = false;
}

-- A look at the key of a button, `time` milliseconds after the last one.
unfoldable pub poll : Bool → ℤ → Button → Button
poll true time b = record (if eqb_ℤ b.debounce_timer (pos 0) then only_active b else b) {
  debounce_timer = pos button_debounce_time;
}
poll false time b =
    if ltb_ℤ (pos 0) b.debounce_timer
    then (let t = to_data16 (b.debounce_timer -ℤ time) in
        if leb_ℤ t (pos 0)
        then record b { active = false; debounce_timer = pos 0 }
        else record b { debounce_timer = t })
    else b

abbrev pub activate : Button → Button
activate b = if b.pressed then b else record b {
  pressed = true;
  activated = true;
  button_timer = pos 0;
  repeat_timer = pos button_start_repeat_time;
}

-- Buttons that repeat while they are held
abbrev pub repeats : ℕ → Bool
repeats i = not (i == real_enter_button) && not (i == real_back_button)

abbrev pub auto_repeat : ℕ → ℤ → Button → Button
auto_repeat i time b =
    if ltb_ℤ time b.repeat_timer
    then record b { repeat_timer = to_data16 (b.repeat_timer -ℤ time) }
    else if repeats i
    then record b { activated = true; repeat_timer = pos button_repeat_time }
    else b

abbrev pub long_press : ℤ → Button → Button
long_press time b =
    let t = to_data16 (b.button_timer +ℤ time) in
    if leb_ℤ (pos long_press_time) t
    then record b { button_timer = t; long_latch = true; longpress = true }
    else record b { button_timer = t }

abbrev pub release : Button → Button
release b = if b.pressed then record b { pressed = false; long_latch = false; bumped = true } else b

unfoldable pub update_button : ℕ → ℤ → Button → Button
update_button i time b =
    if b.active then long_press time (auto_repeat i time (activate b)) else release b

-- Whether `Activated` is set for the button.
abbrev pub activates : ℕ → ℤ → Button → Bool
activates i time b =
    b.active && (not b.pressed || (not (ltb_ℤ time (activate b).repeat_timer) && repeats i))

unfoldable pub update_from : ℕ → ℤ → List Button → List Button
unfolding update_button
update_from i time [] = []
update_from i time (b ∷ bs) = update_button i time b ∷ update_from (suc i) time bs

unfoldable pub any_activates : ℕ → ℤ → List Button → Bool
any_activates i time [] = false
any_activates i time (b ∷ bs) = activates i time b || any_activates (suc i) time bs

abbrev pub poll_from : ℕ → (ℕ → Bool) → ℤ → List Button → List Button
poll_from i keys time [] = []
poll_from i keys time (b ∷ bs) = poll (keys i) time b ∷ poll_from (suc i) keys time bs

-- With the keys' states, or nothing where there is no file of hardware buttons.
unfoldable pub c_ui_update_buttons : Option (ℕ → Bool) → ℤ → Ui → Ui
unfolding poll update_from any_activates
c_ui_update_buttons keys time u =
    let bs : List Button = elim keys [ none ↦ u.buttons | some k ↦ poll_from 0 k time u.buttons ] in
    let on = any_activates 0 time bs in
    record u {
      buttons = update_from 0 time bs;
      alive = u.alive || on;
      click_activated = u.click_activated || on;
    }
