-- ===== src/Tests/Keys.antt =====
-- Buttons that are held, let go and read.
use lms2012_compat.Prelude.{◌≡◌, refl, true, false, [], ◌∷◌, arith}
use lms2012_compat.Prelude.Int.{pos}
use lms2012_compat.Buttons.{Button, Ui}
use lms2012_compat.Buttons.Long.{updates, updates-longpress}
use lms2012_compat.Buttons.Release.{key_up, key_up-bumped}

abbrev idle : Button
idle = record {
  active = false;
  pressed = false;
  activated = false;
  longpress = false;
  bumped = false;
  long_latch = false;
  button_timer = pos 0;
  debounce_timer = pos 0;
  repeat_timer = pos 0;
}

abbrev touched : Button
touched = record idle { active = true }

abbrev down : Button
down = record idle { active = true; pressed = true; activated = true; debounce_timer = pos 30 }

abbrev ui : Ui
ui = record {
  buttons = idle ∷ down ∷ idle ∷ [];
  alive = false;
  click_activated = false;
  click = false;
}

updates-longpress_example :
    ((updates 2 (1000 ∷ 1500 ∷ 600 ∷ []) touched).pressed ≡ true)
    × ((updates 2 (1000 ∷ 1500 ∷ 600 ∷ []) touched).longpress ≡ true)
updates-longpress_example =
    updates-longpress 2 1000 (1500 ∷ 600 ∷ []) touched refl refl refl (omega arith)

key_up-bumped_example :
    ((key_up 2 (10 ∷ 10 ∷ 15 ∷ []) down).pressed ≡ false)
    × ((key_up 2 (10 ∷ 10 ∷ 15 ∷ []) down).bumped ≡ true)
key_up-bumped_example =
    key_up-bumped 2 (10 ∷ 10 ∷ 15 ∷ []) down (refl, refl, refl, refl)
      (omega arith, (omega arith, (omega arith, tt)))
