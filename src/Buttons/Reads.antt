-- ===== src/Buttons/Reads.antt =====
-- A read that takes a flag of the buttons finds what a test of it finds, and clears it.
use lms2012_compat.Prelude.{
  ℕ, zero, suc, ◌≤◌, ◌≡◌, refl, ◌∙◌, inl, inr, Bool, true, false, ◌==◌, ltb, if◌then◌else◌, List,
  [], ◌∷◌, length, arith, Bool-cases, ap,
}
use lms2012_compat.Buttons.{Button, Ui, Mapped, c_ui_button_remap, real_any_button, real_no_button}
use lms2012_compat.Buttons.Flags.{
  Flag, activated_flag, longpress_flag, bumped_flag, set_at, take_at, test_all, take_all, test_flag,
  take_flag, c_ui_button_test_short_press, c_ui_button_test_long_press, c_ui_button_get_short_press,
  c_ui_button_get_long_press, c_ui_button_get_bumped,
}

abbrev Clears : Flag → Type 0
Clears f = (b : Button) → f.test (f.clear b) ≡ false

take_at-test : (f : Flag) (i : ℕ) (bs : List Button) → (take_at f i bs).0 ≡ set_at f i bs
take_at-test f i [] = refl
take_at-test f zero (b ∷ bs) = elim (Bool-cases (f.test b)) [
  | inl h ↦ rw h refl
  | inr h ↦ rw h refl
]
take_at-test f (suc i) (b ∷ bs) = take_at-test f i bs

take_all-test :
    (f : Flag) (hit r : Bool) (bs : List Button) → (take_all f hit r bs).0 ≡ test_all f hit r bs
take_all-test f hit r [] = refl
take_all-test f hit r (b ∷ bs) = take_all-test f hit (if f.test b then hit else r) bs

length-take_at : (f : Flag) (i : ℕ) (bs : List Button) → length (take_at f i bs).1 ≡ length bs
length-take_at f i [] = refl
length-take_at f zero (b ∷ bs) = elim (Bool-cases (f.test b)) [
  | inl h ↦ rw h refl
  | inr h ↦ rw h refl
]
length-take_at f (suc i) (b ∷ bs) = ap suc (length-take_at f i bs)

length-take_all :
    (f : Flag) (hit r : Bool) (bs : List Button) → length (take_all f hit r bs).1 ≡ length bs
length-take_all f hit r [] = refl
length-take_all f hit r (b ∷ bs) = ap suc (length-take_all f hit (if f.test b then hit else r) bs)

-- After a read the flag is clear.
set_at-take_at :
    (f : Flag) → Clears f → (i : ℕ) (bs : List Button) → set_at f i (take_at f i bs).1 ≡ false
set_at-take_at f c i [] = refl
set_at-take_at f c zero (b ∷ bs) = elim (Bool-cases (f.test b)) [
  | inl h ↦ rw h (c b)
  | inr h ↦ rw h h
]
set_at-take_at f c (suc i) (b ∷ bs) = set_at-take_at f c i bs

test_all-take_all :
    (f : Flag)
    → Clears f
    → (hit r hit' r' : Bool) (bs : List Button) → test_all f hit' r' (take_all f hit r bs).1 ≡ r'
test_all-take_all f c hit r hit' r' [] = refl
test_all-take_all f c hit r hit' r' (b ∷ bs) = elim (Bool-cases (f.test b)) [
  | inl h ↦ rw (h, c b) (test_all-take_all f c hit hit hit' r' bs)
  | inr h ↦ rw (h, h) (test_all-take_all f c hit r hit' r' bs)
]

take_flag-test : (f : Flag) (i : ℕ) (bs : List Button) → (take_flag f i bs).0 ≡ test_flag f i bs
unfolding take_flag test_flag
take_flag-test f i bs = elim (Bool-cases (ltb i (length bs))) [
  | inl h ↦ rw h (take_at-test f i bs)
  | inr h ↦ elim (Bool-cases (i == real_any_button)) [
    | inl k ↦ rw (h, k) (take_all-test f true false bs)
    | inr k ↦ elim (Bool-cases (i == real_no_button)) [
      | inl l ↦ rw (h, k, l) (take_all-test f false true bs)
      | inr l ↦ rw (h, k, l) refl
    ]
  ]
]

-- What is tested after a read: nothing is set, which for NO_BUTTON is a hit.
test_flag-take_flag :
    (f : Flag)
    → Clears f
    → (i : ℕ) (bs : List Button) → length bs ≤ real_any_button
    → test_flag f i (take_flag f i bs).1 ≡ (i == real_no_button)
unfolding take_flag test_flag
test_flag-take_flag f c i bs le = elim (Bool-cases (ltb i (length bs))) [
  | inl h ↦ rw (h, length-take_at f i bs, h, set_at-take_at f c i bs) (ground arith)
  | inr h ↦ elim (Bool-cases (i == real_any_button)) [
    | inl k ↦
        rw
          (h, k, length-take_all f true false bs, h, test_all-take_all f c true false true false bs)
          (ground arith)
    | inr k ↦ elim (Bool-cases (i == real_no_button)) [
      | inl l ↦
          rw
            (
              h,
              k,
              l,
              length-take_all f false true bs,
              h,
              test_all-take_all f c false true false true bs,
            )
            refl
      | inr l ↦ rw (h, k, l, h) refl
    ]
  ]
]

-- A read of a short press, of a long press or of a bump, of one button, of any or of none, finds what the
-- test finds. Where the buttons are no more than BUTTONS, the same read again finds no flag: it gives 0,
-- and 1 for NO_BUTTON.
pub get-test :
    (m : Mapped) (u : Ui)
    → length u.buttons ≤ real_any_button
    → ((c_ui_button_get_short_press m u).0 ≡ c_ui_button_test_short_press m u)
      × ((c_ui_button_get_long_press m u).0 ≡ c_ui_button_test_long_press m u)
      × ((c_ui_button_get_short_press m (c_ui_button_get_short_press m u).1).0
          ≡ (c_ui_button_remap m == real_no_button))
      × ((c_ui_button_get_long_press m (c_ui_button_get_long_press m u).1).0
          ≡ (c_ui_button_remap m == real_no_button))
      × ((c_ui_button_get_bumped m (c_ui_button_get_bumped m u).1).0
          ≡ (c_ui_button_remap m == real_no_button))
unfolding c_ui_button_get_short_press c_ui_button_get_long_press c_ui_button_get_bumped
    c_ui_button_test_short_press c_ui_button_test_long_press
get-test m u le =
    let i = c_ui_button_remap m in
    (
      take_flag-test activated_flag i u.buttons,
      take_flag-test longpress_flag i u.buttons,
      again activated_flag (λ b. refl) i u.buttons le,
      again longpress_flag (λ b. refl) i u.buttons le,
      again bumped_flag (λ b. refl) i u.buttons le,
    )
  where
    again :
        (f : Flag)
        → Clears f
        → (i : ℕ) (bs : List Button) → length bs ≤ real_any_button
        → (take_flag f i (take_flag f i bs).1).0 ≡ (i == real_no_button)
    again f c i bs h = take_flag-test f i (take_flag f i bs).1 ∙ test_flag-take_flag f c i bs h
