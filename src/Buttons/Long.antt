-- ===== src/Buttons/Long.antt =====
-- How long a button is held before it counts as a long press.
use mathlib.Core.Path.{subst, sym, ap}
use lms2012_compat.Prelude.{
  ℕ, ◌+◌, ◌≤◌, ◌≡◌, refl, ◌∙◌, inl, inr, Bool, true, false, leb, if◌then◌else◌, List, [], ◌∷◌,
  arith, Bool-cases,
}
use lms2012_compat.Prelude.Int.{ℤ, pos, ◌+ℤ◌, ltb_ℤ, leb_ℤ}
use lms2012_compat.Words.{to_data16, data16}
use lms2012_compat.Words.Laws.{signed-pattern_of}
use lms2012_compat.Buttons.{
  Button, repeats, auto_repeat, long_press, long_press_time, update_button,
}

-- The updates of a button, one for each number of milliseconds.
unfoldable pub updates : ℕ → List ℕ → Button → Button
unfolding update_button
updates i [] b = b
updates i (t ∷ ts) b = updates i ts (update_button i (pos t) b)

abbrev pub sum : List ℕ → ℕ
sum [] = 0
sum (t ∷ ts) = t + sum ts

abbrev pub max_data16 : ℕ
max_data16 = 32767

pub to_data16-pos : (n : ℕ) → n ≤ max_data16 → to_data16 (pos n) ≡ pos n
to_data16-pos n h = signed-pattern_of data16 (pos n) (omega arith, omega arith)

-- The flags that automatic repetition leaves alone
auto_repeat-keeps :
    (i : ℕ) (time : ℤ) (b : Button)
    → let b' = auto_repeat i time b in
      (b'.active ≡ b.active)
      × (b'.pressed ≡ b.pressed)
      × (b'.longpress ≡ b.longpress)
      × (b'.button_timer ≡ b.button_timer)
auto_repeat-keeps i time b = elim (Bool-cases (ltb_ℤ time b.repeat_timer)) [
  | inl h ↦ rw h (refl, refl, refl, refl)
  | inr h ↦ elim (Bool-cases (repeats i)) [
    | inl k ↦ rw (h, k) (refl, refl, refl, refl)
    | inr k ↦ rw (h, k) (refl, refl, refl, refl)
  ]
]

-- A button that is held: its timer has what passed since its activation.
abbrev Held : ℕ → Button → Type 0
Held s b =
    (b.active ≡ true)
    × (b.pressed ≡ true)
    × (b.button_timer ≡ pos s)
    × (b.longpress ≡ leb long_press_time s)

plus : (s t : ℕ) → pos s +ℤ pos t ≡ pos (s + t)
unfolding ◌+ℤ◌
plus s t = ground arith

long_press-Held :
    (s t : ℕ) (b : Button) → Held s b → s + t ≤ max_data16 → Held (s + t) (long_press (pos t) b)
long_press-Held s t b (a, p, m, l) le =
    let e : to_data16 (b.button_timer +ℤ pos t) ≡ pos (s + t) =
      rw (m, plus s t) (to_data16-pos (s + t) le) in
    elim (Bool-cases (leb_ℤ (pos long_press_time) (pos (s + t)))) [
      | inl h ↦ rw (e, h) (a, p, refl, ground arith)
      | inr h ↦ rw (e, h) (a, p, refl, rw l (ground arith))
    ]

-- A conditional whose test is known
pub when_true : {A : Type 0} (c : Bool) (x y : A) → c ≡ true → (if c then x else y) ≡ x
when_true true x y h = refl
when_true false x y h = absurd (ground arith)

pub when_false : {A : Type 0} (c : Bool) (x y : A) → c ≡ false → (if c then x else y) ≡ y
when_false false x y h = refl
when_false true x y h = absurd (ground arith)

-- An update of a held button, and the update that activates one.
update_button-Held :
    (i s t : ℕ) (b : Button)
    → Held s b
    → s + t ≤ max_data16
    → Held (s + t) (update_button i (pos t) b)
unfolding update_button
update_button-Held i s t b (a, p, m, l) le =
    let k = auto_repeat-keeps i (pos t) b in
    let held =
      long_press-Held s t (auto_repeat i (pos t) b) (k.0 ∙ a, k.1 ∙ p, k.3 ∙ m, k.2 ∙ l) le in
    let e : update_button i (pos t) b ≡ long_press (pos t) (auto_repeat i (pos t) b) =
      when_true b.active _ _ a
      ∙ ap (λ c. long_press (pos t) (auto_repeat i (pos t) c)) (when_true b.pressed _ _ p) in
    subst (Held (s + t)) (sym e) held

zero_plus : (t : ℕ) → 0 + t ≡ t
zero_plus t = omega arith

update_button-first :
    (i t : ℕ) (b : Button)
    → b.active ≡ true
    → b.pressed ≡ false
    → b.longpress ≡ false
    → t ≤ max_data16
    → Held t (update_button i (pos t) b)
unfolding update_button
update_button-first i t b a p l le =
    let b' : Button = record b {
      pressed = true;
      activated = true;
      button_timer = pos 0;
      repeat_timer = pos 400;
    } in
    let k = auto_repeat-keeps i (pos t) b' in
    let held =
      long_press-Held 0 t (auto_repeat i (pos t) b') (k.0 ∙ a, k.1, k.3, k.2 ∙ l) (omega arith) in
    let e : update_button i (pos t) b ≡ long_press (pos t) (auto_repeat i (pos t) b') =
      when_true b.active _ _ a
      ∙ ap (λ c. long_press (pos t) (auto_repeat i (pos t) c)) (when_false b.pressed _ _ p) in
    subst (Held t) (sym e)
      (subst (λ k. Held k (long_press (pos t) (auto_repeat i (pos t) b'))) (zero_plus t) held)

updates-Held :
    (i s : ℕ) (ts : List ℕ) (b : Button)
    → Held s b
    → s + sum ts ≤ max_data16
    → Held (s + sum ts) (updates i ts b)
unfolding updates
updates-Held i s [] b h le = rw (plus_zero s) h
  where
    plus_zero : (s : ℕ) → s + 0 ≡ s
    plus_zero s = omega arith
updates-Held i s (t ∷ ts) b h le = rw (assoc s t (sum ts)) (
    updates-Held i (s + t) ts (update_button i (pos t) b)
      (update_button-Held i s t b h (omega arith)) (omega arith))
  where
    assoc : (s t k : ℕ) → s + (t + k) ≡ s + t + k
    assoc s t k = omega arith

-- A button that becomes active and stays so is pressed from its first update on, and is a long press as
-- soon as the updates since then add up to LONG_PRESS_TIME, and not before, while the sum is a DATA16.
pub updates-longpress :
    (i t : ℕ) (ts : List ℕ) (b : Button)
    → b.active ≡ true
    → b.pressed ≡ false
    → b.longpress ≡ false
    → sum (t ∷ ts) ≤ max_data16
    → ((updates i (t ∷ ts) b).pressed ≡ true)
      × ((updates i (t ∷ ts) b).longpress ≡ leb long_press_time (sum (t ∷ ts)))
unfolding updates
updates-longpress i t ts b a p l le =
    let h =
      updates-Held i t ts (update_button i (pos t) b)
        (update_button-first i t b a p l (omega arith)) le in
    (h.1, h.3)
