-- ===== src/Buttons/Release.antt =====
-- A button of the hardware that is let go: it stays pressed while its contacts may still bounce.
use mathlib.Core.Path.{subst, sym, ap}
use lms2012_compat.Prelude.{
  ℕ, ◌-◌, ◌≤◌, ◌<◌, ◌≡◌, refl, ◌∙◌, inl, inr, true, false, ltb, leb, List, [], ◌∷◌, arith,
  Bool-cases,
}
use lms2012_compat.Prelude.Int.{ℤ, pos, ◌+ℤ◌, ◌-ℤ◌, ltb_ℤ, leb_ℤ}
use lms2012_compat.Words.{to_data16, data16}
use lms2012_compat.Words.Laws.{signed-pattern_of}
use lms2012_compat.Buttons.{
  Button, poll, repeats, auto_repeat, long_press, long_press_time, update_button,
  button_debounce_time,
}
use lms2012_compat.Buttons.Long.{sum, max_data16, when_true, when_false}

-- The key is found up, after each of these numbers of milliseconds.
unfoldable pub key_up : ℕ → List ℕ → Button → Button
unfolding update_button poll
key_up i [] b = b
key_up i (t ∷ ts) b = key_up i ts (update_button i (pos t) (poll false (pos t) b))

abbrev AllShort : List ℕ → Type 0
AllShort [] = Unit
AllShort (t ∷ ts) = (t ≤ max_data16) × AllShort ts

-- `r` milliseconds are left of the debounce time.
abbrev Waiting : ℕ → Button → Type 0
Waiting r b =
    (b.active ≡ true) × (b.pressed ≡ true) × (b.bumped ≡ false) × (b.debounce_timer ≡ pos r)

abbrev Released : Button → Type 0
Released b =
    (b.active ≡ false) × (b.pressed ≡ false) × (b.bumped ≡ true) × (b.debounce_timer ≡ pos 0)

auto_repeat-Waiting :
    (i r : ℕ) (time : ℤ) (b : Button) → Waiting r b → Waiting r (auto_repeat i time b)
auto_repeat-Waiting i r time b w = elim (Bool-cases (ltb_ℤ time b.repeat_timer)) [
  | inl h ↦ rw h w
  | inr h ↦ elim (Bool-cases (repeats i)) [ inl k ↦ rw (h, k) w | inr k ↦ rw (h, k) w ]
]

long_press-Waiting : (r : ℕ) (time : ℤ) (b : Button) → Waiting r b → Waiting r (long_press time b)
long_press-Waiting r time b w =
    elim (Bool-cases (leb_ℤ (pos long_press_time) (to_data16 (b.button_timer +ℤ time)))) [
      | inl h ↦ rw h w
      | inr h ↦ rw h w
    ]

update_button-Waiting :
    (i r : ℕ) (time : ℤ) (b : Button) → Waiting r b → Waiting r (update_button i time b)
unfolding update_button
update_button-Waiting i r time b w =
    let e : update_button i time b ≡ long_press time (auto_repeat i time b) =
      when_true b.active _ _ w.0
      ∙ ap (λ c. long_press time (auto_repeat i time c)) (when_true b.pressed _ _ w.1) in
    subst (Waiting r) (sym e)
      (long_press-Waiting r time (auto_repeat i time b) (auto_repeat-Waiting i r time b w))

fits : (r t : ℕ) → r ≤ max_data16 → t ≤ max_data16 → to_data16 (pos r -ℤ pos t) ≡ pos r -ℤ pos t
unfolding ◌-ℤ◌
fits r t hr ht = signed-pattern_of data16 (pos r -ℤ pos t) (ground arith, ground arith)

over : (r t : ℕ) → r ≤ t → leb_ℤ (pos r -ℤ pos t) (pos 0) ≡ true
unfolding ◌-ℤ◌
over r t le = ground arith

-- A look at the key before the time is over, and the one that finds it over.
poll-Waiting :
    (r t : ℕ) (b : Button)
    → Waiting r b
    → r ≤ max_data16
    → t ≤ max_data16
    → t < r
    → Waiting (r - t) (poll false (pos t) b)
unfolding poll ◌-ℤ◌
poll-Waiting r t b (a, p, m, d) hr ht lt =
    let e : to_data16 (b.debounce_timer -ℤ pos t) ≡ pos (r - t) =
      rw d (fits r t hr ht ∙ ground arith) in
    let g : ltb_ℤ (pos 0) b.debounce_timer ≡ true = rw d (ground arith) in
    let k : leb_ℤ (pos (r - t)) (pos 0) ≡ false = ground arith in rw (g, e, k) (a, p, m, refl)

poll-over :
    (r t : ℕ) (b : Button)
    → Waiting r b
    → r ≤ max_data16
    → t ≤ max_data16
    → 0 < r
    → r ≤ t
    → poll false (pos t) b ≡ record b { active = false; debounce_timer = pos 0 }
unfolding poll
poll-over r t b (a, p, m, d) hr ht lt le =
    let e = fits r t hr ht in
    let g : ltb_ℤ (pos 0) b.debounce_timer ≡ true = rw d (ground arith) in
    let k : leb_ℤ (pos r -ℤ pos t) (pos 0) ≡ true = over r t le in rw (g, d, e, k) refl

-- The round that finds the time over releases the button, and the rounds after it leave it released.
round-over :
    (i r t : ℕ) (b : Button)
    → Waiting r b
    → r ≤ max_data16
    → t ≤ max_data16
    → 0 < r
    → r ≤ t
    → Released (update_button i (pos t) (poll false (pos t) b))
unfolding update_button
round-over i r t b w hr ht lt le = rw (poll-over r t b w hr ht lt le, w.1) (refl, refl, refl, refl)

round-Released :
    (i t : ℕ) (b : Button) → Released b → Released (update_button i (pos t) (poll false (pos t) b))
unfolding update_button poll
round-Released i t b (a, p, m, d) =
    let g : ltb_ℤ (pos 0) b.debounce_timer ≡ false = rw d refl in
    let e : poll false (pos t) b ≡ b = when_false (ltb_ℤ (pos 0) b.debounce_timer) _ _ g in
    let e' : update_button i (pos t) b ≡ b =
      when_false b.active _ _ a ∙ when_false b.pressed _ _ p in
    subst (λ c. Released (update_button i (pos t) c)) (sym e) (subst Released (sym e') (a, p, m, d))

key_up-Released : (i : ℕ) (ts : List ℕ) (b : Button) → Released b → Released (key_up i ts b)
unfolding key_up
key_up-Released i [] b h = h
key_up-Released i (t ∷ ts) b h =
    key_up-Released i ts (update_button i (pos t) (poll false (pos t) b)) (round-Released i t b h)

key_up-Waiting :
    (i r : ℕ) (ts : List ℕ) (b : Button)
    → Waiting r b
    → 0 < r
    → r ≤ max_data16
    → AllShort ts
    → ((key_up i ts b).pressed ≡ ltb (sum ts) r) × ((key_up i ts b).bumped ≡ leb r (sum ts))
unfolding key_up
key_up-Waiting i r [] b w p hr all = (w.1 ∙ ground arith, w.2 ∙ ground arith)
key_up-Waiting i r (t ∷ ts) b w p hr all = elim (Bool-cases (ltb t r)) [
  | inl lt ↦
      let w' = poll-Waiting r t b w hr all.0 (ground arith) in
      let w'' = update_button-Waiting i (r - t) (pos t) (poll false (pos t) b) w' in
      let h =
        key_up-Waiting i (r - t) ts (update_button i (pos t) (poll false (pos t) b)) w''
          (ground arith) (omega arith) all.1 in
      (h.0 ∙ ground arith, h.1 ∙ ground arith)
  | inr ge ↦
      let d = round-over i r t b w hr all.0 p (ground arith) in
      let h = key_up-Released i ts (update_button i (pos t) (poll false (pos t) b)) d in
      (h.1 ∙ ground arith, h.2 ∙ ground arith)
]

-- A pressed button of the hardware whose key is found up stays pressed while the time since is below the
-- debounce time, and is released and bumped as soon as it is not.
pub key_up-bumped :
    (i : ℕ) (ts : List ℕ) (b : Button)
    → Waiting button_debounce_time b
    → AllShort ts
    → ((key_up i ts b).pressed ≡ ltb (sum ts) button_debounce_time)
      × ((key_up i ts b).bumped ≡ leb button_debounce_time (sum ts))
key_up-bumped i ts b w all =
    key_up-Waiting i button_debounce_time ts b w (omega arith) (omega arith) all
