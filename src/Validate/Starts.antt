-- ===== src/Validate/Starts.antt =====
-- The offsets of the objects of an image that was accepted: where the scan of each began.
use mathlib.Core.Path.{subst}
use lms2012_compat.Prelude.{
  ℕ, zero, suc, ◌+◌, ◌≤◌, ◌<◌, ◌≡◌, ◌≢◌, refl, sym, ap, ◌∙◌, ◌⊎◌, inl, inr, true, false, ◌==◌, leb,
  if◌then◌else◌, List, arith, Bool-cases, ◌*◌, and-false,
}
use lms2012_compat.Vm.{fail, ObjHead}
use lms2012_compat.Load.Layout.{next_id-suc}
use lms2012_compat.Validate.{Run, out_of_fuel, undefined, returns, Tables, is_ok}
use lms2012_compat.Validate.Forward.{IfReturns}
use lms2012_compat.Validate.Program.{
  ImgHead, Scan, scan_object, scan_next, scan_objects, finish, too_small, first_scan,
  validate_program_image, with_offset, Verdict, verdict, past_end, give_offset, after_sum,
}
use lms2012_compat.Validate.Sound.{Good, Bad, Sound, Sound-object}

-- A header whose byte codes start at `i` if it does not say where
abbrev pub head_from : ℕ → ObjHead → ObjHead
head_from i h = record h {
  offset_to_instructions = if h.offset_to_instructions == 0 then i else h.offset_to_instructions;
}

give_offset-head_from : (i : ℕ) (h : ObjHead) → give_offset i h ≡ head_from i h
give_offset-head_from i h = elim (Bool-cases (h.offset_to_instructions == 0)) [
  | inl e ↦ rw e refl
  | inr e ↦ rw e refl
]

-- The scans of `n` objects from `id` on, one after the other, lead from `s` to `e`, and each object has the
-- place where its scan began in its header in the end, unless that had a place from the start.
abbrev pub Scans : Tables → List ℕ → ℕ → (ℕ → ObjHead) → ℕ → ℕ → Scan → Scan → Type 0
Scans t xs total heads zero id s e = s ≡ e
Scans t xs total heads (suc n) id s e =
    (e.scan_head id ≡ head_from s.scan_index (heads id))
    × ((e.scan_head id).offset_to_instructions ≢ 0)
    × ((u : Scan) × (scan_object t xs total id s ≡ returns u)
        × Scans t xs total heads n (id + 1) u e)

-- The headers from `id` on are as they were given.
abbrev Untouched : (ℕ → ObjHead) → ℕ → Scan → Type 0
Untouched heads id s = (j : ℕ) → id ≤ j → s.scan_head j ≡ heads j

abbrev SameBefore : ℕ → Scan → Scan → Type 0
SameBefore id s e = (j : ℕ) → j < id → e.scan_head j ≡ s.scan_head j

abbrev Outcome : Tables → List ℕ → ℕ → (ℕ → ObjHead) → ℕ → ℕ → Scan → Scan → Type 0
Outcome t xs total heads n id s e =
    Bad e ⊎ (Good e × Scans t xs total heads n id s e × SameBefore id s e)

failed_stays :
    (t : Tables) (xs : List ℕ) (fuel total objects id : ℕ) (s : Scan)
    → s.scan_result ≡ fail
    → scan_objects (suc fuel) t xs total objects id s ≡ returns s
unfolding scan_objects
failed_stays t xs fuel total objects id s h =
    let failed : is_ok s.scan_result ≡ false = ap is_ok h in
    rw (failed, and-false (leb id objects)) refl

self : (n : ℕ) → (n == n) ≡ true
self n = ground arith

not_zero : (i : ℕ) (h : ObjHead) → 28 ≤ i → (head_from i h).offset_to_instructions ≢ 0
not_zero i h l e = ground (arith, e)

-- One object more before the others
Outcome-suc :
    (t : Tables) (xs : List ℕ) (total n id : ℕ) (heads : ℕ → ObjHead) (s u e : Scan)
    → scan_object t xs total id s ≡ returns u
    → u.scan_head ≡ (with_offset id s).scan_head
    → 28 ≤ s.scan_index
    → s.scan_head id ≡ heads id
    → Outcome t xs total heads n (id + 1) u e
    → Outcome t xs total heads (suc n) id s e
Outcome-suc t xs total n id heads s u e run same l first (inl bad) = inl bad
Outcome-suc t xs total n id heads s u e run same l first (inr (good, scans, keeps)) =
    let given : (with_offset id s).scan_head id ≡ head_from s.scan_index (heads id) =
      rw (self id, first) (give_offset-head_from s.scan_index (heads id)) in
    let own : e.scan_head id ≡ head_from s.scan_index (heads id) =
      keeps id (omega arith) ∙ ap (λ (f : ℕ → ObjHead). f id) same ∙ given in
    inr (
      good,
      (own, rw own (not_zero s.scan_index (heads id) l), (u, run, scans)),
      λ j q.
          let other : (j == id) ≡ false = ground (arith, q) in
          keeps j (omega (arith, q)) ∙ ap (λ (f : ℕ → ObjHead). f j) same ∙ rw other refl,
    )

IfReturns-map :
    {A : Type 0} (P Q : A → Type 0) (r : Run A)
    → ((a : A) → P a → Q a)
    → IfReturns P r
    → IfReturns Q r
IfReturns-map P Q out_of_fuel f h = tt
IfReturns-map P Q undefined f h = tt
IfReturns-map P Q (returns a) f h = f a h

Outcome-next :
    (P Q : Scan → Type 0) (rest : Scan → Run Scan) (r o : Run Scan)
    → o ≡ r
    → IfReturns P r
    → ((u : Scan) → o ≡ returns u → P u → IfReturns Q (rest u))
    → IfReturns Q (scan_next rest r)
unfolding scan_next
Outcome-next P Q rest out_of_fuel o e h f = tt
Outcome-next P Q rest undefined o e h f = tt
Outcome-next P Q rest (returns u) o e h f = f u e h

Untouched-next :
    (heads : ℕ → ObjHead) (id : ℕ) (s u : Scan)
    → u.scan_head ≡ (with_offset id s).scan_head
    → Untouched heads id s
    → Untouched heads (id + 1) u
Untouched-next heads id s u same un j q =
    let other : (j == id) ≡ false = ground (arith, q) in
    ap (λ (f : ℕ → ObjHead). f j) same ∙ rw other (un j (omega (arith, q)))

scan_objects-Outcome :
    (t : Tables) (xs : List ℕ) (total n objects id : ℕ) (heads : ℕ → ObjHead) (s : Scan)
    → id + n ≡ objects + 1
    → objects < 65535
    → Good s
    → Untouched heads id s
    → IfReturns (Outcome t xs total heads n id s) (scan_objects (suc n) t xs total objects id s)
unfolding scan_objects
scan_objects-Outcome t xs total zero objects id heads s p l g un =
    let past : leb id objects ≡ false = ground arith in rw past (inr (g, refl, λ j q. refl))
scan_objects-Outcome t xs total (suc n) objects id heads s p l g un =
    let within : leb id objects ≡ true = ground arith in
    let fine : is_ok s.scan_result ≡ true = ap is_ok g.0 in
    rw (within, fine, next_id-suc id objects (omega (arith, p)) l)
      (Outcome-next (Sound (with_offset id s).scan_head) (Outcome t xs total heads (suc n) id s)
        (scan_objects (suc n) t xs total objects (id + 1)) (scan_object t xs total id s) _ refl
        (Sound-object t xs total id s g)
        (λ u run h.
          after u run
            (λ same good.
              scan_objects-Outcome t xs total n objects (id + 1) heads u (omega (arith, p)) l good
                (Untouched-next heads id s u same un))
            h))
  where
    after :
        (u : Scan)
        → scan_object t xs total id s ≡ returns u
        → (u.scan_head ≡ (with_offset id s).scan_head
            → Good u
            → IfReturns
                (Outcome t xs total heads n (id + 1) u)
                (scan_objects (suc n) t xs total objects (id + 1) u))
        → Sound (with_offset id s).scan_head u
        → IfReturns
            (Outcome t xs total heads (suc n) id s)
            (scan_objects (suc n) t xs total objects (id + 1) u)
    after u run rest (inr bad) = rw (failed_stays t xs n total objects (id + 1) u bad.0) (inl bad)
    after u run rest (inl (good, same)) =
        IfReturns-map (Outcome t xs total heads n (id + 1) u) _
          (scan_objects (suc n) t xs total objects (id + 1) u)
          (λ e o. Outcome-suc t xs total n id heads s u e run same g.2 (un id (omega arith)) o)
          (rest same good)

-- What an accepted image has: the scans of all its objects, one after the other from behind the headers
abbrev pub HasOffsets : Tables → List ℕ → ImgHead → (ℕ → ObjHead) → (ℕ → ℕ) → Verdict → Type 0
HasOffsets t xs h heads labels v =
    (e : Scan) × (v.new_head ≡ e.scan_head)
    × (v.new_head 1 ≡ head_from (16 + h.number_of_objects * 12) (heads 1))
    × Scans t xs h.image_size heads h.number_of_objects 1 (first_scan h heads labels) e

not_valid : (h : ImgHead) (s : Scan) → 28 ≤ s.error_index → (verdict h s).valid ≡ false
not_valid h s e = ground arith

past_end-error :
    (total : ℕ) (s : Scan)
    → 28 ≤ s.tmp_index
    → 28 ≤ s.error_index
    → 28 ≤ (past_end total s).error_index
past_end-error total s a b = ground arith

past_end-head : (total : ℕ) (s : Scan) → (past_end total s).scan_head ≡ s.scan_head
past_end-head total s = ground arith

false-ne-true : false ≢ true
false-ne-true e = cc e

first_of :
    (t : Tables) (xs : List ℕ) (total n : ℕ) (heads : ℕ → ObjHead) (s e : Scan)
    → n ≢ 0
    → Scans t xs total heads n 1 s e
    → e.scan_head 1 ≡ head_from s.scan_index (heads 1)
first_of t xs total zero heads s e h k = absurd (h refl)
first_of t xs total (suc n) heads s e h k = k.0

Accepted-finish :
    (t : Tables) (xs : List ℕ) (h : ImgHead) (heads : ℕ → ObjHead) (labels : ℕ → ℕ) (r : Run Scan)
    → h.number_of_objects ≢ 0
    → IfReturns
        (Outcome t xs h.image_size heads h.number_of_objects 1 (first_scan h heads labels))
        r
    → IfReturns (λ v. (v.valid ≡ false) ⊎ HasOffsets t xs h heads labels v) (finish h r)
Accepted-finish t xs h heads labels out_of_fuel z k = tt
Accepted-finish t xs h heads labels undefined z k = tt
Accepted-finish t xs h heads labels (returns s) z (inl (a, b, c)) =
    inl (not_valid h (past_end h.image_size s) (past_end-error h.image_size s c b))
Accepted-finish t xs h heads labels (returns s) z (inr (g, scans, keeps)) =
    let same = past_end-head h.image_size s in
    inr (
      s,
      same,
      ap (λ (f : ℕ → ObjHead). f 1) same
          ∙ first_of t xs h.image_size h.number_of_objects heads (first_scan h heads labels) s z
              scans,
      scans,
    )

IfReturns-after :
    (P : Scan → Type 0) (q : Run ℕ) (r : Run Scan) → IfReturns P r → IfReturns P (after_sum q r)
IfReturns-after P out_of_fuel r h = tt
IfReturns-after P undefined r h = tt
IfReturns-after P (returns n) r h = h

small_not_valid : (h : ImgHead) (s : Scan) → s.error_index ≡ 4 → (verdict h s).valid ≡ false
small_not_valid h s e = ground arith

accepted :
    (t : Tables) (xs : List ℕ) (h : ImgHead) (heads : ℕ → ObjHead) (labels : ℕ → ℕ)
    → h.number_of_objects < 65535
    → IfReturns
        (λ v. (v.valid ≡ false) ⊎ HasOffsets t xs h heads labels v)
        (validate_program_image t xs h heads labels)
unfolding validate_program_image
accepted t xs h heads labels l = elim (Bool-cases (too_small h)) [
  | inl c ↦
      rw c (inl (small_not_valid h (record (first_scan h heads labels) { error_index = 4 }) refl))
  | inr c ↦
      let n = h.number_of_objects in
      let first = first_scan h heads labels in
      rw c (
        Accepted-finish t xs h heads labels _ (ground (arith, c)) (
          IfReturns-after (Outcome t xs h.image_size heads n 1 first) _ _ (
            scan_objects-Outcome t xs h.image_size n n 1 heads first (omega arith) l
              (refl, refl, ground (arith, c), inl refl) (λ j q. refl))))
]

IfReturns-at :
    {A : Type 0} (P : A → Type 0) (r : Run A) (a : A) → r ≡ returns a → IfReturns P r → P a
IfReturns-at P r a e h = subst (IfReturns P) e h

valid_offsets :
    (t : Tables) (xs : List ℕ) (h : ImgHead) (heads : ℕ → ObjHead) (labels : ℕ → ℕ) (v : Verdict)
    → v.valid ≡ true
    → (v.valid ≡ false) ⊎ HasOffsets t xs h heads labels v
    → HasOffsets t xs h heads labels v
valid_offsets t xs h heads labels v e (inl f) = absurd (false-ne-true (sym f ∙ e))
valid_offsets t xs h heads labels v e (inr k) = k

-- When the check of an image of fewer than 65535 objects returns that the image is valid, the objects were
-- scanned one after the other, from behind the headers on. The header of each object that the check
-- leaves has the offset at which the scan of that object began, behind the scan of the object before it,
-- unless it had an offset before, which stays. The first object begins just behind the headers, and no
-- offset is 0.
pub validate_program_image-offsets :
    (t : Tables) (xs : List ℕ) (h : ImgHead) (heads : ℕ → ObjHead) (labels : ℕ → ℕ) (v : Verdict)
    → h.number_of_objects < 65535
    → validate_program_image t xs h heads labels ≡ returns v
    → v.valid ≡ true
    → HasOffsets t xs h heads labels v
validate_program_image-offsets t xs h heads labels v l run valid =
    valid_offsets t xs h heads labels v valid (
      IfReturns-at _ (validate_program_image t xs h heads labels) v run
        (accepted t xs h heads labels l))
