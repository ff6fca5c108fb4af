-- ===== src/Validate/ProgramEnds.antt =====
-- The check of a whole image ends.
use lms2012_compat.Prelude.{
  ℕ, zero, suc, ◌+◌, ◌-◌, ◌%◌, ◌^◌, ◌<◌, ◌≡◌, refl, ◌⊎◌, inl, inr, true, false, ◌&&◌, ltb, leb,
  Option, none, some, List, arith, Bool-cases,
}
use lms2012_compat.Vm.{ObjHead}
use lms2012_compat.Load.{next_id}
use lms2012_compat.Load.Layout.{next_id-suc}
use lms2012_compat.Validate.{
  Run, out_of_fuel, undefined, returns, Tables, is_ok, Checked, validate_bytecode,
}
use lms2012_compat.Validate.Ends.{IsTables, Ends, Ends-if, validate_bytecode-Ends}
use lms2012_compat.Validate.Forward.{IfReturns, Moves, validate_bytecode-Moves}
use lms2012_compat.Validate.Program.{
  ImgHead, Scan, scanned, continue_scan, scan_byte_codes, enough_byte_codes, settle_run, scan_body,
  scan_object, scan_next, scan_objects, sum_offsets, after_sum, finish, too_small, first_scan,
  validate_program_image, sub_call_types, with_offset,
}

-- Enough fuel for a scan of byte codes: one unit for the last round, and one for each byte before it.
abbrev Enough : ℕ → ℕ → Scan → Type 0
Enough fuel total s =
    ((is_ok s.scan_result ≡ false) × (0 < fuel)) ⊎ (total - s.scan_index + 1 < fuel)

Enough-scanned :
    (fuel total : ℕ) (s : Scan) (c : Checked)
    → s.scan_index < total
    → total - s.scan_index + 1 < suc fuel
    → Moves s.scan_index c
    → Enough fuel total (scanned s c)
Enough-scanned fuel total s c l e (inl m) = inr (omega (arith, l, e, m))
Enough-scanned fuel total s c l e (inr (f, m)) = inl (rw f refl, omega (arith, l, e))

Ends-continue :
    (s : Scan) (rest : Scan → Run Scan) (r : Run Checked)
    → Ends r
    → IfReturns (λ c. Ends (rest (scanned s c))) r
    → Ends (continue_scan s rest r)
unfolding continue_scan
Ends-continue s rest out_of_fuel e h = e
Ends-continue s rest undefined e h = tt
Ends-continue s rest (returns c) e h = h

IfReturns-map :
    {A : Type 0} (P Q : A → Type 0) (r : Run A)
    → ((a : A) → P a → Q a)
    → IfReturns P r
    → IfReturns Q r
IfReturns-map P Q out_of_fuel f h = tt
IfReturns-map P Q undefined f h = tt
IfReturns-map P Q (returns a) f h = f a h

scan_byte_codes-Ends :
    (fuel : ℕ) (t : Tables) (w : IsTables t) (xs : List ℕ) (total : ℕ) (s : Scan)
    → Enough fuel total s
    → Ends (scan_byte_codes fuel t xs total s)
unfolding scan_byte_codes
scan_byte_codes-Ends zero t w xs total s h = omega (arith, h)
scan_byte_codes-Ends (suc fuel) t w xs total s h =
    elim (Bool-cases (is_ok s.scan_result && ltb s.scan_index total)) [
      | inr c ↦ rw c tt
      | inl c ↦ rw c (
          Ends-continue s (scan_byte_codes fuel t xs total) _
            (validate_bytecode-Ends t w xs s.scan_index s.scan_labels)
            (IfReturns-map (Moves s.scan_index) _
              (validate_bytecode t xs s.scan_index s.scan_labels)
              (λ v m.
                scan_byte_codes-Ends fuel t w xs total (scanned s v)
                  (Enough-scanned fuel total s v (ground arith) (ground arith) m))
              (validate_bytecode-Moves t xs s.scan_index s.scan_labels)))
    ]

Ends-settle : (r : Run Scan) → Ends r → Ends (settle_run r)
Ends-settle out_of_fuel e = e
Ends-settle undefined e = tt
Ends-settle (returns s) e = tt

Ends-finish : (h : ImgHead) (r : Run Scan) → Ends r → Ends (finish h r)
Ends-finish h out_of_fuel e = e
Ends-finish h undefined e = tt
Ends-finish h (returns s) e = tt

scan_body-Ends :
    (t : Tables) (w : IsTables t) (xs : List ℕ) (total : ℕ) (o : Option Scan)
    → Ends (scan_body t xs total o)
unfolding scan_body
scan_body-Ends t w xs total none = tt
scan_body-Ends t w xs total (some s) =
    Ends-settle _
      (scan_byte_codes-Ends (enough_byte_codes total s) t w xs total s (inr (omega arith)))

Ends-next :
    (rest : Scan → Run Scan) (r : Run Scan)
    → Ends r
    → ((s : Scan) → Ends (rest s))
    → Ends (scan_next rest r)
unfolding scan_next
Ends-next rest out_of_fuel e h = e
Ends-next rest undefined e h = tt
Ends-next rest (returns s) e h = h s

scan_objects-Ends :
    (t : Tables) (w : IsTables t) (xs : List ℕ) (total n objects id : ℕ) (s : Scan)
    → id + n ≡ objects + 1
    → objects < 65535
    → Ends (scan_objects (suc n) t xs total objects id s)
unfolding scan_objects scan_object
scan_objects-Ends t w xs total zero objects id s p l =
    let past : leb id objects ≡ false = ground arith in rw past tt
scan_objects-Ends t w xs total (suc n) objects id s p l =
    Ends-if (leb id objects && is_ok s.scan_result) _ _
      (Ends-next _ _ (scan_body-Ends t w xs total (sub_call_types t xs id (with_offset id s))) (λ u.
        rw (next_id-suc id objects (omega (arith, p)) l)
          (scan_objects-Ends t w xs total n objects (id + 1) u (omega (arith, p)) l)))
      tt

sum_offsets-returns :
    (heads : ℕ → ObjHead) (n objects id sum : ℕ)
    → id + n ≡ objects + 1
    → objects < 65535
    → (v : ℕ) × (sum_offsets (suc n) heads objects id sum ≡ returns v)
unfolding sum_offsets
sum_offsets-returns heads zero objects id sum p l =
    let past : leb id objects ≡ false = ground arith in (sum, rw past refl)
sum_offsets-returns heads (suc n) objects id sum p l =
    let within : leb id objects ≡ true = ground arith in
    let (v, e) =
      sum_offsets-returns heads n objects (id + 1)
        ((sum + (heads id).offset_to_instructions) % 2 ^ 32) (omega (arith, p)) l in
    (v, rw (within, next_id-suc id objects (omega (arith, p)) l) e)

-- The first loop of the check never ends for 65535 objects, however long it runs: with any fuel, from any
-- index of 16 bits on, it runs out of fuel.
pub sum_offsets-endless :
    (heads : ℕ → ObjHead) (fuel id sum : ℕ)
    → id < 2 ^ 16
    → sum_offsets fuel heads 65535 id sum ≡ out_of_fuel
unfolding sum_offsets
sum_offsets-endless heads zero id sum h = refl
sum_offsets-endless heads (suc fuel) id sum h =
    let within : leb id 65535 ≡ true = ground arith in
    rw within (
      sum_offsets-endless heads fuel (next_id id)
        ((sum + (heads id).offset_to_instructions) % 2 ^ 32) (omega arith))

Ends-after :
    (heads : ℕ → ObjHead) (objects : ℕ) (r : Run Scan)
    → objects < 65535
    → Ends r
    → Ends (after_sum (sum_offsets (suc objects) heads objects 1 0) r)
Ends-after heads objects r l h =
    let (v, e) = sum_offsets-returns heads objects objects 1 0 (omega arith) l in rw e h

-- Whatever an image of fewer than 65535 objects holds, its check ends: with tables of 32-bit words whose nibbles all have a meaning,
-- and sub commands that have no sub commands, it returns a verdict, or reads a byte outside the image
-- or a table outside its bounds, but no loop goes on forever.
pub validate_program_image-Ends :
    (t : Tables) (w : IsTables t) (xs : List ℕ) (h : ImgHead) (heads : ℕ → ObjHead) (labels : ℕ → ℕ)
    → h.number_of_objects < 65535
    → Ends (validate_program_image t xs h heads labels)
unfolding validate_program_image
validate_program_image-Ends t w xs h heads labels l =
    let n = h.number_of_objects in
    Ends-if (too_small h) _ _ tt (
      Ends-finish h _ (
        Ends-after heads n _ l (
          scan_objects-Ends t w xs h.image_size n n 1 (first_scan h heads labels) (omega arith) l)))
