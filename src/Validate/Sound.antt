-- ===== src/Validate/Sound.antt =====
-- The scan of one object leaves the headers as they are, or fails with an error behind them.
use lms2012_compat.Prelude.{
  ℕ, zero, suc, ◌+◌, ◌≤◌, ◌≡◌, ◌≢◌, refl, sym, ◌∙◌, ◌⊎◌, inl, inr, Bool, true, false, not, ◌&&◌,
  ◌==◌, ltb, leb, if◌then◌else◌, Option, none, some, List, arith, ◌%◌,
}
use lms2012_compat.Prelude.Options.{IfSome, IfSome-each, IfSome-if}
use lms2012_compat.Vm.{Result, ok, fail, stop, busy, ObjHead}
use lms2012_compat.Validate.{
  Run, out_of_fuel, undefined, returns, Tables, is_ok, Checked, image_byte,
}
use lms2012_compat.Validate.Forward.{IfReturns, Moves, validate_bytecode-Moves}
use lms2012_compat.Validate.Program.{
  Scan, set_error_index, scanned, continue_scan, scan_byte_codes, enough_byte_codes, settled,
  settle_run, is_fail, scan_body, scan_object, sub_call_types, with_offset, skip_types, skip_count,
  behind_types,
}

-- The scan of one object's byte codes: the headers and the error stay, and the index is behind the
-- headers, as is the index of the last byte code.
ok-ne-fail : ok ≢ fail
ok-ne-fail e = cc e

stop-ne-fail : stop ≢ fail
stop-ne-fail e = cc e

record Kept (heads : ℕ → ObjHead) (s : Scan) : Type 0 where
  same : s.scan_head ≡ heads
  no_error : s.error_index ≡ 0
  index_bound : 28 ≤ s.scan_index
  tmp_bound : (s.tmp_index ≡ 0) ⊎ (28 ≤ s.tmp_index)
  fail_at : s.scan_result ≡ fail → 28 ≤ s.tmp_index

Kept-scanned :
    (heads : ℕ → ObjHead) (s : Scan) (c : Checked)
    → Kept heads s
    → Moves s.scan_index c
    → Kept heads (scanned s c)
Kept-scanned heads s c k m = record {
  same = k.same;
  no_error = k.no_error;
  index_bound = omega (arith, k.index_bound, m);
  tmp_bound = inr k.index_bound;
  fail_at = λ f. k.index_bound;
}

Kept-continue :
    (heads : ℕ → ObjHead) (s : Scan) (rest : Scan → Run Scan) (r : Run Checked)
    → Kept heads s
    → IfReturns (Moves s.scan_index) r
    → ((v : Scan) → Kept heads v → IfReturns (Kept heads) (rest v))
    → IfReturns (Kept heads) (continue_scan s rest r)
unfolding continue_scan
Kept-continue heads s rest out_of_fuel k m h = tt
Kept-continue heads s rest undefined k m h = tt
Kept-continue heads s rest (returns c) k m h = h (scanned s c) (Kept-scanned heads s c k m)

IfReturns-if :
    {A : Type 0} (P : A → Type 0) (b : Bool) (x y : Run A)
    → IfReturns P x
    → IfReturns P y
    → IfReturns P (if b then x else y)
IfReturns-if P true x y h k = h
IfReturns-if P false x y h k = k

IfReturns-known :
    {A : Type 0} (P : A → Type 0) (b c : Bool) (x y : Run A)
    → b ≡ c
    → IfReturns P (if c then x else y)
    → IfReturns P (if b then x else y)
IfReturns-known P b c x y e h = rw e h

scan_byte_codes-Kept :
    (fuel : ℕ) (t : Tables) (xs : List ℕ) (total : ℕ) (heads : ℕ → ObjHead) (s : Scan)
    → Kept heads s
    → IfReturns (Kept heads) (scan_byte_codes fuel t xs total s)
unfolding scan_byte_codes
scan_byte_codes-Kept zero t xs total heads s k = tt
scan_byte_codes-Kept (suc fuel) t xs total heads s k =
    IfReturns-if _ (is_ok s.scan_result && ltb s.scan_index total) _ _
      (Kept-continue heads s (scan_byte_codes fuel t xs total) _ k
        (validate_bytecode-Moves t xs s.scan_index s.scan_labels)
        (scan_byte_codes-Kept fuel t xs total heads))
      k

-- Between two objects: either all went well so far, or there is an error behind the headers.
abbrev pub Good : Scan → Type 0
Good s =
    (s.scan_result ≡ ok)
    × (s.error_index ≡ 0)
    × (28 ≤ s.scan_index)
    × ((s.tmp_index ≡ 0) ⊎ (28 ≤ s.tmp_index))

abbrev pub Bad : Scan → Type 0
Bad s = (s.scan_result ≡ fail) × (28 ≤ s.error_index) × (28 ≤ s.tmp_index)

abbrev pub Sound : (ℕ → ObjHead) → Scan → Type 0
Sound heads s = (Good s × (s.scan_head ≡ heads)) ⊎ Bad s

error_set : (i old : ℕ) → 28 ≤ i → old ≡ 0 → 28 ≤ set_error_index i old
error_set i old h e = ground arith

error_stays : (i old : ℕ) → 28 ≤ i → 28 ≤ old → 28 ≤ set_error_index i old
error_stays i old h e = ground arith

abbrev Fails : Result → Type 0
Fails r = (is_fail r ≡ true) × (r ≡ fail)

result_cases : (r : Result) → (is_fail r ≡ false) ⊎ Fails r
result_cases fail = inr (refl, refl)
result_cases ok = inl refl
result_cases stop = inl refl
result_cases busy = inl refl

Sound-settled : (heads : ℕ → ObjHead) (s : Scan) → Kept heads s → Sound heads (settled s)
Sound-settled heads s k = elim (result_cases s.scan_result) [
  | inr (b, e) ↦
      rw b (inr (e, error_set s.tmp_index s.error_index (k.fail_at e) k.no_error, k.fail_at e))
  | inl b ↦ rw b (inl ((refl, k.no_error, k.index_bound, k.tmp_bound), k.same))
]

Sound-settle_run :
    (heads : ℕ → ObjHead) (r : Run Scan)
    → IfReturns (Kept heads) r
    → IfReturns (Sound heads) (settle_run r)
Sound-settle_run heads out_of_fuel k = tt
Sound-settle_run heads undefined k = tt
Sound-settle_run heads (returns s) k = Sound-settled heads s k

IfSome-from : (i k : ℕ) (o : Option ℕ) → i ≤ k → IfSome (λ j. k ≤ j) o → IfSome (λ j. i ≤ j) o
IfSome-from i k none l h = tt
IfSome-from i k (some j) l h = omega (arith, l, h)

skip_types-forward :
    (t : Tables) (xs : List ℕ) (n i : ℕ) → IfSome (λ j. i ≤ j) (skip_types t xs n i)
unfolding skip_types
skip_types-forward t xs zero i = omega arith
skip_types-forward t xs (suc n) i = IfSome-each _ (image_byte xs i) _ λ type.
    let next = if type % 8 == t.call_string then i + 2 else i + 1 in
    IfSome-from i next (skip_types t xs n next) (ground arith) (skip_types-forward t xs n next)

Kept-behind :
    (s : Scan) (o : Option ℕ)
    → Good s
    → IfSome (λ j. s.scan_index ≤ j) o
    → IfSome (Kept s.scan_head) (behind_types s o)
Kept-behind s none r h = tt
Kept-behind s (some j) (a, b, c, d) h = record {
  same = refl;
  no_error = b;
  index_bound = omega (arith, c, h);
  tmp_bound = d;
  fail_at = λ e. absurd (ok-ne-fail (sym a ∙ e));
}

Kept-skip :
    (t : Tables) (xs : List ℕ) (s : Scan) (o : Option ℕ)
    → Good s
    → IfSome (Kept s.scan_head) (skip_count t xs s o)
Kept-skip t xs s none r = tt
Kept-skip t xs s (some n) r = Kept-behind s (skip_types t xs n (s.scan_index + 1)) r (
    IfSome-from s.scan_index (s.scan_index + 1) _ (omega arith)
      (skip_types-forward t xs n (s.scan_index + 1)))

Kept-types :
    (t : Tables) (xs : List ℕ) (id : ℕ) (s : Scan)
    → Good s
    → IfSome (Kept s.scan_head) (sub_call_types t xs id s)
unfolding sub_call_types
Kept-types t xs id s (a, b, c, d) =
    IfSome-if _ (not ((s.scan_head id).owner_object_id == 0 && (s.scan_head id).trigger_count == 1))
      _ _
      (record {
        same = refl;
        no_error = b;
        index_bound = c;
        tmp_bound = d;
        fail_at = λ e. absurd (ok-ne-fail (sym a ∙ e));
      })
      (IfSome-if _ (leb s.scan_index (s.scan_head id).offset_to_instructions) _ _
        (Kept-skip t xs s (image_byte xs s.scan_index) (a, b, c, d))
        (record {
          same = refl;
          no_error = b;
          index_bound = c;
          tmp_bound = d;
          fail_at = λ e. absurd (stop-ne-fail e);
        }))

Sound-body :
    (t : Tables) (xs : List ℕ) (total : ℕ) (heads : ℕ → ObjHead) (o : Option Scan)
    → IfSome (Kept heads) o
    → IfReturns (Sound heads) (scan_body t xs total o)
unfolding scan_body
Sound-body t xs total heads none k = tt
Sound-body t xs total heads (some s) k =
    Sound-settle_run heads _ (scan_byte_codes-Kept (enough_byte_codes total s) t xs total heads s k)

pub Sound-object :
    (t : Tables) (xs : List ℕ) (total id : ℕ) (s : Scan)
    → Good s
    → IfReturns (Sound (with_offset id s).scan_head) (scan_object t xs total id s)
unfolding scan_object
Sound-object t xs total id s g =
    Sound-body t xs total (with_offset id s).scan_head _ (Kept-types t xs id (with_offset id s) g)
