-- ===== src/Validate/Program.antt =====
-- The check of a whole image, in lms2012/validate.c.in: `cValidateProgram`, without the printing.
use lms2012_compat.Prelude.{
  ℕ, zero, suc, ◌+◌, ◌-◌, ◌*◌, ◌%◌, ◌^◌, Bool, true, false, not, ◌&&◌, ◌||◌, ◌==◌, ltb, leb,
  if◌then◌else◌, Option, none, some, List,
}
use lms2012_compat.Prelude.Options.{◌>>=◌}
use lms2012_compat.Vm.{Result, ok, fail, stop, ObjHead}
use lms2012_compat.Load.{imghead_size, objhead_size, next_id, enough_rounds}
use lms2012_compat.Validate.{
  Run, out_of_fuel, undefined, returns, Tables, image_byte, is_ok, Checked, validate_bytecode,
}

-- The fields of IMGHEAD that are read
pub record ImgHead : Type 0 where
  pub image_size : ℕ
  pub version_info : ℕ
  pub number_of_objects : ℕ

-- `cValidateSetErrorIndex`: the first index stays until it is set to 0.
abbrev pub set_error_index : ℕ → ℕ → ℕ
set_error_index i old = if i == 0 then 0 else if old == 0 then i else old

-- The variables of the loop over the objects; `scan_head` is the table of object headers in the image.
pub record Scan : Type 0 where
  pub scan_head : ℕ → ObjHead
  pub scan_index : ℕ
  pub tmp_index : ℕ
  pub scan_result : Result
  pub scan_labels : ℕ → ℕ
  pub error_index : ℕ

-- The types of `n` parameters of a sub call: behind that of a string stands its length.
unfoldable pub skip_types : Tables → List ℕ → ℕ → ℕ → Option ℕ
unfolding image_byte
skip_types t xs zero i = some i
skip_types t xs (suc n) i = do
  type ← image_byte xs i
  skip_types t xs n (if type % 8 == t.call_string then i + 2 else i + 1)

-- `while (Result == OK && ImageIndex < TotalSize)`
abbrev pub scanned : Scan → Checked → Scan
scanned s c = record s {
  tmp_index = s.scan_index;
  scan_index = c.after;
  scan_result = c.outcome;
  scan_labels = c.found;
}

unfoldable pub continue_scan : Scan → (Scan → Run Scan) → Run Checked → Run Scan
continue_scan s rest out_of_fuel = out_of_fuel
continue_scan s rest undefined = undefined
continue_scan s rest (returns c) = rest (scanned s c)

unfoldable pub scan_byte_codes : ℕ → Tables → List ℕ → ℕ → Scan → Run Scan
unfolding validate_bytecode continue_scan
scan_byte_codes zero t xs total s = out_of_fuel
scan_byte_codes (suc fuel) t xs total s =
    let rest =
      continue_scan s (scan_byte_codes fuel t xs total)
        (validate_bytecode t xs s.scan_index s.scan_labels) in
    if is_ok s.scan_result && ltb s.scan_index total then rest else returns s

-- Each byte code but the last moves the index, so the bytes that are left bound their number.
abbrev pub enough_byte_codes : ℕ → Scan → ℕ
enough_byte_codes total s = total - s.scan_index + 2

-- `if (Result == FAIL)` the error is at the last byte code, else the result is OK.
abbrev pub is_fail : Result → Bool
is_fail fail = true
is_fail _ = false

abbrev pub settled : Scan → Scan
settled s =
    if is_fail s.scan_result
    then record s { error_index = set_error_index s.tmp_index s.error_index }
    else record s { scan_result = ok }

abbrev pub settle_run : Run Scan → Run Scan
settle_run out_of_fuel = out_of_fuel
settle_run undefined = undefined
settle_run (returns s) = returns (settled s)

-- An object without an offset starts where the scan is.
abbrev pub give_offset : ℕ → ObjHead → ObjHead
give_offset i h =
    if h.offset_to_instructions == 0 then record h { offset_to_instructions = i } else h

abbrev pub with_offset : ℕ → Scan → Scan
with_offset id s = record s {
  scan_head = λ j. if j == id then give_offset s.scan_index (s.scan_head id) else s.scan_head j;
}

-- The description of the parameters of a sub call; an alias, whose byte codes stand before, has none.
abbrev pub behind_types : Scan → Option ℕ → Option Scan
behind_types s none = none
behind_types s (some i) = some (record s { scan_index = i })

abbrev pub skip_count : Tables → List ℕ → Scan → Option ℕ → Option Scan
skip_count t xs s none = none
skip_count t xs s (some n) = behind_types s (skip_types t xs n (s.scan_index + 1))

unfoldable pub sub_call_types : Tables → List ℕ → ℕ → Scan → Option Scan
unfolding skip_types image_byte
sub_call_types t xs id s =
    let h = s.scan_head id in
    if not (h.owner_object_id == 0 && h.trigger_count == 1)
    then some s
    else if leb s.scan_index h.offset_to_instructions
    then skip_count t xs s (image_byte xs s.scan_index)
    else some (record s { scan_result = stop })

unfoldable pub scan_body : Tables → List ℕ → ℕ → Option Scan → Run Scan
unfolding scan_byte_codes
scan_body t xs total none = undefined
scan_body t xs total (some s) =
    settle_run (scan_byte_codes (enough_byte_codes total s) t xs total s)

unfoldable pub scan_object : Tables → List ℕ → ℕ → ℕ → Scan → Run Scan
unfolding sub_call_types scan_body
scan_object t xs total id s = scan_body t xs total (sub_call_types t xs id (with_offset id s))

-- What comes after a step that returns
unfoldable pub scan_next : (Scan → Run Scan) → Run Scan → Run Scan
scan_next rest out_of_fuel = out_of_fuel
scan_next rest undefined = undefined
scan_next rest (returns s) = rest s

-- `for (; (ObjIndex <= Objects) && (Result == OK); ObjIndex++)` on fuel; the index has 16 bits.
unfoldable pub scan_objects : ℕ → Tables → List ℕ → ℕ → ℕ → ℕ → Scan → Run Scan
unfolding scan_object scan_next
scan_objects zero t xs total objects id s = out_of_fuel
scan_objects (suc fuel) t xs total objects id s =
    let rest =
      scan_next (scan_objects fuel t xs total objects (next_id id)) (scan_object t xs total id s) in
    if leb id objects && is_ok s.scan_result then rest else returns s

-- The first loop, over the same index, sums up the offsets, and nothing uses the sum.
unfoldable pub sum_offsets : ℕ → (ℕ → ObjHead) → ℕ → ℕ → ℕ → Run ℕ
sum_offsets zero heads objects id sum = out_of_fuel
sum_offsets (suc fuel) heads objects id sum =
    let rest =
      sum_offsets fuel heads objects (next_id id)
        ((sum + (heads id).offset_to_instructions) % 2 ^ 32) in
    if leb id objects then rest else returns sum

abbrev pub after_sum : Run ℕ → Run Scan → Run Scan
after_sum out_of_fuel r = out_of_fuel
after_sum undefined r = undefined
after_sum (returns sum) r = r

-- `BYTECODE_VERSION * 100.0` as a UWORD
abbrev pub version : ℕ
version = 109

abbrev pub check_version : ImgHead → ℕ → ℕ
check_version h error =
    if ltb h.version_info version && not (h.version_info == 0)
    then set_error_index 8 error
    else error

-- What `cValidateProgram` returns: an old version alone is no failure. The headers and the labels that
-- it has filled in stay.
pub record Verdict : Type 0 where
  pub valid : Bool
  pub error_at : ℕ
  pub new_head : ℕ → ObjHead
  pub new_labels : ℕ → ℕ

abbrev pub verdict : ImgHead → Scan → Verdict
verdict h s = record {
  valid = check_version h s.error_index == 0 || check_version h s.error_index == 8;
  error_at = check_version h s.error_index;
  new_head = s.scan_head;
  new_labels = s.scan_labels;
}

-- The index that is past the end of the image is an error of the last byte code.
abbrev pub past_end : ℕ → Scan → Scan
past_end total s =
    if ltb total s.scan_index
    then record s { error_index = set_error_index s.tmp_index s.error_index }
    else s

abbrev pub finish : ImgHead → Run Scan → Run Verdict
finish h out_of_fuel = out_of_fuel
finish h undefined = undefined
finish h (returns s) = returns (verdict h (past_end h.image_size s))

abbrev pub headers_end : ImgHead → ℕ
headers_end h = imghead_size + h.number_of_objects * objhead_size

abbrev pub too_small : ImgHead → Bool
too_small h = ltb h.image_size (headers_end h) || h.number_of_objects == 0

abbrev pub first_scan : ImgHead → (ℕ → ObjHead) → (ℕ → ℕ) → Scan
first_scan h heads labels = record {
  scan_head = heads;
  scan_index = headers_end h;
  tmp_index = 0;
  scan_result = ok;
  scan_labels = labels;
  error_index = 0;
}

unfoldable pub validate_program_image :
    Tables → List ℕ → ImgHead → (ℕ → ObjHead) → (ℕ → ℕ) → Run Verdict
unfolding scan_objects sum_offsets
validate_program_image t xs h heads labels =
    if too_small h
    then returns (verdict h (record (first_scan h heads labels) { error_index = 4 }))
    else finish h (
        after_sum (sum_offsets (enough_rounds h.number_of_objects) heads h.number_of_objects 1 0) (
          scan_objects (enough_rounds h.number_of_objects) t xs h.image_size h.number_of_objects 1
            (first_scan h heads labels)))
