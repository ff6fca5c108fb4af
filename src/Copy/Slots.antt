-- ===== src/Copy/Slots.antt =====
-- The parameters of a sub call lie at the same places of the locals when they are copied in, copied
-- out and skipped.
use lms2012_compat.Prelude.{
  ℕ, zero, suc, ◌+◌, ◌-◌, ◌%◌, ◌^◌, ◌<◌, ◌≡◌, refl, ◌==◌, Bool-cases, inl, inr, ap, ◌∙◌, arith,
}
use lms2012_compat.Prelude.Int.{pos, negsuc}
use lms2012_compat.Words.{Width, data8, data16, data32, size, modulus, pattern_of}
use lms2012_compat.Vm.{
  Vm, Ptr, value_at, at, ◌>>=◌, ◌>>◌, pure, add_address, load, store, offset, load_bytes,
}
use lms2012_compat.Vm.Memory.{load_bytes-store_bytes, load_bytes-lt}
use lms2012_compat.Vm.Run.{Yields, Yields-bind}
use lms2012_compat.Copy.{
  ParType, data_8, data_16, data_32, data_f, data_s, other, align, Cursor, address_of, next_type,
  copy_in, copy_out, skip_slot, copy_string, terminate, string_in, string_out, string_skip, slot_in,
  slot_out, slot_skip,
}

-- Where the cursor stands behind a slot, which starts in memory `m`.
abbrev pub after_slot : (ℕ → ℕ) → ParType → Cursor → Cursor
after_slot m data_8 c = record c { p_locals = add_address (align 1 c.p_locals) 1 }
after_slot m data_16 c = record c { p_locals = add_address (align 2 c.p_locals) 2 }
after_slot m data_32 c = record c { p_locals = add_address (align 4 c.p_locals) 4 }
after_slot m data_f c = record c { p_locals = add_address (align 4 c.p_locals) 4 }
after_slot m data_s c = record {
  p_locals = add_address c.p_locals (m c.type_ip % 256);
  type_ip = add_address c.type_ip 1;
}
after_slot m other c = c

-- A pointer that has moved on by single bytes
abbrev moved : ℕ → ℕ → ℕ
moved zero a = a
moved (suc n) a = moved n (add_address a 1)

moved-mod : (n a : ℕ) → moved n a % 2 ^ 32 ≡ add_address a n
moved-mod zero a = omega arith
moved-mod (suc n) a = moved-mod n (add_address a 1) ∙ omega arith

moved-lt : (n a : ℕ) → a < 2 ^ 32 → moved n a < 2 ^ 32
moved-lt zero a h = h
moved-lt (suc n) a h = moved-lt n (add_address a 1) (omega arith)

moved-add : (n a : ℕ) → a < 2 ^ 32 → moved n a ≡ add_address a n
moved-add n a h = omega (arith, moved-mod n a, moved-lt n a h)

-- Copying a string of `n` bytes between addresses ends, with both pointers behind it.
abbrev BothMoved : ℕ → ℕ → ℕ → Ptr × Ptr → Vm → Type 0
BothMoved n a b (at x, at y) t = (x ≡ moved n a) × (y ≡ moved n b)
BothMoved n a b _ t = ⊥

copy_string-BothMoved :
    (n flag a b : ℕ) (s : Vm) → Yields (BothMoved n a b) (copy_string n flag (at a) (at b) s)
unfolding copy_string load store offset pattern_of
copy_string-BothMoved zero flag a b s = (refl, refl)
copy_string-BothMoved (suc n) flag a b s = elim (Bool-cases (flag == 0)) [
  | inl z ↦ rw z (copy_string-BothMoved n _ (add_address a 1) (add_address b 1) _)
  | inr z ↦ rw z (copy_string-BothMoved n _ (add_address a 1) (add_address b 1) _)
]

-- Copying a slot, or skipping it, ends with the cursor behind the slot.
abbrev pub Behind : Vm → ParType → Cursor → Cursor → Vm → Type 0
Behind s p c c' t = c' ≡ after_slot s.mem p c

back_and_on :
    (n a y : ℕ) → y ≡ moved n a → ((y + (2 ^ 32 - 1)) % 2 ^ 32 + 1) % 2 ^ 32 ≡ add_address a n
back_and_on n a y h = omega (arith, moved-mod n a, h)

with_locals :
    (m : ℕ → ℕ) (c : Cursor) (x : ℕ)
    → x ≡ add_address c.p_locals (m c.type_ip % 256)
    → record { p_locals = x; type_ip = add_address c.type_ip 1 } ≡ after_slot m data_s c
with_locals m c x h = rw h refl

string_in-Behind : (a : ℕ) (c : Cursor) (s : Vm) → Yields (Behind s data_s c) (string_in (at a) c s)
unfolding string_in next_type offset store pattern_of
string_in-Behind a c s =
    Yields-bind (BothMoved n a c.p_locals) (Behind s data_s c)
      (copy_string n 1 (at a) (at c.p_locals) s) _ s (copy_string-BothMoved n 1 a c.p_locals s)
      (λ (f, t) u h. ends f t u h)
  where
    n : ℕ
    n = s.mem c.type_ip % 256

    ends :
        (f t : Ptr) (u : Vm)
        → BothMoved n a c.p_locals (f, t) u
        → Yields (Behind s data_s c) (
            (do
              last ← offset t (negsuc 0)
              store 1 last 0
              next ← offset last (pos 1)
              locals ← address_of next
              pure (record c { p_locals = locals; type_ip = add_address c.type_ip 1 }))
              u)
    ends (at x) (at y) u h = with_locals s.mem c _ (back_and_on n c.p_locals y h.1)
    ends (at x) (value_at y) u h = absurd h
    ends (value_at x) t u h = absurd h

string_out-Behind :
    (a : ℕ) (c : Cursor) (s : Vm)
    → c.p_locals < 2 ^ 32
    → Yields (Behind s data_s c) (string_out (at a) c s)
unfolding string_out next_type terminate offset store pattern_of
string_out-Behind a c s l =
    Yields-bind (BothMoved n c.p_locals a) (Behind s data_s c)
      (copy_string n 1 (at c.p_locals) (at a) s) _ s (copy_string-BothMoved n 1 c.p_locals a s)
      (λ (f, t) u h. ends f t u h)
  where
    n : ℕ
    n = s.mem c.type_ip % 256

    ends :
        (f t : Ptr) (u : Vm)
        → BothMoved n c.p_locals a (f, t) u
        → Yields (Behind s data_s c) (
            (do
              terminate t
              locals ← address_of f
              pure (record c { p_locals = locals; type_ip = add_address c.type_ip 1 }))
              u)
    ends (at x) (at y) u h = with_locals s.mem c x (h.0 ∙ moved-add n c.p_locals l)
    ends (at x) (value_at y) u h = absurd h
    ends (value_at x) t u h = absurd h

-- A parameter that can be copied in: one in memory, or a number that is a constant, which stands at the
-- start of the place for constants
abbrev pub IsSource : ParType → Ptr → Type 0
IsSource p (at a) = Unit {0}
IsSource data_s (value_at k) = ⊥
IsSource p (value_at k) = k ≡ 0

slot_in-Behind :
    (p : ParType) (a : ℕ) (c : Cursor) (s : Vm) → Yields (Behind s p c) (slot_in p (at a) c s)
unfolding slot_in copy_in load store
slot_in-Behind data_8 a c s = refl
slot_in-Behind data_16 a c s = refl
slot_in-Behind data_32 a c s = refl
slot_in-Behind data_f a c s = refl
slot_in-Behind data_s a c s = string_in-Behind a c s
slot_in-Behind other a c s = refl

constant_in-Behind :
    (p : ParType) (c : Cursor) (s : Vm)
    → IsSource p (value_at 0)
    → Yields (Behind s p c) (slot_in p (value_at 0) c s)
unfolding slot_in copy_in load store
constant_in-Behind data_8 c s h = refl
constant_in-Behind data_16 c s h = refl
constant_in-Behind data_32 c s h = refl
constant_in-Behind data_f c s h = refl
constant_in-Behind data_s c s h = absurd h
constant_in-Behind other c s h = refl

start_of_constant : (p : ParType) (k : ℕ) → IsSource p (value_at k) → k ≡ 0
start_of_constant data_8 k h = h
start_of_constant data_16 k h = h
start_of_constant data_32 k h = h
start_of_constant data_f k h = h
start_of_constant data_s k h = absurd h
start_of_constant other k h = h

source_in-Behind :
    (p : ParType) (q : Ptr) (c : Cursor) (s : Vm)
    → IsSource p q
    → Yields (Behind s p c) (slot_in p q c s)
source_in-Behind p (at a) c s h = slot_in-Behind p a c s
source_in-Behind p (value_at zero) c s h = constant_in-Behind p c s h
source_in-Behind p (value_at (suc k)) c s h = absurd (omega (arith, start_of_constant p (suc k) h))

slot_out-Behind :
    (p : ParType) (a : ℕ) (c : Cursor) (s : Vm)
    → c.p_locals < 2 ^ 32
    → Yields (Behind s p c) (slot_out p (at a) c s)
unfolding slot_out copy_out load store
slot_out-Behind data_8 a c s l = refl
slot_out-Behind data_16 a c s l = refl
slot_out-Behind data_32 a c s l = refl
slot_out-Behind data_f a c s l = refl
slot_out-Behind data_s a c s l = string_out-Behind a c s l
slot_out-Behind other a c s l = refl

slot_skip-Behind : (p : ParType) (c : Cursor) (s : Vm) → Yields (Behind s p c) (slot_skip p c s)
unfolding slot_skip skip_slot string_skip next_type
slot_skip-Behind data_8 c s = refl
slot_skip-Behind data_16 c s = refl
slot_skip-Behind data_32 c s = refl
slot_skip-Behind data_f c s = refl
slot_skip-Behind data_s c s = refl
slot_skip-Behind other c s = refl

-- With the locals at an address of 32 bits: copying a parameter into the locals, from an operand in memory
-- for a parameter of any type, or from a constant for a number, copying it out to an operand in memory,
-- and skipping it always end, all three with the cursor at the same place of the locals and of the
-- preamble, where the pointers of the string loops end up.
pub slots_agree :
    (p : ParType) (q : Ptr) (b : ℕ) (c : Cursor) (s : Vm)
    → IsSource p q
    → c.p_locals < 2 ^ 32
    → Yields (Behind s p c) (slot_in p q c s)
      × Yields (Behind s p c) (slot_out p (at b) c s)
      × Yields (Behind s p c) (slot_skip p c s)
slots_agree p q b c s h l =
    (source_in-Behind p q c s h, slot_out-Behind p b c s l, slot_skip-Behind p c s)

-- A value of one, two or four bytes that is copied from an operand in memory into its slot and from
-- the slot out to another operand in memory arrives there: both steps end, and the bytes at the
-- second operand then hold what the first one held.
pub copy_out-copy_in :
    (w : Width) (a b : ℕ) (c : Cursor) (s : Vm)
    → Yields
        (λ c' t. load_bytes (size w) t.mem b ≡ load_bytes (size w) s.mem a)
        ((do c' ← copy_in (size w) (at a) c; copy_out (size w) (at b) c) s)
unfolding copy_in copy_out load store
copy_out-copy_in w a b c s =
    load_bytes-store_bytes w _ b _
    ∙ ap (λ v. v % modulus w) (load_bytes-store_bytes w s.mem _ _)
    ∙ cut w
  where
    cut :
        (v : Width)
        → load_bytes (size v) s.mem a % modulus v % modulus v ≡ load_bytes (size v) s.mem a
    cut data8 = omega (arith, load_bytes-lt data8 s.mem a)
    cut data16 = omega (arith, load_bytes-lt data16 s.mem a)
    cut data32 = omega (arith, load_bytes-lt data32 s.mem a)
