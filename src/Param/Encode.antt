-- ===== src/Param/Encode.antt =====
-- The operand macros of lms2012/bytecodes.h.in, with which byte code is written: constants `LC0` to
-- `LC4`, local variables `LV0` to `LV4` and global variables `GV0` to `GV4`.
use lms2012_compat.Prelude.{ℕ, ◌+◌, ◌/◌, ◌%◌, ◌^◌, ◌≤◌, ◌<◌, ◌≡◌, List, [], ◌∷◌, length}
use lms2012_compat.Prelude.Int.{ℤ, pos_part, neg_part}
use lms2012_compat.Words.{Width, data8, data16, data32, size, modulus, signed, pattern_of, InRange}
use lms2012_compat.Vm.{Vm, Ptr, value_at, at, add_address, load_bytes}

pub data Operand : Type 0 where
  lc0 lc1 lc2 lc4 : ℤ → Operand
  lv0 lv1 lv2 lv4 : ℕ → Operand
  gv0 gv1 gv2 gv4 : ℕ → Operand

abbrev pub word_bytes : ℕ → List ℕ
word_bytes v = v % 256 ∷ v / 256 % 256 ∷ []

abbrev pub long_bytes : ℕ → List ℕ
long_bytes v = v % 256 ∷ v / 2 ^ 8 % 256 ∷ v / 2 ^ 16 % 256 ∷ v / 2 ^ 24 % 256 ∷ []

-- The bytes of an operand. `&` with 0x3F, 0x1F and 0xFF are remainders.
unfoldable pub encode : Operand → List ℕ
unfolding pattern_of
encode (lc0 z) = pattern_of data32 z % 64 ∷ []
encode (lc1 z) = 0x81 ∷ pattern_of data32 z % 256 ∷ []
encode (lc2 z) = 0x82 ∷ word_bytes (pattern_of data32 z)
encode (lc4 z) = 0x83 ∷ long_bytes (pattern_of data32 z)
encode (lv0 i) = (0x40 + i % 32) ∷ []
encode (lv1 i) = 0xC1 ∷ i % 256 ∷ []
encode (lv2 i) = 0xC2 ∷ word_bytes i
encode (lv4 i) = 0xC3 ∷ long_bytes i
encode (gv0 i) = (0x60 + i % 32) ∷ []
encode (gv1 i) = 0xE1 ∷ i % 256 ∷ []
encode (gv2 i) = 0xE2 ∷ word_bytes i
encode (gv4 i) = 0xE3 ∷ long_bytes i

-- What an operand can hold.
abbrev pub Fits : Operand → Type 0
Fits (lc0 z) = (pos_part z < 32) × (neg_part z ≤ 32)
Fits (lc1 z) = InRange data8 z
Fits (lc2 z) = InRange data16 z
Fits (lc4 z) = InRange data32 z
Fits (lv0 i) = i < 32
Fits (lv1 i) = i < 2 ^ 8
Fits (lv2 i) = i < 2 ^ 16
Fits (lv4 i) = i < 2 ^ 32
Fits (gv0 i) = i < 32
Fits (gv1 i) = i < 2 ^ 8
Fits (gv2 i) = i < 2 ^ 16
Fits (gv4 i) = i < 2 ^ 32

-- What an operand means: what `Value` holds, and where the pointer leads.
abbrev pub value_of : Operand → ℕ
value_of (lc0 z) = pattern_of data32 z
value_of (lc1 z) = pattern_of data32 z
value_of (lc2 z) = pattern_of data32 z
value_of (lc4 z) = pattern_of data32 z
value_of (lv0 i) = i
value_of (lv1 i) = i
value_of (lv2 i) = i
value_of (lv4 i) = i
value_of (gv0 i) = i
value_of (gv1 i) = i
value_of (gv2 i) = i
value_of (gv4 i) = i

abbrev pub pointer_of : Vm → Operand → Ptr
pointer_of s (lc0 z) = value_at 0
pointer_of s (lc1 z) = value_at 0
pointer_of s (lc2 z) = value_at 0
pointer_of s (lc4 z) = value_at 0
pointer_of s (lv0 i) = at (add_address s.object_local i)
pointer_of s (lv1 i) = at (add_address s.object_local i)
pointer_of s (lv2 i) = at (add_address s.object_local i)
pointer_of s (lv4 i) = at (add_address s.object_local i)
pointer_of s (gv0 i) = at (add_address s.p_global i)
pointer_of s (gv1 i) = at (add_address s.p_global i)
pointer_of s (gv2 i) = at (add_address s.p_global i)
pointer_of s (gv4 i) = at (add_address s.p_global i)

-- The bytes stand in memory from an address on.
abbrev pub Holds : (ℕ → ℕ) → ℕ → List ℕ → Type 0
Holds m a [] = Unit
Holds m a (b ∷ bs) = (m a % 256 ≡ b) × Holds m (add_address a 1) bs

-- The state behind an operand.
abbrev pub after_operand : Vm → Operand → Vm
after_operand s o = record s {
  object_ip = add_address s.object_ip (length (encode o));
  value = value_of o;
  handle = 0xFFFF;
}

-- What `Value` or the memory holds behind a pointer.
abbrev pub bits_at : Width → (ℕ → ℕ) → ℕ → Ptr → ℕ
bits_at w m v (value_at k) = v % modulus w
bits_at w m v (at a) = load_bytes (size w) m a

-- The bits that an operand has when it is read at a type.
abbrev pub operand_bits : Width → Vm → Operand → ℕ
operand_bits w s o = bits_at w s.mem (value_of o) (pointer_of s o)

-- The integer that it then is.
abbrev pub operand : Width → Vm → Operand → ℤ
operand w s o = signed w (operand_bits w s o)

-- Operands that can be assigned to.
abbrev pub IsVariable : Vm → Operand → ℕ → Type 0
IsVariable s o a = pointer_of s o ≡ at a
