-- ===== src/Ram/Bounds.antt =====
-- Writing to the variables of a program stays within them, and reading them returns their bytes.
use lms2012_compat.Prelude.{
  ℕ, zero, suc, ◌+◌, ◌%◌, ◌^◌, ◌≤◌, ◌<◌, ◌≡◌, refl, ap, ◌∙◌, ◌==◌, true, false, ltb, if◌then◌else◌,
  arith, Bool-cases, inl, inr, ◌⊎◌, Option, none, some,
}
use lms2012_compat.Vm.{Vm, at, add_address, write_byte, load_bytes, load, store, offset}
use lms2012_compat.Objects.{is_stopped}
use lms2012_compat.Load.{global_bytes}
use lms2012_compat.Vm.Run.{Yields, Yields-bind}
use lms2012_compat.Ram.{
  ram_of, lng_of, index_of, is_accessible, write_one, write_loop, write_ram, read_one, read_loop,
  read_ram,
}

-- An address that is not in the `lng` bytes from `ram` on.
abbrev pub IsOutside : ℕ → ℕ → ℕ → Type 0
IsOutside ram lng a = (a < ram) ⊎ (ram + lng ≤ a)

-- Only the memory has changed, and only within the `lng` bytes from `ram` on.
pub record Within (ram lng : ℕ) (s t : Vm) : Type 0 where
  pub rest : t ≡ record s { mem = t.mem }
  pub outside : (a : ℕ) → IsOutside ram lng a → t.mem a ≡ s.mem a

Within-same : (ram lng : ℕ) (s : Vm) → Within ram lng s s
Within-same ram lng s = record { rest = refl; outside = λ a h. refl }

write_byte-Within :
    (ram lng x b : ℕ) (s : Vm)
    → ram ≤ x
    → x < ram + lng
    → Within ram lng s (record s { mem = write_byte s.mem x b })
write_byte-Within ram lng x b s h k = record {
  rest = refl;
  outside = λ a o. let differ : (a == x) ≡ false = ground (arith, o) in rw differ;
}

write_one-Within :
    (ram lng off a tmp : ℕ) (s : Vm)
    → ram + lng ≤ 2 ^ 32
    → Yields (λ _. Within ram lng s) (write_one ram lng off (at a) tmp s)
unfolding write_one offset load store
write_one-Within ram lng off a tmp s h = elim (Bool-cases (ltb (index_of tmp off) lng)) [
  | inr e ↦ rw e (Within-same ram lng s)
  | inl e ↦ rw e (write_byte-Within ram lng _ _ s (ground arith) (ground arith))
]

Within-trans :
    (ram lng : ℕ) (s t u : Vm) → Within ram lng s t → Within ram lng t u → Within ram lng s u
Within-trans ram lng s t u h k = record {
  rest = k.rest ∙ ap (λ (v : Vm). record v { mem = u.mem }) h.rest;
  outside = λ a o. k.outside a o ∙ h.outside a o;
}

Yields-map :
    {A : Type 0} (P Q : Vm → Type 0) (o : Option (A × Vm))
    → ((t : Vm) → P t → Q t)
    → Yields (λ _. P) o
    → Yields (λ _. Q) o
Yields-map P Q none f h = h
Yields-map P Q (some (a, t)) f h = f t h

write_loop-Within :
    (ram lng off a n tmp : ℕ) (s : Vm)
    → ram + lng ≤ 2 ^ 32
    → Yields (λ _. Within ram lng s) (write_loop ram lng off (at a) n tmp s)
unfolding write_loop
write_loop-Within ram lng off a zero tmp s h = Within-same ram lng s
write_loop-Within ram lng off a (suc n) tmp s h =
    Yields-bind (λ _. Within ram lng s) (λ _. Within ram lng s) _ _ s
      (write_one-Within ram lng off a tmp s h)
      λ _ t w.
        Yields-map _ _ (write_loop ram lng off (at a) n (tmp + 1) t)
          (λ u v. Within-trans ram lng s t u w v) (write_loop-Within ram lng off a n (tmp + 1) t h)

-- opMEMORY_WRITE behind its operands, from an array in memory: whatever the offset and the size are, also
-- where their sum wraps, it returns, and changes nothing but bytes of the variables that it is told
-- to write to, which lie within the address space.
pub write_ram-Within :
    (prg id off size a : ℕ) (s : Vm)
    → ram_of prg id s + lng_of prg id s ≤ 2 ^ 32
    → Yields
        (λ _. Within (ram_of prg id s) (lng_of prg id s) s)
        (write_ram prg id off size (at a) s)
unfolding write_ram
write_ram-Within prg id off size a s h = elim (Bool-cases (is_accessible prg id s)) [
  | inr e ↦ rw e (Within-same _ _ s)
  | inl e ↦ rw e (write_loop-Within (ram_of prg id s) (lng_of prg id s) off a size 0 s h)
]

-- What belongs in the place `k` of the array: the byte at `off + k`, a sum of 32 bits, of the `lng`
-- bytes from `ram` on, and 0 past their end
abbrev pub seen : ℕ → ℕ → ℕ → Vm → ℕ → ℕ
seen ram lng off s k =
    let place = (off + k) % 2 ^ 32 in
    if ltb place lng then s.mem ((ram + place) % 2 ^ 32) % 256 else 0

-- The array from `a` on, up to the place `tmp`, holds what was asked for, and nothing else has changed.
pub record HasRead (ram lng off a tmp : ℕ) (s t : Vm) : Type 0 where
  pub unchanged : t ≡ record s { mem = t.mem }
  pub elsewhere : (x : ℕ) → IsOutside a tmp x → t.mem x ≡ s.mem x
  pub content : (k : ℕ) → k < tmp → t.mem (a + k) ≡ seen ram lng off s k

-- The array is not among the variables.
abbrev pub IsApart : ℕ → ℕ → ℕ → ℕ → Type 0
IsApart ram lng a size = (a + size ≤ ram) ⊎ (ram + lng ≤ a)

HasRead-step :
    (ram lng off a tmp x v : ℕ) (s t : Vm)
    → x ≡ a + tmp
    → v ≡ seen ram lng off s tmp
    → HasRead ram lng off a tmp s t
    → HasRead ram lng off a (suc tmp) s (record t { mem = write_byte t.mem x v })
HasRead-step ram lng off a tmp x v s t e f h = record {
  unchanged = ap (λ (u : Vm). record u { mem = write_byte t.mem x v }) h.unchanged;
  elsewhere = λ y o.
      let differ : (y == x) ≡ false = ground (arith, o, e) in
      rw differ (h.elsewhere y (ground (arith, o)));
  content = λ k l. elim (Bool-cases (k == tmp)) [
    | inl c ↦
        let same : (a + k == x) ≡ true = ground (arith, c, e) in
        let here : tmp ≡ k = ground (arith, c) in rw same (f ∙ ap (seen ram lng off s) here)
    | inr c ↦
        let differ : (a + k == x) ≡ false = ground (arith, c, e) in
        rw differ (h.content k (ground (arith, c, l)))
  ];
}

add_comm : (a b : ℕ) → a + b ≡ b + a
add_comm a b = omega arith

-- A byte that is read from the variables is as it was at the start.
seen-now :
    (ram lng off a size tmp : ℕ) (s t : Vm)
    → ram + lng ≤ 2 ^ 32
    → IsApart ram lng a size
    → tmp < size
    → ltb (index_of tmp off) lng ≡ true
    → HasRead ram lng off a tmp s t
    → (t.mem (add_address ram (index_of tmp off)) % 256 + 0) % 256 ≡ seen ram lng off s tmp
seen-now ram lng off a size tmp s t b p l e h =
    let now : t.mem (add_address ram (index_of tmp off))
        ≡ s.mem (add_address ram (index_of tmp off)) =
      h.elsewhere _ (ground (arith, b, p, l, e)) in
    rw (add_comm off tmp, now, e) (omega arith)

seen-zero :
    (ram lng off tmp : ℕ) (s : Vm) → ltb (index_of tmp off) lng ≡ false → 0 ≡ seen ram lng off s tmp
seen-zero ram lng off tmp s e = rw (add_comm off tmp, e) refl

read_one-HasRead :
    (ram lng off a size tmp : ℕ) (s t : Vm)
    → ram + lng ≤ 2 ^ 32
    → a + size ≤ 2 ^ 32
    → IsApart ram lng a size
    → tmp < size
    → HasRead ram lng off a tmp s t
    → Yields (λ _. HasRead ram lng off a (suc tmp) s) (read_one ram lng off (at a) tmp t)
unfolding read_one offset load store
read_one-HasRead ram lng off a size tmp s t b c p l h =
    elim (Bool-cases (ltb (index_of tmp off) lng)) [
      | inl e ↦ rw e (
          HasRead-step ram lng off a tmp _ _ s t (omega (arith, c, l))
            (seen-now ram lng off a size tmp s t b p l e h) h)
      | inr e ↦ rw e (
          HasRead-step ram lng off a tmp _ _ s t (omega (arith, c, l))
            (seen-zero ram lng off tmp s e) h)
    ]

HasRead-place :
    (ram lng off a m k : ℕ) (s t : Vm)
    → m ≡ k
    → HasRead ram lng off a m s t
    → HasRead ram lng off a k s t
HasRead-place ram lng off a m k s t e h = rw (← e) h

read_loop-HasRead :
    (ram lng off a size n tmp : ℕ) (s t : Vm)
    → ram + lng ≤ 2 ^ 32
    → a + size ≤ 2 ^ 32
    → IsApart ram lng a size
    → tmp + n ≡ size
    → HasRead ram lng off a tmp s t
    → Yields (λ _. HasRead ram lng off a size s) (read_loop ram lng off (at a) n tmp t)
unfolding read_loop
read_loop-HasRead ram lng off a size zero tmp s t b c p q h =
    HasRead-place ram lng off a tmp size s t (omega (arith, q)) h
read_loop-HasRead ram lng off a size (suc n) tmp s t b c p q h =
    Yields-bind (λ _. HasRead ram lng off a (suc tmp) s) (λ _. HasRead ram lng off a size s) _ _ t
      (read_one-HasRead ram lng off a size tmp s t b c p (omega (arith, q)) h)
      λ _ u k.
        read_loop-HasRead ram lng off a size n (tmp + 1) s u b c p (omega (arith, q))
          (HasRead-place ram lng off a (suc tmp) (tmp + 1) s u (omega arith) k)

-- The variables that a pair of numbers names: those of the program for 0, else those of the object
abbrev pub start_of : ℕ → ℕ → Vm → ℕ
start_of prg zero s = (s.program prg).p_global
start_of prg (suc i) s = (s.obj (s.program prg).p_obj_list (suc i)).p_local

abbrev pub bytes_of : ℕ → ℕ → Vm → ℕ
bytes_of prg zero s = load_bytes 4 s.mem ((s.program prg).p_image + 12)
bytes_of prg (suc i) s = (s.head (s.program prg).p_obj_head (suc i)).local_bytes

not_zero : (i : ℕ) → (suc i == 0) ≡ false
not_zero i = ground arith

ram_of-start : (prg id : ℕ) (s : Vm) → ram_of prg id s ≡ start_of prg id s
ram_of-start prg zero s = refl
ram_of-start prg (suc i) s = rw (not_zero i) refl

lng_of-bytes : (prg id : ℕ) (s : Vm) → lng_of prg id s ≡ bytes_of prg id s
unfolding global_bytes
lng_of-bytes prg zero s = refl
lng_of-bytes prg (suc i) s = rw (not_zero i) refl

accessible :
    (prg id : ℕ) (s : Vm)
    → prg < s.codes.max_programs
    → is_stopped (s.program prg).status ≡ false
    → id ≤ (s.program prg).objects
    → is_accessible prg id s ≡ true
accessible prg id s h k l = ground arith

-- opMEMORY_READ behind its operands, into an array in memory apart from the variables that are read: for
-- a program that has not stopped, and the number 0 or that of one of its objects, it returns. The array
-- then holds, place by place, the bytes from the offset on of the program's global variables for the
-- number 0, and of the object's local variables for an object, with 0 in the places past their end. No
-- other byte, and nothing else of the machine, has changed.
pub read_ram-HasRead :
    (prg id off size a : ℕ) (s : Vm)
    → prg < s.codes.max_programs
    → is_stopped (s.program prg).status ≡ false
    → id ≤ (s.program prg).objects
    → start_of prg id s + bytes_of prg id s ≤ 2 ^ 32
    → a + size ≤ 2 ^ 32
    → IsApart (start_of prg id s) (bytes_of prg id s) a size
    → Yields
        (λ _. HasRead (start_of prg id s) (bytes_of prg id s) off a size s)
        (read_ram prg id off size (at a) s)
unfolding read_ram
read_ram-HasRead prg id off size a s h k l b c p =
    rw (accessible prg id s h k l, ram_of-start prg id s, lng_of-bytes prg id s)
      (read_loop-HasRead (start_of prg id s) (bytes_of prg id s) off a size size 0 s s b c p
        (omega arith)
        (record {
          unchanged = refl;
          elsewhere = λ x o. refl;
          content = λ k l. absurd (omega (arith, l));
        }))
