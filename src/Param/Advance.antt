-- ===== src/Param/Advance.antt =====
-- `PrimParPointer` and `PrimParAdvance` read the same operand: they leave the instruction pointer at
-- the same place, whatever the byte stream holds.
use lms2012_compat.Prelude.{
  ℕ, zero, suc, ◌%◌, ◌≡◌, refl, sym, ◌⊎◌, inl, inr, true, false, ◌==◌, if◌then◌else◌, Option, none,
  some, arith, Bool-cases, Option-cases, ◌∙◌,
}
use lms2012_compat.Words.{bit}
use lms2012_compat.Vm.{Vm, Ptr, value_at, at, pure, ◌>>=◌, ◌>>◌, load, add_address}
use lms2012_compat.Param.{
  fetch, fetch_value, set_value, skip_zero_terminated, skip_string, address_space, index_bytes,
  fetch_index, variable, label_value, constant_value, is_string, long_constant, long_variable,
  memory_get_pointer, memory_array_pointer, indirect, short_variable, short_constant, long_operand,
  short_operand, prim_par_pointer, advance, skip_operand, prim_par_advance,
}

-- Where a run leaves the instruction pointer, if it returns.
abbrev pub ip_after : {A : Type 0} → Option (A × Vm) → Option ℕ
ip_after none = none
ip_after (some (a, s)) = some s.object_ip

-- The pointers that a fresh operand has: all of `Value`, or an address.
abbrev IsWhole : Ptr → Type 0
IsWhole (value_at k) = k ≡ 0
IsWhole (at a) = Unit {0}

ip_after-indirect :
    (d : ℕ) (p : Ptr) (s : Vm) → IsWhole p → ip_after (indirect d p s) ≡ some s.object_ip
unfolding indirect load memory_array_pointer memory_get_pointer set_value
ip_after-indirect d (value_at k) s h = ground arith
ip_after-indirect d (at a) s h = ground arith

index_bytes-cases :
    (d : ℕ) → (index_bytes d ≡ 0) ⊎ (index_bytes d ≡ 1) ⊎ (index_bytes d ≡ 2) ⊎ (index_bytes d ≡ 4)
unfolding index_bytes
index_bytes-cases d = ground arith

ip_after-variable : (d e : ℕ) (s : Vm) → ip_after ((variable d >>= indirect e) s) ≡ some s.object_ip
unfolding variable
ip_after-variable d e s = ip_after-indirect e _ s tt

ip_after-long_variable :
    (d : ℕ) (s : Vm)
    → ip_after ((long_variable d >>= indirect d) s) ≡ ip_after (advance (index_bytes d) s)
unfolding long_variable fetch_index fetch_value fetch set_value advance
ip_after-long_variable d s = elim (index_bytes-cases d) [
  | inl e ↦ rw (e) (ip_after-variable d d _)
  | inr (inl e) ↦ rw e (ip_after-variable d d _)
  | inr (inr (inl e)) ↦ rw e (ip_after-variable d d _)
  | inr (inr (inr e)) ↦ rw e (ip_after-variable d d _)
]

ip_after-label :
    (d : ℕ) (s : Vm)
    → bit 5 d ≡ true
    → ip_after ((long_constant d >>= indirect d) s) ≡ ip_after (advance 1 s)
unfolding long_constant label_value fetch set_value advance
ip_after-label d s h = rw h (ip_after-indirect d (value_at 0) _ refl ∙ ground arith)

-- After a step with the outcome `o`, passing on a whole pointer moves no instruction pointer.
ip_after-outcome :
    (o : Option (Unit {0} × Vm)) (d : ℕ) (p : Ptr) (s : Vm)
    → IsWhole p
    → ip_after (((λ _. o) >> pure p >>= indirect d) s) ≡ ip_after o
ip_after-outcome none d p s w = refl
ip_after-outcome (some (a, t)) d p s w = ip_after-indirect d p t w

ip_after-string :
    (d : ℕ) (s : Vm)
    → bit 5 d ≡ false
    → is_string d ≡ true
    → ip_after ((long_constant d >>= indirect d) s) ≡ ip_after (skip_zero_terminated s)
unfolding long_constant
ip_after-string d s h k =
    rw (h, k) (ip_after-outcome (skip_zero_terminated s) d (at s.object_ip) s tt)

ip_after-constant :
    (d : ℕ) (s : Vm)
    → bit 5 d ≡ false
    → is_string d ≡ false
    → ip_after ((long_constant d >>= indirect d) s) ≡ ip_after (advance (index_bytes d) s)
unfolding long_constant constant_value index_bytes fetch_value fetch set_value advance
ip_after-constant d s h k =
    rw (h, k)
      (elim (Bool-cases (d % 8 == 1)) [
        | inl one ↦ rw one (ip_after-indirect d (value_at 0) _ refl)
        | inr e1 ↦ elim (Bool-cases (d % 8 == 2)) [
          | inl two ↦ rw (e1, two) (ip_after-indirect d (value_at 0) _ refl)
          | inr e2 ↦ elim (Bool-cases (d % 8 == 3)) [
            | inl four ↦ rw (e1, e2, four) (ip_after-indirect d (value_at 0) _ refl)
            | inr e3 ↦ rw (e1, e2, e3) (ip_after-indirect d (value_at 0) _ refl)
          ]
        ]
      ])

ip_after-long :
    (d : ℕ) (s : Vm) → bit 7 d ≡ true → ip_after (long_operand d s) ≡ ip_after (skip_operand d s)
unfolding long_operand skip_operand
ip_after-long d s h = rw h (elim (Bool-cases (bit 6 d)) [
  | inl v ↦ rw v (ip_after-long_variable d s)
  | inr c ↦ rw c (elim (Bool-cases (bit 5 d)) [
    | inl l ↦ rw l (ip_after-label d s l)
    | inr l ↦ rw l (elim (Bool-cases (is_string d)) [
      | inl t ↦ rw t (ip_after-string d s l t)
      | inr t ↦ rw t (ip_after-constant d s l t)
    ])
  ])
])

ip_after-short :
    (d : ℕ) (s : Vm) → bit 7 d ≡ false → ip_after (short_operand d s) ≡ ip_after (skip_operand d s)
unfolding short_operand short_variable short_constant variable set_value skip_operand
ip_after-short d s h = rw h (elim (Bool-cases (bit 6 d)) [ inl v ↦ rw v | inr c ↦ rw c ])

-- Skipping does not look at the handle.
ip_after-advance_handle :
    (n h : ℕ) (s : Vm) → ip_after (advance n (record s { handle = h })) ≡ ip_after (advance n s)
unfolding advance
ip_after-advance_handle zero h s = refl
ip_after-advance_handle (suc n) h s =
    ip_after-advance_handle n h (record s { object_ip = add_address s.object_ip 1 })

ip_after-skip_handle :
    (h : ℕ) (s : Vm)
    → ip_after (skip_zero_terminated (record s { handle = h })) ≡ ip_after (skip_zero_terminated s)
unfolding skip_zero_terminated
ip_after-skip_handle h s = elim (Option-cases (skip_string address_space s.mem s.object_ip)) [
  | inl e ↦ rw (e, skip_zero_terminated)
  | inr (a, e) ↦ rw (e, skip_zero_terminated)
]

ip_after-operand_handle :
    (d h : ℕ) (s : Vm)
    → ip_after (skip_operand d (record s { handle = h })) ≡ ip_after (skip_operand d s)
unfolding skip_operand
ip_after-operand_handle d h s = elim (Bool-cases (bit 7 d)) [
  | inr e ↦ rw e
  | inl e ↦ elim (Bool-cases (bit 6 d)) [
    | inl v ↦ rw (e, v) (ip_after-advance_handle (index_bytes d) h s)
    | inr v ↦ elim (Bool-cases (bit 5 d)) [
      | inl l ↦ rw (e, v, l) (ip_after-advance_handle 1 h s)
      | inr l ↦ elim (Bool-cases (is_string d)) [
        | inl t ↦ rw (e, v, l, t) (ip_after-skip_handle h s)
        | inr t ↦ rw (e, v, l, t) (ip_after-advance_handle (index_bytes d) h s)
      ]
    ]
  ]
]

ip_after-operand :
    (d : ℕ) (s : Vm)
    → ip_after (skip_operand d s)
      ≡ ip_after ((if bit 7 d then long_operand d else short_operand d) s)
ip_after-operand d s = elim (Bool-cases (bit 7 d)) [
  | inl e ↦ rw e (sym (ip_after-long d s e))
  | inr e ↦ rw e (sym (ip_after-short d s e))
]

-- Skipping an operand and decoding it leave the instruction pointer at the same byte, from every
-- state and for every byte stream; where one of them never returns, so does the other.
pub prim_par_advance-ip : (s : Vm) → ip_after (prim_par_advance s) ≡ ip_after (prim_par_pointer s)
unfolding prim_par_advance prim_par_pointer fetch
prim_par_advance-ip s = sym (ip_after-operand_handle _ 0xFFFF _) ∙ ip_after-operand _ _
