-- ===== src/Pool.antt =====
-- The memory pools of c_memory/c_memory.c: handles of a program to allocated blocks. The blocks come from
-- the C library's `realloc`: each call takes its answer, 0 for NULL, as an argument, and `allocated` says
-- which blocks are in use. What `close` does to a file is not modelled; whether a pool's file descriptor
-- is in access is an argument.
pub mod Blocks
pub mod Alloc
pub mod Steps
use lms2012_compat.Prelude.{
  ℕ, zero, suc, ◌+◌, Bool, true, false, not, ◌&&◌, ◌==◌, ltb, leb, if◌then◌else◌, Option, none,
  some,
}
use lms2012_compat.Prelude.Int.{ℤ, pos, negsuc}
use lms2012_compat.Vm.{DspStat}
use lms2012_compat.Param.{max_handles}

abbrev pub max_array_size : ℕ
max_array_size = 1000000000

abbrev pub pool_type_file : ℕ
pool_type_file = 1

abbrev pub pool_type_memory : ℕ
pool_type_memory = 0

pub record Entry : Type 0 where
  pub p_pool : ℕ
  pub entry_size : ℕ
  pub entry_type : ℕ

-- `pPoolList`, and the blocks of the C library that are in use
pub record Pools : Type 0 where
  pub programs : ℕ
  pub entry : ℕ → ℕ → Entry
  pub allocated : ℕ → Bool

abbrev pub put_entry : ℕ → ℕ → Entry → Pools → Pools
put_entry prg h e m = record m { entry = λ a b. if a == prg && b == h then e else m.entry a b }

-- `realloc` of a block (0 for none) with its answer: a failure leaves the old block as it is.
abbrev pub c_memory_realloc : ℕ → ℕ → Pools → Pools
c_memory_realloc old answer m = if answer == 0 then m else record m {
  allocated = λ p. if p == answer then true else if p == old then false else m.allocated p;
}

abbrev pub c_memory_free : ℕ → Pools → Pools
c_memory_free old m = record m { allocated = λ p. if p == old then false else m.allocated p }

-- The first handle from `h` on, of the next `n`, that has no pool
unfoldable pub find_handle : ℕ → (ℕ → Entry) → ℕ → Option ℕ
find_handle zero f h = none
find_handle (suc n) f h =
    let rest = find_handle n f (h + 1) in if (f h).p_pool == 0 then some h else rest

-- The handle and the memory that were allocated, or nothing on FAIL
unfoldable pub c_memory_alloc : ℕ → ℕ → ℕ → ℕ → Pools → Option (ℕ × ℕ) × Pools
unfolding find_handle
c_memory_alloc answer prg type size m =
    if ltb prg m.programs && ltb 0 size && leb size max_array_size
    then elim (find_handle max_handles (m.entry prg) 0) [
      | none ↦ (none, m)
      | some h ↦ if answer == 0 then (none, m) else (
        some (h, answer),
        put_entry prg h (record { p_pool = answer; entry_size = size; entry_type = type })
            (c_memory_realloc 0 answer m),
      )
    ]
    else (none, m)

abbrev pub is_handle : Pools → ℕ → ℕ → Bool
is_handle m prg h = ltb prg m.programs && ltb h max_handles

-- The memory, or 0; on every failure the pool of the handle becomes NULL.
unfoldable pub c_memory_reallocate : ℕ → ℕ → ℤ → ℕ → Pools → ℕ × Pools
c_memory_reallocate answer prg (negsuc h) size m = (0, m)
c_memory_reallocate answer prg (pos h) size m =
    if is_handle m prg h
    then (let e = m.entry prg h in
        if ltb 0 size && leb size max_array_size && not (answer == 0)
        then (
          answer,
          put_entry prg h (record e { p_pool = answer; entry_size = size })
              (c_memory_realloc e.p_pool answer m),
        )
        else (0, put_entry prg h (record e { p_pool = 0 }) m))
    else (0, m)

-- The memory of a handle, or nothing on FAIL
unfoldable pub c_memory_get_pointer : ℕ → ℤ → Pools → Option ℕ
c_memory_get_pointer prg (negsuc h) m = none
c_memory_get_pointer prg (pos h) m =
    if is_handle m prg h && not ((m.entry prg h).p_pool == 0)
    then some (m.entry prg h).p_pool
    else none

-- The pool is freed; the status is NOBREAK except for a file that is not in access.
unfoldable pub c_memory_free_handle : Bool → ℕ → ℤ → Pools → DspStat × Pools
c_memory_free_handle access prg (negsuc h) m = (DspStat.failbreak, m)
c_memory_free_handle access prg (pos h) m =
    if is_handle m prg h && not ((m.entry prg h).p_pool == 0)
    then (
      if (m.entry prg h).entry_type == pool_type_file && not access
          then DspStat.failbreak
          else DspStat.nobreak,
      put_entry prg h (record (m.entry prg h) { p_pool = 0; entry_size = 0 })
          (c_memory_free (m.entry prg h).p_pool m),
    )
    else (DspStat.failbreak, m)

-- The first handle from `h` on, of the next `n`, with this memory
unfoldable pub find_pool : ℕ → (ℕ → Entry) → ℕ → ℕ → Option ℕ
find_pool zero f p h = none
find_pool (suc n) f p h =
    let rest = find_pool n f p (h + 1) in if (f h).p_pool == p then some h else rest

unfoldable pub c_memory_free_pool : Bool → ℕ → ℕ → Pools → Pools
unfolding find_pool c_memory_free_handle
c_memory_free_pool access prg p m = elim (find_pool max_handles (m.entry prg) p 0) [
  | none ↦ m
  | some h ↦ (c_memory_free_handle access prg (pos h) m).1
]

-- The handles of a program from `h` on, the next `n`; `access` is indexed by them.
unfoldable pub free_handles : (ℕ → Bool) → ℕ → ℕ → ℕ → Pools → Pools
unfolding c_memory_free_handle
free_handles access prg zero h m = m
free_handles access prg (suc n) h m =
    free_handles access prg n (h + 1) (c_memory_free_handle (access h) prg (pos h) m).1

unfoldable pub c_memory_free_program : (ℕ → Bool) → ℕ → Pools → Pools
unfolding free_handles
c_memory_free_program access prg m = free_handles access prg max_handles 0 m

unfoldable pub c_memory_open : ℕ → ℕ → ℕ → Pools → Option ℕ × Pools
unfolding c_memory_alloc
c_memory_open answer prg size m =
    let (r, m') = c_memory_alloc answer prg pool_type_memory size m in
    (elim r [ none ↦ none | some hp ↦ some hp.1 ], m')
