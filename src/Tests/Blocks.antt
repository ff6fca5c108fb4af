-- ===== src/Tests/Blocks.antt =====
-- Pools of two programs with no, one and two blocks.
use lms2012_compat.Prelude.{ℕ, ◌≡◌, refl, true, false, none, arith}
use lms2012_compat.Prelude.Int.{pos}
use lms2012_compat.Pool.{
  Pools, c_memory_alloc, c_memory_reallocate, c_memory_free_handle, c_memory_get_pointer,
}
use lms2012_compat.Pool.Blocks.{IsValid}
use lms2012_compat.Pool.Steps.{Reach, alloc, free, start, call, Reach-IsValid, reallocate-fails}

abbrev empty : Pools
empty = record {
  programs = 2;
  entry = λ a h. record { p_pool = 0; entry_size = 0; entry_type = 0 };
  allocated = λ p. false;
}

empty-IsValid : IsValid empty
empty-IsValid = record {
  owned = λ a h p. absurd (omega arith);
  kept = λ p q e. absurd (ground arith);
  one = λ a h b k p e. absurd (omega arith);
}

abbrev two : Pools
two = (c_memory_alloc 0x6000 1 0 40 (c_memory_alloc 0x5000 1 0 100 empty).1).1

two-Reach : Reach empty (c_memory_free_handle false 1 (pos 0) two).1
unfolding c_memory_alloc
two-Reach =
    call
      (call (call start (alloc empty 0x5000 1 0 100 refl))
        (alloc (c_memory_alloc 0x5000 1 0 100 empty).1 0x6000 1 0 40 refl))
      (free two false 1 (pos 0))

Reach-IsValid_example : IsValid (c_memory_free_handle false 1 (pos 0) two).1
Reach-IsValid_example = Reach-IsValid empty-IsValid two-Reach

two-IsValid : IsValid two
unfolding c_memory_alloc
two-IsValid = Reach-IsValid empty-IsValid (
    call (call start (alloc empty 0x5000 1 0 100 refl))
      (alloc (c_memory_alloc 0x5000 1 0 100 empty).1 0x6000 1 0 40 refl))

reallocate-fails_example :
    ((c_memory_reallocate 0 1 (pos 0) 500 two).0 ≡ 0)
    × (c_memory_get_pointer 1 (pos 0) (c_memory_reallocate 0 1 (pos 0) 500 two).1 ≡ none)
    × ((c_memory_reallocate 0 1 (pos 0) 500 two).1.allocated 0x5000 ≡ true)
    × ((b k : ℕ) → ((c_memory_reallocate 0 1 (pos 0) 500 two).1.entry b k).p_pool ≡ 0x5000 → ⊥)
unfolding c_memory_alloc
reallocate-fails_example = reallocate-fails two 1 0 500 two-IsValid refl (omega arith)
