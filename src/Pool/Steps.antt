-- ===== src/Pool/Steps.antt =====
-- The pools over any sequence of calls, and what a failure of `realloc` does.
use mathlib.Core.Path.{sym}
use lms2012_compat.Prelude.{
  ℕ, ◌<◌, ◌≡◌, refl, ◌∙◌, ◌⊎◌, inl, inr, Bool, true, false, not, ◌&&◌, ◌==◌, ltb, leb, none, arith,
  Bool-cases, and-false,
}
use lms2012_compat.Prelude.Int.{ℤ, pos, negsuc}
use lms2012_compat.Param.{max_handles}
use lms2012_compat.Pool.{
  Pools, put_entry, c_memory_alloc, c_memory_reallocate, c_memory_free_handle, c_memory_get_pointer,
  is_handle, max_array_size,
}
use lms2012_compat.Pool.Blocks.{IsValid, Replaces-IsValid}
use lms2012_compat.Pool.Alloc.{
  is_size, find_handle-Found, reallocate-Replaces, free-Replaces, alloc-Replaces,
}

-- A call. The answer of `realloc` is NULL or a block that is not in use, and where there is an old block,
-- it may be that one.
pub data Step : Pools → Pools → Type 0 where
  alloc :
      (m : Pools) (answer prg type size : ℕ)
      → m.allocated answer ≡ false
      → Step m (c_memory_alloc answer prg type size m).1
  reallocate :
      (m : Pools) (answer prg h size : ℕ)
      → (is_handle m prg h && is_size size && not (answer == 0)) ≡ true
      → (m.allocated answer ≡ false) ⊎ (answer ≡ (m.entry prg h).p_pool)
      → Step m (c_memory_reallocate answer prg (pos h) size m).1
  free :
      (m : Pools) (access : Bool) (prg : ℕ) (h : ℤ) → Step m (c_memory_free_handle access prg h m).1

pub data Reach (s : Pools) : Pools → Type 0 where
  start : Reach s s
  call : {t u : Pools} → Reach s t → Step t u → Reach s u

positive : (n : ℕ) → (n == 0) ≡ false → 0 < n
positive n h = ground arith

clash : (b : Bool) → b ≡ false → b ≡ true → ⊥
clash b h k = ground arith

alloc-IsValid :
    (m : Pools) (answer prg type size : ℕ)
    → m.allocated answer ≡ false
    → IsValid m
    → IsValid (c_memory_alloc answer prg type size m).1
unfolding c_memory_alloc
alloc-IsValid m answer prg type size fresh v =
    elim (Bool-cases (ltb prg m.programs && ltb 0 size && leb size max_array_size)) [
      | inr g ↦ rw g v
      | inl g ↦ elim (find_handle-Found max_handles (m.entry prg) 0) [
        | inr (e, all) ↦ rw (g, e) v
        | inl (h, e, _, l, u, before) ↦ elim (Bool-cases (answer == 0)) [
          | inl z ↦ rw (g, e, z) v
          | inr z ↦
              Replaces-IsValid m (c_memory_alloc answer prg type size m).1 prg h answer v
                (alloc-Replaces answer prg type size h m g e u (positive answer z))
                (λ p q. absurd (clash (m.allocated answer) fresh q))
        ]
      ]
    ]

free-IsValid :
    (m : Pools) (access : Bool) (prg : ℕ) (h : ℤ)
    → IsValid m
    → IsValid (c_memory_free_handle access prg h m).1
unfolding c_memory_free_handle
free-IsValid m access prg (negsuc h) v = v
free-IsValid m access prg (pos h) v =
    elim (Bool-cases (is_handle m prg h && not ((m.entry prg h).p_pool == 0))) [
      | inr g ↦ rw g v
      | inl g ↦
          Replaces-IsValid m (c_memory_free_handle access prg (pos h) m).1 prg h 0 v
            (free-Replaces access prg h m g) (λ p q. absurd (omega arith))
    ]

Step-IsValid : {m n : Pools} → Step m n → IsValid m → IsValid n
Step-IsValid (alloc m answer prg type size fresh) v = alloc-IsValid m answer prg type size fresh v
Step-IsValid (free m access prg h) v = free-IsValid m access prg h v
Step-IsValid (reallocate m answer prg h size g fresh) v =
    Replaces-IsValid m (c_memory_reallocate answer prg (pos h) size m).1 prg h answer v
      (reallocate-Replaces answer prg h size m (ground arith) (ground arith))
      (λ p q. elim fresh [ inl f ↦ absurd (clash (m.allocated answer) f q) | inr f ↦ f ])

-- From valid pools, any sequence of allocations, of reallocations that succeed and of freed handles leads
-- to valid pools: every block in use is the pool of exactly one handle, and every pool is in use.
pub Reach-IsValid : {s t : Pools} → IsValid s → Reach s t → IsValid t
Reach-IsValid v start = v
Reach-IsValid v (call r st) = Step-IsValid st (Reach-IsValid v r)

lost : ℕ → ℕ → Pools → Pools
lost prg h m = put_entry prg h (record (m.entry prg h) { p_pool = 0 }) m

reallocate-null :
    (m : Pools) (prg h size : ℕ)
    → is_handle m prg h ≡ true
    → c_memory_reallocate 0 prg (pos h) size m ≡ (0, lost prg h m)
unfolding c_memory_reallocate lost
reallocate-null m prg h size g = rw (g, and-false (is_size size)) refl

self : (n : ℕ) → (n == n) ≡ true
self n = ground arith

lost-none : (m : Pools) (prg h : ℕ) → c_memory_get_pointer prg (pos h) (lost prg h m) ≡ none
unfolding c_memory_get_pointer lost
lost-none m prg h = rw (self prg, self h, and-false (is_handle m prg h)) refl

lost-here :
    (m : Pools) (prg h b k : ℕ)
    → (b == prg && k == h) ≡ true
    → ((lost prg h m).entry b k).p_pool ≡ 0
unfolding lost
lost-here m prg h b k c = rw c refl

lost-there :
    (m : Pools) (prg h b k : ℕ)
    → (b == prg && k == h) ≡ false
    → ((lost prg h m).entry b k).p_pool ≡ (m.entry b k).p_pool
unfolding lost
lost-there m prg h b k c = rw c refl

differs : (prg h b k : ℕ) → (b == prg && k == h) ≡ false → (b ≡ prg) × (k ≡ h) → ⊥
differs prg h b k c (e, f) = ground arith

lost-other :
    (m : Pools) (prg h b k : ℕ)
    → IsValid m
    → 0 < (m.entry prg h).p_pool
    → ((lost prg h m).entry b k).p_pool ≡ (m.entry prg h).p_pool
    → ⊥
lost-other m prg h b k v p e = elim (Bool-cases (b == prg && k == h)) [
  | inl c ↦ let z = lost-here m prg h b k c in omega arith
  | inr c ↦
      let z = lost-there m prg h b k c in
      differs prg h b k c (v.one b k prg h (omega arith) (sym z ∙ e))
]

-- Reallocating a handle's pool with NULL as the answer gives NULL, and loses the block: the handle has no
-- pool any more, no handle has the old block as its pool, and it is still in use.
pub reallocate-fails :
    (m : Pools) (prg h size : ℕ)
    → IsValid m
    → is_handle m prg h ≡ true
    → 0 < (m.entry prg h).p_pool
    → ((c_memory_reallocate 0 prg (pos h) size m).0 ≡ 0)
      × (c_memory_get_pointer prg (pos h) (c_memory_reallocate 0 prg (pos h) size m).1 ≡ none)
      × ((c_memory_reallocate 0 prg (pos h) size m).1.allocated (m.entry prg h).p_pool ≡ true)
      × ((b k : ℕ)
          → ((c_memory_reallocate 0 prg (pos h) size m).1.entry b k).p_pool ≡ (m.entry prg h).p_pool
          → ⊥)
unfolding lost
reallocate-fails m prg h size v g p =
    let e = reallocate-null m prg h size g in
    rw e (refl, lost-none m prg h, v.owned prg h p, λ b k. lost-other m prg h b k v p)
