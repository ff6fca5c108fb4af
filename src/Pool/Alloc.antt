-- ===== src/Pool/Alloc.antt =====
-- Allocating, reallocating and freeing pools.
use lms2012_compat.Prelude.{
  ℕ, zero, suc, ◌+◌, ◌≤◌, ◌<◌, ◌≡◌, refl, ◌⊎◌, inl, inr, Bool, true, false, not, ◌&&◌, ◌==◌, ltb,
  leb, Option, none, some, arith, Bool-cases, lt→ltb,
}
use lms2012_compat.Prelude.Int.{pos}
use lms2012_compat.Param.{max_handles}
use lms2012_compat.Pool.{
  Entry, Pools, find_handle, c_memory_alloc, c_memory_reallocate, c_memory_free_handle,
  c_memory_get_pointer, is_handle, max_array_size,
}
use lms2012_compat.Pool.Blocks.{Replaces}

-- The search for a handle stops at the first one without a pool.
abbrev pub Found : ℕ → (ℕ → Entry) → ℕ → Option ℕ → Type 0
Found n f h r =
    ((k : ℕ) × (r ≡ some k)
      × (h ≤ k)
      × (k < h + n)
      × ((f k).p_pool ≡ 0)
      × ((j : ℕ) → h ≤ j → j < k → 0 < (f j).p_pool))
    ⊎ ((r ≡ none) × ((j : ℕ) → h ≤ j → j < h + n → 0 < (f j).p_pool))

pub find_handle-Found : (n : ℕ) (f : ℕ → Entry) (h : ℕ) → Found n f h (find_handle n f h)
unfolding find_handle
find_handle-Found zero f h = inr (refl, λ j p q. absurd (omega arith))
find_handle-Found (suc n) f h = elim (Bool-cases ((f h).p_pool == 0)) [
  | inl z ↦
      inl (h, rw z refl, omega arith, omega arith, ground arith, λ j p q. absurd (omega arith))
  | inr z ↦ elim (find_handle-Found n f (h + 1)) [
    | inl (k, e, p, q, u, before) ↦ inl (k, rw z e, omega arith, omega arith, u, from_next z before)
    | inr (e, all) ↦ inr (rw z e, λ j p q. from_next z (λ i s t. all i s (omega arith)) j p q)
  ]
]
  where
    from_next :
        {k : ℕ}
        → ((f h).p_pool == 0) ≡ false
        → ((j : ℕ) → h + 1 ≤ j → j < k → 0 < (f j).p_pool)
        → (j : ℕ) → h ≤ j
        → j < k
        → 0 < (f j).p_pool
    from_next z g j p q = elim (Bool-cases (ltb h j)) [
      | inl l ↦ g j (ground arith) q
      | inr l ↦ let e : j ≡ h = ground arith in rw e (ground arith)
    ]

self : (n : ℕ) → (n == n) ≡ true
self n = ground arith

nonzero : (n : ℕ) → 0 < n → (n == 0) ≡ false
nonzero n l = ground arith

abbrev pub is_size : ℕ → Bool
is_size size = ltb 0 size && leb size max_array_size

-- What an allocation with an answer that is not NULL leaves.
abbrev pub Allocates : ℕ → ℕ → ℕ → Pools → Option (ℕ × ℕ) × Pools → Type 0
Allocates answer prg size m r =
    ((h : ℕ) × (r.0 ≡ some (h, answer))
      × (h < max_handles)
      × ((m.entry prg h).p_pool ≡ 0)
      × ((j : ℕ) → j < h → 0 < (m.entry prg j).p_pool)
      × (c_memory_get_pointer prg (pos h) r.1 ≡ some answer)
      × ((b k : ℕ) → (b == prg && k == h) ≡ false → r.1.entry b k ≡ m.entry b k))
    ⊎ ((r ≡ (none, m)) × ((j : ℕ) → j < max_handles → 0 < (m.entry prg j).p_pool))

-- Allocating a size within the limits, for a program there is, with an answer of `realloc` that is not
-- NULL, takes the first handle without a pool, which then leads to the answer, and changes no other
-- handle; it fails and changes nothing if every handle has a pool.
pub c_memory_alloc_lem :
    (answer prg type size : ℕ) (m : Pools)
    → 0 < answer
    → prg < m.programs
    → 0 < size
    → size ≤ max_array_size
    → Allocates answer prg size m (c_memory_alloc answer prg type size m)
unfolding c_memory_alloc c_memory_get_pointer
c_memory_alloc_lem answer prg type size m p q s t =
    let g : (ltb prg m.programs && ltb 0 size && leb size max_array_size) ≡ true = ground arith in
    let na : (answer == 0) ≡ false = ground arith in
    elim (find_handle-Found max_handles (m.entry prg) 0) [
      | inr (e, all) ↦ inr (rw (g, e) refl, λ j l. all j (omega arith) (omega arith))
      | inl (h, e, _, l, u, before) ↦ inl (
        h,
        rw (g, e, na) refl,
        omega arith,
        u,
        λ j w. before j (omega arith) w,
        rw
            (
              g,
              e,
              na,
              self prg,
              self h,
              lt→ltb prg m.programs q,
              lt→ltb h max_handles (omega arith),
              na,
            )
            refl,
        λ b k c. rw (g, e, na, c) refl,
      )
    ]

-- What the three operations do to the blocks.
pub reallocate-Replaces :
    (answer prg h size : ℕ) (m : Pools)
    → is_handle m prg h ≡ true
    → (is_size size && not (answer == 0)) ≡ true
    → Replaces prg h answer m (c_memory_reallocate answer prg (pos h) size m).1
unfolding c_memory_reallocate
reallocate-Replaces answer prg h size m g s =
    let na : (answer == 0) ≡ false = ground arith in
    let ns : is_size size ≡ true = ground arith in
    rw (g, ns, na) (λ b k c. rw c refl, rw (self prg, self h) refl, λ p l. refl)

pub free-Replaces :
    (access : Bool) (prg h : ℕ) (m : Pools)
    → (is_handle m prg h && not ((m.entry prg h).p_pool == 0)) ≡ true
    → Replaces prg h 0 m (c_memory_free_handle access prg (pos h) m).1
unfolding c_memory_free_handle
free-Replaces access prg h m g =
    rw g (λ b k c. rw c refl, rw (self prg, self h) refl, λ p l. rw (nonzero p l) refl)

pub alloc-Replaces :
    (answer prg type size h : ℕ) (m : Pools)
    → (ltb prg m.programs && ltb 0 size && leb size max_array_size) ≡ true
    → find_handle max_handles (m.entry prg) 0 ≡ some h
    → (m.entry prg h).p_pool ≡ 0
    → 0 < answer
    → Replaces prg h answer m (c_memory_alloc answer prg type size m).1
unfolding c_memory_alloc
alloc-Replaces answer prg type size h m g e u p =
    let na : (answer == 0) ≡ false = ground arith in
    rw (g, e, na) (λ b k c. rw c refl, rw (self prg, self h) refl, λ q l. rw u refl)
