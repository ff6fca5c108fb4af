-- ===== src/Pool/Blocks.antt =====
-- Which handle owns which block: no block is lost and none has two handles, as long as `realloc` succeeds.
use mathlib.Core.Path.{sym, subst}
use lms2012_compat.Prelude.{
  ℕ, ◌<◌, ◌≡◌, ◌∙◌, ap, inl, inr, true, false, ◌&&◌, ◌==◌, if◌then◌else◌, arith, Bool-cases,
}
use lms2012_compat.Pool.{Pools}

-- Every pool is a block in use, every block in use is a pool, and it is the pool of one handle.
pub record IsValid (m : Pools) : Type 0 where
  pub owned : (a h : ℕ) → 0 < (m.entry a h).p_pool → m.allocated (m.entry a h).p_pool ≡ true
  pub kept : (p : ℕ) → 0 < p → m.allocated p ≡ true → (a : ℕ) × (h : ℕ) × ((m.entry a h).p_pool ≡ p)
  pub one :
      (a h b k : ℕ)
      → 0 < (m.entry a h).p_pool
      → (m.entry a h).p_pool ≡ (m.entry b k).p_pool
      → (a ≡ b) × (h ≡ k)

-- A handle gets a new block, or none, in place of the old one.
abbrev pub Replaces : ℕ → ℕ → ℕ → Pools → Pools → Type 0
Replaces a h answer m m' =
    ((b k : ℕ) → (b == a && k == h) ≡ false → (m'.entry b k).p_pool ≡ (m.entry b k).p_pool)
    × ((m'.entry a h).p_pool ≡ answer)
    × ((p : ℕ)
        → 0 < p
        → m'.allocated p ≡ (
            if p == answer
            then true
            else if p == (m.entry a h).p_pool
            then false
            else m.allocated p))

same : (a h b k : ℕ) → (b == a && k == h) ≡ true → (b ≡ a) × (k ≡ h)
same a h b k c = (ground arith, ground arith)

module _ (m m' : Pools) (a h answer : ℕ) (v : IsValid m) (r : Replaces a h answer m m')
    (fresh : 0 < answer → m.allocated answer ≡ true → answer ≡ (m.entry a h).p_pool) where
  pool_here : (b k : ℕ) → (b == a && k == h) ≡ true → (m'.entry b k).p_pool ≡ answer
  pool_here b k c =
      let e = same a h b k c in
      subst (λ i. (m'.entry i k).p_pool ≡ answer) (sym e.0)
        (subst (λ j. (m'.entry a j).p_pool ≡ answer) (sym e.1) r.1)

  pub pool_of_same :
      (b k : ℕ) → (b == a && k == h) ≡ true → (m.entry b k).p_pool ≡ (m.entry a h).p_pool
  pool_of_same b k c =
      let e = same a h b k c in
      ap (λ i. (m.entry i k).p_pool) e.0 ∙ ap (λ j. (m.entry a j).p_pool) e.1

  pub apart :
      (b k : ℕ)
      → (b == a && k == h) ≡ false
      → 0 < (m.entry b k).p_pool
      → ((m.entry b k).p_pool == (m.entry a h).p_pool) ≡ false
  apart b k c l = elim (Bool-cases ((m.entry b k).p_pool == (m.entry a h).p_pool)) [
    | inl d ↦ let o = v.one b k a h l (ground arith) in absurd (ground arith)
    | inr d ↦ d
  ]

  -- The block of another handle is not the new one.
  foreign :
      (b k : ℕ)
      → (b == a && k == h) ≡ false
      → 0 < (m.entry b k).p_pool
      → answer ≡ (m.entry b k).p_pool
      → ⊥
  foreign b k c l e =
      let w = v.owned b k l in
      let f = fresh (rw e l) (ap m.allocated e ∙ w) in let n = apart b k c l in ground arith

  Replaces-owned : (b k : ℕ) → 0 < (m'.entry b k).p_pool → m'.allocated (m'.entry b k).p_pool ≡ true
  Replaces-owned b k l = elim (Bool-cases (b == a && k == h)) [
    | inl c ↦ let e = pool_here b k c in r.2 (m'.entry b k).p_pool l ∙ ground arith
    | inr c ↦
        let e = r.0 b k c in
        let l' : 0 < (m.entry b k).p_pool = omega arith in
        let w = v.owned b k l' in
        let n = apart b k c l' in r.2 (m'.entry b k).p_pool l ∙ rw (e, n, w) (ground arith)
  ]

  Replaces-kept :
      (p : ℕ) → 0 < p → m'.allocated p ≡ true → (b : ℕ) × (k : ℕ) × ((m'.entry b k).p_pool ≡ p)
  Replaces-kept p l w =
      let w' = sym (r.2 p l) ∙ w in
      elim (Bool-cases (p == answer)) [
        | inl c ↦ (a, h, r.1 ∙ ground arith)
        | inr c ↦ elim (Bool-cases (p == (m.entry a h).p_pool)) [
          | inl d ↦ absurd (ground arith)
          | inr d ↦
              let (b, k, e) = v.kept p l (ground arith) in
              elim (Bool-cases (b == a && k == h)) [
                | inl s ↦ let t = pool_of_same b k s in absurd (ground arith)
                | inr s ↦ (b, k, r.0 b k s ∙ e)
              ]
        ]
      ]

  Replaces-one :
      (b k c l : ℕ)
      → 0 < (m'.entry b k).p_pool
      → (m'.entry b k).p_pool ≡ (m'.entry c l).p_pool
      → (b ≡ c) × (k ≡ l)
  Replaces-one b k c l p e = elim (Bool-cases (b == a && k == h)) [
    | inl s ↦ elim (Bool-cases (c == a && l == h)) [
      | inl t ↦ let u = same a h b k s in let w = same a h c l t in (u.0 ∙ sym w.0, u.1 ∙ sym w.1)
      | inr t ↦
          let g = r.0 c l t in absurd (foreign c l t (omega arith) (sym (pool_here b k s) ∙ e ∙ g))
    ]
    | inr s ↦
        let g = r.0 b k s in
        elim (Bool-cases (c == a && l == h)) [
          | inl t ↦ absurd (foreign b k s (omega arith) (sym (pool_here c l t) ∙ sym e ∙ g))
          | inr t ↦ v.one b k c l (omega arith) (sym g ∙ e ∙ r.0 c l t)
        ]
  ]

  pub Replaces-IsValid : IsValid m'
  Replaces-IsValid = record { owned = Replaces-owned; kept = Replaces-kept; one = Replaces-one }
