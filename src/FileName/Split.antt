-- ===== src/FileName/Split.antt =====
-- The parts of a file's name make up the name again.
use lms2012_compat.Prelude.{
  ℕ, zero, suc, ◌+◌, ◌≤◌, ◌<◌, ◌≡◌, ◌≢◌, refl, sym, ap, ◌∙◌, true, false, ◌==◌, List, [], ◌∷◌, ◌++◌,
  length, get_or, take, drop, take-append-drop, arith, Bool-cases, inl, inr,
}
use lms2012_compat.FileName.{Parts, last_slash, before_dot, from_dot, parts_of, find_name}

-- No character of the list is `c`.
abbrev pub Lacks : ℕ → List ℕ → Type 0
Lacks c [] = Unit {0}
Lacks c (x ∷ xs) = (x ≢ c) × Lacks c xs

before_dot-append-from_dot : (s : List ℕ) → before_dot s ++ from_dot s ≡ s
unfolding before_dot from_dot
before_dot-append-from_dot [] = refl
before_dot-append-from_dot (c ∷ s) = elim (Bool-cases (c == b'.')) [
  | inl e ↦ rw e
  | inr e ↦ rw e (ap (λ (t : List ℕ). c ∷ t) (before_dot-append-from_dot s))
]

before_dot-Lacks : (s : List ℕ) → Lacks b'.' (before_dot s)
unfolding before_dot
before_dot-Lacks [] = tt
before_dot-Lacks (c ∷ s) = elim (Bool-cases (c == b'.')) [
  | inl e ↦ rw e tt
  | inr e ↦ rw e (ground (arith, e), before_dot-Lacks s)
]

not_slash : (s : List ℕ) (j k : ℕ) → j ≡ k → (get_or s k 0 == b'/') ≡ false → get_or s j 0 ≢ b'/'
not_slash s j k e h f = ground (arith, (ap (λ (x : ℕ). get_or s x 0) e), h, f)

-- Behind the last slash there is none.
last_slash-after : (s : List ℕ) (n j : ℕ) → last_slash s n < j → j ≤ n → get_or s j 0 ≢ b'/'
unfolding last_slash
last_slash-after s zero j h k = absurd (omega (arith, h, k))
last_slash-after s (suc i) j h k = elim (Bool-cases (get_or s (suc i) 0 == b'/')) [
  | inl e ↦ absurd (omega (arith, k, (rw e at h)))
  | inr e ↦ elim (Bool-cases (j == suc i)) [
    | inl same ↦ not_slash s j (suc i) (ground (arith, same)) e
    | inr other ↦ last_slash-after s i j (rw e at h) (ground (arith, other, k))
  ]
]

Lacks-drop :
    (s : List ℕ) (k : ℕ)
    → ((j : ℕ) → k ≤ j → j < length s → get_or s j 0 ≢ b'/')
    → Lacks b'/' (drop k s)
Lacks-drop [] zero h = tt
Lacks-drop [] (suc k) h = tt
Lacks-drop (c ∷ s) zero h = (
  h 0 (omega arith) (omega arith),
  Lacks-drop s zero (λ j p q. h (suc j) (omega arith) (omega (arith, q))),
)
Lacks-drop (c ∷ s) (suc k) h =
    Lacks-drop s k (λ j p q. h (suc j) (omega (arith, p)) (omega (arith, q)))

Lacks-before_dot : (s : List ℕ) → Lacks b'/' s → Lacks b'/' (before_dot s)
unfolding before_dot
Lacks-before_dot [] h = tt
Lacks-before_dot (c ∷ s) (x, h) = elim (Bool-cases (c == b'.')) [
  | inl e ↦ rw e tt
  | inr e ↦ rw e (x, Lacks-before_dot s h)
]

Lacks-from_dot : (s : List ℕ) → Lacks b'/' s → Lacks b'/' (from_dot s)
unfolding from_dot
Lacks-from_dot [] h = tt
Lacks-from_dot (c ∷ s) (x, h) = elim (Bool-cases (c == b'.')) [
  | inl e ↦ rw e (x, h)
  | inr e ↦ rw e (Lacks-from_dot s h)
]

abbrev pub StartsWith : ℕ → List ℕ → Type 0
StartsWith c [] = Unit {0}
StartsWith c (x ∷ xs) = x ≡ c

abbrev pub EndsWith : ℕ → List ℕ → Type 0
EndsWith c [] = Unit {0}
EndsWith c (x ∷ []) = x ≡ c
EndsWith c (x ∷ (y ∷ ys)) = EndsWith c (y ∷ ys)

from_dot-StartsWith : (s : List ℕ) → StartsWith b'.' (from_dot s)
unfolding from_dot
from_dot-StartsWith [] = tt
from_dot-StartsWith (c ∷ s) = elim (Bool-cases (c == b'.')) [
  | inl e ↦ rw e (ground arith)
  | inr e ↦ rw e (from_dot-StartsWith s)
]

plus_one : (k : ℕ) → k + 1 ≡ suc k
plus_one k = omega arith

EndsWith-take : (s : List ℕ) (k : ℕ) → get_or s k 0 ≡ b'/' → EndsWith b'/' (take (suc k) s)
EndsWith-take [] k h = tt
EndsWith-take (c ∷ s) zero h = h
EndsWith-take (c ∷ []) (suc k) h = absurd (omega (arith, h))
EndsWith-take (c ∷ (d ∷ s)) (suc k) h = EndsWith-take (d ∷ s) k h

EndsWith-next : (s : List ℕ) (k : ℕ) → get_or s k 0 ≡ b'/' → EndsWith b'/' (take (k + 1) s)
EndsWith-next s k h = rw (plus_one k) (EndsWith-take s k h)

-- The parts of a name, in order, make it up. The path is empty or ends with a slash, and no slash is
-- behind it; the extension is empty or starts with a dot, and the name before it has none.
pub record Splits (s : List ℕ) (p : Parts) : Type 0 where
  pub joined : p.path ++ (p.name ++ p.ext) ≡ s
  pub no_dot : Lacks b'.' p.name
  pub no_slash_name : Lacks b'/' p.name
  pub no_slash_ext : Lacks b'/' p.ext
  pub path_slash : EndsWith b'/' p.path
  pub ext_dot : StartsWith b'.' p.ext

Splits-parts :
    (s path rest : List ℕ)
    → EndsWith b'/' path
    → path ++ rest ≡ s
    → Lacks b'/' rest
    → Splits s (parts_of path rest)
Splits-parts s path rest w e h = record {
  joined = ap (λ (t : List ℕ). path ++ t) (before_dot-append-from_dot rest) ∙ e;
  no_dot = before_dot-Lacks rest;
  no_slash_name = Lacks-before_dot rest h;
  no_slash_ext = Lacks-from_dot rest h;
  path_slash = w;
  ext_dot = from_dot-StartsWith rest;
}

slash_before :
    (s : List ℕ) (n : ℕ) → (get_or s (last_slash s n) 0 == b'/') ≡ false → last_slash s n ≡ 0
unfolding last_slash
slash_before s zero h = refl
slash_before s (suc i) h = elim (Bool-cases (get_or s (suc i) 0 == b'/')) [
  | inl e ↦ absurd (true-ne-false (sym e ∙ (rw e at h)))
  | inr e ↦ rw e (slash_before s i (rw e at h))
]
  where
    true-ne-false : true ≢ false
    true-ne-false f = cc f

no_slash :
    (s : List ℕ) (n j : ℕ)
    → (get_or s (last_slash s n) 0 == b'/') ≡ false
    → last_slash s n ≤ j
    → j ≤ n
    → get_or s j 0 ≢ b'/'
no_slash s n j e p q = elim (Bool-cases (j == last_slash s n)) [
  | inl same ↦ not_slash s j (last_slash s n) (ground (arith, same)) e
  | inr other ↦ last_slash-after s n j (ground (arith, p, other)) q
]

-- A name is split behind its last slash and before the first dot that follows: path, name and extension
-- one behind the other are the name again; the path is empty or ends with a slash, and neither the name
-- nor the extension has a slash; the extension is empty or starts with a dot, and the name has no dot.
pub find_name-Splits : (s : List ℕ) → Splits s (find_name s)
unfolding find_name
find_name-Splits s =
    let k = last_slash s (length s) in
    elim (Bool-cases (get_or s k 0 == b'/')) [
      | inl e ↦ rw e (
          Splits-parts s (take (k + 1) s) (drop (k + 1) s) (EndsWith-next s k (ground (arith, e)))
            (take-append-drop (k + 1) s)
            (Lacks-drop s (k + 1)
              λ j p q. last_slash-after s (length s) j (omega (arith, p)) (omega (arith, q))))
      | inr e ↦ rw e (
          Splits-parts s [] (drop k s) tt (ap (λ (j : ℕ). drop j s) (slash_before s (length s) e))
            (Lacks-drop s k λ j p q. no_slash s (length s) j e p (omega (arith, q))))
    ]
