-- ===== src/Lcd/Path.antt =====
-- The path of a line: how long it is, where it starts and ends, and how close it stays to the line.
use mathlib.Core.Path.{subst}
use lms2012_compat.Prelude.{
  ℕ, zero, suc, ◌+◌, ◌≤◌, ◌≡◌, refl, ap, Bool, true, false, ◌&&◌, List, [], ◌∷◌, some, arith,
  and-false, length,
}
use lms2012_compat.Prelude.Int.{◌-ℤ◌, eqb_ℤ}
use lms2012_compat.Lcd.Line.{
  Point, Line, Pen, line_of, pen_of, length_of, line_step, line_loop, line_path,
}
use lms2012_compat.Lcd.Round.{
  Near, At, left, Short-start, Short-here, Short-end, Short-away, arrived, step, AllOnLine,
}

-- The last of the points, or the point before them.
abbrev pub last_of : Point → List Point → Point
last_of p [] = p
last_of p (q ∷ qs) = last_of q qs

abbrev pub pen_point : Pen → Point
pen_point p = record { x = p.at_x; y = p.at_y }

abbrev at_end : Point → Pen → Bool
at_end q p = eqb_ℤ p.at_x q.x && eqb_ℤ p.at_y q.y

at_end-zero : (l : Line) (q : Point) (p : Pen) → At l q 0 0 p → at_end q p ≡ true
at_end-zero l q p at =
    rw (Short-here l.x_inc q.x p.at_x at.0, Short-here l.y_inc q.y p.at_y at.1) refl

end_is : (l : Line) (q : Point) (p : Pen) → At l q 0 0 p → pen_point p ≡ q
end_is l q p at = rw (Short-end l.x_inc q.x p.at_x at.0, Short-end l.y_inc q.y p.at_y at.1) refl

at_end-suc :
    (l : Line) (q : Point) (p : Pen) (i j n : ℕ)
    → At l q i j p
    → left l.x_length l.y_length i j ≡ suc n
    → at_end q p ≡ false
at_end-suc l q p (suc i) j n at e = rw (Short-away l.x_inc q.x p.at_x i at.0) refl
at_end-suc l q p zero (suc j) n at e =
    rw (Short-away l.y_inc q.y p.at_y j at.1) (and-false (eqb_ℤ p.at_x q.x))
at_end-suc l q p zero zero n at e = absurd (ground arith)

-- What the loop returns, from a pen that has `n` places left along the longer side.
abbrev Arrives : ℕ → Line → Point → Pen → ℕ → Type 0
Arrives k l q p n =
    (ps : List Point) × (line_loop k l q p ≡ some ps)
    × (length ps ≡ n)
    × AllOnLine l q ps
    × (last_of (pen_point p) ps ≡ q)

line_loop-Arrives :
    (n k : ℕ) (l : Line) (q : Point) (p : Pen) (i j : ℕ)
    → At l q i j p
    → left l.x_length l.y_length i j ≡ n
    → n ≤ k
    → Arrives k l q p n
unfolding line_loop
line_loop-Arrives zero zero l q p i j at e le =
    let z = arrived l q p i j at e in
    let at0 : At l q 0 0 p = subst (λ k. At l q 0 k p) z.1 (subst (λ k. At l q k j p) z.0 at) in
    ([], rw (at_end-zero l q p at0) refl, refl, tt, end_is l q p at0)
line_loop-Arrives zero (suc k) l q p i j at e le =
    let z = arrived l q p i j at e in
    let at0 : At l q 0 0 p = subst (λ k. At l q 0 k p) z.1 (subst (λ k. At l q k j p) z.0 at) in
    ([], rw (at_end-zero l q p at0) refl, refl, tt, end_is l q p at0)
line_loop-Arrives (suc n) zero l q p i j at e le = absurd (omega arith)
line_loop-Arrives (suc n) (suc k) l q p i j at e le =
    let (i', j', at', e') = step l q p n i j at e in
    let (ps, run, len, on, end) =
      line_loop-Arrives n k l q (line_step l p) i' j' at' e' (omega arith) in
    (
      pen_point (line_step l p) ∷ ps,
      rw (at_end-suc l q p i j n at e, run) refl,
      ap suc len,
      ((i', j', at'.0, at'.1, at'.3, at'.4, at'.5), on),
      end,
    )

Near-start : (a b : ℕ) → Near a b a b
Near-start a b = (omega arith, omega arith)

At-start : (p q : Point) → let l = line_of p q in At l q l.x_length l.y_length (pen_of p l)
unfolding ◌-ℤ◌
At-start p q = (
  Short-start p.x q.x,
  Short-start p.y q.y,
  ground arith,
  Near-start (length_of p.x q.x) (length_of p.y q.y),
  omega arith,
  omega arith,
)

-- How many points a line has besides its first: as many as the longer of the two lengths.
abbrev pub span : Line → ℕ
span l = left l.x_length l.y_length l.x_length l.y_length

-- A line is drawn in one round for each place of its longer side, which the bound on the rounds allows.
-- Its first point is the one end, its last point the other, and every point lies between the ends and at
-- most half a pixel off the straight line.
pub line_path-AllOnLine :
    (p q : Point)
    → (ps : List Point) × (line_path p q ≡ some (p ∷ ps))
      × (length ps ≡ span (line_of p q))
      × AllOnLine (line_of p q) q (p ∷ ps)
      × (last_of p ps ≡ q)
unfolding line_path
line_path-AllOnLine p q =
    let l = line_of p q in
    let at = At-start p q in
    let (ps, run, len, on, end) =
      line_loop-Arrives (span l) (l.x_length + l.y_length) l q (pen_of p l) l.x_length l.y_length at
        refl (ground arith) in
    (ps, rw run refl, len, ((l.x_length, l.y_length, at.0, at.1, at.3, at.4, at.5), on), end)
