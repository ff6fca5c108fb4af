-- ===== src/ErrorLog/Queue.antt =====
-- What the error log promises: a queue of at most seven errors, oldest first.
use lms2012_compat.Prelude.{
  ℕ, Bool, true, false, ◌==◌, ◌||◌, ltb, if◌then◌else◌, List, [], ◌∷◌, ◌++◌, length,
}

-- The calls of the log, and what each returns.
pub data Call : Type 0 where
  logs exists : ℕ → Call
  gets cleans : Call

pub data Reply : Type 0 where
  full : Bool → Reply
  found : Bool → Reply
  number : ℕ → Reply
  done : Reply

unfoldable pub contains : ℕ → List ℕ → Bool
contains e [] = false
contains e (x ∷ xs) = x == e || contains e xs

unfoldable pub push : ℕ → List ℕ → List ℕ × Bool
push e q = if ltb 0 e then if length q == 7 then (q, true) else (q ++ e ∷ [], false) else (q, false)

unfoldable pub pop : List ℕ → List ℕ × ℕ
pop [] = ([], 0)
pop (x ∷ q) = (q, x)

unfoldable pub run : List Call → List ℕ → List Reply
unfolding contains push pop
run [] q = []
run (logs e ∷ cs) q = let (q', b) = push e q in full b ∷ run cs q'
run (exists e ∷ cs) q = found (contains e q) ∷ run cs q
run (gets ∷ cs) q = let (q', n) = pop q in number n ∷ run cs q'
run (cleans ∷ cs) q = done ∷ run cs []
