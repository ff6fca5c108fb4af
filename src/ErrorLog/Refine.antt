-- ===== src/ErrorLog/Refine.antt =====
-- The ring behaves as the queue of the errors that it holds.
use lms2012_compat.Prelude.{
  ℕ, zero, suc, ◌+◌, ◌-◌, ◌%◌, ◌<◌, ◌≡◌, refl, ap, ◌≢◌, Bool, Option, none, some, List, [], ◌∷◌,
  ◌++◌, length, get_or, set, length-set, arith,
}
use lms2012_compat.ErrorLog.{
  ErrorLog, next, log_error_number, exists_from, log_error_number_exists, log_error_get,
  clean_log_errors,
}
use lms2012_compat.ErrorLog.Queue
use lms2012_compat.ErrorLog.Queue.{
  Call, logs, exists, gets, cleans, Reply, full, found, number, done,
}

pub record IsValid (l : ErrorLog) : Type 0 where
  pub storage : length l.errors ≡ 8
  pub in_range : l.error_in < 8
  pub out_range : l.error_out < 8

-- The `n` entries from index `i` on.
abbrev window : List ℕ → ℕ → ℕ → List ℕ
window buf i zero = []
window buf i (suc n) = get_or buf i 0 ∷ window buf ((i + 1) % 8) n

abbrev pub count : ErrorLog → ℕ
count l = (l.error_in + 8 - l.error_out) % 8

abbrev pub contents : ErrorLog → List ℕ
contents l = window l.errors l.error_out (count l)

next_lem : (i : ℕ) → i < 8 → next i ≡ (i + 1) % 8
unfolding next
next_lem i h = ground arith

get_or-set_self : (xs : List ℕ) (i v : ℕ) → i < length xs → get_or (set xs i v) i 0 ≡ v
get_or-set_self [] i v h = absurd (omega arith)
get_or-set_self (x ∷ xs) zero v h = refl
get_or-set_self (x ∷ xs) (suc i) v h = get_or-set_self xs i v (omega arith)

get_or-set_ne : (xs : List ℕ) (i j v : ℕ) → i ≢ j → get_or (set xs i v) j 0 ≡ get_or xs j 0
get_or-set_ne [] i j v h = refl
get_or-set_ne (x ∷ xs) zero zero v h = absurd (h refl)
get_or-set_ne (x ∷ xs) zero (suc j) v h = refl
get_or-set_ne (x ∷ xs) (suc i) zero v h = refl
get_or-set_ne (x ∷ xs) (suc i) (suc j) v h = get_or-set_ne xs i j v (omega arith)

length-window : (buf : List ℕ) (i n : ℕ) → length (window buf i n) ≡ n
length-window buf i zero = refl
length-window buf i (suc n) = ap suc (length-window buf ((i + 1) % 8) n)

-- An entry written right behind a window that is not the whole ring extends it.
window-set :
    (buf : List ℕ) (v k i n : ℕ)
    → length buf ≡ 8
    → i < 8
    → n < 8
    → k ≡ (i + n) % 8
    → window (set buf k v) i (suc n) ≡ window buf i n ++ v ∷ []
window-set buf v k i zero l hi hn e =
    let e' : k ≡ i = omega arith in rw e' (ap (λ x. x ∷ []) (get_or-set_self buf i v (omega arith)))
window-set buf v k i (suc n) l hi hn e = ground (
  arith,
  get_or-set_ne buf k i v (omega arith),
  window-set buf v k ((i + 1) % 8) n l (omega arith) (omega arith) (omega arith),
)

-- Unfolding a window that is not empty, at a count that the code tests by its indices.
window-pos :
    (buf : List ℕ) (i n : ℕ)
    → 0 < n
    → window buf i n ≡ get_or buf i 0 ∷ window buf ((i + 1) % 8) (n - 1)
window-pos buf i zero h = elim h [ ]
window-pos buf i (suc n) h = ap (λ k. get_or buf i 0 ∷ window buf ((i + 1) % 8) k) (omega arith)

log-IsValid : (e : ℕ) (l : ErrorLog) → IsValid l → IsValid (log_error_number e l).0
unfolding log_error_number
log-IsValid e l v = ground (arith, next_lem l.error_in, length-set l.errors l.error_in e)

get-IsValid : (l : ErrorLog) → IsValid l → IsValid (log_error_get l).0
unfolding log_error_get
get-IsValid l v = ground (arith, next_lem l.error_out)

clean-IsValid : (l : ErrorLog) → IsValid l → IsValid (clean_log_errors l)
unfolding clean_log_errors
clean-IsValid l v = omega arith

-- Logging pushes, with the same answer about a full buffer.
pub log_refines :
    (e : ℕ) (l : ErrorLog)
    → IsValid l
    → let (l', b) = log_error_number e l in (contents l', b) ≡ Queue.push e (contents l)
unfolding log_error_number Queue.push
log_refines e l v = ground (
  arith,
  next_lem l.error_in,
  length-window l.errors l.error_out (count l),
  window-set l.errors e l.error_in l.error_out (count l),
)

-- Getting pops the oldest error, or 0.
pub get_refines :
    (l : ErrorLog)
    → IsValid l
    → let (l', n) = log_error_get l in (contents l', n) ≡ Queue.pop (contents l)
unfolding log_error_get Queue.pop
get_refines l v = ground (arith, next_lem l.error_out, window-pos l.errors l.error_out (count l))

-- The search sees the entries from `i` on, and ends at `ErrorIn` within its fuel.
exists_from_refines :
    (fuel e i n : ℕ) (l : ErrorLog)
    → IsValid l
    → i < 8
    → n ≡ (l.error_in + 8 - i) % 8
    → n < fuel
    → exists_from fuel e l i ≡ some (Queue.contains e (window l.errors i n))
unfolding exists_from Queue.contains
exists_from_refines zero e i n l v hi hn lt = elim lt [ ]
exists_from_refines (suc fuel) e i zero l v hi hn lt =
    let end : i ≡ l.error_in = omega arith in ground arith
exists_from_refines (suc fuel) e i (suc n) l v hi hn lt = ground (
  arith,
  next_lem i hi,
  exists_from_refines fuel e ((i + 1) % 8) n l v (omega arith) (omega arith) (omega arith),
)

-- In a valid state `LogErrorNumberExists` always returns, and tells whether the error is among those held.
pub exists_refines :
    (e : ℕ) (l : ErrorLog)
    → IsValid l
    → log_error_number_exists e l ≡ some (Queue.contains e (contents l))
unfolding log_error_number_exists
exists_refines e l v =
    exists_from_refines 8 e l.error_out (count l) l v v.out_range refl (omega arith)

-- One more reply, if the rest of the calls return.
abbrev cons : Reply → Option (List Reply) → Option (List Reply)
cons r none = none
cons r (some rs) = some (r ∷ rs)

abbrev answer : Option Bool → Option (List Reply) → Option (List Reply)
answer none rs = none
answer (some b) rs = cons (found b) rs

-- The log under a sequence of calls; `none` stands for a search that does not end.
unfoldable pub run : List Call → ErrorLog → Option (List Reply)
run [] l = some []
run (logs e ∷ cs) l = let (l', b) = log_error_number e l in cons (full b) (run cs l')
run (exists e ∷ cs) l = answer (log_error_number_exists e l) (run cs l)
run (gets ∷ cs) l = let (l', n) = log_error_get l in cons (number n) (run cs l')
run (cleans ∷ cs) l = cons done (run cs (clean_log_errors l))

contents-clean : (l : ErrorLog) → contents (clean_log_errors l) ≡ []
unfolding clean_log_errors
contents-clean l = refl

-- From any valid state, no sequence of calls tells the ring from the queue of seven errors: each call
-- returns, with the answer that the queue gives.
pub run_refines :
    (cs : List Call) (l : ErrorLog) → IsValid l → run cs l ≡ some (Queue.run cs (contents l))
unfolding run Queue.run
run_refines [] l v = refl
run_refines (logs e ∷ cs) l v =
    rw (run_refines cs (log_error_number e l).0 (log-IsValid e l v))
      (ap (λ (p : List ℕ × Bool). some (full p.1 ∷ Queue.run cs p.0)) (log_refines e l v))
run_refines (exists e ∷ cs) l v = rw (exists_refines e l v, run_refines cs l v)
run_refines (gets ∷ cs) l v =
    rw (run_refines cs (log_error_get l).0 (get-IsValid l v))
      (ap (λ (p : List ℕ × ℕ). some (number p.1 ∷ Queue.run cs p.0)) (get_refines l v))
run_refines (cleans ∷ cs) l v =
    rw (run_refines cs (clean_log_errors l) (clean-IsValid l v), contents-clean l)
