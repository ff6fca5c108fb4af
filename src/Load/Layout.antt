-- ===== src/Load/Layout.antt =====
-- The memory that is reserved for an image is just what its variables and objects take.
use lms2012_compat.Prelude.{
  ℕ, zero, suc, ◌+◌, ◌*◌, ◌/◌, ◌≤◌, ◌<◌, ◌≡◌, false, ◌==◌, Option, some, arith,
}
use lms2012_compat.Vm.{Vm, ObjHead}
use lms2012_compat.Load.{
  obj_size, pointer_size, obj_heads, number_of_objects, global_bytes, next_id,
}

-- The next multiple of four, and what is needed, as numbers that do not wrap
abbrev pub up : ℕ → ℕ
up x = (x + 3) / 4 * 4

abbrev pub needs : (ℕ → ObjHead) → ℕ → ℕ → ℕ → ℕ
needs head zero id bytes = bytes
needs head (suc n) id bytes = needs head n (id + 1) (up bytes + (obj_size + (head id).local_bytes))

pub next_id-suc : (id objects : ℕ) → id ≤ objects → objects < 65535 → next_id id ≡ id + 1
next_id-suc id objects h k = omega (arith, h, k)

-- One object: its data lies in its place, and the next one comes behind it.
abbrev Placed : ℕ → ℕ → ℕ → ℕ → ℕ → Vm → Option (ℕ × Vm) → Type 0
Placed list id base bytes local_bytes s r =
    (s' : Vm) × (r ≡ some (base + (up bytes + (obj_size + local_bytes)), s'))
    × (s'.head ≡ s.head)
    × ((s'.obj list id).local ≡ base + up bytes + obj_size)
    × ((i : ℕ) → (i == id) ≡ false → s'.obj list i ≡ s.obj list i)

-- What the loop over the objects leaves: the data of each object lies behind what came before it and
-- before what comes after it.
abbrev pub Fits : ℕ → (ℕ → ObjHead) → ℕ → ℕ → ℕ → ℕ → Vm → Type 0
Fits list head id n start end s =
    (j : ℕ)
    → id ≤ j
    → j < id + n
    → (start + obj_size ≤ (s.obj list j).local)
      × ((s.obj list j).local + (head j).local_bytes ≤ end)
      × ((k : ℕ)
          → j < k
          → k < id + n
          → (s.obj list j).local + (head j).local_bytes + obj_size ≤ (s.obj list k).local)

-- The memory that an image needs, as a number that does not wrap
abbrev pub image_needs : Vm → ℕ → ℕ
image_needs s image =
    let objects = number_of_objects s.mem image in
    needs (s.head (obj_heads image)) objects 1
      (up (global_bytes s.mem image) + pointer_size * (objects + 1))
