-- ===== src/Tests/Loading.antt =====
-- An image with two objects and ten bytes of variables, loaded at 0x9000.
use lms2012_compat.Prelude.{ℕ, ◌≡◌, ◌==◌, refl, if◌then◌else◌, [], some}
use lms2012_compat.Vm.{Vm, ObjHead, load_bytes}
use lms2012_compat.Load.{number_of_objects, global_bytes, ram_objects, get_amount_of_ram_for_image}
use lms2012_compat.Tests.{machine}

abbrev headers : ℕ → ObjHead
headers i = record {
  offset_to_instructions = 40;
  owner_object_id = if i == 2 then 1 else 0;
  trigger_count = 0;
  local_bytes = if i == 1 then 5 else 8;
}

abbrev with_image : Vm
with_image = record (machine []) {
  mem = λ a. if a == 0x200A then 2 else if a == 0x200C then 10 else 0;
  head = λ p i. headers i;
}

two_objects : get_amount_of_ram_for_image with_image 0x2000 ≡ some 0x40
unfolding number_of_objects global_bytes load_bytes get_amount_of_ram_for_image ram_objects
two_objects = refl
