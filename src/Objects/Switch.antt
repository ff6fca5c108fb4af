-- ===== src/Objects/Switch.antt =====
-- `ObjectExit` and `ObjectInit` of lms2012/lms2012.c: switching an object out and in.
use lms2012_compat.Prelude.{ℕ, ◌≡◌, ◌∙◌, ap, true, false, ◌&&◌, ◌||◌, ◌==◌, if◌then◌else◌, arith}
use lms2012_compat.Vm.{Vm, Obj, running, nobreak}
use lms2012_compat.Dispatch.{prg_priority, ui_priority}
use lms2012_compat.Objects.{is_object, is_running, is_stopped, object_init, object_exit}

-- The length of the time slice of the current program.
abbrev pub slice : Vm → ℕ
slice s =
    if s.program_id == s.codes.gui_slot || s.program_id == s.codes.debug_slot
    then ui_priority
    else prg_priority

object_exit-saved :
    (s : Vm)
    → is_object s.objects s.object_id ≡ true
    → is_stopped (s.program s.program_id).status ≡ false
    → (s.obj s.p_obj_list s.object_id).obj_status ≡ running
    → (object_exit s).obj s.p_obj_list s.object_id
      ≡ record (s.obj s.p_obj_list s.object_id) { ip = s.object_ip }
unfolding object_exit
object_exit-saved s v p r =
    let run : is_running (s.obj s.p_obj_list s.object_id).obj_status ≡ true = ap is_running r in
    let here : (s.p_obj_list == s.p_obj_list && s.object_id == s.object_id) ≡ true = ground arith in
    rw (v, p, run) (rw here)

object_init-running :
    (t : Vm) (o : Obj)
    → is_object t.objects t.object_id ≡ true
    → t.obj t.p_obj_list t.object_id ≡ o
    → is_running o.obj_status ≡ true
    → object_init t
      ≡ (nobreak, record t { object_ip = o.ip; object_local = o.p_local; priority = slice t })
unfolding object_init
object_init-running t o v h r = rw (v, h, r)

-- A running object of a program that has not stopped is switched out and later switched in again,
-- while its record and its place stayed: it runs on from the instruction where it was, on its locals,
-- with the full time slice of its program, and nothing else changes.
pub object_init-exit :
    (s t : Vm)
    → is_object s.objects s.object_id ≡ true
    → is_stopped (s.program s.program_id).status ≡ false
    → (s.obj s.p_obj_list s.object_id).obj_status ≡ running
    → t.objects ≡ s.objects
    → t.object_id ≡ s.object_id
    → t.obj t.p_obj_list s.object_id ≡ (object_exit s).obj s.p_obj_list s.object_id
    → object_init t ≡ (
      nobreak,
      record t {
        object_ip = s.object_ip;
        object_local = (s.obj s.p_obj_list s.object_id).p_local;
        priority = slice t;
      },
    )
object_init-exit s t v p r objects id kept =
    let valid : is_object t.objects t.object_id ≡ true = rw (objects, id) v in
    let here : t.obj t.p_obj_list t.object_id
        ≡ record (s.obj s.p_obj_list s.object_id) { ip = s.object_ip } =
      ap (t.obj t.p_obj_list) id ∙ kept ∙ object_exit-saved s v p r in
    object_init-running t _ valid here (ap is_running r)
