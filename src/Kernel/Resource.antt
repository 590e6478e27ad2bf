-- ===== src/Kernel/Resource.antt =====
-- blt/kernel/resource.c, and `task_wake` of task.c, which `rsrc_release` calls. `none` is a panic.
pub mod Table
pub mod Init
pub mod Release
pub mod Queues
pub mod Names
pub mod Tests
use mathlib.Core.Option
use os_open_blt.Base.{
  ℕ, zero, suc, ◌+◌, ◌-◌, Bool, true, false, ◌||◌, not, Option, none, some, List, [], ◌∷◌, ◌++◌,
  ltb, ◌==◌, if◌then◌else◌, update, length,
}
use os_open_blt.Base.Int.{ℤ, negsuc}
use os_open_blt.Kernel.NodeList.Walk.{erase_first}
use os_open_blt.Kernel.State.{
  RsrcType, rsrc_none, rsrc_queue, type_code, Rsrc, Flags, t_waiting, t_ready, Task, Kernel,
  set_rsrc, set_task, set_queue,
}

-- `ERR_RESOURCE`.
abbrev pub err_resource : ℤ
err_resource = negsuc 1

-- `list_remove` of an item.
pub remove_item : ℕ → List ℕ → List ℕ
unfolding erase_first
remove_item a xs = erase_first (λ x. x) a xs

-- One round of the loop of `rsrc_init`, for `i` and each later entry.
pub clear_entries : ℕ → ℕ → Kernel → Kernel
unfolding update
clear_entries zero i k = k
clear_entries (suc left) i k = clear_entries left (i + 1) (record k {
  rmap_resource = update k.rmap_resource i k.null_resource;
  rmap_next = update k.rmap_next i (i + 1);
})

-- What `rsrc_init` does before its loop.
pub null_ready : ℕ → Kernel → Kernel
unfolding set_rsrc
null_ready rmax k =
    let r = k.rsrc k.null_resource in
    let k1 =
      set_rsrc k.null_resource (record r { id = 0; type = rsrc_none; owner = 0; rights = [] })
        (record k { resource_list = [] }) in
    record k1 { rfree = 1; rmax = rmax }

-- `rmax` is `size / sizeof(rtab)`, where an `rtab` has eight bytes.
pub rsrc_init : ℕ → Kernel → Kernel
unfolding null_ready update
rsrc_init rmax k =
    let k2 = clear_entries rmax 0 (null_ready rmax k) in
    record k2 { rmap_next = update k2.rmap_next (rmax - 1) 0 }

-- The address of the resource, or NULL. The comparison with `rmax` is unsigned, so `id` is the
-- unsigned reading of the argument.
unfoldable pub rsrc_find : ℕ → ℕ → Kernel → ℕ
rsrc_find type id k =
    if ltb id k.rmax
    then (if type_code (k.rsrc (k.rmap_resource id)).type == type then k.rmap_resource id else 0)
    else 0

unfoldable rsrc_set_owner : ℕ → ℕ → Kernel → Kernel
unfolding update remove_item set_rsrc
rsrc_set_owner r owner k =
    let old = (k.rsrc r).owner in
    let k1 = if old == 0 then k else record k {
      team_resources = update k.team_resources old (remove_item r (k.team_resources old));
    } in
    let k2 = set_rsrc r (record (k1.rsrc r) { owner = owner }) k1 in
    if owner == 0 then k2 else record k2 {
      team_resources = update k2.team_resources owner (k2.team_resources owner ++ r ∷ []);
    }

-- The team's address is that of its resource.
unfoldable rsrc_identify : ℕ → Kernel → ℕ
rsrc_identify id k =
    let r = k.rmap_resource id in
    if not (ltb id k.rmax) || (type_code (k.rsrc r).type == 0)
    then 0
    else (k.rsrc (k.rsrc r).owner).id

-- The name without its final NUL: at most `left` bytes, up to the first NUL.
pub copy_name : ℕ → List ℕ → List ℕ
copy_name zero s = []
copy_name (suc left) [] = []
copy_name (suc left) (c ∷ s) = if c == 0 then [] else c ∷ copy_name left s

-- `none` is a NULL name.
pub rsrc_set_name : ℕ → Option (List ℕ) → Kernel → Kernel
unfolding copy_name set_rsrc
rsrc_set_name r name k =
    set_rsrc r (record (k.rsrc r) { name = elim name [ none ↦ [] | some s ↦ copy_name 31 s ] }) k

pub rsrc_bind : ℕ → RsrcType → ℕ → Kernel → Option Kernel
unfolding set_rsrc update
rsrc_bind r type owner k =
    let id = k.rfree in
    if id == 0
    then none
    else (let k1 =
          set_rsrc r
            (record { id = id; type = type; owner = owner; name = []; queue = []; rights = [] })
            (record k { rfree = k.rmap_next id; rmap_resource = update k.rmap_resource id r }) in
        some (record k1 {
          team_resources =
              if owner == 0
              then k1.team_resources
              else update k1.team_resources owner (k1.team_resources owner ++ r ∷ []);
          resource_list = k1.resource_list ++ r ∷ [];
        }))

unfoldable pub rsrc_enqueue : ℕ → ℕ → Kernel → Kernel
unfolding set_task set_queue
rsrc_enqueue r t k =
    let k1 =
      set_task t (record (k.task t) { wait_time = 0; flags = t_waiting; waiting_on = r }) k in
    set_queue r ((k1.rsrc r).queue ++ t ∷ []) k1

unfoldable rsrc_enqueue_ordered : ℕ → ℕ → ℕ → Kernel → Kernel
unfolding set_task set_queue
rsrc_enqueue_ordered r t wake_time k =
    let k1 = set_queue r ((k.rsrc r).queue ++ t ∷ []) k in
    set_task t (record (k1.task t) { wait_time = wake_time; flags = t_waiting; waiting_on = r }) k1

-- The first task of a queue, taken off it; NULL if there is none.
unfoldable pub rsrc_dequeue : ℕ → Kernel → ℕ × Kernel
unfolding set_task set_queue
rsrc_dequeue r k = elim (k.rsrc r).queue [
  | [] ↦ (0, k)
  | t ∷ rest ↦
      (t, set_task t (record (k.task t) { waiting_on = 0; flags = t_ready }) (set_queue r rest k))
]

-- The source returns nothing at all from an empty queue; `none` stands for that value.
unfoldable rsrc_queue_peek : ℕ → Kernel → Option ℕ
rsrc_queue_peek r k = elim (k.rsrc r).queue [ [] ↦ none | t ∷ rest ↦ some t ]

unfoldable pub task_wake : ℕ → ℤ → Kernel → Kernel
unfolding set_task rsrc_enqueue
task_wake t status k =
    rsrc_enqueue k.run_queue t (set_task t (record (k.task t) { status = status }) k)

-- The loop of `rsrc_release` that wakes the blocked tasks. It ends when the queue is empty; `none`
-- is fuel that ran out.
pub wake_all : ℕ → ℕ → Kernel → Option Kernel
unfolding set_queue task_wake
wake_all zero r k = none
wake_all (suc fuel) r k = elim (k.rsrc r).queue [
  | [] ↦ some k
  | t ∷ rest ↦ wake_all fuel r (task_wake t err_resource (set_queue r rest k))
]

-- What `rsrc_release` does before the loop: off the owner's list and the global one.
pub unchain : ℕ → Kernel → Kernel
unfolding update remove_item
unchain r k =
    let owner = (k.rsrc r).owner in
    record k {
      team_resources =
          if owner == 0
          then k.team_resources
          else update k.team_resources owner (remove_item r (k.team_resources owner));
      resource_list = remove_item r k.resource_list;
    }

-- What it does after the loop: the entry `id` goes back to the free list.
pub give_back : ℕ → ℕ → Kernel → Kernel
unfolding update set_rsrc
give_back r id k =
    let k1 = set_rsrc r (record (k.rsrc r) { type = rsrc_none; id = 0 }) k in
    record k1 {
      rmap_resource = update k1.rmap_resource id k1.null_resource;
      rmap_next = update k1.rmap_next id k1.rfree;
      rfree = id;
    }

-- The fuel is the length of the queue and one round more.
pub rsrc_release : ℕ → Kernel → Option Kernel
unfolding unchain wake_all give_back
rsrc_release r k =
    let id = (k.rsrc r).id in
    let k1 = unchain r k in
    Option.map (give_back r id) (wake_all (suc (length (k1.rsrc r).queue)) r k1)

-- `queue_create`; `r` is what `kmalloc` returns, and the result is the new id.
unfoldable queue_create : ℕ → Option (List ℕ) → ℕ → Kernel → Option (ℕ × Kernel)
unfolding rsrc_bind rsrc_set_name
queue_create r name team k =
    Option.map (λ k1. let k2 = rsrc_set_name r name k1 in ((k2.rsrc r).id, k2))
      (rsrc_bind r rsrc_queue team k)
