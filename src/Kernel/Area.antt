-- ===== src/Kernel/Area.antt =====
-- blt/kernel/aspace.c: areas and the address spaces that they are in. An area and its page group are named by
-- their addresses; the new ones, which kmalloc returns, are arguments, and the pools that they come from
-- are left out. The chain of `phys_page_t` of a page group is the list of the pages in it, and its `size`
-- the length of that list. `none` is a panic.
pub mod Pages
pub mod Tests
use mathlib.Core.Option
use os_open_blt.Base.{
  ℕ, zero, suc, ◌+◌, ◌-◌, ◌*◌, ◌/◌, ◌%◌, ◌^◌, Bool, true, false, not, ◌||◌, ◌&&◌, mem, upto, Option,
  none, some, List, [], ◌∷◌, ◌++◌, ◌==◌, ltb, leb, if◌then◌else◌, update, length, take,
}
use os_open_blt.Base.Int.{ℤ, pos, negsuc, ◌+ℤ◌, ◌-ℤ◌}
use os_open_blt.Kernel.State.{Kernel, rsrc_aspace, rsrc_area, Rsrc}
use os_open_blt.Kernel.Memory.{Memory, getpage, putpage, kgetpage, kfreepage, is_zero}
use os_open_blt.Kernel.Resource.{rsrc_bind, rsrc_find, rsrc_release, remove_item, err_resource}
use os_open_blt.Kernel.Aspace.{aspace_map, aspace_clr, locate_span}

-- `pagegroup_t`; `physmap` is the flag AREA_PHYSMAP.
pub record PageGroup : Type 0 where
  pub refcount : ℤ
  pub physmap : Bool
  pub areas : List ℕ
  pub pages : List ℕ

-- `struct __area_t`, less its resource.
pub record Area : Type 0 where
  pub pgroup : ℕ
  pub virt_addr : ℕ
  pub length : ℕ
  pub maxlength : ℕ

-- The address spaces by their addresses: the page table, and the list of areas.
pub record Spaces : Type 0 where
  pub kernel : Kernel
  pub memory : Memory
  pub ptab : ℕ → ℕ → ℕ
  pub areas : ℕ → List ℕ
  pub area : ℕ → Area
  pub group : ℕ → PageGroup

-- The id of the new area and its address, or an error.
pub data AreaReply : Type 0 where
  area_refused : ℤ → AreaReply
  area_made : ℕ → ℕ → AreaReply

-- `ERR_MEMORY`.
abbrev pub err_no_memory : ℤ
err_no_memory = negsuc 2

-- `aspace_create`, with the address of the new `aspace_t`; the page directory is the hardware's.
unfoldable aspace_create : ℕ → ℕ → Spaces → Option Spaces
unfolding update
aspace_create a kernel_team w = Option.bind (kgetpage w.memory) (λ (raw0, phys0, m0).
    Option.bind (kgetpage m0) (λ (raw1, phys1, m1).
      Option.map
        (λ k. record w {
          kernel = k;
          memory = m1;
          ptab = update w.ptab a (λ i. 0);
          areas = update w.areas a [];
        })
        (rsrc_bind a rsrc_aspace kernel_team w.kernel)))

-- The size of an area in pages.
unfoldable area_pages : ℕ → ℕ
area_pages size =
    let pages = if size % 4096 == 0 then size / 4096 else size / 4096 + 1 in
    if ltb pages 1 then 1 else pages

-- The loops that map the pages of an area at `at`: with AREA_PHYSMAP from page `p` on, else new ones.
pub map_area : ℕ → Bool → ℕ → ℕ → (ℕ → ℕ) → Memory → Option (List ℕ × (ℕ → ℕ) × Memory)
map_area zero physmap p at ptab m = some ([], ptab, m)
map_area (suc left) physmap p at ptab m =
    Option.bind (if physmap then some (p, m) else getpage m) (λ (page, m1).
      Option.bind (aspace_map page at 1 7 ptab) (λ mapped.
        Option.map (λ (pages, t, m2). (page ∷ pages, t, m2))
          (map_area left physmap (p + 1) (at + 1) mapped m1)))

-- The new area `area` with its page group `pg`, bound to the owner of the running task.
unfoldable attach_area : ℕ → ℕ → Area → PageGroup → Spaces → Option (AreaReply × Spaces)
unfolding update
attach_area aspace area a g w =
    let owner = (w.kernel.rsrc w.kernel.current).owner in
    Option.map
      (λ k. (
        area_made (k.rsrc area).id (a.virt_addr * 4096),
        record w {
          kernel = k;
          areas = update w.areas aspace (w.areas aspace ++ area ∷ []);
          area = update w.area area a;
          group = update w.group a.pgroup (record g { areas = g.areas ++ area ∷ [] });
        },
      ))
      (rsrc_bind area rsrc_area owner w.kernel)

-- `addr` is the physical address in `*addr`, for AREA_PHYSMAP.
unfoldable area_create : ℕ → ℕ → ℕ → ℕ → ℕ → ℕ → Bool → Spaces → Option (AreaReply × Spaces)
unfolding update
area_create aspace area pg size virt addr physmap w =
    let count = area_pages size in
    let at = locate_span (w.ptab aspace) (virt / 4096) count in
    let a : Area = record { pgroup = pg; virt_addr = at; length = count; maxlength = count } in
    if at == 0
    then some (area_refused err_no_memory, w)
    else Option.bind (map_area count physmap (addr / 4096) at (w.ptab aspace) w.memory)
        (λ (pages, t, m).
          attach_area aspace area a
            (record { refcount = pos 1; physmap = physmap; areas = []; pages = pages })
            (record w { memory = m; ptab = update w.ptab aspace t }))

-- The loop of `area_clone`.
unfoldable map_clone : List ℕ → ℕ → (ℕ → ℕ) → Option (ℕ → ℕ)
map_clone [] at ptab = some ptab
map_clone (page ∷ pages) at ptab =
    Option.bind (aspace_map page at 1 7 ptab) (map_clone pages (at + 1))

unfoldable area_clone : ℕ → ℕ → ℕ → ℕ → Spaces → Option (AreaReply × Spaces)
unfolding update
area_clone aspace area1 area_id virt w =
    let area0 = rsrc_find 6 area_id w.kernel in
    let a0 = w.area area0 in
    let at = locate_span (w.ptab aspace) (virt / 4096) a0.length in
    let g = w.group a0.pgroup in
    if area0 == 0
    then some (area_refused err_resource, w)
    else if at == 0
    then some (area_refused err_no_memory, w)
    else Option.bind (map_clone (take a0.length g.pages) at (w.ptab aspace)) (λ t.
      attach_area aspace area1 (record a0 { virt_addr = at })
        (record g { refcount = g.refcount +ℤ pos 1 }) (record w { ptab = update w.ptab aspace t }))

pub put_pages : List ℕ → Memory → Memory
put_pages [] m = m
put_pages (page ∷ pages) m = put_pages pages (putpage page m)

-- What `area_destroy` does once the area is out of the list of its address space.
unfoldable detach_area : ℕ → ℕ → Spaces → Option (ℤ × Spaces)
unfolding update
detach_area aspace area w =
    let a = w.area area in
    let g = w.group a.pgroup in
    let left = g.refcount -ℤ pos 1 in
    let release = is_zero left && not g.physmap in
    Option.bind (aspace_clr a.virt_addr a.length (w.ptab aspace)) (λ cleared.
      Option.map
        (λ k. (
          pos 0,
          record w {
            kernel = k;
            memory = if release then put_pages g.pages w.memory else w.memory;
            ptab = update w.ptab aspace cleared;
            group =
                update w.group a.pgroup
                  (record g { refcount = left; areas = remove_item area g.areas });
          },
        ))
        (rsrc_release area w.kernel))

unfoldable area_destroy : ℕ → ℕ → Spaces → Option (ℤ × Spaces)
unfolding update
area_destroy aspace area_id w =
    let area = rsrc_find 6 area_id w.kernel in
    if area == 0
    then some (err_resource, w)
    else if not (mem area (w.areas aspace))
    then some (err_resource, w)
    else detach_area aspace area
        (record w { areas = update w.areas aspace (remove_item area (w.areas aspace)) })

unfoldable area_resize : ℕ → ℕ → ℕ → Spaces → Option (ℤ × Spaces)
unfolding update
area_resize aspace area_id size w =
    let area = rsrc_find 6 area_id w.kernel in
    let a = w.area area in
    let g = w.group a.pgroup in
    let had = length g.pages in
    let more = size / 4096 - had in
    let at = locate_span (w.ptab aspace) (a.virt_addr + had) more in
    if area == 0
    then some (err_resource, w)
    else if leb size (had * 4096)
    then some (pos 0, w)
    else if not (at == a.virt_addr + had)
    then some (err_no_memory, w)
    else Option.map
        (λ (pages, t, m). (
          pos 0,
          record w {
            memory = m;
            ptab = update w.ptab aspace t;
            group = update w.group a.pgroup (record g { pages = g.pages ++ pages });
            area =
                update w.area area
                  (record a { length = a.length + more; maxlength = a.maxlength + more });
          },
        ))
        (map_area more false 0 at (w.ptab aspace) w.memory)

-- An area for the whole machine: the pages of `addr` on, in no address space.
unfoldable area_create_uber : ℕ → ℕ → ℕ → ℕ → ℕ → Spaces → Option (ℕ × Spaces)
unfolding update
area_create_uber area pg size addr kernel_team w =
    let count = area_pages size in
    Option.map
      (λ k. (
        (k.rsrc area).id,
        record w {
          kernel = k;
          area =
              update w.area area
                (record { pgroup = pg; virt_addr = 0; length = count; maxlength = count });
          group = update w.group pg (record {
            refcount = pos 1;
            physmap = true;
            areas = area ∷ [];
            pages = upto (addr / 4096) count;
          });
        },
      ))
      (rsrc_bind area rsrc_area kernel_team w.kernel)

-- The loop of `aspace_destroy`; `none` also if the fuel is out.
unfoldable destroy_areas : ℕ → ℕ → Spaces → Option Spaces
destroy_areas zero a w = none
destroy_areas (suc fuel) a w = elim (w.areas a) [
  | [] ↦ some w
  | area ∷ rest ↦
      Option.bind (area_destroy a (w.kernel.rsrc area).id w) (λ (e, w1). destroy_areas fuel a w1)
]

-- `pdir` and `ptab` are the addresses of the two pages of `aspace_create`.
unfoldable aspace_destroy : ℕ → ℕ → ℕ → Spaces → Option Spaces
aspace_destroy a pdir ptab w = Option.bind (destroy_areas (length (w.areas a) + 1) a w) (λ w1.
    Option.bind (rsrc_release a w1.kernel) (λ k.
      Option.bind (kfreepage pdir w1.memory)
        (λ m. Option.map (λ m1. record w1 { kernel = k; memory = m1 }) (kfreepage ptab m))))
