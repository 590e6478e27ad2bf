-- ===== src/Kernel/Memory.antt =====
-- blt/kernel/memory.c: the list of physical pages, kernel pages in virtual memory, and the pools of
-- small blocks. Memory is a function from addresses to words: a free block holds the next one in its
-- first word, and a node of the list of virtual pages its successor in its first word and the page in
-- its third. `none` is a panic or a stop in the debugger. NULL is 0. What is taken of the kernel's virtual
-- memory at once is less than `nextmem`.
pub mod Sizes
pub mod Pages
pub mod Pools
pub mod Setup
pub mod Tests
use mathlib.Core.Option
use os_open_blt.Base.{
  ℕ, zero, suc, ◌+◌, ◌-◌, ◌*◌, ◌/◌, ◌%◌, Bool, true, false, not, Option, none, some, List, [], ◌∷◌,
  ◌++◌, ◌==◌, ltb, leb, if◌then◌else◌, update, get_or,
}
use os_open_blt.Base.Lists.{replicate}
use os_open_blt.Base.Int.{ℤ, pos, pos_part, neg_part, ◌+ℤ◌, ◌-ℤ◌}

-- `struct _km_map`.
pub record Pool : Type 0 where
  pub size : ℕ
  pub used_count : ℤ
  pub fresh_count : ℤ
  pub free_count : ℤ
  pub free_chain : ℕ
  pub fresh_chain : ℕ

-- `high` is the page table `flat->high`; `pool` is `km_map`.
pub record Memory : Type 0 where
  pub pool : ℕ → Pool
  pub word : ℕ → ℕ
  pub total_pages : ℕ
  pub used_pages : ℤ
  pub nextmem : ℕ
  pub freevpagelist : ℕ
  pub pagelist : ℕ → ℕ
  pub freepage : ℕ
  pub high : ℕ → ℕ

abbrev pub kmmax : ℕ
kmmax = 7

-- The table from sizes to pools; the rest of its 513 entries is 0.
abbrev pub size_map : List ℕ
size_map =
    replicate 17 0
    ++ (replicate 16 1
        ++ (replicate 32 2
            ++ (replicate 32 3
                ++ (replicate 32 4 ++ (replicate 64 5 ++ (replicate 64 6 ++ replicate 256 0))))))

abbrev a_pool : ℕ → ℕ → Pool
a_pool size fresh = record {
  size = size;
  used_count = pos 0;
  fresh_count = pos fresh;
  free_count = pos 0;
  free_chain = 0;
  fresh_chain = 0;
}

-- The initial value of `km_map`.
abbrev pub km_map : ℕ → Pool
km_map i =
    get_or
      (a_pool 16 256
        ∷ a_pool 32 128
        ∷ a_pool 64 64
        ∷ a_pool 96 42
        ∷ a_pool 128 32
        ∷ a_pool 192 21
        ∷ a_pool 256 16
        ∷ [])
      i (a_pool 0 0)

abbrev pub is_zero : ℤ → Bool
is_zero n = if pos_part n == 0 then neg_part n == 0 else false

pub set_pool : ℕ → Pool → Memory → Memory
unfolding update
set_pool i p m = record m { pool = update m.pool i p }

pub putpage : ℕ → Memory → Memory
unfolding update
putpage number m = record m {
  pagelist = update m.pagelist number m.freepage;
  freepage = number;
  used_pages = m.used_pages -ℤ pos 1;
}

pub getpage : Memory → Option (ℕ × Memory)
getpage m =
    let n = m.freepage in
    if n == 0
    then none
    else some (n, record m { freepage = m.pagelist n; used_pages = m.used_pages +ℤ pos 1 })

-- `aspace_maphi(flat, phys, virt, len, flags)` of aspace.c; with flags below 4096 the `|` is a sum.
pub aspace_maphi : ℕ → ℕ → ℕ → ℕ → Memory → Memory
unfolding update
aspace_maphi phys virt zero flags m = m
aspace_maphi phys virt (suc len) flags m =
    let m1 = aspace_maphi phys virt len flags m in
    record m1 { high = update m1.high (virt % 1024 + len) ((phys + len) * 4096 + flags) }

pub kfree_p : ℕ → ℕ → Memory → Option Memory
unfolding set_pool update
kfree_p i block m =
    let km = m.pool i in
    if ltb kmmax i
    then none
    else some (
        set_pool i
          (record km {
            free_count = km.free_count +ℤ pos 1;
            used_count = km.used_count -ℤ pos 1;
            free_chain = block;
          })
          (record m { word = update m.word block km.free_chain }))

-- The two ways of `kgetpage` to a virtual page for the physical page `pg`.
unfoldable pub next_vpage : ℕ → Memory → ℕ × Memory
next_vpage pg m =
    let page = m.nextmem - 4096 in
    (page, aspace_maphi pg (page / 4096) 1 3 (record m { nextmem = page }))

-- A node of the list of virtual pages is in pool 0, for `size_map[sizeof(node_t)]`.
unfoldable pub reuse_vpage : ℕ → Memory → Option (ℕ × Memory)
reuse_vpage pg m =
    let n = m.freevpagelist in
    let page = m.word (n + 8) in
    Option.bind (kfree_p 0 n (record m { freevpagelist = m.word n })) (λ m1.
      if m1.high (page / 4096 % 1024) == 0
      then some (page, aspace_maphi pg (page / 4096) 1 3 m1)
      else none)

-- The virtual address of the page, and its physical one in `*phys`.
unfoldable pub kgetpage : Memory → Option (ℕ × ℕ × Memory)
kgetpage m = Option.bind (getpage m) (λ (pg, m1).
    if ltb m1.nextmem 0x80050000
    then none
    else if m1.freevpagelist == 0
    then (let (page, m2) = next_vpage pg m1 in some (page, pg * 4096, m2))
    else Option.map (λ (page, m2). (page, pg * 4096, m2)) (reuse_vpage pg m1))

-- The loop of `kgetpages` for more than one page; `n` is the number of the first virtual page left.
unfoldable map_pages : ℕ → ℕ → Memory → Option Memory
map_pages zero n m = some m
map_pages (suc left) n m =
    Option.bind (getpage m) (λ (pg, m1). map_pages left (n + 1) (aspace_maphi pg n 1 3 m1))

unfoldable kgetpages : ℕ → Memory → Option (ℕ × Memory)
kgetpages count m =
    if count == 1
    then Option.map (λ (page, phys, m1). (page, m1)) (kgetpage m)
    else (let start = m.nextmem - 4096 * count in
        Option.map (λ m1. (start, m1))
          (map_pages count (start / 4096) (record m { nextmem = start })))

-- A block is taken off the free chain.
pub recycle : ℕ → Memory → ℕ × Memory
unfolding set_pool
recycle i m =
    let km = m.pool i in
    let block = km.free_chain in
    (
      block,
      set_pool i (record km { free_count = km.free_count -ℤ pos 1; free_chain = m.word block }) m,
    )

-- A block is shaved off the fresh page; the last one brings a new page.
unfoldable shave : ℕ → Memory → Option (ℕ × Memory)
unfolding set_pool
shave i m =
    let km = m.pool i in
    let left = km.fresh_count -ℤ pos 1 in
    let block = km.fresh_chain in
    if is_zero left
    then Option.map
        (λ (page, m1). (
          block,
          set_pool i (record (m1.pool i) { fresh_count = pos (4096 / km.size); fresh_chain = page })
              m1,
        ))
        (kgetpages 1 (set_pool i (record km { fresh_count = left }) m))
    else some (
      block,
      set_pool i (record km { fresh_count = left; fresh_chain = km.fresh_chain + km.size }) m,
    )

pub kmalloc_p : ℕ → Memory → Option (ℕ × Memory)
unfolding set_pool
kmalloc_p i m =
    let km = m.pool i in
    let m1 = set_pool i (record km { used_count = km.used_count +ℤ pos 1 }) m in
    if leb kmmax i then none else if km.free_chain == 0 then shave i m1 else some (recycle i m1)

unfoldable pub kmalloc_b : ℕ → Memory → Option (ℕ × Memory)
kmalloc_b size m = if ltb size 256 then kmalloc_p (get_or size_map size 0) m else none

unfoldable kfree_b : ℕ → ℕ → Memory → Option Memory
kfree_b size block m = if ltb size 256 then kfree_p (get_or size_map size 0) block m else none

-- The virtual page's number is taken from bits 12 to 21 of its address.
unfoldable pub kfreepage : ℕ → Memory → Option Memory
unfolding update
kfreepage vaddr m =
    let vpage = vaddr / 4096 % 1024 in
    let m1 = putpage (m.high vpage / 4096) m in
    let m2 = record m1 { high = update m1.high vpage 0 } in
    if m.high vpage == 0
    then none
    else Option.map
        (λ (n, m3). record m3 {
          word = update (update m3.word n m3.freevpagelist) (n + 8) vaddr;
          freevpagelist = n;
        })
        (kmalloc_b 12 m2)

-- `kmappages`, for pages that are there already.
unfoldable kmappages : ℕ → ℕ → ℕ → Memory → ℕ × Memory
kmappages phys count flags m =
    let start = m.nextmem - 4096 * count in
    (start, aspace_maphi phys (start / 4096) count flags (record m { nextmem = start }))

-- The loop of `memory_init` over the pages, from `bottom + left - 1` down to `bottom`.
pub list_pages : ℕ → ℕ → Memory → Memory
unfolding update
list_pages bottom zero m = m
list_pages bottom (suc left) m = list_pages bottom left (record m {
  total_pages = m.total_pages + 1;
  pagelist = update m.pagelist (bottom + left) m.freepage;
  freepage = bottom + left;
})

-- The loop over the pools, from pool `i` on.
unfoldable first_pages : ℕ → ℕ → Memory → Option Memory
unfolding set_pool
first_pages zero i m = some m
first_pages (suc left) i m = Option.bind (kgetpages 1 m) (λ (page, m1).
    first_pages left (i + 1) (set_pool i (record (m1.pool i) { fresh_chain = page }) m1))

-- What `memory_init` does before the loop over the pools. The loop over the pages counts `i` from
-- `top` down to `bottom`, both included; `bottom` is above 0 and
-- not above `top`.
pub list_memory : ℕ → ℕ → Memory → Memory
list_memory bottom top m =
    let count = (top - bottom) / 1024 + 1 in
    let top' = top - count in
    let start = m.nextmem - 4096 * count in
    let m1 =
      aspace_maphi top' (start / 4096) count 3
        (record m { nextmem = start; total_pages = 0; used_pages = pos 0 }) in
    list_pages bottom (top' + 1 - bottom) (record m1 { freepage = 0 })

unfoldable memory_init : ℕ → ℕ → Memory → Option Memory
memory_init bottom top m = first_pages kmmax 0 (list_memory bottom top m)
