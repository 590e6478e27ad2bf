-- ===== src/Kernel/Memory/Setup.antt =====
-- What `memory_init` of blt/kernel/memory.c lists as free.
use os_open_blt.Base.{
  ℕ, zero, suc, ◌+◌, ◌-◌, ◌*◌, ◌/◌, ◌%◌, ◌<◌, ◌≤◌, ◌≡◌, refl, true, arith, mem, Chain, Chain-start,
  Chain-frame, upto, mem-upto, Distinct-upto, update,
}
use os_open_blt.Base.Int.{pos}
use os_open_blt.Kernel.Memory.{Memory, list_pages, list_memory, aspace_maphi}
use os_open_blt.Kernel.Memory.Pages.{PagesOk}

renumbered :
    (next : ℕ → ℕ) (p : ℕ) {a b n k : ℕ}
    → b ≡ a
    → k ≡ n
    → Chain next p (upto a n)
    → Chain next p (upto b k)
renumbered next p e f c = rw e (rw f c)

list_pages-Chain :
    (bottom left more : ℕ) (m : Memory)
    → 0 < bottom
    → Chain m.pagelist m.freepage (upto (bottom + left) more)
    → Chain
        (list_pages bottom left m).pagelist
        (list_pages bottom left m).freepage
        (upto bottom (left + more))
unfolding list_pages
list_pages-Chain bottom zero more m real c = renumbered _ _ (omega arith) (omega arith) c
list_pages-Chain bottom (suc left) more m real c =
    let number : left + suc more ≡ suc left + more = omega arith in
    let next : bottom + suc left ≡ bottom + left + 1 = omega arith in
    let listed = rw next at c in
    let m1 : Memory = record m {
      total_pages = m.total_pages + 1;
      pagelist = update m.pagelist (bottom + left) m.freepage;
      freepage = bottom + left;
    } in
    rw number at (
      list_pages-Chain bottom left (suc more) m1 real (
        refl,
        ground arith,
        Chain-start _ (upto (bottom + left + 1) more) (ground arith) (
            Chain-frame m.pagelist m1.pagelist m.freepage (upto (bottom + left + 1) more)
              (λ x i. ground (arith, mem-upto x (bottom + left + 1) more)) listed),
      ))

-- `memory_init` lists as free the pages from `bottom`, which is above 0, to the first page of the page list
-- itself, both included, each once, in this order.
pub list_memory-PagesOk :
    (bottom top : ℕ) (m : Memory)
    → 0 < bottom
    → PagesOk
        (list_memory bottom top m)
        (upto bottom (top - ((top - bottom) / 1024 + 1) + 1 - bottom))
unfolding list_memory
list_memory-PagesOk bottom top m real =
    let left = top - ((top - bottom) / 1024 + 1) + 1 - bottom in
    record {
      chain = renumbered _ _ refl (omega arith) (list_pages-Chain bottom left 0 _ real refl);
      distinct = Distinct-upto bottom left;
    }

list_pages-kept :
    (bottom left : ℕ) (m : Memory)
    → ((list_pages bottom left m).high ≡ m.high) × ((list_pages bottom left m).nextmem ≡ m.nextmem)
unfolding list_pages
list_pages-kept bottom zero m = (refl, refl)
list_pages-kept bottom (suc left) m = list_pages-kept bottom left _

aspace_maphi-kept :
    (phys virt len flags : ℕ) (m : Memory)
    → (aspace_maphi phys virt len flags m).nextmem ≡ m.nextmem
unfolding aspace_maphi
aspace_maphi-kept phys virt zero flags m = refl
aspace_maphi-kept phys virt (suc len) flags m = aspace_maphi-kept phys virt len flags m

aspace_maphi-first :
    (phys virt len flags : ℕ) (m : Memory)
    → 0 < len
    → (aspace_maphi phys virt len flags m).high (virt % 1024) ≡ phys * 4096 + flags
unfolding aspace_maphi
aspace_maphi-first phys virt zero flags m some_page = absurd (omega arith)
aspace_maphi-first phys virt (suc zero) flags m some_page = ground arith
aspace_maphi-first phys virt (suc (suc len)) flags m some_page =
    ground (arith, aspace_maphi-first phys virt (suc len) flags m)

list_memory-high :
    (bottom top : ℕ) (m : Memory)
    → (list_memory bottom top m).high ((list_memory bottom top m).nextmem / 4096 % 1024)
      ≡ (top - ((top - bottom) / 1024 + 1)) * 4096 + 3
unfolding list_memory
list_memory-high bottom top m =
    let count = (top - bottom) / 1024 in
    let first = top - (count + 1) in
    let start = m.nextmem - 4096 * (count + 1) in
    let m0 : Memory = record m { nextmem = start; total_pages = 0; used_pages = pos 0 } in
    rw
      (
        (list_pages-kept bottom (first + 1 - bottom) _).0,
        (list_pages-kept bottom (first + 1 - bottom) _).1,
        aspace_maphi-kept first (start / 4096) (count + 1) 3 m0,
      )
      (aspace_maphi-first first (start / 4096) (count + 1) 3 m0 (omega arith))

-- The physical page that holds the start of the page list is on the list of free pages, when there is a
-- page between `bottom` and the page list.
pub list_memory-shared :
    (bottom top : ℕ) (m : Memory)
    → bottom ≤ top - ((top - bottom) / 1024 + 1)
    → mem
        ((list_memory bottom top m).high ((list_memory bottom top m).nextmem / 4096 % 1024) / 4096)
        (upto bottom (top - ((top - bottom) / 1024 + 1) + 1 - bottom))
      ≡ true
list_memory-shared bottom top m room = rw (list_memory-high bottom top m) (
    let number : ((top - ((top - bottom) / 1024 + 1)) * 4096 + 3) / 4096
        ≡ top - ((top - bottom) / 1024 + 1) =
      omega arith in
    rw number (
      ground (
        arith,
        mem-upto (top - ((top - bottom) / 1024 + 1)) bottom
            (top - ((top - bottom) / 1024 + 1) + 1 - bottom),
      )))
