-- ===== src/Kernel/Memory/Tests.antt =====
-- The theorems on blt/kernel/memory.c at concrete inputs.
use os_open_blt.Base.{◌≡◌, refl, [], ◌∷◌, arith, update, Returns}
use mathlib.Core.Option
use os_open_blt.Base.Int.{pos, ◌+ℤ◌, ◌-ℤ◌}
use os_open_blt.Kernel.Memory.{Memory, km_map, putpage, getpage, kfree_p, kmalloc_p}
use os_open_blt.Kernel.Memory.Pages.{PagesOk, getpage-putpage}
use os_open_blt.Kernel.Memory.Pools.{PoolOk, Handed, kmalloc_p-kfree_p}

-- Pages 5 and 6 are free; pool 1 has no free block.
abbrev memory : Memory
memory = record {
  pool = km_map;
  word = λ x. 0;
  total_pages = 9;
  used_pages = pos 7;
  nextmem = 0x803fc000;
  freevpagelist = 0;
  pagelist = update (λ x. 0) 5 6;
  freepage = 5;
  high = λ x. 0;
}

memory-PagesOk : PagesOk memory (5 ∷ 6 ∷ [])
unfolding update
memory-PagesOk = record {
  chain = (refl, ground arith, (refl, ground arith, refl));
  distinct = (refl, (refl, tt));
}

memory-PoolOk : PoolOk memory.word (memory.pool 1) []
memory-PoolOk = record { chain = refl; distinct = tt; counted = refl }

getpage-putpage_example :
    PagesOk (putpage 8 memory) (8 ∷ 5 ∷ 6 ∷ [])
    × Returns
        (λ r.
          (r.0 ≡ 8)
          × PagesOk r.1 (5 ∷ 6 ∷ [])
          × (r.1.used_pages ≡ memory.used_pages -ℤ pos 1 +ℤ pos 1))
        (getpage (putpage 8 memory))
getpage-putpage_example = getpage-putpage memory 8 (5 ∷ 6 ∷ []) memory-PagesOk (ground arith) refl

kmalloc_p-kfree_p_example :
    Returns (Handed 1 64 []) (Option.bind (kfree_p 1 64 memory) (kmalloc_p 1))
kmalloc_p-kfree_p_example =
    kmalloc_p-kfree_p memory 1 64 [] (omega arith) (ground arith) refl memory-PoolOk
