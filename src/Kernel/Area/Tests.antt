-- ===== src/Kernel/Area/Tests.antt =====
-- The theorems on the pages of areas at a concrete memory.
use os_open_blt.Base.{ℕ, ltb, refl, [], ◌∷◌, arith, update, Returns, false, if◌then◌else◌}
use os_open_blt.Base.Int.{pos}
use os_open_blt.Kernel.Memory.{Memory, km_map}
use os_open_blt.Kernel.Memory.Pages.{PagesOk}
use os_open_blt.Kernel.Area.{map_area}
use os_open_blt.Kernel.Area.Pages.{Mapped, map_area-Mapped}

-- Only the first 512 pages are in use.
abbrev table : ℕ → ℕ
table x = if ltb x 512 then 7 else 0

-- Pages 5, 6 and 7 are free.
abbrev pages_5_to_7 : Memory
pages_5_to_7 = record {
  pool = km_map;
  word = λ x. 0;
  total_pages = 9;
  used_pages = pos 6;
  nextmem = 0x803fc000;
  freevpagelist = 0;
  pagelist = update (update (λ x. 0) 5 6) 6 7;
  freepage = 5;
  high = λ x. 0;
}

pages_5_to_7-PagesOk : PagesOk pages_5_to_7 (5 ∷ 6 ∷ 7 ∷ [])
unfolding update
pages_5_to_7-PagesOk = record {
  chain = (refl, ground arith, (refl, ground arith, (refl, ground arith, refl)));
  distinct = (refl, (refl, (refl, tt)));
}

map_area-Mapped_example :
    Returns (Mapped 600 (5 ∷ 6 ∷ []) (7 ∷ []) table) (map_area 2 false 0 600 table pages_5_to_7)
map_area-Mapped_example =
    map_area-Mapped (5 ∷ 6 ∷ []) (7 ∷ []) 0 600 table pages_5_to_7 (omega arith)
      pages_5_to_7-PagesOk
