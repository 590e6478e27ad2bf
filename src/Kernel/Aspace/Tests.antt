-- ===== src/Kernel/Aspace/Tests.antt =====
-- The theorems on the search for a span at concrete page tables.
use os_open_blt.Base.{ℕ, ◌≡◌, ◌==◌, refl, arith, if◌then◌else◌}
use os_open_blt.Kernel.Aspace.{locate_span, span_from}
use os_open_blt.Kernel.Aspace.Spans.{Free, locate_span-Free}

-- The table's last page is free, and no other one.
abbrev table : ℕ → ℕ
table x = if x == 1023 then 0 else 7

last_page : locate_span table 1020 1 ≡ 1023
unfolding locate_span span_from
last_page = refl

locate_span-Free_example : Free table (locate_span table 1020 1) 1 1024
locate_span-Free_example = locate_span-Free table 1020 1 (ground (arith, last_page))
