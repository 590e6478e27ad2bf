-- ===== src/Kernel/Aspace.antt =====
-- The page table of an address space of blt/kernel/aspace.c, a function from the numbers of virtual pages
-- to entries, of which there are 1024, and the search for a span of free pages. `none` is a write behind
-- the end of the table.
pub mod Spans
pub mod Tests
use mathlib.Core.Option
use os_open_blt.Base.{
  Option, none, some, ℕ, zero, suc, ◌+◌, ◌-◌, ◌*◌, ◌/◌, ◌%◌, ◌^◌, ◌||◌, ◌==◌, ltb, if◌then◌else◌,
  update,
}

-- An entry of the table is written, if there is one.
unfoldable pub set_entry : ℕ → ℕ → (ℕ → ℕ) → Option (ℕ → ℕ)
set_entry virt entry ptab = if ltb virt 1024 then some (update ptab virt entry) else none

unfoldable aspace_protect : ℕ → ℕ → (ℕ → ℕ) → Option (ℕ → ℕ)
aspace_protect virt flags ptab =
    set_entry virt (ptab virt / 4096 % 2 ^ 20 * 4096 + flags % 4096) ptab

unfoldable pub aspace_map : ℕ → ℕ → ℕ → ℕ → (ℕ → ℕ) → Option (ℕ → ℕ)
aspace_map phys virt zero flags ptab = some ptab
aspace_map phys virt (suc len) flags ptab =
    Option.bind (aspace_map phys virt len flags ptab)
      (set_entry (virt + len) ((phys + len) * 4096 % 2 ^ 32 + flags % 4096))

unfoldable pub aspace_clr : ℕ → ℕ → (ℕ → ℕ) → Option (ℕ → ℕ)
aspace_clr virt zero ptab = some ptab
aspace_clr virt (suc len) ptab = Option.bind (aspace_clr virt len ptab) (set_entry (virt + len) 0)

-- The loop of `locate_span`, with `left` pages to the end of the table.
pub span_from : ℕ → (ℕ → ℕ) → ℕ → ℕ → ℕ → ℕ → ℕ
span_from zero map start len found foundat = foundat
span_from (suc left) map start len found foundat =
    let free = map start == 0 in
    let found' = if free then found + 1 else 0 in
    let foundat' = if free then (if found == 0 then start else foundat) else 0 in
    let rest = span_from left map (start + 1) len found' foundat' in
    if ltb found len then rest else foundat

pub locate_span : (ℕ → ℕ) → ℕ → ℕ → ℕ
locate_span map start len =
    let from = if ltb start 1 || ltb 1023 start then 512 else start in
    span_from (1024 - from) map from len 0 0
